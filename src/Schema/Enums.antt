-- ===== src/Schema/Enums.antt =====
-- The enums of prisma/schema.prisma, with the status lists that the services test for.
-- A column that is a string with few values (role, paymentMethod, the statuses of cases) is
-- one too.
use servicehub_backend.Base.{Bool, true, false}

pub data BookingStatus : Type 0 where
  pending_approval waiting ongoing accepted awaiting_confirmation under_review : BookingStatus
  disputed declined canceled removed completed : BookingStatus

pub data QueueStatus : Type 0 where
  waiting serving done cancelled removed : QueueStatus

pub data PaymentStatus : Type 0 where
  unpaid paid_held frozen_held cash_confirmed released refunded : PaymentStatus

pub data PaymentMethod : Type 0 where
  gcash on_site_cash : PaymentMethod

pub data VerificationStatus : Type 0 where
  unverified pending_review approved rejected : VerificationStatus

pub data ModerationStatus : Type 0 where
  active suspended banned : ModerationStatus

pub data Role : Type 0 where
  user admin : Role

pub data ServiceStatus : Type 0 where
  pending_review active inactive suspended rejected deleted : ServiceStatus

pub data PriceType : Type 0 where
  fixed starts_at per_hour per_session per_day per_project custom by_agreement : PriceType

pub data ServiceLocationMode : Type 0 where
  provider_visits seeker_visits both remote : ServiceLocationMode

pub data BookingLocationMode : Type 0 where
  provider_visits seeker_visits remote : BookingLocationMode

pub data RequestStatus : Type 0 where
  open_ payment_pending in_progress closed canceled : RequestStatus

pub data OfferStatus : Type 0 where
  pending pending_payment accepted rejected withdrawn : OfferStatus

pub data AttemptStatus : Type 0 where
  pending succeeded failed expired refund_required refunded : AttemptStatus

-- Local statuses, and those that PayMongo reports, in upper case.
pub data RefundStatus : Type 0 where
  pending processing failed succeeded simulated_test_mode : RefundStatus

pub data TransactionType : Type 0 where
  earning withdrawal refund : TransactionType

-- Statuses of reports, cancellation requests and completion escalations.
pub data CaseStatus : Type 0 where
  pending under_review approved declined escalated resolved dismissed : CaseStatus

pub data ReportType : Type 0 where
  safety completion_dispute cancellation_escalation : ReportType

pub data Plan : Type 0 where
  free basic pro : Plan

pub data SubscriptionStatus : Type 0 where
  active expired cancelled : SubscriptionStatus

pub data TrustCategory : Type 0 where
  legacy completion report_penalty cancellation_penalty correction policy_transition : TrustCategory
  legacy_duplicate_penalty review_legacy : TrustCategory

pub data OperationStatus : Type 0 where
  processing failed_retryable failed_nonretryable completed : OperationStatus

pub data Stage : Type 0 where
  claimed decision_ready financial_effect_reserved : Stage
  financial_effect_established case_finalized : Stage

pub data ProgressKind : Type 0 where
  accepted started work_marked_complete completion_confirmed declined : ProgressKind
  cancellation_requested cancellation_approved cancellation_declined : ProgressKind
  cancellation_escalated canceled : ProgressKind

pub data ActorRole : Type 0 where
  seeker provider admin system : ActorRole

abbrev pub is_waiting : QueueStatus → Bool
is_waiting QueueStatus.waiting = true
is_waiting _ = false

abbrev pub is_serving : QueueStatus → Bool
is_serving QueueStatus.serving = true
is_serving _ = false

abbrev pub is_ongoing : BookingStatus → Bool
is_ongoing BookingStatus.ongoing = true
is_ongoing _ = false

abbrev pub is_accepted : BookingStatus → Bool
is_accepted BookingStatus.accepted = true
is_accepted _ = false

abbrev pub is_awaiting : BookingStatus → Bool
is_awaiting BookingStatus.awaiting_confirmation = true
is_awaiting _ = false

abbrev pub is_completed : BookingStatus → Bool
is_completed BookingStatus.completed = true
is_completed _ = false

abbrev pub is_canceled : BookingStatus → Bool
is_canceled BookingStatus.canceled = true
is_canceled _ = false

-- ["DISPUTED", "UNDER_REVIEW"]
abbrev pub is_on_hold : BookingStatus → Bool
is_on_hold BookingStatus.disputed = true
is_on_hold BookingStatus.under_review = true
is_on_hold _ = false

-- ["DECLINED", "CANCELED", "REMOVED"]
abbrev pub is_abandoned : BookingStatus → Bool
is_abandoned BookingStatus.declined = true
is_abandoned BookingStatus.canceled = true
is_abandoned BookingStatus.removed = true
is_abandoned _ = false

-- ["COMPLETED", "DECLINED", "REMOVED"]
abbrev pub is_closed : BookingStatus → Bool
is_closed BookingStatus.completed = true
is_closed BookingStatus.declined = true
is_closed BookingStatus.removed = true
is_closed _ = false

-- The seven statuses of a booking that still blocks another one for the same service.
abbrev pub is_active_booking : BookingStatus → Bool
is_active_booking BookingStatus.declined = false
is_active_booking BookingStatus.canceled = false
is_active_booking BookingStatus.removed = false
is_active_booking BookingStatus.completed = false
is_active_booking _ = true

abbrev pub is_unpaid : PaymentStatus → Bool
is_unpaid PaymentStatus.unpaid = true
is_unpaid _ = false

abbrev pub is_paid_held : PaymentStatus → Bool
is_paid_held PaymentStatus.paid_held = true
is_paid_held _ = false

abbrev pub is_frozen_held : PaymentStatus → Bool
is_frozen_held PaymentStatus.frozen_held = true
is_frozen_held _ = false

-- ["PAID_HELD", "FROZEN_HELD"]
abbrev pub is_held : PaymentStatus → Bool
is_held PaymentStatus.paid_held = true
is_held PaymentStatus.frozen_held = true
is_held _ = false

-- ["CASH_CONFIRMED", "RELEASED"]
abbrev pub is_settled : PaymentStatus → Bool
is_settled PaymentStatus.cash_confirmed = true
is_settled PaymentStatus.released = true
is_settled _ = false

abbrev pub is_refunded : PaymentStatus → Bool
is_refunded PaymentStatus.refunded = true
is_refunded _ = false

abbrev pub is_cash : PaymentMethod → Bool
is_cash PaymentMethod.on_site_cash = true
is_cash PaymentMethod.gcash = false

abbrev pub is_moderation_active : ModerationStatus → Bool
is_moderation_active ModerationStatus.active = true
is_moderation_active _ = false

abbrev pub is_approved : VerificationStatus → Bool
is_approved VerificationStatus.approved = true
is_approved _ = false

abbrev pub is_admin : Role → Bool
is_admin Role.admin = true
is_admin Role.user = false

abbrev pub is_member : Role → Bool
is_member Role.user = true
is_member Role.admin = false

abbrev pub is_listed : ServiceStatus → Bool
is_listed ServiceStatus.active = true
is_listed _ = false

abbrev pub is_open_request : RequestStatus → Bool
is_open_request RequestStatus.open_ = true
is_open_request _ = false

abbrev pub is_payment_pending : RequestStatus → Bool
is_payment_pending RequestStatus.payment_pending = true
is_payment_pending _ = false

abbrev pub is_pending_offer : OfferStatus → Bool
is_pending_offer OfferStatus.pending = true
is_pending_offer _ = false

abbrev pub is_pending_payment : OfferStatus → Bool
is_pending_payment OfferStatus.pending_payment = true
is_pending_payment _ = false

abbrev pub is_accepted_offer : OfferStatus → Bool
is_accepted_offer OfferStatus.accepted = true
is_accepted_offer _ = false

-- ["PENDING", "UNDER_REVIEW"]
abbrev pub is_open_case : CaseStatus → Bool
is_open_case CaseStatus.pending = true
is_open_case CaseStatus.under_review = true
is_open_case _ = false

-- ["PENDING", "DECLINED", "ESCALATED", "UNDER_REVIEW"]
abbrev pub is_active_cancellation : CaseStatus → Bool
is_active_cancellation CaseStatus.pending = true
is_active_cancellation CaseStatus.declined = true
is_active_cancellation CaseStatus.escalated = true
is_active_cancellation CaseStatus.under_review = true
is_active_cancellation _ = false

-- ["PENDING", "ESCALATED", "UNDER_REVIEW"]
abbrev pub is_undecided_cancellation : CaseStatus → Bool
is_undecided_cancellation CaseStatus.pending = true
is_undecided_cancellation CaseStatus.escalated = true
is_undecided_cancellation CaseStatus.under_review = true
is_undecided_cancellation _ = false

abbrev pub is_processing_refund : RefundStatus → Bool
is_processing_refund RefundStatus.processing = true
is_processing_refund _ = false

abbrev pub is_dispute : ReportType → Bool
is_dispute ReportType.completion_dispute = true
is_dispute _ = false

-- ["PROCESSING", "FAILED_RETRYABLE"]
abbrev pub is_running : OperationStatus → Bool
is_running OperationStatus.processing = true
is_running OperationStatus.failed_retryable = true
is_running _ = false

abbrev pub is_reserved_stage : Stage → Bool
is_reserved_stage Stage.financial_effect_reserved = true
is_reserved_stage Stage.financial_effect_established = true
is_reserved_stage _ = false

abbrev pub is_penalty : TrustCategory → Bool
is_penalty TrustCategory.report_penalty = true
is_penalty TrustCategory.cancellation_penalty = true
is_penalty _ = false

abbrev pub is_completion_event : TrustCategory → Bool
is_completion_event TrustCategory.completion = true
is_completion_event _ = false
