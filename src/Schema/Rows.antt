-- ===== src/Schema/Rows.antt =====
-- The rows of the tables. Ids are numbers (cuids in the source), times are milliseconds,
-- durations minutes, money centavos. A nullable column is an `Option`. Texts that only people
-- read are left out, and so are the columns that no modelled operation reads or writes.
use servicehub_backend.Base.{ℕ, Bool, Option}
use servicehub_backend.Base.Int.{ℤ}
use servicehub_backend.Schema.Enums.{
  BookingStatus, QueueStatus, PaymentStatus, PaymentMethod, VerificationStatus, ModerationStatus,
  Role, ServiceStatus, PriceType, RequestStatus, OfferStatus, AttemptStatus, RefundStatus,
  TransactionType, CaseStatus, ReportType, Plan, SubscriptionStatus, TrustCategory, OperationStatus,
  Stage, ProgressKind, ActorRole, ServiceLocationMode, BookingLocationMode,
}

-- A text that a schema measures: a number that stands for it, and its number of characters, as it
-- is and without the white space around it.
pub record Text : Type 0 where
  pub content : ℕ
  pub length : ℕ
  pub trimmed : ℕ
  pub trimmed_length : ℕ

-- A job location: coordinates in millionths of a degree, a label, and an address.
pub record JobLocation : Type 0 where
  pub latitude : Option ℤ
  pub longitude : Option ℤ
  pub label : Text
  pub address : Option Text

-- The location columns of a listing or a request.
pub record Site : Type 0 where
  pub latitude : Option ℤ
  pub longitude : Option ℤ
  pub location_label : Option Text

-- The JSON object { cash, gcash }.
pub record PaymentChoice : Type 0 where
  pub cash : Bool
  pub gcash : Bool

pub record Membership : Type 0 where
  pub plan : Plan
  pub subscription_status : SubscriptionStatus
  pub subscription_started_at : Option ℕ
  pub subscription_expires_at : Option ℕ
  pub free_plan_started_at : Option ℕ
  pub free_plan_expires_at : Option ℕ

pub record User : Type 0 where
  pub id : ℕ
  pub role : Role
  pub trust_score : ℕ
  pub verification : VerificationStatus
  pub is_active : Bool
  pub moderation : ModerationStatus
  pub email_verified : Bool
  pub deactivated_at : Option ℕ
  pub online_queue_limit : ℕ
  pub membership : Membership

pub record Booking : Type 0 where
  pub id : ℕ
  pub seeker_id : ℕ
  pub provider_id : ℕ
  pub service_id : Option ℕ
  pub offer_id : Option ℕ
  pub direct_request_id : Option ℕ
  pub payment_attempt_id : Option ℕ
  pub payment_method : PaymentMethod
  pub agreed_amount : Option ℕ
  pub estimated_duration_mins : Option ℕ
  pub payment_status : PaymentStatus
  pub status : BookingStatus
  pub status_before_dispute : Option BookingStatus
  pub queue_position : Option ℕ
  pub job_location : Option JobLocation
  pub service_location_mode : Option BookingLocationMode
  pub transportation_fee : Option ℕ
  pub started : Bool
  pub hidden_by_seeker : Bool
  pub hidden_by_provider : Bool
  pub updated_at : ℕ

pub record QueueEntry : Type 0 where
  pub id : ℕ
  pub provider_id : ℕ
  pub service_id : Option ℕ
  pub seeker_id : ℕ
  pub offer_id : Option ℕ
  pub payment_id : ℕ
  pub paymongo_payment_id : Option ℕ
  pub payment_status : PaymentStatus
  pub position : ℕ
  pub status : QueueStatus
  pub estimated_wait : ℕ
  pub joined_at : ℕ
  pub booking_id : Option ℕ

pub record QueueNotify : Type 0 where
  pub id : ℕ
  pub service_id : ℕ
  pub seeker_id : ℕ
  pub requested_at : ℕ

pub record Service : Type 0 where
  pub id : ℕ
  pub provider_id : ℕ
  pub status : ServiceStatus
  pub is_available : Bool
  pub price : Option ℕ
  pub price_type : PriceType
  pub estimated_duration_mins : ℕ
  pub accepts_cash : Bool
  pub accepts_gcash : Bool
  pub category_id : ℕ
  pub site : Site
  pub venue_address : Option Text
  pub transportation_fee : Option ℕ
  pub service_location_mode : ServiceLocationMode

pub record Offer : Type 0 where
  pub id : ℕ
  pub request_id : ℕ
  pub provider_id : ℕ
  pub service_id : Option ℕ
  pub offered_price : ℕ
  pub estimated_duration : ℕ
  pub status : OfferStatus
  pub payment_hold_expires_at : Option ℕ
  pub service_location_mode : Option BookingLocationMode
  pub provider_venue : Option JobLocation

pub record ServiceRequest : Type 0 where
  pub id : ℕ
  pub seeker_id : ℕ
  pub target_provider_id : Option ℕ
  pub target_service_id : Option ℕ
  pub preferred_payment_method : Option PaymentMethod
  pub payment_methods : Option PaymentChoice
  pub category_id : ℕ
  pub site : Site
  pub private_address : Option Text
  pub service_location_mode : ServiceLocationMode
  pub status : RequestStatus

pub record PaymentAttempt : Type 0 where
  pub id : ℕ
  pub seeker_id : ℕ
  pub provider_id : ℕ
  pub service_id : Option ℕ
  pub quantity : ℕ
  pub offer_id : Option ℕ
  pub provider_intent_id : Option ℕ
  pub provider_payment_id : Option ℕ
  pub commission_rate_bps : ℕ
  pub platform_fee_amount : ℕ
  pub provider_net_amount : Option ℕ
  pub paid_at : Option ℕ
  pub amount : ℕ
  pub estimated_duration_mins : Option ℕ
  pub job_location : Option JobLocation
  pub service_location_mode : Option BookingLocationMode
  pub transportation_fee : Option ℕ
  pub payment_method : PaymentMethod
  pub redirect_url : Option ℕ
  pub status : AttemptStatus
  pub expires_at : ℕ

pub record PaymentRefund : Type 0 where
  pub id : ℕ
  pub booking_id : Option ℕ
  pub payment_attempt_id : Option ℕ
  pub payment_id : ℕ
  pub paymongo_refund_id : Option ℕ
  pub amount : ℕ
  pub status : RefundStatus
  pub requested_by_id : ℕ

pub record CompletedService : Type 0 where
  pub id : ℕ
  pub booking_id : Option ℕ
  pub queue_id : Option ℕ
  pub direct_request_id : Option ℕ
  pub offer_id : Option ℕ
  pub seeker_id : ℕ
  pub provider_id : ℕ
  pub final_price : ℕ
  pub commission_rate_bps : ℕ
  pub platform_fee_amount : ℕ
  pub provider_net_amount : Option ℕ
  pub payment_status : PaymentStatus

-- The key that makes a wallet entry unique: `booking-completion:ID` or `booking-refund:ID`.
pub data LedgerKey : Type 0 where
  booking_completion booking_refund : ℕ → LedgerKey

pub record Transaction : Type 0 where
  pub id : ℕ
  pub wallet_owner_id : ℕ
  pub type_ : TransactionType
  pub amount : ℕ
  pub related_booking_id : ℕ
  pub paymongo_ref_id : Option ℕ
  pub key : LedgerKey

-- The unique key of a trust event, such as `booking-completion:ID:provider`. The second
-- argument of `manual_trust` is the operation of the administrator.
pub data EventKey : Type 0 where
  account_baseline verification_approval trust_operation : ℕ → EventKey
  completion_provider completion_seeker : ℕ → EventKey
  cancellation_fault report_fault manual_trust : ℕ → ℕ → EventKey
  review_event : ℕ → EventKey

pub record TrustEvent : Type 0 where
  pub id : ℕ
  pub user_id : ℕ
  pub delta : ℤ
  pub requested_delta : ℤ
  pub reason : ℕ
  pub score_before : ℕ
  pub score_after : ℕ
  pub actor_admin_id : Option ℕ
  pub event_key : EventKey
  pub created_at : ℕ
  pub booking_id : Option ℕ
  pub category : TrustCategory
  -- `booking-penalty:BOOKING:USER`
  pub penalty_key : Option (ℕ × ℕ)
  pub reverses_event_id : Option ℕ

pub data DirectRequestStatus : Type 0 where
  pending_approval accepted declined : DirectRequestStatus

pub record DirectRequest : Type 0 where
  pub id : ℕ
  pub seeker_id : ℕ
  pub provider_id : ℕ
  pub service_id : ℕ
  pub quantity : ℕ
  pub agreed_price : ℕ
  pub status : DirectRequestStatus

pub record Report : Type 0 where
  pub id : ℕ
  pub booking_id : ℕ
  pub reporter_id : ℕ
  pub reported_user_id : ℕ
  pub report_type : ReportType
  pub status : CaseStatus

-- The values that `resolutionOutcome` of a cancellation request takes.
pub data CancellationOutcome : Type 0 where
  immediate_cancel_pending immediate_cancel participant_approved : CancellationOutcome
  approved denied : CancellationOutcome

pub record CancellationRequest : Type 0 where
  pub id : ℕ
  pub booking_id : ℕ
  pub requested_by : ℕ
  pub responder_id : Option ℕ
  pub status : CaseStatus
  pub report_id : Option ℕ
  pub resolution_outcome : Option CancellationOutcome
  pub created_at : ℕ
  pub resolved_at : Option ℕ

-- The values that `resolution` of a completion escalation takes.
pub data Resolution : Type 0 where
  release_provider_and_complete refund_seeker keep_awaiting : Resolution
  seeker_confirmed superseded_by_seeker_dispute : Resolution

pub record CompletionEscalation : Type 0 where
  pub id : ℕ
  pub booking_id : ℕ
  pub requested_by : ℕ
  pub status : CaseStatus
  pub resolution : Option Resolution
  pub created_at : ℕ
  pub resolved_at : Option ℕ

pub data CaseType : Type 0 where
  report completion_escalation cancellation admin_booking : CaseType

pub record Operation : Type 0 where
  pub id : ℕ
  pub case_type : CaseType
  pub case_id : ℕ
  pub booking_id : ℕ
  pub requested_by_admin_id : ℕ
  pub requested_outcome : ℕ
  pub requested_penalty : ℕ
  pub status : OperationStatus
  pub stage : Stage
  pub last_error : Option ℕ
  pub result : Option ℕ

pub record ProgressEvent : Type 0 where
  pub booking_id : ℕ
  pub kind : ProgressKind
  pub actor_role : ActorRole
  -- the kind itself, or the kind with the id of the case or the time that made it
  pub event_key : ProgressKind × ℕ
  pub occurred_at : ℕ

-- What a notification tells; a constructor stands for its title, body and link.
pub data Notice : Type 0 where
  slot_available : Notice
  job_started marked_complete completion_confirmed completion_disputed : ℕ → Notice
  dispute_review booking_cancelled refund_processed : ℕ → Notice
  cancellation_received cancellation_declined cancellation_approved : ℕ → Notice
  cancellation_escalated cancellation_review : ℕ → Notice
  completion_review_requested escalation_review escalation_resolved : ℕ → Notice
  trust_penalty trust_adjusted : Notice
  payment_confirmed paid_booking_ready offer_not_selected offer_declined offer_withdrawn :
      ℕ → Notice
  offer_received price_proposed price_withdrawn : ℕ → Notice
  direct_request_received booking_accepted offer_accepted booking_confirmed : ℕ → Notice
  booking_request_declined : ℕ → Notice

pub record Notification : Type 0 where
  pub user_id : ℕ
  pub notice : Notice

-- A system message of a booking's conversation.
pub data SystemText : Type 0 where
  started_text cancelled_text cash_completed_text payment_released_text : SystemText
  agreement_text : SystemText

pub record Message : Type 0 where
  pub booking_id : ℕ
  pub sender_id : ℕ
  pub receiver_id : ℕ
  pub content : SystemText

pub data AuditAction : Type 0 where
  trust_score_adjusted cancellation_case_closed completion_escalation_resolved : AuditAction

pub record AuditLog : Type 0 where
  pub actor_id : ℕ
  pub target_user_id : Option ℕ
  pub action : AuditAction
  pub resource_id : ℕ
