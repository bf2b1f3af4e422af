-- ===== src/Bookings/Completion.antt =====
-- services/bookings/completion.service.ts: the provider marks a job complete, the seeker or an
-- administrator settles it, or the seeker disputes it.
pub mod Ledger
pub mod Settlement
pub mod Payout
pub mod Held
use servicehub_backend.Base.{
  ℕ, Bool, true, false, not, ◌&&◌, ◌||◌, Option, none, some, [], ◌∷◌, map, ◌==◌, if◌then◌else◌,
  is_some, or_else, Code, Result, ok, ◌>>=◌, ◌>>◌, http, require, reject, found, find, select,
  update, insert,
}
use servicehub_backend.Schema.{
  Db, Booking, QueueEntry, QueueStatus, BookingStatus, PaymentStatus, PaymentAttempt,
  CompletedService, Transaction, TransactionType, LedgerKey, Notice, SystemText, ProgressKind,
  ActorRole, RequestStatus, Resolution, CompletionEscalation, CaseStatus, Report, ReportType, User,
  is_ongoing, is_awaiting, is_completed, is_on_hold, is_cash, is_unpaid, is_paid_held,
  is_frozen_held, is_open_case, is_dispute, is_admin, is_moderation_active, find_booking, queue_of,
  completed_of, update_booking, update_queue, fresh_id,
}
use servicehub_backend.Policy.Accounts.{assert_distinct_accounts}
use servicehub_backend.Queue.{recalculate_queue, notify_waitlist}
use servicehub_backend.Trust.Bookings.{award_booking_completion_trust}
use servicehub_backend.Bookings.{
  assert_no_refund_in_progress, assert_no_financial_resolution_reserved, record_booking_progress,
  record_lifecycle_notice, notify_all,
}
use servicehub_backend.Bookings.Start.{resolve_booking}

abbrev pub mark_complete : ℕ → Booking → Booking
mark_complete now b = record b { status = BookingStatus.awaiting_confirmation; updated_at = now }

abbrev pub finish : QueueEntry → QueueEntry
finish q = record q { status = QueueStatus.done }

-- The queue after a job: its entry is done, and the first of the waitlist is told.
unfoldable pub leave_service : Option QueueEntry → ℕ → ℕ → Db → Db
leave_service none provider now db = recalculate_queue provider db
leave_service (some q) provider now db =
    (notify_waitlist provider now (recalculate_queue provider (update_queue q.id finish db))).1

unfoldable pub mark_job_complete : ℕ → ℕ → ℕ → Db → Result Db
mark_job_complete id provider now db = do
  b ← found (resolve_booking id db) (http 404 Code.no_code)
  require (b.provider_id == provider) (http 403 Code.no_code)
  assert_no_refund_in_progress b.id db
  if is_awaiting b.status
      then ok db
      else (require (is_ongoing b.status) (http 409 Code.no_code)
          >> record_lifecycle_notice b ((b.seeker_id, Notice.marked_complete b.id) ∷ []) none (
              leave_service (queue_of b.id db) b.provider_id now (
                record_booking_progress b.id ProgressKind.work_marked_complete ActorRole.provider
                  now now (update_booking b.id (mark_complete now) db))))

-- { type: "SEEKER" | "ADMIN"; userId }
pub data Settler : Type 0 where
  by_seeker by_admin : ℕ → Settler

abbrev pub settler_id : Settler → ℕ
settler_id (Settler.by_seeker u) = u
settler_id (Settler.by_admin u) = u

abbrev pub is_by_admin : Settler → Bool
is_by_admin (Settler.by_admin _) = true
is_by_admin (Settler.by_seeker _) = false

abbrev pub settler_role : Settler → ActorRole
settler_role (Settler.by_seeker _) = ActorRole.seeker
settler_role (Settler.by_admin _) = ActorRole.admin

abbrev pub is_disputed : BookingStatus → Bool
is_disputed BookingStatus.disputed = true
is_disputed _ = false

abbrev pub may_settle : Bool → BookingStatus → Bool
may_settle admin status = is_awaiting status || (admin && is_on_hold status)

abbrev pub was_awaiting : Option BookingStatus → Bool
was_awaiting none = false
was_awaiting (some s) = is_awaiting s

-- An on-site payment is still unpaid; an online one is held, frozen while the booking is disputed.
abbrev pub valid_payment_state : Bool → Booking → Bool
valid_payment_state admin b =
    if is_cash b.payment_method
    then is_unpaid b.payment_status
    else (if admin && is_disputed b.status
        then is_frozen_held b.payment_status
        else is_paid_held b.payment_status)

unfoldable pub check_settlement : Bool → Booking → Result (Unit {0})
check_settlement admin b = do
  require (may_settle admin b.status) (http 409 Code.no_code)
  reject (admin && is_on_hold b.status && not (was_awaiting b.status_before_dispute))
      (http 422 Code.invalid_dispute_completion_state)
  require (valid_payment_state admin b) (http 409 Code.invalid_completion_payment_state)
  reject (or_else b.agreed_amount 0 == 0) (http 409 Code.agreed_amount_missing)

abbrev pub settlement_status : Booking → PaymentStatus
settlement_status b =
    if is_cash b.payment_method then PaymentStatus.cash_confirmed else PaymentStatus.released

-- The attempt that an online booking was paid by; cash and older bookings have none.
abbrev pub payment_terms : Booking → Db → Option PaymentAttempt
payment_terms b db =
    if is_cash b.payment_method
    then none
    else elim b.payment_attempt_id [ none ↦ none | some id ↦ find (λ a. a.id == id) db.attempts ]

abbrev pub terms_rate : Option PaymentAttempt → ℕ
terms_rate none = 0
terms_rate (some a) = a.commission_rate_bps

abbrev pub terms_fee : Option PaymentAttempt → ℕ
terms_fee none = 0
terms_fee (some a) = a.platform_fee_amount

abbrev pub terms_net : Option PaymentAttempt → ℕ → ℕ
terms_net none agreed = agreed
terms_net (some a) agreed = or_else a.provider_net_amount agreed

abbrev pub entry_id : Option QueueEntry → Option ℕ
entry_id none = none
entry_id (some q) = some q.id

unfoldable pub completed_row :
    ℕ → Booking → Option QueueEntry → Option PaymentAttempt → CompletedService
completed_row id b entry terms = record {
  id = id;
  booking_id = some b.id;
  queue_id = entry_id entry;
  direct_request_id = b.direct_request_id;
  offer_id = b.offer_id;
  seeker_id = b.seeker_id;
  provider_id = b.provider_id;
  final_price = or_else b.agreed_amount 0;
  commission_rate_bps = terms_rate terms;
  platform_fee_amount = terms_fee terms;
  provider_net_amount = some (terms_net terms (or_else b.agreed_amount 0));
  payment_status = settlement_status b;
}

abbrev pub create_completed : Booking → Option QueueEntry → Option PaymentAttempt → Db → Db
create_completed b entry terms db =
    fresh_id
      (record db { completed = insert (completed_row db.next_id b entry terms) db.completed })

abbrev pub settle_booking : PaymentStatus → Booking → Booking
settle_booking paid b = record b {
  status = BookingStatus.completed;
  payment_status = paid;
  status_before_dispute = none;
}

abbrev pub settle_queue : Option QueueEntry → PaymentStatus → ℕ → Db → Db
settle_queue none paid provider db = db
settle_queue (some q) paid provider db =
    recalculate_queue provider
      (update_queue q.id (λ x. record x { status = QueueStatus.done; payment_status = paid }) db)

-- `booking.offer?.requestId`
abbrev pub request_of : Booking → Db → Option ℕ
request_of b db = elim b.offer_id [
  | none ↦ none
  | some offer ↦ elim (find (λ o. o.id == offer) db.offers) [
    | none ↦ none
    | some o ↦ some o.request_id
  ]
]

abbrev pub set_request : Option ℕ → RequestStatus → Db → Db
set_request none status db = db
set_request (some id) status db = record db {
  requests = update (λ r. r.id == id) (λ r. record r { status = status }) db.requests;
}

abbrev pub close_escalations : CaseStatus → Resolution → ℕ → ℕ → Db → Db
close_escalations status resolution booking now db = record db {
  escalations =
      update (λ e. e.booking_id == booking && is_open_case e.status)
        (λ e. record e { status = status; resolution = some resolution; resolved_at = some now })
        db.escalations;
}

abbrev pub confirm_escalations : Settler → ℕ → ℕ → Db → Db
confirm_escalations (Settler.by_admin _) booking now db = db
confirm_escalations (Settler.by_seeker _) booking now db =
    close_escalations CaseStatus.resolved Resolution.seeker_confirmed booking now db

-- Only an online payment enters the ledger. The entry refers to the row of the completed service.
unfoldable pub pay_provider : Booking → ℕ → ℕ → Db → Db
pay_provider b completed_id net db =
    if is_cash b.payment_method
    then db
    else fresh_id (record db {
      transactions =
          insert
            (record {
              id = db.next_id;
              wallet_owner_id = b.provider_id;
              type_ = TransactionType.earning;
              amount = net;
              related_booking_id = completed_id;
              paymongo_ref_id = none;
              key = LedgerKey.booking_completion b.id;
            })
            db.transactions;
    })

-- The writes of a settlement to the rows of the booking.
unfoldable pub settle_rows : Settler → Booking → ℕ → Db → Db
settle_rows actor b now db = confirm_escalations actor b.id now (
    set_request (request_of b db) RequestStatus.closed (
      settle_queue (queue_of b.id db) (settlement_status b) b.provider_id (
        record_booking_progress b.id ProgressKind.completion_confirmed (settler_role actor) 0 now (
          update_booking b.id (settle_booking (settlement_status b))
            (create_completed b (queue_of b.id db) (payment_terms b db) db)))))

abbrev pub settle : Settler → Booking → ℕ → Db → Db
settle actor b now db =
    pay_provider b db.next_id (terms_net (payment_terms b db) (or_else b.agreed_amount 0))
      (settle_rows actor b now db)

abbrev pub settlement_text : Booking → SystemText
settlement_text b =
    if is_cash b.payment_method
    then SystemText.cash_completed_text
    else SystemText.payment_released_text

abbrev pub is_own_settlement : Settler → Booking → Bool
is_own_settlement (Settler.by_seeker u) b = b.seeker_id == u
is_own_settlement (Settler.by_admin u) b = true

-- The settlement of a booking that passes the checks.
unfoldable pub settle_checked : Settler → Booking → ℕ → Db → Result Db
settle_checked actor b now db =
    award_booking_completion_trust b.id now (settle actor b now db)
    >>= record_lifecycle_notice b
        ((b.provider_id, Notice.completion_confirmed b.id)
          ∷ (b.seeker_id, Notice.completion_confirmed b.id)
          ∷ [])
        (some (settler_id actor, settlement_text b))

unfoldable pub settle_completed_booking : ℕ → Settler → ℕ → Db → Result Db
settle_completed_booking booking actor now db = do
  b ← found (find_booking booking db) (http 404 Code.no_code)
  assert_no_refund_in_progress booking db
  require (is_own_settlement actor b) (http 403 Code.no_code)
  if is_completed b.status && is_some (completed_of b.id db)
      then ok db
      else (check_settlement (is_by_admin actor) b >> settle_checked actor b now db)

abbrev pub confirm_completion : ℕ → ℕ → ℕ → Db → Result Db
confirm_completion booking seeker now db =
    settle_completed_booking booking (Settler.by_seeker seeker) now db

abbrev pub frozen : Booking → PaymentStatus
frozen b = if is_cash b.payment_method then PaymentStatus.unpaid else PaymentStatus.frozen_held

abbrev pub dispute : PaymentStatus → Booking → Booking
dispute payment b = record b {
  status = BookingStatus.disputed;
  status_before_dispute = some b.status;
  payment_status = payment;
}

abbrev pub freeze_entry : Option QueueEntry → PaymentStatus → Db → Db
freeze_entry none payment db = db
freeze_entry (some q) payment db = update_queue q.id (λ x. record x { payment_status = payment }) db

abbrev pub create_dispute : Booking → Db → Db
create_dispute b db = fresh_id (record db {
  reports =
      insert
        (record {
          id = db.next_id;
          booking_id = b.id;
          reporter_id = b.seeker_id;
          reported_user_id = b.provider_id;
          report_type = ReportType.completion_dispute;
          status = CaseStatus.pending;
        })
        db.reports;
})

abbrev pub is_active_admin : User → Bool
is_active_admin u = is_admin u.role && u.is_active && is_moderation_active u.moderation

-- `recordAdminNotifications`
abbrev pub notify_admins : Notice → Db → Db
notify_admins notice db =
    notify_all (map (λ u. (u.id, notice)) (select is_active_admin db.users)) db

abbrev pub has_open_dispute : ℕ → ℕ → Db → Bool
has_open_dispute booking seeker db = is_some (
    find
      (λ r.
        r.booking_id == booking
        && r.reporter_id == seeker
        && is_dispute r.report_type
        && is_open_case r.status)
      db.reports)

unfoldable pub dispute_job : ℕ → ℕ → ℕ → Db → Result Db
dispute_job booking seeker now db = do
  b ← found (find_booking booking db) (http 404 Code.no_code)
  require (b.seeker_id == seeker) (http 404 Code.no_code)
  assert_no_refund_in_progress booking db
  assert_no_financial_resolution_reserved booking none db
  reject (has_open_dispute booking seeker db) (http 409 Code.duplicate_dispute)
  require (is_awaiting b.status) (http 409 Code.no_code)
  assert_distinct_accounts seeker b.provider_id
  d ← record_lifecycle_notice b ((b.provider_id, Notice.completion_disputed b.id) ∷ []) none (
      create_dispute b (
        close_escalations CaseStatus.dismissed Resolution.superseded_by_seeker_dispute b.id now (
          freeze_entry (queue_of b.id db) (frozen b)
            (update_booking b.id (dispute (frozen b)) db))))
  ok (notify_admins (Notice.dispute_review db.next_id) d)
