-- ===== src/Cancellations/Requests.antt =====
-- The requests to cancel a booking (services/cancellation.service.ts: requestCancellation, the
-- declining half of respondToCancellationRequest, and escalateCancellationRequest).
use servicehub_backend.Base.{
  ℕ, Bool, true, false, not, ◌&&◌, ◌||◌, Option, none, some, List, [], ◌∷◌, ltb, ◌==◌,
  if◌then◌else◌, refers, is_some, Code, Result, ok, err, ◌>>=◌, ◌>>◌, http, require, reject, found,
  select, update, insert,
}
use servicehub_backend.Schema.{
  Db, Booking, BookingStatus, PaymentStatus, CancellationRequest, CaseStatus, CancellationOutcome,
  ReportType, Notice, ProgressKind, is_closed, is_canceled, is_paid_held, is_on_hold,
  is_active_cancellation, find_booking, update_booking, fresh_id, notify,
}
use servicehub_backend.Bookings.{
  assert_no_financial_resolution_reserved, record_booking_progress, record_lifecycle_notice,
  booking_actor_role, other_party,
}
use servicehub_backend.Bookings.Completion.{notify_admins}
use servicehub_backend.Cancellations.{
  find_cancellation, update_cancellation, is_case_under_review, is_immediate_pending,
}

-- orderBy: { createdAt: "desc" }
abbrev pub latest_request : List CancellationRequest → Option CancellationRequest
latest_request [] = none
latest_request (x ∷ xs) = elim (latest_request xs) [
  | none ↦ some x
  | some y ↦ if ltb x.created_at y.created_at then some y else some x
]

abbrev pub is_active_for : ℕ → CancellationRequest → Bool
is_active_for booking c = c.booking_id == booking && is_active_cancellation c.status

abbrev pub active_request : ℕ → Db → Option CancellationRequest
active_request booking db = latest_request (select (is_active_for booking) db.cancellations)

pub record Claim : Type 0 where
  pub request : Option ℕ
  pub immediate : Bool
  pub already_cancelled : Bool

-- The answer to a request while another is active.
unfoldable pub repeat_claim : Booking → ℕ → CancellationRequest → Result Claim
repeat_claim b user c =
    if not (c.requested_by == user)
    then err (http 409 Code.active_cancellation_exists)
    else ok (record {
      request = some c.id;
      immediate =
          is_case_under_review c.status
          && is_immediate_pending c.resolution_outcome
          && (not b.started || is_canceled b.status);
      already_cancelled = false;
    })

abbrev pub new_request : ℕ → Booking → ℕ → ℕ → CancellationRequest
new_request id b user now = record {
  id = id;
  booking_id = b.id;
  requested_by = user;
  responder_id = some (other_party b user);
  status = if b.started then CaseStatus.pending else CaseStatus.under_review;
  report_id = none;
  resolution_outcome =
      if b.started then none else some CancellationOutcome.immediate_cancel_pending;
  created_at = now;
  resolved_at = none;
}

abbrev pub hold_booking : Booking → Booking → Booking
hold_booking read b = record b {
  status = BookingStatus.under_review;
  status_before_dispute = some read.status;
  payment_status =
      if is_paid_held read.payment_status then PaymentStatus.frozen_held else read.payment_status;
}

-- A booking that has not started is put on hold, with its payment.
abbrev pub hold_unstarted : Booking → Db → Db
hold_unstarted b db =
    let held = update_booking b.id (hold_booking b) db in
    if b.started
    then db
    else (if is_paid_held b.payment_status
        then record held {
          queue =
              update (λ q. refers q.booking_id b.id)
                (λ q. record q { payment_status = PaymentStatus.frozen_held }) held.queue;
        }
        else held)

unfoldable pub claim_rows : Booking → ℕ → ℕ → Db → Db
claim_rows b user now db = hold_unstarted b (
    record_booking_progress b.id ProgressKind.cancellation_requested
      (booking_actor_role b (some user)) db.next_id now
      (fresh_id (record db {
        cancellations = insert (new_request db.next_id b user now) db.cancellations;
      })))

abbrev pub tell_request : Booking → ℕ → Db → Result Db
tell_request b user db =
    if not b.started
    then ok db
    else record_lifecycle_notice b ((other_party b user, Notice.cancellation_received b.id) ∷ [])
        none db

unfoldable pub new_claim : Booking → ℕ → ℕ → Db → Result (Claim × Db)
new_claim b user now db = do
  reject (is_closed b.status || is_on_hold b.status) (http 409 Code.no_code)
  assert_no_financial_resolution_reserved b.id none db
  d ← tell_request b user (claim_rows b user now db)
  ok (record { request = some db.next_id; immediate = not b.started; already_cancelled = false }, d)

-- The first transaction of `requestCancellation`.
unfoldable pub claim_cancellation : ℕ → ℕ → ℕ → Db → Result (Claim × Db)
claim_cancellation booking user now db = do
  b ← found (find_booking booking db) (http 404 Code.no_code)
  require (b.seeker_id == user || b.provider_id == user) (http 404 Code.no_code)
  elim (active_request booking db) [
    | some c ↦ repeat_claim b user c >>= λ claim. ok (claim, db)
    | none ↦
        if is_canceled b.status
        then ok (record { request = none; immediate = true; already_cancelled = true }, db)
        else new_claim b user now db
  ]

-- The last transaction of `requestCancellation`, after the booking was cancelled at once.
unfoldable pub confirm_immediate : ℕ → ℕ → ℕ → Db → Result Db
confirm_immediate booking request now db = do
  b ← found (find_booking booking db) (http 409 Code.no_code)
  require (is_canceled b.status) (http 409 Code.no_code)
  ok (
      update_cancellation request
        (λ c. record c {
          status = CaseStatus.approved;
          resolution_outcome = some CancellationOutcome.immediate_cancel;
          resolved_at = some now;
        })
        db)

abbrev pub is_pending_case : CaseStatus → Bool
is_pending_case CaseStatus.pending = true
is_pending_case _ = false

-- `approve: false`; `note_length` is the length of the trimmed note.
unfoldable pub decline_cancellation : ℕ → ℕ → ℕ → ℕ → Db → Result Db
decline_cancellation request responder note_length now db = do
  reject (ltb note_length 3) (http 400 Code.cancellation_decline_reason_required)
  c ← found (find_cancellation request db) (http 404 Code.no_code)
  reject (not (refers c.responder_id responder) || c.requested_by == responder)
      (http 404 Code.no_code)
  b ← found (find_booking c.booking_id db) (http 404 Code.no_code)
  require (is_pending_case c.status) (http 409 Code.no_code)
  ok (
      notify c.requested_by (Notice.cancellation_declined c.booking_id) (
        record_booking_progress c.booking_id ProgressKind.cancellation_declined
          (booking_actor_role b (some responder)) c.id now
          (update_cancellation c.id
            (λ x. record x { status = CaseStatus.declined; resolved_at = some now }) db)))

abbrev pub is_escalated : CaseStatus → Bool
is_escalated CaseStatus.escalated = true
is_escalated _ = false

abbrev pub is_declined_case : CaseStatus → Bool
is_declined_case CaseStatus.declined = true
is_declined_case _ = false

-- The report of an escalation, with a link from the request to it.
unfoldable pub escalation_rows : CancellationRequest → Booking → ℕ → Db → Db
escalation_rows c b user db =
    update_cancellation c.id
      (λ x. record x { status = CaseStatus.escalated; report_id = some db.next_id })
      (fresh_id (record db {
        reports =
            insert
              (record {
                id = db.next_id;
                booking_id = c.booking_id;
                reporter_id = user;
                reported_user_id = other_party b user;
                report_type = ReportType.cancellation_escalation;
                status = CaseStatus.pending;
              })
              db.reports;
      }))

unfoldable pub escalate_cancellation : ℕ → ℕ → ℕ → Db → Result Db
escalate_cancellation request user now db = do
  c ← found (find_cancellation request db) (http 404 Code.no_code)
  require (c.requested_by == user) (http 404 Code.no_code)
  b ← found (find_booking c.booking_id db) (http 404 Code.no_code)
  if is_escalated c.status && is_some c.report_id
      then ok db
      else (require (is_declined_case c.status) (http 409 Code.no_code)
          >> (assert_no_financial_resolution_reserved c.booking_id none db
              >> ok (
                  notify_admins (Notice.cancellation_review db.next_id) (
                    notify (other_party b user) (Notice.cancellation_escalated c.booking_id) (
                      record_booking_progress c.booking_id ProgressKind.cancellation_escalated
                        (booking_actor_role b (some user)) c.id now
                        (escalation_rows c b user db))))))
