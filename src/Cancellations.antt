-- ===== src/Cancellations.antt =====
-- services/cancellation.service.ts: a booking that has not started is cancelled at once; for one
-- that has, the other participant decides, and a declined request can be escalated.
pub mod Immediate
pub mod Requests
pub mod Exclusive
use servicehub_backend.Base.{
  ℕ, Bool, true, false, not, ◌&&◌, ◌||◌, Option, none, some, List, [], ◌∷◌, ◌==◌, if◌then◌else◌,
  refers, is_some, or_else, Code, Result, ok, err, ◌>>=◌, ◌>>◌, http, require, reject, found, find,
  select, update,
}
use servicehub_backend.Schema.{
  Db, Booking, QueueEntry, QueueStatus, BookingStatus, PaymentStatus, CancellationRequest,
  CaseStatus, CancellationOutcome, Report, ReportType, Notice, SystemText, ProgressKind, ActorRole,
  RequestStatus, DirectRequestStatus, Message, is_closed, is_canceled, is_held, is_paid_held,
  is_on_hold, is_refunded, is_active_cancellation, find_booking, queue_of, completed_of,
  update_booking, update_queue, fresh_id, notify,
}
use servicehub_backend.Queue.{recalculate_queue, notify_waitlist}
use servicehub_backend.Bookings.{
  assert_no_refund_in_progress, assert_no_financial_resolution_reserved, record_booking_progress,
  record_lifecycle_notice, booking_actor_role, other_party, is_empty,
}
use servicehub_backend.Bookings.Completion.{request_of, set_request, notify_admins}
use servicehub_backend.Refunds.{World, refund_booking_payment, RefundResult}

abbrev pub find_cancellation : ℕ → Db → Option CancellationRequest
find_cancellation id db = find (λ c. c.id == id) db.cancellations

abbrev pub update_cancellation : ℕ → (CancellationRequest → CancellationRequest) → Db → Db
update_cancellation id f db = record db {
  cancellations = update (λ c. c.id == id) f db.cancellations;
}

abbrev pub is_under_review : BookingStatus → Bool
is_under_review BookingStatus.under_review = true
is_under_review _ = false

abbrev pub is_case_under_review : CaseStatus → Bool
is_case_under_review CaseStatus.under_review = true
is_case_under_review _ = false

abbrev pub is_immediate_pending : Option CancellationOutcome → Bool
is_immediate_pending (some CancellationOutcome.immediate_cancel_pending) = true
is_immediate_pending _ = false

-- The claim of a cancellation before the start, on the booking that it was made for.
abbrev pub is_reservation : ℕ → CancellationRequest → Bool
is_reservation booking c =
    c.booking_id == booking
    && is_case_under_review c.status
    && is_immediate_pending c.resolution_outcome

abbrev pub is_cancellable : Booking → Bool
is_cancellable b = not b.started && is_under_review b.status

abbrev pub check_reservation : Option ℕ → Booking → Db → Result (Unit {0})
check_reservation none b db = ok tt
check_reservation (some request) b db =
    if is_canceled b.status
    then ok tt
    else (found (find_cancellation request db) (http 409 Code.immediate_cancellation_stale) >>= λ c.
        require (is_reservation b.id c && is_cancellable b)
          (http 409 Code.immediate_cancellation_stale))

-- The checks before the refund. A booking that does not exist is left alone.
unfoldable pub check_cancel : ℕ → Option ℕ → Db → Result (Option Booking)
check_cancel booking request db = elim (find_booking booking db) [
  | none ↦ ok none
  | some b ↦ do
    reject (is_closed b.status) (http 409 Code.no_code)
    check_reservation request b db
    ok (some b)
]

abbrev pub cancel_booking : Booking → Booking
cancel_booking b = record b { status = BookingStatus.canceled; status_before_dispute = none }

abbrev pub leave_cancelled : Option QueueEntry → ℕ → ℕ → Db → Db
leave_cancelled none provider now db = db
leave_cancelled (some q) provider now db =
    (notify_waitlist provider now (
      recalculate_queue provider
        (update_queue q.id (λ x. record x { status = QueueStatus.cancelled }) db))).1

-- The cancellation of a booking with no held payment; a refund has cancelled the other kind.
unfoldable pub cancel_unpaid : Booking → Option ℕ → ℕ → Db → Db
cancel_unpaid b actor now db = leave_cancelled (queue_of b.id db) b.provider_id now (
    record_booking_progress b.id ProgressKind.canceled (booking_actor_role b actor) 0 now
      (update_booking b.id cancel_booking db))

abbrev pub decline_direct : Option ℕ → Db → Db
decline_direct none db = db
decline_direct (some id) db = record db {
  direct_requests =
      update (λ r. r.id == id) (λ r. record r { status = DirectRequestStatus.declined })
        db.direct_requests;
}

abbrev pub is_cancelled_text : SystemText → Bool
is_cancelled_text SystemText.cancelled_text = true
is_cancelled_text _ = false

abbrev pub history_recorded : Booking → Db → Bool
history_recorded b db =
    is_canceled b.status
    && is_some (find (λ m. m.booking_id == b.id && is_cancelled_text m.content) db.messages)

abbrev pub is_cancellation_notice : ℕ → Notice → Bool
is_cancellation_notice booking (Notice.booking_cancelled id) = id == booking
is_cancellation_notice booking _ = false

abbrev pub told_of : ℕ → ℕ → Db → Bool
told_of booking user db =
    is_some
      (find (λ n. n.user_id == user && is_cancellation_notice booking n.notice) db.notifications)

-- `missingBookingCancellationNotifications`
abbrev pub missing_notices : Booking → Db → List (ℕ × Notice)
missing_notices b db =
    select (λ n. not (told_of b.id n.0 db))
      ((b.seeker_id, Notice.booking_cancelled b.id)
        ∷ (b.provider_id, Notice.booking_cancelled b.id)
        ∷ [])

abbrev pub cancellation_sender : Booking → Option ℕ → ℕ
cancellation_sender b actor = if refers actor b.provider_id then b.provider_id else b.seeker_id

abbrev pub tell_refund : Booking → Bool → Db → Db
tell_refund b history db =
    if is_refunded b.payment_status && not history
    then notify b.seeker_id (Notice.refund_processed b.id) db
    else db

-- The notices that a retry has not given yet, and the message, once each.
unfoldable pub deliver_cancellation : Booking → Option ℕ → Db → Result Db
deliver_cancellation b actor db =
    let history = history_recorded b db in
    if is_empty (missing_notices b db)
    then ok db
    else (record_lifecycle_notice b (missing_notices b db)
          (if history then none else some (cancellation_sender b actor, SystemText.cancelled_text))
          db
        >>= λ d. ok (tell_refund b history d))

-- The writes of the cancellation, before anybody is told.
unfoldable pub cancel_rows : Bool → Booking → Option ℕ → ℕ → Db → Result Db
cancel_rows held b actor now db =
    if held || is_canceled b.status
    then ok db
    else (assert_no_refund_in_progress b.id db >> ok (cancel_unpaid b actor now db))

unfoldable pub cancel_and_deliver : Bool → Booking → Option ℕ → ℕ → Db → Result Db
cancel_and_deliver held b actor now db = cancel_rows held b actor now db >>= λ d.
    deliver_cancellation b actor
      (set_request (request_of b db) RequestStatus.canceled (decline_direct b.direct_request_id d))

-- The transaction after the refund, if there was one.
unfoldable pub finish_cancel : Bool → ℕ → Option ℕ → Option ℕ → ℕ → Db → Result Db
finish_cancel held booking actor request now db = elim (find_booking booking db) [
  | none ↦ ok db
  | some b ↦ do
    reject (is_some (completed_of b.id db) || is_closed b.status) (http 409 Code.no_code)
    reject (is_some request && not (is_canceled b.status) && not (is_cancellable b))
        (http 409 Code.immediate_cancellation_stale)
    cancel_and_deliver held b actor now db
]

abbrev pub committed : Db → Result Db → Db × Result (Unit {0})
committed db (err e) = (db, err e)
committed db (ok d) = (d, ok tt)

-- What goes on around a cancellation: around its refund, after the booking was read, and after the
-- refund was finalized. The two further functions stand for the transactions of others.
pub record Surroundings : Type 0 where
  pub world : World
  pub after_check : Db → Db
  pub after_refund_paid : Db → Db

abbrev pub after_refund :
    Surroundings → ℕ → Option ℕ → Option ℕ → ℕ → Db × Result RefundResult → Db × Result (Unit {0})
after_refund w booking actor request now (db, err e) = (db, err e)
after_refund w booking actor request now (db, ok r) =
    let d = w.after_refund_paid db in committed d (finish_cancel true booking actor request now d)

-- The cancellation of a booking as it was read; `db` is the database after that.
abbrev pub cancel_read :
    Surroundings → ℕ → Option ℕ → Option ℕ → ℕ → Booking → Db → Db × Result (Unit {0})
cancel_read w booking actor request now b db =
    if is_held b.payment_status
    then after_refund w booking actor request now
        (refund_booking_payment w.world b.id (or_else actor b.seeker_id) now db)
    else committed db (finish_cancel false booking actor request now db)

abbrev pub cancel_checked :
    Surroundings
    → ℕ
    → Option ℕ
    → Option ℕ
    → ℕ
    → Db
    → Result (Option Booking)
    → Db × Result (Unit {0})
cancel_checked w booking actor request now db (err e) = (db, err e)
cancel_checked w booking actor request now db (ok none) = (db, ok tt)
cancel_checked w booking actor request now db (ok (some b)) =
    cancel_read w booking actor request now b (w.after_check db)

unfoldable pub perform_immediate_cancel :
    Surroundings → ℕ → Option ℕ → Option ℕ → ℕ → Db → Db × Result (Unit {0})
perform_immediate_cancel w booking actor request now db =
    cancel_checked w booking actor request now db (check_cancel booking request db)
