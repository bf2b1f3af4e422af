-- ===== src/Bookings/Start.antt =====
-- services/bookings/provider-operations.service.ts: a provider starts a job.
use servicehub_backend.Base.{
  ℕ, Bool, true, false, not, ◌&&◌, ◌||◌, Option, none, some, List, [], ◌∷◌, ltb, ◌==◌,
  if◌then◌else◌, is_some, Code, Result, ◌>>=◌, ◌>>◌, http, require, reject, found, find, count,
}
use servicehub_backend.Schema.{
  Db, Booking, QueueEntry, BookingStatus, QueueStatus, ProgressKind, ActorRole, Notice, SystemText,
  is_accepted, is_cash, is_unpaid, is_ongoing, is_on_hold, is_serving, find_booking, find_user,
  queue_of, update_booking, update_queue,
}
use servicehub_backend.Policy.Accounts.{can_take_work}
use servicehub_backend.Policy.Bookings.{paid_start_block_reason}
use servicehub_backend.Queue.{
  waits_for, serves_for, waiting_entries, included_booking, recalculate_queue,
}
use servicehub_backend.Bookings.{
  assert_no_refund_in_progress, record_booking_progress, record_lifecycle_notice,
}

-- A booking by its id, or by the id of its queue entry.
abbrev pub resolve_booking : ℕ → Db → Option Booking
resolve_booking id db = elim (find_booking id db) [
  | some b ↦ some b
  | none ↦ elim (find (λ q. q.id == id) db.queue) [ none ↦ none | some q ↦ included_booking db q ]
]

abbrev pub is_queue_serving : Option QueueEntry → Bool
is_queue_serving none = false
is_queue_serving (some q) = is_serving q.status

-- Another job of the provider that is under way.
abbrev pub is_other_work : ℕ → ℕ → Db → Booking → Bool
is_other_work provider booking db b =
    b.provider_id == provider
    && not (b.id == booking)
    && (is_ongoing b.status
        || (b.started && is_cash b.payment_method && is_on_hold b.status)
        || is_queue_serving (queue_of b.id db))

-- The checks of a job without a queue entry: a cash job.
unfoldable pub check_cash_start : Booking → ℕ → Db → Result (Unit {0})
check_cash_start b provider db = do
  require (is_cash b.payment_method) (http 409 Code.start_paid_queue_missing)
  reject (not (is_accepted b.status) || b.started) (http 400 Code.no_code)
  reject (not (is_cash b.payment_method) || not (is_unpaid b.payment_status))
      (http 409 Code.start_payment_state_invalid)

-- The checks of a job with an entry in the paid queue.
unfoldable pub check_paid_start : Booking → QueueEntry → Result (Unit {0})
check_paid_start b q = do
  reject (is_cash b.payment_method) (http 409 Code.start_payment_state_invalid)
  reject
      (is_some
        (paid_start_block_reason b.status b.started b.payment_status q.status q.payment_status))
      (http 409 Code.paid_job_not_ready)

abbrev pub check_start : Booking → Option QueueEntry → ℕ → Db → Result (Unit {0})
check_start b none provider db = check_cash_start b provider db
check_start b (some q) provider db = check_paid_start b q

abbrev pub is_first : QueueEntry → List QueueEntry → Bool
is_first q [] = false
is_first q (x ∷ _) = x.id == q.id

-- The source takes the entry with the least position; entries of one position are ordered here as
-- in the queue itself. Cash work waits for paid work, and paid work starts in the order of the queue.
abbrev pub check_order : Option QueueEntry → ℕ → Db → Result (Unit {0})
check_order none provider db =
    reject (ltb 0 (count (waits_for provider) db.queue)) (http 409 Code.paid_work_waiting)
check_order (some q) provider db =
    reject
      (not (is_first q (waiting_entries provider db))
        || ltb 0 (count (serves_for provider) db.queue))
      (http 409 Code.no_code)

abbrev pub serve : QueueEntry → QueueEntry
serve q = record q { status = QueueStatus.serving; position = 1; estimated_wait = 0 }

abbrev pub enter_service : Option QueueEntry → Db → Db
enter_service none db = db
enter_service (some q) db = update_queue q.id serve db

abbrev pub begin : ℕ → Option QueueEntry → Booking → Booking
begin now entry b = record b {
  status = BookingStatus.ongoing;
  started = true;
  queue_position = if is_some entry then some 1 else b.queue_position;
  updated_at = now;
}

abbrev pub recalculate_if : Bool → ℕ → Db → Db
recalculate_if paid provider db = if paid then recalculate_queue provider db else db

-- The writes of a start, once all checks have passed.
unfoldable pub begin_job : Booking → Option QueueEntry → ℕ → ℕ → Db → Db
begin_job b entry provider now db = recalculate_if (is_some entry) provider (
    record_booking_progress b.id ProgressKind.started ActorRole.provider 0 now
      (update_booking b.id (begin now entry) (enter_service entry db)))

unfoldable pub begin_and_tell : Booking → ℕ → ℕ → Db → Result Db
begin_and_tell b provider now db =
    record_lifecycle_notice b ((b.seeker_id, Notice.job_started b.id) ∷ [])
      (some (b.provider_id, SystemText.started_text))
      (begin_job b (queue_of b.id db) provider now db)

unfoldable pub provider_start_job : ℕ → ℕ → ℕ → Db → Result Db
provider_start_job id provider now db = do
  b ← found (resolve_booking id db) (http 404 Code.no_code)
  require (b.provider_id == provider) (http 404 Code.no_code)
  assert_no_refund_in_progress b.id db
  account ← found (find_user provider db) (http 403 Code.start_job_not_allowed)
  require (can_take_work account) (http 403 Code.start_job_not_allowed)
  check_start b (queue_of b.id db) provider db
  reject (ltb 0 (count (is_other_work provider b.id db) db.bookings))
      (http 409 Code.provider_already_ongoing)
  check_order (queue_of b.id db) provider db
  begin_and_tell b provider now db
