-- ===== src/Bookings.antt =====
-- What the booking services share: services/booking-lifecycle.service.ts,
-- services/booking-progress.service.ts, services/bookings/lifecycle-events.ts and
-- services/case-resolution.service.ts. The lifecycle lock of a booking orders the transactions on
-- it, so the row that is read again under the lock is the row that was read first.
pub mod Frame
pub mod Start
pub mod Begin
pub mod OneJob
pub mod Completion
pub mod Direct
use servicehub_backend.Base.{
  ℕ, ◌+◌, Bool, true, false, not, ◌&&◌, Option, none, some, List, [], ◌∷◌, ltb, ◌==◌, if◌then◌else◌,
  refers, is_some, Code, Result, ok, ◌>>=◌, ◌>>◌, http, reject, find, count, update, insert,
}
use servicehub_backend.Schema.{
  Db, Booking, QueueEntry, ProgressKind, ActorRole, ProgressEvent, Notice, SystemText,
  BookingStatus, PaymentStatus, Report, CancellationRequest, CompletionEscalation, Operation,
  is_processing_refund, is_open_case, is_active_cancellation, is_running, is_reserved_stage,
  is_on_hold, is_cash, find_booking, queue_of, refund_of, notify,
}
use servicehub_backend.Policy.Accounts.{assert_distinct_accounts}

unfoldable pub assert_no_refund_in_progress : ℕ → Db → Result (Unit {0})
assert_no_refund_in_progress booking db = elim (refund_of booking db) [
  | none ↦ ok tt
  | some r ↦ reject (is_processing_refund r.status) (http 409 Code.refund_in_progress)
]

abbrev pub booking_actor_role : Booking → Option ℕ → ActorRole
booking_actor_role b none = ActorRole.system
booking_actor_role b (some actor) =
    if actor == b.seeker_id
    then ActorRole.seeker
    else (if actor == b.provider_id then ActorRole.provider else ActorRole.admin)

abbrev pub kind_number : ProgressKind → ℕ
kind_number ProgressKind.accepted = 0
kind_number ProgressKind.started = 1
kind_number ProgressKind.work_marked_complete = 2
kind_number ProgressKind.completion_confirmed = 3
kind_number ProgressKind.declined = 4
kind_number ProgressKind.cancellation_requested = 5
kind_number ProgressKind.cancellation_approved = 6
kind_number ProgressKind.cancellation_declined = 7
kind_number ProgressKind.cancellation_escalated = 8
kind_number ProgressKind.canceled = 9

-- The key of an event: its kind, with the time or the case that the source adds to it, or 0.
abbrev pub same_progress : ℕ → ProgressKind → ℕ → ProgressEvent → Bool
same_progress booking kind detail e =
    e.booking_id == booking
    && kind_number e.event_key.0 == kind_number kind
    && e.event_key.1 == detail

-- The `upsert` keeps the first event of a key.
unfoldable pub record_booking_progress : ℕ → ProgressKind → ActorRole → ℕ → ℕ → Db → Db
record_booking_progress booking kind role detail now db =
    elim (find (same_progress booking kind detail) db.progress) [
      | some _ ↦ db
      | none ↦ record db {
        progress =
            insert
              (record {
                booking_id = booking;
                kind = kind;
                actor_role = role;
                event_key = (kind, detail);
                occurred_at = now;
              })
              db.progress;
      }
    ]

abbrev pub notify_all : List (ℕ × Notice) → Db → Db
notify_all [] db = db
notify_all ((user, notice) ∷ rest) db = notify_all rest (notify user notice db)

abbrev pub other_party : Booking → ℕ → ℕ
other_party b user = if user == b.seeker_id then b.provider_id else b.seeker_id

abbrev pub is_empty {ℓ} : {A : Type ℓ} → List A → Bool
is_empty [] = true
is_empty (_ ∷ _) = false

abbrev pub check_sender : Booking → Option (ℕ × SystemText) → Result (Unit {0})
check_sender b none = ok tt
check_sender b (some (sender, _)) = assert_distinct_accounts sender (other_party b sender)

abbrev pub send_system : Booking → Option (ℕ × SystemText) → Db → Db
send_system b none db = db
send_system b (some (sender, text)) db = record db {
  messages =
      insert
        (record {
          booking_id = b.id;
          sender_id = sender;
          receiver_id = other_party b sender;
          content = text;
        })
        db.messages;
}

unfoldable pub record_lifecycle_notice :
    Booking → List (ℕ × Notice) → Option (ℕ × SystemText) → Db → Result Db
record_lifecycle_notice b notices system db = do
  check_sender b system
  reject (is_empty notices) (http 500 Code.no_code)
  ok (send_system b system (notify_all notices db))

-- The cases that an operation leaves out of the check, by id.
pub record CaseExclusions : Type 0 where
  pub report_id : Option ℕ
  pub cancellation_request_id : Option ℕ
  pub completion_escalation_id : Option ℕ

abbrev pub excluded : Option ℕ → ℕ → Bool
excluded none id = false
excluded (some x) id = x == id

abbrev pub blocking_cases : ℕ → CaseExclusions → Db → ℕ
blocking_cases booking exclude db =
    count
      (λ r.
        r.booking_id == booking && is_open_case r.status && not (excluded exclude.report_id r.id))
      db.reports
    + count
        (λ c.
          c.booking_id == booking
          && is_active_cancellation c.status
          && not (excluded exclude.cancellation_request_id c.id))
        db.cancellations
    + count
        (λ e.
          e.booking_id == booking
          && is_open_case e.status
          && not (excluded exclude.completion_escalation_id e.id))
        db.escalations

unfoldable pub assert_no_other_blocking_cases : ℕ → CaseExclusions → Db → Result (Unit {0})
assert_no_other_blocking_cases booking exclude db =
    reject (ltb 0 (blocking_cases booking exclude db)) (http 409 Code.other_blocking_cases)

abbrev pub reserves : ℕ → Option ℕ → Operation → Bool
reserves booking except o =
    o.booking_id == booking
    && is_running o.status
    && is_reserved_stage o.stage
    && not (excluded except o.id)

unfoldable pub assert_no_financial_resolution_reserved : ℕ → Option ℕ → Db → Result (Unit {0})
assert_no_financial_resolution_reserved booking operation db =
    reject (is_some (find (reserves booking operation) db.operations))
      (http 409 Code.financial_resolution_in_progress)

abbrev pub held_or_unpaid : Booking → PaymentStatus
held_or_unpaid b =
    if is_cash b.payment_method then PaymentStatus.unpaid else PaymentStatus.paid_held

abbrev pub open_reports : ℕ → Db → ℕ
open_reports booking db = count (λ r. r.booking_id == booking && is_open_case r.status) db.reports

abbrev pub active_cancellations : ℕ → Db → ℕ
active_cancellations booking db =
    count (λ c. c.booking_id == booking && is_active_cancellation c.status) db.cancellations

abbrev pub restored : BookingStatus → Booking → Booking
restored before b = record b {
  status = before;
  status_before_dispute = none;
  payment_status = held_or_unpaid b;
}

-- Whether the booking was restored, and the database. The `updateMany` repeats the status that
-- was just read, so its count is 1.
unfoldable pub restore_booking_if_no_blocking_cases : ℕ → Db → Bool × Db
restore_booking_if_no_blocking_cases booking db =
    if ltb 0 (open_reports booking db + active_cancellations booking db)
    then (false, db)
    else elim (find_booking booking db) [
      | none ↦ (false, db)
      | some b ↦ elim b.status_before_dispute [
        | none ↦ (false, db)
        | some before ↦ if not (is_on_hold b.status) then (false, db) else (
          true,
          record db {
            bookings = update (λ x. x.id == booking) (restored before) db.bookings;
            queue =
                update (λ q. refers q.booking_id booking)
                  (λ q. record q { payment_status = held_or_unpaid b }) db.queue;
          },
        )
      ]
    ]
