-- ===== src/Queue.antt =====
-- services/queue.service.ts: the paid work queue of a provider, and its waitlist. The advisory
-- lock orders the transactions of one provider, so each function here runs on its own.
pub mod Reindex
pub mod Order
pub mod Recalculate
pub mod Counts
pub mod Waitlist
pub mod Metrics
pub mod Frame
use servicehub_backend.Base.{
  ℕ, suc, ◌+◌, Bool, false, not, ◌&&◌, ◌||◌, Option, none, some, List, [], ◌∷◌, ltb, leb, ◌==◌,
  if◌then◌else◌, or_else, find, select, count, update, delete,
}
use servicehub_backend.Schema.{
  Db, QueueEntry, Booking, QueueNotify, Notice, Service, User, BookingStatus, is_waiting,
  is_serving, is_ongoing, is_on_hold, is_cash, find_booking, find_user, update_queue, notify,
}
use servicehub_backend.Policy.Membership.{subscription_benefits}

-- orderBy: [{ position: "asc" }, { joinedAt: "asc" }, { id: "asc" }]
abbrev pub before : QueueEntry → QueueEntry → Bool
before a b =
    ltb a.position b.position
    || (a.position == b.position
        && (ltb a.joined_at b.joined_at || (a.joined_at == b.joined_at && leb a.id b.id)))

abbrev pub place : QueueEntry → List QueueEntry → List QueueEntry
place e [] = e ∷ []
place e (x ∷ xs) = let rest = x ∷ place e xs in if before e x then e ∷ x ∷ xs else rest

abbrev pub order_by : List QueueEntry → List QueueEntry
order_by [] = []
order_by (x ∷ xs) = place x (order_by xs)

abbrev pub waits_for : ℕ → QueueEntry → Bool
waits_for provider q = q.provider_id == provider && is_waiting q.status

abbrev pub serves_for : ℕ → QueueEntry → Bool
serves_for provider q = q.provider_id == provider && is_serving q.status

unfoldable pub waiting_entries : ℕ → Db → List QueueEntry
waiting_entries provider db = order_by (select (waits_for provider) db.queue)

-- `include: { booking: … }`
abbrev pub included_booking : Db → QueueEntry → Option Booking
included_booking db q = elim q.booking_id [ none ↦ none | some id ↦ find_booking id db ]

abbrev pub duration_of : Option Booking → Option ℕ
duration_of none = none
duration_of (some b) = b.estimated_duration_mins

-- A SQL `<>`, which no null satisfies.
abbrev pub differs : Option ℕ → ℕ → Bool
differs none n = false
differs (some k) n = not (k == n)

-- One round of the loop: the entry is written if its place or its wait changes, and so is the
-- position that its booking shows.
unfoldable pub reindex_entry : ℕ → ℕ → QueueEntry → Option Booking → Db → Db
reindex_entry position wait entry booking db =
    let moved =
      if not (entry.position == position) || not (entry.estimated_wait == wait)
      then update_queue entry.id (λ q. record q { position = position; estimated_wait = wait }) db
      else db in
    elim booking [
      | none ↦ moved
      | some b ↦ record moved {
        bookings =
            update (λ x. x.id == b.id && differs x.queue_position position)
              (λ x. record x { queue_position = some position }) moved.bookings;
      }
    ]

-- The loop, over the entries and bookings that were read from `snapshot`.
unfoldable pub reindex : Db → ℕ → ℕ → List QueueEntry → Db → Db
reindex snapshot position wait [] db = db
reindex snapshot position wait (e ∷ es) db =
    reindex snapshot (suc position) (wait + or_else (duration_of (included_booking snapshot e)) 60)
      es (reindex_entry position wait e (included_booking snapshot e) db)

abbrev pub cash_in_progress : ℕ → Booking → Bool
cash_in_progress provider b =
    b.provider_id == provider
    && is_cash b.payment_method
    && b.started
    && (is_ongoing b.status || is_on_hold b.status)

unfoldable pub first_wait : Db → Option QueueEntry → ℕ → ℕ
first_wait db (some s) provider = or_else (duration_of (included_booking db s)) 0
first_wait db none provider = or_else (duration_of (find (cash_in_progress provider) db.bookings)) 0

unfoldable pub reset_serving : Option QueueEntry → Db → Db
reset_serving none db = db
reset_serving (some s) db =
    if not (s.position == 1) || not (s.estimated_wait == 0)
    then update_queue s.id (λ q. record q { position = 1; estimated_wait = 0 }) db
    else db

abbrev pub first_position : Option QueueEntry → ℕ
first_position none = 1
first_position (some s) = 2

unfoldable pub recalculate_queue : ℕ → Db → Db
recalculate_queue provider db =
    let serving = find (serves_for provider) db.queue in
    reindex db (first_position serving) (first_wait db serving provider)
      (waiting_entries provider db) (reset_serving serving db)

-- orderBy: [{ requestedAt: "asc" }, { id: "asc" }]
abbrev pub earlier : QueueNotify → QueueNotify → Bool
earlier a b =
    ltb a.requested_at b.requested_at || (a.requested_at == b.requested_at && leb a.id b.id)

abbrev pub first_notify : List QueueNotify → Option QueueNotify
first_notify [] = none
first_notify (x ∷ xs) = elim (first_notify xs) [
  | none ↦ some x
  | some y ↦ if earlier x y then some x else some y
]

-- `where: { service: { providerId } }`
abbrev pub concerns : ℕ → Db → QueueNotify → Bool
concerns provider db n = elim (find (λ s. s.id == n.service_id) db.services) [
  | none ↦ false
  | some s ↦ s.provider_id == provider
]

-- The seeker to tell by socket after the commit, and the new database.
unfoldable pub notify_waitlist : ℕ → ℕ → Db → Option ℕ × Db
notify_waitlist provider now db = elim (find_user provider db) [
  | none ↦ (none, db)
  | some u ↦
      if not (subscription_benefits u.membership now).marketplace_access
        || leb u.online_queue_limit (count (waits_for provider) db.queue)
      then (none, db)
      else elim (first_notify (select (concerns provider db) db.queue_notify)) [
        | none ↦ (none, db)
        | some n ↦ (
          some n.seeker_id,
          notify n.seeker_id Notice.slot_available
              (record db { queue_notify = delete (λ x. x.id == n.id) db.queue_notify }),
        )
      ]
]
