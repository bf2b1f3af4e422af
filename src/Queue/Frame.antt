-- ===== src/Queue/Frame.antt =====
-- What the queue operations (services/queue.service.ts) leave alone: every table that they do not
-- name, and of the bookings everything but the position that they show.
use servicehub_backend.Base.{
  ℕ, suc, ◌≡◌, refl, ap, ◌∙◌, Bool, ◌&&◌, Option, none, some, List, [], ◌∷◌, arith, ◌==◌, find,
  count, count-update_same,
}
use servicehub_backend.Schema.{Db, QueueEntry, Booking}
use servicehub_backend.Queue.{
  serves_for, waiting_entries, included_booking, differs, reindex_entry, reindex, reset_serving,
  recalculate_queue, notify_waitlist,
}

-- A test on a booking that does not read the position it shows.
abbrev pub IgnoresPosition : (Booking → Bool) → Type 0
IgnoresPosition q = (b : Booking) (o : Option ℕ) → q (record b { queue_position = o }) ≡ q b

count-bookings-reindex_entry :
    (q : Booking → Bool) (position wait : ℕ) (e : QueueEntry) (b : Option Booking) (db : Db)
    → IgnoresPosition q
    → count q (reindex_entry position wait e b db).bookings ≡ count q db.bookings
unfolding reindex_entry
count-bookings-reindex_entry q position wait e none db h = ground arith
count-bookings-reindex_entry q position wait e (some b) db h = ground (
  arith,
  count-update_same q (λ x. x.id == b.id && differs x.queue_position position)
      (λ x. record x { queue_position = some position }) db.bookings (λ a. h a (some position)),
)

count-bookings-reindex :
    (q : Booking → Bool) (snapshot : Db) (position wait : ℕ) (es : List QueueEntry) (db : Db)
    → IgnoresPosition q
    → count q (reindex snapshot position wait es db).bookings ≡ count q db.bookings
unfolding reindex
count-bookings-reindex q snapshot position wait [] db h = refl
count-bookings-reindex q snapshot position wait (e ∷ es) db h =
    count-bookings-reindex q snapshot (suc position) _ es _ h
    ∙ count-bookings-reindex_entry q position wait e (included_booking snapshot e) db h

reset_serving-bookings :
    (o : Option QueueEntry) (db : Db) → (reset_serving o db).bookings ≡ db.bookings
unfolding reset_serving
reset_serving-bookings none db = refl
reset_serving-bookings (some s) db = ground arith

-- A recalculation changes of the bookings only the position that they show.
pub count-bookings-recalculate_queue :
    (q : Booking → Bool) (provider : ℕ) (db : Db)
    → IgnoresPosition q
    → count q (recalculate_queue provider db).bookings ≡ count q db.bookings
unfolding recalculate_queue
count-bookings-recalculate_queue q provider db h =
    count-bookings-reindex q db _ _ (waiting_entries provider db) _ h
    ∙ ap (count q) (reset_serving-bookings (find (serves_for provider) db.queue) db)

-- Only the two tables differ.
abbrev pub OnlyQueueAndBookings : Db → Db → Type 0
OnlyQueueAndBookings db d = d ≡ record db { queue = d.queue; bookings = d.bookings }

reindex_entry-frame :
    (position wait : ℕ) (e : QueueEntry) (b : Option Booking) (db : Db)
    → OnlyQueueAndBookings db (reindex_entry position wait e b db)
unfolding reindex_entry
reindex_entry-frame position wait e none db = ground arith
reindex_entry-frame position wait e (some b) db = ground arith

frame_trans :
    (a b c : Db) → OnlyQueueAndBookings a b → OnlyQueueAndBookings b c → OnlyQueueAndBookings a c
frame_trans a b c p q = ground arith

reindex-frame :
    (snapshot : Db) (position wait : ℕ) (es : List QueueEntry) (db : Db)
    → OnlyQueueAndBookings db (reindex snapshot position wait es db)
unfolding reindex
reindex-frame snapshot position wait [] db = refl
reindex-frame snapshot position wait (e ∷ es) db =
    frame_trans db _ _ (reindex_entry-frame position wait e (included_booking snapshot e) db)
      (reindex-frame snapshot (suc position) _ es _)

reset_serving-frame :
    (o : Option QueueEntry) (db : Db) → OnlyQueueAndBookings db (reset_serving o db)
unfolding reset_serving
reset_serving-frame none db = refl
reset_serving-frame (some s) db = ground arith

pub recalculate_queue-frame :
    (provider : ℕ) (db : Db) → OnlyQueueAndBookings db (recalculate_queue provider db)
unfolding recalculate_queue
recalculate_queue-frame provider db =
    frame_trans db _ _ (reset_serving-frame (find (serves_for provider) db.queue) db)
      (reindex-frame db _ _ (waiting_entries provider db) _)

-- The waitlist touches its own table and the notifications.
pub notify_waitlist-frame :
    (provider now : ℕ) (db : Db)
    → let d = (notify_waitlist provider now db).1 in
      d ≡ record db { queue_notify = d.queue_notify; notifications = d.notifications }
unfolding notify_waitlist
notify_waitlist-frame provider now db = ground arith
