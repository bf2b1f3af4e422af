-- ===== src/Queue/Counts.antt =====
-- A recalculation of a provider's queue (services/queue.service.ts) keeps every count over the
-- queue table that does not read places.
use servicehub_backend.Base.{
  ℕ, suc, ◌≡◌, refl, ◌∙◌, Bool, Option, none, some, List, [], ◌∷◌, arith, ◌==◌, find, count,
  count-update_same,
}
use servicehub_backend.Schema.{Db, QueueEntry, Booking}
use servicehub_backend.Queue.{
  waiting_entries, included_booking, reindex_entry, reindex, reset_serving, serves_for,
  recalculate_queue,
}

-- A test on an entry that reads neither its position nor its wait.
abbrev pub IgnoresPlace : (QueueEntry → Bool) → Type 0
IgnoresPlace q =
    (e : QueueEntry) (position wait : ℕ)
    → q (record e { position = position; estimated_wait = wait }) ≡ q e

count-reindex_entry :
    (q : QueueEntry → Bool) (position wait : ℕ) (e : QueueEntry) (b : Option Booking) (db : Db)
    → IgnoresPlace q
    → count q (reindex_entry position wait e b db).queue ≡ count q db.queue
unfolding reindex_entry
count-reindex_entry q position wait e b db h = ground (
  arith,
  count-update_same q (λ x. x.id == e.id)
      (λ x. record x { position = position; estimated_wait = wait }) db.queue
      (λ a. h a position wait),
)

count-reindex :
    (q : QueueEntry → Bool) (snapshot : Db) (position wait : ℕ) (es : List QueueEntry) (db : Db)
    → IgnoresPlace q
    → count q (reindex snapshot position wait es db).queue ≡ count q db.queue
unfolding reindex
count-reindex q snapshot position wait [] db h = refl
count-reindex q snapshot position wait (e ∷ es) db h =
    count-reindex q snapshot (suc position) _ es _ h
    ∙ count-reindex_entry q position wait e (included_booking snapshot e) db h

count-reset_serving :
    (q : QueueEntry → Bool) (o : Option QueueEntry) (db : Db)
    → IgnoresPlace q
    → count q (reset_serving o db).queue ≡ count q db.queue
unfolding reset_serving
count-reset_serving q none db h = refl
count-reset_serving q (some s) db h = ground (
  arith,
  count-update_same q (λ x. x.id == s.id) (λ x. record x { position = 1; estimated_wait = 0 })
      db.queue (λ a. h a 1 0),
)

-- A recalculation moves entries and never adds, drops or changes the status of one: every count
-- over the queue table that reads neither positions nor waits stays the same.
pub count-recalculate_queue :
    (q : QueueEntry → Bool) (provider : ℕ) (db : Db)
    → IgnoresPlace q
    → count q (recalculate_queue provider db).queue ≡ count q db.queue
unfolding recalculate_queue
count-recalculate_queue q provider db h =
    count-reindex q db _ _ (waiting_entries provider db) _ h
    ∙ count-reset_serving q (find (serves_for provider) db.queue) db h
