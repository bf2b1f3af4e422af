-- ===== src/Queue/Reindex.antt =====
-- What recalculateQueueInTransaction (services/queue.service.ts) leaves behind: the places and
-- waits of the entries that it read.
use servicehub_backend.Base.{
  ℕ, suc, ◌+◌, ◌≡◌, refl, sym, ◌∙◌, ◌≢◌, inl, inr, Bool, Option, some, List, [], ◌∷◌, arith, ◌==◌,
  or_else, Bool-cases, ==_refl, ne→==, All, find, select, find-update_other, find-update_hit,
}
use servicehub_backend.Schema.{Db, QueueEntry, Booking}
use servicehub_backend.Queue.{
  before, place, order_by, included_booking, duration_of, reindex_entry, reindex,
}

abbrev pub find_entry : ℕ → Db → Option QueueEntry
find_entry id db = find (λ q. q.id == id) db.queue

-- No two rows have one id.
abbrev pub Distinct : List QueueEntry → Type 0
Distinct [] = Unit
Distinct (e ∷ es) = All (λ x. x.id ≢ e.id) es × Distinct es

-- The entry stands in the table as it was read.
abbrev pub Stored : List QueueEntry → QueueEntry → Type 0
Stored table e = find (λ q. q.id == e.id) table ≡ some e

pub All-place {κ} :
    (P : QueueEntry → Type κ) (e : QueueEntry) (es : List QueueEntry)
    → P e
    → All P es
    → All P (place e es)
All-place P e [] p h = (p, tt)
All-place P e (x ∷ xs) p h = elim (Bool-cases (before e x)) [
  | inl c ↦ rw (c, place) (p, h)
  | inr c ↦ rw (c, place) (h.0, All-place P e xs p h.1)
]

pub All-order_by {κ} :
    (P : QueueEntry → Type κ) (es : List QueueEntry) → All P es → All P (order_by es)
All-order_by P [] h = tt
All-order_by P (x ∷ xs) h = All-place P x (order_by xs) h.0 (All-order_by P xs h.1)

pub All-select {κ} :
    (P : QueueEntry → Type κ) (p : QueueEntry → Bool) (es : List QueueEntry)
    → All P es
    → All P (select p es)
All-select P p [] h = tt
All-select P p (x ∷ xs) h = elim (Bool-cases (p x)) [
  | inl c ↦ rw c (h.0, All-select P p xs h.1)
  | inr c ↦ rw c (All-select P p xs h.1)
]

Distinct-place :
    (e : QueueEntry) (es : List QueueEntry)
    → All (λ x. x.id ≢ e.id) es
    → Distinct es
    → Distinct (place e es)
Distinct-place e [] a d = (tt, tt)
Distinct-place e (x ∷ xs) a d = elim (Bool-cases (before e x)) [
  | inl c ↦ rw (c, place) (a, d)
  | inr c ↦
      rw (c, place)
        (All-place (λ y. y.id ≢ x.id) e xs (λ q. a.0 (sym q)) d.0, Distinct-place e xs a.1 d.1)
]

pub Distinct-order_by : (es : List QueueEntry) → Distinct es → Distinct (order_by es)
Distinct-order_by [] d = tt
Distinct-order_by (x ∷ xs) d =
    Distinct-place x (order_by xs) (All-order_by (λ y. y.id ≢ x.id) xs d.0)
      (Distinct-order_by xs d.1)

pub Distinct-select :
    (p : QueueEntry → Bool) (es : List QueueEntry) → Distinct es → Distinct (select p es)
Distinct-select p [] d = tt
Distinct-select p (x ∷ xs) d = elim (Bool-cases (p x)) [
  | inl c ↦ rw c (All-select (λ y. y.id ≢ x.id) p xs d.0, Distinct-select p xs d.1)
  | inr c ↦ rw c (Distinct-select p xs d.1)
]

Stored-cons :
    (x : QueueEntry) (table es : List QueueEntry)
    → All (λ y. y.id ≢ x.id) es
    → All (Stored table) es
    → All (Stored (x ∷ table)) es
Stored-cons x table [] a h = tt
Stored-cons x table (e ∷ es) a h =
    (rw (ne→== x.id e.id (λ q. a.0 (sym q))) h.0, Stored-cons x table es a.1 h.1)

pub Stored-All : (table : List QueueEntry) → Distinct table → All (Stored table) table
Stored-All [] d = tt
Stored-All (x ∷ xs) d = (rw (==_refl x.id), Stored-cons x xs xs d.0 (Stored-All xs d.1))

-- The entry keeps its id, so a row with another id is read as before.
find_entry-reindex_entry_other :
    (k position wait : ℕ) (e : QueueEntry) (b : Option Booking) (db : Db)
    → e.id ≢ k
    → find_entry k (reindex_entry position wait e b db) ≡ find_entry k db
unfolding reindex_entry
find_entry-reindex_entry_other k position wait e b db h =
    let other =
      find-update_other (λ (q : QueueEntry). q.id == k) (λ q. q.id == e.id)
        (λ q. record q { position = position; estimated_wait = wait }) db.queue (λ a. refl)
        (λ a p. ground arith) in
    ground (arith, other)

find_entry-reindex_entry :
    (position wait : ℕ) (e : QueueEntry) (b : Option Booking) (db : Db)
    → find_entry e.id db ≡ some e
    → find_entry e.id (reindex_entry position wait e b db)
      ≡ some (record e { position = position; estimated_wait = wait })
unfolding reindex_entry
find_entry-reindex_entry position wait e b db h =
    let hit =
      find-update_hit (λ (q : QueueEntry). q.id == e.id) (λ q. q.id == e.id)
        (λ q. record q { position = position; estimated_wait = wait }) db.queue e (λ a. refl) h
        (==_refl e.id) in
    ground (arith, hit)

pub find_entry-reindex_other :
    (k : ℕ) (snapshot : Db) (position wait : ℕ) (es : List QueueEntry) (db : Db)
    → All (λ x. x.id ≢ k) es
    → find_entry k (reindex snapshot position wait es db) ≡ find_entry k db
unfolding reindex
find_entry-reindex_other k snapshot position wait [] db h = refl
find_entry-reindex_other k snapshot position wait (e ∷ es) db h =
    find_entry-reindex_other k snapshot (suc position) _ es _ h.1
    ∙ find_entry-reindex_entry_other k position wait e (included_booking snapshot e) db h.0

-- The entries of the list hold consecutive places from `position` on, each with the wait of all
-- that stand before it, and are otherwise as they were.
abbrev pub Placed : Db → ℕ → ℕ → List QueueEntry → Db → Type 0
Placed snapshot position wait [] db = Unit
Placed snapshot position wait (e ∷ es) db =
    (find_entry e.id db ≡ some (record e { position = position; estimated_wait = wait }))
    × Placed snapshot (suc position) (wait + or_else (duration_of (included_booking snapshot e)) 60)
        es db

pub reindex-Placed :
    (snapshot : Db) (position wait : ℕ) (es : List QueueEntry) (db : Db)
    → Distinct es
    → All (λ e. find_entry e.id db ≡ some e) es
    → Placed snapshot position wait es (reindex snapshot position wait es db)
unfolding reindex
reindex-Placed snapshot position wait [] db d h = tt
reindex-Placed snapshot position wait (e ∷ es) db d h = (
  find_entry-reindex_other e.id snapshot (suc position) _ es _ d.0
      ∙ find_entry-reindex_entry position wait e (included_booking snapshot e) db h.0,
  reindex-Placed snapshot (suc position) _ es _ d.1 (kept es d.0 h.1),
)
  where
    kept :
        (xs : List QueueEntry)
        → All (λ x. x.id ≢ e.id) xs
        → All (λ x. find_entry x.id db ≡ some x) xs
        → All
            (λ x.
              find_entry x.id (reindex_entry position wait e (included_booking snapshot e) db)
              ≡ some x)
            xs
    kept [] a s = tt
    kept (x ∷ xs) a s = (
      find_entry-reindex_entry_other x.id position wait e (included_booking snapshot e) db
            (λ q. a.0 (sym q))
          ∙ s.0,
      kept xs a.1 s.1,
    )
