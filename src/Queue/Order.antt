-- ===== src/Queue/Order.antt =====
-- The order of a provider's queue, orderBy: [{ position: "asc" }, { joinedAt: "asc" }, { id: "asc" }]
-- of services/queue.service.ts, stated apart from the sort that reads the entries in it.
use servicehub_backend.Base.{
  ℕ, ◌≤◌, ◌<◌, ◌≡◌, refl, sym, ◌∙◌, subst, ◌⊎◌, inl, inr, Bool, true, false, List, [], ◌∷◌, arith,
  Bool-cases, All, Any, All-map, select, count,
}
use servicehub_backend.Schema.{Db, QueueEntry}
use servicehub_backend.Queue.{before, place, order_by, waits_for, waiting_entries}
use servicehub_backend.Queue.Reindex.{All-place}

-- One entry stands before another: by its position, then by the time it joined, then by its id.
abbrev pub StandsBefore : QueueEntry → QueueEntry → Type 0
StandsBefore a b =
    (a.position < b.position)
    ⊎ ((a.position ≡ b.position)
        × ((a.joined_at < b.joined_at) ⊎ ((a.joined_at ≡ b.joined_at) × (a.id ≤ b.id))))

-- Each entry stands before all that follow it.
abbrev pub Ordered : List QueueEntry → Type 0
Ordered [] = Unit
Ordered (x ∷ xs) = All (StandsBefore x) xs × Ordered xs

StandsBefore-trans : (a b c : QueueEntry) → StandsBefore a b → StandsBefore b c → StandsBefore a c
StandsBefore-trans a b c h k = ground (arith, h, k)

before-holds : (a b : QueueEntry) → before a b ≡ true → StandsBefore a b
before-holds a b h = ground (arith, h)

before-fails : (a b : QueueEntry) → before a b ≡ false → StandsBefore b a
before-fails a b h = ground (arith, h)

place-Ordered : (e : QueueEntry) (es : List QueueEntry) → Ordered es → Ordered (place e es)
place-Ordered e [] h = (tt, tt)
place-Ordered e (x ∷ xs) h = elim (Bool-cases (before e x)) [
  | inl c ↦
      let first = before-holds e x c in
      rw (c, place) ((first, All-map (λ y k. StandsBefore-trans e x y first k) xs h.0), h)
  | inr c ↦
      rw (c, place)
        (All-place (StandsBefore x) e xs (before-fails e x c) h.0, place-Ordered e xs h.1)
]

order_by-Ordered : (es : List QueueEntry) → Ordered (order_by es)
order_by-Ordered [] = tt
order_by-Ordered (x ∷ xs) = place-Ordered x (order_by xs) (order_by-Ordered xs)

count-place :
    (q : QueueEntry → Bool) (e : QueueEntry) (es : List QueueEntry)
    → count q (place e es) ≡ count q (e ∷ es)
count-place q e [] = refl
count-place q e (x ∷ xs) = elim (Bool-cases (before e x)) [
  | inl c ↦ rw (c, place) refl
  | inr c ↦ rw (c, place) (ground (arith, count-place q e xs))
]

count-order_by : (q : QueueEntry → Bool) (es : List QueueEntry) → count q (order_by es) ≡ count q es
count-order_by q [] = refl
count-order_by q (x ∷ xs) = count-place q x (order_by xs) ∙ ground (arith, count-order_by q xs)

-- The entries of the queue that wait are read once each, in the order of the queue.
pub waiting_entries-Ordered :
    (provider : ℕ) (db : Db)
    → Ordered (waiting_entries provider db)
      × ((q : QueueEntry → Bool)
          → count q (waiting_entries provider db) ≡ count q (select (waits_for provider) db.queue))
unfolding waiting_entries
waiting_entries-Ordered provider db = (
  order_by-Ordered (select (waits_for provider) db.queue),
  λ q. count-order_by q (select (waits_for provider) db.queue),
)

All-order_by-back :
    (P : QueueEntry → Type 0) (es : List QueueEntry) → All P (order_by es) → All P es
All-order_by-back P [] h = tt
All-order_by-back P (x ∷ xs) h =
    let both = All-place-back P x (order_by xs) h in (both.0, All-order_by-back P xs both.1)
  where
    All-place-back :
        (P : QueueEntry → Type 0) (e : QueueEntry) (es : List QueueEntry)
        → All P (place e es)
        → P e × All P es
    All-place-back P e [] h = h
    All-place-back P e (x ∷ xs) h = elim (Bool-cases (before e x)) [
      | inl c ↦ rw (c, place) at h
      | inr c ↦
          let k = rw (c, place) at h in
          let both = All-place-back P e xs k.1 in (both.0, (k.0, both.1))
    ]

Any-order_by-back :
    (P : QueueEntry → Type 0) (es : List QueueEntry) → Any P (order_by es) → Any P es
Any-order_by-back P [] h = h
Any-order_by-back P (x ∷ xs) h = elim (Any-place-back P x (order_by xs) h) [
  | inl k ↦ inl k
  | inr k ↦ inr (Any-order_by-back P xs k)
]
  where
    Any-place-back :
        (P : QueueEntry → Type 0) (e : QueueEntry) (es : List QueueEntry)
        → Any P (place e es)
        → P e ⊎ Any P es
    Any-place-back P e [] h = h
    Any-place-back P e (x ∷ xs) h = elim (Bool-cases (before e x)) [
      | inl c ↦ rw (c, place) at h
      | inr c ↦ elim (rw (c, place) at h) [
        | inl k ↦ inr (inl k)
        | inr k ↦ elim (Any-place-back P e xs k) [ inl m ↦ inl m | inr m ↦ inr (inr m) ]
      ]
    ]

-- An entry with this id waits, and stands before all others that do.
abbrev pub LeadsLine : ℕ → List QueueEntry → Type 0
LeadsLine id line = Any (λ x. (x.id ≡ id) × All (StandsBefore x) line) line

pub waiting_entries-LeadsLine :
    (provider id : ℕ) (db : Db) (x : QueueEntry) (xs : List QueueEntry)
    → waiting_entries provider db ≡ x ∷ xs
    → x.id ≡ id
    → LeadsLine id (select (waits_for provider) db.queue)
unfolding waiting_entries
waiting_entries-LeadsLine provider id db x xs h e =
    let line = select (waits_for provider) db.queue in
    let ordered = subst Ordered h (order_by-Ordered line) in
    let leads =
      All-order_by-back (StandsBefore x) line
        (subst (All (StandsBefore x)) (sym h) (ground arith, ordered.0)) in
    Any-order_by-back (λ y. (y.id ≡ id) × All (StandsBefore y) line) line
      (subst (Any (λ y. (y.id ≡ id) × All (StandsBefore y) line)) (sym h) (inl (e, leads)))
