-- ===== src/Queue/Metrics.antt =====
-- services/bookings/queue-metrics.ts: the next place in a provider's queue and the wait for it.
use servicehub_backend.Base.{
  ℕ, ◌+◌, ◌<◌, ◌≡◌, refl, sym, ap, subst, ◌⊎◌, inl, inr, Bool, true, ◌&&◌, ◌||◌, Option, none, some,
  List, [], ◌∷◌, map, arith, ltb, ◌==◌, if◌then◌else◌, or_else, Bool-cases, Option-cases, All, Any,
  All-map, sum, select,
}
use servicehub_backend.Schema.{Db, QueueEntry, is_waiting, is_serving}
use servicehub_backend.Queue.{included_booking, duration_of}

-- status: { in: ["SERVING", "WAITING"] }
abbrev pub is_in_line : ℕ → QueueEntry → Bool
is_in_line provider q = q.provider_id == provider && (is_serving q.status || is_waiting q.status)

-- orderBy: { position: "desc" }
abbrev pub last_entry : List QueueEntry → Option QueueEntry
last_entry [] = none
last_entry (x ∷ xs) = elim (last_entry xs) [
  | none ↦ some x
  | some y ↦ if ltb x.position y.position then some y else some x
]

-- `lastEntry ? lastEntry.position + 1 : 1`
abbrev pub next_after : Option QueueEntry → ℕ
next_after none = 1
next_after (some e) = e.position + 1

unfoldable pub get_next_queue_position : ℕ → Db → ℕ
get_next_queue_position provider db =
    next_after (last_entry (select (is_in_line provider) db.queue))

unfoldable pub calculate_estimated_wait : ℕ → ℕ → Db → ℕ
calculate_estimated_wait provider position db = sum (
    map (λ e. or_else (duration_of (included_booking db e)) 60)
      (select (λ q. is_in_line provider q && ltb q.position position) db.queue))

last_entry_greatest : (xs : List QueueEntry) → All (λ e. e.position < next_after (last_entry xs)) xs
last_entry_greatest [] = tt
last_entry_greatest (x ∷ xs) = elim (Option-cases (last_entry xs)) [
  | inl e ↦ (ground arith, none_left xs e)
  | inr (y, e) ↦ (
    ground arith,
    All-map (λ z (k : z.position < next_after (last_entry xs)). ground arith) xs
        (last_entry_greatest xs),
  )
]
  where
    none_left :
        (ys : List QueueEntry)
        → last_entry ys ≡ none
        → All (λ z. z.position < next_after (last_entry (x ∷ xs))) ys
    none_left [] q = tt
    none_left (y ∷ ys) q = absurd (ground arith)

select-and_All {ℓ} :
    {A : Type ℓ} (p r : A → Bool) (xs : List A)
    → All (λ x. r x ≡ true) (select p xs)
    → select (λ x. p x && r x) xs ≡ select p xs
select-and_All p r [] h = refl
select-and_All p r (x ∷ xs) h = elim (Bool-cases (p x)) [
  | inl c ↦ let k = rw c at h in rw (c, k.0) (ap (◌∷◌ x) (select-and_All p r xs k.1))
  | inr c ↦ let k = rw c at h in rw c (select-and_All p r xs k)
]

last_entry_there :
    (xs : List QueueEntry)
    → ((xs ≡ []) × (next_after (last_entry xs) ≡ 1))
      ⊎ Any (λ e. next_after (last_entry xs) ≡ e.position + 1) xs
last_entry_there [] = inl (refl, refl)
last_entry_there (x ∷ xs) = elim (Option-cases (last_entry xs)) [
  | inl e ↦ inr (inl (ground arith))
  | inr (y, e) ↦ elim (Bool-cases (ltb x.position y.position)) [
    | inl c ↦
        let next : next_after (last_entry (x ∷ xs)) ≡ next_after (last_entry xs) = ground arith in
        elim (last_entry_there xs) [
          | inl k ↦ absurd (ground (arith, k, e))
          | inr k ↦ inr (inr (subst (λ n. Any (λ z. n ≡ z.position + 1) xs) (sym next) k))
        ]
    | inr c ↦ inr (inl (ground arith))
  ]
]

-- The line of a provider are the entries that are served or wait. The next position is 1 for an
-- empty line, else one more than that of an entry of the line, and lies behind every entry of it;
-- a booking that takes it waits for all entries of the line, an unknown duration counting as 60
-- minutes.
pub next_position_last :
    (provider : ℕ) (db : Db)
    → let line =
        select
          (λ e. e.provider_id == provider && (is_serving e.status || is_waiting e.status))
          db.queue in
      let next = get_next_queue_position provider db in
      (((line ≡ []) × (next ≡ 1)) ⊎ Any (λ e. next ≡ e.position + 1) line)
      × All (λ e. e.position < next) line
      × (calculate_estimated_wait provider next db
          ≡ sum (map (λ e. or_else (duration_of (included_booking db e)) 60) line))
unfolding get_next_queue_position calculate_estimated_wait
next_position_last provider db =
    let line = select (is_in_line provider) db.queue in
    let greatest = last_entry_greatest line in
    (
      last_entry_there line,
      greatest,
      ap (λ es. sum (map (λ e. or_else (duration_of (included_booking db e)) 60) es))
          (select-and_All (is_in_line provider) (λ q. ltb q.position (next_after (last_entry line)))
            db.queue
            (All-map (λ z (k : z.position < next_after (last_entry line)). ground arith) line
              greatest)),
    )
