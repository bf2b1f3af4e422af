-- ===== src/Queue/Recalculate.antt =====
-- The whole recalculation of a provider's queue (services/queue.service.ts): places, waits, and
-- what it leaves alone.
use servicehub_backend.Base.{
  ℕ, ◌≡◌, refl, sym, ap, ◌∙◌, subst, ◌≢◌, inl, inr, Bool, true, ◌&&◌, ◌||◌, Option, none, some,
  List, [], ◌∷◌, arith, ◌==◌, or_else, Bool-cases, ==_refl, All, find, select, count, find-holds,
  find-update_other, find-update_hit,
}
use servicehub_backend.Schema.{
  Db, QueueEntry, is_serving, is_waiting, is_cash, is_ongoing, is_on_hold,
}
use servicehub_backend.Queue.{
  waits_for, serves_for, duration_of, waiting_entries, included_booking, first_wait, reset_serving,
  first_position, recalculate_queue,
}
use servicehub_backend.Queue.Reindex.{
  find_entry, Distinct, Stored, Placed, All-order_by, All-select, Distinct-order_by,
  Distinct-select, Stored-All, reindex-Placed, find_entry-reindex_other,
}
use servicehub_backend.Queue.Order.{Ordered, waiting_entries-Ordered}

All-find {ℓ κ} :
    {A : Type ℓ} (P : A → Type κ) (p : A → Bool) (xs : List A) (a : A)
    → All P xs
    → find p xs ≡ some a
    → P a
All-find P p [] a h e = absurd (none≢some e)
  where
    none≢some : none ≡ some a → ⊥
    none≢some q = cc
All-find P p (x ∷ xs) a h e = elim (Bool-cases (p x)) [
  | inl c ↦ subst P (ground arith) h.0
  | inr c ↦ All-find P p xs a h.1 (ground arith)
]

selected {ℓ} : {A : Type ℓ} (p : A → Bool) (xs : List A) → All (λ x. p x ≡ true) (select p xs)
selected p [] = tt
selected p (x ∷ xs) = elim (Bool-cases (p x)) [
  | inl c ↦ rw c (c, selected p xs)
  | inr c ↦ rw c (selected p xs)
]

-- The entry under service is none of those that wait.
serving_apart :
    (provider : ℕ) (table : List QueueEntry) (s e : QueueEntry)
    → All (Stored table) table
    → find (serves_for provider) table ≡ some s
    → Stored table e
    → waits_for provider e ≡ true
    → s.id ≢ e.id
serving_apart provider table s e all' f h w q =
    let stored = All-find (Stored table) (serves_for provider) table s all' f in
    let same : some s ≡ some e = sym stored ∙ (ap (λ k. find (λ x. x.id == k) table) q ∙ h) in
    let serves = find-holds (serves_for provider) table s f in ground (arith, same, serves)

find_entry-reset_serving_other :
    (k : ℕ) (s : QueueEntry) (db : Db)
    → s.id ≢ k
    → find_entry k (reset_serving (some s) db) ≡ find_entry k db
unfolding reset_serving
find_entry-reset_serving_other k s db h =
    let other =
      find-update_other (λ (q : QueueEntry). q.id == k) (λ q. q.id == s.id)
        (λ q. record q { position = 1; estimated_wait = 0 }) db.queue (λ a. refl)
        (λ a p. ground arith) in
    ground (arith, other)

still-Stored :
    (provider : ℕ) (db : Db) (o : Option QueueEntry) (es : List QueueEntry)
    → find (serves_for provider) db.queue ≡ o
    → All (Stored db.queue) db.queue
    → All (Stored db.queue) es
    → All (λ e. waits_for provider e ≡ true) es
    → All (λ e. find_entry e.id (reset_serving o db) ≡ some e) es
unfolding reset_serving
still-Stored provider db o [] f all' h w = tt
still-Stored provider db none (e ∷ es) f all' h w =
    (h.0, still-Stored provider db none es f all' h.1 w.1)
still-Stored provider db (some s) (e ∷ es) f all' h w = (
  find_entry-reset_serving_other e.id s db (serving_apart provider db.queue s e all' f h.0 w.0)
      ∙ h.0,
  still-Stored provider db (some s) es f all' h.1 w.1,
)

waiting-Stored :
    (provider : ℕ) (db : Db)
    → Distinct db.queue
    → All (Stored db.queue) (waiting_entries provider db)
unfolding waiting_entries
waiting-Stored provider db d =
    All-order_by (Stored db.queue) (select (waits_for provider) db.queue)
      (All-select (Stored db.queue) (waits_for provider) db.queue (Stored-All db.queue d))

waiting_wait :
    (provider : ℕ) (db : Db) → All (λ e. waits_for provider e ≡ true) (waiting_entries provider db)
unfolding waiting_entries
waiting_wait provider db =
    All-order_by (λ e. waits_for provider e ≡ true) (select (waits_for provider) db.queue)
      (selected (waits_for provider) db.queue)

waiting-Distinct :
    (provider : ℕ) (db : Db) → Distinct db.queue → Distinct (waiting_entries provider db)
unfolding waiting_entries
waiting-Distinct provider db d =
    Distinct-order_by (select (waits_for provider) db.queue)
      (Distinct-select (waits_for provider) db.queue d)

find_entry-reset_serving :
    (s : QueueEntry) (db : Db)
    → find_entry s.id db ≡ some s
    → find_entry s.id (reset_serving (some s) db)
      ≡ some (record s { position = 1; estimated_wait = 0 })
unfolding reset_serving
find_entry-reset_serving s db h =
    let hit =
      find-update_hit (λ (q : QueueEntry). q.id == s.id) (λ q. q.id == s.id)
        (λ q. record q { position = 1; estimated_wait = 0 }) db.queue s (λ a. refl) h
        (==_refl s.id) in
    ground (arith, hit)

-- The entry under service comes out of a recalculation at the position 1 with no wait.
serving-recalculate_queue :
    (provider : ℕ) (db : Db) (s : QueueEntry)
    → Distinct db.queue
    → find (serves_for provider) db.queue ≡ some s
    → find_entry s.id (recalculate_queue provider db)
      ≡ some (record s { position = 1; estimated_wait = 0 })
unfolding recalculate_queue
serving-recalculate_queue provider db s d f =
    let stored = Stored-All db.queue d in
    find_entry-reindex_other s.id db _ _ (waiting_entries provider db) _ (
      apart (waiting_entries provider db) (waiting-Stored provider db d) (waiting_wait provider db))
    ∙ ap (λ o. find_entry s.id (reset_serving o db)) f
    ∙ find_entry-reset_serving s db
        (All-find (Stored db.queue) (serves_for provider) db.queue s stored f)
  where
    apart :
        (es : List QueueEntry)
        → All (Stored db.queue) es
        → All (λ e. waits_for provider e ≡ true) es
        → All (λ e. e.id ≢ s.id) es
    apart [] h w = tt
    apart (e ∷ es) h w = (
      λ q. serving_apart provider db.queue s e (Stored-All db.queue d) f h.0 w.0 (sym q),
      apart es h.1 w.1,
    )

-- With unique ids in the queue table, a recalculation gives the provider's waiting entries, which
-- it takes once each by position, then by the time they joined, then by id, consecutive positions
-- and waits. An entry under service gets the position 1 and no wait; behind it the positions start
-- at 2 and the waits at the duration of its booking. With no such entry they start at 1 and at the
-- duration of the started cash booking that is ongoing or on hold. An unknown duration counts as 0
-- at the start, and as 60 minutes for the entries that follow. Nothing else of these entries
-- changes.
pub recalculate_queue-Placed :
    (provider : ℕ) (db : Db)
    → Distinct db.queue
    → let serving = find (λ e. e.provider_id == provider && is_serving e.status) db.queue in
      let in_progress =
        find
          (λ b.
            b.provider_id == provider
            && is_cash b.payment_method
            && b.started
            && (is_ongoing b.status || is_on_hold b.status))
          db.bookings in
      (es : List QueueEntry) × (start : ℕ) × (wait : ℕ) × Ordered es
      × ((q : QueueEntry → Bool)
          → count q es
            ≡ count q (select (λ e. e.provider_id == provider && is_waiting e.status) db.queue))
      × (serving ≡ none → (start ≡ 1) × (wait ≡ or_else (duration_of in_progress) 0))
      × ((s : QueueEntry)
          → serving ≡ some s
          → (start ≡ 2)
            × (wait ≡ or_else (duration_of (included_booking db s)) 0)
            × (find_entry s.id (recalculate_queue provider db)
                ≡ some (record s { position = 1; estimated_wait = 0 })))
      × Placed db start wait es (recalculate_queue provider db)
recalculate_queue-Placed provider db d =
    let serving = find (serves_for provider) db.queue in
    let entries = waiting_entries-Ordered provider db in
    (
      waiting_entries provider db,
      first_position serving,
      first_wait db serving provider,
      entries.0,
      entries.1,
      λ e. unfold first_wait in (ground (arith, e), ground (arith, e)),
      λ s e. (
        ground (arith, e),
        unfold first_wait in ground (arith, e),
        serving-recalculate_queue provider db s d e,
      ),
      unfold recalculate_queue in
          reindex-Placed db _ _ (waiting_entries provider db) _ (waiting-Distinct provider db d) (
            still-Stored provider db serving (waiting_entries provider db) refl
              (Stored-All db.queue d) (waiting-Stored provider db d) (waiting_wait provider db)),
    )
