-- ===== src/Bookings/OneJob.antt =====
-- The start of a job against the other jobs of the provider (providerStartJob of
-- services/bookings/provider-operations.service.ts).
use servicehub_backend.Base.{
  ℕ, ◌+◌, ◌≤◌, ◌≡◌, refl, ap, ◌∙◌, ◌≢◌, Bool, true, false, ◌&&◌, Option, none, some, List, [], ◌∷◌,
  arith, ltb, ◌==◌, if◌then◌else◌, is_some, ==→eq, ==_refl, ne→==, ok, >>=-eq-ok, require-eq-ok,
  reject-eq-ok, found-eq-ok, length, All, length-select, count-All, All-map, select, count,
}
use servicehub_backend.Schema.{
  Db, Booking, QueueEntry, is_ongoing, is_on_hold, is_cash, is_waiting, is_serving, queue_of,
  find_user,
}
use servicehub_backend.Policy.Accounts.{can_take_work}
use servicehub_backend.Policy.Bookings.{paid_start_block_reason}
use servicehub_backend.Queue.{serves_for, waits_for, waiting_entries}
use servicehub_backend.Bookings.{assert_no_refund_in_progress}
use servicehub_backend.Bookings.Start.{
  resolve_booking, is_other_work, check_start, check_order, check_cash_start, check_paid_start,
  is_first, begin_and_tell, provider_start_job,
}
use servicehub_backend.Queue.Order.{LeadsLine, waiting_entries-LeadsLine}
use servicehub_backend.Bookings.Begin.{works_on_other, begin_and_tell-counts}

count-none {ℓ} :
    {A : Type ℓ} (p q : A → Bool) (xs : List A)
    → ((a : A) → q a ≡ true → p a ≡ true)
    → count p xs ≡ 0
    → count q xs ≡ 0
count-none p q [] h e = refl
count-none p q (x ∷ xs) h e = ground (arith, h x, count-none p q xs h)

check_start-fresh :
    (b : Booking) (entry : Option QueueEntry) (provider : ℕ) (db : Db)
    → check_start b entry provider db ≡ ok tt
    → b.started ≡ false
unfolding check_cash_start check_paid_start paid_start_block_reason
check_start-fresh b none provider db h = ground arith
check_start-fresh b (some q) provider db h = ground arith

check_order-first :
    (entry : Option QueueEntry) (provider : ℕ) (db : Db)
    → check_order entry provider db ≡ ok tt
    → (entry ≡ none → count (waits_for provider) db.queue ≡ 0)
      × ((q : QueueEntry) → entry ≡ some q → is_first q (waiting_entries provider db) ≡ true)
      × (is_some entry ≡ true → count (serves_for provider) db.queue ≡ 0)
check_order-first none provider db h = (λ e. ground arith, λ q e. absurd (cc e), λ e. absurd (cc e))
check_order-first (some x) provider db h =
    (λ e. absurd (cc e), λ q e. ground (arith, h, e), λ e. ground arith)

other_is_work :
    (provider booking : ℕ) (db : Db) (a : Booking)
    → works_on_other provider booking a ≡ true
    → is_other_work provider booking db a ≡ true
other_is_work provider booking db a h = ground arith

served_bound :
    (o : Option QueueEntry) (before after : ℕ)
    → before ≤ 1
    → (is_some o ≡ true → before ≡ 0)
    → after ≤ before + (if is_some o then 1 else 0)
    → after ≤ 1
served_bound none before after one z h = omega arith
served_bound (some q) before after one z h = ground (arith, z refl)

ltb-zero : (n : ℕ) → ltb 0 n ≡ false → n ≡ 0
ltb-zero n h = ground arith

-- What a start that succeeds went through.
pub start_inversion :
    (id provider now : ℕ) (db d : Db)
    → provider_start_job id provider now db ≡ ok d
    → (b : Booking) × (resolve_booking id db ≡ some b)
      × (b.provider_id ≡ provider)
      × (count (is_other_work provider b.id db) db.bookings ≡ 0)
      × (check_start b (queue_of b.id db) provider db ≡ ok tt)
      × (check_order (queue_of b.id db) provider db ≡ ok tt)
      × (begin_and_tell b provider now db ≡ ok d)
unfolding provider_start_job
start_inversion id provider now db d h =
    let (b, e, h1) = found-eq-ok (resolve_booking id db) _ _ h in
    let (own, h2) = require-eq-ok (b.provider_id == provider) _ h1 in
    let (_, _, h3) = >>=-eq-ok (assert_no_refund_in_progress b.id db) _ h2 in
    let (u, _, h4) = found-eq-ok (find_user provider db) _ _ h3 in
    let (_, h5) = require-eq-ok (can_take_work u) _ h4 in
    let (_, checked, h6) = >>=-eq-ok (check_start b (queue_of b.id db) provider db) _ h5 in
    let (idle, h7) =
      reject-eq-ok (ltb 0 (count (is_other_work provider b.id db) db.bookings)) _ h6 in
    let (_, ordered, ran) = >>=-eq-ok (check_order (queue_of b.id db) provider db) _ h7 in
    (
      b,
      e,
      ==→eq b.provider_id provider own,
      ltb-zero (count (is_other_work provider b.id db) db.bookings) idle,
      checked,
      ordered,
      ran,
    )

idle_elsewhere :
    (provider booking : ℕ) (db : Db) (x : Booking)
    → is_other_work provider booking db x ≡ false
    → x.provider_id ≡ provider
    → x.id ≢ booking
    → (is_ongoing x.status ≡ false)
      × (x.started ≡ true → is_cash x.payment_method ≡ true → is_on_hold x.status ≡ false)
      × ((q : QueueEntry) → queue_of x.id db ≡ some q → is_serving q.status ≡ false)
idle_elsewhere provider booking db x h own other =
    let mine : (x.provider_id == provider) ≡ true = rw own (==_refl provider) in
    let apart = ne→== x.id booking other in
    (
      ground (arith, mine, apart, h),
      λ s c. ground (arith, mine, apart, h),
      λ q e. ground (arith, mine, apart, h, e),
    )

is_first-LeadsLine :
    (provider : ℕ) (q : QueueEntry) (db : Db) (es : List QueueEntry)
    → waiting_entries provider db ≡ es
    → is_first q es ≡ true
    → LeadsLine q.id (select (waits_for provider) db.queue)
is_first-LeadsLine provider q db [] h f = absurd (cc f)
is_first-LeadsLine provider q db (x ∷ xs) h f =
    waiting_entries-LeadsLine provider q.id db x xs h (==→eq x.id q.id f)

-- A start that succeeds goes to a job of this provider that has not started. None of the
-- provider's other bookings is ongoing, or started for cash and on hold, or has an entry of the
-- queue under service. An online job leads the entries of the provider that wait, by position, then
-- by time and id, while none is served; a job without an entry waits until no entry does.
-- Afterwards no other booking of the provider is ongoing, or started for cash and on hold, and one
-- entry at most is served, if the ids of the queue are unique and at most one was served before.
pub provider_start_job_one_job :
    (id provider now : ℕ) (db d : Db)
    → ((i : ℕ) → count (λ (q : QueueEntry). q.id == i) db.queue ≤ 1)
    → count (serves_for provider) db.queue ≤ 1
    → provider_start_job id provider now db ≡ ok d
    → let line = select (λ q. q.provider_id == provider && is_waiting q.status) db.queue in
      (b : Booking) × (resolve_booking id db ≡ some b)
      × (b.provider_id ≡ provider)
      × (b.started ≡ false)
      × All
          (λ x.
            x.provider_id ≡ provider
            → x.id ≢ b.id
            → (is_ongoing x.status ≡ false)
              × (x.started ≡ true → is_cash x.payment_method ≡ true → is_on_hold x.status ≡ false)
              × ((q : QueueEntry) → queue_of x.id db ≡ some q → is_serving q.status ≡ false))
          db.bookings
      × (queue_of b.id db ≡ none → length line ≡ 0)
      × ((q : QueueEntry)
          → queue_of b.id db ≡ some q
          → LeadsLine q.id line
            × (count (λ x. x.provider_id == provider && is_serving x.status) db.queue ≡ 0))
      × (count (works_on_other provider b.id) d.bookings ≡ 0)
      × (count (λ x. x.provider_id == provider && is_serving x.status) d.queue ≤ 1)
provider_start_job_one_job id provider now db d unique one h =
    let (b, e, own, idle, checked, ordered, ran) = start_inversion id provider now db d h in
    let order = check_order-first (queue_of b.id db) provider db ordered in
    let counts = begin_and_tell-counts b provider now db d unique ran in
    (
      b,
      e,
      own,
      check_start-fresh b (queue_of b.id db) provider db checked,
      All-map (λ x. idle_elsewhere provider b.id db x) db.bookings
          (count-All (is_other_work provider b.id db) db.bookings idle),
      λ k. length-select (waits_for provider) db.queue ∙ order.0 k,
      λ q k. (
        is_first-LeadsLine provider q db (waiting_entries provider db) refl (order.1 q k),
        order.2 (ap is_some k),
      ),
      counts.0
          ∙ count-none (is_other_work provider b.id db) (works_on_other provider b.id) db.bookings
              (other_is_work provider b.id db) idle,
      served_bound (queue_of b.id db) (count (serves_for provider) db.queue)
          (count (serves_for provider) d.queue) one order.2 counts.1,
    )
