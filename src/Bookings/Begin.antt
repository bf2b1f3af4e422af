-- ===== src/Bookings/Begin.antt =====
-- What the start of a job writes, counted: the provider's other jobs, and the entries under service
-- (providerStartJob of services/bookings/provider-operations.service.ts).
use servicehub_backend.Base.{
  ℕ, ◌+◌, ◌≤◌, ◌≡◌, refl, sym, ap, ◌∙◌, subst, Bool, true, false, not, ◌&&◌, ◌||◌, Option, none,
  some, List, [], ◌∷◌, arith, ◌==◌, if◌then◌else◌, is_some, ok, count, update, count-update_apart,
}
use servicehub_backend.Schema.{
  Db, Booking, QueueEntry, ProgressKind, ActorRole, is_ongoing, is_on_hold, is_cash, queue_of,
  update_booking,
}
use servicehub_backend.Queue.{serves_for}
use servicehub_backend.Queue.Counts.{count-recalculate_queue}
use servicehub_backend.Queue.Frame.{count-bookings-recalculate_queue}
use servicehub_backend.Bookings.{record_booking_progress}
use servicehub_backend.Bookings.Frame.{record_booking_progress-frame, record_lifecycle_notice-frame}
use servicehub_backend.Bookings.Start.{
  serve, enter_service, begin, recalculate_if, begin_job, begin_and_tell,
}

-- A job under way of the provider, but for one booking: it is ongoing, or started for cash and on
-- hold.
abbrev pub works_on_other : ℕ → ℕ → Booking → Bool
works_on_other provider booking b =
    b.provider_id == provider
    && not (b.id == booking)
    && (is_ongoing b.status || (b.started && is_cash b.payment_method && is_on_hold b.status))

count-serve :
    (provider entry : ℕ) (xs : List QueueEntry)
    → count (serves_for provider) (update (λ q. q.id == entry) serve xs)
      ≤ count (serves_for provider) xs + count (λ q. q.id == entry) xs
count-serve provider entry [] = omega arith
count-serve provider entry (x ∷ xs) = ground (arith, count-serve provider entry xs)

recalculate_if-bookings :
    (paid : Bool) (provider booking : ℕ) (db : Db)
    → count (works_on_other provider booking) (recalculate_if paid provider db).bookings
      ≡ count (works_on_other provider booking) db.bookings
recalculate_if-bookings true provider booking db =
    count-bookings-recalculate_queue (works_on_other provider booking) provider db (λ b o. refl)
recalculate_if-bookings false provider booking db = refl

recalculate_if-queue :
    (paid : Bool) (provider : ℕ) (db : Db)
    → count (serves_for provider) (recalculate_if paid provider db).queue
      ≡ count (serves_for provider) db.queue
recalculate_if-queue true provider db =
    count-recalculate_queue (serves_for provider) provider db (λ e p w. refl)
recalculate_if-queue false provider db = refl

enter_service-bookings :
    (o : Option QueueEntry) (db : Db) → (enter_service o db).bookings ≡ db.bookings
enter_service-bookings none db = refl
enter_service-bookings (some q) db = refl

enter_service-queue :
    (provider : ℕ) (o : Option QueueEntry) (db : Db)
    → ((i : ℕ) → count (λ (q : QueueEntry). q.id == i) db.queue ≤ 1)
    → count (serves_for provider) (enter_service o db).queue
      ≤ count (serves_for provider) db.queue + (if is_some o then 1 else 0)
enter_service-queue provider none db u = omega arith
enter_service-queue provider (some q) db u =
    ground (arith, count-serve provider q.id db.queue, u q.id)

begin_job-bookings :
    (b : Booking) (entry : Option QueueEntry) (provider now : ℕ) (db : Db)
    → count (works_on_other provider b.id) (begin_job b entry provider now db).bookings
      ≡ count (works_on_other provider b.id) db.bookings
unfolding begin_job
begin_job-bookings b entry provider now db =
    let served = enter_service entry db in
    let updated = update_booking b.id (begin now entry) served in
    recalculate_if-bookings (is_some entry) provider b.id _
    ∙ ap (λ d. count (works_on_other provider b.id) d.bookings)
        (record_booking_progress-frame b.id ProgressKind.started ActorRole.provider 0 now updated)
    ∙ count-update_apart (works_on_other provider b.id) (λ y. y.id == b.id) (begin now entry)
        served.bookings (λ a h. ground (arith, h)) (λ a h. ground (arith, h))
    ∙ ap (count (works_on_other provider b.id)) (enter_service-bookings entry db)

begin_job-queue :
    (b : Booking) (entry : Option QueueEntry) (provider now : ℕ) (db : Db)
    → ((i : ℕ) → count (λ (q : QueueEntry). q.id == i) db.queue ≤ 1)
    → count (serves_for provider) (begin_job b entry provider now db).queue
      ≤ count (serves_for provider) db.queue + (if is_some entry then 1 else 0)
unfolding begin_job
begin_job-queue b entry provider now db u =
    let served = enter_service entry db in
    let updated = update_booking b.id (begin now entry) served in
    let told = record_booking_progress b.id ProgressKind.started ActorRole.provider 0 now updated in
    let same =
      ap (λ d. count (serves_for provider) d.queue)
        (record_booking_progress-frame b.id ProgressKind.started ActorRole.provider 0 now
          updated) in
    ground (
      arith,
      recalculate_if-queue (is_some entry) provider told,
      same,
      enter_service-queue provider entry db u,
    )

pub begin_and_tell-counts :
    (b : Booking) (provider now : ℕ) (db d : Db)
    → ((i : ℕ) → count (λ (q : QueueEntry). q.id == i) db.queue ≤ 1)
    → begin_and_tell b provider now db ≡ ok d
    → (count (works_on_other provider b.id) d.bookings
        ≡ count (works_on_other provider b.id) db.bookings)
      × (count (serves_for provider) d.queue
          ≤ count (serves_for provider) db.queue + (if is_some (queue_of b.id db) then 1 else 0))
unfolding begin_and_tell
begin_and_tell-counts b provider now db d unique h =
    let begun = begin_job b (queue_of b.id db) provider now db in
    let last = record_lifecycle_notice-frame b _ _ begun d h in
    (
      ap (λ x. count (works_on_other provider b.id) x.bookings) last
          ∙ begin_job-bookings b (queue_of b.id db) provider now db,
      subst
          (λ n.
            n
            ≤ count (serves_for provider) db.queue + (if is_some (queue_of b.id db) then 1 else 0))
          (sym (ap (λ x. count (serves_for provider) x.queue) last))
          (begin_job-queue b (queue_of b.id db) provider now db unique),
    )
