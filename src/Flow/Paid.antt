-- ===== src/Flow/Paid.antt =====
-- The payments of bookings over sequences of transactions.
use servicehub_backend.Base.{
  ℕ, ◌≤◌, ◌≡◌, refl, ap, ◌∙◌, Bool, true, false, Option, none, some, arith, is_some, ==_refl, ok,
  count,
}
use servicehub_backend.Schema.{
  Db, Booking, QueueEntry, ProgressKind, ActorRole, queue_of, update_booking,
}
use servicehub_backend.Queue.Frame.{count-bookings-recalculate_queue, recalculate_queue-frame}
use servicehub_backend.Policy.Bookings.{paid_start_block_reason}
use servicehub_backend.Bookings.{record_booking_progress}
use servicehub_backend.Bookings.Frame.{record_booking_progress-frame, record_lifecycle_notice-frame}
use servicehub_backend.Bookings.Start.{
  check_start, check_cash_start, check_paid_start, enter_service, begin, recalculate_if, begin_job,
  begin_and_tell, provider_start_job,
}
use servicehub_backend.Bookings.OneJob.{start_inversion}
use servicehub_backend.Bookings.Completion.Ledger.{payments, is_open_money, open_money, IsPaidOnce}
use servicehub_backend.Bookings.Completion.Settlement.{settle_completed_booking-IsPaidOnce}
use servicehub_backend.Bookings.Completion.Held.{
  rewritten-IsPaidOnce, update-open_apart, messages-IsPaidOnce, resolved_open,
  mark_job_complete-IsPaidOnce, dispute_job-IsPaidOnce,
}
use servicehub_backend.Refunds.{fail_refund}
use servicehub_backend.Refunds.Ledger.{finalize_refund-IsPaidOnce}
use servicehub_backend.Refunds.Payment.{reserve_refund-IsPaidOnce}
use servicehub_backend.Cancellations.Immediate.{finish_cancel-IsPaidOnce}
use servicehub_backend.Flow.{Step, Run}

recalculate_if-money :
    (paid : Bool) (provider : ℕ) (db : Db) (x : ℕ)
    → (payments x (recalculate_if paid provider db) ≡ payments x db)
      × (open_money x (recalculate_if paid provider db) ≡ open_money x db)
recalculate_if-money true provider db x = (
  ap (payments x) (recalculate_queue-frame provider db),
  count-bookings-recalculate_queue (is_open_money x) provider db (λ b o. refl),
)
recalculate_if-money false provider db x = (refl, refl)

enter_service-money :
    (o : Option QueueEntry) (db : Db) (x : ℕ)
    → (payments x (enter_service o db) ≡ payments x db)
      × ((enter_service o db).bookings ≡ db.bookings)
enter_service-money none db x = (refl, refl)
enter_service-money (some q) db x = (refl, refl)

begin_job-IsPaidOnce :
    (b : Booking) (entry : Option QueueEntry) (provider now : ℕ) (db : Db)
    → IsPaidOnce db
    → 1 ≤ open_money b.id db
    → IsPaidOnce (begin_job b entry provider now db)
unfolding begin_job
begin_job-IsPaidOnce b entry provider now db inv unsettled =
    let served = enter_service entry db in
    let updated = update_booking b.id (begin now entry) served in
    let told = record_booking_progress b.id ProgressKind.started ActorRole.provider 0 now updated in
    let progress =
      record_booking_progress-frame b.id ProgressKind.started ActorRole.provider 0 now updated in
    rewritten-IsPaidOnce b.id db (recalculate_if (is_some entry) provider told) inv unsettled
      (λ x.
        (recalculate_if-money (is_some entry) provider told x).0
        ∙ ap (payments x) progress
        ∙ (enter_service-money entry db x).0)
      (λ x n.
        (recalculate_if-money (is_some entry) provider told x).1
        ∙ ap (open_money x) progress
        ∙ update-open_apart b.id (begin now entry) served (λ y. refl) x n
        ∙ ap (count (is_open_money x)) (enter_service-money entry db x).1)

check_start-open :
    (b : Booking) (entry : Option QueueEntry) (provider : ℕ) (db : Db)
    → check_start b entry provider db ≡ ok tt
    → is_open_money b.id b ≡ true
unfolding check_cash_start check_paid_start paid_start_block_reason
check_start-open b none provider db h = ground (arith, ==_refl b.id)
check_start-open b (some q) provider db h = ground (arith, ==_refl b.id)

provider_start_job-IsPaidOnce :
    (id provider now : ℕ) (db d : Db)
    → IsPaidOnce db
    → provider_start_job id provider now db ≡ ok d
    → IsPaidOnce d
unfolding begin_and_tell
provider_start_job-IsPaidOnce id provider now db d inv h =
    let (b, e, own, idle, checked, ordered, ran) = start_inversion id provider now db d h in
    let rows = begin_job b (queue_of b.id db) provider now db in
    let unsettled =
      resolved_open id db b e (check_start-open b (queue_of b.id db) provider db checked) in
    messages-IsPaidOnce rows d (record_lifecycle_notice-frame b _ _ rows d ran)
      (begin_job-IsPaidOnce b (queue_of b.id db) provider now db inv unsettled)

fail_refund-IsPaidOnce :
    (booking : ℕ) (db : Db) → IsPaidOnce db → IsPaidOnce (fail_refund booking db)
unfolding IsPaidOnce
fail_refund-IsPaidOnce booking db inv = inv

Step-IsPaidOnce : (db d : Db) → Step db d → IsPaidOnce db → IsPaidOnce d
Step-IsPaidOnce db d (Step.starts id provider now h) inv =
    provider_start_job-IsPaidOnce id provider now db d inv h
Step-IsPaidOnce db d (Step.marks id provider now h) inv =
    mark_job_complete-IsPaidOnce id provider now db d inv h
Step-IsPaidOnce db d (Step.disputes booking seeker now h) inv =
    dispute_job-IsPaidOnce booking seeker now db d inv h
Step-IsPaidOnce db d (Step.settles booking actor now h) inv =
    settle_completed_booking-IsPaidOnce booking actor now db d inv h
Step-IsPaidOnce db d (Step.reserves booking requested_by payment amount known h) inv =
    reserve_refund-IsPaidOnce booking requested_by payment amount db d known inv h
Step-IsPaidOnce db d (Step.fails booking) inv = fail_refund-IsPaidOnce booking db inv
Step-IsPaidOnce db d (Step.finalizes booking requested_by resumed gateway amount now h) inv =
    finalize_refund-IsPaidOnce booking requested_by resumed gateway amount now db d inv h
Step-IsPaidOnce db d (Step.cancels held booking actor request now h) inv =
    finish_cancel-IsPaidOnce held booking actor request now db d inv h

-- However the transactions that start, complete, dispute, settle, refund and cancel bookings follow
-- one another, by whomever and on whatever bookings: if at the beginning every booking has been
-- paid for once at most, to the provider or back to the seeker, and not at all while it is open,
-- then so it is at the end.
pub Run-IsPaidOnce : (db d : Db) → Run db d → IsPaidOnce db → IsPaidOnce d
Run-IsPaidOnce db d Run.stop inv = inv
Run-IsPaidOnce db d (Run.next {d = middle} step rest) inv =
    Run-IsPaidOnce middle d rest (Step-IsPaidOnce db middle step inv)
