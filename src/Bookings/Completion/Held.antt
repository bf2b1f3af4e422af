-- ===== src/Bookings/Completion/Held.antt =====
-- The payments of a booking whose work is marked complete or disputed (markJobComplete and
-- disputeJobService of services/bookings/completion.service.ts).
use servicehub_backend.Base.{
  ℕ, ◌≤◌, ◌≡◌, refl, sym, ap, ◌∙◌, subst, ◌≢◌, inl, inr, true, Option, none, some, List, [], ◌∷◌,
  map, arith, ◌==◌, Bool-cases, Option-cases, ==→eq, ==_refl, ok, >>=-eq-ok, require-eq-ok,
  reject-eq-ok, found-eq-ok, find, select, find-count, count-update_apart,
}
use servicehub_backend.Schema.{
  Db, Booking, QueueEntry, ProgressKind, ActorRole, Notice, CaseStatus, Resolution, is_awaiting,
  is_ongoing, find_booking, queue_of, update_booking, update_queue,
}
use servicehub_backend.Queue.{recalculate_queue}
use servicehub_backend.Queue.Frame.{
  count-bookings-recalculate_queue, recalculate_queue-frame, notify_waitlist-frame,
}
use servicehub_backend.Policy.Accounts.{assert_distinct_accounts}
use servicehub_backend.Bookings.{
  record_booking_progress, record_lifecycle_notice, assert_no_refund_in_progress,
  assert_no_financial_resolution_reserved,
}
use servicehub_backend.Bookings.Frame.{
  OnlyMessages, notify_all-frame, record_booking_progress-frame, record_lifecycle_notice-frame,
}
use servicehub_backend.Bookings.Start.{resolve_booking}
use servicehub_backend.Bookings.Completion.{
  mark_complete, finish, leave_service, mark_job_complete, dispute, frozen, freeze_entry,
  create_dispute, close_escalations, notify_admins, is_active_admin, has_open_dispute, dispute_job,
}
use servicehub_backend.Bookings.Completion.Ledger.{payments, is_open_money, open_money, IsPaidOnce}

-- A write to one booking that was open, which leaves the ledger and the other bookings alone.
pub rewritten-IsPaidOnce :
    (booking : ℕ) (db d : Db)
    → IsPaidOnce db
    → 1 ≤ open_money booking db
    → ((x : ℕ) → payments x d ≡ payments x db)
    → ((x : ℕ) → x ≢ booking → open_money x d ≡ open_money x db)
    → IsPaidOnce d
unfolding IsPaidOnce
rewritten-IsPaidOnce booking db d inv unsettled same kept x = elim (Bool-cases (booking == x)) [
  | inl e ↦
      let before = (inv x).1 (subst (λ y. 1 ≤ open_money y db) (==→eq booking x e) unsettled) in
      (ground (arith, same x, before), ground (arith, same x, before))
  | inr e ↦
      let apart = kept x (λ q. ground (arith, q, e)) in
      (ground (arith, same x, inv x), ground (arith, same x, inv x, apart))
]

pub update-open_apart :
    (booking : ℕ) (f : Booking → Booking) (db : Db)
    → ((b : Booking) → (f b).id ≡ b.id)
    → (x : ℕ) → x ≢ booking
    → open_money x (update_booking booking f db) ≡ open_money x db
update-open_apart booking f db keeps x n =
    count-update_apart (is_open_money x) (λ y. y.id == booking) f db.bookings
      (λ a h. ground (arith, h, n)) (λ a h. ground (arith, h, n, keeps a))

leave_service-money :
    (o : Option QueueEntry) (provider now : ℕ) (db : Db) (x : ℕ)
    → (payments x (leave_service o provider now db) ≡ payments x db)
      × (open_money x (leave_service o provider now db) ≡ open_money x db)
unfolding leave_service
leave_service-money none provider now db x = (
  ap (payments x) (recalculate_queue-frame provider db),
  count-bookings-recalculate_queue (is_open_money x) provider db (λ b o. refl),
)
leave_service-money (some q) provider now db x =
    let moved = update_queue q.id finish db in
    let queued = recalculate_queue provider moved in
    let told = notify_waitlist-frame provider now queued in
    (
      ap (payments x) told ∙ ap (payments x) (recalculate_queue-frame provider moved),
      ap (open_money x) told
          ∙ count-bookings-recalculate_queue (is_open_money x) provider moved (λ b o. refl),
    )

abbrev marked_complete : Booking → ℕ → Db → Db
marked_complete b now db = leave_service (queue_of b.id db) b.provider_id now (
    record_booking_progress b.id ProgressKind.work_marked_complete ActorRole.provider now now
      (update_booking b.id (mark_complete now) db))

marked_complete-IsPaidOnce :
    (b : Booking) (now : ℕ) (db : Db)
    → IsPaidOnce db
    → 1 ≤ open_money b.id db
    → IsPaidOnce (marked_complete b now db)
marked_complete-IsPaidOnce b now db inv unsettled =
    let updated = update_booking b.id (mark_complete now) db in
    let told =
      record_booking_progress b.id ProgressKind.work_marked_complete ActorRole.provider now now
        updated in
    let progress =
      record_booking_progress-frame b.id ProgressKind.work_marked_complete ActorRole.provider now
        now updated in
    rewritten-IsPaidOnce b.id db (marked_complete b now db) inv unsettled
      (λ x.
        (leave_service-money (queue_of b.id db) b.provider_id now told x).0
        ∙ ap (payments x) progress)
      (λ x n.
        (leave_service-money (queue_of b.id db) b.provider_id now told x).1
        ∙ ap (open_money x) progress
        ∙ update-open_apart b.id (mark_complete now) db (λ y. refl) x n)

pub messages-IsPaidOnce : (db d : Db) → OnlyMessages db d → IsPaidOnce db → IsPaidOnce d
unfolding IsPaidOnce
messages-IsPaidOnce db d told inv x = (
  ground (arith, inv x, ap (payments x) told),
  ground (arith, inv x, ap (payments x) told, ap (open_money x) told),
)

found_open :
    (id : ℕ) (db : Db) (b : Booking)
    → find_booking id db ≡ some b
    → is_open_money b.id b ≡ true
    → 1 ≤ open_money b.id db
found_open id db b e o = find-count (λ y. y.id == id) (is_open_money b.id) db.bookings b e o

pub resolved_open :
    (id : ℕ) (db : Db) (b : Booking)
    → resolve_booking id db ≡ some b
    → is_open_money b.id b ≡ true
    → 1 ≤ open_money b.id db
resolved_open id db b e o = elim (Option-cases (find_booking id db)) [
  | inr (x, f) ↦
      let same : x ≡ b = ground (arith, e, f) in
      found_open id db b (subst (λ y. find_booking id db ≡ some y) same f) o
  | inl f ↦ elim (Option-cases (find (λ q. q.id == id) db.queue)) [
    | inl g ↦ absurd (ground (arith, e, f, g))
    | inr (q, g) ↦ elim (Option-cases q.booking_id) [
      | inl k ↦ absurd (ground (arith, e, f, g, k))
      | inr (i, k) ↦ found_open i db b (ground (arith, e, f, g, k)) o
    ]
  ]
]

-- Marking a job complete keeps every booking paid once at most.
pub mark_job_complete-IsPaidOnce :
    (id provider now : ℕ) (db d : Db)
    → IsPaidOnce db
    → mark_job_complete id provider now db ≡ ok d
    → IsPaidOnce d
unfolding mark_job_complete
mark_job_complete-IsPaidOnce id provider now db d inv h =
    let (b, e, h1) = found-eq-ok (resolve_booking id db) _ _ h in
    let (own, h2) = require-eq-ok (b.provider_id == provider) _ h1 in
    let (_, _, h3) = >>=-eq-ok (assert_no_refund_in_progress b.id db) _ h2 in
    elim (Bool-cases (is_awaiting b.status)) [
      | inl c ↦ let same : d ≡ db = ground (arith, h3, c) in subst IsPaidOnce (sym same) inv
      | inr c ↦
          let notices : List (ℕ × Notice) = (b.seeker_id, Notice.marked_complete b.id) ∷ [] in
          let ran : record_lifecycle_notice b notices none (marked_complete b now db) ≡ ok d =
            ground (arith, h3, c) in
          let ongoing : is_ongoing b.status ≡ true = ground (arith, h3, c) in
          let unsettled = resolved_open id db b e (ground (arith, ongoing, ==_refl b.id)) in
          messages-IsPaidOnce (marked_complete b now db) d
            (record_lifecycle_notice-frame b notices none (marked_complete b now db) d ran)
            (marked_complete-IsPaidOnce b now db inv unsettled)
    ]

abbrev disputed_rows : Booking → Option QueueEntry → ℕ → Db → Db
disputed_rows b entry now db = create_dispute b (
    close_escalations CaseStatus.dismissed Resolution.superseded_by_seeker_dispute b.id now
      (freeze_entry entry (frozen b) (update_booking b.id (dispute (frozen b)) db)))

disputed_rows-money :
    (b : Booking) (entry : Option QueueEntry) (now : ℕ) (db : Db) (x : ℕ)
    → (payments x (disputed_rows b entry now db) ≡ payments x db)
      × (open_money x (disputed_rows b entry now db)
          ≡ open_money x (update_booking b.id (dispute (frozen b)) db))
disputed_rows-money b none now db x = (refl, refl)
disputed_rows-money b (some q) now db x = (refl, refl)

notify_admins-frame : (n : Notice) (db : Db) → OnlyMessages db (notify_admins n db)
notify_admins-frame n db =
    notify_all-frame (map (λ u. (u.id, n)) (select is_active_admin db.users)) db

-- A dispute keeps every booking paid once at most.
pub dispute_job-IsPaidOnce :
    (booking seeker now : ℕ) (db d : Db)
    → IsPaidOnce db
    → dispute_job booking seeker now db ≡ ok d
    → IsPaidOnce d
unfolding dispute_job
dispute_job-IsPaidOnce booking seeker now db d inv h =
    let (b, e, h1) = found-eq-ok (find_booking booking db) _ _ h in
    let (own, h2) = require-eq-ok (b.seeker_id == seeker) _ h1 in
    let (_, _, h3) = >>=-eq-ok (assert_no_refund_in_progress booking db) _ h2 in
    let (_, _, h4) = >>=-eq-ok (assert_no_financial_resolution_reserved booking none db) _ h3 in
    let (_, h5) = reject-eq-ok (has_open_dispute booking seeker db) _ h4 in
    let (awaiting, h6) = require-eq-ok (is_awaiting b.status) _ h5 in
    let (_, _, h7) = >>=-eq-ok (assert_distinct_accounts seeker b.provider_id) _ h6 in
    let notices : List (ℕ × Notice) = (b.provider_id, Notice.completion_disputed b.id) ∷ [] in
    let rows = disputed_rows b (queue_of b.id db) now db in
    let (told, ran, last) = >>=-eq-ok (record_lifecycle_notice b notices none rows) _ h7 in
    let unsettled = found_open booking db b e (ground (arith, awaiting, ==_refl b.id)) in
    let kept =
      rewritten-IsPaidOnce b.id db rows inv unsettled
        (λ x. (disputed_rows-money b (queue_of b.id db) now db x).0)
        (λ x n.
          (disputed_rows-money b (queue_of b.id db) now db x).1
          ∙ update-open_apart b.id (dispute (frozen b)) db (λ y. refl) x n) in
    let noticed =
      messages-IsPaidOnce rows told (record_lifecycle_notice-frame b notices none rows told ran)
        kept in
    messages-IsPaidOnce told d
      (subst (OnlyMessages told) (admins_told last)
        (notify_admins-frame (Notice.dispute_review db.next_id) told))
      noticed
  where
    admins_told : {x : Db} → ok x ≡ ok d → x ≡ d
    admins_told q = cc
