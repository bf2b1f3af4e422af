-- ===== src/Cancellations/Immediate.antt =====
-- The money of a booking that is cancelled at once (performImmediateCancel of
-- services/cancellation.service.ts).
use servicehub_backend.Base.{
  ℕ, ◌≤◌, ◌≡◌, refl, sym, ap, ◌∙◌, subst, inl, inr, Bool, true, false, ◌||◌, Option, none, some,
  arith, ◌==◌, if◌then◌else◌, or_else, Bool-cases, Option-cases, ==→eq, ==_refl, Result, ok, err,
  ◌>>=◌, >>=-eq-ok, find-count, count-update_apart,
}
use servicehub_backend.Schema.{
  Db, Booking, QueueEntry, QueueStatus, SystemText, ProgressKind, RequestStatus, is_closed,
  is_canceled, is_held, update_queue, find_booking, queue_of, update_booking,
}
use servicehub_backend.Queue.{recalculate_queue}
use servicehub_backend.Queue.Frame.{
  count-bookings-recalculate_queue, recalculate_queue-frame, notify_waitlist-frame,
}
use servicehub_backend.Bookings.{
  record_booking_progress, booking_actor_role, is_empty, record_lifecycle_notice,
}
use servicehub_backend.Bookings.Frame.{record_booking_progress-frame, record_lifecycle_notice-frame}
use servicehub_backend.Bookings.Completion.{set_request, request_of}
use servicehub_backend.Bookings.Completion.Ledger.{
  payments, is_open_money, open_money, IsPaidOnce, set_request-frame,
}
use servicehub_backend.Refunds.{RefundResult, refund_booking_payment}
use servicehub_backend.Refunds.Payment.{Keeps, refund_booking_payment-IsPaidOnce}
use servicehub_backend.Cancellations.{
  check_cancel, cancel_booking, leave_cancelled, cancel_unpaid, cancel_rows, decline_direct,
  cancellation_sender, deliver_cancellation, missing_notices, history_recorded, tell_refund,
  Surroundings, finish_cancel, cancel_and_deliver, committed, cancel_checked, after_refund,
  perform_immediate_cancel,
}

-- Two databases with the same payments, and the same bookings open for one.
pub SameMoney : Db → Db → Type 0
SameMoney db d = (x : ℕ) → (payments x d ≡ payments x db) × (open_money x d ≡ open_money x db)

pub SameMoney-IsPaidOnce : (db d : Db) → SameMoney db d → IsPaidOnce db → IsPaidOnce d
unfolding IsPaidOnce SameMoney
SameMoney-IsPaidOnce db d same inv x =
    (ground (arith, same x, inv x), ground (arith, same x, inv x))

trans_same : (a b c : Db) → SameMoney a b → SameMoney b c → SameMoney a c
unfolding SameMoney
trans_same a b c p q x = ((q x).0 ∙ (p x).0, (q x).1 ∙ (p x).1)

leave_cancelled-money :
    (o : Option QueueEntry) (provider now : ℕ) (db : Db)
    → SameMoney db (leave_cancelled o provider now db)
unfolding SameMoney
leave_cancelled-money none provider now db x = (refl, refl)
leave_cancelled-money (some q) provider now db x =
    let moved = update_queue q.id (λ y. record y { status = QueueStatus.cancelled }) db in
    let queued = recalculate_queue provider moved in
    let told = notify_waitlist-frame provider now queued in
    (
      ap (payments x) told ∙ ap (payments x) (recalculate_queue-frame provider moved),
      ap (open_money x) told
          ∙ count-bookings-recalculate_queue (is_open_money x) provider moved (λ b o. refl),
    )

tell_refund-money :
    (b : Booking) (history : Bool) (db : Db) → SameMoney db (tell_refund b history db)
unfolding SameMoney
tell_refund-money b history db x = (ground arith, ground arith)

deliver_cancellation-money :
    (b : Booking) (actor : Option ℕ) (db d : Db)
    → deliver_cancellation b actor db ≡ ok d
    → SameMoney db d
unfolding deliver_cancellation SameMoney
deliver_cancellation-money b actor db d h x = elim (Bool-cases (is_empty (missing_notices b db))) [
  | inl c ↦ (ground arith, ground arith)
  | inr c ↦
      let history = history_recorded b db in
      let message =
        if history then none else some (cancellation_sender b actor, SystemText.cancelled_text) in
      let ran : (record_lifecycle_notice b (missing_notices b db) message db >>= λ e.
      ok (tell_refund b history e))
          ≡ ok d =
        ground arith in
      let step =
        >>=-eq-ok (record_lifecycle_notice b (missing_notices b db) message db)
          (λ e. ok (tell_refund b history e)) ran in
      let told = record_lifecycle_notice-frame b (missing_notices b db) message db step.0 step.1 in
      let rest = tell_refund-money b history step.0 x in
      let last : d ≡ tell_refund b history step.0 = ground (arith, step.2) in
      (
        ap (payments x) last ∙ rest.0 ∙ ap (payments x) told,
        ap (open_money x) last ∙ rest.1 ∙ ap (open_money x) told,
      )
]

cancel_unpaid-IsPaidOnce :
    (b : Booking) (actor : Option ℕ) (now : ℕ) (db : Db)
    → IsPaidOnce db
    → 1 ≤ open_money b.id db
    → IsPaidOnce (cancel_unpaid b actor now db)
unfolding cancel_unpaid IsPaidOnce SameMoney
cancel_unpaid-IsPaidOnce b actor now db inv unsettled x =
    let updated = update_booking b.id cancel_booking db in
    let told =
      record_booking_progress b.id ProgressKind.canceled (booking_actor_role b actor) 0 now
        updated in
    let progress =
      record_booking_progress-frame b.id ProgressKind.canceled (booking_actor_role b actor) 0 now
        updated in
    let left = leave_cancelled-money (queue_of b.id db) b.provider_id now told x in
    let same : payments x told ≡ payments x db = ap (payments x) progress in
    elim (Bool-cases (b.id == x)) [
      | inl e ↦
          let eq = sym (==→eq b.id x e) in
          let before = (inv x).1 (subst (λ y. 1 ≤ open_money y db) (sym eq) unsettled) in
          (ground (arith, left, same, before), ground (arith, left, same, before))
      | inr e ↦
          let kept : open_money x told ≡ open_money x db =
            ap (open_money x) progress
            ∙ count-update_apart (is_open_money x) (λ y. y.id == b.id) cancel_booking db.bookings
                (λ a h. ground (arith, h, e)) (λ a h. ground (arith, h, e)) in
          (ground (arith, left, same, inv x), ground (arith, left, same, inv x, kept))
    ]

decline_direct-money : (o : Option ℕ) (db : Db) → SameMoney db (decline_direct o db)
unfolding SameMoney
decline_direct-money none db x = (refl, refl)
decline_direct-money (some r) db x = (refl, refl)

cancel_rows-IsPaidOnce :
    (held : Bool) (b : Booking) (actor : Option ℕ) (now : ℕ) (db d : Db)
    → IsPaidOnce db
    → (is_canceled b.status ≡ false → 1 ≤ open_money b.id db)
    → cancel_rows held b actor now db ≡ ok d
    → IsPaidOnce d
unfolding cancel_rows
cancel_rows-IsPaidOnce held b actor now db d inv unsettled h =
    elim (Bool-cases (held || is_canceled b.status)) [
      | inl c ↦ let same : d ≡ db = ground arith in subst IsPaidOnce (sym same) inv
      | inr c ↦
          let moved : d ≡ cancel_unpaid b actor now db = ground arith in
          subst IsPaidOnce (sym moved)
            (cancel_unpaid-IsPaidOnce b actor now db inv (unsettled (ground arith)))
    ]

cancel_and_deliver-IsPaidOnce :
    (held : Bool) (b : Booking) (actor : Option ℕ) (now : ℕ) (db d : Db)
    → IsPaidOnce db
    → (is_canceled b.status ≡ false → 1 ≤ open_money b.id db)
    → cancel_and_deliver held b actor now db ≡ ok d
    → IsPaidOnce d
unfolding cancel_and_deliver SameMoney
cancel_and_deliver-IsPaidOnce held b actor now db d inv unsettled h =
    let step = >>=-eq-ok (cancel_rows held b actor now db) _ h in
    let declined = decline_direct b.direct_request_id step.0 in
    let closed = set_request (request_of b db) RequestStatus.canceled declined in
    let set = set_request-frame (request_of b db) RequestStatus.canceled declined in
    SameMoney-IsPaidOnce step.0 d
      (λ x.
        let direct = decline_direct-money b.direct_request_id step.0 x in
        let told = deliver_cancellation-money b actor closed d step.2 x in
        (told.0 ∙ ap (payments x) set ∙ direct.0, told.1 ∙ ap (open_money x) set ∙ direct.1))
      (cancel_rows-IsPaidOnce held b actor now db step.0 inv unsettled step.1)

pub finish_cancel-IsPaidOnce :
    (held : Bool) (booking : ℕ) (actor request : Option ℕ) (now : ℕ) (db d : Db)
    → IsPaidOnce db
    → finish_cancel held booking actor request now db ≡ ok d
    → IsPaidOnce d
unfolding finish_cancel
finish_cancel-IsPaidOnce held booking actor request now db d inv h =
    elim (Option-cases (find_booking booking db)) [
      | inl e ↦ let same : d ≡ db = ground arith in subst IsPaidOnce (sym same) inv
      | inr (b, e) ↦
          let run : cancel_and_deliver held b actor now db ≡ ok d = ground arith in
          let closed : is_closed b.status ≡ false = ground arith in
          cancel_and_deliver-IsPaidOnce held b actor now db d inv
            (λ c.
              find-count (λ y. y.id == booking) (is_open_money b.id) db.bookings b e
                (ground (arith, ==_refl b.id, closed, c)))
            run
    ]

committed-IsPaidOnce :
    (db : Db) (r : Result Db)
    → IsPaidOnce db
    → ((d : Db) → r ≡ ok d → IsPaidOnce d)
    → IsPaidOnce (committed db r).0
committed-IsPaidOnce db (ok d) inv f = f d refl
committed-IsPaidOnce db (err e) inv f = inv

after_refund-IsPaidOnce :
    (w : Surroundings) (booking : ℕ) (actor request : Option ℕ) (now : ℕ)
    (p : Db × Result RefundResult)
    → Keeps w.after_refund_paid
    → IsPaidOnce p.0
    → IsPaidOnce (after_refund w booking actor request now p).0
after_refund-IsPaidOnce w booking actor request now (db, err e) paid inv = inv
after_refund-IsPaidOnce w booking actor request now (db, ok r) paid inv =
    let e = w.after_refund_paid db in
    let held = paid db inv in
    committed-IsPaidOnce e (finish_cancel true booking actor request now e) held
      (λ d. finish_cancel-IsPaidOnce true booking actor request now e d held)

-- A booking that is cancelled at once, with the refund of its payment where one is held, is still
-- paid once at most, whether the cancellation succeeds or fails on the way, whatever the gateway
-- answers and whatever other transactions, which keep this themselves, run in between: after the
-- booking was read, before and after the gateway is called, and before the cancellation is written.
pub perform_immediate_cancel-IsPaidOnce :
    (w : Surroundings) (booking : ℕ) (actor request : Option ℕ) (now : ℕ) (db : Db)
    → Keeps w.after_check
    → Keeps w.world.before_reservation
    → Keeps w.world.before_finalization
    → Keeps w.after_refund_paid
    → IsPaidOnce db
    → IsPaidOnce (perform_immediate_cancel w booking actor request now db).0
unfolding perform_immediate_cancel
perform_immediate_cancel-IsPaidOnce w booking actor request now db read before after paid inv =
    go (check_cancel booking request db)
  where
    go :
        (r : Result (Option Booking))
        → IsPaidOnce (cancel_checked w booking actor request now db r).0
    go (err e) = inv
    go (ok none) = inv
    go (ok (some b)) =
        let e = w.after_check db in
        let held = read db inv in
        elim (Bool-cases (is_held b.payment_status)) [
          | inl c ↦ subst IsPaidOnce (rw c refl) (
              after_refund-IsPaidOnce w booking actor request now
                (refund_booking_payment w.world b.id (or_else actor b.seeker_id) now e) paid
                (refund_booking_payment-IsPaidOnce w.world b.id (or_else actor b.seeker_id) now e
                  before after held))
          | inr c ↦ subst IsPaidOnce (rw c refl) (
              committed-IsPaidOnce e (finish_cancel false booking actor request now e) held
                (λ d. finish_cancel-IsPaidOnce false booking actor request now e d held))
        ]
