-- ===== src/Payments/Decay.antt =====
-- services/payment-attempt.service.ts: what the payment attempts become when one fails, runs out of
-- time or is captured.
use servicehub_backend.Base.{
  ℕ, ◌≤◌, ◌≡◌, refl, ap, subst, inl, inr, Bool, true, false, ◌||◌, Option, none, some, List, [],
  ◌∷◌, arith, leb, ◌==◌, is_some, Bool-cases, Option-cases, ok, >>=-eq-ok, reject-eq-ok,
  found-eq-ok, ok_second, find, count, count-update-le,
}
use servicehub_backend.Schema.{Db, PaymentAttempt, AttemptStatus, update_attempt, Offer}
use servicehub_backend.Payments.{
  set_attempt, mark_payment_attempt_failed, attempt_of, is_pending_attempt, end_attempt,
}
use servicehub_backend.Payments.Undecided.{undecided-capture}
use servicehub_backend.Payments.Capture.{
  Captured, Finalized, mark_paid, require_refund, refused, refused_and_released, held_offer,
  cannot_book,
}
use servicehub_backend.Payments.Capture.Finalize.{
  finalize_successful_payment, take_offer, capture, settled_before,
}
use servicehub_backend.Bookings.{record_lifecycle_notice}
use servicehub_backend.Bookings.Frame.{record_lifecycle_notice-frame}
use servicehub_backend.Payments.Prepare.{expire_all}
use servicehub_backend.Payments.Capture.Rows.{
  competes, drop_offer, new_booking, next_place, book_attempt, succeed, paid_rows, paid_notices,
  create_paid_booking, repeats_keys,
}
use servicehub_backend.Payments.Settled.{
  release_offer_hold-attempts, select_offer-attempts, book_attempt-frame,
}

-- A test of an attempt that no write makes true again: it holds before where it holds after.
pub record IsSticky (p : PaymentAttempt → Bool) : Type 0 where
  pub ended :
      (status : AttemptStatus) (a : PaymentAttempt)
      → is_pending_attempt status ≡ false
      → p (set_attempt status a) ≡ true
      → p a ≡ true
  pub paid : (now : ℕ) (a : PaymentAttempt) → p (mark_paid now a) ≡ true → p a ≡ true
  pub refused :
      (payment : Option ℕ) (a : PaymentAttempt) → p (require_refund payment a) ≡ true → p a ≡ true
  pub succeeded :
      (payment : Option ℕ) (a : PaymentAttempt) → p (succeed payment a) ≡ true → p a ≡ true

abbrev pub tally : (PaymentAttempt → Bool) → Db → ℕ
tally p db = count p db.attempts

module _ (p : PaymentAttempt → Bool) (sticky : IsSticky p) where
  pub update_attempt-le :
      (id : ℕ) (f : PaymentAttempt → PaymentAttempt) (db : Db)
      → ((a : PaymentAttempt) → p (f a) ≡ true → p a ≡ true)
      → tally p (update_attempt id f db) ≤ tally p db
  update_attempt-le id f db h = count-update-le p (λ x. x.id == id) f db.attempts h

  end_attempt-le :
      (status : AttemptStatus) (a : PaymentAttempt) (db : Db)
      → is_pending_attempt status ≡ false
      → tally p (end_attempt status a db) ≤ tally p db
  end_attempt-le status a db h = omega (
    arith,
    ap (count p)
        (release_offer_hold-attempts a.offer_id (update_attempt a.id (set_attempt status) db)).0,
    update_attempt-le a.id (set_attempt status) db (λ x. sticky.ended status x h),
  )

  pub expire_all-le : (es : List PaymentAttempt) (db : Db) → tally p (expire_all es db) ≤ tally p db
  unfolding expire_all
  expire_all-le [] db = omega arith
  expire_all-le (a ∷ es) db = omega (
    arith,
    end_attempt-le AttemptStatus.expired a db refl,
    expire_all-le es (end_attempt AttemptStatus.expired a db),
  )

  pub mark_payment_attempt_failed-le :
      (intent : ℕ) (db : Db) → tally p (mark_payment_attempt_failed intent db) ≤ tally p db
  unfolding mark_payment_attempt_failed
  mark_payment_attempt_failed-le intent db = elim (Option-cases (attempt_of intent db)) [
    | inl e ↦ ground (arith, e)
    | inr (a, e) ↦ elim (Bool-cases (is_pending_attempt a.status)) [
      | inl h ↦ ground (arith, e, h, end_attempt-le AttemptStatus.failed a db refl)
      | inr h ↦ ground (arith, e, h)
    ]
  ]

  create_paid_booking-le :
      (c : Captured) (a : PaymentAttempt) (o : Option Offer) (now : ℕ) (db d : Db) (f : Finalized)
      → create_paid_booking c a o now db ≡ ok (f, d)
      → tally p d ≤ tally p db
  unfolding create_paid_booking
  create_paid_booking-le c a o now db d f h =
      let b = new_booking a now db in
      let booked = book_attempt c a b (next_place a db) now db in
      let rows = paid_rows c a o now db in
      let (_, h0) = reject-eq-ok (repeats_keys c a now db) _ h in
      let (told, ran, last) =
        >>=-eq-ok (record_lifecycle_notice b (paid_notices b) none rows) _ h0 in
      let frame = record_lifecycle_notice-frame b (paid_notices b) none rows told ran in
      let taken = update_attempt a.id (succeed c.payment_id) booked in
      omega (
        arith,
        ap (tally p) (ok_second last),
        ap (tally p) frame,
        ap (count p) (select_offer-attempts o taken).0,
        update_attempt-le a.id (succeed c.payment_id) booked (sticky.succeeded c.payment_id),
        ap (count p) (book_attempt-frame c a b (next_place a db) now db a.id).0,
      )

  refused-le :
      (c : Captured) (a : PaymentAttempt) (db : Db) → tally p (refused c a db).1 ≤ tally p db
  refused-le c a db =
      update_attempt-le a.id (require_refund c.payment_id) db (sticky.refused c.payment_id)

  take_offer-le :
      (c : Captured) (a : PaymentAttempt) (now : ℕ) (db d : Db) (f : Finalized)
      → take_offer c a now db ≡ ok (f, d)
      → tally p d ≤ tally p db
  unfolding take_offer
  take_offer-le c a now db d f h = elim (Option-cases a.offer_id) [
    | inl e ↦ create_paid_booking-le c a none now db d f (ground (arith, e, h))
    | inr (offer, e) ↦ elim (Option-cases (held_offer a offer db)) [
      | inl g ↦
          let rows : (refused c a db).1 ≡ d = ground (arith, e, g, h) in
          subst (λ x. tally p x ≤ tally p db) rows (refused-le c a db)
      | inr (o, g) ↦ elim (Bool-cases (is_some (find (competes o) db.offers))) [
        | inl k ↦
            let rows : drop_offer offer (refused c a db).1 ≡ d = ground (arith, e, g, k, h) in
            subst (λ x. tally p x ≤ tally p db) rows (refused-le c a db)
        | inr k ↦ create_paid_booking-le c a (some o) now db d f (ground (arith, e, g, k, h))
      ]
    ]
  ]

  capture-le :
      (c : Captured) (a : PaymentAttempt) (now : ℕ) (db d : Db) (f : Finalized)
      → capture c a now db ≡ ok (f, d)
      → tally p d ≤ tally p db
  unfolding capture
  capture-le c a now db d f h = elim (Bool-cases (leb a.expires_at now || cannot_book a now db)) [
    | inl e ↦
        let rows : (refused_and_released c a db).1 ≡ d = ground (arith, e, h) in
        subst (λ x. tally p x ≤ tally p db) rows
          (omega (
            arith,
            ap (count p) (release_offer_hold-attempts a.offer_id (refused c a db).1).0,
            refused-le c a db,
          ))
    | inr e ↦ take_offer-le c a now db d f (ground (arith, e, h))
  ]

  pub finalize_successful_payment-le :
      (c : Captured) (now : ℕ) (db d : Db) (f : Finalized)
      → finalize_successful_payment c now db ≡ ok (f, d)
      → tally p d ≤ tally p db
  unfolding finalize_successful_payment
  finalize_successful_payment-le c now db d f h =
      let (a, e, h1) = found-eq-ok (attempt_of c.intent_id db) _ _ h in
      elim (Option-cases (settled_before a db)) [
        | inr (before, g) ↦
            let rows : db ≡ d = ground (arith, h1, g) in
            subst (λ x. tally p x ≤ tally p db) rows (omega arith)
        | inl g ↦
            let paid = update_attempt a.id (mark_paid now) db in
            let ran = undecided-capture c a now db d f e g h in
            omega (
              arith,
              capture-le c a now paid d f ran,
              update_attempt-le a.id (mark_paid now) db (sticky.paid now),
            )
      ]
