-- ===== src/Payments/Booked.antt =====
-- services/payment-attempt.service.ts, finalizeSuccessfulPayment: one booking per payment attempt.
use servicehub_backend.Base.{
  ℕ, ◌≤◌, ◌≡◌, refl, sym, ap, ◌∙◌, subst, inl, inr, Bool, not, ◌&&◌, ◌||◌, Option, none, some,
  arith, leb, ◌==◌, refers, is_some, Bool-cases, Option-cases, ==→eq, ==_refl, ok, >>=-eq-ok,
  reject-eq-ok, found-eq-ok, ok_second, find, count, update, find-none-count, find-count,
  count-update_none, count-update_apart,
}
use servicehub_backend.Schema.{Db, Offer, PaymentAttempt, update_attempt}
use servicehub_backend.Bookings.{record_lifecycle_notice}
use servicehub_backend.Bookings.Frame.{record_lifecycle_notice-frame}
use servicehub_backend.Payments.{attempt_of, is_succeeded_attempt}
use servicehub_backend.Payments.Undecided.{undecided-capture}
use servicehub_backend.Payments.Capture.{
  Captured, Finalized, mark_paid, require_refund, refused, refused_and_released, held_offer,
  cannot_book, booking_of_attempt,
}
use servicehub_backend.Payments.Capture.Rows.{
  competes, drop_offer, new_booking, next_place, book_attempt, succeed, paid_rows, paid_notices,
  create_paid_booking, repeats_keys,
}
use servicehub_backend.Payments.Capture.Finalize.{
  take_offer, capture, settled_before, finalize_successful_payment,
}
use servicehub_backend.Payments.Settled.{
  is_booking_of, release_offer_hold-attempts, select_offer-attempts, book_attempt-frame,
}

-- The bookings of an attempt.
abbrev pub bookings_of : ℕ → Db → ℕ
bookings_of attempt db = count (is_booking_of attempt) db.bookings

abbrev pub is_unsuccessful : ℕ → PaymentAttempt → Bool
is_unsuccessful id a = a.id == id && not (is_succeeded_attempt a.status)

-- An attempt has one booking at most, and only when it has succeeded.
pub record IsBookedOnce (db : Db) : Type 0 where
  pub once : (attempt : ℕ) → bookings_of attempt db ≤ 1
  pub paid :
      (attempt : ℕ) → 1 ≤ bookings_of attempt db → count (is_unsuccessful attempt) db.attempts ≡ 0

-- An attempt that is still undecided has no booking.
undecided_unbooked :
    (intent : ℕ) (db : Db) (a : PaymentAttempt)
    → IsBookedOnce db
    → attempt_of intent db ≡ some a
    → settled_before a db ≡ none
    → bookings_of a.id db ≡ 0
undecided_unbooked intent db a inv known h = elim (Bool-cases (is_succeeded_attempt a.status)) [
  | inl e ↦ elim (Option-cases (booking_of_attempt a.id db)) [
    | inl f ↦ find-none-count (is_booking_of a.id) db.bookings f
    | inr (b, f) ↦ absurd (ground (arith, h, e, f))
  ]
  | inr e ↦
      let row =
        find-count (λ (x : PaymentAttempt). refers x.provider_intent_id intent)
          (is_unsuccessful a.id) db.attempts a known (ground (arith, e, ==_refl a.id)) in
      grind (arith, row, inv.paid a.id)
]

-- A write to an attempt that has no booking.
unbooked-IsBookedOnce :
    (id : ℕ) (f : PaymentAttempt → PaymentAttempt) (db d : Db)
    → IsBookedOnce db
    → bookings_of id db ≡ 0
    → ((y : PaymentAttempt) → (f y).id ≡ y.id)
    → d.bookings ≡ db.bookings
    → d.attempts ≡ (update_attempt id f db).attempts
    → IsBookedOnce d
unbooked-IsBookedOnce id f db d inv free keeps bs rows = record {
  once = λ x. omega (arith, inv.once x, ap (count (is_booking_of x)) bs);
  paid = λ x h. elim (Bool-cases (x == id)) [
    | inl e ↦
        let same : bookings_of x db ≡ 0 =
          subst (λ y. bookings_of y db ≡ 0) (sym (==→eq x id e)) free in
        absurd (omega (arith, h, same, ap (count (is_booking_of x)) bs))
    | inr e ↦
        ap (count (is_unsuccessful x)) rows
        ∙ count-update_apart (is_unsuccessful x) (λ y. y.id == id) f db.attempts
            (λ y k. ground (arith, k, e)) (λ y k. ground (arith, k, e, ap (λ i. i == x) (keeps y)))
        ∙ inv.paid x (omega (arith, h, ap (count (is_booking_of x)) bs))
  ];
}

-- A payment becomes the booking of an attempt that has none, which has succeeded then.
booked-IsBookedOnce :
    (c : Captured) (a : PaymentAttempt) (o : Option Offer) (now : ℕ) (db d : Db) (f : Finalized)
    → IsBookedOnce db
    → bookings_of a.id db ≡ 0
    → create_paid_booking c a o now db ≡ ok (f, d)
    → IsBookedOnce d
unfolding create_paid_booking
booked-IsBookedOnce c a o now db d f inv free h =
    let b = new_booking a now db in
    let booked = book_attempt c a b (next_place a db) now db in
    let taken = update_attempt a.id (succeed c.payment_id) booked in
    let rows = paid_rows c a o now db in
    let (_, h0) = reject-eq-ok (repeats_keys c a now db) _ h in
    let (told, ran, last) = >>=-eq-ok (record_lifecycle_notice b (paid_notices b) none rows) _ h0 in
    let frame = record_lifecycle_notice-frame b (paid_notices b) none rows told ran in
    let selected = select_offer-attempts o taken in
    let kept = λ (x : ℕ). book_attempt-frame c a b (next_place a db) now db x in
    let attempts : told.attempts ≡ (update_attempt a.id (succeed c.payment_id) db).attempts =
      ap (λ x. x.attempts) frame
      ∙ selected.0
      ∙ ap (update (λ y. y.id == a.id) (succeed c.payment_id)) (kept a.id).0 in
    let bookings =
      λ (x : ℕ). ap (bookings_of x) frame ∙ ap (count (is_booking_of x)) selected.1 ∙ (kept x).1 in
    subst IsBookedOnce (ok_second last) (record {
      once = λ x. elim (Bool-cases (a.id == x)) [
        | inl e ↦
            let none' = subst (λ y. bookings_of y db ≡ 0) (==→eq a.id x e) free in
            ground (arith, bookings x, e, none')
        | inr e ↦ ground (arith, bookings x, e, inv.once x)
      ];
      paid = λ x k. ap (count (is_unsuccessful x)) attempts ∙ elim (Bool-cases (a.id == x)) [
        | inl e ↦
            subst
              (λ y.
                count (is_unsuccessful y)
                  (update (λ z. z.id == a.id) (succeed c.payment_id) db.attempts)
                ≡ 0)
              (==→eq a.id x e)
              (count-update_none (is_unsuccessful a.id) (λ z. z.id == a.id) (succeed c.payment_id)
                db.attempts (λ y l. ground (arith, l)) (λ y l. ground (arith, l)))
        | inr e ↦
            count-update_apart (is_unsuccessful x) (λ z. z.id == a.id) (succeed c.payment_id)
              db.attempts (λ y l. ground (arith, l, e)) (λ y l. ground (arith, l, e))
            ∙ inv.paid x (ground (arith, k, bookings x, e))
      ];
    })

refused-IsBookedOnce :
    (c : Captured) (a : PaymentAttempt) (db d : Db)
    → IsBookedOnce db
    → bookings_of a.id db ≡ 0
    → d.bookings ≡ db.bookings
    → d.attempts ≡ (refused c a db).1.attempts
    → IsBookedOnce d
refused-IsBookedOnce c a db d inv free bs rows =
    unbooked-IsBookedOnce a.id (require_refund c.payment_id) db d inv free (λ y. refl) bs rows

take_offer-IsBookedOnce :
    (c : Captured) (a : PaymentAttempt) (now : ℕ) (db d : Db) (f : Finalized)
    → IsBookedOnce db
    → bookings_of a.id db ≡ 0
    → take_offer c a now db ≡ ok (f, d)
    → IsBookedOnce d
unfolding take_offer
take_offer-IsBookedOnce c a now db d f inv free h = elim (Option-cases a.offer_id) [
  | inl e ↦ booked-IsBookedOnce c a none now db d f inv free (ground (arith, e, h))
  | inr (offer, e) ↦ elim (Option-cases (held_offer a offer db)) [
    | inl g ↦
        let rows : (refused c a db).1 ≡ d = ground (arith, e, g, h) in
        subst IsBookedOnce rows (refused-IsBookedOnce c a db _ inv free refl refl)
    | inr (o, g) ↦ elim (Bool-cases (is_some (find (competes o) db.offers))) [
      | inl k ↦
          let rows : drop_offer offer (refused c a db).1 ≡ d = ground (arith, e, g, k, h) in
          subst IsBookedOnce rows (refused-IsBookedOnce c a db _ inv free refl refl)
      | inr k ↦ booked-IsBookedOnce c a (some o) now db d f inv free (ground (arith, e, g, k, h))
    ]
  ]
]

-- A captured payment keeps the rule that an attempt has one booking at most, and only when it has
-- succeeded: at whatever time the payment is captured, however often, and whatever became of the
-- attempt before.
pub finalize_successful_payment-IsBookedOnce :
    (c : Captured) (now : ℕ) (db d : Db) (f : Finalized)
    → IsBookedOnce db
    → finalize_successful_payment c now db ≡ ok (f, d)
    → IsBookedOnce d
unfolding finalize_successful_payment capture
finalize_successful_payment-IsBookedOnce c now db d f inv h =
    let (a, known, h1) = found-eq-ok (attempt_of c.intent_id db) _ _ h in
    elim (Option-cases (settled_before a db)) [
      | inr (before, g) ↦ let rows : db ≡ d = ground (arith, h1, g) in subst IsBookedOnce rows inv
      | inl g ↦
          let free = undecided_unbooked c.intent_id db a inv known g in
          let paid = update_attempt a.id (mark_paid now) db in
          let marked =
            unbooked-IsBookedOnce a.id (mark_paid now) db paid inv free (mark_paid_id now) refl
              refl in
          let ran = undecided-capture c a now db d f known g h in
          elim (Bool-cases (leb a.expires_at now || cannot_book a now paid)) [
            | inl e ↦
                let rows : (refused_and_released c a paid).1 ≡ d = ground (arith, e, ran) in
                let (as', bs) = release_offer_hold-attempts a.offer_id (refused c a paid).1 in
                subst IsBookedOnce rows (refused-IsBookedOnce c a paid _ marked free bs as')
            | inr e ↦ take_offer-IsBookedOnce c a now paid d f marked free (ground (arith, e, ran))
          ]
    ]
  where
    mark_paid_id : (n : ℕ) (y : PaymentAttempt) → (mark_paid n y).id ≡ y.id
    mark_paid_id n y = elim (Bool-cases (is_some y.paid_at)) [
      | inl e ↦ ground (arith, e)
      | inr e ↦ ground (arith, e)
    ]
