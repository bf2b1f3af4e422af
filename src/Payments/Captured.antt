-- ===== src/Payments/Captured.antt =====
-- services/payment-attempt.service.ts: a captured payment keeps the rule that one offer of a request
-- is selected at most.
use servicehub_backend.Base.{
  ℕ, ◌≡◌, refl, sym, ap, ◌∙◌, subst, inl, inr, true, ◌||◌, Option, none, some, arith, leb, ◌==◌,
  is_some, Bool-cases, Option-cases, ==→eq, ==_refl, ok, >>=-eq-ok, reject-eq-ok, found-eq-ok, find,
  insert, count-update-le, find-holds,
}
use servicehub_backend.Schema.{
  Db, Offer, PaymentAttempt, Booking, ProgressKind, ActorRole, is_pending_payment, find_offer,
  find_request, update_offer, update_attempt, fresh_id,
}
use servicehub_backend.Queue.Frame.{recalculate_queue-frame}
use servicehub_backend.Bookings.{record_booking_progress, record_lifecycle_notice}
use servicehub_backend.Bookings.Frame.{
  OnlyMessages, record_booking_progress-frame, record_lifecycle_notice-frame,
}
use servicehub_backend.Offers.Selected.{
  is_selected_for, IsSelectedOnce, KeepsOffers, keeps-IsSelectedOnce, rewritten-IsSelectedOnce,
  selected-update_offer, offers_with-update, release_offer_hold-IsSelectedOnce,
}
use servicehub_backend.Offers.Kept.{select-IsSelectedOnce}
use servicehub_backend.Offers.{lose}
use servicehub_backend.Payments.{attempt_of}
use servicehub_backend.Payments.Undecided.{undecided-capture}
use servicehub_backend.Payments.Capture.{
  Captured, Finalized, mark_paid, refused, refused_and_released, cannot_book, held_offer,
}
use servicehub_backend.Payments.Capture.Rows.{
  competes, is_held_id, drop_offer, consume_waitlist, enqueue, book_attempt, next_place,
  new_booking, paid_rows, paid_notices, accept, start_request, select_offer, create_paid_booking,
  repeats_keys,
}
use servicehub_backend.Payments.Capture.Finalize.{
  take_offer, capture, settled_before, finalize_successful_payment,
}

pub refused-IsSelectedOnce :
    (p : Captured) (a : PaymentAttempt) (db : Db)
    → IsSelectedOnce db
    → IsSelectedOnce (refused p a db).1
refused-IsSelectedOnce p a db inv = keeps-IsSelectedOnce db _ (refl, refl, omega arith) inv

refused_and_released-IsSelectedOnce :
    (p : Captured) (a : PaymentAttempt) (db : Db)
    → IsSelectedOnce db
    → IsSelectedOnce (refused_and_released p a db).1
refused_and_released-IsSelectedOnce p a db inv =
    release_offer_hold-IsSelectedOnce a.offer_id _ (refused-IsSelectedOnce p a db inv)

drop_offer-IsSelectedOnce :
    (offer : ℕ) (db : Db) → IsSelectedOnce db → IsSelectedOnce (drop_offer offer db)
drop_offer-IsSelectedOnce offer db inv =
    let fewer = λ (x : ℕ).
      count-update-le (is_selected_for x) (is_held_id offer) lose db.offers
        (λ o h. ground (arith, h)) in
    rewritten-IsSelectedOnce db _ inv (λ x. omega (arith, fewer x, inv.once x))
      (λ x h. omega (arith, fewer x, inv.free x h))
      (offers_with-update (is_held_id offer) lose db.offers (λ o. refl)) (omega arith)

pub book_attempt-KeepsOffers :
    (p : Captured) (a : PaymentAttempt) (b : Booking) (position now : ℕ) (db : Db)
    → KeepsOffers db (book_attempt p a b position now db)
unfolding book_attempt
book_attempt-KeepsOffers p a b position now db =
    let inserted = fresh_id (record db { bookings = insert b db.bookings }) in
    let told = record_booking_progress b.id ProgressKind.accepted ActorRole.system 0 now inserted in
    let queued = consume_waitlist a (enqueue p a b position now told) in
    let progress =
      record_booking_progress-frame b.id ProgressKind.accepted ActorRole.system 0 now inserted in
    let moved = recalculate_queue-frame a.provider_id queued in
    (
      ap (λ d. d.offers) moved ∙ ap (λ d. d.offers) progress,
      ap (λ d. d.requests) moved ∙ ap (λ d. d.requests) progress,
      omega (arith, ap (λ d. d.next_id) moved, ap (λ d. d.next_id) progress),
    )

pub messages-KeepsOffers : (db d : Db) → OnlyMessages db d → KeepsOffers db d
messages-KeepsOffers db d told =
    (ap (λ x. x.offers) told, ap (λ x. x.requests) told, omega (arith, ap (λ x. x.next_id) told))

pub held_offer_holds :
    (a : PaymentAttempt) (offer : ℕ) (db : Db) (o : Offer)
    → held_offer a offer db ≡ some o
    → (find_offer offer db ≡ some o) × (is_pending_payment o.status ≡ true)
held_offer_holds a offer db o h = elim (Option-cases (find_offer offer db)) [
  | inl e ↦ absurd (ground (arith, e, h))
  | inr (x, e) ↦ elim (Option-cases (find_request x.request_id db)) [
    | inl f ↦ absurd (ground (arith, e, f, h))
    | inr (r, f) ↦ (ground (arith, e, f, h), ground (arith, e, f, h))
  ]
]

-- An offer that was held is accepted.
select_offer-IsSelectedOnce :
    (o : Offer) (db : Db)
    → IsSelectedOnce db
    → find_offer o.id db ≡ some o
    → is_pending_payment o.status ≡ true
    → IsSelectedOnce (select_offer (some o) db)
unfolding select_offer
select_offer-IsSelectedOnce o db inv e held =
    select-IsSelectedOnce accept start_request o db (update_offer o.id accept db) inv
      (selected-update_offer o.id accept db o inv e)
      (inr (ground (arith, held, ==_refl o.request_id))) refl
      (offers_with-update (λ y. y.id == o.id) accept db.offers (λ y. refl)) refl (omega arith)
      (λ y. refl) (λ y. refl)

-- What a hold that is valid guarantees of the offer that the payment takes.
abbrev IsHeld : Option Offer → Db → Type 0
IsHeld none db = Unit
IsHeld (some o) db = (find_offer o.id db ≡ some o) × (is_pending_payment o.status ≡ true)

chosen-IsSelectedOnce :
    (o : Option Offer) (db d : Db)
    → IsHeld o db
    → KeepsOffers db d
    → IsSelectedOnce db
    → IsSelectedOnce (select_offer o d)
unfolding select_offer
chosen-IsSelectedOnce none db d held kept inv = keeps-IsSelectedOnce db d kept inv
chosen-IsSelectedOnce (some o) db d held kept inv =
    select_offer-IsSelectedOnce o d (keeps-IsSelectedOnce db d kept inv)
      (ap (find (λ y. y.id == o.id)) kept.0 ∙ held.0) held.1

create_paid_booking-IsSelectedOnce :
    (p : Captured) (a : PaymentAttempt) (o : Option Offer) (now : ℕ) (db d : Db) (f : Finalized)
    → IsHeld o db
    → IsSelectedOnce db
    → create_paid_booking p a o now db ≡ ok (f, d)
    → IsSelectedOnce d
unfolding create_paid_booking
create_paid_booking-IsSelectedOnce p a o now db d f held inv h =
    let b = new_booking a now db in
    let rows = paid_rows p a o now db in
    let (_, h0) = reject-eq-ok (repeats_keys p a now db) _ h in
    let (told, ran, last) = >>=-eq-ok (record_lifecycle_notice b (paid_notices b) none rows) _ h0 in
    let frame = record_lifecycle_notice-frame b (paid_notices b) none rows told ran in
    let (os, rs, n) = book_attempt-KeepsOffers p a b (next_place a db) now db in
    let same : told ≡ d = ground (arith, last) in
    subst IsSelectedOnce same (
      keeps-IsSelectedOnce rows told (messages-KeepsOffers rows told frame)
        (chosen-IsSelectedOnce o db _ held (os, rs, n) inv))

take_offer-IsSelectedOnce :
    (p : Captured) (a : PaymentAttempt) (now : ℕ) (db d : Db) (f : Finalized)
    → IsSelectedOnce db
    → take_offer p a now db ≡ ok (f, d)
    → IsSelectedOnce d
unfolding take_offer
take_offer-IsSelectedOnce p a now db d f inv h = elim (Option-cases a.offer_id) [
  | inl e ↦ create_paid_booking-IsSelectedOnce p a none now db d f tt inv (ground (arith, e, h))
  | inr (offer, e) ↦ elim (Option-cases (held_offer a offer db)) [
    | inl g ↦
        let rows : (refused p a db).1 ≡ d = ground (arith, e, g, h) in
        subst IsSelectedOnce rows (refused-IsSelectedOnce p a db inv)
    | inr (o, g) ↦ elim (Bool-cases (is_some (find (competes o) db.offers))) [
      | inl c ↦
          let rows : drop_offer offer (refused p a db).1 ≡ d = ground (arith, e, g, c, h) in
          subst IsSelectedOnce rows
            (drop_offer-IsSelectedOnce offer (refused p a db).1 (refused-IsSelectedOnce p a db inv))
      | inr c ↦
          let (e', held) = held_offer_holds a offer db o g in
          let id = ==→eq _ _ (find-holds (λ (y : Offer). y.id == offer) db.offers o e') in
          create_paid_booking-IsSelectedOnce p a (some o) now db d f
            (subst (λ x. find_offer x db ≡ some o) (sym id) e', held) inv
            (ground (arith, e, g, c, h))
    ]
  ]
]

capture-IsSelectedOnce :
    (p : Captured) (a : PaymentAttempt) (now : ℕ) (db d : Db) (f : Finalized)
    → IsSelectedOnce db
    → capture p a now db ≡ ok (f, d)
    → IsSelectedOnce d
unfolding capture
capture-IsSelectedOnce p a now db d f inv h =
    elim (Bool-cases (leb a.expires_at now || cannot_book a now db)) [
      | inl e ↦
          let rows : (refused_and_released p a db).1 ≡ d = ground (arith, e, h) in
          subst IsSelectedOnce rows (refused_and_released-IsSelectedOnce p a db inv)
      | inr e ↦ take_offer-IsSelectedOnce p a now db d f inv (ground (arith, e, h))
    ]

pub finalize_successful_payment-IsSelectedOnce :
    (p : Captured) (now : ℕ) (db d : Db) (f : Finalized)
    → IsSelectedOnce db
    → finalize_successful_payment p now db ≡ ok (f, d)
    → IsSelectedOnce d
unfolding finalize_successful_payment
finalize_successful_payment-IsSelectedOnce p now db d f inv h =
    let (a, e, h1) = found-eq-ok (attempt_of p.intent_id db) _ _ h in
    elim (Option-cases (settled_before a db)) [
      | inr (before, g) ↦ let rows : db ≡ d = ground (arith, h1, g) in subst IsSelectedOnce rows inv
      | inl g ↦
          let paid = update_attempt a.id (mark_paid now) db in
          let ran = undecided-capture p a now db d f e g h in
          capture-IsSelectedOnce p a now paid d f
            (keeps-IsSelectedOnce db paid (refl, refl, omega arith) inv) ran
    ]
