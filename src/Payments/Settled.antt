-- ===== src/Payments/Settled.antt =====
-- services/payment-attempt.service.ts: how a captured payment ends (finalizeSuccessfulPayment).
use servicehub_backend.Base.{
  ℕ, ◌+◌, ◌≤◌, ◌≡◌, refl, sym, ap, ◌∙◌, subst, ◌⊎◌, inl, inr, Bool, true, ◌||◌, Option, none, some,
  arith, leb, ◌==◌, if◌then◌else◌, refers, is_some, Bool-cases, Option-cases, ==_refl, ok,
  >>=-eq-ok, reject-eq-ok, ok_second, find, count, insert, count-insert, find-none-count,
  find-update_hit,
}
use servicehub_backend.Schema.{
  Db, Offer, PaymentAttempt, Booking, ProgressKind, ActorRole, is_pending_payment, find_offer,
  update_attempt, fresh_id,
}
use servicehub_backend.Queue.Frame.{count-bookings-recalculate_queue, recalculate_queue-frame}
use servicehub_backend.Bookings.{record_booking_progress, record_lifecycle_notice}
use servicehub_backend.Bookings.Frame.{record_booking_progress-frame, record_lifecycle_notice-frame}
use servicehub_backend.Offers.Kept.{reject_sibling_offers_keeps}
use servicehub_backend.Payments.{
  attempt_of, is_succeeded_attempt, is_refund_required, is_refunded_attempt, release_offer_hold,
}
use servicehub_backend.Payments.Capture.{
  Captured, Finalized, require_refund, refused, refused_and_released, cannot_book, held_offer,
  booking_of_attempt,
}
use servicehub_backend.Payments.Capture.Rows.{
  competes, drop_offer, new_booking, next_place, consume_waitlist, enqueue, book_attempt, succeed,
  select_offer, paid_rows, paid_notices, create_paid_booking, repeats_keys,
}
use servicehub_backend.Payments.Capture.Finalize.{take_offer, capture}

-- Only the offers and the requests are written.
pub release_offer_hold-attempts :
    (offer : Option ℕ) (db : Db)
    → ((release_offer_hold offer db).attempts ≡ db.attempts)
      × ((release_offer_hold offer db).bookings ≡ db.bookings)
unfolding release_offer_hold
release_offer_hold-attempts none db = (refl, refl)
release_offer_hold-attempts (some id) db = elim (Option-cases (find_offer id db)) [
  | inl e ↦ (ground (arith, e), ground (arith, e))
  | inr (o, e) ↦ elim (Bool-cases (is_pending_payment o.status)) [
    | inl h ↦ (ground (arith, e, h), ground (arith, e, h))
    | inr h ↦ (ground (arith, e, h), ground (arith, e, h))
  ]
]

pub select_offer-attempts :
    (o : Option Offer) (db : Db)
    → ((select_offer o db).attempts ≡ db.attempts) × ((select_offer o db).bookings ≡ db.bookings)
unfolding select_offer
select_offer-attempts none db = (refl, refl)
select_offer-attempts (some o) db =
    let frame = (reject_sibling_offers_keeps o.request_id o.id _ 0).2 in
    (ap (λ d. d.attempts) frame, ap (λ d. d.bookings) frame)

-- A booking of the attempt.
abbrev pub is_booking_of : ℕ → Booking → Bool
is_booking_of attempt b = refers b.payment_attempt_id attempt

pub book_attempt-frame :
    (p : Captured) (a : PaymentAttempt) (b : Booking) (position now : ℕ) (db : Db) (x : ℕ)
    → let d = book_attempt p a b position now db in
      (d.attempts ≡ db.attempts)
      × (count (is_booking_of x) d.bookings
          ≡ count (is_booking_of x) db.bookings + (if is_booking_of x b then 1 else 0))
unfolding book_attempt
book_attempt-frame p a b position now db x =
    let inserted = fresh_id (record db { bookings = insert b db.bookings }) in
    let told = record_booking_progress b.id ProgressKind.accepted ActorRole.system 0 now inserted in
    let queued = consume_waitlist a (enqueue p a b position now told) in
    let progress =
      record_booking_progress-frame b.id ProgressKind.accepted ActorRole.system 0 now inserted in
    (
      ap (λ d. d.attempts) (recalculate_queue-frame a.provider_id queued)
          ∙ ap (λ d. d.attempts) progress,
      count-bookings-recalculate_queue (is_booking_of x) a.provider_id queued (λ y o. refl)
          ∙ ap (λ d. count (is_booking_of x) d.bookings) progress
          ∙ count-insert (is_booking_of x) b db.bookings,
    )

-- The attempt is settled: with a booking, or with a refund that is due or done.
abbrev pub IsSettled : ℕ → Db → Type 0
IsSettled intent db =
    (a : PaymentAttempt) × (attempt_of intent db ≡ some a)
    × (((is_succeeded_attempt a.status ≡ true) × (is_some (booking_of_attempt a.id db) ≡ true))
        ⊎ ((is_refund_required a.status || is_refunded_attempt a.status) ≡ true))

pub attempt_of-update :
    (intent id : ℕ) (f : PaymentAttempt → PaymentAttempt) (db : Db) (a : PaymentAttempt)
    → ((x : PaymentAttempt) → (f x).provider_intent_id ≡ x.provider_intent_id)
    → a.id ≡ id
    → attempt_of intent db ≡ some a
    → attempt_of intent (update_attempt id f db) ≡ some (f a)
attempt_of-update intent id f db a keeps same e =
    find-update_hit (λ x. refers x.provider_intent_id intent) (λ x. x.id == id) f db.attempts a
      (λ x. ap (λ o. refers o intent) (keeps x)) e (ground (arith, same))

-- The attempt as it was read, and as it is stored.
module _ (p : Captured) (now : ℕ) (db : Db) (a stored : PaymentAttempt)
    (known : attempt_of p.intent_id db ≡ some stored) (same_id : stored.id ≡ a.id) where
  refused-IsSettled : (d : Db) → d.attempts ≡ (refused p a db).1.attempts → IsSettled p.intent_id d
  refused-IsSettled d same = (
    require_refund p.payment_id stored,
    ap (find (λ x. refers x.provider_intent_id p.intent_id)) same
        ∙ attempt_of-update p.intent_id a.id (require_refund p.payment_id) db stored (λ x. refl)
            same_id known,
    inr refl,
  )

  booked-IsSettled :
      (o : Option Offer) (d : Db) (f : Finalized)
      → create_paid_booking p a o now db ≡ ok (f, d)
      → IsSettled p.intent_id d
  unfolding create_paid_booking
  booked-IsSettled o d f h =
      let b = new_booking a now db in
      let booked = book_attempt p a b (next_place a db) now db in
      let rows = paid_rows p a o now db in
      let (_, h0) = reject-eq-ok (repeats_keys p a now db) _ h in
      let (told, ran, last) =
        >>=-eq-ok (record_lifecycle_notice b (paid_notices b) none rows) _ h0 in
      let frame = record_lifecycle_notice-frame b (paid_notices b) none rows told ran in
      let selected = select_offer-attempts o (update_attempt a.id (succeed p.payment_id) booked) in
      let kept = book_attempt-frame p a b (next_place a db) now db a.id in
      let attempts = ap (λ x. x.attempts) frame ∙ selected.0 in
      let bookings =
        ap (λ x. count (is_booking_of a.id) x.bookings) frame
        ∙ ap (count (is_booking_of a.id)) selected.1 in
      let result : IsSettled p.intent_id told = (
        succeed p.payment_id stored,
        ap (find (λ x. refers x.provider_intent_id p.intent_id)) attempts
            ∙ attempt_of-update p.intent_id a.id (succeed p.payment_id) booked stored (λ x. refl)
                same_id (ap (find (λ x. refers x.provider_intent_id p.intent_id)) kept.0 ∙ known),
        inl (
          refl,
          subst (λ y. is_some (booking_of_attempt y told) ≡ true) (sym same_id)
              (found_booking told (ground (arith, bookings, kept.1, ==_refl a.id))),
        ),
      ) in
      subst (IsSettled p.intent_id) (ok_second last) result
    where
      found_booking :
          (t : Db)
          → 1 ≤ count (is_booking_of a.id) t.bookings
          → is_some (booking_of_attempt a.id t) ≡ true
      found_booking t many = elim (Option-cases (booking_of_attempt a.id t)) [
        | inl e ↦ absurd (omega (arith, many, find-none-count (is_booking_of a.id) t.bookings e))
        | inr (x, e) ↦ ground (arith, e)
      ]

  taken-IsSettled :
      (d : Db) (f : Finalized) → take_offer p a now db ≡ ok (f, d) → IsSettled p.intent_id d
  unfolding take_offer
  taken-IsSettled d f h = elim (Option-cases a.offer_id) [
    | inl e ↦ booked-IsSettled none d f (ground (arith, e, h))
    | inr (offer, e) ↦ elim (Option-cases (held_offer a offer db)) [
      | inl g ↦
          let rows : (refused p a db).1 ≡ d = ground (arith, e, g, h) in
          refused-IsSettled d (sym (ap (λ x. x.attempts) rows))
      | inr (o, g) ↦ elim (Bool-cases (is_some (find (competes o) db.offers))) [
        | inl c ↦
            let rows : drop_offer offer (refused p a db).1 ≡ d = ground (arith, e, g, c, h) in
            refused-IsSettled d (sym (ap (λ x. x.attempts) rows))
        | inr c ↦ booked-IsSettled (some o) d f (ground (arith, e, g, c, h))
      ]
    ]
  ]

  pub captured-IsSettled :
      (d : Db) (f : Finalized) → capture p a now db ≡ ok (f, d) → IsSettled p.intent_id d
  unfolding capture
  captured-IsSettled d f h = elim (Bool-cases (leb a.expires_at now || cannot_book a now db)) [
    | inl e ↦
        let rows : (refused_and_released p a db).1 ≡ d = ground (arith, e, h) in
        refused-IsSettled d (
          sym (ap (λ x. x.attempts) rows)
          ∙ (release_offer_hold-attempts a.offer_id (refused p a db).1).0)
    | inr e ↦ taken-IsSettled d f (ground (arith, e, h))
  ]
