-- ===== src/Payments/Failing.antt =====
-- services/payment-attempt.service.ts, finalizeSuccessfulPayment: when the finalization of a captured
-- payment fails.
use servicehub_backend.Base.{
  ℕ, ◌<◌, ◌≡◌, refl, ◌≢◌, ◌↔◌, ◌⊎◌, inl, inr, true, false, not, ◌&&◌, ◌||◌, Option, none, some,
  arith, leb, ◌==◌, is_some, Bool-cases, Option-cases, ne→==, &&_parts, is_ok, Any, Any-map, find,
}
use servicehub_backend.Schema.{repeats_key, Db, PaymentAttempt, Offer, update_attempt}
use servicehub_backend.Bookings.{record_lifecycle_notice}
use servicehub_backend.Payments.{attempt_of}
use servicehub_backend.Payments.Capture.{
  Captured, metadata_valid, mark_paid, cannot_book, held_offer,
}
use servicehub_backend.Payments.Capture.Rows.{competes, repeats_keys, create_paid_booking}
use servicehub_backend.Payments.Capture.Finalize.{
  take_offer, capture, settled_before, payment_taken, finalize_successful_payment,
}
use servicehub_backend.Payments.Keys.{
  RepeatsBooking, RepeatsEntry, find-Any, Any-find, repeats_key-same, same-repeats_key,
  repeats_keys-Any, Any-repeats_keys,
}

-- The attempt is for no offer, or for one that it holds and that no other of the request competes
-- with.
abbrev pub TakesOffer : PaymentAttempt → Db → Type 0
TakesOffer a db =
    (a.offer_id ≡ none)
    ⊎ ((offer : ℕ) × (o : Offer) × (a.offer_id ≡ some offer)
        × (held_offer a offer db ≡ some o)
        × (find (competes o) db.offers ≡ none))

-- The attempt could be booked, but a unique key refuses the row.
abbrev pub IsBlocked : Captured → PaymentAttempt → ℕ → Db → Type 0
IsBlocked p a now db =
    (now < a.expires_at)
    × (cannot_book a now db ≡ false)
    × TakesOffer a db
    × (Any (RepeatsBooking a) db.bookings ⊎ Any (RepeatsEntry p a db) db.queue)

-- Another attempt has the payment.
abbrev pub IsTaken : Captured → PaymentAttempt → Db → Type 0
IsTaken p a db =
    Any
      (λ x. (x.id ≢ a.id) × (is_some p.payment_id ≡ true) × (x.provider_payment_id ≡ p.payment_id))
      db.attempts

module _ (p : Captured) (a : PaymentAttempt) (now : ℕ) (db : Db) where
  payment_taken-IsTaken : payment_taken p a db ≡ true → IsTaken p a db
  payment_taken-IsTaken h = Any-map one db.attempts (find-Any _ db.attempts h)
    where
      one :
          (x : PaymentAttempt)
          → (not (x.id == a.id) && repeats_key p.payment_id x.provider_payment_id) ≡ true
          → (x.id ≢ a.id) × (is_some p.payment_id ≡ true) × (x.provider_payment_id ≡ p.payment_id)
      one x k =
          let (other, key) = &&_parts (not (x.id == a.id)) _ k in
          let (paid, same) = repeats_key-same p.payment_id x.provider_payment_id key in
          (λ e. ground (arith, other, e), paid, same)

  IsTaken-payment_taken : IsTaken p a db → payment_taken p a db ≡ true
  IsTaken-payment_taken h =
      Any-find (λ x. not (x.id == a.id) && repeats_key p.payment_id x.provider_payment_id)
        db.attempts (Any-map one db.attempts h)
    where
      one :
          (x : PaymentAttempt)
          → (x.id ≢ a.id) × (is_some p.payment_id ≡ true) × (x.provider_payment_id ≡ p.payment_id)
          → (not (x.id == a.id) && repeats_key p.payment_id x.provider_payment_id) ≡ true
      one x (other, paid, same) =
          let key = same-repeats_key p.payment_id x.provider_payment_id paid same in
          ground (arith, ne→== x.id a.id other, key)

  -- The notices of a paid booking are never refused.
  booked_fails :
      (o : Option Offer) → is_ok (create_paid_booking p a o now db) ≡ not (repeats_keys p a now db)
  unfolding create_paid_booking record_lifecycle_notice
  booked_fails o = elim (Bool-cases (repeats_keys p a now db)) [
    | inl e ↦ rw e refl
    | inr e ↦ rw e refl
  ]

  take_offer_fails :
      is_ok (take_offer p a now db) ≡ false → TakesOffer a db × (repeats_keys p a now db ≡ true)
  unfolding take_offer
  take_offer_fails h = elim (Option-cases a.offer_id) [
    | inl e ↦ (inl e, ground (arith, e, h, booked_fails none))
    | inr (offer, e) ↦ elim (Option-cases (held_offer a offer db)) [
      | inl g ↦ absurd (ground (arith, e, g, h))
      | inr (o, g) ↦ elim (Option-cases (find (competes o) db.offers)) [
        | inl c ↦ (inr (offer, o, e, g, c), ground (arith, e, g, c, h, booked_fails (some o)))
        | inr (x, c) ↦ absurd (ground (arith, e, g, c, h))
      ]
    ]
  ]

  blocked_offer_fails :
      TakesOffer a db → repeats_keys p a now db ≡ true → is_ok (take_offer p a now db) ≡ false
  unfolding take_offer
  blocked_offer_fails (inl e) k = ground (arith, e, k, booked_fails none)
  blocked_offer_fails (inr (offer, o, e, g, c)) k =
      ground (arith, e, g, c, k, booked_fails (some o))

  capture_fails : is_ok (capture p a now db) ≡ false → IsBlocked p a now db
  unfolding capture
  capture_fails h = elim (Bool-cases (leb a.expires_at now || cannot_book a now db)) [
    | inl e ↦ absurd (ground (arith, e, h))
    | inr e ↦
        let (takes, keys) = take_offer_fails (ground (arith, e, h)) in
        (ground arith, ground (arith, e), takes, repeats_keys-Any p a now db keys)
  ]

  blocked_fails : IsBlocked p a now db → is_ok (capture p a now db) ≡ false
  unfolding capture
  blocked_fails (early, free, takes, rows) =
      let fails = blocked_offer_fails takes (Any-repeats_keys p a now db rows) in
      ground (arith, early, free, fails)

-- A captured payment fails to be finalized exactly when no attempt has its intent, or when its
-- attempt is still undecided and does not match what was captured, or another attempt has the
-- payment, or the attempt could be booked in time but a unique key refuses it: an active booking of
-- the same seeker and listing, a booking or entry of the same offer, attempt, intent or payment, or
-- an entry at the next place. It is answered in all other cases, also when no booking can be made.
pub finalize_successful_payment_errors :
    (p : Captured) (now : ℕ) (db : Db)
    → (is_ok (finalize_successful_payment p now db) ≡ false) ↔ (
        (attempt_of p.intent_id db ≡ none)
        ⊎ ((a : PaymentAttempt) × (attempt_of p.intent_id db ≡ some a)
            × (settled_before a db ≡ none)
            × ((metadata_valid p a ≡ false)
                ⊎ IsTaken p a db
                ⊎ IsBlocked p a now (update_attempt a.id (mark_paid now) db))))
unfolding finalize_successful_payment
finalize_successful_payment_errors p now db = (fails, refused_as)
  where
    fails :
        is_ok (finalize_successful_payment p now db) ≡ false
        → (attempt_of p.intent_id db ≡ none)
          ⊎ ((a : PaymentAttempt) × (attempt_of p.intent_id db ≡ some a)
              × (settled_before a db ≡ none)
              × ((metadata_valid p a ≡ false)
                  ⊎ IsTaken p a db
                  ⊎ IsBlocked p a now (update_attempt a.id (mark_paid now) db)))
    fails h = elim (Option-cases (attempt_of p.intent_id db)) [
      | inl e ↦ inl e
      | inr (a, e) ↦ elim (Option-cases (settled_before a db)) [
        | inr (before, g) ↦ absurd (ground (arith, e, g, h))
        | inl g ↦ inr (
          a,
          e,
          g,
          elim (Bool-cases (metadata_valid p a)) [
            | inr m ↦ inl m
            | inl m ↦ elim (Bool-cases (payment_taken p a db)) [
              | inl t ↦ inr (inl (payment_taken-IsTaken p a now db t))
              | inr t ↦ inr (inr (capture_fails p a now _ (ground (arith, e, g, m, t, h))))
            ]
          ],
        )
      ]
    ]

    refused_as :
        (attempt_of p.intent_id db ≡ none)
          ⊎ ((a : PaymentAttempt) × (attempt_of p.intent_id db ≡ some a)
              × (settled_before a db ≡ none)
              × ((metadata_valid p a ≡ false)
                  ⊎ IsTaken p a db
                  ⊎ IsBlocked p a now (update_attempt a.id (mark_paid now) db)))
        → is_ok (finalize_successful_payment p now db) ≡ false
    refused_as (inl e) = ground (arith, e)
    refused_as (inr (a, e, g, inl m)) = ground (arith, e, g, m)
    refused_as (inr (a, e, g, inr (inl t))) =
        let taken = IsTaken-payment_taken p a now db t in ground (arith, e, g, taken)
    refused_as (inr (a, e, g, inr (inr b))) =
        let fails' = blocked_fails p a now (update_attempt a.id (mark_paid now) db) b in
        ground (arith, e, g, fails')
