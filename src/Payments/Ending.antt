-- ===== src/Payments/Ending.antt =====
-- services/payment-attempt.service.ts: initiateOnlinePayment comes to an end.
use servicehub_backend.Base.{
  ℕ, zero, suc, ◌≤◌, ◌<◌, ◌≡◌, refl, inl, inr, Bool, true, false, ◌&&◌, Option, none, some, arith,
  refers, ==_refl, Result, ok, err, >>=-eq-ok,
}
use servicehub_backend.Schema.{Db, PaymentAttempt}
use servicehub_backend.Payments.Prepare.{PaymentParams, retry_params, payment_target}
use servicehub_backend.Payments.Gateway.{
  Gateway, again, reuse, try_prepared, prepare_call, try_online_payment, initiate_online_payment,
}
use servicehub_backend.Payments.Checkout.{Next-cases}
use servicehub_backend.Payments.Decay.{IsSticky, tally}
use servicehub_backend.Payments.Calls.{
  is_pending_row, has_intent, HasUniqueIntents, intent-IsSticky, pending-IsSticky, prepared_reuse,
  reconciled_again,
}

-- A call that starts over leaves fewer pending attempts than there were.
try_again :
    (g : Gateway) (configured : Bool) (p : PaymentParams) (now : ℕ) (db : Db)
    → HasUniqueIntents db
    → (try_online_payment g configured p now db).1 ≡ again
    → let d = (try_online_payment g configured p now db).0 in
      HasUniqueIntents d × (tally is_pending_row d < tally is_pending_row db)
unfolding try_online_payment
try_again g false p now db u h = absurd (ground (arith, h))
try_again g true p now db u h = by_result (prepare_call p now db) refl h
  where
    Decreases : Db → Type 0
    Decreases d = HasUniqueIntents d × (tally is_pending_row d < tally is_pending_row db)

    by_intent :
        (d : Db) (a : PaymentAttempt) (intent url : Option ℕ)
        → ((q : PaymentAttempt → Bool) → IsSticky q → tally q d ≤ tally q db)
        → ((q : PaymentAttempt → Bool) → q a ≡ true → 1 ≤ tally q d)
        → is_pending_row a ≡ true
        → a.provider_intent_id ≡ intent
        → (reuse g p now d a intent url).1 ≡ again
        → Decreases (reuse g p now d a intent url).0
    by_intent d a none none fewer live waits own k = absurd (ground (arith, k))
    by_intent d a none (some url) fewer live waits own k = absurd (ground (arith, k))
    by_intent d a (some intent) url fewer live waits own k =
        let kept = λ (i : ℕ). fewer (has_intent i) (intent-IsSticky (λ o. refers o i)) in
        let (less, strictly) =
          reconciled_again g p.seeker_id intent now d a (λ i. omega (arith, kept i, u i))
            (live (λ x. is_pending_row x && has_intent intent x)
              (ground (arith, waits, own, ==_refl intent)))
            k in
        (
          λ i. omega (arith, less (has_intent i) (intent-IsSticky (λ o. refers o i)), kept i, u i),
          omega (arith, strictly, fewer is_pending_row pending-IsSticky),
        )

    by_result :
        (r : Result ((PaymentAttempt × Bool) × Db))
        → prepare_call p now db ≡ r
        → (try_prepared g p now db r).1 ≡ again
        → Decreases (try_prepared g p now db r).0
    by_result (err e) ran k = absurd (ground (arith, k))
    by_result (ok ((a, false), d)) ran k = absurd (ground (arith, k))
    by_result (ok ((a, true), d)) ran k =
        let (q, _, h1) = >>=-eq-ok (retry_params p db) _ ran in
        let (t, _, h2) = >>=-eq-ok (payment_target q db) _ h1 in
        let (fewer, live, waits) = prepared_reuse q t now db d a h2 in
        by_intent d a a.provider_intent_id a.redirect_url fewer live waits refl k

-- Where the ids of the gateway's intents are unique, initiateOnlinePayment comes to an end,
-- whatever the gateway answers: with more calls than there are pending attempts it gives an attempt
-- or an error.
pub initiate_online_payment_ends :
    (calls : ℕ) (g : Gateway) (configured : Bool) (p : PaymentParams) (now : ℕ) (db : Db)
    → HasUniqueIntents db
    → tally is_pending_row db < calls
    → (r : Result PaymentAttempt) × ((initiate_online_payment calls g configured p now db).1
        ≡ some r)
unfolding initiate_online_payment
initiate_online_payment_ends zero g configured p now db u enough = absurd (omega (arith, enough))
initiate_online_payment_ends (suc calls) g configured p now db u enough =
    elim (Next-cases (try_online_payment g configured p now db).1) [
      | inl (r, e) ↦ (r, rw (e, initiate_online_payment) refl)
      | inr e ↦
          let (unique, fewer) = try_again g configured p now db u e in
          let (r, done) =
            initiate_online_payment_ends calls g configured p now
              (try_online_payment g configured p now db).0 unique (omega (arith, fewer, enough)) in
          (r, rw (e, initiate_online_payment) done)
    ]
