-- ===== src/Payments/Checkout.antt =====
-- services/payment-attempt.service.ts: whatever the payment gateway answers, a call of
-- initiateOnlinePayment or reconcileOnlinePaymentReturn keeps the rule that one offer of a request is
-- selected at most.
use servicehub_backend.Base.{
  ℕ, zero, suc, ◌≡◌, refl, ◌⊎◌, inl, inr, Bool, true, false, Option, none, some, arith, ◌==◌,
  Bool-cases, Option-cases, Result, ok, err, >>=-eq-ok,
}
use servicehub_backend.Schema.{
  Db, PaymentAttempt, PaymentRefund, AttemptStatus, find_attempt, update_attempt,
}
use servicehub_backend.Refunds.{GatewayRefund}
use servicehub_backend.Offers.Selected.{
  IsSelectedOnce, KeepsOffers, keeps-IsSelectedOnce, release_offer_hold-IsSelectedOnce,
}
use servicehub_backend.Payments.{set_attempt, mark_payment_attempt_failed}
use servicehub_backend.Payments.Prepare.{PaymentParams, retry_params, payment_target}
use servicehub_backend.Payments.Capture.{Captured, Finalized}
use servicehub_backend.Payments.Capture.Finalize.{
  finalize_successful_payment, is_done_refund, ensure_attempt_refund, refund_of_attempt,
  refundable_attempt, refund_answered, refund_captured_attempt,
}
use servicehub_backend.Payments.Gateway.{
  IntentStatus, PaymentIntent, Gateway, get_payment_attempt_status, capture_of, is_undecided,
  id_if_refund, finalized_here, intent_read, reconcile_attempt, reconcile_online_payment_return,
  checkout, submit_attempt, Next, answer, again, reuse, prepared, try_prepared, prepare_call,
  try_online_payment, initiate_online_payment,
}
use servicehub_backend.Payments.Kept.{
  mark_payment_attempt_failed-IsSelectedOnce, prepare_attempt-IsSelectedOnce,
}
use servicehub_backend.Payments.Captured.{finalize_successful_payment-IsSelectedOnce}

ensure_attempt_refund-KeepsOffers :
    (payment : ℕ) (a : PaymentAttempt) (db : Db)
    → KeepsOffers db (ensure_attempt_refund payment a db).1
ensure_attempt_refund-KeepsOffers payment a db = elim (Option-cases (refund_of_attempt a.id db)) [
  | inl e ↦ (ground (arith, e), ground (arith, e), ground (arith, e))
  | inr (r, e) ↦ (ground (arith, e), ground (arith, e), ground (arith, e))
]

refund_answered-KeepsOffers :
    (attempt : ℕ) (r : PaymentRefund) (db : Db) (reply : Result GatewayRefund)
    → KeepsOffers db (refund_answered attempt r db reply).0
refund_answered-KeepsOffers attempt r db (err e) = (refl, refl, omega arith)
refund_answered-KeepsOffers attempt r db (ok gateway) = (refl, refl, omega arith)

pub refund_captured_attempt-IsSelectedOnce :
    (create_refund : ℕ → ℕ → ℕ → Result GatewayRefund) (attempt : ℕ) (db : Db)
    → IsSelectedOnce db
    → IsSelectedOnce (refund_captured_attempt create_refund attempt db).0
unfolding refund_captured_attempt
refund_captured_attempt-IsSelectedOnce create_refund attempt db inv =
    elim (Option-cases (refundable_attempt (find_attempt attempt db))) [
      | inl e ↦ rw (e, refund_captured_attempt) inv
      | inr ((a, payment), e) ↦
          let ensured = ensure_attempt_refund payment a db in
          let kept =
            keeps-IsSelectedOnce db ensured.1 (ensure_attempt_refund-KeepsOffers payment a db)
              inv in
          let reply = create_refund payment a.amount attempt in
          elim (Bool-cases (is_done_refund ensured.0.status)) [
            | inl f ↦ rw (e, f, refund_captured_attempt) kept
            | inr f ↦
                rw (e, f, refund_captured_attempt)
                  (keeps-IsSelectedOnce ensured.1 _
                    (refund_answered-KeepsOffers attempt ensured.0 ensured.1 reply) kept)
          ]
    ]

finalized_here-IsSelectedOnce :
    (g : Gateway) (p : Captured) (now : ℕ) (db : Db) (r : Result (Finalized × Db))
    → IsSelectedOnce db
    → finalize_successful_payment p now db ≡ r
    → IsSelectedOnce (finalized_here g db r).0
finalized_here-IsSelectedOnce g p now db (err e) inv h = inv
finalized_here-IsSelectedOnce g p now db (ok (f, d)) inv h =
    let kept = finalize_successful_payment-IsSelectedOnce p now db d f inv h in
    elim (Option-cases (id_if_refund f)) [
      | inl e ↦ rw (e, finalized_here) kept
      | inr (a, e) ↦
          rw (e, finalized_here) (refund_captured_attempt-IsSelectedOnce g.create_refund a d kept)
    ]

intent_read-IsSelectedOnce :
    (g : Gateway) (intent now : ℕ) (db : Db) (r : Result PaymentIntent)
    → IsSelectedOnce db
    → IsSelectedOnce (intent_read g intent now db r).0
intent_read-IsSelectedOnce g intent now db (err e) inv = inv
intent_read-IsSelectedOnce g intent now db (ok i) inv = elim (Bool-cases (i.id == intent)) [
  | inr e ↦ rw e inv
  | inl e ↦ rw e (by_status i.status)
]
  where
    by_status :
        (s : IntentStatus)
        → IsSelectedOnce
            (elim s as (λ _. Db × Result (Unit {0})) [
              | IntentStatus.succeeded ↦
                  finalized_here g db (finalize_successful_payment (capture_of i) now db)
              | IntentStatus.unpaid_ended ↦ (mark_payment_attempt_failed intent db, ok tt)
              | IntentStatus.open_ ↦ (db, ok tt)
            ]).0
    by_status IntentStatus.succeeded =
        finalized_here-IsSelectedOnce g (capture_of i) now db _ inv refl
    by_status IntentStatus.unpaid_ended = mark_payment_attempt_failed-IsSelectedOnce intent db inv
    by_status IntentStatus.open_ = inv

reconcile_attempt-IsSelectedOnce :
    (g : Gateway) (intent now : ℕ) (db : Db) (r : Result PaymentAttempt)
    → IsSelectedOnce db
    → IsSelectedOnce (reconcile_attempt g intent now db r).0
reconcile_attempt-IsSelectedOnce g intent now db (err e) inv = inv
reconcile_attempt-IsSelectedOnce g intent now db (ok a) inv =
    elim (Bool-cases (is_undecided a.status)) [
      | inl e ↦ rw e (intent_read-IsSelectedOnce g intent now db (g.get_payment_intent intent) inv)
      | inr e ↦ rw e inv
    ]

pub reconcile-IsSelectedOnce :
    (g : Gateway) (seeker intent now : ℕ) (db : Db)
    → IsSelectedOnce db
    → IsSelectedOnce (reconcile_online_payment_return g seeker intent now db).0
unfolding reconcile_online_payment_return
reconcile-IsSelectedOnce g seeker intent now db inv =
    reconcile_attempt-IsSelectedOnce g intent now db (get_payment_attempt_status seeker intent db)
      inv

pub submit_attempt-IsSelectedOnce :
    (a : PaymentAttempt) (db : Db) (r : Result (ℕ × Option ℕ))
    → IsSelectedOnce db
    → IsSelectedOnce (submit_attempt a db r).0
unfolding submit_attempt
submit_attempt-IsSelectedOnce a db (ok (intent, url)) inv =
    keeps-IsSelectedOnce db _ (refl, refl, omega arith) inv
submit_attempt-IsSelectedOnce a db (err e) inv = release_offer_hold-IsSelectedOnce a.offer_id _ (
    keeps-IsSelectedOnce db (update_attempt a.id (set_attempt AttemptStatus.failed) db)
      (refl, refl, omega arith) inv)

reuse-IsSelectedOnce :
    (g : Gateway) (p : PaymentParams) (now : ℕ) (db : Db) (a : PaymentAttempt)
    (intent url : Option ℕ)
    → IsSelectedOnce db
    → IsSelectedOnce (reuse g p now db a intent url).0
reuse-IsSelectedOnce g p now db a (some intent) url inv =
    reconcile-IsSelectedOnce g p.seeker_id intent now db inv
reuse-IsSelectedOnce g p now db a none (some url) inv = inv
reuse-IsSelectedOnce g p now db a none none inv =
    submit_attempt-IsSelectedOnce a db (checkout g a) inv

prepared-IsSelectedOnce :
    (g : Gateway) (p : PaymentParams) (now : ℕ) (db : Db) (a : PaymentAttempt) (reused : Bool)
    → IsSelectedOnce db
    → IsSelectedOnce (prepared g p now db a reused).0
prepared-IsSelectedOnce g p now db a false inv =
    submit_attempt-IsSelectedOnce a db (checkout g a) inv
prepared-IsSelectedOnce g p now db a true inv =
    reuse-IsSelectedOnce g p now db a a.provider_intent_id a.redirect_url inv

try_prepared-IsSelectedOnce :
    (g : Gateway) (p : PaymentParams) (now : ℕ) (db : Db)
    (r : Result ((PaymentAttempt × Bool) × Db))
    → IsSelectedOnce db
    → prepare_call p now db ≡ r
    → IsSelectedOnce (try_prepared g p now db r).0
try_prepared-IsSelectedOnce g p now db (err e) inv h = inv
try_prepared-IsSelectedOnce g p now db (ok ((a, reused), d)) inv h =
    let (q, _, h1) = >>=-eq-ok (retry_params p db) _ h in
    let (t, _, h2) = >>=-eq-ok (payment_target q db) _ h1 in
    prepared-IsSelectedOnce g p now d a reused
      (prepare_attempt-IsSelectedOnce q t now db d a reused inv h2)

try_online_payment-IsSelectedOnce :
    (g : Gateway) (configured : Bool) (p : PaymentParams) (now : ℕ) (db : Db)
    → IsSelectedOnce db
    → IsSelectedOnce (try_online_payment g configured p now db).0
unfolding try_online_payment
try_online_payment-IsSelectedOnce g true p now db inv =
    try_prepared-IsSelectedOnce g p now db (prepare_call p now db) inv refl
try_online_payment-IsSelectedOnce g false p now db inv = inv

pub Next-cases : (n : Next) → ((r : Result PaymentAttempt) × (n ≡ answer r)) ⊎ (n ≡ again)
Next-cases (answer r) = inl (r, refl)
Next-cases again = inr refl

-- However the gateway answers, and however often the call starts over, it leaves at most one
-- selected offer of each request, and none of an open one, if this was so before.
pub initiate_online_payment-IsSelectedOnce :
    (calls : ℕ) (g : Gateway) (configured : Bool) (p : PaymentParams) (now : ℕ) (db : Db)
    → IsSelectedOnce db
    → IsSelectedOnce (initiate_online_payment calls g configured p now db).0
unfolding initiate_online_payment
initiate_online_payment-IsSelectedOnce zero g configured p now db inv = inv
initiate_online_payment-IsSelectedOnce (suc calls) g configured p now db inv =
    let kept = try_online_payment-IsSelectedOnce g configured p now db inv in
    elim (Next-cases (try_online_payment g configured p now db).1) [
      | inl (r, e) ↦ rw (e, initiate_online_payment) kept
      | inr e ↦
          rw (e, initiate_online_payment)
            (initiate_online_payment-IsSelectedOnce calls g configured p now _ kept)
    ]
