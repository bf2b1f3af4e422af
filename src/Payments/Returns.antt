-- ===== src/Payments/Returns.antt =====
-- services/payment-attempt.service.ts: what a return from a checkout does to the payment attempts.
use servicehub_backend.Base.{
  ℕ, ◌≤◌, ◌≡◌, refl, ap, inl, inr, Bool, arith, ◌==◌, Bool-cases, Option-cases, Result, ok, err,
  count,
}
use servicehub_backend.Schema.{Db, PaymentAttempt, PaymentRefund, AttemptStatus, find_attempt}
use servicehub_backend.Refunds.{GatewayRefund}
use servicehub_backend.Payments.{set_attempt, mark_payment_attempt_failed}
use servicehub_backend.Payments.Capture.{Captured, Finalized}
use servicehub_backend.Payments.Capture.Finalize.{
  finalize_successful_payment, is_done_refund, ensure_attempt_refund, refund_of_attempt,
  refundable_attempt, refund_answered, refund_captured_attempt,
}
use servicehub_backend.Payments.Gateway.{
  IntentStatus, PaymentIntent, Gateway, capture_of, is_undecided, id_if_refund, finalized_here,
  intent_read, reconcile_attempt,
}
use servicehub_backend.Payments.Decay.{
  IsSticky, tally, update_attempt-le, mark_payment_attempt_failed-le,
  finalize_successful_payment-le,
}

module _ (p : PaymentAttempt → Bool) (sticky : IsSticky p) where
  refund_captured_attempt-le :
      (create_refund : ℕ → ℕ → ℕ → Result GatewayRefund) (attempt : ℕ) (db : Db)
      → tally p (refund_captured_attempt create_refund attempt db).0 ≤ tally p db
  unfolding refund_captured_attempt
  refund_captured_attempt-le create_refund attempt db =
      elim (Option-cases (refundable_attempt (find_attempt attempt db))) [
        | inl e ↦ rw (e, refund_captured_attempt) (omega arith)
        | inr ((a, payment), e) ↦
            let ensured = ensure_attempt_refund payment a db in
            let same = ensured_attempts payment a db in
            let reply = create_refund payment a.amount attempt in
            elim (Bool-cases (is_done_refund ensured.0.status)) [
              | inl f ↦ rw (e, f, refund_captured_attempt) (omega (arith, ap (count p) same))
              | inr f ↦
                  rw (e, f, refund_captured_attempt)
                    (omega
                      (arith, ap (count p) same, answered_le attempt ensured.0 ensured.1 reply))
            ]
      ]
    where
      ensured_attempts :
          (payment : ℕ) (a : PaymentAttempt) (x : Db)
          → (ensure_attempt_refund payment a x).1.attempts ≡ x.attempts
      ensured_attempts payment a x = elim (Option-cases (refund_of_attempt a.id x)) [
        | inl e ↦ ground (arith, e)
        | inr (r, e) ↦ ground (arith, e)
      ]

      answered_le :
          (id : ℕ) (r : PaymentRefund) (x : Db) (reply : Result GatewayRefund)
          → tally p (refund_answered id r x reply).0 ≤ tally p x
      answered_le id r x (err e) = omega arith
      answered_le id r x (ok gateway) =
          update_attempt-le p sticky id (set_attempt AttemptStatus.refunded) x
            (λ y. sticky.ended AttemptStatus.refunded y refl)

  finalized_here-le :
      (g : Gateway) (c : Captured) (now : ℕ) (db : Db) (r : Result (Finalized × Db))
      → finalize_successful_payment c now db ≡ r
      → tally p (finalized_here g db r).0 ≤ tally p db
  finalized_here-le g c now db (err e) h = omega arith
  finalized_here-le g c now db (ok (f, d)) h =
      let fewer = finalize_successful_payment-le p sticky c now db d f h in
      elim (Option-cases (id_if_refund f)) [
        | inl e ↦ rw (e, finalized_here) fewer
        | inr (a, e) ↦
            rw (e, finalized_here)
              (omega (arith, fewer, refund_captured_attempt-le g.create_refund a d))
      ]

  intent_read-le :
      (g : Gateway) (intent now : ℕ) (db : Db) (r : Result PaymentIntent)
      → tally p (intent_read g intent now db r).0 ≤ tally p db
  intent_read-le g intent now db (err e) = omega arith
  intent_read-le g intent now db (ok i) = elim (Bool-cases (i.id == intent)) [
    | inr e ↦ rw e (omega arith)
    | inl e ↦ rw e (by_status i.status)
  ]
    where
      by_status :
          (s : IntentStatus)
          → tally p
              (elim s as (λ _. Db × Result (Unit {0})) [
                | IntentStatus.succeeded ↦
                    finalized_here g db (finalize_successful_payment (capture_of i) now db)
                | IntentStatus.unpaid_ended ↦ (mark_payment_attempt_failed intent db, ok tt)
                | IntentStatus.open_ ↦ (db, ok tt)
              ]).0
            ≤ tally p db
      by_status IntentStatus.succeeded = finalized_here-le g (capture_of i) now db _ refl
      by_status IntentStatus.unpaid_ended = mark_payment_attempt_failed-le p sticky intent db
      by_status IntentStatus.open_ = omega arith

  pub reconcile_attempt-le :
      (g : Gateway) (intent now : ℕ) (db : Db) (r : Result PaymentAttempt)
      → tally p (reconcile_attempt g intent now db r).0 ≤ tally p db
  reconcile_attempt-le g intent now db (err e) = omega arith
  reconcile_attempt-le g intent now db (ok a) = elim (Bool-cases (is_undecided a.status)) [
    | inl e ↦ rw e (intent_read-le g intent now db (g.get_payment_intent intent))
    | inr e ↦ rw e (omega arith)
  ]
