-- ===== src/Payments/Finalized.antt =====
-- What holds once a captured payment was finalized, after services/payment-attempt.service.ts.
use servicehub_backend.Base.{
  ℕ, ◌≡◌, refl, sym, subst, ◌⊎◌, inl, inr, true, false, ◌&&◌, ◌||◌, some, arith, is_some,
  Bool-cases, Option-cases, &&_parts, ok, found-eq-ok,
}
use servicehub_backend.Schema.{Db, PaymentAttempt, update_attempt}
use servicehub_backend.Payments.{
  attempt_of, is_succeeded_attempt, is_refund_required, is_refunded_attempt,
}
use servicehub_backend.Payments.Undecided.{undecided-capture}
use servicehub_backend.Payments.Capture.{Captured, Finalized, mark_paid, booking_of_attempt}
use servicehub_backend.Payments.Capture.Finalize.{
  booked_before, refused_before, settled_before, finalize_successful_payment,
}
use servicehub_backend.Payments.Settled.{captured-IsSettled, IsSettled, attempt_of-update}

paid_intent :
    (now : ℕ) (x : PaymentAttempt) → (mark_paid now x).provider_intent_id ≡ x.provider_intent_id
paid_intent now x = ground arith

paid_id : (now : ℕ) (x : PaymentAttempt) → (mark_paid now x).id ≡ x.id
paid_id now x = ground arith

settled_before-IsSettled :
    (intent : ℕ) (db : Db) (a : PaymentAttempt) (f : Finalized)
    → attempt_of intent db ≡ some a
    → settled_before a db ≡ some f
    → IsSettled intent db
settled_before-IsSettled intent db a f known h =
    elim (Bool-cases (is_succeeded_attempt a.status && is_some (booking_of_attempt a.id db))) [
      | inl e ↦ let (s, b) = &&_parts _ _ e in (a, known, inl (s, b))
      | inr e ↦ (a, known, inr (ground (arith, e, h)))
    ]

-- A captured payment that is finalized always ends in one of two ways: its attempt has succeeded
-- and there is a booking of it, or its attempt is to be refunded or has been.
pub finalize_successful_payment-IsSettled :
    (p : Captured) (now : ℕ) (db d : Db) (f : Finalized)
    → finalize_successful_payment p now db ≡ ok (f, d)
    → IsSettled p.intent_id d
unfolding finalize_successful_payment
finalize_successful_payment-IsSettled p now db d f h =
    let (a, e, h1) = found-eq-ok (attempt_of p.intent_id db) _ _ h in
    elim (Option-cases (settled_before a db)) [
      | inr (before, g) ↦
          let rows : db ≡ d = ground (arith, h1, g) in
          subst (IsSettled p.intent_id) rows (settled_before-IsSettled p.intent_id db a before e g)
      | inl g ↦
          let paid = update_attempt a.id (mark_paid now) db in
          let ran = undecided-capture p a now db d f e g h in
          captured-IsSettled p now paid a (mark_paid now a)
            (attempt_of-update p.intent_id a.id (mark_paid now) db a (paid_intent now) refl e)
            (paid_id now a) d f ran
    ]

settled_before-is_some :
    (db : Db) (a : PaymentAttempt)
    → ((is_succeeded_attempt a.status ≡ true) × (is_some (booking_of_attempt a.id db) ≡ true))
      ⊎ ((is_refund_required a.status || is_refunded_attempt a.status) ≡ true)
    → (f : Finalized) × (settled_before a db ≡ some f) × (f.created ≡ false)
settled_before-is_some db a h =
    elim (Bool-cases (is_succeeded_attempt a.status && is_some (booking_of_attempt a.id db))) [
      | inl e ↦ (booked_before a db, ground (arith, e), refl)
      | inr e ↦ elim h [
        | inl k ↦ absurd (ground (arith, e, k.0, k.1))
        | inr k ↦ (refused_before a, ground (arith, e, k), refl)
      ]
    ]

-- Webhooks repeat, and the return from the checkout finalizes too: once a payment was finalized,
-- every later finalization of the same intent, at any time and with whatever the gateway sends
-- along, succeeds, creates nothing and leaves the database as it is.
pub finalize_successful_payment_once :
    (p again : Captured) (now later : ℕ) (db d : Db) (f : Finalized)
    → again.intent_id ≡ p.intent_id
    → finalize_successful_payment p now db ≡ ok (f, d)
    → (g : Finalized) × (finalize_successful_payment again later d ≡ ok (g, d))
      × (g.created ≡ false)
finalize_successful_payment_once p again now later db d f same h =
    let (a, e, settled) = finalize_successful_payment-IsSettled p now db d f h in
    let (g, k, new) = settled_before-is_some d a settled in
    let known = subst (λ i. attempt_of i d ≡ some a) (sym same) e in
    (g, unfold finalize_successful_payment in ground (arith, known, k), new)
