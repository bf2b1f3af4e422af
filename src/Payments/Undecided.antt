-- ===== src/Payments/Undecided.antt =====
-- services/payment-attempt.service.ts, finalizeSuccessfulPayment: a captured payment whose attempt
-- nothing has decided yet goes on to its capture.
use servicehub_backend.Base.{
  ℕ, ◌≡◌, none, some, arith, Code, ok, ◌>>◌, http, reject, require-eq-ok, reject-eq-ok,
}
use servicehub_backend.Schema.{Db, PaymentAttempt, update_attempt}
use servicehub_backend.Payments.{attempt_of}
use servicehub_backend.Payments.Capture.{Captured, Finalized, metadata_valid, mark_paid}
use servicehub_backend.Payments.Capture.Finalize.{
  capture, settled_before, payment_taken, finalize_successful_payment,
}

pub undecided-capture :
    (p : Captured) (a : PaymentAttempt) (now : ℕ) (db d : Db) (f : Finalized)
    → attempt_of p.intent_id db ≡ some a
    → settled_before a db ≡ none
    → finalize_successful_payment p now db ≡ ok (f, d)
    → capture p a now (update_attempt a.id (mark_paid now) db) ≡ ok (f, d)
unfolding finalize_successful_payment
undecided-capture p a now db d f known undecided h =
    let run = capture p a now (update_attempt a.id (mark_paid now) db) in
    let (_, ran) =
      require-eq-ok {B = Finalized × Db} (metadata_valid p a) (http 409 Code.payment_mismatch)
        {k = reject (payment_taken p a db) (http 500 Code.no_code) >> run} {x = (f, d)}
        (ground (arith, known, undecided, h)) in
    (reject-eq-ok {B = Finalized × Db} (payment_taken p a db) (http 500 Code.no_code) {k = run}
      {x = (f, d)} ran).1
