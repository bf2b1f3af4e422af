-- ===== src/Payments/Capture/Finalize.antt =====
-- services/payment-attempt.service.ts, finalizeSuccessfulPayment and refundCapturedAttempt: what
-- follows a captured payment.
use servicehub_backend.Base.{
  ℕ, Bool, true, false, ◌&&◌, ◌||◌, Option, none, some, leb, ◌==◌, if◌then◌else◌, refers, is_some,
  Code, Result, ok, err, ◌>>=◌, ◌>>◌, http, require, reject, not, found, find, update, insert,
}
use servicehub_backend.Schema.{
  repeats_key, Db, PaymentAttempt, PaymentRefund, AttemptStatus, RefundStatus, find_attempt,
  update_attempt, fresh_id,
}
use servicehub_backend.Refunds.{GatewayRefund}
use servicehub_backend.Payments.{
  attempt_of, is_succeeded_attempt, is_refund_required, is_refunded_attempt, set_attempt,
}
use servicehub_backend.Payments.Capture.{
  Captured, Finalized, metadata_valid, booking_of_attempt, mark_paid, refused, refused_and_released,
  cannot_book, held_offer,
}
use servicehub_backend.Payments.Capture.Rows.{competes, drop_offer, create_paid_booking}

-- The checks of the hold on an offer.
unfoldable pub take_offer : Captured → PaymentAttempt → ℕ → Db → Result (Finalized × Db)
take_offer p a now db = elim a.offer_id [
  | none ↦ create_paid_booking p a none now db
  | some offer ↦ elim (held_offer a offer db) [
    | none ↦ ok (refused p a db)
    | some o ↦
        if is_some (find (competes o) db.offers)
        then ok ((refused p a db).0, drop_offer offer (refused p a db).1)
        else create_paid_booking p a (some o) now db
  ]
]

unfoldable pub capture : Captured → PaymentAttempt → ℕ → Db → Result (Finalized × Db)
capture p a now db =
    if leb a.expires_at now
    then ok (refused_and_released p a db)
    else (if cannot_book a now db then ok (refused_and_released p a db) else take_offer p a now db)

abbrev pub booked_before : PaymentAttempt → Db → Finalized
booked_before a db = record {
  booking = booking_of_attempt a.id db;
  created = false;
  refund_required = false;
  attempt = none;
}

abbrev pub refused_before : PaymentAttempt → Finalized
refused_before a = record {
  booking = none;
  created = false;
  refund_required = is_refund_required a.status;
  attempt = some a;
}

-- What was decided about the attempt before.
abbrev pub settled_before : PaymentAttempt → Db → Option Finalized
settled_before a db =
    if is_succeeded_attempt a.status && is_some (booking_of_attempt a.id db)
    then some (booked_before a db)
    else (if is_refund_required a.status || is_refunded_attempt a.status
        then some (refused_before a)
        else none)

-- Another attempt has the payment. The column `providerPaymentId` is unique, and every end of a
-- capture writes it.
abbrev pub payment_taken : Captured → PaymentAttempt → Db → Bool
payment_taken p a db =
    is_some
      (find (λ x. not (x.id == a.id) && repeats_key p.payment_id x.provider_payment_id) db.attempts)

unfoldable pub finalize_successful_payment : Captured → ℕ → Db → Result (Finalized × Db)
finalize_successful_payment p now db = do
  a ← found (attempt_of p.intent_id db) (http 409 Code.unregistered_payment)
  elim (settled_before a db) [
    | some before ↦ ok (before, db)
    | none ↦
        require (metadata_valid p a) (http 409 Code.payment_mismatch)
        >> reject (payment_taken p a db) (http 500 Code.no_code)
        >> capture p a now (update_attempt a.id (mark_paid now) db)
  ]

-- ["SUCCEEDED", "SIMULATED_TEST_MODE"]
abbrev pub is_done_refund : RefundStatus → Bool
is_done_refund RefundStatus.succeeded = true
is_done_refund RefundStatus.simulated_test_mode = true
is_done_refund _ = false

abbrev pub refund_of_attempt : ℕ → Db → Option PaymentRefund
refund_of_attempt attempt db = find (λ r. refers r.payment_attempt_id attempt) db.refunds

abbrev pub attempt_refund_row : ℕ → ℕ → PaymentAttempt → PaymentRefund
attempt_refund_row id payment a = record {
  id = id;
  booking_id = none;
  payment_attempt_id = some a.id;
  payment_id = payment;
  paymongo_refund_id = none;
  amount = a.amount;
  status = RefundStatus.pending;
  requested_by_id = a.seeker_id;
}

-- The `upsert`: the row that is there, or a new one.
abbrev pub ensure_attempt_refund : ℕ → PaymentAttempt → Db → PaymentRefund × Db
ensure_attempt_refund payment a db = elim (refund_of_attempt a.id db) [
  | some r ↦ (r, db)
  | none ↦ (
    attempt_refund_row db.next_id payment a,
    fresh_id (record db { refunds = insert (attempt_refund_row db.next_id payment a) db.refunds }),
  )
]

abbrev pub update_refund_row : ℕ → (PaymentRefund → PaymentRefund) → Db → Db
update_refund_row id f db = record db { refunds = update (λ r. r.id == id) f db.refunds }

-- The gateway's answer is stored. An error is thrown again.
abbrev pub refund_answered :
    ℕ → PaymentRefund → Db → Result GatewayRefund → Db × Result (Option PaymentAttempt)
refund_answered attempt r db (err e) =
    (update_refund_row r.id (λ x. record x { status = RefundStatus.failed }) db, err e)
refund_answered attempt r db (ok gateway) =
    let d = update_attempt attempt (set_attempt AttemptStatus.refunded) (
      update_refund_row r.id
        (λ x. record x { paymongo_refund_id = some gateway.id; status = gateway.status }) db) in
    (d, ok (find_attempt attempt d))

-- The attempt and the payment to send back, if there is one.
abbrev pub refundable_attempt : Option PaymentAttempt → Option (PaymentAttempt × ℕ)
refundable_attempt none = none
refundable_attempt (some a) = elim a.provider_payment_id [
  | none ↦ none
  | some payment ↦ if is_refund_required a.status then some (a, payment) else none
]

-- `create_refund payment amount attempt` is the gateway's answer, with the key of the attempt.
unfoldable pub refund_captured_attempt :
    (ℕ → ℕ → ℕ → Result GatewayRefund) → ℕ → Db → Db × Result (Option PaymentAttempt)
refund_captured_attempt create_refund attempt db =
    elim (refundable_attempt (find_attempt attempt db)) [
      | none ↦ (db, ok (find_attempt attempt db))
      | some (a, payment) ↦
          let (r, d) = ensure_attempt_refund payment a db in
          if is_done_refund r.status
          then (d, ok (some a))
          else refund_answered attempt r d (create_refund payment a.amount attempt)
    ]
