-- ===== src/Refunds.antt =====
-- services/payment-refund.service.ts: a held online payment is sent back to the seeker. It takes
-- two transactions with a call of the payment gateway between them.
pub mod Ledger
pub mod Payment
use servicehub_backend.Base.{
  ℕ, ◌⊎◌, inl, inr, Bool, true, false, not, ◌&&◌, ◌||◌, Option, none, some, ◌==◌, if◌then◌else◌,
  refers, is_some, Code, Result, ok, err, ◌>>=◌, ◌>>◌, http, require, reject, found, find, update,
  insert,
}
use servicehub_backend.Schema.{
  Db, Booking, QueueEntry, QueueStatus, BookingStatus, PaymentStatus, PaymentRefund, RefundStatus,
  Transaction, TransactionType, LedgerKey, ProgressKind, RequestStatus, is_completed, is_canceled,
  is_refunded, is_settled, is_held, is_processing_refund, find_booking, queue_of, refund_of,
  completed_of, update_booking, update_queue, fresh_id,
}
use servicehub_backend.Queue.{recalculate_queue, notify_waitlist}
use servicehub_backend.Bookings.{record_booking_progress, booking_actor_role}
use servicehub_backend.Bookings.Completion.{request_of, set_request}

-- `getPaymentIntent`: the payment of the intent, whether its status is "succeeded", the amount.
pub record Intent : Type 0 where
  pub payment_id : Option ℕ
  pub succeeded : Bool
  pub amount : ℕ

-- `createRefund`: the id and the status that the gateway reports.
pub record GatewayRefund : Type 0 where
  pub id : ℕ
  pub status : RefundStatus

pub record RefundResult : Type 0 where
  pub refund_id : ℕ
  pub status : RefundStatus
  pub amount : ℕ
  pub already_submitted : Bool

abbrev pub gateway_id : Option PaymentRefund → Option ℕ
gateway_id none = none
gateway_id (some r) = r.paymongo_refund_id

abbrev pub is_processing : Option PaymentRefund → Bool
is_processing none = false
is_processing (some r) = is_processing_refund r.status

abbrev pub update_refund : ℕ → (PaymentRefund → PaymentRefund) → Db → Db
update_refund booking f db = record db {
  refunds = update (λ r. refers r.booking_id booking) f db.refunds;
}

-- The row of a reservation: the old one taken up again, or a new one.
abbrev pub reserve_row : ℕ → ℕ → ℕ → ℕ → Option PaymentRefund → Db → Db
reserve_row booking requested_by payment amount (some _) db =
    update_refund booking
      (λ r. record r {
        payment_id = payment;
        amount = amount;
        status = RefundStatus.processing;
        requested_by_id = requested_by;
      })
      db
reserve_row booking requested_by payment amount none db = fresh_id (record db {
  refunds =
      insert
        (record {
          id = db.next_id;
          booking_id = some booking;
          payment_attempt_id = none;
          payment_id = payment;
          paymongo_refund_id = none;
          amount = amount;
          status = RefundStatus.processing;
          requested_by_id = requested_by;
        })
        db.refunds;
})

-- The first transaction: the refund that the gateway already knows, if there is one.
unfoldable pub reserve_refund : ℕ → ℕ → ℕ → ℕ → Db → Result (Option GatewayRefund × Db)
reserve_refund booking requested_by payment amount db = do
  b ← found (find_booking booking db) (http 404 Code.no_code)
  reject (is_some (completed_of booking db) || is_completed b.status || is_settled b.payment_status)
      (http 409 Code.no_code)
  elim (refund_of booking db) [
    | none ↦
        require (is_held b.payment_status) (http 409 Code.no_code)
        >> ok (none, reserve_row booking requested_by payment amount none db)
    | some r ↦ elim r.paymongo_refund_id [
      | some id ↦ ok (some (record { id = id; status = r.status }), db)
      | none ↦
          if is_processing_refund r.status
          then ok (none, db)
          else (require (is_held b.payment_status) (http 409 Code.no_code)
              >> ok (none, reserve_row booking requested_by payment amount (some r) db))
    ]
  ]

abbrev pub fail_refund : ℕ → Db → Db
fail_refund booking = update_refund booking (λ r. record r { status = RefundStatus.failed })

abbrev pub cancel_refunded : Booking → Booking
cancel_refunded b = record b {
  status = BookingStatus.canceled;
  payment_status = PaymentStatus.refunded;
  status_before_dispute = none;
}

abbrev pub cancel_entry : QueueEntry → QueueEntry
cancel_entry q = record q {
  status = QueueStatus.cancelled;
  payment_status = PaymentStatus.refunded;
}

abbrev pub is_refund_type : TransactionType → Bool
is_refund_type TransactionType.refund = true
is_refund_type _ = false

abbrev pub refund_entry : ℕ → ℕ → Db → Option Transaction
refund_entry booking gateway db =
    find
      (λ t.
        t.related_booking_id == booking
        && is_refund_type t.type_
        && refers t.paymongo_ref_id gateway)
      db.transactions

-- The entry of the ledger, unless the gateway's refund has one.
unfoldable pub pay_seeker : Booking → ℕ → ℕ → Db → Db
pay_seeker b gateway amount db = elim (refund_entry b.id gateway db) [
  | some _ ↦ db
  | none ↦ fresh_id (record db {
    transactions =
        insert
          (record {
            id = db.next_id;
            wallet_owner_id = b.seeker_id;
            type_ = TransactionType.refund;
            amount = amount;
            related_booking_id = b.id;
            paymongo_ref_id = some gateway;
            key = LedgerKey.booking_refund b.id;
          })
          db.transactions;
  })
]

-- The writes of the second transaction before the ledger, and those after it.
unfoldable pub refund_rows : Booking → QueueEntry → ℕ → GatewayRefund → ℕ → Db → Db
refund_rows b entry requested_by gateway now db = update_queue entry.id cancel_entry (
    record_booking_progress b.id ProgressKind.canceled (booking_actor_role b (some requested_by)) 0
      now
      (update_booking b.id cancel_refunded (
        update_refund b.id
          (λ r. record r { status = gateway.status; paymongo_refund_id = some gateway.id }) db)))

unfoldable pub leave_queue : Booking → Option ℕ → ℕ → Db → Db
leave_queue b request now db =
    (notify_waitlist b.provider_id now
      (recalculate_queue b.provider_id (set_request request RequestStatus.canceled db))).1

abbrev pub may_finalize : Bool → Option PaymentRefund → Bool
may_finalize resumed none = false
may_finalize resumed (some r) = resumed || is_processing_refund r.status

-- The second transaction.
unfoldable pub finalize_refund : ℕ → ℕ → Bool → GatewayRefund → ℕ → ℕ → Db → Result Db
finalize_refund booking requested_by resumed gateway amount now db = do
  b ← found (find_booking booking db) (http 404 Code.no_code)
  entry ← found (queue_of b.id db) (http 404 Code.no_code)
  if is_canceled b.status && is_refunded b.payment_status
      then ok db
      else (reject
            (is_some (completed_of b.id db)
              || is_completed b.status
              || not (is_held b.payment_status))
            (http 409 Code.no_code)
          >> (require (may_finalize resumed (refund_of b.id db)) (http 409 Code.no_code)
              >> ok (
                  leave_queue b (request_of b db) now (
                    pay_seeker b gateway.id amount
                      (refund_rows b entry requested_by gateway now db)))))

abbrev pub submitted : Option PaymentRefund → Booking → Option RefundResult
submitted none b = none
submitted (some r) b = elim r.paymongo_refund_id [
  | none ↦ none
  | some id ↦
      if is_canceled b.status && is_refunded b.payment_status
      then some (record {
        refund_id = id;
        status = r.status;
        amount = r.amount;
        already_submitted = true;
      })
      else none
]

-- The gateway and the other clients of the database, whose transactions run between the two of
-- the refund.
pub record World : Type 0 where
  pub get_payment_intent : ℕ → Result Intent
  pub create_refund : ℕ → ℕ → ℕ → Result GatewayRefund
  pub before_reservation : Db → Db
  pub before_finalization : Db → Db

abbrev pub payment_of : QueueEntry → Intent → Option ℕ
payment_of entry intent = elim entry.paymongo_payment_id [
  | some id ↦ some id
  | none ↦ intent.payment_id
]

abbrev pub finished : Bool → GatewayRefund → ℕ → Db → Result Db → Db × Result RefundResult
finished resumed gateway amount db (err e) = (db, err e)
finished resumed gateway amount db (ok d) = (
  d,
  ok (record {
    refund_id = gateway.id;
    status = gateway.status;
    amount = amount;
    already_submitted = resumed;
  }),
)

abbrev pub finish_refund :
    World → ℕ → ℕ → Bool → GatewayRefund → ℕ → ℕ → Db → Db × Result RefundResult
finish_refund w booking requested_by resumed gateway amount now db =
    finished resumed gateway amount (w.before_finalization db)
      (finalize_refund booking requested_by resumed gateway amount now (w.before_finalization db))

-- A refund that the gateway rejects is marked as failed, and the error is thrown again.
abbrev pub answered : World → ℕ → ℕ → ℕ → ℕ → Db → Result GatewayRefund → Db × Result RefundResult
answered w booking requested_by amount now db (err e) = (fail_refund booking db, err e)
answered w booking requested_by amount now db (ok gateway) =
    finish_refund w booking requested_by false gateway amount now db

abbrev pub reserved :
    World → ℕ → ℕ → ℕ → ℕ → ℕ → Db → Result (Option GatewayRefund × Db) → Db × Result RefundResult
reserved w booking requested_by payment amount now db (err e) = (db, err e)
reserved w booking requested_by payment amount now db (ok (some gateway, d)) =
    finish_refund w booking requested_by true gateway amount now d
reserved w booking requested_by payment amount now db (ok (none, d)) =
    answered w booking requested_by amount now d (w.create_refund payment amount booking)

unfoldable pub reserve_and_submit : World → ℕ → ℕ → ℕ → ℕ → ℕ → Db → Db × Result RefundResult
reserve_and_submit w booking requested_by payment amount now db =
    reserved w booking requested_by payment amount now (w.before_reservation db)
      (reserve_refund booking requested_by payment amount (w.before_reservation db))

-- The answer of the gateway on the payment intent.
abbrev pub refundable : QueueEntry → Result Intent → Result (ℕ × ℕ)
refundable entry (err e) = err e
refundable entry (ok intent) = elim (payment_of entry intent) [
  | none ↦ err (http 409 Code.no_code)
  | some payment ↦ require intent.succeeded (http 409 Code.no_code) >> ok (payment, intent.amount)
]

abbrev pub with_payment : World → ℕ → ℕ → ℕ → Db → Result (ℕ × ℕ) → Db × Result RefundResult
with_payment w booking requested_by now db (err e) = (db, err e)
with_payment w booking requested_by now db (ok (payment, amount)) =
    reserve_and_submit w booking requested_by payment amount now db

-- The checks on what is read before the gateway is asked: the refund that is already through, or
-- the queue entry with the payment to refund.
unfoldable pub check_refund : ℕ → Db → Result (RefundResult ⊎ QueueEntry)
check_refund booking db = do
  b ← found (find_booking booking db) (http 404 Code.no_code)
  entry ← found (queue_of b.id db) (http 409 Code.no_code)
  elim (submitted (refund_of booking db) b) [
    | some r ↦ ok (inl r)
    | none ↦
        reject (not (is_some (gateway_id (refund_of booking db))) && not (is_held b.payment_status))
          (http 409 Code.no_code)
        >> ok (inr entry)
  ]

abbrev pub checked :
    World → ℕ → ℕ → ℕ → Db → Result (RefundResult ⊎ QueueEntry) → Db × Result RefundResult
checked w booking requested_by now db (err e) = (db, err e)
checked w booking requested_by now db (ok (inl r)) = (db, ok r)
checked w booking requested_by now db (ok (inr entry)) =
    with_payment w booking requested_by now db
      (refundable entry (w.get_payment_intent entry.payment_id))

-- The database that is left, and what is returned or thrown.
unfoldable pub refund_booking_payment : World → ℕ → ℕ → ℕ → Db → Db × Result RefundResult
refund_booking_payment w booking requested_by now db =
    checked w booking requested_by now db (check_refund booking db)
