-- ===== src/Payments/Gateway.antt =====
-- services/payment-attempt.service.ts: how an attempt is handed to the payment gateway, and how its
-- answer is read back (initiateOnlinePayment, getPaymentAttemptStatus, reconcileOnlinePaymentReturn).
-- The gateway is the client of services/paymongo.service.ts, as a record of functions.
use servicehub_backend.Base.{
  ℕ, zero, suc, Bool, true, false, not, ◌&&◌, ◌||◌, Option, none, some, ◌==◌, if◌then◌else◌, refers,
  Code, Result, ok, err, ◌>>=◌, ◌>>◌, http, found, find,
}
use servicehub_backend.Schema.{Db, PaymentAttempt, AttemptStatus, find_attempt, update_attempt}
use servicehub_backend.Refunds.{GatewayRefund}
use servicehub_backend.Payments.{
  is_pending_attempt, is_succeeded_attempt, may_retry, set_attempt, release_offer_hold,
  mark_payment_attempt_failed,
}
use servicehub_backend.Payments.Prepare.{PaymentParams, retry_params, payment_target}
use servicehub_backend.Payments.Prepare.Create.{prepare_attempt}
use servicehub_backend.Payments.Capture.{Metadata, Captured, Finalized}
use servicehub_backend.Payments.Capture.Finalize.{
  finalize_successful_payment, refund_captured_attempt,
}

-- "succeeded"; one of "awaiting_payment_method", "failed", "canceled", "cancelled" and "expired";
-- any other status.
pub data IntentStatus : Type 0 where
  succeeded unpaid_ended open_ : IntentStatus

pub record PaymentIntent : Type 0 where
  pub id : ℕ
  pub status : IntentStatus
  pub payment_id : Option ℕ
  pub amount : ℕ
  pub is_php : Bool
  pub metadata : Metadata

pub record Gateway : Type 0 where
  -- the id of the new intent
  pub create_payment_intent : PaymentAttempt → Result ℕ
  pub create_payment_method : Result ℕ
  -- the address to send the seeker to, for an intent and a method
  pub attach_payment_method : ℕ → ℕ → Result (Option ℕ)
  pub get_payment_intent : ℕ → Result PaymentIntent
  pub create_refund : ℕ → ℕ → ℕ → Result GatewayRefund

unfoldable pub get_payment_attempt_status : ℕ → ℕ → Db → Result PaymentAttempt
get_payment_attempt_status seeker intent db =
    found (find (λ a. a.seeker_id == seeker && refers a.provider_intent_id intent) db.attempts)
      (http 404 Code.no_code)

abbrev pub capture_of : PaymentIntent → Captured
capture_of i = record {
  intent_id = i.id;
  payment_id = i.payment_id;
  amount = i.amount;
  is_php = i.is_php;
  metadata = i.metadata;
}

-- ["PENDING", "EXPIRED", "FAILED"]
abbrev pub is_undecided : AttemptStatus → Bool
is_undecided s = is_pending_attempt s || may_retry s

abbrev pub dropped {ℓ} : {A : Type ℓ} → Result A → Result (Unit {0})
dropped (ok _) = ok tt
dropped (err e) = err e

abbrev pub id_if_refund : Finalized → Option ℕ
id_if_refund f =
    if f.refund_required then elim f.attempt [ none ↦ none | some a ↦ some a.id ] else none

-- A captured payment that could not become a booking goes back at once.
abbrev pub finalized_here : Gateway → Db → Result (Finalized × Db) → Db × Result (Unit {0})
finalized_here g db (err e) = (db, err e)
finalized_here g db (ok (f, d)) = elim (id_if_refund f) [
  | none ↦ (d, ok tt)
  | some a ↦
      let (after, answer) = refund_captured_attempt g.create_refund a d in (after, dropped answer)
]

abbrev pub intent_read : Gateway → ℕ → ℕ → Db → Result PaymentIntent → Db × Result (Unit {0})
intent_read g intent now db (err e) = (db, err e)
intent_read g intent now db (ok i) =
    if not (i.id == intent) then (db, err (http 409 Code.payment_mismatch)) else elim i.status [
      | IntentStatus.succeeded ↦
          finalized_here g db (finalize_successful_payment (capture_of i) now db)
      | IntentStatus.unpaid_ended ↦ (mark_payment_attempt_failed intent db, ok tt)
      | IntentStatus.open_ ↦ (db, ok tt)
    ]

abbrev pub reconcile_attempt : Gateway → ℕ → ℕ → Db → Result PaymentAttempt → Db × Result (Unit {0})
reconcile_attempt g intent now db (err e) = (db, err e)
reconcile_attempt g intent now db (ok a) =
    if is_undecided a.status
    then intent_read g intent now db (g.get_payment_intent intent)
    else (db, ok tt)

-- The database that is left, and the attempt as it then is.
unfoldable pub reconcile_online_payment_return :
    Gateway → ℕ → ℕ → ℕ → Db → Db × Result PaymentAttempt
reconcile_online_payment_return g seeker intent now db =
    let (d, done) =
      reconcile_attempt g intent now db (get_payment_attempt_status seeker intent db) in
    (d, done >> get_payment_attempt_status seeker intent d)

abbrev pub checkout : Gateway → PaymentAttempt → Result (ℕ × Option ℕ)
checkout g a = do
  intent ← g.create_payment_intent a
  method ← g.create_payment_method
  url ← g.attach_payment_method intent method
  ok (intent, url)

-- The attempt gets its intent, or fails and gives up its hold; the error is thrown again.
unfoldable pub submit_attempt :
    PaymentAttempt → Db → Result (ℕ × Option ℕ) → Db × Result PaymentAttempt
submit_attempt a db (ok (intent, url)) =
    let d =
      update_attempt a.id (λ x. record x { provider_intent_id = some intent; redirect_url = url })
        db in
    (d, found (find_attempt a.id d) (http 500 Code.no_code))
submit_attempt a db (err e) = (
  release_offer_hold a.offer_id (update_attempt a.id (set_attempt AttemptStatus.failed) db),
  err e,
)

-- What an attempt that was pending before leads to: its row, an error, or a new try.
pub data Next : Type 0 where
  answer : Result PaymentAttempt → Next
  again : Next

abbrev pub next_of : PaymentAttempt → Result PaymentAttempt → Next
next_of a (err e) = answer (err e)
next_of a (ok current) =
    if is_pending_attempt current.status
    then answer (ok a)
    else (if is_succeeded_attempt current.status
        then answer (err (http 409 Code.active_booking_exists))
        else (if may_retry current.status
            then again
            else answer (err (http 409 Code.payment_review_required))))

abbrev pub submitted : Gateway → Db → PaymentAttempt → Db × Next
submitted g db a = let (d, r) = submit_attempt a db (checkout g a) in (d, answer r)

-- An attempt that was pending before, by its intent and its address.
abbrev pub reuse :
    Gateway → PaymentParams → ℕ → Db → PaymentAttempt → Option ℕ → Option ℕ → Db × Next
reuse g p now db a (some intent) url =
    let (d, r) = reconcile_online_payment_return g p.seeker_id intent now db in (d, next_of a r)
reuse g p now db a none (some url) = (db, answer (ok a))
reuse g p now db a none none = submitted g db a

-- The part after the first transaction.
abbrev pub prepared : Gateway → PaymentParams → ℕ → Db → PaymentAttempt → Bool → Db × Next
prepared g p now db a false = submitted g db a
prepared g p now db a true = reuse g p now db a a.provider_intent_id a.redirect_url

abbrev pub try_prepared :
    Gateway → PaymentParams → ℕ → Db → Result ((PaymentAttempt × Bool) × Db) → Db × Next
try_prepared g p now db (err e) = (db, answer (err e))
try_prepared g p now db (ok ((a, reused), d)) = prepared g p now d a reused

-- The parameters and the target of a call.
abbrev pub prepare_call : PaymentParams → ℕ → Db → Result ((PaymentAttempt × Bool) × Db)
prepare_call p now db =
    retry_params p db >>= λ q. payment_target q db >>= λ t. prepare_attempt q t now db

-- One call, up to the one that it makes of itself.
unfoldable pub try_online_payment : Gateway → Bool → PaymentParams → ℕ → Db → Db × Next
try_online_payment g configured p now db =
    if configured
    then try_prepared g p now db (prepare_call p now db)
    else (db, answer (err (http 503 Code.payment_not_configured)))

-- `configured` says that the keys of the gateway are set. The calls that the function makes of
-- itself are counted; `none` means that there were more.
unfoldable pub initiate_online_payment :
    ℕ → Gateway → Bool → PaymentParams → ℕ → Db → Db × Option (Result PaymentAttempt)
initiate_online_payment zero g configured p now db = (db, none)
initiate_online_payment (suc calls) g configured p now db =
    let (d, next) = try_online_payment g configured p now db in
    elim next [
      | answer r ↦ (d, some r)
      | again ↦ initiate_online_payment calls g configured p now d
    ]
