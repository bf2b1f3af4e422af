-- ===== src/Payments.antt =====
-- services/payment-attempt.service.ts: the attempts to pay online for a listing or an offer. Here
-- the hold that an attempt puts on an offer, and how an attempt fails or runs out of time.
pub mod Prepare
pub mod Capture
pub mod Gateway
pub mod Kept
pub mod Captured
pub mod Checkout
pub mod Undecided
pub mod Settled
pub mod Holds
pub mod Expiry
pub mod Decay
pub mod Returns
pub mod Calls
pub mod Booked
pub mod Finalized
pub mod Keys
pub mod Failing
pub mod Ending
use servicehub_backend.Base.{
  ℕ, zero, suc, ◌+◌, Bool, true, false, not, ◌&&◌, ◌||◌, Option, none, some, List, [], ◌∷◌, ltb,
  leb, ◌==◌, if◌then◌else◌, refers, find, select, update,
}
use servicehub_backend.Schema.{
  Db, Offer, ServiceRequest, PaymentAttempt, OfferStatus, RequestStatus, AttemptStatus,
  is_pending_payment, is_payment_pending, find_offer, find_attempt, update_offer, update_attempt,
}

-- 15 * 60 * 1000
abbrev pub attempt_ttl_ms : ℕ
attempt_ttl_ms = 900000

abbrev pub is_pending_attempt : AttemptStatus → Bool
is_pending_attempt AttemptStatus.pending = true
is_pending_attempt _ = false

abbrev pub is_succeeded_attempt : AttemptStatus → Bool
is_succeeded_attempt AttemptStatus.succeeded = true
is_succeeded_attempt _ = false

abbrev pub is_refund_required : AttemptStatus → Bool
is_refund_required AttemptStatus.refund_required = true
is_refund_required _ = false

abbrev pub is_refunded_attempt : AttemptStatus → Bool
is_refunded_attempt AttemptStatus.refunded = true
is_refunded_attempt _ = false

-- ["FAILED", "EXPIRED"]
abbrev pub may_retry : AttemptStatus → Bool
may_retry AttemptStatus.failed = true
may_retry AttemptStatus.expired = true
may_retry _ = false

abbrev pub free_offer : Offer → Offer
free_offer o = record o { status = OfferStatus.pending; payment_hold_expires_at = none }

abbrev pub reopen : ServiceRequest → ServiceRequest
reopen r = record r { status = RequestStatus.open_ }

abbrev pub awaits_payment : ℕ → ServiceRequest → Bool
awaits_payment request r = r.id == request && is_payment_pending r.status

unfoldable pub release_offer_hold : Option ℕ → Db → Db
release_offer_hold none db = db
release_offer_hold (some offer) db = elim (find_offer offer db) [
  | none ↦ db
  | some o ↦
      if not (is_pending_payment o.status)
      then db
      else (let freed = update_offer offer free_offer db in
          record freed { requests = update (awaits_payment o.request_id) reopen freed.requests })
]

abbrev pub set_attempt : AttemptStatus → PaymentAttempt → PaymentAttempt
set_attempt status a = record a { status = status }

-- `findUnique({ where: { providerIntentId } })`
abbrev pub attempt_of : ℕ → Db → Option PaymentAttempt
attempt_of intent db = find (λ a. refers a.provider_intent_id intent) db.attempts

-- A pending attempt ends, and its hold with it.
abbrev pub end_attempt : AttemptStatus → PaymentAttempt → Db → Db
end_attempt status a db =
    release_offer_hold a.offer_id (update_attempt a.id (set_attempt status) db)

unfoldable pub mark_payment_attempt_failed : ℕ → Db → Db
mark_payment_attempt_failed intent db = elim (attempt_of intent db) [
  | none ↦ db
  | some a ↦ if not (is_pending_attempt a.status) then db else end_attempt AttemptStatus.failed a db
]

-- `status: "PENDING", expiresAt: { lte: now }`
abbrev pub is_stale : ℕ → PaymentAttempt → Bool
is_stale now a = is_pending_attempt a.status && leb a.expires_at now

-- One round: the attempt is read again in a transaction of its own.
unfoldable pub expire_attempt : ℕ → ℕ → Db → Bool × Db
expire_attempt id now db = elim (find_attempt id db) [
  | none ↦ (false, db)
  | some a ↦
      if not (is_pending_attempt a.status) || ltb now a.expires_at
      then (false, db)
      else (true, end_attempt AttemptStatus.expired a db)
]

unfoldable pub expire_each : List PaymentAttempt → ℕ → ℕ → Db → ℕ × Db
expire_each [] now expired db = (expired, db)
expire_each (a ∷ as') now expired db =
    let (changed, d) = expire_attempt a.id now db in
    expire_each as' now (if changed then expired + 1 else expired) d

-- `take: n`
abbrev pub take {ℓ} : {A : Type ℓ} → ℕ → List A → List A
take zero xs = []
take (suc n) [] = []
take (suc n) (x ∷ xs) = x ∷ take n xs

-- The number of attempts that ran out, and the database.
unfoldable pub expire_stale_payment_attempts : ℕ → Db → ℕ × Db
expire_stale_payment_attempts now db =
    expire_each (take 100 (select (is_stale now) db.attempts)) now 0 db
