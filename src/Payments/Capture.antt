-- ===== src/Payments/Capture.antt =====
-- services/payment-attempt.service.ts: what happens to a payment that the gateway has captured
-- (finalizeSuccessfulPayment, refundCapturedAttempt). The locks order the transactions, so what is
-- read before the transaction is read in it.
pub mod Finalize
pub mod Rows
use servicehub_backend.Base.{
  ℕ, Bool, true, false, not, ◌&&◌, ◌||◌, Option, none, some, leb, ◌==◌, if◌then◌else◌, refers,
  same_key, is_some, find, count,
}
use servicehub_backend.Schema.{
  Db, User, Booking, Offer, ServiceRequest, Service, PaymentAttempt, AttemptStatus, PaymentMethod,
  is_listed, is_active_booking, is_pending_payment, is_payment_pending, is_cash, find_user,
  find_service, find_offer, find_request, update_attempt,
}
use servicehub_backend.Policy.Accounts.{can_take_work, marketplace_participants_eligible}
use servicehub_backend.Policy.Membership.{subscription_benefits}
use servicehub_backend.Queue.{waits_for}
use servicehub_backend.Payments.{release_offer_hold}

-- The metadata that the gateway returns with a payment; a missing entry is `none`.
pub record Metadata : Type 0 where
  pub attempt_id : Option ℕ
  pub seeker_id : Option ℕ
  pub service_id : Option ℕ
  pub offer_id : Option ℕ
  pub expected_amount : Option ℕ
  pub payment_method : Option PaymentMethod

pub record Captured : Type 0 where
  pub intent_id : ℕ
  pub payment_id : Option ℕ
  pub amount : ℕ
  pub is_php : Bool
  pub metadata : Metadata

pub record Finalized : Type 0 where
  pub booking : Option Booking
  pub created : Bool
  pub refund_required : Bool
  pub attempt : Option PaymentAttempt

abbrev pub same_method : Option PaymentMethod → PaymentMethod → Bool
same_method none m = false
same_method (some a) m = (is_cash a && is_cash m) || (not (is_cash a) && not (is_cash m))

-- The amounts are numbers of centavos, so a difference below 0.005 pesos is none.
abbrev pub metadata_valid : Captured → PaymentAttempt → Bool
metadata_valid p a =
    p.is_php
    && p.amount == a.amount
    && refers p.metadata.attempt_id a.id
    && refers p.metadata.seeker_id a.seeker_id
    && same_key p.metadata.service_id a.service_id
    && same_key p.metadata.offer_id a.offer_id
    && refers p.metadata.expected_amount a.amount
    && same_method p.metadata.payment_method a.payment_method

-- `findUnique({ where: { paymentAttemptId } })`
abbrev pub booking_of_attempt : ℕ → Db → Option Booking
booking_of_attempt attempt db = find (λ b. refers b.payment_attempt_id attempt) db.bookings

-- A booking of the same seeker for the same offer, or else for the same service.
abbrev pub conflicts_with : PaymentAttempt → Booking → Bool
conflicts_with a b =
    b.seeker_id == a.seeker_id
    && (if is_some a.offer_id
        then same_key b.offer_id a.offer_id
        else same_key b.service_id a.service_id)
    && is_active_booking b.status

abbrev pub mark_paid : ℕ → PaymentAttempt → PaymentAttempt
mark_paid now a = if is_some a.paid_at then a else record a { paid_at = some now }

abbrev pub require_refund : Option ℕ → PaymentAttempt → PaymentAttempt
require_refund payment a = record a {
  status = AttemptStatus.refund_required;
  provider_payment_id = payment;
}

abbrev pub refused : Captured → PaymentAttempt → Db → Finalized × Db
refused p a db = (
  record {
    booking = none;
    created = false;
    refund_required = true;
    attempt = some (record a { provider_payment_id = p.payment_id });
  },
  update_attempt a.id (require_refund p.payment_id) db,
)

abbrev pub refused_and_released : Captured → PaymentAttempt → Db → Finalized × Db
refused_and_released p a db =
    let (answer, d) = refused p a db in (answer, release_offer_hold a.offer_id d)

-- The listing of an attempt that is for no offer.
abbrev pub attempt_listing : PaymentAttempt → Db → Option Service
attempt_listing a db =
    if is_some a.offer_id
    then none
    else elim a.service_id [ none ↦ none | some id ↦ find_service id db ]

abbrev pub listing_unavailable : PaymentAttempt → Option Service → Bool
listing_unavailable a none = not (is_some a.offer_id)
listing_unavailable a (some s) =
    not (s.provider_id == a.provider_id) || not (is_listed s.status) || not s.is_available

abbrev pub provider_unavailable : PaymentAttempt → ℕ → Db → Option User → Bool
provider_unavailable a now db none = true
provider_unavailable a now db (some u) =
    not (subscription_benefits u.membership now).marketplace_access
    || not (can_take_work u)
    || leb u.online_queue_limit (count (waits_for a.provider_id) db.queue)

unfoldable pub cannot_book : PaymentAttempt → ℕ → Db → Bool
cannot_book a now db =
    listing_unavailable a (attempt_listing a db)
    || not (marketplace_participants_eligible a.seeker_id a.provider_id db.users)
    || provider_unavailable a now db (find_user a.provider_id db)
    || is_some (find (conflicts_with a) db.bookings)

abbrev pub holds : PaymentAttempt → Offer → ServiceRequest → Bool
holds a o r =
    o.provider_id == a.provider_id
    && same_key o.service_id a.service_id
    && r.seeker_id == a.seeker_id
    && is_pending_payment o.status
    && is_payment_pending r.status
    && is_some o.payment_hold_expires_at

-- The offer that the attempt holds, if the hold is still valid.
abbrev pub held_offer : PaymentAttempt → ℕ → Db → Option Offer
held_offer a offer db = elim (find_offer offer db) [
  | none ↦ none
  | some o ↦ elim (find_request o.request_id db) [
    | none ↦ none
    | some r ↦ if holds a o r then some o else none
  ]
]
