-- ===== src/Payments/Prepare.antt =====
-- services/payment-attempt.service.ts: the transaction of initiateOnlinePayment that prepares an
-- attempt, with the hold on the offer that it pays for.
pub mod Create
use servicehub_backend.Base.{
  ℕ, Bool, true, false, not, ◌&&◌, ◌||◌, Option, none, some, List, [], ◌∷◌, ltb, ◌==◌,
  if◌then◌else◌, same_key, is_some, or_else, Code, Result, ok, err, ◌>>=◌, ◌>>◌, http, require,
  reject, found,
}
use servicehub_backend.Base.Int.{ℤ, eq_ℤ}
use servicehub_backend.Schema.{
  Db, PaymentAttempt, Text, JobLocation, BookingLocationMode, AttemptStatus, find_service,
  find_offer,
}
use servicehub_backend.Policy.Arrangement.{parse_location, same_mode}
use servicehub_backend.Payments.{attempt_of, is_pending_attempt, may_retry, end_attempt}

pub record PaymentParams : Type 0 where
  pub seeker_id : ℕ
  pub service_id : Option ℕ
  pub offer_id : Option ℕ
  pub quantity : Option ℕ
  pub job_location : Option JobLocation
  pub service_location_mode : Option BookingLocationMode
  pub retry_payment_intent_id : Option ℕ

-- Whom and what the payment is for: of an offer its own provider and listing.
pub record Target : Type 0 where
  pub provider_id : ℕ
  pub service_id : Option ℕ
  pub offer_id : Option ℕ
  pub quantity : ℕ

-- `!params.offerId && previous.serviceId !== params.serviceId`
abbrev pub is_previous : PaymentParams → PaymentAttempt → Bool
is_previous p a =
    a.seeker_id == p.seeker_id
    && same_key a.offer_id p.offer_id
    && (is_some p.offer_id || same_key a.service_id p.service_id)

abbrev pub or_visit : Option BookingLocationMode → BookingLocationMode
or_visit mode = or_else mode BookingLocationMode.provider_visits

abbrev pub keep_location : PaymentParams → PaymentAttempt → Result PaymentParams
keep_location p a = if is_some p.job_location then ok p else elim a.job_location [
  | none ↦ ok p
  | some l ↦ parse_location l >>= λ parsed. ok (record p { job_location = some parsed })
]

abbrev pub keep_mode : PaymentAttempt → PaymentParams → PaymentParams
keep_mode a p =
    if is_some p.offer_id || is_some p.service_location_mode
    then p
    else record p { service_location_mode = some (or_visit a.service_location_mode) }

-- A retry takes over what the failed attempt had chosen.
unfoldable pub retry_params : PaymentParams → Db → Result PaymentParams
retry_params p db = elim p.retry_payment_intent_id [
  | none ↦ ok p
  | some intent ↦ found (attempt_of intent db) (http 404 Code.no_code) >>= λ a.
      (require (is_previous p a) (http 404 Code.no_code)
        >> (require (may_retry a.status) (http 409 Code.no_code)
            >> (keep_location p a >>= λ q. ok (keep_mode a q))))
]

abbrev pub target_listing : PaymentParams → Db → Result Target
target_listing p db = elim p.service_id [
  | none ↦ err (http 400 Code.no_code)
  | some id ↦ found (find_service id db) (http 404 Code.no_code) >>= λ s. ok (record {
    provider_id = s.provider_id;
    service_id = some id;
    offer_id = none;
    quantity = or_else p.quantity 1;
  })
]

abbrev pub target_of : PaymentParams → Db → Result Target
target_of p db = elim p.offer_id [
  | none ↦ target_listing p db
  | some id ↦ found (find_offer id db) (http 404 Code.no_code) >>= λ o. ok (record {
    provider_id = o.provider_id;
    service_id = o.service_id;
    offer_id = some id;
    quantity = or_else p.quantity 1;
  })
]

unfoldable pub payment_target : PaymentParams → Db → Result Target
payment_target p db = do
  t ← target_of p db
  reject (ltb t.quantity 1 || ltb 40 t.quantity || is_some p.offer_id && not (t.quantity == 1))
      (http 400 Code.no_code)
  ok t

abbrev pub pays_for : PaymentParams → Target → PaymentAttempt → Bool
pays_for p t a =
    a.seeker_id == p.seeker_id
    && same_key a.service_id t.service_id
    && same_key a.offer_id t.offer_id

unfoldable pub expire_all : List PaymentAttempt → Db → Db
expire_all [] db = db
expire_all (a ∷ as') db = expire_all as' (end_attempt AttemptStatus.expired a db)

-- `status: "PENDING", expiresAt: { gt: now }`
abbrev pub is_live_attempt : ℕ → PaymentAttempt → Bool
is_live_attempt now a = is_pending_attempt a.status && ltb now a.expires_at

abbrev pub same_text : Text → Text → Bool
same_text a b = a.content == b.content

abbrev pub same_address : Option Text → Option Text → Bool
same_address none none = true
same_address (some a) (some b) = same_text a b
same_address _ _ = false

abbrev pub same_coordinate : Option ℤ → Option ℤ → Bool
same_coordinate none none = true
same_coordinate (some a) (some b) = eq_ℤ a b
same_coordinate _ _ = false

-- `JSON.stringify(a) === JSON.stringify(b)`
abbrev pub same_location : JobLocation → JobLocation → Bool
same_location a b =
    same_coordinate a.latitude b.latitude
    && same_coordinate a.longitude b.longitude
    && same_text a.label b.label
    && same_address a.address b.address

abbrev pub check_location : Option JobLocation → Option JobLocation → Result (Unit {0})
check_location none stored = ok tt
check_location (some l) none = err (http 409 Code.no_code)
check_location (some l) (some stored) = parse_location stored >>= λ a.
    parse_location l >>= λ b. require (same_location a b) (http 409 Code.no_code)

abbrev pub other_mode : PaymentParams → PaymentAttempt → Bool
other_mode p a = elim p.service_location_mode [
  | none ↦ false
  | some mode ↦ not (is_some p.offer_id) && not (same_mode mode (or_visit a.service_location_mode))
]

-- A payment that is pending already is used again only for the same job.
unfoldable pub check_reuse : PaymentParams → Target → PaymentAttempt → Result (Unit {0})
check_reuse p t a = do
  reject (other_mode p a) (http 409 Code.no_code)
  check_location p.job_location a.job_location
  require (a.quantity == t.quantity) (http 409 Code.no_code)
