-- ===== src/Payments/Prepare/Create.antt =====
-- services/payment-attempt.service.ts, initiateOnlinePayment: the terms of a new attempt, and its
-- row.
use servicehub_backend.Base.{
  ℕ, ◌+◌, Bool, true, false, not, ◌&&◌, ◌||◌, Option, none, some, ltb, leb, ◌==◌, if◌then◌else◌,
  same_key, is_some, Code, Result, ok, err, ◌>>=◌, ◌>>◌, http, require, reject, found, find, select,
  count, insert,
}
use servicehub_backend.Schema.{
  Db, User, Booking, Offer, ServiceRequest, Service, PaymentAttempt, JobLocation,
  BookingLocationMode, OfferStatus, RequestStatus, AttemptStatus, PaymentMethod, is_listed,
  is_active_booking, is_pending_offer, is_open_request, is_cash, find_user, find_service,
  find_offer, find_request, update_offer, update_request, fresh_id,
}
use servicehub_backend.Policy.Accounts.{can_take_work, marketplace_participants_eligible}
use servicehub_backend.Policy.Membership.{subscription_benefits}
use servicehub_backend.Policy.Commission.{CommissionTerms, payment_commission}
use servicehub_backend.Policy.Pricing.{calculate_direct_listing_terms}
use servicehub_backend.Policy.Requests.{assert_request_payment_method}
use servicehub_backend.Policy.Arrangement.{resolve_direct_arrangement, offer_job_location}
use servicehub_backend.Providers.{assert_new_provider_business}
use servicehub_backend.Queue.{waits_for}
use servicehub_backend.Payments.{attempt_ttl_ms, is_stale}
use servicehub_backend.Payments.Prepare.{
  PaymentParams, Target, or_visit, pays_for, expire_all, is_live_attempt, check_reuse,
}

-- What the attempt will charge for.
pub record Terms : Type 0 where
  pub amount : ℕ
  pub minutes : ℕ
  pub location : Option JobLocation
  pub mode : BookingLocationMode
  pub transportation_fee : Option ℕ

unfoldable pub listing_terms : PaymentParams → Target → Service → Result Terms
listing_terms p t s = do
  a ← resolve_direct_arrangement s p.service_location_mode p.job_location
  d ←
      calculate_direct_listing_terms s.price_type s.price t.quantity s.estimated_duration_mins
        a.transportation_fee
  reject (not (is_listed s.status) || not s.is_available) (http 409 Code.no_code)
  ok (record {
    amount = d.amount;
    minutes = d.estimated_duration_mins;
    location = a.location;
    mode = a.mode;
    transportation_fee = a.transportation_fee;
  })

abbrev pub repeats : PaymentParams → Target → Booking → Bool
repeats p t b =
    b.seeker_id == p.seeker_id
    && (if is_some t.offer_id
        then same_key b.offer_id t.offer_id
        else same_key b.service_id t.service_id)
    && is_active_booking b.status

-- The checks of the provider's account and work that both kinds of payment make, with the check
-- of the listing's payment methods in its place.
unfoldable pub check_provider : PaymentParams → Target → Option Service → Db → Result User
check_provider p t s db = do
  u ← found (find_user t.provider_id db) (http 409 Code.provider_unavailable)
  require (can_take_work u) (http 409 Code.provider_unavailable)
  reject (is_some (find (repeats p t) db.bookings)) (http 409 Code.active_booking_exists)
  reject (elim s [ none ↦ false | some x ↦ not x.accepts_gcash ]) (http 400 Code.no_code)
  reject (leb u.online_queue_limit (count (waits_for t.provider_id) db.queue))
      (http 409 Code.queue_full)
  ok u

abbrev pub check_participants : PaymentParams → Target → Db → Result (Unit {0})
check_participants p t db = do
  require (marketplace_participants_eligible p.seeker_id t.provider_id db.users)
      (http 409 Code.participant_ineligible)
  reject (t.provider_id == p.seeker_id) (http 403 Code.self_transaction_not_allowed)

abbrev pub is_payable : PaymentParams → Target → Offer → ServiceRequest → Bool
is_payable p t o r =
    is_pending_offer o.status
    && is_open_request r.status
    && r.seeker_id == p.seeker_id
    && o.provider_id == t.provider_id
    && same_key o.service_id t.service_id

-- `preferred && preferred !== "GCash"`
abbrev pub prefers_cash : Option PaymentMethod → Bool
prefers_cash none = false
prefers_cash (some m) = is_cash m

abbrev pub listing_takes_gcash : Option ℕ → Db → Bool
listing_takes_gcash none db = false
listing_takes_gcash (some id) db = elim (find_service id db) [
  | none ↦ false
  | some s ↦ s.accepts_gcash
]

abbrev pub check_inquiry : Offer → ServiceRequest → Db → Result (Unit {0})
check_inquiry o r db =
    if not (is_some r.target_service_id)
    then ok tt
    else (reject
          (prefers_cash r.preferred_payment_method
            || not (same_key o.service_id r.target_service_id))
          (http 409 Code.no_code)
        >> require (listing_takes_gcash o.service_id db) (http 409 Code.no_code))

unfoldable pub offer_terms : PaymentParams → Target → Offer → ServiceRequest → Db → Result Terms
offer_terms p t o r db = do
  require (is_payable p t o r) (http 409 Code.offer_not_payable)
  assert_request_payment_method r.payment_methods r.preferred_payment_method PaymentMethod.gcash
  check_inquiry o r db
  location ← offer_job_location o r p.job_location
  ok (record {
    amount = o.offered_price;
    minutes = o.estimated_duration;
    location = location;
    mode = or_visit o.service_location_mode;
    transportation_fee = none;
  })

abbrev pub hold : ℕ → Offer → Offer
hold now o = record o {
  status = OfferStatus.pending_payment;
  payment_hold_expires_at = some (now + attempt_ttl_ms);
}

abbrev pub pause : ServiceRequest → ServiceRequest
pause r = record r { status = RequestStatus.payment_pending }

abbrev pub hold_offer : ℕ → Offer → Db → Db
hold_offer now o db = update_request o.request_id pause (update_offer o.id (hold now) db)

abbrev pub attempt_row : ℕ → PaymentParams → Target → Terms → CommissionTerms → ℕ → PaymentAttempt
attempt_row id p t terms fees now = record {
  id = id;
  seeker_id = p.seeker_id;
  provider_id = t.provider_id;
  service_id = t.service_id;
  quantity = t.quantity;
  offer_id = t.offer_id;
  provider_intent_id = none;
  provider_payment_id = none;
  commission_rate_bps = fees.commission_rate_bps;
  platform_fee_amount = fees.platform_fee_amount;
  provider_net_amount = some fees.provider_net_amount;
  paid_at = none;
  amount = terms.amount;
  estimated_duration_mins = some terms.minutes;
  job_location = terms.location;
  service_location_mode = some terms.mode;
  transportation_fee = terms.transportation_fee;
  payment_method = PaymentMethod.gcash;
  redirect_url = none;
  status = AttemptStatus.pending;
  expires_at = now + attempt_ttl_ms;
}

-- The attempt and the database.
unfoldable pub create_attempt :
    PaymentParams → Target → Terms → User → ℕ → Db → Result (PaymentAttempt × Db)
create_attempt p t terms u now db = do
  reject (ltb terms.amount 5000 || ltb 5000000 terms.amount) (http 400 Code.no_code)
  fees ←
      payment_commission terms.amount
        (subscription_benefits u.membership now).terms.commission_rate_bps
  let a = attempt_row db.next_id p t terms fees now
  ok (a, fresh_id (record db { attempts = insert a db.attempts }))

unfoldable pub prepare_listing : PaymentParams → Target → ℕ → ℕ → Db → Result (PaymentAttempt × Db)
prepare_listing p t service now db = do
  s ← found (find_service service db) (http 404 Code.no_code)
  require (s.provider_id == t.provider_id) (http 409 Code.no_code)
  check_participants p t db
  terms ← listing_terms p t s
  u ← check_provider p t (some s) db
  create_attempt p t terms u now db

unfoldable pub prepare_offer : PaymentParams → Target → ℕ → ℕ → Db → Result (PaymentAttempt × Db)
prepare_offer p t offer now db = do
  check_participants p t db
  u ← check_provider p t none db
  o ← found (find_offer offer db) (http 409 Code.offer_not_payable)
  r ← found (find_request o.request_id db) (http 409 Code.offer_not_payable)
  terms ← offer_terms p t o r db
  create_attempt p t terms u now (hold_offer now o db)

unfoldable pub prepare_new : PaymentParams → Target → ℕ → Db → Result (PaymentAttempt × Db)
prepare_new p t now db = elim t.offer_id [
  | some offer ↦ prepare_offer p t offer now db
  | none ↦ elim t.service_id [
    | none ↦ err (http 404 Code.no_code)
    | some service ↦ prepare_listing p t service now db
  ]
]

-- The attempt, whether it was there before, and the database.
unfoldable pub prepare_attempt :
    PaymentParams → Target → ℕ → Db → Result ((PaymentAttempt × Bool) × Db)
prepare_attempt p t now db = do
  d ← assert_new_provider_business t.provider_id now db
  let e = expire_all (select (λ a. pays_for p t a && is_stale now a) d.attempts) d
  elim (find (λ a. pays_for p t a && is_live_attempt now a) e.attempts) [
    | some a ↦ check_reuse p t a >> ok ((a, true), e)
    | none ↦ prepare_new p t now e >>= λ r. ok ((r.0, false), r.1)
  ]
