-- ===== src/Examples/Offers.antt =====
-- A request 10 of the seeker, the offer 20 of the provider on it, which is held by the payment
-- attempt 22, and the payment that the gateway captures for it.
use servicehub_backend.Base.{
  ℕ, ◌≡◌, refl, true, none, some, [], ◌∷◌, arith, ok, value_of, ok_value, count,
}
use servicehub_backend.Schema.{
  Db, Offer, ServiceRequest, RequestStatus, ServiceLocationMode, is_pending_offer, is_open_request,
  find_offer, find_request, empty_db,
}
use servicehub_backend.Policy.Accounts.{
  assert_distinct_accounts, assert_offer_participant, assert_offer_target,
  assert_active_marketplace_account, get_user_permissions,
}
use servicehub_backend.Policy.Membership.{subscription_benefits, assert_membership_access}
use servicehub_backend.Policy.Arrangement.{resolve_visit_mode, resolve_offer_arrangement}
use servicehub_backend.Providers.{assert_new_provider_business, ensure_provider_trial}
use servicehub_backend.Offers.{OfferParams, is_live_offer, submit_offer}
use servicehub_backend.Offers.Selected.{IsSelectedOnce}
use servicehub_backend.Offers.Submitted.{submit_offer_single}
use servicehub_backend.Examples.Data.{members, nowhere}

abbrev pub the_request : ServiceRequest
the_request = record {
  id = 10;
  seeker_id = 3;
  target_provider_id = none;
  target_service_id = none;
  preferred_payment_method = none;
  payment_methods = none;
  category_id = 1;
  site = nowhere;
  private_address = none;
  service_location_mode = ServiceLocationMode.remote;
  status = RequestStatus.open_;
}

abbrev pub market : Db
market = record members { requests = the_request ∷ []; attempts = [] }

pub market-IsSelectedOnce : IsSelectedOnce market
market-IsSelectedOnce = record {
  once = λ x. ground arith;
  free = λ x h. ground arith;
  unique = λ x. ground arith;
  fresh = λ x h. ground arith;
}

abbrev pub offered : OfferParams
offered = record {
  request_id = 10;
  service_id = some 4;
  offered_price = 10000;
  estimated_duration = 90;
  message = none;
  service_location_mode = none;
  provider_venue = none;
}

abbrev pub with_offer : ℕ × Db
with_offer = value_of (0, empty_db) (submit_offer 2 offered 100 market)

pub with_offer_ok : submit_offer 2 offered 100 market ≡ ok with_offer
unfolding submit_offer assert_distinct_accounts assert_offer_participant get_user_permissions
    assert_active_marketplace_account assert_new_provider_business ensure_provider_trial
    subscription_benefits assert_membership_access assert_offer_target resolve_offer_arrangement
    resolve_visit_mode
with_offer_ok = ok_value (0, empty_db) (submit_offer 2 offered 100 market) refl

submit_offer_single_example :
    (count (is_live_offer 10 2) market.offers ≡ 0)
    × (count (is_live_offer 10 2) with_offer.1.offers ≡ 1)
    × ((r : ServiceRequest) × (find_request 10 market ≡ some r) × (is_open_request r.status ≡ true))
    × ((o : Offer) × (find_offer with_offer.0 with_offer.1 ≡ some o)
        × (is_pending_offer o.status ≡ true)
        × (o.offered_price ≡ 10000))
submit_offer_single_example =
    submit_offer_single 2 offered 100 market with_offer.1 with_offer.0 market-IsSelectedOnce.fresh
      with_offer_ok
