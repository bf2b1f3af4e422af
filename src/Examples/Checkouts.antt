-- ===== src/Examples/Checkouts.antt =====
-- Calls of the checkout, the sweep of attempts, and the booking of a captured payment.
use servicehub_backend.Base.{
  count, Result, ℕ, ◌≤◌, ◌≡◌, refl, true, none, some, [], ◌∷◌, arith, ◌==◌, Code, ok, err, http,
  count,
}
use servicehub_backend.Schema.{Db, PaymentAttempt}
use servicehub_backend.Policy.Accounts.{
  assert_distinct_accounts, assert_offer_participant, assert_offer_target,
  assert_active_marketplace_account, marketplace_participants_eligible, get_user_permissions,
}
use servicehub_backend.Policy.Requests.{get_request_payment_methods, assert_request_payment_method}
use servicehub_backend.Policy.Membership.{subscription_benefits, assert_membership_access}
use servicehub_backend.Policy.Commission.{platform_fee, payment_commission}
use servicehub_backend.Policy.Arrangement.{
  resolve_visit_mode, resolve_offer_arrangement, offer_job_location, requested_location,
}
use servicehub_backend.Providers.{assert_new_provider_business, ensure_provider_trial}
use servicehub_backend.Offers.{submit_offer}
use servicehub_backend.Offers.Selected.{IsSelectedOnce}
use servicehub_backend.Offers.Submitted.{submit_offer-IsSelectedOnce}
use servicehub_backend.Payments.Prepare.{PaymentParams, expire_all}
use servicehub_backend.Payments.Prepare.Create.{
  offer_terms, check_provider, create_attempt, prepare_offer, prepare_new, prepare_attempt,
}
use servicehub_backend.Payments.Gateway.{submit_attempt}
use servicehub_backend.Payments.{is_stale, expire_stale_payment_attempts}
use servicehub_backend.Payments.Expiry.{expire_stale_payment_attempts_all}
use servicehub_backend.Payments.Checkout.{initiate_online_payment-IsSelectedOnce}
use servicehub_backend.Payments.Gateway.{Gateway, initiate_online_payment}
use servicehub_backend.Schema.{AttemptStatus}
use servicehub_backend.Payments.Calls.{HasUniqueIntents}
use servicehub_backend.Payments.Ending.{initiate_online_payment_ends}
use servicehub_backend.Payments.{mark_payment_attempt_failed, release_offer_hold}
use servicehub_backend.Payments.Prepare.{retry_params, payment_target, check_reuse}
use servicehub_backend.Payments.Prepare.Create.{prepare_listing, listing_terms}
use servicehub_backend.Payments.Gateway.{
  IntentStatus, try_online_payment, reconcile_online_payment_return, get_payment_attempt_status,
}
use servicehub_backend.Policy.Arrangement.{resolve_direct_arrangement}
use servicehub_backend.Policy.Pricing.{calculate_direct_listing_terms}
use servicehub_backend.Payments.Booked.{IsBookedOnce, finalize_successful_payment-IsBookedOnce}
use servicehub_backend.Examples.Data.{members, the_attempt}
use servicehub_backend.Examples.Offers.{
  market, market-IsSelectedOnce, offered, with_offer, with_offer_ok,
}
use servicehub_backend.Examples.Payments.{paying, paid_up, captured, taken, taken_ok}

-- Every intent that it creates has the id 30.
abbrev gateway : Gateway
gateway = record {
  create_payment_intent = λ a. ok 30;
  create_payment_method = ok 32;
  attach_payment_method = λ intent method. ok (some 1);
  get_payment_intent = λ intent. err (http 404 Code.no_code);
  create_refund = λ a b c. err (http 502 Code.no_code);
}

initiate_online_payment-IsSelectedOnce_example :
    IsSelectedOnce (initiate_online_payment 1 gateway true paying 200 with_offer.1).0
initiate_online_payment-IsSelectedOnce_example =
    initiate_online_payment-IsSelectedOnce 1 gateway true paying 200 with_offer.1 (
      submit_offer-IsSelectedOnce 2 offered 100 market with_offer.1 with_offer.0
        market-IsSelectedOnce with_offer_ok)

abbrev two_attempts : Db
two_attempts = record members {
  attempts =
      record the_attempt { status = AttemptStatus.pending }
      ∷ record the_attempt { id = 6; status = AttemptStatus.pending; provider_intent_id = none }
      ∷ [];
}

two_unique : (id : ℕ) → count (λ (a : PaymentAttempt). a.id == id) two_attempts.attempts ≤ 1
two_unique id = ground arith

expire_stale_payment_attempts_all_example :
    count (is_stale 1000000) (expire_stale_payment_attempts 1000000 two_attempts).1.attempts ≡ 0
expire_stale_payment_attempts_all_example =
    expire_stale_payment_attempts_all 1000000 two_attempts two_unique (omega arith)

-- A checkout of the listing was left, and its intent has ended: the call starts over once.
abbrev left_checkout : Db
left_checkout = record members {
  attempts = record the_attempt { status = AttemptStatus.pending } ∷ [];
}

abbrev ended_gateway : Gateway
ended_gateway = record gateway {
  get_payment_intent = λ intent. ok (record {
    id = intent;
    status = IntentStatus.unpaid_ended;
    payment_id = none;
    amount = 10000;
    is_php = true;
    metadata = captured.metadata;
  });
}

abbrev for_listing : PaymentParams
for_listing = record paying { service_id = some 4; offer_id = none }

left_unique : HasUniqueIntents left_checkout
left_unique intent = ground arith

initiate_online_payment_ends_example :
    (r : Result PaymentAttempt) × ((initiate_online_payment 2 ended_gateway true for_listing 200
        left_checkout).1
      ≡ some r)
initiate_online_payment_ends_example =
    initiate_online_payment_ends 2 ended_gateway true for_listing 200 left_checkout left_unique
      (omega arith)

-- Two calls are needed there, and give a new attempt.
starts_over :
    ((initiate_online_payment 1 ended_gateway true for_listing 200 left_checkout).1 ≡ none)
    × (count
          (λ (a : PaymentAttempt). a.seeker_id == 3)
          (initiate_online_payment 2 ended_gateway true for_listing 200 left_checkout).0.attempts
        ≡ 2)
unfolding initiate_online_payment try_online_payment retry_params payment_target prepare_attempt
    expire_all check_reuse prepare_new prepare_listing listing_terms resolve_direct_arrangement
    resolve_visit_mode calculate_direct_listing_terms check_provider create_attempt
    payment_commission platform_fee subscription_benefits marketplace_participants_eligible
    assert_new_provider_business ensure_provider_trial assert_membership_access
    assert_active_marketplace_account reconcile_online_payment_return get_payment_attempt_status
    mark_payment_attempt_failed release_offer_hold submit_attempt
starts_over = (refl, refl)

no_bookings : (db : Db) → db.bookings ≡ [] → IsBookedOnce db
no_bookings db h = record {
  once = λ x. ground (arith, h);
  paid = λ x k. absurd (ground (arith, h, k));
}

unbooked : paid_up.bookings ≡ []
unfolding submit_attempt prepare_attempt expire_all prepare_new prepare_offer
    marketplace_participants_eligible check_provider offer_terms get_request_payment_methods
    assert_request_payment_method offer_job_location requested_location create_attempt
    payment_commission platform_fee subscription_benefits submit_offer assert_distinct_accounts
    assert_offer_participant get_user_permissions assert_active_marketplace_account
    assert_new_provider_business ensure_provider_trial assert_membership_access assert_offer_target
    resolve_offer_arrangement resolve_visit_mode
unbooked = refl

finalize_successful_payment-IsBookedOnce_example : IsBookedOnce taken.1
finalize_successful_payment-IsBookedOnce_example =
    finalize_successful_payment-IsBookedOnce captured 300 paid_up taken.1 taken.0
      (no_bookings paid_up unbooked) taken_ok
