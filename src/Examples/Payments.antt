-- ===== src/Examples/Payments.antt =====
-- The offer 20 is held by a payment attempt, and the gateway captures a payment for it or refuses
-- the checkout.
use servicehub_backend.Base.{
  count, ℕ, ◌≤◌, ◌≡◌, refl, sym, ap, ◌∙◌, subst, ◌↔◌, ◌⊎◌, Bool, true, false, none, some, [], ◌∷◌,
  arith, ◌==◌, Code, ok, err, http, is_ok, value_of, ok_value, find, count,
}
use servicehub_backend.Schema.{
  is_pending_payment, is_pending_offer, Db, Offer, ServiceRequest, PaymentAttempt,
  BookingLocationMode, PaymentMethod, BookingStatus, PaymentStatus, update_attempt, find_offer,
  empty_db,
}
use servicehub_backend.Policy.Accounts.{
  assert_distinct_accounts, assert_offer_participant, assert_offer_target,
  assert_active_marketplace_account, marketplace_participants_eligible, get_user_permissions,
}
use servicehub_backend.Policy.Requests.{get_request_payment_methods, assert_request_payment_method}
use servicehub_backend.Policy.Membership.{subscription_benefits, assert_membership_access}
use servicehub_backend.Policy.Commission.{platform_fee, payment_commission}
use servicehub_backend.Policy.Arrangement.{
  resolve_visit_mode, resolve_offer_arrangement, offer_job_location, requested_location,
}
use servicehub_backend.Providers.{assert_new_provider_business, ensure_provider_trial}
use servicehub_backend.Queue.{recalculate_queue, reindex, reset_serving, waiting_entries}
use servicehub_backend.Bookings.{record_booking_progress, record_lifecycle_notice}
use servicehub_backend.Offers.{
  offer_row, submit_offer, reject_sibling_offers, reject_each, tell_losers,
}
use servicehub_backend.Offers.Selected.{IsSelectedOnce}
use servicehub_backend.Payments.{attempt_of}
use servicehub_backend.Payments.Prepare.{PaymentParams, Target, expire_all}
use servicehub_backend.Payments.Prepare.Create.{
  offer_terms, check_provider, create_attempt, prepare_offer, prepare_new, prepare_attempt,
}
use servicehub_backend.Payments.Capture.{
  Captured, Finalized, cannot_book, metadata_valid, mark_paid,
}
use servicehub_backend.Payments.Capture.Rows.{book_attempt, select_offer, create_paid_booking}
use servicehub_backend.Payments.Capture.Finalize.{
  take_offer, capture, settled_before, finalize_successful_payment,
}
use servicehub_backend.Payments.Gateway.{submit_attempt}
use servicehub_backend.Payments.Settled.{IsSettled}
use servicehub_backend.Payments.Finalized.{
  finalize_successful_payment-IsSettled, finalize_successful_payment_once,
}
use servicehub_backend.Payments.Failing.{IsTaken, IsBlocked, finalize_successful_payment_errors}
use servicehub_backend.Payments.Holds.{failed_checkout_restores}
use servicehub_backend.Flow.Selection.{Move, Moves, Moves-IsSelectedOnce}
use servicehub_backend.Payments.{release_offer_hold}
use servicehub_backend.Examples.Data.{the_attempt, the_booking}
use servicehub_backend.Examples.Offers.{
  the_request, market, market-IsSelectedOnce, offered, with_offer, with_offer_ok,
}

abbrev pub paying : PaymentParams
paying = record {
  seeker_id = 3;
  service_id = none;
  offer_id = some 20;
  quantity = none;
  job_location = none;
  service_location_mode = none;
  retry_payment_intent_id = none;
}

abbrev target : Target
target = record { provider_id = 2; service_id = some 4; offer_id = some 20; quantity = 1 }

abbrev no_attempt : PaymentAttempt × Db
no_attempt = (the_attempt, empty_db)

abbrev held : PaymentAttempt × Db
held = value_of no_attempt (prepare_offer paying target 20 200 with_offer.1)

held_ok : prepare_offer paying target 20 200 with_offer.1 ≡ ok held
unfolding prepare_offer marketplace_participants_eligible check_provider offer_terms
    get_request_payment_methods assert_request_payment_method offer_job_location requested_location
    create_attempt payment_commission platform_fee subscription_benefits submit_offer
    assert_distinct_accounts assert_offer_participant get_user_permissions
    assert_active_marketplace_account assert_new_provider_business ensure_provider_trial
    assert_membership_access assert_offer_target resolve_offer_arrangement resolve_visit_mode
held_ok = ok_value no_attempt (prepare_offer paying target 20 200 with_offer.1) refl

abbrev prepared_row : (PaymentAttempt × Bool) × Db
prepared_row =
    value_of ((the_attempt, true), empty_db) (prepare_attempt paying target 200 with_offer.1)

prepared_ok : prepare_attempt paying target 200 with_offer.1 ≡ ok prepared_row
unfolding prepare_attempt expire_all prepare_new prepare_offer marketplace_participants_eligible
    check_provider offer_terms get_request_payment_methods assert_request_payment_method
    offer_job_location requested_location create_attempt payment_commission platform_fee
    subscription_benefits submit_offer assert_distinct_accounts assert_offer_participant
    get_user_permissions assert_active_marketplace_account assert_new_provider_business
    ensure_provider_trial assert_membership_access assert_offer_target resolve_offer_arrangement
    resolve_visit_mode
prepared_ok =
    ok_value ((the_attempt, true), empty_db) (prepare_attempt paying target 200 with_offer.1) refl

abbrev pub paid_up : Db
paid_up = (submit_attempt prepared_row.0.0 prepared_row.1 (ok (30, some 1))).0

abbrev pub captured : Captured
captured = record {
  intent_id = 30;
  payment_id = some 31;
  amount = 10000;
  is_php = true;
  metadata = record {
    attempt_id = some prepared_row.0.0.id;
    seeker_id = some 3;
    service_id = some 4;
    offer_id = some 20;
    expected_amount = some 10000;
    payment_method = some PaymentMethod.gcash;
  };
}

abbrev nothing_done : Finalized × Db
nothing_done =
    (record { booking = none; created = false; refund_required = false; attempt = none }, empty_db)

abbrev pub taken : Finalized × Db
taken = value_of nothing_done (finalize_successful_payment captured 300 paid_up)

pub taken_ok : finalize_successful_payment captured 300 paid_up ≡ ok taken
unfolding finalize_successful_payment capture take_offer cannot_book create_paid_booking
    book_attempt select_offer record_booking_progress record_lifecycle_notice recalculate_queue
    reindex reset_serving waiting_entries reject_sibling_offers reject_each tell_losers
    submit_attempt prepare_attempt expire_all prepare_new prepare_offer
    marketplace_participants_eligible check_provider offer_terms get_request_payment_methods
    assert_request_payment_method offer_job_location requested_location create_attempt
    payment_commission platform_fee subscription_benefits submit_offer assert_distinct_accounts
    assert_offer_participant get_user_permissions assert_active_marketplace_account
    assert_new_provider_business ensure_provider_trial assert_membership_access assert_offer_target
    resolve_offer_arrangement resolve_visit_mode
taken_ok = ok_value nothing_done (finalize_successful_payment captured 300 paid_up) refl

Moves-IsSelectedOnce_example : IsSelectedOnce taken.1
Moves-IsSelectedOnce_example =
    Moves-IsSelectedOnce market taken.1
      (Moves.next (Move.submits 2 offered 100 with_offer_ok) (
        Moves.next (Move.prepares paying target 200 prepared_ok) (
          Moves.next (Move.hands_over prepared_row.0.0 (ok (30, some 1)))
            (Moves.next (Move.captures captured 300 taken_ok) Moves.stop))))
      market-IsSelectedOnce

finalize_successful_payment-IsSettled_example : IsSettled 30 taken.1
finalize_successful_payment-IsSettled_example =
    finalize_successful_payment-IsSettled captured 300 paid_up taken.1 taken.0 taken_ok

finalize_successful_payment_once_example :
    (g : Finalized) × (finalize_successful_payment captured 400 taken.1 ≡ ok (g, taken.1))
    × (g.created ≡ false)
finalize_successful_payment_once_example =
    finalize_successful_payment_once captured captured 300 400 paid_up taken.1 taken.0 refl taken_ok

abbrev listing_taken : Db
listing_taken = record paid_up {
  bookings = the_booking BookingStatus.accepted PaymentStatus.unpaid false ∷ [];
}

finalize_successful_payment_errors_example :
    (is_ok (finalize_successful_payment captured 300 listing_taken) ≡ false) ↔ (
      (attempt_of 30 listing_taken ≡ none)
      ⊎ ((a : PaymentAttempt) × (attempt_of 30 listing_taken ≡ some a)
          × (settled_before a listing_taken ≡ none)
          × ((metadata_valid captured a ≡ false)
              ⊎ IsTaken captured a listing_taken
              ⊎ IsBlocked captured a 300 (update_attempt a.id (mark_paid 300) listing_taken))))
finalize_successful_payment_errors_example =
    finalize_successful_payment_errors captured 300 listing_taken

-- The seeker's active booking of the listing is of no offer, so only the unique index refuses.
listing_taken_fails : is_ok (finalize_successful_payment captured 300 listing_taken) ≡ false
unfolding finalize_successful_payment capture take_offer cannot_book create_paid_booking
    submit_attempt prepare_attempt expire_all prepare_new prepare_offer
    marketplace_participants_eligible check_provider offer_terms get_request_payment_methods
    assert_request_payment_method offer_job_location requested_location create_attempt
    payment_commission platform_fee subscription_benefits submit_offer assert_distinct_accounts
    assert_offer_participant get_user_permissions assert_active_marketplace_account
    assert_new_provider_business ensure_provider_trial assert_membership_access assert_offer_target
    resolve_offer_arrangement resolve_visit_mode
listing_taken_fails = refl

requests_kept : with_offer.1.requests ≡ the_request ∷ []
unfolding submit_offer assert_distinct_accounts assert_offer_participant get_user_permissions
    assert_active_marketplace_account assert_new_provider_business ensure_provider_trial
    subscription_benefits assert_membership_access assert_offer_target resolve_offer_arrangement
    resolve_visit_mode
requests_kept = refl

new_offers : with_offer.1.offers ≡ offer_row 20 2 offered BookingLocationMode.remote none ∷ []
unfolding submit_offer assert_distinct_accounts assert_offer_participant get_user_permissions
    assert_active_marketplace_account assert_new_provider_business ensure_provider_trial
    subscription_benefits assert_membership_access assert_offer_target resolve_offer_arrangement
    resolve_visit_mode
new_offers = refl

requests_unique : (x : ℕ) → count (λ (r : ServiceRequest). r.id == x) with_offer.1.requests ≤ 1
requests_unique x =
    subst (λ rs. count (λ (r : ServiceRequest). r.id == x) rs ≤ 1) (sym requests_kept)
      (ground arith)

offers_unique : (x : ℕ) → count (λ (o : Offer). o.id == x) with_offer.1.offers ≤ 1
offers_unique x =
    subst (λ os. count (λ (o : Offer). o.id == x) os ≤ 1) (sym new_offers) (ground arith)

not_held : (o : Offer) → find_offer 20 with_offer.1 ≡ some o → o.payment_hold_expires_at ≡ none
not_held o h =
    let row = offer_row 20 2 offered BookingLocationMode.remote none in
    let found_row : some row ≡ some o =
      sym (ap (find (λ (y : Offer). y.id == 20)) new_offers) ∙ h in
    let same : row ≡ o = cc in ap (λ (y : Offer). y.payment_hold_expires_at) (sym same)

failed_checkout_restores_example :
    ((submit_attempt held.0 held.1 (err (http 502 Code.no_code))).0.offers ≡ with_offer.1.offers)
    × ((submit_attempt held.0 held.1 (err (http 502 Code.no_code))).0.requests
        ≡ with_offer.1.requests)
failed_checkout_restores_example =
    failed_checkout_restores paying target 20 200 with_offer.1 held.1 held.0 (http 502 Code.no_code)
      refl offers_unique requests_unique not_held held_ok

-- The seeker tries again when the time has run out, and the first payment is captured late: its
-- capture ends the hold of the second attempt.
abbrev second_try : (PaymentAttempt × Bool) × Db
second_try =
    value_of ((the_attempt, true), empty_db) (prepare_attempt paying target 1000000 paid_up)

abbrev captured_late : Finalized × Db
captured_late = value_of nothing_done (finalize_successful_payment captured 1000001 second_try.1)

abbrev offer_is : (Offer → Bool) → Db → Bool
offer_is p db = elim (find_offer 20 db) [ none ↦ false | some o ↦ p o ]

late_capture_ends_hold :
    (offer_is (λ o. is_pending_payment o.status) second_try.1 ≡ true)
    × (second_try.0.1 ≡ false)
    × (captured_late.0.refund_required ≡ true)
    × (offer_is (λ o. is_pending_offer o.status) captured_late.1 ≡ true)
unfolding release_offer_hold finalize_successful_payment capture take_offer cannot_book
    create_paid_booking book_attempt select_offer record_booking_progress record_lifecycle_notice
    recalculate_queue reindex reset_serving waiting_entries reject_sibling_offers reject_each
    tell_losers submit_attempt prepare_attempt expire_all prepare_new prepare_offer
    marketplace_participants_eligible check_provider offer_terms get_request_payment_methods
    assert_request_payment_method offer_job_location requested_location create_attempt
    payment_commission platform_fee subscription_benefits submit_offer assert_distinct_accounts
    assert_offer_participant get_user_permissions assert_active_marketplace_account
    assert_new_provider_business ensure_provider_trial assert_membership_access assert_offer_target
    resolve_offer_arrangement resolve_visit_mode
late_capture_ends_hold = (refl, refl, refl, refl)
