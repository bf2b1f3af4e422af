-- ===== src/Examples/Direct.antt =====
-- A direct request of the seeker for the listing, the provider's answer to it, and the places that
-- offers and listings settle on.
use servicehub_backend.Base.{
  ℕ, ◌≡◌, refl, true, false, none, some, Code, ok, err, http, is_ok, value_of, ok_value, count,
  insert,
}
use servicehub_backend.Schema.{
  Db, Booking, Service, ServiceRequest, Offer, JobLocation, Text, OfferStatus, RequestStatus,
  ServiceLocationMode, BookingLocationMode, find_service, is_unpaid, empty_db,
}
use servicehub_backend.Policy.Accounts.{
  assert_distinct_accounts, assert_active_marketplace_account, marketplace_participants_eligible,
  get_user_permissions,
}
use servicehub_backend.Policy.Membership.{subscription_benefits, assert_membership_access}
use servicehub_backend.Policy.Pricing.{DirectTerms, calculate_direct_listing_terms}
use servicehub_backend.Policy.Arrangement.{
  Arrangement, resolve_visit_mode, resolve_direct_arrangement, resolve_offer_arrangement,
  offer_job_location, parse_location, provider_venue,
}
use servicehub_backend.Policy.Arrangement.Venues.{resolve_offer_arrangement_venue}
use servicehub_backend.Providers.{assert_new_provider_business, ensure_provider_trial}
use servicehub_backend.Refunds.{World}
use servicehub_backend.Bookings.{record_booking_progress, record_lifecycle_notice}
use servicehub_backend.Bookings.Direct.{
  DirectParams, books_same, direct_terms, check_direct, create_direct_booking, place_direct_booking,
  create_direct_request, record_agreement,
}
use servicehub_backend.Bookings.Direct.Responses.{
  is_pending_approval, direct_target, accept_direct, respond_to_direct_booking,
}
use servicehub_backend.Bookings.Direct.Answers.{respond_to_direct_booking_once}
use servicehub_backend.Bookings.Direct.Created.{create_direct_request_single}
use servicehub_backend.Examples.Data.{members, nowhere, the_booking}
use servicehub_backend.Schema.{BookingStatus, PaymentStatus}

abbrev asked : DirectParams
asked = record {
  seeker_id = 3;
  provider_id = 2;
  service_id = 4;
  quantity = none;
  job_location = none;
  service_location_mode = none;
}

abbrev created_row : Booking × Db
created_row =
    value_of (the_booking BookingStatus.completed PaymentStatus.unpaid false, empty_db)
      (create_direct_request asked 100 members)

created_ok : create_direct_request asked 100 members ≡ ok created_row
unfolding create_direct_request check_direct create_direct_booking place_direct_booking
    assert_distinct_accounts resolve_direct_arrangement resolve_visit_mode
    calculate_direct_listing_terms assert_new_provider_business ensure_provider_trial
    subscription_benefits assert_membership_access marketplace_participants_eligible
    record_lifecycle_notice assert_active_marketplace_account get_user_permissions
created_ok =
    ok_value (the_booking BookingStatus.completed PaymentStatus.unpaid false, empty_db)
      (create_direct_request asked 100 members) refl

create_direct_request_single_example :
    (count (books_same asked) members.bookings ≡ 0)
    × (count (books_same asked) created_row.1.bookings ≡ 1)
    × (created_row.1.bookings ≡ insert created_row.0 members.bookings)
    × (is_pending_approval created_row.0.status ≡ true)
    × (is_unpaid created_row.0.payment_status ≡ true)
    × ((s : Service) × (a : Arrangement) × (terms : DirectTerms) × (find_service 4 members ≡ some s)
        × (direct_terms asked s ≡ ok (a, terms))
        × (created_row.0.agreed_amount ≡ some terms.amount))
create_direct_request_single_example =
    create_direct_request_single asked 100 members created_row.1 created_row.0 created_ok

abbrev quiet_world : World
quiet_world = record {
  get_payment_intent = λ x. err (http 502 Code.no_code);
  create_refund = λ a b c. err (http 502 Code.no_code);
  before_reservation = λ d. d;
  before_finalization = λ d. d;
}

abbrev accepted_row : Db
accepted_row = (respond_to_direct_booking quiet_world created_row.0.id 2 true 200 created_row.1).0

accepted_ok :
    respond_to_direct_booking quiet_world created_row.0.id 2 true 200 created_row.1
    ≡ (accepted_row, ok tt)
unfolding respond_to_direct_booking direct_target accept_direct record_agreement
    record_booking_progress create_direct_request check_direct create_direct_booking
    place_direct_booking assert_distinct_accounts resolve_direct_arrangement resolve_visit_mode
    calculate_direct_listing_terms assert_new_provider_business ensure_provider_trial
    subscription_benefits assert_membership_access marketplace_participants_eligible
    record_lifecycle_notice assert_active_marketplace_account get_user_permissions
accepted_ok = refl

respond_to_direct_booking_once_example :
    let (e, answer) =
      respond_to_direct_booking quiet_world created_row.0.id 2 false 300 accepted_row in
    (e ≡ accepted_row) × (is_ok answer ≡ false)
respond_to_direct_booking_once_example =
    respond_to_direct_booking_once quiet_world quiet_world created_row.0.id 2 2 false 200 300
      created_row.1 accepted_row accepted_ok

-- A request whose seeker comes to the provider, and the venue of an offer on it.
abbrev visiting : ServiceRequest
visiting = record {
  id = 10;
  seeker_id = 3;
  target_provider_id = none;
  target_service_id = none;
  preferred_payment_method = none;
  payment_methods = none;
  category_id = 1;
  site = nowhere;
  private_address = none;
  service_location_mode = ServiceLocationMode.seeker_visits;
  status = RequestStatus.open_;
}

abbrev text : ℕ → Text
text n = record { content = n; length = 8; trimmed = n; trimmed_length = 8 }

abbrev workshop : JobLocation
workshop = record { latitude = none; longitude = none; label = text 1; address = some (text 2) }

abbrev workshop_offer : Offer
workshop_offer = record {
  id = 20;
  request_id = 10;
  provider_id = 2;
  service_id = none;
  offered_price = 10000;
  estimated_duration = 90;
  status = OfferStatus.pending;
  payment_hold_expires_at = none;
  service_location_mode = some BookingLocationMode.seeker_visits;
  provider_venue = some workshop;
}

arranged :
    resolve_offer_arrangement visiting none none (some workshop)
    ≡ ok (BookingLocationMode.seeker_visits, some workshop)
unfolding resolve_offer_arrangement resolve_visit_mode parse_location provider_venue
arranged = refl

resolve_offer_arrangement_venue_example :
    (venue : JobLocation) × (some workshop ≡ some venue)
    × (offer_job_location workshop_offer visiting none ≡ ok (some venue))
resolve_offer_arrangement_venue_example =
    resolve_offer_arrangement_venue visiting none none (some workshop) none (some workshop)
      workshop_offer arranged refl refl
