-- ===== src/Examples/Data.antt =====
-- A small marketplace: the provider 2, the seeker 3, the administrator 9, and the booking 1 of
-- the service 4, paid online by the attempt 5 and in the queue as the entry 7.
use servicehub_backend.Base.{
  ℕ, ◌≡◌, Bool, true, false, none, some, [], ◌∷◌, arith, ◌==◌, if◌then◌else◌,
}
use servicehub_backend.Bookings.Completion.Ledger.{IsPaidOnce}
use servicehub_backend.Schema.{
  Db, User, Membership, Booking, QueueEntry, Service, PaymentAttempt, Role, VerificationStatus,
  ModerationStatus, Plan, SubscriptionStatus, BookingStatus, PaymentStatus, PaymentMethod,
  QueueStatus, ServiceStatus, PriceType, ServiceLocationMode, Site, AttemptStatus, empty_db,
}

abbrev pub basic_membership : Membership
basic_membership = record {
  plan = Plan.basic;
  subscription_status = SubscriptionStatus.active;
  subscription_started_at = some 0;
  subscription_expires_at = some 2592000000;
  free_plan_started_at = none;
  free_plan_expires_at = none;
}

abbrev pub new_membership : Membership
new_membership = record basic_membership {
  plan = Plan.free;
  subscription_started_at = none;
  subscription_expires_at = none;
}

abbrev pub account : ℕ → Role → Membership → User
account id role membership = record {
  id = id;
  role = role;
  trust_score = 50;
  verification = VerificationStatus.approved;
  is_active = true;
  moderation = ModerationStatus.active;
  email_verified = true;
  deactivated_at = none;
  online_queue_limit = 1;
  membership = membership;
}

abbrev pub the_provider : User
the_provider = account 2 Role.user basic_membership

abbrev pub the_seeker : User
the_seeker = account 3 Role.user new_membership

abbrev pub the_booking : BookingStatus → PaymentStatus → Bool → Booking
the_booking status payment is_started = record {
  id = 1;
  seeker_id = 3;
  provider_id = 2;
  service_id = some 4;
  offer_id = none;
  direct_request_id = none;
  payment_attempt_id = some 5;
  payment_method = PaymentMethod.gcash;
  agreed_amount = some 10000;
  estimated_duration_mins = some 90;
  payment_status = payment;
  status = status;
  status_before_dispute = none;
  queue_position = some 1;
  job_location = none;
  service_location_mode = none;
  transportation_fee = none;
  started = is_started;
  hidden_by_seeker = false;
  hidden_by_provider = false;
  updated_at = 0;
}

abbrev pub the_entry : ℕ → QueueStatus → PaymentStatus → QueueEntry
the_entry id status payment = record {
  id = id;
  provider_id = 2;
  service_id = some 4;
  seeker_id = 3;
  offer_id = none;
  payment_id = 6;
  paymongo_payment_id = none;
  payment_status = payment;
  position = 1;
  status = status;
  estimated_wait = 0;
  joined_at = id;
  booking_id = if id == 7 then some 1 else none;
}

abbrev pub nowhere : Site
nowhere = record { latitude = none; longitude = none; location_label = none }

abbrev pub the_service : Service
the_service = record {
  id = 4;
  provider_id = 2;
  status = ServiceStatus.active;
  is_available = true;
  price = some 10000;
  price_type = PriceType.fixed;
  estimated_duration_mins = 90;
  accepts_cash = true;
  accepts_gcash = true;
  category_id = 1;
  site = nowhere;
  venue_address = none;
  transportation_fee = none;
  service_location_mode = ServiceLocationMode.remote;
}

abbrev pub the_attempt : PaymentAttempt
the_attempt = record {
  id = 5;
  seeker_id = 3;
  provider_id = 2;
  service_id = some 4;
  quantity = 1;
  offer_id = none;
  provider_intent_id = some 6;
  provider_payment_id = some 8;
  commission_rate_bps = 800;
  platform_fee_amount = 800;
  provider_net_amount = some 9200;
  paid_at = some 0;
  amount = 10000;
  estimated_duration_mins = some 90;
  job_location = none;
  service_location_mode = none;
  transportation_fee = none;
  payment_method = PaymentMethod.gcash;
  redirect_url = none;
  status = AttemptStatus.succeeded;
  expires_at = 900000;
}

abbrev pub members : Db
members = record empty_db {
  next_id = 20;
  users = the_provider ∷ the_seeker ∷ account 9 Role.admin new_membership ∷ [];
  services = the_service ∷ [];
  attempts = the_attempt ∷ [];
}

-- The booking in some state, with its entry of the queue.
abbrev pub booked : BookingStatus → PaymentStatus → Bool → QueueStatus → Db
booked status payment is_started queue_status = record members {
  bookings = the_booking status payment is_started ∷ [];
  queue = the_entry 7 queue_status payment ∷ [];
}

abbrev pub awaiting : Db
awaiting = booked BookingStatus.awaiting_confirmation PaymentStatus.paid_held true QueueStatus.done

abbrev pub accepted_job : Db
accepted_job = booked BookingStatus.accepted PaymentStatus.paid_held false QueueStatus.waiting

-- An empty ledger.
pub paid_once : (db : Db) → db.transactions ≡ [] → IsPaidOnce db
unfolding IsPaidOnce
paid_once db h id = (ground (arith, h), λ o. ground (arith, h))
