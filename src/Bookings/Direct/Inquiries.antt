-- ===== src/Bookings/Direct/Inquiries.antt =====
-- services/bookings/direct-bookings.service.ts, createDirectFromOffer: a seeker takes an offer for
-- cash.
use servicehub_backend.Base.{
  count, ℕ, Bool, false, not, ◌&&◌, ◌||◌, Option, none, some, ◌==◌, if◌then◌else◌, refers, same_key,
  is_some, or_else, Code, Result, ok, ◌>>=◌, ◌>>◌, http, require, reject, found, find, update,
}
use servicehub_backend.Schema.{
  booking_conflicts, Db, Booking, Offer, ServiceRequest, BookingStatus, PaymentMethod, OfferStatus,
  RequestStatus, ActorRole, JobLocation, BookingLocationMode, is_active_booking, is_pending_offer,
  is_open_request, is_cash, find_user, find_service, find_offer, find_request, update_request,
}
use servicehub_backend.Policy.Accounts.{
  assert_distinct_accounts, can_take_work, marketplace_participants_eligible,
}
use servicehub_backend.Policy.Requests.{assert_request_payment_method}
use servicehub_backend.Policy.Arrangement.{offer_job_location}
use servicehub_backend.Providers.{assert_new_provider_business}
use servicehub_backend.Offers.{is_pending_id, reject_sibling_offers}
use servicehub_backend.Bookings.Direct.{
  record_agreement, is_under_review, cash_booking, insert_booking,
}

-- A booking of the same seeker for the offer; UNDER_REVIEW is left out here too.
abbrev pub books_offer : ℕ → ℕ → Booking → Bool
books_offer seeker offer b =
    b.seeker_id == seeker
    && refers b.offer_id offer
    && is_active_booking b.status
    && not (is_under_review b.status)

-- `preferred && preferred !== "On-site Cash"`
abbrev pub prefers_gcash : Option PaymentMethod → Bool
prefers_gcash none = false
prefers_gcash (some m) = not (is_cash m)

abbrev pub listing_takes_cash : Option ℕ → Db → Bool
listing_takes_cash none db = false
listing_takes_cash (some id) db = elim (find_service id db) [
  | none ↦ false
  | some s ↦ s.accepts_cash
]

abbrev pub check_cash_inquiry : Offer → ServiceRequest → Db → Result (Unit {0})
check_cash_inquiry o r db =
    if not (is_some r.target_service_id)
    then ok tt
    else (reject
          (prefers_gcash r.preferred_payment_method
            || not (same_key o.service_id r.target_service_id))
          (http 409 Code.no_code)
        >> require (listing_takes_cash o.service_id db) (http 409 Code.no_code))

abbrev pub select_cash : Offer → Offer
select_cash o = record o { status = OfferStatus.accepted }

abbrev pub begin_request : ServiceRequest → ServiceRequest
begin_request r = record r { status = RequestStatus.in_progress }

-- The offer is taken, the others of its request are rejected.
unfoldable pub select_for_cash : Offer → Db → Db
select_for_cash o db =
    update_request o.request_id begin_request
      (reject_sibling_offers o.request_id o.id
        (record db { offers = update (is_pending_id o.id) select_cash db.offers })).1

abbrev pub offer_booking : ℕ → Offer → ℕ → Option JobLocation → ℕ → Booking
offer_booking id o seeker location now =
    record (cash_booking id seeker o.provider_id o.offered_price BookingStatus.accepted now) {
      service_id = o.service_id;
      offer_id = some o.id;
      estimated_duration_mins = some o.estimated_duration;
      job_location = location;
      service_location_mode =
          some (or_else o.service_location_mode BookingLocationMode.provider_visits);
    }

-- The checks on the offer, before the transaction and in it.
unfoldable pub check_offer : Offer → ServiceRequest → ℕ → Db → Result (Unit {0})
check_offer o r seeker db = do
  require (r.seeker_id == seeker) (http 404 Code.no_code)
  assert_distinct_accounts seeker o.provider_id
  require (is_pending_offer o.status && is_open_request r.status) (http 409 Code.no_code)
  u ← found (find_user o.provider_id db) (http 409 Code.no_code)
  require (can_take_work u) (http 409 Code.no_code)

-- The checks in the transaction, and the place of the job.
unfoldable pub check_cash :
    Offer → ServiceRequest → ℕ → Option JobLocation → Db → Result (Option JobLocation)
check_cash o r seeker job db = do
  require (marketplace_participants_eligible seeker o.provider_id db.users) (http 409 Code.no_code)
  require (is_pending_offer o.status && is_open_request r.status && r.seeker_id == seeker)
      (http 409 Code.no_code)
  assert_request_payment_method r.payment_methods r.preferred_payment_method
      PaymentMethod.on_site_cash
  check_cash_inquiry o r db
  reject (is_some (find (books_offer seeker o.id) db.bookings))
      (http 409 Code.active_booking_exists)
  u ← found (find_user o.provider_id db) (http 409 Code.no_code)
  require (can_take_work u) (http 409 Code.no_code)
  offer_job_location o r job

-- The update of the request, where it is open still.
abbrev pub is_open_id : ℕ → ServiceRequest → Bool
is_open_id id r = r.id == id && is_open_request r.status

-- The writes, where the two updates that select the offer each find one row: the new booking, and
-- the database.
unfoldable pub book_cash : Offer → ℕ → Option JobLocation → ℕ → Db → Result (Booking × Db)
book_cash o seeker location now db = do
  require (count (is_pending_id o.id) db.offers == 1) (http 409 Code.no_code)
  require (count (is_open_id o.request_id) db.requests == 1)
      (http 409 Code.request_already_selected)
  let selected = select_for_cash o db
  let b = offer_booking selected.next_id o seeker location now
  reject (is_some (find (booking_conflicts b) selected.bookings)) (http 500 Code.no_code)
  told ← record_agreement b ActorRole.seeker now (insert_booking b selected)
  ok (b, told)

unfoldable pub create_direct_from_offer :
    ℕ → ℕ → Option JobLocation → ℕ → Db → Result (Booking × Db)
create_direct_from_offer offer seeker job now db = do
  o ← found (find_offer offer db) (http 404 Code.no_code)
  r ← found (find_request o.request_id db) (http 404 Code.no_code)
  check_offer o r seeker db
  d ← assert_new_provider_business o.provider_id now db
  location ← check_cash o r seeker job d
  book_cash o seeker location now d
