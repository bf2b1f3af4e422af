-- ===== src/Bookings/Direct.antt =====
-- services/bookings/direct-bookings.service.ts: bookings that are paid in cash, from a listing or
-- from an offer. The locks order the transactions, so a row that is read again under a lock is read
-- once, unless the refund of a payment comes in between.
pub mod Selected
pub mod Answers
pub mod Inquiries
pub mod Responses
pub mod Created
use servicehub_backend.Base.{
  ℕ, Bool, true, false, not, ◌&&◌, Option, none, some, [], ◌∷◌, ◌==◌, if◌then◌else◌, refers,
  is_some, or_else, Code, Result, ok, ◌>>=◌, ◌>>◌, http, require, reject, found, find, insert,
}
use servicehub_backend.Schema.{
  booking_conflicts, Db, Booking, Service, DirectRequest, DirectRequestStatus, Notice, SystemText,
  BookingStatus, PaymentStatus, PaymentMethod, ProgressKind, ActorRole, JobLocation,
  BookingLocationMode, is_listed, is_active_booking, find_user, find_service, notify, fresh_id,
}
use servicehub_backend.Policy.Accounts.{
  assert_distinct_accounts, can_take_work, marketplace_participants_eligible,
}
use servicehub_backend.Policy.Pricing.{DirectTerms, calculate_direct_listing_terms}
use servicehub_backend.Policy.Arrangement.{Arrangement, resolve_direct_arrangement}
use servicehub_backend.Providers.{assert_new_provider_business}
use servicehub_backend.Bookings.{record_booking_progress, record_lifecycle_notice}

abbrev pub is_provider_role : ActorRole → Bool
is_provider_role ActorRole.provider = true
is_provider_role _ = false

-- The other participant is told, and both are told that messages are open.
unfoldable pub record_agreement : Booking → ActorRole → ℕ → Db → Result Db
record_agreement b actor now db = do
  let by_provider = is_provider_role actor
  d ←
      record_lifecycle_notice b
        ((if by_provider
            then (b.seeker_id, Notice.booking_accepted b.id)
            else (b.provider_id, Notice.offer_accepted b.id))
          ∷ [])
        (some (if by_provider then b.provider_id else b.seeker_id, SystemText.agreement_text))
        (record_booking_progress b.id ProgressKind.accepted actor 0 now db)
  ok (notify (if by_provider then b.provider_id else b.seeker_id) (Notice.booking_confirmed b.id) d)

pub record DirectParams : Type 0 where
  pub seeker_id : ℕ
  pub provider_id : ℕ
  pub service_id : ℕ
  pub quantity : Option ℕ
  pub job_location : Option JobLocation
  pub service_location_mode : Option BookingLocationMode

abbrev pub is_bookable : DirectParams → Service → Bool
is_bookable p s = s.provider_id == p.provider_id && is_listed s.status && s.is_available

abbrev pub books_same : DirectParams → Booking → Bool
books_same p b =
    b.seeker_id == p.seeker_id && refers b.service_id p.service_id && is_active_booking b.status

abbrev pub is_under_review : BookingStatus → Bool
is_under_review BookingStatus.under_review = true
is_under_review _ = false

-- The check under the lock leaves out UNDER_REVIEW.
abbrev pub books_same_now : DirectParams → Booking → Bool
books_same_now p b = books_same p b && not (is_under_review b.status)

abbrev pub direct_terms : DirectParams → Service → Result (Arrangement × DirectTerms)
direct_terms p s = resolve_direct_arrangement s p.service_location_mode p.job_location >>= λ a.
    calculate_direct_listing_terms s.price_type s.price (or_else p.quantity 1)
      s.estimated_duration_mins a.transportation_fee
    >>= λ terms. ok (a, terms)

-- The checks before the transaction.
unfoldable pub check_direct : DirectParams → Db → Result (Unit {0})
check_direct p db = do
  assert_distinct_accounts p.seeker_id p.provider_id
  s ← found (find_service p.service_id db) (http 400 Code.no_code)
  require (is_bookable p s) (http 400 Code.no_code)
  terms ← direct_terms p s
  u ← found (find_user s.provider_id db) (http 409 Code.no_code)
  require (can_take_work u) (http 409 Code.no_code)
  require s.accepts_cash (http 400 Code.no_code)
  reject (is_some (find (books_same p) db.bookings)) (http 400 Code.no_code)

abbrev pub direct_request_row : ℕ → DirectParams → ℕ → DirectRequest
direct_request_row id p price = record {
  id = id;
  seeker_id = p.seeker_id;
  provider_id = p.provider_id;
  service_id = p.service_id;
  quantity = or_else p.quantity 1;
  agreed_price = price;
  status = DirectRequestStatus.pending_approval;
}

-- A booking that is paid on site, with nothing agreed on yet.
abbrev pub cash_booking : ℕ → ℕ → ℕ → ℕ → BookingStatus → ℕ → Booking
cash_booking id seeker provider price status now = record {
  id = id;
  seeker_id = seeker;
  provider_id = provider;
  service_id = none;
  offer_id = none;
  direct_request_id = none;
  payment_attempt_id = none;
  payment_method = PaymentMethod.on_site_cash;
  agreed_amount = some price;
  estimated_duration_mins = none;
  payment_status = PaymentStatus.unpaid;
  status = status;
  status_before_dispute = none;
  queue_position = none;
  job_location = none;
  service_location_mode = none;
  transportation_fee = none;
  started = false;
  hidden_by_seeker = false;
  hidden_by_provider = false;
  updated_at = now;
}

abbrev pub direct_booking_row : ℕ → ℕ → DirectParams → Arrangement → DirectTerms → ℕ → Booking
direct_booking_row id request p a terms now =
    record (cash_booking id p.seeker_id p.provider_id terms.amount BookingStatus.pending_approval
      now) {
        service_id = some p.service_id;
        direct_request_id = some request;
        estimated_duration_mins = some terms.estimated_duration_mins;
        job_location = a.location;
        service_location_mode = some a.mode;
        transportation_fee = a.transportation_fee;
      }

abbrev pub insert_booking : Booking → Db → Db
insert_booking b db = fresh_id (record db { bookings = insert b db.bookings })

abbrev pub insert_direct_request : DirectRequest → Db → Db
insert_direct_request r db = fresh_id (record db { direct_requests = insert r db.direct_requests })

-- The new booking, which a unique index can refuse, and what the provider is told of it.
unfoldable pub place_direct_booking : Booking → Db → Result (Booking × Db)
place_direct_booking b db = do
  reject (is_some (find (booking_conflicts b) db.bookings)) (http 500 Code.no_code)
  told ←
      record_lifecycle_notice b ((b.provider_id, Notice.direct_request_received b.id) ∷ []) none
        (insert_booking b db)
  ok (b, told)

-- The transaction: the new booking, and the database.
unfoldable pub create_direct_booking : DirectParams → ℕ → Db → Result (Booking × Db)
create_direct_booking p now db = do
  d ← assert_new_provider_business p.provider_id now db
  require (marketplace_participants_eligible p.seeker_id p.provider_id d.users)
      (http 409 Code.no_code)
  reject (is_some (find (books_same_now p) d.bookings)) (http 409 Code.no_code)
  s ← found (find_service p.service_id d) (http 409 Code.no_code)
  require (is_bookable p s && s.accepts_cash) (http 409 Code.no_code)
  (a, terms) ← direct_terms p s
  let requested = insert_direct_request (direct_request_row d.next_id p terms.amount) d
  place_direct_booking (direct_booking_row requested.next_id d.next_id p a terms now) requested

unfoldable pub create_direct_request : DirectParams → ℕ → Db → Result (Booking × Db)
create_direct_request p now db = do check_direct p db; create_direct_booking p now db
