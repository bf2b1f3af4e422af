-- ===== src/Bookings/Direct/Responses.antt =====
-- services/bookings/direct-bookings.service.ts, respondToDirectBooking: the provider accepts or
-- declines a direct request.
use servicehub_backend.Base.{
  ℕ, Bool, true, false, not, ◌&&◌, ◌||◌, Option, none, some, [], ◌∷◌, ◌==◌, if◌then◌else◌, refers,
  is_some, Code, Result, ok, err, ◌>>=◌, ◌>>◌, http, require, reject, found, find, update,
}
use servicehub_backend.Schema.{
  Db, Booking, DirectRequest, DirectRequestStatus, Notice, BookingStatus, PaymentStatus,
  ProgressKind, ActorRole, is_canceled, is_abandoned, is_held, find_user, find_booking,
  find_service, update_booking,
}
use servicehub_backend.Policy.Accounts.{can_take_work}
use servicehub_backend.Providers.{assert_new_provider_business}
use servicehub_backend.Bookings.{record_booking_progress, record_lifecycle_notice}
use servicehub_backend.Refunds.{World, RefundResult, refund_booking_payment}
use servicehub_backend.Bookings.Direct.{record_agreement, cash_booking, insert_booking}

abbrev pub find_direct : ℕ → Db → Option DirectRequest
find_direct id db = find (λ r. r.id == id) db.direct_requests

-- `include: { booking: true }`
abbrev pub booking_of_direct : ℕ → Db → Option Booking
booking_of_direct id db = find (λ b. refers b.direct_request_id id) db.bookings

abbrev pub direct_of : Booking → Db → Option DirectRequest
direct_of b db = elim b.direct_request_id [ none ↦ none | some id ↦ find_direct id db ]

-- What the id stands for: a request with its booking, or a booking with its request.
unfoldable pub direct_target : ℕ → Db → Option DirectRequest × Option Booking
direct_target id db = elim (find_direct id db) [
  | some r ↦ (some r, booking_of_direct r.id db)
  | none ↦ elim (find_booking id db) [ none ↦ (none, none) | some b ↦ (direct_of b db, some b) ]
]

abbrev pub target_provider : Option DirectRequest → Option Booking → Option ℕ
target_provider (some r) b = some r.provider_id
target_provider none (some b) = some b.provider_id
target_provider none none = none

abbrev pub target_seeker : Option DirectRequest → Option Booking → ℕ
target_seeker (some r) b = r.seeker_id
target_seeker none (some b) = b.seeker_id
target_seeker none none = 0

abbrev pub is_declined_direct : DirectRequestStatus → Bool
is_declined_direct DirectRequestStatus.declined = true
is_declined_direct _ = false

abbrev pub is_pending_direct : DirectRequestStatus → Bool
is_pending_direct DirectRequestStatus.pending_approval = true
is_pending_direct _ = false

abbrev pub is_pending_approval : BookingStatus → Bool
is_pending_approval BookingStatus.pending_approval = true
is_pending_approval _ = false

abbrev pub direct_status_is : (DirectRequestStatus → Bool) → Option DirectRequest → Bool
direct_status_is p none = false
direct_status_is p (some r) = p r.status

abbrev pub booking_status_is : (BookingStatus → Bool) → Option Booking → Bool
booking_status_is p none = false
booking_status_is p (some b) = p b.status

abbrev pub check_undecided : Option DirectRequest → Option Booking → Result (Unit {0})
check_undecided r b = do
  reject (direct_status_is is_declined_direct r || booking_status_is is_abandoned b)
      (http 400 Code.no_code)
  reject
      (direct_status_is (λ s. not (is_pending_direct s)) r
        || booking_status_is (λ s. not (is_pending_approval s)) b)
      (http 409 Code.no_code)

abbrev pub set_direct : DirectRequestStatus → Option DirectRequest → Db → Db
set_direct status none db = db
set_direct status (some r) db = record db {
  direct_requests =
      update (λ x. x.id == r.id) (λ x. record x { status = status }) db.direct_requests;
}

abbrev pub accept_booking : Booking → Booking
accept_booking b = record b { status = BookingStatus.accepted; started = false }

abbrev pub listing_minutes_of : ℕ → Db → ℕ
listing_minutes_of service db = elim (find_service service db) [
  | none ↦ 60
  | some s ↦ s.estimated_duration_mins
]

-- The booking of a request that has none yet.
abbrev pub booking_for : ℕ → DirectRequest → ℕ → Db → Booking
booking_for id r now db =
    record (cash_booking id r.seeker_id r.provider_id r.agreed_price BookingStatus.accepted now) {
      service_id = some r.service_id;
      direct_request_id = some r.id;
      estimated_duration_mins = some (listing_minutes_of r.service_id db);
    }

abbrev pub agree : Option DirectRequest → Option Booking → ℕ → Db → Result Db
agree r (some b) now db =
    record_agreement (accept_booking b) ActorRole.provider now
      (update_booking b.id accept_booking db)
agree (some r) none now db =
    record_agreement (booking_for db.next_id r now db) ActorRole.provider now
      (insert_booking (booking_for db.next_id r now db) db)
agree none none now db = err (http 404 Code.no_code)

-- The row as it is in the transaction.
abbrev pub direct_now : Option DirectRequest → Db → Option DirectRequest
direct_now none db = none
direct_now (some r) db = find_direct r.id db

abbrev pub booking_now : Option Booking → Db → Option Booking
booking_now none db = none
booking_now (some b) db = find_booking b.id db

-- The checks that the transaction repeats.
abbrev pub check_still_pending : Option DirectRequest → Option Booking → Db → Result (Unit {0})
check_still_pending r b db = do
  require (if is_some r then direct_status_is is_pending_direct (direct_now r db) else true)
      (http 409 Code.no_code)
  require (if is_some b then booking_status_is is_pending_approval (booking_now b db) else true)
      (http 409 Code.no_code)

unfoldable pub accept_direct : ℕ → Option DirectRequest → Option Booking → ℕ → Db → Result Db
accept_direct provider r b now db = do
  u ← found (find_user provider db) (http 403 Code.accept_booking_not_allowed)
  require (can_take_work u) (http 403 Code.accept_booking_not_allowed)
  d ← assert_new_provider_business provider now db
  check_still_pending r b d
  agree r b now (set_direct DirectRequestStatus.accepted r d)

abbrev pub is_held_booking : Option Booking → Bool
is_held_booking none = false
is_held_booking (some b) = is_held b.payment_status

abbrev pub decline : Bool → PaymentStatus → Booking → Booking
decline refunded payment b = record b {
  status = BookingStatus.declined;
  payment_status = if refunded then PaymentStatus.refunded else payment;
}

-- The refund has cancelled the booking, so there is nothing left to decline.
abbrev pub refund_cancelled : Bool → Option Booking → Bool
refund_cancelled refunded b = refunded && booking_status_is is_canceled b

abbrev pub decline_booking : Bool → Option Booking → ℕ → Db → Db
decline_booking refunded none now db = db
decline_booking refunded (some b) now db =
    record_booking_progress b.id ProgressKind.declined ActorRole.provider 0 now
      (update_booking b.id (decline refunded b.payment_status) db)

-- The booking that a notice of this decision is about.
abbrev pub told_booking : Option DirectRequest → Option Booking → ℕ → ℕ → Booking
told_booking r (some b) provider now = b
told_booking (some r) none provider now =
    cash_booking r.id r.seeker_id provider r.agreed_price BookingStatus.declined now
told_booking none none provider now = cash_booking 0 0 provider 0 BookingStatus.declined now

unfoldable pub decline_direct :
    ℕ → Option DirectRequest → Option Booking → Bool → ℕ → Db → Result Db
decline_direct provider r b refunded now db = do
  require (if is_some r then direct_status_is is_pending_direct (direct_now r db) else true)
      (http 409 Code.no_code)
  let unchanged = refund_cancelled refunded (booking_now b db)
  require
      (unchanged
        || (if is_some b then booking_status_is is_pending_approval (booking_now b db) else true))
      (http 409 Code.no_code)
  let declined =
      if unchanged
      then db
      else decline_booking refunded b now (set_direct DirectRequestStatus.declined r db)
  record_lifecycle_notice (told_booking r b provider now)
      ((target_seeker r b, Notice.booking_request_declined (told_booking r b provider now).id) ∷ [])
      none declined

abbrev pub after_decline_refund :
    ℕ
    → Option DirectRequest
    → Option Booking
    → ℕ
    → Db
    → Result RefundResult
    → Db × Result (Unit {0})
after_decline_refund provider r b now db (err e) = (db, err e)
after_decline_refund provider r b now db (ok _) = elim (decline_direct provider r b true now db) [
  | err e ↦ (db, err e)
  | ok d ↦ (d, ok tt)
]

abbrev pub with_result : Db → Result Db → Db × Result (Unit {0})
with_result db (err e) = (db, err e)
with_result db (ok d) = (d, ok tt)

-- A held online payment is sent back first.
abbrev pub decline_target :
    World → ℕ → Option DirectRequest → Option Booking → ℕ → Db → Db × Result (Unit {0})
decline_target w provider r none now db =
    with_result db (decline_direct provider r none false now db)
decline_target w provider r (some b) now db =
    if is_held b.payment_status
    then (let (d, answer) = refund_booking_payment w b.id provider now db in
        after_decline_refund provider r (some b) now d answer)
    else with_result db (decline_direct provider r (some b) false now db)

abbrev pub check_response : ℕ → Option DirectRequest → Option Booking → Result (Unit {0})
check_response provider r b = do
  require (is_some r || is_some b) (http 404 Code.no_code)
  require (refers (target_provider r b) provider) (http 403 Code.no_code)
  check_undecided r b

unfoldable pub respond_to_direct_booking : World → ℕ → ℕ → Bool → ℕ → Db → Db × Result (Unit {0})
respond_to_direct_booking w id provider accept now db =
    let (r, b) = direct_target id db in
    elim (check_response provider r b) [
      | err e ↦ (db, err e)
      | ok _ ↦
          if accept
          then with_result db (accept_direct provider r b now db)
          else decline_target w provider r b now db
    ]
