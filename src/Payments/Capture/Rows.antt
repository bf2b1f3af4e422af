-- ===== src/Payments/Capture/Rows.antt =====
-- services/payment-attempt.service.ts, finalizeSuccessfulPayment: the rows that a captured payment
-- writes.
use servicehub_backend.Base.{
  ℕ, ◌+◌, ◌*◌, Bool, true, false, not, ◌&&◌, ◌||◌, Option, none, some, List, [], ◌∷◌, ◌==◌, or_else,
  Result, ok, ◌>>=◌, count, update, delete, insert, find, is_some, ◌>>◌, reject, http, Code,
}
use servicehub_backend.Schema.{
  Db, Booking, QueueEntry, Offer, ServiceRequest, Service, PaymentAttempt, Notice, OfferStatus,
  RequestStatus, AttemptStatus, BookingStatus, PaymentStatus, QueueStatus, ProgressKind, ActorRole,
  PriceType, is_pending_payment, is_accepted_offer, booking_conflicts, entry_conflicts, find_offer,
  update_offer, update_request, update_attempt, fresh_id,
}
use servicehub_backend.Queue.{waits_for, serves_for, concerns, recalculate_queue}
use servicehub_backend.Bookings.{record_booking_progress, record_lifecycle_notice}
use servicehub_backend.Offers.{reject_sibling_offers}
use servicehub_backend.Payments.Capture.{Captured, Finalized, attempt_listing}

-- ["PENDING_PAYMENT", "ACCEPTED"]
abbrev pub is_selected : OfferStatus → Bool
is_selected s = is_pending_payment s || is_accepted_offer s

abbrev pub competes : Offer → Offer → Bool
competes o x = x.request_id == o.request_id && not (x.id == o.id) && is_selected x.status

-- `where: { id, status: "PENDING_PAYMENT" }`
abbrev pub is_held_id : ℕ → Offer → Bool
is_held_id id o = o.id == id && is_pending_payment o.status

abbrev pub drop_offer : ℕ → Db → Db
drop_offer offer db = record db {
  offers =
      update (is_held_id offer)
        (λ o. record o { status = OfferStatus.rejected; payment_hold_expires_at = none }) db.offers;
}

abbrev pub listing_minutes : Option Service → ℕ → ℕ
listing_minutes none quantity = 60
listing_minutes (some s) quantity = elim s.price_type [
  | PriceType.per_hour ↦ 60 * quantity
  | PriceType.per_day ↦ 480 * quantity
  | _ ↦ s.estimated_duration_mins
]

abbrev pub offered_minutes : PaymentAttempt → Db → Option ℕ
offered_minutes a db = elim a.offer_id [
  | none ↦ none
  | some id ↦ elim (find_offer id db) [ none ↦ none | some o ↦ some o.estimated_duration ]
]

abbrev pub booked_minutes : PaymentAttempt → Db → ℕ
booked_minutes a db = elim a.estimated_duration_mins [
  | some minutes ↦ minutes
  | none ↦ or_else (offered_minutes a db) (listing_minutes (attempt_listing a db) a.quantity)
]

abbrev pub paid_booking : ℕ → ℕ → PaymentAttempt → Db → ℕ → Booking
paid_booking id position a db now = record {
  id = id;
  seeker_id = a.seeker_id;
  provider_id = a.provider_id;
  service_id = a.service_id;
  offer_id = a.offer_id;
  direct_request_id = none;
  payment_attempt_id = some a.id;
  payment_method = a.payment_method;
  agreed_amount = some a.amount;
  estimated_duration_mins = some (booked_minutes a db);
  payment_status = PaymentStatus.paid_held;
  status = BookingStatus.accepted;
  status_before_dispute = none;
  queue_position = some position;
  job_location = a.job_location;
  service_location_mode = a.service_location_mode;
  transportation_fee = a.transportation_fee;
  started = false;
  hidden_by_seeker = false;
  hidden_by_provider = false;
  updated_at = now;
}

abbrev pub paid_entry : ℕ → ℕ → Captured → PaymentAttempt → Booking → ℕ → QueueEntry
paid_entry id position p a b now = record {
  id = id;
  provider_id = a.provider_id;
  service_id = a.service_id;
  seeker_id = a.seeker_id;
  offer_id = a.offer_id;
  payment_id = p.intent_id;
  paymongo_payment_id = p.payment_id;
  payment_status = PaymentStatus.paid_held;
  position = position;
  status = QueueStatus.waiting;
  estimated_wait = 0;
  joined_at = now;
  booking_id = some b.id;
}

-- The seeker no longer waits for the provider.
abbrev pub consume_waitlist : PaymentAttempt → Db → Db
consume_waitlist a db = record db {
  queue_notify =
      delete (λ n. concerns a.provider_id db n && n.seeker_id == a.seeker_id) db.queue_notify;
}

abbrev pub enqueue : Captured → PaymentAttempt → Booking → ℕ → ℕ → Db → Db
enqueue p a b position now db =
    fresh_id (record db { queue = insert (paid_entry db.next_id position p a b now) db.queue })

-- The booking and its entry of the queue.
unfoldable pub book_attempt : Captured → PaymentAttempt → Booking → ℕ → ℕ → Db → Db
book_attempt p a b position now db = recalculate_queue a.provider_id (
    consume_waitlist a (
      enqueue p a b position now (
        record_booking_progress b.id ProgressKind.accepted ActorRole.system 0 now
          (fresh_id (record db { bookings = insert b db.bookings })))))

abbrev pub succeed : Option ℕ → PaymentAttempt → PaymentAttempt
succeed payment a = record a { status = AttemptStatus.succeeded; provider_payment_id = payment }

abbrev pub accept : Offer → Offer
accept o = record o { status = OfferStatus.accepted; payment_hold_expires_at = none }

abbrev pub start_request : ServiceRequest → ServiceRequest
start_request r = record r { status = RequestStatus.in_progress }

-- The offer is taken, the others of its request are rejected.
unfoldable pub select_offer : Option Offer → Db → Db
select_offer none db = db
select_offer (some o) db =
    update_request o.request_id start_request
      (reject_sibling_offers o.request_id o.id (update_offer o.id accept db)).1

-- The place after the work that is under service or waits.
abbrev pub next_place : PaymentAttempt → Db → ℕ
next_place a db =
    count (serves_for a.provider_id) db.queue + count (waits_for a.provider_id) db.queue + 1

abbrev pub new_booking : PaymentAttempt → ℕ → Db → Booking
new_booking a now db = paid_booking db.next_id (next_place a db) a db now

abbrev pub paid_rows : Captured → PaymentAttempt → Option Offer → ℕ → Db → Db
paid_rows p a o now db = select_offer o (
    update_attempt a.id (succeed p.payment_id)
      (book_attempt p a (new_booking a now db) (next_place a db) now db))

abbrev pub paid_notices : Booking → List (ℕ × Notice)
paid_notices b =
    (b.provider_id, Notice.paid_booking_ready b.id)
    ∷ (b.seeker_id, Notice.payment_confirmed b.id)
    ∷ []

-- A unique index refuses the booking or its entry of the queue.
abbrev pub repeats_keys : Captured → PaymentAttempt → ℕ → Db → Bool
repeats_keys p a now db =
    let b = new_booking a now db in
    is_some (find (booking_conflicts b) db.bookings)
    || is_some (find (entry_conflicts (paid_entry b.id (next_place a db) p a b now)) db.queue)

unfoldable pub create_paid_booking :
    Captured → PaymentAttempt → Option Offer → ℕ → Db → Result (Finalized × Db)
create_paid_booking p a o now db = do
  let b = new_booking a now db
  reject (repeats_keys p a now db) (http 500 Code.no_code)
  d ← record_lifecycle_notice b (paid_notices b) none (paid_rows p a o now db)
  ok (record { booking = some b; created = true; refund_required = false; attempt = none }, d)
