-- ===== src/Schema/Store.antt =====
-- The database, and the row lookups and writes that several services share. `next_id` stands
-- for `@default(cuid())`: each created row takes a new number.
use servicehub_backend.Base.{
  ℕ, suc, Bool, ◌&&◌, ◌||◌, Option, List, [], ◌==◌, refers, same_key, is_some, find, update, insert,
}
use servicehub_backend.Schema.Enums.{is_active_booking, is_waiting, is_serving}
use servicehub_backend.Schema.Rows.{
  User, Booking, QueueEntry, QueueNotify, Service, Offer, ServiceRequest, PaymentAttempt,
  PaymentRefund, CompletedService, Transaction, TrustEvent, Report, CancellationRequest,
  CompletionEscalation, Operation, DirectRequest, ProgressEvent, Notification, Notice, Message,
  AuditLog,
}

pub record Db : Type 0 where
  pub next_id : ℕ
  pub users : List User
  pub bookings : List Booking
  pub queue : List QueueEntry
  pub queue_notify : List QueueNotify
  pub services : List Service
  pub offers : List Offer
  pub requests : List ServiceRequest
  pub direct_requests : List DirectRequest
  pub attempts : List PaymentAttempt
  pub refunds : List PaymentRefund
  pub completed : List CompletedService
  pub transactions : List Transaction
  pub trust_events : List TrustEvent
  pub reports : List Report
  pub cancellations : List CancellationRequest
  pub escalations : List CompletionEscalation
  pub operations : List Operation
  pub progress : List ProgressEvent
  pub notifications : List Notification
  pub messages : List Message
  pub audit : List AuditLog

abbrev pub empty_db : Db
empty_db = record {
  next_id = 1;
  users = [];
  bookings = [];
  queue = [];
  queue_notify = [];
  services = [];
  offers = [];
  requests = [];
  direct_requests = [];
  attempts = [];
  refunds = [];
  completed = [];
  transactions = [];
  trust_events = [];
  reports = [];
  cancellations = [];
  escalations = [];
  operations = [];
  progress = [];
  notifications = [];
  messages = [];
  audit = [];
}

abbrev pub find_user : ℕ → Db → Option User
find_user id db = find (λ u. u.id == id) db.users

abbrev pub find_booking : ℕ → Db → Option Booking
find_booking id db = find (λ b. b.id == id) db.bookings

-- The queue entry of a booking, by the unique `bookingId`.
abbrev pub queue_of : ℕ → Db → Option QueueEntry
queue_of booking_id db = find (λ q. refers q.booking_id booking_id) db.queue

abbrev pub update_booking : ℕ → (Booking → Booking) → Db → Db
update_booking id f db = record db { bookings = update (λ b. b.id == id) f db.bookings }

abbrev pub update_queue : ℕ → (QueueEntry → QueueEntry) → Db → Db
update_queue id f db = record db { queue = update (λ q. q.id == id) f db.queue }

abbrev pub completed_of : ℕ → Db → Option CompletedService
completed_of booking_id db = find (λ c. refers c.booking_id booking_id) db.completed

abbrev pub refund_of : ℕ → Db → Option PaymentRefund
refund_of booking_id db = find (λ r. refers r.booking_id booking_id) db.refunds

abbrev pub notify : ℕ → Notice → Db → Db
notify user_id notice db = record db {
  notifications = insert (record { user_id = user_id; notice = notice }) db.notifications;
}

abbrev pub fresh_id : Db → Db
fresh_id db = record db { next_id = suc db.next_id }

abbrev pub find_service : ℕ → Db → Option Service
find_service id db = find (λ s. s.id == id) db.services

abbrev pub find_offer : ℕ → Db → Option Offer
find_offer id db = find (λ o. o.id == id) db.offers

abbrev pub find_request : ℕ → Db → Option ServiceRequest
find_request id db = find (λ r. r.id == id) db.requests

abbrev pub find_attempt : ℕ → Db → Option PaymentAttempt
find_attempt id db = find (λ a. a.id == id) db.attempts

abbrev pub update_offer : ℕ → (Offer → Offer) → Db → Db
update_offer id f db = record db { offers = update (λ o. o.id == id) f db.offers }

abbrev pub update_request : ℕ → (ServiceRequest → ServiceRequest) → Db → Db
update_request id f db = record db { requests = update (λ r. r.id == id) f db.requests }

abbrev pub update_attempt : ℕ → (PaymentAttempt → PaymentAttempt) → Db → Db
update_attempt id f db = record db { attempts = update (λ a. a.id == id) f db.attempts }

-- A key that is unique where it is not null.
abbrev pub repeats_key : Option ℕ → Option ℕ → Bool
repeats_key new old = is_some new && same_key new old

-- "bookings_one_active_seeker_service_key" of the migration 20260918143000: the seeker and the
-- listing of the active bookings.
abbrev pub active_booking_conflicts : Booking → Booking → Bool
active_booking_conflicts b x =
    is_active_booking b.status
    && is_active_booking x.status
    && x.seeker_id == b.seeker_id
    && repeats_key b.service_id x.service_id

-- A row that the unique keys of the bookings do not let `b` be created beside.
abbrev pub booking_conflicts : Booking → Booking → Bool
booking_conflicts b x =
    active_booking_conflicts b x
    || repeats_key b.offer_id x.offer_id
    || repeats_key b.direct_request_id x.direct_request_id
    || repeats_key b.payment_attempt_id x.payment_attempt_id

-- "queues_provider_active_position_key" of the migration 20260928180000: the provider and the
-- position of the entries that are served or wait.
abbrev pub active_entry_conflicts : QueueEntry → QueueEntry → Bool
active_entry_conflicts e x =
    x.provider_id == e.provider_id
    && x.position == e.position
    && (is_waiting x.status || is_serving x.status)

-- A row that the unique keys of the queue do not let the waiting entry `e` be created beside.
abbrev pub entry_conflicts : QueueEntry → QueueEntry → Bool
entry_conflicts e x =
    repeats_key e.offer_id x.offer_id
    || x.payment_id == e.payment_id
    || repeats_key e.paymongo_payment_id x.paymongo_payment_id
    || repeats_key e.booking_id x.booking_id
    || active_entry_conflicts e x
