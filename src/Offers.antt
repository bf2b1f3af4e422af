-- ===== src/Offers.antt =====
-- services/offers.service.ts and services/offer-selection-notifications.service.ts: the offers of
-- providers on the requests of seekers. The lock of a request orders the transactions on it, so a
-- row that is read again under the lock is read once, and an offer whose request is missing counts
-- as missing.
pub mod Selected
pub mod Kept
pub mod Submitted
use servicehub_backend.Base.{
  ℕ, Bool, true, false, not, ◌&&◌, ◌||◌, Option, none, some, List, [], ◌∷◌, map, ltb, ◌==◌,
  if◌then◌else◌, is_some, Code, Result, ok, err, ◌>>=◌, ◌>>◌, http, require, reject, found, any,
  includes, find, select, count, update, insert,
}
use servicehub_backend.Schema.{
  Db, Booking, Offer, ServiceRequest, Service, Notification, Notice, OfferStatus, RequestStatus,
  BookingLocationMode, JobLocation, Text, is_pending_offer, is_open_request, is_abandoned,
  is_listed, find_user, find_service, find_offer, find_request, update_offer, update_request,
  notify, fresh_id,
}
use servicehub_backend.Policy.Accounts.{
  Participant, assert_distinct_accounts, assert_offer_participant, assert_offer_target,
}
use servicehub_backend.Policy.Pricing.{is_by_agreement}
use servicehub_backend.Policy.Arrangement.{resolve_offer_arrangement}
use servicehub_backend.Providers.{assert_new_provider_business}

pub record OfferParams : Type 0 where
  pub request_id : ℕ
  pub service_id : Option ℕ
  pub offered_price : ℕ
  pub estimated_duration : ℕ
  pub message : Option Text
  pub service_location_mode : Option BookingLocationMode
  pub provider_venue : Option JobLocation

-- A private inquiry about one listing, with no payment method chosen yet.
abbrev pub is_inquiry : ServiceRequest → Bool
is_inquiry r = is_some r.target_service_id && not (is_some r.preferred_payment_method)

-- `message?.trim().length ?? 0`
abbrev pub message_length : Option Text → ℕ
message_length none = 0
message_length (some t) = t.trimmed_length

-- `where: { offer: { requestId }, status: { notIn: [...] } }`
abbrev pub fulfills : ℕ → Db → Booking → Bool
fulfills request db b = elim b.offer_id [
  | none ↦ false
  | some id ↦ elim (find_offer id db) [
    | none ↦ false
    | some o ↦ o.request_id == request && not (is_abandoned b.status)
  ]
]

abbrev pub chosen_listing : Option ℕ → Db → Option Service
chosen_listing none db = none
chosen_listing (some id) db = find_service id db

abbrev pub is_offerable : ℕ → ServiceRequest → Service → Bool
is_offerable provider r s =
    s.provider_id == provider
    && s.category_id == r.category_id
    && is_listed s.status
    && s.is_available

abbrev pub check_listing : ℕ → ServiceRequest → Option ℕ → Option Service → Result (Unit {0})
check_listing provider r none listing = ok tt
check_listing provider r (some id) none = err (http 400 Code.offer_listing_unavailable)
check_listing provider r (some id) (some s) =
    require (is_offerable provider r s) (http 400 Code.offer_listing_unavailable)

-- `service?.priceType === 'BY_AGREEMENT'`
abbrev pub priced_by_agreement : Option Service → Bool
priced_by_agreement none = false
priced_by_agreement (some s) = is_by_agreement s.price_type

-- ["PENDING", "PENDING_PAYMENT", "ACCEPTED"]
abbrev pub is_live_status : OfferStatus → Bool
is_live_status OfferStatus.pending = true
is_live_status OfferStatus.pending_payment = true
is_live_status OfferStatus.accepted = true
is_live_status _ = false

abbrev pub is_live_offer : ℕ → ℕ → Offer → Bool
is_live_offer request provider o =
    o.request_id == request && o.provider_id == provider && is_live_status o.status

abbrev pub offer_row : ℕ → ℕ → OfferParams → BookingLocationMode → Option JobLocation → Offer
offer_row id provider p mode venue = record {
  id = id;
  request_id = p.request_id;
  provider_id = provider;
  service_id = p.service_id;
  offered_price = p.offered_price;
  estimated_duration = p.estimated_duration;
  status = OfferStatus.pending;
  payment_hold_expires_at = none;
  service_location_mode = some mode;
  provider_venue = venue;
}

abbrev pub offer_notice : ServiceRequest → ℕ → Notice
offer_notice r id =
    if is_some r.target_service_id then Notice.price_proposed id else Notice.offer_received id

abbrev pub create_offer :
    ℕ → ServiceRequest → OfferParams → BookingLocationMode → Option JobLocation → Db → Db
create_offer provider r p mode venue db = notify r.seeker_id (offer_notice r db.next_id) (
    fresh_id (record db { offers = insert (offer_row db.next_id provider p mode venue) db.offers }))

-- The new offer's id, and the database.
unfoldable pub submit_offer : ℕ → OfferParams → ℕ → Db → Result (ℕ × Db)
submit_offer provider p now db = do
  r ← found (find_request p.request_id db) (http 404 Code.no_code)
  assert_distinct_accounts provider r.seeker_id
  assert_offer_participant (find_user provider db) Participant.provider
  d ← assert_new_provider_business provider now db
  assert_offer_participant (find_user r.seeker_id d) Participant.seeker
  assert_offer_target r.target_provider_id r.target_service_id provider p.service_id
  reject (is_inquiry r && ltb (message_length p.message) 10) (http 400 Code.no_code)
  reject (is_some (find (fulfills p.request_id d) d.bookings))
      (http 409 Code.request_already_matched)
  require (is_open_request r.status) (http 400 Code.no_code)
  check_listing provider r p.service_id (chosen_listing p.service_id d)
  reject (is_inquiry r && not (priced_by_agreement (chosen_listing p.service_id d)))
      (http 409 Code.fixed_price_booking_required)
  (mode, venue) ←
      resolve_offer_arrangement r (chosen_listing p.service_id d) p.service_location_mode
        p.provider_venue
  reject (is_some (find (is_live_offer p.request_id provider) d.offers))
      (http 409 Code.duplicate_offer)
  ok (d.next_id, create_offer provider r p mode venue d)

-- Selecting an offer takes a payment method, so this always ends in an error.
unfoldable pub accept_offer : ℕ → ℕ → Db → Result (Unit {0})
accept_offer offer seeker db = do
  o ← found (find_offer offer db) (http 404 Code.no_code)
  r ← found (find_request o.request_id db) (http 404 Code.no_code)
  require (r.seeker_id == seeker) (http 403 Code.no_code)
  require (is_open_request r.status) (http 400 Code.no_code)
  reject (seeker == o.provider_id) (http 403 Code.self_transaction_not_allowed)
  err (http 409 Code.payment_method_required)

abbrev pub is_withdrawn : OfferStatus → Bool
is_withdrawn OfferStatus.withdrawn = true
is_withdrawn _ = false

abbrev pub is_rejected : OfferStatus → Bool
is_rejected OfferStatus.rejected = true
is_rejected _ = false

-- `findUnique({ where: { id: `offer-declined:${offerId}` } })`
abbrev pub tells_declined : ℕ → Notification → Bool
tells_declined offer n = elim n.notice [ Notice.offer_declined id ↦ id == offer | _ ↦ false ]

-- The decision of this participant stands already.
abbrev pub already_decided : Bool → Offer → Db → Bool
already_decided by_provider o db =
    if by_provider
    then is_withdrawn o.status
    else is_rejected o.status && is_some (find (tells_declined o.id) db.notifications)

abbrev pub decided_status : Bool → OfferStatus
decided_status by_provider = if by_provider then OfferStatus.withdrawn else OfferStatus.rejected

abbrev pub close_inquiry : ServiceRequest → Db → Db
close_inquiry r db =
    if is_inquiry r
    then update_request r.id (λ x. record x { status = RequestStatus.canceled }) db
    else db

abbrev pub decision_notice : Bool → ServiceRequest → Offer → Db → Db
decision_notice by_provider r o db =
    if by_provider
    then notify r.seeker_id
        (if is_inquiry r then Notice.price_withdrawn o.id else Notice.offer_withdrawn o.id) db
    else notify o.provider_id (Notice.offer_declined o.id) db

-- Whether the offer changed, and the database.
unfoldable pub reject_offer : ℕ → ℕ → Db → Result (Bool × Db)
reject_offer offer user db = do
  o ← found (find_offer offer db) (http 404 Code.no_code)
  r ← found (find_request o.request_id db) (http 404 Code.no_code)
  require (r.seeker_id == user || o.provider_id == user) (http 403 Code.no_code)
  let by_provider = o.provider_id == user
  if already_decided by_provider o db
      then ok (false, db)
      else (require (is_pending_offer o.status && is_open_request r.status) (http 409 Code.no_code)
          >> ok (
            true,
            decision_notice by_provider r o (
                close_inquiry r
                  (update_offer offer (λ x. record x { status = decided_status by_provider }) db)),
          ))

-- The other offers that wait for a decision on the request.
abbrev pub is_sibling : ℕ → ℕ → Offer → Bool
is_sibling request selected o =
    o.request_id == request && not (o.id == selected) && is_pending_offer o.status

abbrev pub lose : Offer → Offer
lose o = record o { status = OfferStatus.rejected; payment_hold_expires_at = none }

abbrev pub is_pending_id : ℕ → Offer → Bool
is_pending_id id o = o.id == id && is_pending_offer o.status

-- The offers that a round changed, and the database.
unfoldable pub reject_each : List Offer → Db → List Offer × Db
reject_each [] db = ([], db)
reject_each (o ∷ os) db =
    let rest = reject_each os (record db { offers = update (is_pending_id o.id) lose db.offers }) in
    (if count (is_pending_id o.id) db.offers == 1 then o ∷ rest.0 else rest.0, rest.1)

abbrev pub tells_not_selected : ℕ → Notification → Bool
tells_not_selected offer n = elim n.notice [
  | Notice.offer_not_selected id ↦ id == offer
  | _ ↦ false
]

-- `createMany` with `skipDuplicates`, by the id of the notification.
unfoldable pub tell_losers : List Offer → Db → Db
tell_losers [] db = db
tell_losers (o ∷ os) db = tell_losers os (
    if any (tells_not_selected o.id) db.notifications
    then db
    else notify o.provider_id (Notice.offer_not_selected o.id) db)

-- `[...new Set(ids)]`
abbrev pub distinct : List ℕ → List ℕ → List ℕ
distinct seen [] = []
distinct seen (x ∷ xs) =
    let kept = x ∷ distinct (x ∷ seen) xs in
    let dropped = distinct seen xs in if includes x seen then dropped else kept

-- The providers to tell by socket after the commit, and the database.
unfoldable pub reject_sibling_offers : ℕ → ℕ → Db → List ℕ × Db
reject_sibling_offers request selected db =
    let (rejected, d) = reject_each (select (is_sibling request selected) db.offers) db in
    (distinct [] (map (λ o. o.provider_id) rejected), tell_losers rejected d)
