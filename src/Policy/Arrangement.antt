-- ===== src/Policy/Arrangement.antt =====
-- lib/service-arrangement.ts, with the schemas of src/schema/location.schema.ts and the helpers of
-- lib/proximity.ts that it calls: who visits whom, and where the work is done. A coordinate is a
-- whole number of millionths of a degree, and a text is known by its lengths.
pub mod Venues
use servicehub_backend.Base.{
  ℕ, ◌*◌, Bool, true, false, not, ◌&&◌, ◌||◌, Option, none, some, ltb, leb, ◌==◌, if◌then◌else◌,
  is_some, or_else, Code, HttpError, Result, ok, err, ◌>>=◌, ◌>>◌, http, require, reject, found,
  length,
}
use servicehub_backend.Base.Int.{ℤ, pos_part, neg_part}
use servicehub_backend.Schema.{
  ServiceLocationMode, BookingLocationMode, Text, JobLocation, Site, Service, ServiceRequest, Offer,
}

-- `min(-limit).max(limit)`, in degrees
abbrev pub within_degrees : ℕ → ℤ → Bool
within_degrees limit c = leb (pos_part c) (limit * 1000000) && leb (neg_part c) (limit * 1000000)

abbrev pub valid_coordinate : ℕ → Option ℤ → Bool
valid_coordinate limit none = true
valid_coordinate limit (some c) = within_degrees limit c

abbrev pub trim : Text → Text
trim t = record {
  content = t.trimmed;
  length = t.trimmed_length;
  trimmed = t.trimmed;
  trimmed_length = t.trimmed_length;
}

abbrev pub trim_all : Option Text → Option Text
trim_all none = none
trim_all (some t) = some (trim t)

-- `address?.length ?? 0`, after the white space was cut off
abbrev pub address_length : Option Text → ℕ
address_length none = 0
address_length (some t) = t.trimmed_length

-- The rules of JobLocationSchema.
abbrev pub valid_location : JobLocation → Bool
valid_location l =
    valid_coordinate 90 l.latitude
    && valid_coordinate 180 l.longitude
    && leb 2 l.label.trimmed_length
    && leb l.label.trimmed_length 160
    && leb (address_length l.address) 500
    && (is_some l.latitude && is_some l.longitude
        || not (is_some l.latitude)
          && not (is_some l.longitude)
          && leb 5 (address_length l.address))

-- `JobLocationSchema.parse`
unfoldable pub parse_location : JobLocation → Result JobLocation
parse_location l = do
  require (valid_location l) (http 400 Code.validation_failed)
  ok (record l { label = trim l.label; address = trim_all l.address })

abbrev pub fixed_mode : ServiceLocationMode → Option BookingLocationMode
fixed_mode ServiceLocationMode.provider_visits = some BookingLocationMode.provider_visits
fixed_mode ServiceLocationMode.seeker_visits = some BookingLocationMode.seeker_visits
fixed_mode ServiceLocationMode.remote = some BookingLocationMode.remote
fixed_mode ServiceLocationMode.both = none

abbrev pub is_remote : BookingLocationMode → Bool
is_remote BookingLocationMode.remote = true
is_remote _ = false

abbrev pub same_mode : BookingLocationMode → BookingLocationMode → Bool
same_mode BookingLocationMode.provider_visits BookingLocationMode.provider_visits = true
same_mode BookingLocationMode.seeker_visits BookingLocationMode.seeker_visits = true
same_mode BookingLocationMode.remote BookingLocationMode.remote = true
same_mode _ _ = false

-- supported === 'BOTH' ? mode === 'REMOTE' : mode !== supported
abbrev pub unsupported : ServiceLocationMode → BookingLocationMode → Bool
unsupported available mode = elim (fixed_mode available) [
  | none ↦ is_remote mode
  | some supported ↦ not (same_mode mode supported)
]

abbrev pub arrangement_failure : HttpError
arrangement_failure = http 400 Code.service_arrangement_invalid

-- selected ?? supported
abbrev pub chosen_mode :
    ServiceLocationMode → Option BookingLocationMode → Option BookingLocationMode
chosen_mode available (some mode) = some mode
chosen_mode available none = fixed_mode available

unfoldable pub resolve_visit_mode :
    ServiceLocationMode → Option BookingLocationMode → Result BookingLocationMode
resolve_visit_mode available selected = do
  mode ← found (chosen_mode available selected) arrangement_failure
  reject (unsupported available mode) arrangement_failure
  ok mode

-- A text that is there and not empty.
abbrev pub filled : Option Text → Option Text
filled none = none
filled (some t) = if t.length == 0 then none else some t

-- The default labels, 'Provider workplace' and 'Job address', by their lengths.
abbrev pub text_of : ℕ → Text
text_of n = record { content = n; length = n; trimmed = n; trimmed_length = n }

-- locationFromRecord
unfoldable pub location_from_record : Site → Option Text → Option JobLocation
location_from_record site address = elim site.latitude [
  | none ↦ none
  | some latitude ↦ elim site.longitude [
    | none ↦ none
    | some longitude ↦ elim (filled site.location_label) [
      | none ↦ none
      | some label ↦ some (record {
        latitude = some latitude;
        longitude = some longitude;
        label = label;
        address = filled address;
      })
    ]
  ]
]

abbrev pub is_written : Option Text → Bool
is_written none = false
is_written (some t) = ltb 0 t.trimmed_length

-- `label || 'Provider workplace'`, `label || 'Job address'`
abbrev pub addressed : Option Text → ℕ → Option Text → JobLocation
addressed label default_length address = record {
  latitude = none;
  longitude = none;
  label = or_else (filled label) (text_of default_length);
  address = address;
}

unfoldable pub provider_venue : Service → Result JobLocation
unfolding location_from_record
provider_venue s =
    if is_written s.venue_address
    then parse_location (addressed s.site.location_label 18 s.venue_address)
    else (found (location_from_record s.site s.venue_address) arrangement_failure >>= λ point.
        parse_location point)

-- assertJobLocation
unfoldable pub assert_job_location : Option JobLocation → Result (Unit {0})
assert_job_location none = err (http 400 Code.job_location_required)
assert_job_location (some l) = parse_location l >>= λ _. ok tt

pub record Arrangement : Type 0 where
  pub mode : BookingLocationMode
  pub location : Option JobLocation
  pub transportation_fee : Option ℕ

abbrev pub direct_place : BookingLocationMode → Service → Option JobLocation → Result Arrangement
direct_place BookingLocationMode.remote s job =
    ok (record { mode = BookingLocationMode.remote; location = none; transportation_fee = some 0 })
direct_place BookingLocationMode.seeker_visits s job = provider_venue s >>= λ venue. ok (record {
  mode = BookingLocationMode.seeker_visits;
  location = some venue;
  transportation_fee = some 0;
})
direct_place BookingLocationMode.provider_visits s job =
    (if is_some job || (is_some s.site.latitude && is_some s.site.longitude)
      then assert_job_location job
      else ok tt)
    >> ok (record {
      mode = BookingLocationMode.provider_visits;
      location = job;
      transportation_fee = s.transportation_fee;
    })

unfoldable pub resolve_direct_arrangement :
    Service → Option BookingLocationMode → Option JobLocation → Result Arrangement
resolve_direct_arrangement s selected job = do
  mode ← resolve_visit_mode s.service_location_mode selected
  direct_place mode s job

-- The venue of an offer: that of the listing, or one of its own.
abbrev pub offered_venue : Option Service → Option JobLocation → Result JobLocation
offered_venue (some s) custom = provider_venue s
offered_venue none custom = found custom arrangement_failure >>= λ venue. parse_location venue

abbrev pub check_listing_mode : Option Service → BookingLocationMode → Result (Unit {0})
check_listing_mode none mode = ok tt
check_listing_mode (some s) mode =
    resolve_visit_mode s.service_location_mode (some mode) >>= λ _. ok tt

abbrev pub venue_for :
    BookingLocationMode → Option Service → Option JobLocation → Result (Option JobLocation)
venue_for BookingLocationMode.seeker_visits s custom =
    offered_venue s custom >>= λ venue. ok (some venue)
venue_for _ s custom = ok none

unfoldable pub resolve_offer_arrangement :
    ServiceRequest
    → Option Service
    → Option BookingLocationMode
    → Option JobLocation
    → Result (BookingLocationMode × Option JobLocation)
resolve_offer_arrangement request s selected custom = do
  mode ← resolve_visit_mode request.service_location_mode selected
  check_listing_mode s mode
  venue ← venue_for mode s custom
  ok (mode, venue)

-- The location of a job that the provider visits, when none was selected.
unfoldable pub requested_location : ServiceRequest → Result (Option JobLocation)
unfolding location_from_record
requested_location r = do
  if not (is_some r.target_service_id)
        && not (is_some (filled r.private_address))
        && is_some r.site.latitude
      then assert_job_location none
      else ok tt
  elim (location_from_record r.site r.private_address) [
    | some point ↦ ok (some point)
    | none ↦
        if is_some (filled r.private_address)
        then (parse_location (addressed r.site.location_label 11 r.private_address) >>= λ l.
            ok (some l))
        else ok none
  ]

abbrev pub visited_location : ServiceRequest → Option JobLocation → Result (Option JobLocation)
visited_location r (some l) = parse_location l >>= λ parsed. ok (some parsed)
visited_location r none = requested_location r

-- `JobLocationSchema.safeParse(offer.providerVenue)`
abbrev pub offer_venue : Option JobLocation → Result (Option JobLocation)
offer_venue venue = elim venue [
  | none ↦ err (http 409 Code.provider_venue_required)
  | some l ↦ elim (parse_location l) [
    | err _ ↦ err (http 409 Code.provider_venue_required)
    | ok parsed ↦ ok (some parsed)
  ]
]

unfoldable pub offer_job_location :
    Offer → ServiceRequest → Option JobLocation → Result (Option JobLocation)
offer_job_location o r selected = elim o.service_location_mode [
  | none ↦ visited_location r selected
  | some mode ↦ elim mode [
    | BookingLocationMode.remote ↦ ok none
    | BookingLocationMode.seeker_visits ↦ offer_venue o.provider_venue
    | BookingLocationMode.provider_visits ↦ visited_location r selected
  ]
]
