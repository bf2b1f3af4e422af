-- ===== src/Policy/Arrangement/Venues.antt =====
-- The places that lib/service-arrangement.ts settles on.
use servicehub_backend.Base.{
  ◌≡◌, refl, subst, ◌↔◌, ◌⊎◌, inl, inr, true, false, Option, none, some, arith, Bool-cases,
  Option-cases, ok, >>=-eq-ok, require-eq-ok, found-eq-ok,
}
use servicehub_backend.Schema.{
  ServiceLocationMode, BookingLocationMode, Text, JobLocation, Service, ServiceRequest, Offer,
}
use servicehub_backend.Policy.Arrangement.{
  valid_location, trim, trim_all, is_written, parse_location, fixed_mode, unsupported,
  resolve_visit_mode, provider_venue, offered_venue, venue_for, check_listing_mode,
  resolve_offer_arrangement, offer_job_location, arrangement_failure, location_from_record,
  addressed,
}

-- A mode is settled on exactly when the listing or request offers it (a listing that offers both
-- kinds of visit offers no remote work) and the participant chose it, or chose none where the
-- listing offers this one alone.
pub resolve_visit_mode_exact :
    (available : ServiceLocationMode) (selected : Option BookingLocationMode)
    (mode : BookingLocationMode)
    → (resolve_visit_mode available selected ≡ ok mode) ↔ (
        (unsupported available mode ≡ false)
        × ((selected ≡ some mode) ⊎ ((selected ≡ none) × (fixed_mode available ≡ some mode))))
unfolding resolve_visit_mode
resolve_visit_mode_exact available (some m) mode = (
  λ h. (ground arith, inl (ground arith)),
  λ h. elim h.1 [ inl e ↦ ground (arith, h.0, e) | inr e ↦ absurd (cc (e.0)) ],
)
resolve_visit_mode_exact available none mode = elim (Option-cases (fixed_mode available)) [
  | inl e ↦ (
    λ h. absurd (ground (arith, e, h)),
    λ h. elim h.1 [ inl q ↦ absurd (cc q) | inr q ↦ absurd (cc (e, q.1)) ],
  )
  | inr (m, e) ↦ (
    λ h. (ground (arith, e, h), inr (refl, ground (arith, e, h))),
    λ h. elim h.1 [ inl q ↦ absurd (cc q) | inr q ↦ ground (arith, e, q.1, h.0) ],
  )
]

parse_inversion :
    (l parsed : JobLocation)
    → parse_location l ≡ ok parsed
    → (valid_location l ≡ true)
      × (record l { label = trim l.label; address = trim_all l.address } ≡ parsed)
unfolding parse_location
parse_inversion l parsed h = let (valid, e) = require-eq-ok (valid_location l) _ h in (valid, cc e)

trimmed_valid :
    (l : JobLocation)
    → valid_location (record l { label = trim l.label; address = trim_all l.address })
      ≡ valid_location l
trimmed_valid l = elim (Option-cases l.address) [ inl e ↦ rw e refl | inr (t, e) ↦ rw e refl ]

trim_all_idem : (o : Option Text) → trim_all (trim_all o) ≡ trim_all o
trim_all_idem none = refl
trim_all_idem (some t) = refl

-- A location that the schema returns passes it again unchanged.
pub parse_location_idem :
    (l parsed : JobLocation) → parse_location l ≡ ok parsed → parse_location parsed ≡ ok parsed
parse_location_idem l parsed h =
    let (valid, e) = parse_inversion l parsed h in
    subst (λ q. parse_location q ≡ ok q) e (idem valid)
  where
    idem :
        valid_location l ≡ true
        → parse_location (record l { label = trim l.label; address = trim_all l.address })
          ≡ ok (record l { label = trim l.label; address = trim_all l.address })
    idem valid = unfold parse_location in rw (trimmed_valid l, valid, trim_all_idem l.address) refl

provider_venue_idem :
    (s : Service) (venue : JobLocation)
    → provider_venue s ≡ ok venue
    → parse_location venue ≡ ok venue
unfolding provider_venue
provider_venue_idem s venue h = elim (Bool-cases (is_written s.venue_address)) [
  | inl w ↦
      parse_location_idem (addressed s.site.location_label 18 s.venue_address) venue
        (ground (arith, h, w))
  | inr w ↦
      let (point, _, parsed) =
        found-eq-ok (location_from_record s.site s.venue_address) arrangement_failure
          (λ p. parse_location p) {x = venue} (ground (arith, h, w)) in
      parse_location_idem point venue parsed
]

offered_venue_idem :
    (s : Option Service) (custom : Option JobLocation) (venue : JobLocation)
    → offered_venue s custom ≡ ok venue
    → parse_location venue ≡ ok venue
offered_venue_idem (some s) custom venue h = provider_venue_idem s venue h
offered_venue_idem none custom venue h =
    let (l, _, parsed) = found-eq-ok custom arrangement_failure (λ p. parse_location p) h in
    parse_location_idem l venue parsed

-- An offer that was accepted for a visit of the seeker stores a venue, and whoever books it later
-- gets exactly this venue as the place of the job, whatever location they send along.
pub resolve_offer_arrangement_venue :
    (r : ServiceRequest) (s : Option Service) (selected : Option BookingLocationMode)
    (custom job : Option JobLocation) (stored : Option JobLocation) (o : Offer)
    → resolve_offer_arrangement r s selected custom ≡ ok (BookingLocationMode.seeker_visits, stored)
    → o.service_location_mode ≡ some BookingLocationMode.seeker_visits
    → o.provider_venue ≡ stored
    → (venue : JobLocation) × (stored ≡ some venue) × (offer_job_location o r job ≡ ok (some venue))
unfolding resolve_offer_arrangement offer_job_location
resolve_offer_arrangement_venue r s selected custom job stored o h m v =
    let (mode, e, h1) = >>=-eq-ok (resolve_visit_mode r.service_location_mode selected) _ h in
    let (_, _, h2) = >>=-eq-ok (check_listing_mode s mode) _ h1 in
    let (place, f, h3) = >>=-eq-ok (venue_for mode s custom) _ h2 in
    let visits : mode ≡ BookingLocationMode.seeker_visits = ground (arith, h3) in
    let (venue, g, h4) =
      >>=-eq-ok (offered_venue s custom) _
        (subst (λ x. venue_for x s custom ≡ ok place) visits f) in
    let again = offered_venue_idem s custom venue g in
    (venue, ground (arith, h3, h4), ground (arith, m, v, h3, h4, again))
