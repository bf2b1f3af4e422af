-- ===== src/Offers/Submitted.antt =====
-- services/offers.service.ts, submitOffer, keeps the rule that one offer of a request is selected
-- at most, and a provider has one live offer on a request at most.
use servicehub_backend.Base.{
  ℕ, ◌≤◌, ◌≡◌, refl, sym, ap, ◌∙◌, subst, true, false, not, ◌&&◌, Option, none, some, arith, ltb,
  ◌==◌, is_some, ==_refl, ok, >>=-eq-ok, require-eq-ok, reject-eq-ok, found-eq-ok, ok_second,
  ok_first, OnOk_elim, find, count, insert, count-insert, find-none-count, count-zero-find,
  find-insert_new,
}
use servicehub_backend.Schema.{
  Db, Offer, ServiceRequest, BookingLocationMode, JobLocation, is_pending_offer, is_open_request,
  find_user, find_offer, find_request,
}
use servicehub_backend.Policy.Accounts.{
  Participant, assert_distinct_accounts, assert_offer_participant, assert_offer_target,
}
use servicehub_backend.Policy.Arrangement.{resolve_offer_arrangement}
use servicehub_backend.Providers.{assert_new_provider_business, new_business_tables}
use servicehub_backend.Offers.{
  OfferParams, is_inquiry, fulfills, check_listing, chosen_listing, priced_by_agreement,
  is_live_offer, offer_row, create_offer, submit_offer, message_length,
}
use servicehub_backend.Offers.Selected.{
  is_selected_for, IsSelectedOnce, KeepsOffers, keeps-IsSelectedOnce,
}

pub new_business-KeepsOffers :
    (provider now : ℕ) (db d : Db)
    → assert_new_provider_business provider now db ≡ ok d
    → KeepsOffers db d
new_business-KeepsOffers provider now db d h =
    let frame =
      OnOk_elim (λ x. x ≡ record db { users = x.users })
        (assert_new_provider_business provider now db) d (new_business_tables provider now db) h in
    (
      ap (λ x. x.offers) frame,
      ap (λ x. x.requests) frame,
      ground (arith, ap (λ x. x.next_id) frame),
    )

created-IsSelectedOnce :
    (provider : ℕ) (r : ServiceRequest) (p : OfferParams) (mode : BookingLocationMode)
    (venue : Option JobLocation) (db : Db)
    → IsSelectedOnce db
    → IsSelectedOnce (create_offer provider r p mode venue db)
created-IsSelectedOnce provider r p mode venue db inv =
    let row = offer_row db.next_id provider p mode venue in
    let selected = λ (x : ℕ). count-insert (is_selected_for x) row db.offers in
    let ids = λ (x : ℕ). count-insert (λ (o : Offer). o.id == x) row db.offers in
    record {
      once = λ x. ground (arith, selected x, inv.once x);
      free = λ x h. ground (arith, selected x, inv.free x, h);
      unique = λ x. ground (arith, ids x, inv.unique x, inv.fresh x);
      fresh = λ x h. ground (arith, ids x, inv.fresh x, h);
    }

-- What a submission has checked, and what it writes.
pub submit_offer_inversion :
    (provider : ℕ) (p : OfferParams) (now : ℕ) (db d : Db) (id : ℕ)
    → submit_offer provider p now db ≡ ok (id, d)
    → (r : ServiceRequest) × (e : Db) × (mode : BookingLocationMode) × (venue : Option JobLocation)
      × (find_request p.request_id db ≡ some r)
      × (is_open_request r.status ≡ true)
      × KeepsOffers db e
      × (is_some (find (is_live_offer p.request_id provider) e.offers) ≡ false)
      × (id ≡ e.next_id)
      × (d ≡ create_offer provider r p mode venue e)
unfolding submit_offer
submit_offer_inversion provider p now db d id h =
    let (r, asked, h1) = found-eq-ok (find_request p.request_id db) _ _ h in
    let (_, _, h2) = >>=-eq-ok (assert_distinct_accounts provider r.seeker_id) _ h1 in
    let (_, _, h3) =
      >>=-eq-ok (assert_offer_participant (find_user provider db) Participant.provider) _ h2 in
    let (e, trial, h4) = >>=-eq-ok (assert_new_provider_business provider now db) _ h3 in
    let (_, _, h5) =
      >>=-eq-ok (assert_offer_participant (find_user r.seeker_id e) Participant.seeker) _ h4 in
    let (_, _, h6) =
      >>=-eq-ok (assert_offer_target r.target_provider_id r.target_service_id provider p.service_id)
        _ h5 in
    let (_, h7) = reject-eq-ok (is_inquiry r && ltb (message_length p.message) 10) _ h6 in
    let (_, h8) = reject-eq-ok (is_some (find (fulfills p.request_id e) e.bookings)) _ h7 in
    let (opened, h9) = require-eq-ok (is_open_request r.status) _ h8 in
    let listing = chosen_listing p.service_id e in
    let (_, _, h10) = >>=-eq-ok (check_listing provider r p.service_id listing) _ h9 in
    let (_, h11) = reject-eq-ok (is_inquiry r && not (priced_by_agreement listing)) _ h10 in
    let ((mode, venue), _, h12) =
      >>=-eq-ok (resolve_offer_arrangement r listing p.service_location_mode p.provider_venue) _
        h11 in
    let (single, h13) =
      reject-eq-ok (is_some (find (is_live_offer p.request_id provider) e.offers)) _ h12 in
    (
      r,
      e,
      mode,
      venue,
      asked,
      opened,
      new_business-KeepsOffers provider now db e trial,
      single,
      sym (ok_first h13),
      sym (ok_second h13),
    )

pub submit_offer-IsSelectedOnce :
    (provider : ℕ) (p : OfferParams) (now : ℕ) (db d : Db) (id : ℕ)
    → IsSelectedOnce db
    → submit_offer provider p now db ≡ ok (id, d)
    → IsSelectedOnce d
submit_offer-IsSelectedOnce provider p now db d id inv h =
    let (r, e, mode, venue, _, _, keeps, _, _, rows) =
      submit_offer_inversion provider p now db d id h in
    subst IsSelectedOnce (sym rows)
      (created-IsSelectedOnce provider r p mode venue e (keeps-IsSelectedOnce db e keeps inv))

-- A provider has one live offer on a request at most: a submission that succeeds was made while the
-- request was open and the provider had none on it, and makes one, which is pending and for the
-- price that was asked, if no offer has an id that is still to be given.
pub submit_offer_single :
    (provider : ℕ) (p : OfferParams) (now : ℕ) (db d : Db) (id : ℕ)
    → ((x : ℕ) → db.next_id ≤ x → count (λ (o : Offer). o.id == x) db.offers ≡ 0)
    → submit_offer provider p now db ≡ ok (id, d)
    → (count (is_live_offer p.request_id provider) db.offers ≡ 0)
      × (count (is_live_offer p.request_id provider) d.offers ≡ 1)
      × ((r : ServiceRequest) × (find_request p.request_id db ≡ some r)
          × (is_open_request r.status ≡ true))
      × ((o : Offer) × (find_offer id d ≡ some o)
          × (is_pending_offer o.status ≡ true)
          × (o.offered_price ≡ p.offered_price))
submit_offer_single provider p now db d id fresh h =
    let (r, e, mode, venue, asked, opened, (os, rs, n), single, new, rows) =
      submit_offer_inversion provider p now db d id h in
    let row = offer_row e.next_id provider p mode venue in
    let before : count (is_live_offer p.request_id provider) e.offers ≡ 0 =
      find-none-count (is_live_offer p.request_id provider) e.offers (nothing _ single) in
    let offers : d.offers ≡ insert row e.offers = ap (λ x. x.offers) rows in
    let unknown =
      count-zero-find (λ (o : Offer). o.id == e.next_id) e.offers
        (ap (count (λ (o : Offer). o.id == e.next_id)) os ∙ fresh e.next_id (omega (arith, n))) in
    (
      subst (λ x. count (is_live_offer p.request_id provider) x ≡ 0) os before,
      ground (
        arith,
        ap (count (is_live_offer p.request_id provider)) offers,
        count-insert (is_live_offer p.request_id provider) row e.offers,
        before,
        ==_refl p.request_id,
        ==_refl provider,
      ),
      (r, asked, opened),
      (
        row,
        ap (λ i. find_offer i d) new
            ∙ ap (find (λ o. o.id == e.next_id)) offers
            ∙ find-insert_new (λ (o : Offer). o.id == e.next_id) row e.offers unknown
                (==_refl e.next_id),
        refl,
        refl,
      ),
    )
  where
    nothing : (o : Option Offer) → is_some o ≡ false → o ≡ none
    nothing none k = refl
    nothing (some x) k = cc
