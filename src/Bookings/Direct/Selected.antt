-- ===== src/Bookings/Direct/Selected.antt =====
-- services/bookings/direct-bookings.service.ts: an offer that is taken for cash keeps the rule that
-- one offer of a request is selected at most.
use servicehub_backend.Base.{
  ℕ, ◌+◌, ◌≡◌, refl, sym, ap, ◌∙◌, subst, inl, true, ◌&&◌, Option, some, arith, ◌==◌, ==→eq,
  ==_refl, &&_parts, ok, >>=-eq-ok, require-eq-ok, reject-eq-ok, is_some, found-eq-ok, ok_second,
  find, count, update, find-holds, count-update_one, find-narrow, count-narrow,
}
use servicehub_backend.Schema.{
  booking_conflicts, Db, Booking, Offer, ServiceRequest, JobLocation, ProgressKind, ActorRole,
  is_pending_offer, is_open_request, find_offer, find_request,
}
use servicehub_backend.Policy.Accounts.{assert_distinct_accounts}
use servicehub_backend.Providers.{assert_new_provider_business}
use servicehub_backend.Bookings.{record_booking_progress, record_lifecycle_notice}
use servicehub_backend.Bookings.Frame.{record_booking_progress-frame, record_lifecycle_notice-frame}
use servicehub_backend.Offers.{is_pending_id}
use servicehub_backend.Offers.Selected.{
  is_selected_for, selected_offers, IsSelectedOnce, KeepsOffers, keeps-IsSelectedOnce, one_if,
  offers_with-update, free_request,
}
use servicehub_backend.Offers.Kept.{select-IsSelectedOnce}
use servicehub_backend.Offers.Submitted.{new_business-KeepsOffers}
use servicehub_backend.Bookings.Direct.{record_agreement, insert_booking}
use servicehub_backend.Bookings.Direct.Inquiries.{
  is_open_id, select_cash, begin_request, select_for_cash, offer_booking, check_offer, check_cash,
  book_cash, create_direct_from_offer,
}

pub record_agreement-KeepsOffers :
    (b : Booking) (actor : ActorRole) (now : ℕ) (db d : Db)
    → record_agreement b actor now db ≡ ok d
    → KeepsOffers db d
unfolding record_agreement
record_agreement-KeepsOffers b actor now db d h =
    let told = record_booking_progress b.id ProgressKind.accepted actor 0 now db in
    let progress = record_booking_progress-frame b.id ProgressKind.accepted actor 0 now db in
    let (e, ran, last) = >>=-eq-ok (record_lifecycle_notice b _ _ told) _ h in
    let frame = record_lifecycle_notice-frame b _ _ told e ran in
    (
      ground (arith, last, ap (λ x. x.offers) frame, ap (λ x. x.offers) progress),
      ground (arith, last, ap (λ x. x.requests) frame, ap (λ x. x.requests) progress),
      ground (arith, last, ap (λ x. x.next_id) frame, ap (λ x. x.next_id) progress),
    )

cash_count :
    (o : Offer) (db : Db)
    → IsSelectedOnce db
    → find_offer o.id db ≡ some o
    → is_pending_offer o.status ≡ true
    → (x : ℕ)
    → count (is_selected_for x) (update (is_pending_id o.id) select_cash db.offers)
        + one_if (is_selected_for x o)
      ≡ selected_offers x db + one_if (is_selected_for x (select_cash o))
cash_count o db inv e pending x =
    count-update_one (is_selected_for x) (is_pending_id o.id) select_cash db.offers o
      (omega (
        arith,
        inv.unique o.id,
        count-narrow (is_pending_id o.id) (λ (y : Offer). y.id == o.id) db.offers
            (λ y h. ground (arith, h)),
      ))
      (find-narrow (is_pending_id o.id) (λ (y : Offer). y.id == o.id) db.offers o
        (λ y h. ground (arith, h)) e (ground (arith, pending, ==_refl o.id)))

select_for_cash-IsSelectedOnce :
    (o : Offer) (r : ServiceRequest) (db : Db)
    → IsSelectedOnce db
    → find_offer o.id db ≡ some o
    → find_request o.request_id db ≡ some r
    → is_pending_offer o.status ≡ true
    → is_open_request r.status ≡ true
    → IsSelectedOnce (select_for_cash o db)
unfolding select_for_cash
select_for_cash-IsSelectedOnce o r db inv e f pending opened =
    select-IsSelectedOnce select_cash begin_request o db _ inv (cash_count o db inv e pending)
      (inl (free_request db r o.request_id inv f opened)) refl
      (offers_with-update (is_pending_id o.id) select_cash db.offers (λ y. refl)) refl (omega arith)
      (λ y. refl) (λ y. refl)

book_cash-IsSelectedOnce :
    (o : Offer) (r : ServiceRequest) (seeker : ℕ) (location : Option JobLocation) (now : ℕ)
    (db d : Db) (b : Booking)
    → IsSelectedOnce db
    → find_offer o.id db ≡ some o
    → find_request o.request_id db ≡ some r
    → is_pending_offer o.status ≡ true
    → is_open_request r.status ≡ true
    → book_cash o seeker location now db ≡ ok (b, d)
    → IsSelectedOnce d
unfolding book_cash
book_cash-IsSelectedOnce o r seeker location now db d b inv e f pending opened h =
    let (_, h1) = require-eq-ok (count (is_pending_id o.id) db.offers == 1) _ h in
    let (_, h2) = require-eq-ok (count (is_open_id o.request_id) db.requests == 1) _ h1 in
    let selected = select_for_cash o db in
    let row = offer_booking selected.next_id o seeker location now in
    let (_, h3) = reject-eq-ok (is_some (find (booking_conflicts row) selected.bookings)) _ h2 in
    let (told, agreed, last) =
      >>=-eq-ok (record_agreement row ActorRole.seeker now (insert_booking row selected)) _ h3 in
    let (os, rs, n) = record_agreement-KeepsOffers row ActorRole.seeker now _ told agreed in
    subst IsSelectedOnce (ok_second last) (
      keeps-IsSelectedOnce selected told (os, rs, omega (arith, n))
        (select_for_cash-IsSelectedOnce o r db inv e f pending opened))

check_offer_states :
    (o : Offer) (r : ServiceRequest) (seeker : ℕ) (db : Db)
    → check_offer o r seeker db ≡ ok tt
    → (is_pending_offer o.status ≡ true) × (is_open_request r.status ≡ true)
unfolding check_offer
check_offer_states o r seeker db h =
    let (_, h1) = require-eq-ok (r.seeker_id == seeker) _ h in
    let (_, _, h2) = >>=-eq-ok (assert_distinct_accounts seeker o.provider_id) _ h1 in
    let (states, _) = require-eq-ok (is_pending_offer o.status && is_open_request r.status) _ h2 in
    &&_parts _ _ states

pub create_direct_from_offer-IsSelectedOnce :
    (offer seeker : ℕ) (job : Option JobLocation) (now : ℕ) (db d : Db) (b : Booking)
    → IsSelectedOnce db
    → create_direct_from_offer offer seeker job now db ≡ ok (b, d)
    → IsSelectedOnce d
unfolding create_direct_from_offer
create_direct_from_offer-IsSelectedOnce offer seeker job now db d b inv h =
    let (o, e, h1) = found-eq-ok (find_offer offer db) _ _ h in
    let (r, f, h2) = found-eq-ok (find_request o.request_id db) _ _ h1 in
    let (_, checked, h3) = >>=-eq-ok (check_offer o r seeker db) _ h2 in
    let (x, trial, h4) = >>=-eq-ok (assert_new_provider_business o.provider_id now db) _ h3 in
    let (location, _, booked) = >>=-eq-ok (check_cash o r seeker job x) _ h4 in
    let keeps = new_business-KeepsOffers o.provider_id now db x trial in
    let id = ==→eq _ _ (find-holds (λ (y : Offer). y.id == offer) db.offers o e) in
    let (pending, opened) = check_offer_states o r seeker db checked in
    book_cash-IsSelectedOnce o r seeker location now x d b (keeps-IsSelectedOnce db x keeps inv)
      (ap (find (λ y. y.id == o.id)) keeps.0 ∙ subst (λ y. find_offer y db ≡ some o) (sym id) e)
      (ap (find (λ y. y.id == o.request_id)) keeps.1 ∙ f) pending opened booked
