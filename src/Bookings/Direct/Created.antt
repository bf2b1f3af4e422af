-- ===== src/Bookings/Direct/Created.antt =====
-- A direct request is made once for a listing while it is live, after
-- services/bookings/direct-bookings.service.ts.
use servicehub_backend.Base.{
  ℕ, ◌≡◌, refl, sym, ap, ◌∙◌, subst, true, ◌&&◌, Option, none, some, List, [], ◌∷◌, arith, ◌==◌,
  is_some, ==_refl, Code, ok, http, reject, >>=-eq-ok, require-eq-ok, reject-eq-ok, found-eq-ok,
  ok_second, ok_first, find, count, insert, count-insert, find-none-count,
}
use servicehub_backend.Schema.{
  booking_conflicts, Db, Booking, Service, Notice, find_user, find_service, is_unpaid,
}
use servicehub_backend.Policy.Accounts.{
  assert_distinct_accounts, can_take_work, marketplace_participants_eligible,
}
use servicehub_backend.Policy.Pricing.{DirectTerms}
use servicehub_backend.Policy.Arrangement.{Arrangement}
use servicehub_backend.Providers.{assert_new_provider_business}
use servicehub_backend.Bookings.{record_lifecycle_notice}
use servicehub_backend.Bookings.Frame.{record_lifecycle_notice-frame}
use servicehub_backend.Bookings.Direct.{
  DirectParams, is_bookable, books_same, books_same_now, direct_terms, check_direct,
  direct_request_row, direct_booking_row, insert_booking, insert_direct_request,
  place_direct_booking, create_direct_booking, create_direct_request,
}
use servicehub_backend.Bookings.Direct.Responses.{is_pending_approval}
use servicehub_backend.Bookings.Direct.Answers.{new_business-direct, new_business-services}

check_direct_none :
    (p : DirectParams) (db : Db) → check_direct p db ≡ ok tt → count (books_same p) db.bookings ≡ 0
unfolding check_direct
check_direct_none p db h =
    let (_, _, h1) = >>=-eq-ok (assert_distinct_accounts p.seeker_id p.provider_id) _ h in
    let (s, _, h2) = found-eq-ok (find_service p.service_id db) _ _ h1 in
    let (_, h3) = require-eq-ok (is_bookable p s) _ h2 in
    let (_, _, h4) = >>=-eq-ok (direct_terms p s) _ h3 in
    let (u, _, h5) = found-eq-ok (find_user s.provider_id db) _ _ h4 in
    let (_, h6) = require-eq-ok (can_take_work u) _ h5 in
    let (_, h7) = require-eq-ok s.accepts_cash _ h6 in
    find-none-count (books_same p) db.bookings (nothing (find (books_same p) db.bookings) h7)
  where
    nothing : (o : Option Booking) → reject (is_some o) (http 400 Code.no_code) ≡ ok tt → o ≡ none
    nothing none k = refl
    nothing (some x) k = cc

place_direct_booking-rows :
    (row : Booking) (db d : Db) (b : Booking)
    → place_direct_booking row db ≡ ok (b, d)
    → (row ≡ b) × (d.bookings ≡ insert row db.bookings)
unfolding place_direct_booking
place_direct_booking-rows row db d b h =
    let (_, h1) = reject-eq-ok (is_some (find (booking_conflicts row) db.bookings)) _ h in
    let notices : List (ℕ × Notice) =
      (row.provider_id, Notice.direct_request_received row.id) ∷ [] in
    let (told, ran, last) =
      >>=-eq-ok (record_lifecycle_notice row notices none (insert_booking row db)) _ h1 in
    let frame = record_lifecycle_notice-frame row notices none (insert_booking row db) told ran in
    (ok_first last, ap (λ t. t.bookings) (sym (ok_second last)) ∙ ap (λ t. t.bookings) frame)

created_rows :
    (p : DirectParams) (now : ℕ) (db d : Db) (b : Booking)
    → create_direct_booking p now db ≡ ok (b, d)
    → (d.bookings ≡ insert b db.bookings)
      × (s : Service) × (a : Arrangement) × (terms : DirectTerms) × (find_service p.service_id db
          ≡ some s)
      × (direct_terms p s ≡ ok (a, terms))
      × (b.agreed_amount ≡ some terms.amount)
      × (books_same p b ≡ true)
      × (is_pending_approval b.status ≡ true)
      × (is_unpaid b.payment_status ≡ true)
unfolding create_direct_booking
created_rows p now db d b h =
    let (x, trial, h1) = >>=-eq-ok (assert_new_provider_business p.provider_id now db) _ h in
    let (_, h2) =
      require-eq-ok (marketplace_participants_eligible p.seeker_id p.provider_id x.users) _ h1 in
    let (_, h3) = reject-eq-ok (is_some (find (books_same_now p) x.bookings)) _ h2 in
    let (s, listed, h4) = found-eq-ok (find_service p.service_id x) _ _ h3 in
    let (_, h5) = require-eq-ok (is_bookable p s && s.accepts_cash) _ h4 in
    let ((a, terms), agreed, h6) = >>=-eq-ok (direct_terms p s) _ h5 in
    let requested = insert_direct_request (direct_request_row x.next_id p terms.amount) x in
    let row = direct_booking_row requested.next_id x.next_id p a terms now in
    let (same, rows) = place_direct_booking-rows row requested d b h6 in
    let old = (new_business-direct p.provider_id now db x trial).0 in
    (
      rows ∙ ap (insert row) old ∙ ap (λ y. insert y db.bookings) same,
      s,
      a,
      terms,
      ap (find (λ y. y.id == p.service_id))
            (sym (new_business-services p.provider_id now db x trial))
          ∙ listed,
      agreed,
      ap (λ y. y.agreed_amount) (sym same),
      subst (λ y. books_same p y ≡ true) same (own requested.next_id x.next_id a terms),
      ap (λ y. is_pending_approval y.status) (sym same),
      ap (λ y. is_unpaid y.payment_status) (sym same),
    )
  where
    own :
        (id request : ℕ) (a : Arrangement) (terms : DirectTerms)
        → books_same p (direct_booking_row id request p a terms now) ≡ true
    own id request a terms = ground (arith, ==_refl p.seeker_id, ==_refl p.service_id)

-- What a direct request creates: the seeker had no booking of the listing under way and has exactly
-- one now, which waits for the provider's answer, is not paid, and is for the total that the listing
-- asks at that time.
pub create_direct_request_single :
    (p : DirectParams) (now : ℕ) (db d : Db) (b : Booking)
    → create_direct_request p now db ≡ ok (b, d)
    → (count (books_same p) db.bookings ≡ 0)
      × (count (books_same p) d.bookings ≡ 1)
      × (d.bookings ≡ insert b db.bookings)
      × (is_pending_approval b.status ≡ true)
      × (is_unpaid b.payment_status ≡ true)
      × ((s : Service) × (a : Arrangement) × (terms : DirectTerms) × (find_service p.service_id db
            ≡ some s)
          × (direct_terms p s ≡ ok (a, terms))
          × (b.agreed_amount ≡ some terms.amount))
unfolding create_direct_request
create_direct_request_single p now db d b h =
    let (_, checked, created) = >>=-eq-ok (check_direct p db) _ h in
    let before = check_direct_none p db checked in
    let (rows, s, a, terms, listed, agreed, price, counted, waits, owes) =
      created_rows p now db d b created in
    (
      before,
      ground (
        arith,
        ap (count (books_same p)) rows,
        count-insert (books_same p) b db.bookings,
        before,
        counted,
      ),
      rows,
      waits,
      owes,
      (s, a, terms, listed, agreed, price),
    )
