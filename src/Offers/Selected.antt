-- ===== src/Offers/Selected.antt =====
-- How many offers of a request are selected, which is to say accepted or held for a payment, under
-- the writes of services/offers.service.ts, services/offer-selection-notifications.service.ts and
-- services/payment-attempt.service.ts.
use servicehub_backend.Base.{
  ℕ, ◌+◌, ◌≤◌, ◌≡◌, refl, ◌≢◌, inl, inr, Bool, true, false, ◌&&◌, ◌||◌, Option, none, some, List,
  arith, ◌==◌, if◌then◌else◌, Bool-cases, Option-cases, count, update, count-update_same,
  count-update-le, find-holds, find-count, count-update_none, count-update_apart, count-update_one,
}
use servicehub_backend.Schema.{
  Db, Offer, ServiceRequest, is_pending_payment, is_accepted_offer, is_open_request, find_offer,
  find_request, update_offer, update_request,
}
use servicehub_backend.Payments.{free_offer, reopen, awaits_payment, release_offer_hold}

-- An offer of the request that is accepted or held.
abbrev pub is_selected_for : ℕ → Offer → Bool
is_selected_for request o =
    o.request_id == request && (is_pending_payment o.status || is_accepted_offer o.status)

abbrev pub selected_offers : ℕ → Db → ℕ
selected_offers request db = count (is_selected_for request) db.offers

abbrev pub open_requests : ℕ → Db → ℕ
open_requests request db = count (λ r. r.id == request && is_open_request r.status) db.requests

abbrev pub offers_with : ℕ → Db → ℕ
offers_with id db = count (λ o. o.id == id) db.offers

-- Of each request one offer at most is selected, and none while the request is open. The ids of
-- offers are unique and below the next new one.
pub record IsSelectedOnce (db : Db) : Type 0 where
  pub once : (request : ℕ) → selected_offers request db ≤ 1
  pub free : (request : ℕ) → 1 ≤ open_requests request db → selected_offers request db ≡ 0
  pub unique : (id : ℕ) → offers_with id db ≤ 1
  pub fresh : (id : ℕ) → db.next_id ≤ id → offers_with id db ≡ 0

-- The same offers and requests, and ids that are not taken.
abbrev pub KeepsOffers : Db → Db → Type 0
KeepsOffers db d = (d.offers ≡ db.offers) × (d.requests ≡ db.requests) × (db.next_id ≤ d.next_id)

pub keeps-IsSelectedOnce : (db d : Db) → KeepsOffers db d → IsSelectedOnce db → IsSelectedOnce d
keeps-IsSelectedOnce db d (os, rs, n) inv = record {
  once = λ x. ground (arith, inv.once x, os);
  free = λ x h. ground (arith, inv.free x, os, rs, h);
  unique = λ x. ground (arith, inv.unique x, os);
  fresh = λ x h. ground (arith, inv.fresh x, os, n, h);
}

-- The invariant after a write that keeps the ids of the offers.
pub rewritten-IsSelectedOnce :
    (db d : Db)
    → IsSelectedOnce db
    → ((x : ℕ) → selected_offers x d ≤ 1)
    → ((x : ℕ) → 1 ≤ open_requests x d → selected_offers x d ≡ 0)
    → ((x : ℕ) → offers_with x d ≡ offers_with x db)
    → db.next_id ≤ d.next_id
    → IsSelectedOnce d
rewritten-IsSelectedOnce db d inv once free ids n = record {
  once = once;
  free = free;
  unique = λ x. ground (arith, inv.unique x, ids x);
  fresh = λ x h. ground (arith, inv.fresh x, ids x, n, h);
}

abbrev pub one_if : Bool → ℕ
one_if b = if b then 1 else 0

-- A write to the one offer of an id.
pub selected-update_offer :
    (id : ℕ) (f : Offer → Offer) (db : Db) (o : Offer)
    → IsSelectedOnce db
    → find_offer id db ≡ some o
    → (x : ℕ)
    → selected_offers x (update_offer id f db) + one_if (is_selected_for x o)
      ≡ selected_offers x db + one_if (is_selected_for x (f o))
selected-update_offer id f db o inv e x =
    count-update_one (is_selected_for x) (λ y. y.id == id) f db.offers o (inv.unique id) e

pub offers_with-update :
    (p : Offer → Bool) (f : Offer → Offer) (os : List Offer)
    → ((o : Offer) → (f o).id ≡ o.id)
    → (x : ℕ) → count (λ o. o.id == x) (update p f os) ≡ count (λ o. o.id == x) os
offers_with-update p f os keeps x =
    count-update_same (λ o. o.id == x) p f os (λ o. ground (arith, keeps o))

-- A request that is closed, taken or put on hold.
pub open-update_request :
    (id : ℕ) (f : ServiceRequest → ServiceRequest) (db : Db)
    → ((r : ServiceRequest) → is_open_request (f r).status ≡ false)
    → ((r : ServiceRequest) → (f r).id ≡ r.id)
    → (x : ℕ)
    → (open_requests x (update_request id f db) ≤ open_requests x db)
      × (x ≡ id → open_requests x (update_request id f db) ≡ 0)
open-update_request id f db closes keeps x = (
  count-update-le (λ r. r.id == x && is_open_request r.status) (λ r. r.id == id) f db.requests
      (λ r h. ground (arith, closes r, h)),
  λ e.
      count-update_none (λ r. r.id == x && is_open_request r.status) (λ r. r.id == id) f db.requests
        (λ r h. ground (arith, closes r)) (λ r h. ground (arith, e, h)),
)

-- Where the request of an offer is open, none of its offers is selected.
pub free_request :
    (db : Db) (r : ServiceRequest) (request : ℕ)
    → IsSelectedOnce db
    → find_request request db ≡ some r
    → is_open_request r.status ≡ true
    → selected_offers request db ≡ 0
free_request db r request inv e o = inv.free request (
    find-count (λ y. y.id == request) (λ y. y.id == request && is_open_request y.status) db.requests
      r e (ground (arith, find-holds (λ (y : ServiceRequest). y.id == request) db.requests r e, o)))

reopened :
    (request x : ℕ) (db : Db)
    → x ≢ request
    → count
        (λ r. r.id == x && is_open_request r.status)
        (update (awaits_payment request) reopen db.requests)
      ≡ open_requests x db
reopened request x db n =
    count-update_apart (λ r. r.id == x && is_open_request r.status) (awaits_payment request) reopen
      db.requests (λ r h. ground (arith, h, n)) (λ r h. ground (arith, h, n))

-- A hold that is given up leaves the request with no selected offer.
pub release_offer_hold-IsSelectedOnce :
    (offer : Option ℕ) (db : Db) → IsSelectedOnce db → IsSelectedOnce (release_offer_hold offer db)
unfolding release_offer_hold
release_offer_hold-IsSelectedOnce none db inv = inv
release_offer_hold-IsSelectedOnce (some id) db inv = elim (Option-cases (find_offer id db)) [
  | inl e ↦ rw (e, release_offer_hold) inv
  | inr (o, e) ↦ elim (Bool-cases (is_pending_payment o.status)) [
    | inl held ↦ rw (e, held, release_offer_hold) (released o e held)
    | inr other ↦ rw (e, other, release_offer_hold) inv
  ]
]
  where
    released :
        (o : Offer)
        → find_offer id db ≡ some o
        → is_pending_payment o.status ≡ true
        → IsSelectedOnce (record db {
          offers = update (λ y. y.id == id) free_offer db.offers;
          requests = update (awaits_payment o.request_id) reopen db.requests;
        })
    released o e held =
        let moved = selected-update_offer id free_offer db o inv e in
        rewritten-IsSelectedOnce db _ inv (λ x. ground (arith, moved x, inv.once x))
          (λ x h. elim (Bool-cases (o.request_id == x)) [
            | inl same ↦ ground (arith, moved x, inv.once x, same, held)
            | inr apart ↦ ground (
              arith,
              moved x,
              inv.free x,
              reopened o.request_id x db (λ q. ground (arith, q, apart)),
              h,
            )
          ])
          (offers_with-update (λ y. y.id == id) free_offer db.offers (λ y. refl)) (omega arith)
