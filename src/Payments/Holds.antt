-- ===== src/Payments/Holds.antt =====
-- services/payment-attempt.service.ts: a hold on an offer is undone when it is released.
use servicehub_backend.Base.{
  ℕ, ◌≤◌, ◌≡◌, refl, sym, ap, ◌∙◌, subst, inl, inr, Bool, true, false, ◌||◌, Option, none, some,
  List, [], ◌∷◌, arith, ltb, ◌==◌, Bool-cases, Option-cases, ==→eq, ==_refl, HttpError, ok, err,
  >>=-eq-ok, require-eq-ok, reject-eq-ok, found-eq-ok, find, count, update, find-holds,
  find-update_hit, update-none, count-narrow,
}
use servicehub_backend.Schema.{
  Db, User, Offer, ServiceRequest, PaymentAttempt, AttemptStatus, is_pending_offer, is_open_request,
  is_pending_payment, find_offer, find_request, update_attempt,
}
use servicehub_backend.Policy.Commission.{payment_commission}
use servicehub_backend.Policy.Membership.{subscription_benefits}
use servicehub_backend.Payments.{
  free_offer, reopen, awaits_payment, release_offer_hold, set_attempt,
}
use servicehub_backend.Payments.Prepare.{PaymentParams, Target}
use servicehub_backend.Payments.Prepare.Create.{
  Terms, check_participants, check_provider, is_payable, offer_terms, hold, pause, hold_offer,
  create_attempt, prepare_offer,
}
use servicehub_backend.Payments.Gateway.{submit_attempt}

-- Two updates of the one row of a query that undo each other.
update-undo {ℓ} :
    {A : Type ℓ} (p q : A → Bool) (f g : A → A) (xs : List A) (a : A)
    → count p xs ≤ 1
    → find p xs ≡ some a
    → g (f a) ≡ a
    → q (f a) ≡ true
    → ((x : A) → p x ≡ false → q x ≡ false)
    → update q g (update p f xs) ≡ xs
update-undo p q f g [] a h e k m n = cc
update-undo p q f g (x ∷ xs) a h e k m n = elim (Bool-cases (p x)) [
  | inl b ↦
      let same : x ≡ a = ground (arith, e, b) in
      let none' : count p xs ≡ 0 = ground (arith, h, b) in
      let rest = update-none p f xs none' in
      let still = update-none q g xs (omega (arith, none', count-below xs)) in
      ground (arith, b, same, k, m, rest, still)
  | inr b ↦ ground (arith, b, n x, update-undo p q f g xs a)
]
  where
    count-below : (ys : List _) → count q ys ≤ count p ys
    count-below ys = count-narrow q p ys (λ y c. ground (arith, c, n y))

pub hold-release :
    (now : ℕ) (o : Offer) (r : ServiceRequest) (db : Db)
    → count (λ (x : Offer). x.id == o.id) db.offers ≤ 1
    → count (λ (x : ServiceRequest). x.id == o.request_id) db.requests ≤ 1
    → find_offer o.id db ≡ some o
    → find_request o.request_id db ≡ some r
    → free_offer (hold now o) ≡ o
    → reopen (pause r) ≡ r
    → release_offer_hold (some o.id) (hold_offer now o db) ≡ db
unfolding release_offer_hold
hold-release now o r db uo ur e f po pr =
    let found' =
      find-update_hit (λ (x : Offer). x.id == o.id) (λ x. x.id == o.id) (hold now) db.offers o
        (λ x. refl) e (==_refl o.id) in
    let offers =
      update-undo (λ (x : Offer). x.id == o.id) (λ x. x.id == o.id) (hold now) free_offer db.offers
        o uo e po (==_refl o.id) (λ x h. h) in
    let requests =
      update-undo (λ (x : ServiceRequest). x.id == o.request_id) (awaits_payment o.request_id) pause
        reopen db.requests r ur f pr
        (ground (arith, find-holds (λ (x : ServiceRequest). x.id == o.request_id) db.requests r f))
        (λ x h. ground (arith, h)) in
    ground (arith, found', offers, requests)

-- What a release does to offers and requests depends on these alone.
release_congr :
    (offer : Option ℕ) (db d : Db)
    → d.offers ≡ db.offers
    → d.requests ≡ db.requests
    → ((release_offer_hold offer d).offers ≡ (release_offer_hold offer db).offers)
      × ((release_offer_hold offer d).requests ≡ (release_offer_hold offer db).requests)
unfolding release_offer_hold
release_congr none db d os rs = (os, rs)
release_congr (some id) db d os rs =
    let found' : find_offer id d ≡ find_offer id db = ap (find (λ o. o.id == id)) os in
    elim (Option-cases (find_offer id db)) [
      | inl e ↦ (ground (arith, e, found', os), ground (arith, e, found', rs))
      | inr (o, e) ↦ elim (Bool-cases (is_pending_payment o.status)) [
        | inl h ↦ (
          ground (arith, e, found', h, ap (update (λ y. y.id == id) free_offer) os),
          ground (arith, e, found', h, ap (update (awaits_payment o.request_id) reopen) rs),
        )
        | inr h ↦ (ground (arith, e, found', h, os), ground (arith, e, found', h, rs))
      ]
    ]

pending-free :
    (now : ℕ) (o : Offer)
    → is_pending_offer o.status ≡ true
    → o.payment_hold_expires_at ≡ none
    → free_offer (hold now o) ≡ o
pending-free now o h k = ground (arith, h, k)

open-reopen : (r : ServiceRequest) → is_open_request r.status ≡ true → reopen (pause r) ≡ r
open-reopen r h = ground (arith, h)

payable_states :
    (p : PaymentParams) (t : Target) (o : Offer) (r : ServiceRequest)
    → is_payable p t o r ≡ true
    → (is_pending_offer o.status ≡ true) × (is_open_request r.status ≡ true)
payable_states p t o r h = (ground (arith, h), ground (arith, h))

created_attempt :
    (p : PaymentParams) (t : Target) (terms : Terms) (u : User) (now : ℕ) (db d : Db)
    (a : PaymentAttempt)
    → create_attempt p t terms u now db ≡ ok (a, d)
    → (a.offer_id ≡ t.offer_id) × (d.offers ≡ db.offers) × (d.requests ≡ db.requests)
unfolding create_attempt
created_attempt p t terms u now db d a h =
    let (_, h1) = reject-eq-ok (ltb terms.amount 5000 || ltb 5000000 terms.amount) _ h in
    let (fees, _, h2) =
      >>=-eq-ok
        (payment_commission terms.amount
          (subscription_benefits u.membership now).terms.commission_rate_bps)
        _ h1 in
    (ground (arith, h2), ground (arith, h2), ground (arith, h2))

-- The offer that an attempt is prepared for, and what it writes besides the new row.
prepare_offer_inversion :
    (p : PaymentParams) (t : Target) (offer now : ℕ) (db d : Db) (a : PaymentAttempt)
    → prepare_offer p t offer now db ≡ ok (a, d)
    → (o : Offer) × (r : ServiceRequest) × (find_offer offer db ≡ some o)
      × (find_request o.request_id db ≡ some r)
      × (is_pending_offer o.status ≡ true)
      × (is_open_request r.status ≡ true)
      × (a.offer_id ≡ t.offer_id)
      × (d.offers ≡ (hold_offer now o db).offers)
      × (d.requests ≡ (hold_offer now o db).requests)
unfolding prepare_offer offer_terms
prepare_offer_inversion p t offer now db d a h =
    let (_, _, h1) = >>=-eq-ok (check_participants p t db) _ h in
    let (u, _, h2) = >>=-eq-ok (check_provider p t none db) _ h1 in
    let (o, e, h3) = found-eq-ok (find_offer offer db) _ _ h2 in
    let (r, f, h4) = found-eq-ok (find_request o.request_id db) _ _ h3 in
    let (terms, g, h5) = >>=-eq-ok (offer_terms p t o r db) _ h4 in
    let (payable, _) = require-eq-ok (is_payable p t o r) _ g in
    let (pending, opened) = payable_states p t o r payable in
    let (own, os, rs) = created_attempt p t terms u now (hold_offer now o db) d a h5 in
    (o, r, e, f, pending, opened, own, os, rs)

-- A checkout that the gateway refuses gives the offer back: offers and requests are then exactly as
-- they were before the payment was prepared, where the ids are unique and the offer had no hold.
pub failed_checkout_restores :
    (p : PaymentParams) (t : Target) (offer now : ℕ) (db d : Db) (a : PaymentAttempt)
    (failure : HttpError)
    → t.offer_id ≡ some offer
    → ((x : ℕ) → count (λ (o : Offer). o.id == x) db.offers ≤ 1)
    → ((x : ℕ) → count (λ (r : ServiceRequest). r.id == x) db.requests ≤ 1)
    → ((o : Offer) → find_offer offer db ≡ some o → o.payment_hold_expires_at ≡ none)
    → prepare_offer p t offer now db ≡ ok (a, d)
    → ((submit_attempt a d (err failure)).0.offers ≡ db.offers)
      × ((submit_attempt a d (err failure)).0.requests ≡ db.requests)
unfolding submit_attempt
failed_checkout_restores p t offer now db d a failure for_offer uo ur free h =
    let (o, r, e, f, pending, opened, own, os, rs) =
      prepare_offer_inversion p t offer now db d a h in
    let id = ==→eq _ _ (find-holds (λ (y : Offer). y.id == offer) db.offers o e) in
    let back =
      hold-release now o r db (uo o.id) (ur o.request_id)
        (subst (λ x. find_offer x db ≡ some o) (sym id) e) f (pending-free now o pending (free o e))
        (open-reopen r opened) in
    let failed = update_attempt a.id (set_attempt AttemptStatus.failed) d in
    let mine : a.offer_id ≡ some o.id = own ∙ for_offer ∙ ap some (sym id) in
    let (x, y) = release_congr (some o.id) (hold_offer now o db) failed os rs in
    let z =
      subst (λ q. (release_offer_hold q failed).offers ≡ db.offers) (sym mine)
        (x ∙ ap (λ s. s.offers) back) in
    let w =
      subst (λ q. (release_offer_hold q failed).requests ≡ db.requests) (sym mine)
        (y ∙ ap (λ s. s.requests) back) in
    (z, w)
