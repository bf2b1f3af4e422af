-- ===== src/Payments/Kept.antt =====
-- services/payment-attempt.service.ts keeps the rule that one offer of a request is selected at
-- most: preparing, failing and expiring attempts, and captured payments.
use servicehub_backend.Base.{
  ℕ, ◌≡◌, refl, sym, subst, inl, inr, Bool, true, false, not, ◌&&◌, ◌||◌, none, some, List, [], ◌∷◌,
  arith, ltb, ◌==◌, Bool-cases, Option-cases, ==→eq, ok, >>=-eq-ok, require-eq-ok, reject-eq-ok,
  found-eq-ok, find, select, find-holds,
}
use servicehub_backend.Schema.{
  Db, User, Offer, ServiceRequest, PaymentAttempt, AttemptStatus, is_open_request, find_offer,
  find_request, find_service, find_attempt, update_offer, update_attempt,
}
use servicehub_backend.Policy.Commission.{payment_commission}
use servicehub_backend.Policy.Membership.{subscription_benefits}
use servicehub_backend.Providers.{assert_new_provider_business}
use servicehub_backend.Offers.Selected.{
  IsSelectedOnce, KeepsOffers, keeps-IsSelectedOnce, selected-update_offer, offers_with-update,
  open-update_request, free_request, release_offer_hold-IsSelectedOnce,
}
use servicehub_backend.Offers.Kept.{taken-IsSelectedOnce}
use servicehub_backend.Offers.Submitted.{new_business-KeepsOffers}
use servicehub_backend.Payments.{
  attempt_of, is_pending_attempt, is_stale, set_attempt, end_attempt, mark_payment_attempt_failed,
  expire_attempt, expire_each, take, expire_stale_payment_attempts,
}
use servicehub_backend.Payments.Prepare.{
  PaymentParams, Target, pays_for, is_live_attempt, expire_all, check_reuse,
}
use servicehub_backend.Payments.Prepare.Create.{
  Terms, listing_terms, check_provider, check_participants, is_payable, offer_terms, hold, pause,
  hold_offer, create_attempt, prepare_listing, prepare_offer, prepare_new, prepare_attempt,
}

pub end_attempt-IsSelectedOnce :
    (status : AttemptStatus) (a : PaymentAttempt) (db : Db)
    → IsSelectedOnce db
    → IsSelectedOnce (end_attempt status a db)
end_attempt-IsSelectedOnce status a db inv =
    release_offer_hold-IsSelectedOnce a.offer_id (update_attempt a.id (set_attempt status) db)
      (keeps-IsSelectedOnce db _ (refl, refl, omega arith) inv)

pub mark_payment_attempt_failed-IsSelectedOnce :
    (intent : ℕ) (db : Db)
    → IsSelectedOnce db
    → IsSelectedOnce (mark_payment_attempt_failed intent db)
unfolding mark_payment_attempt_failed
mark_payment_attempt_failed-IsSelectedOnce intent db inv =
    elim (Option-cases (attempt_of intent db)) [
      | inl e ↦ rw (e, mark_payment_attempt_failed) inv
      | inr (a, e) ↦ elim (Bool-cases (is_pending_attempt a.status)) [
        | inl p ↦
            rw (e, p, mark_payment_attempt_failed)
              (end_attempt-IsSelectedOnce AttemptStatus.failed a db inv)
        | inr p ↦ rw (e, p, mark_payment_attempt_failed) inv
      ]
    ]

pub expire_attempt-IsSelectedOnce :
    (id now : ℕ) (db : Db) → IsSelectedOnce db → IsSelectedOnce (expire_attempt id now db).1
unfolding expire_attempt
expire_attempt-IsSelectedOnce id now db inv = elim (Option-cases (find_attempt id db)) [
  | inl e ↦ rw (e, expire_attempt) inv
  | inr (a, e) ↦ elim (Bool-cases (not (is_pending_attempt a.status) || ltb now a.expires_at)) [
    | inl p ↦ rw (e, p, expire_attempt) inv
    | inr p ↦ rw (e, p, expire_attempt) (end_attempt-IsSelectedOnce AttemptStatus.expired a db inv)
  ]
]

expire_each-IsSelectedOnce :
    (es : List PaymentAttempt) (now expired : ℕ) (db : Db)
    → IsSelectedOnce db
    → IsSelectedOnce (expire_each es now expired db).1
unfolding expire_each
expire_each-IsSelectedOnce [] now expired db inv = inv
expire_each-IsSelectedOnce (a ∷ es) now expired db inv =
    expire_each-IsSelectedOnce es now _ _ (expire_attempt-IsSelectedOnce a.id now db inv)

pub expire_stale-IsSelectedOnce :
    (now : ℕ) (db : Db)
    → IsSelectedOnce db
    → IsSelectedOnce (expire_stale_payment_attempts now db).1
unfolding expire_stale_payment_attempts
expire_stale-IsSelectedOnce now db inv =
    expire_each-IsSelectedOnce (take 100 (select (is_stale now) db.attempts)) now 0 db inv

pub expire_all-IsSelectedOnce :
    (es : List PaymentAttempt) (db : Db) → IsSelectedOnce db → IsSelectedOnce (expire_all es db)
unfolding expire_all
expire_all-IsSelectedOnce [] db inv = inv
expire_all-IsSelectedOnce (a ∷ es) db inv =
    expire_all-IsSelectedOnce es _ (end_attempt-IsSelectedOnce AttemptStatus.expired a db inv)

-- An offer is held for a payment while its request is open.
held-IsSelectedOnce :
    (now : ℕ) (o : Offer) (r : ServiceRequest) (db : Db)
    → IsSelectedOnce db
    → find_offer o.id db ≡ some o
    → find_request o.request_id db ≡ some r
    → is_open_request r.status ≡ true
    → IsSelectedOnce (hold_offer now o db)
held-IsSelectedOnce now o r db inv e f opened =
    let moved = selected-update_offer o.id (hold now) db o inv e in
    let none' = free_request db r o.request_id inv f opened in
    taken-IsSelectedOnce o.request_id db _ inv (λ x n. ground (arith, moved x, n))
      (ground (arith, moved o.request_id, none'))
      (open-update_request o.request_id pause (update_offer o.id (hold now) db) (λ y. refl)
        (λ y. refl))
      (offers_with-update (λ y. y.id == o.id) (hold now) db.offers (λ y. refl)) (omega arith)

create_attempt-KeepsOffers :
    (p : PaymentParams) (t : Target) (terms : Terms) (u : User) (now : ℕ) (db d : Db)
    (a : PaymentAttempt)
    → create_attempt p t terms u now db ≡ ok (a, d)
    → KeepsOffers db d
unfolding create_attempt
create_attempt-KeepsOffers p t terms u now db d a h =
    let (_, h1) = reject-eq-ok (ltb terms.amount 5000 || ltb 5000000 terms.amount) _ h in
    let (fees, _, h2) =
      >>=-eq-ok
        (payment_commission terms.amount
          (subscription_benefits u.membership now).terms.commission_rate_bps)
        _ h1 in
    (ground (arith, h2), ground (arith, h2), ground (arith, h2))

prepare_listing-KeepsOffers :
    (p : PaymentParams) (t : Target) (service now : ℕ) (db d : Db) (a : PaymentAttempt)
    → prepare_listing p t service now db ≡ ok (a, d)
    → KeepsOffers db d
unfolding prepare_listing
prepare_listing-KeepsOffers p t service now db d a h =
    let (s, _, h1) = found-eq-ok (find_service service db) _ _ h in
    let (_, h2) = require-eq-ok (s.provider_id == t.provider_id) _ h1 in
    let (_, _, h3) = >>=-eq-ok (check_participants p t db) _ h2 in
    let (terms, _, h4) = >>=-eq-ok (listing_terms p t s) _ h3 in
    let (u, _, h5) = >>=-eq-ok (check_provider p t (some s) db) _ h4 in
    create_attempt-KeepsOffers p t terms u now db d a h5

prepare_offer-IsSelectedOnce :
    (p : PaymentParams) (t : Target) (offer now : ℕ) (db d : Db) (a : PaymentAttempt)
    → IsSelectedOnce db
    → prepare_offer p t offer now db ≡ ok (a, d)
    → IsSelectedOnce d
unfolding prepare_offer offer_terms
prepare_offer-IsSelectedOnce p t offer now db d a inv h =
    let (_, _, h1) = >>=-eq-ok (check_participants p t db) _ h in
    let (u, _, h2) = >>=-eq-ok (check_provider p t none db) _ h1 in
    let (o, e, h3) = found-eq-ok (find_offer offer db) _ _ h2 in
    let (r, f, h4) = found-eq-ok (find_request o.request_id db) _ _ h3 in
    let (terms, g, h5) = >>=-eq-ok (offer_terms p t o r db) _ h4 in
    let (payable, _) = require-eq-ok (is_payable p t o r) _ g in
    let id = ==→eq _ _ (find-holds (λ (y : Offer). y.id == offer) db.offers o e) in
    let own = subst (λ x. find_offer x db ≡ some o) (sym id) e in
    keeps-IsSelectedOnce (hold_offer now o db) d
      (create_attempt-KeepsOffers p t terms u now (hold_offer now o db) d a h5)
      (held-IsSelectedOnce now o r db inv own f (ground (arith, payable)))

prepare_new-IsSelectedOnce :
    (p : PaymentParams) (t : Target) (now : ℕ) (db d : Db) (a : PaymentAttempt)
    → IsSelectedOnce db
    → prepare_new p t now db ≡ ok (a, d)
    → IsSelectedOnce d
prepare_new-IsSelectedOnce p t now db d a inv h = elim (Option-cases t.offer_id) [
  | inr (offer, e) ↦
      prepare_offer-IsSelectedOnce p t offer now db d a inv
        (unfold prepare_new in ground (arith, e, h))
  | inl e ↦ elim (Option-cases t.service_id) [
    | inl f ↦ absurd (unfold prepare_new in ground (arith, e, f, h))
    | inr (service, f) ↦
        keeps-IsSelectedOnce db d
          (prepare_listing-KeepsOffers p t service now db d a
            (unfold prepare_new in ground (arith, e, f, h)))
          inv
  ]
]

pub prepare_attempt-IsSelectedOnce :
    (p : PaymentParams) (t : Target) (now : ℕ) (db d : Db) (a : PaymentAttempt) (reused : Bool)
    → IsSelectedOnce db
    → prepare_attempt p t now db ≡ ok ((a, reused), d)
    → IsSelectedOnce d
unfolding prepare_attempt
prepare_attempt-IsSelectedOnce p t now db d a reused inv h =
    let (b, trial, h1) = >>=-eq-ok (assert_new_provider_business t.provider_id now db) _ h in
    let stale = select (λ x. pays_for p t x && is_stale now x) b.attempts in
    let e = expire_all stale b in
    let kept =
      expire_all-IsSelectedOnce stale b
        (keeps-IsSelectedOnce db b (new_business-KeepsOffers t.provider_id now db b trial) inv) in
    elim (Option-cases (find (λ x. pays_for p t x && is_live_attempt now x) e.attempts)) [
      | inl none' ↦
          let ((a', d'), f, h2) =
            >>=-eq-ok {After = (PaymentAttempt × Bool) × Db} (prepare_new p t now e)
              (λ r. ok ((r.0, false), r.1)) {result = ((a, reused), d)}
              (ground (arith, h1, none')) in
          let rows : d' ≡ d = ground (arith, h2) in
          subst IsSelectedOnce rows (prepare_new-IsSelectedOnce p t now e d' a' kept f)
      | inr (x, found') ↦
          let (_, _, h2) =
            >>=-eq-ok {After = (PaymentAttempt × Bool) × Db} (check_reuse p t x)
              (λ _. ok ((x, true), e)) {result = ((a, reused), d)} (ground (arith, h1, found')) in
          let rows : e ≡ d = ground (arith, h2) in subst IsSelectedOnce rows kept
    ]
