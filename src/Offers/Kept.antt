-- ===== src/Offers/Kept.antt =====
-- services/offers.service.ts and services/offer-selection-notifications.service.ts keep the rule
-- that one offer of a request is selected at most.
use servicehub_backend.Base.{
  ℕ, ◌+◌, ◌≤◌, ◌≡◌, refl, sym, ap, ◌∙◌, subst, ◌≢◌, ◌⊎◌, inl, inr, Bool, true, false, ◌&&◌, ◌||◌,
  List, [], ◌∷◌, arith, ◌==◌, Bool-cases, ==→eq, ok, require-eq-ok, found-eq-ok, any, select, count,
  update, count-update-le, find-holds,
}
use servicehub_backend.Schema.{
  Db, Offer, ServiceRequest, RequestStatus, Notice, is_open_request, find_offer, find_request,
  update_offer, update_request, notify,
}
use servicehub_backend.Offers.{
  is_inquiry, already_decided, decided_status, close_inquiry, decision_notice, reject_offer,
  is_sibling, lose, is_pending_id, reject_each, tells_not_selected, tell_losers,
  reject_sibling_offers,
}
use servicehub_backend.Offers.Selected.{
  is_selected_for, selected_offers, open_requests, offers_with, IsSelectedOnce,
  rewritten-IsSelectedOnce, one_if, offers_with-update, open-update_request,
}

-- After an offer of a request was selected, which is then no longer open.
pub taken-IsSelectedOnce :
    (request : ℕ) (db d : Db)
    → IsSelectedOnce db
    → ((x : ℕ) → x ≢ request → selected_offers x d ≤ selected_offers x db)
    → selected_offers request d ≤ 1
    → ((x : ℕ) → (open_requests x d ≤ open_requests x db) × (x ≡ request → open_requests x d ≡ 0))
    → ((x : ℕ) → offers_with x d ≡ offers_with x db)
    → db.next_id ≤ d.next_id
    → IsSelectedOnce d
taken-IsSelectedOnce request db d inv others own opens ids n =
    rewritten-IsSelectedOnce db d inv
      (λ x. elim (Bool-cases (x == request)) [
        | inl e ↦ subst (λ y. selected_offers y d ≤ 1) (sym (==→eq x request e)) own
        | inr e ↦ omega (arith, others x (λ q. ground (arith, q, e)), inv.once x)
      ])
      (λ x h. elim (Bool-cases (x == request)) [
        | inl e ↦ absurd (omega (arith, h, (opens x).1 (==→eq x request e)))
        | inr e ↦ omega (
          arith,
          others x (λ q. ground (arith, q, e)),
          inv.free x (omega (arith, h, (opens x).0)),
        )
      ])
      ids n

lose-selected :
    (id x : ℕ) (os : List Offer)
    → count (is_selected_for x) (update (is_pending_id id) lose os) ≤ count (is_selected_for x) os
lose-selected id x os =
    count-update-le (is_selected_for x) (is_pending_id id) lose os (λ o h. ground (arith, h))

pub reject_each_offers :
    (es : List Offer) (db : Db) (x : ℕ)
    → let d = (reject_each es db).1 in
      (selected_offers x d ≤ selected_offers x db)
      × (offers_with x d ≡ offers_with x db)
      × (d ≡ record db { offers = d.offers })
unfolding reject_each
reject_each_offers [] db x = (omega arith, refl, refl)
reject_each_offers (o ∷ os) db x =
    let next = record db { offers = update (is_pending_id o.id) lose db.offers } in
    let (a, b, c) = reject_each_offers os next x in
    (
      omega (arith, a, lose-selected o.id x db.offers),
      b ∙ offers_with-update (is_pending_id o.id) lose db.offers (λ y. refl) x,
      ground (arith, c),
    )

tell_losers-frame :
    (es : List Offer) (db : Db)
    → tell_losers es db ≡ record db { notifications = (tell_losers es db).notifications }
unfolding tell_losers
tell_losers-frame [] db = refl
tell_losers-frame (o ∷ os) db = elim (Bool-cases (any (tells_not_selected o.id) db.notifications)) [
  | inl e ↦ ground (arith, e, tell_losers-frame os db)
  | inr e ↦
      ground
        (arith, e, tell_losers-frame os (notify o.provider_id (Notice.offer_not_selected o.id) db))
]

-- The rejection of the other offers selects none and touches no other table but the notifications.
pub reject_sibling_offers_keeps :
    (request selected : ℕ) (db : Db) (x : ℕ)
    → let d = (reject_sibling_offers request selected db).1 in
      (selected_offers x d ≤ selected_offers x db)
      × (offers_with x d ≡ offers_with x db)
      × (d ≡ record db { offers = d.offers; notifications = d.notifications })
unfolding reject_sibling_offers
reject_sibling_offers_keeps request selected db x =
    let es = select (is_sibling request selected) db.offers in
    let (a, b, c) = reject_each_offers es db x in
    let rejected = (reject_each es db).0 in
    let told = tell_losers-frame rejected (reject_each es db).1 in
    (
      ground (arith, a, ap (selected_offers x) told),
      ap (offers_with x) told ∙ b,
      ground (arith, told, c),
    )

-- An offer is selected for an open request, or an offer that was selected stays so; the others are
-- rejected and the request is set to a status that is not open.
pub select-IsSelectedOnce :
    (f : Offer → Offer) (g : ServiceRequest → ServiceRequest) (o : Offer) (db moved : Db)
    → IsSelectedOnce db
    → ((x : ℕ)
        → selected_offers x moved + one_if (is_selected_for x o)
          ≡ selected_offers x db + one_if (is_selected_for x (f o)))
    → (selected_offers o.request_id db ≡ 0) ⊎ (is_selected_for o.request_id o ≡ true)
    → ((f o).request_id ≡ o.request_id)
    → ((x : ℕ) → offers_with x moved ≡ offers_with x db)
    → (moved.requests ≡ db.requests)
    → db.next_id ≤ moved.next_id
    → ((r : ServiceRequest) → is_open_request (g r).status ≡ false)
    → ((r : ServiceRequest) → (g r).id ≡ r.id)
    → IsSelectedOnce
        (update_request o.request_id g (reject_sibling_offers o.request_id o.id moved).1)
select-IsSelectedOnce f g o db moved inv count' before same ids rs n closes keeps =
    let siblings = (reject_sibling_offers o.request_id o.id moved).1 in
    let kept = reject_sibling_offers_keeps o.request_id o.id moved in
    let requests : siblings.requests ≡ db.requests = ap (λ d. d.requests) ((kept 0).2) ∙ rs in
    let next : siblings.next_id ≡ moved.next_id = ap (λ d. d.next_id) ((kept 0).2) in
    taken-IsSelectedOnce o.request_id db _ inv
      (λ x e. ground (arith, (kept x).0, count' x, same, e))
      (elim before [
        | inl zero' ↦ ground (arith, (kept o.request_id).0, count' o.request_id, zero')
        | inr one ↦
            ground (arith, (kept o.request_id).0, count' o.request_id, one, inv.once o.request_id)
      ])
      (λ x.
        let opens = open-update_request o.request_id g siblings closes keeps x in
        (
          subst
              (λ rows.
                open_requests x (update_request o.request_id g siblings)
                ≤ count (λ r. r.id == x && is_open_request r.status) rows)
              requests opens.0,
          opens.1,
        ))
      (λ x. (kept x).1 ∙ ids x) (omega (arith, n, next))

abbrev declined : Bool → Offer → ServiceRequest → Db → Db
declined by_provider o r db =
    decision_notice by_provider r o (
      close_inquiry r
        (update_offer o.id (λ x. record x { status = decided_status by_provider }) db))

declined-tables :
    (by_provider : Bool) (o : Offer) (r : ServiceRequest) (db : Db)
    → let d = declined by_provider o r db in
      (d.offers
        ≡ update
            (λ y. y.id == o.id)
            (λ x. record x { status = decided_status by_provider })
            db.offers)
      × (d.requests ≡ (close_inquiry r db).requests)
      × (d.next_id ≡ db.next_id)
declined-tables true o r db = (ground arith, ground arith, ground arith)
declined-tables false o r db = (ground arith, ground arith, ground arith)

close_inquiry-open :
    (r : ServiceRequest) (db : Db) (x : ℕ)
    → open_requests x (close_inquiry r db) ≤ open_requests x db
close_inquiry-open r db x = elim (Bool-cases (is_inquiry r)) [
  | inl e ↦ ground (
    arith,
    e,
    (open-update_request r.id (λ y. record y { status = RequestStatus.canceled }) db (λ y. refl)
        (λ y. refl) x).0,
  )
  | inr e ↦ ground (arith, e)
]

declined-IsSelectedOnce :
    (by_provider : Bool) (o : Offer) (r : ServiceRequest) (db : Db)
    → IsSelectedOnce db
    → IsSelectedOnce (declined by_provider o r db)
declined-IsSelectedOnce by_provider o r db inv =
    let f : Offer → Offer = λ x. record x { status = decided_status by_provider } in
    let (os, rs, n) = declined-tables by_provider o r db in
    let fewer = λ (x : ℕ).
      count-update-le (is_selected_for x) (λ y. y.id == o.id) f db.offers
        (λ y h. not_selected by_provider x y h) in
    rewritten-IsSelectedOnce db _ inv (λ x. ground (arith, os, fewer x, inv.once x))
      (λ x h. ground (
        arith,
        os,
        fewer x,
        inv.free x,
        ap (count (λ y. y.id == x && is_open_request y.status)) rs,
        close_inquiry-open r db x,
        h,
      ))
      (λ x.
        ap (count (λ y. y.id == x)) os
        ∙ offers_with-update (λ y. y.id == o.id) f db.offers (λ y. refl) x)
      (omega (arith, n))
  where
    not_selected :
        (b : Bool) (x : ℕ) (y : Offer)
        → is_selected_for x (record y { status = decided_status b }) ≡ true
        → is_selected_for x y ≡ true
    not_selected true x y h = ground (arith, h)
    not_selected false x y h = ground (arith, h)

pub reject_offer-IsSelectedOnce :
    (offer user : ℕ) (db d : Db) (changed : Bool)
    → IsSelectedOnce db
    → reject_offer offer user db ≡ ok (changed, d)
    → IsSelectedOnce d
unfolding reject_offer
reject_offer-IsSelectedOnce offer user db d changed inv h =
    let (o, e, h1) = found-eq-ok (find_offer offer db) _ _ h in
    let (r, _, h2) = found-eq-ok (find_request o.request_id db) _ _ h1 in
    let (_, h3) = require-eq-ok (r.seeker_id == user || o.provider_id == user) _ h2 in
    let id : o.id ≡ offer = ==→eq _ _ (find-holds (λ (y : Offer). y.id == offer) db.offers o e) in
    elim (Bool-cases (already_decided (o.provider_id == user) o db)) [
      | inl a ↦ let same : db ≡ d = ground (arith, h3, a) in subst IsSelectedOnce same inv
      | inr a ↦
          let rows : declined (o.provider_id == user) o r db ≡ d = ground (arith, h3, a, id) in
          subst IsSelectedOnce rows (declined-IsSelectedOnce (o.provider_id == user) o r db inv)
    ]
