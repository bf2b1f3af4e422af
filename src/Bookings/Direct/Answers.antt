-- ===== src/Bookings/Direct/Answers.antt =====
-- services/bookings/direct-bookings.service.ts: a booking that is asked for directly, and the one
-- answer that it gets.
use servicehub_backend.Base.{
  ℕ, ◌≡◌, refl, ap, ◌∙◌, inl, inr, Bool, true, false, ◌&&◌, ◌||◌, Option, none, some, arith, ◌==◌,
  refers, is_some, Bool-cases, Option-cases, ==_refl, Result, ok, err, >>=-eq-ok, require-eq-ok,
  found-eq-ok, is_ok, OnOk_elim, find, update, find-update_hit, find-update-none,
}
use servicehub_backend.Schema.{
  Db, Booking, DirectRequest, DirectRequestStatus, ProgressKind, ActorRole, find_user, find_booking,
}
use servicehub_backend.Policy.Accounts.{can_take_work}
use servicehub_backend.Providers.{assert_new_provider_business, new_business_tables}
use servicehub_backend.Bookings.{record_booking_progress, record_lifecycle_notice}
use servicehub_backend.Bookings.Frame.{record_booking_progress-frame, record_lifecycle_notice-frame}
use servicehub_backend.Refunds.{World}
use servicehub_backend.Bookings.Direct.{record_agreement}
use servicehub_backend.Bookings.Direct.Responses.{
  check_still_pending, find_direct, direct_target, target_provider, check_undecided, set_direct,
  accept_booking, agree, accept_direct, check_response, respond_to_direct_booking,
}

record_agreement-tables :
    (b : Booking) (actor : ActorRole) (now : ℕ) (db d : Db)
    → record_agreement b actor now db ≡ ok d
    → (d.bookings ≡ db.bookings) × (d.direct_requests ≡ db.direct_requests)
unfolding record_agreement
record_agreement-tables b actor now db d h =
    let told = record_booking_progress b.id ProgressKind.accepted actor 0 now db in
    let progress = record_booking_progress-frame b.id ProgressKind.accepted actor 0 now db in
    let (e, ran, last) = >>=-eq-ok (record_lifecycle_notice b _ _ told) _ h in
    let frame = record_lifecycle_notice-frame b _ _ told e ran in
    (
      ground (arith, last, ap (λ x. x.bookings) frame, ap (λ x. x.bookings) progress),
      ground (arith, last, ap (λ x. x.direct_requests) frame, ap (λ x. x.direct_requests) progress),
    )

-- The check of the provider's business leaves both tables alone.
pub new_business-direct :
    (provider now : ℕ) (db d : Db)
    → assert_new_provider_business provider now db ≡ ok d
    → (d.bookings ≡ db.bookings) × (d.direct_requests ≡ db.direct_requests)
new_business-direct provider now db d h =
    let frame =
      OnOk_elim (λ x. x ≡ record db { users = x.users })
        (assert_new_provider_business provider now db) d (new_business_tables provider now db) h in
    (ap (λ x. x.bookings) frame, ap (λ x. x.direct_requests) frame)

pub new_business-services :
    (provider now : ℕ) (db d : Db)
    → assert_new_provider_business provider now db ≡ ok d
    → d.services ≡ db.services
new_business-services provider now db d h =
    ap (λ x. x.services)
      (OnOk_elim (λ x. x ≡ record db { users = x.users })
        (assert_new_provider_business provider now db) d (new_business_tables provider now db) h)

-- What an acceptance writes.
accept_direct-tables :
    (provider : ℕ) (r : Option DirectRequest) (b : Option Booking) (now : ℕ) (db d : Db)
    → accept_direct provider r b now db ≡ ok d
    → (d.direct_requests ≡ (set_direct DirectRequestStatus.accepted r db).direct_requests)
      × ((x : Booking)
          → b ≡ some x
          → d.bookings ≡ update (λ y. y.id == x.id) accept_booking db.bookings)
unfolding accept_direct
accept_direct-tables provider r b now db d h =
    let (u, _, h1) = found-eq-ok (find_user provider db) _ _ h in
    let (_, h2) = require-eq-ok (can_take_work u) _ h1 in
    let (e, trial, h3) = >>=-eq-ok (assert_new_provider_business provider now db) _ h2 in
    let (_, _, agreed) = >>=-eq-ok (check_still_pending r b e) _ h3 in
    let (bs, rs) = new_business-direct provider now db e trial in written r b e agreed bs rs
  where
    written :
        (r' : Option DirectRequest) (b' : Option Booking) (e : Db)
        → agree r' b' now (set_direct DirectRequestStatus.accepted r' e) ≡ ok d
        → e.bookings ≡ db.bookings
        → e.direct_requests ≡ db.direct_requests
        → (d.direct_requests ≡ (set_direct DirectRequestStatus.accepted r' db).direct_requests)
          × ((x : Booking)
              → b' ≡ some x
              → d.bookings ≡ update (λ y. y.id == x.id) accept_booking db.bookings)
    written (some r') (some b') e agreed bs rs =
        let (x, y) = record_agreement-tables _ ActorRole.provider now _ d agreed in
        (
          y
              ∙ ap
                  (update (λ z. z.id == r'.id)
                    (λ z. record z { status = DirectRequestStatus.accepted }))
                  rs,
          λ z k.
              let same : b' ≡ z = cc in
              x
              ∙ ap (update (λ q. q.id == b'.id) accept_booking) bs
              ∙ ap (λ q. update (λ i. i.id == q.id) accept_booking db.bookings) same,
        )
    written none (some b') e agreed bs rs =
        let (x, y) = record_agreement-tables _ ActorRole.provider now _ d agreed in
        (
          y ∙ rs,
          λ z k.
              let same : b' ≡ z = cc in
              x
              ∙ ap (update (λ q. q.id == b'.id) accept_booking) bs
              ∙ ap (λ q. update (λ i. i.id == q.id) accept_booking db.bookings) same,
        )
    written (some r') none e agreed bs rs =
        let (x, y) = record_agreement-tables _ ActorRole.provider now _ d agreed in
        (
          y
              ∙ ap
                  (update (λ z. z.id == r'.id)
                    (λ z. record z { status = DirectRequestStatus.accepted }))
                  rs,
          λ z k. absurd (cc k),
        )
    written none none e agreed bs rs = absurd (cc agreed)

direct_first :
    (id : ℕ) (db : Db) (r : DirectRequest)
    → find_direct id db ≡ some r
    → (direct_target id db).0 ≡ some r
unfolding direct_target
direct_first id db r e = ground (arith, e)

booking_second :
    (id : ℕ) (db : Db) (b : Booking)
    → find_direct id db ≡ none
    → find_booking id db ≡ some b
    → (direct_target id db).1 ≡ some b
unfolding direct_target
booking_second id db b e f = ground (arith, e, f)

-- An accepted request, and an accepted booking, cannot be answered.
closed_request :
    (r : DirectRequest) (o : Option DirectRequest) (b : Option Booking)
    → o ≡ some (record r { status = DirectRequestStatus.accepted })
    → is_ok (check_undecided o b) ≡ false
closed_request r o b e = ground (arith, e)

closed_booking :
    (x : Booking) (o : Option DirectRequest) (b : Option Booking)
    → b ≡ some (accept_booking x)
    → is_ok (check_undecided o b) ≡ false
closed_booking x o b e = ground (arith, e)

refused_answer :
    (w : World) (id provider : ℕ) (accept : Bool) (now : ℕ) (db : Db)
    → is_ok (check_undecided (direct_target id db).0 (direct_target id db).1) ≡ false
    → let (d, answer) = respond_to_direct_booking w id provider accept now db in
      (d ≡ db) × (is_ok answer ≡ false)
unfolding respond_to_direct_booking
refused_answer w id provider accept now db h =
    let (r, b) = direct_target id db in
    let checked : is_ok (check_response provider r b) ≡ false = later r b h in
    (ground (arith, checked), ground (arith, checked))
  where
    later :
        (r : Option DirectRequest) (b : Option Booking)
        → is_ok (check_undecided r b) ≡ false
        → is_ok (check_response provider r b) ≡ false
    later r b k =
        elim (Bool-cases ((is_some r || is_some b) && refers (target_provider r b) provider)) [
          | inl e ↦ ground (arith, e, k)
          | inr e ↦ ground (arith, e)
        ]

accepted_ran :
    (w : World) (id provider now : ℕ) (db d : Db)
    → respond_to_direct_booking w id provider true now db ≡ (d, ok tt)
    → accept_direct provider (direct_target id db).0 (direct_target id db).1 now db ≡ ok d
unfolding respond_to_direct_booking
accepted_ran w id provider now db d h = ran _ _ refl refl
  where
    ran :
        (checked : Result (Unit {0})) (done : Result Db)
        → check_response provider (direct_target id db).0 (direct_target id db).1 ≡ checked
        → accept_direct provider (direct_target id db).0 (direct_target id db).1 now db ≡ done
        → accept_direct provider (direct_target id db).0 (direct_target id db).1 now db ≡ ok d
    ran (err e) done c k = absurd (ground (arith, h, c))
    ran (ok _) (err e) c k = absurd (ground (arith, h, c, k))
    ran (ok _) (ok x) c k = ground (arith, h, c, k)

no_target :
    (provider id now : ℕ) (db d : Db)
    → find_direct id db ≡ none
    → find_booking id db ≡ none
    → accept_direct provider (direct_target id db).0 (direct_target id db).1 now db ≡ ok d
    → ⊥
unfolding direct_target accept_direct
no_target provider id now db d e f h =
    let r : (direct_target id db).0 ≡ none = ground (arith, e, f) in
    let b : (direct_target id db).1 ≡ none = ground (arith, e, f) in
    let (u, _, h1) = found-eq-ok (find_user provider db) _ _ h in
    let (_, h2) = require-eq-ok (can_take_work u) _ h1 in
    let (x, _, h3) = >>=-eq-ok (assert_new_provider_business provider now db) _ h2 in
    let (_, _, agreed) =
      >>=-eq-ok (check_still_pending (direct_target id db).0 (direct_target id db).1 x) _ h3 in
    nothing _ _ r b x agreed
  where
    nothing :
        (r : Option DirectRequest) (b : Option Booking)
        → r ≡ none
        → b ≡ none
        → (x : Db) → agree r b now (set_direct DirectRequestStatus.accepted r x) ≡ ok d
        → ⊥
    nothing none none p q x k = cc
    nothing (some r) b p q x k = cc
    nothing none (some b) p q x k = cc

-- An acceptance is final: once the provider has accepted a request or booking, every further answer
-- to it fails, an acceptance as well as a decline, by whomever, and changes nothing.
pub respond_to_direct_booking_once :
    (w again : World) (id provider other : ℕ) (accept : Bool) (now later : ℕ) (db d : Db)
    → respond_to_direct_booking w id provider true now db ≡ (d, ok tt)
    → let (e, answer) = respond_to_direct_booking again id other accept later d in
      (e ≡ d) × (is_ok answer ≡ false)
respond_to_direct_booking_once w again id provider other accept now later db d h =
    let ran = accepted_ran w id provider now db d h in
    let (rs, bs) = accept_direct-tables provider _ _ now db d ran in
    refused_answer again id other accept later d (elim (Option-cases (find_direct id db)) [
      | inr (r, e) ↦
          let same = direct_first id db r e in
          let rows =
            rs ∙ ap (λ o. (set_direct DirectRequestStatus.accepted o db).direct_requests) same in
          closed_request r _ _ (direct_first id d _ (request_after r e rows))
      | inl e ↦ elim (Option-cases (find_booking id db)) [
        | inr (b, f) ↦
            let same = booking_second id db b e f in
            closed_booking b _ _
              (booking_second id d _ (no_request _ e rs) (booking_after b f (bs b same)))
        | inl f ↦ absurd (no_target provider id now db d e f ran)
      ]
    ])
  where
    request_after :
        (r : DirectRequest)
        → find_direct id db ≡ some r
        → d.direct_requests ≡ (set_direct DirectRequestStatus.accepted (some r) db).direct_requests
        → find_direct id d ≡ some (record r { status = DirectRequestStatus.accepted })
    request_after r e rows =
        ap (find (λ x. x.id == id)) rows
        ∙ find-update_hit (λ (x : DirectRequest). x.id == id) (λ x. x.id == r.id)
            (λ x. record x { status = DirectRequestStatus.accepted }) db.direct_requests r
            (λ x. refl) e (==_refl r.id)

    no_request :
        (o : Option DirectRequest)
        → find_direct id db ≡ none
        → d.direct_requests ≡ (set_direct DirectRequestStatus.accepted o db).direct_requests
        → find_direct id d ≡ none
    no_request none e rows = ap (find (λ x. x.id == id)) rows ∙ e
    no_request (some r) e rows =
        ap (find (λ x. x.id == id)) rows
        ∙ find-update-none (λ (x : DirectRequest). x.id == id) (λ x. x.id == r.id)
            (λ x. record x { status = DirectRequestStatus.accepted }) db.direct_requests (λ x. refl)
            e

    booking_after :
        (b : Booking)
        → find_booking id db ≡ some b
        → d.bookings ≡ update (λ y. y.id == b.id) accept_booking db.bookings
        → find_booking id d ≡ some (accept_booking b)
    booking_after b e rows =
        ap (find (λ x. x.id == id)) rows
        ∙ find-update_hit (λ (x : Booking). x.id == id) (λ x. x.id == b.id) accept_booking
            db.bookings b (λ x. refl) e (==_refl b.id)
