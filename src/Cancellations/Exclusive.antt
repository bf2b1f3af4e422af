-- ===== src/Cancellations/Exclusive.antt =====
-- The claim of a cancellation (requestCancellation of services/cancellation.service.ts).
use servicehub_backend.Base.{
  ℕ, ◌≡◌, refl, ap, ◌∙◌, ◌≢◌, ◌⊎◌, inl, inr, Bool, false, not, none, some, List, [], ◌∷◌, arith,
  ◌==◌, Bool-cases, Option-cases, ==→eq, ==_refl, Result, ok, ◌>>=◌, >>=-eq-ok, select, count,
  insert, count-insert, find-holds,
}
use servicehub_backend.Schema.{
  Db, Booking, CancellationRequest, Notice, ProgressKind, is_closed, is_canceled, is_on_hold,
  find_booking, fresh_id,
}
use servicehub_backend.Bookings.{booking_actor_role, other_party, record_lifecycle_notice}
use servicehub_backend.Bookings.Frame.{record_booking_progress-frame, record_lifecycle_notice-frame}
use servicehub_backend.Cancellations.Requests.{
  Claim, latest_request, is_active_for, active_request, repeat_claim, new_request, hold_unstarted,
  claim_rows, tell_request, new_claim, claim_cancellation,
}

latest_request-none : (xs : List CancellationRequest) → latest_request xs ≡ none → xs ≡ []
latest_request-none [] h = refl
latest_request-none (x ∷ xs) h = elim (Option-cases (latest_request xs)) [
  | inl e ↦ absurd (ground arith)
  | inr (y, e) ↦ absurd (ground arith)
]

count-select-none {ℓ} :
    {A : Type ℓ} (p : A → Bool) (xs : List A) → select p xs ≡ [] → count p xs ≡ 0
count-select-none p [] h = refl
count-select-none p (x ∷ xs) h = ground (arith, count-select-none p xs)

hold_unstarted-cancellations :
    (b : Booking) (db : Db) → (hold_unstarted b db).cancellations ≡ db.cancellations
hold_unstarted-cancellations b db = ground arith

claim_rows-cancellations :
    (b : Booking) (user now : ℕ) (db : Db)
    → (claim_rows b user now db).cancellations
      ≡ insert (new_request db.next_id b user now) db.cancellations
unfolding claim_rows
claim_rows-cancellations b user now db =
    let inserted =
      fresh_id (record db {
        cancellations = insert (new_request db.next_id b user now) db.cancellations;
      }) in
    hold_unstarted-cancellations b _
    ∙ ap (λ d. d.cancellations)
        (record_booking_progress-frame b.id ProgressKind.cancellation_requested
          (booking_actor_role b (some user)) db.next_id now inserted)

tell_request-cancellations :
    (b : Booking) (user : ℕ) (db d : Db)
    → tell_request b user db ≡ ok d
    → d.cancellations ≡ db.cancellations
tell_request-cancellations b user db d h = elim (Bool-cases b.started) [
  | inl c ↦
      let notices = (other_party b user, Notice.cancellation_received b.id) ∷ [] in
      let told : record_lifecycle_notice b notices none db ≡ ok d = ground arith in
      ap (λ x. x.cancellations) (record_lifecycle_notice-frame b notices none db d told)
  | inr c ↦ ground arith
]

-- What a new claim went through, and the row that it leaves.
new_claim_inversion :
    (b : Booking) (user now : ℕ) (db d : Db) (claim : Claim)
    → new_claim b user now db ≡ ok (claim, d)
    → (is_closed b.status ≡ false)
      × (is_on_hold b.status ≡ false)
      × (claim.request ≡ some db.next_id)
      × (claim.immediate ≡ not b.started)
      × (d.cancellations ≡ insert (new_request db.next_id b user now) db.cancellations)
unfolding new_claim
new_claim_inversion b user now db d claim h =
    let rows = claim_rows b user now db in
    let made : Claim = record {
      request = some db.next_id;
      immediate = not b.started;
      already_cancelled = false;
    } in
    let pack : Db → Result (Claim × Db) = λ e. ok (made, e) in
    let ran : (tell_request b user rows >>= pack) ≡ ok (claim, d) = ground arith in
    let step = >>=-eq-ok (tell_request b user rows) pack ran in
    let told = tell_request-cancellations b user rows step.0 step.1 in
    (
      ground arith,
      ground arith,
      ground (arith, step.2),
      ground (arith, step.2),
      ground (arith, step.2, told, claim_rows-cancellations b user now db),
    )

-- One cancellation at a time: a request that is accepted either changes nothing, or is the only
-- active one of its booking, made while the booking was neither closed nor on hold; it is settled
-- at once exactly if the work has not started. No other booking gains an active request.
pub claim_cancellation_exclusive :
    (booking user now : ℕ) (db d : Db) (claim : Claim)
    → claim_cancellation booking user now db ≡ ok (claim, d)
    → (d ≡ db)
      ⊎ ((b : Booking) × (find_booking booking db ≡ some b)
          × (is_closed b.status ≡ false)
          × (is_on_hold b.status ≡ false)
          × (claim.immediate ≡ not b.started)
          × (claim.request ≡ some db.next_id)
          × (count (is_active_for booking) d.cancellations ≡ 1)
          × ((x : ℕ)
              → x ≢ booking
              → count (is_active_for x) d.cancellations ≡ count (is_active_for x) db.cancellations))
unfolding claim_cancellation repeat_claim
claim_cancellation_exclusive booking user now db d claim h =
    elim (Option-cases (find_booking booking db)) [
      | inl e ↦ absurd (ground arith)
      | inr (b, e) ↦ elim (Option-cases (active_request booking db)) [
        | inr (c, f) ↦ inl (repeated b c e f)
        | inl f ↦ elim (Bool-cases (is_canceled b.status)) [
          | inl g ↦ inl (ground arith)
          | inr g ↦ let m = made b e f g in inr (b, e, m.0, m.1, m.2, m.3, m.4, m.5)
        ]
      ]
    ]
  where
    repeated :
        (b : Booking) (c : CancellationRequest)
        → find_booking booking db ≡ some b
        → active_request booking db ≡ some c
        → d ≡ db
    repeated b c e f = ground arith

    made :
        (b : Booking)
        → find_booking booking db ≡ some b
        → active_request booking db ≡ none
        → is_canceled b.status ≡ false
        → (is_closed b.status ≡ false)
          × (is_on_hold b.status ≡ false)
          × (claim.immediate ≡ not b.started)
          × (claim.request ≡ some db.next_id)
          × (count (is_active_for booking) d.cancellations ≡ 1)
          × ((x : ℕ)
              → x ≢ booking
              → count (is_active_for x) d.cancellations ≡ count (is_active_for x) db.cancellations)
    made b e f g =
        let run : new_claim b user now db ≡ ok (claim, d) = ground arith in
        let new = new_claim_inversion b user now db d claim run in
        let own = ==→eq b.id booking (find-holds (λ y. y.id == booking) db.bookings b e) in
        let before =
          count-select-none (is_active_for booking) db.cancellations
            (latest_request-none (select (is_active_for booking) db.cancellations) f) in
        let row = new_request db.next_id b user now in
        (
          new.0,
          new.1,
          new.3,
          new.2,
          ap (count (is_active_for booking)) new.4
              ∙ ground (
                arith,
                count-insert (is_active_for booking) row db.cancellations,
                before,
                own,
                ==_refl booking,
              ),
          λ x n.
              ap (count (is_active_for x)) new.4
              ∙ ground (arith, count-insert (is_active_for x) row db.cancellations, own, n),
        )
