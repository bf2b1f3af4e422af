-- ===== src/Trust/Points.antt =====
-- The points and penalties of a booking (services/trust-policy.service.ts).
use servicehub_backend.Base.{
  ℕ, ◌+◌, ◌≤◌, ◌≡◌, sym, subst, ◌≢◌, ◌⊎◌, inl, inr, Bool, true, false, ◌&&◌, none, some, List, [],
  ◌∷◌, arith, leb, ◌==◌, is_some, Bool-cases, Option-cases, ==→eq, ==_refl, ne→==, ok, ◌>>=◌,
  >>=-eq-ok, length, All, count-All, All-map, find, count, insert, find-holds, find-none-count,
}
use servicehub_backend.Base.Int.{pos, ◌+ℤ◌}
use servicehub_backend.Schema.{
  TrustEvent, is_open_case, is_undecided_cancellation, is_completion_event, Db, User, Booking,
  EventKey, is_settled, BookingStatus, VerificationStatus, completed_of, find_user, find_booking,
}
use servicehub_backend.Trust.{
  reversal_of, Applied, not_applied, was_applied, apply_trust_event, write_trust_event, clamp_score,
  trust_event_row,
}
use servicehub_backend.Trust.Score.{apply_trust_event-length}
use servicehub_backend.Trust.Bookings.{
  is_recent_award, award_input, award_one, award_pair, award_refused,
  award_booking_completion_trust, Fault, penalty_input, has_penalty_key,
  apply_booking_trust_penalty,
}

is_some-find-insert {ℓ} :
    {A : Type ℓ} (p : A → Bool) (a : A) (xs : List A)
    → p a ≡ true
    → is_some (find p (insert a xs)) ≡ true
is_some-find-insert p a [] h = rw h
is_some-find-insert p a (x ∷ xs) h = ground (arith, is_some-find-insert p a xs)

penalty_recorded :
    (booking user admin : ℕ) (key : EventKey) (fault : Fault) (reason reason_length now : ℕ)
    (db db' : Db) (r : Applied)
    → apply_booking_trust_penalty booking user admin key fault reason reason_length now db
      ≡ ok (r, db')
    → was_applied r ≡ true
    → is_some (find (has_penalty_key booking user) db'.trust_events) ≡ true
unfolding apply_booking_trust_penalty apply_trust_event write_trust_event
penalty_recorded booking user admin key fault reason reason_length now db db' r h a =
    elim (Option-cases (find_user user db)) [
      | inl e ↦ ground arith
      | inr (u, e) ↦
          let input = penalty_input booking user admin key fault reason in
          let score = clamp_score (pos u.trust_score +ℤ input.delta) in
          ground (
            arith,
            is_some-find-insert (has_penalty_key booking user)
                (trust_event_row db.next_id input u.trust_score score now) db.trust_events
                (ground arith),
          )
    ]

-- A member is penalised for a booking at most once: after a penalty was applied, any later one
-- for the same booking and member that is accepted, by whichever administrator, for whichever
-- fault and under whichever key, is not applied and leaves the database unchanged.
pub apply_booking_trust_penalty_once :
    (booking user : ℕ) (admin admin' : ℕ) (key key' : EventKey) (fault fault' : Fault)
    (reason reason' reason_length reason_length' now later : ℕ) (db db' db'' : Db) (r r' : Applied)
    → apply_booking_trust_penalty booking user admin key fault reason reason_length now db
      ≡ ok (r, db')
    → was_applied r ≡ true
    → apply_booking_trust_penalty booking user admin' key' fault' reason' reason_length' later db'
      ≡ ok (r', db'')
    → (r' ≡ not_applied) × (db'' ≡ db')
apply_booking_trust_penalty_once booking user admin admin' key key' fault fault' reason reason'
      reason_length reason_length' now later db db' db'' r r' h a h' =
    let once =
      penalty_recorded booking user admin key fault reason reason_length now db db' r h a in
    unfold apply_booking_trust_penalty in (ground (arith, once), ground (arith, once))

award_one-length :
    (booking provider : ℕ) (account : User) (user now : ℕ) (db d : Db)
    → award_one booking provider account user now db ≡ ok d
    → length d.trust_events ≤ length db.trust_events + 1
unfolding award_one
award_one-length booking provider account user now db d h =
    ground (arith, apply_trust_event-length (award_input booking provider user) now db)

award_two_length :
    (booking provider : ℕ) (first second : User) (a b now : ℕ) (db d : Db)
    → (award_one booking provider first a now db >>= λ x. award_one booking provider second b now x)
      ≡ ok d
    → length d.trust_events ≤ length db.trust_events + 2
award_two_length booking provider first second a b now db d h =
    let step =
      >>=-eq-ok (award_one booking provider first a now db)
        (λ x. award_one booking provider second b now x) h in
    omega (
      arith,
      award_one-length booking provider first a now db step.0 step.1,
      award_one-length booking provider second b now step.0 d step.2,
    )

award_pair-length :
    (b : Booking) (provider seeker : User) (now : ℕ) (db d : Db)
    → award_pair b provider seeker now db ≡ ok d
    → length d.trust_events ≤ length db.trust_events + 2
unfolding award_pair
award_pair-length b provider seeker now db d h = elim (Bool-cases (leb b.provider_id b.seeker_id)) [
  | inl c ↦
      award_two_length b.id b.provider_id provider seeker b.provider_id b.seeker_id now db d
        (rw c at h)
  | inr c ↦
      award_two_length b.id b.provider_id seeker provider b.seeker_id b.provider_id now db d
        (rw c at h)
]

-- An award of the two participants of `b` for another booking, which is not corrected, is seven days
-- old.
abbrev pub NotRecent : Booking → ℕ → Db → TrustEvent → Type 0
NotRecent b now db e =
    (id : ℕ) (x : Booking)
    → is_completion_event e.category ≡ true
    → e.booking_id ≡ some id
    → id ≢ b.id
    → reversal_of e.id db ≡ none
    → find_booking id db ≡ some x
    → ((x.provider_id ≡ b.provider_id) × (x.seeker_id ≡ b.seeker_id))
      ⊎ ((x.provider_id ≡ b.seeker_id) × (x.seeker_id ≡ b.provider_id))
    → (e.user_id ≡ b.provider_id) ⊎ (e.user_id ≡ b.seeker_id)
    → e.created_at + 604800000 ≤ now

not_recent :
    (b : Booking) (now : ℕ) (db : Db) (e : TrustEvent)
    → is_recent_award b.id b.provider_id b.seeker_id now db e ≡ false
    → NotRecent b now db e
not_recent b now db e h id x earned known other kept there pair user =
    let apart = ne→== id b.id other in
    let own = ==_refl b.provider_id in
    let theirs = ==_refl b.seeker_id in
    ground (arith, h, earned, known, apart, kept, there, pair, user, own, theirs)

no_case {ℓ} :
    {A : Type ℓ} (of_row : A → ℕ) (is_open : A → Bool) (booking : ℕ) (xs : List A)
    → count (λ x. of_row x == booking && is_open x) xs ≡ 0
    → All (λ x. of_row x ≡ booking → is_open x ≡ false) xs
no_case of_row is_open booking xs h =
    All-map
      (λ x k e.
        let same : (of_row x == booking) ≡ true = rw e (==_refl booking) in ground (arith, same, k))
      xs (count-All (λ x. of_row x == booking && is_open x) xs h)

-- Points are given only for a completed and settled booking of two different, approved members,
-- which has its completed service, with no open case, and no award of the pair for another booking
-- in the last seven days that was not corrected; at most two events are written. In every other case the database stays as it was.
pub award_booking_completion_trust_earned :
    (booking now : ℕ) (db db' : Db)
    → award_booking_completion_trust booking now db ≡ ok db'
    → (db' ≡ db)
      ⊎ ((b : Booking) × (p : User) × (s : User) × (find_booking booking db ≡ some b)
          × (find_user b.provider_id db ≡ some p)
          × (find_user b.seeker_id db ≡ some s)
          × (p.verification ≡ VerificationStatus.approved)
          × (s.verification ≡ VerificationStatus.approved)
          × (is_some (completed_of b.id db) ≡ true)
          × (b.status ≡ BookingStatus.completed)
          × (is_settled b.payment_status ≡ true)
          × (b.provider_id ≢ b.seeker_id)
          × All (λ r. r.booking_id ≡ booking → is_open_case r.status ≡ false) db.reports
          × All
              (λ c. c.booking_id ≡ booking → is_undecided_cancellation c.status ≡ false)
              db.cancellations
          × All (λ c. c.booking_id ≡ booking → is_open_case c.status ≡ false) db.escalations
          × All (NotRecent b now db) db.trust_events
          × (length db'.trust_events ≤ length db.trust_events + 2))
unfolding award_booking_completion_trust
award_booking_completion_trust_earned booking now db db' h =
    elim (Option-cases (find_booking booking db)) [
      | inl e ↦ inl (ground arith)
      | inr (b, e) ↦ elim (Option-cases (find_user b.provider_id db)) [
        | inl f ↦ absurd (ground arith)
        | inr (p, f) ↦ elim (Option-cases (find_user b.seeker_id db)) [
          | inl g ↦ absurd (ground arith)
          | inr (s, g) ↦ elim (Bool-cases (award_refused booking b p s now db)) [
            | inl c ↦ inl (ground arith)
            | inr c ↦
                let own = ==→eq b.id booking (find-holds (λ y. y.id == booking) db.bookings b e) in
                let awards = λ (i : ℕ). is_recent_award i b.provider_id b.seeker_id now db in
                let unawarded : find (awards booking) db.trust_events ≡ none = ground (arith, c) in
                let fresh =
                  find-none-count (awards b.id) db.trust_events
                    (subst (λ i. find (awards i) db.trust_events ≡ none) (sym own) unawarded) in
                inr (
                  b,
                  p,
                  s,
                  e,
                  f,
                  g,
                  ground arith,
                  ground arith,
                  ground arith,
                  ground arith,
                  ground arith,
                  ground arith,
                  no_case (λ r. r.booking_id) (λ r. is_open_case r.status) booking db.reports
                      (ground arith),
                  no_case (λ r. r.booking_id) (λ r. is_undecided_cancellation r.status) booking
                      db.cancellations (ground arith),
                  no_case (λ r. r.booking_id) (λ r. is_open_case r.status) booking db.escalations
                      (ground arith),
                  All-map (λ x. not_recent b now db x) db.trust_events
                      (count-All (awards b.id) db.trust_events fresh),
                  ground (arith, award_pair-length b p s now db db'),
                )
          ]
        ]
      ]
    ]
