-- ===== src/Trust/Frame.antt =====
-- What the writes of trust leave alone (services/trust.service.ts, services/trust-policy.service.ts).
use servicehub_backend.Base.{
  ℕ, ◌≡◌, refl, inl, inr, Option, none, some, arith, leb, Bool-cases, Option-cases, Result, ok, err,
  ◌>>=◌, >>=-eq-ok,
}
use servicehub_backend.Schema.{Db, User, Booking, find_user, find_booking}
use servicehub_backend.Trust.{
  TrustInput, Applied, apply_trust_event, write_trust_event, audit_trust,
}
use servicehub_backend.Trust.Bookings.{
  award_one, award_pair, award_input, award_booking_completion_trust,
}

-- Only the users, their history and the audit log differ, and the number for the next row.
abbrev pub OnlyTrust : Db → Db → Type 0
OnlyTrust db d = d ≡ record db {
  next_id = d.next_id;
  users = d.users;
  trust_events = d.trust_events;
  audit = d.audit;
}

trust_trans : (a b c : Db) → OnlyTrust a b → OnlyTrust b c → OnlyTrust a c
trust_trans a b c p q = ground arith

audit_trust-frame : (o : Option ℕ) (u : ℕ) (db : Db) → OnlyTrust db (audit_trust o u db)
audit_trust-frame none u db = refl
audit_trust-frame (some a) u db = refl

write_trust_event-frame :
    (input : TrustInput) (now : ℕ) (u : User) (db : Db)
    → OnlyTrust db (write_trust_event input now u db).1
unfolding write_trust_event
write_trust_event-frame input now u db =
    ground (arith, audit_trust-frame input.actor_admin_id input.user_id)

pub apply_trust_event-frame :
    (input : TrustInput) (now : ℕ) (db d : Db) (r : Applied)
    → apply_trust_event input now db ≡ ok (r, d)
    → OnlyTrust db d
unfolding apply_trust_event
apply_trust_event-frame input now db d r h = elim (Option-cases (find_user input.user_id db)) [
  | inl e ↦ ground arith
  | inr (u, e) ↦ ground (arith, write_trust_event-frame input now u db)
]

-- A success of the event is all that a round passes on.
passes_on :
    (db : Db) (r : Result (Applied × Db)) (d : Db)
    → ((a : Applied) (x : Db) → r ≡ ok (a, x) → OnlyTrust db x)
    → (r >>= λ x. ok x.1) ≡ ok d
    → OnlyTrust db d
passes_on db (ok (a, x)) d f h = ground (arith, f a x refl)
passes_on db (err e) d f h = absurd (cc h)

award_one-frame :
    (booking provider : ℕ) (account : User) (user now : ℕ) (db d : Db)
    → award_one booking provider account user now db ≡ ok d
    → OnlyTrust db d
unfolding award_one
award_one-frame booking provider account user now db d h = ground (
  arith,
  passes_on db (apply_trust_event (award_input booking provider user) now db) d
      (λ a x e. apply_trust_event-frame (award_input booking provider user) now db x a e),
)

award_two-frame :
    (booking provider : ℕ) (first second : User) (a b now : ℕ) (db d : Db)
    → (award_one booking provider first a now db >>= λ x. award_one booking provider second b now x)
      ≡ ok d
    → OnlyTrust db d
award_two-frame booking provider first second a b now db d h =
    let step =
      >>=-eq-ok (award_one booking provider first a now db)
        (λ x. award_one booking provider second b now x) h in
    trust_trans db step.0 d (award_one-frame booking provider first a now db step.0 step.1)
      (award_one-frame booking provider second b now step.0 d step.2)

award_pair-frame :
    (b : Booking) (provider seeker : User) (now : ℕ) (db d : Db)
    → award_pair b provider seeker now db ≡ ok d
    → OnlyTrust db d
unfolding award_pair
award_pair-frame b provider seeker now db d h = elim (Bool-cases (leb b.provider_id b.seeker_id)) [
  | inl c ↦
      award_two-frame b.id b.provider_id provider seeker b.provider_id b.seeker_id now db d
        (rw c at h)
  | inr c ↦
      award_two-frame b.id b.provider_id seeker provider b.seeker_id b.provider_id now db d
        (rw c at h)
]

pub award_booking_completion_trust-frame :
    (booking now : ℕ) (db d : Db)
    → award_booking_completion_trust booking now db ≡ ok d
    → OnlyTrust db d
unfolding award_booking_completion_trust
award_booking_completion_trust-frame booking now db d h =
    elim (Option-cases (find_booking booking db)) [
      | inl e ↦ ground arith
      | inr (b, e) ↦ elim (Option-cases (find_user b.provider_id db)) [
        | inl f ↦ ground arith
        | inr (p, f) ↦ elim (Option-cases (find_user b.seeker_id db)) [
          | inl g ↦ ground arith
          | inr (s, g) ↦ ground (arith, award_pair-frame b p s now db d)
        ]
      ]
    ]
