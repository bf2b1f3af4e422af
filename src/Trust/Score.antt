-- ===== src/Trust/Score.antt =====
-- One trust event (services/trust.service.ts): the score it leaves, and what a retry does.
use servicehub_backend.Base.{
  ℕ, ◌+◌, ◌≤◌, ◌≡◌, refl, ap, ◌∙◌, ◌⊎◌, inl, inr, Bool, true, false, Option, none, some, List, [],
  ◌∷◌, arith, ◌==◌, is_some, Bool-cases, Option-cases, ==_refl, ok, OnOk, length, All,
  length-append, find, update, insert, find-holds, find-update_hit,
}
use servicehub_backend.Base.Int.{ℤ, pos, negsuc, ◌+ℤ◌, eq_ℤ}
use servicehub_backend.Schema.{Db, User, EventKey, find_user}
use servicehub_backend.Trust.{
  TrustInput, Applied, not_applied, eq_event_key, clamp_score, conflicts, trust_event_row,
  audit_trust, write_trust_event, find_event, apply_trust_event,
}

abbrev pub IsBounded : Db → Type 0
IsBounded db = All (λ u. u.trust_score ≤ 100) db.users

clamp_score-le : (z : ℤ) → clamp_score z ≤ 100
clamp_score-le (pos n) = omega arith
clamp_score-le (negsuc n) = omega arith

bounded-update :
    (p : User → Bool) (score : ℕ) (us : List User)
    → score ≤ 100
    → All (λ u. u.trust_score ≤ 100) us
    → All (λ u. u.trust_score ≤ 100) (update p (λ u. record u { trust_score = score }) us)
bounded-update p score [] h a = tt
bounded-update p score (u ∷ us) h a = (ground arith, bounded-update p score us h a.1)

audit-IsBounded :
    (admin : Option ℕ) (user : ℕ) (db : Db) → IsBounded db → IsBounded (audit_trust admin user db)
audit-IsBounded none user db h = h
audit-IsBounded (some a) user db h = h

write-IsBounded :
    (input : TrustInput) (now : ℕ) (user : User) (db : Db)
    → IsBounded db
    → IsBounded (write_trust_event input now user db).1
unfolding write_trust_event
write-IsBounded input now user db h =
    let b =
      bounded-update (λ u. u.id == input.user_id)
        (clamp_score (pos user.trust_score +ℤ input.delta)) db.users
        (clamp_score-le (pos user.trust_score +ℤ input.delta)) h in
    audit-IsBounded input.actor_admin_id input.user_id _ b

-- However large the change, every trust score stays between 0 and 100 through every trust event.
pub apply_trust_event-IsBounded :
    (input : TrustInput) (now : ℕ) (db : Db)
    → IsBounded db
    → OnOk (λ r. IsBounded r.1) (apply_trust_event input now db)
unfolding apply_trust_event
apply_trust_event-IsBounded input now db h = elim (Option-cases (find_user input.user_id db)) [
  | inl e ↦ rw e tt
  | inr (u, e) ↦ elim (Option-cases (find_event input.event_key db)) [
    | inl f ↦ rw (e, f) (write-IsBounded input now u db h)
    | inr (x, f) ↦ elim (Bool-cases (conflicts x input)) [
      | inl c ↦ rw (e, f, c) tt
      | inr c ↦ rw (e, f, c) h
    ]
  ]
]

eq_event_key_refl : (k : EventKey) → eq_event_key k k ≡ true
eq_event_key_refl (EventKey.account_baseline a) = ==_refl a
eq_event_key_refl (EventKey.verification_approval a) = ==_refl a
eq_event_key_refl (EventKey.trust_operation a) = ==_refl a
eq_event_key_refl (EventKey.completion_provider a) = ==_refl a
eq_event_key_refl (EventKey.completion_seeker a) = ==_refl a
eq_event_key_refl (EventKey.cancellation_fault a b) = ground arith
eq_event_key_refl (EventKey.report_fault a b) = ground arith
eq_event_key_refl (EventKey.manual_trust a b) = ground arith
eq_event_key_refl (EventKey.review_event a) = ==_refl a

find-insert {ℓ} :
    {A : Type ℓ} (p : A → Bool) (a : A) (xs : List A)
    → find p xs ≡ none
    → p a ≡ true
    → find p (insert a xs) ≡ some a
find-insert p a [] h k = rw k
find-insert p a (x ∷ xs) h k = ground (arith, find-insert p a xs)

eq_ℤ_refl : (z : ℤ) → eq_ℤ z z ≡ true
eq_ℤ_refl (pos n) = ==_refl n
eq_ℤ_refl (negsuc n) = ==_refl n

-- The event that a call wrote is no conflict for the same call.
own_event :
    (input : TrustInput) (id before after now : ℕ)
    → (input.requested_delta ≡ none) ⊎ (is_some input.actor_admin_id ≡ true)
    → conflicts (trust_event_row id input before after now) input ≡ false
own_event input id before after now h = elim (Option-cases input.requested_delta) [
  | inl e ↦ rw e
  | inr (z, e) ↦ ground (arith, eq_ℤ_refl z)
]

-- A retry of a trust change that succeeded, at any later time, changes nothing and reports that
-- it was not applied; for a manual correction this needs that its administrator is named.
pub apply_trust_event_retry :
    (input : TrustInput) (now later : ℕ) (db db' : Db) (r : Applied)
    → (input.requested_delta ≡ none) ⊎ (is_some input.actor_admin_id ≡ true)
    → apply_trust_event input now db ≡ ok (r, db')
    → apply_trust_event input later db' ≡ ok (not_applied, db')
unfolding apply_trust_event write_trust_event
apply_trust_event_retry input now later db db' r own h =
    elim (Option-cases (find_user input.user_id db)) [
      | inl e ↦ absurd (ground arith)
      | inr (u, e) ↦ elim (Option-cases (find_event input.event_key db)) [
        | inl f ↦
            let score = clamp_score (pos u.trust_score +ℤ input.delta) in
            let row = trust_event_row db.next_id input u.trust_score score now in
            ground (
              arith,
              find-insert (λ x. eq_event_key x.event_key input.event_key) row db.trust_events f
                  (eq_event_key_refl input.event_key),
              find-update_hit (λ (x : User). x.id == input.user_id) (λ x. x.id == input.user_id)
                  (λ x. record x { trust_score = score }) db.users u (λ a. refl) e
                  (find-holds (λ x. x.id == input.user_id) db.users u e),
              own_event input db.next_id u.trust_score score now own,
            )
        | inr (x, f) ↦ ground arith
      ]
    ]

audit_trust-trust_events :
    (admin : Option ℕ) (user : ℕ) (db : Db)
    → (audit_trust admin user db).trust_events ≡ db.trust_events
audit_trust-trust_events none user db = refl
audit_trust-trust_events (some a) user db = refl

write_length :
    (input : TrustInput) (now : ℕ) (u : User) (db : Db)
    → length (write_trust_event input now u db).1.trust_events ≡ length db.trust_events + 1
unfolding write_trust_event
write_length input now u db =
    ap length (audit_trust-trust_events input.actor_admin_id input.user_id _)
    ∙ length-append db.trust_events _

-- At most one event is written.
pub apply_trust_event-length :
    (input : TrustInput) (now : ℕ) (db : Db)
    → OnOk
        (λ r. length r.1.trust_events ≤ length db.trust_events + 1)
        (apply_trust_event input now db)
unfolding apply_trust_event
apply_trust_event-length input now db = elim (Option-cases (find_user input.user_id db)) [
  | inl e ↦ rw e tt
  | inr (u, e) ↦ elim (Option-cases (find_event input.event_key db)) [
    | inl f ↦ rw (e, f) (omega (arith, write_length input now u db))
    | inr (x, f) ↦ elim (Bool-cases (conflicts x input)) [
      | inl c ↦ rw (e, f, c) tt
      | inr c ↦ rw (e, f, c) (omega arith)
    ]
  ]
]
