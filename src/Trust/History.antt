-- ===== src/Trust/History.antt =====
-- The trust history against the score (services/trust.service.ts).
use servicehub_backend.Base.{
  ℕ, ◌+◌, ◌≤◌, ◌≡◌, inl, inr, Bool, true, Option, none, some, List, [], ◌∷◌, arith, ◌==◌,
  if◌then◌else◌, Bool-cases, Option-cases, ==→eq, OnOk, All, All-map, find, count, update, insert,
}
use servicehub_backend.Base.Int.{pos, pos_part, neg_part, sub_ℕ, ◌+ℤ◌}
use servicehub_backend.Schema.{Db, User, TrustEvent, find_user}
use servicehub_backend.Trust.{
  TrustInput, clamp_score, conflicts, trust_event_row, audit_trust, write_trust_event, find_event,
  apply_trust_event,
}

-- The points that the history of a user gained, and those that it lost.
abbrev pub gained : ℕ → List TrustEvent → ℕ
gained user [] = 0
gained user (e ∷ es) = (if e.user_id == user then pos_part e.delta else 0) + gained user es

abbrev pub lost : ℕ → List TrustEvent → ℕ
lost user [] = 0
lost user (e ∷ es) = (if e.user_id == user then neg_part e.delta else 0) + lost user es

-- The score of an account is the sum of the changes in its history.
abbrev pub IsBalanced : Db → Type 0
IsBalanced db =
    All (λ u. u.trust_score + lost u.id db.trust_events ≡ gained u.id db.trust_events) db.users

gained-insert :
    (user : ℕ) (e : TrustEvent) (es : List TrustEvent)
    → gained user (insert e es)
      ≡ gained user es + (if e.user_id == user then pos_part e.delta else 0)
gained-insert user e [] = omega arith
gained-insert user e (x ∷ xs) = omega (arith, gained-insert user e xs)

lost-insert :
    (user : ℕ) (e : TrustEvent) (es : List TrustEvent)
    → lost user (insert e es) ≡ lost user es + (if e.user_id == user then neg_part e.delta else 0)
lost-insert user e [] = omega arith
lost-insert user e (x ∷ xs) = omega (arith, lost-insert user e xs)

-- The recorded change is the difference of the two scores.
sub_ℕ_parts : (a b : ℕ) → b + pos_part (sub_ℕ a b) ≡ a + neg_part (sub_ℕ a b)
sub_ℕ_parts a b = ground arith

-- Each account is the one that was found, or has another id.
balanced-update :
    (input : TrustInput) (id score now : ℕ) (u : User) (es : List TrustEvent) (us : List User)
    → All (λ x. x.id ≡ input.user_id → x.trust_score ≡ u.trust_score) us
    → All (λ x. x.trust_score + lost x.id es ≡ gained x.id es) us
    → let es' = insert (trust_event_row id input u.trust_score score now) es in
      All
        (λ x. x.trust_score + lost x.id es' ≡ gained x.id es')
        (update (λ x. x.id == input.user_id) (λ x. record x { trust_score = score }) us)
balanced-update input id score now u es [] same h = tt
balanced-update input id score now u es (x ∷ xs) same h = (
  (let row = trust_event_row id input u.trust_score score now in
      elim (Bool-cases (x.id == input.user_id)) [
        | inl c ↦ rw c (
            ground (
              arith,
              same.0 (==→eq _ _ c),
              h.0,
              gained-insert x.id row es,
              lost-insert x.id row es,
              sub_ℕ_parts score u.trust_score,
            ))
        | inr c ↦ rw c (ground (arith, h.0, gained-insert x.id row es, lost-insert x.id row es))
      ]),
  balanced-update input id score now u es xs same.1 h.1,
)

count-none {ℓ} :
    {A : Type ℓ} (p : A → Bool) (Q : A → Type 0) (xs : List A)
    → count p xs ≡ 0
    → All (λ x. p x ≡ true → Q x) xs
count-none p Q [] h = tt
count-none p Q (x ∷ xs) h = (λ c. absurd (ground arith), count-none p Q xs (ground arith))

unique-find :
    (p : User → Bool) (xs : List User) (u : User)
    → count p xs ≤ 1
    → find p xs ≡ some u
    → All (λ x. p x ≡ true → x.trust_score ≡ u.trust_score) xs
unique-find p [] u h e = tt
unique-find p (x ∷ xs) u h e = elim (Bool-cases (p x)) [
  | inl c ↦ (λ _. ground arith, count-none p (λ y. y.trust_score ≡ u.trust_score) xs (ground arith))
  | inr c ↦ (λ k. absurd (ground arith), unique-find p xs u (ground arith) (ground arith))
]

audit-IsBalanced :
    (admin : Option ℕ) (user : ℕ) (db : Db) → IsBalanced db → IsBalanced (audit_trust admin user db)
audit-IsBalanced none user db h = h
audit-IsBalanced (some a) user db h = h

write-IsBalanced :
    (input : TrustInput) (now : ℕ) (u : User) (db : Db)
    → count (λ x. x.id == input.user_id) db.users ≤ 1
    → find_user input.user_id db ≡ some u
    → IsBalanced db
    → IsBalanced (write_trust_event input now u db).1
unfolding write_trust_event
write-IsBalanced input now u db one e h =
    let b =
      balanced-update input db.next_id (clamp_score (pos u.trust_score +ℤ input.delta)) now u
        db.trust_events db.users
        (All-map {Q = λ x. x.id ≡ input.user_id → x.trust_score ≡ u.trust_score}
          (λ x (k : (x.id == input.user_id) ≡ true → x.trust_score ≡ u.trust_score) q.
            k (ground arith))
          db.users (unique-find (λ x. x.id == input.user_id) db.users u one e))
        h in
    audit-IsBalanced input.actor_admin_id input.user_id _ b

-- With one account for the id, a trust event keeps every score equal to the sum of the changes in
-- that account's history, also where the change was cut off at 0 or 100.
pub apply_trust_event-IsBalanced :
    (input : TrustInput) (now : ℕ) (db : Db)
    → count (λ x. x.id == input.user_id) db.users ≤ 1
    → IsBalanced db
    → OnOk (λ r. IsBalanced r.1) (apply_trust_event input now db)
unfolding apply_trust_event
apply_trust_event-IsBalanced input now db one h = elim (Option-cases (find_user input.user_id db)) [
  | inl e ↦ rw e tt
  | inr (u, e) ↦ elim (Option-cases (find_event input.event_key db)) [
    | inl f ↦ rw (e, f) (write-IsBalanced input now u db one e h)
    | inr (x, f) ↦ elim (Bool-cases (conflicts x input)) [
      | inl c ↦ rw (e, f, c) tt
      | inr c ↦ rw (e, f, c) h
    ]
  ]
]
