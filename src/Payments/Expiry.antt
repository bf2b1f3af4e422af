-- ===== src/Payments/Expiry.antt =====
-- services/payment-attempt.service.ts: the sweep that ends the attempts whose time has run out.
use servicehub_backend.Base.{
  length-select, ℕ, zero, suc, ◌+◌, ◌≤◌, ◌≡◌, refl, sym, ap, subst, inl, inr, Bool, true, false,
  not, ◌&&◌, ◌||◌, some, List, [], ◌∷◌, arith, ltb, ◌==◌, if◌then◌else◌, Bool-cases, Option-cases,
  ==→eq, ==_refl, length, any, find, select, count, update, count-update_same, count-update-le,
  find-holds, find-none-count, count-update_none, count-narrow,
}
use servicehub_backend.Schema.{Db, PaymentAttempt, AttemptStatus, find_attempt, update_attempt}
use servicehub_backend.Payments.{
  is_pending_attempt, set_attempt, end_attempt, is_stale, expire_attempt, expire_each, take,
  expire_stale_payment_attempts,
}
use servicehub_backend.Payments.Settled.{release_offer_hold-attempts}

abbrev has_id : ℕ → PaymentAttempt → Bool
has_id id a = a.id == id

abbrev is_stale_of : ℕ → ℕ → PaymentAttempt → Bool
is_stale_of now id a = a.id == id && is_stale now a

abbrev HasUniqueIds : Db → Type 0
HasUniqueIds db = (id : ℕ) → count (has_id id) db.attempts ≤ 1

count-unique_none {ℓ} :
    {A : Type ℓ} (p q : A → Bool) (xs : List A) (a : A)
    → count p xs ≤ 1
    → find p xs ≡ some a
    → q a ≡ false
    → count (λ x. p x && q x) xs ≡ 0
count-unique_none p q [] a u e h = refl
count-unique_none p q (x ∷ xs) a u e h = elim (Bool-cases (p x)) [
  | inl b ↦
      let none' : count p xs ≡ 0 = ground (arith, u, b) in
      let fewer = count-narrow (λ y. p y && q y) p xs (λ y c. ground (arith, c)) in
      ground (arith, e, b, h, none', fewer)
  | inr b ↦ ground (arith, b, count-unique_none p q xs a)
]

ended-attempts :
    (status : AttemptStatus) (a : PaymentAttempt) (db : Db)
    → (end_attempt status a db).attempts ≡ update (has_id a.id) (set_attempt status) db.attempts
ended-attempts status a db =
    (release_offer_hold-attempts a.offer_id (update_attempt a.id (set_attempt status) db)).0

-- One round makes no attempt stale, keeps the ids, and leaves the attempt of its id not stale.
expire_attempt_round :
    (id now : ℕ) (db : Db) (x : ℕ)
    → let d = (expire_attempt id now db).1 in
      (count (is_stale_of now x) d.attempts ≤ count (is_stale_of now x) db.attempts)
      × (count (has_id x) d.attempts ≡ count (has_id x) db.attempts)
      × (HasUniqueIds db → count (is_stale_of now id) d.attempts ≡ 0)
unfolding expire_attempt
expire_attempt_round id now db x = elim (Option-cases (find_attempt id db)) [
  | inl e ↦
      let fewer =
        count-narrow (is_stale_of now id) (has_id id) db.attempts (λ a h. ground (arith, h)) in
      let none' = find-none-count (has_id id) db.attempts e in
      (ground (arith, e), ground (arith, e), λ u. ground (arith, e, fewer, none'))
  | inr (a, e) ↦ elim (Bool-cases (not (is_pending_attempt a.status) || ltb now a.expires_at)) [
    | inl h ↦ (
      ground (arith, e, h),
      ground (arith, e, h),
      λ u.
          let fresh : is_stale now a ≡ false = ground (arith, h) in
          let none' = count-unique_none (has_id id) (is_stale now) db.attempts a (u id) e fresh in
          ground (arith, e, h, none'),
    )
    | inr h ↦
        let same = ==→eq _ _ (find-holds (has_id id) db.attempts a e) in
        let rows = ended-attempts AttemptStatus.expired a db in
        let fewer =
          count-update-le (is_stale_of now x) (has_id a.id) (set_attempt AttemptStatus.expired)
            db.attempts (λ y k. ground (arith, k)) in
        let ids =
          count-update_same (has_id x) (has_id a.id) (set_attempt AttemptStatus.expired) db.attempts
            (λ y. refl) in
        let none' =
          count-update_none (is_stale_of now id) (has_id a.id) (set_attempt AttemptStatus.expired)
            db.attempts (λ y k. ground arith) (λ y k. ground (arith, k, same)) in
        (
          ground (arith, e, h, ap (count (is_stale_of now x)) rows, fewer),
          ground (arith, e, h, ap (count (has_id x)) rows, ids),
          λ u. ground (arith, e, h, ap (count (is_stale_of now id)) rows, none'),
        )
  ]
]

expire_each_all :
    (es : List PaymentAttempt) (now expired : ℕ) (db : Db) (x : ℕ)
    → HasUniqueIds db
    → let d = (expire_each es now expired db).1 in
      (count (is_stale_of now x) d.attempts ≤ count (is_stale_of now x) db.attempts)
      × (any (has_id x) es ≡ true → count (is_stale_of now x) d.attempts ≡ 0)
unfolding expire_each
expire_each_all [] now expired db x u = (omega arith, λ h. absurd (cc h))
expire_each_all (a ∷ es) now expired db x u =
    let middle = (expire_attempt a.id now db).1 in
    let n = if (expire_attempt a.id now db).0 then expired + 1 else expired in
    let first = expire_attempt_round a.id now db x in
    let rest =
      expire_each_all es now n middle x
        (λ y. subst (λ c. c ≤ 1) (sym ((expire_attempt_round a.id now db y).1)) (u y)) in
    (
      omega (arith, first.0, rest.0),
      λ h. elim (Bool-cases (a.id == x)) [
        | inl e ↦
            let now_none =
              subst (λ y. count (is_stale_of now y) middle.attempts ≡ 0) (==→eq _ _ e)
                (first.2 u) in
            omega (arith, rest.0, now_none)
        | inr e ↦ rest.1 (ground (arith, h, e))
      ],
    )

take-all {ℓ} : {A : Type ℓ} (n : ℕ) (xs : List A) → length xs ≤ n → take n xs ≡ xs
take-all zero [] h = refl
take-all zero (x ∷ xs) h = absurd (omega (arith, h))
take-all (suc n) [] h = refl
take-all (suc n) (x ∷ xs) h = ap (λ ys. x ∷ ys) (take-all n xs (omega (arith, h)))

-- A stale attempt is among those that are selected.
any-select :
    (now x : ℕ) (xs : List PaymentAttempt)
    → any (has_id x) (select (is_stale now) xs) ≡ false
    → count (is_stale_of now x) xs ≡ 0
any-select now x [] h = refl
any-select now x (a ∷ xs) h = ground (arith, any-select now x xs)

-- Where no id has a stale attempt, there is none.
none_stale :
    (now : ℕ) (xs : List PaymentAttempt)
    → ((x : ℕ) → count (is_stale_of now x) xs ≡ 0)
    → count (is_stale now) xs ≡ 0
none_stale now [] h = refl
none_stale now (a ∷ xs) h =
    let rest = none_stale now xs (λ x. ground (arith, h x)) in
    ground (arith, h a.id, ==_refl a.id, rest)

-- A sweep ends every attempt whose time has run out, if there are a hundred of them at most and
-- their ids are unique.
pub expire_stale_payment_attempts_all :
    (now : ℕ) (db : Db)
    → HasUniqueIds db
    → count (is_stale now) db.attempts ≤ 100
    → count (is_stale now) (expire_stale_payment_attempts now db).1.attempts ≡ 0
unfolding expire_stale_payment_attempts
expire_stale_payment_attempts_all now db u few =
    let stale = select (is_stale now) db.attempts in
    let whole = take-all 100 stale (omega (arith, few, length-select (is_stale now) db.attempts)) in
    none_stale now _ (λ x.
      let swept = expire_each_all (take 100 stale) now 0 db x u in
      elim (Bool-cases (any (has_id x) stale)) [
        | inl e ↦ swept.1 (subst (λ ys. any (has_id x) ys ≡ true) (sym whole) e)
        | inr e ↦ omega (arith, swept.0, any-select now x db.attempts e)
      ])
