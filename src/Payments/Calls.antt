-- ===== src/Payments/Calls.antt =====
-- services/payment-attempt.service.ts: the calls that initiateOnlinePayment makes of itself.
use servicehub_backend.Base.{
  ℕ, ◌+◌, ◌≤◌, ◌<◌, ◌≡◌, refl, sym, ap, ◌∙◌, subst, inl, inr, Bool, true, false, not, ◌&&◌, Option,
  some, List, [], ◌∷◌, arith, ◌==◌, refers, is_some, Bool-cases, Option-cases, Result, ok, err,
  >>=-eq-ok, OnOk_elim, find, select, count, find-holds, find-count, count-narrow,
}
use servicehub_backend.Schema.{Db, PaymentAttempt}
use servicehub_backend.Providers.{assert_new_provider_business, new_business_tables}
use servicehub_backend.Payments.{is_pending_attempt, is_stale}
use servicehub_backend.Payments.Prepare.{
  PaymentParams, Target, pays_for, is_live_attempt, expire_all, check_reuse,
}
use servicehub_backend.Payments.Prepare.Create.{prepare_new, prepare_attempt}
use servicehub_backend.Payments.Capture.{mark_paid}
use servicehub_backend.Payments.Gateway.{
  Gateway, get_payment_attempt_status, reconcile_attempt, reconcile_online_payment_return, again,
  next_of,
}
use servicehub_backend.Payments.Decay.{IsSticky, tally, expire_all-le}
use servicehub_backend.Payments.Returns.{reconcile_attempt-le}

abbrev pub is_pending_row : PaymentAttempt → Bool
is_pending_row a = is_pending_attempt a.status

abbrev pub has_intent : ℕ → PaymentAttempt → Bool
has_intent intent a = refers a.provider_intent_id intent

-- The ids of the gateway's intents are unique, as the schema says.
abbrev pub HasUniqueIntents : Db → Type 0
HasUniqueIntents db = (intent : ℕ) → tally (has_intent intent) db ≤ 1

mark_paid_fields :
    (now : ℕ) (a : PaymentAttempt)
    → ((mark_paid now a).provider_intent_id ≡ a.provider_intent_id)
      × ((mark_paid now a).status ≡ a.status)
mark_paid_fields now a = elim (Bool-cases (is_some a.paid_at)) [
  | inl e ↦ (ground (arith, e), ground (arith, e))
  | inr e ↦ (ground (arith, e), ground (arith, e))
]

-- No write changes the intent of an attempt.
pub intent-IsSticky : (f : Option ℕ → Bool) → IsSticky (λ a. f a.provider_intent_id)
intent-IsSticky f = record {
  ended = λ status a h k. k;
  paid = λ now a k. sym (ap f (mark_paid_fields now a).0) ∙ k;
  refused = λ payment a k. k;
  succeeded = λ payment a k. k;
}

-- No write makes an attempt pending.
pub pending-IsSticky : IsSticky is_pending_row
pending-IsSticky = record {
  ended = λ status a h k. ground (arith, h, k);
  paid = λ now a k. ground (arith, mark_paid_fields now a, k);
  refused = λ payment a k. ground (arith, k);
  succeeded = λ payment a k. ground (arith, k);
}

both-IsSticky : (p q : PaymentAttempt → Bool) → IsSticky p → IsSticky q → IsSticky (λ a. p a && q a)
both-IsSticky p q s t = record {
  ended = λ status a h k. ground (arith, k, s.ended status a h, t.ended status a h);
  paid = λ now a k. ground (arith, k, s.paid now a, t.paid now a);
  refused = λ payment a k. ground (arith, k, s.refused payment a, t.refused payment a);
  succeeded = λ payment a k. ground (arith, k, s.succeeded payment a, t.succeeded payment a);
}

-- Where a query within the rows of one intent finds a row that fails a test, no row of the intent
-- passes it.
count-unique_within {ℓ} :
    {A : Type ℓ} (p q r : A → Bool) (xs : List A) (c : A)
    → count p xs ≤ 1
    → ((x : A) → r x ≡ true → p x ≡ true)
    → find r xs ≡ some c
    → q c ≡ false
    → count (λ x. q x && p x) xs ≡ 0
count-unique_within p q r [] c u within e h = refl
count-unique_within p q r (x ∷ xs) c u within e h = elim (Bool-cases (r x)) [
  | inl b ↦
      let own = within x b in
      let none' : count p xs ≡ 0 = ground (arith, u, own) in
      let fewer = count-narrow (λ y. q y && p y) p xs (λ y k. ground (arith, k)) in
      ground (arith, e, b, h, none', fewer)
  | inr b ↦
      let later : find r xs ≡ some c = ground (arith, e, b) in
      let holds = within c (find-holds r xs c later) in
      let some' = find-count r p xs c later holds in
      ground (arith, u, some', count-unique_within p q r xs c, within, later, h)
]

count-split {ℓ} :
    {A : Type ℓ} (p q : A → Bool) (xs : List A)
    → count p xs ≡ count (λ x. p x && q x) xs + count (λ x. p x && not (q x)) xs
count-split p q [] = refl
count-split p q (x ∷ xs) = ground (arith, count-split p q xs)

-- An attempt that was pending before is still pending, and the preparation makes no attempt.
pub prepared_reuse :
    (p : PaymentParams) (t : Target) (now : ℕ) (db d : Db) (a : PaymentAttempt)
    → prepare_attempt p t now db ≡ ok ((a, true), d)
    → ((q : PaymentAttempt → Bool) → IsSticky q → tally q d ≤ tally q db)
      × ((q : PaymentAttempt → Bool) → q a ≡ true → 1 ≤ tally q d)
      × (is_pending_row a ≡ true)
unfolding prepare_attempt
prepared_reuse p t now db d a h =
    let (b, trial, h1) = >>=-eq-ok (assert_new_provider_business t.provider_id now db) _ h in
    let frame =
      OnOk_elim (λ x. x ≡ record db { users = x.users })
        (assert_new_provider_business t.provider_id now db) b
        (new_business_tables t.provider_id now db) trial in
    let stale = select (λ x. pays_for p t x && is_stale now x) b.attempts in
    let e = expire_all stale b in
    let live = λ (x : PaymentAttempt). pays_for p t x && is_live_attempt now x in
    elim (Option-cases (find live e.attempts)) [
      | inl none' ↦
          let (_, f, h2) =
            >>=-eq-ok {After = (PaymentAttempt × Bool) × Db} (prepare_new p t now e)
              (λ r. ok ((r.0, false), r.1)) {result = ((a, true), d)} (ground (arith, h1, none')) in
          absurd (ground (arith, h2))
      | inr (x, found') ↦
          let (_, _, h2) =
            >>=-eq-ok {After = (PaymentAttempt × Bool) × Db} (check_reuse p t x)
              (λ _. ok ((x, true), e)) {result = ((a, true), d)} (ground (arith, h1, found')) in
          let rows : e ≡ d = ground (arith, h2) in
          let same : x ≡ a = ground (arith, h2) in
          let holds = find-holds live e.attempts x found' in
          (
            λ q sticky.
                subst (λ y. tally q y ≤ tally q db) rows
                  (omega (arith, expire_all-le q sticky stale b, ap (tally q) frame)),
            λ q k.
                subst (λ y. 1 ≤ tally q y) rows
                  (find-count live q e.attempts x found' (ap q same ∙ k)),
            subst (λ y. is_pending_row y ≡ true) same (ground (arith, holds)),
          )
    ]

-- A return that leads to a new try found the intent's attempt failed or expired.
again_after :
    (a : PaymentAttempt) (r : Result PaymentAttempt)
    → next_of a r ≡ again
    → (c : PaymentAttempt) × (r ≡ ok c) × (is_pending_row c ≡ false)
again_after a (err e) h = absurd (ground (arith, h))
again_after a (ok c) h = (
  c,
  refl,
  elim (Bool-cases (is_pending_row c)) [ inl e ↦ absurd (ground (arith, e, h)) | inr e ↦ e ],
)

status_found :
    (seeker intent : ℕ) (db : Db) (a : PaymentAttempt)
    → get_payment_attempt_status seeker intent db ≡ ok a
    → find (λ x. x.seeker_id == seeker && has_intent intent x) db.attempts ≡ some a
unfolding get_payment_attempt_status
status_found seeker intent db a h =
    elim (Option-cases
      (find (λ (x : PaymentAttempt). x.seeker_id == seeker && has_intent intent x) db.attempts)) [
        | inl e ↦ absurd (ground (arith, e, h))
        | inr (x, e) ↦ let same : x ≡ a = ground (arith, e, h) in e ∙ ap some same
      ]

pub reconciled_again :
    (g : Gateway) (seeker intent now : ℕ) (d : Db) (a : PaymentAttempt)
    → HasUniqueIntents d
    → 1 ≤ tally (λ x. is_pending_row x && has_intent intent x) d
    → next_of a (reconcile_online_payment_return g seeker intent now d).1 ≡ again
    → let e = (reconcile_online_payment_return g seeker intent now d).0 in
      ((q : PaymentAttempt → Bool) → IsSticky q → tally q e ≤ tally q d)
      × (tally is_pending_row e < tally is_pending_row d)
unfolding reconcile_online_payment_return
reconciled_again g seeker intent now d a u live h =
    let read = get_payment_attempt_status seeker intent d in
    let fewer = λ (q : PaymentAttempt → Bool) (s : IsSticky q).
      reconcile_attempt-le q s g intent now d read in
    let (e, done) = reconcile_attempt g intent now d read in
    let (c, ran, over) = again_after a _ h in
    let (_, _, h1) = >>=-eq-ok done _ ran in
    let mine = λ (x : PaymentAttempt). x.seeker_id == seeker && has_intent intent x in
    let known = status_found seeker intent e c h1 in
    let unique = fewer (has_intent intent) (intent-IsSticky (λ o. refers o intent)) in
    let ended =
      count-unique_within (has_intent intent) is_pending_row mine e.attempts c
        (omega (arith, unique, u intent)) (λ y k. ground (arith, k)) known over in
    let others =
      fewer (λ y. is_pending_row y && not (has_intent intent y))
        (both-IsSticky is_pending_row (λ y. not (has_intent intent y)) pending-IsSticky
          (intent-IsSticky (λ o. not (refers o intent)))) in
    (
      fewer,
      omega (
        arith,
        live,
        ended,
        others,
        count-split is_pending_row (has_intent intent) e.attempts,
        count-split is_pending_row (has_intent intent) d.attempts,
      ),
    )
