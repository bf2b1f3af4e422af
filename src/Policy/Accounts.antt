-- ===== src/Policy/Accounts.antt =====
-- utils/permissions.ts, utils/security.ts, services/account-lifecycle.service.ts and
-- services/offer-eligibility.ts: what an account may do.
use servicehub_backend.Base.{
  length-select, ℕ, ◌+◌, ◌≤◌, ◌<◌, ◌≡◌, refl, sym, ◌∙◌, subst, ◌≢◌, ◌↔◌, inl, inr, Bool, true, not,
  ◌&&◌, ◌||◌, Option, none, some, List, [], ◌∷◌, arith, ◌==◌, if◌then◌else◌, refers, is_some,
  Option-cases, ==→eq, &&_parts, Code, Result, ok, err, ◌>>◌, http, require, reject, is_ok, length,
  all, find, select, count, find-none-count,
}
use servicehub_backend.Schema.{
  User, ModerationStatus, is_admin, is_member, is_approved, is_moderation_active,
}

unfoldable pub assert_distinct_accounts : ℕ → ℕ → Result (Unit {0})
assert_distinct_accounts a b = reject (a == b) (http 403 Code.self_transaction_not_allowed)

pub record UserPermissions : Type 0 where
  pub can_browse : Bool
  pub can_transact : Bool
  pub can_create_listings : Bool
  pub can_book_services : Bool
  pub can_accept_bookings : Bool
  pub can_message : Bool
  pub can_review : Bool
  pub can_report : Bool

abbrev pub is_eligible : User → Bool
is_eligible u =
    is_approved u.verification
    && u.is_active
    && is_moderation_active u.moderation
    && u.email_verified

unfoldable pub get_user_permissions : User → UserPermissions
get_user_permissions u =
    let granted = is_admin u.role || is_eligible u in
    record {
      can_browse = true;
      can_transact = granted;
      can_create_listings = granted;
      can_book_services = granted;
      can_accept_bookings = granted;
      can_message = true;
      can_review = granted;
      can_report = true;
    }

-- The check of a provider's account that booking handlers repeat before new work.
abbrev pub can_take_work : User → Bool
can_take_work u =
    u.is_active
    && is_moderation_active u.moderation
    && u.email_verified
    && is_approved u.verification

unfoldable pub assert_active_marketplace_account : Option User → Result (Unit {0})
assert_active_marketplace_account none = err (http 403 Code.no_code)
assert_active_marketplace_account (some u) =
    require
      (is_member u.role
        && u.is_active
        && not (is_some u.deactivated_at)
        && is_moderation_active u.moderation)
      (http 403 Code.no_code)

-- `users.length === 2 && users.every(...)` over the accounts of the two ids.
unfoldable pub marketplace_participants_eligible : ℕ → ℕ → List User → Bool
marketplace_participants_eligible seeker_id provider_id users =
    let pair = select (λ u. u.id == seeker_id || u.id == provider_id) users in
    length pair == 2 && all (λ u. is_member u.role && can_take_work u) pair

pub data Participant : Type 0 where
  provider seeker : Participant

-- Why an account cannot take part in an offer; `none` when it can.
abbrev pub offer_block_checks : User → Option Code
offer_block_checks u =
    if not u.is_active
    then some Code.participant_ineligible
    else (if not u.email_verified
        then some Code.email_not_verified
        else (if is_approved u.verification then none else some Code.verification_required))

abbrev pub offer_block_moderation : ModerationStatus → User → Option Code
offer_block_moderation ModerationStatus.banned u = some Code.account_banned
offer_block_moderation ModerationStatus.suspended u = some Code.account_suspended
offer_block_moderation ModerationStatus.active u = offer_block_checks u

abbrev pub offer_block : Option User → Option Code
offer_block none = some Code.participant_ineligible
offer_block (some u) =
    if is_some u.deactivated_at
    then some Code.participant_ineligible
    else (if not (is_member u.role)
        then some Code.participant_ineligible
        else offer_block_moderation u.moderation u)

abbrev pub block_code : Participant → Code → Code
block_code Participant.provider c = c
block_code Participant.seeker c = Code.seeker_unavailable

unfoldable pub assert_offer_participant : Option User → Participant → Result (Unit {0})
assert_offer_participant u participant = elim (offer_block u) [
  | none ↦ ok tt
  | some c ↦ err (http 403 (block_code participant c))
]

-- A public post has no selected listing; an inquiry is reserved for its provider and listing.
unfoldable pub assert_offer_target : Option ℕ → Option ℕ → ℕ → Option ℕ → Result (Unit {0})
assert_offer_target target_provider none provider_id service = ok tt
assert_offer_target target_provider (some target_service) provider_id service = do
  require (refers target_provider provider_id) (http 403 Code.request_reserved)
  require (refers service target_service) (http 403 Code.request_listing_required)

-- A member passes the offer check exactly when the account is not deactivated and the
-- permissions let it transact; an administrator, who may do everything else, never passes.
pub assert_offer_participant-permissions :
    (u : User) (p : Participant)
    → (is_ok (assert_offer_participant (some u) p) ≡ true) ↔ (
        (u.deactivated_at ≡ none)
        × (is_member u.role ≡ true)
        × ((get_user_permissions u).can_transact ≡ true))
unfolding assert_offer_participant get_user_permissions
assert_offer_participant-permissions u p =
    (λ h. (ground arith, ground arith, ground arith), λ h. ground arith)

count-or-le {ℓ} :
    {A : Type ℓ} (p q : A → Bool) (xs : List A)
    → count (λ x. p x || q x) xs ≤ count p xs + count q xs
count-or-le p q [] = omega arith
count-or-le p q (x ∷ xs) = ground (arith, count-or-le p q xs)

count-or_self {ℓ} :
    {A : Type ℓ} (p : A → Bool) (xs : List A) → count (λ x. p x || p x) xs ≡ count p xs
count-or_self p [] = refl
count-or_self p (x ∷ xs) = ground (arith, count-or_self p xs)

find-all-select {ℓ} :
    {A : Type ℓ} (ok' p q : A → Bool) (xs : List A) (a : A)
    → ((x : A) → p x ≡ true → q x ≡ true)
    → all ok' (select q xs) ≡ true
    → find p xs ≡ some a
    → ok' a ≡ true
find-all-select ok' p q [] a sub h e = cc
find-all-select ok' p q (x ∷ xs) a sub h e = ground (arith, sub x, find-all-select ok' p q xs a sub)

count-pos-find {ℓ} :
    {A : Type ℓ} (p : A → Bool) (xs : List A) → 0 < count p xs → (a : A) × (find p xs ≡ some a)
count-pos-find p xs h = elim (Option-cases (find p xs)) [
  | inl e ↦ absurd (omega (arith, find-none-count p xs e))
  | inr found' ↦ found'
]

-- With ids that are unique in the table, two eligible participants are two different accounts,
-- and each is a member that may take new work.
pub participants_eligible_accounts :
    (s p : ℕ) (users : List User)
    → count (λ u. u.id == s) users ≤ 1
    → count (λ u. u.id == p) users ≤ 1
    → marketplace_participants_eligible s p users ≡ true
    → (s ≢ p)
      × ((a : User) × (find (λ u. u.id == s) users ≡ some a)
          × ((is_member a.role && can_take_work a) ≡ true))
      × ((b : User) × (find (λ u. u.id == p) users ≡ some b)
          × ((is_member b.role && can_take_work b) ≡ true))
unfolding marketplace_participants_eligible
participants_eligible_accounts s p users us up h =
    let parts = &&_parts _ _ h in
    let q : User → Bool = λ u. u.id == s || u.id == p in
    let two : count q users ≡ 2 = sym (length-select q users) ∙ ==→eq _ _ parts.0 in
    let le = count-or-le (λ (u : User). u.id == s) (λ (u : User). u.id == p) users in
    let a = count-pos-find (λ (u : User). u.id == s) users (omega arith) in
    let b = count-pos-find (λ (u : User). u.id == p) users (omega arith) in
    (
      λ e. absurd (
          omega (
            arith,
            count-or_self (λ (u : User). u.id == s) users,
            subst (λ t. count (λ (u : User). u.id == s || u.id == t) users ≡ 2) (sym e) two,
          )),
      (a.0, a.1, find-all-select _ _ q users a.0 (λ x k. ground arith) parts.1 a.1),
      (b.0, b.1, find-all-select _ _ q users b.0 (λ x k. ground arith) parts.1 b.1),
    )
