-- ===== src/Providers.antt =====
-- services/provider-membership.service.ts: the first free period of a provider, and the check that
-- every new commitment to a provider makes.
use servicehub_backend.Base.{
  OnOk, OnOk-of, ℕ, ◌+◌, ◌≡◌, refl, inl, inr, true, none, some, arith, ◌==◌, if◌then◌else◌, is_some,
  Option-cases, Code, Result, ok, ◌>>=◌, ◌>>◌, http, found, find, update, find-holds,
  find-update_hit,
}
use servicehub_backend.Schema.{Db, User, find_user}
use servicehub_backend.Policy.Accounts.{assert_active_marketplace_account}
use servicehub_backend.Policy.Membership.{assert_membership_access, free_period_ms}

abbrev pub start_trial : ℕ → User → User
start_trial now u = record u {
  membership = record u.membership {
    free_plan_started_at = some now;
    free_plan_expires_at = some (now + free_period_ms);
  };
}

unfoldable pub ensure_provider_trial : ℕ → ℕ → Db → Result (User × Db)
ensure_provider_trial provider now db = do
  assert_active_marketplace_account (find_user provider db)
  user ← found (find_user provider db) (http 404 Code.no_code)
  if is_some user.membership.free_plan_started_at
      then ok (user, db)
      else ok (
        start_trial now user,
        record db { users = update (λ u. u.id == provider) (start_trial now) db.users },
      )

unfoldable pub assert_new_provider_business : ℕ → ℕ → Db → Result Db
assert_new_provider_business provider now db = do
  (user, trial) ← ensure_provider_trial provider now db
  assert_membership_access user.membership now
  ok trial

find-trial :
    (provider now : ℕ) (db : Db) (u : User)
    → find_user provider db ≡ some u
    → find (λ x. x.id == provider) (update (λ x. x.id == provider) (start_trial now) db.users)
      ≡ some (start_trial now u)
find-trial provider now db u h =
    find-update_hit (λ (x : User). x.id == provider) (λ x. x.id == provider) (start_trial now)
      db.users u (λ a. refl) h (find-holds (λ x. x.id == provider) db.users u h)

-- The trial starts once. After it was ensured the provider's account is the one returned, with a
-- start on record, and ensuring it again at any later time returns the same account and leaves
-- the database unchanged: a second call never extends the free period.
pub ensure_provider_trial_once :
    (provider now later : ℕ) (db db' : Db) (u : User)
    → ensure_provider_trial provider now db ≡ ok (u, db')
    → (is_some u.membership.free_plan_started_at ≡ true)
      × (ensure_provider_trial provider later db' ≡ ok (u, db'))
unfolding ensure_provider_trial assert_active_marketplace_account
ensure_provider_trial_once provider now later db db' u h =
    elim (Option-cases (find_user provider db)) [
      | inl e ↦ absurd (impossible e)
      | inr (v, e) ↦ (ground arith, ground (arith, find-trial provider now db v e))
    ]
  where
    impossible : find_user provider db ≡ none → ⊥
    impossible e = ground arith

new_business_db :
    (provider now : ℕ) (db d : Db)
    → assert_new_provider_business provider now db ≡ ok d
    → d ≡ record db { users = d.users }
unfolding assert_new_provider_business ensure_provider_trial
new_business_db provider now db d h = ground arith

-- The check of a new commitment writes no table but the accounts.
pub new_business_tables :
    (provider now : ℕ) (db : Db)
    → OnOk (λ d. d ≡ record db { users = d.users }) (assert_new_provider_business provider now db)
new_business_tables provider now db = OnOk-of _ _ (new_business_db provider now db)
