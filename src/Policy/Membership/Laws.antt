-- ===== src/Policy/Membership/Laws.antt =====
-- What a membership gives over time, and what its price is bounded by
-- (services/subscription-policy.ts).
use servicehub_backend.Base.{
  ℕ, ◌+◌, ◌-◌, ◌*◌, ◌≤◌, ◌<◌, ◌≡◌, ◌↔◌, ◌⊎◌, inl, inr, true, false, some, arith, Bool-cases, ok,
}
use servicehub_backend.Schema.{Membership, Plan}
use servicehub_backend.Policy.Membership.{
  Quote, provider_plans, day_ms, round_half_up, is_free, is_basic, is_pro, subscription_benefits,
  provider_membership_where, upgrade_amount, membership_quote, upgrade,
}

-- The filter that lists providers by query selects exactly the memberships to which the policy
-- gives marketplace access, at every time and for every plan and status.
pub provider_membership_where-eq-access :
    (m : Membership) (now : ℕ)
    → provider_membership_where m now ≡ (subscription_benefits m now).marketplace_access
unfolding provider_membership_where subscription_benefits
provider_membership_where-eq-access m now = ground arith

-- A rounded quotient differs from the exact one by at most a half.
pub round_half_up_bounds :
    (n d : ℕ)
    → 0 < d
    → (2 * n < 2 * d * round_half_up n d + d) × (2 * d * round_half_up n d ≤ 2 * n + d)
round_half_up_bounds n d h = (grind arith, grind arith)

-- While a membership gives access, the whole days that it reports are the time left in days,
-- rounded up: they cover the time left, and one day less would not. Without access it reports 0.
pub days_remaining_exact :
    (m : Membership) (now expires : ℕ)
    → (subscription_benefits m now).expires_at ≡ some expires
    → (((subscription_benefits m now).marketplace_access ≡ true)
        × (now < expires)
        × (expires - now ≤ day_ms * (subscription_benefits m now).days_remaining)
        × (day_ms * (subscription_benefits m now).days_remaining < expires - now + day_ms))
      ⊎ (((subscription_benefits m now).marketplace_access ≡ false)
          × ((subscription_benefits m now).days_remaining ≡ 0))
unfolding subscription_benefits
days_remaining_exact m now expires h =
    elim (Bool-cases (subscription_benefits m now).marketplace_access) [
      | inl yes' ↦ inl (yes', ground arith, ground arith, ground arith)
      | inr no' ↦ inr (no', ground arith)
    ]

-- An upgrade that is bought later costs no more.
pub upgrade_amount_antitone :
    (starts expires now later : ℕ)
    → starts < expires
    → now ≤ later
    → upgrade_amount starts expires later ≤ upgrade_amount starts expires now
unfolding upgrade_amount
upgrade_amount_antitone starts expires now later h k = grind arith

-- The upgrade of a running month costs at most the difference of the monthly prices.
upgrade_amount-le :
    (starts expires now : ℕ)
    → starts < expires
    → starts ≤ now
    → upgrade_amount starts expires now ≤ 10000
unfolding upgrade_amount
upgrade_amount-le starts expires now h k = grind arith

-- A quote for Basic or Pro that is given is for the plan asked for, costs at least one peso and
-- at most that plan's monthly price, and is an upgrade exactly when a running Basic month is
-- moved to Pro; an upgrade keeps the end of the month that is already paid.
pub membership_quote_bounds :
    (m : Membership) (target : Plan) (now : ℕ) (q : Quote)
    → is_free target ≡ false
    → membership_quote m target now ≡ ok q
    → (q.plan ≡ target)
      × (100 ≤ q.amount)
      × (q.amount ≤ (provider_plans target).monthly_price * 100)
      × ((q.billing_action ≡ upgrade) ↔ (
          (((subscription_benefits m now).marketplace_access ≡ true) × (is_basic m.plan ≡ true))
          × (is_pro target ≡ true)))
      × (q.billing_action ≡ upgrade → q.quoted_period_expires_at ≡ m.subscription_expires_at)
unfolding membership_quote subscription_benefits
membership_quote_bounds m target now q f h = (
  ground arith,
  ground arith,
  grind (arith, upgrade_amount-le),
  (λ e. ground arith, λ e. ground arith),
  λ e. ground arith,
)
