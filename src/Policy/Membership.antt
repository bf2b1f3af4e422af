-- ===== src/Policy/Membership.antt =====
-- services/subscription-policy.ts: provider plans, the access that they give at a time, and the
-- price of a plan. Times are milliseconds and amounts centavos; `now` is an argument.
pub mod Laws
use servicehub_backend.Base.{
  ℕ, ◌+◌, ◌-◌, ◌*◌, ◌/◌, Bool, true, false, not, ◌&&◌, ◌||◌, Option, none, some, ltb, leb,
  if◌then◌else◌, is_some, Code, Result, ok, ◌>>=◌, ◌>>◌, http, require, reject, found,
}
use servicehub_backend.Schema.{Membership, Plan, SubscriptionStatus}

pub record PlanTerms : Type 0 where
  pub monthly_price : ℕ
  pub active_listing_limit : Option ℕ
  pub commission_rate_bps : ℕ

-- Prices in pesos.
abbrev pub provider_plans : Plan → PlanTerms
provider_plans Plan.free = record {
  monthly_price = 0;
  active_listing_limit = some 1;
  commission_rate_bps = 1000;
}
provider_plans Plan.basic = record {
  monthly_price = 99;
  active_listing_limit = some 3;
  commission_rate_bps = 800;
}
provider_plans Plan.pro = record {
  monthly_price = 199;
  active_listing_limit = none;
  commission_rate_bps = 500;
}

abbrev pub day_ms : ℕ
day_ms = 86400000

abbrev pub free_period_ms : ℕ
free_period_ms = 30 * 24 * 60 * 60 * 1000

pub record Benefits : Type 0 where
  pub plan : Plan
  pub terms : PlanTerms
  pub marketplace_access : Bool
  pub status : SubscriptionStatus
  pub starts_at : Option ℕ
  pub expires_at : Option ℕ
  pub trial_started : Bool
  pub days_remaining : ℕ
  pub full_analytics : Bool
  pub featured_priority : Bool

abbrev pub is_free : Plan → Bool
is_free Plan.free = true
is_free _ = false

abbrev pub is_pro : Plan → Bool
is_pro Plan.pro = true
is_pro _ = false

abbrev pub is_basic : Plan → Bool
is_basic Plan.basic = true
is_basic _ = false

abbrev pub same_plan : Plan → Plan → Bool
same_plan Plan.free Plan.free = true
same_plan Plan.basic Plan.basic = true
same_plan Plan.pro Plan.pro = true
same_plan _ _ = false

-- ['ACTIVE', 'CANCELLED']
abbrev pub is_paid_status : SubscriptionStatus → Bool
is_paid_status SubscriptionStatus.expired = false
is_paid_status _ = true

abbrev pub is_cancelled_subscription : SubscriptionStatus → Bool
is_cancelled_subscription SubscriptionStatus.cancelled = true
is_cancelled_subscription _ = false

-- `!!date && date <= now`, and `!!date && date > now`
abbrev pub at_or_before : Option ℕ → ℕ → Bool
at_or_before none now = false
at_or_before (some t) now = leb t now

abbrev pub after : Option ℕ → ℕ → Bool
after none now = false
after (some t) now = ltb now t

-- `Math.ceil((expiresAt - now) / 86_400_000)`, for an end that is later than `now`.
abbrev pub days_until : Option ℕ → ℕ → ℕ
days_until none now = 0
days_until (some t) now = (t - now + (day_ms - 1)) / day_ms

unfoldable pub subscription_benefits : Membership → ℕ → Benefits
subscription_benefits m now =
    let free = is_free m.plan in
    let starts = if free then m.free_plan_started_at else m.subscription_started_at in
    let expires = if free then m.free_plan_expires_at else m.subscription_expires_at in
    let access =
      (free || is_paid_status m.subscription_status)
      && at_or_before starts now
      && after expires now in
    record {
      plan = m.plan;
      terms = provider_plans m.plan;
      marketplace_access = access;
      status =
          if access
          then if is_cancelled_subscription m.subscription_status && not free
            then SubscriptionStatus.cancelled
            else SubscriptionStatus.active
          else SubscriptionStatus.expired;
      starts_at = starts;
      expires_at = expires;
      trial_started = is_some m.free_plan_started_at;
      days_remaining = if access then days_until expires now else 0;
      full_analytics = access && not free;
      featured_priority = access && is_pro m.plan;
    }

-- The query filter that lists the providers with access.
unfoldable pub provider_membership_where : Membership → ℕ → Bool
provider_membership_where m now =
    (is_free m.plan && at_or_before m.free_plan_started_at now && after m.free_plan_expires_at now)
    || ((is_basic m.plan || is_pro m.plan)
        && is_paid_status m.subscription_status
        && at_or_before m.subscription_started_at now
        && after m.subscription_expires_at now)

unfoldable pub assert_membership_access : Membership → ℕ → Result (Unit {0})
assert_membership_access m now =
    require (subscription_benefits m now).marketplace_access
      (http 403 Code.provider_membership_expired)

-- `limit !== null && count >= limit`
abbrev pub at_limit : Option ℕ → ℕ → Bool
at_limit none n = false
at_limit (some limit) n = leb limit n

unfoldable pub assert_listing_capacity : Membership → ℕ → ℕ → Result (Unit {0})
unfolding assert_membership_access
assert_listing_capacity m active_count now = do
  assert_membership_access m now
  reject (at_limit (subscription_benefits m now).terms.active_listing_limit active_count)
      (http 422 Code.provider_listing_limit)

pub data BillingAction : Type 0 where
  upgrade renewal downgrade new : BillingAction

pub record Quote : Type 0 where
  pub plan : Plan
  pub amount : ℕ
  pub billing_action : BillingAction
  pub quoted_period_expires_at : Option ℕ

-- A quotient rounded half up.
abbrev pub round_half_up : ℕ → ℕ → ℕ
round_half_up n d = (2 * n + d) / (2 * d)

-- The centavos of an upgrade from Basic to Pro: the difference of the monthly prices for the
-- part of the paid month that is left.
unfoldable pub upgrade_amount : ℕ → ℕ → ℕ → ℕ
upgrade_amount starts expires now =
    round_half_up
      (((provider_plans Plan.pro).monthly_price - (provider_plans Plan.basic).monthly_price)
        * 100
        * (expires - now))
      (expires - starts)

-- `state.subscriptionStartedAt!` and `subscriptionExpiresAt!`: null is a type error.
unfoldable pub upgrade_quote : Membership → Plan → ℕ → Result Quote
upgrade_quote m target now = do
  starts ← found m.subscription_started_at (http 500 Code.no_code)
  expires ← found m.subscription_expires_at (http 500 Code.no_code)
  let amount = upgrade_amount starts expires now
  reject (ltb amount 100) (http 409 Code.no_code)
  ok (record {
    plan = target;
    amount = amount;
    billing_action = upgrade;
    quoted_period_expires_at = some expires;
  })

abbrev pub full_quote : Membership → Plan → Quote
full_quote m target = record {
  plan = target;
  amount = (provider_plans target).monthly_price * 100;
  billing_action =
      if same_plan m.plan target
      then renewal
      else (if is_pro m.plan && is_basic target then downgrade else new);
  quoted_period_expires_at = none;
}

-- `target` is BASIC or PRO.
unfoldable pub membership_quote : Membership → Plan → ℕ → Result Quote
unfolding upgrade_quote
membership_quote m target now = do
  let access = (subscription_benefits m now).marketplace_access
  reject (access && same_plan m.plan target) (http 409 Code.no_code)
  reject (access && is_pro m.plan && is_basic target) (http 409 Code.no_code)
  if access && is_basic m.plan && is_pro target
      then upgrade_quote m target now
      else ok (full_quote m target)
