-- ===== src/Policy/Pricing.antt =====
-- services/bookings/direct-listing-pricing.ts and lib/listing-pricing.ts: the total of a direct
-- booking, in centavos. A quantity is a natural number, so the integer test is in the type.
use servicehub_backend.Base.{
  ℕ, ◌+◌, ◌*◌, ◌≤◌, ◌≡◌, refl, sym, ap, subst, ◌↔◌, ◌⊎◌, inl, inr, Bool, true, false, ◌&&◌, ◌||◌,
  Option, none, some, arith, ltb, leb, if◌then◌else◌, or_else, Code, Result, ok, ◌>>=◌, ◌>>◌, http,
  require, reject, found, require-eq-ok, reject-eq-ok, found-eq-ok,
}
use servicehub_backend.Schema.{PriceType}

-- ["FIXED", "PER_HOUR", "PER_DAY", "PER_PROJECT"]
abbrev pub is_rate_price_type : PriceType → Bool
is_rate_price_type PriceType.fixed = true
is_rate_price_type PriceType.per_hour = true
is_rate_price_type PriceType.per_day = true
is_rate_price_type PriceType.per_project = true
is_rate_price_type _ = false

abbrev pub is_by_agreement : PriceType → Bool
is_by_agreement PriceType.by_agreement = true
is_by_agreement _ = false

abbrev pub max_quantity : PriceType → ℕ
max_quantity PriceType.per_day = 7
max_quantity PriceType.per_hour = 40
max_quantity _ = 1

abbrev pub listing_duration : PriceType → ℕ → ℕ → ℕ
listing_duration PriceType.per_hour quantity listed = 60 * quantity
listing_duration PriceType.per_day quantity listed = 480 * quantity
listing_duration _ quantity listed = listed

pub record DirectTerms : Type 0 where
  pub amount : ℕ
  pub estimated_duration_mins : ℕ

unfoldable pub calculate_direct_listing_terms :
    PriceType → Option ℕ → ℕ → ℕ → Option ℕ → Result DirectTerms
calculate_direct_listing_terms price_type listed_price quantity listed_duration transportation_fee =
    do
      require (is_rate_price_type price_type) (http 400 Code.no_code)
      reject (ltb quantity 1 || ltb (max_quantity price_type) quantity) (http 400 Code.no_code)
      price ← found listed_price (http 409 Code.no_code)
      let travel = or_else transportation_fee 0
      reject (ltb 500000 travel) (http 400 Code.no_code)
      let amount = price * quantity + travel
      reject (ltb amount 5000 || ltb 5000000 amount) (http 400 Code.no_code)
      ok (record {
        amount = amount;
        estimated_duration_mins = listing_duration price_type quantity listed_duration;
      })

unfoldable pub valid_listing_price : PriceType → Option ℕ → Bool
valid_listing_price type_ none = is_by_agreement type_
valid_listing_price type_ (some price) =
    if is_by_agreement type_
    then false
    else is_rate_price_type type_ && leb 5000 price && leb price 5000000

-- What a kind of price allows, and how long it takes: hours up to 40, days of eight hours up to
-- 7, or the listed time once, for a fixed price or a project.
abbrev pub RateTerms : PriceType → ℕ → ℕ → ℕ → Type 0
RateTerms t quantity listed minutes =
    ((t ≡ PriceType.per_hour) × (quantity ≤ 40) × (minutes ≡ 60 * quantity))
    ⊎ ((t ≡ PriceType.per_day) × (quantity ≤ 7) × (minutes ≡ 480 * quantity))
    ⊎ ((t ≡ PriceType.fixed) × (quantity ≤ 1) × (minutes ≡ listed))
    ⊎ ((t ≡ PriceType.per_project) × (quantity ≤ 1) × (minutes ≡ listed))

listing_duration-RateTerms :
    (t : PriceType) (quantity listed : ℕ)
    → is_rate_price_type t ≡ true
    → quantity ≤ max_quantity t
    → RateTerms t quantity listed (listing_duration t quantity listed)
listing_duration-RateTerms PriceType.fixed q d r h = inr (inr (inl (refl, h, refl)))
listing_duration-RateTerms PriceType.starts_at q d r h = absurd (cc r)
listing_duration-RateTerms PriceType.per_hour q d r h = inl (refl, h, refl)
listing_duration-RateTerms PriceType.per_session q d r h = absurd (cc r)
listing_duration-RateTerms PriceType.per_day q d r h = inr (inl (refl, h, refl))
listing_duration-RateTerms PriceType.per_project q d r h = inr (inr (inr (refl, h, refl)))
listing_duration-RateTerms PriceType.custom q d r h = absurd (cc r)
listing_duration-RateTerms PriceType.by_agreement q d r h = absurd (cc r)

RateTerms-listing_duration :
    (t : PriceType) (quantity listed minutes : ℕ)
    → RateTerms t quantity listed minutes
    → (is_rate_price_type t ≡ true)
      × (quantity ≤ max_quantity t)
      × (minutes ≡ listing_duration t quantity listed)
RateTerms-listing_duration t q d m (inl (e, h, k)) = rw e (refl, h, k)
RateTerms-listing_duration t q d m (inr (inl (e, h, k))) = rw e (refl, h, k)
RateTerms-listing_duration t q d m (inr (inr (inl (e, h, k)))) = rw e (refl, h, k)
RateTerms-listing_duration t q d m (inr (inr (inr (e, h, k)))) = rw e (refl, h, k)

ok_same : (x y : DirectTerms) → ◌≡◌ {A = Result DirectTerms} (ok x) (ok y) → x ≡ y
ok_same x y h = cc h

-- The terms of a direct booking are exactly these: the listing has a price, the kind of price
-- allows the quantity, which is not 0, and gives the time it takes; the amount is the price for
-- each unit and the travel fee, which is 5,000 pesos at most, and lies between 50 and 50,000
-- pesos. Whatever has no such terms is refused.
pub calculate_direct_listing_terms_exact :
    (t : PriceType) (price : Option ℕ) (quantity duration : ℕ) (fee : Option ℕ)
    (terms : DirectTerms)
    → (calculate_direct_listing_terms t price quantity duration fee ≡ ok terms) ↔ (
        (unit_price : ℕ) × (price ≡ some unit_price)
        × RateTerms t quantity duration terms.estimated_duration_mins
        × (1 ≤ quantity)
        × (or_else fee 0 ≤ 500000)
        × (terms.amount ≡ unit_price * quantity + or_else fee 0)
        × (5000 ≤ terms.amount)
        × (terms.amount ≤ 5000000))
unfolding calculate_direct_listing_terms
calculate_direct_listing_terms_exact t price quantity duration fee terms = (accepted, granted)
  where
    accepted :
        calculate_direct_listing_terms t price quantity duration fee ≡ ok terms
        → (unit_price : ℕ) × (price ≡ some unit_price)
          × RateTerms t quantity duration terms.estimated_duration_mins
          × (1 ≤ quantity)
          × (or_else fee 0 ≤ 500000)
          × (terms.amount ≡ unit_price * quantity + or_else fee 0)
          × (5000 ≤ terms.amount)
          × (terms.amount ≤ 5000000)
    accepted h =
        let (rate, h1) = require-eq-ok (is_rate_price_type t) _ h in
        let (some_units, h2) =
          reject-eq-ok (ltb quantity 1 || ltb (max_quantity t) quantity) _ h1 in
        let (p, listed, h3) = found-eq-ok price _ _ h2 in
        let travel = or_else fee 0 in
        let (near, h4) = reject-eq-ok (ltb 500000 travel) _ h3 in
        let (within, h5) =
          reject-eq-ok (ltb (p * quantity + travel) 5000 || ltb 5000000 (p * quantity + travel)) _
            h4 in
        let allowed = listing_duration-RateTerms t quantity duration rate (ground arith) in
        let same = ok_same _ terms h5 in
        (
          p,
          listed,
          subst (λ x. RateTerms t quantity duration x.estimated_duration_mins) same allowed,
          ground arith,
          ground arith,
          ap (λ x. x.amount) (sym same),
          subst (λ x. 5000 ≤ x.amount) same (ground arith),
          subst (λ x. x.amount ≤ 5000000) same (ground arith),
        )

    granted :
        (unit_price : ℕ) × (price ≡ some unit_price)
          × RateTerms t quantity duration terms.estimated_duration_mins
          × (1 ≤ quantity)
          × (or_else fee 0 ≤ 500000)
          × (terms.amount ≡ unit_price * quantity + or_else fee 0)
          × (5000 ≤ terms.amount)
          × (terms.amount ≤ 5000000)
        → calculate_direct_listing_terms t price quantity duration fee ≡ ok terms
    granted (p, listed, allowed, units, near, total, low, high) =
        let (rate, most, time) =
          RateTerms-listing_duration t quantity duration terms.estimated_duration_mins allowed in
        ground arith

-- A listing whose price passed the listing check can be booked for one unit with no travel fee,
-- at exactly that price; the only valid listings without terms are those priced by agreement.
pub valid_listing_price_bookable :
    (t : PriceType) (price : Option ℕ) (duration : ℕ)
    → valid_listing_price t price ≡ true
    → (is_by_agreement t ≡ true)
      ⊎ ((terms : DirectTerms) × (calculate_direct_listing_terms t price 1 duration none ≡ ok terms)
          × (price ≡ some terms.amount))
unfolding calculate_direct_listing_terms valid_listing_price
valid_listing_price_bookable t none duration h = inl h
valid_listing_price_bookable t (some p) duration h = inr (
  record { amount = p; estimated_duration_mins = listing_duration t 1 duration },
  ground arith,
  refl,
)
