-- ===== src/Policy/Commission.antt =====
-- services/payment-commission.ts: the platform's fee on a GCash payment. Amounts are centavos,
-- so the check that the amount has two decimals is in the type.
use servicehub_backend.Base.{
  ℕ, ◌+◌, ◌-◌, ◌*◌, ◌/◌, ◌≤◌, ◌<◌, ◌≡◌, ◌||◌, arith, ltb, ◌==◌, Code, Result, ok, ◌>>◌, http,
  reject,
}

abbrev pub gcash_commission_bps : ℕ
gcash_commission_bps = 1000

pub record CommissionTerms : Type 0 where
  pub commission_rate_bps : ℕ
  pub platform_fee_amount : ℕ
  pub provider_net_amount : ℕ

-- `gross * rate / 10_000`, rounded half up to centavos.
unfoldable pub platform_fee : ℕ → ℕ → ℕ
platform_fee gross rate = (2 * (gross * rate) + 10000) / 20000

unfoldable pub payment_commission : ℕ → ℕ → Result CommissionTerms
payment_commission gross rate = do
  reject (gross == 0 || ltb 10000 rate) (http 500 Code.no_code)
  ok (record {
    commission_rate_bps = rate;
    platform_fee_amount = platform_fee gross rate;
    provider_net_amount = gross - platform_fee gross rate;
  })

platform_fee-le : (gross rate : ℕ) → rate ≤ 10000 → platform_fee gross rate ≤ gross
unfolding platform_fee
platform_fee-le gross rate h = grind arith

-- The fee and the provider's share of accepted terms add up to the amount paid, no centavo is
-- lost, and the fee is within half a centavo of the exact share of the rate.
pub payment_commission_conserves :
    (gross rate : ℕ) (terms : CommissionTerms)
    → payment_commission gross rate ≡ ok terms
    → (terms.platform_fee_amount + terms.provider_net_amount ≡ gross)
      × (terms.commission_rate_bps ≡ rate)
      × (2 * (gross * rate) < 20000 * terms.platform_fee_amount + 10000)
      × (20000 * terms.platform_fee_amount ≤ 2 * (gross * rate) + 10000)
unfolding payment_commission
payment_commission_conserves gross rate terms h = (
  ground (arith, platform_fee-le gross rate),
  ground arith,
  unfold platform_fee in ground arith,
  unfold platform_fee in ground arith,
)

platform_fee_mono :
    (gross low high : ℕ) → low ≤ high → platform_fee gross low ≤ platform_fee gross high
unfolding platform_fee
platform_fee_mono gross low high h = grind arith

-- A higher rate, as on a lower plan, never leaves the provider more of the same payment.
pub provider_net_antitone :
    (gross low high : ℕ) (a b : CommissionTerms)
    → low ≤ high
    → payment_commission gross low ≡ ok a
    → payment_commission gross high ≡ ok b
    → b.provider_net_amount ≤ a.provider_net_amount
unfolding payment_commission
provider_net_antitone gross low high a b h p q = ground (arith, platform_fee_mono gross low high h)
