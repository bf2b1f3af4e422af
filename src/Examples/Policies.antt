-- ===== src/Examples/Policies.antt =====
-- The policies of prices, commissions and cases at concrete values.
use servicehub_backend.Base.{
  ℕ, ◌+◌, ◌*◌, ◌≤◌, ◌<◌, ◌≡◌, refl, ◌↔◌, true, Option, some, ok, is_ok, value_of,
}
use servicehub_backend.Schema.{PriceType, BookingStatus, CaseStatus, ReportType}
use servicehub_backend.Policy.Commission.{
  CommissionTerms, payment_commission, payment_commission_conserves,
}
use servicehub_backend.Policy.Pricing.{
  DirectTerms, RateTerms, calculate_direct_listing_terms, calculate_direct_listing_terms_exact,
}
use servicehub_backend.Policy.Cases.{
  ReportCase, Outcome, Penalty, Decidable, assert_report_decision, assert_report_decision_exact,
}

abbrev no_terms : CommissionTerms
no_terms = record { commission_rate_bps = 0; platform_fee_amount = 0; provider_net_amount = 0 }

abbrev terms_at : ℕ → CommissionTerms
terms_at rate = value_of no_terms (payment_commission 10050 rate)

terms_ok :
    (payment_commission 10050 500 ≡ ok (terms_at 500))
    × (payment_commission 10050 800 ≡ ok (terms_at 800))
unfolding payment_commission
terms_ok = (refl, refl)

payment_commission_conserves_example :
    ((terms_at 800).platform_fee_amount + (terms_at 800).provider_net_amount ≡ 10050)
    × ((terms_at 800).commission_rate_bps ≡ 800)
    × (2 * (10050 * 800) < 20000 * (terms_at 800).platform_fee_amount + 10000)
    × (20000 * (terms_at 800).platform_fee_amount ≤ 2 * (10050 * 800) + 10000)
payment_commission_conserves_example =
    payment_commission_conserves 10050 800 (terms_at 800) terms_ok.1

abbrev three_hours : DirectTerms
three_hours = record { amount = 65000; estimated_duration_mins = 180 }

calculate_direct_listing_terms_exact_example :
    (calculate_direct_listing_terms PriceType.per_hour (some 20000) 3 120 (some 5000)
      ≡ ok three_hours)
    ↔ ((unit_price : ℕ) × (◌≡◌ {A = Option ℕ} (some 20000) (some unit_price))
        × RateTerms PriceType.per_hour 3 120 180
        × (1 ≤ 3)
        × (5000 ≤ 500000)
        × (65000 ≡ unit_price * 3 + 5000)
        × (5000 ≤ 65000)
        × (65000 ≤ 5000000))
calculate_direct_listing_terms_exact_example =
    calculate_direct_listing_terms_exact PriceType.per_hour (some 20000) 3 120 (some 5000)
      three_hours

abbrev completion_dispute : ReportCase
completion_dispute = record {
  report_type = ReportType.completion_dispute;
  status = CaseStatus.pending;
  booking_status = BookingStatus.disputed;
  status_before_dispute = some BookingStatus.awaiting_confirmation;
}

assert_report_decision_exact_example :
    (is_ok (
        assert_report_decision completion_dispute Outcome.release_provider_and_complete
          Penalty.no_penalty)
      ≡ true)
    ↔ Decidable completion_dispute Outcome.release_provider_and_complete Penalty.no_penalty
assert_report_decision_exact_example =
    assert_report_decision_exact completion_dispute Outcome.release_provider_and_complete
      Penalty.no_penalty
