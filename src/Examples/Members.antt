-- ===== src/Examples/Members.antt =====
-- Memberships, accounts, trials and trust at concrete values.
use servicehub_backend.Base.{
  ◌+◌, ◌≤◌, ◌≡◌, refl, ◌≢◌, ◌↔◌, ◌⊎◌, inr, true, false, none, some, [], ◌∷◌, arith, is_some, ok,
  is_ok, value_of, OnOk, length, All,
}
use servicehub_backend.Base.Int.{negsuc}
use servicehub_backend.Schema.{
  is_open_case, is_undecided_cancellation, Db, User, BookingStatus, PaymentStatus, QueueStatus,
  EventKey, TrustCategory, is_member, is_settled, find_booking, Booking, empty_db, find_user,
  VerificationStatus, completed_of,
}
use servicehub_backend.Policy.Membership.{provider_membership_where, subscription_benefits}
use servicehub_backend.Policy.Membership.Laws.{provider_membership_where-eq-access}
use servicehub_backend.Policy.Accounts.{
  Participant, assert_offer_participant, assert_offer_participant-permissions, get_user_permissions,
  assert_active_marketplace_account,
}
use servicehub_backend.Providers.{ensure_provider_trial, ensure_provider_trial_once}
use servicehub_backend.Trust.{
  TrustInput, Applied, apply_trust_event, write_trust_event, was_applied,
}
use servicehub_backend.Trust.Score.{IsBounded, apply_trust_event-IsBounded, apply_trust_event_retry}
use servicehub_backend.Trust.History.{IsBalanced, apply_trust_event-IsBalanced}
use servicehub_backend.Trust.Bookings.{
  Fault, apply_booking_trust_penalty, award_pair, award_one, award_booking_completion_trust,
}
use servicehub_backend.Trust.Points.{
  NotRecent, apply_booking_trust_penalty_once, award_booking_completion_trust_earned,
}
use servicehub_backend.Examples.Data.{
  basic_membership, the_provider, the_seeker, members, booked, awaiting,
}

provider_membership_where-eq-access_example :
    provider_membership_where basic_membership 5000
    ≡ (subscription_benefits basic_membership 5000).marketplace_access
provider_membership_where-eq-access_example =
    provider_membership_where-eq-access basic_membership 5000

assert_offer_participant-permissions_example :
    (is_ok (assert_offer_participant (some the_provider) Participant.provider) ≡ true) ↔ (
      (the_provider.deactivated_at ≡ none)
      × (is_member the_provider.role ≡ true)
      × ((get_user_permissions the_provider).can_transact ≡ true))
assert_offer_participant-permissions_example =
    assert_offer_participant-permissions the_provider Participant.provider

abbrev trial : User × Db
trial = value_of (the_seeker, empty_db) (ensure_provider_trial 3 100 members)

trial_ok : ensure_provider_trial 3 100 members ≡ ok (trial.0, trial.1)
unfolding ensure_provider_trial assert_active_marketplace_account
trial_ok = refl

ensure_provider_trial_once_example :
    (is_some trial.0.membership.free_plan_started_at ≡ true)
    × (ensure_provider_trial 3 900 trial.1 ≡ ok (trial.0, trial.1))
ensure_provider_trial_once_example =
    ensure_provider_trial_once 3 100 900 members trial.1 trial.0 trial_ok

abbrev deduction : TrustInput
deduction = record {
  user_id = 3;
  delta = negsuc 69;
  reason = 1;
  event_key = EventKey.manual_trust 9 1;
  actor_admin_id = some 9;
  requested_delta = some (negsuc 69);
  booking_id = none;
  category = TrustCategory.correction;
  penalty_key = none;
  reverses_event_id = none;
}

abbrev deducted : Applied × Db
deducted = value_of (Applied.not_applied, empty_db) (apply_trust_event deduction 100 members)

deducted_ok : apply_trust_event deduction 100 members ≡ ok (deducted.0, deducted.1)
unfolding apply_trust_event
deducted_ok = refl

apply_trust_event-IsBounded_example :
    OnOk (λ r. IsBounded r.1) (apply_trust_event deduction 100 members)
apply_trust_event-IsBounded_example =
    apply_trust_event-IsBounded deduction 100 members
      (omega arith, (omega arith, (omega arith, tt)))

-- Accounts without history balance at the score 0.
abbrev newcomers : Db
newcomers = record members { users = record the_seeker { trust_score = 0 } ∷ [] }

apply_trust_event-IsBalanced_example :
    OnOk (λ r. IsBalanced r.1) (apply_trust_event deduction 100 newcomers)
apply_trust_event-IsBalanced_example =
    apply_trust_event-IsBalanced deduction 100 newcomers (omega arith) (refl, tt)

apply_trust_event_retry_example :
    apply_trust_event deduction 900 deducted.1 ≡ ok (Applied.not_applied, deducted.1)
apply_trust_event_retry_example =
    apply_trust_event_retry deduction 100 900 members deducted.1 deducted.0 (inr refl) deducted_ok

abbrev penalised : Applied × Db
penalised =
    value_of (Applied.not_applied, empty_db)
      (apply_booking_trust_penalty 1 2 9 (EventKey.report_fault 1 2) Fault.report_fault 5 30 100
        awaiting)

abbrev penalised_again : Applied × Db
penalised_again =
    value_of (Applied.not_applied, empty_db)
      (apply_booking_trust_penalty 1 2 9 (EventKey.cancellation_fault 1 2) Fault.cancellation_fault
        6 40 200 penalised.1)

penalised_ok :
    (apply_booking_trust_penalty 1 2 9
        (EventKey.report_fault 1 2)
        Fault.report_fault
        5
        30
        100
        awaiting
      ≡ ok (penalised.0, penalised.1))
    × (was_applied penalised.0 ≡ true)
    × (apply_booking_trust_penalty 1 2 9
          (EventKey.cancellation_fault 1 2)
          Fault.cancellation_fault
          6
          40
          200
          penalised.1
        ≡ ok (penalised_again.0, penalised_again.1))
unfolding apply_booking_trust_penalty apply_trust_event write_trust_event
penalised_ok = (refl, refl, refl)

apply_booking_trust_penalty_once_example :
    (penalised_again.0 ≡ Applied.not_applied) × (penalised_again.1 ≡ penalised.1)
apply_booking_trust_penalty_once_example =
    apply_booking_trust_penalty_once 1 2 9 9 (EventKey.report_fault 1 2)
      (EventKey.cancellation_fault 1 2) Fault.report_fault Fault.cancellation_fault 5 6 30 40 100
      200 awaiting penalised.1 penalised_again.1 penalised.0 penalised_again.0 penalised_ok.0
      penalised_ok.1 penalised_ok.2

abbrev completed_job : Db
completed_job =
    record (booked BookingStatus.completed PaymentStatus.released true QueueStatus.done) {
      completed =
          record {
            id = 15;
            booking_id = some 1;
            queue_id = some 7;
            direct_request_id = none;
            offer_id = none;
            seeker_id = 3;
            provider_id = 2;
            final_price = 10000;
            commission_rate_bps = 800;
            platform_fee_amount = 800;
            provider_net_amount = some 9200;
            payment_status = PaymentStatus.released;
          }
          ∷ [];
    }

abbrev awarded : Db
awarded = value_of empty_db (award_booking_completion_trust 1 100 completed_job)

awarded_ok :
    (award_booking_completion_trust 1 100 completed_job ≡ ok awarded)
    × (length awarded.trust_events ≡ 2)
unfolding award_booking_completion_trust award_pair award_one apply_trust_event write_trust_event
awarded_ok = (refl, refl)

award_booking_completion_trust_earned_example :
    (awarded ≡ completed_job)
    ⊎ ((b : Booking) × (p : User) × (s : User) × (find_booking 1 completed_job ≡ some b)
        × (find_user b.provider_id completed_job ≡ some p)
        × (find_user b.seeker_id completed_job ≡ some s)
        × (p.verification ≡ VerificationStatus.approved)
        × (s.verification ≡ VerificationStatus.approved)
        × (is_some (completed_of b.id completed_job) ≡ true)
        × (b.status ≡ BookingStatus.completed)
        × (is_settled b.payment_status ≡ true)
        × (b.provider_id ≢ b.seeker_id)
        × All (λ r. r.booking_id ≡ 1 → is_open_case r.status ≡ false) completed_job.reports
        × All
            (λ c. c.booking_id ≡ 1 → is_undecided_cancellation c.status ≡ false)
            completed_job.cancellations
        × All (λ c. c.booking_id ≡ 1 → is_open_case c.status ≡ false) completed_job.escalations
        × All (NotRecent b 100 completed_job) completed_job.trust_events
        × (length awarded.trust_events ≤ 0 + 2))
award_booking_completion_trust_earned_example =
    award_booking_completion_trust_earned 1 100 completed_job awarded awarded_ok.0
