-- ===== src/Policy/Cases.antt =====
-- services/report-penalty-policy.ts (the list of penalties) and
-- services/report-decision-policy.ts: what an administrator may decide on a report.
use servicehub_backend.Base.{
  ℕ, ◌≡◌, refl, ◌≢◌, ◌↔◌, ◌⊎◌, inl, inr, Bool, true, false, not, ◌&&◌, ◌||◌, Option, none, some,
  List, [], ◌∷◌, ◌++◌, arith, if◌then◌else◌, refers, is_some, Code, Result, ◌>>◌, http, require,
  reject, is_ok, any,
}
use servicehub_backend.Schema.{
  User, ModerationStatus, ReportType, CaseStatus, BookingStatus, is_member, is_open_case,
  is_awaiting,
}

pub data Penalty : Type 0 where
  no_penalty warn trust_deduct suspend ban : Penalty

abbrev pub same_penalty : Penalty → Penalty → Bool
same_penalty Penalty.no_penalty Penalty.no_penalty = true
same_penalty Penalty.warn Penalty.warn = true
same_penalty Penalty.trust_deduct Penalty.trust_deduct = true
same_penalty Penalty.suspend Penalty.suspend = true
same_penalty Penalty.ban Penalty.ban = true
same_penalty _ _ = false

abbrev pub is_banned : ModerationStatus → Bool
is_banned ModerationStatus.banned = true
is_banned _ = false

abbrev is_unrestricted : ModerationStatus → Bool
is_unrestricted ModerationStatus.active = true
is_unrestricted _ = false

unfoldable pub allowed_report_penalties : Option User → Option ℕ → List Penalty
allowed_report_penalties none admin_id = no_penalty ∷ []
allowed_report_penalties (some account) admin_id =
    if refers admin_id account.id
      || not (is_member account.role)
      || not account.is_active
      || is_some account.deactivated_at
    then no_penalty ∷ []
    else no_penalty
      ∷ warn
      ∷ trust_deduct
      ∷ ((if is_unrestricted account.moderation then suspend ∷ [] else [])
          ++ (if is_banned account.moderation then [] else ban ∷ []))

pub data Outcome : Type 0 where
  dismiss resolve_safety cancel_booking release_provider_and_complete : Outcome

abbrev pub same_outcome : Outcome → Outcome → Bool
same_outcome Outcome.dismiss Outcome.dismiss = true
same_outcome Outcome.resolve_safety Outcome.resolve_safety = true
same_outcome Outcome.cancel_booking Outcome.cancel_booking = true
same_outcome Outcome.release_provider_and_complete Outcome.release_provider_and_complete = true
same_outcome _ _ = false

-- The fields of a report and its booking that the decision depends on.
pub record ReportCase : Type 0 where
  pub report_type : ReportType
  pub status : CaseStatus
  pub booking_status : BookingStatus
  pub status_before_dispute : Option BookingStatus

abbrev is_escalation : ReportType → Bool
is_escalation ReportType.cancellation_escalation = true
is_escalation _ = false

abbrev is_safety : ReportType → Bool
is_safety ReportType.safety = true
is_safety _ = false

abbrev is_dispute_type : ReportType → Bool
is_dispute_type ReportType.completion_dispute = true
is_dispute_type _ = false

-- ["COMPLETED", "CANCELED"]
abbrev pub is_finished : BookingStatus → Bool
is_finished BookingStatus.completed = true
is_finished BookingStatus.canceled = true
is_finished _ = false

abbrev pub was_awaiting : Option BookingStatus → Bool
was_awaiting none = false
was_awaiting (some s) = is_awaiting s

unfoldable pub allowed_report_outcomes : ReportCase → List Outcome
allowed_report_outcomes r =
    if not (is_open_case r.status) || is_escalation r.report_type
    then []
    else dismiss
      ∷ ((if is_safety r.report_type then resolve_safety ∷ [] else [])
          ++ ((if is_finished r.booking_status then [] else cancel_booking ∷ [])
              ++ (if is_dispute_type r.report_type && was_awaiting r.status_before_dispute
                  then release_provider_and_complete ∷ []
                  else [])))

unfoldable pub assert_report_decision : ReportCase → Outcome → Penalty → Result (Unit {0})
unfolding allowed_report_outcomes
assert_report_decision r outcome chosen = do
  reject (same_outcome outcome dismiss && not (same_penalty chosen no_penalty))
      (http 422 Code.dismissed_report_penalty)
  require (any (λ o. same_outcome o outcome) (allowed_report_outcomes r))
      (http 422 Code.invalid_report_outcome)

abbrev pub Decidable : ReportCase → Outcome → Penalty → Type 0
Decidable r outcome chosen =
    (is_open_case r.status ≡ true)
    × (r.report_type ≢ ReportType.cancellation_escalation)
    × (outcome ≡ dismiss → chosen ≡ no_penalty)
    × (outcome ≡ resolve_safety → r.report_type ≡ ReportType.safety)
    × (outcome ≡ cancel_booking → is_finished r.booking_status ≡ false)
    × (outcome ≡ release_provider_and_complete
        → (r.report_type ≡ ReportType.completion_dispute)
          × (r.status_before_dispute ≡ some BookingStatus.awaiting_confirmation))

decision_sound :
    (r : ReportCase) (outcome : Outcome) (chosen : Penalty)
    → is_ok (assert_report_decision r outcome chosen) ≡ true
    → Decidable r outcome chosen
unfolding assert_report_decision
decision_sound r outcome chosen h = (
  ground arith,
  λ e. ground arith,
  λ e. ground arith,
  λ e. ground arith,
  λ e. ground arith,
  λ e. (ground arith, ground arith),
)

decision_complete :
    (r : ReportCase) (outcome : Outcome) (chosen : Penalty)
    → Decidable r outcome chosen
    → is_ok (assert_report_decision r outcome chosen) ≡ true
unfolding assert_report_decision
decision_complete r dismiss chosen d = ground (arith, d.2 refl)
decision_complete r resolve_safety chosen d = ground (arith, d.3 refl)
decision_complete r cancel_booking chosen d = ground (arith, d.4 refl)
decision_complete r release_provider_and_complete chosen d =
    ground (arith, (d.5 refl).0, (d.5 refl).1)

-- A decision passes exactly when the report is open and no cancellation escalation, a dismissal
-- carries no penalty, only a safety report is resolved as one, no finished booking is cancelled,
-- and a provider is paid only on a completion dispute over work that awaited confirmation.
pub assert_report_decision_exact :
    (r : ReportCase) (outcome : Outcome) (chosen : Penalty)
    → (is_ok (assert_report_decision r outcome chosen) ≡ true) ↔ Decidable r outcome chosen
assert_report_decision_exact r outcome chosen =
    (decision_sound r outcome chosen, decision_complete r outcome chosen)

-- Only an active member other than the deciding administrator can be penalised; a member who is
-- already suspended or banned is never suspended again, and one who is banned never banned again.
pub allowed_report_penalties_sound :
    (account : User) (admin_id : Option ℕ) (p : Penalty)
    → any (same_penalty p) (allowed_report_penalties (some account) admin_id) ≡ true
    → (p ≡ no_penalty)
      ⊎ ((is_member account.role ≡ true)
          × (account.is_active ≡ true)
          × (account.deactivated_at ≡ none)
          × (refers admin_id account.id ≡ false)
          × (p ≡ suspend → account.moderation ≡ ModerationStatus.active)
          × (p ≡ ban → account.moderation ≢ ModerationStatus.banned))
unfolding allowed_report_penalties
allowed_report_penalties_sound account admin_id no_penalty h = inl refl
allowed_report_penalties_sound account admin_id p h =
    inr (
      ground arith,
      ground arith,
      ground arith,
      ground arith,
      λ e. ground arith,
      λ e k. ground arith,
    )
