-- ===== src/Examples/Jobs.antt =====
-- A job that starts, a cancellation request, a review of a completion and its decision.
use servicehub_backend.Base.{
  ℕ, ◌+◌, ◌≤◌, max, ◌≡◌, refl, ◌≢◌, ◌⊎◌, true, false, not, none, some, [], ◌∷◌, arith, ◌==◌, ok,
  value_of, ok_value, length, All, select, count,
}
use servicehub_backend.Schema.{
  Db, Booking, QueueEntry, CompletionEscalation, Operation, OperationStatus, Stage, CaseType,
  CaseStatus, Resolution, ProgressKind, ActorRole, is_closed, is_on_hold, find_booking, queue_of,
  empty_db, is_ongoing, is_cash, is_serving,
}
use servicehub_backend.Policy.Accounts.{assert_distinct_accounts}
use servicehub_backend.Policy.Bookings.{
  paid_start_block_reason, completion_review_wait_ms, completion_review_availability,
}
use servicehub_backend.Queue.{
  serves_for, waits_for, waiting_entries, recalculate_queue, reindex, reset_serving,
}
use servicehub_backend.Trust.Bookings.{award_booking_completion_trust}
use servicehub_backend.Bookings.{
  assert_no_refund_in_progress, record_booking_progress, record_lifecycle_notice,
  assert_no_financial_resolution_reserved,
}
use servicehub_backend.Bookings.Start.{
  resolve_booking, check_paid_start, begin_job, begin_and_tell, provider_start_job,
}
use servicehub_backend.Bookings.Begin.{works_on_other}
use servicehub_backend.Bookings.OneJob.{provider_start_job_one_job}
use servicehub_backend.Queue.Order.{LeadsLine}
use servicehub_backend.Operations.{
  rank, is_final, find_operation, mark_admin_resolution_stage, mark_admin_resolution_failed,
}
use servicehub_backend.Operations.Stages.{mark_admin_resolution_stage_exact}
use servicehub_backend.Cancellations.Requests.{Claim, is_active_for, claim_cancellation, new_claim}
use servicehub_backend.Cancellations.Exclusive.{claim_cancellation_exclusive}
use servicehub_backend.Escalations.{
  Action, find_escalation, create_completion_escalation, create_escalation_row, finalize_escalation,
  close_escalation, has_reached,
}
use servicehub_backend.Escalations.Decisions.{
  create_completion_escalation_waits, finalize_escalation_reached,
}
use servicehub_backend.Bookings.Completion.{mark_job_complete, leave_service}
use servicehub_backend.Bookings.Completion.Ledger.{IsPaidOnce}
use servicehub_backend.Policy.Membership.{subscription_benefits}
use servicehub_backend.Queue.{notify_waitlist}
use servicehub_backend.Flow.{Step, Run}
use servicehub_backend.Flow.Paid.{Run-IsPaidOnce}
use servicehub_backend.Examples.Data.{paid_once, awaiting, accepted_job}

abbrev begun : Db
begun = value_of empty_db (provider_start_job 1 2 100 accepted_job)

begun_ok : provider_start_job 1 2 100 accepted_job ≡ ok begun
unfolding provider_start_job assert_no_refund_in_progress check_paid_start paid_start_block_reason
    waiting_entries begin_and_tell begin_job record_booking_progress recalculate_queue reindex
    reset_serving record_lifecycle_notice assert_distinct_accounts
begun_ok = ok_value empty_db (provider_start_job 1 2 100 accepted_job) refl

one_entry : (i : ℕ) → count (λ (q : QueueEntry). q.id == i) accepted_job.queue ≤ 1
one_entry i = ground arith

provider_start_job_one_job_example :
    (b : Booking) × (resolve_booking 1 accepted_job ≡ some b)
    × (b.provider_id ≡ 2)
    × (b.started ≡ false)
    × All
        (λ x.
          x.provider_id ≡ 2
          → x.id ≢ b.id
          → (is_ongoing x.status ≡ false)
            × (x.started ≡ true → is_cash x.payment_method ≡ true → is_on_hold x.status ≡ false)
            × ((q : QueueEntry)
                → queue_of x.id accepted_job ≡ some q
                → is_serving q.status ≡ false))
        accepted_job.bookings
    × (queue_of b.id accepted_job ≡ none → length (select (waits_for 2) accepted_job.queue) ≡ 0)
    × ((q : QueueEntry)
        → queue_of b.id accepted_job ≡ some q
        → LeadsLine q.id (select (waits_for 2) accepted_job.queue)
          × (count (serves_for 2) accepted_job.queue ≡ 0))
    × (count (works_on_other 2 b.id) begun.bookings ≡ 0)
    × (count (serves_for 2) begun.queue ≤ 1)
provider_start_job_one_job_example =
    provider_start_job_one_job 1 2 100 accepted_job begun one_entry (omega arith) begun_ok

abbrev handed_over : Db
handed_over = value_of empty_db (mark_job_complete 1 2 500 begun)

handed_over_ok : mark_job_complete 1 2 500 begun ≡ ok handed_over
unfolding mark_job_complete leave_service notify_waitlist subscription_benefits provider_start_job
    assert_no_refund_in_progress check_paid_start paid_start_block_reason waiting_entries
    begin_and_tell begin_job record_booking_progress recalculate_queue reindex reset_serving
    record_lifecycle_notice assert_distinct_accounts
handed_over_ok = ok_value empty_db (mark_job_complete 1 2 500 begun) refl

Run-IsPaidOnce_example : IsPaidOnce handed_over
Run-IsPaidOnce_example =
    Run-IsPaidOnce accepted_job handed_over
      (Run.next (Step.starts 1 2 100 begun_ok)
        (Run.next (Step.marks 1 2 500 handed_over_ok) Run.stop))
      (paid_once accepted_job refl)

abbrev no_claim : Claim
no_claim = record { request = none; immediate = false; already_cancelled = false }

abbrev claimed : Claim × Db
claimed = value_of (no_claim, empty_db) (claim_cancellation 1 3 100 accepted_job)

claimed_ok : claim_cancellation 1 3 100 accepted_job ≡ ok (claimed.0, claimed.1)
unfolding claim_cancellation new_claim assert_no_financial_resolution_reserved
claimed_ok = refl

claim_cancellation_exclusive_example :
    (claimed.1 ≡ accepted_job)
    ⊎ ((b : Booking) × (find_booking 1 accepted_job ≡ some b)
        × (is_closed b.status ≡ false)
        × (is_on_hold b.status ≡ false)
        × (claimed.0.immediate ≡ not b.started)
        × (claimed.0.request ≡ some 20)
        × (count (is_active_for 1) claimed.1.cancellations ≡ 1)
        × ((x : ℕ) → x ≢ 1 → count (is_active_for x) claimed.1.cancellations ≡ 0))
claim_cancellation_exclusive_example =
    claim_cancellation_exclusive 1 3 100 accepted_job claimed.1 claimed.0 claimed_ok

-- The work of the booking 1 was marked complete at the time 1000.
abbrev marked : Db
marked = record awaiting {
  progress =
      record {
        booking_id = 1;
        kind = ProgressKind.work_marked_complete;
        actor_role = ActorRole.provider;
        event_key = (ProgressKind.work_marked_complete, 1000);
        occurred_at = 1000;
      }
      ∷ [];
}

abbrev escalated : Db
escalated = value_of empty_db (create_completion_escalation 1 2 300000000 marked)

escalated_ok : create_completion_escalation 1 2 300000000 marked ≡ ok escalated
unfolding create_completion_escalation assert_no_financial_resolution_reserved
    completion_review_availability create_escalation_row record_lifecycle_notice
escalated_ok = ok_value empty_db (create_completion_escalation 1 2 300000000 marked) refl

create_completion_escalation_waits_example : 1000 + completion_review_wait_ms ≤ 300000000
create_completion_escalation_waits_example =
    create_completion_escalation_waits 1 2 300000000 1000 marked escalated escalated_ok refl
      (omega arith) refl

abbrev decision : Operation
decision = record {
  id = 16;
  case_type = CaseType.completion_escalation;
  case_id = 17;
  booking_id = 1;
  requested_by_admin_id = 9;
  requested_outcome = 2;
  requested_penalty = 0;
  status = OperationStatus.failed_retryable;
  stage = Stage.claimed;
  last_error = some 4;
  result = none;
}

abbrev decided : Db
decided = record marked {
  operations = decision ∷ [];
  escalations =
      record {
        id = 17;
        booking_id = 1;
        requested_by = 2;
        status = CaseStatus.under_review;
        resolution = some Resolution.keep_awaiting;
        created_at = 1000;
        resolved_at = none;
      }
      ∷ [];
}

abbrev advanced : Operation × Db
advanced =
    value_of (decision, empty_db) (mark_admin_resolution_stage 16 Stage.decision_ready decided)

advanced_ok :
    mark_admin_resolution_stage 16 Stage.decision_ready decided ≡ ok (advanced.0, advanced.1)
unfolding mark_admin_resolution_stage is_final
advanced_ok = refl

mark_admin_resolution_stage_exact_example :
    (find_operation 16 advanced.1 ≡ some advanced.0)
    × (is_final decision ≡ true → (advanced.0 ≡ decision) × (advanced.1 ≡ decided))
    × (is_final decision ≡ false → rank advanced.0.stage ≡ max 0 1)
mark_admin_resolution_stage_exact_example =
    mark_admin_resolution_stage_exact 16 Stage.decision_ready decided advanced.1 decision advanced.0
      refl advanced_ok

abbrev closed : Db
closed = value_of empty_db (finalize_escalation 16 17 9 Action.keep_awaiting 400000000 decided)

closed_ok : finalize_escalation 16 17 9 Action.keep_awaiting 400000000 decided ≡ ok closed
unfolding finalize_escalation has_reached close_escalation award_booking_completion_trust
closed_ok =
    ok_value empty_db (finalize_escalation 16 17 9 Action.keep_awaiting 400000000 decided) refl

finalize_escalation_reached_example :
    (closed ≡ decided)
    ⊎ ((e : CompletionEscalation) × (b : Booking) × (find_escalation 17 decided ≡ some e)
        × (find_booking e.booking_id decided ≡ some b)
        × (has_reached Action.keep_awaiting b ≡ true)
        × ((message : ℕ) → mark_admin_resolution_failed 16 message closed ≡ closed))
finalize_escalation_reached_example =
    finalize_escalation_reached 16 17 9 Action.keep_awaiting 400000000 decided closed closed_ok
