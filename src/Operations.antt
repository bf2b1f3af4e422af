-- ===== src/Operations.antt =====
-- services/admin-resolution-operation.service.ts: the durable record of an administrator's decision
-- on a case, with the stage that its settlement has reached. An outcome, a penalty and an error
-- are numbers for their texts; penalty 0 is "none".
pub mod Stages
use servicehub_backend.Base.{
  ℕ, Bool, true, false, not, ◌&&◌, ◌||◌, Option, none, some, ltb, leb, ◌==◌, if◌then◌else◌, is_some,
  or_else, Code, Result, ok, ◌>>=◌, ◌>>◌, http, reject, found, find, update, insert,
}
use servicehub_backend.Schema.{
  Db, Booking, Operation, OperationStatus, Stage, CaseType, CompletedService, PaymentStatus,
  is_running, is_completed, is_canceled, is_settled, is_cash, is_unpaid, is_refunded, find_booking,
  refund_of, completed_of, fresh_id,
}

-- ADMIN_RESOLUTION_STAGE_ORDER
abbrev pub rank : Stage → ℕ
rank Stage.claimed = 0
rank Stage.decision_ready = 1
rank Stage.financial_effect_reserved = 2
rank Stage.financial_effect_established = 3
rank Stage.case_finalized = 4

abbrev pub case_number : CaseType → ℕ
case_number CaseType.report = 0
case_number CaseType.completion_escalation = 1
case_number CaseType.cancellation = 2
case_number CaseType.admin_booking = 3

pub record ResolutionInput : Type 0 where
  pub case_type : CaseType
  pub case_id : ℕ
  pub booking_id : ℕ
  pub admin_id : ℕ
  pub outcome : ℕ
  pub penalty : ℕ

abbrev pub find_operation : ℕ → Db → Option Operation
find_operation id db = find (λ o. o.id == id) db.operations

abbrev pub operation_of : CaseType → ℕ → Db → Option Operation
operation_of kind id db =
    find (λ o. case_number o.case_type == case_number kind && o.case_id == id) db.operations

abbrev pub update_operation : (Operation → Bool) → (Operation → Operation) → Db → Db
update_operation p f db = record db { operations = update p f db.operations }

-- Completed, failed for good, or past the last stage.
unfoldable pub is_final : Operation → Bool
is_final o = not (is_running o.status) || rank o.stage == 4

abbrev pub resume : Operation → Operation
resume o = record o { status = OperationStatus.processing; last_error = none }

abbrev pub new_operation : ℕ → ResolutionInput → Operation
new_operation id input = record {
  id = id;
  case_type = input.case_type;
  case_id = input.case_id;
  booking_id = input.booking_id;
  requested_by_admin_id = input.admin_id;
  requested_outcome = input.outcome;
  requested_penalty = input.penalty;
  status = OperationStatus.processing;
  stage = Stage.claimed;
  last_error = none;
  result = none;
}

-- `findUniqueOrThrow`
abbrev pub reread : ℕ → Db → Result (Operation × Db)
reread id db = found (find_operation id db) (http 404 Code.no_code) >>= λ o. ok (o, db)

unfoldable pub begin_admin_resolution : ResolutionInput → Db → Result (Operation × Db)
begin_admin_resolution input db = elim (operation_of input.case_type input.case_id db) [
  | none ↦ ok (
    new_operation db.next_id input,
    fresh_id (record db { operations = insert (new_operation db.next_id input) db.operations }),
  )
  | some existing ↦
      reject
        (not (existing.requested_outcome == input.outcome)
          || not (existing.requested_penalty == input.penalty))
        (http 409 Code.resolution_operation_conflict)
      >> (if is_final existing
          then ok (existing, db)
          else reread existing.id (
              update_operation
                (λ o.
                  o.id == existing.id && is_running o.status && rank o.stage == rank existing.stage)
                resume db))
]

abbrev pub has_established_financial_effect : Operation → Bool
has_established_financial_effect o = leb 3 (rank o.stage)

abbrev pub advance : Stage → Operation → Operation
advance stage o = record o { stage = stage; status = OperationStatus.processing; last_error = none }

unfoldable pub mark_admin_resolution_stage : ℕ → Stage → Db → Result (Operation × Db)
mark_admin_resolution_stage operation stage db = do
  current ← found (find_operation operation db) (http 409 Code.resolution_operation_conflict)
  if is_final current || ltb (rank stage) (rank current.stage)
      then ok (current, db)
      else reread operation (
          update_operation
            (λ o. o.id == operation && rank o.stage == rank current.stage && is_running o.status)
            (advance stage) db)

abbrev pub may_fail : ℕ → Operation → Bool
may_fail operation o = o.id == operation && is_running o.status && not (rank o.stage == 4)

abbrev pub fail : ℕ → Operation → Operation
fail message o = record o { status = OperationStatus.failed_retryable; last_error = some message }

unfoldable pub mark_admin_resolution_failed : ℕ → ℕ → Db → Db
mark_admin_resolution_failed operation message db =
    update_operation (may_fail operation) (fail message) db

abbrev pub same_settlement : PaymentStatus → PaymentStatus → Bool
same_settlement PaymentStatus.released PaymentStatus.released = true
same_settlement PaymentStatus.cash_confirmed PaymentStatus.cash_confirmed = true
same_settlement _ _ = false

abbrev pub is_released_row : Booking → Option CompletedService → Bool
is_released_row b none = false
is_released_row b (some c) =
    same_settlement c.payment_status b.payment_status && c.final_price == or_else b.agreed_amount 0

-- The settlement has been committed: the provider was paid for the agreed amount.
abbrev pub is_release_effect : Booking → Db → Bool
is_release_effect b db =
    is_completed b.status && is_settled b.payment_status && is_released_row b (completed_of b.id db)

abbrev pub has_gateway_refund : ℕ → Db → Bool
has_gateway_refund booking db = elim (refund_of booking db) [
  | none ↦ false
  | some r ↦ is_some r.paymongo_refund_id
]

abbrev pub is_cancel_effect : Booking → Db → Bool
is_cancel_effect b db =
    is_canceled b.status
    && (if is_cash b.payment_method
        then is_unpaid b.payment_status
        else is_refunded b.payment_status && has_gateway_refund b.id db)

-- "release_provider_and_complete" | "cancel_booking" | "refund_seeker"
pub data FinancialOutcome : Type 0 where
  release_provider_and_complete cancel_booking refund_seeker : FinancialOutcome

abbrev pub is_release : FinancialOutcome → Bool
is_release FinancialOutcome.release_provider_and_complete = true
is_release _ = false

abbrev pub is_reserved : Stage → Bool
is_reserved s = rank s == 2

unfoldable pub reconcile_reserved_financial_effect :
    Operation → FinancialOutcome → Db → Result (Operation × Db)
reconcile_reserved_financial_effect o outcome db =
    if not (is_reserved o.stage)
    then ok (o, db)
    else (found (find_booking o.booking_id db) (http 409 Code.resolution_operation_conflict)
        >>= λ b.
            if (is_release outcome && is_release_effect b db)
              || (not (is_release outcome) && is_cancel_effect b db)
            then mark_admin_resolution_stage o.id Stage.financial_effect_established db
            else ok (o, db))

abbrev pub completed_resolution_result : Operation → Option ℕ
completed_resolution_result o = elim o.status [ OperationStatus.completed ↦ o.result | _ ↦ none ]
