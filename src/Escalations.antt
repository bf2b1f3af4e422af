-- ===== src/Escalations.antt =====
-- services/completion-escalation.service.ts: the provider asks for a review of a completion that
-- the seeker does not confirm, and an administrator resolves it. A decision runs as a claim, the
-- reservation of its financial effect, the effect, and the finalization.
pub mod Decisions
use servicehub_backend.Base.{
  ℕ, ◌+◌, Bool, true, false, not, ◌&&◌, ◌||◌, Option, none, some, List, [], ◌∷◌, map, ltb, leb,
  ◌==◌, if◌then◌else◌, is_some, Code, Result, ok, ◌>>=◌, ◌>>◌, http, require, reject, found, find,
  select, update, insert,
}
use servicehub_backend.Schema.{
  Db, Booking, BookingStatus, CaseStatus, Resolution, CompletionEscalation, CaseType, Stage,
  Operation, OperationStatus, Notice, AuditAction, ProgressEvent, is_cash, is_awaiting,
  is_open_case, is_completed, is_settled, is_canceled, is_refunded, find_booking, update_booking,
  fresh_id, notify,
}
use servicehub_backend.Policy.Bookings.{
  ProgressMark, PreviousReview, Availability, completion_review_wait_ms,
  completion_review_availability,
}
use servicehub_backend.Trust.Bookings.{award_booking_completion_trust}
use servicehub_backend.Bookings.{
  CaseExclusions, assert_no_financial_resolution_reserved, assert_no_other_blocking_cases,
  record_lifecycle_notice,
}
use servicehub_backend.Bookings.Completion.{notify_admins, was_awaiting}
use servicehub_backend.Operations.{
  ResolutionInput, FinancialOutcome, find_operation, operation_of, is_reserved,
  begin_admin_resolution, reconcile_reserved_financial_effect, has_established_financial_effect,
  mark_admin_resolution_stage, completed_resolution_result, update_operation,
}
use servicehub_backend.Cancellations.{is_under_review, is_case_under_review}

abbrev pub find_escalation : ℕ → Db → Option CompletionEscalation
find_escalation id db = find (λ e. e.id == id) db.escalations

abbrev pub update_escalation : ℕ → (CompletionEscalation → CompletionEscalation) → Db → Db
update_escalation id f db = record db { escalations = update (λ e. e.id == id) f db.escalations }

-- orderBy: { createdAt: "desc" }
abbrev pub latest_escalation : List CompletionEscalation → Option CompletionEscalation
latest_escalation [] = none
latest_escalation (x ∷ xs) = elim (latest_escalation xs) [
  | none ↦ some x
  | some y ↦ if ltb x.created_at y.created_at then some y else some x
]

abbrev pub previous_escalation : ℕ → Db → Option CompletionEscalation
previous_escalation booking db =
    latest_escalation (select (λ e. e.booking_id == booking) db.escalations)

abbrev pub is_still_open : Option CompletionEscalation → Bool
is_still_open none = false
is_still_open (some e) = is_open_case e.status

abbrev pub is_keep_awaiting : Option Resolution → Bool
is_keep_awaiting (some Resolution.keep_awaiting) = true
is_keep_awaiting _ = false

-- A review that kept the booking waiting, decided less than 72 hours ago.
abbrev pub is_cooling_down : Option CompletionEscalation → ℕ → Bool
is_cooling_down none now = false
is_cooling_down (some e) now = elim e.resolved_at [
  | none ↦ false
  | some decided ↦ is_keep_awaiting e.resolution && ltb now (decided + completion_review_wait_ms)
]

abbrev pub review_of : Option CompletionEscalation → Option PreviousReview
review_of none = none
review_of (some e) =
    some (record { status = e.status; resolution = e.resolution; resolved_at = e.resolved_at })

abbrev pub marks_of : ℕ → Db → List ProgressMark
marks_of booking db =
    map (λ (e : ProgressEvent). record { kind = e.kind; occurred_at = e.occurred_at })
      (select (λ e. e.booking_id == booking) db.progress)

abbrev pub is_available_at : ℕ → Option Availability → Bool
is_available_at now none = false
is_available_at now (some a) = leb a.available_at now

abbrev pub escalation_available : Booking → ℕ → Db → Bool
escalation_available b now db = is_available_at now (
    completion_review_availability b.status b.payment_method b.updated_at (marks_of b.id db)
      (review_of (previous_escalation b.id db)))

abbrev pub new_escalation : ℕ → ℕ → ℕ → ℕ → CompletionEscalation
new_escalation id booking provider now = record {
  id = id;
  booking_id = booking;
  requested_by = provider;
  status = CaseStatus.pending;
  resolution = none;
  created_at = now;
  resolved_at = none;
}

unfoldable pub create_escalation_row : ℕ → ℕ → ℕ → Db → Db
create_escalation_row booking provider now db = notify_admins (Notice.escalation_review booking) (
    fresh_id (record db {
      escalations = insert (new_escalation db.next_id booking provider now) db.escalations;
    }))

unfoldable pub create_completion_escalation : ℕ → ℕ → ℕ → Db → Result Db
create_completion_escalation booking provider now db = do
  b ← found (find_booking booking db) (http 404 Code.no_code)
  require (b.provider_id == provider) (http 404 Code.no_code)
  reject (is_cash b.payment_method) (http 409 Code.cash_completion_review_not_available)
  assert_no_financial_resolution_reserved booking none db
  require (is_awaiting b.status) (http 409 Code.no_code)
  if is_still_open (previous_escalation booking db)
      then ok db
      else (reject (is_cooling_down (previous_escalation booking db) now)
            (http 409 Code.escalation_cooldown)
          >> (require (escalation_available b now db) (http 409 Code.escalation_wait_period)
              >> record_lifecycle_notice b
                  ((b.seeker_id, Notice.completion_review_requested booking) ∷ []) none
                  (create_escalation_row booking provider now db)))

-- "release_provider_and_complete" | "refund_seeker" | "keep_awaiting"
pub data Action : Type 0 where
  release_provider_and_complete refund_seeker keep_awaiting : Action

-- `resolutionCode`
abbrev pub resolution_code : Action → Resolution
resolution_code Action.release_provider_and_complete = Resolution.release_provider_and_complete
resolution_code Action.refund_seeker = Resolution.refund_seeker
resolution_code Action.keep_awaiting = Resolution.keep_awaiting

abbrev pub outcome_number : Action → ℕ
outcome_number Action.release_provider_and_complete = 0
outcome_number Action.refund_seeker = 1
outcome_number Action.keep_awaiting = 2

abbrev pub reconcile : Action → Operation → Db → Result (Operation × Db)
reconcile Action.release_provider_and_complete o db =
    reconcile_reserved_financial_effect o FinancialOutcome.release_provider_and_complete db
reconcile Action.refund_seeker o db =
    reconcile_reserved_financial_effect o FinancialOutcome.refund_seeker db
reconcile Action.keep_awaiting o db = ok (o, db)

abbrev pub is_completed_operation : Operation → Bool
is_completed_operation o = elim o.status [ OperationStatus.completed ↦ true | _ ↦ false ]

abbrev pub has_completed : Option Operation → Bool
has_completed none = false
has_completed (some o) = is_completed_operation o

-- A booking that the reservation of a decision holds under review.
abbrev pub is_reserved_booking : Booking → Bool
is_reserved_booking b = is_under_review b.status && was_awaiting b.status_before_dispute

abbrev pub claim_operation :
    CompletionEscalation → Booking → Action → Operation × Db → Result (Operation × Db)
claim_operation e b action (o, db) =
    if is_some (completed_resolution_result o)
    then ok (o, db)
    else (reject
          (not (has_established_financial_effect o)
            && not (is_awaiting b.status)
            && not (is_reserved_booking b && is_reserved o.stage))
          (http 409 Code.stale_escalation)
        >> ok (
          o,
          update_escalation e.id
              (λ x. record x {
                status = CaseStatus.under_review;
                resolution = some (resolution_code action);
              })
              db,
        ))

abbrev pub decision_input : CompletionEscalation → ℕ → Action → ResolutionInput
decision_input e admin action = record {
  case_type = CaseType.completion_escalation;
  case_id = e.id;
  booking_id = e.booking_id;
  admin_id = admin;
  outcome = outcome_number action;
  penalty = 0;
}

-- The first transaction of `resolveCompletionEscalation`.
unfoldable pub claim_escalation : ℕ → ℕ → Action → Db → Result (Operation × Db)
claim_escalation escalation admin action db = do
  e ← found (find_escalation escalation db) (http 404 Code.no_code)
  if not (is_open_case e.status)
      then (require (has_completed (operation_of CaseType.completion_escalation e.id db))
            (http 409 Code.stale_escalation)
          >> (found (operation_of CaseType.completion_escalation e.id db)
                (http 409 Code.stale_escalation)
              >>= λ o. ok (o, db)))
      else do
        begun ← begin_admin_resolution (decision_input e admin action) db
        reconciled ← reconcile action begun.0 begun.1
        b ← found (find_booking e.booking_id reconciled.1) (http 404 Code.no_code)
        claim_operation e b action reconciled

abbrev pub is_superseded : CompletionEscalation → Operation → Bool
is_superseded e o = not (is_case_under_review e.status) || is_completed_operation o

abbrev pub reserve_booking : Booking → Booking
reserve_booking b = record b {
  status = BookingStatus.under_review;
  status_before_dispute = some BookingStatus.awaiting_confirmation;
}

abbrev pub exclude_escalation : ℕ → CaseExclusions
exclude_escalation id = record {
  report_id = none;
  cancellation_request_id = none;
  completion_escalation_id = some id;
}

-- `reserveCompletionFinancialOutcome`
unfoldable pub reserve_completion_financial_outcome : ℕ → ℕ → Db → Result Db
reserve_completion_financial_outcome operation escalation db = do
  e ← found (find_escalation escalation db) (http 404 Code.no_code)
  b ← found (find_booking e.booking_id db) (http 404 Code.no_code)
  o ← found (find_operation operation db) (http 409 Code.stale_escalation)
  reject (is_superseded e o) (http 409 Code.stale_escalation)
  if has_established_financial_effect o then ok db else do
    assert_no_other_blocking_cases e.booking_id (exclude_escalation e.id) db
    reject (not (is_reserved_booking b) && not (is_awaiting b.status))
        (http 409 Code.stale_escalation)
    marked ← mark_admin_resolution_stage operation Stage.financial_effect_reserved (
        if is_reserved_booking b then db else record db {
          bookings =
              update (λ x. x.id == e.booking_id && is_awaiting x.status) reserve_booking
                db.bookings;
        })
    ok marked.1

-- The state of the booking that a decision must have reached before its case is closed.
unfoldable pub has_reached : Action → Booking → Bool
has_reached Action.release_provider_and_complete b =
    is_completed b.status && is_settled b.payment_status
has_reached Action.refund_seeker b =
    is_canceled b.status && (is_cash b.payment_method || is_refunded b.payment_status)
has_reached Action.keep_awaiting b = is_awaiting b.status

abbrev pub not_reached_code : Action → Code
not_reached_code Action.keep_awaiting = Code.stale_escalation
not_reached_code _ = Code.no_code

abbrev pub finalize_rows : CompletionEscalation → Booking → ℕ → Action → ℕ → Db → Db
finalize_rows e b admin action now db =
    notify b.seeker_id (Notice.escalation_resolved e.booking_id) (
      notify b.provider_id (Notice.escalation_resolved e.booking_id)
        (record (update_escalation e.id
          (λ x. record x {
            status = CaseStatus.resolved;
            resolution = some (resolution_code action);
            resolved_at = some now;
          })
          db) {
            audit =
                insert
                  (record {
                    actor_id = admin;
                    target_user_id = some e.requested_by;
                    action = AuditAction.completion_escalation_resolved;
                    resource_id = e.id;
                  })
                  db.audit;
          }))

abbrev pub complete : ℕ → Operation → Operation
complete outcome o = record o {
  status = OperationStatus.completed;
  stage = Stage.case_finalized;
  result = some outcome;
  last_error = none;
}

abbrev pub complete_operation : ℕ → ℕ → Db → Db
complete_operation operation outcome db =
    update_operation (λ o. o.id == operation) (complete outcome) db

unfoldable pub close_escalation :
    CompletionEscalation → Booking → ℕ → ℕ → Action → ℕ → Db → Result Db
close_escalation e b operation admin action now db =
    award_booking_completion_trust e.booking_id now (finalize_rows e b admin action now db) >>= λ d.
    ok (complete_operation operation (outcome_number action) d)

-- The last transaction of `resolveCompletionEscalation`.
unfoldable pub finalize_escalation : ℕ → ℕ → ℕ → Action → ℕ → Db → Result Db
finalize_escalation operation escalation admin action now db = do
  o ← found (find_operation operation db) (http 500 Code.no_code)
  if is_completed_operation o then ok db else do
    e ← found (find_escalation escalation db) (http 409 Code.stale_escalation)
    require (is_case_under_review e.status) (http 409 Code.stale_escalation)
    b ← found (find_booking e.booking_id db) (http 409 Code.stale_escalation)
    require (has_reached action b) (http 409 (not_reached_code action))
    close_escalation e b operation admin action now db
