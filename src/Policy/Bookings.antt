-- ===== src/Policy/Bookings.antt =====
-- services/bookings/paid-start-readiness.ts and services/bookings/completion-review.ts: when a
-- paid job may start, and when its completion may be reviewed. Times are milliseconds.
use servicehub_backend.Base.{
  ℕ, ◌+◌, ◌*◌, ◌≤◌, ◌<◌, max, ◌≡◌, ◌↔◌, ◌⊎◌, Bool, true, false, not, ◌&&◌, ◌||◌, Option, none, some,
  List, [], ◌∷◌, arith, ◌==◌, if◌then◌else◌, any,
}
use servicehub_backend.Schema.{
  BookingStatus, PaymentStatus, QueueStatus, PaymentMethod, CaseStatus, ProgressKind, Resolution,
  is_waiting, is_on_hold, is_paid_held, is_awaiting, is_cash, is_open_case,
}

-- The five texts that the source returns.
pub data StartBlock : Type 0 where
  no_longer_waiting already_started on_hold not_accepted payment_unconfirmed : StartBlock

-- ACCEPTED, or WAITING on an older captured booking.
abbrev pub is_startable : BookingStatus → Bool
is_startable BookingStatus.accepted = true
is_startable BookingStatus.waiting = true
is_startable _ = false

unfoldable pub paid_start_block_reason :
    BookingStatus → Bool → PaymentStatus → QueueStatus → PaymentStatus → Option StartBlock
paid_start_block_reason status started payment queue_status queue_payment =
    if not (is_waiting queue_status)
    then some no_longer_waiting
    else (if started
        then some already_started
        else (if not (is_startable status)
            then some (if is_on_hold status then on_hold else not_accepted)
            else (if not (is_paid_held payment) || not (is_paid_held queue_payment)
                then some payment_unconfirmed
                else none)))

-- A paid job may start exactly when its entry waits in the queue, it has not started, it is
-- accepted (or of the older waiting kind), and both records of its payment are held.
pub paid_start_block_reason_exact :
    (status : BookingStatus) (started : Bool) (payment : PaymentStatus) (queue_status : QueueStatus)
    (queue_payment : PaymentStatus)
    → (paid_start_block_reason status started payment queue_status queue_payment ≡ none) ↔ (
        (queue_status ≡ QueueStatus.waiting)
        × (started ≡ false)
        × ((status ≡ BookingStatus.accepted) ⊎ (status ≡ BookingStatus.waiting))
        × (payment ≡ PaymentStatus.paid_held)
        × (queue_payment ≡ PaymentStatus.paid_held))
unfolding paid_start_block_reason
paid_start_block_reason_exact status started payment queue_status queue_payment =
    (λ h. (ground arith, ground arith, ground arith, ground arith, ground arith), λ h. ground arith)

abbrev pub completion_review_wait_ms : ℕ
completion_review_wait_ms = 72 * 60 * 60 * 1000

pub record ProgressMark : Type 0 where
  pub kind : ProgressKind
  pub occurred_at : ℕ

pub record PreviousReview : Type 0 where
  pub status : CaseStatus
  pub resolution : Option Resolution
  pub resolved_at : Option ℕ

pub record Availability : Type 0 where
  pub available_at : ℕ
  pub pending : Bool

abbrev pub is_completion_mark : ProgressKind → Bool
is_completion_mark ProgressKind.work_marked_complete = true
is_completion_mark _ = false

-- The `filter` and `reduce` over the progress events.
abbrev pub latest_mark : List ProgressMark → ℕ
latest_mark [] = 0
latest_mark (e ∷ es) =
    let rest = latest_mark es in if is_completion_mark e.kind then max e.occurred_at rest else rest

abbrev pub is_keep_awaiting : Option Resolution → Bool
is_keep_awaiting (some Resolution.keep_awaiting) = true
is_keep_awaiting _ = false

abbrev pub retry_deadline : Option PreviousReview → ℕ
retry_deadline none = 0
retry_deadline (some p) =
    if is_keep_awaiting p.resolution
    then elim p.resolved_at [ none ↦ 0 | some t ↦ t + completion_review_wait_ms ]
    else 0

abbrev pub is_pending_review : Option PreviousReview → Bool
is_pending_review none = false
is_pending_review (some p) = is_open_case p.status

-- `markedAt || updatedAt`, so that a booking with no such event falls back on its update.
unfoldable pub completion_review_availability :
    BookingStatus
    → PaymentMethod
    → ℕ
    → List ProgressMark
    → Option PreviousReview
    → Option Availability
completion_review_availability status method updated_at events previous =
    if not (is_awaiting status) || is_cash method
    then none
    else some (record {
      available_at =
          max
            ((if latest_mark events == 0 then updated_at else latest_mark events)
              + completion_review_wait_ms)
            (retry_deadline previous);
      pending = is_pending_review previous;
    })

mark-le-latest :
    (events : List ProgressMark) (e : ProgressMark)
    → any (λ x. is_completion_mark x.kind && x.occurred_at == e.occurred_at) events ≡ true
    → e.occurred_at ≤ latest_mark events
mark-le-latest [] e h = cc
mark-le-latest (x ∷ xs) e h = ground (arith, mark-le-latest xs e)

-- Once the work was marked complete at some time, the wait never ends within 72 hours of that
-- mark, and a later edit of the booking does not move it.
pub completion_review_waits :
    (events : List ProgressMark) (previous : Option PreviousReview) (e : ProgressMark)
    (updated later : ℕ) (a : Availability)
    → 0 < e.occurred_at
    → any (λ x. is_completion_mark x.kind && x.occurred_at == e.occurred_at) events ≡ true
    → completion_review_availability BookingStatus.awaiting_confirmation PaymentMethod.gcash updated
        events previous
      ≡ some a
    → (e.occurred_at + completion_review_wait_ms ≤ a.available_at)
      × (completion_review_availability BookingStatus.awaiting_confirmation PaymentMethod.gcash
            later events previous
          ≡ some a)
unfolding completion_review_availability
completion_review_waits events previous e updated later a p m h =
    (ground (arith, mark-le-latest events e m), ground (arith, mark-le-latest events e m))

-- A review that kept the booking waiting delays the next one by 72 hours from its decision.
pub completion_review_cooldown :
    (status : BookingStatus) (method : PaymentMethod) (updated : ℕ) (events : List ProgressMark)
    (case_status : CaseStatus) (decided : ℕ) (a : Availability)
    → completion_review_availability status method updated events (
        some (record {
          status = case_status;
          resolution = some Resolution.keep_awaiting;
          resolved_at = some decided;
        }))
      ≡ some a
    → decided + completion_review_wait_ms ≤ a.available_at
unfolding completion_review_availability
completion_review_cooldown status method updated events case_status decided a h = ground arith
