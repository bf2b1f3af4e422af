-- ===== src/Trust/Bookings.antt =====
-- services/trust-policy.service.ts: the points for a completed booking, and the penalty for a
-- fault in one. The callers hold the booking's lock; the pair lock orders the awards of a pair.
use servicehub_backend.Base.{
  ℕ, ◌+◌, ◌*◌, Bool, true, false, not, ◌&&◌, ◌||◌, Option, none, some, ltb, leb, ◌==◌,
  if◌then◌else◌, refers, is_some, Code, Result, ok, ◌>>=◌, ◌>>◌, http, require, reject, found, find,
  count,
}
use servicehub_backend.Base.Int.{pos, negsuc}
use servicehub_backend.Schema.{
  Db, User, Booking, TrustEvent, EventKey, TrustCategory, Notice, is_completed, is_settled,
  is_approved, is_moderation_active, is_open_case, is_undecided_cancellation, is_penalty,
  is_completion_event, find_user, find_booking, completed_of, notify,
}
use servicehub_backend.Trust.{
  TrustInput, Applied, not_applied, was_applied, apply_trust_event, reversal_of,
}

abbrev pub pair_window_ms : ℕ
pair_window_ms = 7 * 86400000

-- The three counts of open cases.
abbrev pub pending_cases : ℕ → Db → ℕ
pending_cases booking db =
    count (λ r. r.booking_id == booking && is_open_case r.status) db.reports
    + count (λ c. c.booking_id == booking && is_undecided_cancellation c.status) db.cancellations
    + count (λ e. e.booking_id == booking && is_open_case e.status) db.escalations

-- `booking: { OR: [ … ] }`, for the booking of the event.
abbrev pub is_of_pair : ℕ → ℕ → Db → TrustEvent → Bool
is_of_pair a b db e = elim e.booking_id [
  | none ↦ false
  | some id ↦ elim (find_booking id db) [
    | none ↦ false
    | some x ↦ (x.provider_id == a && x.seeker_id == b) || (x.provider_id == b && x.seeker_id == a)
  ]
]

-- `bookingId: { not: bookingId }`, which no null satisfies.
abbrev pub other_booking : Option ℕ → ℕ → Bool
other_booking none booking = false
other_booking (some b) booking = not (b == booking)

-- An earlier award of the same pair that is not corrected, within the window before `now`.
abbrev pub is_recent_award : ℕ → ℕ → ℕ → ℕ → Db → TrustEvent → Bool
is_recent_award booking a b now db e =
    is_completion_event e.category
    && other_booking e.booking_id booking
    && not (is_some (reversal_of e.id db))
    && ltb now (e.created_at + pair_window_ms)
    && (e.user_id == a || e.user_id == b)
    && is_of_pair a b db e

abbrev pub is_fault : ℕ → ℕ → Db → TrustEvent → Bool
is_fault booking user db e =
    refers e.booking_id booking
    && e.user_id == user
    && is_penalty e.category
    && not (is_some (reversal_of e.id db))

abbrev pub award_key : ℕ → ℕ → ℕ → EventKey
award_key booking provider user =
    if user == provider
    then EventKey.completion_provider booking
    else EventKey.completion_seeker booking

abbrev pub award_input : ℕ → ℕ → ℕ → TrustInput
award_input booking provider user = record {
  user_id = user;
  delta = pos 3;
  reason = 2;
  event_key = award_key booking provider user;
  actor_admin_id = none;
  requested_delta = none;
  booking_id = some booking;
  category = TrustCategory.completion;
  penalty_key = none;
  reverses_event_id = none;
}

-- One round of the loop over the two participants; `account` was read before the loop.
unfoldable pub award_one : ℕ → ℕ → User → ℕ → ℕ → Db → Result Db
award_one booking provider account user now db =
    if not account.is_active
      || not (is_moderation_active account.moderation)
      || is_some (find (is_fault booking user db) db.trust_events)
    then ok db
    else do (result, db1) ← apply_trust_event (award_input booking provider user) now db; ok db1

-- The bookings whose completion earns points.
abbrev pub earns_points : Booking → User → User → Db → Bool
earns_points b provider seeker db =
    is_completed b.status
    && is_some (completed_of b.id db)
    && is_settled b.payment_status
    && not (b.provider_id == b.seeker_id)
    && is_approved provider.verification
    && is_approved seeker.verification

-- `ids.sort()`; the order of two ids decides only which event is written first.
unfoldable pub award_pair : Booking → User → User → ℕ → Db → Result Db
award_pair b provider seeker now db =
    let provider_first = do
      db1 ← award_one b.id b.provider_id provider b.provider_id now db
      award_one b.id b.provider_id seeker b.seeker_id now db1
    in let seeker_first = do
      db1 ← award_one b.id b.provider_id seeker b.seeker_id now db
      award_one b.id b.provider_id provider b.provider_id now db1
      in if leb b.provider_id b.seeker_id then provider_first else seeker_first

-- The conditions of the three early returns.
abbrev pub award_refused : ℕ → Booking → User → User → ℕ → Db → Bool
award_refused booking b provider seeker now db =
    not (earns_points b provider seeker db)
    || not (pending_cases booking db == 0)
    || is_some (find (is_recent_award booking b.provider_id b.seeker_id now db) db.trust_events)

-- The participants' rows, which exist by the foreign keys.
unfoldable pub award_booking_completion_trust : ℕ → ℕ → Db → Result Db
award_booking_completion_trust booking now db = elim (find_booking booking db) [
  | none ↦ ok db
  | some b ↦ do
    provider ← found (find_user b.provider_id db) (http 500 Code.no_code)
    seeker ← found (find_user b.seeker_id db) (http 500 Code.no_code)
    if award_refused booking b provider seeker now db
        then ok db
        else award_pair b provider seeker now db
]

pub data Fault : Type 0 where
  report_fault cancellation_fault : Fault

abbrev pub is_cancellation_fault : Fault → Bool
is_cancellation_fault Fault.cancellation_fault = true
is_cancellation_fault Fault.report_fault = false

abbrev pub penalty_input : ℕ → ℕ → ℕ → EventKey → Fault → ℕ → TrustInput
penalty_input booking user admin key fault reason = record {
  user_id = user;
  delta = if is_cancellation_fault fault then negsuc 4 else negsuc 9;
  reason = reason;
  event_key = key;
  actor_admin_id = some admin;
  requested_delta = none;
  booking_id = some booking;
  category =
      if is_cancellation_fault fault
      then TrustCategory.cancellation_penalty
      else TrustCategory.report_penalty;
  penalty_key = some (booking, user);
  reverses_event_id = none;
}

abbrev pub has_penalty_key : ℕ → ℕ → TrustEvent → Bool
has_penalty_key booking user e = elim e.penalty_key [
  | none ↦ false
  | some (b, u) ↦ b == booking && u == user
]

-- `reason_length` is the length of the trimmed reason.
unfoldable pub apply_booking_trust_penalty :
    ℕ → ℕ → ℕ → EventKey → Fault → ℕ → ℕ → ℕ → Db → Result (Applied × Db)
apply_booking_trust_penalty booking user admin key fault reason reason_length now db = do
  reject (ltb reason_length 20) (http 422 Code.no_code)
  b ← found (find_booking booking db) (http 422 Code.no_code)
  require (b.provider_id == user || b.seeker_id == user) (http 422 Code.no_code)
  reject (b.provider_id == admin || b.seeker_id == admin) (http 403 Code.no_code)
  reject (is_cancellation_fault fault && not b.started) (http 422 Code.no_code)
  if is_some (find (has_penalty_key booking user) db.trust_events) then ok (not_applied, db) else do
    (result, db1) ← apply_trust_event (penalty_input booking user admin key fault reason) now db
    ok (result, if was_applied result then notify user Notice.trust_penalty db1 else db1)
