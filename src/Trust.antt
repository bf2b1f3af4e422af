-- ===== src/Trust.antt =====
-- services/trust.service.ts: the only writer of a member's trust score, with its event history,
-- and the operations built on it. The advisory lock on the user orders the calls.
pub mod Score
pub mod History
pub mod Bookings
pub mod Points
pub mod Frame
use servicehub_backend.Base.{
  ℕ, min, Bool, true, false, not, ◌&&◌, ◌||◌, Option, none, some, ltb, ◌==◌, if◌then◌else◌, refers,
  is_some, or_else, Code, Result, ok, err, ◌>>=◌, ◌>>◌, http, require, reject, found, find, update,
  insert,
}
use servicehub_backend.Base.Int.{ℤ, pos, negsuc, pos_part, neg_part, sub_ℕ, negate, ◌+ℤ◌, eq_ℤ}
use servicehub_backend.Schema.{
  Db, User, TrustEvent, EventKey, TrustCategory, AuditAction, Notice, find_user, fresh_id, notify,
}

abbrev pub eq_event_key : EventKey → EventKey → Bool
eq_event_key (EventKey.account_baseline a) (EventKey.account_baseline b) = a == b
eq_event_key (EventKey.verification_approval a) (EventKey.verification_approval b) = a == b
eq_event_key (EventKey.trust_operation a) (EventKey.trust_operation b) = a == b
eq_event_key (EventKey.completion_provider a) (EventKey.completion_provider b) = a == b
eq_event_key (EventKey.completion_seeker a) (EventKey.completion_seeker b) = a == b
eq_event_key (EventKey.cancellation_fault a c) (EventKey.cancellation_fault b d) = a == b && c == d
eq_event_key (EventKey.report_fault a c) (EventKey.report_fault b d) = a == b && c == d
eq_event_key (EventKey.manual_trust a c) (EventKey.manual_trust b d) = a == b && c == d
eq_event_key (EventKey.review_event a) (EventKey.review_event b) = a == b
eq_event_key _ _ = false

-- `none` stands for an argument that is left undefined. A reason is a number for its text.
pub record TrustInput : Type 0 where
  pub user_id : ℕ
  pub delta : ℤ
  pub reason : ℕ
  pub event_key : EventKey
  pub actor_admin_id : Option ℕ
  pub requested_delta : Option ℤ
  pub booking_id : Option ℕ
  pub category : TrustCategory
  pub penalty_key : Option (ℕ × ℕ)
  pub reverses_event_id : Option ℕ

-- `Math.min(100, Math.max(0, x))`
abbrev pub clamp_score : ℤ → ℕ
clamp_score (pos n) = min 100 n
clamp_score (negsuc n) = 0

-- `existing.x !== input.x` for a nullable column: undefined differs from every stored value.
abbrev pub differs_from : Option ℕ → Option ℕ → Bool
differs_from stored none = true
differs_from stored (some a) = not (refers stored a)

-- An input for which the stored event is not the retry's own.
abbrev pub conflicts : TrustEvent → TrustInput → Bool
conflicts existing input = elim input.requested_delta [
  | none ↦ false
  | some requested ↦
      not (existing.user_id == input.user_id)
      || not (existing.reason == input.reason)
      || differs_from existing.actor_admin_id input.actor_admin_id
      || not (eq_ℤ existing.requested_delta requested)
      || (is_some input.reverses_event_id
          && differs_from existing.reverses_event_id input.reverses_event_id)
]

pub data Applied : Type 0 where
  not_applied : Applied
  applied : ℕ → ℕ → Applied

abbrev pub was_applied : Applied → Bool
was_applied not_applied = false
was_applied (applied _ _) = true

abbrev pub trust_event_row : ℕ → TrustInput → ℕ → ℕ → ℕ → TrustEvent
trust_event_row id input score_before score_after now = record {
  id = id;
  user_id = input.user_id;
  delta = sub_ℕ score_after score_before;
  requested_delta = or_else input.requested_delta input.delta;
  reason = input.reason;
  score_before = score_before;
  score_after = score_after;
  actor_admin_id = input.actor_admin_id;
  event_key = input.event_key;
  created_at = now;
  booking_id = input.booking_id;
  category = input.category;
  penalty_key = input.penalty_key;
  reverses_event_id = input.reverses_event_id;
}

-- `if (input.actorAdminId) …`
abbrev pub audit_trust : Option ℕ → ℕ → Db → Db
audit_trust none user db = db
audit_trust (some admin) user db = record db {
  audit =
      insert
        (record {
          actor_id = admin;
          target_user_id = some user;
          action = AuditAction.trust_score_adjusted;
          resource_id = user;
        })
        db.audit;
}

-- The writes of an event that is new.
unfoldable pub write_trust_event : TrustInput → ℕ → User → Db → Applied × Db
write_trust_event input now user db =
    let score_before = user.trust_score in
    let score_after = clamp_score (pos score_before +ℤ input.delta) in
    (
      applied score_before score_after,
      audit_trust input.actor_admin_id input.user_id (
          fresh_id (record db {
            users =
                update (λ u. u.id == input.user_id) (λ u. record u { trust_score = score_after })
                  db.users;
            trust_events =
                insert (trust_event_row db.next_id input score_before score_after now)
                  db.trust_events;
          })),
    )

abbrev pub find_event : EventKey → Db → Option TrustEvent
find_event key db = find (λ e. eq_event_key e.event_key key) db.trust_events

unfoldable pub apply_trust_event : TrustInput → ℕ → Db → Result (Applied × Db)
apply_trust_event input now db = do
  user ← found (find_user input.user_id db) (http 404 Code.no_code)
  elim (find_event input.event_key db) [
    | none ↦ ok (write_trust_event input now user db)
    | some existing ↦
        if conflicts existing input
        then err (http 409 Code.trust_operation_conflict)
        else ok (not_applied, db)
  ]

-- The `upsert` writes the event alone: a new account starts with the score 50.
unfoldable pub record_account_creation_baseline : ℕ → ℕ → Db → Db
record_account_creation_baseline user now db =
    elim (find_event (EventKey.account_baseline user) db) [
      | some _ ↦ db
      | none ↦ fresh_id (record db {
        trust_events =
            insert
              (record {
                id = db.next_id;
                user_id = user;
                delta = pos 50;
                requested_delta = pos 50;
                reason = 0;
                score_before = 0;
                score_after = 50;
                actor_admin_id = none;
                event_key = EventKey.account_baseline user;
                created_at = now;
                booking_id = none;
                category = TrustCategory.legacy;
                penalty_key = none;
                reverses_event_id = none;
              })
              db.trust_events;
      })
    ]

unfoldable pub apply_verification_approval_trust : ℕ → Option ℕ → ℕ → Db → Result (Applied × Db)
apply_verification_approval_trust user admin now db =
    apply_trust_event
      (record {
        user_id = user;
        delta = pos 5;
        reason = 1;
        event_key = EventKey.verification_approval user;
        actor_admin_id = admin;
        requested_delta = none;
        booking_id = none;
        category = TrustCategory.legacy;
        penalty_key = none;
        reverses_event_id = none;
      })
      now db

abbrev pub is_zero_delta : ℤ → Bool
is_zero_delta d = eq_ℤ d (pos 0)

-- ['POLICY_TRANSITION', 'LEGACY_DUPLICATE_PENALTY', 'REVIEW_LEGACY']
abbrev pub is_uncorrectable : TrustCategory → Bool
is_uncorrectable TrustCategory.policy_transition = true
is_uncorrectable TrustCategory.legacy_duplicate_penalty = true
is_uncorrectable TrustCategory.review_legacy = true
is_uncorrectable _ = false

-- `startsWith('account-baseline:')` or `startsWith('review:')`
abbrev pub is_protected_key : EventKey → Bool
is_protected_key (EventKey.account_baseline _) = true
is_protected_key (EventKey.review_event _) = true
is_protected_key _ = false

abbrev pub is_correctable : ℕ → TrustEvent → Bool
is_correctable user e =
    e.user_id == user
    && not (is_zero_delta e.delta)
    && not (is_some e.reverses_event_id)
    && not (is_uncorrectable e.category)
    && not (is_protected_key e.event_key)

abbrev pub reversal_of : ℕ → Db → Option TrustEvent
reversal_of event db = find (λ e. refers e.reverses_event_id event) db.trust_events

abbrev pub correction_input : ℕ → ℕ → ℕ → ℕ → TrustEvent → TrustInput
correction_input user admin operation reason original = record {
  user_id = user;
  delta = negate original.delta;
  reason = reason;
  event_key = EventKey.manual_trust admin operation;
  actor_admin_id = some admin;
  requested_delta = some (negate original.delta);
  booking_id = original.booking_id;
  category = TrustCategory.correction;
  penalty_key = none;
  reverses_event_id = some original.id;
}

-- `reason_length` is the length of the trimmed reason.
unfoldable pub apply_manual_trust_adjustment :
    ℕ → ℕ → ℕ → ℕ → ℕ → ℕ → ℕ → Db → Result (Applied × Db)
apply_manual_trust_adjustment user admin event reason reason_length operation now db = do
  reject (admin == user || ltb reason_length 20) (http 422 Code.no_code)
  original ← found (find (λ e. e.id == event) db.trust_events) (http 422 Code.no_code)
  require (is_correctable user original) (http 422 Code.no_code)
  reject
      (elim (reversal_of original.id db) [
        | none ↦ false
        | some r ↦ not (eq_event_key r.event_key (EventKey.manual_trust admin operation))
      ])
      (http 409 Code.no_code)
  (result, db1) ← apply_trust_event (correction_input user admin operation reason original) now db
  ok (result, if was_applied result then notify user Notice.trust_adjusted db1 else db1)
