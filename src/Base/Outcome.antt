-- ===== src/Base/Outcome.antt =====
-- A handler's outcome: the value that it returns, or the error that it throws.
use mathlib.Core.Path.{◌≡◌, refl, subst}
use mathlib.Core.Bool.{Bool, true, false}
use mathlib.Core.Option.{Option, none, some}
use Prim.Native.Nat.{ℕ}
use native.Mathlib.Omega.{arith}

-- The `code` that the source attaches to an error; `no_code` where it attaches none.
pub data Code : Type 0 where
  no_code : Code
  self_transaction_not_allowed refund_in_progress other_blocking_cases : Code
  financial_resolution_in_progress start_job_not_allowed start_paid_queue_missing : Code
  start_payment_state_invalid paid_job_not_ready provider_already_ongoing paid_work_waiting : Code
  invalid_dispute_completion_state invalid_completion_payment_state agreed_amount_missing : Code
  duplicate_dispute provider_membership_expired provider_listing_limit queue_slot_available : Code
  resolution_operation_conflict trust_operation_conflict invalid_report_penalty : Code
  suspension_bookings_blocked dismissed_report_penalty invalid_report_outcome : Code
  request_reserved request_listing_required participant_ineligible account_banned : Code
  account_suspended email_not_verified verification_required seeker_unavailable : Code
  request_payment_method_unavailable payment_mismatch unregistered_payment : Code
  cash_completion_review_not_available escalation_cooldown escalation_wait_period : Code
  stale_escalation stale_cancellation immediate_cancellation_stale : Code
  active_cancellation_exists cancellation_decline_reason_required : Code
  cancellation_report_link_missing active_booking_exists queue_full offer_not_payable : Code
  request_already_selected duplicate_offer request_already_matched : Code
  service_arrangement_invalid accept_booking_not_allowed validation_failed : Code
  offer_listing_unavailable fixed_price_booking_required job_location_required : Code
  provider_venue_required provider_unavailable payment_not_configured : Code
  payment_review_required : Code
  payment_method_required : Code

-- `Object.assign(new Error(message), { status, code })`; the text of the message is left out.
-- Status 500 stands for an error that is thrown with no status; a ZodError of a schema is the
-- status 400, with which the controllers answer it, and `validation_failed`.
pub record HttpError : Type 0 where
  pub status : ℕ
  pub code : Code

pub data Result {ℓ} (Value : Type ℓ) : Type ℓ where
  err : HttpError → Result Value
  ok : Value → Result Value

-- `await`: what follows runs on the value of a success, and an error is passed on.
infixl 5 ◌>>=◌ ◌>>◌
abbrev pub ◌>>=◌ {κ ℓ} :
    {Before : Type κ} {After : Type ℓ} → Result Before → (Before → Result After) → Result After
err failure >>= next = err failure
ok value >>= next = next value

abbrev pub ◌>>◌ {κ} : {After : Type κ} → Result (Unit {0}) → Result After → Result After
check >> next = check >>= λ _. next

abbrev pub http : ℕ → Code → HttpError
http s c = record { status = s; code = c }

-- `if (!b) throw e`
abbrev pub require : Bool → HttpError → Result (Unit {0})
require true e = ok tt
require false e = err e

-- `if (b) throw e`
abbrev pub reject : Bool → HttpError → Result (Unit {0})
reject true e = err e
reject false e = ok tt

-- `if (!o) throw e`
abbrev pub found {ℓ} : {A : Type ℓ} → Option A → HttpError → Result A
found none e = err e
found (some a) e = ok a

-- Inversion of a success, one step of a handler at a time.
pub >>=-eq-ok {κ ℓ} :
    {Before : Type κ} {After : Type ℓ} (first : Result Before) (next : Before → Result After)
    {result : After}
    → (first >>= next) ≡ ok result
    → (value : Before) × (first ≡ ok value) × (next value ≡ ok result)
>>=-eq-ok (err failure) next run = cc
>>=-eq-ok (ok value) next run = (value, refl, run)

pub require-eq-ok {ℓ} :
    {B : Type ℓ} (b : Bool) (e : HttpError) {k : Result B} {x : B}
    → (require b e >> k) ≡ ok x
    → (b ≡ true) × (k ≡ ok x)
require-eq-ok true e h = (refl, h)
require-eq-ok false e h = cc

pub reject-eq-ok {ℓ} :
    {B : Type ℓ} (b : Bool) (e : HttpError) {k : Result B} {x : B}
    → (reject b e >> k) ≡ ok x
    → (b ≡ false) × (k ≡ ok x)
reject-eq-ok true e h = cc
reject-eq-ok false e h = (refl, h)

pub found-eq-ok {ℓ κ} :
    {A : Type ℓ} {B : Type κ} (o : Option A) (e : HttpError) (f : A → Result B) {x : B}
    → (found o e >>= f) ≡ ok x
    → (a : A) × (o ≡ some a) × (f a ≡ ok x)
found-eq-ok none e f h = cc
found-eq-ok (some a) e f h = (a, refl, h)

abbrev pub is_ok {ℓ} : {A : Type ℓ} → Result A → Bool
is_ok (ok _) = true
is_ok (err _) = false

-- What holds of the value of a success.
abbrev pub OnOk {ℓ κ} : {A : Type ℓ} → (A → Type κ) → Result A → Type κ
OnOk P (ok a) = P a
OnOk P (err _) = Unit

pub OnOk-of {ℓ κ} :
    {A : Type ℓ} (P : A → Type κ) (r : Result A) → ((a : A) → r ≡ ok a → P a) → OnOk P r
OnOk-of P (ok a) h = h a refl
OnOk-of P (err e) h = tt

pub OnOk_elim {ℓ κ} :
    {A : Type ℓ} (P : A → Type κ) (r : Result A) (a : A) → OnOk P r → r ≡ ok a → P a
OnOk_elim P (ok b) a h e = subst P (cc e) h
OnOk_elim P (err b) a h e = absurd (cc e)

-- The value of a result that is known to be a success; `a` stands for that of an error.
abbrev pub value_of {ℓ} : {A : Type ℓ} → A → Result A → A
value_of a (ok x) = x
value_of a (err _) = a

pub ok_value {ℓ} : {A : Type ℓ} (a : A) (r : Result A) → is_ok r ≡ true → r ≡ ok (value_of a r)
ok_value a (ok x) h = refl
ok_value a (err e) h = cc

pub ok_second {κ ℓ} :
    {A : Type κ} {B : Type ℓ} {a b : A} {x y : B}
    → ◌≡◌ {A = Result (A × B)} (ok (a, x)) (ok (b, y))
    → x ≡ y
ok_second h = ground (arith, h)

pub ok_first {κ ℓ} :
    {A : Type κ} {B : Type ℓ} {a b : A} {x y : B}
    → ◌≡◌ {A = Result (A × B)} (ok (a, x)) (ok (b, y))
    → a ≡ b
ok_first h = ground (arith, h)
