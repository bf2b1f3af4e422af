-- ===== src/Policy/Requests.antt =====
-- lib/request-deletion.ts, lib/request-archive.ts and services/request-payment-methods.ts: what
-- the owner of a request may do with it.
use servicehub_backend.Base.{
  ◌≡◌, refl, ◌↔◌, Bool, true, false, not, ◌&&◌, ◌||◌, Option, none, some, List, [], ◌∷◌, arith,
  if◌then◌else◌, or_else, Code, Result, http, require, is_ok, any, all,
}
use servicehub_backend.Schema.{
  BookingStatus, OfferStatus, RequestStatus, AttemptStatus, PaymentMethod, PaymentChoice,
  is_completed, is_abandoned, is_open_request, is_payment_pending, is_pending_payment,
  is_accepted_offer, is_cash,
}

-- An offer of the request, with the status of its booking if it has one.
pub record OfferState : Type 0 where
  pub status : OfferStatus
  pub booking : Option BookingStatus

-- ['PENDING', 'SUCCEEDED', 'REFUND_REQUIRED']
abbrev pub is_protected_payment : AttemptStatus → Bool
is_protected_payment AttemptStatus.pending = true
is_protected_payment AttemptStatus.succeeded = true
is_protected_payment AttemptStatus.refund_required = true
is_protected_payment _ = false

abbrev pub has_completed_booking : OfferState → Bool
has_completed_booking o = elim o.booking [ none ↦ false | some s ↦ is_completed s ]

abbrev pub has_live_booking : OfferState → Bool
has_live_booking o = elim o.booking [ none ↦ false | some s ↦ not (is_abandoned s) ]

pub data DeletionBlock : Type 0 where
  completed_booking active_booking offer_accepted payment_in_process : DeletionBlock
  paused other_state : DeletionBlock

abbrev pub is_in_progress : RequestStatus → Bool
is_in_progress RequestStatus.in_progress = true
is_in_progress _ = false

abbrev pub is_closed_request : RequestStatus → Bool
is_closed_request RequestStatus.closed = true
is_closed_request _ = false

-- The reason that blocks a deletion; `none` for `canDelete: true`.
unfoldable pub request_deletion_eligibility :
    RequestStatus → List OfferState → List AttemptStatus → Option DeletionBlock
request_deletion_eligibility status offers payments =
    if any has_completed_booking offers
    then some completed_booking
    else (if is_in_progress status || any has_live_booking offers
        then some active_booking
        else (if any (λ o. is_accepted_offer o.status) offers
            then some offer_accepted
            else (if is_payment_pending status
                  || (any (λ o. is_pending_payment o.status) offers
                      || any is_protected_payment payments)
                then some payment_in_process
                else (if is_open_request status
                    then none
                    else some (if is_closed_request status then paused else other_state)))))

abbrev pub has_unfinished_booking : OfferState → Bool
has_unfinished_booking o = elim o.booking [
  | none ↦ false
  | some s ↦ not (is_completed s || is_abandoned s)
]

unfoldable pub can_archive_completed_request : List OfferState → Bool
can_archive_completed_request offers =
    any has_completed_booking offers
    && not (any (λ o. is_pending_payment o.status || has_unfinished_booking o) offers)

-- An offer that leaves the request free to be deleted.
abbrev pub is_inert : OfferState → Bool
is_inert o =
    not (has_live_booking o)
    && not (is_accepted_offer o.status)
    && not (is_pending_payment o.status)

inert_offers :
    (offers : List OfferState)
    → (not (any has_completed_booking offers)
        && not (any has_live_booking offers)
        && not (any (λ o. is_accepted_offer o.status) offers)
        && not (any (λ o. is_pending_payment o.status) offers))
      ≡ all is_inert offers
inert_offers [] = refl
inert_offers (o ∷ os) = ground (arith, inert_offers os)

-- A request can be deleted exactly when it is open, none of its offers is accepted, waits for
-- payment or has a booking that is not abandoned, and no payment for it is pending, captured or
-- due for a refund.
pub request_deletion_eligibility_exact :
    (status : RequestStatus) (offers : List OfferState) (payments : List AttemptStatus)
    → (request_deletion_eligibility status offers payments ≡ none) ↔ (
        (is_open_request status ≡ true)
        × (all is_inert offers ≡ true)
        × (any is_protected_payment payments ≡ false))
unfolding request_deletion_eligibility
request_deletion_eligibility_exact status offers payments = (
  λ h. (ground arith, ground (arith, inert_offers offers), ground arith),
  λ h. ground (arith, inert_offers offers),
)

-- A request that can be archived because its work is done can never be deleted, whatever its
-- status and payments: the history of a completed booking is kept.
pub archivable_not_deletable :
    (status : RequestStatus) (offers : List OfferState) (payments : List AttemptStatus)
    → can_archive_completed_request offers ≡ true
    → request_deletion_eligibility status offers payments ≡ some completed_booking
unfolding request_deletion_eligibility can_archive_completed_request
archivable_not_deletable status offers payments h = ground arith

abbrev pub prefers : Option PaymentMethod → PaymentMethod → Bool
prefers none m = true
prefers (some PaymentMethod.gcash) PaymentMethod.gcash = true
prefers (some PaymentMethod.on_site_cash) PaymentMethod.on_site_cash = true
prefers _ _ = false

-- The stored JSON as two flags; `none` for null, which older requests have.
unfoldable pub get_request_payment_methods :
    Option PaymentChoice → Option PaymentMethod → PaymentChoice
get_request_payment_methods raw preferred =
    let methods = or_else raw (record { cash = true; gcash = true }) in
    record {
      cash = methods.cash && prefers preferred PaymentMethod.on_site_cash;
      gcash = methods.gcash && prefers preferred PaymentMethod.gcash;
    }

unfoldable pub assert_request_payment_method :
    Option PaymentChoice → Option PaymentMethod → PaymentMethod → Result (Unit {0})
unfolding get_request_payment_methods
assert_request_payment_method raw preferred m =
    require
      (if is_cash m
        then (get_request_payment_methods raw preferred).cash
        else (get_request_payment_methods raw preferred).gcash)
      (http 409 Code.request_payment_method_unavailable)

-- A stated preference wins over the stored choice: with one, the only method that can pass is
-- the preferred one, and a request with neither choice nor preference accepts both.
pub assert_request_payment_method_prefers :
    (raw : Option PaymentChoice) (preferred m : PaymentMethod)
    → (is_ok (assert_request_payment_method raw (some preferred) m) ≡ true → m ≡ preferred)
      × (is_ok (assert_request_payment_method none none m) ≡ true)
unfolding assert_request_payment_method
assert_request_payment_method_prefers raw preferred m = (λ h. ground arith, ground arith)
