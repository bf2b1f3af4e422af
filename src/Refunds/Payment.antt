-- ===== src/Refunds/Payment.antt =====
-- A refund from end to end (refundBookingPayment of services/payment-refund.service.ts), with the
-- other transactions that run between its own, and against a settlement of the same booking.
use servicehub_backend.Base.{
  ℕ, ◌≡◌, refl, sym, subst, ◌⊎◌, inl, inr, Bool, true, false, Option, none, some, arith,
  Option-cases, Result, ok, err, is_ok,
}
use servicehub_backend.Schema.{
  Db, Booking, BookingStatus, is_completed, is_canceled, QueueEntry, refund_of,
}
use servicehub_backend.Bookings.Completion.{Settler, settle_completed_booking}
use servicehub_backend.Bookings.Completion.Ledger.{IsPaidOnce, is_open_money}
use servicehub_backend.Bookings.Completion.Settlement.{settled-completed}
use servicehub_backend.Refunds.{
  GatewayRefund, World, RefundResult, reserve_refund, finalize_refund, refund_booking_payment,
  finish_refund, finished, answered, reserved, with_payment, reserve_and_submit, check_refund,
  checked, refundable,
}
use servicehub_backend.Refunds.Ledger.{finalize_refund-IsPaidOnce, finalize_refund_inversion}

reserve_refund-frame :
    (booking requested_by payment amount : ℕ) (db d : Db) (o : Option GatewayRefund)
    → reserve_refund booking requested_by payment amount db ≡ ok (o, d)
    → d ≡ record db { next_id = d.next_id; refunds = d.refunds }
unfolding reserve_refund
reserve_refund-frame booking requested_by payment amount db d o h =
    elim (Option-cases (refund_of booking db)) [ inl e ↦ ground arith | inr (r, e) ↦ ground arith ]

pub reserve_refund-IsPaidOnce :
    (booking requested_by payment amount : ℕ) (db d : Db) (o : Option GatewayRefund)
    → IsPaidOnce db
    → reserve_refund booking requested_by payment amount db ≡ ok (o, d)
    → IsPaidOnce d
unfolding IsPaidOnce
reserve_refund-IsPaidOnce booking requested_by payment amount db d o inv h =
    subst IsPaidOnce (sym (reserve_refund-frame booking requested_by payment amount db d o h)) inv

-- The other transactions keep every booking paid once at most.
abbrev pub Keeps : (Db → Db) → Type 0
Keeps f = (db : Db) → IsPaidOnce db → IsPaidOnce (f db)

finished-IsPaidOnce :
    (resumed : Bool) (gateway : GatewayRefund) (amount : ℕ) (db : Db) (r : Result Db)
    → IsPaidOnce db
    → ((d : Db) → r ≡ ok d → IsPaidOnce d)
    → IsPaidOnce (finished resumed gateway amount db r).0
finished-IsPaidOnce resumed gateway amount db (ok d) inv f = f d refl
finished-IsPaidOnce resumed gateway amount db (err e) inv f = inv

module _ (w : World) (before : Keeps w.before_reservation)
    (after : Keeps w.before_finalization) where
  finish_refund-IsPaidOnce :
      (booking requested_by : ℕ) (resumed : Bool) (gateway : GatewayRefund) (amount now : ℕ)
      (db : Db)
      → IsPaidOnce db
      → IsPaidOnce (finish_refund w booking requested_by resumed gateway amount now db).0
  finish_refund-IsPaidOnce booking requested_by resumed gateway amount now db inv =
      finished-IsPaidOnce resumed gateway amount (w.before_finalization db)
        (finalize_refund booking requested_by resumed gateway amount now (w.before_finalization db))
        (after db inv)
        (λ d.
          finalize_refund-IsPaidOnce booking requested_by resumed gateway amount now
            (w.before_finalization db) d (after db inv))

  answered-IsPaidOnce :
      (booking requested_by amount now : ℕ) (db : Db) (r : Result GatewayRefund)
      → IsPaidOnce db
      → IsPaidOnce (answered w booking requested_by amount now db r).0
  unfolding IsPaidOnce
  answered-IsPaidOnce booking requested_by amount now db (err e) inv = inv
  answered-IsPaidOnce booking requested_by amount now db (ok gateway) inv =
      finish_refund-IsPaidOnce booking requested_by false gateway amount now db inv

  reserved-IsPaidOnce :
      (booking requested_by payment amount now : ℕ) (db : Db)
      (r : Result (Option GatewayRefund × Db))
      → IsPaidOnce db
      → ((o : Option GatewayRefund) (d : Db) → r ≡ ok (o, d) → IsPaidOnce d)
      → IsPaidOnce (reserved w booking requested_by payment amount now db r).0
  reserved-IsPaidOnce booking requested_by payment amount now db (err e) inv f = inv
  reserved-IsPaidOnce booking requested_by payment amount now db (ok (some gateway, d)) inv f =
      finish_refund-IsPaidOnce booking requested_by true gateway amount now d
        (f (some gateway) d refl)
  reserved-IsPaidOnce booking requested_by payment amount now db (ok (none, d)) inv f =
      answered-IsPaidOnce booking requested_by amount now d (w.create_refund payment amount booking)
        (f none d refl)

  reserve_and_submit-IsPaidOnce :
      (booking requested_by payment amount now : ℕ) (db : Db)
      → IsPaidOnce db
      → IsPaidOnce (reserve_and_submit w booking requested_by payment amount now db).0
  unfolding reserve_and_submit
  reserve_and_submit-IsPaidOnce booking requested_by payment amount now db inv =
      reserved-IsPaidOnce booking requested_by payment amount now (w.before_reservation db)
        (reserve_refund booking requested_by payment amount (w.before_reservation db))
        (before db inv)
        (λ o d h.
          reserve_refund-IsPaidOnce booking requested_by payment amount (w.before_reservation db) d
            o (before db inv) h)

  with_payment-IsPaidOnce :
      (booking requested_by now : ℕ) (db : Db) (r : Result (ℕ × ℕ))
      → IsPaidOnce db
      → IsPaidOnce (with_payment w booking requested_by now db r).0
  with_payment-IsPaidOnce booking requested_by now db (err e) inv = inv
  with_payment-IsPaidOnce booking requested_by now db (ok (payment, amount)) inv =
      reserve_and_submit-IsPaidOnce booking requested_by payment amount now db inv

  checked-IsPaidOnce :
      (booking requested_by now : ℕ) (db : Db) (r : Result (RefundResult ⊎ QueueEntry))
      → IsPaidOnce db
      → IsPaidOnce (checked w booking requested_by now db r).0
  checked-IsPaidOnce booking requested_by now db (err e) inv = inv
  checked-IsPaidOnce booking requested_by now db (ok (inl r)) inv = inv
  checked-IsPaidOnce booking requested_by now db (ok (inr entry)) inv =
      with_payment-IsPaidOnce booking requested_by now db
        (refundable entry (w.get_payment_intent entry.payment_id)) inv

-- A refund, whether it succeeds or fails, keeps every booking paid once at most, whatever the
-- gateway answers and whatever other transactions, which keep this themselves, run between its own.
pub refund_booking_payment-IsPaidOnce :
    (w : World) (booking requested_by now : ℕ) (db : Db)
    → Keeps w.before_reservation
    → Keeps w.before_finalization
    → IsPaidOnce db
    → IsPaidOnce (refund_booking_payment w booking requested_by now db).0
unfolding refund_booking_payment
refund_booking_payment-IsPaidOnce w booking requested_by now db before after inv =
    checked-IsPaidOnce w before after booking requested_by now db (check_refund booking db) inv

not_canceled : (s : BookingStatus) → is_completed s ≡ true → is_canceled s ≡ true → ⊥
not_canceled s c k = ground arith

not_open : (b : Booking) → is_completed b.status ≡ true → is_open_money b.id b ≡ true → ⊥
not_open b c o = ground arith

-- Once a settlement of a booking has succeeded, no refund of it is finalized: the second
-- transaction of a refund, also of one that was under way, is rejected.
pub finalize_refund_after_settlement :
    (booking requested_by : ℕ) (resumed : Bool) (gateway : GatewayRefund) (amount now later : ℕ)
    (actor : Settler) (db d : Db)
    → settle_completed_booking booking actor now db ≡ ok d
    → is_ok (finalize_refund booking requested_by resumed gateway amount later d) ≡ false
finalize_refund_after_settlement booking requested_by resumed gateway amount now later actor db d
      h =
    go (finalize_refund booking requested_by resumed gateway amount later d) refl
  where
    go :
        (r : Result Db)
        → finalize_refund booking requested_by resumed gateway amount later d ≡ r
        → is_ok r ≡ false
    go (err e) k = refl
    go (ok d') k =
        elim (finalize_refund_inversion booking requested_by resumed gateway amount later d d' k) [
          | inl (_, b, e, c) ↦
              absurd (not_canceled b.status (settled-completed booking actor now db d b h e) c)
          | inr (b, q, e, o, w) ↦
              absurd (not_open b (settled-completed booking actor now db d b h e) o)
        ]
