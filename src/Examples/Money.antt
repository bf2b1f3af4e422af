-- ===== src/Examples/Money.antt =====
-- Settlements, refunds and cancellations of the booking 1.
use servicehub_backend.Base.{
  ◌≡◌, refl, ◌≢◌, ◌⊎◌, true, false, none, some, [], ok, is_some, is_ok, value_of, ok_value, insert,
}
use servicehub_backend.Schema.{
  Db, Booking, CompletedService, Transaction, RefundStatus, is_cash, is_completed, completed_of,
  find_booking, empty_db,
}
use servicehub_backend.Policy.Accounts.{assert_distinct_accounts}
use servicehub_backend.Policy.Membership.{subscription_benefits}
use servicehub_backend.Queue.{
  recalculate_queue, waiting_entries, reindex, first_wait, reset_serving, notify_waitlist,
}
use servicehub_backend.Trust.{apply_trust_event, write_trust_event}
use servicehub_backend.Trust.Bookings.{award_booking_completion_trust, award_pair, award_one}
use servicehub_backend.Bookings.{
  assert_no_refund_in_progress, record_booking_progress, record_lifecycle_notice,
}
use servicehub_backend.Bookings.Completion.{
  Settler, settle_completed_booking, check_settlement, settle_checked, settle_rows, pay_provider,
  completed_row,
}
use servicehub_backend.Bookings.Completion.Ledger.{IsPaidOnce}
use servicehub_backend.Bookings.Completion.Settlement.{settle_completed_booking_once}
use servicehub_backend.Bookings.Completion.Payout.{settle_completed_booking-ledger}
use servicehub_backend.Refunds.{
  World, GatewayRefund, refund_booking_payment, finalize_refund, refund_rows, pay_seeker,
  leave_queue, check_refund, reserve_refund, reserve_and_submit,
}
use servicehub_backend.Refunds.Payment.{
  refund_booking_payment-IsPaidOnce, finalize_refund_after_settlement,
}
use servicehub_backend.Cancellations.{
  Surroundings, perform_immediate_cancel, check_cancel, finish_cancel, cancel_rows,
  cancel_and_deliver, deliver_cancellation,
}
use servicehub_backend.Cancellations.Immediate.{perform_immediate_cancel-IsPaidOnce}
use servicehub_backend.Examples.Data.{paid_once, awaiting, accepted_job}

abbrev settled : Db
settled = value_of empty_db (settle_completed_booking 1 (Settler.by_seeker 3) 100 awaiting)

settled_ok : settle_completed_booking 1 (Settler.by_seeker 3) 100 awaiting ≡ ok settled
unfolding settle_completed_booking assert_no_refund_in_progress check_settlement settle_checked
    settle_rows pay_provider completed_row record_booking_progress recalculate_queue waiting_entries
    reindex first_wait reset_serving award_booking_completion_trust award_pair award_one
    apply_trust_event write_trust_event record_lifecycle_notice assert_distinct_accounts
settled_ok = ok_value empty_db _ refl

settled_again : settle_completed_booking 1 (Settler.by_admin 9) 200 settled ≡ ok settled
unfolding settle_completed_booking assert_no_refund_in_progress check_settlement settle_checked
    settle_rows pay_provider completed_row record_booking_progress recalculate_queue waiting_entries
    reindex first_wait reset_serving award_booking_completion_trust award_pair award_one
    apply_trust_event write_trust_event record_lifecycle_notice assert_distinct_accounts
settled_again = refl

settle_completed_booking_once_example : settled ≡ settled
settle_completed_booking_once_example =
    settle_completed_booking_once 1 (Settler.by_seeker 3) (Settler.by_admin 9) 100 200 awaiting
      settled settled settled_ok settled_again

settle_completed_booking-ledger_example :
    ((settled ≡ awaiting)
      × (b : Booking) × (find_booking 1 awaiting ≡ some b)
      × (is_completed b.status ≡ true)
      × (is_some (completed_of b.id awaiting) ≡ true))
    ⊎ ((b : Booking) × (row : CompletedService) × (find_booking 1 awaiting ≡ some b)
        × (is_completed b.status ≡ false)
        × (settled.completed ≡ insert row [])
        × (b.agreed_amount ≡ some row.final_price)
        × (row.final_price ≢ 0)
        × (is_cash b.payment_method ≡ true
            → (settled.transactions ≡ []) × (row.provider_net_amount ≡ some row.final_price))
        × (is_cash b.payment_method ≡ false
            → (t : Transaction) × (settled.transactions ≡ insert t [])
              × (t.wallet_owner_id ≡ b.provider_id)
              × (row.provider_net_amount ≡ some t.amount)))
settle_completed_booking-ledger_example =
    settle_completed_booking-ledger 1 (Settler.by_seeker 3) 100 awaiting settled settled_ok

-- A gateway that accepts every refund, and nobody else at work.
abbrev quiet : World
quiet = record {
  get_payment_intent = λ id. ok (record { payment_id = some 8; succeeded = true; amount = 10000 });
  create_refund =
      λ payment amount booking. ok (record { id = 30; status = RefundStatus.succeeded });
  before_reservation = λ db. db;
  before_finalization = λ db. db;
}

abbrev refunded : Db
refunded = (refund_booking_payment quiet 1 3 100 accepted_job).0

refund_runs : is_ok (refund_booking_payment quiet 1 3 100 accepted_job).1 ≡ true
unfolding refund_booking_payment check_refund reserve_and_submit reserve_refund finalize_refund
refund_runs = refl

refund_booking_payment-IsPaidOnce_example : IsPaidOnce refunded
refund_booking_payment-IsPaidOnce_example =
    refund_booking_payment-IsPaidOnce quiet 1 3 100 accepted_job (λ db h. h) (λ db h. h)
      (paid_once accepted_job refl)

abbrev the_refund : GatewayRefund
the_refund = record { id = 30; status = RefundStatus.succeeded }

finalize_refund_after_settlement_example :
    is_ok (finalize_refund 1 3 false the_refund 10000 200 settled) ≡ false
finalize_refund_after_settlement_example =
    finalize_refund_after_settlement 1 3 false the_refund 10000 100 200 (Settler.by_seeker 3)
      awaiting settled settled_ok

-- A cancellation with nobody else at work.
abbrev alone : Surroundings
alone = record { world = quiet; after_check = λ db. db; after_refund_paid = λ db. db }

abbrev cancelled : Db
cancelled = (perform_immediate_cancel alone 1 (some 3) none 100 accepted_job).0

perform_immediate_cancel-IsPaidOnce_example : IsPaidOnce cancelled
perform_immediate_cancel-IsPaidOnce_example =
    perform_immediate_cancel-IsPaidOnce alone 1 (some 3) none 100 accepted_job (λ db h. h)
      (λ db h. h) (λ db h. h) (λ db h. h) (paid_once accepted_job refl)

cancel_runs : is_ok (perform_immediate_cancel alone 1 (some 3) none 100 accepted_job).1 ≡ true
unfolding perform_immediate_cancel check_cancel refund_booking_payment check_refund
    reserve_and_submit reserve_refund finalize_refund finish_cancel cancel_and_deliver cancel_rows
    deliver_cancellation record_lifecycle_notice leave_queue notify_waitlist recalculate_queue
    reindex waiting_entries pay_seeker refund_rows record_booking_progress reset_serving
    subscription_benefits assert_distinct_accounts
cancel_runs = refl
