-- ===== src/Flow.antt =====
-- The life of bookings as a sequence of transactions: the handlers of src/services that start,
-- complete, dispute, settle, refund and cancel bookings, in any order and for any bookings.
pub mod Paid
pub mod Selection
use servicehub_backend.Base.{ℕ, ◌≡◌, Bool, Option, ok}
use servicehub_backend.Schema.{Db}
use servicehub_backend.Bookings.Start.{provider_start_job}
use servicehub_backend.Bookings.Completion.{
  Settler, mark_job_complete, settle_completed_booking, dispute_job,
}
use servicehub_backend.Refunds.{GatewayRefund, reserve_refund, fail_refund, finalize_refund}
use servicehub_backend.Cancellations.{finish_cancel}

-- One transaction that commits.
pub data Step : Db → Db → Type 0 where
  starts :
      (id provider now : ℕ) {db d : Db} → provider_start_job id provider now db ≡ ok d → Step db d
  marks :
      (id provider now : ℕ) {db d : Db} → mark_job_complete id provider now db ≡ ok d → Step db d
  disputes :
      (booking seeker now : ℕ) {db d : Db} → dispute_job booking seeker now db ≡ ok d → Step db d
  settles :
      (booking : ℕ) (actor : Settler) (now : ℕ) {db d : Db}
      → settle_completed_booking booking actor now db ≡ ok d
      → Step db d
  reserves :
      (booking requested_by payment amount : ℕ) (known : Option GatewayRefund) {db d : Db}
      → reserve_refund booking requested_by payment amount db ≡ ok (known, d)
      → Step db d
  fails : (booking : ℕ) {db : Db} → Step db (fail_refund booking db)
  finalizes :
      (booking requested_by : ℕ) (resumed : Bool) (gateway : GatewayRefund) (amount now : ℕ)
      {db d : Db}
      → finalize_refund booking requested_by resumed gateway amount now db ≡ ok d
      → Step db d
  cancels :
      (held : Bool) (booking : ℕ) (actor request : Option ℕ) (now : ℕ) {db d : Db}
      → finish_cancel held booking actor request now db ≡ ok d
      → Step db d

-- Any number of transactions, one after the other.
pub data Run : Db → Db → Type 0 where
  stop : {db : Db} → Run db db
  next : {db d e : Db} → Step db d → Run d e → Run db e
