-- ===== src/Refunds/Ledger.antt =====
-- The writes of a refund to the ledger and the bookings (services/payment-refund.service.ts).
use servicehub_backend.Base.{
  ℕ, ◌+◌, ◌≤◌, ◌≡◌, refl, sym, ap, ◌∙◌, subst, ◌≢◌, ◌⊎◌, inl, inr, Bool, true, ◌&&◌, Option, some,
  List, arith, ◌==◌, if◌then◌else◌, Bool-cases, Option-cases, ==→eq, ==_refl, ok, count, update,
  count-insert, find-count, count-update_none, count-update_apart,
}
use servicehub_backend.Schema.{
  Db, Booking, QueueEntry, Transaction, TransactionType, LedgerKey, RequestStatus, ProgressKind,
  is_canceled, is_refunded, find_booking, queue_of, update_booking,
}
use servicehub_backend.Queue.{recalculate_queue}
use servicehub_backend.Queue.Frame.{
  count-bookings-recalculate_queue, recalculate_queue-frame, notify_waitlist-frame,
}
use servicehub_backend.Bookings.{booking_actor_role}
use servicehub_backend.Bookings.Frame.{record_booking_progress-frame}
use servicehub_backend.Bookings.Completion.{set_request, request_of}
use servicehub_backend.Bookings.Completion.Ledger.{
  pays_out, pays_back, payments, is_open_money, open_money, IsPaidOnce, set_request-frame,
}
use servicehub_backend.Refunds.{
  GatewayRefund, finalize_refund, pay_seeker, refund_rows, leave_queue, cancel_refunded,
  update_refund,
}

pay_seeker-payments :
    (b : Booking) (gateway amount : ℕ) (db : Db) (x : ℕ)
    → (payments x (pay_seeker b gateway amount db) ≤ payments x db + (if b.id == x then 1 else 0))
      × (open_money x (pay_seeker b gateway amount db) ≡ open_money x db)
unfolding pay_seeker
pay_seeker-payments b gateway amount db x =
    let entry : Transaction = record {
      id = db.next_id;
      wallet_owner_id = b.seeker_id;
      type_ = TransactionType.refund;
      amount = amount;
      related_booking_id = b.id;
      paymongo_ref_id = some gateway;
      key = LedgerKey.booking_refund b.id;
    } in
    (
      ground (
        arith,
        count-insert (pays_out x) entry db.transactions,
        count-insert (pays_back x) entry db.transactions,
      ),
      ground arith,
    )

cancel_update-open :
    (b : Booking) (xs : List Booking) (x : ℕ)
    → let ys = update (λ y. y.id == b.id) cancel_refunded xs in
      (x ≡ b.id → count (is_open_money x) ys ≡ 0)
      × (x ≢ b.id → count (is_open_money x) ys ≡ count (is_open_money x) xs)
cancel_update-open b xs x = (
  λ e.
      count-update_none (is_open_money x) (λ y. y.id == b.id) cancel_refunded xs
        (λ a h. ground arith) (λ a h. ground arith),
  λ e.
      count-update_apart (is_open_money x) (λ y. y.id == b.id) cancel_refunded xs
        (λ a h. ground arith) (λ a h. ground arith),
)

refund_rows-money :
    (b : Booking) (entry : QueueEntry) (requested_by : ℕ) (gateway : GatewayRefund) (now : ℕ)
    (db : Db) (x : ℕ)
    → let d = refund_rows b entry requested_by gateway now db in
      (payments x d ≡ payments x db)
      × (x ≡ b.id → open_money x d ≡ 0)
      × (x ≢ b.id → open_money x d ≡ open_money x db)
unfolding refund_rows
refund_rows-money b entry requested_by gateway now db x =
    let refunded =
      update_refund b.id
        (λ r. record r { status = gateway.status; paymongo_refund_id = some gateway.id }) db in
    let updated = update_booking b.id cancel_refunded refunded in
    let progress =
      record_booking_progress-frame b.id ProgressKind.canceled
        (booking_actor_role b (some requested_by)) 0 now updated in
    let same = ap (open_money x) progress in
    let moved = cancel_update-open b db.bookings x in
    (ap (payments x) progress, λ e. same ∙ moved.0 e, λ e. same ∙ moved.1 e)

leave_queue-money :
    (b : Booking) (request : Option ℕ) (now : ℕ) (db : Db) (x : ℕ)
    → let d = leave_queue b request now db in
      (payments x d ≡ payments x db) × (open_money x d ≡ open_money x db)
unfolding leave_queue
leave_queue-money b request now db x =
    let closed = set_request request RequestStatus.canceled db in
    let queued = recalculate_queue b.provider_id closed in
    let told = notify_waitlist-frame b.provider_id now queued in
    let set = set_request-frame request RequestStatus.canceled db in
    (
      ap (payments x) told
          ∙ ap (payments x) (recalculate_queue-frame b.provider_id closed)
          ∙ ap (payments x) set,
      ap (open_money x) told
          ∙ count-bookings-recalculate_queue (is_open_money x) b.provider_id closed (λ b o. refl)
          ∙ ap (open_money x) set,
    )

abbrev refund_writes : Booking → QueueEntry → ℕ → GatewayRefund → ℕ → ℕ → Db → Db
refund_writes b entry requested_by gateway amount now db =
    leave_queue b (request_of b db) now
      (pay_seeker b gateway.id amount (refund_rows b entry requested_by gateway now db))

refund_writes-IsPaidOnce :
    (b : Booking) (entry : QueueEntry) (requested_by : ℕ) (gateway : GatewayRefund) (amount now : ℕ)
    (db : Db)
    → IsPaidOnce db
    → 1 ≤ open_money b.id db
    → IsPaidOnce (refund_writes b entry requested_by gateway amount now db)
unfolding IsPaidOnce
refund_writes-IsPaidOnce b entry requested_by gateway amount now db inv unsettled x =
    let rows = refund_rows b entry requested_by gateway now db in
    let money = refund_rows-money b entry requested_by gateway now db x in
    let paid = pay_seeker-payments b gateway.id amount rows x in
    let left = leave_queue-money b (request_of b db) now (pay_seeker b gateway.id amount rows) x in
    elim (Bool-cases (b.id == x)) [
      | inl e ↦
          let same = sym (==→eq b.id x e) in
          let before = (inv x).1 (subst (λ y. 1 ≤ open_money y db) (sym same) unsettled) in
          let closed = money.1 same in (ground (arith, e), ground (arith, e))
      | inr e ↦
          let kept = money.2 (λ q. ground (arith, q, e)) in
          (ground (arith, inv x, e), ground (arith, inv x, e))
    ]

pub finalize_refund_inversion :
    (booking requested_by : ℕ) (resumed : Bool) (gateway : GatewayRefund) (amount now : ℕ)
    (db d : Db)
    → finalize_refund booking requested_by resumed gateway amount now db ≡ ok d
    → ((d ≡ db)
        × (b : Booking) × (find_booking booking db ≡ some b)
        × (is_canceled b.status ≡ true))
      ⊎ ((b : Booking) × (entry : QueueEntry) × (find_booking booking db ≡ some b)
          × (is_open_money b.id b ≡ true)
          × (d ≡ refund_writes b entry requested_by gateway amount now db))
unfolding finalize_refund
finalize_refund_inversion booking requested_by resumed gateway amount now db d h =
    elim (Option-cases (find_booking booking db)) [
      | inl e ↦ absurd (ground arith)
      | inr (b, e) ↦ elim (Option-cases (queue_of b.id db)) [
        | inl f ↦ absurd (ground arith)
        | inr (q, f) ↦ elim (Bool-cases (is_canceled b.status && is_refunded b.payment_status)) [
          | inl c ↦ inl (ground arith, b, e, ground arith)
          | inr c ↦ inr (b, q, e, ground (arith, ==_refl b.id), ground arith)
        ]
      ]
    ]

pub finalize_refund-IsPaidOnce :
    (booking requested_by : ℕ) (resumed : Bool) (gateway : GatewayRefund) (amount now : ℕ)
    (db d : Db)
    → IsPaidOnce db
    → finalize_refund booking requested_by resumed gateway amount now db ≡ ok d
    → IsPaidOnce d
finalize_refund-IsPaidOnce booking requested_by resumed gateway amount now db d inv h =
    elim (finalize_refund_inversion booking requested_by resumed gateway amount now db d h) [
      | inl e ↦ subst IsPaidOnce (sym e.0) inv
      | inr (b, q, e, o, w) ↦ subst IsPaidOnce (sym w) (
          refund_writes-IsPaidOnce b q requested_by gateway amount now db inv
            (find-count (λ y. y.id == booking) (is_open_money b.id) db.bookings b e o))
    ]
