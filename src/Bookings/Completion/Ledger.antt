-- ===== src/Bookings/Completion/Ledger.antt =====
-- The payments of a booking in the ledger, and the frames of the writes of a settlement
-- (services/bookings/completion.service.ts).
use servicehub_backend.Base.{
  ℕ, ◌+◌, ◌≤◌, ◌≡◌, refl, ap, ◌∙◌, ◌≢◌, Bool, false, not, ◌&&◌, ◌||◌, Option, none, some, List,
  arith, ◌==◌, count, update, count-update_none, count-update_apart,
}
use servicehub_backend.Schema.{
  Db, Booking, Transaction, LedgerKey, PaymentStatus, QueueEntry, QueueStatus, ProgressKind,
  RequestStatus, update_queue, is_completed, is_canceled, is_refunded, queue_of, update_booking,
}
use servicehub_backend.Queue.Frame.{
  IgnoresPosition, count-bookings-recalculate_queue, recalculate_queue-frame,
}
use servicehub_backend.Bookings.{record_booking_progress}
use servicehub_backend.Bookings.Frame.{record_booking_progress-frame}
use servicehub_backend.Bookings.Completion.{
  Settler, settle_rows, settle_queue, settle_booking, set_request, confirm_escalations,
  create_completed, settlement_status, payment_terms, request_of, settler_role,
}

abbrev pub pays_out : ℕ → Transaction → Bool
pays_out booking t = elim t.key [
  | LedgerKey.booking_completion id ↦ id == booking
  | LedgerKey.booking_refund id ↦ false
]

abbrev pub pays_back : ℕ → Transaction → Bool
pays_back booking t = elim t.key [
  | LedgerKey.booking_completion id ↦ false
  | LedgerKey.booking_refund id ↦ id == booking
]

-- The entries of the ledger that pay for a booking, to either side.
abbrev pub payments : ℕ → Db → ℕ
payments booking db =
    count (pays_out booking) db.transactions + count (pays_back booking) db.transactions

abbrev pub is_open_money : ℕ → Booking → Bool
is_open_money id b =
    b.id == id
    && not (is_completed b.status || is_canceled b.status && is_refunded b.payment_status)

abbrev pub open_money : ℕ → Db → ℕ
open_money id db = count (is_open_money id) db.bookings

-- Every booking has been paid for once at most, and not at all while it is open.
unfoldable pub IsPaidOnce : Db → Type 0
IsPaidOnce db = (id : ℕ) → (payments id db ≤ 1) × (1 ≤ open_money id db → payments id db ≡ 0)

pub set_request-frame :
    (o : Option ℕ) (s : RequestStatus) (db : Db)
    → set_request o s db ≡ record db { requests = (set_request o s db).requests }
set_request-frame none s db = refl
set_request-frame (some r) s db = refl

pub confirm_escalations-frame :
    (actor : Settler) (booking now : ℕ) (db : Db)
    → let d = confirm_escalations actor booking now db in
      d ≡ record db { escalations = d.escalations }
confirm_escalations-frame (Settler.by_admin u) booking now db = refl
confirm_escalations-frame (Settler.by_seeker u) booking now db = refl

pub settle_queue-frame :
    (o : Option QueueEntry) (s : PaymentStatus) (provider : ℕ) (db : Db)
    → let d = settle_queue o s provider db in
      d ≡ record db { queue = d.queue; bookings = d.bookings }
settle_queue-frame none s provider db = refl
settle_queue-frame (some q) s provider db =
    let moved =
      update_queue q.id (λ x. record x { status = QueueStatus.done; payment_status = s }) db in
    ground (arith, recalculate_queue-frame provider moved)

pub settle_queue-count :
    (q : Booking → Bool) (o : Option QueueEntry) (s : PaymentStatus) (provider : ℕ) (db : Db)
    → IgnoresPosition q
    → count q (settle_queue o s provider db).bookings ≡ count q db.bookings
settle_queue-count q none s provider db h = refl
settle_queue-count q (some e) s provider db h = count-bookings-recalculate_queue q provider _ h

pub settle_update-open :
    (b : Booking) (s : PaymentStatus) (xs : List Booking) (x : ℕ)
    → let ys = update (λ y. y.id == b.id) (settle_booking s) xs in
      (x ≡ b.id → count (is_open_money x) ys ≡ 0)
      × (x ≢ b.id → count (is_open_money x) ys ≡ count (is_open_money x) xs)
settle_update-open b s xs x = (
  λ e.
      count-update_none (is_open_money x) (λ y. y.id == b.id) (settle_booking s) xs
        (λ a h. ground arith) (λ a h. ground arith),
  λ e.
      count-update_apart (is_open_money x) (λ y. y.id == b.id) (settle_booking s) xs
        (λ a h. ground arith) (λ a h. ground arith),
)

pub settle_rows-frame :
    (actor : Settler) (b : Booking) (now : ℕ) (db : Db)
    → let d = settle_rows actor b now db in
      (d.transactions ≡ db.transactions)
      × (d.completed ≡ (create_completed b (queue_of b.id db) (payment_terms b db) db).completed)
unfolding settle_rows
settle_rows-frame actor b now db =
    let created = create_completed b (queue_of b.id db) (payment_terms b db) db in
    let updated = update_booking b.id (settle_booking (settlement_status b)) created in
    let told =
      record_booking_progress b.id ProgressKind.completion_confirmed (settler_role actor) 0 now
        updated in
    let queued = settle_queue (queue_of b.id db) (settlement_status b) b.provider_id told in
    let closed = set_request (request_of b db) RequestStatus.closed queued in
    let a =
      record_booking_progress-frame b.id ProgressKind.completion_confirmed (settler_role actor) 0
        now updated in
    let c = settle_queue-frame (queue_of b.id db) (settlement_status b) b.provider_id told in
    let e = set_request-frame (request_of b db) RequestStatus.closed queued in
    let f = confirm_escalations-frame actor b.id now closed in
    (
      ap (λ d. d.transactions) f
          ∙ ap (λ d. d.transactions) e
          ∙ ap (λ d. d.transactions) c
          ∙ ap (λ d. d.transactions) a,
      ap (λ d. d.completed) f
          ∙ ap (λ d. d.completed) e
          ∙ ap (λ d. d.completed) c
          ∙ ap (λ d. d.completed) a,
    )
