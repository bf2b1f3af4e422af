-- ===== src/Bookings/Completion/Settlement.antt =====
-- The settlement of a booking (settleCompletedBooking of services/bookings/completion.service.ts).
use servicehub_backend.Base.{
  ℕ, ◌+◌, ◌≤◌, ◌≡◌, refl, sym, ap, ◌∙◌, subst, ◌≢◌, ◌⊎◌, inl, inr, Bool, true, false, not, ◌&&◌,
  none, some, arith, ◌==◌, if◌then◌else◌, is_some, or_else, Bool-cases, Option-cases, ==→eq,
  ==_refl, ok, >>=-eq-ok, count, update, count-insert, find-holds, find-count, count-update_none,
}
use servicehub_backend.Schema.{
  Db, Booking, Transaction, TransactionType, LedgerKey, ProgressKind, RequestStatus, is_completed,
  is_cash, find_booking, queue_of, update_booking, completed_of,
}
use servicehub_backend.Queue.Frame.{IgnoresPosition}
use servicehub_backend.Trust.Bookings.{award_booking_completion_trust}
use servicehub_backend.Trust.Frame.{award_booking_completion_trust-frame}
use servicehub_backend.Bookings.{record_booking_progress}
use servicehub_backend.Bookings.Frame.{record_booking_progress-frame, record_lifecycle_notice-frame}
use servicehub_backend.Bookings.Completion.{
  Settler, is_by_admin, settle, settle_rows, settle_queue, settle_booking, set_request,
  pay_provider, create_completed, settle_completed_booking, settle_checked, check_settlement,
  settlement_status, payment_terms, terms_net, request_of, settler_role,
}
use servicehub_backend.Bookings.Completion.Ledger.{
  pays_out, pays_back, payments, is_open_money, open_money, IsPaidOnce, set_request-frame,
  confirm_escalations-frame, settle_queue-count, settle_update-open, settle_rows-frame,
}

settle_rows-count :
    (q : Booking → Bool) (actor : Settler) (b : Booking) (now : ℕ) (db : Db)
    → IgnoresPosition q
    → count q (settle_rows actor b now db).bookings
      ≡ count q (update (λ y. y.id == b.id) (settle_booking (settlement_status b)) db.bookings)
unfolding settle_rows
settle_rows-count q actor b now db h =
    let created = create_completed b (queue_of b.id db) (payment_terms b db) db in
    let updated = update_booking b.id (settle_booking (settlement_status b)) created in
    let told =
      record_booking_progress b.id ProgressKind.completion_confirmed (settler_role actor) 0 now
        updated in
    let queued = settle_queue (queue_of b.id db) (settlement_status b) b.provider_id told in
    let closed = set_request (request_of b db) RequestStatus.closed queued in
    let counted : Db → ℕ = λ d. count q d.bookings in
    ap counted (confirm_escalations-frame actor b.id now closed)
    ∙ ap counted (set_request-frame (request_of b db) RequestStatus.closed queued)
    ∙ settle_queue-count q (queue_of b.id db) (settlement_status b) b.provider_id told h
    ∙ ap counted (
        record_booking_progress-frame b.id ProgressKind.completion_confirmed (settler_role actor) 0
          now updated)

settle_rows-open :
    (actor : Settler) (b : Booking) (now : ℕ) (db : Db) (x : ℕ)
    → (x ≡ b.id → open_money x (settle_rows actor b now db) ≡ 0)
      × (x ≢ b.id → open_money x (settle_rows actor b now db) ≡ open_money x db)
settle_rows-open actor b now db x =
    let same = settle_rows-count (is_open_money x) actor b now db (λ a o. refl) in
    let moved = settle_update-open b (settlement_status b) db.bookings x in
    (λ e. same ∙ moved.0 e, λ e. same ∙ moved.1 e)

pay_provider-payments :
    (b : Booking) (completed_id net : ℕ) (db : Db) (x : ℕ)
    → (payments x (pay_provider b completed_id net db)
        ≡ payments x db + (if not (is_cash b.payment_method) && b.id == x then 1 else 0))
      × (open_money x (pay_provider b completed_id net db) ≡ open_money x db)
unfolding pay_provider
pay_provider-payments b completed_id net db x =
    let entry : Transaction = record {
      id = db.next_id;
      wallet_owner_id = b.provider_id;
      type_ = TransactionType.earning;
      amount = net;
      related_booking_id = completed_id;
      paymongo_ref_id = none;
      key = LedgerKey.booking_completion b.id;
    } in
    (
      ground (
        arith,
        count-insert (pays_out x) entry db.transactions,
        count-insert (pays_back x) entry db.transactions,
      ),
      ground arith,
    )

-- What a success of the settlement went through.
pub settlement_inversion :
    (booking : ℕ) (actor : Settler) (now : ℕ) (db d : Db)
    → settle_completed_booking booking actor now db ≡ ok d
    → ((d ≡ db)
        × (b : Booking) × (find_booking booking db ≡ some b)
        × (is_completed b.status ≡ true)
        × (is_some (completed_of b.id db) ≡ true))
      ⊎ ((b : Booking) × (find_booking booking db ≡ some b)
          × (check_settlement (is_by_admin actor) b ≡ ok tt)
          × (settle_checked actor b now db ≡ ok d))
unfolding settle_completed_booking
settlement_inversion booking actor now db d h = elim (Option-cases (find_booking booking db)) [
  | inl e ↦ absurd (ground arith)
  | inr (b, e) ↦ elim (Bool-cases (is_completed b.status && is_some (completed_of b.id db))) [
    | inl c ↦ inl (ground arith, b, e, ground arith, ground arith)
    | inr c ↦ inr (b, e, ground arith, ground arith)
  ]
]

-- Trust and messages change neither the ledger nor the bookings.
pub settle_checked-frame :
    (actor : Settler) (b : Booking) (now : ℕ) (db d : Db)
    → settle_checked actor b now db ≡ ok d
    → let e = settle actor b now db in
      (d.transactions ≡ e.transactions) × (d.bookings ≡ e.bookings) × (d.completed ≡ e.completed)
unfolding settle_checked
settle_checked-frame actor b now db d h =
    let settled = settle actor b now db in
    let step = >>=-eq-ok (award_booking_completion_trust b.id now settled) _ h in
    let trust = award_booking_completion_trust-frame b.id now settled step.0 step.1 in
    let told = record_lifecycle_notice-frame b _ _ step.0 d step.2 in
    (
      ap (λ d. d.transactions) told ∙ ap (λ d. d.transactions) trust,
      ap (λ d. d.bookings) told ∙ ap (λ d. d.bookings) trust,
      ap (λ d. d.completed) told ∙ ap (λ d. d.completed) trust,
    )

pub check_settlement-open :
    (admin : Bool) (b : Booking) → check_settlement admin b ≡ ok tt → is_open_money b.id b ≡ true
unfolding check_settlement
check_settlement-open admin b h = ground (arith, ==_refl b.id)

settle_checked-IsPaidOnce :
    (actor : Settler) (b : Booking) (now : ℕ) (db d : Db)
    → IsPaidOnce db
    → 1 ≤ open_money b.id db
    → settle_checked actor b now db ≡ ok d
    → IsPaidOnce d
unfolding IsPaidOnce
settle_checked-IsPaidOnce actor b now db d inv unsettled h x =
    let rows = settle_rows actor b now db in
    let paid =
      pay_provider-payments b db.next_id
        (terms_net (payment_terms b db) (or_else b.agreed_amount 0)) rows x in
    let end = settle_checked-frame actor b now db d h in
    let payments_d : payments x d ≡ payments x (settle actor b now db) =
      ap (λ ts. count (pays_out x) ts + count (pays_back x) ts) end.0 in
    let open_d : open_money x d ≡ open_money x (settle actor b now db) =
      ap (count (is_open_money x)) end.1 in
    let payments_rows : payments x rows ≡ payments x db =
      ap (λ ts. count (pays_out x) ts + count (pays_back x) ts)
        (settle_rows-frame actor b now db).0 in
    let open_rows = settle_rows-open actor b now db x in
    elim (Bool-cases (b.id == x)) [
      | inl e ↦
          let same = sym (==→eq b.id x e) in
          let before = (inv x).1 (subst (λ y. 1 ≤ open_money y db) (sym same) unsettled) in
          let closed = open_rows.0 same in (ground (arith, e), ground (arith, e))
      | inr e ↦
          let kept = open_rows.1 (λ q. ground (arith, q, e)) in
          (ground (arith, inv x, e), ground (arith, inv x, e))
    ]

-- A settlement that succeeds keeps every booking paid once at most.
pub settle_completed_booking-IsPaidOnce :
    (booking : ℕ) (actor : Settler) (now : ℕ) (db d : Db)
    → IsPaidOnce db
    → settle_completed_booking booking actor now db ≡ ok d
    → IsPaidOnce d
settle_completed_booking-IsPaidOnce booking actor now db d inv h =
    elim (settlement_inversion booking actor now db d h) [
      | inl e ↦ subst IsPaidOnce (sym e.0) inv
      | inr (b, e, c, s) ↦
          let own = find-holds (λ y. y.id == booking) db.bookings b e in
          let same = ==→eq b.id booking own in
          settle_checked-IsPaidOnce actor b now db d inv
            (find-count (λ y. y.id == booking) (is_open_money b.id) db.bookings b e
              (check_settlement-open (is_by_admin actor) b c))
            s
    ]

pub pay_provider-rows :
    (b : Booking) (completed_id net : ℕ) (db : Db)
    → ((pay_provider b completed_id net db).bookings ≡ db.bookings)
      × ((pay_provider b completed_id net db).completed ≡ db.completed)
unfolding pay_provider
pay_provider-rows b completed_id net db = (ground arith, ground arith)

pub settle_checked-closed :
    (actor : Settler) (b : Booking) (now : ℕ) (db d : Db)
    → settle_checked actor b now db ≡ ok d
    → open_money b.id d ≡ 0
settle_checked-closed actor b now db d s =
    ap (count (is_open_money b.id)) (settle_checked-frame actor b now db d s).1
    ∙ (pay_provider-payments b db.next_id _ (settle_rows actor b now db) b.id).1
    ∙ (settle_rows-open actor b now db b.id).0 refl

pub check_settlement-unfinished :
    (admin : Bool) (b : Booking) → check_settlement admin b ≡ ok tt → is_completed b.status ≡ false
unfolding check_settlement
check_settlement-unfinished admin b h = ground arith

abbrev is_unfinished : ℕ → Booking → Bool
is_unfinished id b = b.id == id && not (is_completed b.status)

-- The booking that is found after a settlement is completed.
pub settled-completed :
    (booking : ℕ) (actor : Settler) (now : ℕ) (db d : Db) (b' : Booking)
    → settle_completed_booking booking actor now db ≡ ok d
    → find_booking booking d ≡ some b'
    → is_completed b'.status ≡ true
settled-completed booking actor now db d b' h e' =
    elim (settlement_inversion booking actor now db d h) [
      | inl (same, b, e, c, _) ↦
          let one : b ≡ b' = ground (arith, sym e ∙ sym (ap (find_booking booking) same) ∙ e') in
          subst (λ x. is_completed x.status ≡ true) one c
      | inr (b, e, c, s) ↦
          let own = ==→eq b.id booking (find-holds (λ y. y.id == booking) db.bookings b e) in
          let own' = find-holds (λ y. y.id == booking) d.bookings b' e' in
          let none_left =
            ap (count (is_unfinished b.id)) (settle_checked-frame actor b now db d s).1
            ∙ ap (count (is_unfinished b.id))
                (pay_provider-rows b db.next_id _ (settle_rows actor b now db)).0
            ∙ settle_rows-count (is_unfinished b.id) actor b now db (λ a o. refl)
            ∙ count-update_none (is_unfinished b.id) (λ y. y.id == b.id)
                (settle_booking (settlement_status b)) db.bookings (λ a k. ground arith)
                (λ a k. ground (arith, k)) in
          elim (Bool-cases (is_completed b'.status)) [
            | inl k ↦ k
            | inr k ↦
                let counted =
                  find-count (λ y. y.id == booking) (is_unfinished b.id) d.bookings b' e'
                    (ground (arith, own, own', k)) in
                absurd (omega (arith, none_left, counted))
          ]
    ]

-- After a settlement the booking that is found under its id takes no other.
settled_refuses :
    (booking : ℕ) (actor : Settler) (now : ℕ) (db d : Db) (admin : Bool) (b' : Booking)
    → settle_completed_booking booking actor now db ≡ ok d
    → find_booking booking d ≡ some b'
    → check_settlement admin b' ≡ ok tt
    → ⊥
settled_refuses booking actor now db d admin b' h e' c' =
    let unsettled = check_settlement-open admin b' c' in
    elim (settlement_inversion booking actor now db d h) [
      | inl (same, b, e, c, _) ↦
          let one : b ≡ b' = ground (arith, sym e ∙ sym (ap (find_booking booking) same) ∙ e') in
          ground (arith, unsettled, c, one)
      | inr (b, e, c, s) ↦
          let own = ==→eq b.id booking (find-holds (λ y. y.id == booking) db.bookings b e) in
          let own' = ==→eq b'.id booking (find-holds (λ y. y.id == booking) d.bookings b' e') in
          let none_open = settle_checked-closed actor b now db d s in
          let counted =
            find-count (λ y. y.id == booking) (is_open_money b.id) d.bookings b' e'
              (subst (λ i. is_open_money i b' ≡ true) (own' ∙ sym own) unsettled) in
          omega (arith, none_open, counted)
    ]

-- Once a settlement of the booking has succeeded, nobody settles it again: a later call that
-- succeeds, of the seeker or of an administrator, leaves the database as it is.
pub settle_completed_booking_once :
    (booking : ℕ) (actor actor' : Settler) (now later : ℕ) (db d d' : Db)
    → settle_completed_booking booking actor now db ≡ ok d
    → settle_completed_booking booking actor' later d ≡ ok d'
    → d' ≡ d
settle_completed_booking_once booking actor actor' now later db d d' h h' =
    elim (settlement_inversion booking actor' later d d' h') [
      | inl e ↦ e.0
      | inr (b', e', c', s') ↦
          absurd (settled_refuses booking actor now db d (is_by_admin actor') b' h e' c')
    ]
