-- ===== src/Bookings/Completion/Payout.antt =====
-- What a settlement writes to the completed services and to the ledger
-- (settleCompletedBooking of services/bookings/completion.service.ts).
use servicehub_backend.Base.{
  ℕ, ◌≡◌, refl, ap, ◌∙◌, ◌≢◌, ◌⊎◌, is_some, inl, inr, Bool, true, false, none, some, arith, or_else,
  ok, insert,
}
use servicehub_backend.Schema.{
  Db, Booking, Transaction, TransactionType, LedgerKey, CompletedService, is_cash, is_completed,
  completed_of, find_booking, queue_of,
}
use servicehub_backend.Bookings.Completion.{
  Settler, is_by_admin, settle_rows, pay_provider, completed_row, settle_completed_booking,
  check_settlement, payment_terms, terms_net,
}
use servicehub_backend.Bookings.Completion.Ledger.{settle_rows-frame}
use servicehub_backend.Bookings.Completion.Settlement.{
  pay_provider-rows, settle_checked-frame, settlement_inversion, check_settlement-unfinished,
}

pay_provider-cash :
    (b : Booking) (completed_id net : ℕ) (db : Db)
    → is_cash b.payment_method ≡ true
    → (pay_provider b completed_id net db).transactions ≡ db.transactions
unfolding pay_provider
pay_provider-cash b completed_id net db h = ground arith

pay_provider-online :
    (b : Booking) (completed_id net : ℕ) (db : Db)
    → is_cash b.payment_method ≡ false
    → (t : Transaction) × ((pay_provider b completed_id net db).transactions
        ≡ insert t db.transactions)
      × (t.wallet_owner_id ≡ b.provider_id)
      × (t.amount ≡ net)
unfolding pay_provider
pay_provider-online b completed_id net db h = (
  record {
    id = db.next_id;
    wallet_owner_id = b.provider_id;
    type_ = TransactionType.earning;
    amount = net;
    related_booking_id = completed_id;
    paymongo_ref_id = none;
    key = LedgerKey.booking_completion b.id;
  },
  ground arith,
  refl,
  refl,
)

check_settlement-amount :
    (admin : Bool) (b : Booking)
    → check_settlement admin b ≡ ok tt
    → (b.agreed_amount ≡ some (or_else b.agreed_amount 0)) × (or_else b.agreed_amount 0 ≢ 0)
unfolding check_settlement
check_settlement-amount admin b h = (ground arith, λ e. ground (arith, e))

-- What a settlement that succeeds writes: nothing if the booking was already completed and has its
-- completed service; else the booking was not completed, and it writes one row of the
-- completed service for the agreed amount, which is not 0, and for an online booking one entry of
-- the ledger, which pays the provider what the row says. Cash leaves the ledger alone.
pub settle_completed_booking-ledger :
    (booking : ℕ) (actor : Settler) (now : ℕ) (db d : Db)
    → settle_completed_booking booking actor now db ≡ ok d
    → ((d ≡ db)
        × (b : Booking) × (find_booking booking db ≡ some b)
        × (is_completed b.status ≡ true)
        × (is_some (completed_of b.id db) ≡ true))
      ⊎ ((b : Booking) × (row : CompletedService) × (find_booking booking db ≡ some b)
          × (is_completed b.status ≡ false)
          × (d.completed ≡ insert row db.completed)
          × (b.agreed_amount ≡ some row.final_price)
          × (row.final_price ≢ 0)
          × (is_cash b.payment_method ≡ true
              → (d.transactions ≡ db.transactions)
                × (row.provider_net_amount ≡ some row.final_price))
          × (is_cash b.payment_method ≡ false
              → (t : Transaction) × (d.transactions ≡ insert t db.transactions)
                × (t.wallet_owner_id ≡ b.provider_id)
                × (row.provider_net_amount ≡ some t.amount)))
settle_completed_booking-ledger booking actor now db d h =
    elim (settlement_inversion booking actor now db d h) [
      | inl e ↦ inl e
      | inr (b, e, c, s) ↦
          let end = settle_checked-frame actor b now db d s in
          let terms = payment_terms b db in
          let net = terms_net terms (or_else b.agreed_amount 0) in
          let rows = settle_rows actor b now db in
          let kept = settle_rows-frame actor b now db in
          let amount = check_settlement-amount (is_by_admin actor) b c in
          inr (
            b,
            completed_row db.next_id b (queue_of b.id db) terms,
            e,
            check_settlement-unfinished (is_by_admin actor) b c,
            end.2 ∙ (pay_provider-rows b db.next_id net rows).1 ∙ kept.1,
            unfold completed_row in amount.0,
            unfold completed_row in amount.1,
            λ k. (
              end.0 ∙ pay_provider-cash b db.next_id net rows k ∙ kept.0,
              unfold completed_row in ground (arith, k),
            ),
            λ k.
                let paid = pay_provider-online b db.next_id net rows k in
                (
                  paid.0,
                  end.0 ∙ paid.1 ∙ ap (insert paid.0) kept.0,
                  paid.2,
                  unfold completed_row in ground (arith, paid.3),
                ),
          )
    ]
