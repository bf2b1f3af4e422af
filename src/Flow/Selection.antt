-- ===== src/Flow/Selection.antt =====
-- The life of the offers of a request as a sequence of transactions: the handlers of src/services
-- that submit, reject and select offers, and those that prepare, fail, expire and finalize payments.
use servicehub_backend.Base.{ℕ, ◌≤◌, ◌≡◌, ap, Bool, Option, arith, ◌==◌, Result, ok, count}
use servicehub_backend.Schema.{Db, Booking, PaymentAttempt, JobLocation}
use servicehub_backend.Offers.{OfferParams, submit_offer, reject_offer}
use servicehub_backend.Offers.Selected.{open_requests, IsSelectedOnce, rewritten-IsSelectedOnce}
use servicehub_backend.Offers.Kept.{reject_offer-IsSelectedOnce}
use servicehub_backend.Offers.Submitted.{submit_offer-IsSelectedOnce}
use servicehub_backend.Payments.{mark_payment_attempt_failed, expire_attempt}
use servicehub_backend.Payments.Prepare.{PaymentParams, Target}
use servicehub_backend.Payments.Prepare.Create.{prepare_attempt}
use servicehub_backend.Payments.Capture.{Captured, Finalized}
use servicehub_backend.Payments.Capture.Finalize.{finalize_successful_payment}
use servicehub_backend.Payments.Gateway.{submit_attempt}
use servicehub_backend.Payments.Kept.{
  mark_payment_attempt_failed-IsSelectedOnce, expire_attempt-IsSelectedOnce,
  prepare_attempt-IsSelectedOnce,
}
use servicehub_backend.Payments.Captured.{finalize_successful_payment-IsSelectedOnce}
use servicehub_backend.Payments.Checkout.{submit_attempt-IsSelectedOnce}
use servicehub_backend.Bookings.Direct.Inquiries.{create_direct_from_offer}
use servicehub_backend.Bookings.Direct.Selected.{create_direct_from_offer-IsSelectedOnce}

-- One transaction that commits.
pub data Move : Db → Db → Type 0 where
  submits :
      (provider : ℕ) (p : OfferParams) (now : ℕ) {db d : Db} {id : ℕ}
      → submit_offer provider p now db ≡ ok (id, d)
      → Move db d
  rejects :
      (offer user : ℕ) {db d : Db} {changed : Bool}
      → reject_offer offer user db ≡ ok (changed, d)
      → Move db d
  prepares :
      (p : PaymentParams) (t : Target) (now : ℕ) {db d : Db} {a : PaymentAttempt} {reused : Bool}
      → prepare_attempt p t now db ≡ ok ((a, reused), d)
      → Move db d
  hands_over :
      (a : PaymentAttempt) (reply : Result (ℕ × Option ℕ)) {db : Db}
      → Move db (submit_attempt a db reply).0
  fails : (intent : ℕ) {db : Db} → Move db (mark_payment_attempt_failed intent db)
  expires : (id now : ℕ) {db : Db} → Move db (expire_attempt id now db).1
  captures :
      (p : Captured) (now : ℕ) {db d : Db} {f : Finalized}
      → finalize_successful_payment p now db ≡ ok (f, d)
      → Move db d
  takes_cash :
      (offer seeker : ℕ) (job : Option JobLocation) (now : ℕ) {db d : Db} {b : Booking}
      → create_direct_from_offer offer seeker job now db ≡ ok (b, d)
      → Move db d
  -- any other transaction that writes no offer and opens no request
  elsewhere :
      {db d : Db}
      → d.offers ≡ db.offers
      → ((x : ℕ) → open_requests x d ≤ open_requests x db)
      → db.next_id ≤ d.next_id
      → Move db d

-- Any number of transactions, one after the other.
pub data Moves : Db → Db → Type 0 where
  stop : {db : Db} → Moves db db
  next : {db d e : Db} → Move db d → Moves d e → Moves db e

elsewhere-IsSelectedOnce :
    (db d : Db)
    → d.offers ≡ db.offers
    → ((x : ℕ) → open_requests x d ≤ open_requests x db)
    → db.next_id ≤ d.next_id
    → IsSelectedOnce db
    → IsSelectedOnce d
elsewhere-IsSelectedOnce db d os opens n inv =
    rewritten-IsSelectedOnce db d inv (λ x. ground (arith, inv.once x, os))
      (λ x h. ground (arith, inv.free x, opens x, os, h)) (λ x. ap (count (λ y. y.id == x)) os) n

Move-IsSelectedOnce : (db d : Db) → Move db d → IsSelectedOnce db → IsSelectedOnce d
Move-IsSelectedOnce db d (Move.submits provider p now {id = id} h) inv =
    submit_offer-IsSelectedOnce provider p now db d id inv h
Move-IsSelectedOnce db d (Move.rejects offer user {changed = changed} h) inv =
    reject_offer-IsSelectedOnce offer user db d changed inv h
Move-IsSelectedOnce db d (Move.prepares p t now {a = a} {reused = reused} h) inv =
    prepare_attempt-IsSelectedOnce p t now db d a reused inv h
Move-IsSelectedOnce db d (Move.hands_over a reply) inv =
    submit_attempt-IsSelectedOnce a db reply inv
Move-IsSelectedOnce db d (Move.fails intent) inv =
    mark_payment_attempt_failed-IsSelectedOnce intent db inv
Move-IsSelectedOnce db d (Move.expires id now) inv = expire_attempt-IsSelectedOnce id now db inv
Move-IsSelectedOnce db d (Move.captures p now {f = f} h) inv =
    finalize_successful_payment-IsSelectedOnce p now db d f inv h
Move-IsSelectedOnce db d (Move.takes_cash offer seeker job now {b = b} h) inv =
    create_direct_from_offer-IsSelectedOnce offer seeker job now db d b inv h
Move-IsSelectedOnce db d (Move.elsewhere os opens n) inv =
    elsewhere-IsSelectedOnce db d os opens n inv

-- However offers are submitted, rejected and withdrawn, held for payments, taken for cash and paid
-- for, in any order and by whomever, and however payments fail, run out of time or are captured
-- late: of each request one offer at most is selected, which is to say held or accepted, and none
-- while the request is open, if this was so before. The ids of offers stay unique. Any other
-- transaction may come in between that writes no offer and opens no request.
pub Moves-IsSelectedOnce : (db d : Db) → Moves db d → IsSelectedOnce db → IsSelectedOnce d
Moves-IsSelectedOnce db d Moves.stop inv = inv
Moves-IsSelectedOnce db d (Moves.next {d = middle} step rest) inv =
    Moves-IsSelectedOnce middle d rest (Move-IsSelectedOnce db middle step inv)
