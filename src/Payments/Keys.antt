-- ===== src/Payments/Keys.antt =====
-- services/payment-attempt.service.ts, finalizeSuccessfulPayment: which rows keep the booking of a
-- captured payment, or its entry of the queue, from being written, by the unique keys of
-- prisma/schema.prisma and prisma/migrations.
use servicehub_backend.Base.{
  ℕ, ◌+◌, ◌≡◌, refl, sym, ap, ◌⊎◌, inl, inr, Bool, true, ◌&&◌, ◌||◌, Option, none, some, List, [],
  ◌∷◌, arith, ◌==◌, is_some, Bool-cases, ==→eq, ==_refl, Any, Any-map, find, count,
}
use servicehub_backend.Schema.{
  repeats_key, booking_conflicts, entry_conflicts, Db, PaymentAttempt, Booking, QueueEntry,
  is_active_booking, is_waiting, is_serving,
}
use servicehub_backend.Payments.Capture.{Captured}
use servicehub_backend.Payments.Capture.Rows.{new_booking, paid_entry, next_place, repeats_keys}

-- A booking that stands in the way of a new one for the attempt: an active one of the same seeker
-- and listing, or one of the same offer, or of the attempt itself.
abbrev pub RepeatsBooking : PaymentAttempt → Booking → Type 0
RepeatsBooking a x =
    ((is_some a.service_id ≡ true)
      × (x.service_id ≡ a.service_id)
      × (x.seeker_id ≡ a.seeker_id)
      × (is_active_booking x.status ≡ true))
    ⊎ ((is_some a.offer_id ≡ true) × (x.offer_id ≡ a.offer_id))
    ⊎ (x.payment_attempt_id ≡ some a.id)

-- An entry that stands in the way of a new one: of the same offer, intent, payment or booking, or
-- at the place behind the provider's entries that are served or wait.
abbrev pub RepeatsEntry : Captured → PaymentAttempt → Db → QueueEntry → Type 0
RepeatsEntry p a db x =
    ((is_some a.offer_id ≡ true) × (x.offer_id ≡ a.offer_id))
    ⊎ (x.payment_id ≡ p.intent_id)
    ⊎ ((is_some p.payment_id ≡ true) × (x.paymongo_payment_id ≡ p.payment_id))
    ⊎ (x.booking_id ≡ some db.next_id)
    ⊎ ((x.provider_id ≡ a.provider_id)
        × (x.position
            ≡ count (λ q. q.provider_id == a.provider_id && is_serving q.status) db.queue
              + count (λ q. q.provider_id == a.provider_id && is_waiting q.status) db.queue
              + 1)
        × ((is_waiting x.status || is_serving x.status) ≡ true))

pub find-Any {ℓ} :
    {A : Type ℓ} (p : A → Bool) (xs : List A)
    → is_some (find p xs) ≡ true
    → Any (λ x. p x ≡ true) xs
find-Any p [] h = absurd (cc h)
find-Any p (x ∷ xs) h = elim (Bool-cases (p x)) [
  | inl c ↦ inl c
  | inr c ↦ inr (find-Any p xs (ground (arith, c, h)))
]

pub Any-find {ℓ} :
    {A : Type ℓ} (p : A → Bool) (xs : List A)
    → Any (λ x. p x ≡ true) xs
    → is_some (find p xs) ≡ true
Any-find p [] h = absurd h
Any-find p (x ∷ xs) (inl h) = ground (arith, h)
Any-find p (x ∷ xs) (inr h) = let k = Any-find p xs h in ground (arith, k)

pub repeats_key-same :
    (new old : Option ℕ) → repeats_key new old ≡ true → (is_some new ≡ true) × (old ≡ new)
repeats_key-same none old h = absurd (cc h)
repeats_key-same (some n) none h = absurd (cc h)
repeats_key-same (some n) (some m) h = (refl, ap some (sym (==→eq n m h)))

pub same-repeats_key :
    (new old : Option ℕ) → is_some new ≡ true → old ≡ new → repeats_key new old ≡ true
same-repeats_key none old h e = absurd (cc h)
same-repeats_key (some n) old h e = rw e (==_refl n)

module _ (p : Captured) (a : PaymentAttempt) (now : ℕ) (db : Db) where
  conflict-RepeatsBooking :
      (x : Booking) → booking_conflicts (new_booking a now db) x ≡ true → RepeatsBooking a x
  conflict-RepeatsBooking x h = ground (
    arith,
    h,
    repeats_key-same a.service_id x.service_id,
    repeats_key-same a.offer_id x.offer_id,
    repeats_key-same (some a.id) x.payment_attempt_id,
  )

  RepeatsBooking-conflict :
      (x : Booking) → RepeatsBooking a x → booking_conflicts (new_booking a now db) x ≡ true
  RepeatsBooking-conflict x (inl (listed, service, seeker, active)) =
      let key = same-repeats_key a.service_id x.service_id listed service in
      let same : (x.seeker_id == a.seeker_id) ≡ true = rw seeker (==_refl a.seeker_id) in
      ground (arith, key, same, active)
  RepeatsBooking-conflict x (inr (inl (offered, offer))) =
      let key = same-repeats_key a.offer_id x.offer_id offered offer in ground (arith, key)
  RepeatsBooking-conflict x (inr (inr own)) =
      let key = same-repeats_key (some a.id) x.payment_attempt_id refl own in ground (arith, key)

  abbrev new_entry : QueueEntry
  new_entry = paid_entry db.next_id (next_place a db) p a (new_booking a now db) now

  conflict-RepeatsEntry :
      (x : QueueEntry) → entry_conflicts new_entry x ≡ true → RepeatsEntry p a db x
  conflict-RepeatsEntry x h = ground (
    arith,
    h,
    repeats_key-same a.offer_id x.offer_id,
    repeats_key-same p.payment_id x.paymongo_payment_id,
    repeats_key-same (some db.next_id) x.booking_id,
    ==→eq x.provider_id a.provider_id,
    ==→eq x.position (next_place a db),
    ==→eq x.payment_id p.intent_id,
  )

  RepeatsEntry-conflict :
      (x : QueueEntry) → RepeatsEntry p a db x → entry_conflicts new_entry x ≡ true
  RepeatsEntry-conflict x (inl (offered, offer)) =
      let key = same-repeats_key a.offer_id x.offer_id offered offer in ground (arith, key)
  RepeatsEntry-conflict x (inr (inl intent)) =
      let same : (x.payment_id == p.intent_id) ≡ true = rw intent (==_refl p.intent_id) in
      ground (arith, same)
  RepeatsEntry-conflict x (inr (inr (inl (paid, payment)))) =
      let key = same-repeats_key p.payment_id x.paymongo_payment_id paid payment in
      ground (arith, key)
  RepeatsEntry-conflict x (inr (inr (inr (inl booking)))) =
      let key = same-repeats_key (some db.next_id) x.booking_id refl booking in ground (arith, key)
  RepeatsEntry-conflict x (inr (inr (inr (inr (provider, place, active))))) =
      let own : (x.provider_id == a.provider_id) ≡ true = rw provider (==_refl a.provider_id) in
      let here : (x.position == next_place a db) ≡ true = rw place (==_refl (next_place a db)) in
      ground (arith, own, here, active)

  pub repeats_keys-Any :
      repeats_keys p a now db ≡ true
      → Any (RepeatsBooking a) db.bookings ⊎ Any (RepeatsEntry p a db) db.queue
  repeats_keys-Any h =
      elim (Bool-cases (is_some (find (booking_conflicts (new_booking a now db)) db.bookings))) [
        | inl e ↦ inl (Any-map conflict-RepeatsBooking db.bookings (find-Any _ db.bookings e))
        | inr e ↦ inr (
            Any-map conflict-RepeatsEntry db.queue
              (find-Any (entry_conflicts new_entry) db.queue (ground (arith, e, h))))
      ]

  pub Any-repeats_keys :
      Any (RepeatsBooking a) db.bookings ⊎ Any (RepeatsEntry p a db) db.queue
      → repeats_keys p a now db ≡ true
  Any-repeats_keys (inl h) =
      let e =
        Any-find (booking_conflicts (new_booking a now db)) db.bookings
          (Any-map RepeatsBooking-conflict db.bookings h) in
      ground (arith, e)
  Any-repeats_keys (inr h) =
      let e =
        Any-find (entry_conflicts new_entry) db.queue (Any-map RepeatsEntry-conflict db.queue h) in
      ground (arith, e)
