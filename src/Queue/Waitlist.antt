-- ===== src/Queue/Waitlist.antt =====
-- services/bookings/waitlist.service.ts, and what notifyWaitlistInTransaction
-- (services/queue.service.ts) does to the waitlist.
use servicehub_backend.Base.{
  ℕ, ◌≤◌, ◌<◌, ◌≡◌, ◌≢◌, inl, inr, Bool, true, false, ◌&&◌, none, some, List, [], ◌∷◌, arith, ltb,
  ◌==◌, refers, is_some, Bool-cases, Option-cases, Code, Result, ok, ◌>>=◌, ◌>>◌, http, require,
  reject, found, All, Any, Any-map, All-map, find, select, count, delete, insert, count-insert,
  find-none-count,
}
use servicehub_backend.Schema.{
  is_waiting, Db, QueueNotify, Notice, Service, User, Booking, is_listed, is_moderation_active,
  is_active_booking, find_user, fresh_id, notify,
}
use servicehub_backend.Policy.Accounts.{assert_distinct_accounts}
use servicehub_backend.Policy.Membership.{subscription_benefits}
use servicehub_backend.Providers.{assert_new_provider_business, new_business_tables}
use servicehub_backend.Queue.{waits_for, concerns, first_notify, earlier, notify_waitlist}

-- The provider row that the service includes; a service has one by its foreign key.
abbrev pub is_open_service : Service → User → Bool
is_open_service s p =
    is_listed s.status && s.is_available && p.is_active && is_moderation_active p.moderation

abbrev pub holds_booking : ℕ → ℕ → Booking → Bool
holds_booking seeker service b =
    b.seeker_id == seeker && refers b.service_id service && is_active_booking b.status

abbrev pub is_signed_up : ℕ → ℕ → QueueNotify → Bool
is_signed_up seeker service n = n.service_id == service && n.seeker_id == seeker

unfoldable pub join_waitlist : ℕ → ℕ → ℕ → Db → Result Db
join_waitlist service_id seeker now db = do
  service ← found (find (λ s. s.id == service_id) db.services) (http 404 Code.no_code)
  owner ← found (find_user service.provider_id db) (http 404 Code.no_code)
  require (is_open_service service owner) (http 404 Code.no_code)
  assert_distinct_accounts seeker service.provider_id
  db1 ← assert_new_provider_business service.provider_id now db
  reject (is_some (find (holds_booking seeker service_id) db1.bookings)) (http 400 Code.no_code)
  reject (is_some (find (is_signed_up seeker service_id) db1.queue_notify)) (http 409 Code.no_code)
  reject (ltb (count (waits_for service.provider_id) db1.queue) owner.online_queue_limit)
      (http 409 Code.queue_slot_available)
  ok (
      fresh_id (record db1 {
        queue_notify =
            insert
              (record {
                id = db1.next_id;
                service_id = service_id;
                seeker_id = seeker;
                requested_at = now;
              })
              db1.queue_notify;
      }))

-- A seeker who joins a waitlist is not the provider and has no active booking of the service,
-- the provider's queue was full, and the seeker stands on that list exactly once afterwards.
pub join_waitlist_full :
    (service_id seeker now : ℕ) (db db' : Db) (s : Service) (u : User)
    → find (λ x. x.id == service_id) db.services ≡ some s
    → find_user s.provider_id db ≡ some u
    → join_waitlist service_id seeker now db ≡ ok db'
    → (seeker ≢ s.provider_id)
      × (u.online_queue_limit ≤ count (waits_for s.provider_id) db'.queue)
      × (find (holds_booking seeker service_id) db'.bookings ≡ none)
      × (count (is_signed_up seeker service_id) db'.queue_notify ≡ 1)
unfolding join_waitlist assert_distinct_accounts
join_waitlist_full service_id seeker now db db' s u es eu h =
    let keeps = new_business_tables s.provider_id now db in
    (
      ground (arith, keeps),
      ground (arith, keeps),
      ground (arith, keeps),
      ground (
        arith,
        keeps,
        find-none-count (is_signed_up seeker service_id) db.queue_notify,
        count-insert (is_signed_up seeker service_id)
            (record {
              id = db.next_id;
              service_id = service_id;
              seeker_id = seeker;
              requested_at = now;
            })
            db.queue_notify,
      ),
    )

-- The row that is taken stands before all others.
first_notify_least :
    (xs : List QueueNotify) (n : QueueNotify)
    → first_notify xs ≡ some n
    → All (λ x. earlier n x ≡ true) xs
first_notify_least [] n h = tt
first_notify_least (x ∷ xs) n h = elim (Option-cases (first_notify xs)) [
  | inl e ↦ (ground arith, empty e)
  | inr (y, e) ↦ elim (Bool-cases (earlier x y)) [
    | inl c ↦ (ground arith, All-map (λ z k. ground arith) xs (first_notify_least xs y e))
    | inr c ↦ (ground arith, first_notify_least xs n (ground arith))
  ]
]
  where
    empty : first_notify xs ≡ none → All (λ z. earlier n z ≡ true) xs
    empty e = only xs e
      where
        only : (ys : List QueueNotify) → first_notify ys ≡ none → All (λ z. earlier n z ≡ true) ys
        only [] q = tt
        only (y ∷ ys) q = absurd (ground arith)

first_notify_there :
    (xs : List QueueNotify) (n : QueueNotify) → first_notify xs ≡ some n → Any (λ m. m ≡ n) xs
first_notify_there [] n h = absurd (ground arith)
first_notify_there (x ∷ xs) n h = elim (Option-cases (first_notify xs)) [
  | inl e ↦ inl (ground arith)
  | inr (y, e) ↦ elim (Bool-cases (earlier x y)) [
    | inl c ↦ inl (ground arith)
    | inr c ↦ inr (first_notify_there xs n (ground arith))
  ]
]

earlier_order :
    (n x : QueueNotify)
    → earlier n x ≡ true
    → (n.requested_at ≤ x.requested_at) × (n.requested_at ≡ x.requested_at → n.id ≤ x.id)
earlier_order n x h = (ground arith, λ e. ground arith)

-- When a seeker of the waitlist is told of a place, the provider exists and has a running
-- membership, and fewer entries wait in the queue than its limit; one of the rows for services of
-- the provider is the seeker's, was made before all others of them, or at the same time with the
-- least id, and the row with its id is deleted as the notification is stored. When nobody is told,
-- the database is unchanged.
pub notify_waitlist_fair :
    (provider now : ℕ) (db : Db)
    → ((notify_waitlist provider now db).0 ≡ none → (notify_waitlist provider now db).1 ≡ db)
      × ((seeker : ℕ)
          → (notify_waitlist provider now db).0 ≡ some seeker
          → let rows =
              select
                (λ n. elim (find (λ s. s.id == n.service_id) db.services) [
                  | none ↦ false
                  | some s ↦ s.provider_id == provider
                ])
                db.queue_notify in
            (u : User) × (find_user provider db ≡ some u)
            × ((subscription_benefits u.membership now).marketplace_access ≡ true)
            × (count (λ q. q.provider_id == provider && is_waiting q.status) db.queue
                < u.online_queue_limit)
            × Any
                (λ n.
                  (n.seeker_id ≡ seeker)
                  × All
                      (λ x.
                        (n.requested_at ≤ x.requested_at)
                        × (n.requested_at ≡ x.requested_at → n.id ≤ x.id))
                      rows
                  × ((notify_waitlist provider now db).1
                      ≡ notify seeker Notice.slot_available (record db {
                        queue_notify = delete (λ x. x.id == n.id) db.queue_notify;
                      })))
                rows)
unfolding notify_waitlist
notify_waitlist_fair provider now db = (
  λ h. ground arith,
  λ seeker h. elim (Option-cases (find_user provider db)) [
    | inl e ↦ absurd (ground arith)
    | inr (u, e) ↦
        elim (Option-cases (first_notify (select (concerns provider db) db.queue_notify))) [
          | inl f ↦ absurd (ground arith)
          | inr (n, f) ↦
              let rows = select (concerns provider db) db.queue_notify in
              (
                u,
                e,
                ground arith,
                ground arith,
                Any-map
                    (λ m q. rw q (
                      ground arith,
                      All-map (λ x. earlier_order n x) rows (first_notify_least rows n f),
                      ground arith,
                    ))
                    rows (first_notify_there rows n f),
              )
        ]
  ],
)
