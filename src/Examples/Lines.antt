-- ===== src/Examples/Lines.antt =====
-- The queue and the waitlist of the provider 2.
use servicehub_backend.Base.{
  ℕ, ◌+◌, ◌≤◌, ◌<◌, ◌≡◌, refl, ◌≢◌, ◌⊎◌, Bool, true, none, some, List, [], ◌∷◌, map, arith, ◌==◌,
  or_else, ok, value_of, ok_value, All, Any, sum, find, select, count, delete,
}
use servicehub_backend.Schema.{
  Db, User, QueueEntry, QueueStatus, PaymentStatus, Notice, notify, find_user, empty_db,
}
use servicehub_backend.Policy.Membership.{subscription_benefits, assert_membership_access}
use servicehub_backend.Policy.Accounts.{assert_distinct_accounts, assert_active_marketplace_account}
use servicehub_backend.Providers.{assert_new_provider_business, ensure_provider_trial}
use servicehub_backend.Queue.{
  included_booking, duration_of, cash_in_progress, waits_for, serves_for, recalculate_queue,
  notify_waitlist, concerns, duration_of, included_booking,
}
use servicehub_backend.Queue.Reindex.{Placed, find_entry}
use servicehub_backend.Queue.Order.{Ordered}
use servicehub_backend.Queue.Recalculate.{recalculate_queue-Placed}
use servicehub_backend.Queue.Waitlist.{
  join_waitlist, join_waitlist_full, notify_waitlist_fair, holds_booking, is_signed_up,
}
use servicehub_backend.Queue.Metrics.{
  get_next_queue_position, calculate_estimated_wait, is_in_line, next_position_last,
}
use servicehub_backend.Examples.Data.{members, the_entry, the_service, the_provider, accepted_job}

-- Two entries that wait, both at the position 1.
abbrev line : Db
line = record accepted_job {
  queue =
      the_entry 7 QueueStatus.waiting PaymentStatus.paid_held
      ∷ the_entry 8 QueueStatus.waiting PaymentStatus.paid_held
      ∷ [];
}

recalculate_queue-Placed_example :
    (es : List QueueEntry) × (start : ℕ) × (wait : ℕ) × Ordered es
    × ((q : QueueEntry → Bool) → count q es ≡ count q (select (waits_for 2) line.queue))
    × (find (serves_for 2) line.queue ≡ none
        → (start ≡ 1) × (wait ≡ or_else (duration_of (find (cash_in_progress 2) line.bookings)) 0))
    × ((s : QueueEntry)
        → find (serves_for 2) line.queue ≡ some s
        → (start ≡ 2)
          × (wait ≡ or_else (duration_of (included_booking line s)) 0)
          × (find_entry s.id (recalculate_queue 2 line)
              ≡ some (record s { position = 1; estimated_wait = 0 })))
    × Placed line start wait es (recalculate_queue 2 line)
recalculate_queue-Placed_example =
    recalculate_queue-Placed 2 line (((λ e. omega (arith, e)), tt), (tt, tt))

next_position_last_example :
    (((select (is_in_line 2) line.queue ≡ []) × (get_next_queue_position 2 line ≡ 1))
      ⊎ Any
          (λ e. get_next_queue_position 2 line ≡ e.position + 1)
          (select (is_in_line 2) line.queue))
    × All (λ e. e.position < get_next_queue_position 2 line) (select (is_in_line 2) line.queue)
    × (calculate_estimated_wait 2 (get_next_queue_position 2 line) line
        ≡ sum (
            map
              (λ e. or_else (duration_of (included_booking line e)) 60)
              (select (is_in_line 2) line.queue)))
next_position_last_example = next_position_last 2 line

-- Another seeker signs up while the one place of the queue is taken.
abbrev joined : Db
joined = value_of empty_db (join_waitlist 4 9 100 accepted_job)

joined_ok : join_waitlist 4 9 100 accepted_job ≡ ok joined
unfolding join_waitlist assert_distinct_accounts assert_new_provider_business ensure_provider_trial
    assert_active_marketplace_account subscription_benefits assert_membership_access
joined_ok = ok_value empty_db (join_waitlist 4 9 100 accepted_job) refl

join_waitlist_full_example :
    (◌≢◌ {A = ℕ} 9 2)
    × (1 ≤ count (waits_for 2) joined.queue)
    × (find (holds_booking 9 4) joined.bookings ≡ none)
    × (count (is_signed_up 9 4) joined.queue_notify ≡ 1)
join_waitlist_full_example =
    join_waitlist_full 4 9 100 accepted_job joined the_service the_provider refl refl joined_ok

abbrev free_place : Db
free_place = record members {
  queue_notify = record { id = 12; service_id = 4; seeker_id = 3; requested_at = 50 } ∷ [];
}

notify_waitlist_fair_example :
    ((notify_waitlist 2 100 free_place).0 ≡ none
      → (notify_waitlist 2 100 free_place).1 ≡ free_place)
    × ((seeker : ℕ)
        → (notify_waitlist 2 100 free_place).0 ≡ some seeker
        → (u : User) × (find_user 2 free_place ≡ some u)
          × ((subscription_benefits u.membership 100).marketplace_access ≡ true)
          × (count (waits_for 2) free_place.queue < u.online_queue_limit)
          × Any
              (λ n.
                (n.seeker_id ≡ seeker)
                × All
                    (λ x.
                      (n.requested_at ≤ x.requested_at)
                      × (n.requested_at ≡ x.requested_at → n.id ≤ x.id))
                    (select (concerns 2 free_place) free_place.queue_notify)
                × ((notify_waitlist 2 100 free_place).1
                    ≡ notify seeker Notice.slot_available (record free_place {
                      queue_notify = delete (λ x. x.id == n.id) free_place.queue_notify;
                    })))
              (select (concerns 2 free_place) free_place.queue_notify))
notify_waitlist_fair_example = notify_waitlist_fair 2 100 free_place
