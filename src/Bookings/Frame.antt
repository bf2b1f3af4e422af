-- ===== src/Bookings/Frame.antt =====
-- What the shared writes of the booking services leave alone (services/bookings/lifecycle-events.ts,
-- services/booking-progress.service.ts): every table but their own.
use servicehub_backend.Base.{ℕ, ◌≡◌, refl, Option, none, some, List, [], ◌∷◌, arith, ok}
use servicehub_backend.Schema.{Db, Booking, ProgressKind, ActorRole, Notice, SystemText, notify}
use servicehub_backend.Bookings.{
  record_booking_progress, notify_all, send_system, record_lifecycle_notice,
}

pub record_booking_progress-frame :
    (booking : ℕ) (kind : ProgressKind) (role : ActorRole) (detail now : ℕ) (db : Db)
    → let d = record_booking_progress booking kind role detail now db in
      d ≡ record db { progress = d.progress }
unfolding record_booking_progress
record_booking_progress-frame booking kind role detail now db = ground arith

abbrev pub OnlyMessages : Db → Db → Type 0
OnlyMessages db d = d ≡ record db { notifications = d.notifications; messages = d.messages }

pub notify_all-frame : (ns : List (ℕ × Notice)) (db : Db) → OnlyMessages db (notify_all ns db)
notify_all-frame [] db = refl
notify_all-frame ((u, n) ∷ ns) db = ground (arith, notify_all-frame ns (notify u n db))

send_system-frame :
    (b : Booking) (s : Option (ℕ × SystemText)) (db : Db) → OnlyMessages db (send_system b s db)
send_system-frame b none db = refl
send_system-frame b (some (u, t)) db = refl

pub record_lifecycle_notice-frame :
    (b : Booking) (ns : List (ℕ × Notice)) (s : Option (ℕ × SystemText)) (db d : Db)
    → record_lifecycle_notice b ns s db ≡ ok d
    → OnlyMessages db d
unfolding record_lifecycle_notice
record_lifecycle_notice-frame b ns s db d h =
    ground (arith, notify_all-frame ns db, send_system-frame b s (notify_all ns db))
