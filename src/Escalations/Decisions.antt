-- ===== src/Escalations/Decisions.antt =====
-- When a completion may be escalated, and what a decision on it must have reached before its case
-- is closed (services/completion-escalation.service.ts).
use servicehub_backend.Base.{
  ℕ, ◌+◌, ◌≤◌, ◌<◌, ◌≡◌, refl, sym, ap, subst, ◌⊎◌, inl, inr, Bool, true, false, ◌&&◌, Option, some,
  List, [], ◌∷◌, arith, ◌==◌, Bool-cases, Option-cases, ==→eq, Result, ok, ◌>>=◌, >>=-eq-ok, any,
  update, find-holds,
}
use servicehub_backend.Schema.{
  Db, Booking, BookingStatus, PaymentMethod, ProgressKind, CompletionEscalation, is_awaiting,
  is_cash, find_booking,
}
use servicehub_backend.Policy.Bookings.{
  ProgressMark, PreviousReview, completion_review_wait_ms, completion_review_availability,
  completion_review_waits, is_completion_mark,
}
use servicehub_backend.Trust.Bookings.{award_booking_completion_trust}
use servicehub_backend.Operations.{may_fail, fail, find_operation, mark_admin_resolution_failed}
use servicehub_backend.Escalations.{
  Action, find_escalation, previous_escalation, is_still_open, marks_of, review_of,
  escalation_available, is_available_at, create_completion_escalation, has_reached,
  is_completed_operation, close_escalation, complete, complete_operation, finalize_rows,
  outcome_number, finalize_escalation,
}

available_waits :
    (status : BookingStatus) (method : PaymentMethod) (updated : ℕ) (events : List ProgressMark)
    (previous : Option PreviousReview) (marked now : ℕ)
    → is_awaiting status ≡ true
    → is_cash method ≡ false
    → is_available_at now (completion_review_availability status method updated events previous)
      ≡ true
    → 0 < marked
    → any (λ x. is_completion_mark x.kind && x.occurred_at == marked) events ≡ true
    → marked + completion_review_wait_ms ≤ now
available_waits BookingStatus.awaiting_confirmation PaymentMethod.gcash updated events previous
      marked now s c h p m =
    elim (Option-cases (
      completion_review_availability BookingStatus.awaiting_confirmation PaymentMethod.gcash updated
        events previous)) [
          | inl e ↦ absurd (ground (arith, h, e))
          | inr (a, e) ↦
              let mark : ProgressMark = record {
                kind = ProgressKind.work_marked_complete;
                occurred_at = marked;
              } in
              let waits =
                (completion_review_waits events previous mark updated updated a p m e).0 in
              ground (arith, h, e, waits)
        ]
available_waits status method updated events previous marked now s c h p m = absurd (ground arith)

-- A provider who opens a review has waited: no mark of the completed work, however often it was
-- repeated, is younger than 72 hours.
pub create_completion_escalation_waits :
    (booking provider now marked : ℕ) (db d : Db)
    → create_completion_escalation booking provider now db ≡ ok d
    → is_still_open (previous_escalation booking db) ≡ false
    → 0 < marked
    → any (λ x. is_completion_mark x.kind && x.occurred_at == marked) (marks_of booking db) ≡ true
    → marked + completion_review_wait_ms ≤ now
unfolding create_completion_escalation
create_completion_escalation_waits booking provider now marked db d h o p m =
    elim (Option-cases (find_booking booking db)) [
      | inl e ↦ absurd (ground arith)
      | inr (b, e) ↦
          let available : escalation_available b now db ≡ true = ground arith in
          let awaiting : is_awaiting b.status ≡ true = ground arith in
          let online : is_cash b.payment_method ≡ false = ground arith in
          let own = ==→eq b.id booking (find-holds (λ y. y.id == booking) db.bookings b e) in
          available_waits b.status b.payment_method b.updated_at (marks_of b.id db)
            (review_of (previous_escalation b.id db)) marked now awaiting online available p
            (subst
              (λ i.
                any (λ x. is_completion_mark x.kind && x.occurred_at == marked) (marks_of i db)
                ≡ true)
              (sym own) m)
    ]

-- A second update that no row of the first one meets changes nothing.
update-update_apart {ℓ} :
    {A : Type ℓ} (p q : A → Bool) (f g : A → A) (xs : List A)
    → ((a : A) → p a ≡ true → q (f a) ≡ false)
    → ((a : A) → q a ≡ true → p a ≡ true)
    → update q g (update p f xs) ≡ update p f xs
update-update_apart p q f g [] h k = refl
update-update_apart p q f g (x ∷ xs) h k =
    ground (arith, h x, k x, update-update_apart p q f g xs h k)

complete_operation-final :
    (operation outcome message : ℕ) (db : Db)
    → let d = complete_operation operation outcome db in
      mark_admin_resolution_failed operation message d ≡ d
unfolding mark_admin_resolution_failed
complete_operation-final operation outcome message db =
    ap (λ os. record db { operations = os })
      (update-update_apart (λ o. o.id == operation) (may_fail operation) (complete outcome)
        (fail message) db.operations (λ a h. ground arith) (λ a h. ground arith))

-- A case is closed only on a booking that has reached the state that the decision promises, and
-- its operation is then final: a failure that is reported late changes nothing.
pub finalize_escalation_reached :
    (operation escalation admin : ℕ) (action : Action) (now : ℕ) (db d : Db)
    → finalize_escalation operation escalation admin action now db ≡ ok d
    → (d ≡ db)
      ⊎ ((e : CompletionEscalation) × (b : Booking) × (find_escalation escalation db ≡ some e)
          × (find_booking e.booking_id db ≡ some b)
          × (has_reached action b ≡ true)
          × ((message : ℕ) → mark_admin_resolution_failed operation message d ≡ d))
unfolding finalize_escalation
finalize_escalation_reached operation escalation admin action now db d h =
    elim (Option-cases (find_operation operation db)) [
      | inl e ↦ absurd (ground arith)
      | inr (o, e) ↦ elim (Bool-cases (is_completed_operation o)) [
        | inl c ↦ inl (ground arith)
        | inr c ↦ elim (Option-cases (find_escalation escalation db)) [
          | inl f ↦ absurd (ground arith)
          | inr (x, f) ↦ elim (Option-cases (find_booking x.booking_id db)) [
            | inl g ↦ absurd (ground arith)
            | inr (b, g) ↦
                let run : close_escalation x b operation admin action now db ≡ ok d =
                  ground arith in
                inr (x, b, f, g, ground arith, closed_final x b run)
          ]
        ]
      ]
    ]
  where
    closed_final :
        (x : CompletionEscalation) (b : Booking)
        → close_escalation x b operation admin action now db ≡ ok d
        → (message : ℕ) → mark_admin_resolution_failed operation message d ≡ d
    closed_final x b run message =
        let finish : Db → Result Db =
          λ e. ok (complete_operation operation (outcome_number action) e) in
        let ran : (award_booking_completion_trust x.booking_id now
                (finalize_rows x b admin action now db)
              >>= finish)
            ≡ ok d =
          unfold close_escalation in run in
        let step =
          >>=-eq-ok
            (award_booking_completion_trust x.booking_id now
              (finalize_rows x b admin action now db))
            finish ran in
        let last : complete_operation operation (outcome_number action) step.0 ≡ d =
          ground (arith, step.2) in
        subst (λ e. mark_admin_resolution_failed operation message e ≡ e) last
          (complete_operation-final operation (outcome_number action) message step.0)
