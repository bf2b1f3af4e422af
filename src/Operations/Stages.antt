-- ===== src/Operations/Stages.antt =====
-- The stages of an administrator's decision (services/admin-resolution-operation.service.ts).
use servicehub_backend.Base.{
  ℕ, max, ◌≡◌, refl, inl, inr, true, false, ◌&&◌, ◌||◌, some, List, arith, ltb, ◌==◌, Bool-cases,
  ==_refl, ok, find, update, find-holds, find-update_hit,
}
use servicehub_backend.Schema.{Db, Operation, Stage, is_running}
use servicehub_backend.Operations.{
  rank, find_operation, is_final, advance, mark_admin_resolution_stage,
}

-- The operation that is found under the id after an update of a running row.
find-advance :
    (operation : ℕ) (stage : Stage) (o : Operation) (xs : List Operation)
    → find (λ x. x.id == operation) xs ≡ some o
    → is_running o.status ≡ true
    → find
        (λ x. x.id == operation)
        (update
          (λ x. x.id == operation && rank x.stage == rank o.stage && is_running x.status)
          (advance stage)
          xs)
      ≡ some (advance stage o)
find-advance operation stage o xs e r =
    find-update_hit (λ x. x.id == operation)
      (λ x. x.id == operation && rank x.stage == rank o.stage && is_running x.status)
      (advance stage) xs o (λ x. refl) e
      (ground (arith, find-holds (λ x. x.id == operation) xs o e, ==_refl (rank o.stage), r))

-- A stage that is marked never takes an operation back: whatever stage is asked for, the operation
-- afterwards stands at the greater of its own stage and the one asked for, unless it is final,
-- which no call changes. The row that is returned is the one that is stored.
pub mark_admin_resolution_stage_exact :
    (operation : ℕ) (stage : Stage) (db d : Db) (before after : Operation)
    → find_operation operation db ≡ some before
    → mark_admin_resolution_stage operation stage db ≡ ok (after, d)
    → (find_operation operation d ≡ some after)
      × (is_final before ≡ true → (after ≡ before) × (d ≡ db))
      × (is_final before ≡ false → rank after.stage ≡ max (rank before.stage) (rank stage))
unfolding mark_admin_resolution_stage is_final
mark_admin_resolution_stage_exact operation stage db d before after e h =
    elim (Bool-cases (is_final before || ltb (rank stage) (rank before.stage))) [
      | inl c ↦ (ground arith, λ f. (ground arith, ground arith), λ f. ground arith)
      | inr c ↦
          let found_after = find-advance operation stage before db.operations e (ground arith) in
          (ground arith, λ f. (ground arith, ground arith), λ f. ground arith)
    ]
