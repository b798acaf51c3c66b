-- ===== src/Gateway/Scheduler/Removal.antt =====
-- When `RemoveScheduledTask` of internal/runtime/process_control.go deletes the task.
use longhub_manager.Common.{
  ◌≡◌, refl, ◌∙◌, ◌⊎◌, inl, inr, Bool, true, false, not, ◌&&◌, Option, none, some, Text, arith,
  if◌then◌else◌,
}
use longhub_manager.Gateway.Task.{
  is_longhub, TaskError, task_not_found, control_unavailable, task_inspection_failed,
  identity_mismatch, foreign_owner, operation_failed, invalid_command, context_done,
  other_task_error, TaskFormats, task_path_name,
}
use longhub_manager.Gateway.Scheduler.{
  Scheduler, Lifecycle, Inspection, inspect_ownership, Verdict, proceed, finished, refused, refusal,
  remove_verdict, deleted, carry_out_remove, remove_with, remove_scheduled_task,
}
use longhub_manager.Gateway.Scheduler.Knowledge.{
  IsTaskStore, IsOurs, IsKnown, inspect_ownership_lem,
}

module _ (t : TaskFormats) (s : Scheduler) (k : IsTaskStore s) where
  open s use {Env}

  Removes : Option Text → Verdict t s → Type 0
  Removes task proceed = (found : Text) × (task ≡ some found) × IsOurs t found
  Removes task finished = task ≡ none
  Removes task (refused e) = Unit {0}

  refusal-Removes : (task : Option Text) (e : TaskError) → Removes task (refusal t s e)
  unfolding Removes
  refusal-Removes task identity_mismatch = tt
  refusal-Removes task task_not_found = tt
  refusal-Removes task control_unavailable = tt
  refusal-Removes task task_inspection_failed = tt
  refusal-Removes task foreign_owner = tt
  refusal-Removes task operation_failed = tt
  refusal-Removes task invalid_command = tt
  refusal-Removes task context_done = tt
  refusal-Removes task (other_task_error x) = tt

  remove_proceeds :
      (i : Inspection) (task : Option Text) → IsKnown t i task → Removes task (remove_verdict t s i)
  unfolding Removes remove_verdict
  remove_proceeds i task known = go i.failure refl
    where
      mine :
          (b : Bool)
          → i.failure ≡ none
          → (is_longhub i.observation.ownership
              && i.observation.task_path_valid
              && i.observation.marker_valid
              && i.observation.action_valid)
            ≡ b
          → Removes task (if b then proceed else refused foreign_owner)
      mine true q p = known.ours q (ground (arith, p))
      mine false q p = tt

      present :
          (b : Bool)
          → i.failure ≡ none
          → i.observation.task_present ≡ b
          → Removes task (
              if not b
              then finished
              else if is_longhub i.observation.ownership
                  && i.observation.task_path_valid
                  && i.observation.marker_valid
                  && i.observation.action_valid
              then proceed
              else refused foreign_owner)
      present true q p = mine _ q refl
      present false q p = known.absent q p

      go : (o : Option TaskError) → i.failure ≡ o → Removes task (remove_verdict t s i)
      go none q = rw (q, remove_verdict) (present i.observation.task_present q refl)
      go (some e) q = rw (q, remove_verdict) (refusal-Removes task e)

  -- What `RemoveScheduledTask` may do to a task.
  abbrev pub RemoveEffect : Option Text → Option TaskError × Env → Type 0
  RemoveEffect before r =
      ((k.task r.1 ≡ before)
        ⊎ ((k.task r.1 ≡ none) × (found : Text) × (before ≡ some found) × IsOurs t found))
      × (r.0 ≡ none → k.task r.1 ≡ none)

  removed :
      (l : Lifecycle Env) (before : Option Text) (env : Env) (v : Verdict t s)
      → s.lifecycle ≡ some l
      → k.task env ≡ before
      → Removes before v
      → RemoveEffect before (carry_out_remove t s l v env)
  unfolding Removes carry_out_remove
  removed l before env finished there q missing = (inl q, λ h. q ∙ missing)
  removed l before env (refused e) there q d = (inl q, λ h. absurd (ground (arith, h)))
  removed l before env proceed there q ours =
      go (l.delete task_path_name env).0 (l.delete task_path_name env).1
        (k.delete_effect l env there) (λ h. k.delete_done l env there h)
    where
      go :
          (o : Option TaskError) (env' : Env)
          → (k.task env' ≡ k.task env) ⊎ (k.task env' ≡ none)
          → (o ≡ none → k.task env' ≡ none)
          → RemoveEffect before (deleted t s (o, env'))
      go (some e) env' effect done =
          unfold deleted in
          (
            elim effect [ inl x ↦ inl (x ∙ q) | inr x ↦ inr (x, ours.0, ours.1, ours.2) ],
            λ h. absurd (ground (arith, h)),
          )
      go none env' effect done =
          unfold deleted in (inr (done refl, ours.0, ours.1, ours.2), λ h. done refl)

  -- If the runner is as relied on (`IsTaskStore`): `RemoveScheduledTask` leaves the task as it is,
  -- or removes one that reads as the manager's own; and if it succeeds, no task is left.
  pub remove_scheduled_task_lem :
      (env : Env) → RemoveEffect (k.task env) (remove_scheduled_task t s env)
  unfolding remove_scheduled_task
  remove_scheduled_task_lem env = go s.lifecycle refl
    where
      go :
          (o : Option (Lifecycle Env))
          → s.lifecycle ≡ o
          → RemoveEffect (k.task env) (remove_scheduled_task t s env)
      go none q = rw (q, remove_scheduled_task) (inl refl, λ h. absurd (ground (arith, h)))
      go (some l) q =
          rw (q, remove_scheduled_task, remove_with)
            (let (known, same) = inspect_ownership_lem t s k env in
              removed l (k.task env) (inspect_ownership t s env).1
                (remove_verdict t s (inspect_ownership t s env).0) q same
                (remove_proceeds (inspect_ownership t s env).0 (k.task env) known))
