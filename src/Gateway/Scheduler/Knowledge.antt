-- ===== src/Gateway/Scheduler/Knowledge.antt =====
-- What `InspectOwnership` of internal/runtime/process_control.go tells of the scheduled task.
use longhub_manager.Common.{
  ◌≡◌, refl, ap, ◌∙◌, ◌⊎◌, Bool, true, false, Option, none, some, Text, Result, ok, err, arith,
  text_eq,
}
use longhub_manager.Gateway.Task.{
  is_longhub, TaskError, task_not_found, control_unavailable, task_inspection_failed,
  identity_mismatch, foreign_owner, operation_failed, invalid_command, context_done,
  other_task_error, TaskDefinition, TaskFormats, task_path_name, owner_marker_text,
  windows_task_path_equal, valid_task_action, parse_scheduled_task_xml, is_ours,
}
use longhub_manager.Gateway.Scheduler.{
  Scheduler, Lifecycle, Inspection, unknown_task, unknown_with, query_failed, observed,
  judge_definition, judge_query, inspect_ownership,
}

-- The XML that the scheduler shows of the task, if it is registered, and what the runner's calls do
-- to it. A call that fails may have had its effect.
pub record IsTaskStore (s : Scheduler) : Type 0 where
  pub task : s.Env → Option Text
  pub query_keeps : (env : s.Env) → task (s.query task_path_name env).1 ≡ task env
  pub query_found :
      (env : s.Env) (xml : Text) → (s.query task_path_name env).0 ≡ ok xml → task env ≡ some xml
  pub query_missing :
      (env : s.Env) → (s.query task_path_name env).0 ≡ err task_not_found → task env ≡ none
  pub delete_effect :
      (l : Lifecycle s.Env) (env : s.Env)
      → s.lifecycle ≡ some l
      → (task (l.delete task_path_name env).1 ≡ task env)
        ⊎ (task (l.delete task_path_name env).1 ≡ none)
  pub delete_done :
      (l : Lifecycle s.Env) (env : s.Env)
      → s.lifecycle ≡ some l
      → (l.delete task_path_name env).0 ≡ none
      → task (l.delete task_path_name env).1 ≡ none

module _ (t : TaskFormats) where
  -- The XML reads as the manager's own task: its path, its marker and a valid action.
  pub record IsOurs (xml : Text) : Type 0 where
    pub definition : TaskDefinition
    pub parsed : parse_scheduled_task_xml t xml ≡ ok definition
    pub ours : is_ours t definition ≡ true

  -- What an inspection tells of the task.
  pub record IsKnown (i : Inspection) (task : Option Text) : Type 0 where
    pub ours :
        i.failure ≡ none
        → is_longhub i.observation.ownership ≡ true
        → (xml : Text) × (task ≡ some xml) × IsOurs xml
    pub absent : i.failure ≡ none → i.observation.task_present ≡ false → task ≡ none

  failed-IsKnown : (e : TaskError) (task : Option Text) → IsKnown (unknown_with e) task
  unfolding unknown_with
  failed-IsKnown e task = record {
    ours = λ h k. absurd (ground (arith, h));
    absent = λ h k. absurd (ground (arith, h));
  }

  query_failed-IsKnown :
      (e : TaskError) (task : Option Text)
      → (e ≡ task_not_found → task ≡ none)
      → IsKnown (query_failed e) task
  unfolding query_failed unknown_task
  query_failed-IsKnown task_not_found task q = record {
    ours = λ h k. absurd (ground (arith, k));
    absent = λ h k. q refl;
  }
  query_failed-IsKnown control_unavailable task q = record {
    ours = λ h k. absurd (ground (arith, h));
    absent = λ h k. absurd (ground (arith, h));
  }
  query_failed-IsKnown context_done task q = failed-IsKnown _ _
  query_failed-IsKnown task_inspection_failed task q = failed-IsKnown _ _
  query_failed-IsKnown identity_mismatch task q = failed-IsKnown _ _
  query_failed-IsKnown foreign_owner task q = failed-IsKnown _ _
  query_failed-IsKnown operation_failed task q = failed-IsKnown _ _
  query_failed-IsKnown invalid_command task q = failed-IsKnown _ _
  query_failed-IsKnown (other_task_error x) task q = failed-IsKnown _ _

  judge_definition-IsKnown :
      (xml : Text) (task : Option Text)
      → task ≡ some xml
      → (r : Result TaskError TaskDefinition) → parse_scheduled_task_xml t xml ≡ r
      → IsKnown (judge_definition t r) task
  unfolding judge_definition is_ours
  judge_definition-IsKnown xml task there (err e) q = failed-IsKnown task_inspection_failed task
  judge_definition-IsKnown xml task there (ok d) q =
      go (windows_task_path_equal t d.task_path task_path_name)
        (text_eq d.owner_marker owner_marker_text)
        (valid_task_action t d.action_command d.action_arguments) refl refl refl
    where
      go :
          (a b c : Bool)
          → windows_task_path_equal t d.task_path task_path_name ≡ a
          → text_eq d.owner_marker owner_marker_text ≡ b
          → valid_task_action t d.action_command d.action_arguments ≡ c
          → IsKnown (observed t a b c) task
      go true true true x y z = record {
        ours = λ h k.
            (xml, there, record { definition = d; parsed = q; ours = ground (arith, x, y, z) });
        absent = λ h k. absurd (ground (arith, k));
      }
      go false b c x y z = record {
        ours = λ h k. absurd (ground (arith, h));
        absent = λ h k. absurd (ground (arith, h));
      }
      go true false c x y z = record {
        ours = λ h k. absurd (ground (arith, h));
        absent = λ h k. absurd (ground (arith, h));
      }
      go true true false x y z = record {
        ours = λ h k. absurd (ground (arith, h));
        absent = λ h k. absurd (ground (arith, h));
      }

  module _ (s : Scheduler) (k : IsTaskStore s) where
    open s use {Env}

    judge_query-IsKnown :
        (env : Env) (r : Result TaskError Text)
        → (s.query task_path_name env).0 ≡ r
        → IsKnown (judge_query t r) (k.task env)
    unfolding judge_query
    judge_query-IsKnown env (err e) q =
        query_failed-IsKnown e (k.task env) (λ same. k.query_missing env (q ∙ ap (λ x. err x) same))
    judge_query-IsKnown env (ok xml) q =
        judge_definition-IsKnown xml (k.task env) (k.query_found env xml q) _ refl

    -- An inspection leaves the task and tells the truth of it.
    pub inspect_ownership_lem :
        (env : Env)
        → IsKnown (inspect_ownership t s env).0 (k.task env)
          × (k.task (inspect_ownership t s env).1 ≡ k.task env)
    unfolding inspect_ownership
    inspect_ownership_lem env = go (s.context_error env) refl
      where
        go :
            (o : Option TaskError)
            → s.context_error env ≡ o
            → IsKnown (inspect_ownership t s env).0 (k.task env)
              × (k.task (inspect_ownership t s env).1 ≡ k.task env)
        go (some e) q = rw (q, inspect_ownership) (failed-IsKnown e (k.task env), refl)
        go none q = rw (q, inspect_ownership) (judge_query-IsKnown env _ refl, k.query_keeps env)
