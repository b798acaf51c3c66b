-- ===== src/Gateway/Scheduler.antt =====
-- The controller of the scheduled task: `WindowsProcessController` of
-- internal/runtime/process_control.go.
pub mod Knowledge
pub mod Ensuring
pub mod Removal
mod Examples
use longhub_manager.Common.{
  Bool, true, false, not, ◌&&◌, ◌||◌, Option, none, some, [], Text, if◌then◌else◌, Result, ok, err,
  lit,
}
use longhub_manager.Gateway.Task.{
  Ownership, owned_unknown, owned_externally, owned_by_longhub, owned_unsupported, is_longhub,
  TaskObservation, TaskError, control_unavailable, task_not_found, task_inspection_failed,
  identity_mismatch, foreign_owner, operation_failed, context_done, TaskDefinition, TaskFormats,
  task_path_name, owner_marker_text, windows_task_path_equal, valid_task_action,
  parse_scheduled_task_xml, build_task_xml,
}
use longhub_manager.Common.{text_eq}

-- `ScheduledTaskLifecycleRunner` of one task path: its XML is registered, and it is deleted.
pub record Lifecycle (Env : Type 0) : Type 0 where
  pub register : Text → Text → Env → Option TaskError × Env
  pub delete : Text → Env → Option TaskError × Env

-- What a controller is given: the runner that queries, which may also change the task, and the error
-- of the context of a call, if it has ended.
pub record Scheduler : Type 1 where
  pub Env : Type 0
  pub context_error : Env → Option TaskError
  pub query : Text → Env → Result TaskError Text × Env
  pub lifecycle : Option (Lifecycle Env)

-- Go's `(ScheduledTaskObservation, error)`
pub record Inspection : Type 0 where
  pub observation : TaskObservation
  pub failure : Option TaskError

unfoldable pub unknown_task : Ownership → Text → TaskObservation
unknown_task ownership code = record {
  ownership = ownership;
  task_present = false;
  task_path_valid = false;
  marker_valid = false;
  action_valid = false;
  error_code = code;
}

abbrev pub inspection : TaskObservation → Option TaskError → Inspection
inspection o e = record { observation = o; failure = e }

unfoldable pub unknown_with : TaskError → Inspection
unfolding unknown_task
unknown_with e =
    inspection (unknown_task owned_unknown (lit "SCHEDULED_TASK_INSPECTION_FAILED")) (some e)

-- The cases of a query that failed
unfoldable pub query_failed : TaskError → Inspection
unfolding unknown_task unknown_with
query_failed task_not_found =
    inspection (unknown_task owned_externally (lit "SCHEDULED_TASK_NOT_FOUND")) none
query_failed control_unavailable =
    inspection (unknown_task owned_unsupported (lit "SCHEDULED_TASK_UNSUPPORTED"))
      (some control_unavailable)
query_failed context_done = unknown_with context_done
query_failed _ = unknown_with task_inspection_failed

module _ (t : TaskFormats) where
  abbrev pub observed : Bool → Bool → Bool → Inspection
  observed path_valid marker_valid action_valid =
      if not path_valid || not marker_valid || not action_valid
      then inspection
          (record {
            ownership = owned_unknown;
            task_present = true;
            task_path_valid = path_valid;
            marker_valid = marker_valid;
            action_valid = action_valid;
            error_code = lit "SCHEDULED_TASK_IDENTITY_MISMATCH";
          })
          (some identity_mismatch)
      else inspection
          (record {
            ownership = owned_by_longhub;
            task_present = true;
            task_path_valid = path_valid;
            marker_valid = marker_valid;
            action_valid = action_valid;
            error_code = [];
          })
          none

  -- What is said of a definition that was read
  unfoldable pub judge_definition : Result TaskError TaskDefinition → Inspection
  unfolding unknown_with
  judge_definition (err _) = unknown_with task_inspection_failed
  judge_definition (ok d) =
      observed (windows_task_path_equal t d.task_path task_path_name)
        (text_eq d.owner_marker owner_marker_text)
        (valid_task_action t d.action_command d.action_arguments)

  unfoldable pub judge_query : Result TaskError Text → Inspection
  unfolding query_failed judge_definition
  judge_query (err e) = query_failed e
  judge_query (ok xml) = judge_definition (parse_scheduled_task_xml t xml)

  module _ (s : Scheduler) where
    open s use {Env}

    -- `InspectOwnership`
    unfoldable pub inspect_ownership : Env → Inspection × Env
    unfolding judge_query unknown_with
    inspect_ownership env = elim (s.context_error env) [
      | some e ↦ (unknown_with e, env)
      | none ↦ let (xml, env') = s.query task_path_name env in (judge_query xml, env')
    ]

    -- The switches of the two operations on an inspection: whether to go on, and with what error or
    -- success to end.
    pub data Verdict : Type 0 where
      proceed finished : Verdict
      refused : TaskError → Verdict

    abbrev pub refusal : TaskError → Verdict
    refusal identity_mismatch = refused foreign_owner
    refusal e = refused e

    unfoldable pub ensure_verdict : Inspection → Verdict
    ensure_verdict i = elim i.failure [
      | some e ↦ refusal e
      | none ↦
          if is_longhub i.observation.ownership
          then finished
          else if not i.observation.task_present
          then proceed
          else refused foreign_owner
    ]

    unfoldable pub remove_verdict : Inspection → Verdict
    remove_verdict i = elim i.failure [
      | some e ↦ refusal e
      | none ↦
          if not i.observation.task_present
          then finished
          else if is_longhub i.observation.ownership
              && i.observation.task_path_valid
              && i.observation.marker_valid
              && i.observation.action_valid
          then proceed
          else refused foreign_owner
    ]

    -- The error that a failed operation of the runner becomes
    abbrev pub operation_error : TaskError → TaskError
    operation_error control_unavailable = control_unavailable
    operation_error _ = operation_failed

    abbrev pub proven : Inspection → Bool
    proven i = elim i.failure [ some _ ↦ false | none ↦ is_longhub i.observation.ownership ]

    unfoldable pub verify_registered : Env → Option TaskError × Env
    unfolding inspect_ownership
    verify_registered env =
        let (i, env') = inspect_ownership env in
        (if proven i then none else some operation_failed, env')

    unfoldable pub registered : Option TaskError × Env → Option TaskError × Env
    unfolding verify_registered
    registered (some e, env) = (some (operation_error e), env)
    registered (none, env) = verify_registered env

    unfoldable pub carry_out_ensure : Lifecycle Env → Text → Verdict → Env → Option TaskError × Env
    unfolding registered
    carry_out_ensure l xml finished env = (none, env)
    carry_out_ensure l xml (refused e) env = (some e, env)
    carry_out_ensure l xml proceed env = registered (l.register task_path_name xml env)

    -- `EnsureScheduledTask`
    unfoldable pub ensure_with :
        Lifecycle Env → Result TaskError Text → Env → Option TaskError × Env
    unfolding carry_out_ensure ensure_verdict inspect_ownership
    ensure_with l (err e) env = (some e, env)
    ensure_with l (ok xml) env =
        let (i, env') = inspect_ownership env in carry_out_ensure l xml (ensure_verdict i) env'

    unfoldable pub ensure_scheduled_task : Text → Env → Option TaskError × Env
    unfolding ensure_with
    ensure_scheduled_task command env = elim s.lifecycle [
      | none ↦ (some control_unavailable, env)
      | some l ↦ ensure_with l (build_task_xml t command) env
    ]

    unfoldable pub deleted : Option TaskError × Env → Option TaskError × Env
    deleted (some e, env) = (some (operation_error e), env)
    deleted (none, env) = (none, env)

    unfoldable pub carry_out_remove : Lifecycle Env → Verdict → Env → Option TaskError × Env
    unfolding deleted
    carry_out_remove l finished env = (none, env)
    carry_out_remove l (refused e) env = (some e, env)
    carry_out_remove l proceed env = deleted (l.delete task_path_name env)

    unfoldable pub remove_with : Lifecycle Env → Env → Option TaskError × Env
    unfolding carry_out_remove remove_verdict inspect_ownership
    remove_with l env =
        let (i, env') = inspect_ownership env in carry_out_remove l (remove_verdict i) env'

    -- `RemoveScheduledTask`
    unfoldable pub remove_scheduled_task : Env → Option TaskError × Env
    unfolding remove_with
    remove_scheduled_task env = elim s.lifecycle [
      | none ↦ (some control_unavailable, env)
      | some l ↦ remove_with l env
    ]
