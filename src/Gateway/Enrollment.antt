-- ===== src/Gateway/Enrollment.antt =====
-- The scheduled task as the gateway's manager shows and changes it: `ScheduledTaskStatus`,
-- `EnrollScheduledTask` and `RemoveScheduledTask` of internal/runtime/gateway.go.
pub mod Confirmation
use longhub_manager.Common.{
  ◌≡◌, refl, Bool, true, false, not, ◌&&◌, ◌||◌, Option, none, some, [], Text, if◌then◌else◌,
  Result, ok, err, lit, trim_space, arith,
}
use longhub_manager.Gateway.Task.{
  TaskError, control_unavailable, identity_mismatch, invalid_command, TaskObservation, TaskFormats,
  autostart_arguments, is_longhub, Ownership, owned_externally, valid_task_action,
}
use longhub_manager.Gateway.Control.{
  GatewayStatus, GatewayError, confirmation_required, gateway_not_installed, task_failed,
  Controller, Manager, Outcome, inspect, refuse,
}

pub data TaskState : Type 0 where
  task_unsupported not_enrolled enrolled conflict task_unavailable : TaskState

pub record TaskStatus : Type 0 where
  pub state : TaskState
  pub supported : Bool
  pub is_enrolled : Bool
  pub error_code : Text

unfoldable pub unsupported_status : TaskStatus
unsupported_status = record {
  state = task_unsupported;
  supported = false;
  is_enrolled = false;
  error_code = lit "SCHEDULED_TASK_LIFECYCLE_UNSUPPORTED";
}

unfoldable pub supported_status : TaskState → Bool → Text → TaskStatus
supported_status state present code = record {
  state = state;
  supported = true;
  is_enrolled = present;
  error_code = code;
}

abbrev unavailable_status : TaskStatus
unavailable_status =
    supported_status task_unavailable false (lit "SCHEDULED_TASK_STATUS_UNAVAILABLE")

abbrev is_external : Ownership → Bool
is_external owned_externally = true
is_external _ = false

-- The status that a probe's answer stands for
unfoldable pub status_of_probe : Result TaskError TaskObservation → TaskStatus
unfolding unsupported_status supported_status
status_of_probe (err control_unavailable) = unsupported_status
status_of_probe (err identity_mismatch) =
    supported_status conflict false (lit "SCHEDULED_TASK_FOREIGN_OWNER")
status_of_probe (err _) = unavailable_status
status_of_probe (ok o) =
    if is_longhub o.ownership
      && o.task_present
      && o.task_path_valid
      && o.marker_valid
      && o.action_valid
    then supported_status enrolled true []
    else if is_external o.ownership && not o.task_present
    then supported_status not_enrolled false []
    else unavailable_status

-- `ScheduledTaskLifecycle`
pub record TaskLifecycle (Env : Type 0) : Type 0 where
  pub ensure : Text → Env → Option TaskError × Env
  pub remove : Env → Option TaskError × Env

-- `absoluteGatewayTaskCommand`
unfoldable pub absolute_task_command : TaskFormats → Text → Result TaskError Text
absolute_task_command t command =
    if valid_task_action t (trim_space command) autostart_arguments
    then ok (trim_space command)
    else err invalid_command

-- The manager's controller, its lifecycle of the task, if it has one, the command that was captured
-- when it was made, and the error of a context that has ended.
module _ (t : TaskFormats) (c : Controller) (life : Option (TaskLifecycle c.Env)) (command : Text)
    (context_error : c.Env → Option TaskError) where
  open c use {Env}

  -- `ScheduledTaskStatus`
  unfoldable pub probe_status :
      Option (Env → Result TaskError TaskObservation × Env) → Env → TaskStatus × Env
  unfolding status_of_probe unsupported_status
  probe_status none env = (unsupported_status, env)
  probe_status (some probe) env = elim (context_error env) [
    | some _ ↦ (unavailable_status, env)
    | none ↦ let (o, env') = probe env in (status_of_probe o, env')
  ]

  unfoldable pub scheduled_task_status : Env → TaskStatus × Env
  unfolding probe_status
  scheduled_task_status env = probe_status c.probe env

  -- The end of both operations: another inspection, if the task was changed.
  unfoldable pub task_changed :
      GatewayStatus → Manager Env → Option TaskError × Env → Outcome × Manager Env
  unfolding refuse inspect
  task_changed before m (some e, env) = refuse c before (task_failed e) (record m { env = env })
  task_changed before m (none, env) = inspect c (record m { env = env })

  unfoldable pub enroll_with :
      GatewayStatus → Option (TaskLifecycle Env) → Manager Env → Outcome × Manager Env
  unfolding refuse task_changed absolute_task_command
  enroll_with before none m = refuse c before (task_failed control_unavailable) m
  enroll_with before (some l) m =
      if not before.installed
      then refuse c before gateway_not_installed m
      else elim (absolute_task_command t command) [
        | err e ↦ refuse c before (task_failed e) m
        | ok path ↦ task_changed before m (l.ensure path m.env)
      ]

  unfoldable pub remove_with :
      GatewayStatus → Option (TaskLifecycle Env) → Manager Env → Outcome × Manager Env
  unfolding refuse task_changed
  remove_with before none m = refuse c before (task_failed control_unavailable) m
  remove_with before (some l) m = task_changed before m (l.remove m.env)

  -- Both operations inspect first and need a confirmation.
  unfoldable pub confirmed_change :
      Bool
      → (GatewayStatus → Manager Env → Outcome × Manager Env)
      → Outcome
      → Manager Env
      → Outcome × Manager Env
  unfolding refuse
  confirmed_change confirm change (before, some e) m = ((before, some e), m)
  confirmed_change confirm change (before, none) m =
      if not confirm then refuse c before confirmation_required m else change before m

  -- `EnrollScheduledTask`
  unfoldable pub enroll_scheduled_task : Bool → Manager Env → Outcome × Manager Env
  unfolding confirmed_change enroll_with inspect
  enroll_scheduled_task confirm m =
      let (outcome, m') = inspect c m in
      confirmed_change confirm (λ before. enroll_with before life) outcome m'

  -- `RemoveScheduledTask`
  unfoldable pub remove_scheduled_task : Bool → Manager Env → Outcome × Manager Env
  unfolding confirmed_change remove_with inspect
  remove_scheduled_task confirm m =
      let (outcome, m') = inspect c m in
      confirmed_change confirm (λ before. remove_with before life) outcome m'
