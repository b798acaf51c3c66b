-- ===== src/Gateway/Control.antt =====
-- `inspect` and `control` of `GatewayManager` in internal/runtime/gateway.go. The controller and the
-- ownership probe are the interfaces that the manager is given.
use longhub_manager.Common.{
  Bool, true, false, not, ◌&&◌, ◌||◌, Option, none, some, [], ◌++◌, Text, Result, ok, err, lit,
  text_eq, if◌then◌else◌,
}
use longhub_manager.Gateway.Task.{is_longhub, TaskError, TaskObservation}

pub data GatewayState : Type 0 where
  not_installed installed_stopped running_external running_managed unknown_state : GatewayState

pub data GatewayHealth : Type 0 where
  health_unknown healthy unhealthy : GatewayHealth

pub record GatewayStatus : Type 0 where
  pub state : GatewayState
  pub health : GatewayHealth
  pub installed : Bool
  pub running : Bool
  pub managed : Bool
  pub command : Text
  pub version : Text
  pub message : Text
  pub error_code : Text

pub record GatewayObservation : Type 0 where
  pub installed : Bool
  pub command : Text
  pub version : Text
  pub running : Bool
  pub running_known : Bool
  pub health : GatewayHealth
  pub message : Text

-- The errors of the file; those of others by their text.
pub data GatewayError : Type 0 where
  confirmation_required external_gateway gateway_not_installed inspection_failed : GatewayError
  action_failed unknown_action other_error : Text → GatewayError
  task_failed : TaskError → GatewayError

-- `GatewayController` and the ownership probe, which may be missing. `Env` is all that they may read
-- and change.
pub record Controller : Type 1 where
  pub Env : Type 0
  pub inspect_gateway : Env → Result Text GatewayObservation × Env
  pub start_gateway : Env → Option Text × Env
  pub stop_gateway : Env → Option Text × Env
  pub restart_gateway : Env → Option Text × Env
  pub probe : Option (Env → Result TaskError TaskObservation × Env)

-- The manager's flag `managed` and the world.
pub record Manager (Env : Type 0) : Type 0 where
  pub managed : Bool
  pub env : Env

-- `GatewayLaunchHooks`
pub record LaunchHooks (Env : Type 0) : Type 0 where
  pub before : Option (Env → Env)
  pub after_launch : Option (Bool → Env → Env)

abbrev is_unknown : GatewayState → Bool
is_unknown unknown_state = true
is_unknown _ = false

-- The two statuses that an inspection gives where it cannot tell.
unfoldable pub unavailable : GatewayStatus
unavailable = record {
  state = unknown_state;
  health = health_unknown;
  installed = false;
  running = false;
  managed = false;
  command = [];
  version = [];
  message = lit "无法读取 Gateway 状态";
  error_code = lit "GATEWAY_STATUS_UNAVAILABLE";
}

unfoldable pub unconfirmed : GatewayObservation → GatewayStatus
unfolding unavailable
unconfirmed o = record unavailable {
  installed = true;
  command = o.command;
  version = o.version;
  message = lit "无法确认 Gateway 是否运行";
}

unfoldable pub status_of : GatewayObservation → GatewayState → Bool → GatewayStatus
status_of o state managed = record {
  state = state;
  health = o.health;
  installed = o.installed;
  running = o.running;
  managed = managed && o.running;
  command = o.command;
  version = o.version;
  message = o.message;
  error_code = [];
}

-- A status with the error that is returned beside it.
abbrev pub Outcome : Type 0
Outcome = GatewayStatus × Option GatewayError

module _ (c : Controller) where
  open c use {Env}

  abbrev pub owned : Result TaskError TaskObservation → Bool
  owned (err _) = false
  owned (ok o) = is_longhub o.ownership && o.task_path_valid && o.marker_valid && o.action_valid

  -- `probeScheduledTaskOwnership`
  unfoldable pub probe_scheduled_task_ownership :
      Option (Env → Result TaskError TaskObservation × Env) → Env → Bool × Env
  probe_scheduled_task_ownership none env = (false, env)
  probe_scheduled_task_ownership (some probe) env = let (o, env') = probe env in (owned o, env')

  -- A running gateway that this process did not start: the probe decides.
  unfoldable pub classify_running : GatewayObservation → Manager Env → Outcome × Manager Env
  unfolding probe_scheduled_task_ownership status_of
  classify_running o m =
      let (mine, env') = probe_scheduled_task_ownership c.probe m.env in
      (
        (status_of o (if mine then running_managed else running_external) mine, none),
        record m { env = env' },
      )

  -- `inspect` from the observation on, with the flag as it is then.
  unfoldable pub classify_observation : GatewayObservation → Manager Env → Outcome × Manager Env
  unfolding classify_running unconfirmed status_of
  classify_observation o m =
      if not o.installed
      then ((status_of o not_installed m.managed, none), m)
      else if not o.running_known
      then ((unconfirmed o, none), m)
      else if o.running && m.managed
      then ((status_of o running_managed true, none), m)
      else if o.running
      then classify_running o m
      else ((status_of o installed_stopped m.managed, none), m)

  unfoldable pub inspected : Result Text GatewayObservation → Manager Env → Outcome × Manager Env
  unfolding classify_observation unavailable
  inspected (err e) m = ((unavailable, some (other_error e)), m)
  inspected (ok o) m =
      classify_observation o (if o.running then m else record m { managed = false })

  -- `inspect`
  unfoldable pub inspect : Manager Env → Outcome × Manager Env
  unfolding inspected
  inspect m = let (o, env') = c.inspect_gateway m.env in inspected o (record m { env = env' })

  abbrev run_hook : Option (Env → Env) → Env → Env
  run_hook none env = env
  run_hook (some hook) env = hook env

  abbrev run_finalizer : Option (Bool → Env → Env) → Bool → Env → Env
  run_finalizer none succeeded env = env
  run_finalizer (some finalize) succeeded env = finalize succeeded env

  abbrev succeeded : Option Text → Bool
  succeeded none = true
  succeeded (some _) = false

  -- A command between the hooks of a launch.
  unfoldable pub launch : LaunchHooks Env → (Env → Option Text × Env) → Env → Option Text × Env
  launch hooks command env =
      let (failure, env') = command (run_hook hooks.before env) in
      (failure, run_finalizer hooks.after_launch (succeeded failure) env')

  -- What follows a command: the flag is set and the gateway inspected again.
  unfoldable pub conclude_action :
      GatewayStatus → Bool → Option Text → Manager Env → Outcome × Manager Env
  unfolding inspect
  conclude_action before managed (some e) m = ((before, some (action_failed e)), m)
  conclude_action before managed none m = inspect (record m { managed = managed })

  unfoldable pub perform :
      GatewayStatus → Bool → (Env → Option Text × Env) → Manager Env → Outcome × Manager Env
  unfolding conclude_action
  perform before managed command m =
      let (failure, env') = command m.env in
      conclude_action before managed failure (record m { env = env' })

  unfoldable pub refuse : GatewayStatus → GatewayError → Manager Env → Outcome × Manager Env
  refuse before e m = ((before, some e), m)

  -- The three cases of the switch of `control`, and its default.
  unfoldable pub control_start :
      GatewayStatus → Bool → LaunchHooks Env → Manager Env → Outcome × Manager Env
  unfolding refuse
  control_start before confirm hooks m =
      if not before.installed
      then refuse before gateway_not_installed m
      else if before.running
      then ((before, none), m)
      else if not confirm
      then refuse before confirmation_required m
      else perform before true (launch hooks c.start_gateway) m

  unfoldable pub control_stop : GatewayStatus → Bool → Manager Env → Outcome × Manager Env
  unfolding refuse
  control_stop before confirm m =
      if not before.running
      then ((before, none), m)
      else if not before.managed && not confirm
      then refuse before external_gateway m
      else if not confirm
      then refuse before confirmation_required m
      else perform before false c.stop_gateway m

  unfoldable pub control_restart :
      GatewayStatus → Bool → LaunchHooks Env → Manager Env → Outcome × Manager Env
  unfolding refuse
  control_restart before confirm hooks m =
      if not before.installed
      then refuse before gateway_not_installed m
      else if not confirm
      then (if not before.managed && before.running
          then refuse before external_gateway m
          else refuse before confirmation_required m)
      else perform before (before.managed || not before.running) (launch hooks c.restart_gateway) m

  unfoldable pub control_action :
      Text → GatewayStatus → Bool → LaunchHooks Env → Manager Env → Outcome × Manager Env
  unfolding control_start control_stop control_restart refuse
  control_action action before confirm hooks m =
      if text_eq action (lit "start")
      then control_start before confirm hooks m
      else if text_eq action (lit "stop")
      then control_stop before confirm m
      else if text_eq action (lit "restart")
      then control_restart before confirm hooks m
      else refuse before (unknown_action (lit "不允许的 Gateway 管理动作: " ++ action)) m

  -- `control` from its first inspection on.
  unfoldable pub control_inspected :
      Text → Bool → LaunchHooks Env → Outcome → Manager Env → Outcome × Manager Env
  unfolding control_action refuse
  control_inspected action confirm hooks (before, some e) m = ((before, some e), m)
  control_inspected action confirm hooks (before, none) m =
      if is_unknown before.state
      then refuse before inspection_failed m
      else control_action action before confirm hooks m

  -- `control`
  unfoldable pub control : Text → Bool → LaunchHooks Env → Manager Env → Outcome × Manager Env
  unfolding inspect control_inspected
  control action confirm hooks m =
      let (outcome, m') = inspect m in control_inspected action confirm hooks outcome m'
