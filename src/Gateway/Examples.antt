-- ===== src/Gateway/Examples.antt =====
-- A controller whose world is whether the gateway runs.
use longhub_manager.Common.{◌≡◌, refl, Bool, true, false, none, some, Option, [], ok, lit, text_eq}
use longhub_manager.Gateway.Control.{
  GatewayObservation, Controller, Manager, LaunchHooks, healthy, inspect, control, inspected,
  classify_observation, status_of, control_inspected, control_action, control_start, launch,
  perform, conclude_action,
}
use longhub_manager.Gateway.Confirmation.{control_unconfirmed}
use longhub_manager.Gateway.Coherence.{IsCoherent, control-IsCoherent}
use longhub_manager.Gateway.Task.{TaskError, TaskFormats}
use longhub_manager.Gateway.Enrollment.{TaskLifecycle, enroll_scheduled_task, remove_scheduled_task}
use longhub_manager.Gateway.Enrollment.Confirmation.{enroll_and_remove_unconfirmed}

abbrev observation : Bool → GatewayObservation
observation running = record {
  installed = true;
  command = lit "openclaw";
  version = lit "2025.1.1";
  running = running;
  running_known = true;
  health = healthy;
  message = [];
}

abbrev controller : Controller
controller = record {
  Env = Bool;
  inspect_gateway = λ running. (ok (observation running), running);
  start_gateway = λ running. (none, true);
  stop_gateway = λ running. (none, false);
  restart_gateway = λ running. (none, true);
  probe = none;
}

abbrev stopped : Manager Bool
stopped = record { managed = false; env = false }

abbrev no_hooks : LaunchHooks Bool
no_hooks = record { before = none; after_launch = none }

started :
    (control controller (lit "start") true no_hooks stopped).1
    ≡ record { managed = true; env = true }
unfolding control inspect inspected classify_observation status_of control_inspected control_action
    control_start launch perform conclude_action lit text_eq
started = refl

control_unconfirmed_example :
    (control controller (lit "start") false no_hooks stopped).1 ≡ (inspect controller stopped).1
control_unconfirmed_example = control_unconfirmed controller (lit "start") no_hooks stopped

control-IsCoherent_example : IsCoherent (control controller (lit "start") true no_hooks stopped).0.0
control-IsCoherent_example = control-IsCoherent controller (lit "start") true no_hooks stopped

abbrev task_formats : TaskFormats
task_formats = record {
  decode_document = λ s. none;
  escape_text = λ s. some s;
  decode_utf16 = λ units. units;
  equal_fold = text_eq;
  to_lower = λ s. s;
}

-- A lifecycle that would start and stop the gateway.
abbrev eager : TaskLifecycle Bool
eager = record { ensure = λ command running. (none, true); remove = λ running. (none, false) }

abbrev no_error : Bool → Option TaskError
no_error running = none

enroll_and_remove_unconfirmed_example :
    ((enroll_scheduled_task task_formats controller
        (some eager)
        (lit "C:\\longhub-manager.exe")
        no_error
        false
        stopped).1
      ≡ (inspect controller stopped).1)
    × ((remove_scheduled_task task_formats controller
          (some eager)
          (lit "C:\\longhub-manager.exe")
          no_error
          false
          stopped).1
        ≡ (inspect controller stopped).1)
enroll_and_remove_unconfirmed_example =
    enroll_and_remove_unconfirmed task_formats controller (some eager)
      (lit "C:\\longhub-manager.exe") no_error stopped
