-- ===== src/Gateway/Confirmation.antt =====
-- What `control` of internal/runtime/gateway.go never does unasked, and what it reports.
use longhub_manager.Common.{◌≡◌, refl, false, none, some, Text, arith}
use longhub_manager.Gateway.Control.{
  GatewayStatus, Controller, Manager, LaunchHooks, Outcome, inspect, refuse, control_start,
  control_stop, control_restart, control_action, control_inspected, control,
}

module _ (c : Controller) where
  open c use {Env}

  action_unconfirmed :
      (action : Text) (before : GatewayStatus) (hooks : LaunchHooks Env) (m : Manager Env)
      → (control_action c action before false hooks m).1 ≡ m
  unfolding control_action control_start control_stop control_restart refuse
  action_unconfirmed action before hooks m = ground arith

  inspected_unconfirmed :
      (action : Text) (hooks : LaunchHooks Env) (o : Outcome) (m : Manager Env)
      → (control_inspected c action false hooks o m).1 ≡ m
  unfolding control_inspected refuse
  inspected_unconfirmed action hooks (before, some e) m = refl
  inspected_unconfirmed action hooks (before, none) m =
      ground (arith, action_unconfirmed action before hooks m)

  -- Without a confirmation, whatever the action is, nothing but the inspection happens: no command
  -- and no hook runs, and the flag and the world are as a mere inspection leaves them.
  pub control_unconfirmed :
      (action : Text) (hooks : LaunchHooks Env) (m : Manager Env)
      → (control c action false hooks m).1 ≡ (inspect c m).1
  unfolding control
  control_unconfirmed action hooks m =
      inspected_unconfirmed action hooks (inspect c m).0 (inspect c m).1
