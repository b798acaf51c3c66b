-- ===== src/Gateway/Enrollment/Confirmation.antt =====
-- The scheduled task is not touched without a confirmation (internal/runtime/gateway.go).
use longhub_manager.Common.{◌≡◌, refl, false, Option, none, some, Text}
use longhub_manager.Gateway.Task.{TaskError, TaskFormats}
use longhub_manager.Gateway.Control.{GatewayStatus, Controller, Manager, Outcome, inspect, refuse}
use longhub_manager.Gateway.Enrollment.{
  TaskLifecycle, confirmed_change, enroll_with, remove_with, enroll_scheduled_task,
  remove_scheduled_task,
}

module _ (t : TaskFormats) (c : Controller) (life : Option (TaskLifecycle c.Env)) (command : Text)
    (context_error : c.Env → Option TaskError) where
  open c use {Env}

  change_unconfirmed :
      (change : GatewayStatus → Manager Env → Outcome × Manager Env) (o : Outcome) (m : Manager Env)
      → (confirmed_change t c life command context_error false change o m).1 ≡ m
  unfolding confirmed_change refuse
  change_unconfirmed change (before, some e) m = refl
  change_unconfirmed change (before, none) m = refl

  -- Without a confirmation, `EnrollScheduledTask` and `RemoveScheduledTask` do nothing but inspect the
  -- gateway: neither calls the lifecycle of the task.
  pub enroll_and_remove_unconfirmed :
      (m : Manager Env)
      → ((enroll_scheduled_task t c life command context_error false m).1 ≡ (inspect c m).1)
        × ((remove_scheduled_task t c life command context_error false m).1 ≡ (inspect c m).1)
  unfolding enroll_scheduled_task remove_scheduled_task
  enroll_and_remove_unconfirmed m = (
    change_unconfirmed (λ before. enroll_with t c life command context_error before life)
        (inspect c m).0 (inspect c m).1,
    change_unconfirmed (λ before. remove_with t c life command context_error before life)
        (inspect c m).0 (inspect c m).1,
  )
