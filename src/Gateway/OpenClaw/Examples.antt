-- ===== src/Gateway/OpenClaw/Examples.antt =====
-- A runner whose world is the list of the arguments that it was called with.
use longhub_manager.Common.{false, Option, none, some, List, [], ◌∷◌, Text, Result, ok, lit, arith}
use longhub_manager.Gateway.Task.{TaskError, TaskObservation}
use longhub_manager.Gateway.Control.{Manager, LaunchHooks, control}
use longhub_manager.Gateway.OpenClaw.{OutputFormats, Runner}
use longhub_manager.Gateway.OpenClaw.Commands.{open_claw_controller}
use longhub_manager.Gateway.OpenClaw.ReadOnly.{
  IsReadOnly, IsUntouched, control_unconfirmed-IsUntouched,
}

abbrev formats : OutputFormats
formats = record {
  decode_object = λ s. none;
  to_lower = λ s. s;
  state_words = λ s. s ∷ [];
  find_version = λ s. some s;
}

abbrev runner : Runner
runner = record {
  Env = List (List Text);
  look_path = λ name log. (ok (lit "/usr/bin/openclaw"), log);
  resolve = none;
  run = λ command arguments log. ((lit "running", none), arguments ∷ log);
}

abbrev no_probe : Option (List (List Text) → Result TaskError TaskObservation × List (List Text))
no_probe = none

-- Every command so far only read.
data IsCalm : List (List Text) → Type 0 where
  calm_start : IsCalm []
  calm_read :
      (arguments : List Text) (log : List (List Text))
      → IsReadOnly arguments
      → IsCalm log
      → IsCalm (arguments ∷ log)

untouched : IsUntouched runner no_probe IsCalm
untouched = record {
  looks = λ name log p. p;
  resolves = λ resolve log h p. absurd (ground (arith, h));
  probes = λ look log h p. absurd (ground (arith, h));
  reads = λ command arguments log h p. calm_read arguments log h p;
}

abbrev idle : Manager (List (List Text))
idle = record { managed = false; env = [] }

abbrev no_hooks : LaunchHooks (List (List Text))
no_hooks = record { before = none; after_launch = none }

control_unconfirmed-IsUntouched_example :
    IsCalm
      (control
        (open_claw_controller formats runner no_probe)
        (lit "stop")
        false
        no_hooks
        idle).1.env
control_unconfirmed-IsUntouched_example =
    control_unconfirmed-IsUntouched formats runner no_probe IsCalm untouched (lit "stop") no_hooks
      idle calm_start
