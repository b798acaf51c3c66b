-- ===== src/Gateway/OpenClaw/ReadOnly.antt =====
-- Which commands of OpenClaw the manager of internal/runtime/gateway.go runs without a confirmation.
use longhub_manager.Common.{
  ◌≡◌, refl, inl, inr, Bool, true, false, not, ◌&&◌, Option, none, some, List, [], ◌∷◌, Text,
  Result, ok, err, lit, if◌then◌else◌, Bool-cases, is_empty,
}
use longhub_manager.Gateway.Task.{TaskError, TaskObservation}
use longhub_manager.Gateway.Control.{
  GatewayObservation, Controller, Manager, LaunchHooks, inspect, inspected, classify_observation,
  classify_running, probe_scheduled_task_ownership, control,
}
use longhub_manager.Gateway.Confirmation.{control_unconfirmed}
use longhub_manager.Gateway.OpenClaw.{OutputFormats, Running, Runner, parse_gateway_running}
use longhub_manager.Gateway.OpenClaw.Commands.{
  resolved, find_open_claw, see_health, judge_status, see_status, see_version, see_found,
  see_gateway, parse_version, open_claw_controller, has_failed,
}

-- The arguments of a command that only reads.
pub data IsReadOnly : List Text → Type 0 where
  asks_version : IsReadOnly (lit "--version" ∷ [])
  asks_status : IsReadOnly (lit "gateway" ∷ lit "status" ∷ [])
  asks_health : IsReadOnly (lit "gateway" ∷ lit "health" ∷ [])

-- A property of the world that looking for the command, the probe of the task and the commands that
-- only read do not change.
pub record IsUntouched (r : Runner)
    (probe : Option (r.Env → Result TaskError TaskObservation × r.Env)) (P : r.Env → Type 0)
    : Type 0 where
  pub looks : (name : Text) (env : r.Env) → P env → P (r.look_path name env).1
  pub resolves :
      (resolve : r.Env → Result Text Text × r.Env) (env : r.Env)
      → r.resolve ≡ some resolve
      → P env
      → P (resolve env).1
  pub probes :
      (look : r.Env → Result TaskError TaskObservation × r.Env) (env : r.Env)
      → probe ≡ some look
      → P env
      → P (look env).1
  pub reads :
      (command : Text) (arguments : List Text) (env : r.Env)
      → IsReadOnly arguments
      → P env
      → P (r.run command arguments env).1

module _ (f : OutputFormats) (r : Runner)
    (probe : Option (r.Env → Result TaskError TaskObservation × r.Env)) (P : r.Env → Type 0)
    (u : IsUntouched r probe P) where
  open r use {Env}

  judged :
      (command version : Text) (running : Running) (failed : Bool) (env : Env)
      → P env
      → P (judge_status f r command version running failed env).1
  unfolding judge_status see_health
  judged command version running failed env p = elim (Bool-cases (failed && not running.1)) [
    | inl q ↦ rw q p
    | inr q ↦ elim (Bool-cases running.0) [
      | inl x ↦ rw (q, x) (u.reads command _ env asks_health p)
      | inr x ↦ rw (q, x) p
    ]
  ]

  found : (command : Result Text Text) (env : Env) → P env → P (see_found f r command env).1
  unfolding see_found see_version see_status
  found (err e) env p = p
  found (ok command) env p =
      let q = u.reads command (lit "--version" ∷ []) env asks_version p in
      let output = (r.run command (lit "--version" ∷ []) env).0 in
      let status =
        (r.run command (lit "gateway" ∷ lit "status" ∷ [])
          (r.run command (lit "--version" ∷ []) env).1).0 in
      elim (Bool-cases (has_failed output)) [
        | inl x ↦ rw x q
        | inr x ↦ elim (Bool-cases (is_empty (parse_version f r output.0))) [
          | inl y ↦ rw (x, y) q
          | inr y ↦
              rw (x, y)
                (judged command (parse_version f r output.0) (parse_gateway_running f status.0)
                  (has_failed status) _ (u.reads command _ _ asks_status q))
        ]
      ]

  resolve_kept :
      (o : Option (Env → Result Text Text × Env)) (e : Text) (env : Env)
      → r.resolve ≡ o
      → P env
      → P (resolved f r o e env).1
  unfolding resolved
  resolve_kept none e env q p = p
  resolve_kept (some resolve) e env q p = u.resolves resolve env q p

  find_kept : (env : Env) → P env → P (find_open_claw f r env).1
  unfolding find_open_claw
  find_kept env p = go (r.look_path (lit "openclaw") env).0 refl
    where
      go :
          (x : Result Text Text)
          → (r.look_path (lit "openclaw") env).0 ≡ x
          → P (find_open_claw f r env).1
      go (ok path) q = rw (q, find_open_claw) (u.looks _ env p)
      go (err e) q = rw (q, find_open_claw) (resolve_kept r.resolve e _ refl (u.looks _ env p))

  abbrev manager : Controller
  manager = open_claw_controller f r probe

  see_kept : (env : Env) → P env → P (see_gateway f r env).1
  unfolding see_gateway
  see_kept env p = found (find_open_claw f r env).0 _ (find_kept env p)

  probe_kept :
      (o : Option (Env → Result TaskError TaskObservation × Env)) (env : Env)
      → probe ≡ o
      → P env
      → P (probe_scheduled_task_ownership manager o env).1
  unfolding probe_scheduled_task_ownership
  probe_kept none env q p = p
  probe_kept (some look) env q p = u.probes look env q p

  observation_kept :
      (o : GatewayObservation) (m : Manager Env)
      → P m.env
      → P (classify_observation manager o m).1.env
  unfolding classify_observation classify_running
  observation_kept o m p = elim (Bool-cases o.installed) [
    | inr i ↦ rw i p
    | inl i ↦ elim (Bool-cases o.running_known) [
      | inr k ↦ rw (i, k) p
      | inl k ↦ elim (Bool-cases o.running) [
        | inr x ↦ rw (i, k, x) p
        | inl x ↦ elim (Bool-cases m.managed) [
          | inl g ↦ rw (i, k, x, g) p
          | inr g ↦ rw (i, k, x, g) (probe_kept probe m.env refl p)
        ]
      ]
    ]
  ]

  inspected_kept :
      (x : Result Text GatewayObservation) (m : Manager Env)
      → P m.env
      → P (inspected manager x m).1.env
  unfolding inspected
  inspected_kept (err e) m p = p
  inspected_kept (ok o) m p =
      observation_kept o (if o.running then m else record m { managed = false }) (same o.running)
    where
      same : (b : Bool) → P (if b then m else record m { managed = false }).env
      same true = p
      same false = p

  inspect_kept : (m : Manager Env) → P m.env → P (inspect manager m).1.env
  unfolding inspect
  inspect_kept m p = inspected_kept _ _ (see_kept m.env p)

  -- Whatever property of the world looking for the command, the probe of the task, `--version`,
  -- `gateway status` and `gateway health` do not change (`IsUntouched`): an action without a
  -- confirmation, on the controller over the command line, does not change it either.
  pub control_unconfirmed-IsUntouched :
      (action : Text) (hooks : LaunchHooks Env) (m : Manager Env)
      → P m.env
      → P (control (open_claw_controller f r probe) action false hooks m).1.env
  control_unconfirmed-IsUntouched action hooks m p =
      rw (control_unconfirmed manager action hooks m) (inspect_kept m p)
