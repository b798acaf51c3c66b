-- ===== src/Gateway/Coherence.antt =====
-- What the statuses of internal/runtime/gateway.go say of the gateway.
use longhub_manager.Common.{
  ◌≡◌, refl, inl, inr, Bool, true, false, not, ◌&&◌, ◌||◌, Option, none, some, Text, Result, ok,
  err, lit, text_eq, if◌then◌else◌, Bool-cases, arith,
}
use longhub_manager.Gateway.Control.{
  GatewayState, GatewayStatus, GatewayObservation, Controller, Manager, LaunchHooks, Outcome,
  unavailable, unconfirmed, status_of, probe_scheduled_task_ownership, classify_running,
  classify_observation, inspected, inspect, conclude_action, perform, launch, refuse, control_start,
  control_stop, control_restart, control_action, control_inspected, control, not_installed,
  installed_stopped, running_external, running_managed, unknown_state,
}

-- The flags that a state stands for.
abbrev pub Flags : GatewayState → Bool → Bool → Bool → Type 0
Flags not_installed installed running managed = installed ≡ false
Flags installed_stopped installed running managed =
    (installed ≡ true) × (running ≡ false) × (managed ≡ false)
Flags running_external installed running managed =
    (installed ≡ true) × (running ≡ true) × (managed ≡ false)
Flags running_managed installed running managed =
    (installed ≡ true) × (running ≡ true) × (managed ≡ true)
Flags unknown_state installed running managed = (running ≡ false) × (managed ≡ false)

-- The flags are those of the state, and only a running gateway is managed.
abbrev pub IsCoherent : GatewayStatus → Type 0
IsCoherent s = Flags s.state s.installed s.running s.managed × (s.managed ≡ true → s.running ≡ true)

module _ (c : Controller) where
  open c use {Env}

  status-IsCoherent :
      (o : GatewayObservation) (state : GatewayState) (managed : Bool)
      → Flags state o.installed o.running (managed && o.running)
      → IsCoherent (status_of o state managed)
  unfolding status_of
  status-IsCoherent o state managed h = (h, λ e. ground (arith, e))

  running-IsCoherent :
      (o : GatewayObservation) (m : Manager Env)
      → o.installed ≡ true
      → o.running ≡ true
      → IsCoherent (classify_running c o m).0.0
  unfolding classify_running
  running-IsCoherent o m i r = go (probe_scheduled_task_ownership c c.probe m.env).0
    where
      go :
          (mine : Bool)
          → IsCoherent (status_of o (if mine then running_managed else running_external) mine)
      go true = status-IsCoherent o running_managed true (i, r, r)
      go false = status-IsCoherent o running_external false (i, r, refl)

  observation-IsCoherent :
      (o : GatewayObservation) (m : Manager Env) → IsCoherent (classify_observation c o m).0.0
  unfolding unconfirmed unavailable
  observation-IsCoherent o m = elim (Bool-cases o.installed) [
    | inr i ↦
        shown ((status_of o not_installed m.managed, none), m)
          (unfold classify_observation in rw i refl) (status-IsCoherent o not_installed m.managed i)
    | inl i ↦ elim (Bool-cases o.running_known) [
      | inr k ↦
          shown ((unconfirmed o, none), m) (unfold classify_observation in rw (i, k) refl)
            ((refl, refl), λ e. e)
      | inl k ↦ elim (Bool-cases o.running) [
        | inr r ↦
            shown ((status_of o installed_stopped m.managed, none), m)
              (unfold classify_observation in rw (i, k, r) refl)
              (status-IsCoherent o installed_stopped m.managed (i, r, ground (arith, r)))
        | inl r ↦ elim (Bool-cases m.managed) [
          | inl g ↦
              shown ((status_of o running_managed true, none), m)
                (unfold classify_observation in rw (i, k, r, g) refl)
                (status-IsCoherent o running_managed true (i, r, r))
          | inr g ↦
              shown (classify_running c o m) (unfold classify_observation in rw (i, k, r, g) refl)
                (running-IsCoherent o m i r)
        ]
      ]
    ]
  ]
    where
      shown :
          (out : Outcome × Manager Env)
          → classify_observation c o m ≡ out
          → IsCoherent out.0.0
          → IsCoherent (classify_observation c o m).0.0
      shown out e h = rw e h

  inspected-IsCoherent :
      (r : Result Text GatewayObservation) (m : Manager Env) → IsCoherent (inspected c r m).0.0
  unfolding inspected unavailable
  inspected-IsCoherent (err e) m = ((refl, refl), λ e. e)
  inspected-IsCoherent (ok o) m = observation-IsCoherent o _

  inspect-IsCoherent : (m : Manager Env) → IsCoherent (inspect c m).0.0
  unfolding inspect
  inspect-IsCoherent m =
      let (o, env') = c.inspect_gateway m.env in inspected-IsCoherent o (record m { env = env' })

  conclude-IsCoherent :
      (before : GatewayStatus) (managed : Bool) (e : Option Text) (m : Manager Env)
      → IsCoherent before
      → IsCoherent (conclude_action c before managed e m).0.0
  unfolding conclude_action
  conclude-IsCoherent before managed (some e) m h = h
  conclude-IsCoherent before managed none m h = inspect-IsCoherent (record m { managed = managed })

  perform-IsCoherent :
      (before : GatewayStatus) (managed : Bool) (f : Env → Option Text × Env) (m : Manager Env)
      → IsCoherent before
      → IsCoherent (perform c before managed f m).0.0
  unfolding perform
  perform-IsCoherent before managed f m h =
      let (failure, env') = f m.env in
      conclude-IsCoherent before managed failure (record m { env = env' }) h

  -- A test between two outcomes.
  either :
      (b : Bool) (x y : Outcome × Manager Env)
      → IsCoherent x.0.0
      → IsCoherent y.0.0
      → IsCoherent (if b then x else y).0.0
  either true x y h k = h
  either false x y h k = k

  start-IsCoherent :
      (before : GatewayStatus) (confirm : Bool) (hooks : LaunchHooks Env) (m : Manager Env)
      → IsCoherent before
      → IsCoherent (control_start c before confirm hooks m).0.0
  unfolding control_start refuse
  start-IsCoherent before confirm hooks m h = either (not before.installed) _ _ h (
      either before.running _ _ h (
        either (not confirm) _ _ h
          (perform-IsCoherent before true (launch c hooks c.start_gateway) m h)))

  stop-IsCoherent :
      (before : GatewayStatus) (confirm : Bool) (m : Manager Env)
      → IsCoherent before
      → IsCoherent (control_stop c before confirm m).0.0
  unfolding control_stop refuse
  stop-IsCoherent before confirm m h = either (not before.running) _ _ h (
      either (not before.managed && not confirm) _ _ h
        (either (not confirm) _ _ h (perform-IsCoherent before false c.stop_gateway m h)))

  restart-IsCoherent :
      (before : GatewayStatus) (confirm : Bool) (hooks : LaunchHooks Env) (m : Manager Env)
      → IsCoherent before
      → IsCoherent (control_restart c before confirm hooks m).0.0
  unfolding control_restart refuse
  restart-IsCoherent before confirm hooks m h = either (not before.installed) _ _ h (
      either (not confirm) _ _ (either (not before.managed && before.running) _ _ h h) (
        perform-IsCoherent before (before.managed || not before.running)
          (launch c hooks c.restart_gateway) m h))

  action-IsCoherent :
      (action : Text) (before : GatewayStatus) (confirm : Bool) (hooks : LaunchHooks Env)
      (m : Manager Env)
      → IsCoherent before
      → IsCoherent (control_action c action before confirm hooks m).0.0
  unfolding control_action refuse
  action-IsCoherent action before confirm hooks m h =
      either (text_eq action (lit "start")) _ _ (start-IsCoherent before confirm hooks m h) (
        either (text_eq action (lit "stop")) _ _ (stop-IsCoherent before confirm m h) (
          either (text_eq action (lit "restart")) _ _ (restart-IsCoherent before confirm hooks m h)
            h))

  control_inspected-IsCoherent :
      (action : Text) (confirm : Bool) (hooks : LaunchHooks Env) (o : Outcome) (m : Manager Env)
      → IsCoherent o.0
      → IsCoherent (control_inspected c action confirm hooks o m).0.0
  unfolding control_inspected refuse
  control_inspected-IsCoherent action confirm hooks (before, some e) m h = h
  control_inspected-IsCoherent action confirm hooks (before, none) m h =
      either _ _ _ h (action-IsCoherent action before confirm hooks m h)

  -- The status that an action gives back, with an error or without one, is coherent: its flags are
  -- those that its state stands for, and it calls the gateway managed only if it runs.
  pub control-IsCoherent :
      (action : Text) (confirm : Bool) (hooks : LaunchHooks Env) (m : Manager Env)
      → IsCoherent (control c action confirm hooks m).0.0
  unfolding control
  control-IsCoherent action confirm hooks m =
      control_inspected-IsCoherent action confirm hooks (inspect c m).0 (inspect c m).1
        (inspect-IsCoherent m)
