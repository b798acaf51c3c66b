-- ===== src/Gateway/OpenClaw/Commands.antt =====
-- The commands of `OpenClawGatewayController` in internal/runtime/gateway.go.
use longhub_manager.Common.{
  Bool, true, false, not, ◌&&◌, ◌||◌, Option, none, some, [], ◌∷◌, ◌++◌, Text, if◌then◌else◌,
  Result, ok, err, lit, is_empty,
}
use longhub_manager.Gateway.Task.{TaskError, TaskObservation}
use longhub_manager.Gateway.Control.{
  GatewayObservation, GatewayHealth, health_unknown, healthy, unhealthy, Controller,
}
use longhub_manager.Gateway.OpenClaw.{
  OutputFormats, Output, Running, Runner, parse_gateway_running, parse_gateway_health,
}

-- Go's `(GatewayObservation, error)`
pub record Seen : Type 0 where
  pub observation : GatewayObservation
  pub failure : Option Text

unfoldable pub nothing_seen : Bool → Text → Text → Text → GatewayObservation
nothing_seen installed command version message = record {
  installed = installed;
  command = command;
  version = version;
  running = false;
  running_known = false;
  health = health_unknown;
  message = message;
}

abbrev pub version_failed : Text → Text → Seen
version_failed command message = record {
  observation = nothing_seen true command [] message;
  failure = some (lit "gateway status is unavailable: version");
}

abbrev pub has_failed : Output → Bool
has_failed (_, none) = false
has_failed (_, some _) = true

module _ (f : OutputFormats) (r : Runner) where
  open r use {Env}

  -- `parseVersion`
  unfoldable pub parse_version : Text → Text
  parse_version output = elim (f.find_version output) [ none ↦ [] | some version ↦ version ]

  -- `findOpenClaw`
  unfoldable pub resolved :
      Option (Env → Result Text Text × Env) → Text → Env → Result Text Text × Env
  resolved none e env = (err e, env)
  resolved (some resolve) e env = resolve env

  unfoldable pub find_open_claw : Env → Result Text Text × Env
  unfolding resolved
  find_open_claw env =
      let (path, env') = r.look_path (lit "openclaw") env in
      elim path [ ok p ↦ (ok p, env') | err e ↦ resolved r.resolve e env' ]

  -- A gateway that runs, by the answer to `gateway health`
  unfoldable pub with_health : GatewayObservation → GatewayHealth × Bool → Bool → GatewayObservation
  with_health o (health, known) failed =
      if not known || failed
      then record o { message = lit "Gateway 正在运行，但健康状态暂不可确认" }
      else record o {
        health = health;
        message = elim health [
          | healthy ↦ lit "Gateway 正在运行且健康"
          | unhealthy ↦ lit "Gateway 正在运行但健康检查未通过"
          | health_unknown ↦ lit "Gateway 正在运行但健康检查未通过"
        ];
      }

  unfoldable pub see_health : GatewayObservation → Text → Env → Seen × Env
  unfolding with_health parse_gateway_health
  see_health o command env =
      let (output, env') = r.run command (lit "gateway" ∷ lit "health" ∷ []) env in
      (
        record {
          observation = with_health o (parse_gateway_health f output.0) (has_failed output);
          failure = none;
        },
        env',
      )

  abbrev status_seen : Text → Text → Running → GatewayObservation
  status_seen command version (running, known) = record {
    installed = true;
    command = command;
    version = version;
    running = running;
    running_known = known;
    health = health_unknown;
    message = lit "已发现原生 OpenClaw；Gateway 由公开 CLI 检查";
  }

  unfoldable pub judge_status : Text → Text → Running → Bool → Env → Seen × Env
  unfolding see_health nothing_seen
  judge_status command version running failed env =
      if failed && not running.1
      then (
        record {
          observation = nothing_seen true command version (lit "Gateway 状态检测失败");
          failure = some (lit "gateway status is unavailable: status");
        },
        env,
      )
      else if not running.0
      then (record { observation = status_seen command version running; failure = none }, env)
      else see_health (status_seen command version running) command env

  unfoldable pub see_status : Text → Text → Env → Seen × Env
  unfolding judge_status parse_gateway_running
  see_status command version env =
      let (output, env') = r.run command (lit "gateway" ∷ lit "status" ∷ []) env in
      judge_status command version (parse_gateway_running f output.0) (has_failed output) env'

  unfoldable pub see_version : Text → Env → Seen × Env
  unfolding see_status parse_version nothing_seen
  see_version command env =
      let (output, env') = r.run command (lit "--version" ∷ []) env in
      if has_failed output
      then (version_failed command (lit "OpenClaw 版本检测失败"), env')
      else if is_empty (parse_version output.0)
      then (version_failed command (lit "OpenClaw 版本输出无法识别"), env')
      else see_status command (parse_version output.0) env'

  -- `Inspect`
  unfoldable pub see_found : Result Text Text → Env → Seen × Env
  unfolding see_version nothing_seen
  see_found (err _) env = (
    record { observation = nothing_seen false [] [] (lit "未发现原生 OpenClaw"); failure = none },
    env,
  )
  see_found (ok command) env = see_version command env

  unfoldable pub see_gateway : Env → Seen × Env
  unfolding see_found find_open_claw
  see_gateway env = let (command, env') = find_open_claw env in see_found command env'

  abbrev action_error : Option Text → Option Text
  action_error none = none
  action_error (some e) = some (lit "gateway action failed: 命令返回错误: " ++ e)

  -- `action`
  unfoldable pub act_with : Text → Result Text Text → Env → Option Text × Env
  act_with action (err e) env = (some (lit "native OpenClaw is not installed: " ++ e), env)
  act_with action (ok command) env =
      let (output, env') = r.run command (lit "gateway" ∷ action ∷ []) env in
      (action_error output.1, env')

  unfoldable pub act : Text → Env → Option Text × Env
  unfolding act_with find_open_claw
  act action env = let (command, env') = find_open_claw env in act_with action command env'

  abbrev as_result : Seen → Result Text GatewayObservation
  as_result s = elim s.failure [ some e ↦ err e | none ↦ ok s.observation ]

  -- The controller that the manager is given: `Inspect`, `Start`, `Stop` and `Restart`.
  abbrev pub open_claw_controller :
      Option (Env → Result TaskError TaskObservation × Env) → Controller
  open_claw_controller probe = record {
    Env = Env;
    inspect_gateway = λ env. let (s, env') = see_gateway env in (as_result s, env');
    start_gateway = act (lit "start");
    stop_gateway = act (lit "stop");
    restart_gateway = act (lit "restart");
    probe = probe;
  }
