-- ===== src/Agent/Turn.antt =====
-- One turn over a locked session: `processCallsLocked`, `continueLocked`, `finalizeAtRoundLimit` and
-- what they call in internal/manageragent/engine.go.
pub mod Limits
use Prim.Native.String.{String}
use mathlib.Core.Option
use longhub_manager.Common.{
  ℕ, zero, suc, ◌+◌, ◌-◌, ◌/◌, ◌%◌, Bool, true, false, ◌&&◌, not, Option, none, some, List, [], ◌∷◌,
  ◌++◌, Text, lit, is_blank, trim_space, valid_utf8, text_eq, length, take, drop, ltb, leb, ◌==◌,
  if◌then◌else◌, Result, ok, err, Action, pure, fail, ◌>>=◌, ◌>>◌,
}
use longhub_manager.Agent.Message.{ToolCall, Message, ToolDefinition, plain}
use longhub_manager.Agent.Session.{
  ToolSpec, Approval, Step, TurnResponse, TurnEvent, Pending, Session, event, Pattern, agent_secret,
  agent_credential, agent_windows_home, agent_unix_home, Ports, max_agent_rounds,
  max_tool_result_bytes, max_session_messages,
}

-- What a turn works on: the session, the world, and what the event sink has received; a nil sink
-- is `none`.
pub record Run (Env : Type 0) : Type 0 where
  pub session : Session
  pub env : Env
  pub events : Option (List TurnEvent)

abbrev pub M : Type 0 → Type 0 → Type 0
M Env A = Action Text (Run Env) A

-- The messages from the first user message on.
unfoldable pub from_user : List Message → List Message
from_user [] = []
from_user (m ∷ ms) = if text_eq m.role (lit "user") then m ∷ ms else from_user ms

-- `compactLocked`.
unfoldable pub compact : List Message → List Message
unfolding from_user
compact messages =
    if leb (length messages) max_session_messages
    then messages
    else elim (from_user (drop (length messages - max_session_messages) messages)) [
      | [] ↦ messages
      | m ∷ ms ↦ m ∷ ms
    ]

-- The longest prefix of at most `n` bytes that is valid UTF-8.
unfoldable pub valid_end : Text → ℕ → ℕ
valid_end result zero = 0
valid_end result (suc n) = elim (valid_utf8 (take (suc n) result)) [
  | true ↦ suc n
  | false ↦ valid_end result n
]

abbrev pub truncation_note : Text
truncation_note = lit "\n[结果已由 LongHub 截断]"

unfoldable pub truncate_result : Text → Text
unfolding valid_end
truncate_result result =
    if ltb max_tool_result_bytes (length result)
    then take (valid_end result max_tool_result_bytes) result ++ truncation_note
    else result

-- The digits of `%d`; a number has at most as many as its value and one.
unfoldable pub decimal : ℕ → ℕ → Text → Text
decimal zero n digits = digits
decimal (suc f) n digits =
    let rest = decimal f (n / 10) ((b'0' + n % 10) ∷ digits) in
    if ltb n 10 then (b'0' + n) ∷ digits else rest

unfoldable pub failed_steps : List Step → ℕ
failed_steps [] = 0
failed_steps (step ∷ steps) = (if step.success then 0 else 1) + failed_steps steps

-- The reply at the round limit when the model gives none.
unfoldable pub limit_reply : List Step → Text
unfolding decimal failed_steps
limit_reply steps =
    let n = length steps in
    let failed = failed_steps steps in
    lit "本轮已完成 "
    ++ (decimal (suc n) n []
        ++ (lit " 项检查，并在安全预算处停止。"
            ++ ((if ltb 0 failed
                  then lit "其中 " ++ (decimal (suc failed) failed [] ++ lit " 项检查失败。")
                  else [])
                ++ lit "你可以让我继续检查未完成项。")))

-- A call by what the engine does with it.
pub data CallKind : Type 0 where
  unknown invalid : CallKind
  gated free : ToolSpec → CallKind

-- `e.specs[name]`.
unfoldable pub find_spec : Text → List (Text × ToolSpec) → Option ToolSpec
find_spec name [] = none
find_spec name ((key, spec) ∷ specs) = if text_eq name key then some spec else find_spec name specs

abbrev pub tool_message : ToolCall → Text → Message
tool_message call content = record (plain (lit "tool") content) { tool_call_id = call.id }

abbrev pub answered : Text → Text → List Step → TurnResponse
answered session_id reply steps = record {
  session_id = session_id;
  reply = reply;
  steps = steps;
  approval = none;
  done = true;
}

module _ {Env : Type 0} where
  unfoldable pub emit : TurnEvent → M Env (Unit {0})
  emit e r = (ok tt, record r { events = Option.map (λ sent. sent ++ e ∷ []) r.events })

  unfoldable pub push : Message → M Env (Unit {0})
  push m r =
      (ok tt, record r { session = record r.session { messages = r.session.messages ++ m ∷ [] } })

  unfoldable pub set_pending : Option Pending → M Env (Unit {0})
  set_pending o r = (ok tt, record r { session = record r.session { pending = o } })

  unfoldable pub compact_session : M Env (Unit {0})
  unfolding compact
  compact_session r =
      (ok tt, record r { session = record r.session { messages = compact r.session.messages } })

  unfoldable pub history : M Env (List Message)
  history r = (ok r.session.messages, r)

  -- A call of the outside world.
  unfoldable pub outside : {A : Type 0} → (Env → Result Text A × Env) → M Env A
  outside f r = let (a, env) = f r.env in (a, record r { env = env })

  -- An error becomes `none`.
  unfoldable pub attempt : {A : Type 0} → M Env A → M Env (Option A)
  attempt m r = let (a, r') = m r in (elim a [ ok x ↦ ok (some x) | err _ ↦ ok none ], r')
