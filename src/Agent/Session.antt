-- ===== src/Agent/Session.antt =====
-- The types of internal/manageragent/engine.go: tools, approvals, steps, responses, events and
-- sessions, and the outside world that an `Engine` is given.
use longhub_manager.Common.{ℕ, ◌*◌, Bool, Option, none, List, [], Text, Result}
use longhub_manager.Agent.Message.{ToolCall, Message, ToolDefinition}

-- The fields of `Definition` but the name stay in the definition.
pub record ToolSpec : Type 0 where
  pub definition : ToolDefinition
  pub requires_approval : Bool
  pub approval_summary : Text

pub record Approval : Type 0 where
  pub id : Text
  pub tool : Text
  pub summary : Text
  pub args : Text

pub record Step : Type 0 where
  pub tool : Text
  pub summary : Text
  pub success : Bool

pub record TurnResponse : Type 0 where
  pub session_id : Text
  pub reply : Text
  pub steps : List Step
  pub approval : Option Approval
  pub done : Bool

pub record TurnEvent : Type 0 where
  pub type : Text
  pub message : Text
  pub tool : Text
  pub summary : Text
  pub round : ℕ
  pub success : Option Bool

-- `pendingState`.
pub record Pending : Type 0 where
  pub approval : Approval
  pub call : ToolCall
  pub remaining : List ToolCall

-- `agentSession`; `updated` is in nanoseconds since 1970.
pub record Session : Type 0 where
  pub messages : List Message
  pub pending : Option Pending
  pub updated : ℕ

abbrev pub event : Text → TurnEvent
event type = record {
  type = type;
  message = [];
  tool = [];
  summary = [];
  round = 0;
  success = none;
}

-- The regular expressions of the redaction.
pub data Pattern : Type 0 where
  agent_secret agent_credential agent_windows_home agent_unix_home : Pattern

-- What an engine is given. `Env` is all that the calls below may read and change.
pub record Ports : Type 1 where
  pub Env : Type 0
  pub Credentials : Type 0
  -- `ConfigStore.Credentials`
  pub credentials : Env → Result Text Credentials × Env
  -- `ModelClient.Complete`
  pub complete : Credentials → List Message → List ToolDefinition → Env → Result Text Message × Env
  -- `ToolExecutor.Execute`: both the result and the error are kept
  pub execute : Text → Text → Env → (Text × Option Text) × Env
  -- `crypto/rand` printed in hexadecimal
  pub random_id : Env → Result Text Text × Env
  -- `time.Now().UnixNano()`
  pub now : Env → ℕ × Env
  -- `ctx.Err()`
  pub context_error : Env → Option Text
  -- the text is a JSON object
  pub is_object : Text → Bool
  -- `regexp.ReplaceAllString`: the expression, the replacement, the text
  pub replace_all : Pattern → Text → Text → Text

abbrev pub max_agent_rounds : ℕ
max_agent_rounds = 12

abbrev pub max_user_message_bytes : ℕ
max_user_message_bytes = 8 * 1024

abbrev pub max_tool_result_bytes : ℕ
max_tool_result_bytes = 32 * 1024

abbrev pub max_session_messages : ℕ
max_session_messages = 80

abbrev pub max_sessions : ℕ
max_sessions = 32

-- six hours in nanoseconds
abbrev pub session_ttl : ℕ
session_ttl = 6 * 3600 * 1000000000
