-- ===== src/Agent/Message.antt =====
-- The message types of internal/manageragent/model.go and the check that every message of the model
-- passes (`validateModelMessage`).
pub mod Validity
use longhub_manager.Common.{
  ℕ, ◌+◌, ◌*◌, Bool, true, false, ◌&&◌, ◌||◌, not, List, [], ◌∷◌, Text, lit, text_eq, is_empty,
  length, ltb, leb, Result, ok, err, if◌then◌else◌,
}

-- `FunctionCall` is flattened into its call.
pub record ToolCall : Type 0 where
  pub id : Text
  pub type : Text
  pub name : Text
  pub arguments : Text

pub record Message : Type 0 where
  pub role : Text
  pub content : Text
  pub tool_call_id : Text
  pub tool_calls : List ToolCall
  pub response_items : List Text

-- `ToolDefinition` with its `ToolFunction` flattened; the parameter schema is its JSON.
pub record ToolDefinition : Type 0 where
  pub type : Text
  pub name : Text
  pub description : Text
  pub parameters : Text

-- A message with a role and a content alone.
abbrev pub plain : Text → Text → Message
plain role content = record {
  role = role;
  content = content;
  tool_call_id = [];
  tool_calls = [];
  response_items = [];
}

abbrev pub max_model_message_bytes : ℕ
max_model_message_bytes = 64 * 1024

abbrev pub max_responses_state_bytes : ℕ
max_responses_state_bytes = 256 * 1024

abbrev pub max_model_tool_calls : ℕ
max_model_tool_calls = 16

abbrev pub max_argument_bytes : ℕ
max_argument_bytes = 16 * 1024

-- The sum over `ResponseItems`.
unfoldable pub state_bytes : List Text → ℕ
state_bytes [] = 0
state_bytes (item ∷ items) = length item + state_bytes items

-- The first guard of the loop over the tool calls.
unfoldable pub malformed_call : ToolCall → Bool
malformed_call call =
    is_empty call.id
    || not (text_eq call.type (lit "function"))
    || is_empty call.name
    || ltb max_argument_bytes (length call.arguments)

-- The lookup in `callIDs`.
unfoldable pub seen_id : Text → List Text → Bool
seen_id id [] = false
seen_id id (x ∷ xs) = text_eq id x || seen_id id xs

-- The loop over the tool calls, with the ids seen so far.
unfoldable pub check_calls : List Text → List ToolCall → Result Text (Unit {0})
unfolding malformed_call seen_id
check_calls ids [] = ok tt
check_calls ids (call ∷ calls) =
    let rest = check_calls (call.id ∷ ids) calls in
    if malformed_call call
    then err (lit "管家模型返回了无效工具调用")
    else if seen_id call.id ids
    then err (lit "管家模型返回了重复工具调用")
    else rest

unfoldable pub validate_model_message : Message → Result Text Message
unfolding state_bytes check_calls
validate_model_message message =
    if not (text_eq message.role (lit "assistant"))
    then err (lit "管家模型返回了无效角色")
    else if ltb max_model_message_bytes (length message.content)
        || ltb max_model_tool_calls (length message.tool_calls)
        || ltb max_responses_state_bytes (state_bytes message.response_items)
    then err (lit "管家模型消息超过大小限制")
    else elim (check_calls [] message.tool_calls) [ ok _ ↦ ok message | err e ↦ err e ]
