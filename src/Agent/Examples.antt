-- ===== src/Agent/Examples.antt =====
-- Runs of the agent over a scripted model, and the theorems at them.
use Prim.Native.String.{String}
use mathlib.Core.Path.{subst}
use longhub_manager.Common.{
  ℕ, ◌≤◌, ◌≡◌, refl, sym, Bool, true, false, ◌⊎◌, none, some, List, [], ◌∷◌, Text, lit, text_eq,
  length, take, Result, ok, err, arith, ◌↔◌, ◌++◌, valid_utf8, drop, ◌-◌, ◌<◌, is_blank, trim_space,
  pure, fail, ◌>>=◌, contains_byte,
}
use longhub_manager.Agent.Message.{ToolCall, Message, plain, validate_model_message}
use longhub_manager.Agent.Message.Validity.{IsModelMessage, validate_model_message_iff}
use longhub_manager.Agent.Session.{ToolSpec, Session, Ports}
use longhub_manager.Agent.Turn.{
  compact, truncate_result, truncation_note, emit, push, set_pending, outside, history, find_spec,
}
use longhub_manager.Agent.Rounds.{
  continue_locked, ask_model, process_calls, run_tool, refuse_call, request_approval, execute_tool,
  sanitize_agent_text, tool_result_content, touch,
}
use longhub_manager.Agent.Turn.Limits.{truncate_result_lem, compact_lem, NoUser, StartsWithUser}
use longhub_manager.Agent.Rounds.Transcript.{said, say, IsTranscript}
use longhub_manager.Agent.Rounds.Conversation.{IsReliable}
use longhub_manager.Agent.Rounds.Budget.{IsFree}
use longhub_manager.Agent.Engine.{
  open_session, new_session, prune, on_session, take_turn, run_turn, finish_turn, find_session,
  update_session, Engine, turn_with_events, resolve_approval,
}
use longhub_manager.Agent.Engine.Table.{Each}
use longhub_manager.Agent.Engine.Order.{
  turn_with_events-IsTranscript, resolve_approval-IsTranscript,
}
use longhub_manager.Agent.Engine.Approval.{
  asked, ran, traced, asks, Runs, IsApproved, turn_with_events-IsFree, resolve_approval-IsApproved,
}
use longhub_manager.Agent.Engine.Limits.{Fits, turn_with_events-Fits}

-- The model says what the script holds, if it is valid.
scripted_complete : List Message → Result Text Message × List Message
scripted_complete [] = (err (lit "no answer"), [])
scripted_complete (m ∷ script) = (validate_model_message m, script)

abbrev demo : Ports
demo = record {
  Env = List Message;
  Credentials = Unit {0};
  credentials = λ env. (ok tt, env);
  complete = λ c ms ts env. scripted_complete env;
  execute = λ name args env. ((lit "done", none), env);
  random_id = λ env. (ok (lit "id"), env);
  now = λ env. (7, env);
  context_error = λ env. none;
  is_object = λ args. text_eq args (lit "{}");
  replace_all = λ pattern replacement value. value;
}

demo_valid :
    (env : List Message) (m : Message) → (scripted_complete env).0 ≡ ok m → IsModelMessage m
unfolding scripted_complete
demo_valid [] m h = cc
demo_valid (n ∷ script) m h =
    let (valid, same) = (validate_model_message_iff n m).0 h in
    subst IsModelMessage (sym same) valid

demo-IsReliable : IsReliable demo
demo-IsReliable = record {
  complete_valid = λ c ms tools env m h. demo_valid env m h;
  random_total = λ env. (lit "id", refl);
}

abbrev spec_of : String → Bool → ToolSpec
spec_of name gated = record {
  definition = record {
    type = lit "function";
    name = lit name;
    description = [];
    parameters = lit "{}";
  };
  requires_approval = gated;
  approval_summary = lit name;
}

abbrev specs : List (Text × ToolSpec)
specs = (lit "status", spec_of "status" false) ∷ (lit "restart", spec_of "restart" true) ∷ []

abbrev call_of : String → String → ToolCall
call_of id name = record {
  id = lit id;
  type = lit "function";
  name = lit name;
  arguments = lit "{}";
}

abbrev says : String → List ToolCall → Message
says content calls = record (plain (lit "assistant") (lit content)) { tool_calls = calls }

-- The model looks at the status and asks for a restart; then it sums up.
abbrev script : List Message
script = says "" (call_of "a" "status" ∷ call_of "b" "restart" ∷ []) ∷ says "all well" [] ∷ []

abbrev start : Engine (List Message)
start = record { sessions = []; env = script; events = none }

abbrev traced_start : Engine (traced demo).Env
traced_start = record { sessions = []; env = (script, []); events = none }

-- A session that waits for an approval of the restart.
abbrev waiting : Session
waiting = record {
  messages = plain (lit "user") (lit "restart it") ∷ says "" (call_of "b" "restart" ∷ []) ∷ [];
  pending = some (record {
    approval = record {
      id = lit "id";
      tool = lit "restart";
      summary = lit "restart";
      args = lit "{}";
    };
    call = call_of "b" "restart";
    remaining = [];
  });
  updated = 7;
}

abbrev paused : Engine (List Message)
paused = record { sessions = (lit "s", waiting) ∷ []; env = says "done" [] ∷ []; events = none }

abbrev traced_paused : Engine (traced demo).Env
traced_paused = record {
  sessions = (lit "s", waiting) ∷ [];
  env = (says "done" [] ∷ [], []);
  events = none;
}

validate_model_message_iff_example :
    let m = says "hi" (call_of "a" "status" ∷ []) in
    (validate_model_message m ≡ ok m) ↔ (IsModelMessage m × (m ≡ m))
validate_model_message_iff_example =
    let m = says "hi" (call_of "a" "status" ∷ []) in validate_model_message_iff m m

turn_with_events-IsTranscript_example :
    Each IsTranscript (turn_with_events demo specs [] [] (lit "status?") start).1.sessions
turn_with_events-IsTranscript_example =
    turn_with_events-IsTranscript demo specs [] demo-IsReliable [] (lit "status?") start tt

waiting-IsTranscript : IsTranscript waiting
unfolding said say lit text_eq
waiting-IsTranscript = refl

resolve_approval-IsTranscript_example :
    Each IsTranscript (resolve_approval demo specs [] (lit "s") (lit "id") true paused).1.sessions
resolve_approval-IsTranscript_example =
    resolve_approval-IsTranscript demo specs [] demo-IsReliable (lit "s") (lit "id") true paused
      (waiting-IsTranscript, tt)

turn_with_events-IsFree_example :
    let log = (turn_with_events (traced demo) specs [] [] (lit "status?") traced_start).1.env.1 in
    (asks log ≤ 13) × Runs (λ name args. IsFree specs name) log
turn_with_events-IsFree_example =
    turn_with_events-IsFree demo specs [] [] (lit "status?") traced_start refl

resolve_approval-IsApproved_example :
    let log =
      (resolve_approval (traced demo) specs [] (lit "s") (lit "id") true traced_paused).1.env.1 in
    (asks log ≤ 13)
    × Runs
        (λ name args.
          IsFree specs name
          ⊎ (◌≡◌ {A = Bool} true true × IsApproved traced_paused.sessions (lit "id") name args))
        log
resolve_approval-IsApproved_example =
    resolve_approval-IsApproved demo specs [] (lit "s") (lit "id") true traced_paused refl

turn_with_events-Fits_example :
    Fits (turn_with_events demo specs [] [] (lit "status?") start).1.sessions
turn_with_events-Fits_example =
    turn_with_events-Fits demo specs [] [] (lit "status?") start (omega arith)

truncate_result_lem_example :
    let s = lit "abc" in
    ((length s ≤ 32768) × (truncate_result s ≡ s))
    ⊎ ((n : ℕ) × (32768 < length s)
        × (n ≤ 32768)
        × (truncate_result s ≡ take n s ++ truncation_note)
        × (valid_utf8 (take n s) ≡ true)
        × ((k : ℕ) → k ≤ 32768 → valid_utf8 (take k s) ≡ true → k ≤ n))
truncate_result_lem_example = truncate_result_lem (lit "abc")

compact_lem_example :
    let ms = waiting.messages in
    ((length ms ≤ 80) × (compact ms ≡ ms))
    ⊎ (((80 < length ms) × NoUser (drop (length ms - 80) ms) × (compact ms ≡ ms))
        ⊎ ((k : ℕ) × (80 < length ms)
            × NoUser (take k (drop (length ms - 80) ms))
            × (compact ms ≡ drop k (drop (length ms - 80) ms))
            × StartsWithUser (compact ms)
            × (length (compact ms) ≤ 80)))
compact_lem_example = compact_lem waiting.messages

-- The first turn runs the status tool alone, asks the model once and stops for the approval.
turn_log :
    (turn_with_events (traced demo) specs [] [] (lit "status?") traced_start).1.env.1
    ≡ ran (lit "status") (lit "{}") ∷ asked ∷ []
unfolding turn_with_events open_session new_session prune on_session take_turn run_turn finish_turn
    continue_locked ask_model process_calls run_tool refuse_call request_approval execute_tool
    truncate_result sanitize_agent_text tool_result_content touch emit push set_pending outside
    history pure fail ◌>>=◌ trim_space is_blank lit text_eq contains_byte find_session
    update_session find_spec scripted_complete validate_model_message
turn_log = refl
