-- ===== src/Agent/Rounds.antt =====
-- The loops of a turn: the calls of one message and the rounds with the model (`processCallsLocked`,
-- `continueLocked`, `finalizeAtRoundLimit` of internal/manageragent/engine.go).
pub mod Transcript
pub mod Conversation
pub mod Budget
use longhub_manager.Common.{
  ℕ, zero, suc, ◌+◌, ◌-◌, Bool, true, false, ◌&&◌, not, Option, none, some, List, [], ◌∷◌, ◌++◌,
  Text, lit, is_empty, is_blank, trim_space, if◌then◌else◌, Result, ok, err, pure, fail, ◌>>=◌,
  ◌>>◌,
}
use longhub_manager.Agent.Message.{ToolCall, Message, ToolDefinition, plain}
use longhub_manager.Agent.Session.{
  ToolSpec, Approval, Step, TurnResponse, Pending, event, agent_secret, agent_credential,
  agent_windows_home, agent_unix_home, Ports, max_agent_rounds,
}
use longhub_manager.Agent.Turn.{
  Run, M, truncate_result, limit_reply, CallKind, unknown, invalid, gated, free, find_spec,
  tool_message, answered, emit, push, set_pending, compact_session, history, outside, attempt,
}

abbrev pub progress : Text → List Step → TurnResponse
progress session_id steps = record (answered session_id [] steps) { done = false }

unfoldable pub system_prompt : Text
system_prompt =
    lit "你是 LongHub Manager 内置管家，独立于 OpenClaw Gateway 运行。\n"
    ++ (lit "你的职责是诊断、解释并通过提供的固定工具修复本机 OpenClaw。\n"
        ++ (lit "规则：\n"
            ++ (lit "1. 先检查再行动，不得声称执行了没有工具结果支持的操作。\n"
                ++ (lit "2. 每次只请求一个会修改系统的工具；写操作必须等待用户明确批准。\n"
                    ++ (lit "3. 用户拒绝后尊重拒绝，不得换一种写工具绕过。\n"
                        ++ (lit "4. 不索要或回显 API Key、Token、密码；不要输出本地绝对路径。\n"
                            ++ (lit "5. OpenClaw 未安装时先使用安装预检，再建议安装；配置异常时先诊断再修复。\n"
                                ++ (lit "6. 回答使用简洁中文，说明发现、行动结果和下一步。\n"
                                    ++ (lit "7. 多个互不依赖的只读检查应在同一轮同时请求，不要逐项串行调用。")))))))))

-- The instruction that ends the last round.
unfoldable pub budget_note : Text
budget_note = lit "本轮只读工具预算已用完。不得再调用工具；请立即基于已有工具结果给出简洁总结，说明已确认的问题、失败的检查和建议的下一步。"

module _ (p : Ports) (specs : List (Text × ToolSpec)) (tools : List ToolDefinition) where
  open p use {Env}

  unfoldable pub sanitize_agent_text : Text → Text
  sanitize_agent_text value =
      let v1 = p.replace_all agent_secret (lit "${1}[REDACTED]") value in
      let v2 = p.replace_all agent_credential (lit "[REDACTED]") v1 in
      let v3 = p.replace_all agent_windows_home (lit "~") v2 in
      p.replace_all agent_unix_home (lit "~") v3

  unfoldable pub tool_result_content : Text → Option Text → Text
  unfolding sanitize_agent_text
  tool_result_content result none = result
  tool_result_content result (some e) =
      let message = lit "工具执行失败：" ++ sanitize_agent_text e in
      if is_blank result then message else result ++ (lit "\n" ++ message)

  -- `session.updated.Store(e.now().UnixNano())`
  unfoldable pub touch : M Env (Unit {0})
  touch r =
      let (t, env) = p.now r.env in
      (ok tt, record r { session = record r.session { updated = t }; env = env })

  unfoldable pub execute_tool : ToolCall → M Env (Text × Option Text)
  execute_tool call r =
      let ((result, e), env) = p.execute call.name call.arguments r.env in
      (ok (truncate_result (sanitize_agent_text result), e), record r { env = env })

  -- Runs an allowed tool and answers its call: the same statements in `processCallsLocked` and, for
  -- an approved call, in `ResolveApprovalWithEvents`.
  unfoldable pub run_tool : ToolCall → Text → M Env Step
  run_tool call summary = do
    emit (record (event (lit "tool_started")) { tool = call.name; summary = summary })
    out ← execute_tool call
    let success : Bool = elim out.1 [ none ↦ true | some _ ↦ false ]
    emit (record (event (lit "tool_completed")) {
      tool = call.name;
      summary = summary;
      success = some success;
    })
    push (tool_message call (tool_result_content out.0 out.1))
    pure (record { tool = call.name; summary = summary; success = success })

  -- A call that is answered without running a tool.
  unfoldable pub refuse_call : ToolCall → Text → Text → Text → M Env Step
  refuse_call call content summary shown = do
    push (tool_message call content)
    emit (record (event (lit "tool_completed")) {
      tool = call.name;
      summary = shown;
      success = some false;
    })
    pure (record { tool = call.name; summary = summary; success = false })

  unfoldable pub classify : ToolCall → CallKind
  classify call = elim (find_spec call.name specs) [
    | none ↦ unknown
    | some spec ↦
        if not (p.is_object call.arguments)
        then invalid
        else if spec.requires_approval
        then gated spec
        else free spec
  ]

  -- The pause before a tool that changes the system.
  unfoldable pub request_approval :
      Text → ToolCall → ToolSpec → List ToolCall → List Step → M Env (TurnResponse × Bool)
  request_approval session_id call spec remaining steps = do
    id ← outside p.random_id
    let approval : Approval = record {
      id = id;
      tool = call.name;
      summary = spec.approval_summary;
      args = call.arguments;
    }
    set_pending (some (record { approval = approval; call = call; remaining = remaining }))
    emit (record (event (lit "approval_required")) {
      tool = call.name;
      summary = spec.approval_summary;
    })
    pure (record (progress session_id steps) { approval = some approval }, true)

  -- The body of the loop over the calls; `next` is the rest of the loop, from the steps so far.
  unfoldable pub handle_call :
      CallKind
      → Text
      → ToolCall
      → List ToolCall
      → List Step
      → (List Step → M Env (TurnResponse × Bool))
      → M Env (TurnResponse × Bool)
  handle_call unknown session_id call rest steps next = do
    step ← refuse_call call (lit "未知或未授权的工具。") (lit "拒绝未知工具") (lit "拒绝未授权工具")
    next (steps ++ step ∷ [])
  handle_call invalid session_id call rest steps next = do
    step ← refuse_call call (lit "工具参数不是有效 JSON。") (lit "参数无效") (lit "工具参数无效")
    next (steps ++ step ∷ [])
  handle_call (gated spec) session_id call rest steps next =
      request_approval session_id call spec rest steps
  handle_call (free spec) session_id call rest steps next = do
    step ← run_tool call spec.approval_summary
    next (steps ++ step ∷ [])

  -- `processCallsLocked`; the flag says that the turn waits for an approval.
  unfoldable pub process_calls : Text → List ToolCall → List Step → M Env (TurnResponse × Bool)
  unfolding handle_call classify
  process_calls session_id [] steps = pure (progress session_id steps, false)
  process_calls session_id (call ∷ rest) steps =
      handle_call (classify call) session_id call rest steps (process_calls session_id rest)

  -- An answer of the model ends the turn.
  unfoldable pub give_answer : Text → ℕ → Text → List Step → Text → M Env TurnResponse
  give_answer session_id round note steps content = do
    compact_session
    emit (record (event (lit "answer_started")) { round = round; message = note })
    pure (answered session_id content steps)

  -- The last summary counts only if it calls no tool and is not blank.
  unfoldable pub use_summary : List ToolCall → Text → List Step → Message → M Env TurnResponse
  use_summary [] session_id steps assistant = if is_blank assistant.content then fail [] else do
    push assistant
    touch
    give_answer session_id (max_agent_rounds + 1) (lit "正在生成检查总结") steps
        (trim_space assistant.content)
  use_summary (_ ∷ _) session_id steps assistant = fail []

  -- The last attempt to have the model sum up, without tools; any failure is an error.
  unfoldable pub final_answer : Text → List Step → M Env TurnResponse
  unfolding use_summary
  final_answer session_id steps = do
    credentials ← outside p.credentials
    messages ← history
    emit (record (event (lit "model_started")) {
      round = max_agent_rounds + 1;
      message = lit "正在汇总已有检查结果";
    })
    assistant ← outside (
        p.complete credentials
          (plain (lit "system") system_prompt ∷ (messages ++ plain (lit "system") budget_note ∷ []))
          [])
    use_summary assistant.tool_calls session_id steps assistant

  unfoldable pub check_context : M Env (Unit {0})
  check_context r = elim (p.context_error r.env) [ none ↦ (ok tt, r) | some e ↦ (err e, r) ]

  unfoldable pub finalize_at_round_limit : Text → List Step → M Env TurnResponse
  finalize_at_round_limit session_id steps = do
    check_context
    answer ← attempt (final_answer session_id steps)
    elim answer [
      | some response ↦ pure response
      | none ↦
          give_answer session_id (max_agent_rounds + 1) (lit "正在生成检查总结") steps (limit_reply steps)
    ]

  -- A round's question to the model.
  unfoldable pub ask_model : ℕ → M Env Message
  ask_model round = do
    credentials ← outside p.credentials
    messages ← history
    emit (record (event (lit "model_started")) { round = round; message = lit "正在分析当前信息" })
    assistant ←
        outside (p.complete credentials (plain (lit "system") system_prompt ∷ messages) tools)
    push assistant
    touch
    pure assistant

  -- A turn that waits for an approval ends; else `next` goes on from the steps so far.
  unfoldable pub unless_paused :
      TurnResponse × Bool → (List Step → M Env TurnResponse) → M Env TurnResponse
  unless_paused (response, true) next = pure response
  unless_paused (response, false) next = next response.steps

  -- What a round does with the model's message, by its calls; `next` is the next round.
  unfoldable pub follow_up :
      List ToolCall
      → ℕ
      → Text
      → List Step
      → Text
      → (List Step → M Env TurnResponse)
      → M Env TurnResponse
  follow_up [] round session_id steps content next =
      if is_blank content
      then fail (lit "管家模型返回了空回复")
      else give_answer session_id round (lit "正在生成答复") steps (trim_space content)
  follow_up (call ∷ calls) round session_id steps content next = do
    emit (record (event (lit "model_completed")) { round = round; message = lit "已生成检查计划" })
    out ← process_calls session_id (call ∷ calls) steps
    unless_paused out next

  -- `continueLocked` with the rounds that are left.
  unfoldable pub continue_rounds : ℕ → Text → List Step → M Env TurnResponse
  unfolding follow_up unless_paused
  continue_rounds zero session_id steps = finalize_at_round_limit session_id steps
  continue_rounds (suc n) session_id steps = do
    let round = max_agent_rounds - n
    assistant ← ask_model round
    follow_up assistant.tool_calls round session_id steps assistant.content
        (continue_rounds n session_id)

  unfoldable pub continue_locked : Text → List Step → M Env TurnResponse
  unfolding continue_rounds
  continue_locked session_id steps = continue_rounds max_agent_rounds session_id steps
