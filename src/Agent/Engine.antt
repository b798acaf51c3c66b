-- ===== src/Agent/Engine.antt =====
-- The sessions of an `Engine` and its entry points (`NewEngine`, `TurnWithEvents`,
-- `ResolveApprovalWithEvents`, `Reset` of internal/manageragent/engine.go).
pub mod Table
pub mod Order
pub mod Approval
pub mod Limits
use longhub_manager.Common.{
  ℕ, zero, suc, ◌-◌, Bool, true, false, ◌&&◌, ◌||◌, not, Option, none, some, List, [], ◌∷◌, ◌++◌,
  Text, lit, text_eq, is_empty, is_blank, contains_byte, trim_space, length, ltb, leb,
  if◌then◌else◌, Result, ok, err, Action, pure, fail, ◌>>=◌, ◌>>◌,
}
use longhub_manager.Agent.Message.{ToolDefinition, plain}
use longhub_manager.Agent.Session.{
  ToolSpec, Step, TurnResponse, TurnEvent, Pending, Session, event, Ports, max_user_message_bytes,
  max_sessions, session_ttl,
}
use longhub_manager.Agent.Turn.{
  Run, M, answered, find_spec, emit, push, set_pending, compact_session, attempt,
}
use longhub_manager.Agent.Rounds.{
  touch, run_tool, refuse_call, process_calls, unless_paused, continue_locked,
}

abbrev pub Sessions : Type 0
Sessions = List (Text × Session)

-- The loop of `NewEngine` over the specs: names are present and distinct.
unfoldable pub register :
    List ToolSpec → List (Text × ToolSpec) → Result Text (List (Text × ToolSpec))
unfolding find_spec
register [] specs = ok specs
register (spec ∷ rest) specs =
    let name = spec.definition.name in
    let more = register rest (specs ++ (name, spec) ∷ []) in
    if is_empty name then err (lit "agent tool name is required") else elim (find_spec name specs) [
      | some _ ↦ err (lit "duplicate agent tool: " ++ name)
      | none ↦ more
    ]

-- What an engine keeps, the world, and the event sink of the request at hand.
pub record Engine (Env : Type 0) : Type 0 where
  pub sessions : Sessions
  pub env : Env
  pub events : Option (List TurnEvent)

-- `e.sessions[id]`
unfoldable pub find_session : Text → Sessions → Option Session
find_session id [] = none
find_session id ((key, s) ∷ table) = if text_eq id key then some s else find_session id table

-- `delete(e.sessions, id)`
unfoldable pub delete_session : Text → Sessions → Sessions
delete_session id [] = []
delete_session id ((key, s) ∷ table) =
    let rest = delete_session id table in if text_eq id key then rest else (key, s) ∷ rest

-- A session is mutated through its pointer: the table shows it while the session is in it.
unfoldable pub update_session : Text → Session → Sessions → Sessions
update_session id s [] = []
update_session id s ((key, old) ∷ table) =
    (key, if text_eq id key then s else old) ∷ update_session id s table

unfoldable pub prune_expired : ℕ → Sessions → Sessions
prune_expired cutoff [] = []
prune_expired cutoff ((key, s) ∷ table) =
    let rest = prune_expired cutoff table in if ltb s.updated cutoff then rest else (key, s) ∷ rest

-- The loop over the table that finds the least recently updated session.
unfoldable pub oldest_session : Text → ℕ → Sessions → Text
oldest_session id updated [] = id
oldest_session id updated ((key, s) ∷ table) =
    if is_empty id || ltb s.updated updated
    then oldest_session key s.updated table
    else oldest_session id updated table

-- `evictForNewSessionLocked`; each round deletes a session, so the table's size is fuel enough.
unfoldable pub evict : ℕ → Sessions → Sessions
unfolding oldest_session delete_session
evict zero table = table
evict (suc n) table = elim (leb max_sessions (length table)) [
  | true ↦ evict n (delete_session (oldest_session [] 0 table) table)
  | false ↦ table
]

module _ (p : Ports) (specs : List (Text × ToolSpec)) (tools : List ToolDefinition) where
  open p use {Env}

  -- `pruneExpiredLocked`
  unfoldable pub prune : Action Text (Engine Env) (Unit {0})
  unfolding prune_expired
  prune e =
      let (t, env) = p.now e.env in
      (ok tt, record e { sessions = prune_expired (t - session_ttl) e.sessions; env = env })

  -- The branch of `session` that makes a new session.
  unfoldable pub new_session : Action Text (Engine Env) Text
  unfolding evict
  new_session e =
      let table = evict (suc (length e.sessions)) e.sessions in
      let (id, env) = p.random_id e.env in
      elim id [
        | err x ↦ (err x, record e { sessions = table; env = env })
        | ok id ↦
            let (t, env') = p.now env in
            let fresh : Session = record { messages = []; pending = none; updated = t } in
            (ok id, record e { sessions = (id, fresh) ∷ delete_session id table; env = env' })
      ]

  -- `session`: prunes, and returns the id of the session that the request is for.
  unfoldable pub open_session : Text → Action Text (Engine Env) Text
  unfolding prune new_session find_session
  open_session id = do
    prune
    if is_blank id then new_session else λ e.
        (elim (find_session id e.sessions) [ none ↦ err (lit "管家会话不存在或已过期") | some _ ↦ ok id ], e)

  -- `sessionExisting`
  unfoldable pub open_existing : Text → Action Text (Engine Env) Text
  open_existing id = if is_blank id then fail (lit "管家会话 ID 不能为空") else open_session id

  -- Runs a turn's statements on the session of that id, under its lock.
  unfoldable pub on_session : {A : Type 0} → Text → (Session → M Env A) → Action Text (Engine Env) A
  on_session id m e = elim (find_session id e.sessions) [
    | none ↦ (err (lit "管家会话不存在或已过期"), e)
    | some s ↦
        let (a, r) = m s (record { session = s; env = e.env; events = e.events }) in
        (
          a,
          record {
            sessions = update_session id r.session e.sessions;
            env = r.env;
            events = r.events;
          },
        )
  ]

  unfoldable pub reset : Text → Engine Env → Engine Env
  reset id e = record e { sessions = delete_session id e.sessions }

  -- The statements of `TurnWithEvents` under the session's lock, by what is pending.
  unfoldable pub take_turn : Option Pending → Text → Text → M Env TurnResponse
  take_turn (some _) id message = fail (lit "当前会话仍有待确认操作")
  take_turn none id message = do
    push (plain (lit "user") message)
    touch p specs tools
    emit (record (event (lit "turn_started")) { message = lit "已收到请求" })
    continue_locked p specs tools id []

  -- A turn that fails takes the session that it made with it.
  unfoldable pub finish_turn :
      Bool → Text → Result Text TurnResponse → Engine Env → Result Text TurnResponse × Engine Env
  unfolding reset
  finish_turn is_new id (ok response) e = (ok response, e)
  finish_turn is_new id (err x) e = (err x, if is_new then reset id e else e)

  -- What follows on opening the session.
  unfoldable pub run_turn :
      Bool → Text → Result Text Text → Engine Env → Result Text TurnResponse × Engine Env
  run_turn is_new message (err x) e = (err x, e)
  run_turn is_new message (ok id) e =
      let (response, e') = on_session id (λ s. take_turn s.pending id message) e in
      finish_turn is_new id response e'

  unfoldable pub turn_with_events : Text → Text → Action Text (Engine Env) TurnResponse
  turn_with_events session_id user_message e =
      let message = trim_space user_message in
      if is_empty message || ltb max_user_message_bytes (length message) || contains_byte 0 message
      then (err (lit "消息为空或超过大小限制"), e)
      else let (opened, e') = open_session session_id e in
        run_turn (is_blank session_id) message opened e'

  -- `approvalSummaryFallback`
  unfoldable pub approval_reply : List Step → Bool → Text
  approval_reply steps false = lit "操作已拒绝；管家模型未能生成后续总结。"
  approval_reply [] true = lit "操作执行失败，且管家模型未能生成总结。请查看步骤状态并重新诊断。"
  approval_reply (step ∷ _) true =
      if step.success
      then lit "操作已经执行，但管家模型未能生成总结。请刷新对应页面确认最新状态。"
      else lit "操作执行失败，且管家模型未能生成总结。请查看步骤状态并重新诊断。"

  unfoldable pub summary_fallback : Text → List Step → Bool → M Env TurnResponse
  unfolding approval_reply
  summary_fallback id steps approved = do
    compact_session
    pure (answered id (approval_reply steps approved) steps)

  -- `m`, and the fallback where it fails.
  unfoldable pub or_fallback : M Env TurnResponse → M Env TurnResponse → M Env TurnResponse
  or_fallback m fallback r = let (a, r') = m r in elim a [ ok x ↦ (ok x, r') | err _ ↦ fallback r' ]

  -- The user's decision on the pending call: the tool runs, or its call is answered by a refusal.
  unfoldable pub decide : Pending → Bool → M Env Step
  decide pending true = run_tool p specs tools pending.call pending.approval.summary
  decide pending false =
      refuse_call p specs tools pending.call (lit "用户拒绝了此操作。不要再次请求同一操作，除非用户明确改变决定。") (lit "用户拒绝执行")
        (lit "已拒绝执行")

  -- How a resolved turn goes on: an error of the remaining calls or of the rounds becomes a summary.
  unfoldable pub conclude :
      Text → List Step → Bool → Option (TurnResponse × Bool) → M Env TurnResponse
  conclude id steps approved none = summary_fallback id steps approved
  conclude id steps approved (some out) = unless_paused p specs tools out λ steps.
      or_fallback (continue_locked p specs tools id steps) (summary_fallback id steps approved)

  -- The statements of `ResolveApprovalWithEvents` under the lock, from `session.pending = nil` on.
  unfoldable pub resume : Text → Pending → Bool → M Env TurnResponse
  unfolding decide conclude
  resume id pending approved = do
    set_pending none
    step ← decide pending approved
    let steps : List Step = step ∷ []
    out ← attempt (process_calls p specs tools id pending.remaining steps)
    conclude id steps approved out

  unfoldable pub resolve_locked : Option Pending → Text → Text → Bool → M Env TurnResponse
  unfolding resume
  resolve_locked none id approval_id approved = fail (lit "待确认操作不存在或已过期")
  resolve_locked (some pending) id approval_id approved =
      if text_eq pending.approval.id approval_id
      then resume id pending approved
      else fail (lit "待确认操作不存在或已过期")

  unfoldable pub run_resolve :
      Text → Bool → Result Text Text → Engine Env → Result Text TurnResponse × Engine Env
  run_resolve approval_id approved (err x) e = (err x, e)
  run_resolve approval_id approved (ok id) e =
      on_session id (λ s. resolve_locked s.pending id approval_id approved) e

  unfoldable pub resolve_approval : Text → Text → Bool → Action Text (Engine Env) TurnResponse
  resolve_approval session_id approval_id approved e =
      let (opened, e') = open_existing session_id e in run_resolve approval_id approved opened e'
