-- ===== src/Agent/Rounds/Budget.antt =====
-- What a turn may do to the world: a family of conditions `I k`, read "at most k questions to the
-- model so far", that every outside call keeps but a question, and a tool only where it may run.
use longhub_manager.Common.{
  ℕ, zero, suc, ◌+◌, ◌-◌, ◌≡◌, Bool, true, false, Option, none, some, List, [], ◌∷◌, Text, Result,
  ok, err, pure, ◌>>=◌, Ends, Triple, Triple-pure, Triple-fail, Triple-if, Triple-bind, Triple-mono,
  Option-cases, Bool-cases, inl, inr, arith, is_blank, trim_space, lit,
}
use longhub_manager.Agent.Message.{ToolCall, Message, ToolDefinition}
use longhub_manager.Agent.Session.{ToolSpec, Step, TurnResponse, TurnEvent, Ports, max_agent_rounds}
use longhub_manager.Agent.Turn.{
  Run, M, CallKind, unknown, invalid, gated, free, find_spec, emit, push, set_pending,
  compact_session, history, outside, attempt, limit_reply,
}
use longhub_manager.Agent.Rounds.{
  touch, execute_tool, run_tool, refuse_call, classify, request_approval, handle_call,
  process_calls, give_answer, use_summary, final_answer, check_context, finalize_at_round_limit,
  ask_model, unless_paused, follow_up, continue_rounds,
}
use longhub_manager.Agent.Rounds.Conversation.{outside-Triple}

-- A tool that a turn may run without asking.
pub record IsFree (specs : List (Text × ToolSpec)) (name : Text) : Type 0 where
  pub spec : ToolSpec
  pub registered : find_spec name specs ≡ some spec
  pub ungated : spec.requires_approval ≡ false

pub record IsBudget (p : Ports) (specs : List (Text × ToolSpec)) (I : ℕ → p.Env → Type 0)
    : Type 0 where
  pub spend : (k : ℕ) (env : p.Env) → I k env → I (suc k) env
  pub credentials : (k : ℕ) (env : p.Env) → I k env → I k (p.credentials env).1
  pub complete :
      (k : ℕ) (c : p.Credentials) (ms : List Message) (ts : List ToolDefinition) (env : p.Env)
      → I k env
      → I (suc k) (p.complete c ms ts env).1
  pub execute :
      (k : ℕ) (name args : Text) (env : p.Env)
      → IsFree specs name
      → I k env
      → I k (p.execute name args env).1
  pub random_id : (k : ℕ) (env : p.Env) → I k env → I k (p.random_id env).1
  pub now : (k : ℕ) (env : p.Env) → I k env → I k (p.now env).1

-- The condition after the rounds that are left and the summary.
abbrev pub spent : ℕ → ℕ → ℕ
spent zero k = suc k
spent (suc n) k = spent n (suc k)

pub spent_lem : (n k : ℕ) → spent n k ≡ suc (n + k)
spent_lem zero k = omega arith
spent_lem (suc n) k = omega (arith, spent_lem n (suc k))

module _ (p : Ports) (specs : List (Text × ToolSpec)) (tools : List ToolDefinition)
    (I : ℕ → p.Env → Type 0) (b : IsBudget p specs I) where
  open p use {Env}

  abbrev Within : ℕ → Run Env → Type 0
  Within k r = I k r.env

  -- From `k` to `l`, whether the action returns or fails.
  abbrev Spends : {A : Type 0} → ℕ → M Env A → ℕ → Type 0
  Spends k m l = Triple (Within k) m (λ _. Within l) (λ _. Within l)

  spent-grows : (n k : ℕ) (env : Env) → I k env → I (spent n k) env
  spent-grows zero k env h = b.spend k env h
  spent-grows (suc n) k env h = spent-grows n (suc k) env (b.spend k env h)

  outside-Spends :
      {A : Type 0} (k l : ℕ) (f : Env → Result Text A × Env)
      → ((env : Env) → I k env → I l (f env).1)
      → Spends k (outside f) l
  outside-Spends k l f h = outside-Triple f (λ r i a e. h r.env i) (λ r x i e. h r.env i)

  push-Spends : (k : ℕ) (m : Message) → Spends k (push m) k
  unfolding push
  push-Spends k m = record { at = λ r i. i }

  emit-Spends : (k : ℕ) (e : TurnEvent) → Spends k (emit e) k
  unfolding emit
  emit-Spends k e = record { at = λ r i. i }

  history-Spends : (k : ℕ) → Spends k history k
  unfolding history
  history-Spends k = record { at = λ r i. i }

  touch-Spends : (k : ℕ) → Spends k (touch p specs tools) k
  unfolding touch
  touch-Spends k = record { at = λ r i. b.now k r.env i }

  pub refuse_call-Spends :
      (k : ℕ) (call : ToolCall) (content summary shown : Text)
      → Spends k (refuse_call p specs tools call content summary shown) k
  unfolding refuse_call push emit pure ◌>>=◌
  refuse_call-Spends k call content summary shown = record { at = λ r i. i }

  -- A tool run changes the world as its execution does.
  pub run_tool-Spends :
      (k : ℕ) (call : ToolCall) (summary : Text)
      → ((env : Env) → I k env → I k (p.execute call.name call.arguments env).1)
      → Spends k (run_tool p specs tools call summary) k
  unfolding run_tool execute_tool push emit pure ◌>>=◌
  run_tool-Spends k call summary h = record { at = λ r i. h r.env i }

  request_approval-Spends :
      (k : ℕ) (id : Text) (call : ToolCall) (spec : ToolSpec) (rest : List ToolCall)
      (steps : List Step)
      → Spends k (request_approval p specs tools id call spec rest steps) k
  unfolding request_approval set_pending emit pure ◌>>=◌
  request_approval-Spends k id call spec rest steps =
      Triple-bind _ _ (outside-Spends k k p.random_id (b.random_id k))
        (λ a. record { at = λ r i. i })

  -- The loop runs only tools that are classified as free, and those may run.
  abbrev Allowed : ToolCall → CallKind → Type 0
  Allowed call unknown = Unit
  Allowed call invalid = Unit
  Allowed call (gated spec) = Unit
  Allowed call (free spec) = IsFree specs call.name

  classify-Allowed : (call : ToolCall) → Allowed call (classify p specs tools call)
  unfolding classify
  classify-Allowed call = elim (Option-cases (find_spec call.name specs)) [
    | inl e ↦ rw (e, classify) tt
    | inr (spec, e) ↦ elim (Bool-cases (p.is_object call.arguments)) [
      | inr o ↦ rw (e, classify, o) tt
      | inl o ↦ elim (Bool-cases spec.requires_approval) [
        | inl g ↦ rw (e, classify, o, g) tt
        | inr g ↦ rw (e, classify, o, g) (record { spec = spec; registered = e; ungated = g })
      ]
    ]
  ]

  handle_call-Spends :
      (k : ℕ) (kind : CallKind) (id : Text) (call : ToolCall) (rest : List ToolCall)
      (steps : List Step) (next : List Step → M Env (TurnResponse × Bool))
      → Allowed call kind
      → ((more : List Step) → Spends k (next more) k)
      → Spends k (handle_call p specs tools kind id call rest steps next) k
  unfolding handle_call
  handle_call-Spends k unknown id call rest steps next a h =
      Triple-bind _ _ (refuse_call-Spends k call _ _ _) (λ step. h _)
  handle_call-Spends k invalid id call rest steps next a h =
      Triple-bind _ _ (refuse_call-Spends k call _ _ _) (λ step. h _)
  handle_call-Spends k (gated spec) id call rest steps next a h =
      request_approval-Spends k id call spec rest steps
  handle_call-Spends k (free spec) id call rest steps next a h =
      Triple-bind _ _ (run_tool-Spends k call _ (λ env. b.execute k _ _ env a)) (λ step. h _)

  pub process_calls-Spends :
      (k : ℕ) (id : Text) (calls : List ToolCall) (steps : List Step)
      → Spends k (process_calls p specs tools id calls steps) k
  unfolding process_calls
  process_calls-Spends k id [] steps = Triple-pure {Q = λ _. Within k} _
  process_calls-Spends k id (call ∷ rest) steps =
      handle_call-Spends k (classify p specs tools call) id call rest steps
        (process_calls p specs tools id rest) (classify-Allowed call)
        (λ more. process_calls-Spends k id rest more)

  give_answer-Spends :
      (k : ℕ) (id : Text) (round : ℕ) (note : Text) (steps : List Step) (content : Text)
      → Spends k (give_answer p specs tools id round note steps content) k
  unfolding give_answer compact_session emit pure ◌>>=◌
  give_answer-Spends k id round note steps content = record { at = λ r i. i }

  -- A sequence whose first part may fail below the level of the whole.
  bind-Spends :
      {A B : Type 0} (k l n : ℕ) (m : M Env A) (f : A → M Env B)
      → ((env : Env) → I l env → I n env)
      → Spends k m l
      → ((a : A) → Spends l (f a) n)
      → Spends k (m >>= f) n
  bind-Spends k l n m f up h g =
      Triple-bind m f (Triple-mono m (λ a r i. i) (λ x r i. up r.env i) h) g

  ask_model-Spends : (k round : ℕ) → Spends k (ask_model p specs tools round) (suc k)
  unfolding ask_model
  ask_model-Spends k round =
      bind-Spends k k (suc k) _ _ (b.spend k) (outside-Spends k k p.credentials (b.credentials k))
        λ c. bind-Spends k k (suc k) _ _ (b.spend k) (history-Spends k) λ ms.
          bind-Spends k k (suc k) _ _ (b.spend k) (emit-Spends k _) λ _.
            Triple-bind _ _
              (outside-Spends k (suc k) (p.complete c _ tools) (b.complete k c _ tools))
              λ m. Triple-bind _ _ (push-Spends (suc k) m) λ _.
                Triple-bind _ _ (touch-Spends (suc k)) λ _. Triple-pure {Q = λ _. Within (suc k)} m

  use_summary-Spends :
      (k : ℕ) (calls : List ToolCall) (id : Text) (steps : List Step) (m : Message)
      → Spends k (use_summary p specs tools calls id steps m) k
  unfolding use_summary
  use_summary-Spends k [] id steps m =
      Triple-if (is_blank m.content) _ _ (λ _. Triple-fail [] (λ r i. i))
        (λ _. Triple-bind _ _ (push-Spends k m) λ _.
          Triple-bind _ _ (touch-Spends k)
            λ _. give_answer-Spends k id _ _ steps (trim_space m.content))
  use_summary-Spends k (c ∷ cs) id steps m = Triple-fail [] (λ r i. i)

  final_answer-Spends :
      (k : ℕ) (id : Text) (steps : List Step)
      → Spends k (final_answer p specs tools id steps) (suc k)
  unfolding final_answer
  final_answer-Spends k id steps =
      bind-Spends k k (suc k) _ _ (b.spend k) (outside-Spends k k p.credentials (b.credentials k))
        λ c. bind-Spends k k (suc k) _ _ (b.spend k) (history-Spends k) λ ms.
          bind-Spends k k (suc k) _ _ (b.spend k) (emit-Spends k _) λ _.
            Triple-bind _ _ (outside-Spends k (suc k) (p.complete c _ []) (b.complete k c _ []))
              λ m. use_summary-Spends (suc k) m.tool_calls id steps m

  pub attempt-Spends : {A : Type 0} (k l : ℕ) (m : M Env A) → Spends k m l → Spends k (attempt m) l
  unfolding attempt
  attempt-Spends {A} k l m h = record { at = λ r i. go (m r).0 (m r).1 (h.at r i) }
    where
      go :
          (a : Result Text A) (r : Run Env)
          → Ends (λ _. Within l) (λ _. Within l) a r
          → let o : Result Text (Option A) = elim a [ ok x ↦ ok (some x) | err _ ↦ ok none ] in
            Ends (λ _. Within l) (λ _. Within l) o r
      go (ok a) r i = i
      go (err e) r i = i

  check_context-Spends : (k : ℕ) → Spends k (check_context p specs tools) k
  unfolding check_context
  check_context-Spends k = record { at = λ r i. go r (p.context_error r.env) i }
    where
      go :
          (r : Run Env) (o : Option Text)
          → I k r.env
          → let out : Result Text (Unit {0}) × Run Env = elim o [
            | none ↦ (ok tt, r)
            | some e ↦ (err e, r)
          ] in
            Ends (λ _. Within k) (λ _. Within k) out.0 out.1
      go r none i = i
      go r (some e) i = i

  finalize-Spends :
      (k : ℕ) (id : Text) (steps : List Step)
      → Spends k (finalize_at_round_limit p specs tools id steps) (suc k)
  unfolding finalize_at_round_limit
  finalize-Spends k id steps = bind-Spends k k (suc k) _ _ (b.spend k) (check_context-Spends k) λ _.
      Triple-bind _ _
        (attempt-Spends k (suc k) (final_answer p specs tools id steps)
          (final_answer-Spends k id steps))
        λ o. elim o as (λ o. Spends (suc k) (summed o) (suc k)) [
          | none ↦ give_answer-Spends (suc k) id _ _ steps _
          | some response ↦ Triple-pure {Q = λ _. Within (suc k)} response
        ]
    where
      summed : Option TurnResponse → M Env TurnResponse
      summed o = elim o [
        | some response ↦ pure response
        | none ↦
            give_answer p specs tools id (max_agent_rounds + 1) (lit "正在生成检查总结") steps
              (limit_reply steps)
      ]

  pub unless_paused-Spends :
      (k l : ℕ) (out : TurnResponse × Bool) (next : List Step → M Env TurnResponse)
      → ((env : Env) → I k env → I l env)
      → ((steps : List Step) → Spends k (next steps) l)
      → Spends k (unless_paused p specs tools out next) l
  unfolding unless_paused
  unless_paused-Spends k l (response, true) next up h =
      Triple-mono _ (λ a r i. up r.env i) (λ x r i. i) (Triple-pure {Q = λ _. Within k} response)
  unless_paused-Spends k l (response, false) next up h = h response.steps

  follow_up-Spends :
      (k l : ℕ) (calls : List ToolCall) (round : ℕ) (id : Text) (steps : List Step) (content : Text)
      (next : List Step → M Env TurnResponse)
      → ((env : Env) → I k env → I l env)
      → ((more : List Step) → Spends k (next more) l)
      → Spends k (follow_up p specs tools calls round id steps content next) l
  unfolding follow_up
  follow_up-Spends k l [] round id steps content next up h =
      Triple-mono _ (λ a r i. up r.env i) (λ x r i. up r.env i)
        (Triple-if (is_blank content) _ _ (λ _. Triple-fail _ (λ r i. i))
          (λ _. give_answer-Spends k id round _ steps (trim_space content)))
  follow_up-Spends k l (call ∷ calls) round id steps content next up h =
      bind-Spends k k l _ _ up (emit-Spends k _) λ _.
        bind-Spends k k l _ _ up (process_calls-Spends k id (call ∷ calls) steps)
          λ out. unless_paused-Spends k l out next up h

  pub continue_rounds-Spends :
      (n k : ℕ) (id : Text) (steps : List Step)
      → Spends k (continue_rounds p specs tools n id steps) (spent n k)
  unfolding continue_rounds
  continue_rounds-Spends zero k id steps = finalize-Spends k id steps
  continue_rounds-Spends (suc n) k id steps =
      bind-Spends k (suc k) (spent n (suc k)) _ _ (spent-grows n (suc k))
        (ask_model-Spends k (max_agent_rounds - n))
        λ m.
          follow_up-Spends (suc k) (spent n (suc k)) m.tool_calls _ id steps m.content
            (continue_rounds p specs tools n id) (spent-grows n (suc k))
            (λ more. continue_rounds-Spends n (suc k) id more)
