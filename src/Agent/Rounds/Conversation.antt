-- ===== src/Agent/Rounds/Conversation.antt =====
-- A turn keeps a session's messages a conversation that the model accepts.
use longhub_manager.Common.{
  ℕ, zero, suc, ◌+◌, ◌-◌, ◌≡◌, refl, sym, ap, ◌∙◌, Bool, true, false, Option, none, some, List, [],
  ◌∷◌, Text, lit, is_blank, Result, ok, err, pure, ◌>>=◌, Ends, Triple, Triple-pure, Triple-fail,
  Triple-if, Triple-bind, Triple-mono, trim_space,
}
use longhub_manager.Agent.Message.{ToolCall, Message, ToolDefinition}
use longhub_manager.Agent.Message.Validity.{IsModelMessage, ids}
use longhub_manager.Agent.Session.{ToolSpec, Step, TurnResponse, TurnEvent, Ports, max_agent_rounds}
use longhub_manager.Agent.Turn.{
  Run, M, CallKind, unknown, invalid, gated, free, emit, push, set_pending, compact_session,
  history, outside, attempt, limit_reply,
}
use longhub_manager.Agent.Rounds.{
  touch, execute_tool, run_tool, refuse_call, classify, request_approval, handle_call,
  process_calls, progress, follow_up, unless_paused, give_answer, use_summary, final_answer,
  check_context, finalize_at_round_limit, ask_model, continue_rounds,
}
use longhub_manager.Agent.Rounds.Transcript.{
  owed, said, IsTranscript, said-append, say-answer, say-assistant, said-compact,
}

-- What the engine relies on: the model client returns only messages that it has checked, and the
-- system's random source does not fail (as `crypto/rand` documents).
pub record IsReliable (p : Ports) : Type 0 where
  pub complete_valid :
      (c : p.Credentials) (ms : List Message) (tools : List ToolDefinition) (env : p.Env)
      (m : Message)
      → (p.complete c ms tools env).0 ≡ ok m
      → IsModelMessage m
  pub random_total : (env : p.Env) → (id : Text) × ((p.random_id env).0 ≡ ok id)

-- No approval is waited for, and exactly these calls are open.
abbrev pub Owes : {Env : Type 0} → List Text → Run Env → Type 0
Owes l r = (said [] r.session.messages ≡ some l) × (r.session.pending ≡ none)

abbrev pub Settled : {Env : Type 0} → Run Env → Type 0
Settled = Owes []

-- How a list of calls leaves the session: waiting for an approval, or with all calls answered.
abbrev pub Paused : {Env : Type 0} → TurnResponse × Bool → Run Env → Type 0
Paused (response, true) r = IsTranscript r.session
Paused (response, false) r = Settled r

-- The messages are a conversation in which only calls that wait for an approval are open.
abbrev pub Kept : {Env : Type 0} → Run Env → Type 0
Kept r = IsTranscript r.session

pub Settled-Kept : {Env : Type 0} (r : Run Env) → Settled r → Kept r
Settled-Kept r h = h.0 ∙ ap (λ o. some (owed o)) (sym h.1)

-- A call of the outside world: what holds by its result.
pub outside-Triple :
    {Env A : Type 0} {P : Run Env → Type 0} {Q : A → Run Env → Type 0} {X : Text → Run Env → Type 0}
    (f : Env → Result Text A × Env)
    → ((r : Run Env) → P r → (a : A) → (f r.env).0 ≡ ok a → Q a (record r { env = (f r.env).1 }))
    → ((r : Run Env) (e : Text) → P r → (f r.env).0 ≡ err e → X e (record r { env = (f r.env).1 }))
    → Triple P (outside f) Q X
unfolding outside
outside-Triple {Env} {A} {P = P} {Q} {X} f h k = record { at = λ r q. go r q (f r.env).0 refl }
  where
    go :
        (r : Run Env)
        → P r
        → (a : Result Text A) → (f r.env).0 ≡ a
        → Ends Q X a (record r { env = (f r.env).1 })
    go r q (ok a) e = h r q a e
    go r q (err x) e = k r x q e

module _ {Env : Type 0} where
  pub emit-Owes :
      {X : Text → Run Env → Type 0} (l : List Text) (e : TurnEvent)
      → Triple (Owes l) (emit e) (λ _. Owes l) X
  unfolding emit
  emit-Owes l e = record { at = λ r h. h }

module _ (p : Ports) (specs : List (Text × ToolSpec)) (tools : List ToolDefinition) where
  open p use {Env}

  pub run_tool-Owes :
      {X : Text → Run Env → Type 0} (call : ToolCall) (summary : Text) (l : List Text)
      → Triple (Owes (call.id ∷ l)) (run_tool p specs tools call summary) (λ _. Owes l) X
  unfolding run_tool execute_tool emit push pure ◌>>=◌
  run_tool-Owes call summary l = record {
    at = λ r h. (said-append [] r.session.messages _ _ h.0 ∙ say-answer call _ l, h.1);
  }

  pub refuse_call-Owes :
      {X : Text → Run Env → Type 0} (call : ToolCall) (content summary shown : Text) (l : List Text)
      → Triple
          (Owes (call.id ∷ l))
          (refuse_call p specs tools call content summary shown)
          (λ _. Owes l)
          X
  unfolding refuse_call emit push pure ◌>>=◌
  refuse_call-Owes call content summary shown l = record {
    at = λ r h. (said-append [] r.session.messages _ _ h.0 ∙ say-answer call content l, h.1);
  }

  module _ (reliable : IsReliable p) where
    request_approval-Paused :
        {X : Text → Run Env → Type 0} (id : Text) (call : ToolCall) (spec : ToolSpec)
        (rest : List ToolCall) (steps : List Step)
        → Triple
            (Owes (ids (call ∷ rest)))
            (request_approval p specs tools id call spec rest steps)
            Paused
            X
    unfolding request_approval set_pending emit pure ◌>>=◌
    request_approval-Paused id call spec rest steps =
        Triple-bind {Q = λ _. Owes (ids (call ∷ rest))} _ _
          (outside-Triple p.random_id (λ r h a e. h)
            (λ r x h e. cc (e, (reliable.random_total r.env).1)))
          (λ a. record { at = λ r h. h.0 })

    handle_call-Paused :
        {X : Text → Run Env → Type 0} (k : CallKind) (id : Text) (call : ToolCall)
        (rest : List ToolCall) (steps : List Step) (next : List Step → M Env (TurnResponse × Bool))
        → ((more : List Step) → Triple (Owes (ids rest)) (next more) Paused X)
        → Triple
            (Owes (ids (call ∷ rest)))
            (handle_call p specs tools k id call rest steps next)
            Paused
            X
    unfolding handle_call
    handle_call-Paused unknown id call rest steps next h =
        Triple-bind _ _ (refuse_call-Owes call _ _ _ (ids rest)) (λ step. h _)
    handle_call-Paused invalid id call rest steps next h =
        Triple-bind _ _ (refuse_call-Owes call _ _ _ (ids rest)) (λ step. h _)
    handle_call-Paused (gated spec) id call rest steps next h =
        request_approval-Paused id call spec rest steps
    handle_call-Paused (free spec) id call rest steps next h =
        Triple-bind _ _ (run_tool-Owes call _ (ids rest)) (λ step. h _)

    -- From a message's open calls the loop answers them all, or waits with the rest kept.
    pub process_calls-Paused :
        {X : Text → Run Env → Type 0} (id : Text) (calls : List ToolCall) (steps : List Step)
        → Triple (Owes (ids calls)) (process_calls p specs tools id calls steps) Paused X
    unfolding process_calls
    process_calls-Paused id [] steps = Triple-pure {Q = Paused} (progress id steps, false)
    process_calls-Paused id (call ∷ rest) steps =
        handle_call-Paused (classify p specs tools call) id call rest steps
          (process_calls p specs tools id rest) (λ more. process_calls-Paused id rest more)

    give_answer-Settled :
        {X : Text → Run Env → Type 0} (id : Text) (round : ℕ) (note : Text) (steps : List Step)
        (content : Text)
        → Triple Settled (give_answer p specs tools id round note steps content) (λ _. Settled) X
    unfolding give_answer compact_session emit pure ◌>>=◌
    give_answer-Settled id round note steps content = record {
      at = λ r h. (said-compact r.session.messages [] h.0, h.1);
    }

    -- The message of the model leaves its own calls open.
    hear-Owes :
        {X : Text → Run Env → Type 0} (m : Message)
        → IsModelMessage m
        → Triple Settled
            (push m >>= λ _. touch p specs tools >>= λ _. pure m)
            (λ m'. Owes (ids m'.tool_calls))
            X
    unfolding push touch pure ◌>>=◌
    hear-Owes m v = record {
      at = λ r h.
          (said-append [] r.session.messages m [] h.0 ∙ say-assistant m v.from_assistant, h.1);
    }

    history-Settled : {X : Text → Run Env → Type 0} → Triple Settled history (λ _. Settled) X
    unfolding history
    history-Settled = record { at = λ r h. h }

    complete-valid :
        (c : p.Credentials) (ms : List Message) (ts : List ToolDefinition)
        → Triple Settled
            (outside (p.complete c ms ts))
            (λ m r. IsModelMessage m × Settled r)
            (λ _. Settled)
    complete-valid c ms ts =
        outside-Triple (p.complete c ms ts)
          (λ r h m e. (reliable.complete_valid c ms ts r.env m e, h)) (λ r x h e. h)

    credentials-Settled : Triple Settled (outside p.credentials) (λ _. Settled) (λ _. Settled)
    credentials-Settled = outside-Triple p.credentials (λ r h a e. h) (λ r x h e. h)

    ask_model-Owes :
        (round : ℕ)
        → Triple Settled
            (ask_model p specs tools round)
            (λ m. Owes (ids m.tool_calls))
            (λ _. Settled)
    unfolding ask_model
    ask_model-Owes round = Triple-bind _ _ credentials-Settled λ c.
        Triple-bind _ _ history-Settled λ ms. Triple-bind _ _ (emit-Owes [] _) λ _.
          Triple-bind _ _ (complete-valid c _ tools)
            λ m. record { at = λ r h. (hear-Owes m h.0).at r h.1 }

    use_summary-Settled :
        (calls : List ToolCall) (id : Text) (steps : List Step) (m : Message)
        → IsModelMessage m
        → m.tool_calls ≡ calls
        → Triple Settled (use_summary p specs tools calls id steps m) (λ _. Settled) (λ _. Settled)
    unfolding use_summary push touch ◌>>=◌
    use_summary-Settled [] id steps m v e =
        Triple-if (is_blank m.content) _ _ (λ _. Triple-fail [] (λ r h. h))
          (λ _. record {
            at = λ r h. (give_answer-Settled id _ _ steps _).at _ (
              said-append [] r.session.messages m [] h.0
                  ∙ (say-assistant m v.from_assistant ∙ ap (λ cs. some (ids cs)) e),
              h.1,
            );
          })
    use_summary-Settled (c ∷ cs) id steps m v e = Triple-fail [] (λ r h. h)

    final_answer-Settled :
        (id : Text) (steps : List Step)
        → Triple Settled (final_answer p specs tools id steps) (λ _. Settled) (λ _. Settled)
    unfolding final_answer
    final_answer-Settled id steps = Triple-bind _ _ credentials-Settled λ c.
        Triple-bind _ _ history-Settled λ ms. Triple-bind _ _ (emit-Owes [] _) λ _.
          Triple-bind _ _ (complete-valid c _ []) λ m. record {
            at = λ r h. (use_summary-Settled m.tool_calls id steps m h.0 refl).at r h.1;
          }

    attempt-Settled :
        {A : Type 0} {X : Text → Run Env → Type 0} (m : M Env A)
        → Triple Settled m (λ _. Settled) (λ _. Settled)
        → Triple Settled (attempt m) (λ _. Settled) X
    unfolding attempt
    attempt-Settled {A} {X} m h = record { at = λ r s. go (m r).0 (m r).1 (h.at r s) }
      where
        go :
            (a : Result Text A) (r : Run Env)
            → Ends (λ _. Settled) (λ _. Settled) a r
            → Ends (λ _. Settled) X (elim a [ ok x ↦ ok (some x) | err _ ↦ ok none ]) r
        go (ok a) r h = h
        go (err e) r h = h

    check_context-Settled :
        Triple Settled (check_context p specs tools) (λ _. Settled) (λ _. Settled)
    unfolding check_context
    check_context-Settled = record { at = λ r h. go r (p.context_error r.env) h }
      where
        go :
            (r : Run Env) (o : Option Text)
            → Settled r
            → let out : Result Text (Unit {0}) × Run Env = elim o [
              | none ↦ (ok tt, r)
              | some e ↦ (err e, r)
            ] in
              Ends (λ _. Settled) (λ _. Settled) out.0 out.1
        go r none h = h
        go r (some e) h = h

    finalize-Settled :
        (id : Text) (steps : List Step)
        → Triple Settled
            (finalize_at_round_limit p specs tools id steps)
            (λ _. Settled)
            (λ _. Settled)
    unfolding finalize_at_round_limit
    finalize-Settled id steps = Triple-bind {Q = λ _. Settled} _ _ check_context-Settled λ _.
        Triple-bind {Q = λ _. Settled} _ _
          (attempt-Settled (final_answer p specs tools id steps) (final_answer-Settled id steps))
          λ o. elim o as (λ o. Triple Settled (summed o) (λ _. Settled) (λ _. Settled)) [
            | none ↦ give_answer-Settled id _ _ steps _
            | some response ↦ Triple-pure {Q = λ _. Settled} response
          ]
      where
        summed : Option TurnResponse → M Env TurnResponse
        summed o = elim o [
          | some response ↦ pure response
          | none ↦
              give_answer p specs tools id (max_agent_rounds + 1) (lit "正在生成检查总结") steps
                (limit_reply steps)
        ]

    pub unless_paused-Kept :
        (out : TurnResponse × Bool) (next : List Step → M Env TurnResponse)
        → ((steps : List Step) → Triple Settled (next steps) (λ _. Kept) (λ _. Settled))
        → Triple (Paused out) (unless_paused p specs tools out next) (λ _. Kept) (λ _. Settled)
    unfolding unless_paused
    unless_paused-Kept (response, true) next h = Triple-pure {Q = λ _. Kept} response
    unless_paused-Kept (response, false) next h = h response.steps

    follow_up-Kept :
        (calls : List ToolCall) (round : ℕ) (id : Text) (steps : List Step) (content : Text)
        (next : List Step → M Env TurnResponse)
        → ((more : List Step) → Triple Settled (next more) (λ _. Kept) (λ _. Settled))
        → Triple
            (Owes (ids calls))
            (follow_up p specs tools calls round id steps content next)
            (λ _. Kept)
            (λ _. Settled)
    unfolding follow_up
    follow_up-Kept [] round id steps content next h =
        Triple-if (is_blank content) _ _ (λ _. Triple-fail _ (λ r s. s))
          (λ _.
            Triple-mono _ (λ _. Settled-Kept) (λ _ r s. s)
              (give_answer-Settled id round _ steps (trim_space content)))
    follow_up-Kept (call ∷ calls) round id steps content next h =
        Triple-bind _ _ (emit-Owes (ids (call ∷ calls)) _) λ _.
          Triple-bind _ _ (process_calls-Paused id (call ∷ calls) steps)
            λ out. unless_paused-Kept out next h

    -- From an answered conversation the rounds end in one that is answered or waits for an
    -- approval, and in an answered one where they fail.
    pub continue_rounds-Kept :
        (n : ℕ) (id : Text) (steps : List Step)
        → Triple Settled (continue_rounds p specs tools n id steps) (λ _. Kept) (λ _. Settled)
    unfolding continue_rounds
    continue_rounds-Kept zero id steps =
        Triple-mono _ (λ _. Settled-Kept) (λ _ r s. s) (finalize-Settled id steps)
    continue_rounds-Kept (suc n) id steps =
        Triple-bind _ _ (ask_model-Owes (max_agent_rounds - n)) λ m.
          follow_up-Kept m.tool_calls _ id steps m.content (continue_rounds p specs tools n id)
            (λ more. continue_rounds-Kept n id more)
