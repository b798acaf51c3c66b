-- ===== src/Agent/Engine/Order.antt =====
-- Every request leaves every session a conversation that the model accepts.
use mathlib.Core.Path.{subst}
use longhub_manager.Common.{
  ℕ, suc, ◌≡◌, refl, sym, ap, ◌∙◌, Bool, true, false, ◌||◌, Option, none, some, List, [], ◌∷◌, Text,
  text_eq, is_empty, is_blank, contains_byte, trim_space, length, ltb, Result, ok, err, fail, pure,
  ◌>>=◌, Ends, Triple, Triple-fail, Triple-if, Triple-bind, Triple-mono, Bool-cases, inl, inr,
}
use longhub_manager.Agent.Message.{ToolDefinition}
use longhub_manager.Agent.Message.Validity.{ids}
use longhub_manager.Agent.Session.{
  ToolSpec, Step, TurnResponse, Pending, Session, Ports, max_user_message_bytes,
}
use longhub_manager.Agent.Turn.{Run, M, emit, push, set_pending, compact_session, attempt}
use longhub_manager.Agent.Rounds.{touch, continue_locked}
use longhub_manager.Agent.Rounds.Transcript.{
  said, IsTranscript, owed, said-append, say-user, said-compact,
}
use longhub_manager.Agent.Rounds.Conversation.{
  IsReliable, Owes, Settled, Kept, Paused, Settled-Kept, run_tool-Owes, refuse_call-Owes,
  process_calls-Paused, unless_paused-Kept, continue_rounds-Kept,
}
use longhub_manager.Agent.Engine.{
  Engine, find_session, prune, new_session, open_session, open_existing, on_session, take_turn,
  turn_with_events, summary_fallback, or_fallback, decide, conclude, resume, resolve_locked,
  run_resolve, resolve_approval, finish_turn, run_turn,
}
use longhub_manager.Agent.Engine.Table.{
  Each, find-Each, update-Each, delete-Each, prune-Each, evict-Each,
}

module _ (p : Ports) (specs : List (Text × ToolSpec)) (tools : List ToolDefinition) where
  open p use {Env}

  -- A predicate on sessions through the statements that run under a session's lock.
  module _ (P : Session → Type 0) where
    pub on_session-Each :
        {A : Type 0} (id : Text) (m : Session → M Env A) (e : Engine Env)
        → ((s : Session) (r : Run Env) → r.session ≡ s → P s → P (m s r).1.session)
        → Each P e.sessions
        → Each P (on_session p specs tools id m e).1.sessions
    unfolding on_session
    on_session-Each id m e step h = go (find_session id e.sessions) refl
      where
        go :
            (o : Option Session)
            → find_session id e.sessions ≡ o
            → Each P (on_session p specs tools id m e).1.sessions
        go none q = rw (q, on_session) h
        go (some s) q =
            rw (q, on_session)
              (update-Each P id _ e.sessions (step s _ refl (find-Each P id e.sessions s h q)) h)

    prune-Each' : (e : Engine Env) → Each P e.sessions → Each P (prune p specs tools e).1.sessions
    unfolding prune
    prune-Each' e h = prune-Each P _ e.sessions h

    -- A new session starts empty.
    module _ (fresh : (t : ℕ) → P (record { messages = []; pending = none; updated = t })) where
      new_session-Each :
          (e : Engine Env) → Each P e.sessions → Each P (new_session p specs tools e).1.sessions
      unfolding new_session
      new_session-Each e h = go (p.random_id e.env).0 refl
        where
          go :
              (a : Result Text Text)
              → (p.random_id e.env).0 ≡ a
              → Each P (new_session p specs tools e).1.sessions
          go (err x) q = rw (q, new_session) (evict-Each P (suc (length e.sessions)) e.sessions h)
          go (ok id) q =
              rw (q, new_session)
                (fresh _, delete-Each P id _ (evict-Each P (suc (length e.sessions)) e.sessions h))

      pub open_session-Each :
          (id : Text) (e : Engine Env)
          → Each P e.sessions
          → Each P (open_session p specs tools id e).1.sessions
      unfolding open_session ◌>>=◌
      open_session-Each id e h = elim (Bool-cases (is_blank id)) [
        | inl q ↦ rw (q, open_session, ◌>>=◌) (new_session-Each _ (prune-Each' e h))
        | inr q ↦ rw (q, open_session, ◌>>=◌) (prune-Each' e h)
      ]

    -- A request for an existing session adds none.
    pub open_existing-Each :
        (id : Text) (e : Engine Env)
        → Each P e.sessions
        → Each P (open_existing p specs tools id e).1.sessions
    unfolding open_existing open_session fail ◌>>=◌
    open_existing-Each id e h = elim (Bool-cases (is_blank id)) [
      | inl q ↦ rw (q, open_existing, fail) h
      | inr q ↦ rw (q, open_existing, open_session, ◌>>=◌) (prune-Each' e h)
    ]

  module _ (reliable : IsReliable p) where
    -- The run starts from a session in order.
    abbrev Starts : Option Pending → Run Env → Type 0
    Starts o r = Kept r × (r.session.pending ≡ o)

    take_turn-Kept :
        (o : Option Pending) (id message : Text)
        → Triple (Starts o) (take_turn p specs tools o id message) (λ _. Kept) (λ _. Kept)
    unfolding take_turn push touch emit continue_locked ◌>>=◌
    take_turn-Kept (some pending) id message = Triple-fail _ (λ r h. h.0)
    take_turn-Kept none id message = record {
      at = λ r h.
          (Triple-mono _ (λ _ r k. k) (λ _. Settled-Kept)
              (continue_rounds-Kept p specs tools reliable 12 id [])).at
            _
            (
              said-append [] r.session.messages _ [] (h.0 ∙ ap (λ o. some (owed o)) h.1)
                  ∙ say-user message,
              h.1,
            );
    }

    summary_fallback-Kept :
        {X : Text → Run Env → Type 0} (id : Text) (steps : List Step) (approved : Bool)
        → Triple Settled (summary_fallback p specs tools id steps approved) (λ _. Kept) X
    unfolding summary_fallback compact_session pure ◌>>=◌
    summary_fallback-Kept id steps approved = record {
      at = λ r h. said-compact r.session.messages [] h.0 ∙ ap (λ o. some (owed o)) (sym h.1);
    }

    or_fallback-Kept :
        {X : Text → Run Env → Type 0} (m fallback : M Env TurnResponse)
        → Triple Settled m (λ _. Kept) (λ _. Settled)
        → Triple Settled fallback (λ _. Kept) X
        → Triple Settled (or_fallback p specs tools m fallback) (λ _. Kept) X
    unfolding or_fallback
    or_fallback-Kept {X} m fallback h k = record { at = λ r s. go (m r).0 (m r).1 (h.at r s) }
      where
        go :
            (a : Result Text TurnResponse) (r : Run Env)
            → Ends (λ _. Kept) (λ _. Settled) a r
            → let out : Result Text TurnResponse × Run Env = elim a [
              | ok x ↦ (ok x, r)
              | err _ ↦ fallback r
            ] in
              Ends (λ _. Kept) X out.0 out.1
        go (ok a) r s = s
        go (err e) r s = k.at r s

    decide-Owes :
        {X : Text → Run Env → Type 0} (pending : Pending) (approved : Bool)
        → Triple
            (Owes (owed (some pending)))
            (decide p specs tools pending approved)
            (λ _. Owes (ids pending.remaining))
            X
    unfolding decide
    decide-Owes pending true = run_tool-Owes p specs tools pending.call _ (ids pending.remaining)
    decide-Owes pending false =
        refuse_call-Owes p specs tools pending.call _ _ _ (ids pending.remaining)

    -- The loop's result, kept where it fails.
    abbrev Tried : Option (TurnResponse × Bool) → Run Env → Type 0
    Tried none r = Settled r
    Tried (some out) r = Paused out r

    attempt-Tried :
        {X : Text → Run Env → Type 0} (l : List Text) (m : M Env (TurnResponse × Bool))
        → Triple (Owes l) m Paused (λ _. Settled)
        → Triple (Owes l) (attempt m) Tried X
    unfolding attempt
    attempt-Tried {X} l m h = record { at = λ r s. go (m r).0 (m r).1 (h.at r s) }
      where
        go :
            (a : Result Text (TurnResponse × Bool)) (r : Run Env)
            → Ends Paused (λ _. Settled) a r
            → let o : Result Text (Option (TurnResponse × Bool)) = elim a [
              | ok x ↦ ok (some x)
              | err _ ↦ ok none
            ] in
              Ends Tried X o r
        go (ok a) r s = s
        go (err e) r s = s

    conclude-Kept :
        (id : Text) (steps : List Step) (approved : Bool) (o : Option (TurnResponse × Bool))
        → Triple (Tried o) (conclude p specs tools id steps approved o) (λ _. Kept) (λ _. Settled)
    unfolding conclude continue_locked
    conclude-Kept id steps approved none = summary_fallback-Kept id steps approved
    conclude-Kept id steps approved (some out) =
        unless_paused-Kept p specs tools reliable out _ λ more.
          or_fallback-Kept _ _ (continue_rounds-Kept p specs tools reliable 12 id more)
            (summary_fallback-Kept id more approved)

    set_pending-Owes :
        {X : Text → Run Env → Type 0} (pending : Pending)
        → Triple (Starts (some pending)) (set_pending none) (λ _. Owes (owed (some pending))) X
    unfolding set_pending
    set_pending-Owes pending = record { at = λ r h. (h.0 ∙ ap (λ o. some (owed o)) h.1, refl) }

    resume-Kept :
        (id : Text) (pending : Pending) (approved : Bool)
        → Triple
            (Starts (some pending))
            (resume p specs tools id pending approved)
            (λ _. Kept)
            (λ _. Settled)
    unfolding resume
    resume-Kept id pending approved = Triple-bind _ _ (set_pending-Owes pending) λ _.
        Triple-bind _ _ (decide-Owes pending approved) λ step.
          Triple-bind _ _
            (attempt-Tried (ids pending.remaining) _
              (process_calls-Paused p specs tools reliable id pending.remaining (step ∷ [])))
            λ o. conclude-Kept id (step ∷ []) approved o

    resolve_locked-Kept :
        (o : Option Pending) (id approval_id : Text) (approved : Bool)
        → Triple
            (Starts o)
            (resolve_locked p specs tools o id approval_id approved)
            (λ _. Kept)
            (λ _. Kept)
    unfolding resolve_locked
    resolve_locked-Kept none id approval_id approved = Triple-fail _ (λ r h. h.0)
    resolve_locked-Kept (some pending) id approval_id approved =
        Triple-if (text_eq pending.approval.id approval_id) _ _
          (λ _. Triple-mono _ (λ _ r k. k) (λ _. Settled-Kept) (resume-Kept id pending approved))
          (λ _. Triple-fail _ (λ r h. h.0))

    -- Whether the statements return or fail.
    session_of :
        {A : Type 0} (a : Result Text A) (r : Run Env)
        → Ends (λ _. Kept) (λ _. Kept) a r
        → IsTranscript r.session
    session_of (ok a) r h = h
    session_of (err e) r h = h

    locked-Each :
        {A : Type 0} (m : Option Pending → M Env A)
        → ((o : Option Pending) → Triple (Starts o) (m o) (λ _. Kept) (λ _. Kept))
        → (id : Text) (e : Engine Env) → Each IsTranscript e.sessions
        → Each IsTranscript (on_session p specs tools id (λ s. m s.pending) e).1.sessions
    locked-Each m h id e =
        on_session-Each IsTranscript id (λ s. m s.pending) e
          λ s r q t.
            session_of (m s.pending r).0 (m s.pending r).1
              ((h s.pending).at r (subst IsTranscript (sym q) t, ap (λ s. s.pending) q))

    fresh-IsTranscript :
        (t : ℕ) → IsTranscript (record { messages = []; pending = none; updated = t })
    unfolding said
    fresh-IsTranscript t = refl

    finish_turn-Each :
        (is_new : Bool) (id : Text) (a : Result Text TurnResponse) (e : Engine Env)
        → Each IsTranscript e.sessions
        → Each IsTranscript (finish_turn p specs tools is_new id a e).1.sessions
    unfolding finish_turn
    finish_turn-Each is_new id (ok x) e h = h
    finish_turn-Each false id (err x) e h = h
    finish_turn-Each true id (err x) e h = delete-Each IsTranscript id e.sessions h

    run_turn-Each :
        (is_new : Bool) (message : Text) (a : Result Text Text) (e : Engine Env)
        → Each IsTranscript e.sessions
        → Each IsTranscript (run_turn p specs tools is_new message a e).1.sessions
    unfolding run_turn
    run_turn-Each is_new message (err x) e h = h
    run_turn-Each is_new message (ok id) e h = finish_turn-Each is_new id _ _ (
        locked-Each (λ o. take_turn p specs tools o id message) (λ o. take_turn-Kept o id message)
          id e h)

    -- If the model client checks its messages and random ids are to be had, a turn keeps the
    -- messages of every session in order: where, before the turn, the calls of each assistant
    -- message of every session are answered, each once and in order, but for those that wait for
    -- an approval, this is so after the turn, whether it succeeds or fails.
    pub turn_with_events-IsTranscript :
        (session_id user_message : Text) (e : Engine Env)
        → Each IsTranscript e.sessions
        → Each IsTranscript (turn_with_events p specs tools session_id user_message e).1.sessions
    unfolding turn_with_events
    turn_with_events-IsTranscript session_id user_message e h =
        elim (Bool-cases (refused (trim_space user_message))) [
          | inl q ↦ rw (q, turn_with_events) h
          | inr q ↦
              rw (q, turn_with_events)
                (run_turn-Each (is_blank session_id) (trim_space user_message) _ _
                  (open_session-Each IsTranscript fresh-IsTranscript session_id e h))
        ]
      where
        refused : Text → Bool
        refused message =
            is_empty message
            || ltb max_user_message_bytes (length message)
            || contains_byte 0 message

    run_resolve-Each :
        (approval_id : Text) (approved : Bool) (a : Result Text Text) (e : Engine Env)
        → Each IsTranscript e.sessions
        → Each IsTranscript (run_resolve p specs tools approval_id approved a e).1.sessions
    unfolding run_resolve
    run_resolve-Each approval_id approved (err x) e h = h
    run_resolve-Each approval_id approved (ok id) e h =
        locked-Each (λ o. resolve_locked p specs tools o id approval_id approved)
          (λ o. resolve_locked-Kept o id approval_id approved) id e h

    -- If the model client checks its messages and random ids are to be had, resolving an approval
    -- keeps the messages of every session in order in the same sense, whatever ids and decision
    -- are given and whether it succeeds or fails.
    pub resolve_approval-IsTranscript :
        (session_id approval_id : Text) (approved : Bool) (e : Engine Env)
        → Each IsTranscript e.sessions
        → Each IsTranscript
            (resolve_approval p specs tools session_id approval_id approved e).1.sessions
    unfolding resolve_approval
    resolve_approval-IsTranscript session_id approval_id approved e h =
        run_resolve-Each approval_id approved _ _ (open_existing-Each IsTranscript session_id e h)
