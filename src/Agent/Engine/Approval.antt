-- ===== src/Agent/Engine/Approval.antt =====
-- What requests do to the machine: the tools that they run and the questions that they ask, read off
-- a log that the outside world keeps.
use longhub_manager.Common.{
  ℕ, suc, ◌≤◌, ◌≡◌, refl, Bool, true, false, ◌||◌, Option, none, some, List, [], ◌∷◌, Text, text_eq,
  text_eq_iff, is_empty, is_blank, contains_byte, trim_space, length, ltb, Result, ok, err, fail,
  pure, ◌>>=◌, Ends, Triple, Triple-fail, Triple-if, Triple-bind, Triple-mono, Bool-cases, ◌⊎◌, inl,
  inr, arith,
}
use longhub_manager.Agent.Message.{ToolDefinition}
use longhub_manager.Agent.Session.{
  ToolSpec, Step, TurnResponse, Pending, Session, Ports, max_user_message_bytes,
}
use longhub_manager.Agent.Turn.{Run, M, emit, push, set_pending, compact_session}
use longhub_manager.Agent.Rounds.{touch, continue_locked}
use longhub_manager.Agent.Rounds.Budget.{
  IsFree, IsBudget, spent, run_tool-Spends, refuse_call-Spends, process_calls-Spends,
  attempt-Spends, unless_paused-Spends, continue_rounds-Spends,
}
use longhub_manager.Agent.Engine.{
  Sessions, Engine, find_session, prune, new_session, open_session, open_existing, on_session,
  take_turn, finish_turn, run_turn, turn_with_events, summary_fallback, or_fallback, decide,
  conclude, resume, resolve_locked, run_resolve, resolve_approval,
}
use longhub_manager.Agent.Engine.Table.{Each, find-Each}
use longhub_manager.Agent.Engine.Order.{open_existing-Each}

-- A use of the outside world: a question to the model, or a tool with its arguments.
pub data Use : Type 0 where
  asked : Use
  ran : Text → Text → Use

-- The same world, with a log of its uses, newest first.
abbrev pub traced : Ports → Ports
traced p = record {
  Env = p.Env × List Use;
  Credentials = p.Credentials;
  credentials = λ env. let (a, e) = p.credentials env.0 in (a, (e, env.1));
  complete = λ c ms ts env. let (a, e) = p.complete c ms ts env.0 in (a, (e, asked ∷ env.1));
  execute =
      λ name args env. let (a, e) = p.execute name args env.0 in (a, (e, ran name args ∷ env.1));
  random_id = λ env. let (a, e) = p.random_id env.0 in (a, (e, env.1));
  now = λ env. let (t, e) = p.now env.0 in (t, (e, env.1));
  context_error = λ env. p.context_error env.0;
  is_object = p.is_object;
  replace_all = p.replace_all;
}

-- How often the model was asked.
abbrev pub asks : List Use → ℕ
asks [] = 0
asks (asked ∷ log) = suc (asks log)
asks (ran name args ∷ log) = asks log

-- Every tool that was run satisfies the predicate of its name and arguments.
abbrev pub Runs : (Text → Text → Type 0) → List Use → Type 0
Runs P [] = Unit
Runs P (asked ∷ log) = Runs P log
Runs P (ran name args ∷ log) = P name args × Runs P log

-- The session is in the table.
abbrev pub In : Session → Sessions → Type 0
In s [] = ⊥
In s (entry ∷ table) = (s ≡ entry.1) ⊎ In s table

-- The user was asked about this very call, and this is the request's approval.
pub record IsApproved (table : Sessions) (approval_id name args : Text) : Type 0 where
  pub session : Session
  pub pending : Pending
  pub held : In session table
  pub waits : session.pending ≡ some pending
  pub id : pending.approval.id ≡ approval_id
  pub call_name : name ≡ pending.call.name
  pub call_args : args ≡ pending.call.arguments

module _ (p : Ports) (specs : List (Text × ToolSpec)) (tools : List ToolDefinition)
    (P : Text → Text → Type 0) (free : (name args : Text) → IsFree specs name → P name args) where
  -- At most `k` questions, and only tools that satisfy `P`.
  abbrev Logged : ℕ → (traced p).Env → Type 0
  Logged k env = (asks env.1 ≤ k) × Runs P env.1

  logged : IsBudget (traced p) specs Logged
  logged = record {
    spend = λ k env h. (omega (arith, h.0), h.1);
    credentials = λ k env h. h;
    complete = λ k c ms ts env h. (omega (arith, h.0), h.1);
    execute = λ k name args env f h. (h.0, (free name args f, h.1));
    random_id = λ k env h. h;
    now = λ k env h. h;
  }

  -- The log through the statements that run under a session's lock.
  on_session-Logged :
      {A : Type 0} (k l : ℕ) (id : Text) (m : Session → M (traced p).Env A)
      (e : Engine (traced p).Env)
      → k ≤ l
      → ((s : Session) (r : Run (traced p).Env)
          → find_session id e.sessions ≡ some s
          → Logged k r.env
          → Logged l (m s r).1.env)
      → Logged k e.env
      → Logged l (on_session (traced p) specs tools id m e).1.env
  unfolding on_session
  on_session-Logged k l id m e up step h = go (find_session id e.sessions) refl
    where
      go :
          (o : Option Session)
          → find_session id e.sessions ≡ o
          → Logged l (on_session (traced p) specs tools id m e).1.env
      go none q = rw (q, on_session) (omega (arith, h.0), h.1)
      go (some s) q = rw (q, on_session) (step s _ q h)

  new_session-Logged :
      (k : ℕ) (e : Engine (traced p).Env)
      → Logged k e.env
      → Logged k (new_session (traced p) specs tools e).1.env
  unfolding new_session
  new_session-Logged k e h = go (p.random_id e.env.0).0 refl
    where
      go :
          (a : Result Text Text)
          → (p.random_id e.env.0).0 ≡ a
          → Logged k (new_session (traced p) specs tools e).1.env
      go (err x) q = rw (q, new_session) h
      go (ok id) q = rw (q, new_session) h

  open_session-Logged :
      (k : ℕ) (id : Text) (e : Engine (traced p).Env)
      → Logged k e.env
      → Logged k (open_session (traced p) specs tools id e).1.env
  unfolding open_session prune ◌>>=◌
  open_session-Logged k id e h = elim (Bool-cases (is_blank id)) [
    | inl q ↦
        rw (q, open_session, ◌>>=◌) (new_session-Logged k (prune (traced p) specs tools e).1 h)
    | inr q ↦ rw (q, open_session, ◌>>=◌) h
  ]

  open_existing-Logged :
      (k : ℕ) (id : Text) (e : Engine (traced p).Env)
      → Logged k e.env
      → Logged k (open_existing (traced p) specs tools id e).1.env
  unfolding open_existing fail
  open_existing-Logged k id e h = elim (Bool-cases (is_blank id)) [
    | inl q ↦ rw (q, open_existing, fail) h
    | inr q ↦ rw (q, open_existing) (open_session-Logged k id e h)
  ]

  -- Whether the statements return or fail.
  log_of :
      {A : Type 0} (l : ℕ) (a : Result Text A) (r : Run (traced p).Env)
      → Ends (λ _ r. Logged l r.env) (λ _ r. Logged l r.env) a r
      → Logged l r.env
  log_of l (ok a) r h = h
  log_of l (err e) r h = h

  take_turn-Logged :
      (k : ℕ) (o : Option Pending) (id message : Text) (r : Run (traced p).Env)
      → Logged k r.env
      → Logged (spent 12 k) (take_turn (traced p) specs tools o id message r).1.env
  unfolding take_turn push touch emit continue_locked fail ◌>>=◌
  take_turn-Logged k (some pending) id message r h = (omega (arith, h.0), h.1)
  take_turn-Logged k none id message r h =
      log_of (spent 12 k) _ _
        ((continue_rounds-Spends (traced p) specs tools Logged logged 12 k id []).at _ h)

  finish_turn-Logged :
      (k : ℕ) (is_new : Bool) (id : Text) (a : Result Text TurnResponse) (e : Engine (traced p).Env)
      → Logged k e.env
      → Logged k (finish_turn (traced p) specs tools is_new id a e).1.env
  unfolding finish_turn
  finish_turn-Logged k is_new id (ok x) e h = h
  finish_turn-Logged k false id (err x) e h = h
  finish_turn-Logged k true id (err x) e h = h

  run_turn-Logged :
      (k : ℕ) (is_new : Bool) (message : Text) (a : Result Text Text) (e : Engine (traced p).Env)
      → Logged k e.env
      → Logged (spent 12 k) (run_turn (traced p) specs tools is_new message a e).1.env
  unfolding run_turn
  run_turn-Logged k is_new message (err x) e h = (omega (arith, h.0), h.1)
  run_turn-Logged k is_new message (ok id) e h = finish_turn-Logged (spent 12 k) is_new id _ _ (
      on_session-Logged k (spent 12 k) id _ e (omega arith)
        (λ s r q i. take_turn-Logged k s.pending id message r i) h)

  turn-Logged :
      (k : ℕ) (session_id user_message : Text) (e : Engine (traced p).Env)
      → Logged k e.env
      → Logged
          (spent 12 k)
          (turn_with_events (traced p) specs tools session_id user_message e).1.env
  unfolding turn_with_events
  turn-Logged k session_id user_message e h =
      elim (Bool-cases (refused (trim_space user_message))) [
        | inl q ↦ rw (q, turn_with_events) (omega (arith, h.0), h.1)
        | inr q ↦
            rw (q, turn_with_events)
              (run_turn-Logged k (is_blank session_id) (trim_space user_message) _ _
                (open_session-Logged k session_id e h))
      ]
    where
      refused : Text → Bool
      refused message =
          is_empty message || ltb max_user_message_bytes (length message) || contains_byte 0 message

  -- An action that may use up a turn's questions.
  abbrev Turns : {A : Type 0} → ℕ → M (traced p).Env A → Type 0
  Turns k m =
      Triple (λ r. Logged k r.env) m (λ _ r. Logged (spent 12 k) r.env)
        (λ _ r. Logged (spent 12 k) r.env)

  summary_fallback-Logged :
      (k : ℕ) (id : Text) (steps : List Step) (approved : Bool)
      → Triple
          (λ r. Logged k r.env)
          (summary_fallback (traced p) specs tools id steps approved)
          (λ _ r. Logged k r.env)
          (λ _ r. Logged k r.env)
  unfolding summary_fallback compact_session pure ◌>>=◌
  summary_fallback-Logged k id steps approved = record { at = λ r h. h }

  or_fallback-Logged :
      (k : ℕ) (m : M (traced p).Env TurnResponse) (id : Text) (steps : List Step) (approved : Bool)
      → Turns k m
      → Turns k (
          or_fallback
            (traced p)
            specs
            tools
            m
            (summary_fallback (traced p) specs tools id steps approved))
  unfolding or_fallback
  or_fallback-Logged k m id steps approved h = record { at = λ r i. go (m r).0 (m r).1 (h.at r i) }
    where
      go :
          (a : Result Text TurnResponse) (r : Run (traced p).Env)
          → Ends (λ _ r. Logged (spent 12 k) r.env) (λ _ r. Logged (spent 12 k) r.env) a r
          → let out : Result Text TurnResponse × Run (traced p).Env = elim a [
            | ok x ↦ (ok x, r)
            | err _ ↦ summary_fallback (traced p) specs tools id steps approved r
          ] in
            Ends (λ _ r. Logged (spent 12 k) r.env) (λ _ r. Logged (spent 12 k) r.env) out.0 out.1
      go (ok a) r i = i
      go (err e) r i = (summary_fallback-Logged (spent 12 k) id steps approved).at r i

  conclude-Logged :
      (k : ℕ) (id : Text) (steps : List Step) (approved : Bool) (o : Option (TurnResponse × Bool))
      → Turns k (conclude (traced p) specs tools id steps approved o)
  unfolding conclude continue_locked
  conclude-Logged k id steps approved none =
      Triple-mono _ (λ _ r i. (omega (arith, i.0), i.1)) (λ _ r i. (omega (arith, i.0), i.1))
        (summary_fallback-Logged k id steps approved)
  conclude-Logged k id steps approved (some out) =
      unless_paused-Spends (traced p) specs tools Logged logged k (spent 12 k) out _
        (λ env i. (omega (arith, i.0), i.1))
        (λ more.
          or_fallback-Logged k _ id more approved
            (continue_rounds-Spends (traced p) specs tools Logged logged 12 k id more))

  -- The decision runs the pending tool only if the user approved.
  decide-Logged :
      (k : ℕ) (pending : Pending) (approved : Bool)
      → (approved ≡ true → P pending.call.name pending.call.arguments)
      → Triple
          (λ r. Logged k r.env)
          (decide (traced p) specs tools pending approved)
          (λ _ r. Logged k r.env)
          (λ _ r. Logged k r.env)
  unfolding decide
  decide-Logged k pending true h =
      run_tool-Spends (traced p) specs tools Logged logged k pending.call _
        (λ env i. (i.0, (h refl, i.1)))
  decide-Logged k pending false h =
      refuse_call-Spends (traced p) specs tools Logged logged k pending.call _ _ _

  Turns-bind :
      {A B : Type 0} (k : ℕ) (m : M (traced p).Env A) (f : A → M (traced p).Env B)
      → Triple (λ r. Logged k r.env) m (λ _ r. Logged k r.env) (λ _ r. Logged k r.env)
      → ((a : A) → Turns k (f a))
      → Turns k (m >>= f)
  Turns-bind k m f h g =
      Triple-bind m f (Triple-mono m (λ _ r i. i) (λ _ r i. (omega (arith, i.0), i.1)) h) g

  set_pending-Logged :
      (k : ℕ) (o : Option Pending)
      → Triple (λ r. Logged k r.env) (set_pending o) (λ _ r. Logged k r.env) (λ _ r. Logged k r.env)
  unfolding set_pending
  set_pending-Logged k o = record { at = λ r i. i }

  resume-Logged :
      (k : ℕ) (id : Text) (pending : Pending) (approved : Bool)
      → (approved ≡ true → P pending.call.name pending.call.arguments)
      → Turns k (resume (traced p) specs tools id pending approved)
  unfolding resume
  resume-Logged k id pending approved h = Turns-bind k _ _ (set_pending-Logged k none) λ _.
      Turns-bind k _ _ (decide-Logged k pending approved h) λ step.
        Turns-bind k _ _
          (attempt-Spends (traced p) specs tools Logged logged k k _ (
            process_calls-Spends (traced p) specs tools Logged logged k id pending.remaining
              (step ∷ [])))
          λ o. conclude-Logged k id (step ∷ []) approved o

  resolve_locked-Logged :
      (k : ℕ) (o : Option Pending) (id approval_id : Text) (approved : Bool)
      → ((pending : Pending)
          → o ≡ some pending
          → pending.approval.id ≡ approval_id
          → approved ≡ true
          → P pending.call.name pending.call.arguments)
      → Turns k (resolve_locked (traced p) specs tools o id approval_id approved)
  unfolding resolve_locked
  resolve_locked-Logged k none id approval_id approved h =
      Triple-fail _ (λ r i. (omega (arith, i.0), i.1))
  resolve_locked-Logged k (some pending) id approval_id approved h =
      Triple-if (text_eq pending.approval.id approval_id) _ _
        (λ q.
          resume-Logged k id pending approved
            (h pending refl ((text_eq_iff pending.approval.id approval_id).0 q)))
        (λ q. Triple-fail _ (λ r i. (omega (arith, i.0), i.1)))

  run_resolve-Logged :
      (k : ℕ) (approval_id : Text) (approved : Bool) (a : Result Text Text)
      (e : Engine (traced p).Env)
      → Each
          (λ s.
            (pending : Pending)
            → s.pending ≡ some pending
            → pending.approval.id ≡ approval_id
            → approved ≡ true
            → P pending.call.name pending.call.arguments)
          e.sessions
      → Logged k e.env
      → Logged (spent 12 k) (run_resolve (traced p) specs tools approval_id approved a e).1.env
  unfolding run_resolve
  run_resolve-Logged k approval_id approved (err x) e h i = (omega (arith, i.0), i.1)
  run_resolve-Logged k approval_id approved (ok id) e h i =
      on_session-Logged k (spent 12 k) id _ e (omega arith)
        (λ s r q j. log_of (spent 12 k) _ _ (
          (resolve_locked-Logged k s.pending id approval_id approved
              (find-Each _ id e.sessions s h q)).at
            r j))
        i

-- A turn that starts with an empty log of the calls to the model and the tools asks the model at
-- most 13 times, and runs only registered tools that need no approval.
pub turn_with_events-IsFree :
    (p : Ports) (specs : List (Text × ToolSpec)) (tools : List ToolDefinition)
    (session_id user_message : Text) (e : Engine (traced p).Env)
    → e.env.1 ≡ []
    → let log = (turn_with_events (traced p) specs tools session_id user_message e).1.env.1 in
      (asks log ≤ 13) × Runs (λ name args. IsFree specs name) log
turn_with_events-IsFree p specs tools session_id user_message e q =
    turn-Logged p specs tools (λ name args. IsFree specs name) (λ name args f. f) 0 session_id
      user_message e (rw q (omega arith))

Each-In :
    (table : Sessions) (P : Session → Type 0) → ((s : Session) → In s table → P s) → Each P table
Each-In [] P h = tt
Each-In (entry ∷ table) P h = (h entry.1 (inl refl), Each-In table P (λ s i. h s (inr i)))

-- Resolving an approval, from an empty log of the calls to the model and the tools, asks the model
-- at most 13 times. Besides registered tools that need no approval it runs only the very call that
-- a session's pending approval of the given id was asked for, and that only if the user approved.
pub resolve_approval-IsApproved :
    (p : Ports) (specs : List (Text × ToolSpec)) (tools : List ToolDefinition)
    (session_id approval_id : Text) (approved : Bool) (e : Engine (traced p).Env)
    → e.env.1 ≡ []
    → let log =
        (resolve_approval (traced p) specs tools session_id approval_id approved e).1.env.1 in
      (asks log ≤ 13)
      × Runs
          (λ name args.
            IsFree specs name ⊎ ((approved ≡ true) × IsApproved e.sessions approval_id name args))
          log
unfolding resolve_approval
resolve_approval-IsApproved p specs tools session_id approval_id approved e q =
    run_resolve-Logged p specs tools _ (λ name args f. inl f) 0 approval_id approved _ _
      (open_existing-Each (traced p) specs tools _ session_id e (
        Each-In e.sessions _ λ s i pending w same yes_. inr (
          yes_,
          record {
            session = s;
            pending = pending;
            held = i;
            waits = w;
            id = same;
            call_name = refl;
            call_args = refl;
          },
        )))
      (open_existing-Logged p specs tools _ (λ name args f. inl f) 0 session_id e
        (rw q (omega arith)))
