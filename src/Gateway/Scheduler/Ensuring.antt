-- ===== src/Gateway/Scheduler/Ensuring.antt =====
-- When `EnsureScheduledTask` of internal/runtime/process_control.go changes the task.
use longhub_manager.Common.{
  ◌≡◌, refl, sym, ◌∙◌, List, ◌∷◌, ◌⊎◌, inl, inr, Bool, true, false, not, Option, none, some, Text,
  Result, ok, err, arith, if◌then◌else◌,
}
use longhub_manager.Gateway.Task.{
  is_longhub, TaskError, task_not_found, control_unavailable, task_inspection_failed,
  identity_mismatch, foreign_owner, operation_failed, invalid_command, context_done,
  other_task_error, TaskFormats, task_path_name, build_task_xml,
}
use longhub_manager.Gateway.Scheduler.{
  Scheduler, Lifecycle, Inspection, inspect_ownership, Verdict, proceed, finished, refused, refusal,
  ensure_verdict, proven, verify_registered, registered, carry_out_ensure, ensure_with,
  ensure_scheduled_task,
}
use longhub_manager.Gateway.Scheduler.Knowledge.{
  IsTaskStore, IsOurs, IsKnown, inspect_ownership_lem,
}

-- The calls that change tasks.
pub data Change : Type 0 where
  registering : Text → Text → Change
  deleting : Text → Change

-- The changes that were asked of the scheduler so far, the last one first. What the scheduler makes of
-- a registered XML is its own affair.
pub record IsChangeLog (s : Scheduler) : Type 0 where
  pub changes : s.Env → List Change
  pub query_asks_none : (path : Text) (env : s.Env) → changes (s.query path env).1 ≡ changes env
  pub register_asks :
      (l : Lifecycle s.Env) (path xml : Text) (env : s.Env)
      → s.lifecycle ≡ some l
      → changes (l.register path xml env).1 ≡ registering path xml ∷ changes env
  pub delete_asks :
      (l : Lifecycle s.Env) (path : Text) (env : s.Env)
      → s.lifecycle ≡ some l
      → changes (l.delete path env).1 ≡ deleting path ∷ changes env

module _ (t : TaskFormats) (s : Scheduler) (k : IsTaskStore s) (c : IsChangeLog s) where
  open s use {Env}

  inspection_asks_none : (env : Env) → c.changes (inspect_ownership t s env).1 ≡ c.changes env
  unfolding inspect_ownership
  inspection_asks_none env = go (s.context_error env) refl
    where
      go :
          (o : Option TaskError)
          → s.context_error env ≡ o
          → c.changes (inspect_ownership t s env).1 ≡ c.changes env
      go (some e) q = rw (q, inspect_ownership) refl
      go none q = rw (q, inspect_ownership) (c.query_asks_none task_path_name env)

  abbrev task_of : Option TaskError × Env → Option Text
  task_of r = k.task r.1

  -- What `EnsureScheduledTask` may have done to a task, from a world with this log, and what its
  -- success means.
  pub record IsEnsured (xml : Text) (log : List Change) (before : Option Text)
      (r : Option TaskError × Env) : Type 0 where
    pub change :
        ((c.changes r.1 ≡ log) × (task_of r ≡ before))
        ⊎ ((before ≡ none) × (c.changes r.1 ≡ registering task_path_name xml ∷ log))
    pub success : r.0 ≡ none → (found : Text) × (task_of r ≡ some found) × IsOurs t found

  refused-IsEnsured :
      (xml : Text) (log : List Change) (before : Option Text) (e : TaskError) (env : Env)
      → c.changes env ≡ log
      → k.task env ≡ before
      → IsEnsured xml log before (some e, env)
  refused-IsEnsured xml log before e env l q = record {
    change = inl (l, q);
    success = λ h. absurd (ground (arith, h));
  }

  proven-IsOurs :
      (i : Inspection) (task : Option Text)
      → IsKnown t i task
      → proven t s i ≡ true
      → (found : Text) × (task ≡ some found) × IsOurs t found
  proven-IsOurs i task known p = go i.failure refl
    where
      go :
          (o : Option TaskError)
          → i.failure ≡ o
          → (found : Text) × (task ≡ some found) × IsOurs t found
      go none q = known.ours q (ground (arith, p, q))
      go (some e) q = absurd (ground (arith, p, q))

  -- Once the registration is asked for, the rest changes nothing.
  verify_registered-IsEnsured :
      (xml : Text) (log : List Change) (env : Env)
      → c.changes env ≡ registering task_path_name xml ∷ log
      → IsEnsured xml log none (verify_registered t s env)
  unfolding verify_registered
  verify_registered-IsEnsured xml log env asked =
      let (known, kept) = inspect_ownership_lem t s k env in
      record {
        change = inr (refl, inspection_asks_none env ∙ asked);
        success = λ h.
            let (found, there, ours) =
              proven-IsOurs (inspect_ownership t s env).0 (k.task env) known (proven_if _ h) in
            (found, kept ∙ there, ours);
      }
    where
      proven_if :
          (b : Bool)
          → (let o : Option TaskError = if b then none else some operation_failed in o) ≡ none
          → b ≡ true
      proven_if true h = refl
      proven_if false h = absurd (ground (arith, h))

  registered-IsEnsured :
      (l : Lifecycle Env) (xml : Text) (env : Env)
      → s.lifecycle ≡ some l
      → IsEnsured xml (c.changes env) none (registered t s (l.register task_path_name xml env))
  registered-IsEnsured l xml env there =
      go (l.register task_path_name xml env).0 (l.register task_path_name xml env).1
        (c.register_asks l task_path_name xml env there)
    where
      go :
          (o : Option TaskError) (env' : Env)
          → c.changes env' ≡ registering task_path_name xml ∷ c.changes env
          → IsEnsured xml (c.changes env) none (registered t s (o, env'))
      go (some e) env' asked =
          unfold registered in
          record { change = inr (refl, asked); success = λ h. absurd (ground (arith, h)) }
      go none env' asked =
          unfold registered in verify_registered-IsEnsured xml (c.changes env) env' asked

  Decides : Inspection → Option Text → Verdict t s → Type 0
  Decides i task proceed = task ≡ none
  Decides i task finished = (found : Text) × (task ≡ some found) × IsOurs t found
  Decides i task (refused e) = Unit {0}

  refusal-Decides :
      (i : Inspection) (task : Option Text) (e : TaskError) → Decides i task (refusal t s e)
  unfolding Decides
  refusal-Decides i task identity_mismatch = tt
  refusal-Decides i task task_not_found = tt
  refusal-Decides i task control_unavailable = tt
  refusal-Decides i task task_inspection_failed = tt
  refusal-Decides i task foreign_owner = tt
  refusal-Decides i task operation_failed = tt
  refusal-Decides i task invalid_command = tt
  refusal-Decides i task context_done = tt
  refusal-Decides i task (other_task_error x) = tt

  -- The inspection says that there is no task where registration goes on.
  ensure_proceeds :
      (i : Inspection) (task : Option Text)
      → IsKnown t i task
      → Decides i task (ensure_verdict t s i)
  unfolding Decides ensure_verdict
  ensure_proceeds i task known = go i.failure refl
    where
      present :
          (b : Bool)
          → i.failure ≡ none
          → i.observation.task_present ≡ b
          → Decides i task (if not b then proceed else refused foreign_owner)
      present true q p = tt
      present false q p = known.absent q p

      mine :
          (b : Bool)
          → i.failure ≡ none
          → is_longhub i.observation.ownership ≡ b
          → Decides i task (
              if b
              then finished
              else if not i.observation.task_present
              then proceed
              else refused foreign_owner)
      mine true q p = known.ours q p
      mine false q p = present i.observation.task_present q refl

      go : (o : Option TaskError) → i.failure ≡ o → Decides i task (ensure_verdict t s i)
      go none q = rw (q, ensure_verdict) (mine (is_longhub i.observation.ownership) q refl)
      go (some e) q = rw (q, ensure_verdict) (refusal-Decides i task e)

  ensured :
      (l : Lifecycle Env) (xml : Text) (log : List Change) (before : Option Text) (i : Inspection)
      (env : Env) (v : Verdict t s)
      → s.lifecycle ≡ some l
      → c.changes env ≡ log
      → k.task env ≡ before
      → Decides i before v
      → IsEnsured xml log before (carry_out_ensure t s l xml v env)
  unfolding Decides carry_out_ensure
  ensured l xml log before i env proceed there logged q missing =
      rw (missing, sym logged) (registered-IsEnsured l xml env there)
  ensured l xml log before i env finished there logged q (found, at, ours) = record {
    change = inl (logged, q);
    success = λ h. (found, q ∙ at, ours);
  }
  ensured l xml log before i env (refused e) there logged q d =
      refused-IsEnsured xml log before e env logged q

  -- What `EnsureScheduledTask` may do to a task.
  abbrev pub EnsureEffect : Text → Env → Option TaskError × Env → Type 0
  EnsureEffect command env r =
      (((c.changes r.1 ≡ c.changes env) × (k.task r.1 ≡ k.task env))
        ⊎ ((k.task env ≡ none)
            × (xml : Text) × (build_task_xml t command ≡ ok xml)
            × (c.changes r.1 ≡ registering task_path_name xml ∷ c.changes env)))
      × (r.0 ≡ none → (found : Text) × (k.task r.1 ≡ some found) × IsOurs t found)

  -- If queries, registrations and deletions work as relied on (`IsTaskStore`, `IsChangeLog`):
  -- `EnsureScheduledTask` asks for no change and leaves the task as it is, or there was no task and
  -- it asks for one change, the registration, under the manager's own path, of the XML built from the
  -- command; and if it succeeds, a task is there that reads as the manager's own.
  pub ensure_scheduled_task_lem :
      (command : Text) (env : Env)
      → EnsureEffect command env (ensure_scheduled_task t s command env)
  unfolding ensure_scheduled_task
  ensure_scheduled_task_lem command env = go s.lifecycle refl
    where
      kept : (e : TaskError) → EnsureEffect command env (some e, env)
      kept e = (inl (refl, refl), λ h. absurd (ground (arith, h)))

      built :
          (l : Lifecycle Env)
          → s.lifecycle ≡ some l
          → (r : Result TaskError Text) → build_task_xml t command ≡ r
          → EnsureEffect command env (ensure_with t s l r env)
      built l there (err e) q = unfold ensure_with in kept e
      built l there (ok xml) q =
          unfold ensure_with in
          let (known, same) = inspect_ownership_lem t s k env in
          let i = (inspect_ownership t s env).0 in
          let e : IsEnsured xml (c.changes env) (k.task env) _ =
            ensured l xml (c.changes env) (k.task env) i (inspect_ownership t s env).1
              (ensure_verdict t s i) there (inspection_asks_none env) same
              (ensure_proceeds i (k.task env) known) in
          (elim e.change [ inl x ↦ inl x | inr x ↦ inr (x.0, xml, q, x.1) ], e.success)

      go :
          (o : Option (Lifecycle Env))
          → s.lifecycle ≡ o
          → EnsureEffect command env (ensure_scheduled_task t s command env)
      go none q = rw (q, ensure_scheduled_task) (kept control_unavailable)
      go (some l) q = rw (q, ensure_scheduled_task) (built l q _ refl)
