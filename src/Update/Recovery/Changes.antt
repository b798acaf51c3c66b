-- ===== src/Update/Recovery/Changes.antt =====
-- What the operations of a store do to its file, step by step.
use longhub_manager.Common.{
  ◌≡◌, refl, ◌∙◌, inl, inr, Bool, false, not, ◌&&◌, ◌||◌, Option, none, some, List, [], ◌∷◌, ◌++◌,
  Text, Result, ok, err, Ends, after, ◌>>=◌, ◌>>◌, pure, fail, Bool-cases, arith, lit, text_eq,
  text_eq_iff, next, exceeds,
}
use longhub_manager.Update.Errors.{UpdateError}
use longhub_manager.Update.Manifest.{Formats}
use longhub_manager.Update.Recovery.{
  PendingUpdate, Storage, Done, is_not_exist, parsed, parse_pending, read_pending, write_pending,
  remove_pending, count_attempt, startup, unless_missing, record_target_startup, begin_rollback,
  settle, mark_healthy,
}
use longhub_manager.Update.Recovery.Files.{
  IsStorage, Is, Written, write_pending_lem, remove_pending_lem,
}

-- The calls of a store that change its file.
pub data Operation : Type 0 where
  startup_of rollback_for healthy_of : Text → Operation

module _ (f : Formats) (st : Storage) (keys : List (Text × Text)) (root : Text) where
  open st use {Env}

  -- The world after an operation, whether it succeeds or not.
  abbrev pub after_operation : Operation → Env → Env
  after_operation (startup_of current) env = (record_target_startup f st keys root current env).1
  after_operation (rollback_for reason) env = (begin_rollback f st keys root reason env).1
  after_operation (healthy_of current) env = (mark_healthy f st keys root current env).1

  -- The changes that an operation may make to the file, from valid records only.
  pub data Change : Operation → Option Text → Option Text → Type 0 where
    unchanged : {op : Operation} {c : Option Text} → Change op c c
    attempted :
        {current bytes json : Text} {p : PendingUpdate}
        → parse_pending f st keys root bytes ≡ ok p
        → p.phase ≡ lit "installing"
        → current ≡ p.target_version
        → st.encode_pending (record p { attempts = next p.attempts }) ≡ some json
        → Change (startup_of current) (some bytes) (some (json ++ b'\n' ∷ []))
    reverted :
        {current bytes : Text} {p : PendingUpdate}
        → parse_pending f st keys root bytes ≡ ok p
        → p.phase ≡ lit "rollback"
        → current ≡ p.previous_version
        → Change (startup_of current) (some bytes) none
    rolled_back :
        {reason bytes json : Text} {p : PendingUpdate}
        → parse_pending f st keys root bytes ≡ ok p
        → st.encode_pending (record p { phase = lit "rollback"; reason = reason }) ≡ some json
        → Change (rollback_for reason) (some bytes) (some (json ++ b'\n' ∷ []))
    confirmed :
        {current bytes : Text} {p : PendingUpdate}
        → parse_pending f st keys root bytes ≡ ok p
        → p.phase ≡ lit "installing"
        → p.target_version ≡ current
        → Change (healthy_of current) (some bytes) none

  module _ (s : IsStorage st) where
    removal-Change :
        (op : Operation) (bytes : Text) (env env' : Env) (r : Result UpdateError Done)
        → s.contents env ≡ some bytes
        → Change op (some bytes) none
        → Ends (λ _. Is f st keys root s none) (λ _. Is f st keys root s (s.contents env)) r env'
        → Change op (some bytes) (s.contents env')
    removal-Change op bytes env env' (ok _) h change e = rw e change
    removal-Change op bytes env env' (err _) h change e = rw (e, h) unchanged

    write-Change :
        (op : Operation) (bytes : Text) (p : PendingUpdate) (env env' : Env)
        (r : Result UpdateError Done)
        → s.contents env ≡ some bytes
        → ((json : Text)
            → st.encode_pending p ≡ some json
            → Change op (some bytes) (some (json ++ b'\n' ∷ [])))
        → Ends (λ _. Written f st keys root s p) (λ _. Is f st keys root s (s.contents env)) r env'
        → Change op (some bytes) (s.contents env')
    write-Change op bytes p env env' (ok _) h change (json, q, e) = rw e (change json q)
    write-Change op bytes p env env' (err _) h change e = rw (e, h) unchanged

    -- What follows an action without touching the files leaves its files.
    then_pure :
        {A : Type 0}
        → (m : Env → Result UpdateError Done × Env) (x : A) (env : Env)
        → ((m >> pure x) env).1 ≡ (m env).1
    unfolding ◌>>=◌ pure
    then_pure m x env = go (m env).0
      where
        go : (r : Result UpdateError Done) → (after r (λ _. pure x) (m env).1).1 ≡ (m env).1
        go (ok _) = refl
        go (err _) = refl

    settle-Change :
        (current : Text) (p : PendingUpdate) (bytes : Text) (env : Env)
        → parse_pending f st keys root bytes ≡ ok p
        → s.contents env ≡ some bytes
        → Change
            (healthy_of current)
            (some bytes)
            (s.contents (settle f st keys root current p env).1)
    unfolding settle fail
    settle-Change current p bytes env q h =
        elim (Bool-cases
          (not (text_eq p.phase (lit "installing")) || not (text_eq p.target_version current))) [
            | inl t ↦ rw (t, h) unchanged
            | inr t ↦ rw t (
                removal-Change (healthy_of current) bytes env _ _ h
                  (confirmed q (ground (arith, t, text_eq_iff p.phase (lit "installing")))
                    (ground (arith, t, text_eq_iff p.target_version current)))
                  (remove_pending_lem f st keys root s env))
          ]

    attempt-Change :
        (current : Text) (p : PendingUpdate) (bytes : Text) (env : Env)
        → parse_pending f st keys root bytes ≡ ok p
        → p.phase ≡ lit "installing"
        → current ≡ p.target_version
        → s.contents env ≡ some bytes
        → Change (startup_of current) (some bytes) (
            s.contents
              (count_attempt f st keys root (record p { attempts = next p.attempts }) env).1)
    unfolding count_attempt
    attempt-Change current p bytes env q phase version h =
        let p' : PendingUpdate = record p { attempts = next p.attempts } in
        rw
          (then_pure {A = Option PendingUpdate × Bool} (write_pending f st keys root p')
            (some p', exceeds p'.attempts 2) env)
          (write-Change (startup_of current) bytes p' env _ _ h
            (λ json e. attempted q phase version e) (write_pending_lem f st keys root s p' env))

    startup-Change :
        (current : Text) (p : PendingUpdate) (bytes : Text) (env : Env)
        → parse_pending f st keys root bytes ≡ ok p
        → s.contents env ≡ some bytes
        → Change
            (startup_of current)
            (some bytes)
            (s.contents (startup f st keys root current p env).1)
    unfolding startup fail
    startup-Change current p bytes env q h =
        elim (Bool-cases (text_eq p.phase (lit "rollback") && text_eq current p.previous_version)) [
          | inl t ↦
              rw
                (
                  t,
                  then_pure {A = Option PendingUpdate × Bool} (remove_pending f st keys root)
                      (some p, false) env,
                )
                (removal-Change (startup_of current) bytes env _ _ h
                  (reverted q (ground (arith, t, text_eq_iff p.phase (lit "rollback")))
                    (ground (arith, t, text_eq_iff current p.previous_version)))
                  (remove_pending_lem f st keys root s env))
          | inr t ↦
              elim (Bool-cases (
                not (text_eq p.phase (lit "installing"))
                || not (text_eq current p.target_version))) [
                  | inl u ↦ rw (t, u, h) unchanged
                  | inr u ↦
                      rw (t, u)
                        (attempt-Change current p bytes env q
                          (ground (arith, u, text_eq_iff p.phase (lit "installing")))
                          (ground (arith, u, text_eq_iff current p.target_version)) h)
                ]
        ]

    -- What follows a read: an error changes nothing, a record was in the file.
    read-Change :
        {A : Type 0}
        → (op : Operation) (m : Result UpdateError PendingUpdate → Env → Result UpdateError A × Env)
          (env : Env)
        → ((e : UpdateError) (env' : Env) → s.contents (m (err e) env').1 ≡ s.contents env')
        → ((p : PendingUpdate) (bytes : Text) (env' : Env)
            → parse_pending f st keys root bytes ≡ ok p
            → s.contents env' ≡ some bytes
            → Change op (some bytes) (s.contents (m (ok p) env').1))
        → let (found, env') = read_pending f st keys root env in
          Change op (s.contents env) (s.contents (m found env').1)
    unfolding read_pending parsed
    read-Change op m env fails works = go (st.read_file env).0 refl
      where
        kept :
            (e : UpdateError)
            → Change op (s.contents env) (s.contents (m (err e) (st.read_file env).1).1)
        kept e = rw (fails e (st.read_file env).1 ∙ s.read_keeps env) unchanged

        from_bytes :
            (bytes : Text) (r : Result UpdateError PendingUpdate)
            → (st.read_file env).0 ≡ ok bytes
            → parse_pending f st keys root bytes ≡ r
            → Change op (s.contents env) (s.contents (m r (st.read_file env).1).1)
        from_bytes bytes (err e) t q = kept e
        from_bytes bytes (ok p) t q =
            let found : s.contents env ≡ some bytes = s.read_found env bytes t in
            rw found (works p bytes (st.read_file env).1 q (s.read_keeps env ∙ found))

        go :
            (b : Result UpdateError Text)
            → (st.read_file env).0 ≡ b
            → Change op
                (s.contents env)
                (s.contents (m (parsed f st keys root b) (st.read_file env).1).1)
        go (err e) t = kept e
        go (ok bytes) t = from_bytes bytes (parse_pending f st keys root bytes) t refl

    missing_keeps :
        {A : Type 0}
        → (missing : A) (m : PendingUpdate → Env → Result UpdateError A × Env) (e : UpdateError)
          (env : Env)
        → s.contents (unless_missing f st keys root missing m (err e) env).1 ≡ s.contents env
    unfolding unless_missing pure fail
    missing_keeps missing m e env = elim (Bool-cases (is_not_exist e)) [
      | inl t ↦ rw t refl
      | inr t ↦ rw t refl
    ]

    rollback-Change :
        (reason : Text) (p : PendingUpdate) (bytes : Text) (env : Env)
        → parse_pending f st keys root bytes ≡ ok p
        → s.contents env ≡ some bytes
        → Change (rollback_for reason) (some bytes) (
            s.contents
              ((write_pending f st keys root (record p { phase = lit "rollback"; reason = reason })
                  >> pure (record p { phase = lit "rollback"; reason = reason }))
                env).1)
    rollback-Change reason p bytes env q h =
        let p' : PendingUpdate = record p { phase = lit "rollback"; reason = reason } in
        rw (then_pure (write_pending f st keys root p') p' env) (
          write-Change (rollback_for reason) bytes p' env _ _ h (λ json e. rolled_back q e)
            (write_pending_lem f st keys root s p' env))

    -- Whatever the files and the calls of the operating system do, as long as they work as
    -- `IsStorage` says, `RecordTargetStartup`, `BeginRollback` and `MarkHealthy` change the pending
    -- file in these ways only, also where they return an error: they leave it as it is; a start of
    -- the target version counts an attempt of a valid record that is installing; a start of the
    -- previous version removes a valid record that is rolling back; a rollback turns a valid record
    -- into one that is rolling back; and a healthy target version removes a valid record that is
    -- installing.
    pub after_operation-Change :
        (op : Operation) (env : Env)
        → Change op (s.contents env) (s.contents (after_operation op env))
    unfolding record_target_startup begin_rollback mark_healthy ◌>>=◌
    after_operation-Change (startup_of current) env =
        read-Change (startup_of current)
          (unless_missing f st keys root (none, false) (startup f st keys root current)) env
          (missing_keeps (none, false) (startup f st keys root current)) (startup-Change current)
    after_operation-Change (healthy_of current) env =
        read-Change (healthy_of current)
          (unless_missing f st keys root tt (settle f st keys root current)) env
          (missing_keeps tt (settle f st keys root current)) (settle-Change current)
    after_operation-Change (rollback_for reason) env =
        read-Change (rollback_for reason)
          (λ r. after r λ p.
            let p' : PendingUpdate = record p { phase = lit "rollback"; reason = reason } in
            write_pending f st keys root p' >> pure p')
          env (λ e env'. refl) (rollback-Change reason)
