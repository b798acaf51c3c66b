-- ===== src/Update/Coordinator/Quiet.antt =====
-- What internal/managerupdate/coordinator.go does without starting an installer.
use longhub_manager.Common.{
  ◌≡◌, refl, ◌∙◌, inl, inr, Bool, true, false, not, ◌||◌, Option, none, some, List, ◌∷◌, Text,
  Result, ok, err, Action, after, pure, fail, ◌>>=◌, lit, text_eq, ◌++◌, Bool-cases, if◌then◌else◌,
}
use longhub_manager.System.{FileError, run_or}
use longhub_manager.Update.Errors.{UpdateError, unsafe_update_path, update_unavailable}
use longhub_manager.Update.Version.{version_pattern}
use longhub_manager.Update.Manifest.{Manifest, Envelope, Formats}
use longhub_manager.Update.Recovery.{
  PendingUpdate, Storage, is_not_exist, read_pending, or_close, or_fail, replace_by, then_discard,
  write_file, write_bytes, write_encoded, write_pending,
}
use longhub_manager.Update.Recovery.Prepare.{acceptable, unless_pending, prepare, initial_record}
use longhub_manager.Update.Host.{Host}
use longhub_manager.Update.Client.{
  Client, Done, check, exact, fetch_envelope, judge, match_exact, release_url,
}
use longhub_manager.Update.Download.{verify_installer}
use longhub_manager.Update.Coordinator.{Coordinator, verified, ready_to_apply, coded}

module _ (f : Formats) (st : Storage) (h : Host st.Env) where
  open st use {Env}

  -- The installers that were started so far, the last one first: only `launch` starts one.
  pub record IsLogged : Type 0 where
    pub seen : Env → List (Text × Text)
    pub launch_seen :
        (path mode : Text) (env : Env) → seen (h.launch path mode env).1 ≡ (path, mode) ∷ seen env
    pub stop_keeps :
        (stop : Env → Env) (env : Env) → h.stop ≡ some stop → seen (stop env) ≡ seen env
    pub send_keeps :
        (url : _) (accept : Text) (env : Env) → seen (h.send url accept env).1 ≡ seen env
    pub dirs_keep : (path : Text) (env : Env) → seen (h.make_dirs path env).1 ≡ seen env
    pub temp_keeps : (dir : Text) (env : Env) → seen (h.create_temp dir env).1 ≡ seen env
    pub chmod_keeps : (path : Text) (env : Env) → seen (h.chmod path env).1 ≡ seen env
    pub write_keeps : (path bytes : Text) (env : Env) → seen (h.write path bytes env).1 ≡ seen env
    pub sync_keeps : (path : Text) (env : Env) → seen (h.sync path env).1 ≡ seen env
    pub close_keeps : (path : Text) (env : Env) → seen (h.close path env).1 ≡ seen env
    pub rename_keeps : (from to : Text) (env : Env) → seen (h.rename from to env).1 ≡ seen env
    pub remove_keeps : (path : Text) (env : Env) → seen (h.remove path env).1 ≡ seen env
    pub read_keeps : (env : Env) → seen (st.read_file env).1 ≡ seen env
    pub create_keeps : (env : Env) → seen (st.create_temp env).1 ≡ seen env
    pub mode_keeps : (name : Text) (env : Env) → seen (st.chmod name env).1 ≡ seen env
    pub append_keeps :
        (name bytes : Text) (env : Env) → seen (st.append name bytes env).1 ≡ seen env
    pub flush_keeps : (name : Text) (env : Env) → seen (st.sync name env).1 ≡ seen env
    pub shut_keeps : (name : Text) (env : Env) → seen (st.close name env).1 ≡ seen env
    pub move_keeps : (name : Text) (env : Env) → seen (st.rename name env).1 ≡ seen env
    pub discard_keeps : (name : Text) (env : Env) → seen (st.discard name env) ≡ seen env

  module _ (l : IsLogged) where
    abbrev Log : List (Text × Text) → Env → Type 0
    Log log env = l.seen env ≡ log

    -- An action starts no installer, whatever it returns.
    unfoldable pub Quiet : {E A : Type 0} → Action E Env A → Type 0
    Quiet m = (env : Env) → l.seen (m env).1 ≡ l.seen env

    Quiet-bind :
        {E A B : Type 0}
        → (m : Action E Env A) (g : A → Action E Env B) → Quiet m
        → ((a : A) → Quiet (g a))
        → Quiet (m >>= g)
    unfolding ◌>>=◌ Quiet
    Quiet-bind {E} {A} {B} m g q k env = go (m env).0 (m env).1 (q env)
      where
        go :
            (r : Result E A) (env' : Env)
            → l.seen env' ≡ l.seen env
            → l.seen (after r g env').1 ≡ l.seen env
        go (ok a) env' i = k a env' ∙ i
        go (err e) env' i = i

    run_or-Quiet :
        {E : Type 0}
        → (wrap : FileError → E) (call : Env → Option FileError × Env)
        → ((env : Env) → l.seen (call env).1 ≡ l.seen env)
        → Quiet (run_or wrap call)
    unfolding run_or Quiet
    run_or-Quiet {E} wrap call q env = go (call env).0 refl
      where
        go :
            (o : Option FileError) → (call env).0 ≡ o → l.seen (run_or wrap call env).1 ≡ l.seen env
        go none e = rw (e, run_or) (q env)
        go (some x) e = rw (e, run_or) (q env)

    still : {E A : Type 0} → (r : Result E A) → Quiet (λ env. (r, env))
    unfolding Quiet
    still r env = refl

    fail-Quiet : {E : Type 0} → (A : Type 0) (e : E) → Quiet {A = A} (fail e)
    unfolding Quiet fail
    fail-Quiet A e env = refl

    pure-Quiet : {A : Type 0} → (a : A) → Quiet (pure {E = UpdateError} a)
    unfolding Quiet pure
    pure-Quiet a env = refl

    Quiet-if :
        {E A : Type 0}
        → (b : Bool) (m n : Action E Env A) → Quiet m
        → Quiet n
        → Quiet (if b then m else n)
    Quiet-if true m n p q = p
    Quiet-if false m n p q = q

    Quiet-test :
        {E A : Type 0}
        → (b : Bool) (x y : Result E A × Env) {env : Env} → l.seen x.1 ≡ l.seen env
        → l.seen y.1 ≡ l.seen env
        → l.seen (if b then x else y).1 ≡ l.seen env
    Quiet-test true x y p q = p
    Quiet-test false x y p q = q

    -- The client.
    fetch_envelope-Quiet :
        (c : Client) (path channel : Text) → Quiet (fetch_envelope f h c path channel)
    unfolding fetch_envelope Quiet
    fetch_envelope-Quiet c path channel env =
        Quiet-test (not (h.is_request (release_url f h c path channel))) _ _ refl
          (l.send_keeps _ _ env)

    check-Quiet :
        (c : Client) (current channel identity : Text)
        → Quiet (check f h c current channel identity)
    unfolding check
    check-Quiet c current channel identity =
        Quiet-if
          (not (text_eq channel (lit "stable") || text_eq channel (lit "beta"))
            || not (version_pattern current))
          _ _ (fail-Quiet _ update_unavailable)
          (Quiet-bind _ _ (fetch_envelope-Quiet c (lit "/v1/client-releases/latest") channel)
            (λ found. still (judge f h current channel identity found)))

    exact-Quiet : (c : Client) (version channel : Text) → Quiet (exact f h c version channel)
    unfolding exact
    exact-Quiet c version channel =
        Quiet-if
          (not (version_pattern version)
            || not (text_eq channel (lit "stable") || text_eq channel (lit "beta")))
          _ _ (fail-Quiet _ update_unavailable)
          (Quiet-bind _ _
            (fetch_envelope-Quiet c (lit "/v1/client-releases/versions/" ++ h.path_escape version)
              channel)
            (λ found. still (match_exact f h version channel found)))

    -- The recovery store.
    or_close-Quiet :
        (keys : List (Text × Text)) (root name : Text) (step : Env → Bool × Env)
        → ((env : Env) → l.seen (step env).1 ≡ l.seen env)
        → Quiet (or_close f st keys root name step)
    unfolding or_close Quiet
    or_close-Quiet keys root name step q env = elim (Bool-cases (step env).0) [
      | inl e ↦ rw e (q env)
      | inr e ↦ rw e (l.shut_keeps name (step env).1 ∙ q env)
    ]

    or_fail-Quiet :
        (keys : List (Text × Text)) (root : Text) (step : Env → Bool × Env)
        → ((env : Env) → l.seen (step env).1 ≡ l.seen env)
        → Quiet (or_fail f st keys root step)
    unfolding or_fail Quiet
    or_fail-Quiet keys root step q env = elim (Bool-cases (step env).0) [
      | inl e ↦ rw e (q env)
      | inr e ↦ rw e (q env)
    ]

    write_file-Quiet :
        (keys : List (Text × Text)) (root bytes : Text) (o : Option Text)
        → Quiet (write_file f st keys root bytes o)
    unfolding write_file then_discard replace_by Quiet
    write_file-Quiet keys root bytes none = fail-Quiet _ unsafe_update_path
    write_file-Quiet keys root bytes (some name) = discarded (
        Quiet-bind _ _ (or_close-Quiet keys root name (st.chmod name) (l.mode_keeps name)) (λ _.
          Quiet-bind _ _
            (or_close-Quiet keys root name (st.append name bytes) (l.append_keeps name bytes))
            (λ _.
              Quiet-bind _ _ (or_close-Quiet keys root name (st.sync name) (l.flush_keeps name))
                (λ _.
                  Quiet-bind _ _ (or_fail-Quiet keys root (st.close name) (l.shut_keeps name))
                    (λ _. or_fail-Quiet keys root (st.rename name) (l.move_keeps name))))))
      where
        discarded :
            Quiet (replace_by f st keys root name bytes)
            → Quiet (then_discard f st keys root name (replace_by f st keys root name bytes))
        discarded q env = l.discard_keeps name _ ∙ q env

    write_pending-Quiet :
        (keys : List (Text × Text)) (root : Text) (p : PendingUpdate)
        → Quiet (write_pending f st keys root p)
    unfolding write_pending write_encoded fail write_bytes Quiet
    write_pending-Quiet keys root p = go (st.encode_pending p)
      where
        go : (o : Option Text) → Quiet (write_encoded f st keys root o)
        go none env = refl
        go (some json) env = write_file-Quiet keys root _ _ _ ∙ l.create_keeps env

    abbrev pub preparing : Coordinator → Envelope → Action UpdateError Env PendingUpdate
    preparing c rollback =
        prepare f st c.store_keys c.store_root (verify_installer f h) h.now c.current_version
          c.candidate.envelope c.downloaded_path rollback c.recovery_installer

    unless_pending-Quiet :
        (c : Coordinator) (made : Text → PendingUpdate) (r : Result UpdateError PendingUpdate)
        → Quiet (unless_pending f st c.store_keys c.store_root (verify_installer f h) h.now made r)
    unfolding unless_pending Quiet
    unless_pending-Quiet c made (ok p) env = refl
    unless_pending-Quiet c made (err e) env = elim (Bool-cases (is_not_exist e)) [
      | inl q ↦ rw q (
          Quiet-bind _ (λ _. pure (made (h.now env)))
            (write_pending-Quiet c.store_keys c.store_root (made (h.now env)))
            (λ _. pure-Quiet (made (h.now env))) env)
      | inr q ↦ rw q refl
    ]

    read_pending-Quiet : (c : Coordinator) → Quiet (read_pending f st c.store_keys c.store_root)
    unfolding read_pending Quiet
    read_pending-Quiet c env = l.read_keeps env

    prepare-Quiet : (c : Coordinator) (rollback : Envelope) → Quiet (preparing c rollback)
    unfolding prepare Quiet
    prepare-Quiet c rollback env =
        go
          (acceptable f st c.store_keys c.store_root (verify_installer f h) h.now c.current_version
            c.candidate.envelope c.downloaded_path rollback c.recovery_installer env)
          refl
      where
        go :
            (r : Result UpdateError Done)
            → acceptable f st c.store_keys c.store_root
                (verify_installer f h)
                h.now
                c.current_version
                c.candidate.envelope
                c.downloaded_path
                rollback
                c.recovery_installer
                env
              ≡ r
            → l.seen (preparing c rollback env).1 ≡ l.seen env
        go (err e) q = rw (q, prepare) refl
        go (ok done) q =
            let made =
              initial_record f st c.store_keys c.store_root (verify_installer f h) h.now
                c.current_version c.candidate.envelope c.downloaded_path rollback
                c.recovery_installer in
            rw (q, prepare)
              (unless_pending-Quiet c made (read_pending f st c.store_keys c.store_root env).0
                  (read_pending f st c.store_keys c.store_root env).1
                ∙ read_pending-Quiet c env)

    coded-Quiet :
        {A : Type 0}
        → (code : Text) (m : Action UpdateError Env A) → Quiet m
        → Quiet (coded f st h code m)
    unfolding Quiet
    coded-Quiet {A} code m q env = go (m env).0 refl
      where
        go :
            (r : Result UpdateError A)
            → (m env).0 ≡ r
            → l.seen (coded f st h code m env).1 ≡ l.seen env
        go (ok a) e = rw (e, coded) (q env)
        go (err x) e = rw (e, coded) (q env)

    verified-Quiet : (path : Text) (m : Manifest) → Quiet (verified f st h path m)
    unfolding verified Quiet
    verified-Quiet path m env = refl

    pub ready_to_apply-Quiet : (c : Coordinator) → Quiet (ready_to_apply f st h c)
    unfolding ready_to_apply
    ready_to_apply-Quiet c =
        Quiet-bind _ _ (coded-Quiet _ _ (exact-Quiet c.client c.current_version c.channel))
          (λ rollback.
            Quiet-bind _ _
              (coded-Quiet _ (verified f st h c.recovery_installer rollback.manifest)
                (verified-Quiet c.recovery_installer rollback.manifest))
              (λ _. coded-Quiet _ _ (prepare-Quiet c rollback)))
