-- ===== src/Update/Coordinator/Launches.antt =====
-- Which installers the coordinator of internal/managerupdate/coordinator.go starts, and when.
use longhub_manager.Common.{
  ◌≡◌, refl, sym, ap, ◌∙◌, ◌⊎◌, inl, inr, Bool, true, false, not, ◌||◌, Option, none, some, ◌∷◌,
  Text, Result, ok, err, Action, bind_inv, not_ok, lit, is_empty, arith, Bool-cases,
}
use longhub_manager.Update.Errors.{UpdateError}
use longhub_manager.Update.Manifest.{Manifest, Envelope, Formats}
use longhub_manager.Update.Recovery.{PendingUpdate, Storage}
use longhub_manager.Update.Host.{Host}
use longhub_manager.Update.Client.{Done}
use longhub_manager.Update.Download.{verify_installer}
use longhub_manager.Update.Coordinator.{
  Coordinator, verified, ready_to_apply, launched, conclude, apply, coded, stopped,
}
use longhub_manager.Update.Coordinator.Quiet.{IsLogged, Quiet, preparing, ready_to_apply-Quiet}

module _ (f : Formats) (st : Storage) (h : Host st.Env) (l : IsLogged f st h) where
  open st use {Env}

  -- The world in which `Prepare` of an update succeeded, and what was verified there.
  pub record IsReady (c : Coordinator) (p : PendingUpdate) (after_prepare : Env) : Type 0 where
    pub rollback : Envelope
    pub before : Env
    pub recovery_verified :
        verify_installer f h c.recovery_installer rollback.manifest before ≡ ok tt
    pub prepared : preparing f st h l c rollback before ≡ (ok p, after_prepare)

  coded_ok :
      {A : Type 0}
      → (code : Text) (m : Action UpdateError Env A) (env : Env) (a : A) (env' : Env)
      → coded f st h code m env ≡ (ok a, env')
      → m env ≡ (ok a, env')
  coded_ok {A} code m env a env' e = go (m env) refl e
    where
      go :
          (x : Result UpdateError A × Env)
          → m env ≡ x
          → (let y : Result (Text × UpdateError) A × Env = elim x.0 [
            | ok a ↦ (ok a, x.1)
            | err e ↦ (err (code, e), x.1)
          ] in
              y)
            ≡ (ok a, env')
          → m env ≡ (ok a, env')
      go (ok b, t) q k =
          let same : b ≡ a = ground (arith, ap (λ x. x.0) k) in q ∙ (λ i. (ok (same i), (k i).1))
      go (err x, t) q k = absurd (not_ok (code, x) t env' a k)

  unverified_same :
      (path : Text) (m : Manifest) (env env' : Env) (d : Done)
      → verified f st h path m env ≡ (ok d, env')
      → (verify_installer f h path m env ≡ ok tt) × (env ≡ env')
  unfolding verified
  unverified_same path m env env' d e = (ap (λ x. x.0) e, ap (λ x. x.1) e)

  ready :
      (c : Coordinator) (p : PendingUpdate) (env after_prepare : Env)
      → ready_to_apply f st h c env ≡ (ok p, after_prepare)
      → IsReady c p after_prepare
  unfolding ready_to_apply
  ready c p env after_prepare e =
      let (rollback, env1, found, e1) = bind_inv _ _ env after_prepare p e in
      let (done, env2, verified_there, e2) = bind_inv _ _ env1 after_prepare p e1 in
      let (valid, same) = unverified_same c.recovery_installer rollback.manifest env1 env2 done (
        coded_ok (lit "MANAGER_UPDATE_ROLLBACK_UNAVAILABLE")
          (verified f st h c.recovery_installer rollback.manifest) env1 done env2 verified_there) in
      record {
        rollback = rollback;
        before = env1;
        recovery_verified = valid;
        prepared =
            ap (preparing f st h l c rollback) same
            ∙ coded_ok (lit "MANAGER_UPDATE_PREPARE_FAILED") (preparing f st h l c rollback) env2 p
                after_prepare e2;
      }

  pub record IsLaunch (confirm : Bool) (c : Coordinator) (env : Env) : Type 0 where
    pub confirmed : confirm ≡ true
    pub available : c.candidate.available ≡ true
    pub eligible : c.candidate.eligible ≡ true
    pub downloaded : is_empty c.downloaded_path ≡ false
    pub record_kept : PendingUpdate
    pub after_prepare : Env
    pub ready : IsReady c record_kept after_prepare
    pub logged :
        l.seen (apply f st h confirm c env).2 ≡ (c.downloaded_path, lit "update") ∷ l.seen env

  launch_logged :
      (c : Coordinator) (p : PendingUpdate) (env : Env)
      → l.seen (conclude f st h c (ok p) env).2 ≡ (c.downloaded_path, lit "update") ∷ l.seen env
  unfolding conclude
  launch_logged c p env =
      go (h.launch c.downloaded_path (lit "update") env).0
        (h.launch c.downloaded_path (lit "update") env).1
      ∙ l.launch_seen c.downloaded_path (lit "update") env
    where
      halt :
          (stop : Option (Env → Env)) (env' : Env)
          → h.stop ≡ stop
          → l.seen (stopped f st h stop env') ≡ l.seen env'
      halt none env' q = refl
      halt (some stop) env' q = l.stop_keeps stop env' q

      go :
          (o : Option UpdateError) (env' : Env)
          → l.seen (launched f st h c (o, env')).2 ≡ l.seen env'
      go (some e) env' = unfold launched in refl
      go none env' = unfold launched in halt h.stop env' refl

  failed_quiet :
      (c : Coordinator) (code : Text) (e : UpdateError) (env : Env)
      → l.seen (conclude f st h c (err (code, e)) env).2 ≡ l.seen env
  unfolding conclude
  failed_quiet c code e env = refl

  ready_quiet :
      (c : Coordinator) (env env' : Env)
      → (ready_to_apply f st h c env).1 ≡ env'
      → l.seen env' ≡ l.seen env
  unfolding Quiet
  ready_quiet c env env' q = ap l.seen (sym q) ∙ ready_to_apply-Quiet f st h l c env

  -- If nothing but `launch` starts an installer (`IsLogged`): `Apply` starts none, or it starts the
  -- downloaded one once as an update. Then it was called with a confirmation, the update is
  -- available and eligible, the retained installer of the current version was verified against
  -- signed metadata, and `Prepare` of the update had succeeded with these two.
  pub apply-Launch :
      (confirm : Bool) (c : Coordinator) (env : Env)
      → (l.seen (apply f st h confirm c env).2 ≡ l.seen env) ⊎ IsLaunch confirm c env
  unfolding apply
  apply-Launch confirm c env =
      elim (Bool-cases (
        not confirm
        || (is_empty c.downloaded_path
            || (not c.candidate.available || not c.candidate.eligible)))) [
              | inl q ↦ inl (rw (q) refl)
              | inr q ↦ go q (ready_to_apply f st h c env) refl
            ]
    where
      go :
          (not confirm
              || (is_empty c.downloaded_path
                  || (not c.candidate.available || not c.candidate.eligible)))
            ≡ false
          → (x : Result (Text × UpdateError) PendingUpdate × Env) → ready_to_apply f st h c env ≡ x
          → (l.seen (apply f st h confirm c env).2 ≡ l.seen env) ⊎ IsLaunch confirm c env
      go q (err (code, e), env') r =
          inl (rw (q, r) (failed_quiet c code e env' ∙ ready_quiet c env env' (ap (λ x. x.1) r)))
      go q (ok p, env') r = inr (record {
        confirmed = ground (arith, q);
        available = ground (arith, q);
        eligible = ground (arith, q);
        downloaded = ground (arith, q);
        record_kept = p;
        after_prepare = env';
        ready = ready c p env env' r;
        logged =
            rw (q, r)
              (launch_logged c p env'
                ∙ ap (λ log. (c.downloaded_path, lit "update") ∷ log)
                    (ready_quiet c env env' (ap (λ x. x.1) r)));
      })
