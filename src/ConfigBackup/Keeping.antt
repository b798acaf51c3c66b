-- ===== src/ConfigBackup/Keeping.antt =====
-- What the writers of internal/configbackup/manager.go leave as it is, and what they write.
use longhub_manager.Common.{
  ◌≡◌, ◌≢◌, refl, sym, ◌∙◌, Option, none, some, Text, [], Result, ok, err, Ends, Triple,
  Triple-bind, pure,
}
use longhub_manager.System.{FileError, missing}
use longhub_manager.System.Rely.{Has, Absent, IsFileSystem}
use longhub_manager.System.Kept.{Kept, Gives, Kept-bind, Triple-given, run_or-Triple, run_or-Kept}
use longhub_manager.ConfigBackup.{
  BackupError, Manager, Backend, Env, M, atomic_rename, or_undo, finally, quiet_remove, quiet_close,
  fill_atomic, create_temp, write_atomic, fill_temp, write_temp_config,
}

module _ (b : Backend) (L : IsFileSystem b.fs) where
  or_undo-Triple :
      (P Q X : Env b → Type 0) (wrap : FileError → BackupError)
      (call : Env b → Option FileError × Env b) (undo : Env b → Env b)
      → ((env : Env b) → P env → (call env).0 ≡ none → Q (call env).1)
      → ((env : Env b) → P env → X (undo (call env).1))
      → Triple P (or_undo b wrap call undo) (λ _. Q) (λ _. X)
  unfolding or_undo
  or_undo-Triple P Q X wrap call undo good bad = record { at = λ env i. go env i (call env).0 refl }
    where
      go :
          (env : Env b)
          → P env
          → (o : Option FileError) → (call env).0 ≡ o
          → Ends (λ _. Q) (λ _. X) (or_undo b wrap call undo env).0 (or_undo b wrap call undo env).1
      go env i none q = rw (q, or_undo) (good env i q)
      go env i (some e) q = rw (q, or_undo) (bad env i)

  or_undo-Kept :
      (P : Env b → Type 0) (wrap : FileError → BackupError)
      (call : Env b → Option FileError × Env b) (undo : Env b → Env b)
      → ((env : Env b) → P env → P (call env).1)
      → ((env : Env b) → P env → P (undo env))
      → Kept P (or_undo b wrap call undo)
  or_undo-Kept P wrap call undo h k =
      or_undo-Triple P P P wrap call undo (λ env i q. h env i) (λ env i. k _ (h env i))

  pub finally-Triple :
      {A : Type 0}
      → (P : Env b → Type 0) (last : Env b → Env b) (m : M b A) (Q Q' : A → Env b → Type 0)
        (X X' : BackupError → Env b → Type 0)
      → ((a : A) (env : Env b) → Q a env → Q' a (last env))
      → ((e : BackupError) (env : Env b) → X e env → X' e (last env))
      → Triple P m Q X
      → Triple P (finally b last m) Q' X'
  unfolding finally
  finally-Triple {A} P last m Q Q' X X' h k t = record {
    at = λ env i. go (m env).0 (m env).1 (t.at env i);
  }
    where
      go : (r : Result BackupError A) (env : Env b) → Ends Q X r env → Ends Q' X' r (last env)
      go (ok a) env i = h a env i
      go (err e) env i = k e env i

  -- A name that no file had before is another than those of the files.
  fresh : (q d name : Text) (env : Env b) → Has b.fs q d env → Absent b.fs name env → q ≢ name
  fresh q d name env h a e =
      let found : b.fs.read_file name env ≡ ok d = rw (sym e) h in
      absurd (ok_missing d (sym found ∙ a))
    where
      ok_missing : (d : Text) → (let r : Result FileError Text = ok d in r) ≡ err missing → ⊥
      ok_missing d e = cc

  create_temp-Kept :
      (q d dir : Text) (wrap : FileError → BackupError)
      → Triple
          (Has b.fs q d)
          (create_temp b wrap dir)
          (λ tmp env. Has b.fs q d env × (q ≢ tmp))
          (λ _. Has b.fs q d)
  unfolding create_temp
  create_temp-Kept q d dir wrap = record {
    at = λ env i. go env i (b.fs.create_temp dir env).0 refl;
  }
    where
      go :
          (env : Env b)
          → Has b.fs q d env
          → (r : Result FileError Text) → (b.fs.create_temp dir env).0 ≡ r
          → Ends
              (λ tmp env'. Has b.fs q d env' × (q ≢ tmp))
              (λ _. Has b.fs q d)
              (create_temp b wrap dir env).0
              (create_temp b wrap dir env).1
      go env i (ok tmp) e =
          rw (e, create_temp)
            (L.create_leaves dir env q d i, fresh q d tmp env i (L.create_fresh dir tmp env e))
      go env i (err x) e = rw (e, create_temp) (L.create_leaves dir env q d i)

  create_temp-Gives :
      (dir : Text) (wrap : FileError → BackupError)
      → Gives
          (λ _. Unit {0})
          (create_temp b wrap dir)
          (λ tmp env. Has b.fs tmp [] env × L.IsTemp tmp)
  unfolding create_temp
  create_temp-Gives dir wrap = record { at = λ env i. go env (b.fs.create_temp dir env).0 refl }
    where
      go :
          (env : Env b) (r : Result FileError Text)
          → (b.fs.create_temp dir env).0 ≡ r
          → Ends
              (λ tmp env'. Has b.fs tmp [] env' × L.IsTemp tmp)
              (λ _ _. Unit {0})
              (create_temp b wrap dir env).0
              (create_temp b wrap dir env).1
      go env (ok tmp) e =
          rw (e, create_temp) (L.create_empty dir tmp env e, L.create_named dir tmp env e)
      go env (err x) e = rw (e, create_temp) tt

  atomic_rename-Kept :
      (q d from to : Text) → q ≢ from → q ≢ to → Kept (Has b.fs q d) (atomic_rename b from to)
  unfolding atomic_rename
  atomic_rename-Kept q d from to n k =
      run_or-Kept (Has b.fs q d) _ (b.fs.rename from to)
        (λ env i. L.rename_others from to q d env n k i)

  remove_keeps :
      (q d tmp : Text)
      → q ≢ tmp
      → (env : Env b) → Has b.fs q d env
      → Has b.fs q d (quiet_remove b tmp env)
  remove_keeps q d tmp n env i = L.remove_others tmp q d env n i

  -- The files other than the temporary one and the target are left as they are.
  fill_atomic-Kept :
      (q d tmp path bytes : Text)
      → q ≢ tmp
      → q ≢ path
      → Kept (Has b.fs q d) (fill_atomic b tmp path bytes)
  unfolding fill_atomic
  fill_atomic-Kept q d tmp path bytes n k =
      let H : Env b → Type 0 = Has b.fs q d in
      Kept-bind H _ _
        (or_undo-Kept H _ (b.fs.chmod tmp) (quiet_close b tmp) (λ env. L.chmod_leaves tmp env q d)
          (λ env. L.close_leaves tmp env q d))
        (λ _.
          Kept-bind H _ _
            (or_undo-Kept H _ (b.fs.write tmp bytes) (quiet_close b tmp)
              (λ env. L.write_others tmp bytes q d env n) (λ env. L.close_leaves tmp env q d))
            (λ _.
              Kept-bind H _ _
                (or_undo-Kept H _ (b.fs.sync tmp) (quiet_close b tmp)
                  (λ env. L.sync_leaves tmp env q d) (λ env. L.close_leaves tmp env q d))
                (λ _.
                  Kept-bind H _ _
                    (run_or-Kept H _ (b.fs.close tmp) (λ env. L.close_leaves tmp env q d))
                    (λ _. atomic_rename-Kept q d tmp path n k))))

  pub write_atomic-Kept :
      (q d path bytes : Text) → q ≢ path → Kept (Has b.fs q d) (write_atomic b path bytes)
  unfolding write_atomic
  write_atomic-Kept q d path bytes k =
      let H : Env b → Type 0 = Has b.fs q d in
      Kept-bind H _ _
        (run_or-Kept H _ (b.fs.make_dirs (b.dir_name path))
          (λ env. L.make_dirs_leaves (b.dir_name path) env q d))
        (λ _. Triple-bind _ _ (create_temp-Kept q d (b.dir_name path) _) (λ tmp.
          Triple-given H (q ≢ tmp) _ (λ _. H) (λ _. H)
            (λ n.
              finally-Triple H (quiet_remove b tmp) (fill_atomic b tmp path bytes) (λ _. H) (λ _. H)
                (λ _. H) (λ _. H) (λ _. remove_keeps q d tmp n) (λ _. remove_keeps q d tmp n)
                (fill_atomic-Kept q d tmp path bytes n k))))

  written :
      (tmp bytes : Text) (env : Env b)
      → Has b.fs tmp [] env
      → (b.fs.write tmp bytes env).0 ≡ none
      → Has b.fs tmp bytes (b.fs.write tmp bytes env).1
  written tmp bytes env i q = L.write_done tmp bytes [] env q i

  fill_atomic-Gives :
      (tmp path bytes : Text)
      → Gives (Has b.fs tmp []) (fill_atomic b tmp path bytes) (λ _. Has b.fs path bytes)
  unfolding fill_atomic atomic_rename
  fill_atomic-Gives tmp path bytes =
      let U : Env b → Type 0 = λ _. Unit {0} in
      let E0 : Env b → Type 0 = Has b.fs tmp [] in
      let E1 : Env b → Type 0 = Has b.fs tmp bytes in
      Triple-bind _ _
        (or_undo-Triple E0 E0 U _ (b.fs.chmod tmp) (quiet_close b tmp)
          (λ env i q. L.chmod_leaves tmp env tmp [] i) (λ env i. tt))
        (λ _.
          Triple-bind _ _
            (or_undo-Triple E0 E1 U _ (b.fs.write tmp bytes) (quiet_close b tmp)
              (λ env i q. written tmp bytes env i q) (λ env i. tt))
            (λ _.
              Triple-bind _ _
                (or_undo-Triple E1 E1 U _ (b.fs.sync tmp) (quiet_close b tmp)
                  (λ env i q. L.sync_leaves tmp env tmp bytes i) (λ env i. tt))
                (λ _.
                  Triple-bind _ _
                    (run_or-Triple E1 E1 U _ (b.fs.close tmp)
                      (λ env i q. L.close_leaves tmp env tmp bytes i) (λ env e i q. tt))
                    (λ _.
                      run_or-Triple E1 (Has b.fs path bytes) U _ (b.fs.rename tmp path)
                        (λ env i q. L.rename_done tmp path bytes env q i) (λ env e i q. tt)))))

  not_temp : (path tmp : Text) → ¬ (L.IsTemp path) → L.IsTemp tmp → path ≢ tmp
  not_temp path tmp n t e = n (rw e t)

  -- A write that succeeds leaves the file with the bytes.
  pub write_atomic-Gives :
      (path bytes : Text)
      → ¬ (L.IsTemp path)
      → Gives (λ _. Unit {0}) (write_atomic b path bytes) (λ _. Has b.fs path bytes)
  unfolding write_atomic
  write_atomic-Gives path bytes n =
      let U : Env b → Type 0 = λ _. Unit {0} in
      Triple-bind _ _
        (run_or-Triple U U U _ (b.fs.make_dirs (b.dir_name path)) (λ env i q. tt) (λ env e i q. tt))
        (λ _. Triple-bind _ _ (create_temp-Gives (b.dir_name path) _) (λ tmp.
          Triple-given (Has b.fs tmp []) (L.IsTemp tmp) _ (λ _. Has b.fs path bytes) (λ _. U)
            (λ t.
              finally-Triple (Has b.fs tmp []) (quiet_remove b tmp) (fill_atomic b tmp path bytes)
                (λ _. Has b.fs path bytes) (λ _. Has b.fs path bytes) (λ _. U) (λ _. U)
                (λ _. remove_keeps path bytes tmp (not_temp path tmp n t)) (λ _ env i. tt)
                (fill_atomic-Gives tmp path bytes))))

  fill_temp-Kept :
      (q d tmp bytes : Text)
      → q ≢ tmp
      → Triple
          (Has b.fs q d)
          (fill_temp b tmp bytes)
          (λ name env. Has b.fs q d env × (q ≢ name))
          (λ _. Has b.fs q d)
  unfolding fill_temp pure
  fill_temp-Kept q d tmp bytes n =
      let H : Env b → Type 0 = Has b.fs q d in
      Triple-bind _ _
        (or_undo-Kept H _ (b.fs.chmod tmp) (quiet_remove b tmp) (λ env. L.chmod_leaves tmp env q d)
          (remove_keeps q d tmp n))
        (λ _.
          Triple-bind _ _
            (or_undo-Kept H _ (b.fs.write tmp bytes) (quiet_remove b tmp)
              (λ env. L.write_others tmp bytes q d env n) (remove_keeps q d tmp n))
            (λ _.
              Triple-bind _ _
                (or_undo-Kept H _ (b.fs.sync tmp) (quiet_remove b tmp)
                  (λ env. L.sync_leaves tmp env q d) (remove_keeps q d tmp n))
                (λ _. record { at = λ env i. (i, n) })))

  pub write_temp_config-Kept :
      (m : Manager) (q d bytes : Text)
      → Triple
          (Has b.fs q d)
          (write_temp_config b m bytes)
          (λ tmp env. Has b.fs q d env × (q ≢ tmp))
          (λ _. Has b.fs q d)
  unfolding write_temp_config
  write_temp_config-Kept m q d bytes =
      let H : Env b → Type 0 = Has b.fs q d in
      let N : Text → Env b → Type 0 = λ tmp env. Has b.fs q d env × (q ≢ tmp) in
      Triple-bind _ _ (create_temp-Kept q d (b.dir_name m.config_path) _) (λ tmp.
        Triple-given H (q ≢ tmp) _ N (λ _. H)
          (λ n.
            finally-Triple H (quiet_close b tmp) (fill_temp b tmp bytes) N N (λ _. H) (λ _. H)
              (λ name env i. (L.close_leaves tmp env q d i.0, i.1))
              (λ _ env. L.close_leaves tmp env q d) (fill_temp-Kept q d tmp bytes n)))

  fill_temp-Gives :
      (tmp bytes : Text)
      → L.IsTemp tmp
      → Gives
          (Has b.fs tmp [])
          (fill_temp b tmp bytes)
          (λ name env. Has b.fs name bytes env × L.IsTemp name)
  unfolding fill_temp pure
  fill_temp-Gives tmp bytes t =
      let U : Env b → Type 0 = λ _. Unit {0} in
      let E0 : Env b → Type 0 = Has b.fs tmp [] in
      let E1 : Env b → Type 0 = Has b.fs tmp bytes in
      Triple-bind _ _
        (or_undo-Triple E0 E0 U _ (b.fs.chmod tmp) (quiet_remove b tmp)
          (λ env i q. L.chmod_leaves tmp env tmp [] i) (λ env i. tt))
        (λ _.
          Triple-bind _ _
            (or_undo-Triple E0 E1 U _ (b.fs.write tmp bytes) (quiet_remove b tmp)
              (λ env i q. written tmp bytes env i q) (λ env i. tt))
            (λ _.
              Triple-bind _ _
                (or_undo-Triple E1 E1 U _ (b.fs.sync tmp) (quiet_remove b tmp)
                  (λ env i q. L.sync_leaves tmp env tmp bytes i) (λ env i. tt))
                (λ _. record { at = λ env i. (i, t) })))

  pub write_temp_config-Gives :
      (m : Manager) (bytes : Text)
      → Gives
          (λ _. Unit {0})
          (write_temp_config b m bytes)
          (λ tmp env. Has b.fs tmp bytes env × L.IsTemp tmp)
  unfolding write_temp_config
  write_temp_config-Gives m bytes =
      let U : Env b → Type 0 = λ _. Unit {0} in
      let N : Text → Env b → Type 0 = λ tmp env. Has b.fs tmp bytes env × L.IsTemp tmp in
      Triple-bind _ _ (create_temp-Gives (b.dir_name m.config_path) _) (λ tmp.
        Triple-given (Has b.fs tmp []) (L.IsTemp tmp) _ N (λ _. U)
          (λ t.
            finally-Triple (Has b.fs tmp []) (quiet_close b tmp) (fill_temp b tmp bytes) N N
              (λ _. U) (λ _. U) (λ name env i. (L.close_leaves tmp env name bytes i.0, i.1))
              (λ _ env i. tt) (fill_temp-Gives tmp bytes t)))
