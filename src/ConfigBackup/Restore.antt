-- ===== src/ConfigBackup/Restore.antt =====
-- A restore of internal/configbackup/manager.go puts the backup in place, or leaves the active
-- configuration as it was.
use longhub_manager.Common.{
  ℕ, ◌+◌, ◌≡◌, ◌≢◌, refl, inl, inr, true, not, ◌||◌, Option, none, some, Text, Result, ok, err,
  Ends, Triple, Triple-bind, Triple-mono, Triple-if, Triple-fail, Triple-pure, bind_ok,
  same_integer, pos, text_eq, pure, fail, length, take, ltb, Bool-cases,
}
use longhub_manager.System.{FileError, FileInfo, is_missing}
use longhub_manager.System.Rely.{Has, Leaves}
use longhub_manager.System.Kept.{
  Kept, Gives, Kept-bind, Triple-given, run_or-Triple, run_or-Kept, Gives-any,
}
use longhub_manager.ConfigBackup.{
  file_error, Manager, Backend, Snapshot, Metadata, Env, id_pattern, to_snapshot, reads, bounded,
  read_bounded, atomic_rename, quiet_remove,
}
use longhub_manager.ConfigBackup.Operations.{
  Validator, content_path, meta_path, read_backup, new_id, created, describe, write_pair,
  write_backup, read_regular, read_active, backup, run_validator, safety_copy, save_active, install,
  replace_active, restore_found, restore, read_metadata, read_content, check_content,
  parse_metadata, bad_metadata,
}
use longhub_manager.ConfigBackup.Keeping.{
  write_atomic-Kept, write_temp_config-Kept, write_temp_config-Gives, finally-Triple,
}
use longhub_manager.ConfigBackup.Rely.{IsBackend}
use longhub_manager.ConfigBackup.RoundTrip.{
  Stored, read_backup_lem, explained-Triple, or_drop-Triple, write_encoded-Kept,
}

-- The active configuration is neither a backup's file nor a temporary one.
pub record IsApart (b : Backend) (R : IsBackend b) (m : Manager) : Type 0 where
  pub not_content : (id : Text) → id_pattern id ≡ true → m.config_path ≢ content_path b m id
  pub not_meta : (id : Text) → id_pattern id ≡ true → m.config_path ≢ meta_path b m id
  pub not_temp : ¬ (R.files.IsTemp m.config_path)

module _ (b : Backend) (R : IsBackend b) (m : Manager) (apart : IsApart b R m) where
  abbrev Config : Text → Env b → Type 0
  Config = Has b.fs m.config_path

  abbrev Anything : Env b → Type 0
  Anything env = Unit {0}

  -- Reading changes nothing.
  bounded-Kept : (P : Env b → Type 0) (n : ℕ) (bytes : Text) → Kept P (bounded b n bytes)
  unfolding bounded
  bounded-Kept P n bytes = record {
    at = λ env i. elim (Bool-cases (ltb n (length (take (n + 1) bytes)))) [
      | inl q ↦ rw q i
      | inr q ↦ rw q i
    ];
  }

  read_bounded-Kept : (P : Env b → Type 0) (path : Text) (n : ℕ) → Kept P (read_bounded b path n)
  unfolding read_bounded
  read_bounded-Kept P path n =
      Kept-bind P _ _ (record { at = λ env i. reading env i (b.fs.read_file path env) refl })
        (λ bytes. bounded-Kept P n bytes)
    where
      reading :
          (env : Env b)
          → P env
          → (r : Result FileError Text) → b.fs.read_file path env ≡ r
          → Ends
              (λ _. P)
              (λ _. P)
              (reads b file_error (b.fs.read_file path) env).0
              (reads b file_error (b.fs.read_file path) env).1
      reading env i (ok bytes) q = rw (q, reads) i
      reading env i (err e) q = rw (q, reads) i

  read_active-Kept : (P : Env b → Type 0) → Kept P (read_active b m)
  unfolding read_active
  read_active-Kept P = record { at = λ env i. (regular (b.fs.lstat m.config_path env)).at env i }
    where
      regular : (r : Result FileError FileInfo) → Kept P (read_regular b m r)
      regular (err e) = Triple-fail _ (λ env i. i)
      regular (ok i) =
          Triple-if (i.is_symlink || not i.is_regular) _ _ (λ q. Triple-fail _ (λ env i. i))
            (λ q. read_bounded-Kept P m.config_path m.max_bytes)

  module _ (d : Text) where
    -- A new pair of files leaves the configuration.
    write_pair-Config :
        (id : Text) (meta : Metadata) (bytes : Text)
        → id_pattern id ≡ true
        → Kept (Config d) (write_pair b m id meta bytes)
    unfolding write_pair pure
    write_pair-Config id meta bytes valid =
        Kept-bind (Config d) _ _
          (explained-Triple b R _ (Config d) _ _ (Config d) (
            write_atomic-Kept b R.files m.config_path d (content_path b m id) bytes
              (apart.not_content id valid)))
          (λ _.
            Kept-bind (Config d) _ _
              (or_drop-Triple b R (content_path b m id) (Config d) _ _ (Config d) (Config d)
                (λ env i.
                  R.files.remove_others (content_path b m id) m.config_path d env
                    (apart.not_content id valid) i)
                (write_encoded-Kept b R m m.config_path d id (b.encode_metadata meta)
                  (apart.not_meta id valid)))
              (λ _. record { at = λ env i. i }))

    abbrev WithId : Text → Env b → Type 0
    WithId id env = Config d env × (id_pattern id ≡ true)

    new_id-Config : Triple (Config d) (new_id b) WithId (λ _. Config d)
    unfolding new_id
    new_id-Config = record { at = λ env i. go env i (b.random_id env).0 refl }
      where
        go :
            (env : Env b)
            → Config d env
            → (r : Result Text Text) → (b.random_id env).0 ≡ r
            → Ends WithId (λ _. Config d) (new_id b env).0 (new_id b env).1
        go env i (ok id) q =
            rw (q, new_id) (R.random_leaves env m.config_path d i, R.random_valid env id q)
        go env i (err e) q = rw (q, new_id) (R.random_leaves env m.config_path d i)

    write_backup-Config : (bytes : Text) → Kept (Config d) (write_backup b m bytes)
    unfolding write_backup created
    write_backup-Config bytes =
        Triple-if (ltb m.max_bytes (length bytes)) _ _ (λ q. Triple-fail _ (λ env i. i))
          (λ q.
            Kept-bind (Config d) _ _
              (run_or-Kept (Config d) _ (b.fs.make_dirs m.backup_dir)
                (λ env. R.files.make_dirs_leaves m.backup_dir env m.config_path d))
              (λ _. Triple-bind _ _ new_id-Config (λ id.
                Triple-given (Config d) (id_pattern id ≡ true) _ (λ _. Config d) (λ _. Config d)
                  (λ valid.
                    Kept-bind (Config d) _ _ (record { at = λ env i. i })
                      (λ time. write_pair-Config id (describe b id bytes time) bytes valid)))))

    pub backup-Config : Kept (Config d) (backup b m)
    unfolding backup
    backup-Config = Kept-bind (Config d) _ _ (read_active-Kept (Config d)) write_backup-Config

    save_active-Config : Kept (Config d) (save_active b m)
    unfolding save_active pure
    save_active-Config = record { at = λ env i. (copy (b.fs.lstat m.config_path env)).at env i }
      where
        copy : (r : Result FileError FileInfo) → Kept (Config d) (safety_copy b m r)
        copy (err e) =
            Triple-if (is_missing e) _ _ (λ q. record { at = λ env i. i })
              (λ q. Triple-fail _ (λ env i. i))
        copy (ok i) = Kept-bind (Config d) _ _ backup-Config (λ s. record { at = λ env i. i })

  -- A validator that leaves the files as they are.
  module _ (validate : Validator b)
      (quiet : (tmp : Text) (env : Env b) → Leaves b.fs env (validate tmp env).1) where
    run_validator-Kept : (q d tmp : Text) → Kept (Has b.fs q d) (run_validator b validate tmp)
    unfolding run_validator
    run_validator-Kept q d tmp = record { at = λ env i. go env i (validate tmp env).0 refl }
      where
        go :
            (env : Env b)
            → Has b.fs q d env
            → (o : Option Text) → (validate tmp env).0 ≡ o
            → Ends
                (λ _. Has b.fs q d)
                (λ _. Has b.fs q d)
                (run_validator b validate tmp env).0
                (run_validator b validate tmp env).1
        go env i none e = rw (e, run_validator) (quiet tmp env q d i)
        go env i (some x) e = rw (e, run_validator) (quiet tmp env q d i)

    -- The candidate takes the place of the configuration, or the configuration stays.
    install-Gives :
        (tmp bytes : Text)
        → Gives (Has b.fs tmp bytes) (install b m validate tmp) (λ _. Config bytes)
    unfolding install atomic_rename
    install-Gives tmp bytes =
        Triple-bind _ _
          (Triple-mono _ (λ _ env i. i) (λ _ env i. tt) (run_validator-Kept tmp bytes tmp))
          (λ _.
            run_or-Triple (Has b.fs tmp bytes) (Config bytes) Anything _
              (b.fs.rename tmp m.config_path)
              (λ env i q. R.files.rename_done tmp m.config_path bytes env q i) (λ env e i q. tt))

    install-Safe :
        (tmp d : Text)
        → Triple (Config d) (install b m validate tmp) (λ _ _. Unit {0}) (λ _. Config d)
    unfolding install atomic_rename
    install-Safe tmp d = Triple-bind _ _ (run_validator-Kept m.config_path d tmp) (λ _.
        run_or-Triple (Config d) Anything (Config d) _ (b.fs.rename tmp m.config_path)
          (λ env i q. tt)
          (λ env e i q. R.files.rename_failed tmp m.config_path e env q m.config_path d i))

    replace_active-Gives :
        (bytes : Text) → Gives Anything (replace_active b m validate bytes) (λ _. Config bytes)
    unfolding replace_active
    replace_active-Gives bytes =
        Triple-bind _ _
          (run_or-Triple Anything Anything Anything _ (b.fs.make_dirs (b.dir_name m.config_path))
            (λ env i q. tt) (λ env e i q. tt))
          (λ _. Triple-bind _ _ (write_temp_config-Gives b R.files m bytes) (λ tmp.
            Triple-given (Has b.fs tmp bytes) (R.files.IsTemp tmp) _ (λ _. Config bytes)
              (λ _. Anything)
              (λ temp.
                finally-Triple b R.files (Has b.fs tmp bytes) (quiet_remove b tmp)
                  (install b m validate tmp) (λ _. Config bytes) (λ _. Config bytes) (λ _. Anything)
                  (λ _. Anything)
                  (λ _ env i.
                    R.files.remove_others tmp m.config_path bytes env
                      (λ e. apart.not_temp (rw e temp)) i)
                  (λ _ env i. tt) (install-Gives tmp bytes))))

    replace_active-Safe :
        (bytes d : Text)
        → Triple (Config d) (replace_active b m validate bytes) (λ _ _. Unit {0}) (λ _. Config d)
    unfolding replace_active
    replace_active-Safe bytes d =
        Triple-bind _ _
          (run_or-Kept (Config d) _ (b.fs.make_dirs (b.dir_name m.config_path))
            (λ env. R.files.make_dirs_leaves (b.dir_name m.config_path) env m.config_path d))
          (λ _. Triple-bind _ _ (write_temp_config-Kept b R.files m m.config_path d bytes) (λ tmp.
            Triple-given (Config d) (m.config_path ≢ tmp) _ (λ _. Anything) (λ _. Config d)
              (λ other.
                finally-Triple b R.files (Config d) (quiet_remove b tmp) (install b m validate tmp)
                  (λ _. Anything) (λ _. Anything) (λ _. Config d) (λ _. Config d) (λ _ env i. tt)
                  (λ _ env i. R.files.remove_others tmp m.config_path d env other i)
                  (install-Safe tmp d))))

    restore_found-Gives :
        (bytes : Text) (snapshot : Snapshot)
        → Gives Anything
            (restore_found b m validate (bytes, snapshot))
            (λ result env. Config bytes env × (result.restored ≡ snapshot))
    unfolding restore_found pure
    restore_found-Gives bytes snapshot =
        Triple-bind _ _ (Gives-any Anything (save_active b m)) (λ safety.
          Triple-bind _ _ (replace_active-Gives bytes) (λ _. record { at = λ env i. (i, refl) }))

    restore_found-Safe :
        (found : Text × Snapshot) (d : Text)
        → Triple (Config d) (restore_found b m validate found) (λ _ _. Unit {0}) (λ _. Config d)
    unfolding restore_found pure
    restore_found-Safe (bytes, snapshot) d =
        Triple-bind _ _ (save_active-Config d) (λ safety.
          Triple-bind _ _ (replace_active-Safe bytes d) (λ _. record { at = λ env i. tt }))

    -- A restore of a stored backup that succeeds leaves its bytes in the configuration, and reports
    -- its snapshot.
    pub restore-Gives :
        (meta : Metadata) (bytes : Text)
        → Gives
            (Stored b R m meta bytes)
            (restore b m meta.id (some validate))
            (λ result env. Config bytes env × (result.restored ≡ to_snapshot meta))
    unfolding restore
    restore-Gives meta bytes = record {
      at = λ env stored.
          let found =
            bind_ok (read_backup b m meta.id) (restore_found b m validate) env env
              (bytes, to_snapshot meta) (read_backup_lem b R m meta bytes env stored) in
          rw found ((restore_found-Gives bytes (to_snapshot meta)).at env tt);
    }

    check_content-Kept :
        (P : Env b → Type 0) (meta : Metadata) (bytes : Text) → Kept P (check_content b meta bytes)
    unfolding check_content
    check_content-Kept P meta bytes =
        Triple-if
          (not (same_integer (pos (length bytes)) meta.bytes)
            || not (text_eq (b.sha256_hex bytes) meta.digest))
          _ _ (λ q. Triple-fail _ (λ env i. i)) (λ q. Triple-pure (bytes, to_snapshot meta))

    parse_metadata-Kept : (P : Env b → Type 0) (bytes : Text) → Kept P (parse_metadata b bytes)
    unfolding pure fail parse_metadata
    parse_metadata-Kept P bytes = record {
      at = λ env i. parsed env i (b.decode_metadata bytes) refl;
    }
      where
        parsed :
            (env : Env b)
            → P env
            → (r : Result Text Metadata) → b.decode_metadata bytes ≡ r
            → Ends (λ _. P) (λ _. P) (parse_metadata b bytes env).0 (parse_metadata b bytes env).1
        parsed env i (ok v) q = rw (q, parse_metadata) i
        parsed env i (err e) q = rw (q, parse_metadata) i

    read_backup-Kept : (P : Env b → Type 0) (id : Text) → Kept P (read_backup b m id)
    unfolding read_backup read_metadata read_content
    read_backup-Kept P id =
        Triple-if (not (id_pattern id) || ltb 96 (length id)) _ _ (λ q. Triple-fail _ (λ env i. i))
          (λ q.
            Kept-bind P _ _
              (Kept-bind P _ _ (read_bounded-Kept P (meta_path b m id) _) (parse_metadata-Kept P))
              (λ meta.
                Triple-if (bad_metadata b m id meta) _ _ (λ q. Triple-fail _ (λ env i. i))
                  (λ q.
                    Kept-bind P _ _
                      (explained-Triple b R _ P _ _ P
                        (read_bounded-Kept P (content_path b m id) m.max_bytes))
                      (check_content-Kept P meta))))

    -- With a file system and ids that are as relied on (`IsBackend`), a configuration apart from the
    -- backups and the temporary files, and a validator that leaves the files as they are: a restore
    -- that fails, for whatever reason, leaves a configuration that was there with the bytes it had.
    pub restore-Safe :
        (id d : Text)
        → Triple (Config d) (restore b m id (some validate)) (λ _ _. Unit {0}) (λ _. Config d)
    unfolding restore
    restore-Safe id d =
        Triple-bind _ _ (read_backup-Kept (Config d) id) (λ found. restore_found-Safe found d)
