-- ===== src/ConfigBackup/Operations.antt =====
-- The operations of `Manager` in internal/configbackup/manager.go.
use longhub_manager.Common.{
  ◌*◌, Bool, true, false, not, ◌&&◌, ◌||◌, Option, none, some, List, [], ◌∷◌, ◌++◌, Text, length,
  ltb, if◌then◌else◌, Result, ok, err, pure, fail, ◌>>=◌, ◌>>◌, lit, text_eq, pos, exceeds,
  is_negative, same_integer,
}
use longhub_manager.System.{FileError, is_missing, FileInfo, run_or}
use longhub_manager.ConfigBackup.{
  BackupError, message, file_error, caused, Snapshot, Metadata, RestoreResult, MutationCheckpoint,
  Manager, Backend, id_pattern, schema, to_snapshot, has_suffix, trim_suffix, Env, M, Done,
  read_bounded, atomic_rename, finally, quiet_remove, write_atomic, write_temp_config,
}

module _ (b : Backend) where
  -- A callback; a missing one is refused.
  abbrev pub Validator : Type 0
  Validator = Text → Env b → Option Text × Env b

  abbrev not_regular : FileInfo → Bool
  not_regular i = i.is_symlink || not i.is_regular

  -- `readActive`
  unfoldable pub read_regular : Manager → Result FileError FileInfo → M b Text
  unfolding read_bounded
  read_regular m (err e) = fail (
      if is_missing e
      then message (lit "native OpenClaw config not found")
      else caused (lit "inspect native config") (file_error e))
  read_regular m (ok i) =
      if not_regular i
      then fail (message (lit "native OpenClaw config must be a regular non-symlink file"))
      else read_bounded b m.config_path m.max_bytes

  unfoldable pub read_active : Manager → M b Text
  unfolding read_regular
  read_active m env = read_regular m (b.fs.lstat m.config_path env) env

  abbrev pub content_path : Manager → Text → Text
  content_path m id = b.join m.backup_dir (id ++ lit ".json5")

  abbrev pub meta_path : Manager → Text → Text
  meta_path m id = b.join m.backup_dir (id ++ lit ".meta.json")

  unfoldable pub parse_metadata : Text → M b Metadata
  parse_metadata bytes = elim (b.decode_metadata bytes) [
    | err e ↦ fail (caused (lit "parse backup metadata") (message e))
    | ok value ↦ pure value
  ]

  -- `readMetadata`
  unfoldable pub read_metadata : Manager → Text → M b Metadata
  unfolding read_bounded parse_metadata
  read_metadata m id = do bytes ← read_bounded b (meta_path m id) (16 * 1024); parse_metadata bytes

  -- `toSnapshot` of a record that fits its contents.
  unfoldable pub check_content : Metadata → Text → M b (Text × Snapshot)
  unfolding to_snapshot
  check_content meta bytes =
      if not (same_integer (pos (length bytes)) meta.bytes)
        || not (text_eq (b.sha256_hex bytes) meta.digest)
      then fail (message (lit "backup integrity check failed"))
      else pure (bytes, to_snapshot meta)

  unfoldable pub bad_metadata : Manager → Text → Metadata → Bool
  unfolding schema
  bad_metadata m id meta =
      not (text_eq meta.schema_version schema)
      || not (text_eq meta.id id)
      || is_negative meta.bytes
      || exceeds meta.bytes m.max_bytes

  -- `caused` for the errors of one action.
  unfoldable pub explained : {A : Type 0} → Text → M b A → M b A
  explained what m env =
      let (r, env') = m env in elim r [ ok a ↦ (ok a, env') | err e ↦ (err (caused what e), env') ]

  unfoldable pub read_content : Manager → Text → Metadata → M b (Text × Snapshot)
  unfolding bad_metadata check_content explained
  read_content m id meta =
      if bad_metadata m id meta then fail (message (lit "backup metadata invalid")) else (do
        bytes ← explained (lit "read backup") (read_bounded b (content_path m id) m.max_bytes)
        check_content meta bytes)

  -- `readBackup`
  unfoldable pub read_backup : Manager → Text → M b (Text × Snapshot)
  unfolding read_metadata read_content
  read_backup m id =
      if not (id_pattern id) || ltb 96 (length id)
      then fail (message (lit "invalid backup id"))
      else (do meta ← read_metadata m id; read_content m id meta)

  -- What is recorded of a copy.
  unfoldable pub describe : Text → Text → Text → Metadata
  unfolding schema
  describe id bytes created = record {
    schema_version = schema;
    id = id;
    digest = b.sha256_hex bytes;
    bytes = pos (length bytes);
    created_at = created;
  }

  -- An error that removes the content again.
  unfoldable pub or_drop : {A : Type 0} → Text → M b A → M b A
  or_drop path m env =
      let (r, env') = m env in
      elim r [ ok a ↦ (ok a, env') | err e ↦ (err e, quiet_remove b path env') ]

  unfoldable pub write_encoded : Manager → Text → Result Text Text → M b Done
  unfolding explained write_atomic
  write_encoded m id (err e) = fail (message e)
  write_encoded m id (ok json) =
      explained (lit "write backup metadata") (write_atomic b (meta_path m id) json)

  unfoldable pub new_id : M b Text
  new_id env =
      let (r, env') = b.random_id env in
      elim r [
        | ok id ↦ (ok id, env')
        | err e ↦ (err (caused (lit "generate backup id") (message e)), env')
      ]

  unfoldable pub created : M b Text
  created env = (ok (b.now env), env)

  -- The content and its metadata, written one after the other.
  unfoldable pub write_pair : Manager → Text → Metadata → Text → M b Snapshot
  unfolding explained or_drop write_encoded to_snapshot
  write_pair m id value bytes = do
    explained (lit "write backup") (write_atomic b (content_path m id) bytes)
    or_drop (content_path m id) (write_encoded m id (b.encode_metadata value))
    pure (to_snapshot value)

  -- `writeBackup`
  unfoldable pub write_backup : Manager → Text → M b Snapshot
  unfolding new_id created describe write_pair
  write_backup m bytes =
      if ltb m.max_bytes (length bytes)
      then fail (message (lit "native config exceeds backup size limit"))
      else (do
        run_or (λ e. caused (lit "create backup directory") (file_error e))
            (b.fs.make_dirs m.backup_dir)
        id ← new_id
        time ← created
        write_pair m id (describe id bytes time) bytes)

  -- `Backup`
  unfoldable pub backup : Manager → M b Snapshot
  unfolding read_active write_backup
  backup m = do bytes ← read_active m; write_backup m bytes

  unfoldable pub begin_with : Manager → Result FileError FileInfo → M b MutationCheckpoint
  unfolding backup
  begin_with m (err e) =
      if is_missing e
      then pure (record { config_existed = false; backup = none })
      else fail (caused (lit "inspect native config") (file_error e))
  begin_with m (ok _) = do
    snapshot ← backup m
    pure (record { config_existed = true; backup = some snapshot })

  -- `BeginMutation`
  unfoldable pub begin_mutation : Manager → M b MutationCheckpoint
  unfolding begin_with
  begin_mutation m env = begin_with m (b.fs.lstat m.config_path env) env

  unfoldable pub run_validator : Validator → Text → M b Done
  run_validator validate tmp env =
      let (e, env') = validate tmp env in
      elim e [
        | none ↦ (ok tt, env')
        | some x ↦ (err (caused (lit "config validation failed") (message x)), env')
      ]

  -- `ValidateActive`
  unfoldable pub validate_active : Manager → Option Validator → M b Done
  unfolding read_active write_temp_config finally run_validator
  validate_active m none = fail (message (lit "config validator is required"))
  validate_active m (some validate) = do
    bytes ← read_active m
    tmp ← write_temp_config b m bytes
    finally b (quiet_remove b tmp) (run_validator validate tmp)

  -- The copy of what is active before a restore; none where nothing is.
  unfoldable pub safety_copy : Manager → Result FileError FileInfo → M b (Option Snapshot)
  unfolding backup
  safety_copy m (err e) =
      if is_missing e then pure none else fail (caused (lit "inspect active config") (file_error e))
  safety_copy m (ok _) = do snapshot ← backup m; pure (some snapshot)

  unfoldable pub save_active : Manager → M b (Option Snapshot)
  unfolding safety_copy
  save_active m env = safety_copy m (b.fs.lstat m.config_path env) env

  -- A candidate takes the place of the active configuration once it is valid.
  unfoldable pub install : Manager → Validator → Text → M b Done
  unfolding run_validator atomic_rename
  install m validate tmp = do run_validator validate tmp; atomic_rename b tmp m.config_path

  unfoldable pub replace_active : Manager → Validator → Text → M b Done
  unfolding write_temp_config finally install
  replace_active m validate bytes = do
    run_or (λ e. caused (lit "create config directory") (file_error e))
        (b.fs.make_dirs (b.dir_name m.config_path))
    tmp ← write_temp_config b m bytes
    finally b (quiet_remove b tmp) (install m validate tmp)

  -- `Restore` from the contents of the backup on.
  unfoldable pub restore_found : Manager → Validator → Text × Snapshot → M b RestoreResult
  unfolding save_active replace_active
  restore_found m validate (bytes, snapshot) = do
    safety ← save_active m
    replace_active m validate bytes
    pure (record { restored = snapshot; safety_backup = safety })

  -- `Restore`
  unfoldable pub restore : Manager → Text → Option Validator → M b RestoreResult
  unfolding read_backup restore_found
  restore m id none = fail (message (lit "config validator is required"))
  restore m id (some validate) = do found ← read_backup m id; restore_found m validate found

  unfoldable pub remove_generated : Manager → Result FileError FileInfo → M b (Option RestoreResult)
  remove_generated m (err e) =
      if is_missing e
      then pure none
      else fail (caused (lit "inspect generated config") (file_error e))
  remove_generated m (ok i) =
      if not_regular i
      then fail (message (lit "generated config must be a regular non-symlink file"))
      else (do
        run_or (λ e. caused (lit "remove generated config during rollback") (file_error e))
            (b.fs.remove m.config_path)
        pure none)

  unfoldable pub rollback_to :
      Manager → Bool → Option Snapshot → Option Validator → M b (Option RestoreResult)
  unfolding restore remove_generated
  rollback_to m true none validate = fail (message (lit "mutation checkpoint backup is missing"))
  rollback_to m true (some snapshot) validate = do
    result ← restore m snapshot.id validate
    pure (some result)
  rollback_to m false _ validate = λ env. remove_generated m (b.fs.lstat m.config_path env) env

  -- `RollbackMutation`
  unfoldable pub rollback_mutation :
      Manager → MutationCheckpoint → Option Validator → M b (Option RestoreResult)
  unfolding rollback_to
  rollback_mutation m checkpoint validate =
      rollback_to m checkpoint.config_existed checkpoint.backup validate

  -- The loop of `List`: a record that cannot be read or is another's is left out.
  unfoldable pub readable_snapshot : Text → Result BackupError Metadata → List Snapshot
  unfolding schema to_snapshot
  readable_snapshot id (err _) = []
  readable_snapshot id (ok meta) =
      if text_eq meta.schema_version schema && text_eq meta.id id then to_snapshot meta ∷ [] else []

  unfoldable pub collect : Manager → List (Text × Bool) → Env b → List Snapshot
  unfolding read_metadata readable_snapshot trim_suffix
  collect m [] env = []
  collect m ((name, is_dir) ∷ entries) env =
      let rest = collect m entries env in
      let id = trim_suffix name (lit ".meta.json") in
      if is_dir || not (has_suffix name (lit ".meta.json")) || not (id_pattern id)
      then rest
      else readable_snapshot id (read_metadata m id env).0 ++ rest

  -- `List`
  unfoldable pub list_backups : Manager → M b (List Snapshot)
  unfolding collect
  list_backups m env = elim (b.read_dir m.backup_dir env) [
    | err e ↦
        if is_missing e
        then (ok [], env)
        else (err (caused (lit "list backups") (file_error e)), env)
    | ok entries ↦ (ok (b.newest_first (collect m entries env)), env)
  ]
