-- ===== src/ConfigBackup.antt =====
-- internal/configbackup/manager.go: private copies of the native configuration, and their way back.
pub mod Operations
pub mod Rely
pub mod Keeping
pub mod RoundTrip
pub mod Restore
pub mod Rollback
mod Examples
use longhub_manager.Common.{
  ℕ, ◌*◌, Bool, true, false, not, ◌&&◌, ◌||◌, Option, none, some, List, [], ◌∷◌, ◌++◌, Text, length,
  all, leb, ltb, ◌==◌, take, ◌+◌, if◌then◌else◌, Result, ok, err, Action, pure, fail, ◌>>=◌, ◌>>◌,
  lit, text_eq, is_empty, ℤ, pos, exceeds, is_negative, same_integer, drop, ◌-◌,
}
use longhub_manager.System.{FileError, missing, is_missing, FileInfo, FileSystem, run_or}

-- Errors by their message; `caused` is `fmt.Errorf("...: %w", err)`.
pub data BackupError : Type 0 where
  message : Text → BackupError
  file_error : FileError → BackupError
  caused : Text → BackupError → BackupError

pub record Snapshot : Type 0 where
  pub schema_version : Text
  pub id : Text
  pub digest : Text
  pub bytes : ℤ
  pub created_at : Text

pub record Metadata : Type 0 where
  pub schema_version : Text
  pub id : Text
  pub digest : Text
  pub bytes : ℤ
  pub created_at : Text

pub record RestoreResult : Type 0 where
  pub restored : Snapshot
  pub safety_backup : Option Snapshot

pub record MutationCheckpoint : Type 0 where
  pub config_existed : Bool
  pub backup : Option Snapshot

pub record Manager : Type 0 where
  pub config_path : Text
  pub backup_dir : Text
  pub max_bytes : ℕ

-- What the manager calls: the files, the paths of `filepath`, the clock (as the text of a time), 16
-- random bytes in hexadecimal, SHA-256 in hexadecimal, the JSON of metadata, and `sort.Slice` by
-- `CreatedAt`, newest first.
pub record Backend : Type 1 where
  pub fs : FileSystem
  pub absolute : Text → Result Text Text
  pub clean : Text → Text
  pub relative : Text → Text → Option Text
  pub is_abs : Text → Bool
  pub join : Text → Text → Text
  pub dir_name : Text → Text
  pub separator : ℕ
  pub now : fs.Env → Text
  pub random_id : fs.Env → Result Text Text × fs.Env
  pub sha256_hex : Text → Text
  pub encode_metadata : Metadata → Result Text Text
  pub decode_metadata : Text → Result Text Metadata
  pub read_dir : Text → fs.Env → Result FileError (List (Text × Bool))
  pub newest_first : List Snapshot → List Snapshot

abbrev pub default_max_bytes : ℕ
default_max_bytes = 4 * 1024 * 1024

abbrev pub is_hex : ℕ → Bool
is_hex c = leb b'a' c && leb c b'f' || leb b'0' c && leb c b'9'

unfoldable pub id_pattern : Text → Bool
id_pattern s = all is_hex s && length s == 32

unfoldable pub schema : Text
schema = lit "longhub/native-config-backup/v1"

unfoldable pub to_snapshot : Metadata → Snapshot
to_snapshot m = record {
  schema_version = m.schema_version;
  id = m.id;
  digest = m.digest;
  bytes = m.bytes;
  created_at = m.created_at;
}

-- `strings.HasPrefix`, `strings.HasSuffix` and `strings.TrimSuffix`
unfoldable pub has_prefix : Text → Text → Bool
has_prefix s prefix = text_eq (take (length prefix) s) prefix

unfoldable pub has_suffix : Text → Text → Bool
has_suffix s suffix =
    leb (length suffix) (length s) && text_eq (drop (length s - length suffix) s) suffix

unfoldable pub trim_suffix : Text → Text → Text
unfolding has_suffix
trim_suffix s suffix = if has_suffix s suffix then take (length s - length suffix) s else s

-- `WithMaxBytes`
unfoldable pub with_max_bytes : ℤ → Manager → Manager
with_max_bytes (pos n) m = if ltb 0 n then record m { max_bytes = n } else m
with_max_bytes _ m = m

abbrev pub Done : Type 0
Done = Unit {0}

module _ (b : Backend) where
  abbrev fs : FileSystem
  fs = b.fs

  abbrev pub Env : Type 0
  Env = b.fs.Env

  abbrev pub M : Type 0 → Type 0
  M A = Action BackupError Env A

  -- A call of the file system that returns a value and changes nothing.
  abbrev pub reads : {A : Type 0} → (FileError → BackupError) → (Env → Result FileError A) → M A
  reads wrap call env = elim (call env) [ ok a ↦ (ok a, env) | err e ↦ (err (wrap e), env) ]

  -- `isWithin`
  unfoldable pub is_within : Text → Text → Bool
  unfolding has_prefix
  is_within path parent = elim (b.relative parent path) [
    | none ↦ false
    | some rel ↦
        not (text_eq rel (lit "."))
        && not (text_eq rel (lit ".."))
        && not (has_prefix rel (lit ".." ++ b.separator ∷ []))
        && not (b.is_abs rel)
  ]

  abbrev resolve : Text → Text → Result BackupError Text
  resolve what path = elim (b.absolute path) [ ok p ↦ ok p | err e ↦ err (caused what (message e)) ]

  unfoldable pub separate : Text → Text → Result BackupError Manager
  unfolding is_within
  separate config_path backup_dir =
      if text_eq config_path backup_dir
        || is_within config_path backup_dir
        || is_within backup_dir config_path
      then err (message (lit "config path and backup directory must be separate"))
      else ok (record {
        config_path = config_path;
        backup_dir = backup_dir;
        max_bytes = default_max_bytes;
      })

  -- `New`
  unfoldable pub new_manager : Text → Text → Result BackupError Manager
  unfolding separate
  new_manager config_path backup_dir =
      if is_empty config_path || is_empty backup_dir
      then err (message (lit "config path and backup directory are required"))
      else elim (resolve (lit "resolve config path") config_path) [
        | err e ↦ err e
        | ok config ↦ elim (resolve (lit "resolve backup directory") backup_dir) [
          | err e ↦ err e
          | ok backup ↦ separate (b.clean config) (b.clean backup)
        ]
      ]

  -- `readBounded`
  unfoldable pub bounded : ℕ → Text → M Text
  bounded max_bytes bytes env =
      if ltb max_bytes (length (take (max_bytes + 1) bytes))
      then (err (message (lit "file exceeds size limit")), env)
      else (ok (take (max_bytes + 1) bytes), env)

  unfoldable pub read_bounded : Text → ℕ → M Text
  unfolding bounded
  read_bounded path max_bytes = do
    bytes ← reads file_error (b.fs.read_file path)
    bounded max_bytes bytes

  -- `atomicRename`
  unfoldable pub atomic_rename : Text → Text → M Done
  atomic_rename from to =
      run_or (λ e. caused (lit "atomic replace failed") (file_error e)) (b.fs.rename from to)

  -- A failed step of a temporary file, whose clean-up follows before the error.
  unfoldable pub or_undo :
      (FileError → BackupError) → (Env → Option FileError × Env) → (Env → Env) → M Done
  or_undo wrap call undo env =
      let (e, env') = call env in
      elim e [ none ↦ (ok tt, env') | some x ↦ (err (wrap x), undo env') ]

  -- A deferred call whose error is ignored.
  unfoldable pub finally : {A : Type 0} → (Env → Env) → M A → M A
  finally last m env = let (r, env') = m env in (r, last env')

  abbrev pub quiet_remove : Text → Env → Env
  quiet_remove path env = (b.fs.remove path env).1

  abbrev pub quiet_close : Text → Env → Env
  quiet_close path env = (b.fs.close path env).1

  -- The steps of `writeAtomic` on its temporary file.
  unfoldable pub fill_atomic : Text → Text → Text → M Done
  unfolding or_undo atomic_rename
  fill_atomic tmp path bytes = do
    or_undo file_error (b.fs.chmod tmp) (quiet_close tmp)
    or_undo file_error (b.fs.write tmp bytes) (quiet_close tmp)
    or_undo file_error (b.fs.sync tmp) (quiet_close tmp)
    run_or file_error (b.fs.close tmp)
    atomic_rename tmp path

  unfoldable pub create_temp : (FileError → BackupError) → Text → M Text
  create_temp wrap dir env =
      let (r, env') = b.fs.create_temp dir env in
      elim r [ ok name ↦ (ok name, env') | err e ↦ (err (wrap e), env') ]

  -- `writeAtomic`
  unfoldable pub write_atomic : Text → Text → M Done
  unfolding create_temp finally fill_atomic
  write_atomic path bytes = do
    run_or file_error (b.fs.make_dirs (b.dir_name path))
    tmp ← create_temp file_error (b.dir_name path)
    finally (quiet_remove tmp) (fill_atomic tmp path bytes)

  -- The steps of `writeTempConfig` on its temporary file, which is closed in the end.
  unfoldable pub fill_temp : Text → Text → M Text
  unfolding or_undo
  fill_temp tmp bytes = do
    or_undo (λ e. caused (lit "set temporary config permissions") (file_error e)) (b.fs.chmod tmp)
        (quiet_remove tmp)
    or_undo (λ e. caused (lit "write temporary config") (file_error e)) (b.fs.write tmp bytes)
        (quiet_remove tmp)
    or_undo (λ e. caused (lit "sync temporary config") (file_error e)) (b.fs.sync tmp)
        (quiet_remove tmp)
    pure tmp

  -- `writeTempConfig`
  unfoldable pub write_temp_config : Manager → Text → M Text
  unfolding create_temp finally fill_temp
  write_temp_config m bytes = do
    tmp ←
        create_temp (λ e. caused (lit "create temporary config") (file_error e))
          (b.dir_name m.config_path)
    finally (quiet_close tmp) (fill_temp tmp bytes)
