-- ===== src/System/Rely.antt =====
-- What is relied on of a file system: which calls leave which files as they are. Paths are those that
-- `filepath` has cleaned, on a file system where different ones name different files (no links).
use longhub_manager.Common.{◌≡◌, ◌≢◌, ◌++◌, [], none, some, Text, ok, err}
use longhub_manager.System.{FileError, missing, FileSystem}

module _ (fs : FileSystem) where
  open fs use {Env}

  -- The file can be read and has these bytes.
  abbrev pub Has : Text → Text → Env → Type 0
  Has path bytes env = fs.read_file path env ≡ ok bytes

  abbrev pub Absent : Text → Env → Type 0
  Absent path env = fs.read_file path env ≡ err missing

  -- A call leaves every file as it is.
  abbrev pub Leaves : Env → Env → Type 0
  Leaves env env' = (q d : Text) → Has q d env → Has q d env'

pub record IsFileSystem (fs : FileSystem) : Type 1 where
  -- The names that temporary files get.
  pub IsTemp : Text → Type 0
  pub create_named :
      (dir name : Text) (env : fs.Env) → (fs.create_temp dir env).0 ≡ ok name → IsTemp name
  pub lstat_missing :
      (path : Text) (env : fs.Env) → fs.lstat path env ≡ err missing → Absent fs path env
  pub make_dirs_leaves : (path : Text) (env : fs.Env) → Leaves fs env (fs.make_dirs path env).1
  pub create_fresh :
      (dir name : Text) (env : fs.Env) → (fs.create_temp dir env).0 ≡ ok name → Absent fs name env
  pub create_empty :
      (dir name : Text) (env : fs.Env)
      → (fs.create_temp dir env).0 ≡ ok name
      → Has fs name [] (fs.create_temp dir env).1
  pub create_leaves : (dir : Text) (env : fs.Env) → Leaves fs env (fs.create_temp dir env).1
  pub chmod_leaves : (path : Text) (env : fs.Env) → Leaves fs env (fs.chmod path env).1
  pub sync_leaves : (path : Text) (env : fs.Env) → Leaves fs env (fs.sync path env).1
  pub close_leaves : (path : Text) (env : fs.Env) → Leaves fs env (fs.close path env).1
  pub write_done :
      (path bytes old : Text) (env : fs.Env)
      → (fs.write path bytes env).0 ≡ none
      → Has fs path old env
      → Has fs path (old ++ bytes) (fs.write path bytes env).1
  pub write_others :
      (path bytes q d : Text) (env : fs.Env)
      → q ≢ path
      → Has fs q d env
      → Has fs q d (fs.write path bytes env).1
  pub rename_done :
      (from to bytes : Text) (env : fs.Env)
      → (fs.rename from to env).0 ≡ none
      → Has fs from bytes env
      → Has fs to bytes (fs.rename from to env).1
  pub rename_others :
      (from to q d : Text) (env : fs.Env)
      → q ≢ from
      → q ≢ to
      → Has fs q d env
      → Has fs q d (fs.rename from to env).1
  pub rename_failed :
      (from to : Text) (e : FileError) (env : fs.Env)
      → (fs.rename from to env).0 ≡ some e
      → Leaves fs env (fs.rename from to env).1
  pub remove_done :
      (path : Text) (env : fs.Env)
      → (fs.remove path env).0 ≡ none
      → Absent fs path (fs.remove path env).1
  pub remove_others :
      (path q d : Text) (env : fs.Env)
      → q ≢ path
      → Has fs q d env
      → Has fs q d (fs.remove path env).1
