-- ===== src/System.antt =====
-- The calls of the operating system that the program makes on files, as its components share them,
-- and what is relied on of them.
pub mod Rely
pub mod Kept
pub mod Memory
use longhub_manager.Common.{ℕ, Bool, true, false, Option, none, some, Text, Result, ok, err, Action}

-- `os.ErrNotExist`, and the other errors by their text.
pub data FileError : Type 0 where
  missing : FileError
  failed : Text → FileError

abbrev pub is_missing : FileError → Bool
is_missing missing = true
is_missing (failed _) = false

-- What is read of `os.FileInfo`.
pub record FileInfo : Type 0 where
  pub is_regular : Bool
  pub is_symlink : Bool
  pub is_directory : Bool
  pub size : ℕ

-- `Env` is all that the calls may read and change. A temporary file goes by its name.
pub record FileSystem : Type 1 where
  pub Env : Type 0
  -- `os.Lstat`; opening a file and reading all of it
  pub lstat : Text → Env → Result FileError FileInfo
  pub read_file : Text → Env → Result FileError Text
  pub make_dirs : Text → Env → Option FileError × Env
  -- `os.CreateTemp` in a directory, and the methods of the file
  pub create_temp : Text → Env → Result FileError Text × Env
  pub chmod : Text → Env → Option FileError × Env
  pub write : Text → Text → Env → Option FileError × Env
  pub sync : Text → Env → Option FileError × Env
  pub close : Text → Env → Option FileError × Env
  pub rename : Text → Text → Env → Option FileError × Env
  pub remove : Text → Env → Option FileError × Env

-- A call that may fail, as an action with an error of the caller's.
unfoldable pub run_or :
    {Env E : Type 0} → (FileError → E) → (Env → Option FileError × Env) → Action E Env (Unit {0})
run_or wrap call env =
    let (e, env') = call env in elim e [ none ↦ (ok tt, env') | some x ↦ (err (wrap x), env') ]
