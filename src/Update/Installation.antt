-- ===== src/Update/Installation.antt =====
-- What internal/managerupdate keeps on disk beside the record of an update: its directories and the
-- identity of the installation (coordinator.go, state.go), and the start of an installer
-- (installer_windows.go).
use longhub_manager.Common.{
  Bool, not, ◌||◌, Option, none, some, List, [], ◌∷◌, ◌++◌, Text, length, take, ltb, if◌then◌else◌,
  Result, ok, err, pure, fail, ◌>>=◌, ◌>>◌, lit, text_eq,
}
use longhub_manager.System.{FileError, is_missing}
use longhub_manager.Update.Errors.{
  UpdateError, metadata_invalid, unsafe_update_path, update_unavailable,
}
use longhub_manager.Update.Version.{version_pattern}
use longhub_manager.Update.Manifest.{Formats, identity_pattern}
use longhub_manager.Update.Host.{Host}
use longhub_manager.Update.Client.{M, Done, hex, good_keys}
use longhub_manager.Update.Download.{prepare_private_root}

-- `LaunchInstaller` on Windows; `start` is `Start` of a command with arguments.
unfoldable pub installer_argument : Text → Option Text
installer_argument mode =
    if text_eq mode (lit "rollback")
    then some (lit "/ROLLBACK=1")
    else if not (text_eq mode (lit "update"))
    then none
    else some (lit "/UPDATE=1")

unfoldable pub launch_installer :
    {Env : Type 0}
    → (Text → List Text → Env → Bool × Env)
    → Text
    → Text
    → Env
    → Option UpdateError × Env
unfolding installer_argument
launch_installer start path mode env = elim (installer_argument mode) [
  | none ↦ (some update_unavailable, env)
  | some argument ↦
      let (started, env') = start path (lit "/S" ∷ argument ∷ []) env in
      (if started then none else some update_unavailable, env')
]

module _ {Env : Type 0} (f : Formats) (h : Host Env) where
  -- `NewRecoveryStore`: its root and its keys
  unfoldable pub new_recovery_store : Text → List (Text × Text) → M f h (Text × List (Text × Text))
  unfolding prepare_private_root good_keys
  new_recovery_store root keys = do
    prepared ← prepare_private_root f h root
    if good_keys f h keys then pure (prepared, keys) else fail update_unavailable

  -- `RecoveryInstallerPath`
  unfoldable pub recovery_installer_path : Text → Text → Result UpdateError Text
  recovery_installer_path executable version =
      if not (h.is_abs executable) || not (version_pattern version)
      then err unsafe_update_path
      else ok (
          h.join (h.join (h.dir_name executable) (lit "recovery"))
            (lit "LongHub-Manager-Setup-" ++ version ++ lit ".exe"))

  -- `UpdateRoot`
  unfoldable pub update_root_of : Text → Result UpdateError Text
  update_root_of config_dir =
      if not (h.is_abs config_dir)
      then err unsafe_update_path
      else ok (h.join (h.join config_dir (lit "LongHub")) (lit "updates"))

  -- A step on the new file: what is done when it fails comes before the error.
  unfoldable pub step_or : (Env → Option FileError × Env) → (Env → Env) → M f h Done
  step_or call undo env =
      let (e, env') = call env in
      elim e [ none ↦ (ok tt, env') | some _ ↦ (err unsafe_update_path, undo env') ]

  abbrev close_quietly : Text → Env → Env
  close_quietly path env = (h.close path env).1

  abbrev remove_quietly : Text → Env → Env
  remove_quietly path env = (h.remove path env).1

  abbrev drop_file : Text → Env → Env
  drop_file path env = remove_quietly path (close_quietly path env)

  -- The identity made of random bytes, and the file that keeps it
  abbrev pub identity_of : Text → Text
  identity_of random = lit "manager-" ++ take 40 (hex (f.digest random))

  unfoldable pub write_identity : Text → Text → M f h Text
  unfolding step_or
  write_identity path identity = do
    step_or (h.make_dirs (h.dir_name path)) (λ env. env)
    step_or (h.create_exclusive path) (λ env. env)
    step_or (h.write path identity) (drop_file path)
    step_or (h.sync path) (drop_file path)
    step_or (h.close path) (remove_quietly path)
    pure identity

  unfoldable pub identity_from : Text → Text → Result FileError Text → M f h Text
  unfolding write_identity
  identity_from path random (ok identity) =
      if identity_pattern identity then pure identity else fail metadata_invalid
  identity_from path random (err e) =
      if not (is_missing e)
      then fail unsafe_update_path
      else write_identity path (identity_of random)

  -- `EnsureStableIdentity`
  unfoldable pub ensure_stable_identity : Text → Text → M f h Text
  unfolding identity_from
  ensure_stable_identity path random env =
      if not (h.is_abs path) || ltb (length random) 32
      then (err unsafe_update_path, env)
      else identity_from path random (h.read_file path env) env
