-- ===== src/Update/Download.antt =====
-- Installers of internal/managerupdate/client.go: their checks and their download.
pub mod Verified
mod Examples
use longhub_manager.Common.{
  ◌+◌, Bool, true, false, not, ◌&&◌, ◌||◌, Option, none, some, [], Text, length, take, ltb, ◌==◌,
  if◌then◌else◌, Result, ok, err, pure, fail, ◌>>=◌, ◌>>◌, lit, text_eq, pos, exceeds, is_negative,
  same_integer,
}
use longhub_manager.System.{FileError, is_missing, FileInfo, run_or}
use longhub_manager.Update.Errors.{
  UpdateError, unsafe_update_path, update_unavailable, download_invalid,
}
use longhub_manager.Update.Manifest.{Manifest, Formats, max_installer_bytes, validate_manifest}
use longhub_manager.Update.Host.{Url, Response, Host}
use longhub_manager.Update.Client.{Candidate, Client, Done, M, hex}

module _ {Env : Type 0} (f : Formats) (h : Host Env) where
  -- A call whose failure is one error of the package.
  abbrev run : UpdateError → (Env → Option FileError × Env) → M f h Done
  run e call = run_or (λ _. e) call

  unfoldable pub check_root : Result FileError FileInfo → Result UpdateError Done
  check_root (err _) = err unsafe_update_path
  check_root (ok i) = if not i.is_directory || i.is_symlink then err unsafe_update_path else ok tt

  -- `preparePrivateRoot`
  unfoldable pub prepare_private_root : Text → M f h Text
  unfolding check_root
  prepare_private_root root = if not (h.is_abs root) then fail unsafe_update_path else (do
    run unsafe_update_path (h.make_dirs (h.clean root))
    λ env. (check_root (h.lstat (h.clean root) env), env)
    run unsafe_update_path (h.chmod (h.clean root))
    pure (h.clean root))

  -- The bytes are those that the manifest describes.
  unfoldable pub describes : Manifest → Text → Bool
  describes m bytes =
      same_integer (pos (length bytes)) m.size && text_eq (hex (f.digest bytes)) m.sha256

  -- `verifyInstaller`: whether an installer is there, which is then the one described
  unfoldable pub verify_read : Manifest → Result FileError Text → Result UpdateError Bool
  unfolding describes
  verify_read m (err _) = err download_invalid
  verify_read m (ok bytes) =
      if describes m (take (max_installer_bytes + 1) bytes) then ok true else err download_invalid

  unfoldable pub verify_found :
      Manifest → Result FileError Text → Result FileError FileInfo → Result UpdateError Bool
  unfolding verify_read
  verify_found m contents (err e) = if is_missing e then ok false else err download_invalid
  verify_found m contents (ok i) =
      if not i.is_regular || i.is_symlink || not (same_integer (pos i.size) m.size)
      then err download_invalid
      else verify_read m contents

  unfoldable pub installer_state : Text → Manifest → Env → Result UpdateError Bool
  unfolding verify_found
  installer_state path m env = verify_found m (h.read_file path env) (h.lstat path env)

  abbrev pub present : Result UpdateError Bool → Bool
  present (ok b) = b
  present (err _) = false

  -- `VerifyInstaller`
  unfoldable pub verify_installer : Text → Manifest → Env → Result UpdateError Done
  unfolding installer_state
  verify_installer path m env =
      if present (installer_state path m env) then ok tt else err download_invalid

  -- `Download`, once the response is there: the length that its header gives is right, if it is given
  unfoldable pub wrong_response : Manifest → Response → Bool
  wrong_response m r =
      not (r.status_code == 200)
      || exceeds r.content_length max_installer_bytes
      || not (is_negative r.content_length) && not (same_integer r.content_length m.size)

  -- `io.Copy` of the body into the file, and the checks of what was copied
  unfoldable pub copied : Manifest → Response → M f h Done
  unfolding describes
  copied m r =
      if r.broken && ltb (length r.body) (max_installer_bytes + 1)
        || not (describes m (take (max_installer_bytes + 1) r.body))
        || ltb max_installer_bytes (length (take (max_installer_bytes + 1) r.body))
      then fail download_invalid
      else pure tt

  unfoldable pub store : Manifest → Text → Response → Text → M f h Text
  unfolding copied
  store m target r tmp = do
    run unsafe_update_path (h.chmod tmp)
    run download_invalid (h.write tmp (take (max_installer_bytes + 1) r.body))
    copied m r
    run download_invalid (h.sync tmp)
    run download_invalid (h.close tmp)
    run unsafe_update_path (h.rename tmp target)
    pure target

  -- The file is closed and removed in the end, whatever happened.
  unfoldable pub cleaned : {A : Type 0} → Text → M f h A → M f h A
  cleaned tmp m env = let (r, env') = m env in (r, (h.remove tmp (h.close tmp env').1).1)

  unfoldable pub create_in : Text → M f h Text
  create_in root env =
      let (r, env') = h.create_temp root env in
      elim r [ ok name ↦ (ok name, env') | err _ ↦ (err unsafe_update_path, env') ]

  unfoldable pub save : Manifest → Text → Text → Option Response → M f h Text
  unfolding wrong_response store cleaned create_in
  save m root target none = fail update_unavailable
  save m root target (some r) =
      if wrong_response m r
      then fail download_invalid
      else (do tmp ← create_in root; cleaned tmp (store m target r tmp))

  abbrev pub download_url : Client → Manifest → Url
  download_url c m = record c.base_url { path = m.url_path; raw_path = []; raw_query = [] }

  unfoldable pub fetch : Client → Manifest → Text → Text → M f h Text
  unfolding save
  fetch c m root target env =
      if not (h.is_request (download_url c m))
      then (err update_unavailable, env)
      else (let (r, env') =
            h.send (download_url c m) (lit "application/octet-stream, application/x-msdownload")
              env in
          save m root target r env')

  -- Nothing but a verified installer may be in the place of the download.
  unfoldable pub unless_there :
      Client → Manifest → Text → Text → Result FileError FileInfo → M f h Text
  unfolding fetch
  unless_there c m root target (ok _) = fail unsafe_update_path
  unless_there c m root target (err e) =
      if is_missing e then fetch c m root target else fail unsafe_update_path

  unfoldable pub obtain : Client → Manifest → Text → Text → M f h Text
  unfolding unless_there installer_state
  obtain c m root target env =
      if present (installer_state target m env)
      then (ok target, env)
      else unless_there c m root target (h.lstat target env) env

  -- `Download`
  unfoldable pub download : Client → Candidate → Text → M f h Text
  unfolding prepare_private_root obtain
  download c candidate root =
      if not candidate.available || not candidate.eligible
      then fail update_unavailable
      else elim (validate_manifest f candidate.envelope.manifest) [
        | err e ↦ fail e
        | ok _ ↦ (do
          dir ← prepare_private_root root
          obtain c candidate.envelope.manifest dir
              (h.join dir candidate.envelope.manifest.filename))
      ]
