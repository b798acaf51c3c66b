-- ===== src/Update/Recovery.antt =====
-- The record of an update that has not proved itself yet: `RecoveryStore` of
-- internal/managerupdate/state.go.
pub mod Files
pub mod Changes
pub mod Prepare
pub mod Prepared
use longhub_manager.Common.{
  ℕ, ◌*◌, Bool, true, false, not, ◌&&◌, ◌||◌, Option, none, some, List, [], ◌∷◌, ◌++◌, Text, length,
  ltb, ◌==◌, if◌then◌else◌, Result, ok, err, Action, pure, fail, ◌>>=◌, ◌>>◌, lit, text_eq,
  is_empty, ℤ, pos, exceeds, is_negative, next, same_integer,
}
use longhub_manager.Update.Errors.{UpdateError, metadata_invalid, unsafe_update_path, not_exist}
use longhub_manager.Update.Version.{version_pattern}
use longhub_manager.Update.Manifest.{
  Manifest, Envelope, Formats, validate_manifest, parse_and_verify,
}

pub record PendingUpdate : Type 0 where
  pub schema_version : Text
  pub previous_version : Text
  pub target_version : Text
  pub target_sequence : ℤ
  pub target_installer : Text
  pub rollback_installer : Text
  pub target_metadata : Envelope
  pub rollback_metadata : Envelope
  pub attempts : ℤ
  pub phase : Text
  pub reason : Text
  pub created_at : Text

-- What a store is given: JSON, paths, and the files. `Env` is all that the file operations may read
-- and change; those of a temporary file take its name, and say whether they succeed.
pub record Storage : Type 1 where
  pub encode_envelope : Envelope → Option Text
  pub encode_pending : PendingUpdate → Option Text
  pub decode_pending : Text → Option PendingUpdate
  pub clean : Text → Text
  pub relative : Text → Text → Option Text
  pub is_abs : Text → Bool
  pub is_separator : ℕ → Bool
  pub Env : Type 0
  -- `os.ReadFile` and `os.Remove` of the pending path
  pub read_file : Env → Result UpdateError Text × Env
  pub remove_file : Env → Option UpdateError × Env
  -- `os.CreateTemp` in the root
  pub create_temp : Env → Option Text × Env
  pub chmod : Text → Env → Bool × Env
  pub append : Text → Text → Env → Bool × Env
  pub sync : Text → Env → Bool × Env
  pub close : Text → Env → Bool × Env
  -- `os.Rename` to the pending path
  pub rename : Text → Env → Bool × Env
  -- `os.Remove` of the temporary file
  pub discard : Text → Env → Env

-- `errors.Is(err, os.ErrNotExist)`
abbrev pub is_not_exist : UpdateError → Bool
is_not_exist not_exist = true
is_not_exist _ = false

abbrev pub max_pending_bytes : ℕ
max_pending_bytes = 512 * 1024

abbrev pub Done : Type 0
Done = Unit {0}

-- The first error of a sequence of checks.
unfoldable pub first_failure : List (Result UpdateError Done) → Result UpdateError Done
first_failure [] = ok tt
first_failure (ok _ ∷ checks) = first_failure checks
first_failure (err e ∷ checks) = err e

abbrev pub forget : {A : Type 0} → Result UpdateError A → Result UpdateError Done
forget (ok _) = ok tt
forget (err e) = err e

module _ (f : Formats) (st : Storage) (keys : List (Text × Text)) (root : Text) where
  open st use {Env}

  -- `stringsHasDotDotPrefix`
  unfoldable pub has_dot_dot_prefix : Text → Bool
  has_dot_dot_prefix (a ∷ b ∷ c ∷ _) = a == b'.' && b == b'.' && st.is_separator c
  has_dot_dot_prefix _ = false

  unfoldable pub path_within : Text → Bool
  unfolding has_dot_dot_prefix
  path_within path = elim (st.relative (st.clean root) (st.clean path)) [
    | none ↦ false
    | some relative ↦
        not (text_eq relative (lit "."))
        && not (is_empty relative)
        && not (st.is_abs relative)
        && not (text_eq relative (lit ".."))
        && not (has_dot_dot_prefix relative)
  ]

  -- `verifyEnvelope`
  unfoldable pub verify_stored : Envelope → Result UpdateError Done
  verify_stored e = elim (st.encode_envelope e) [
    | none ↦ err metadata_invalid
    | some json ↦ forget (parse_and_verify f json keys)
  ]

  -- The guards of `Read` on the decoded record, before and after the checks of its envelopes.
  unfoldable pub malformed_pending : PendingUpdate → Bool
  malformed_pending p =
      not (text_eq p.schema_version (lit "longhub/manager-update-pending/v1"))
      || not (version_pattern p.previous_version)
      || not (version_pattern p.target_version)
      || not (exceeds p.target_sequence 0)
      || is_negative p.attempts
      || exceeds p.attempts 3
      || not (text_eq p.phase (lit "installing")) && not (text_eq p.phase (lit "rollback"))

  unfoldable pub mismatched_pending : PendingUpdate → Bool
  unfolding path_within
  mismatched_pending p =
      not (text_eq p.target_metadata.manifest.version p.target_version)
      || not (text_eq p.rollback_metadata.manifest.version p.previous_version)
      || not (same_integer p.target_metadata.manifest.sequence p.target_sequence)
      || not (path_within p.target_installer)

  unfoldable pub check_pending : PendingUpdate → Result UpdateError PendingUpdate
  unfolding malformed_pending mismatched_pending first_failure verify_stored
  check_pending p =
      if malformed_pending p
      then err metadata_invalid
      else elim (first_failure (
          validate_manifest f p.target_metadata.manifest
          ∷ validate_manifest f p.rollback_metadata.manifest
          ∷ verify_stored p.target_metadata
          ∷ verify_stored p.rollback_metadata
          ∷ [])) [
            | err e ↦ err e
            | ok _ ↦ if mismatched_pending p then err metadata_invalid else ok p
          ]

  -- `Read` from the bytes of the file on.
  unfoldable pub parse_pending : Text → Result UpdateError PendingUpdate
  unfolding check_pending
  parse_pending bytes =
      if length bytes == 0 || ltb max_pending_bytes (length bytes)
      then err metadata_invalid
      else elim (st.decode_pending bytes) [ none ↦ err metadata_invalid | some p ↦ check_pending p ]

  unfoldable pub parsed : Result UpdateError Text → Result UpdateError PendingUpdate
  unfolding parse_pending
  parsed (err e) = err e
  parsed (ok bytes) = parse_pending bytes

  -- `Read`
  unfoldable pub read_pending : Action UpdateError Env PendingUpdate
  unfolding parsed
  read_pending env = let (bytes, env') = st.read_file env in (parsed bytes, env')

  -- A step of `write` that closes the temporary file when it fails.
  unfoldable pub or_close : Text → (Env → Bool × Env) → Action UpdateError Env Done
  or_close name step env =
      let (good, env') = step env in
      if good then (ok tt, env') else (err unsafe_update_path, (st.close name env').1)

  unfoldable pub or_fail : (Env → Bool × Env) → Action UpdateError Env Done
  or_fail step env =
      let (good, env') = step env in if good then (ok tt, env') else (err unsafe_update_path, env')

  -- The steps of `write` on its temporary file.
  unfoldable pub replace_by : Text → Text → Action UpdateError Env Done
  unfolding or_close or_fail
  replace_by name bytes = do
    or_close name (st.chmod name)
    or_close name (st.append name bytes)
    or_close name (st.sync name)
    or_fail (st.close name)
    or_fail (st.rename name)

  -- The removal of the temporary file is deferred to the end.
  unfoldable pub then_discard : Text → Action UpdateError Env Done → Action UpdateError Env Done
  then_discard name m env = let (r, env') = m env in (r, st.discard name env')

  unfoldable pub write_file : Text → Option Text → Action UpdateError Env Done
  unfolding replace_by then_discard
  write_file bytes none = fail unsafe_update_path
  write_file bytes (some name) = then_discard name (replace_by name bytes)

  unfoldable pub write_bytes : Text → Action UpdateError Env Done
  unfolding write_file
  write_bytes bytes env = let (name, env') = st.create_temp env in write_file bytes name env'

  unfoldable pub write_encoded : Option Text → Action UpdateError Env Done
  unfolding write_bytes
  write_encoded none = fail metadata_invalid
  write_encoded (some json) = write_bytes (json ++ b'\n' ∷ [])

  -- `write`
  unfoldable pub write_pending : PendingUpdate → Action UpdateError Env Done
  unfolding write_encoded
  write_pending p = write_encoded (st.encode_pending p)

  abbrev pub removed : Option UpdateError → Result UpdateError Done
  removed none = ok tt
  removed (some e) = if is_not_exist e then ok tt else err unsafe_update_path

  unfoldable pub remove_pending : Action UpdateError Env Done
  remove_pending env = let (e, env') = st.remove_file env in (removed e, env')

  -- The result of `RecordTargetStartup`: the record, `none` for its zero value, and whether the
  -- previous installer is to be launched.
  unfoldable pub count_attempt :
      PendingUpdate → Action UpdateError Env (Option PendingUpdate × Bool)
  unfolding write_pending
  count_attempt p = do write_pending p; pure (some p, exceeds p.attempts 2)

  unfoldable pub startup :
      Text → PendingUpdate → Action UpdateError Env (Option PendingUpdate × Bool)
  unfolding remove_pending count_attempt
  startup current p =
      if text_eq p.phase (lit "rollback") && text_eq current p.previous_version
      then (remove_pending >> pure (some p, false))
      else if not (text_eq p.phase (lit "installing")) || not (text_eq current p.target_version)
      then fail metadata_invalid
      else count_attempt (record p { attempts = next p.attempts })

  -- What follows a `Read`; a missing file has a result of its own.
  unfoldable pub unless_missing :
      {A : Type 0}
      → A
      → (PendingUpdate → Action UpdateError Env A)
      → Result UpdateError PendingUpdate
      → Action UpdateError Env A
  unless_missing missing m (err e) = if is_not_exist e then pure missing else fail e
  unless_missing missing m (ok p) = m p

  -- `RecordTargetStartup`
  unfoldable pub record_target_startup : Text → Action UpdateError Env (Option PendingUpdate × Bool)
  unfolding startup unless_missing
  record_target_startup current env =
      let (found, env') = read_pending env in
      unless_missing (none, false) (startup current) found env'

  -- `BeginRollback`
  unfoldable pub begin_rollback : Text → Action UpdateError Env PendingUpdate
  unfolding write_pending
  begin_rollback reason = do
    p ← read_pending
    let p' : PendingUpdate = record p { phase = lit "rollback"; reason = reason }
    write_pending p'
    pure p'

  unfoldable pub settle : Text → PendingUpdate → Action UpdateError Env Done
  unfolding remove_pending
  settle current p =
      if not (text_eq p.phase (lit "installing")) || not (text_eq p.target_version current)
      then fail metadata_invalid
      else remove_pending

  -- `MarkHealthy`
  unfoldable pub mark_healthy : Text → Action UpdateError Env Done
  unfolding settle unless_missing
  mark_healthy current env =
      let (found, env') = read_pending env in unless_missing tt (settle current) found env'
