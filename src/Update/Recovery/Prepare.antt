-- ===== src/Update/Recovery/Prepare.antt =====
-- The start of an update: `Prepare` and `NewRecoveryStore` of internal/managerupdate/state.go.
use Prim.Native.Nat.{Ordering}
use longhub_manager.Common.{
  Bool, true, false, not, ◌||◌, List, [], ◌∷◌, Text, if◌then◌else◌, Result, ok, err, Action, pure,
  ◌>>◌, lit, text_eq, pos,
}
use longhub_manager.Update.Errors.{UpdateError, metadata_invalid, unsafe_update_path, other_error}
use longhub_manager.Update.Version.{compare_versions}
use longhub_manager.Update.Manifest.{Manifest, Envelope, Formats}
use longhub_manager.Update.Recovery.{
  PendingUpdate, Storage, Done, is_not_exist, first_failure, path_within, verify_stored,
  read_pending, write_pending,
}

abbrev pub is_newer : Result UpdateError Ordering → Bool
is_newer (ok Ordering.gt) = true
is_newer _ = false

abbrev pub required : UpdateError → Bool → Result UpdateError Done
required e b = if b then ok tt else err e

-- `verify` is `VerifyInstaller`, and `now` the text of the time.
module _ (f : Formats) (st : Storage) (keys : List (Text × Text)) (root : Text)
    (verify : Text → Manifest → st.Env → Result UpdateError Done) (now : st.Env → Text) where
  open st use {Env}

  unfoldable pub mismatched : Text → Envelope → Envelope → Bool
  mismatched previous target rollback =
      text_eq target.manifest.version previous
      || not (text_eq rollback.manifest.version previous)
      || not (text_eq target.manifest.channel rollback.manifest.channel)

  -- What `Prepare` checks before it looks for a record.
  unfoldable pub acceptable :
      Text → Envelope → Text → Envelope → Text → Env → Result UpdateError Done
  unfolding first_failure mismatched verify_stored path_within
  acceptable previous target target_installer rollback rollback_installer env = first_failure (
      required metadata_invalid (not (mismatched previous target rollback))
      ∷ verify_stored f st keys root target
      ∷ verify_stored f st keys root rollback
      ∷ required metadata_invalid (is_newer (compare_versions target.manifest.version previous))
      ∷ verify target_installer target.manifest env
      ∷ verify rollback_installer rollback.manifest env
      ∷ required unsafe_update_path (path_within f st keys root target_installer)
      ∷ [])

  unfoldable pub initial_record : Text → Envelope → Text → Envelope → Text → Text → PendingUpdate
  initial_record previous target target_installer rollback rollback_installer time = record {
    schema_version = lit "longhub/manager-update-pending/v1";
    previous_version = previous;
    target_version = target.manifest.version;
    target_sequence = target.manifest.sequence;
    target_installer = st.clean target_installer;
    rollback_installer = st.clean rollback_installer;
    target_metadata = target;
    rollback_metadata = rollback;
    attempts = pos 0;
    phase = lit "installing";
    reason = [];
    created_at = time;
  }

  -- Only where there is no record is one written.
  unfoldable pub unless_pending :
      (Text → PendingUpdate)
      → Result UpdateError PendingUpdate
      → Action UpdateError Env PendingUpdate
  unfolding write_pending
  unless_pending made (ok _) env =
      (err (other_error (lit "manager update is already pending")), env)
  unless_pending made (err e) env =
      if is_not_exist e
      then (write_pending f st keys root (made (now env)) >> pure (made (now env))) env
      else (err e, env)

  -- `Prepare`
  unfoldable pub prepare :
      Text → Envelope → Text → Envelope → Text → Action UpdateError Env PendingUpdate
  unfolding acceptable initial_record unless_pending read_pending
  prepare previous target target_installer rollback rollback_installer env =
      elim (acceptable previous target target_installer rollback rollback_installer env) [
        | err e ↦ (err e, env)
        | ok _ ↦
            let (found, env') = read_pending f st keys root env in
            unless_pending
              (initial_record previous target target_installer rollback rollback_installer) found
              env'
      ]
