-- ===== src/Update/Coordinator.antt =====
-- The coordinator of updates: internal/managerupdate/coordinator.go. Its calls are made on one that
-- is there. `refresh`, `download_update` and `apply` are calls that no other call comes between;
-- Update.Coordinator.Sections cuts them where the code lets go of the lock.
pub mod Quiet
pub mod Launches
pub mod Sections
pub mod Told
pub mod Flags
pub mod Calm
use longhub_manager.Common.{
  ℕ, ◌+◌, Bool, true, false, not, ◌&&◌, ◌||◌, Option, none, some, List, [], ◌∷◌, ◌++◌, Text, length,
  take, ltb, ◌==◌, if◌then◌else◌, Result, ok, err, Action, pure, fail, ◌>>=◌, ◌>>◌, lit, text_eq,
  is_empty,
}
use longhub_manager.System.{FileError, missing, is_missing, run_or}
use longhub_manager.Update.Errors.{
  UpdateError, metadata_invalid, unsafe_update_path, update_unavailable,
}
use longhub_manager.Update.Version.{version_pattern}
use longhub_manager.Update.Manifest.{Manifest, Envelope, Formats, identity_pattern}
use longhub_manager.Update.Recovery.{
  PendingUpdate, Storage, record_target_startup, begin_rollback, mark_healthy,
}
use longhub_manager.Update.Recovery.Prepare.{prepare}
use longhub_manager.Update.Host.{Host}
use longhub_manager.Update.Client.{Candidate, Client, Done, M, no_candidate, check, exact, hex}
use longhub_manager.Update.Download.{verify_installer, download}

pub record PublicStatus : Type 0 where
  pub state : Text
  pub current_version : Text
  pub target_version : Text
  pub available : Bool
  pub eligible : Bool
  pub downloaded : Bool
  pub error_code : Text

pub record Coordinator : Type 0 where
  pub client : Client
  -- The root of the recovery store and the keys that it trusts
  pub store_root : Text
  pub store_keys : List (Text × Text)
  pub current_version : Text
  pub channel : Text
  pub identity : Text
  pub update_root : Text
  pub recovery_installer : Text
  pub candidate : Candidate
  -- Empty if nothing is downloaded
  pub downloaded_path : Text
  pub state : Text
  pub error_code : Text

-- Go's `(PublicStatus, error)`
pub record Answer : Type 0 where
  pub status : PublicStatus
  pub failure : Option UpdateError

-- `statusLocked`
unfoldable pub status : Coordinator → PublicStatus
status c = record {
  state = c.state;
  current_version = c.current_version;
  target_version = c.candidate.envelope.manifest.version;
  available = c.candidate.available;
  eligible = c.candidate.eligible;
  downloaded = not (is_empty c.downloaded_path);
  error_code = c.error_code;
}

abbrev pub answer : Coordinator → Option UpdateError → Answer
unfolding status
answer c e = record { status = status c; failure = e }

-- The coordinator after a failure: `fail`
unfoldable pub failing : Text → Coordinator → Coordinator
failing code c = record c { state = lit "unavailable"; error_code = code }

unfoldable pub fresh_state : Candidate → Text
fresh_state candidate =
    if not candidate.available
    then lit "current"
    else if not candidate.eligible
    then lit "rollout_pending"
    else lit "available"

module _ (f : Formats) (st : Storage) (h : Host st.Env) where
  open st use {Env}

  -- What an operation gives: its answer, the coordinator after it, and the world.
  abbrev pub Step : Type 0
  Step = Coordinator → Env → Answer × Coordinator × Env

  abbrev pub ended : Option UpdateError → Step
  ended e c env = (answer c e, c, env)

  -- The record that `NewCoordinator` makes
  abbrev pub initial :
      Client → Text → List (Text × Text) → Text → Text → Text → Text → Text → Coordinator
  initial client store_root store_keys current channel identity update_root recovery_installer =
      record {
        client = client;
        store_root = store_root;
        store_keys = store_keys;
        current_version = current;
        channel = channel;
        identity = identity;
        update_root = update_root;
        recovery_installer = recovery_installer;
        candidate = no_candidate;
        downloaded_path = [];
        state = lit "current";
        error_code = [];
      }

  -- `NewCoordinator` with every option given
  unfoldable pub new_coordinator :
      Client
      → Text
      → List (Text × Text)
      → Text
      → Text
      → Text
      → Text
      → Text
      → Result UpdateError Coordinator
  new_coordinator client store_root store_keys current channel identity update_root
        recovery_installer =
      if not (version_pattern current)
        || not (text_eq channel (lit "stable")) && not (text_eq channel (lit "beta"))
        || not (identity_pattern identity)
        || not (h.is_abs update_root)
        || not (h.is_abs recovery_installer)
      then err update_unavailable
      else ok (
          initial client store_root store_keys current channel identity (h.clean update_root)
            (h.clean recovery_installer))

  -- `Refresh`
  unfoldable pub refreshed : Coordinator → Result UpdateError Candidate → Coordinator
  unfolding fresh_state failing
  refreshed c (err e) = failing (lit "MANAGER_UPDATE_CHECK_FAILED") c
  refreshed c (ok candidate) = record c {
    candidate = candidate;
    downloaded_path = [];
    state = fresh_state candidate;
    error_code = [];
  }

  abbrev pub failure_of : {A : Type 0} → Result UpdateError A → Option UpdateError
  failure_of (ok _) = none
  failure_of (err e) = some e

  unfoldable pub refresh : Step
  unfolding check refreshed
  refresh c env =
      let (r, env') = check f h c.client c.current_version c.channel c.identity env in
      ended (failure_of r) (refreshed c r) env'

  -- `Download`
  unfoldable pub received : Coordinator → Result UpdateError Text → Coordinator
  unfolding failing
  received c (err e) = failing (lit "MANAGER_UPDATE_DOWNLOAD_FAILED") c
  received c (ok path) = record c { downloaded_path = path; state = lit "ready"; error_code = [] }

  -- The candidate that a `Download` goes on with, copied under the lock
  unfoldable pub offered : Bool → Coordinator → Option Candidate
  offered confirm c =
      if not confirm || (not c.candidate.available || not c.candidate.eligible)
      then none
      else some c.candidate

  unfoldable pub download_update : Bool → Step
  unfolding download received offered
  download_update confirm c env = elim (offered confirm c) [
    | none ↦ ended (some update_unavailable) c env
    | some candidate ↦
        let (r, env') = download f h c.client candidate c.update_root env in
        ended (failure_of r) (received c r) env'
  ]

  -- The last section of an `Apply`: a failure with its code, or the start of the installer
  unfoldable pub settled : Coordinator → Option Text → Coordinator
  unfolding failing
  settled c (some code) = failing code c
  settled c none = record c { state = lit "applying"; error_code = [] }

  -- `Apply`, up to the launch: an error with the code that the status shows
  abbrev pub coded : {A : Type 0} → Text → M f h A → Action (Text × UpdateError) Env A
  coded code m env =
      let (r, env') = m env in elim r [ ok a ↦ (ok a, env') | err e ↦ (err (code, e), env') ]

  unfoldable pub verified : Text → Manifest → Action UpdateError Env Done
  unfolding verify_installer
  verified path m env = (verify_installer f h path m env, env)

  unfoldable pub ready_to_apply : Coordinator → Action (Text × UpdateError) Env PendingUpdate
  unfolding exact verified prepare verify_installer
  ready_to_apply c = do
    rollback ←
        coded (lit "MANAGER_UPDATE_ROLLBACK_UNAVAILABLE")
          (exact f h c.client c.current_version c.channel)
    coded (lit "MANAGER_UPDATE_ROLLBACK_UNAVAILABLE")
        (verified c.recovery_installer rollback.manifest)
    coded (lit "MANAGER_UPDATE_PREPARE_FAILED") (
        prepare f st c.store_keys c.store_root (verify_installer f h) h.now c.current_version
          c.candidate.envelope c.downloaded_path rollback c.recovery_installer)

  abbrev pub stopped : Option (Env → Env) → Env → Env
  stopped none env = env
  stopped (some stop) env = stop env

  -- `stop` of the options runs a moment later, after the answer.
  unfoldable pub launched : Coordinator → Option UpdateError × Env → Answer × Coordinator × Env
  unfolding settled
  launched c (some e, env) =
      ended (some e) (settled c (some (lit "MANAGER_UPDATE_LAUNCH_FAILED"))) env
  launched c (none, env) = ended none (settled c none) (stopped h.stop env)

  unfoldable pub conclude :
      Coordinator → Result (Text × UpdateError) PendingUpdate → Env → Answer × Coordinator × Env
  unfolding launched settled
  conclude c (err (code, e)) env = ended (some e) (settled c (some code)) env
  conclude c (ok p) env = launched c (h.launch c.downloaded_path (lit "update") env)

  unfoldable pub apply : Bool → Step
  unfolding ready_to_apply conclude
  apply confirm c env =
      if not confirm
        || (is_empty c.downloaded_path || (not c.candidate.available || not c.candidate.eligible))
      then ended (some update_unavailable) c env
      else (let (r, env') = ready_to_apply c env in conclude c r env')

  -- `RecoverOnStartup`: what is left to do when it returns. A timer that is started calls
  -- `MarkHealthy` when the process is still up after the delay.
  pub data Startup : Type 0 where
    nothing_pending : Startup
    previous_launched : Startup
    other_version : Startup
    timer_started : Startup

  unfoldable pub launch_previous :
      Option (Env → Env) → PendingUpdate → Action UpdateError Env Startup
  launch_previous stop p env =
      let (e, env') = h.launch p.rollback_installer (lit "rollback") env in
      elim e [ some x ↦ (err x, env') | none ↦ (ok previous_launched, stopped stop env') ]

  unfoldable pub roll_back :
      Option (Env → Env) → Coordinator → PendingUpdate → Action UpdateError Env Startup
  unfolding verified begin_rollback launch_previous
  roll_back stop c p = do
    verified p.rollback_installer p.rollback_metadata.manifest
    begin_rollback f st c.store_keys c.store_root (lit "startup_health_timeout")
    launch_previous stop p

  unfoldable pub after_startup :
      Option (Env → Env)
      → Coordinator
      → Option PendingUpdate × Bool
      → Action UpdateError Env Startup
  unfolding roll_back
  after_startup stop c (none, required) = pure nothing_pending
  after_startup stop c (some p, required) =
      if required
      then roll_back stop c p
      else pure
          (if text_eq p.target_version c.current_version then timer_started else other_version)

  unfoldable pub recover_on_startup :
      Option (Env → Env) → Coordinator → Action UpdateError Env Startup
  unfolding record_target_startup after_startup
  recover_on_startup stop c = do
    found ← record_target_startup f st c.store_keys c.store_root c.current_version
    after_startup stop c found

  -- The timer of `RecoverOnStartup` fires; its error is dropped.
  unfoldable pub health_timer : Coordinator → Env → Env
  unfolding mark_healthy
  health_timer c env = (mark_healthy f st c.store_keys c.store_root c.current_version env).1
