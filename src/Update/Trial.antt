-- ===== src/Update/Trial.antt =====
-- An update from 1.9.30 to 1.12.0 by a coordinator whose world is the pending file, a temporary file
-- and the installers that were started.
mod Disk
use longhub_manager.Common.{
  length, ◌≤◌, ◌*◌, valid_utf8, ◌≡◌, ◌⊎◌, inl, inr, refl, sym, ap, Bool, negsuc, true, false, ◌&&◌,
  ◌==◌, Option, none, some, List, [], ◌∷◌, ◌++◌, Text, Result, ok, err, lit, text_eq, text_eq_iff,
  is_empty, pos, ℤ, same_integer, arith, Bool-cases, if◌then◌else◌, pure, ◌>>=◌, fail,
}
use longhub_manager.System.{missing, run_or}
use longhub_manager.Update.Errors.{UpdateError, not_exist}
use longhub_manager.Update.Version.{
  version_pattern, compare_versions, compare_parts, compare_triples, is_part, next_part, number,
  parts,
}
use longhub_manager.Update.Manifest.{
  rollout_eligible, bucket, big_endian, identity_pattern, Rollout, Manifest, Envelope, Formats,
  parse_and_verify, wrong_product, wrong_release, wrong_channel, wrong_file, wrong_content,
  hex_digest_pattern, wrong_strategy, wrong_status, wrong_share, key_id_pattern, check_key,
  check_signed, find_key, first_error, manifest_guards, signature_payload, validate_manifest,
  verify_envelope,
}
use longhub_manager.Update.Recovery.{
  PendingUpdate, Storage, Done, read_pending, check_pending, first_failure, has_dot_dot_prefix,
  malformed_pending, mismatched_pending, or_close, or_fail, parse_pending, parsed, path_within,
  replace_by, then_discard, verify_stored, write_bytes, write_encoded, write_file, write_pending,
}
use longhub_manager.Update.Recovery.Files.{IsStorage}
use longhub_manager.Update.Recovery.Prepare.{
  prepare, acceptable, initial_record, mismatched, unless_pending,
}
use longhub_manager.Update.Recovery.Prepared.{IsExactEnvelope, IsExact, read_pending-prepare}
use longhub_manager.Update.Host.{Url, Response, Host}
use longhub_manager.Update.Client.{
  no_candidate, check, judge, exact, fetch_envelope, match_exact, read_limited, read_release,
  receive_release, trim_right, verify_release, hex,
}
use longhub_manager.Update.Download.{
  download, obtain, prepare_private_root, check_root, verify_installer, describes, installer_state,
  verify_found, verify_read,
}
use longhub_manager.Update.Coordinator.{
  fresh_state, refreshed, received, offered, settled, new_coordinator, status, Coordinator, apply,
  conclude, failing, launched, ready_to_apply, verified,
}
use longhub_manager.Update.Coordinator.Quiet.{IsLogged}
use longhub_manager.Update.Coordinator.Launches.{IsLaunch, apply-Launch}
use longhub_manager.Update.Coordinator.Sections.{
  Event, refresh_ends, download_begins, download_ends, apply_ends, after_events, IsCalm, step,
  begun, arrived, pick,
}
use longhub_manager.Update.Coordinator.Told.{IsTold}
use longhub_manager.Update.Coordinator.Flags.{IsDownloaded, at_rest, after_events-status}
use longhub_manager.Update.Coordinator.Calm.{after_events-downloaded}
use longhub_manager.Update.Examples.{
  rollout, repeat, manifest, envelope, formats, keys, old_manifest,
}
use longhub_manager.Update.Trial.Disk.{
  envelope_written, envelope_read, pending_written, pending_read, target_manifest, target, rollback,
  prepared, trial_formats, World, read_pending_file, kept_file, trial_storage, trial-IsStorage,
  trial-IsCodec,
}

abbrev base : Url
base = record {
  scheme = lit "https";
  has_user = false;
  host = lit "updates.example";
  path = [];
  raw_path = [];
  raw_query = [];
  force_query = false;
  fragment = [];
}

abbrev release : Response
release = record {
  status_code = 200;
  content_length = negsuc 0;
  body = envelope_written rollback;
  broken = false;
}

-- Every request is answered with the envelope of 1.9.30, and every file is an installer of two bytes.
abbrev trial_host : Host World
trial_host = record {
  parse_url = λ s. some base;
  hostname = λ u. u.host;
  path_escape = λ s. s;
  set_query = λ query k v. v;
  equal_fold = text_eq;
  is_loopback_ip = λ s. false;
  is_request = λ u. true;
  send = λ u accept w. (some release, w);
  decode_release = λ s. some (s, true);
  is_abs = λ path. true;
  clean = λ path. path;
  join = λ dir name. name;
  dir_name = λ path. [];
  lstat = λ path w. ok (record {
    is_regular = true;
    is_symlink = false;
    is_directory = text_eq path (lit "/u");
    size = 2;
  });
  read_file = λ path w. ok (lit "MZ");
  make_dirs = λ path w. (none, w);
  create_temp = λ dir w. (err missing, w);
  create_exclusive = λ path w. (some missing, w);
  chmod = λ path w. (none, w);
  write = λ path bytes w. (some missing, w);
  sync = λ path w. (none, w);
  close = λ path w. (none, w);
  rename = λ from to w. (some missing, w);
  remove = λ path w. (some missing, w);
  now = λ w. lit "2025-01-03T00:00:00Z";
  launch = λ path mode w. (none, record w { started = (path, mode) ∷ w.started });
  stop = none;
}

abbrev start : World
start = record { pending = none; temporary = []; started = [] }

abbrev kept : Text
kept = pending_written prepared ++ b'\n' ∷ []

abbrev ended_world : World
ended_world = record { pending = some kept; temporary = kept; started = [] }

abbrev verify : Text → Manifest → World → Result UpdateError Done
verify path m w = verify_installer trial_formats trial_host path m w

prepared_at_start :
    prepare trial_formats trial_storage keys [] verify trial_host.now
      (lit "1.9.30")
      target
      (lit "new.exe")
      rollback
      (lit "old.exe")
      start
    ≡ (ok prepared, ended_world)
unfolding prepare verify_installer lit text_eq pure ◌>>=◌ fail hex read_pending parse_and_verify
    wrong_product wrong_release wrong_channel wrong_file wrong_content hex_digest_pattern
    wrong_strategy wrong_status wrong_share key_id_pattern check_key check_signed find_key
    first_error manifest_guards signature_payload validate_manifest verify_envelope version_pattern
    compare_versions compare_parts compare_triples is_part next_part number parts check_pending
    first_failure has_dot_dot_prefix malformed_pending mismatched_pending or_close or_fail
    parse_pending parsed path_within replace_by then_discard verify_stored write_bytes write_encoded
    write_file write_pending acceptable initial_record mismatched unless_pending describes
    installer_state verify_found verify_read envelope_written envelope_read pending_written
    pending_read
prepared_at_start = refl

target_exact : IsExactEnvelope target
unfolding valid_utf8 lit
target_exact = record { texts = refl; integers = refl }

rollback_exact : IsExactEnvelope rollback
unfolding valid_utf8 lit
rollback_exact = record { texts = refl; integers = refl }

prepared-IsExact : IsExact prepared
unfolding valid_utf8 lit
prepared-IsExact = record {
  target_exact = target_exact;
  rollback_exact = rollback_exact;
  texts = refl;
  integers = refl;
}

kept_short : length kept ≤ 512 * 1024
unfolding pending_written lit
kept_short = omega arith

read_pending-prepare_example :
    ((read_pending trial_formats trial_storage keys [] ended_world).0 ≡ ok prepared)
    × (prepared.previous_version ≡ lit "1.9.30")
    × (prepared.target_version ≡ target.manifest.version)
    × (prepared.target_metadata ≡ target)
    × (prepared.rollback_metadata ≡ rollback)
    × (prepared.attempts ≡ pos 0)
    × (prepared.phase ≡ lit "installing")
read_pending-prepare_example =
    read_pending-prepare trial_formats trial_storage keys [] trial-IsCodec verify trial_host.now
      (lit "1.9.30") target (lit "new.exe") rollback (lit "old.exe") trial-IsStorage start
      ended_world prepared kept (ap (λ x. x.0) prepared_at_start)
      (ap (λ x. x.1.pending) (sym prepared_at_start)) prepared-IsExact refl kept_short

abbrev coordinator : Coordinator
coordinator = record {
  client = record { base_url = base; trusted_keys = keys };
  store_root = [];
  store_keys = keys;
  current_version = lit "1.9.30";
  channel = lit "stable";
  identity = lit "host-1";
  update_root = lit "/u";
  recovery_installer = lit "old.exe";
  candidate = record { envelope = target; available = true; eligible = true };
  downloaded_path = lit "new.exe";
  state = lit "ready";
  error_code = [];
}

started_keeps : (c : Option Text) (w : World) → (read_pending_file c w).1.started ≡ w.started
started_keeps c w = ap (λ x. x.started) (kept_file c w)

no_stop :
    (stop : World → World) (w : World)
    → (let o : Option (World → World) = none in o) ≡ some stop
    → (stop w).started ≡ w.started
no_stop stop w h = absurd (ground (arith, h))

abbrev trial-IsLogged : IsLogged trial_formats trial_storage trial_host
trial-IsLogged = record {
  seen = λ w. w.started;
  launch_seen = λ path mode w. refl;
  stop_keeps = λ stop w h. no_stop stop w h;
  send_keeps = λ u accept w. refl;
  dirs_keep = λ path w. refl;
  temp_keeps = λ dir w. refl;
  chmod_keeps = λ path w. refl;
  write_keeps = λ path bytes w. refl;
  sync_keeps = λ path w. refl;
  close_keeps = λ path w. refl;
  rename_keeps = λ from to w. refl;
  remove_keeps = λ path w. refl;
  read_keeps = λ w. started_keeps w.pending w;
  create_keeps = λ w. refl;
  mode_keeps = λ name w. refl;
  append_keeps = λ name bytes w. refl;
  flush_keeps = λ name w. refl;
  shut_keeps = λ name w. refl;
  move_keeps = λ name w. refl;
  discard_keeps = λ name w. refl;
}

-- The update is started, and nothing else.
started_once :
    (apply trial_formats trial_storage trial_host true coordinator start).2.started
    ≡ (lit "new.exe", lit "update") ∷ []
unfolding apply prepare verify_installer lit text_eq pure ◌>>=◌ fail hex read_pending
    parse_and_verify wrong_product wrong_release wrong_channel wrong_file wrong_content
    hex_digest_pattern wrong_strategy wrong_status wrong_share key_id_pattern check_key check_signed
    find_key first_error manifest_guards signature_payload validate_manifest verify_envelope
    version_pattern compare_versions compare_parts compare_triples is_part next_part number parts
    check_pending first_failure has_dot_dot_prefix malformed_pending mismatched_pending or_close
    or_fail parse_pending parsed path_within replace_by then_discard verify_stored write_bytes
    write_encoded write_file write_pending acceptable initial_record mismatched unless_pending
    describes installer_state verify_found verify_read exact fetch_envelope match_exact read_limited
    read_release receive_release trim_right verify_release conclude failing launched ready_to_apply
    verified envelope_written envelope_read pending_written pending_read
started_once = refl

apply-Launch_example :
    ((apply trial_formats trial_storage trial_host true coordinator start).2.started ≡ [])
    ⊎ IsLaunch trial_formats trial_storage trial_host trial-IsLogged true coordinator start
apply-Launch_example =
    apply-Launch trial_formats trial_storage trial_host trial-IsLogged true coordinator start

-- A server that offers 1.12.0 to everyone, until it pauses the rollout.
abbrev offering : Rollout → Envelope
offering r = record target { manifest = record target_manifest { rollout = r } }

abbrev everyone : Rollout
everyone = record rollout { basis_points = pos 10000 }

abbrev upgrade_formats : Formats
upgrade_formats = record trial_formats {
  decode_envelope = λ json. some (
      offering
        (if text_eq json (lit "x") then record everyone { status = lit "paused" } else everyone));
}

abbrev body_in : World → Text
body_in w = if is_empty w.temporary then lit "r" else lit "x"

abbrev upgrade_host : Host World
upgrade_host = record trial_host {
  send = λ u accept w. (some (record release { body = body_in w }), w);
}

-- The world once the rollout is paused.
abbrev paused : World
paused = record start { temporary = lit "x" }

abbrev fresh_coordinator : Coordinator
fresh_coordinator = record coordinator {
  candidate = no_candidate;
  downloaded_path = [];
  state = lit "current";
}

made_coordinator :
    new_coordinator upgrade_formats trial_storage upgrade_host coordinator.client [] keys
      (lit "1.9.30")
      (lit "stable")
      (lit "host-1")
      (lit "/u")
      (lit "old.exe")
    ≡ ok fresh_coordinator
unfolding new_coordinator version_pattern parts next_part is_part identity_pattern text_eq lit
made_coordinator = refl

-- A refresh, a download and an application, one after the other.
abbrev calm_events : List (Event World)
calm_events =
    refresh_ends start
    ∷ download_begins true
    ∷ download_ends 0 start
    ∷ apply_ends (some (lit "MANAGER_UPDATE_PREPARE_FAILED"))
    ∷ []

after_events-status_example :
    let c =
      (after_events upgrade_formats trial_storage upgrade_host calm_events
        (at_rest upgrade_formats trial_storage upgrade_host fresh_coordinator)).coordinator in
    IsTold (status c)
    × (is_empty c.downloaded_path ≡ false
        → IsDownloaded upgrade_formats trial_storage upgrade_host coordinator.client
            (lit "/u")
            c.downloaded_path)
after_events-status_example =
    after_events-status upgrade_formats trial_storage upgrade_host coordinator.client [] keys
      (lit "1.9.30") (lit "stable") (lit "host-1") (lit "/u") (lit "old.exe") fresh_coordinator
      calm_events made_coordinator

calm :
    IsCalm upgrade_formats trial_storage upgrade_host calm_events
      (at_rest upgrade_formats trial_storage upgrade_host fresh_coordinator)
unfolding step
calm = (refl, (tt, (tt, (tt, tt))))

-- At its end the installer is downloaded.
downloaded_calmly :
    (status
      (after_events upgrade_formats trial_storage upgrade_host calm_events (
        at_rest upgrade_formats trial_storage upgrade_host
          fresh_coordinator)).coordinator).downloaded
    ≡ true
unfolding after_events status lit step check text_eq version_pattern parts next_part is_part number
    compare_versions compare_parts compare_triples ◌>>=◌ fail pure fetch_envelope judge read_limited
    read_release receive_release trim_right verify_release parse_and_verify validate_manifest
    manifest_guards first_error verify_envelope check_key check_signed signature_payload find_key
    wrong_product wrong_release wrong_channel wrong_file wrong_content wrong_strategy wrong_status
    wrong_share hex_digest_pattern key_id_pattern rollout_eligible bucket big_endian
    identity_pattern refreshed fresh_state begun arrived pick offered settled received failing
    download run_or hex describes installer_state verify_found verify_read obtain
    prepare_private_root check_root
downloaded_calmly = refl

after_events-downloaded_example :
    (status
      (after_events upgrade_formats trial_storage upgrade_host calm_events (
        at_rest upgrade_formats trial_storage upgrade_host fresh_coordinator)).coordinator).eligible
    ≡ true
after_events-downloaded_example =
    after_events-downloaded upgrade_formats trial_storage upgrade_host coordinator.client [] keys
      (lit "1.9.30") (lit "stable") (lit "host-1") (lit "/u") (lit "old.exe") fresh_coordinator
      calm_events made_coordinator calm downloaded_calmly

-- A refresh that ends during a download withdraws the candidate; the download is noted all the same.
abbrev disturbed_events : List (Event World)
disturbed_events =
    refresh_ends start ∷ download_begins true ∷ refresh_ends paused ∷ download_ends 0 start ∷ []

abbrev disturbed : Coordinator
disturbed =
    (after_events upgrade_formats trial_storage upgrade_host disturbed_events
      (at_rest upgrade_formats trial_storage upgrade_host fresh_coordinator)).coordinator

downloaded_ineligible :
    ((status disturbed).state ≡ lit "ready")
    × ((status disturbed).downloaded ≡ true)
    × ((status disturbed).eligible ≡ false)
unfolding after_events status lit step check text_eq version_pattern parts next_part is_part number
    compare_versions compare_parts compare_triples ◌>>=◌ fail pure fetch_envelope judge read_limited
    read_release receive_release trim_right verify_release parse_and_verify validate_manifest
    manifest_guards first_error verify_envelope check_key check_signed signature_payload find_key
    wrong_product wrong_release wrong_channel wrong_file wrong_content wrong_strategy wrong_status
    wrong_share hex_digest_pattern key_id_pattern rollout_eligible bucket big_endian
    identity_pattern refreshed fresh_state begun arrived pick offered settled received failing
    download run_or hex describes installer_state verify_found verify_read obtain
    prepare_private_root check_root
downloaded_ineligible = (refl, refl, refl)
