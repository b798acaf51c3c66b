-- ===== src/Update/Examples.antt =====
-- Versions, a manifest and a rollout at concrete values.
use Prim.Native.Nat.{Ordering}
use longhub_manager.Common.{
  none, err, false, ◌==◌, ◌++◌, Result, Ends, ◌>>=◌, pure, Option, ℕ, zero, suc, true, some, ◌↔◌,
  pos, negsuc, ℤ, text_eq, List, [], ◌∷◌, arith, ◌≡◌, refl, Text, lit, ok,
}
use longhub_manager.Update.Version.{
  compare_versions, parts, compare_triples, compare_parts, number, is_part, next_part,
  version_pattern,
}
use longhub_manager.Update.Manifest.{
  Json, text, integer, object, Members, end, member, canonical, Rollout, Manifest, Envelope,
  Formats, hex_digest_pattern, key_id_pattern, identity_pattern, wrong_product, wrong_release,
  wrong_channel, wrong_file, wrong_content, wrong_strategy, wrong_status, wrong_share, first_error,
  manifest_guards, validate_manifest, signature_payload, find_key, check_signed, check_key,
  verify_envelope, parse_and_verify, bucket, big_endian, rollout_eligible,
}
use longhub_manager.Update.Manifest.Validity.{IsManifest, validate_manifest_iff}
use longhub_manager.Update.Manifest.Trust.{IsTrusted, parse_and_verify_iff}
use longhub_manager.Update.Manifest.Share.{rollout_eligible_mono}
use longhub_manager.Update.Errors.{UpdateError, not_exist}
use longhub_manager.Update.Recovery.{
  PendingUpdate, Storage, is_not_exist, record_target_startup, startup, unless_missing,
  read_pending, parsed, parse_pending, check_pending, malformed_pending, mismatched_pending,
  path_within, has_dot_dot_prefix, verify_stored, first_failure, count_attempt, write_pending,
  write_encoded, write_bytes, write_file, then_discard, replace_by, or_close, or_fail,
}
use longhub_manager.Update.Recovery.Files.{IsStorage, Is, Written, write_pending_lem}
use longhub_manager.Update.Recovery.Changes.{
  Change, startup_of, after_operation, after_operation-Change,
}
use longhub_manager.Update.Version.Rank.{compare_versions-rank, version_rank, compare_ranks}
use longhub_manager.Update.Version.Canonical.{compare_versions-canonical}

abbrev newer : Text
newer = lit "1.12.0"

abbrev older : Text
older = lit "1.9.30"

order : compare_versions newer older ≡ ok Ordering.gt
unfolding compare_versions parts compare_triples compare_parts number is_part next_part lit
order = refl

same : compare_versions newer newer ≡ ok Ordering.eq
unfolding compare_versions parts compare_triples compare_parts number is_part next_part lit
same = refl

compare_versions-rank_example :
    compare_versions newer older ≡ compare_ranks (version_rank newer) (version_rank older)
compare_versions-rank_example = compare_versions-rank newer older

compare_versions-canonical_example : newer ≡ newer
compare_versions-canonical_example = compare_versions-canonical newer newer same

abbrev pub repeat : ℕ → ℕ → Text
repeat zero c = []
repeat (suc n) c = c ∷ repeat n c

abbrev pub rollout : Rollout
rollout = record {
  status = lit "active";
  basis_points = pos 500;
  seed = repeat 64 b'a';
  updated_at = lit "2025-01-02T00:00:00Z";
}

abbrev pub manifest : Manifest
manifest = record {
  schema_version = lit "longhub/client-update/v2";
  product_surface = lit "longhub-manager";
  sequence = pos 7;
  version = lit "1.12.0";
  channel = lit "stable";
  platform = lit "win32";
  arch = lit "x64";
  filename = lit "LongHub-Manager-Setup-1.12.0.exe";
  size = pos 4096;
  sha256 = repeat 64 b'0';
  url_path = lit "/downloads/LongHub-Manager-Setup-1.12.0.exe";
  published_at = lit "2025-01-01T00:00:00Z";
  rollback_data_strategy = lit "snapshot_required";
  rollout = rollout;
}

abbrev pub key : Text
key = repeat 32 b'k'

abbrev pub envelope : Envelope
envelope = record {
  manifest = manifest;
  signature_key_id = lit "release-1";
  signature = repeat 64 b's';
}

abbrev pub printed_integer : ℤ → Text
printed_integer (pos n) = b'0' ∷ n ∷ []
printed_integer (negsuc n) = b'-' ∷ n ∷ []

-- A printer of values, which writes a number as a byte.
mutual
  pub printed : Json → Text
  printed (text s) = b'"' ∷ (s ++ b'"' ∷ [])
  printed (integer i) = printed_integer i
  printed (object o) = b'{' ∷ (printed_members o ++ b'}' ∷ [])

  pub printed_members : Members → Text
  printed_members end = []
  printed_members (member k v o) =
      b'"' ∷ (k ++ b'"' ∷ b':' ∷ (printed v ++ b',' ∷ printed_members o))

-- Formats for the examples: every text is base64 and a time, a signature is made of `s` alone.
abbrev pub formats : Formats
formats = record {
  is_time = λ s. true;
  decode_envelope = λ s. some envelope;
  decode_base64 = λ s. some s;
  encode_json = λ j. some (printed j ++ b'\n' ∷ []);
  verify = λ k payload s. text_eq s (repeat 64 b's');
  digest = λ s. 0 ∷ 0 ∷ 1 ∷ 2 ∷ [];
}

abbrev pub keys : List (Text × Text)
keys = (lit "release-1", key) ∷ []

accepted : parse_and_verify formats (lit "{}") keys ≡ ok envelope
unfolding parse_and_verify validate_manifest manifest_guards first_error verify_envelope check_key
    check_signed signature_payload find_key wrong_product wrong_release wrong_channel wrong_file
    wrong_content wrong_strategy wrong_status wrong_share hex_digest_pattern key_id_pattern
    version_pattern parts next_part is_part lit text_eq
accepted = refl

reached : rollout_eligible formats rollout (lit "host-1") ≡ ok true
unfolding rollout_eligible bucket big_endian hex_digest_pattern identity_pattern lit text_eq
reached = refl

validate_manifest_iff_example :
    (validate_manifest formats manifest ≡ ok tt) ↔ IsManifest formats manifest
validate_manifest_iff_example = validate_manifest_iff formats manifest

parse_and_verify_iff_example :
    ((parse_and_verify formats (lit "{}") keys ≡ ok envelope)
      ↔ IsTrusted formats (lit "{}") keys envelope)
    × ((m : Manifest) → canonical m ≡ canonical envelope.manifest → m ≡ envelope.manifest)
parse_and_verify_iff_example = parse_and_verify_iff formats (lit "{}") keys envelope

rollout_eligible_mono_example :
    rollout_eligible formats (record rollout { basis_points = pos 2500 }) (lit "host-1") ≡ ok true
rollout_eligible_mono_example =
    rollout_eligible_mono formats rollout 500 2500 (lit "host-1") refl (omega arith) (omega arith)
      reached

abbrev pub old_manifest : Manifest
old_manifest = record manifest {
  version = lit "1.9.30";
  filename = lit "LongHub-Manager-Setup-1.9.30.exe";
  url_path = lit "/downloads/LongHub-Manager-Setup-1.9.30.exe";
}

abbrev pending : PendingUpdate
pending = record {
  schema_version = lit "longhub/manager-update-pending/v1";
  previous_version = lit "1.9.30";
  target_version = lit "1.12.0";
  target_sequence = pos 7;
  target_installer = lit "new.exe";
  rollback_installer = lit "old.exe";
  target_metadata = envelope;
  rollback_metadata = record envelope { manifest = old_manifest };
  attempts = pos 2;
  phase = lit "installing";
  reason = [];
  created_at = lit "2025-01-03T00:00:00Z";
}

-- A disk with the pending file and one temporary file, which never fails.
abbrev Disk : Type 0
Disk = Option Text × Text

abbrev read_disk : Option Text → Disk → Result UpdateError Text × Disk
read_disk none d = (err not_exist, d)
read_disk (some bytes) d = (ok bytes, d)

abbrev remove_disk : Option Text → Disk → Option UpdateError × Disk
remove_disk none d = (some not_exist, d)
remove_disk (some bytes) d = (none, (none, d.1))

-- The JSON of a record is its phase, and every JSON is that of `pending`.
abbrev storage : Storage
storage = record {
  encode_envelope = λ e. some (lit "{}");
  encode_pending = λ p. some p.phase;
  decode_pending = λ bytes. some pending;
  clean = λ path. path;
  relative = λ root path. some path;
  is_abs = λ path. false;
  is_separator = λ c. c == b'/';
  Env = Disk;
  read_file = λ d. read_disk d.0 d;
  remove_file = λ d. remove_disk d.0 d;
  create_temp = λ d. (some (lit "t"), (d.0, []));
  chmod = λ name d. (true, d);
  append = λ name bytes d. (true, (d.0, d.1 ++ bytes));
  sync = λ name d. (true, d);
  close = λ name d. (true, d);
  rename = λ name d. (true, (some d.1, d.1));
  discard = λ name d. d;
}

storage_found :
    (c : Option Text) (t bytes : Text) → (read_disk c (c, t)).0 ≡ ok bytes → c ≡ some bytes
storage_found none t bytes h = absurd (ground (arith, h))
storage_found (some b) t bytes h = ground (arith, h)

storage_keeps : (c : Option Text) (d : Disk) → (read_disk c d).1.0 ≡ d.0
storage_keeps none d = refl
storage_keeps (some b) d = refl

storage_done :
    (c : Option Text) (d : Disk) → (remove_disk c d).0 ≡ none → (remove_disk c d).1.0 ≡ none
storage_done none d h = absurd (ground (arith, h))
storage_done (some b) d h = refl

storage_missing :
    (c : Option Text) (t : Text)
    → (remove_disk c (c, t)).0 ≡ some not_exist
    → (remove_disk c (c, t)).1.0 ≡ none
storage_missing none t h = refl
storage_missing (some b) t h = refl

storage_failed :
    (c : Option Text) (d : Disk) (e : UpdateError)
    → (remove_disk c d).0 ≡ some e
    → is_not_exist e ≡ false
    → (remove_disk c d).1.0 ≡ d.0
storage_failed none d e h k = refl
storage_failed (some b) d e h k = absurd (ground (arith, h))

storage_renames : (d : Disk) → true ≡ false → some d.1 ≡ d.0
storage_renames d h = absurd (ground (arith, h))

abbrev storage-IsStorage : IsStorage storage
storage-IsStorage = record {
  contents = λ d. d.0;
  temp = λ name d. d.1;
  read_found = λ d bytes h. storage_found d.0 d.1 bytes h;
  read_keeps = λ d. storage_keeps d.0 d;
  remove_done = λ d h. storage_done d.0 d h;
  remove_missing = λ d h. storage_missing d.0 d.1 h;
  remove_failed = λ d e h k. storage_failed d.0 d e h k;
  create_keeps = λ d. refl;
  create_empty = λ d name h. refl;
  chmod_keeps = λ name d. (refl, refl);
  append_keeps = λ name bytes d. refl;
  append_done = λ name bytes d h. refl;
  sync_keeps = λ name d. (refl, refl);
  close_keeps = λ name d. (refl, refl);
  rename_done = λ name d h. refl;
  rename_failed = λ name d h. storage_renames d h;
  discard_keeps = λ name d. refl;
}

abbrev disk : Disk
disk = (some (lit "installing"), [])

-- The third start of a target version that has not proved itself asks for the previous installer.
third_start :
    (record_target_startup formats storage keys [] (lit "1.12.0") disk).0
    ≡ ok (some (record pending { attempts = pos 3 }), true)
unfolding record_target_startup startup unless_missing read_pending parsed parse_pending
    check_pending malformed_pending mismatched_pending path_within has_dot_dot_prefix verify_stored
    first_failure count_attempt write_pending write_encoded write_bytes write_file then_discard
    replace_by or_close or_fail ◌>>=◌ pure parse_and_verify validate_manifest manifest_guards
    first_error verify_envelope check_key check_signed signature_payload find_key wrong_product
    wrong_release wrong_channel wrong_file wrong_content wrong_strategy wrong_status wrong_share
    hex_digest_pattern key_id_pattern version_pattern parts next_part is_part lit text_eq
third_start = refl

write_pending_lem_example :
    Ends
      (λ _. Written formats storage keys [] storage-IsStorage pending)
      (λ _. Is formats storage keys [] storage-IsStorage (some (lit "installing")))
      (write_pending formats storage keys [] pending disk).0
      (write_pending formats storage keys [] pending disk).1
write_pending_lem_example = write_pending_lem formats storage keys [] storage-IsStorage pending disk

after_operation-Change_example :
    Change formats storage keys []
      (startup_of (lit "1.12.0"))
      (some (lit "installing"))
      (after_operation formats storage keys [] (startup_of (lit "1.12.0")) disk).0
after_operation-Change_example =
    after_operation-Change formats storage keys [] storage-IsStorage (startup_of (lit "1.12.0"))
      disk
