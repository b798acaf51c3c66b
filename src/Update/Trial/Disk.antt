-- ===== src/Update/Trial/Disk.antt =====
-- The world of an update from 1.9.30 to 1.12.0, with a storage and the JSON that it knows.
use longhub_manager.Common.{
  ℕ, zero, suc, negsuc, drop, ◌∙◌, ◌≡◌, refl, sym, ap, true, false, ◌==◌, Option, none, some, List,
  [], ◌∷◌, ◌++◌, Text, Result, ok, err, lit, pos, ℤ, arith,
}
use longhub_manager.Common.Frames.{framed, unframed, unframed-framed, framed-append}
use longhub_manager.Update.Errors.{UpdateError, not_exist}
use longhub_manager.Update.Manifest.{Manifest, Envelope, Formats}
use longhub_manager.Update.Recovery.{PendingUpdate, Storage}
use longhub_manager.Update.Recovery.Files.{IsStorage}
use longhub_manager.Update.Recovery.Prepared.{IsCodec}
use longhub_manager.Update.Examples.{repeat, manifest, envelope, formats, old_manifest}

abbrev pub target_manifest : Manifest
target_manifest = record manifest { size = pos 2 }

abbrev pub target : Envelope
target = record envelope { manifest = target_manifest }

abbrev rollback_manifest : Manifest
rollback_manifest = record old_manifest { size = pos 2 }

abbrev pub rollback : Envelope
rollback = record envelope { manifest = rollback_manifest }

-- An integer as its sign and its size.
written_integer : ℤ → Text
written_integer (pos n) = 0 ∷ n ∷ []
written_integer (negsuc n) = 1 ∷ n ∷ []

read_integer : Text → ℤ
read_integer (zero ∷ n ∷ s) = pos n
read_integer (suc k ∷ n ∷ s) = negsuc n
read_integer _ = pos 0

read_integer-written : (i : ℤ) → read_integer (written_integer i) ≡ i
unfolding read_integer written_integer
read_integer-written (pos n) = refl
read_integer-written (negsuc n) = refl

nth : ℕ → List Text → Text
nth n [] = []
nth zero (s ∷ ss) = s
nth (suc n) (s ∷ ss) = nth n ss

-- An envelope as the texts of its fields, and back.
envelope_texts : Envelope → List Text
unfolding written_integer
envelope_texts e =
    e.manifest.schema_version
    ∷ e.manifest.product_surface
    ∷ e.manifest.version
    ∷ e.manifest.channel
    ∷ e.manifest.platform
    ∷ e.manifest.arch
    ∷ e.manifest.filename
    ∷ e.manifest.sha256
    ∷ e.manifest.url_path
    ∷ e.manifest.published_at
    ∷ e.manifest.rollback_data_strategy
    ∷ e.manifest.rollout.status
    ∷ e.manifest.rollout.seed
    ∷ e.manifest.rollout.updated_at
    ∷ e.signature_key_id
    ∷ e.signature
    ∷ written_integer e.manifest.sequence
    ∷ written_integer e.manifest.size
    ∷ written_integer e.manifest.rollout.basis_points
    ∷ []

envelope_of : List Text → Envelope
unfolding nth read_integer
envelope_of l = record {
  manifest = record {
    schema_version = nth 0 l;
    product_surface = nth 1 l;
    version = nth 2 l;
    channel = nth 3 l;
    platform = nth 4 l;
    arch = nth 5 l;
    filename = nth 6 l;
    sha256 = nth 7 l;
    url_path = nth 8 l;
    published_at = nth 9 l;
    rollback_data_strategy = nth 10 l;
    sequence = read_integer (nth 16 l);
    size = read_integer (nth 17 l);
    rollout = record {
      status = nth 11 l;
      seed = nth 12 l;
      updated_at = nth 13 l;
      basis_points = read_integer (nth 18 l);
    };
  };
  signature_key_id = nth 14 l;
  signature = nth 15 l;
}

envelope_of-texts : (e : Envelope) → envelope_of (envelope_texts e) ≡ e
unfolding envelope_of envelope_texts
envelope_of-texts e = λ i. record {
  manifest = record {
    schema_version = e.manifest.schema_version;
    product_surface = e.manifest.product_surface;
    version = e.manifest.version;
    channel = e.manifest.channel;
    platform = e.manifest.platform;
    arch = e.manifest.arch;
    filename = e.manifest.filename;
    sha256 = e.manifest.sha256;
    url_path = e.manifest.url_path;
    published_at = e.manifest.published_at;
    rollback_data_strategy = e.manifest.rollback_data_strategy;
    sequence = read_integer-written e.manifest.sequence i;
    size = read_integer-written e.manifest.size i;
    rollout = record {
      status = e.manifest.rollout.status;
      seed = e.manifest.rollout.seed;
      updated_at = e.manifest.rollout.updated_at;
      basis_points = read_integer-written e.manifest.rollout.basis_points i;
    };
  };
  signature_key_id = e.signature_key_id;
  signature = e.signature;
}

unfoldable pub envelope_written : Envelope → Text
unfolding envelope_texts framed
envelope_written e = framed (envelope_texts e) []

unfoldable pub envelope_read : Text → Envelope
unfolding envelope_of unframed
envelope_read json = envelope_of (unframed 19 json)

envelope_read-written : (e : Envelope) → envelope_read (envelope_written e) ≡ e
unfolding envelope_read envelope_written
envelope_read-written e =
    ap envelope_of (unfold envelope_texts in unframed-framed (envelope_texts e) [])
    ∙ envelope_of-texts e

-- The same for the record of an update.
pending_texts : PendingUpdate → List Text
unfolding written_integer envelope_texts
pending_texts p =
    p.schema_version
    ∷ p.previous_version
    ∷ p.target_version
    ∷ p.target_installer
    ∷ p.rollback_installer
    ∷ p.phase
    ∷ p.reason
    ∷ p.created_at
    ∷ written_integer p.target_sequence
    ∷ written_integer p.attempts
    ∷ (envelope_texts p.target_metadata ++ envelope_texts p.rollback_metadata)

pending_of : List Text → PendingUpdate
unfolding nth read_integer envelope_of
pending_of l = record {
  schema_version = nth 0 l;
  previous_version = nth 1 l;
  target_version = nth 2 l;
  target_installer = nth 3 l;
  rollback_installer = nth 4 l;
  phase = nth 5 l;
  reason = nth 6 l;
  created_at = nth 7 l;
  target_sequence = read_integer (nth 8 l);
  attempts = read_integer (nth 9 l);
  target_metadata = envelope_of (drop 10 l);
  rollback_metadata = envelope_of (drop 29 l);
}

pending_of-texts : (p : PendingUpdate) → pending_of (pending_texts p) ≡ p
unfolding pending_of pending_texts
pending_of-texts p = λ i. record {
  schema_version = p.schema_version;
  previous_version = p.previous_version;
  target_version = p.target_version;
  target_installer = p.target_installer;
  rollback_installer = p.rollback_installer;
  phase = p.phase;
  reason = p.reason;
  created_at = p.created_at;
  target_sequence = read_integer-written p.target_sequence i;
  attempts = read_integer-written p.attempts i;
  target_metadata = envelope_of-texts p.target_metadata i;
  rollback_metadata = envelope_of-texts p.rollback_metadata i;
}

unfoldable pub pending_written : PendingUpdate → Text
unfolding pending_texts framed
pending_written p = framed (pending_texts p) []

unfoldable pub pending_read : Text → PendingUpdate
unfolding pending_of unframed
pending_read json = pending_of (unframed 48 json)

pending_read-written :
    (p : PendingUpdate) (rest : Text) → pending_read (pending_written p ++ rest) ≡ p
unfolding pending_read pending_written
pending_read-written p rest =
    ap (λ json. pending_of (unframed 48 json)) (framed-append (pending_texts p) [] rest)
    ∙ (ap pending_of (unfold pending_texts envelope_texts in unframed-framed (pending_texts p) rest)
        ∙ pending_of-texts p)

-- The record that is prepared.
abbrev pub prepared : PendingUpdate
prepared = record {
  schema_version = lit "longhub/manager-update-pending/v1";
  previous_version = lit "1.9.30";
  target_version = lit "1.12.0";
  target_sequence = pos 7;
  target_installer = lit "new.exe";
  rollback_installer = lit "old.exe";
  target_metadata = target;
  rollback_metadata = rollback;
  attempts = pos 0;
  phase = lit "installing";
  reason = [];
  created_at = lit "2025-01-03T00:00:00Z";
}

-- Envelopes and records are kept in frames, and every digest is zero.
abbrev pub trial_formats : Formats
trial_formats = record formats {
  decode_envelope = λ json. some (envelope_read json);
  digest = λ s. repeat 32 0;
}

pub record World : Type 0 where
  pub pending : Option Text
  pub temporary : Text
  pub started : List (Text × Text)

abbrev pub read_pending_file : Option Text → World → Result UpdateError Text × World
read_pending_file none w = (err not_exist, w)
read_pending_file (some bytes) w = (ok bytes, w)

abbrev pub trial_storage : Storage
trial_storage = record {
  encode_envelope = λ e. some (envelope_written e);
  encode_pending = λ p. some (pending_written p);
  decode_pending = λ json. some (pending_read json);
  clean = λ path. path;
  relative = λ root path. some path;
  is_abs = λ path. false;
  is_separator = λ c. c == b'/';
  Env = World;
  read_file = λ w. read_pending_file w.pending w;
  remove_file = λ w. (none, record w { pending = none });
  create_temp = λ w. (some (lit "t"), record w { temporary = [] });
  chmod = λ name w. (true, w);
  append = λ name bytes w. (true, record w { temporary = w.temporary ++ bytes });
  sync = λ name w. (true, w);
  close = λ name w. (true, w);
  rename = λ name w. (true, record w { pending = some w.temporary });
  discard = λ name w. w;
}

pub kept_file : (c : Option Text) (w : World) → (read_pending_file c w).1 ≡ w
kept_file none w = refl
kept_file (some b) w = refl

pub found_file :
    (c : Option Text) (w : World) (bytes : Text)
    → (read_pending_file c w).0 ≡ ok bytes
    → c ≡ some bytes
found_file none w bytes h = absurd (ground (arith, h))
found_file (some b) w bytes h = ground (arith, h)

pub renamed : (w : World) → true ≡ false → some w.temporary ≡ w.pending
renamed w h = absurd (ground (arith, h))

pub unreachable :
    (w : World) (e : UpdateError)
    → (let o : Option UpdateError = none in o) ≡ some e
    → (let o : Option Text = none in o) ≡ w.pending
unreachable w e h = absurd (ground (arith, h))

abbrev pub trial-IsStorage : IsStorage trial_storage
trial-IsStorage = record {
  contents = λ w. w.pending;
  temp = λ name w. w.temporary;
  read_found = λ w bytes h. found_file w.pending w bytes h;
  read_keeps = λ w. ap (λ x. x.pending) (kept_file w.pending w);
  remove_done = λ w h. refl;
  remove_missing = λ w h. refl;
  remove_failed = λ w e h k. unreachable w e h;
  create_keeps = λ w. refl;
  create_empty = λ w name h. refl;
  chmod_keeps = λ name w. (refl, refl);
  append_keeps = λ name bytes w. refl;
  append_done = λ name bytes w h. refl;
  sync_keeps = λ name w. (refl, refl);
  close_keeps = λ name w. (refl, refl);
  rename_done = λ name w h. refl;
  rename_failed = λ name w h. renamed w h;
  discard_keeps = λ name w. refl;
}

pending_back :
    (p : PendingUpdate) (json : Text)
    → trial_storage.encode_pending p ≡ some json
    → trial_storage.decode_pending (json ++ b'\n' ∷ []) ≡ some p
pending_back p json h =
    let same : pending_written p ≡ json = ground (arith, h) in
    rw (sym same) (ap (λ x. some x) (pending_read-written p (b'\n' ∷ [])))

envelope_back :
    (e : Envelope) (json : Text)
    → trial_storage.encode_envelope e ≡ some json
    → trial_formats.decode_envelope json ≡ some e
envelope_back e json h =
    let same : envelope_written e ≡ json = ground (arith, h) in
    rw (sym same) (ap (λ x. some x) (envelope_read-written e))

pub trial-IsCodec : IsCodec trial_formats trial_storage
trial-IsCodec = record {
  read-written = λ p json exact h. pending_back p json h;
  envelope_read = λ e json exact h. envelope_back e json h;
  clean_twice = λ path. refl;
}
