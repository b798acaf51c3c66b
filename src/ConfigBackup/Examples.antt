-- ===== src/ConfigBackup/Examples.antt =====
-- A manager over a file system in memory, with one configuration.
use longhub_manager.Common.{
  ◌*◌, ◌≤◌, ◌≡◌, ◌≢◌, refl, sym, ap, true, Option, none, some, Text, [], ◌∷◌, ◌++◌, Result, ok, err,
  lit, arith, Triple, length, length-append, ℤ, pos, negsuc, ℕ, ◌+◌, ◌%◌,
}
use longhub_manager.Common.Frames.{frame, unframe, unframe-frame, length-frame}
use longhub_manager.System.{missing}
use longhub_manager.System.Rely.{Has}
use longhub_manager.System.Memory.{Disk, memory, memory-IsFileSystem, temp_name, erase}
use longhub_manager.ConfigBackup.{
  Manager, Backend, Metadata, Snapshot, MutationCheckpoint, id_pattern,
}
use longhub_manager.ConfigBackup.Operations.{backup, begin_mutation, restore}
use longhub_manager.ConfigBackup.Rely.{IsBackend, IsPlain, IsShort}
use longhub_manager.ConfigBackup.Restore.{IsApart, restore-Safe}

abbrev config : Text
config = lit "c.json"

abbrev original : Text
original = lit "{}"

abbrev fresh_id : Text
fresh_id = lit "0123456789abcdef0123456789abcdef"

-- What a backup of `original` records.
abbrev recorded : Metadata
recorded = record {
  schema_version = lit "longhub/native-config-backup/v1";
  id = fresh_id;
  digest = lit "2";
  bytes = pos 2;
  created_at = lit "2025-01-01T00:00:00Z";
}

-- A count, written as one byte.
count_of : ℤ → ℕ
count_of (pos n) = n
count_of (negsuc n) = 0

written : Metadata → Text
unfolding count_of
written v =
    frame v.schema_version
      (frame v.id (frame v.digest (frame v.created_at (count_of v.bytes ∷ []))))

head : Text → ℕ
head [] = 0
head (n ∷ s) = n

read_back : Text → Metadata
unfolding head
read_back json =
    let (schema_version, r) = unframe json in
    let (id, r') = unframe r in
    let (digest, r'') = unframe r' in
    let (created_at, count) = unframe r'' in
    record {
      schema_version = schema_version;
      id = id;
      digest = digest;
      bytes = pos (head count);
      created_at = created_at;
    }

-- Metadata are written as framed texts, and a digest is the last digit of the length.
abbrev backend : Backend
backend = record {
  fs = memory;
  absolute = λ p. ok p;
  clean = λ p. p;
  relative = λ parent p. none;
  is_abs = λ p. true;
  join = λ dir name. dir ++ b'/' ∷ name;
  dir_name = λ p. [];
  separator = b'/';
  now = λ disk. lit "2025-01-01T00:00:00Z";
  random_id = λ disk. (ok fresh_id, disk);
  sha256_hex = λ s. (b'0' + length s % 10) ∷ [];
  encode_metadata = λ v. ok (written v);
  decode_metadata = λ json. ok (read_back json);
  read_dir = λ dir disk. err missing;
  newest_first = λ l. l;
}

append_injective : (dir x y : Text) → dir ++ b'/' ∷ x ≡ dir ++ b'/' ∷ y → x ≡ y
append_injective [] x y h = ground (arith, h)
append_injective (c ∷ dir) x y h = append_injective dir x y (ground (arith, h))

named : (dir id ext : Text) → 5 ≤ length ext → dir ++ b'/' ∷ (id ++ ext) ≢ temp_name
unfolding lit
named dir id ext h e =
    omega (arith, ap length e, length-append {0} dir (b'/' ∷ (id ++ ext)), length-append {0} id ext)

valid : (id : Text) → (let r : Result Text Text = ok fresh_id in r) ≡ ok id → id_pattern id ≡ true
unfolding id_pattern lit
valid id h = let same : id ≡ fresh_id = ground (arith, h) in rw same refl

read_back-written : (v : Metadata) → IsPlain v → read_back (written v) ≡ v
unfolding read_back written
read_back-written v p =
    rw
      (
        unframe-frame v.schema_version
            (frame v.id (frame v.digest (frame v.created_at (count_of v.bytes ∷ [])))),
        unframe-frame v.id (frame v.digest (frame v.created_at (count_of v.bytes ∷ []))),
        unframe-frame v.digest (frame v.created_at (count_of v.bytes ∷ [])),
        unframe-frame v.created_at (count_of v.bytes ∷ []),
      )
      (same v.bytes p.counted)
  where
    same :
        (i : ℤ)
        → i ≡ pos p.count
        → record {
          schema_version = v.schema_version;
          id = v.id;
          digest = v.digest;
          bytes = pos (count_of i);
          created_at = v.created_at;
        }
          ≡ record v { bytes = i }
    same (pos n) h = refl
    same (negsuc n) h = absurd (ground (arith, h))

decoded :
    (v : Metadata) (json : Text)
    → IsPlain v
    → backend.encode_metadata v ≡ ok json
    → backend.decode_metadata json ≡ ok v
decoded v json p h =
    let same : written v ≡ json = ground (arith, h) in rw (sym same) (ap ok (read_back-written v p))

written_short : (v : Metadata) → IsPlain v → length (written v) ≤ 16 * 1024
unfolding written
written_short v p = omega (
  arith,
  length-frame v.schema_version
      (frame v.id (frame v.digest (frame v.created_at (count_of v.bytes ∷ [])))),
  length-frame v.id (frame v.digest (frame v.created_at (count_of v.bytes ∷ []))),
  length-frame v.digest (frame v.created_at (count_of v.bytes ∷ [])),
  length-frame v.created_at (count_of v.bytes ∷ []),
  p.schema_short.1,
  p.id_short.1,
  p.digest_short.1,
  p.time_short.1,
)

short :
    (v : Metadata) (json : Text)
    → IsPlain v
    → backend.encode_metadata v ≡ ok json
    → length json ≤ 16 * 1024
short v json p h =
    let same : written v ≡ json = ground (arith, h) in rw (sym same) (written_short v p)

digit-IsShort : (bytes : Text) → IsShort (backend.sha256_hex bytes)
digit-IsShort bytes = (ground arith, omega arith)

time-IsShort : IsShort (lit "2025-01-01T00:00:00Z")
unfolding lit
time-IsShort = (refl, omega arith)

extensions : (5 ≤ length (lit ".json5")) × (5 ≤ length (lit ".meta.json"))
unfolding lit
extensions = omega arith

abbrev backend-IsBackend : IsBackend backend
backend-IsBackend = record {
  files = memory-IsFileSystem;
  random_leaves = λ disk q d i. i;
  random_valid = λ disk id h. valid id h;
  digest_short = digit-IsShort;
  now_short = λ disk. time-IsShort;
  decode-encode = decoded;
  encoded_short = short;
  join_injective = λ dir x y _ _ h. append_injective dir x y h;
  join_named = λ dir id _.
      (named dir id (lit ".json5") extensions.0, named dir id (lit ".meta.json") extensions.1);
}

abbrev manager : Manager
manager = record { config_path = config; backup_dir = lit "b"; max_bytes = 100 }

apart_from : (id ext : Text) → 5 ≤ length ext → manager.config_path ≢ lit "b" ++ b'/' ∷ (id ++ ext)
unfolding lit
apart_from id ext h e = omega (arith, ap length e, length-append {0} id ext)

config_plain : config ≢ temp_name
unfolding lit
config_plain e = omega (arith, ap length e)

manager-IsApart : IsApart backend backend-IsBackend manager
manager-IsApart = record {
  not_content = λ id _. apart_from id (lit ".json5") extensions.0;
  not_meta = λ id _. apart_from id (lit ".meta.json") extensions.1;
  not_temp = config_plain;
}

abbrev disk : Disk
disk = (config, original) ∷ []

abbrev snapshot : Snapshot
snapshot = record {
  schema_version = recorded.schema_version;
  id = fresh_id;
  digest = lit "2";
  bytes = pos 2;
  created_at = recorded.created_at;
}

abbrev checkpoint : MutationCheckpoint
checkpoint = record { config_existed = true; backup = some snapshot }

abbrev backed_up : Disk
backed_up = (backup backend manager disk).1

abbrev begun : Disk
begun = (begin_mutation backend manager disk).1

abbrev accepts : Text → Disk → Option Text × Disk
accepts tmp d = (none, d)

-- The mutation loses the configuration.
abbrev lost : Disk
lost = erase config begun

restore-Safe_example :
    Triple
      (Has memory config original)
      (restore backend manager fresh_id (some accepts))
      (λ _ _. Unit {0})
      (λ _. Has memory config original)
restore-Safe_example =
    restore-Safe backend backend-IsBackend manager manager-IsApart accepts (λ tmp d q e i. i)
      fresh_id original
