-- ===== src/ConfigBackup/Rely.antt =====
-- What internal/configbackup/manager.go relies on: random ids, digests, times, JSON and paths.
use longhub_manager.Common.{
  ℕ, Bool, true, ◌&&◌, ◌||◌, ◌*◌, ◌≤◌, ◌≡◌, refl, [], ◌∷◌, ◌++◌, Text, ok, lit, length, all, ltb,
  leb, ◌==◌, pos, arith,
}
use longhub_manager.System.Rely.{Leaves, IsFileSystem}
use longhub_manager.ConfigBackup.{Backend, Metadata, is_hex, id_pattern, schema}

-- A name of one component that `filepath.Join` leaves as it is.
abbrev pub is_alnum : ℕ → Bool
is_alnum c = leb b'a' c && leb c b'z' || leb b'0' c && leb c b'9'

abbrev pub is_name_byte : ℕ → Bool
is_name_byte c = is_alnum c || c == b'.'

abbrev pub IsName : Text → Type 0
IsName [] = ⊥
IsName (c ∷ s) = (is_alnum c ≡ true) × (all is_name_byte s ≡ true)

-- A text of at most 256 bytes, all of them ASCII, which JSON writes and reads without a loss.
abbrev pub is_ascii : ℕ → Bool
is_ascii c = ltb c 128

abbrev pub IsShort : Text → Type 0
IsShort s = (all is_ascii s ≡ true) × (length s ≤ 256)

-- The largest `int64`
abbrev pub max_int64 : ℕ
max_int64 = 9223372036854775807

-- Metadata of short texts, with a count that is an `int64` and not negative.
pub record IsPlain (v : Metadata) : Type 0 where
  pub schema_short : IsShort v.schema_version
  pub id_short : IsShort v.id
  pub digest_short : IsShort v.digest
  pub time_short : IsShort v.created_at
  pub count : ℕ
  pub counted : v.bytes ≡ pos count
  pub count_fits : count ≤ max_int64

-- What is relied on of the rest of a backend: random ids in their form, digests and times as short
-- ASCII texts, JSON of plain metadata that is read as it was written and is short, different names
-- in a directory for different files, and names of backups that are not those of temporary files.
pub record IsBackend (b : Backend) : Type 1 where
  pub files : IsFileSystem b.fs
  pub random_leaves : (env : b.fs.Env) → Leaves b.fs env (b.random_id env).1
  pub random_valid :
      (env : b.fs.Env) (id : Text) → (b.random_id env).0 ≡ ok id → id_pattern id ≡ true
  pub digest_short : (bytes : Text) → IsShort (b.sha256_hex bytes)
  pub now_short : (env : b.fs.Env) → IsShort (b.now env)
  pub decode-encode :
      (v : Metadata) (json : Text)
      → IsPlain v
      → b.encode_metadata v ≡ ok json
      → b.decode_metadata json ≡ ok v
  pub encoded_short :
      (v : Metadata) (json : Text)
      → IsPlain v
      → b.encode_metadata v ≡ ok json
      → length json ≤ 16 * 1024
  pub join_injective : (dir x y : Text) → IsName x → IsName y → b.join dir x ≡ b.join dir y → x ≡ y
  pub join_named :
      (dir id : Text)
      → id_pattern id ≡ true
      → (¬ (files.IsTemp (b.join dir (id ++ lit ".json5"))))
        × (¬ (files.IsTemp (b.join dir (id ++ lit ".meta.json"))))

names-append :
    (id ext : Text)
    → all is_hex id ≡ true
    → all is_name_byte ext ≡ true
    → all is_name_byte (id ++ ext) ≡ true
names-append [] ext h k = k
names-append (c ∷ id) ext h k =
    let rest = names-append id ext (ground (arith, h)) k in ground (arith, h, rest)

-- An id with an extension is a name.
pub id-IsName :
    (id ext : Text) → id_pattern id ≡ true → all is_name_byte ext ≡ true → IsName (id ++ ext)
unfolding id_pattern
id-IsName [] ext h k = absurd (ground (arith, h))
id-IsName (c ∷ id) ext h k =
    let hex : is_hex c ≡ true = ground (arith, h) in
    (ground (arith, hex), names-append id ext (ground (arith, h)) k)

hex-ascii : (id : Text) → all is_hex id ≡ true → all is_ascii id ≡ true
hex-ascii [] h = refl
hex-ascii (c ∷ id) h =
    let rest = hex-ascii id (ground (arith, h)) in
    let hex : is_hex c ≡ true = ground (arith, h) in ground (arith, hex, rest)

pub id-IsShort : (id : Text) → id_pattern id ≡ true → IsShort id
unfolding id_pattern
id-IsShort id h = (hex-ascii id (ground (arith, h)), ground (arith, h))

pub schema-IsShort : IsShort schema
unfolding schema lit
schema-IsShort = (refl, omega arith)

pub extension_names :
    (all is_name_byte (lit ".json5") ≡ true) × (all is_name_byte (lit ".meta.json") ≡ true)
unfolding lit
extension_names = (refl, refl)
