-- ===== src/Update/Manifest.antt =====
-- Signed update manifests: `ValidateManifest`, `ParseAndVerify` and `RolloutEligible` of
-- internal/managerupdate/manifest.go.
pub mod Validity
pub mod Canonical
pub mod Trust
pub mod Share
use longhub_manager.Common.{
  ℕ, zero, suc, ◌+◌, ◌*◌, ◌%◌, Bool, true, false, not, ◌&&◌, ◌||◌, Option, none, some, List, [],
  ◌∷◌, ◌++◌, Text, length, all, ltb, leb, ◌==◌, if◌then◌else◌, Result, ok, err, lit, text_eq, ℤ,
  equals, exceeds, is_negative, take,
}
use longhub_manager.Update.Errors.{
  UpdateError, metadata_invalid, signature_invalid, unknown_signing_key,
}
use longhub_manager.Update.Version.{version_pattern, is_digit}

pub record Rollout : Type 0 where
  pub status : Text
  pub basis_points : ℤ
  pub seed : Text
  pub updated_at : Text

pub record Manifest : Type 0 where
  pub schema_version : Text
  pub product_surface : Text
  pub sequence : ℤ
  pub version : Text
  pub channel : Text
  pub platform : Text
  pub arch : Text
  pub filename : Text
  pub size : ℤ
  pub sha256 : Text
  pub url_path : Text
  pub published_at : Text
  pub rollback_data_strategy : Text
  pub rollout : Rollout

pub record Envelope : Type 0 where
  pub manifest : Manifest
  pub signature_key_id : Text
  pub signature : Text

-- The values that the code hands to the JSON encoder: `map[string]any` of strings and integers.
mutual
  pub data Json : Type 0 where
    text : Text → Json
    integer : ℤ → Json
    object : Members → Json

  pub data Members : Type 0 where
    end : Members
    member : Text → Json → Members → Members

-- The libraries that the code calls: `time.Parse` with RFC 3339, the strict JSON decoding of one
-- envelope and no more, strict base64, what `json.Encoder` writes of a value without escaping HTML,
-- `ed25519.Verify` and SHA-256.
pub record Formats : Type 0 where
  pub is_time : Text → Bool
  pub decode_envelope : Text → Option Envelope
  pub decode_base64 : Text → Option Text
  pub encode_json : Json → Option Text
  pub verify : Text → Text → Text → Bool
  pub digest : Text → Text

abbrev pub max_installer_bytes : ℕ
max_installer_bytes = 1024 * 1024 * 1024

abbrev pub max_safe_integer : ℕ
max_safe_integer = 9007199254740991

abbrev is_lower_hex : ℕ → Bool
is_lower_hex c = leb b'a' c && leb c b'f' || is_digit c

abbrev is_alnum : ℕ → Bool
is_alnum c = leb b'A' c && leb c b'Z' || leb b'a' c && leb c b'z' || is_digit c

-- `hexDigestPattern`, `keyIDPattern` and `identityPattern`
unfoldable pub hex_digest_pattern : Text → Bool
hex_digest_pattern s = all is_lower_hex s && length s == 64

abbrev is_key_byte : ℕ → Bool
is_key_byte c = is_alnum c || c == b'.' || c == b'_' || c == b'-'

unfoldable pub key_id_pattern : Text → Bool
key_id_pattern s = all is_key_byte s && leb 1 (length s) && leb (length s) 128

abbrev is_identity_byte : ℕ → Bool
is_identity_byte c = is_key_byte c || c == b':'

unfoldable pub identity_pattern : Text → Bool
identity_pattern s = all is_identity_byte s && leb 1 (length s) && leb (length s) 256

abbrev pub expected_filename : Manifest → Text
expected_filename m = lit "LongHub-Manager-Setup-" ++ m.version ++ lit ".exe"

-- The guards of `ValidateManifest`, one for each `if`, true where it returns the error.
unfoldable pub wrong_product : Manifest → Bool
wrong_product m =
    not (text_eq m.schema_version (lit "longhub/client-update/v2"))
    || not (text_eq m.product_surface (lit "longhub-manager"))
    || not (text_eq m.platform (lit "win32"))
    || not (text_eq m.arch (lit "x64"))

unfoldable pub wrong_release : Manifest → Bool
wrong_release m =
    not (exceeds m.sequence 0)
    || exceeds m.sequence max_safe_integer
    || not (version_pattern m.version)

unfoldable pub wrong_channel : Manifest → Bool
wrong_channel m = not (text_eq m.channel (lit "stable")) && not (text_eq m.channel (lit "beta"))

unfoldable pub wrong_file : Manifest → Bool
wrong_file m =
    not (text_eq m.filename (expected_filename m))
    || not (text_eq m.url_path (lit "/downloads/" ++ expected_filename m))

unfoldable pub wrong_content : Manifest → Bool
wrong_content m =
    not (exceeds m.size 0)
    || exceeds m.size max_installer_bytes
    || not (hex_digest_pattern m.sha256)

unfoldable pub wrong_strategy : Manifest → Bool
wrong_strategy m =
    not (text_eq m.rollback_data_strategy (lit "snapshot_required"))
    && not (text_eq m.rollback_data_strategy (lit "backward_compatible"))

unfoldable pub wrong_status : Rollout → Bool
wrong_status r = not (text_eq r.status (lit "active")) && not (text_eq r.status (lit "paused"))

-- `BasisPoints == 0`
abbrev is_zero : ℤ → Bool
is_zero i = not (exceeds i 0) && not (is_negative i)

unfoldable pub wrong_share : Rollout → Bool
wrong_share r =
    is_negative r.basis_points
    || exceeds r.basis_points 10000
    || text_eq r.status (lit "active") && is_zero r.basis_points
    || not (hex_digest_pattern r.seed)

-- A chain of guards that all return one error.
unfoldable pub first_error : UpdateError → List Bool → Result UpdateError (Unit {0})
first_error e [] = ok tt
first_error e (true ∷ guards) = err e
first_error e (false ∷ guards) = first_error e guards

-- The map of `SignaturePayload`: what of a manifest is signed.
canonical_rollout : Rollout → Members
canonical_rollout r = member (lit "basis_points") (integer r.basis_points) (
    member (lit "seed") (text r.seed)
      (member (lit "status") (text r.status) (member (lit "updated_at") (text r.updated_at) end)))

pub canonical : Manifest → Json
unfolding canonical_rollout
canonical m = object (
    member (lit "arch") (text m.arch) (
      member (lit "channel") (text m.channel) (
        member (lit "filename") (text m.filename) (
          member (lit "platform") (text m.platform) (
            member (lit "product_surface") (text m.product_surface) (
              member (lit "published_at") (text m.published_at) (
                member (lit "rollback_data_strategy") (text m.rollback_data_strategy) (
                  member (lit "rollout") (object (canonical_rollout m.rollout)) (
                    member (lit "schema_version") (text m.schema_version) (
                      member (lit "sequence") (integer m.sequence) (
                        member (lit "sha256") (text m.sha256) (
                          member (lit "size") (integer m.size) (
                            member (lit "url_path") (text m.url_path)
                              (member (lit "version") (text m.version) end))))))))))))))

-- `strings.TrimSuffix` of a newline
pub trim_newline : Text → Text
trim_newline [] = []
trim_newline (c ∷ []) = if c == b'\n' then [] else c ∷ []
trim_newline (c ∷ d ∷ s) = c ∷ trim_newline (d ∷ s)

module _ (f : Formats) where
  unfoldable pub manifest_guards : Manifest → List Bool
  manifest_guards m =
      wrong_product m
      ∷ wrong_release m
      ∷ wrong_channel m
      ∷ wrong_file m
      ∷ wrong_content m
      ∷ not (f.is_time m.published_at)
      ∷ wrong_strategy m
      ∷ wrong_status m.rollout
      ∷ wrong_share m.rollout
      ∷ not (f.is_time m.rollout.updated_at)
      ∷ []

  unfoldable pub validate_manifest : Manifest → Result UpdateError (Unit {0})
  unfolding first_error manifest_guards
  validate_manifest m = first_error metadata_invalid (manifest_guards m)

  -- `SignaturePayload`
  unfoldable pub signature_payload : Manifest → Option Text
  unfolding canonical trim_newline
  signature_payload m = elim (validate_manifest m) [
    | err _ ↦ none
    | ok _ ↦ elim (f.encode_json (canonical m)) [
      | none ↦ none
      | some json ↦ some (lit "longhub-client-update-v2\n" ++ trim_newline json)
    ]
  ]

  -- `trustedKeys[id]`
  unfoldable pub find_key : Text → List (Text × Text) → Option Text
  find_key id [] = none
  find_key id ((k, key) ∷ keys) = if text_eq k id then some key else find_key id keys

  -- The last three guards of `ParseAndVerify`.
  unfoldable pub check_signed :
      Text → Envelope → Option Text → Option Text → Result UpdateError Envelope
  check_signed key e none payload = err signature_invalid
  check_signed key e (some signature) none = err signature_invalid
  check_signed key e (some signature) (some payload) =
      if length signature == 64 && f.verify key payload signature
      then ok e
      else err signature_invalid

  unfoldable pub check_key : Envelope → Option Text → Result UpdateError Envelope
  unfolding check_signed signature_payload
  check_key e none = err unknown_signing_key
  check_key e (some key) =
      if length key == 32
      then check_signed key e (f.decode_base64 e.signature) (signature_payload e.manifest)
      else err unknown_signing_key

  unfoldable pub verify_envelope :
      List (Text × Text) → Envelope → Result UpdateError (Unit {0}) → Result UpdateError Envelope
  unfolding check_key find_key
  verify_envelope keys e (err x) = err x
  verify_envelope keys e (ok _) =
      if key_id_pattern e.signature_key_id
      then check_key e (find_key e.signature_key_id keys)
      else err metadata_invalid

  unfoldable pub parse_and_verify : Text → List (Text × Text) → Result UpdateError Envelope
  unfolding verify_envelope validate_manifest
  parse_and_verify data' keys =
      if length data' == 0 || ltb (256 * 1024) (length data')
      then err metadata_invalid
      else elim (f.decode_envelope data') [
        | none ↦ err metadata_invalid
        | some e ↦ verify_envelope keys e (validate_manifest e.manifest)
      ]

  -- `binary.BigEndian.Uint32` of the first four bytes.
  unfoldable pub big_endian : ℕ → List ℕ → ℕ
  big_endian n [] = n
  big_endian n (b ∷ bs) = big_endian (256 * n + b) bs

  -- The bucket from 0 to 9999 that an identity falls into.
  unfoldable pub bucket : Text → Text → ℕ
  unfolding big_endian
  bucket seed identity =
      let sum = f.digest (lit "longhub-client-rollout-v1\n" ++ seed ++ lit "\n" ++ identity) in
      big_endian 0 (take 4 sum) % 10000

  unfoldable pub rollout_eligible : Rollout → Text → Result UpdateError Bool
  unfolding bucket
  rollout_eligible r identity =
      if not (text_eq r.status (lit "active")) || not (exceeds r.basis_points 0)
      then ok false
      else if not (identity_pattern identity) || not (hex_digest_pattern r.seed)
      then err metadata_invalid
      else if equals r.basis_points 10000
      then ok true
      else ok (exceeds r.basis_points (bucket r.seed identity))
