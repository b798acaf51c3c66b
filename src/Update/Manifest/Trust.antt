-- ===== src/Update/Manifest/Trust.antt =====
-- `ParseAndVerify` accepts what a trusted key has signed.
use longhub_manager.Common.{
  ◌*◌, ◌≤◌, ◌≡◌, refl, sym, ◌∙◌, ◌↔◌, inl, inr, true, false, ◌||◌, Option, none, some, List, ◌++◌,
  Text, length, ltb, ◌==◌, Result, ok, err, lit, arith, Bool-cases,
}
use longhub_manager.Update.Errors.{UpdateError, metadata_invalid}
use longhub_manager.Update.Manifest.{
  canonical, trim_newline, Manifest, Envelope, Formats, key_id_pattern, validate_manifest,
  signature_payload, find_key, check_signed, check_key, verify_envelope, parse_and_verify,
}
use longhub_manager.Update.Manifest.Canonical.{canonical-injective}
use longhub_manager.Update.Manifest.Validity.{IsManifest, validate_manifest_iff}

module _ (f : Formats) where
  -- Signed by the key under the name that the envelope gives.
  pub record IsSigned (keys : List (Text × Text)) (e : Envelope) : Type 0 where
    pub key : Text
    pub signature : Text
    pub json : Text
    pub key_known : find_key f e.signature_key_id keys ≡ some key
    pub key_size : length key ≡ 32
    pub signature_read : f.decode_base64 e.signature ≡ some signature
    pub signature_size : length signature ≡ 64
    pub json_written : f.encode_json (canonical e.manifest) ≡ some json
    pub verified :
        f.verify key (lit "longhub-client-update-v2\n" ++ trim_newline json) signature ≡ true

  pub record IsTrusted (bytes : Text) (keys : List (Text × Text)) (e : Envelope) : Type 0 where
    pub present : 1 ≤ length bytes
    pub fits : length bytes ≤ 256 * 1024
    pub decoded : f.decode_envelope bytes ≡ some e
    pub valid : IsManifest f e.manifest
    pub key_named : key_id_pattern e.signature_key_id ≡ true
    pub signed : IsSigned keys e

  payload_made :
      (m : Manifest) (json : Text)
      → validate_manifest f m ≡ ok tt
      → f.encode_json (canonical m) ≡ some json
      → signature_payload f m ≡ some (lit "longhub-client-update-v2\n" ++ trim_newline json)
  unfolding signature_payload
  payload_made m json p q = rw (p, q, signature_payload) refl

  trusted :
      (bytes : Text) (keys : List (Text × Text)) (e : Envelope)
      → IsTrusted bytes keys e
      → parse_and_verify f bytes keys ≡ ok e
  unfolding parse_and_verify verify_envelope check_key check_signed
  trusted bytes keys e t =
      let valid : validate_manifest f e.manifest ≡ ok tt =
        (validate_manifest_iff f e.manifest).1 t.valid in
      let s = t.signed in
      let fits : (length bytes == 0 || ltb (256 * 1024) (length bytes)) ≡ false =
        ground (arith, t.present, t.fits) in
      let size : (length s.key == 32) ≡ true = ground (arith, s.key_size) in
      let whole : (length s.signature == 64) ≡ true = ground (arith, s.signature_size) in
      rw
        (
          fits,
          t.decoded,
          valid,
          t.key_named,
          s.key_known,
          size,
          s.signature_read,
          payload_made e.manifest s.json valid s.json_written,
          whole,
          s.verified,
        )
        refl

  payload_of :
      (m : Manifest) (payload : Text)
      → signature_payload f m ≡ some payload
      → (json : Text) × (f.encode_json (canonical m) ≡ some json)
        × (payload ≡ lit "longhub-client-update-v2\n" ++ trim_newline json)
  unfolding signature_payload
  payload_of m payload h = go (validate_manifest f m) (f.encode_json (canonical m)) refl refl
    where
      go :
          (v : Result UpdateError (Unit {0})) (o : Option Text)
          → validate_manifest f m ≡ v
          → f.encode_json (canonical m) ≡ o
          → (json : Text) × (f.encode_json (canonical m) ≡ some json)
            × (payload ≡ lit "longhub-client-update-v2\n" ++ trim_newline json)
      go (err x) o p q = absurd (ground (arith, p, h))
      go (ok x) none p q = absurd (ground (arith, p, q, h))
      go (ok x) (some json) p q = (json, q, ground (arith, p, q, h))

  signed_of :
      (key : Text) (e e' : Envelope) (s p : Option Text)
      → check_signed f key e s p ≡ ok e'
      → (signature payload : Text) × (s ≡ some signature)
        × (p ≡ some payload)
        × (length signature ≡ 64)
        × (f.verify key payload signature ≡ true)
        × (e' ≡ e)
  unfolding check_signed
  signed_of key e e' none p h = absurd (ground (arith, h))
  signed_of key e e' (some signature) none h = absurd (ground (arith, h))
  signed_of key e e' (some signature) (some payload) h =
      (signature, payload, refl, refl, ground (arith, h), ground (arith, h), ground (arith, h))

  key_of :
      (keys : List (Text × Text)) (e e' : Envelope) (o : Option Text)
      → find_key f e.signature_key_id keys ≡ o
      → check_key f e o ≡ ok e'
      → IsSigned keys e × (e' ≡ e)
  unfolding check_key
  key_of keys e e' none q h = absurd (ground (arith, h))
  key_of keys e e' (some key) q h = elim (Bool-cases (length key == 32)) [
    | inl t ↦
        let (signature, payload, read, made, size, verified, same) =
          signed_of key e e' _ _ (sym (unfold check_key in rw t refl) ∙ h) in
        let (json, written, whole) = payload_of e.manifest payload made in
        (
          record {
            key = key;
            signature = signature;
            json = json;
            key_known = q;
            key_size = ground (arith, t);
            signature_read = read;
            signature_size = size;
            json_written = written;
            verified = rw (sym whole) verified;
          },
          same,
        )
    | inr t ↦ absurd (ground (arith, t, h))
  ]

  checked_of :
      (bytes : Text) (keys : List (Text × Text)) (e e' : Envelope)
      (v : Result UpdateError (Unit {0}))
      → validate_manifest f e.manifest ≡ v
      → verify_envelope f keys e v ≡ ok e'
      → IsManifest f e.manifest
        × (key_id_pattern e.signature_key_id ≡ true)
        × IsSigned keys e
        × (e' ≡ e)
  unfolding verify_envelope
  checked_of bytes keys e e' (err x) q h = absurd (ground (arith, h))
  checked_of bytes keys e e' (ok _) q h = elim (Bool-cases (key_id_pattern e.signature_key_id)) [
    | inl t ↦
        let (signed, same) =
          key_of keys e e' _ refl (sym (unfold verify_envelope in rw t refl) ∙ h) in
        ((validate_manifest_iff f e.manifest).0 q, t, signed, same)
    | inr t ↦ absurd (ground (arith, t, h))
  ]

  IsTrusted-of :
      (bytes : Text) (keys : List (Text × Text)) (e : Envelope)
      → parse_and_verify f bytes keys ≡ ok e
      → IsTrusted bytes keys e
  unfolding parse_and_verify
  IsTrusted-of bytes keys e h =
      elim (Bool-cases (length bytes == 0 || ltb (256 * 1024) (length bytes))) [
        | inl t ↦ absurd (ground (arith, t, h))
        | inr t ↦
            go (f.decode_envelope bytes) refl t (sym (unfold parse_and_verify in rw t refl) ∙ h)
      ]
    where
      go :
          (o : Option Envelope)
          → f.decode_envelope bytes ≡ o
          → (length bytes == 0 || ltb (256 * 1024) (length bytes)) ≡ false
          → elim o [
            | none ↦ err metadata_invalid
            | some d ↦ verify_envelope f keys d (validate_manifest f d.manifest)
          ]
            ≡ ok e
          → IsTrusted bytes keys e
      go none q t h = absurd (ground (arith, h))
      go (some d) q t h =
          let (valid, named, signed, same) = checked_of bytes keys d e _ refl h in
          rw same (record {
            present = ground (arith, t);
            fits = ground (arith, t);
            decoded = q;
            valid = valid;
            key_named = named;
            signed = signed;
          })

  -- A signed manifest is accepted exactly if it has from 1 byte to 256 KiB, decodes to the envelope
  -- that is returned, its manifest is valid, its key id has the form of one, and the key of 32 bytes
  -- that is trusted under this id verifies its signature of 64 bytes over the JSON of the manifest's
  -- canonical map, less its newline and led by the domain of such signatures. The map leaves nothing
  -- of a manifest out: manifests with the same map are the same.
  pub parse_and_verify_iff :
      (bytes : Text) (keys : List (Text × Text)) (e : Envelope)
      → ((parse_and_verify f bytes keys ≡ ok e) ↔ IsTrusted bytes keys e)
        × ((m : Manifest) → canonical m ≡ canonical e.manifest → m ≡ e.manifest)
  parse_and_verify_iff bytes keys e =
      ((IsTrusted-of bytes keys e, trusted bytes keys e), λ m h. canonical-injective m e.manifest h)
