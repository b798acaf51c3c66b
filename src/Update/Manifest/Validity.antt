-- ===== src/Update/Manifest/Validity.antt =====
-- `ValidateManifest` accepts what it is meant to accept and nothing else.
use longhub_manager.Common.{
  ℕ, ◌+◌, ◌≤◌, ◌≡◌, refl, ap, ◌⊎◌, inl, inr, ◌↔◌, Bool, true, false, not, ◌&&◌, List, [], ◌∷◌, ◌++◌,
  Text, ok, lit, text_eq, text_eq_iff, ℤ, pos, negsuc, exceeds, is_negative, arith, Bool-cases,
}
use longhub_manager.Update.Errors.{UpdateError, metadata_invalid}
use longhub_manager.Update.Version.{version_pattern}
use longhub_manager.Update.Manifest.{
  Rollout, Manifest, Formats, hex_digest_pattern, expected_filename, wrong_product, wrong_release,
  wrong_channel, wrong_file, wrong_content, wrong_strategy, wrong_status, wrong_share, first_error,
  manifest_guards, validate_manifest, max_installer_bytes, max_safe_integer,
}

-- From `lo` to `hi`.
abbrev pub Within : ℕ → ℕ → ℤ → Type 0
Within lo hi i = (n : ℕ) × (i ≡ pos n) × (lo ≤ n) × (n ≤ hi)

pub record IsRollout (r : Rollout) : Type 0 where
  pub share : Within 0 10000 r.basis_points
  pub status_known : (r.status ≡ lit "active") ⊎ (r.status ≡ lit "paused")
  pub active_reaches : r.status ≡ lit "active" → Within 1 10000 r.basis_points
  pub seed_hex : hex_digest_pattern r.seed ≡ true

pub record IsManifest (f : Formats) (m : Manifest) : Type 0 where
  pub schema : m.schema_version ≡ lit "longhub/client-update/v2"
  pub product : m.product_surface ≡ lit "longhub-manager"
  pub on_windows : m.platform ≡ lit "win32"
  pub on_x64 : m.arch ≡ lit "x64"
  pub sequence_fits : Within 1 max_safe_integer m.sequence
  pub version_valid : version_pattern m.version ≡ true
  pub channel_known : (m.channel ≡ lit "stable") ⊎ (m.channel ≡ lit "beta")
  pub named : m.filename ≡ expected_filename m
  pub placed : m.url_path ≡ lit "/downloads/" ++ expected_filename m
  pub size_fits : Within 1 max_installer_bytes m.size
  pub digest_hex : hex_digest_pattern m.sha256 ≡ true
  pub published : f.is_time m.published_at ≡ true
  pub strategy_known :
      (m.rollback_data_strategy ≡ lit "snapshot_required")
      ⊎ (m.rollback_data_strategy ≡ lit "backward_compatible")
  pub rollout_valid : IsRollout m.rollout
  pub updated : f.is_time m.rollout.updated_at ≡ true

within : (lo hi : ℕ) (i : ℤ) → exceeds i lo ≡ true → exceeds i hi ≡ false → Within (lo + 1) hi i
within lo hi (pos n) h k = (n, refl, ground arith, ground arith)
within lo hi (negsuc n) h k = absurd (ground arith)

pub wrong_release-false :
    (m : Manifest)
    → wrong_release m ≡ false
    → Within 1 max_safe_integer m.sequence × (version_pattern m.version ≡ true)
unfolding wrong_release
wrong_release-false m h =
    (within 0 max_safe_integer m.sequence (ground arith) (ground arith), ground arith)

wrong_product-false :
    (m : Manifest)
    → wrong_product m ≡ false
    → (m.schema_version ≡ lit "longhub/client-update/v2")
      × (m.product_surface ≡ lit "longhub-manager")
      × (m.platform ≡ lit "win32")
      × (m.arch ≡ lit "x64")
unfolding wrong_product
wrong_product-false m h = (
  ground (arith, text_eq_iff m.schema_version (lit "longhub/client-update/v2")),
  ground (arith, text_eq_iff m.product_surface (lit "longhub-manager")),
  ground (arith, text_eq_iff m.platform (lit "win32")),
  ground (arith, text_eq_iff m.arch (lit "x64")),
)

one_of : (s a b : Text) → not (text_eq s a) && not (text_eq s b) ≡ false → (s ≡ a) ⊎ (s ≡ b)
one_of s a b h = elim (Bool-cases (text_eq s a)) [
  | inl p ↦ inl ((text_eq_iff s a).0 p)
  | inr q ↦ inr ((text_eq_iff s b).0 (ground arith))
]

not_other : (s a b : Text) → (s ≡ a) ⊎ (s ≡ b) → not (text_eq s a) && not (text_eq s b) ≡ false
not_other s a b (inl e) = ground (arith, (text_eq_iff s a).1 e)
not_other s a b (inr e) = ground (arith, (text_eq_iff s b).1 e)

wrong_product-true : (f : Formats) (m : Manifest) → IsManifest f m → wrong_product m ≡ false
unfolding wrong_product
wrong_product-true f m h = ground (
  arith,
  (text_eq_iff m.schema_version (lit "longhub/client-update/v2")).1 h.schema,
  (text_eq_iff m.product_surface (lit "longhub-manager")).1 h.product,
  (text_eq_iff m.platform (lit "win32")).1 h.on_windows,
  (text_eq_iff m.arch (lit "x64")).1 h.on_x64,
)

wrong_file-false :
    (m : Manifest)
    → wrong_file m ≡ false
    → (m.filename ≡ expected_filename m) × (m.url_path ≡ lit "/downloads/" ++ expected_filename m)
unfolding wrong_file
wrong_file-false m h = (
  ground (arith, text_eq_iff m.filename (expected_filename m)),
  ground (arith, text_eq_iff m.url_path (lit "/downloads/" ++ expected_filename m)),
)

wrong_content-false :
    (m : Manifest)
    → wrong_content m ≡ false
    → Within 1 max_installer_bytes m.size × (hex_digest_pattern m.sha256 ≡ true)
unfolding wrong_content
wrong_content-false m h =
    (within 0 max_installer_bytes m.size (ground arith) (ground arith), ground arith)

from_zero : (hi : ℕ) (i : ℤ) → is_negative i ≡ false → exceeds i hi ≡ false → Within 0 hi i
from_zero hi (pos n) h k = (n, refl, ground arith, ground arith)
from_zero hi (negsuc n) h k = absurd (ground arith)

from_one :
    (hi : ℕ) (i : ℤ)
    → not (exceeds i 0) && not (is_negative i) ≡ false
    → Within 0 hi i
    → Within 1 hi i
from_one hi (pos n) h (k, e, low, high) =
    (n, refl, ground (arith, e, low, high), ground (arith, e, low, high))
from_one hi (negsuc n) h (k, e, low, high) = absurd (ground (arith, e))

wrong_share-false : (r : Rollout) → wrong_status r ≡ false → wrong_share r ≡ false → IsRollout r
unfolding wrong_status wrong_share
wrong_share-false r g h =
    let share : Within 0 10000 r.basis_points =
      from_zero 10000 r.basis_points (ground arith) (ground arith) in
    record {
      share = share;
      status_known = one_of _ _ _ g;
      active_reaches = λ e.
          from_one 10000 r.basis_points (ground (arith, (text_eq_iff r.status (lit "active")).1 e))
            share;
      seed_hex = ground arith;
    }

outside-Within :
    (lo hi : ℕ) (i : ℤ) → Within (lo + 1) hi i → (exceeds i lo ≡ true) × (exceeds i hi ≡ false)
outside-Within lo hi (pos k) (n, e, low, high) =
    (ground (arith, e, low, high), ground (arith, e, low, high))
outside-Within lo hi (negsuc k) (n, e, low, high) = absurd (ground (arith, e))

share-Within : (hi : ℕ) (i : ℤ) → Within 0 hi i → (is_negative i ≡ false) × (exceeds i hi ≡ false)
share-Within hi (pos k) (n, e, low, high) = (refl, ground (arith, e, high))
share-Within hi (negsuc k) (n, e, low, high) = absurd (ground (arith, e))

wrong_release-true : (f : Formats) (m : Manifest) → IsManifest f m → wrong_release m ≡ false
unfolding wrong_release
wrong_release-true f m h =
    let (low, high) = outside-Within 0 max_safe_integer m.sequence h.sequence_fits in
    ground (arith, low, high, h.version_valid)

wrong_file-true : (f : Formats) (m : Manifest) → IsManifest f m → wrong_file m ≡ false
unfolding wrong_file
wrong_file-true f m h = ground (
  arith,
  (text_eq_iff m.filename (expected_filename m)).1 h.named,
  (text_eq_iff m.url_path (lit "/downloads/" ++ expected_filename m)).1 h.placed,
)

wrong_content-true : (f : Formats) (m : Manifest) → IsManifest f m → wrong_content m ≡ false
unfolding wrong_content
wrong_content-true f m h =
    let (low, high) = outside-Within 0 max_installer_bytes m.size h.size_fits in
    ground (arith, low, high, h.digest_hex)

wrong_share-true : (r : Rollout) → IsRollout r → wrong_share r ≡ false
unfolding wrong_share
wrong_share-true r h =
    let (low, high) = share-Within 10000 r.basis_points h.share in
    elim (Bool-cases (text_eq r.status (lit "active"))) [
      | inl q ↦
          let (least, most) =
            outside-Within 0 10000 r.basis_points
              (h.active_reaches ((text_eq_iff r.status (lit "active")).0 q)) in
          ground (arith, low, high, least, q, h.seed_hex)
      | inr q ↦ ground (arith, low, high, q, h.seed_hex)
    ]

known_channel :
    (m : Manifest) → wrong_channel m ≡ false → (m.channel ≡ lit "stable") ⊎ (m.channel ≡ lit "beta")
unfolding wrong_channel
known_channel m h = one_of m.channel (lit "stable") (lit "beta") h

known_strategy :
    (m : Manifest)
    → wrong_strategy m ≡ false
    → (m.rollback_data_strategy ≡ lit "snapshot_required")
      ⊎ (m.rollback_data_strategy ≡ lit "backward_compatible")
unfolding wrong_strategy
known_strategy m h =
    one_of m.rollback_data_strategy (lit "snapshot_required") (lit "backward_compatible") h

-- No guard of a chain holds.
abbrev NoneHolds : List Bool → Type 0
NoneHolds [] = Unit {0}
NoneHolds (g ∷ guards) = (g ≡ false) × NoneHolds guards

first_error_iff :
    (e : UpdateError) (guards : List Bool) → (first_error e guards ≡ ok tt) ↔ NoneHolds guards
unfolding first_error
first_error_iff e [] = (λ _. tt, λ _. refl)
first_error_iff e (true ∷ guards) =
    (λ h. absurd (ground (arith, h)), λ h. absurd (ground (arith, h)))
first_error_iff e (false ∷ guards) =
    let (to, from) = first_error_iff e guards in (λ h. (refl, to h), λ h. from h.1)

module _ (f : Formats) where
  guards_false : (m : Manifest) → IsManifest f m → NoneHolds (manifest_guards f m)
  unfolding manifest_guards wrong_channel wrong_strategy wrong_status
  guards_false m h = (
    wrong_product-true f m h,
    (
      wrong_release-true f m h,
      (
        not_other m.channel (lit "stable") (lit "beta") h.channel_known,
        (
          wrong_file-true f m h,
          (
            wrong_content-true f m h,
            (
              ap not h.published,
              (
                not_other m.rollback_data_strategy (lit "snapshot_required")
                    (lit "backward_compatible") h.strategy_known,
                (
                  not_other m.rollout.status (lit "active") (lit "paused")
                      h.rollout_valid.status_known,
                  (wrong_share-true m.rollout h.rollout_valid, (ap not h.updated, tt)),
                ),
              ),
            ),
          ),
        ),
      ),
    ),
  )

  manifest_of : (m : Manifest) → NoneHolds (manifest_guards f m) → IsManifest f m
  unfolding manifest_guards
  manifest_of m (g1, (g2, (g3, (g4, (g5, (g6, (g7, (g8, (g9, (g10, _)))))))))) =
      let (schema, product, windows, x64) = wrong_product-false m g1 in
      let (sequence, version) = wrong_release-false m g2 in
      let (named, placed) = wrong_file-false m g4 in
      let (size, digest) = wrong_content-false m g5 in
      record {
        schema = schema;
        product = product;
        on_windows = windows;
        on_x64 = x64;
        sequence_fits = sequence;
        version_valid = version;
        channel_known = known_channel m g3;
        named = named;
        placed = placed;
        size_fits = size;
        digest_hex = digest;
        published = ground (arith, g6);
        strategy_known = known_strategy m g7;
        rollout_valid = wrong_share-false m.rollout g8 g9;
        updated = ground (arith, g10);
      }

  -- A manifest is valid exactly if it is for this product on Windows x64, its sequence number lies
  -- from 1 to the largest safe integer of JSON, its version is one, its channel is `stable` or
  -- `beta`, its file and path are named after the version, its installer has from 1 byte to 1 GiB
  -- and a digest of 64 hexadecimal digits, its two times are times, its rollback strategy and its
  -- rollout status are known ones, and its rollout has from 0 to 10000 basis points, at least 1 if
  -- it is active, and a seed of 64 hexadecimal digits.
  pub validate_manifest_iff : (m : Manifest) → (validate_manifest f m ≡ ok tt) ↔ IsManifest f m
  unfolding validate_manifest
  validate_manifest_iff m =
      let (to, from) = first_error_iff metadata_invalid (manifest_guards f m) in
      (λ h. manifest_of m (to h), λ h. from (guards_false m h))
