-- ===== src/Update/Manifest/Canonical.antt =====
-- The canonical map of `SignaturePayload` in internal/managerupdate/manifest.go holds a whole manifest.
use longhub_manager.Common.{ℕ, zero, suc, ℤ, pos, [], ap, ◌≡◌, refl, sym, ◌∙◌, Text}
use longhub_manager.Update.Manifest.{
  Json, text, integer, object, Members, end, member, Rollout, Manifest, canonical,
}

-- What a member of an object holds, as a text or as an integer.
text_of : Json → Text
text_of (text s) = s
text_of _ = []

integer_of : Json → ℤ
integer_of (integer i) = i
integer_of _ = pos 0

members_of : Json → Members
members_of (object o) = o
members_of _ = end

-- The value of the n-th member
value_at : ℕ → Members → Json
value_at n end = object end
value_at zero (member k v o) = v
value_at (suc n) (member k v o) = value_at n o

text_at : ℕ → Members → Text
unfolding value_at text_of
text_at n o = text_of (value_at n o)

integer_at : ℕ → Members → ℤ
unfolding value_at integer_of
integer_at n o = integer_of (value_at n o)

read_rollout : Members → Rollout
unfolding text_at integer_at
read_rollout o = record {
  status = text_at 2 o;
  basis_points = integer_at 0 o;
  seed = text_at 1 o;
  updated_at = text_at 3 o;
}

-- The manifest that a canonical map is of.
read_canonical : Json → Manifest
unfolding members_of value_at text_at integer_at read_rollout
read_canonical j =
    let o = members_of j in
    record {
      schema_version = text_at 8 o;
      product_surface = text_at 4 o;
      sequence = integer_at 9 o;
      version = text_at 13 o;
      channel = text_at 1 o;
      platform = text_at 3 o;
      arch = text_at 0 o;
      filename = text_at 2 o;
      size = integer_at 11 o;
      sha256 = text_at 10 o;
      url_path = text_at 12 o;
      published_at = text_at 5 o;
      rollback_data_strategy = text_at 6 o;
      rollout = read_rollout (members_of (value_at 7 o));
    }

read_canonical-canonical : (m : Manifest) → read_canonical (canonical m) ≡ m
unfolding read_canonical canonical
read_canonical-canonical m = refl

-- Nothing of a manifest is left out of its canonical map.
pub canonical-injective : (m m' : Manifest) → canonical m ≡ canonical m' → m ≡ m'
canonical-injective m m' h =
    sym (read_canonical-canonical m) ∙ (ap read_canonical h ∙ read_canonical-canonical m')
