-- ===== src/Update/Version/Rank.antt =====
-- The order of versions is that of numbers: a version's rank.
use Prim.Native.Nat.{compare, Ordering}
use native.Mathlib.Nat.{mul-le-mul}
use longhub_manager.Common.{
  ℕ, zero, suc, ◌+◌, ◌-◌, ◌*◌, ◌≤◌, ◌<◌, ◌≡◌, refl, true, Option, none, some, [], ◌∷◌, Text, length,
  all, Result, ok, err, arith, ap,
}
use longhub_manager.Update.Errors.{UpdateError, metadata_invalid}
use longhub_manager.Update.Version.{
  is_digit, is_part, number, parts, compare_parts, compare_triples, compare_versions,
}

-- Ten to the length of the text.
abbrev pub scale : Text → ℕ
scale [] = 1
scale (c ∷ cs) = 10 * scale cs

-- The digits weigh less than one more of what stands before them.
pub number-lt : (n : ℕ) (cs : Text) → all is_digit cs ≡ true → number n cs < (n + 1) * scale cs
unfolding number
number-lt n [] h = omega arith
number-lt n (c ∷ cs) h =
    let ih : number (10 * n + (c - 48)) cs < (10 * n + (c - 48) + 1) * scale cs =
      number-lt (10 * n + (c - 48)) cs (ground arith) in
    let digit : 10 * n + (c - 48) + 1 ≤ 10 * (n + 1) = ground arith in grind (arith, ih, digit)

abbrev pub billion : ℕ
billion = 1000000000

abbrev tens : ℕ → ℕ
tens zero = 1
tens (suc k) = 10 * tens k

tens-pos : (k : ℕ) → 0 < tens k
tens-pos zero = omega arith
tens-pos (suc k) = omega (arith, tens-pos k)

scale-le : (k : ℕ) (cs : Text) → length cs ≤ k → scale cs ≤ tens k
scale-le k [] h = tens-pos k
scale-le zero (c ∷ cs) h = absurd (omega arith)
scale-le (suc k) (c ∷ cs) h = omega (arith, scale-le k cs (omega arith))

number-digits :
    (d : ℕ) (cs : Text) → d ≤ 9 → all is_digit cs ≡ true → length cs ≤ 8 → number d cs < billion
number-digits d cs h digits fits =
    let below : number d cs < (d + 1) * scale cs = number-lt d cs digits in
    let small : d + 1 ≤ 10 = omega arith in
    let weight : (d + 1) * scale cs ≤ 10 * 100000000 = mul-le-mul small (scale-le 8 cs fits) in
    omega arith

part_digits :
    (c : ℕ) (cs : Text)
    → is_part (c ∷ cs) ≡ true
    → (c - 48 ≤ 9) × (all is_digit cs ≡ true) × (length cs ≤ 8)
unfolding is_part
part_digits c [] h = ground arith
part_digits c (x ∷ cs) h = ground arith

-- A part of a version is below a billion.
pub number-part : (s : Text) → is_part s ≡ true → number 0 s < billion
unfolding is_part number
number-part [] h = ground arith
number-part (c ∷ cs) h =
    let (small, digits, fits) = part_digits c cs h in
    number-digits (10 * 0 + (c - 48)) cs (omega arith) digits fits

abbrev pub rank : ℕ → ℕ → ℕ → ℕ
rank major minor patch = (major * billion + minor) * billion + patch

pub compare_parts-rank :
    (a1 b1 c1 a2 b2 c2 : ℕ)
    → b1 < billion
    → c1 < billion
    → b2 < billion
    → c2 < billion
    → compare_parts ((a1, a2) ∷ (b1, b2) ∷ (c1, c2) ∷ []) ≡ compare (rank a1 b1 c1) (rank a2 b2 c2)
unfolding compare_parts
compare_parts-rank a1 b1 c1 a2 b2 c2 h1 h2 h3 h4 = ground arith

-- The rank of a triple of parts.
abbrev pub rank_of : Text × Text × Text → ℕ
rank_of (major, minor, patch) = rank (number 0 major) (number 0 minor) (number 0 patch)

abbrev pub ArePartsOf : Text × Text × Text → Type 0
ArePartsOf (major, minor, patch) =
    (is_part major ≡ true) × (is_part minor ≡ true) × (is_part patch ≡ true)

pub parts-Are : (s : Text) (t : Text × Text × Text) → parts s ≡ some t → ArePartsOf t
unfolding parts
parts-Are s (a, b, c) h = ground arith

pub compare_triples-rank :
    (l r : Text × Text × Text)
    → ArePartsOf l
    → ArePartsOf r
    → compare_triples l r ≡ compare (rank_of l) (rank_of r)
unfolding compare_triples
compare_triples-rank (a1, b1, c1) (a2, b2, c2) h k =
    compare_parts-rank _ _ _ _ _ _ (number-part b1 h.1) (number-part c1 h.2) (number-part b2 k.1)
      (number-part c2 k.2)

-- The rank of a version; `none` for a text that is no version.
abbrev pub version_rank : Text → Option ℕ
version_rank s = elim (parts s) [ none ↦ none | some t ↦ some (rank_of t) ]

abbrev pub compare_ranks : Option ℕ → Option ℕ → Result UpdateError Ordering
compare_ranks none _ = err metadata_invalid
compare_ranks (some l) none = err metadata_invalid
compare_ranks (some l) (some r) = ok (compare l r)

-- Comparing two texts is comparing the natural numbers (major * 10^9 + minor) * 10^9 + patch
-- they stand for, whatever the texts are; where one of them is no version, the result is the
-- error `metadata_invalid`.
pub compare_versions-rank :
    (left right : Text)
    → compare_versions left right ≡ compare_ranks (version_rank left) (version_rank right)
unfolding compare_versions
compare_versions-rank left right = go (parts left) (parts right) refl refl
  where
    go :
        (l r : Option (Text × Text × Text))
        → parts left ≡ l
        → parts right ≡ r
        → compare_versions left right ≡ compare_ranks (version_rank left) (version_rank right)
    go none r p q = rw (p, compare_versions, version_rank) refl
    go (some l) none p q = rw (p, q, compare_versions, version_rank) refl
    go (some l) (some r) p q =
        rw (p, q, compare_versions, version_rank)
          (ap ok (compare_triples-rank l r (parts-Are left l p) (parts-Are right r q)))
