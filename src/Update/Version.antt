-- ===== src/Update/Version.antt =====
-- Version strings and their order (`versionPattern` and `CompareVersions` of
-- internal/managerupdate/manifest.go).
pub mod Rank
pub mod Canonical
use Prim.Native.Nat.{compare, Ordering}
use longhub_manager.Common.{
  ℕ, zero, suc, ◌+◌, ◌-◌, ◌*◌, Bool, true, false, ◌&&◌, ◌||◌, Option, none, some, List, [], ◌∷◌,
  ◌++◌, Text, length, all, ltb, leb, ◌==◌, if◌then◌else◌, Result, ok, err,
}
use longhub_manager.Update.Errors.{UpdateError, metadata_invalid}

abbrev pub is_digit : ℕ → Bool
is_digit c = leb b'0' c && leb c b'9'

-- `0|[1-9][0-9]{0,8}`
unfoldable pub is_part : Text → Bool
is_part [] = false
is_part (c ∷ cs) =
    c == b'0' && length cs == 0 || leb b'1' c && leb c b'9' && all is_digit cs && leb (length cs) 8

-- The text up to the next dot, and what follows the dot.
unfoldable pub next_part : Text → Text × Option Text
next_part [] = ([], none)
next_part (c ∷ cs) =
    let (part, rest) = next_part cs in if c == b'.' then ([], some cs) else (c ∷ part, rest)

-- `%d` on a text of digits.
unfoldable pub number : ℕ → Text → ℕ
number n [] = n
number n (c ∷ cs) = number (10 * n + (c - b'0')) cs

-- The three parts of a version; `none` where `versionPattern` does not match.
unfoldable pub parts : Text → Option (Text × Text × Text)
unfolding is_part next_part
parts s =
    let (major, r1) = next_part s in
    elim r1 [
      | none ↦ none
      | some s1 ↦
          let (minor, r2) = next_part s1 in
          elim r2 [
            | none ↦ none
            | some s2 ↦
                let (patch, r3) = next_part s2 in
                elim r3 [
                  | some _ ↦ none
                  | none ↦
                      if is_part major && is_part minor && is_part patch
                      then some (major, minor, patch)
                      else none
                ]
          ]
    ]

-- `versionPattern.MatchString`
unfoldable pub version_pattern : Text → Bool
unfolding parts
version_pattern s = elim (parts s) [ none ↦ false | some _ ↦ true ]

-- The loop over the three parts; `lt`, `eq` and `gt` stand for -1, 0 and 1.
unfoldable pub compare_parts : List (ℕ × ℕ) → Ordering
compare_parts [] = Ordering.eq
compare_parts ((left, right) ∷ rest) =
    let later = compare_parts rest in
    if ltb left right then Ordering.lt else if ltb right left then Ordering.gt else later

unfoldable pub compare_triples : Text × Text × Text → Text × Text × Text → Ordering
unfolding number compare_parts
compare_triples (a1, b1, c1) (a2, b2, c2) =
    compare_parts
      ((number 0 a1, number 0 a2) ∷ (number 0 b1, number 0 b2) ∷ (number 0 c1, number 0 c2) ∷ [])

unfoldable pub compare_versions : Text → Text → Result UpdateError Ordering
unfolding parts compare_triples
compare_versions left right = elim (parts left) [
  | none ↦ err metadata_invalid
  | some l ↦ elim (parts right) [ none ↦ err metadata_invalid | some r ↦ ok (compare_triples l r) ]
]
