-- ===== src/Common/Bytes.antt =====
-- Go strings and byte slices as lists of bytes, and what the program uses of `strings` on them.
use Prim.Native.Nat.{ℕ, zero, suc, ◌+◌, ◌/◌, ◌%◌}
use Prim.Native.Char.{code}
use Prim.Native.String.{String}
use mathlib.Core.Path.{◌≡◌, refl}
use mathlib.Core.Logic.{◌↔◌}
use mathlib.Core.Bool.{Bool, true, false, ◌&&◌, ◌||◌}
use mathlib.Core.Option.{Option, none, some}
use mathlib.Core.List.{List, [], ◌∷◌, ◌++◌, reverse}
use native.Mathlib.Omega.{arith}
use longhub_manager.Common.Tests.{ltb, leb, ◌==◌, if◌then◌else◌}
use longhub_manager.Common.Lists.{length, take}

abbrev pub Text : Type 0
Text = List ℕ

-- The UTF-8 bytes of a code point.
unfoldable pub encode_rune : ℕ → Text
encode_rune c =
    if ltb c 0x80
    then c ∷ []
    else if ltb c 0x800
    then (0xC0 + c / 64) ∷ (0x80 + c % 64) ∷ []
    else if ltb c 0x10000
    then (0xE0 + c / 4096) ∷ (0x80 + c / 64 % 64) ∷ (0x80 + c % 64) ∷ []
    else (0xF0 + c / 262144) ∷ (0x80 + c / 4096 % 64) ∷ (0x80 + c / 64 % 64) ∷ (0x80 + c % 64) ∷ []

-- A string literal of the source: its UTF-8 bytes.
unfoldable pub lit : String → Text
unfolding encode_rune
lit String.[] = []
lit (String.◌∷◌ c s) = encode_rune (code c) ++ lit s

-- `==` on strings.
unfoldable pub text_eq : Text → Text → Bool
text_eq [] [] = true
text_eq (x ∷ xs) (y ∷ ys) = x == y && text_eq xs ys
text_eq _ _ = false

text_eq-to : (s t : Text) → text_eq s t ≡ true → s ≡ t
unfolding text_eq
text_eq-to [] [] h = refl
text_eq-to [] (y ∷ ys) h = ground arith
text_eq-to (x ∷ xs) [] h = ground arith
text_eq-to (x ∷ xs) (y ∷ ys) h = ground (arith, text_eq-to xs ys)

pub text_eq_refl : (s : Text) → text_eq s s ≡ true
unfolding text_eq
text_eq_refl [] = refl
text_eq_refl (x ∷ xs) = ground (arith, text_eq_refl xs)

pub text_eq_iff : (s t : Text) → (text_eq s t ≡ true) ↔ (s ≡ t)
text_eq_iff s t = (text_eq-to s t, λ e. rw e (text_eq_refl t))

-- The empty string test `s == ""`.
abbrev pub is_empty : Text → Bool
is_empty [] = true
is_empty (x ∷ xs) = false

unfoldable pub contains_byte : ℕ → Text → Bool
contains_byte b [] = false
contains_byte b (x ∷ xs) = x == b || contains_byte b xs

-- The runes of `unicode.IsSpace` by their UTF-8 encodings.
abbrev ascii_space : ℕ → Bool
ascii_space x = leb 9 x && leb x 13 || x == 32

abbrev short_space : ℕ → ℕ → Bool
short_space x y = x == 0xC2 && (y == 0x85 || y == 0xA0)

abbrev wide_space : ℕ → ℕ → ℕ → Bool
wide_space x y z =
    x == 0xE1 && y == 0x9A && z == 0x80
    || x == 0xE2 && y == 0x80 && (leb 0x80 z && leb z 0x8A || z == 0xA8 || z == 0xA9 || z == 0xAF)
    || x == 0xE2 && y == 0x81 && z == 0x9F
    || x == 0xE3 && y == 0x80 && z == 0x80

-- The rest of the text behind a leading white-space rune, if there is one.
unfoldable pub after_space : Text → Option Text
after_space [] = none
after_space (x ∷ []) = if ascii_space x then some [] else none
after_space (x ∷ y ∷ []) =
    if ascii_space x then some (y ∷ []) else if short_space x y then some [] else none
after_space (x ∷ y ∷ z ∷ r) =
    if ascii_space x
    then some (y ∷ z ∷ r)
    else if short_space x y
    then some (z ∷ r)
    else if wide_space x y z
    then some r
    else none

-- The same from the other end, over the reversed bytes.
unfoldable pub after_space_back : Text → Option Text
after_space_back [] = none
after_space_back (x ∷ []) = if ascii_space x then some [] else none
after_space_back (x ∷ y ∷ []) =
    if ascii_space x then some (y ∷ []) else if short_space y x then some [] else none
after_space_back (x ∷ y ∷ z ∷ r) =
    if ascii_space x
    then some (y ∷ z ∷ r)
    else if short_space y x
    then some (z ∷ r)
    else if wide_space z y x
    then some r
    else none

-- Drops as long as `step` drops; each round shortens the text, so its length is fuel enough.
unfoldable pub drop_while : (Text → Option Text) → ℕ → Text → Text
drop_while step zero s = s
drop_while step (suc n) s = elim (step s) [ none ↦ s | some r ↦ drop_while step n r ]

-- `strings.TrimSpace`.
unfoldable pub trim_space : Text → Text
unfolding drop_while after_space after_space_back
trim_space s =
    let l = drop_while after_space (length s) s in
    reverse (drop_while after_space_back (length l) (reverse l))

-- `strings.TrimSpace(s) == ""`.
unfoldable pub is_blank : Text → Bool
unfolding trim_space
is_blank s = is_empty (trim_space s)

-- `utf8.Valid`: the state is the number of continuation bytes that are due and the range of the
-- next of them.
unfoldable pub utf8_next : ℕ × ℕ × ℕ → ℕ → Option (ℕ × ℕ × ℕ)
utf8_next (zero, lo, hi) x =
    if ltb x 0x80
    then some (0, 0x80, 0xBF)
    else if leb 0xC2 x && leb x 0xDF
    then some (1, 0x80, 0xBF)
    else if x == 0xE0
    then some (2, 0xA0, 0xBF)
    else if x == 0xED
    then some (2, 0x80, 0x9F)
    else if leb 0xE1 x && leb x 0xEF
    then some (2, 0x80, 0xBF)
    else if x == 0xF0
    then some (3, 0x90, 0xBF)
    else if leb 0xF1 x && leb x 0xF3
    then some (3, 0x80, 0xBF)
    else if x == 0xF4
    then some (3, 0x80, 0x8F)
    else none
utf8_next (suc n, lo, hi) x = if leb lo x && leb x hi then some (n, 0x80, 0xBF) else none

unfoldable pub utf8_from : ℕ × ℕ × ℕ → Text → Bool
utf8_from (n, lo, hi) [] = n == 0
utf8_from (n, lo, hi) (x ∷ r) = elim (utf8_next (n, lo, hi) x) [
  | none ↦ false
  | some st ↦ utf8_from st r
]

unfoldable pub valid_utf8 : Text → Bool
unfolding utf8_from utf8_next
valid_utf8 s = utf8_from (0, 0x80, 0xBF) s

trim_space_test : trim_space (lit "  a b\u{3000} ") ≡ lit "a b"
unfolding trim_space lit
trim_space_test = refl

valid_utf8_test : (valid_utf8 (lit "结果") ≡ true) × (valid_utf8 (take 5 (lit "结果")) ≡ false)
unfolding valid_utf8 lit
valid_utf8_test = (refl, refl)
