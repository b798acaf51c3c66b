-- ===== src/Common/Frames.antt =====
-- Texts with their lengths in front, a format in which the examples keep what the program keeps as JSON.
use Prim.Native.Nat.{ℕ, zero, suc, ◌+◌}
use mathlib.Core.Path.{◌≡◌, refl, ap, ◌∙◌}
use mathlib.Core.List.{List, [], ◌∷◌, ◌++◌, append_assoc}
use native.Mathlib.Omega.{arith}
use longhub_manager.Common.Bytes.{Text}
use longhub_manager.Common.Lists.{length, take, drop, length-append}

-- A text before a rest.
unfoldable pub frame : Text → Text → Text
frame s rest = length s ∷ (s ++ rest)

unfoldable pub unframe : Text → Text × Text
unframe [] = ([], [])
unframe (n ∷ s) = (take n s, drop n s)

take-length : (s rest : Text) → take (length s) (s ++ rest) ≡ s
take-length [] [] = refl
take-length [] (c ∷ rest) = refl
take-length (c ∷ s) rest = ap (λ x. c ∷ x) (take-length s rest)

drop-length : (s rest : Text) → drop (length s) (s ++ rest) ≡ rest
drop-length [] [] = refl
drop-length [] (c ∷ rest) = refl
drop-length (c ∷ s) rest = drop-length s rest

pub unframe-frame : (s rest : Text) → unframe (frame s rest) ≡ (s, rest)
unfolding unframe frame
unframe-frame s rest = λ i. (take-length s rest i, drop-length s rest i)

pub length-frame : (s rest : Text) → length (frame s rest) ≡ length s + length rest + 1
unfolding frame
length-frame s rest = omega (arith, length-append {0} s rest)

-- Several texts before a rest.
unfoldable pub framed : List Text → Text → Text
unfolding frame
framed [] rest = rest
framed (s ∷ ss) rest = frame s (framed ss rest)

unfoldable pub unframed : ℕ → Text → List Text
unfolding unframe
unframed zero s = []
unframed (suc n) s = let (a, rest) = unframe s in a ∷ unframed n rest

pub unframed-framed : (ss : List Text) (rest : Text) → unframed (length ss) (framed ss rest) ≡ ss
unfolding unframed framed
unframed-framed [] rest = refl
unframed-framed (s ∷ ss) rest =
    let both = unframe-frame s (framed ss rest) in
    (λ i. (both i).0 ∷ unframed (length ss) (both i).1) ∙ ap (λ x. s ∷ x) (unframed-framed ss rest)

pub framed-append : (ss : List Text) (a b : Text) → framed ss a ++ b ≡ framed ss (a ++ b)
unfolding framed
framed-append [] a b = refl
framed-append (s ∷ ss) a b =
    ap (λ x. length s ∷ x)
      (append_assoc s (framed ss a) b ∙ ap (λ x. s ++ x) (framed-append ss a b))
