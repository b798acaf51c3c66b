-- ===== src/Update/Version/Canonical.antt =====
-- Two versions compare as equal only if they are the same text: parts have no leading zeros.
use Prim.Native.Nat.{Ordering}
use native.Mathlib.Nat.{mul-le-mul, le_refl}
use longhub_manager.Common.{
  ℕ, ◌+◌, ◌-◌, ◌*◌, ◌≤◌, ◌<◌, ◌≡◌, refl, sym, ap, ◌∙◌, Bool, true, false, ◌&&◌, Option, none, some,
  [], ◌∷◌, ◌++◌, Text, length, all, Result, ok, arith, ◌==◌, Bool-cases, inl, inr, ◌⊎◌,
  if◌then◌else◌,
}
use longhub_manager.Update.Errors.{UpdateError}
use longhub_manager.Update.Version.{
  is_digit, is_part, next_part, number, parts, compare_parts, compare_triples, compare_versions,
}
use longhub_manager.Update.Version.Rank.{scale, number-lt, ArePartsOf, parts-Are}

-- The digits weigh at least what stands before them.
number-le : (n : ℕ) (cs : Text) → n * scale cs ≤ number n cs
unfolding number
number-le n [] = omega arith
number-le n (c ∷ cs) =
    let ih : (10 * n + (c - 48)) * scale cs ≤ number (10 * n + (c - 48)) cs =
      number-le (10 * n + (c - 48)) cs in
    grind (arith, ih)

-- At one length the number and the digits determine one another.
number-injective :
    (n m : ℕ) (xs ys : Text)
    → length xs ≡ length ys
    → all is_digit xs ≡ true
    → all is_digit ys ≡ true
    → number n xs ≡ number m ys
    → (n ≡ m) × (xs ≡ ys)
unfolding number
number-injective n m [] [] l dx dy h = (h, refl)
number-injective n m [] (y ∷ ys) l dx dy h = absurd (omega arith)
number-injective n m (x ∷ xs) [] l dx dy h = absurd (omega arith)
number-injective n m (x ∷ xs) (y ∷ ys) l dx dy h =
    let (e, es) =
      number-injective (10 * n + (x - 48)) (10 * m + (y - 48)) xs ys (omega arith) (ground arith)
        (ground arith) h in
    (ground (arith, e), ground (arith, e, es))

scale-pos : (xs : Text) → 0 < scale xs
scale-pos [] = omega arith
scale-pos (x ∷ xs) = omega (arith, scale-pos xs)

-- A longer text of digits has at least ten times the scale.
scale-longer : (xs ys : Text) → length ys < length xs → 10 * scale ys ≤ scale xs
scale-longer [] ys h = absurd (omega arith)
scale-longer (x ∷ xs) [] h = omega (arith, scale-pos xs)
scale-longer (x ∷ xs) (y ∷ ys) h = omega (arith, scale-longer xs ys (omega arith))

-- Digits that follow leading ones weigh between one and ten times their scale.
leading :
    (d : ℕ) (cs : Text)
    → 1 ≤ d
    → d ≤ 9
    → all is_digit cs ≡ true
    → (scale cs ≤ number d cs) × (number d cs < 10 * scale cs)
leading d cs low high digits =
    let below : number d cs < (d + 1) * scale cs = number-lt d cs digits in
    let above : d * scale cs ≤ number d cs = number-le d cs in
    let one : 1 * scale cs ≤ d * scale cs = mul-le-mul low (le_refl (scale cs)) in
    let small : d + 1 ≤ 10 = omega arith in
    let ten : (d + 1) * scale cs ≤ 10 * scale cs = mul-le-mul small (le_refl (scale cs)) in
    (omega arith, omega arith)

same_length :
    (d e : ℕ) (xs ys : Text)
    → 1 ≤ d
    → d ≤ 9
    → 1 ≤ e
    → e ≤ 9
    → all is_digit xs ≡ true
    → all is_digit ys ≡ true
    → number d xs ≡ number e ys
    → length xs ≡ length ys
same_length d e xs ys d1 d9 e1 e9 dx dy same =
    let (xl, xh) = leading d xs d1 d9 dx in
    let (yl, yh) = leading e ys e1 e9 dy in
    let no_longer : ¬ (length ys < length xs) = λ gt. omega (arith, scale-longer xs ys gt) in
    let no_shorter : ¬ (length xs < length ys) = λ lt. omega (arith, scale-longer ys xs lt) in
    omega (arith, no_longer, no_shorter)

-- A part is a zero alone, or starts with another digit.
is_part-cases :
    (c : ℕ) (cs : Text)
    → is_part (c ∷ cs) ≡ true
    → (c ≡ 48) × (cs ≡ []) ⊎ (1 ≤ c - 48) × (c - 48 ≤ 9) × (all is_digit cs ≡ true)
unfolding is_part
is_part-cases c cs h = elim (Bool-cases (c == 48 && length cs == 0)) [
  | inl t ↦ inl (ground arith, empty cs (ground arith))
  | inr f ↦ inr (ground arith, ground arith, ground arith)
]
  where
    empty : (xs : Text) → length xs ≡ 0 → xs ≡ []
    empty [] h = refl
    empty (x ∷ xs) h = absurd (omega arith)

abbrev Leads : ℕ → Text → Type 0
Leads c cs = (1 ≤ c - 48) × (c - 48 ≤ 9) × (all is_digit cs ≡ true)

number_start : (c : ℕ) (cs : Text) → number 0 (c ∷ cs) ≡ number (c - 48) cs
unfolding number
number_start c cs = ap (λ n. number n cs) (omega arith)

-- A part with a digit other than zero at its start is no zero.
Leads-pos : (c : ℕ) (cs : Text) → Leads c cs → 0 < number 0 (c ∷ cs)
Leads-pos c cs (low, high, digits) =
    let above : scale cs ≤ number (c - 48) cs = (leading (c - 48) cs low high digits).0 in
    let start : number 0 (c ∷ cs) ≡ number (c - 48) cs = number_start c cs in
    omega (arith, above, start, scale-pos cs)

Leads-same :
    (x y : ℕ) (xs ys : Text)
    → Leads x xs
    → Leads y ys
    → number 0 (x ∷ xs) ≡ number 0 (y ∷ ys)
    → x ∷ xs ≡ y ∷ ys
Leads-same x y xs ys (lx, hx, dx) (ly, hy, dy) same =
    let same' : number (x - 48) xs ≡ number (y - 48) ys =
      sym (number_start x xs) ∙ same ∙ number_start y ys in
    let long = same_length (x - 48) (y - 48) xs ys lx hx ly hy dx dy same' in
    let (e, es) = number-injective (x - 48) (y - 48) xs ys long dx dy same' in
    let heads : x ≡ y = omega arith in rw (heads, es) refl

zero-alone : (c : ℕ) (cs : Text) → c ≡ 48 → cs ≡ [] → ¬ (0 < number 0 (c ∷ cs))
unfolding number
zero-alone c cs e es pos = ground (arith, e, es, pos)

-- Parts of one number are one text.
same_part : (a b : Text) → is_part a ≡ true → is_part b ≡ true → number 0 a ≡ number 0 b → a ≡ b
unfolding is_part number
same_part [] b ha hb same = ground arith
same_part (x ∷ xs) [] ha hb same = ground arith
same_part (x ∷ xs) (y ∷ ys) ha hb same = go (is_part-cases x xs ha) (is_part-cases y ys hb)
  where
    go : (x ≡ 48) × (xs ≡ []) ⊎ Leads x xs → (y ≡ 48) × (ys ≡ []) ⊎ Leads y ys → x ∷ xs ≡ y ∷ ys
    go (inl (px, ex)) (inl (py, ey)) = rw (px, ex, py, ey) refl
    go (inl (px, ex)) (inr ly) =
        let pos : 0 < number 0 (y ∷ ys) = Leads-pos y ys ly in
        absurd (zero-alone x xs px ex (rw same pos))
    go (inr lx) (inl (py, ey)) =
        let pos : 0 < number 0 (x ∷ xs) = Leads-pos x xs lx in
        absurd (zero-alone y ys py ey (rw (sym same) pos))
    go (inr lx) (inr ly) = Leads-same x y xs ys lx ly same

-- What a dot separates, put together again.
abbrev joined : Text → Option Text → Text
joined part none = part
joined part (some rest) = part ++ b'.' ∷ rest

next_part-joined : (s : Text) → joined (next_part s).0 (next_part s).1 ≡ s
unfolding next_part
next_part-joined [] = refl
next_part-joined (c ∷ cs) = elim (Bool-cases (c == b'.')) [
  | inl t ↦ rw t (ap (λ d. d ∷ cs) (ground (arith, t)))
  | inr f ↦ rw f (longer c _ _ _ (next_part-joined cs))
]
  where
    longer :
        (c : ℕ) (p : Text) (r : Option Text) (cs : Text)
        → joined p r ≡ cs
        → joined (c ∷ p) r ≡ c ∷ cs
    longer c p none cs h = ap (λ d. c ∷ d) h
    longer c p (some x) cs h = ap (λ d. c ∷ d) h

next_part-split : (s : Text) (r : Option Text) → (next_part s).1 ≡ r → s ≡ joined (next_part s).0 r
next_part-split s r h = sym (next_part-joined s) ∙ ap (joined (next_part s).0) h

abbrev dotted : Text × Text × Text → Text
dotted (major, minor, patch) = major ++ b'.' ∷ (minor ++ b'.' ∷ patch)

taken :
    (x y : Text × Text × Text) (b : Bool)
    → (if b then some x else none) ≡ some y
    → (x.0 ≡ y.0) × (x.1 ≡ y.1) × (x.2 ≡ y.2)
taken x y true h = let e : x ≡ y = ground (arith, h) in rw e (refl, refl, refl)
taken x y false h = absurd (ground (arith, h))

parts-dotted : (s : Text) (t : Text × Text × Text) → parts s ≡ some t → s ≡ dotted t
unfolding parts
parts-dotted s (a, b, c) h = go1 (next_part s).1 refl
  where
    go3 :
        (s1 s2 : Text) (r3 : Option Text)
        → (next_part s).1 ≡ some s1
        → (next_part s1).1 ≡ some s2
        → (next_part s2).1 ≡ r3
        → s ≡ dotted (a, b, c)
    go3 s1 s2 none q1 q2 q3 =
        let found : Text × Text × Text = ((next_part s).0, (next_part s1).0, (next_part s2).0) in
        let valid = is_part found.0 && is_part found.1 && is_part found.2 in
        let shape : parts s ≡ (if valid then some found else none) = rw (q1, q2, q3, parts) refl in
        let (ea, eb, ec) = taken found (a, b, c) valid (sym shape ∙ h) in
        next_part-split s (some s1) q1
        ∙ rw (ea, next_part-split s1 (some s2) q2)
            (ap (λ d. a ++ b'.' ∷ d)
              (rw eb (ap (λ d. b ++ b'.' ∷ d) (next_part-split s2 none q3 ∙ ec))))
    go3 s1 s2 (some y) q1 q2 q3 = absurd (ground (arith, q1, q2, q3, h))

    go2 :
        (s1 : Text) (r2 : Option Text)
        → (next_part s).1 ≡ some s1
        → (next_part s1).1 ≡ r2
        → s ≡ dotted (a, b, c)
    go2 s1 none q1 q2 = absurd (ground (arith, q1, q2, h))
    go2 s1 (some s2) q1 q2 = go3 s1 s2 (next_part s2).1 q1 q2 refl

    go1 : (r1 : Option Text) → (next_part s).1 ≡ r1 → s ≡ dotted (a, b, c)
    go1 none q1 = absurd (ground (arith, q1, h))
    go1 (some s1) q1 = go2 s1 (next_part s1).1 q1 refl

compare_parts-eq :
    (a1 b1 c1 a2 b2 c2 : ℕ)
    → compare_parts ((a1, a2) ∷ (b1, b2) ∷ (c1, c2) ∷ []) ≡ Ordering.eq
    → (a1 ≡ a2) × (b1 ≡ b2) × (c1 ≡ c2)
unfolding compare_parts
compare_parts-eq a1 b1 c1 a2 b2 c2 h = ground arith

same_triple :
    (l r : Text × Text × Text)
    → ArePartsOf l
    → ArePartsOf r
    → compare_triples l r ≡ Ordering.eq
    → l ≡ r
unfolding compare_triples
same_triple (a1, b1, c1) (a2, b2, c2) hl hr same =
    let (ea, eb, ec) = compare_parts-eq _ _ _ _ _ _ same in
    rw (same_part a1 a2 hl.0 hr.0 ea, same_part b1 b2 hl.1 hr.1 eb, same_part c1 c2 hl.2 hr.2 ec)
      refl

ok-eq :
    (o p : Ordering)
    → let r : Result UpdateError Ordering = ok o in
      let r' : Result UpdateError Ordering = ok p in r ≡ r' → o ≡ p
ok-eq o p h = ground arith

-- Two texts that compare as the same version are one text: a version has one spelling.
pub compare_versions-canonical :
    (left right : Text) → compare_versions left right ≡ ok Ordering.eq → left ≡ right
unfolding compare_versions
compare_versions-canonical left right h = go (parts left) (parts right) refl refl h
  where
    go :
        (l r : Option (Text × Text × Text))
        → parts left ≡ l
        → parts right ≡ r
        → compare_versions left right ≡ ok Ordering.eq
        → left ≡ right
    go none r p q h = absurd (ground (arith, p, h))
    go (some l) none p q h = absurd (ground (arith, p, q, h))
    go (some l) (some r) p q h =
        let same : compare_triples l r ≡ Ordering.eq =
          ok-eq _ _ (sym (rw (p, q, compare_versions) refl) ∙ h) in
        parts-dotted left l p
        ∙ ap dotted (same_triple l r (parts-Are left l p) (parts-Are right r q) same)
        ∙ sym (parts-dotted right r q)
