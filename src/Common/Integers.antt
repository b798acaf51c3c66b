-- ===== src/Common/Integers.antt =====
-- Go's signed integers where only comparisons with constants and additions of one are made.
use Prim.Native.Nat.{ℕ, zero, suc, ◌+◌}
use mathlib.Core.Bool.{Bool, true, false}
use longhub_manager.Common.Tests.{ltb, ◌==◌}

pub data ℤ : Type 0 where
  pos : ℕ → ℤ
  negsuc : ℕ → ℤ

-- `i > n`
abbrev pub exceeds : ℤ → ℕ → Bool
exceeds (pos i) n = ltb n i
exceeds (negsuc _) n = false

-- `i < 0`
abbrev pub is_negative : ℤ → Bool
is_negative (pos _) = false
is_negative (negsuc _) = true

-- `i == n`
abbrev pub equals : ℤ → ℕ → Bool
equals (pos i) n = i == n
equals (negsuc _) n = false

-- `i + 1`
abbrev pub next : ℤ → ℤ
next (pos i) = pos (i + 1)
next (negsuc zero) = pos 0
next (negsuc (suc i)) = negsuc i

-- `i == j`
abbrev pub same_integer : ℤ → ℤ → Bool
same_integer (pos m) (pos n) = m == n
same_integer (negsuc m) (negsuc n) = m == n
same_integer (pos m) (negsuc n) = false
same_integer (negsuc m) (pos n) = false
