-- ===== src/Base/Int.antt =====
-- Signed integers over the native numbers: what the counters of the source need.
use Prim.Native.Nat.{ℕ, zero, suc, ◌+◌, ◌-◌}
use mathlib.Core.Path.{◌≡◌}
use mathlib.Core.Bool.{Bool, true, false}
use native.Mathlib.Omega.{arith}
use mini_llmcache.Base.Tests.{leb, if◌then◌else◌}

-- `negsuc n` is -(n + 1).
pub data ℤ : Type 0 where
  pos : ℕ → ℤ
  negsuc : ℕ → ℤ

-- a - b, as an integer.
abbrev pub sub_ℕ : ℕ → ℕ → ℤ
sub_ℕ a b = if leb b a then pos (a - b) else negsuc (b - a - 1)

-- `z += n` and `z -= n`
abbrev pub add : ℤ → ℕ → ℤ
add (pos a) n = pos (a + n)
add (negsuc a) n = sub_ℕ n (suc a)

abbrev pub sub : ℤ → ℕ → ℤ
sub (pos a) n = sub_ℕ a n
sub (negsuc a) n = negsuc (a + n)

-- `z == 0`
abbrev pub is_zero : ℤ → Bool
is_zero (pos zero) = true
is_zero (pos (suc n)) = false
is_zero (negsuc n) = false

pub sub-add : (z : ℤ) (n : ℕ) → sub (add z n) n ≡ z
sub-add (pos a) n = ground arith
sub-add (negsuc a) n = ground arith
