-- ===== src/Base/Words.antt =====
-- Machine words: `u64`, `i64` and their saturating operations, as numbers with the bounds written out.
use Prim.Native.Nat.{ℕ, ◌+◌, ◌-◌, ◌%◌, min}
use mathlib.Core.Bool.{Bool, true, false}
use iicp_client_rust.Base.Tests.{ltb, if◌then◌else◌}

-- 2 ^ 63 and 2 ^ 64.
abbrev pub i64_mod : ℕ
i64_mod = 9223372036854775808

abbrev pub u64_mod : ℕ
u64_mod = 18446744073709551616

abbrev pub u64_max : ℕ
u64_max = 18446744073709551615

-- `a + b` in a release build, which wraps.
abbrev pub wrapping_add : ℕ → ℕ → ℕ
wrapping_add a b = (a + b) % u64_mod

abbrev pub saturating_add : ℕ → ℕ → ℕ
saturating_add a b = min (a + b) u64_max

-- Subtraction on ℕ stops at 0, as `saturating_sub` does.
abbrev pub saturating_sub : ℕ → ℕ → ℕ
saturating_sub a b = a - b

-- `negsuc n` is -(n + 1).
pub data ℤ : Type 0 where
  pos : ℕ → ℤ
  negsuc : ℕ → ℤ

-- `a > b`.
abbrev pub gtb : ℤ → ℤ → Bool
gtb (pos a) (pos b) = ltb b a
gtb (pos a) (negsuc b) = true
gtb (negsuc a) (pos b) = false
gtb (negsuc a) (negsuc b) = ltb a b

-- `n as i64`.
abbrev pub as_i64 : ℕ → ℤ
as_i64 n = if ltb n i64_mod then pos n else negsuc (u64_mod - n - 1)
