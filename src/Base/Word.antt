-- ===== src/Base/Word.antt =====
-- Go's uint64 as native numbers below 2 ^ 64, its wrap-around written out.
use Prim.Native.Nat.{ℕ, ◌+◌, ◌-◌, ◌%◌, ◌^◌, ◌<◌}
use mathlib.Core.Path.{◌≡◌}
use native.Mathlib.Omega.{arith}

abbrev pub u64_mod : ℕ
u64_mod = 2 ^ 64

-- `atomic.AddUint64` and `+`.
abbrev pub add64 : ℕ → ℕ → ℕ
add64 a b = (a + b) % u64_mod

-- `-`; the modulus is added first, since `-` on ℕ stops at 0.
abbrev pub sub64 : ℕ → ℕ → ℕ
sub64 a b = (a + u64_mod - b) % u64_mod

-- `^x`, the bitwise complement.
abbrev pub not64 : ℕ → ℕ
not64 a = u64_mod - 1 - a

-- Adding `^(b - 1)` subtracts `b`, at 0 too.
pub add64-not64 : (a b : ℕ) → a < u64_mod → b < u64_mod → add64 a (not64 (sub64 b 1)) ≡ sub64 a b
add64-not64 a b ha hb = omega arith

-- Adding `^0` subtracts one.
pub add64-not64_zero : (a : ℕ) → a < u64_mod → add64 a (not64 0) ≡ sub64 a 1
add64-not64_zero a h = omega arith
