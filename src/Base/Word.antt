-- ===== src/Base/Word.antt =====
-- Go's machine integers as native numbers. A `*uint256.Int` and a `[32]byte` that holds one are the
-- same number below 2 ^ 256. An `int64` is its bit pattern, below 2 ^ 64, so that its conversion to
-- `uint64` is the identity.
use Prim.Native.Nat.{ℕ, ◌+◌, ◌-◌, ◌*◌, ◌%◌, ◌^◌, ◌<◌}
use mathlib.Core.Path.{◌≡◌}
use mathlib.Core.Bool.{Bool}
use native.Mathlib.Omega.{arith}
use smartbch.Base.Tests.{ltb, leb}

abbrev pub u256_mod : ℕ
u256_mod = 2 ^ 256

abbrev pub u64_mod : ℕ
u64_mod = 2 ^ 64

abbrev pub add256 : ℕ → ℕ → ℕ
add256 a b = (a + b) % u256_mod

abbrev pub sub256 : ℕ → ℕ → ℕ
sub256 a b = (a + u256_mod - b % u256_mod) % u256_mod

abbrev pub mul256 : ℕ → ℕ → ℕ
mul256 a b = (a * b) % u256_mod

abbrev pub add64 : ℕ → ℕ → ℕ
add64 a b = (a + b) % u64_mod

abbrev pub sub64 : ℕ → ℕ → ℕ
sub64 a b = (a + u64_mod - b % u64_mod) % u64_mod

abbrev pub mul64 : ℕ → ℕ → ℕ
mul64 a b = (a * b) % u64_mod

-- The order of two `int64`: flipping the sign bit turns it into the order of the patterns.
abbrev pub flip_sign : ℕ → ℕ
flip_sign a = (a + 2 ^ 63) % u64_mod

abbrev pub ltb_i64 : ℕ → ℕ → Bool
ltb_i64 a b = ltb (flip_sign a) (flip_sign b)

abbrev pub leb_i64 : ℕ → ℕ → Bool
leb_i64 a b = leb (flip_sign a) (flip_sign b)

pub sub256-add256 : (a b : ℕ) → a < u256_mod → sub256 (add256 a b) b ≡ a
sub256-add256 a b ha = omega arith
