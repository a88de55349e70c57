-- ===== src/Base/Bytes.antt =====
-- Byte slices as lists of numbers, and `encoding/binary.BigEndian` over them.
use Prim.Native.Nat.{ℕ, zero, suc, ◌+◌, ◌*◌, ◌/◌, ◌%◌, ◌^◌, ◌<◌}
use mathlib.Core.Path.{◌≡◌, refl}
use mathlib.Core.Bool.{Bool, true, false, ◌&&◌}
use mathlib.Core.List.{List, [], ◌∷◌, ◌++◌}
use native.Mathlib.Omega.{arith}
use native.Mathlib.Nat.{pow-suc}
use smartbch.Base.Tests.{if◌then◌else◌, ◌==◌}
use smartbch.Base.Lists.{length, length-append, take}

-- The number that a slice spells, most significant byte first, after the bytes read so far.
unfoldable pub be_nat_from : ℕ → List ℕ → ℕ
be_nat_from acc [] = acc
be_nat_from acc (b ∷ bz) = be_nat_from (acc * 256 + b) bz

unfoldable pub be_nat : List ℕ → ℕ
unfolding be_nat_from
be_nat bz = be_nat_from 0 bz

-- The `n` bytes that spell `v % 256 ^ n`.
unfoldable pub be_bytes : ℕ → ℕ → List ℕ
be_bytes zero v = []
be_bytes (suc n) v = be_bytes n (v / 256) ++ (v % 256) ∷ []

pub length-be_bytes : (n v : ℕ) → length (be_bytes n v) ≡ n
unfolding be_bytes
length-be_bytes zero v = refl
length-be_bytes (suc n) v =
    omega
      (arith, length-append (be_bytes n (v / 256)) ((v % 256) ∷ []), length-be_bytes n (v / 256))

be_nat_from-append :
    (acc : ℕ) (xs ys : List ℕ) → be_nat_from acc (xs ++ ys) ≡ be_nat_from (be_nat_from acc xs) ys
unfolding be_nat_from
be_nat_from-append acc [] ys = refl
be_nat_from-append acc (x ∷ xs) ys = be_nat_from-append (acc * 256 + x) xs ys

pub be_nat-be_bytes : (n v : ℕ) → v < 256 ^ n → be_nat (be_bytes n v) ≡ v
unfolding be_nat be_bytes
be_nat-be_bytes zero v h = omega arith
be_nat-be_bytes (suc n) v h =
    rw (be_nat_from-append 0 (be_bytes n (v / 256)) ((v % 256) ∷ []))
      (omega (arith, be_nat-be_bytes n (v / 256) (omega (arith, pow-suc 256 n))))

-- Go's `==` on strings.
abbrev pub bytes_eq : List ℕ → List ℕ → Bool
bytes_eq [] [] = true
bytes_eq [] (y ∷ ys) = false
bytes_eq (x ∷ xs) [] = false
bytes_eq (x ∷ xs) (y ∷ ys) = x == y && bytes_eq xs ys

-- A slice without the zero bytes at its end.
unfoldable pub strip_zeros : List ℕ → List ℕ
strip_zeros [] = []
strip_zeros (b ∷ bz) = elim (strip_zeros bz) [
  | [] ↦ if b == 0 then [] else b ∷ []
  | c ∷ cs ↦ b ∷ c ∷ cs
]

-- `copy` of a slice into an array of 32 zero bytes.
abbrev pub copy_32 : List ℕ → ℕ
copy_32 bz = be_nat (take 32 (bz ++ be_bytes 32 0))
