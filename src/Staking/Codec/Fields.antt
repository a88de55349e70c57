-- ===== src/Staking/Codec/Fields.antt =====
-- Reading the fields of a map as they are written (staking/types/types_gen.go).
use smartbch.Base.{
  List, Option, be_bytes, be_nat, be_nat-be_bytes, length, length-be_bytes, refl, some, suc, ℕ,
  ◌++◌, ◌+◌, ◌<◌, ◌^◌, ◌∷◌, ◌≡◌,
}
use smartbch.Staking.Codec.{Msgp}
use smartbch.Staking.Codec.Unmarshal.{fields_loop, put_read, read_fields}
use smartbch.Tests.World.{small}

-- A map's entry in front of the rest: its key, then its value.
abbrev pub entry_bytes : List ℕ → List ℕ → List ℕ → List ℕ
entry_bytes key value rest = (160 + length key) ∷ key ++ (value ++ rest)

module _ (m : Msgp) where
  pub fields_loop-key :
      {A : Type 0} (set : List ℕ → A → List ℕ → Option (A × List ℕ)) (n : ℕ) (key bts rest : List ℕ)
      (z after : A)
      → length key < 32
      → set key z bts ≡ some (after, rest)
      → fields_loop m set (suc n) z ((160 + length key) ∷ key ++ bts)
        ≡ fields_loop m set n after rest
  unfolding fields_loop
  fields_loop-key set n key bts rest z after short read =
      rw (fields_loop, m.map_key key bts short, read) refl

  pub fields_loop-entry :
      {A : Type 0} (set : List ℕ → A → List ℕ → Option (A × List ℕ)) (n : ℕ)
      (key value rest : List ℕ) (z after : A)
      → length key < 32
      → set key z (value ++ rest) ≡ some (after, rest)
      → fields_loop m set (suc n) z (entry_bytes key value rest) ≡ fields_loop m set n after rest
  fields_loop-entry set n key value rest z after short read =
      fields_loop-key set n key (value ++ rest) rest z after short read

  pub put_read-number :
      {A : Type 0} (set : ℕ → A) (k v : ℕ) (rest : List ℕ)
      → k < 2 ^ 32
      → v < 256 ^ k
      → put_read (λ x. set (be_nat x)) (m.read_exact_bytes k (m.bytes_of (be_bytes k v) ++ rest))
        ≡ some (set v, rest)
  put_read-number set k v rest short small =
      let fits : length (be_bytes k v) < 2 ^ 32 = rw (length-be_bytes k v) short in
      let back = rw (length-be_bytes k v) at (m.exact_bytes (be_bytes k v) rest fits) in
      rw (back, be_nat-be_bytes k v small) refl

  pub read_fields-entries :
      {A : Type 0} (set : List ℕ → A → List ℕ → Option (A × List ℕ)) (n : ℕ) (z : A) (rest : List ℕ)
      → n < 16
      → read_fields m set z ((128 + n) ∷ rest) ≡ fields_loop m set n z rest
  unfolding read_fields
  read_fields-entries set n z rest small = rw (read_fields, m.map_header n rest small) refl
