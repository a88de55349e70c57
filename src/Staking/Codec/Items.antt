-- ===== src/Staking/Codec/Items.antt =====
-- A slice of pointers is read as it was written (staking/types/types_gen.go).
use smartbch.Base.{
  All, Bool-cases, List, Option, [], append_assoc, arith, false, inl, inr, leb, length, none, refl,
  replicate, some, suc, take, zero, ℕ, ◌%◌, ◌++◌, ◌<◌, ◌^◌, ◌∙◌, ◌∷◌, ◌≡◌, ◌≤◌,
}
use smartbch.Staking.Codec.{Msgp}
use smartbch.Staking.Codec.Marshal.{marshal_items}
use smartbch.Staking.Codec.Unmarshal.{slice_for, unmarshal_items, read_items}

-- A nil pointer, or one to a value that can be stored.
abbrev pub IsPointer : {A : Type 0} → (A → Type 0) → Option A → Type 0
IsPointer P none = Unit
IsPointer P (some z) = P z

-- The two methods of a type, and that they fit together: what is written starts no nil.
pub record Coded (m : Msgp) (A : Type 0) (P : A → Type 0) : Type 0 where
  pub marshal_one : A → List ℕ → List ℕ
  pub unmarshal_one : A → List ℕ → Option (A × List ℕ)
  pub bytes_for : A → List ℕ → List ℕ
  pub appends : (z : A) (o rest : List ℕ) → marshal_one z o ++ rest ≡ o ++ bytes_for z rest
  pub reads_back :
      (old z : A) (rest : List ℕ) → P z → unmarshal_one old (bytes_for z rest) ≡ some (z, rest)
  pub no_nil : (z : A) (rest : List ℕ) → m.is_nil (bytes_for z rest) ≡ false

length-replicate : {A : Type 0} (n : ℕ) (x : A) → length (replicate n x) ≡ n
length-replicate zero x = refl
length-replicate (suc n) x = omega (arith, length-replicate n x)

length-take : {A : Type 0} (n : ℕ) (xs : List A) → n ≤ length xs → length (take n xs) ≡ n
length-take zero xs h = refl
length-take (suc n) [] h = absurd (omega (arith, h))
length-take (suc n) (x ∷ xs) h = omega (arith, length-take n xs (omega (arith, h)))

pub length-slice_for : {A : Type 0} (n : ℕ) (old : List (Option A)) → length (slice_for n old) ≡ n
unfolding slice_for
length-slice_for n old = elim (Bool-cases (leb n (length old))) [
  | inl enough ↦ rw enough (length-take n old (ground arith))
  | inr short ↦ rw short (length-replicate n none)
]

module _ (m : Msgp) {A : Type 0} {P : A → Type 0} (c : Coded m A P) where
  unfoldable pub item_bytes : List (Option A) → List ℕ → List ℕ
  item_bytes [] rest = rest
  item_bytes (none ∷ items) rest = m.nil_of ++ item_bytes items rest
  item_bytes (some z ∷ items) rest = c.bytes_for z (item_bytes items rest)

  pub marshal_items-append :
      (items : List (Option A)) (o rest : List ℕ)
      → marshal_items m c.marshal_one items o ++ rest ≡ o ++ item_bytes items rest
  unfolding marshal_items item_bytes
  marshal_items-append [] o rest = refl
  marshal_items-append (none ∷ items) o rest =
      marshal_items-append items (o ++ m.nil_of) rest
      ∙ append_assoc o m.nil_of (item_bytes items rest)
  marshal_items-append (some z ∷ items) o rest =
      marshal_items-append items (c.marshal_one z o) rest ∙ c.appends z o (item_bytes items rest)

  pub unmarshal_items-bytes :
      (new : A) (olds items : List (Option A)) (rest : List ℕ)
      → length olds ≡ length items
      → All (IsPointer P) items
      → unmarshal_items m c.unmarshal_one new olds (item_bytes items rest) ≡ some (items, rest)
  unfolding unmarshal_items item_bytes
  unmarshal_items-bytes new [] [] rest same ok = refl
  unmarshal_items-bytes new [] (item ∷ items) rest same ok = absurd (omega (arith, same))
  unmarshal_items-bytes new (old ∷ olds) [] rest same ok = absurd (omega (arith, same))
  unmarshal_items-bytes new (old ∷ olds) (none ∷ items) rest same ok =
      let more = unmarshal_items-bytes new olds items rest (omega (arith, same)) ok.1 in
      rw (m.nil_is_nil (item_bytes items rest), m.nil_back (item_bytes items rest), more) refl
  unmarshal_items-bytes new (old ∷ olds) (some z ∷ items) rest same ok =
      let more = unmarshal_items-bytes new olds items rest (omega (arith, same)) ok.1 in
      rw (c.no_nil z (item_bytes items rest), c.reads_back _ z (item_bytes items rest) ok.0, more)
        refl

  pub read_items-bytes :
      (new : A) (old items : List (Option A)) (rest : List ℕ)
      → length items < 2 ^ 32
      → All (IsPointer P) items
      → read_items m c.unmarshal_one new old
          (m.array_header_of (length items % 2 ^ 32) ++ item_bytes items rest)
        ≡ some (items, rest)
  unfolding read_items
  read_items-bytes new old items rest short ok =
      let whole : length items % 2 ^ 32 ≡ length items = omega (arith, short) in
      let header = m.array_header_back (length items) (item_bytes items rest) short in
      rw (whole, read_items, header)
        (unmarshal_items-bytes new (slice_for (length items) old) items rest
          (length-slice_for (length items) old) ok)
