-- ===== src/App/CacheEntries.antt =====
-- The entries of the cache of senders, and the oldest of them (`CheckTx` of app/app.go).
use smartbch.Base.{
  Bool-cases, List, Map, [], arith, erase, false, if◌then◌else◌, inl, inr, insert, length, ltb,
  refl, subst, suc, sum_by, sym, take, true, zero, ℕ, ◌+◌, ◌-◌, ◌<◌, ◌==◌, ◌^◌, ◌∙◌, ◌∷◌, ◌≡◌, ◌≤◌,
  ◌⊎◌,
}
use smartbch.App.State.{SenderAndHeight}
use smartbch.App.CheckTx.{oldest}

-- How many entries have a key, and how many a height that is no earlier than `math.MaxInt64`.
abbrev pub hits : ℕ → List (ℕ × SenderAndHeight) → ℕ
hits key entries = sum_by (λ e. if e.0 == key then 1 else 0) entries

abbrev pub late_entries : List (ℕ × SenderAndHeight) → ℕ
late_entries entries = sum_by (λ e. if ltb e.1.height (2 ^ 63 - 1) then 0 else 1) entries

pub sum_by-ones : (entries : List (ℕ × SenderAndHeight)) → sum_by (λ e. 1) entries ≡ length entries
sum_by-ones [] = refl
sum_by-ones (e ∷ entries) = omega (arith, sum_by-ones entries)

pub length-insert-le :
    (key : ℕ) (value : SenderAndHeight) (entries : Map SenderAndHeight)
    → length (insert key value entries) ≤ length entries + 1
unfolding insert
length-insert-le key value [] = omega arith
length-insert-le key value (e ∷ entries) = elim (Bool-cases (e.0 == key)) [
  | inl same ↦ ground arith
  | inr differs ↦ ground (arith, length-insert-le key value entries)
]

pub late_entries-insert-le :
    (key : ℕ) (value : SenderAndHeight) (entries : Map SenderAndHeight)
    → value.height < 2 ^ 63 - 1
    → late_entries (insert key value entries) ≤ late_entries entries
unfolding insert
late_entries-insert-le key value [] young = ground arith
late_entries-insert-le key value (e ∷ entries) young = elim (Bool-cases (e.0 == key)) [
  | inl same ↦ ground arith
  | inr differs ↦ ground (arith, late_entries-insert-le key value entries young)
]

pub length-erase :
    (key : ℕ) (entries : Map SenderAndHeight)
    → length (erase key entries) + hits key entries ≡ length entries
unfolding erase
length-erase key [] = refl
length-erase key (e ∷ entries) = elim (Bool-cases (e.0 == key)) [
  | inl same ↦ ground (arith, length-erase key entries)
  | inr differs ↦ ground (arith, length-erase key entries)
]

pub late_entries-erase-le :
    (key : ℕ) (entries : Map SenderAndHeight)
    → late_entries (erase key entries) ≤ late_entries entries
unfolding erase
late_entries-erase-le key [] = omega arith
late_entries-erase-le key (e ∷ entries) = elim (Bool-cases (e.0 == key)) [
  | inl same ↦ ground (arith, late_entries-erase-le key entries)
  | inr differs ↦ ground (arith, late_entries-erase-le key entries)
]

pub sum_by-take-le :
    (f : ℕ × SenderAndHeight → ℕ) (n : ℕ) (entries : List (ℕ × SenderAndHeight))
    → sum_by f (take n entries) ≤ sum_by f entries
sum_by-take-le f zero entries = omega arith
sum_by-take-le f (suc n) [] = omega arith
sum_by-take-le f (suc n) (e ∷ entries) = omega (arith, sum_by-take-le f n entries)

oldest_older :
    (e : ℕ × SenderAndHeight) (entries : List (ℕ × SenderAndHeight)) (key height : ℕ)
    → ltb e.1.height height ≡ true
    → oldest (e ∷ entries) (key, height) ≡ oldest entries (e.0, e.1.height)
unfolding oldest
oldest_older e entries key height older = rw older refl

oldest_younger :
    (e : ℕ × SenderAndHeight) (entries : List (ℕ × SenderAndHeight)) (key height : ℕ)
    → ltb e.1.height height ≡ false
    → oldest (e ∷ entries) (key, height) ≡ oldest entries (key, height)
unfolding oldest
oldest_younger e entries key height younger = rw younger refl

oldest_none : (key height : ℕ) → oldest [] (key, height) ≡ key
unfolding oldest
oldest_none key height = refl

hits_first :
    (e : ℕ × SenderAndHeight) (entries : List (ℕ × SenderAndHeight)) (k : ℕ)
    → (k ≡ e.0) ⊎ (1 ≤ hits k entries)
    → 1 ≤ hits k (e ∷ entries)
hits_first e entries k (inl this) = ground (arith, this)
hits_first e entries k (inr among) = omega (arith, among)

-- The oldest entry is the best so far or one of the list.
oldest-hits :
    (entries : List (ℕ × SenderAndHeight)) (key height : ℕ)
    → (oldest entries (key, height) ≡ key) ⊎ (1 ≤ hits (oldest entries (key, height)) entries)
oldest-hits [] key height = inl (oldest_none key height)
oldest-hits (e ∷ entries) key height = elim (Bool-cases (ltb e.1.height height)) [
  | inl older ↦ inr (
      subst (λ k. 1 ≤ hits k (e ∷ entries)) (sym (oldest_older e entries key height older))
        (hits_first e entries (oldest entries (e.0, e.1.height))
          (oldest-hits entries e.0 e.1.height)))
  | inr younger ↦ elim (oldest-hits entries key height) [
    | inl this ↦ inl (oldest_younger e entries key height younger ∙ this)
    | inr among ↦ inr (
        subst (λ k. 1 ≤ hits k (e ∷ entries)) (sym (oldest_younger e entries key height younger))
          (hits_first e entries (oldest entries (key, height)) (inr among)))
  ]
]

-- The oldest of some entries that are all young enough is one of them.
pub oldest_young :
    (e : ℕ × SenderAndHeight) (entries : List (ℕ × SenderAndHeight))
    → late_entries (e ∷ entries) ≡ 0
    → 1 ≤ hits (oldest (e ∷ entries) (0, 2 ^ 63 - 1)) (e ∷ entries)
oldest_young e entries young =
    let older : ltb e.1.height (2 ^ 63 - 1) ≡ true = ground (arith, young) in
    subst (λ k. 1 ≤ hits k (e ∷ entries)) (sym (oldest_older e entries 0 (2 ^ 63 - 1) older))
      (hits_first e entries (oldest entries (e.0, e.1.height)) (oldest-hits entries e.0 e.1.height))
