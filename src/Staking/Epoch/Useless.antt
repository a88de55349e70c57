-- ===== src/Staking/Epoch/Useless.antt =====
-- The refunds of `clearUp` and the deleted validators, where at most one validator is useless
-- (staking/staking.go).
use smartbch.Base.{
  Bool, Bool-cases, List, [], any, any-find_last, arith, false, find_last, inl, inr, keep_if,
  length, map, refl, some, true, ℕ, ◌∷◌, ◌≡◌, ◌≤◌,
}
use smartbch.Staking.Info.{StakingInfo, Validator, has_address, is_useless}
use smartbch.Staking.Epoch.{useless_keys}

module _ (q : ℕ → Bool) where
  abbrev pub u : Validator → Bool
  u val = q val.address

  no_same_address :
      (a : ℕ) (vals : List Validator)
      → q a ≡ true
      → any u vals ≡ false
      → any (has_address a) vals ≡ false
  no_same_address a [] h none_useless = refl
  no_same_address a (x ∷ xs) h none_useless = ground (arith, no_same_address a xs h)

  any_of_length : (vals : List Validator) → length (keep_if u vals) ≤ 0 → any u vals ≡ false
  any_of_length [] h = refl
  any_of_length (x ∷ xs) h = ground (arith, any_of_length xs)

  pub find_last_single :
      (vals : List Validator) (v : Validator)
      → keep_if u vals ≡ v ∷ []
      → find_last (has_address v.address) vals ≡ some v
  find_last_single [] v h = cc
  find_last_single (x ∷ xs) v h = elim (Bool-cases (q x.address)) [
    | inl is_q ↦
        let same : x ≡ v = ground arith in
        let none_left : keep_if u xs ≡ [] = ground arith in
        let none_useless : any u xs ≡ false = any_of_length xs (rw none_left (omega arith)) in
        ground (
          arith,
          no_same_address x.address xs is_q none_useless,
          any-find_last (has_address x.address) xs,
        )
    | inr no_q ↦ ground (arith, find_last_single xs v)
  ]

pub keys_single :
    (info : StakingInfo) (vals : List Validator)
    → length (keep_if (λ val. is_useless info val.address) vals) ≤ 1
    → useless_keys info vals
      ≡ map (λ (val : Validator). val.address) (keep_if (λ val. is_useless info val.address) vals)
unfolding useless_keys
keys_single info [] h = refl
keys_single info (x ∷ xs) h = elim (Bool-cases (is_useless info x.address)) [
  | inl is_q ↦
      let none_useless : any (u (is_useless info)) xs ≡ false =
        any_of_length (is_useless info) xs (ground arith) in
      ground (
        arith,
        keys_single info xs (ground arith),
        no_same_address (is_useless info) x.address xs is_q none_useless,
      )
  | inr no_q ↦ ground (arith, keys_single info xs)
]
