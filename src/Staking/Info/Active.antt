-- ===== src/Staking/Info/Active.antt =====
-- What `GetActiveValidators` selects (staking/types/types.go).
use mathlib.Core.List.Perm
use smartbch.Base.{
  All, Bool-cases, List, Perm, [], arith, drop, flip_sign, inl, inr, keep_if, length, ltb_i64, refl,
  suc, take, zero, ℕ, ◌++◌, ◌∷◌, ◌≡◌, ◌≤◌, ◌⊎◌,
}
use smartbch.Staking.Info.{
  StakingInfo, Validator, get_active_validators, insert_by_power, is_eligible,
  max_active_validator_num, sort_by_power,
}

-- The rank of a validator: its power, in the order of `int64`.
abbrev pub rank : Validator → ℕ
rank val = flip_sign val.voting_power

-- No later validator has a higher power.
abbrev pub IsRanked : List Validator → Type 0
IsRanked [] = Unit
IsRanked (val ∷ vals) = All (λ w. rank w ≤ rank val) vals × IsRanked vals

All-mono :
    (m n : ℕ) (vals : List Validator)
    → m ≤ n
    → All (λ w. rank w ≤ m) vals
    → All (λ w. rank w ≤ n) vals
All-mono m n [] le h = tt
All-mono m n (w ∷ ws) le h = (omega arith, All-mono m n ws le h.1)

All-insert :
    (n : ℕ) (val : Validator) (vals : List Validator)
    → rank val ≤ n
    → All (λ w. rank w ≤ n) vals
    → All (λ w. rank w ≤ n) (insert_by_power val vals)
unfolding insert_by_power
All-insert n val [] le h = (le, tt)
All-insert n val (w ∷ ws) le h = ground (arith, All-insert n val ws le h.1)

insert_by_power-IsRanked :
    (val : Validator) (vals : List Validator) → IsRanked vals → IsRanked (insert_by_power val vals)
unfolding insert_by_power
insert_by_power-IsRanked val [] h = (tt, tt)
insert_by_power-IsRanked val (w ∷ ws) h =
    elim (Bool-cases (ltb_i64 val.voting_power w.voting_power)) [
      | inl lower ↦
          rw lower
            (All-insert (rank w) val ws (ground arith) h.0, insert_by_power-IsRanked val ws h.1)
      | inr higher ↦
          let le : rank w ≤ rank val = ground arith in
          rw higher ((le, All-mono (rank w) (rank val) ws le h.0), h)
    ]

sort_by_power-IsRanked : (vals : List Validator) → IsRanked (sort_by_power vals)
unfolding sort_by_power
sort_by_power-IsRanked [] = tt
sort_by_power-IsRanked (val ∷ vals) =
    insert_by_power-IsRanked val (sort_by_power vals) (sort_by_power-IsRanked vals)

insert_by_power-perm :
    (val : Validator) (vals : List Validator) → Perm (insert_by_power val vals) (val ∷ vals)
unfolding insert_by_power
insert_by_power-perm val [] = Perm.refl (val ∷ [])
insert_by_power-perm val (w ∷ ws) = elim (Bool-cases (ltb_i64 val.voting_power w.voting_power)) [
  | inl lower ↦
      rw lower (Perm.trans (Perm.cons w (insert_by_power-perm val ws)) (Perm.swap val w ws))
  | inr higher ↦ rw higher (Perm.refl (val ∷ w ∷ ws))
]

sort_by_power-perm : (vals : List Validator) → Perm (sort_by_power vals) vals
unfolding sort_by_power
sort_by_power-perm [] = Perm.refl []
sort_by_power-perm (val ∷ vals) =
    Perm.trans (insert_by_power-perm val (sort_by_power vals))
      (Perm.cons val (sort_by_power-perm vals))

length-take-le : (n : ℕ) (vals : List Validator) → length (take n vals) ≤ n
length-take-le zero vals = omega arith
length-take-le (suc n) [] = omega arith
length-take-le (suc n) (val ∷ vals) = omega (arith, length-take-le n vals)

take_full : (n : ℕ) (vals : List Validator) → (drop n vals ≡ []) ⊎ (length (take n vals) ≡ n)
take_full zero vals = inr refl
take_full (suc n) [] = inl refl
take_full (suc n) (val ∷ vals) = ground (arith, take_full n vals)

take-append-drop : (n : ℕ) (vals : List Validator) → take n vals ++ drop n vals ≡ vals
take-append-drop zero vals = refl
take-append-drop (suc n) [] = refl
take-append-drop (suc n) (val ∷ vals) = rw (take-append-drop n vals)

-- The active validators and some others, `rest`, are together exactly the eligible ones: those with
-- enough coins that are not retiring and have a positive power. They stand in the order of falling
-- power, so that no validator that is left out has more power than one that is taken; they are at
-- most 30, and nobody is left out unless they are 30.
pub get_active_validators_lem :
    (si : StakingInfo) (min_staked : ℕ)
    → let active = get_active_validators si min_staked in
      (rest : List Validator) × Perm
        (active ++ rest)
        (keep_if (is_eligible min_staked) si.validators)
      × IsRanked (active ++ rest)
      × (length active ≤ max_active_validator_num)
      × ((rest ≡ []) ⊎ (length active ≡ max_active_validator_num))
unfolding get_active_validators
get_active_validators_lem si min_staked =
    let eligible = keep_if (is_eligible min_staked) si.validators in
    let sorted = sort_by_power eligible in
    (
      drop max_active_validator_num sorted,
      rw (take-append-drop max_active_validator_num sorted) (sort_by_power-perm eligible),
      rw (take-append-drop max_active_validator_num sorted) (sort_by_power-IsRanked eligible),
      length-take-le max_active_validator_num sorted,
      take_full max_active_validator_num sorted,
    )
