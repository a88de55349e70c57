-- ===== src/Staking/Info/Unique.antt =====
-- Addresses and public keys stay unique among the validators (staking/types/types.go).
use smartbch.Base.{
  Bool, List, Option-cases, [], any, any-find_last, arith, false, find_first, find_last, inl, inr,
  none, refl, ℕ, ◌++◌, ◌||◌, ◌∷◌, ◌≡◌,
}
use smartbch.Staking.Info.{
  StakingInfo, Validator, add_clash, add_validator, has_address, has_pubkey, new_validator,
  get_val_map_by_addr, get_val_map_by_pubkey, get_validator_by_addr, get_validator_by_pubkey,
}

-- No two validators have the same address, or the same public key.
abbrev pub IsUnique : List Validator → Type 0
IsUnique [] = Unit
IsUnique (val ∷ vals) =
    (any (has_address val.address) vals ≡ false)
    × (any (has_pubkey val.pubkey) vals ≡ false)
    × IsUnique vals

no_clash :
    (addr pubkey : ℕ) (vals : List Validator)
    → add_clash addr pubkey vals ≡ none
    → (any (has_address addr) vals ≡ false) × (any (has_pubkey pubkey) vals ≡ false)
unfolding add_clash
no_clash addr pubkey [] h = (refl, refl)
no_clash addr pubkey (val ∷ vals) h = ground (arith, no_clash addr pubkey vals)

any-append_one :
    (p : Validator → Bool) (vals : List Validator) (val : Validator)
    → any p (vals ++ val ∷ []) ≡ any p vals || p val
any-append_one p [] val = ground arith
any-append_one p (v ∷ vals) val = ground (arith, any-append_one p vals val)

append_one-IsUnique :
    (vals : List Validator) (val : Validator)
    → IsUnique vals
    → any (has_address val.address) vals ≡ false
    → any (has_pubkey val.pubkey) vals ≡ false
    → IsUnique (vals ++ val ∷ [])
append_one-IsUnique [] val u a k = (refl, refl, tt)
append_one-IsUnique (v ∷ vals) val u a k = (
  ground (arith, any-append_one (has_address v.address) vals val),
  ground (arith, any-append_one (has_pubkey v.pubkey) vals val),
  append_one-IsUnique vals val u.2 (ground arith) (ground arith),
)

-- Adding a validator, whatever its address and key and whether it is refused, keeps all addresses and
-- all public keys different.
pub add_validator-IsUnique :
    (si : StakingInfo) (addr pubkey : ℕ) (intro : List ℕ) (coins reward_to : ℕ)
    → IsUnique si.validators
    → IsUnique (add_validator si addr pubkey intro coins reward_to).1.validators
unfolding add_validator
add_validator-IsUnique si addr pubkey intro coins reward_to u =
    elim (Option-cases (add_clash addr pubkey si.validators)) [
      | inr (e, clash) ↦ rw (clash, add_validator) u
      | inl free ↦
          let fresh = no_clash addr pubkey si.validators free in
          rw (free, add_validator)
            (append_one-IsUnique si.validators (new_validator addr pubkey intro coins reward_to) u
              fresh.0 fresh.1)
    ]

-- Among unique validators the first match and the last match of an address are the same.
pub find_last-find_first :
    (addr : ℕ) (vals : List Validator)
    → IsUnique vals
    → find_last (has_address addr) vals ≡ find_first (has_address addr) vals
find_last-find_first addr [] u = refl
find_last-find_first addr (val ∷ vals) u =
    ground (arith, find_last-find_first addr vals u.2, any-find_last (has_address addr) vals, u.0)

find_last-find_first_pubkey :
    (pubkey : ℕ) (vals : List Validator)
    → IsUnique vals
    → find_last (has_pubkey pubkey) vals ≡ find_first (has_pubkey pubkey) vals
find_last-find_first_pubkey pubkey [] u = refl
find_last-find_first_pubkey pubkey (val ∷ vals) u = ground (
  arith,
  find_last-find_first_pubkey pubkey vals u.2,
  any-find_last (has_pubkey pubkey) vals,
  u.1,
)

-- Where the addresses and the public keys of the validators are all different, the maps that
-- `GetValMapByAddr` and `GetValMapByPubkey` build hold the validators that `GetValidatorByAddr` and
-- `GetValidatorByPubkey` find.
pub maps_agree :
    (si : StakingInfo)
    → IsUnique si.validators
    → (key : ℕ)
    → (get_val_map_by_addr si key ≡ get_validator_by_addr si key)
      × (get_val_map_by_pubkey si key ≡ get_validator_by_pubkey si key)
unfolding get_val_map_by_addr get_validator_by_addr get_val_map_by_pubkey get_validator_by_pubkey
maps_agree si u key =
    (find_last-find_first key si.validators u, find_last-find_first_pubkey key si.validators u)
