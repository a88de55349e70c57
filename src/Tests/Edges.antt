-- ===== src/Tests/Edges.antt =====
-- Examples of the theorems about slashing, deletion, gas prices, the query and the active validators
-- (staking/staking.go, staking/types/types.go).
use smartbch.Base.{
  Bool, List, Perm, [], add256, any, arith, be_bytes, be_nat, be_nat_from, false, if◌then◌else◌,
  none, out_of_range, panics, refl, returns, some, true, u256_mod, ℕ, ◌%◌, ◌*◌, ◌++◌, ◌+◌, ◌-◌,
  ◌==◌, ◌∷◌, ◌≡◌, ◌≤◌, ◌⊎◌,
}
use smartbch.Tests.World.{
  small, genesis_world, contract, three_validators, load_genesis, SmallWorld, SmallAccount, alice,
  bob, carol,
}
use smartbch.Staking.Info.{
  StakingInfo, clear_rewards, clear_rewards_of, get_validator_by_pubkey, Validator, add_validator,
  get_active_validators, insert_by_power, is_eligible, max_active_validator_num, sort_by_power,
}
use smartbch.Staking.External.{
  coin, failed, gas_of_staking_external_op, operator_not_validator, succeeded,
}
use smartbch.Staking.Deletion.{delete_at, delete_loop, delete_step, delete_useless}
use smartbch.Staking.Deletion.Scan.{delete_useless-scan, scan}
use smartbch.Staking.Deletion.Verdicts.{
  delete_useless_adjacent, delete_useless_panics, delete_useless_single,
}
use smartbch.Staking.State.{
  load_staking_acc, load_min_gas_price, save_min_gas_price, slot_staking_info, slot_all_burnt,
  staking_contract_address,
}
use smartbch.Staking.Funds.{owed}
use smartbch.Staking.Slash.Funds.{owed-slash_info, slash_unsaved}
use smartbch.Staking.Slash.{slash, slash_coins, slash_info}
use smartbch.Staking.GasPrice.Bounds.{
  Calls, InBand, Prices, block-InBand, small_price_frozen, no_calls, one_call,
}
use smartbch.Staking.Info.Active.{IsRanked, get_active_validators_lem}
use smartbch.Staking.Info.Unique.{IsUnique, add_validator-IsUnique}
use smartbch.Staking.GasPrice.{
  check_price, exceeds_delta, handle_min_gas_price, is_operator, stepped_price, write_price,
}
use smartbch.Tests.Codec.{
  decode_many, decode_number, decode_reward, decode_text, decode_validator, encode_many,
  encode_number, encode_reward, encode_text, encode_validator, marshal, unmarshal,
}
use smartbch.Staking.SumPower.{run, selector_sum_voting_power}
use smartbch.Staking.SumPower.Faults.{run_panics, run_single_address}

-- The transfer to the black hole, of which only the account matters that it takes from.
abbrev take_away : SmallWorld → ℕ → ℕ → SmallWorld
take_away w a n = elim (w.accounts a) [
  | none ↦ w
  | some acc ↦ small.set_account w a (small.update_balance acc (small.balance acc - n))
]

abbrev slashed_info : StakingInfo
slashed_info = record three_validators {
  validators = record alice { staked_coins = 990 * coin } ∷ carol ∷ bob ∷ [];
  pending_rewards =
      record { address = 11; epoch_num = 7; amount = 0 }
      ∷ record { address = 21; epoch_num = 7; amount = 50 }
      ∷ [];
}

slash_alice : slash_info three_validators 111 (10 * coin) ≡ some (10 * coin + 70, slashed_info)
unfolding slash_info get_validator_by_pubkey slash_coins clear_rewards_of clear_rewards
slash_alice = refl

slash_unsaved_example :
    (w' : SmallWorld) × (slash small take_away genesis_world 111 (10 * coin)
      ≡ returns (w', some (10 * coin + 70)))
    × (load_staking_acc small w'
        ≡ returns (record contract { coins = 2740 * coin + 50 }, three_validators))
    × (small.get_storage_at w' (small.sequence contract) slot_all_burnt
        ≡ some (be_bytes 32 (add256 0 (10 * coin + 70))))
slash_unsaved_example =
    slash_unsaved small take_away (λ w n q s. storage_stays w n q s)
      (λ w n acc found enough. taken w n acc found) genesis_world 111 (10 * coin) 0 load_genesis
      slash_alice (omega arith) refl
  where
    storage_stays :
        (w : SmallWorld) (n q s : ℕ)
        → small.get_storage_at (take_away w staking_contract_address n) q s
          ≡ small.get_storage_at w q s
    storage_stays w n q s = ground arith

    taken :
        (w : SmallWorld) (n : ℕ) (acc : SmallAccount)
        → w.accounts staking_contract_address ≡ some acc
        → (take_away w staking_contract_address n).accounts staking_contract_address
          ≡ some (record acc { coins = acc.coins % u256_mod - n })
    taken w n acc found = ground arith

owed-slash_info_example :
    (owed slashed_info + (10 * coin + 70)) % u256_mod ≡ owed three_validators % u256_mod
unfolding get_validator_by_pubkey
owed-slash_info_example =
    owed-slash_info three_validators 111 (10 * coin) {val = alice} refl (omega arith) slash_alice

abbrev is_zero : ℕ → Bool
is_zero n = n == 0

delete_useless-scan_example :
    delete_useless is_zero (0 ∷ 4 ∷ 0 ∷ 5 ∷ []) ≡ scan is_zero 5 false (0 ∷ 4 ∷ 0 ∷ 5 ∷ [])
delete_useless-scan_example = delete_useless-scan is_zero (0 ∷ 4 ∷ 0 ∷ 5 ∷ []) 5 refl

delete_useless_panics_example : delete_useless is_zero (0 ∷ 4 ∷ 0 ∷ []) ≡ panics out_of_range
delete_useless_panics_example = delete_useless_panics is_zero (0 ∷ 4 ∷ []) 0 refl refl

adjacent : delete_useless is_zero (3 ∷ 0 ∷ 0 ∷ 5 ∷ []) ≡ returns (3 ∷ 0 ∷ 5 ∷ [])
unfolding delete_useless delete_loop delete_step delete_at
adjacent = refl

delete_useless_adjacent_example : any is_zero (3 ∷ 0 ∷ 5 ∷ []) ≡ true
delete_useless_adjacent_example =
    delete_useless_adjacent is_zero (3 ∷ []) 0 0 (5 ∷ []) refl refl refl adjacent

delete_useless_single_example : delete_useless is_zero (3 ∷ 0 ∷ 5 ∷ []) ≡ returns (3 ∷ 5 ∷ [])
delete_useless_single_example = delete_useless_single is_zero (3 ∷ 0 ∷ 5 ∷ []) (omega arith)

-- An increase by alice's receiver of rewards, one by a stranger, and one that goes too far.
raised :
    (w : SmallWorld) × (w' : SmallWorld) × (handle_min_gas_price small genesis_world 12 true
      ≡ returns (w, succeeded gas_of_staking_external_op))
    × (handle_min_gas_price small w 31 true ≡ returns (w, failed 0 operator_not_validator))
    × (handle_min_gas_price small w 21 true ≡ returns (w', succeeded gas_of_staking_external_op))
unfolding handle_min_gas_price load_min_gas_price save_min_gas_price is_operator stepped_price
    check_price exceeds_delta write_price get_active_validators is_eligible sort_by_power
    insert_by_power load_staking_acc be_bytes be_nat be_nat_from marshal unmarshal encode_many
    decode_many encode_validator decode_validator encode_text decode_text encode_number
    decode_number encode_reward decode_reward
raised = (_, _, refl, refl, refl)

abbrev calls : Calls small genesis_world raised.1
calls =
    one_call 12 true raised.2
      (one_call 31 true raised.3 (one_call 21 true raised.4 (no_calls raised.1)))

stored-Prices : Prices small genesis_world 200 200
unfolding load_min_gas_price be_bytes be_nat be_nat_from
stored-Prices = (refl, refl)

block-InBand_example : (mgp : ℕ) × Prices small raised.1 200 mgp × InBand 200 mgp
block-InBand_example = block-InBand small {last = 200} stored-Prices (omega arith) calls

-- The world without stored prices: the price is 0, and an increase leaves it there.
abbrev free_world : SmallWorld
free_world = record genesis_world {
  storage = λ q s. if s == slot_staking_info then genesis_world.storage q s else none;
}

not_raised :
    (w : SmallWorld) × (handle_min_gas_price small free_world 11 true
      ≡ returns (w, succeeded gas_of_staking_external_op))
unfolding handle_min_gas_price load_min_gas_price save_min_gas_price is_operator stepped_price
    check_price exceeds_delta write_price get_active_validators is_eligible sort_by_power
    insert_by_power load_staking_acc be_bytes be_nat be_nat_from marshal unmarshal encode_many
    decode_many encode_validator decode_validator encode_text decode_text encode_number
    decode_number encode_reward decode_reward
not_raised = (_, refl)

free-Prices : Prices small free_world 0 0
unfolding load_min_gas_price
free-Prices = (refl, refl)

small_price_frozen_example : Prices small not_raised.0 0 0
small_price_frozen_example =
    small_price_frozen small {last = 0} {mgp = 0} free-Prices (omega arith) (omega arith)
      (one_call 11 true not_raised.1 (no_calls not_raised.0))

get_active_validators_lem_example :
    (rest : List Validator) × Perm (alice ∷ bob ∷ rest) (alice ∷ bob ∷ [])
    × IsRanked (alice ∷ bob ∷ rest)
    × (2 ≤ max_active_validator_num)
    × ((rest ≡ []) ⊎ (2 ≡ max_active_validator_num))
unfolding get_active_validators is_eligible sort_by_power insert_by_power
get_active_validators_lem_example = get_active_validators_lem three_validators (800 * coin)

abbrev query : List ℕ
query = be_bytes 4 selector_sum_voting_power ++ be_bytes 32 0 ++ be_bytes 32 0

run_single_address_example :
    run (some three_validators) (query ++ be_bytes 32 11) []
    ≡ returns (some (be_bytes 32 0 ++ be_bytes 32 10))
unfolding be_bytes be_nat be_nat_from
run_single_address_example =
    run_single_address three_validators (query ++ be_bytes 32 11) [] refl refl

abbrev three_addresses : List ℕ
three_addresses = query ++ be_bytes 32 11 ++ be_bytes 32 21 ++ be_bytes 32 41

run_panics_example : run (some three_validators) three_addresses [] ≡ panics out_of_range
unfolding be_bytes be_nat be_nat_from
run_panics_example =
    run_panics (some three_validators) three_addresses [] (omega arith) (omega arith) refl

abbrev with_dave : StakingInfo
with_dave = (add_validator three_validators 51 555 [] (2000 * coin) 52).1

three-IsUnique : IsUnique three_validators.validators
three-IsUnique = (refl, refl, (refl, refl, (refl, refl, tt)))

add_validator-IsUnique_example : IsUnique with_dave.validators
add_validator-IsUnique_example =
    add_validator-IsUnique three_validators 51 555 [] (2000 * coin) 52 three-IsUnique
