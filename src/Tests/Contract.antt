-- ===== src/Tests/Contract.antt =====
-- Examples of the theorems about the staking contract (staking/staking.go), in the small world.
use mathlib.Core.List.Perm
use smartbch.Base.{
  List, Option, Outcome, [], arith, be_bytes, be_nat, be_nat_from, length, none, panics, refl,
  returns, some, strip_zeros, true, ◌*◌, ◌++◌, ◌∷◌, ◌≡◌, ◌≤◌,
}
use smartbch.Tests.World.{
  small, genesis_world, SmallWorld, contract, load_genesis, three_validators, alice,
}
use smartbch.Staking.External.{
  Receipt, TxToRun, coin, external_op, gas_of_staking_external_op, parse_args, succeeded,
  create_branch, pay_stake, run_op, settle, update_info,
}
use smartbch.Staking.Execute.{dispatch, execute, no_such_method, selector_create_validator}
use smartbch.Staking.Funds.{KeepsFunds}
use smartbch.Staking.Info.{
  add_clash, add_validator, StakingInfo, get_active_validators, get_val_map_by_addr,
  get_val_map_by_pubkey, insert_by_power, is_eligible, is_useless, sort_by_power,
}
use smartbch.Tests.Codec.{
  decode_many, decode_number, decode_reward, decode_text, decode_validator, encode_many,
  encode_number, encode_reward, encode_text, encode_validator, marshal, unmarshal,
}
use smartbch.Staking.Execute.Funds.{execute-KeepsFunds}
use smartbch.Staking.State.{load_staking_acc, save_staking_info}
use smartbch.Staking.Epoch.{
  MapOrders, Nomination, add_reward, age_info, assign_power, clear_up, end_epoch, is_immature,
  mature_rewards, pay_out, refunds, set_power, switch_epoch, update_voting_power, useless_keys,
}
use smartbch.Staking.Fee.{
  credit, distribute_fee, reward_voter, reward_voters, share_fee, split_fee, total_voting_power,
  voted_power,
}
use smartbch.Staking.Deletion.{delete_at, delete_loop, delete_step, delete_useless}
use smartbch.Staking.Fee.Funds.{distribute_fee-KeepsFunds}
use smartbch.Staking.Epoch.Funds.{switch_epoch-KeepsFunds, useless_validators}

-- What a call gave that did not panic.
abbrev after {ℓ} : {A : Type ℓ} → A → Outcome A → A
after other (returns a) = a
after other (panics e) = other

-- createValidator by the user 31, with 1500 coins, the reward account 32 and the key 333.
abbrev create_tx : TxToRun
create_tx = record {
  from = 31;
  value = 1500 * coin;
  call_data =
      be_bytes 4 selector_create_validator ++ be_bytes 32 32 ++ be_bytes 32 0 ++ be_bytes 32 333;
}

abbrev not_run : SmallWorld × Receipt
not_run = (genesis_world, no_such_method)

created :
    (w : SmallWorld) × (execute small genesis_world create_tx
      ≡ returns (w, succeeded gas_of_staking_external_op))
unfolding execute dispatch external_op parse_args run_op settle update_info create_branch
    add_validator add_clash pay_stake load_staking_acc save_staking_info be_bytes be_nat be_nat_from
    strip_zeros marshal unmarshal encode_many decode_many encode_validator decode_validator
    encode_text decode_text encode_number decode_number encode_reward decode_reward
created = (_, refl)

execute-KeepsFunds_example : KeepsFunds small contract three_validators created.0
execute-KeepsFunds_example = execute-KeepsFunds small genesis_world create_tx load_genesis created.1

abbrev pub in_order : MapOrders
in_order = record {
  rewards = λ l. l;
  keys = λ l. l;
  rewards-perm = λ l. Perm.refl l;
  keys-perm = λ l. Perm.refl l;
}

-- Carol is useless at the end of the epoch, and is refunded; bob loses his power.
abbrev votes : List Nomination
votes = record { pubkey = 111; nominated_count = 5 } ∷ []

carol_leaves : is_useless (update_voting_power (age_info three_validators) votes) 41 ≡ true
unfolding is_useless update_voting_power age_info assign_power is_immature
carol_leaves = refl

switched :
    (w : SmallWorld) × (switch_epoch small in_order genesis_world votes
      ≡ returns (w, set_power 5 alice ∷ []))
unfolding switch_epoch end_epoch clear_up mature_rewards is_immature add_reward get_val_map_by_addr
    pay_out age_info update_voting_power assign_power useless_keys is_useless refunds delete_useless
    delete_loop delete_step delete_at get_active_validators is_eligible sort_by_power
    insert_by_power load_staking_acc save_staking_info be_bytes be_nat be_nat_from strip_zeros
    marshal unmarshal encode_many decode_many encode_validator decode_validator encode_text
    decode_text encode_number decode_number encode_reward decode_reward
switched = (_, refl)

one_useless :
    length (useless_validators (update_voting_power (age_info three_validators) votes)) ≤ 1
unfolding is_useless update_voting_power age_info assign_power is_immature
one_useless = omega arith

switch_epoch-KeepsFunds_example : KeepsFunds small contract three_validators switched.0
switch_epoch-KeepsFunds_example =
    switch_epoch-KeepsFunds small in_order genesis_world votes load_genesis one_useless switched.1

shared :
    (r : SmallWorld × Option StakingInfo) × (distribute_fee small genesis_world none
        (some 1000)
        111
        (111 ∷ 222 ∷ [])
      ≡ returns r)
unfolding distribute_fee share_fee voted_power split_fee total_voting_power reward_voters
    reward_voter credit get_val_map_by_pubkey get_active_validators is_eligible sort_by_power
    insert_by_power load_staking_acc save_staking_info be_bytes be_nat be_nat_from strip_zeros
    marshal unmarshal encode_many decode_many encode_validator decode_validator encode_text
    decode_text encode_number decode_number encode_reward decode_reward
shared = (_, refl)

distribute_fee-KeepsFunds_example : KeepsFunds small contract three_validators shared.0.0
distribute_fee-KeepsFunds_example =
    distribute_fee-KeepsFunds small genesis_world none (some 1000) 111 (111 ∷ 222 ∷ []) load_genesis
      shared.1
