-- ===== src/Tests/World.antt =====
-- A world state to try the code in: what `Context` asks for, as two functions.
use smartbch.Base.{
  List, Option, [], arith, be_bytes, false, if◌then◌else◌, none, refl, returns, some, true,
  u256_mod, ℕ, ◌%◌, ◌&&◌, ◌*◌, ◌+◌, ◌==◌, ◌||◌, ◌∷◌, ◌≡◌,
}
use smartbch.Tests.Codec.{marshal, unmarshal, unmarshal-marshal}
use smartbch.Staking.Context.{Context}
use smartbch.Staking.Info.{StakingInfo, Validator}
use smartbch.Staking.External.{coin}
use smartbch.Staking.State.{
  load_staking_acc, slot_staking_info, staking_contract_address, staking_contract_sequence,
  slot_last_min_gas_price, slot_min_gas_price,
}

pub record SmallAccount : Type 0 where
  pub coins : ℕ
  pub nonce : ℕ

pub record SmallWorld : Type 0 where
  pub accounts : ℕ → Option SmallAccount
  pub storage : ℕ → ℕ → Option (List ℕ)

abbrev pub small : Context
small = record {
  World = SmallWorld;
  Account = SmallAccount;
  zero_account = record { coins = 0; nonce = 0 };
  balance = λ a. a.coins % u256_mod;
  update_balance = λ a b. record a { coins = b };
  sequence = λ a. a.nonce;
  update_sequence = λ a s. record a { nonce = s };
  get_account = λ w a. w.accounts a;
  set_account = λ w a acc. record w { accounts = λ b. if a == b then some acc else w.accounts b };
  get_storage_at = λ w q s. w.storage q s;
  set_storage_at =
      λ w q s bz. record w { storage = λ r t. if q == r && s == t then some bz else w.storage r t };
  marshal_info = marshal;
  unmarshal_info = unmarshal;
  balance-lt = λ a. omega arith;
  balance-zero_account = refl;
  balance-update_balance = λ a b h. omega (arith, h);
  sequence-update_balance = λ a b. refl;
  sequence-update_sequence = λ a s. refl;
  get_account-set_account = λ w a acc b. refl;
  get_account-set_storage_at = λ w q s bz b. refl;
  get_storage_at-set_account = λ w a acc q s. refl;
  get_storage_at-set_storage_at = λ w q s bz r t. refl;
  unmarshal_info-marshal_info = unmarshal-marshal;
}

abbrev pub alice : Validator
alice = record {
  address = 11;
  pubkey = 111;
  reward_to = 12;
  voting_power = 6;
  introduction = 65 ∷ [];
  staked_coins = 1000 * coin;
  is_retiring = false;
}

abbrev pub bob : Validator
bob = record {
  address = 21;
  pubkey = 222;
  reward_to = 22;
  voting_power = 4;
  introduction = [];
  staked_coins = 900 * coin;
  is_retiring = false;
}

-- Carol has no voting power left, and no reward is pending for her.
abbrev pub carol : Validator
carol = record {
  address = 41;
  pubkey = 444;
  reward_to = 42;
  voting_power = 0;
  introduction = [];
  staked_coins = 850 * coin;
  is_retiring = true;
}

-- The staking state in the middle of epoch 7.
abbrev pub three_validators : StakingInfo
three_validators = record {
  curr_epoch_num = 7;
  validators = alice ∷ carol ∷ bob ∷ [];
  pending_rewards =
      record { address = 11; epoch_num = 6; amount = 30 }
      ∷ record { address = 11; epoch_num = 7; amount = 40 }
      ∷ record { address = 21; epoch_num = 7; amount = 50 }
      ∷ [];
}

abbrev pub contract : SmallAccount
contract = record { coins = 2750 * coin + 120; nonce = staking_contract_sequence }

abbrev pub user : SmallAccount
user = record { coins = 5000 * coin; nonce = 3 }

-- The staking contract, one user, the state above and both gas prices.
abbrev pub genesis_world : SmallWorld
genesis_world = record {
  accounts = λ a.
      if a == staking_contract_address then some contract else if a == 31 then some user else none;
  storage = λ q s.
      if q == staking_contract_sequence && s == slot_staking_info
      then some (marshal three_validators)
      else if q == staking_contract_sequence
          && (s == slot_min_gas_price || s == slot_last_min_gas_price)
      then some (be_bytes 8 200)
      else none;
}

pub load_genesis : load_staking_acc small genesis_world ≡ returns (contract, three_validators)
unfolding load_staking_acc
load_genesis = rw (unmarshal-marshal three_validators)
