-- ===== src/Staking/State.antt =====
-- staking/staking.go: where the staking state is kept in the world state, and how it is loaded and
-- saved.
pub mod Loading
use smartbch.Base.{
  Bool, List, Option, Outcome, [], bad_encoding, be_bytes, be_nat, deref, if◌then◌else◌, leb,
  length, no_staking_contract, none, out_of_range, require, returns, some, take, ℕ, ◌-◌, ◌>>=◌,
  ◌>>◌, ◌^◌,
}
use smartbch.Staking.Info.{StakingInfo}
use smartbch.Staking.Context.{Context}

-- 0x2710, and uint64(-3).
abbrev pub staking_contract_address : ℕ
staking_contract_address = 10000

abbrev pub staking_contract_sequence : ℕ
staking_contract_sequence = 2 ^ 64 - 3

abbrev pub slot_staking_info : ℕ
slot_staking_info = 0

abbrev pub slot_all_burnt : ℕ
slot_all_burnt = 1

abbrev pub slot_min_gas_price : ℕ
slot_min_gas_price = 2

abbrev pub slot_last_min_gas_price : ℕ
slot_last_min_gas_price = 3

abbrev pub default_min_gas_price : ℕ
default_min_gas_price = 0

abbrev pub empty_info : StakingInfo
empty_info = record { curr_epoch_num = 0; validators = []; pending_rewards = [] }

module _ (c : Context) where
  open c use {
    World, Account, zero_account, sequence, update_sequence, get_account, set_account,
    get_storage_at, set_storage_at, marshal_info, unmarshal_info, get_account-set_account,
    get_account-set_storage_at, get_storage_at-set_account, get_storage_at-set_storage_at,
    unmarshal_info-marshal_info,
  }

  -- `StakingContractExecutor.Init`
  unfoldable pub init : World → World
  init w = elim (get_account w staking_contract_address) [
    | none ↦
        set_account w staking_contract_address
          (update_sequence zero_account staking_contract_sequence)
    | some acc ↦ w
  ]

  -- The part of `LoadStakingAcc` behind the account.
  abbrev pub decode_info : Option (List ℕ) → Outcome StakingInfo
  decode_info none = returns empty_info
  decode_info (some bz) = deref (unmarshal_info bz) bad_encoding

  unfoldable pub load_staking_acc : World → Outcome (Account × StakingInfo)
  load_staking_acc w = do
    acc ← deref (get_account w staking_contract_address) no_staking_contract
    info ← decode_info (get_storage_at w (sequence acc) slot_staking_info)
    returns (acc, info)

  unfoldable pub save_staking_info : World → Account → StakingInfo → World
  save_staking_info w acc info =
      set_storage_at w (sequence acc) slot_staking_info (marshal_info info)

  abbrev pub gas_price_slot : Bool → ℕ
  gas_price_slot is_last = if is_last then slot_last_min_gas_price else slot_min_gas_price

  -- `binary.BigEndian.Uint64` reads eight bytes, and panics where there are fewer.
  abbrev pub decode_gas_price : Option (List ℕ) → Outcome ℕ
  decode_gas_price none = returns default_min_gas_price
  decode_gas_price (some bz) =
      require (leb 8 (length bz)) out_of_range >> returns (be_nat (take 8 bz))

  unfoldable pub load_min_gas_price : World → Bool → Outcome ℕ
  load_min_gas_price w is_last = do
    acc ← deref (get_account w staking_contract_address) no_staking_contract
    decode_gas_price (get_storage_at w (sequence acc) (gas_price_slot is_last))

  unfoldable pub save_min_gas_price : World → ℕ → Bool → Outcome World
  save_min_gas_price w min_gp is_last = do
    acc ← deref (get_account w staking_contract_address) no_staking_contract
    returns (set_storage_at w (sequence acc) (gas_price_slot is_last) (be_bytes 8 min_gp))
