-- ===== src/Staking/Execute.antt =====
-- staking/staking.go: `StakingContractExecutor`, the entry of the calls from smart contracts.
pub mod Funds
use smartbch.Base.{
  Bool, Outcome, be_nat, false, if◌then◌else◌, length, ltb, none, returns, take, true, ℕ, ◌==◌,
}
use smartbch.Staking.Context.{Context}
use smartbch.Staking.External.{Receipt, TxToRun, external_op}
use smartbch.Staking.GasPrice.{handle_min_gas_price}
use smartbch.Staking.State.{staking_contract_address}

abbrev pub selector_create_validator : ℕ
selector_create_validator = 0x24d1ed5d

abbrev pub selector_edit_validator : ℕ
selector_edit_validator = 0x9dc159b6

abbrev pub selector_retire : ℕ
selector_retire = 0xa4874d77

abbrev pub selector_increase_min_gas_price : ℕ
selector_increase_min_gas_price = 0xf2016e8e

abbrev pub selector_decrease_min_gas_price : ℕ
selector_decrease_min_gas_price = 0x696e6ad2

unfoldable pub is_system_contract : ℕ → Bool
is_system_contract addr = addr == staking_contract_address

-- A failure with no gas used and no output.
abbrev pub no_such_method : Receipt
no_such_method = record { success = false; gas_used = 0; out_data = none }

module _ (c : Context) where
  open c use {World}

  unfoldable pub dispatch : World → TxToRun → ℕ → Outcome (World × Receipt)
  dispatch w tx selector =
      if selector == selector_create_validator
      then external_op c w tx true false
      else if selector == selector_edit_validator
      then external_op c w tx false false
      else if selector == selector_retire
      then external_op c w tx false true
      else if selector == selector_increase_min_gas_price
      then handle_min_gas_price c w tx.from true
      else if selector == selector_decrease_min_gas_price
      then handle_min_gas_price c w tx.from false
      else returns (w, no_such_method)

  unfoldable pub execute : World → TxToRun → Outcome (World × Receipt)
  unfolding dispatch
  execute w tx =
      if ltb (length tx.call_data) 4
      then returns (w, no_such_method)
      else dispatch w tx (be_nat (take 4 tx.call_data))
