-- ===== src/Staking/External.antt =====
-- staking/staking.go: `externalOp`, which serves createValidator, editValidator and retire.
pub mod Funds
use smartbch.Base.{
  Bool, List, Option, Outcome, [], add256, be_nat, deref, drop, false, if◌then◌else◌, leb, length,
  ltb, nil_dereference, none, not, returns, some, strip_zeros, sub256, take, true, update_first, ℕ,
  ◌&&◌, ◌*◌, ◌==◌, ◌>>=◌, ◌^◌, ◌||◌, ◌∷◌,
}
use smartbch.Staking.Info.{
  StakingInfo, Validator, AddError, add_validator, get_validator_by_addr, has_address,
}
use smartbch.Staking.Context.{Context}
use smartbch.Staking.State.{load_staking_acc, save_staking_info, staking_contract_address}

pub record TxToRun : Type 0 where
  pub from : ℕ
  pub value : ℕ
  pub call_data : List ℕ

pub data OpError : Type 0 where
  invalid_call_data balance_not_enough no_such_validator : OpError
  create_validator_coin_lt_init_amount : OpError
  add_error : AddError → OpError
  min_gas_price_too_big min_gas_price_too_small : OpError
  min_gas_price_exceed_block_change_delta operator_not_validator : OpError

-- What a call answers; `out_data` is the error's text, or empty.
pub record Receipt : Type 0 where
  pub success : Bool
  pub gas_used : ℕ
  pub out_data : Option OpError

abbrev pub coin : ℕ
coin = 10 ^ 18

abbrev pub initial_staking_amount : ℕ
initial_staking_amount = 1000 * coin

abbrev pub minimum_staking_amount : ℕ
minimum_staking_amount = 800 * coin

abbrev pub slashed_staking_amount : ℕ
slashed_staking_amount = 10 * coin

abbrev pub gas_of_staking_external_op : ℕ
gas_of_staking_external_op = 400000

abbrev pub failed : ℕ → OpError → Receipt
failed gas e = record { success = false; gas_used = gas; out_data = some e }

abbrev pub succeeded : ℕ → Receipt
succeeded gas = record { success = true; gas_used = gas; out_data = none }

pub record OpArgs : Type 0 where
  pub reward_to : ℕ
  pub intro : List ℕ
  pub pubkey : ℕ

-- The arguments behind the selector; retire has none. `none` is invalid call data.
unfoldable pub parse_args : List ℕ → Bool → Bool → Option OpArgs
parse_args tx_data create retire =
    if retire
    then some (record { reward_to = 0; intro = []; pubkey = 0 })
    else if not (create && leb 96 size || not create && leb 64 size)
    then none
    else some (record {
      reward_to = be_nat (take 20 (drop 12 args));
      intro = strip_zeros (take 32 (drop 32 args));
      pubkey = if create then be_nat (take 32 (drop 64 args)) else 0;
    })
  where
    args : List ℕ
    args = drop 4 tx_data

    size : ℕ
    size = length args

-- What editValidator and retire write into the sender's entry.
unfoldable pub edit_validator : OpArgs → ℕ → Bool → Validator → Validator
edit_validator args coins retire val = record val {
  reward_to = if args.reward_to == 0 then val.reward_to else args.reward_to;
  introduction = elim args.intro [ [] ↦ val.introduction | b ∷ bz ↦ b ∷ bz ];
  staked_coins = if coins == 0 then val.staked_coins else add256 val.staked_coins coins;
  is_retiring = if retire then true else val.is_retiring;
}

pub data Checked {ℓ} (A : Type ℓ) : Type ℓ where
  accepted : A → Checked A
  refused : OpError → Checked A

abbrev checked_add : Option AddError × StakingInfo → Checked StakingInfo
checked_add (none, info) = accepted info
checked_add (some e, info) = refused (add_error e)

-- The two branches of `externalOp` between the loading and the saving of the staking state.
unfoldable pub create_branch : StakingInfo → TxToRun → OpArgs → Checked StakingInfo
unfolding add_validator
create_branch info tx args =
    if leb tx.value initial_staking_amount
    then refused create_validator_coin_lt_init_amount
    else checked_add (add_validator info tx.from args.pubkey args.intro tx.value args.reward_to)

unfoldable pub edit_branch : StakingInfo → TxToRun → OpArgs → Bool → Checked StakingInfo
unfolding edit_validator get_validator_by_addr
edit_branch info tx args retire = elim (get_validator_by_addr info tx.from) [
  | none ↦ refused no_such_validator
  | some val ↦ accepted (record info {
    validators =
        update_first (has_address tx.from) (edit_validator args tx.value retire) info.validators;
  })
]

unfoldable pub update_info : StakingInfo → TxToRun → OpArgs → Bool → Bool → Checked StakingInfo
unfolding create_branch edit_branch
update_info info tx args create retire =
    if create then create_branch info tx args else edit_branch info tx args retire

module _ (c : Context) where
  open c use {World, Account, balance, update_balance, get_account, set_account}

  -- The staked coins go from the sender's account to the staking contract's.
  unfoldable pub pay_stake : World → ℕ → Account → Account → ℕ → World
  pay_stake w from sender acc coins =
      if coins == 0
      then w
      else set_account (set_account w from (update_balance sender (sub256 (balance sender) coins)))
          staking_contract_address (update_balance acc (add256 (balance acc) coins))

  -- The end of `externalOp`, where the checked state is written back.
  unfoldable pub settle :
      World → TxToRun → Account → Account → Checked StakingInfo → World × Receipt
  unfolding pay_stake save_staking_info
  settle w tx sender acc (refused e) = (w, failed gas_of_staking_external_op e)
  settle w tx sender acc (accepted info) = (
    pay_stake (save_staking_info c w acc info) tx.from sender acc tx.value,
    succeeded gas_of_staking_external_op,
  )

  unfoldable pub run_op :
      World → TxToRun → OpArgs → Bool → Bool → Account → Outcome (World × Receipt)
  unfolding update_info settle load_staking_acc
  run_op w tx args create retire sender =
      if ltb (balance sender) tx.value
      then returns (w, failed gas_of_staking_external_op balance_not_enough)
      else do
        loaded ← load_staking_acc c w
        returns (settle w tx sender loaded.0 (update_info loaded.1 tx args create retire))

  unfoldable pub external_op : World → TxToRun → Bool → Bool → Outcome (World × Receipt)
  unfolding parse_args run_op
  external_op w tx create retire = elim (parse_args tx.call_data create retire) [
    | none ↦ returns (w, failed gas_of_staking_external_op invalid_call_data)
    | some args ↦ deref (get_account w tx.from) nil_dereference >>= run_op w tx args create retire
  ]
