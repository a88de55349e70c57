-- ===== src/Staking/GasPrice.antt =====
-- staking/staking.go: `handleMinGasPrice`, by which the validators move the minimal gas price.
pub mod Bounds
use smartbch.Base.{
  Bool, Outcome, add64, any, false, if◌then◌else◌, ltb, mul64, returns, sub64, true, ℕ, ◌&&◌, ◌/◌,
  ◌==◌, ◌>>=◌, ◌>>◌, ◌||◌,
}
use smartbch.Staking.External.{
  Checked, Receipt, accepted, failed, gas_of_staking_external_op,
  min_gas_price_exceed_block_change_delta, min_gas_price_too_big, min_gas_price_too_small,
  minimum_staking_amount, operator_not_validator, refused, succeeded,
}
use smartbch.Staking.Context.{Context}
use smartbch.Staking.Info.{StakingInfo, get_active_validators}
use smartbch.Staking.State.{load_min_gas_price, load_staking_acc, save_min_gas_price}

abbrev pub min_gas_price_delta_rate : ℕ
min_gas_price_delta_rate = 5

abbrev pub max_min_gas_price_delta_rate : ℕ
max_min_gas_price_delta_rate = 16

abbrev pub max_min_gas_price : ℕ
max_min_gas_price = 500

abbrev pub min_min_gas_price : ℕ
min_min_gas_price = 0

-- The new price, in `uint64` arithmetic.
unfoldable pub stepped_price : ℕ → Bool → ℕ
stepped_price mgp is_increase =
    if is_increase
    then add64 mgp (mul64 min_gas_price_delta_rate mgp / 100)
    else sub64 mgp (mul64 min_gas_price_delta_rate mgp / 100)

-- Whether a price is too far from the last block's.
unfoldable pub exceeds_delta : ℕ → ℕ → Bool
exceeds_delta mgp last =
    ltb last mgp && ltb (mul64 max_min_gas_price_delta_rate last) (mul64 100 (sub64 mgp last))
    || ltb mgp last && ltb (mul64 max_min_gas_price_delta_rate last) (mul64 100 (sub64 last mgp))

unfoldable pub check_price : ℕ → ℕ → Checked ℕ
unfolding exceeds_delta
check_price mgp last =
    if ltb mgp min_min_gas_price
    then refused min_gas_price_too_small
    else if ltb max_min_gas_price mgp
    then refused min_gas_price_too_big
    else if exceeds_delta mgp last
    then refused min_gas_price_exceed_block_change_delta
    else accepted mgp

-- Whether the sender is an active validator, or receives the rewards of one.
unfoldable pub is_operator : StakingInfo → ℕ → Bool
is_operator info sender =
    any (λ val. val.address == sender || val.reward_to == sender)
      (get_active_validators info minimum_staking_amount)

module _ (c : Context) where
  open c use {World}

  unfoldable pub write_price : World → Checked ℕ → Outcome (World × Receipt)
  write_price w (refused e) = returns (w, failed gas_of_staking_external_op e)
  write_price w (accepted mgp) = do
    w' ← save_min_gas_price c w mgp false
    returns (w', succeeded gas_of_staking_external_op)

  unfoldable pub handle_min_gas_price : World → ℕ → Bool → Outcome (World × Receipt)
  unfolding write_price
  handle_min_gas_price w sender is_increase = do
    mgp ← load_min_gas_price c w false
    last ← load_min_gas_price c w true
    loaded ← load_staking_acc c w
    if is_operator loaded.1 sender
        then write_price w (check_price (stepped_price mgp is_increase) last)
        else returns (w, failed 0 operator_not_validator)
