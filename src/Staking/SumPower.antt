-- ===== src/Staking/SumPower.antt =====
-- staking/staking.go: `StakingContractExecutor.Run`, the query sumVotingPower of smart contracts.
pub mod Faults
use smartbch.Base.{
  List, Option, Outcome, [], add64, any, be_bytes, be_nat, deref, drop, foldl, if◌then◌else◌, leb,
  length, ltb, mul64, nil_dereference, none, not, out_of_range, require, returns, some, suc, take,
  zero, ℕ, ◌&&◌, ◌*◌, ◌++◌, ◌+◌, ◌-◌, ◌==◌, ◌>>=◌, ◌>>◌, ◌||◌, ◌∷◌,
}
use smartbch.Staking.Info.{StakingInfo, Validator}
use smartbch.Staking.Context.{Context}
use smartbch.Staking.State.{load_staking_acc}

abbrev pub selector_sum_voting_power : ℕ
selector_sum_voting_power = 0x9ce06909

abbrev pub sum_voting_power_gas_per_byte : ℕ
sum_voting_power_gas_per_byte = 25

abbrev pub sum_voting_power_base_gas : ℕ
sum_voting_power_base_gas = 10000

unfoldable pub required_gas : List ℕ → ℕ
required_gas input =
    add64 (mul64 (length input) sum_voting_power_gas_per_byte) sum_voting_power_base_gas

-- `input[low:high]`, where `spare` are the bytes of the backing array behind the slice: a slice
-- expression is bounded by the capacity.
unfoldable pub slice_of : List ℕ → List ℕ → ℕ → ℕ → Outcome (List ℕ)
slice_of input spare low high =
    require (leb high (length input + length spare)) out_of_range
    >> returns (take (high - low) (drop low (input ++ spare)))

-- The loop `for i := 0; i+32 < len(input); i += 32`, with fuel for the rounds.
unfoldable pub collect_addrs : ℕ → ℕ → List ℕ → List ℕ → List ℕ → Outcome (List ℕ)
unfolding slice_of
collect_addrs zero i input spare addrs = returns addrs
collect_addrs (suc fuel) i input spare addrs =
    let more = slice_of input spare (i * 32 + 12) (i * 32 + 32) >>= λ bz.
    collect_addrs fuel (i + 32) input spare (be_nat bz ∷ addrs) in
    if ltb (i + 32) (length input) then more else returns addrs

-- The sums of the powers, `int64`s, and the addresses that are counted.
pub record Powers : Type 0 where
  pub summed : ℕ
  pub total : ℕ
  pub counted : List ℕ

unfoldable pub count_power : List ℕ → Powers → Validator → Powers
count_power addrs s val =
    let total' = add64 s.total val.voting_power in
    if (any (λ a. a == val.address) addrs || any (λ a. a == val.reward_to) addrs)
      && not (any (λ a. a == val.address) s.counted)
    then record {
      summed = add64 s.summed val.voting_power;
      total = total';
      counted = val.address ∷ s.counted;
    }
    else record s { total = total' }

unfoldable pub sum_powers : List ℕ → List Validator → Powers
unfolding count_power
sum_powers addrs vals =
    foldl (count_power addrs) (record { summed = 0; total = 0; counted = [] }) vals

-- `none` is the error InvalidArgument. `readonly` is the global `readonlyStakingInfo`.
unfoldable pub run : Option StakingInfo → List ℕ → List ℕ → Outcome (Option (List ℕ))
run readonly input spare =
    if ltb (length input) 68 || not (be_nat (take 4 input) == selector_sum_voting_power)
    then returns none
    else do
      let args = drop 68 input
      addrs ← collect_addrs (length args) 0 args spare []
      info ← deref readonly nil_dereference
      let s = sum_powers addrs info.validators
      returns (some (be_bytes 32 s.summed ++ be_bytes 32 s.total))

module _ (c : Context) where
  open c use {World}

  -- The new value of `readonlyStakingInfo`.
  unfoldable pub load_readonly_validators_info : World → Outcome (Option StakingInfo)
  load_readonly_validators_info w = load_staking_acc c w >>= λ loaded. returns (some loaded.1)
