-- ===== src/Staking/Funds.antt =====
-- The money that the staking contract holds against the money that it owes (staking/staking.go and
-- staking/types/types.go): staked coins and pending rewards. The amounts are `uint256`s, so that
-- what is kept is kept modulo 2 ^ 256.
use smartbch.Base.{List, returns, sum_by, u256_mod, ℕ, ◌%◌, ◌+◌, ◌≡◌}
use smartbch.Staking.Info.{StakingInfo, Validator, PendingReward}
use smartbch.Staking.Context.{Context}
use smartbch.Staking.State.{load_staking_acc}

abbrev pub staked : List Validator → ℕ
staked = sum_by (λ val. val.staked_coins)

abbrev pub pending : List PendingReward → ℕ
pending = sum_by (λ pr. pr.amount)

-- What the contract owes to the validators and to the receivers of rewards.
abbrev pub owed : StakingInfo → ℕ
owed info = staked info.validators + pending info.pending_rewards

-- In the world `w'` the staking state is there, and the contract's balance has changed by as much
-- as what it owes since its account was `acc` and its state `info`.
abbrev pub KeepsFunds : (c : Context) → c.Account → StakingInfo → c.World → Type 0
KeepsFunds c acc info w' =
    (acc' : c.Account) × (info' : StakingInfo) × (load_staking_acc c w' ≡ returns (acc', info'))
    × ((c.balance acc' + owed info) % u256_mod ≡ (c.balance acc + owed info') % u256_mod)
