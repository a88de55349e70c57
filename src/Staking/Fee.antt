-- ===== src/Staking/Fee.antt =====
-- staking/staking.go: `DistributeFee`, which shares the gas fee of a block among its voters.
pub mod Funds
use smartbch.Base.{
  List, Option, Outcome, [], add256, add64, any, deref, foldl, if◌then◌else◌, mul256, mul64,
  nil_dereference, none, returns, some, sub256, update_last, ℕ, ◌++◌, ◌/◌, ◌==◌, ◌>>=◌, ◌∷◌,
}
use smartbch.Staking.Context.{Context}
use smartbch.Staking.Info.{
  PendingReward, StakingInfo, get_active_validators, get_val_map_by_pubkey, is_current_of,
}
use smartbch.Staking.State.{load_staking_acc, save_staking_info, staking_contract_address}
use smartbch.Staking.External.{minimum_staking_amount}

abbrev pub base_proposer_percentage : ℕ
base_proposer_percentage = 15

abbrev pub extra_proposer_percentage : ℕ
extra_proposer_percentage = 15

-- The sum of the powers of the active validators, an `int64`.
unfoldable pub total_voting_power : StakingInfo → ℕ
total_voting_power info =
    foldl (λ acc val. add64 acc val.voting_power) 0
      (get_active_validators info minimum_staking_amount)

-- The sum of the voters' powers, from `acc` on. A voter that is no validator is a nil pointer.
unfoldable pub voted_power : StakingInfo → ℕ → List ℕ → Outcome ℕ
voted_power info acc [] = returns acc
voted_power info acc (voter ∷ voters) =
    deref (get_val_map_by_pubkey info voter) nil_dereference >>= λ val.
    voted_power info (add64 acc val.voting_power) voters

-- The proposer's two fees, and what is left for the voters.
pub record Shares : Type 0 where
  pub base_fee : ℕ
  pub extra_fee : ℕ
  pub voters_fee : ℕ

unfoldable pub split_fee : ℕ → ℕ → ℕ → Shares
split_fee fee voted total = record {
  base_fee = base;
  extra_fee = extra;
  voters_fee = sub256 rest extra;
}
  where
    base : ℕ
    base = mul256 fee base_proposer_percentage / 100

    rest : ℕ
    rest = sub256 fee base

    extra : ℕ
    extra = mul256 (mul256 rest extra_proposer_percentage) voted / mul64 100 total

-- The slice of pending rewards as it was loaded, through whose entries the map points, and the
-- entries that are appended meanwhile, of which the map does not know.
pub record Ledger : Type 0 where
  pub loaded : List PendingReward
  pub appended : List PendingReward

abbrev pub change_amount : (ℕ → ℕ) → PendingReward → PendingReward
change_amount f pr = record pr { amount = f pr.amount }

unfoldable pub credit : ℕ → ℕ → (ℕ → ℕ) → Ledger → Ledger
credit epoch addr f l =
    if any (is_current_of epoch addr) l.loaded
    then record l { loaded = update_last (is_current_of epoch addr) (change_amount f) l.loaded }
    else record l {
      appended = l.appended ++ record { address = addr; epoch_num = epoch; amount = f 0 } ∷ [];
    }

-- One round of the loop over the voters; the state is the ledger and the remaining fee.
unfoldable pub reward_voter : StakingInfo → ℕ → ℕ → ℕ → ℕ → Ledger × ℕ → Outcome (Ledger × ℕ)
reward_voter info proposer fee voted voter (l, remained) =
    if proposer == voter then returns (l, remained) else do
      val ← deref (get_val_map_by_pubkey info voter) nil_dereference
      let coins = mul256 fee val.voting_power / voted
      returns (
        credit info.curr_epoch_num val.address (λ amount. add256 amount coins) l,
        sub256 remained coins,
      )

unfoldable pub reward_voters : StakingInfo → ℕ → ℕ → ℕ → List ℕ → Ledger × ℕ → Outcome (Ledger × ℕ)
reward_voters info proposer fee voted [] s = returns s
reward_voters info proposer fee voted (voter ∷ voters) s =
    reward_voter info proposer fee voted voter s >>= reward_voters info proposer fee voted voters

-- What the proposer gets on top of an amount.
abbrev pub proposer_amount : Shares → ℕ → ℕ → ℕ
proposer_amount shares remained amount =
    add256 (add256 (add256 amount shares.base_fee) shares.extra_fee) remained

-- The new pending rewards.
unfoldable pub share_fee : StakingInfo → ℕ → ℕ → List ℕ → Outcome StakingInfo
share_fee info fee proposer voters = do
  voted ← voted_power info 0 voters
  let shares = split_fee fee voted (total_voting_power info)
  s ←
      reward_voters info proposer shares.voters_fee voted voters
        (record { loaded = info.pending_rewards; appended = [] }, shares.voters_fee)
  val ← deref (get_val_map_by_pubkey info proposer) nil_dereference
  let l = credit info.curr_epoch_num val.address (proposer_amount shares s.1) s.0
  returns (record info { pending_rewards = l.loaded ++ l.appended })

module _ (c : Context) where
  open c use {World, balance, update_balance, set_account}

  -- The second component is the global `readonlyStakingInfo`. A nil fee is `none`.
  unfoldable pub distribute_fee :
      World → Option StakingInfo → Option ℕ → ℕ → List ℕ → Outcome (World × Option StakingInfo)
  distribute_fee w readonly none proposer voters = returns (w, readonly)
  distribute_fee w readonly (some fee) proposer voters = do
    state ← load_staking_acc c w
    let acc = update_balance state.0 (add256 (balance state.0) fee)
    info ← share_fee state.1 fee proposer voters
    returns (save_staking_info c (set_account w staking_contract_address acc) acc info, some info)
