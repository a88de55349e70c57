-- ===== src/Staking/Epoch.antt =====
-- staking/staking.go: `SwitchEpoch` with `endEpoch`, `updateVotingPower` and `clearUp`. Go ranges over
-- a map in any order; the orders that a run takes are the parameter `MapOrders`.
pub mod Useless
pub mod Payments
pub mod Funds
use smartbch.Base.{
  Bool, List, Outcome, Perm, [], add256, add64, any, deref, find_last, foldl, if◌then◌else◌,
  keep_if, leb, leb_i64, map, nil_dereference, none, not, returns, some, sub256, sub64, update_last,
  ℕ, ◌&&◌, ◌++◌, ◌==◌, ◌>>=◌, ◌∷◌,
}
use smartbch.Staking.Context.{Context}
use smartbch.Staking.Info.{
  PendingReward, StakingInfo, Validator, get_active_validators, get_val_map_by_addr, has_address,
  has_pubkey, is_useless,
}
use smartbch.Staking.Deletion.{delete_useless}
use smartbch.Staking.State.{load_staking_acc, save_staking_info, staking_contract_address}
use smartbch.Staking.External.{minimum_staking_amount}

abbrev pub epoch_count_before_reward_mature : ℕ
epoch_count_before_reward_mature = 1

-- A nominated public key with the count of its nominations.
pub record Nomination : Type 0 where
  pub pubkey : ℕ
  pub nominated_count : ℕ

pub record MapOrders : Type 0 where
  pub rewards : List (ℕ × ℕ) → List (ℕ × ℕ)
  pub keys : List ℕ → List ℕ
  pub rewards-perm : (l : List (ℕ × ℕ)) → Perm (rewards l) l
  pub keys-perm : (l : List ℕ) → Perm (keys l) l

-- A reward of the current epoch, or of the one before, stays pending. `epoch` is the new number.
unfoldable pub is_immature : ℕ → PendingReward → Bool
is_immature epoch pr = leb_i64 (sub64 epoch epoch_count_before_reward_mature) pr.epoch_num

-- `rewardMap[addr].Add(rewardMap[addr], amount)`, after the entry is made where there is none.
unfoldable pub add_reward : ℕ → ℕ → List (ℕ × ℕ) → List (ℕ × ℕ)
add_reward addr amount [] = (addr, add256 0 amount) ∷ []
add_reward addr amount ((a, n) ∷ m) =
    if a == addr then (a, add256 n amount) ∷ m else (a, n) ∷ add_reward addr amount m

-- The loop that sums the mature rewards up by their receivers.
unfoldable pub mature_rewards :
    StakingInfo → ℕ → List PendingReward → List (ℕ × ℕ) → Outcome (List (ℕ × ℕ))
mature_rewards info epoch [] m = returns m
mature_rewards info epoch (pr ∷ prs) m =
    let skip = mature_rewards info epoch prs m in
    let take_it = deref (get_val_map_by_addr info pr.address) nil_dereference >>= λ val.
    mature_rewards info epoch prs (add_reward val.reward_to pr.amount m) in
    if is_immature epoch pr then skip else take_it

abbrev pub set_power : ℕ → Validator → Validator
set_power power val = record val { voting_power = power }

-- One assignment of `updateVotingPower`.
unfoldable pub assign_power : List Validator → Nomination → List Validator
assign_power vals n = elim (find_last (has_pubkey n.pubkey) vals) [
  | none ↦ vals
  | some val ↦
      if not val.is_retiring && leb minimum_staking_amount val.staked_coins
      then update_last (has_pubkey n.pubkey) (set_power n.nominated_count) vals
      else vals
]

unfoldable pub update_voting_power : StakingInfo → List Nomination → StakingInfo
unfolding assign_power
update_voting_power info nominations = record info {
  validators = foldl assign_power (map (set_power 0) info.validators) nominations;
}

-- The keys of the map of useless validators, each once.
unfoldable pub useless_keys : StakingInfo → List Validator → List ℕ
useless_keys info [] = []
useless_keys info (val ∷ vals) =
    if is_useless info val.address && not (any (has_address val.address) vals)
    then val.address ∷ useless_keys info vals
    else useless_keys info vals

-- The stakes to pay back: to whom, and how much.
unfoldable pub refunds : StakingInfo → List ℕ → Outcome (List (ℕ × ℕ))
refunds info [] = returns []
refunds info (addr ∷ addrs) = do
  val ← deref (get_val_map_by_addr info addr) nil_dereference
  rest ← refunds info addrs
  returns ((val.reward_to, val.staked_coins) ∷ rest)

abbrev pub no_reward : ℕ → Validator → PendingReward
no_reward epoch val = record { address = val.address; epoch_num = epoch; amount = 0 }

-- The state with the next epoch's number and without the mature rewards.
unfoldable pub age_info : StakingInfo → StakingInfo
age_info info =
    let epoch = add64 info.curr_epoch_num 1 in
    record info {
      curr_epoch_num = epoch;
      pending_rewards = keep_if (is_immature epoch) info.pending_rewards;
    }

module _ (c : Context) (o : MapOrders) where
  open c use {World, Account, zero_account, balance, update_balance, get_account, set_account}

  -- Pays each entry to its account, which is made where it is missing, out of a balance.
  unfoldable pub pay_out : World → ℕ → List (ℕ × ℕ) → World × ℕ
  pay_out w b [] = (w, b)
  pay_out w b ((addr, coins) ∷ entries) =
      let acc : Account = elim (get_account w addr) [ none ↦ zero_account | some a ↦ a ] in
      pay_out (set_account w addr (update_balance acc (add256 (balance acc) coins)))
        (sub256 b coins) entries

  unfoldable pub end_epoch : World → Outcome (World × Account × StakingInfo)
  end_epoch w = do
    loaded ← load_staking_acc c w
    let info = loaded.1
    sums ← mature_rewards info (add64 info.curr_epoch_num 1) info.pending_rewards []
    let paid = pay_out w (balance loaded.0) (o.rewards sums)
    returns (paid.0, update_balance loaded.0 paid.1, age_info info)

  unfoldable pub clear_up : World → Account → StakingInfo → Outcome (World × Account × StakingInfo)
  clear_up w acc info = do
    entries ← refunds info (o.keys (useless_keys info info.validators))
    let paid = pay_out w (balance acc) entries
    vals ← delete_useless (λ val. is_useless info val.address) info.validators
    let acc' = update_balance acc paid.1
    returns
        (set_account paid.0 staking_contract_address acc', acc', record info { validators = vals })

  -- `nominations` are the values of the epoch's map.
  unfoldable pub switch_epoch : World → List Nomination → Outcome (World × List Validator)
  switch_epoch w nominations = do
    ended ← end_epoch w
    cleared ← clear_up ended.0 ended.1 (update_voting_power ended.2 nominations)
    let info = cleared.2
    let active = get_active_validators info minimum_staking_amount
    returns (
      save_staking_info c cleared.0 cleared.1 (record info {
        pending_rewards = info.pending_rewards ++ map (no_reward info.curr_epoch_num) active;
      }),
      active,
    )
