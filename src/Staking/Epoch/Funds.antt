-- ===== src/Staking/Epoch/Funds.antt =====
-- An epoch's end pays out what it takes off the books (`SwitchEpoch` of staking/staking.go).
use smartbch.Base.{
  List, Outcome-cases, [], add64, ap, arith, foldl, inl, inr, keep_if, length, map, refl, returns,
  some, sum_by, sum_by-append, sum_by-keep_if, sum_by-map_same, sum_by-perm,
  sum_by-update_last_same, u256_mod, ℕ, ◌%◌, ◌++◌, ◌+◌, ◌∙◌, ◌∷◌, ◌≡◌, ◌≤◌,
}
use smartbch.Staking.Context.{Context}
use smartbch.Staking.Epoch.{
  MapOrders, Nomination, age_info, assign_power, clear_up, end_epoch, mature_rewards, pay_out,
  set_power, update_voting_power, useless_keys, no_reward, refunds, switch_epoch,
}
use smartbch.Staking.Info.{
  StakingInfo, Validator, get_val_map_by_addr, has_pubkey, is_useless, get_active_validators,
  PendingReward,
}
use smartbch.Staking.State.{load_staking_acc, staking_contract_address, save_staking_info}
use smartbch.Staking.Epoch.Payments.{
  pay_out-balance, payments-mature_rewards, staked_at, payments-refunds,
}
use smartbch.Staking.Funds.{pending, staked, KeepsFunds}
use smartbch.Staking.Deletion.Verdicts.{delete_useless_single, useful}
use smartbch.Staking.Epoch.Useless.{find_last_single, keys_single}
use smartbch.Staking.State.Loading.{load-save}
use smartbch.Staking.External.{minimum_staking_amount}

staked-assign_power :
    (vals : List Validator) (n : Nomination) → staked (assign_power vals n) ≡ staked vals
unfolding assign_power
staked-assign_power vals n = ground (
  arith,
  sum_by-update_last_same (λ (val : Validator). val.staked_coins) (has_pubkey n.pubkey)
      (set_power n.nominated_count) vals (λ x. refl),
)

staked-assign_powers :
    (vals : List Validator) (ns : List Nomination)
    → staked (foldl assign_power vals ns) ≡ staked vals
staked-assign_powers vals [] = refl
staked-assign_powers vals (n ∷ ns) =
    staked-assign_powers (assign_power vals n) ns ∙ staked-assign_power vals n

pub update_voting_power_lem :
    (info : StakingInfo) (ns : List Nomination)
    → (staked (update_voting_power info ns).validators ≡ staked info.validators)
      × ((update_voting_power info ns).pending_rewards ≡ info.pending_rewards)
unfolding update_voting_power
update_voting_power_lem info ns = (
  staked-assign_powers (map (set_power 0) info.validators) ns
      ∙ sum_by-map_same _ _ (set_power 0) info.validators (λ x. refl),
  refl,
)

-- The validators that `clearUp` means to delete.
abbrev pub useless_validators : StakingInfo → List Validator
useless_validators info = keep_if (λ val. is_useless info val.address) info.validators

staked_at_single :
    (info : StakingInfo)
    → length (useless_validators info) ≤ 1
    → sum_by (staked_at info) (useless_keys info info.validators) ≡ staked (useless_validators info)
unfolding get_val_map_by_addr
staked_at_single info h =
    rw (keys_single info info.validators h) (go (useless_validators info) refl h)
  where
    go :
        (us : List Validator)
        → useless_validators info ≡ us
        → length us ≤ 1
        → sum_by (staked_at info) (map (λ (val : Validator). val.address) us) ≡ staked us
    go [] e l = refl
    go (x ∷ []) e l = ground (arith, find_last_single (is_useless info) info.validators x e)
    go (x ∷ y ∷ us) e l = absurd (omega arith)

validators-age_info : (info : StakingInfo) → (age_info info).validators ≡ info.validators
unfolding age_info
validators-age_info info = refl

pending_of_none : (epoch : ℕ) (vals : List Validator) → pending (map (no_reward epoch) vals) ≡ 0
pending_of_none epoch [] = refl
pending_of_none epoch (val ∷ vals) = omega (arith, pending_of_none epoch vals)

module _ (c : Context) (o : MapOrders) where
  open c use {
    World, Account, balance, update_balance, get_account, set_account, balance-lt,
    balance-update_balance, get_account-set_account,
  }

  end_epoch-balance :
      (w : World) {acc : Account} {info : StakingInfo} {t : World × Account × StakingInfo}
      → load_staking_acc c w ≡ returns (acc, info)
      → end_epoch c o w ≡ returns t
      → (t.2 ≡ age_info info)
        × ((balance t.1 + pending info.pending_rewards) % u256_mod
            ≡ (balance acc + pending (age_info info).pending_rewards) % u256_mod)
  unfolding end_epoch age_info
  end_epoch-balance w {acc} {info} {t} h e =
      let epoch = add64 info.curr_epoch_num 1 in
      elim (Outcome-cases (mature_rewards info epoch info.pending_rewards [])) [
        | inl (x, bad) ↦ absurd (ground arith)
        | inr (sums, ok) ↦
            let paid = pay_out-balance c o w (balance acc) (o.rewards sums) (balance-lt acc) in
            let result : t ≡ (
              (pay_out c o w (balance acc) (o.rewards sums)).0,
              update_balance acc (pay_out c o w (balance acc) (o.rewards sums)).1,
              age_info info,
            ) =
              ground arith in
            rw (result, balance-update_balance acc _ paid.1)
              (
                refl,
                omega (
                  arith,
                  paid.0,
                  sum_by-perm (λ (e : ℕ × ℕ). e.1) (o.rewards sums) sums (o.rewards-perm sums),
                  payments-mature_rewards info epoch info.pending_rewards [] ok,
                ),
              )
      ]

  clear_up-balance :
      (w : World) (acc : Account) (info : StakingInfo) {t : World × Account × StakingInfo}
      → length (useless_validators info) ≤ 1
      → clear_up c o w acc info ≡ returns t
      → (get_account t.0 staking_contract_address ≡ some t.1)
        × (t.2.pending_rewards ≡ info.pending_rewards)
        × ((balance t.1 + staked info.validators) % u256_mod
            ≡ (balance acc + staked t.2.validators) % u256_mod)
  unfolding clear_up
  clear_up-balance w acc info {t} single e =
      let useless = λ (val : Validator). is_useless info val.address in
      let keys = useless_keys info info.validators in
      let deleted = delete_useless_single useless info.validators single in
      elim (Outcome-cases (refunds info (o.keys keys))) [
        | inl (x, bad) ↦ absurd (ground arith)
        | inr (entries, ok) ↦
            let paid = pay_out-balance c o w (balance acc) entries (balance-lt acc) in
            let acc' = update_balance acc (pay_out c o w (balance acc) entries).1 in
            let result : t ≡ (
              set_account (pay_out c o w (balance acc) entries).0 staking_contract_address acc',
              acc',
              record info { validators = keep_if (useful useless) info.validators },
            ) =
              ground (arith, deleted) in
            rw (result, balance-update_balance acc _ paid.1)
              (
                ground (
                  arith,
                  get_account-set_account (pay_out c o w (balance acc) entries).0
                      staking_contract_address acc' staking_contract_address,
                ),
                refl,
                omega (
                  arith,
                  paid.0,
                  payments-refunds info (o.keys keys) ok,
                  sum_by-perm (staked_at info) (o.keys keys) keys (o.keys-perm keys),
                  staked_at_single info single,
                  sum_by-keep_if (λ (val : Validator). val.staked_coins) useless info.validators,
                ),
              )
      ]

  -- At an epoch's end the contract's money stays in step with what it owes, whatever rewards become
  -- mature and however the votes fall, if at most one validator is useless then: if the staking state
  -- can be loaded and the call does not panic, the balance changes, modulo 2 ^ 256, by as much as the
  -- sum of staked coins and pending rewards.
  pub switch_epoch-KeepsFunds :
      (w : World) (nominations : List Nomination) {acc : Account} {info : StakingInfo}
      {r : World × List Validator}
      → load_staking_acc c w ≡ returns (acc, info)
      → length (useless_validators (update_voting_power (age_info info) nominations)) ≤ 1
      → switch_epoch c o w nominations ≡ returns r
      → KeepsFunds c acc info r.0
  unfolding switch_epoch
  switch_epoch-KeepsFunds w nominations {acc} {info} {r} h single e =
      elim (Outcome-cases (end_epoch c o w)) [
        | inl (x, bad) ↦ absurd (ground arith)
        | inr (ended, ended_ok) ↦
            let first = end_epoch-balance w h ended_ok in
            let voted = update_voting_power ended.2 nominations in
            let votes = update_voting_power_lem ended.2 nominations in
            elim (Outcome-cases (clear_up c o ended.0 ended.1 voted)) [
              | inl (x, bad) ↦ absurd (ground arith)
              | inr (cleared, cleared_ok) ↦
                  let second =
                    clear_up-balance ended.0 ended.1 voted (rw (first.0) single) cleared_ok in
                  let active = get_active_validators cleared.2 minimum_staking_amount in
                  let info' : StakingInfo = record (cleared.2) {
                    pending_rewards =
                        cleared.2.pending_rewards
                        ++ map (no_reward cleared.2.curr_epoch_num) active;
                  } in
                  let result : r.0 ≡ save_staking_info c cleared.0 cleared.1 info' = ground arith in
                  rw result (
                    cleared.1,
                    info',
                    load-save c cleared.0 cleared.1 info' second.0,
                    omega (
                      arith,
                      first.1,
                      second.2,
                      votes.0,
                      ap pending (
                          second.1 ∙ votes.1 ∙ ap (λ (i : StakingInfo). i.pending_rewards) first.0),
                      ap (λ (i : StakingInfo). staked i.validators) first.0,
                      ap staked (validators-age_info info),
                      sum_by-append (λ (pr : PendingReward). pr.amount) cleared.2.pending_rewards
                          (map (no_reward cleared.2.curr_epoch_num) active),
                      pending_of_none cleared.2.curr_epoch_num active,
                    ),
                  )
            ]
      ]
