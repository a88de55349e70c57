-- ===== src/Staking/Slash/Funds.antt =====
-- What a slash takes away, in the state that it computes and in the world that it leaves (`Slash` of
-- staking/staking.go, `ClearRewardsOf` of staking/types/types.go).
use smartbch.Base.{
  List, [], add256, arith, be_bytes, if◌then◌else◌, refl, returns, some, sum_by-update_first,
  u256_mod, ℕ, ◌%◌, ◌+◌, ◌-◌, ◌<◌, ◌==◌, ◌∙◌, ◌∷◌, ◌≡◌, ◌≤◌,
}
use smartbch.Staking.Context.{Context}
use smartbch.Staking.Info.{
  PendingReward, StakingInfo, Validator, clear_rewards, get_validator_by_pubkey, has_pubkey,
}
use smartbch.Staking.Slash.{
  incr_all_burnt, set_staked, slash, slash_coins, slash_info, decode_burnt,
}
use smartbch.Staking.State.{
  load_staking_acc, slot_staking_info, staking_contract_address, slot_all_burnt,
}
use smartbch.Staking.Funds.{pending, owed}
use smartbch.Staking.State.Loading.{load-account, load_same, get_storage_at-set_ne}

-- The cleared amount is what the kept entries are less than the entries before.
clear_rewards_sum :
    (epoch addr total : ℕ) (rwds : List PendingReward)
    → let (cleared, rest) = clear_rewards epoch addr total rwds in
      (cleared + pending rest) % u256_mod ≡ (total + pending rwds) % u256_mod
unfolding clear_rewards
clear_rewards_sum epoch addr total [] = refl
clear_rewards_sum epoch addr total (rwd ∷ rwds) = ground (
  arith,
  clear_rewards_sum epoch addr (if rwd.address == addr then add256 total rwd.amount else total)
      rwds,
)

-- Slashing takes at most `amount` of the staked coins, and nothing is lost on the way.
slash_coins_sum :
    (coins amount : ℕ)
    → coins < u256_mod
    → ((slash_coins coins amount).0 + (slash_coins coins amount).1 ≡ coins)
      × ((slash_coins coins amount).1 ≤ amount)
unfolding slash_coins
slash_coins_sum coins amount h = ground arith

-- The state that a slash computes owes less than the state before by exactly the amount that the
-- slash burns, modulo 2 ^ 256, if the validator's stake is a `uint256`.
pub owed-slash_info :
    (info : StakingInfo) (pubkey amount : ℕ) {val : Validator} {total : ℕ} {info' : StakingInfo}
    → get_validator_by_pubkey info pubkey ≡ some val
    → val.staked_coins < u256_mod
    → slash_info info pubkey amount ≡ some (total, info')
    → (owed info' + total) % u256_mod ≡ owed info % u256_mod
unfolding slash_info
owed-slash_info info pubkey amount {val} {total} {info'} found bound e =
    let coins = slash_coins val.staked_coins amount in
    ground (
      arith,
      clear_rewards_sum info.curr_epoch_num val.address 0 info.pending_rewards,
      slash_coins_sum val.staked_coins amount bound,
      sum_by-update_first (λ (v : Validator). v.staked_coins) (has_pubkey pubkey)
          (set_staked coins.0) info.validators {x = val},
    )

module _ (c : Context) (transfer_to_black_hole : c.World → ℕ → ℕ → c.World) where
  open c use {
    World, Account, balance, update_balance, sequence, get_account, get_storage_at,
    get_account-set_storage_at, get_storage_at-set_storage_at, sequence-update_balance,
    set_storage_at,
  }

  burnt_counted :
      (w : World) (acc : Account) (total burnt : ℕ)
      → decode_burnt (get_storage_at w (sequence acc) slot_all_burnt) ≡ returns burnt
      → incr_all_burnt c transfer_to_black_hole w acc total
        ≡ returns
            (set_storage_at w (sequence acc) slot_all_burnt (be_bytes 32 (add256 burnt total)))
  unfolding incr_all_burnt
  burnt_counted w acc total burnt read = rw read refl

  -- The state that a slash computes is lost. Assume of the transfer to the black hole that it leaves
  -- all storage alone, and that it takes an amount that the staking contract has from the contract's
  -- balance. Then a slash of a known validator, where the contract has the computed amount and the
  -- coins burnt so far can be read, burns that amount from the contract's balance and counts it, while
  -- the staking state that is loaded afterwards is the one from before: the validator keeps its stake
  -- and its rewards, and can be slashed for them again.
  pub slash_unsaved :
      ((w : World) (n q s : ℕ)
        → get_storage_at (transfer_to_black_hole w staking_contract_address n) q s
          ≡ get_storage_at w q s)
      → ((w : World) (n : ℕ) (acc : Account)
          → get_account w staking_contract_address ≡ some acc
          → n ≤ balance acc
          → get_account
              (transfer_to_black_hole w staking_contract_address n)
              staking_contract_address
            ≡ some (update_balance acc (balance acc - n)))
      → (w : World) (pubkey amount burnt : ℕ) {acc : Account} {info info' : StakingInfo} {total : ℕ}
      → load_staking_acc c w ≡ returns (acc, info)
      → slash_info info pubkey amount ≡ some (total, info')
      → total ≤ balance acc
      → decode_burnt (get_storage_at w (sequence acc) slot_all_burnt) ≡ returns burnt
      → (w' : World) × (slash c transfer_to_black_hole w pubkey amount ≡ returns (w', some total))
        × (load_staking_acc c w' ≡ returns (update_balance acc (balance acc - total), info))
        × (get_storage_at w' (sequence acc) slot_all_burnt
            ≡ some (be_bytes 32 (add256 burnt total)))
  unfolding slash
  slash_unsaved keeps_storage takes w pubkey amount burnt {acc} {info} {info'} {total} h e le read =
      let u = transfer_to_black_hole w staking_contract_address total in
      let bz = be_bytes 32 (add256 burnt total) in
      let same = keeps_storage w total (sequence acc) slot_all_burnt in
      let counted : incr_all_burnt c transfer_to_black_hole u acc total
          ≡ returns (set_storage_at u (sequence acc) slot_all_burnt bz) =
        burnt_counted u acc total burnt (rw same read) in
      (
        set_storage_at u (sequence acc) slot_all_burnt bz,
        ground (arith, counted),
        load_same c w _ acc _ info h
            (get_account-set_storage_at _ _ _ _ _ ∙ takes w total acc (load-account c w h) le)
            (rw (sequence-update_balance acc (balance acc - total)) (
              get_storage_at-set_ne c _ _ slot_all_burnt _ _ slot_staking_info (omega arith)
              ∙ keeps_storage w total (sequence acc) slot_staking_info)),
        ground (
          arith,
          get_storage_at-set_storage_at u (sequence acc) slot_all_burnt bz (sequence acc)
              slot_all_burnt,
        ),
      )
