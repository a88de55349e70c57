-- ===== src/Staking/Epoch/Payments.antt =====
-- The sums that `endEpoch` and `clearUp` pay out (staking/staking.go).
use smartbch.Base.{
  Bool-cases, List, Option-cases, Outcome-cases, [], add256, arith, inl, inr, keep_if, none, refl,
  returns, some, sub256, sum_by, u256_mod, ℕ, ◌%◌, ◌+◌, ◌<◌, ◌∙◌, ◌∷◌, ◌≡◌,
}
use smartbch.Staking.Context.{Context}
use smartbch.Staking.Epoch.{MapOrders, add_reward, is_immature, mature_rewards, pay_out, refunds}
use smartbch.Staking.Info.{PendingReward, StakingInfo, get_val_map_by_addr}
use smartbch.Staking.Funds.{pending}

-- The coins of a list of payments.
abbrev pub payments : List (ℕ × ℕ) → ℕ
payments = sum_by (λ e. e.1)

payments-add_reward :
    (addr amount : ℕ) (m : List (ℕ × ℕ))
    → payments (add_reward addr amount m) % u256_mod ≡ (payments m + amount) % u256_mod
unfolding add_reward
payments-add_reward addr amount [] = omega arith
payments-add_reward addr amount ((a, n) ∷ m) = ground (arith, payments-add_reward addr amount m)

-- What becomes mature and what stays pending make up what was pending.
pub payments-mature_rewards :
    (info : StakingInfo) (epoch : ℕ) (prs : List PendingReward) (m : List (ℕ × ℕ))
    {m' : List (ℕ × ℕ)}
    → mature_rewards info epoch prs m ≡ returns m'
    → (payments m' + pending (keep_if (is_immature epoch) prs)) % u256_mod
      ≡ (payments m + pending prs) % u256_mod
unfolding mature_rewards
payments-mature_rewards info epoch [] m h = ground arith
payments-mature_rewards info epoch (pr ∷ prs) m {m'} h = elim (Bool-cases (is_immature epoch pr)) [
  | inl early ↦ ground (arith, payments-mature_rewards info epoch prs m {m' = m'} (ground arith))
  | inr mature ↦ elim (Option-cases (get_val_map_by_addr info pr.address)) [
    | inl missing ↦ absurd (ground arith)
    | inr (val, found) ↦ ground (
      arith,
      payments-add_reward val.reward_to pr.amount m,
      payments-mature_rewards info epoch prs (add_reward val.reward_to pr.amount m) {m' = m'}
          (ground arith),
    )
  ]
]

-- The stake that the map of addresses has for a key.
abbrev pub staked_at : StakingInfo → ℕ → ℕ
staked_at info addr = elim (get_val_map_by_addr info addr) [
  | none ↦ 0
  | some val ↦ val.staked_coins
]

pub payments-refunds :
    (info : StakingInfo) (addrs : List ℕ) {entries : List (ℕ × ℕ)}
    → refunds info addrs ≡ returns entries
    → payments entries ≡ sum_by (staked_at info) addrs
unfolding refunds
payments-refunds info [] h = ground arith
payments-refunds info (addr ∷ addrs) {entries} h =
    elim (Option-cases (get_val_map_by_addr info addr)) [
      | inl missing ↦ absurd (ground arith)
      | inr (val, found) ↦ elim (Outcome-cases (refunds info addrs)) [
        | inl (e, bad) ↦ absurd (ground arith)
        | inr (rest, ok) ↦ ground (arith, payments-refunds info addrs ok)
      ]
    ]

module _ (c : Context) (o : MapOrders) where
  open c use {
    World, Account, zero_account, balance, update_balance, get_account, set_account, get_storage_at,
    get_storage_at-set_account,
  }

  -- The balance that the payments are made from falls by their sum, and stays a `uint256`.
  pub pay_out-balance :
      (w : World) (b : ℕ) (entries : List (ℕ × ℕ))
      → b < u256_mod
      → (((pay_out c o w b entries).1 + payments entries) % u256_mod ≡ b % u256_mod)
        × ((pay_out c o w b entries).1 < u256_mod)
  unfolding pay_out
  pay_out-balance w b [] h = (omega arith, h)
  pay_out-balance w b ((addr, coins) ∷ entries) h =
      let acc : Account = elim (get_account w addr) [ none ↦ zero_account | some a ↦ a ] in
      let next =
        pay_out-balance (set_account w addr (update_balance acc (add256 (balance acc) coins)))
          (sub256 b coins) entries (omega arith) in
      (omega arith, next.1)

  pub pay_out-storage :
      (w : World) (b : ℕ) (entries : List (ℕ × ℕ)) (q s : ℕ)
      → get_storage_at (pay_out c o w b entries).0 q s ≡ get_storage_at w q s
  unfolding pay_out
  pay_out-storage w b [] q s = refl
  pay_out-storage w b ((addr, coins) ∷ entries) q s =
      let acc : Account = elim (get_account w addr) [ none ↦ zero_account | some a ↦ a ] in
      pay_out-storage (set_account w addr (update_balance acc (add256 (balance acc) coins)))
        (sub256 b coins) entries q s
      ∙ get_storage_at-set_account w addr _ q s
