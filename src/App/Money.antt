-- ===== src/App/Money.antt =====
-- The money in a commit (`Commit` of app/app.go with staking/staking.go): the switch of the epoch, the
-- reward that is taken from the system account, and its shares.
use smartbch.Base.{
  >>=-elim, Bool-cases, Option-cases, arith, if◌then◌else◌, inl, inr, leb, low_system_balance, refl,
  require, returns, returns-injective, some, u256_mod, ℕ, ◌%◌, ◌+◌, ◌==◌, ◌>>◌, ◌∙◌, ◌≡◌,
}
use smartbch.Staking.Context.{Context}
use smartbch.Staking.Funds.{KeepsFunds, owed}
use smartbch.App.Machine.{Machine, Block}
use smartbch.Staking.Epoch.{MapOrders}
use smartbch.Staking.Info.{StakingInfo}
use smartbch.Staking.State.{load_staking_acc, staking_contract_address, slot_staking_info}
use smartbch.App.Commit.{take_from_system, collect_reward}
use smartbch.App.State.{App}

module _ (c : Context) (m : Machine c) where
  open c use {World, get_account, get_storage_at}
  open m use {get_system_balance, sub_system_acc_balance}

  -- What moeingevm does to the world. `ebp.SubSystemAccBalance` takes the amount from the system account, and leaves the
  -- staking contract and all storage alone.
  pub record SystemLaws : Type 0 where
    pub takes :
        (w w' : World) (amount : ℕ)
        → sub_system_acc_balance w amount ≡ some w'
        → get_system_balance w' + amount ≡ get_system_balance w
    pub leaves_contract :
        (w w' : World) (amount : ℕ)
        → sub_system_acc_balance w amount ≡ some w'
        → get_account w' staking_contract_address ≡ get_account w staking_contract_address
    pub leaves_storage :
        (w w' : World) (amount q s : ℕ)
        → sub_system_acc_balance w amount ≡ some w'
        → get_storage_at w' q s ≡ get_storage_at w q s
    -- The preparation of transactions takes fees from their senders, and the basic information of a
    -- block is kept apart from accounts and storage.
    pub prepare_contract :
        (e : m.Engine) (w : World) (seed price : ℕ)
        → get_account (m.prepare e w seed price).1 staking_contract_address
          ≡ get_account w staking_contract_address
    pub prepare_storage :
        (e : m.Engine) (w : World) (seed price q s : ℕ)
        → get_storage_at (m.prepare e w seed price).1 q s ≡ get_storage_at w q s
    pub info_contract :
        (w : World) (blk : Block)
        → get_account (m.set_curr_block_basic_info w blk) staking_contract_address
          ≡ get_account w staking_contract_address
    pub info_storage :
        (w : World) (blk : Block) (q s : ℕ)
        → get_storage_at (m.set_curr_block_basic_info w blk) q s ≡ get_storage_at w q s

  pub KeepsFunds-trans :
      (acc acc' : c.Account) (info info' : StakingInfo) (w' : World)
      → (c.balance acc' + owed info) % u256_mod ≡ (c.balance acc + owed info') % u256_mod
      → KeepsFunds c acc' info' w'
      → KeepsFunds c acc info w'
  KeepsFunds-trans acc acc' info info' w' e (acc'', info'', loaded', e') =
      (acc'', info'', loaded', omega (arith, e, e'))

module _ (c : Context) (m : Machine c) (o : MapOrders) (transfer_event : ℕ)
    (laws : SystemLaws c m) where
  open c use {World, get_account, get_storage_at}
  open m use {get_system_balance, sub_system_acc_balance}

  pub load_staking_acc-same :
      (w w' : World)
      → get_account w' staking_contract_address ≡ get_account w staking_contract_address
      → ((q s : ℕ) → get_storage_at w' q s ≡ get_storage_at w q s)
      → load_staking_acc c w' ≡ load_staking_acc c w
  unfolding load_staking_acc
  load_staking_acc-same w w' contract storage =
      elim (Option-cases (get_account w staking_contract_address)) [
        | inl absent_contract ↦ ground (arith, contract, absent_contract)
        | inr (acc, found) ↦
            let found' : get_account w' staking_contract_address ≡ some acc = contract ∙ found in
            let stored = storage (c.sequence acc) slot_staking_info in
            rw (found, found', stored) refl
      ]

  take_from_system_lem :
      (w : World) (amount : ℕ) {w' : World}
      → take_from_system c m o transfer_event w amount ≡ returns w'
      → (load_staking_acc c w' ≡ load_staking_acc c w)
        × (get_system_balance w' + amount ≡ get_system_balance w)
  unfolding take_from_system
  take_from_system_lem w amount {w'} e = elim (Bool-cases (amount == 0)) [
    | inl nothing ↦ let same : w ≡ w' = ground arith in rw (← same) (refl, ground arith)
    | inr something ↦ elim (Option-cases (sub_system_acc_balance w amount)) [
      | inl low ↦ absurd (ground arith)
      | inr (w1, taken) ↦
          let same : w1 ≡ w' = ground arith in
          let taken' : sub_system_acc_balance w amount ≡ some w' = rw (← same) taken in
          (
            load_staking_acc-same w w' (laws.leaves_contract w w' amount taken')
                (λ q s. laws.leaves_storage w w' amount q s taken'),
            laws.takes w w' amount taken',
          )
    ]
  ]

  -- What a commit takes from the system account: the refund, where there is a fee, and the reward.
  abbrev pub refund_of : App c m → ℕ
  refund_of app = if app.last_gas.fee == 0 then 0 else app.last_gas.refund

  reward_of : App c m → World → ℕ
  reward_of app w =
      if m.standby_q_len app.tx_engine == 0 then get_system_balance w else app.last_gas.fee

  -- Where collecting the block's reward does not panic, the system account has lost exactly the
  -- refund and the reward, and the staking contract's account and state are what they were.
  pub collect_reward_lem :
      (app : App c m) (w : World) {r : World × ℕ}
      → collect_reward c m o transfer_event app w ≡ returns r
      → (load_staking_acc c r.0 ≡ load_staking_acc c w)
        × (get_system_balance r.0 + r.1 + refund_of app ≡ get_system_balance w)
  unfolding collect_reward reward_of
  collect_reward_lem app w {r} e =
      >>=-elim (take_from_system c m o transfer_event w (refund_of app)) _ e (λ w1 refunded e1.
        let first = take_from_system_lem w (refund_of app) refunded in
        let checked = require (leb app.last_gas.fee (get_system_balance w1)) low_system_balance in
        let taking = take_from_system c m o transfer_event w1 (reward_of app w1) in
        >>=-elim (checked >> taking) _ e1 (λ w2 both e2.
          >>=-elim checked _ both (λ unit enough taken.
            let second = take_from_system_lem w1 (reward_of app w1) taken in
            rw (← returns-injective e2) (second.0 ∙ first.0, omega (arith, first.1, second.1)))))
