-- ===== src/Staking/External/Funds.antt =====
-- Creating, editing and retiring a validator moves the sender's stake to the staking contract, which
-- then owes it (`externalOp` of staking/staking.go).
use smartbch.Base.{
  Bool, Bool-cases, List, Option-cases, [], add256, arith, false, find_first, if◌then◌else◌, inl,
  inr, ltb, refl, returns, some, sum_by-append, true, u256_mod, update_first, ℕ, ◌%◌, ◌+◌, ◌==◌,
  ◌∙◌, ◌∷◌, ◌≡◌,
}
use smartbch.Staking.Info.{
  StakingInfo, Validator, add_validator, has_address, get_validator_by_addr, new_validator,
}
use smartbch.Staking.Funds.{owed, staked, KeepsFunds}
use smartbch.Staking.External.{
  TxToRun, OpArgs, accepted, edit_validator, update_info, settle, Checked, Receipt, external_op,
  pay_stake, refused, parse_args, run_op,
}
use smartbch.Staking.Context.{Context}
use smartbch.Staking.State.Loading.{load-account, load_stored}
use smartbch.Staking.State.{
  load_staking_acc, save_staking_info, slot_staking_info, staking_contract_address,
}

staked-edit_validator :
    (args : OpArgs) (coins : ℕ) (retire : Bool) (p : Validator → Bool) (vals : List Validator)
    {val : Validator}
    → find_first p vals ≡ some val
    → staked (update_first p (edit_validator args coins retire) vals) % u256_mod
      ≡ (staked vals + coins) % u256_mod
unfolding edit_validator
staked-edit_validator args coins retire p [] h = cc
staked-edit_validator args coins retire p (v ∷ vals) {val} h =
    ground (arith, staked-edit_validator args coins retire p vals {val = val})

-- A state that is accepted owes the new stake on top.
owed-update_info :
    (info : StakingInfo) (tx : TxToRun) (args : OpArgs) (create retire : Bool) {info' : StakingInfo}
    → update_info info tx args create retire ≡ accepted info'
    → owed info' % u256_mod ≡ (owed info + tx.value) % u256_mod
unfolding update_info add_validator get_validator_by_addr
owed-update_info info tx args true retire h = ground (
  arith,
  sum_by-append (λ (val : Validator). val.staked_coins) info.validators
      (new_validator tx.from args.pubkey args.intro tx.value args.reward_to ∷ []),
)
owed-update_info info tx args false retire h =
    elim (Option-cases (get_validator_by_addr info tx.from)) [
      | inl e ↦ ground arith
      | inr (val, e) ↦ ground (
        arith,
        staked-edit_validator args tx.value retire (has_address tx.from) info.validators
            {val = val},
      )
    ]

module _ (c : Context) where
  open c use {
    World, Account, balance, update_balance, sequence, get_account, set_account, get_storage_at,
    marshal_info, balance-lt, balance-update_balance, sequence-update_balance,
    get_account-set_account, get_account-set_storage_at, get_storage_at-set_account,
    get_storage_at-set_storage_at,
  }

  -- The staking contract's account behind a payment of `coins`.
  abbrev paid : Account → ℕ → Account
  paid acc coins = if coins == 0 then acc else update_balance acc (add256 (balance acc) coins)

  sequence-paid : (acc : Account) (coins : ℕ) → sequence (paid acc coins) ≡ sequence acc
  sequence-paid acc coins = ground (arith, sequence-update_balance acc (add256 (balance acc) coins))

  balance-paid :
      (acc : Account) (coins : ℕ)
      → balance (paid acc coins) % u256_mod ≡ (balance acc + coins) % u256_mod
  balance-paid acc coins =
      ground (arith, balance-update_balance acc (add256 (balance acc) coins) (omega arith))

  get_account-pay_stake :
      (w : World) (from coins : ℕ) (sender acc : Account)
      → get_account w staking_contract_address ≡ some acc
      → get_account (pay_stake c w from sender acc coins) staking_contract_address
        ≡ some (paid acc coins)
  unfolding pay_stake
  get_account-pay_stake w from coins sender acc h = elim (Bool-cases (coins == 0)) [
    | inl e ↦ rw e h
    | inr e ↦ rw e (get_account-set_account _ _ _ _)
  ]

  get_storage_at-pay_stake :
      (w : World) (from coins : ℕ) (sender acc : Account) (q s : ℕ)
      → get_storage_at (pay_stake c w from sender acc coins) q s ≡ get_storage_at w q s
  unfolding pay_stake
  get_storage_at-pay_stake w from coins sender acc q s = elim (Bool-cases (coins == 0)) [
    | inl e ↦ rw e
    | inr e ↦ rw e (simp get_storage_at-set_account)
  ]

  get_storage_at-save_self :
      (w : World) (acc : Account) (info : StakingInfo)
      → get_storage_at (save_staking_info c w acc info) (sequence acc) slot_staking_info
        ≡ some (marshal_info info)
  unfolding save_staking_info
  get_storage_at-save_self w acc info = ground (
    arith,
    get_storage_at-set_storage_at w (sequence acc) slot_staking_info (marshal_info info)
        (sequence acc) slot_staking_info,
  )

  -- The state that `settle` saves is the one that a later load finds, beside the paid stake.
  load-settle :
      (w : World) (tx : TxToRun) (sender acc : Account) {info : StakingInfo} (info' : StakingInfo)
      → load_staking_acc c w ≡ returns (acc, info)
      → load_staking_acc c (settle c w tx sender acc (accepted info')).0
        ≡ returns (paid acc tx.value, info')
  unfolding settle
  load-settle w tx sender acc info' h =
      load_stored c _ _ info'
        (get_account-pay_stake _ tx.from tx.value sender acc
          (get_account-set_storage_at _ _ _ _ _ ∙ load-account c w h))
        (rw (sequence-paid acc tx.value) (
          get_storage_at-pay_stake _ tx.from tx.value sender acc _ _
          ∙ get_storage_at-save_self w acc info'))

  settle-KeepsFunds :
      (w : World) (tx : TxToRun) (args : OpArgs) (create retire : Bool) (sender acc : Account)
      (info : StakingInfo) (r : Checked StakingInfo)
      → update_info info tx args create retire ≡ r
      → load_staking_acc c w ≡ returns (acc, info)
      → KeepsFunds c acc info (settle c w tx sender acc r).0
  settle-KeepsFunds w tx args create retire sender acc info (refused e) u h =
      unfold settle in (acc, info, h, refl)
  settle-KeepsFunds w tx args create retire sender acc info (accepted info') u h = (
    paid acc tx.value,
    info',
    load-settle w tx sender acc info' h,
    omega (arith, balance-paid acc tx.value, owed-update_info info tx args create retire u),
  )

  run_op-KeepsFunds :
      (w : World) (tx : TxToRun) (args : OpArgs) (create retire : Bool) (sender acc : Account)
      (info : StakingInfo) (r : World × Receipt)
      → load_staking_acc c w ≡ returns (acc, info)
      → run_op c w tx args create retire sender ≡ returns r
      → KeepsFunds c acc info r.0
  unfolding run_op
  run_op-KeepsFunds w tx args create retire sender acc info r h e =
      elim (Bool-cases (ltb (balance sender) tx.value)) [
        | inl poor ↦ let same : r.0 ≡ w = ground arith in rw same (acc, info, h, refl)
        | inr rich ↦
            let done : r.0 ≡ (settle c w tx sender acc (update_info info tx args create retire)).0 =
              ground arith in
            rw done (settle-KeepsFunds w tx args create retire sender acc info _ refl h)
      ]

  -- createValidator, editValidator and retire keep the contract's money in step with what it owes,
  -- on every branch: if the staking state can be loaded and the call does not panic, the state can
  -- be loaded afterwards, and the balance has changed, modulo 2 ^ 256, by as much as the sum of
  -- staked coins and pending rewards has.
  pub external_op-KeepsFunds :
      (w : World) (tx : TxToRun) (create retire : Bool) {acc : Account} {info : StakingInfo}
      {w' : World} {receipt : Receipt}
      → load_staking_acc c w ≡ returns (acc, info)
      → external_op c w tx create retire ≡ returns (w', receipt)
      → KeepsFunds c acc info w'
  unfolding external_op
  external_op-KeepsFunds w tx create retire {acc} {info} {w'} {receipt} h e =
      elim (Option-cases (parse_args tx.call_data create retire)) [
        | inl bad ↦ let same : w' ≡ w = ground arith in rw same (acc, info, h, refl)
        | inr (args, good) ↦ elim (Option-cases (get_account w tx.from)) [
          | inl missing ↦ absurd (ground arith)
          | inr (sender, found) ↦
              run_op-KeepsFunds w tx args create retire sender acc info (w', receipt) h
                (ground arith)
        ]
      ]
