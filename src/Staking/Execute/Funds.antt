-- ===== src/Staking/Execute/Funds.antt =====
-- No call of the staking contract brings its money out of step with what it owes (`Execute` of
-- staking/staking.go).
use smartbch.Base.{
  Bool, Bool-cases, Outcome-cases, arith, be_bytes, be_nat, false, inl, inr, length, ltb, refl,
  returns, take, true, ℕ, ◌==◌, ◌∙◌, ◌≡◌,
}
use smartbch.Staking.External.{Checked, Receipt, TxToRun, accepted, refused}
use smartbch.Staking.Context.{Context}
use smartbch.Staking.Funds.{KeepsFunds}
use smartbch.Staking.Info.{StakingInfo}
use smartbch.Staking.GasPrice.{
  check_price, handle_min_gas_price, is_operator, stepped_price, write_price,
}
use smartbch.Staking.Execute.{
  dispatch, execute, selector_create_validator, selector_decrease_min_gas_price,
  selector_edit_validator, selector_increase_min_gas_price, selector_retire,
}
use smartbch.Staking.External.Funds.{external_op-KeepsFunds}
use smartbch.Staking.State.Loading.{get_storage_at-set_ne, load-account, load_same}
use smartbch.Staking.State.{
  load_min_gas_price, load_staking_acc, save_min_gas_price, slot_min_gas_price, slot_staking_info,
  slot_last_min_gas_price,
}

module _ (c : Context) where
  open c use {
    World, Account, sequence, get_account, get_storage_at, get_account-set_storage_at,
    get_storage_at-set_storage_at,
  }

  -- Writing a gas price leaves the staking state.
  pub load-save_min_gas_price_same :
      (w : World) (p : ℕ) (is_last : Bool) {w' : World} {acc : Account} {info : StakingInfo}
      → load_staking_acc c w ≡ returns (acc, info)
      → save_min_gas_price c w p is_last ≡ returns w'
      → load_staking_acc c w' ≡ returns (acc, info)
  unfolding save_min_gas_price
  load-save_min_gas_price_same w p false {w'} {acc} {info} h e =
      let found = load-account c w h in
      let result : w' ≡ c.set_storage_at w (sequence acc) slot_min_gas_price (be_bytes 8 p) =
        ground arith in
      rw result (
        load_same c w _ acc acc info h (get_account-set_storage_at _ _ _ _ _ ∙ found)
          (get_storage_at-set_ne c _ _ slot_min_gas_price _ _ slot_staking_info (omega arith)))
  load-save_min_gas_price_same w p true {w'} {acc} {info} h e =
      let found = load-account c w h in
      let result : w' ≡ c.set_storage_at w (sequence acc) slot_last_min_gas_price (be_bytes 8 p) =
        ground arith in
      rw result (
        load_same c w _ acc acc info h (get_account-set_storage_at _ _ _ _ _ ∙ found)
          (get_storage_at-set_ne c _ _ slot_last_min_gas_price _ _ slot_staking_info (omega arith)))

  write_price-KeepsFunds :
      (w : World) (checked : Checked ℕ) {acc : Account} {info : StakingInfo} {r : World × Receipt}
      → load_staking_acc c w ≡ returns (acc, info)
      → write_price c w checked ≡ returns r
      → KeepsFunds c acc info r.0
  unfolding write_price
  write_price-KeepsFunds w (refused x) {acc} {info} {r} h e =
      let same : r.0 ≡ w = ground arith in rw same (acc, info, h, refl)
  write_price-KeepsFunds w (accepted p) {acc} {info} {r} h e =
      elim (Outcome-cases (save_min_gas_price c w p false)) [
        | inl (x, bad) ↦ absurd (ground arith)
        | inr (w', saved) ↦
            let same : r.0 ≡ w' = ground arith in
            rw same (acc, info, load-save_min_gas_price_same w p false h saved, refl)
      ]

  handle_min_gas_price-KeepsFunds :
      (w : World) (sender : ℕ) (is_increase : Bool) {acc : Account} {info : StakingInfo}
      {r : World × Receipt}
      → load_staking_acc c w ≡ returns (acc, info)
      → handle_min_gas_price c w sender is_increase ≡ returns r
      → KeepsFunds c acc info r.0
  unfolding handle_min_gas_price
  handle_min_gas_price-KeepsFunds w sender is_increase {acc} {info} {r} h e =
      elim (Outcome-cases (load_min_gas_price c w false)) [
        | inl (x, bad) ↦ absurd (ground arith)
        | inr (mgp, read) ↦ elim (Outcome-cases (load_min_gas_price c w true)) [
          | inl (x, bad) ↦ absurd (ground arith)
          | inr (last, read_last) ↦ elim (Bool-cases (is_operator info sender)) [
            | inl op ↦
                write_price-KeepsFunds w (check_price (stepped_price mgp is_increase) last) {r = r}
                  h (ground arith)
            | inr stranger ↦ let same : r.0 ≡ w = ground arith in rw same (acc, info, h, refl)
          ]
        ]
      ]

  dispatch-KeepsFunds :
      (w : World) (tx : TxToRun) (selector : ℕ) {acc : Account} {info : StakingInfo}
      {r : World × Receipt}
      → load_staking_acc c w ≡ returns (acc, info)
      → dispatch c w tx selector ≡ returns r
      → KeepsFunds c acc info r.0
  unfolding dispatch
  dispatch-KeepsFunds w tx selector {acc} {info} {r} h e =
      elim (Bool-cases (selector == selector_create_validator)) [
        | inl e1 ↦ external_op-KeepsFunds c w tx true false {receipt = r.1} h (ground arith)
        | inr n1 ↦ elim (Bool-cases (selector == selector_edit_validator)) [
          | inl e2 ↦ external_op-KeepsFunds c w tx false false {receipt = r.1} h (ground arith)
          | inr n2 ↦ elim (Bool-cases (selector == selector_retire)) [
            | inl e3 ↦ external_op-KeepsFunds c w tx false true {receipt = r.1} h (ground arith)
            | inr n3 ↦ elim (Bool-cases (selector == selector_increase_min_gas_price)) [
              | inl e4 ↦ handle_min_gas_price-KeepsFunds w tx.from true {r = r} h (ground arith)
              | inr n4 ↦ elim (Bool-cases (selector == selector_decrease_min_gas_price)) [
                | inl e5 ↦ handle_min_gas_price-KeepsFunds w tx.from false {r = r} h (ground arith)
                | inr n5 ↦ let same : r.0 ≡ w = ground arith in rw same (acc, info, h, refl)
              ]
            ]
          ]
        ]
      ]

  -- Whatever a transaction calls on the staking contract, with whatever data, value and outcome
  -- short of a panic: if the staking state can be loaded before, it can be loaded afterwards, and
  -- the contract's balance has changed, modulo 2 ^ 256, by as much as the sum of the staked coins
  -- and the pending rewards.
  pub execute-KeepsFunds :
      (w : World) (tx : TxToRun) {acc : Account} {info : StakingInfo} {r : World × Receipt}
      → load_staking_acc c w ≡ returns (acc, info)
      → execute c w tx ≡ returns r
      → KeepsFunds c acc info r.0
  unfolding execute
  execute-KeepsFunds w tx {acc} {info} {r} h e = elim (Bool-cases (ltb (length tx.call_data) 4)) [
    | inl short ↦ let same : r.0 ≡ w = ground arith in rw same (acc, info, h, refl)
    | inr long ↦ dispatch-KeepsFunds w tx (be_nat (take 4 tx.call_data)) {r = r} h (ground arith)
  ]
