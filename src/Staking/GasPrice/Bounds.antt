-- ===== src/Staking/GasPrice/Bounds.antt =====
-- How far the minimal gas price can move within a block (`handleMinGasPrice` of staking/staking.go).
use smartbch.Base.{
  Bool, Bool-cases, Option-cases, Outcome-cases, arith, be_bytes, be_nat-be_bytes, false, inl, inr,
  length-be_bytes, refl, returns, some, take_all, true, ℕ, ◌*◌, ◌<◌, ◌^◌, ◌∙◌, ◌≡◌, ◌≤◌, ◌⊎◌,
}
use smartbch.Staking.Context.{Context}
use smartbch.Staking.External.{accepted, Receipt, Checked, refused}
use smartbch.Staking.GasPrice.{
  check_price, max_min_gas_price, handle_min_gas_price, stepped_price, is_operator, write_price,
}
use smartbch.Staking.State.{
  decode_gas_price, load_min_gas_price, save_min_gas_price, slot_last_min_gas_price,
  slot_min_gas_price, staking_contract_address, load_staking_acc,
}
use smartbch.Tests.World.{small}
use smartbch.App.CheckTx.{passed}

-- A price that is at most the maximum, and at most 16 percent away from the last block's price.
pub record InBand (last mgp : ℕ) : Type 0 where
  pub below_max : mgp ≤ max_min_gas_price
  pub not_far_above : 100 * mgp ≤ 116 * last
  pub not_far_below : 84 * last ≤ 100 * mgp

check_price-InBand :
    (mgp last : ℕ) {p : ℕ}
    → last ≤ max_min_gas_price
    → check_price mgp last ≡ accepted p
    → InBand last p
unfolding check_price
check_price-InBand mgp last h e = ground arith

module _ (c : Context) where
  open c use {
    World, sequence, get_account, set_storage_at, get_storage_at, get_account-set_storage_at,
    get_storage_at-set_storage_at,
  }

  -- The price as the record of a storage slot.
  pub decode_gas_price_lem :
      (p : ℕ) → p < 2 ^ 64 → decode_gas_price c (some (be_bytes 8 p)) ≡ returns p
  decode_gas_price_lem p h =
      rw (
        length-be_bytes 8 p,
        take_all 8 (be_bytes 8 p) (length-be_bytes 8 p),
        be_nat-be_bytes 8 p h,
      )

  -- Reading back the two prices after the current one is written.
  pub load-save_min_gas_price :
      (w w' : World) (p : ℕ) {last : ℕ}
      → p < 2 ^ 64
      → load_min_gas_price c w true ≡ returns last
      → save_min_gas_price c w p false ≡ returns w'
      → (load_min_gas_price c w' false ≡ returns p) × (load_min_gas_price c w' true ≡ returns last)
  unfolding load_min_gas_price save_min_gas_price
  load-save_min_gas_price w w' p bound h e =
      elim (Option-cases (get_account w staking_contract_address)) [
        | inl missing ↦ absurd (ground arith)
        | inr (acc, found) ↦
            let q = sequence acc in
            let bz = be_bytes 8 p in
            ground (
              arith,
              decode_gas_price_lem p bound,
              get_account-set_storage_at w q slot_min_gas_price bz staking_contract_address,
              get_storage_at-set_storage_at w q slot_min_gas_price bz q slot_min_gas_price,
              get_storage_at-set_storage_at w q slot_min_gas_price bz q slot_last_min_gas_price,
            )
      ]

  -- A series of calls of `handleMinGasPrice` that do not panic.
  pub data Calls : World → World → Type 0 where
    no_calls : (w : World) → Calls w w
    one_call :
        {w w' w'' : World} {receipt : Receipt} (sender : ℕ) (is_increase : Bool)
        → handle_min_gas_price c w sender is_increase ≡ returns (w', receipt)
        → Calls w' w''
        → Calls w w''

  -- The two stored prices.
  abbrev pub Prices : World → ℕ → ℕ → Type 0
  Prices w last mgp =
      (load_min_gas_price c w true ≡ returns last) × (load_min_gas_price c w false ≡ returns mgp)

  -- An accepted price that is written is the price that is then stored.
  write_price_cases :
      (w w' : World) (r : Checked ℕ) {last mgp : ℕ} {receipt : Receipt}
      → Prices w last mgp
      → ((p : ℕ) → r ≡ accepted p → p < 2 ^ 64)
      → write_price c w r ≡ returns (w', receipt)
      → Prices w' last mgp ⊎ ((p : ℕ) × (r ≡ accepted p) × Prices w' last p)
  unfolding write_price
  write_price_cases w w' (refused x) h b e = let same : w' ≡ w = ground arith in inl (rw same h)
  write_price_cases w w' (accepted p) {last} h b e =
      elim (Outcome-cases (save_min_gas_price c w p false)) [
        | inl (x, bad) ↦ absurd (ground arith)
        | inr (u, saved) ↦
            let same : w' ≡ u = ground arith in
            let read = load-save_min_gas_price w u p {last = last} (b p refl) h.0 saved in
            inr (p, refl, rw same (read.1, read.0))
      ]

  -- A call leaves the prices, or stores the stepped price after the checks have passed.
  handle_cases :
      (w w' : World) (sender : ℕ) (is_increase : Bool) {last mgp : ℕ} {receipt : Receipt}
      → Prices w last mgp
      → last ≤ max_min_gas_price
      → handle_min_gas_price c w sender is_increase ≡ returns (w', receipt)
      → Prices w' last mgp
        ⊎ ((p : ℕ) × (check_price (stepped_price mgp is_increase) last ≡ accepted p)
            × Prices w' last p)
  unfolding handle_min_gas_price
  handle_cases w w' sender is_increase {last} {mgp} {receipt} h b e =
      elim (Outcome-cases (load_staking_acc c w)) [
        | inl (x, bad) ↦ absurd (ground arith)
        | inr (loaded, ok) ↦ elim (Bool-cases (is_operator loaded.1 sender)) [
          | inl op ↦
              write_price_cases w w' (check_price (stepped_price mgp is_increase) last)
                {last = last} {mgp = mgp} {receipt = receipt} h
                (λ p q.
                  omega (
                    arith,
                    (check_price-InBand (stepped_price mgp is_increase) last b q).below_max,
                  ))
                (ground arith)
          | inr stranger ↦ let same : w' ≡ w = ground arith in inl (rw same h)
        ]
      ]

  handle-InBand :
      (w w' : World) (sender : ℕ) (is_increase : Bool) {last mgp : ℕ} {receipt : Receipt}
      → Prices w last mgp
      → last ≤ max_min_gas_price
      → InBand last mgp
      → handle_min_gas_price c w sender is_increase ≡ returns (w', receipt)
      → (p : ℕ) × Prices w' last p × InBand last p
  handle-InBand w w' sender is_increase {last} {mgp} h b band e =
      elim (handle_cases w w' sender is_increase {last = last} {mgp = mgp} h b e) [
        | inl same ↦ (mgp, same, band)
        | inr (p, passed, stored) ↦
            (p, stored, check_price-InBand (stepped_price mgp is_increase) last b passed)
      ]

  calls-InBand :
      {w w' : World} {last : ℕ} (mgp : ℕ)
      → Prices w last mgp
      → last ≤ max_min_gas_price
      → InBand last mgp
      → Calls w w'
      → (p : ℕ) × Prices w' last p × InBand last p
  calls-InBand mgp h b band (no_calls w) = (mgp, h, band)
  calls-InBand {last = last} mgp h b band (one_call {w = w} {w' = w'} sender is_increase e rest) =
      let stepped = handle-InBand w w' sender is_increase {last = last} {mgp = mgp} h b band e in
      calls-InBand stepped.0 stepped.1 b stepped.2 rest

  -- Within a block, which begins with both stored prices equal and at most the maximum 500, no series
  -- of calls of increaseMinGasPrice and decreaseMinGasPrice, by whomever, brings the price above 500
  -- or more than 16 percent away from the price at the block's begin, which stays stored.
  pub block-InBand :
      {w w' : World} {last : ℕ}
      → Prices w last last
      → last ≤ max_min_gas_price
      → Calls w w'
      → (mgp : ℕ) × Prices w' last mgp × InBand last mgp
  block-InBand {last = last} h b calls = calls-InBand last h b (omega arith) calls

  stepped_price_small :
      (mgp : ℕ) (is_increase : Bool) → mgp < 20 → stepped_price mgp is_increase ≡ mgp
  unfolding stepped_price
  stepped_price_small mgp is_increase h = ground arith

  check_price-eq-accepted : (mgp last : ℕ) {p : ℕ} → check_price mgp last ≡ accepted p → p ≡ mgp
  unfolding check_price
  check_price-eq-accepted mgp last e = ground arith

  -- A price below 20 is frozen: five percent of it is zero in integers, so that no series of calls
  -- changes it, where the price of the last block is no more than the maximum. The initial price, 0, is
  -- such a price.
  pub small_price_frozen :
      {w w' : World} {last mgp : ℕ}
      → Prices w last mgp
      → last ≤ max_min_gas_price
      → mgp < 20
      → Calls w w'
      → Prices w' last mgp
  small_price_frozen h b small (no_calls w) = h
  small_price_frozen {last = last} {mgp = mgp} h b small
        (one_call {w = w} {w' = w'} sender is_increase e rest) =
      small_price_frozen
        (stays (handle_cases w w' sender is_increase {last = last} {mgp = mgp} h b e)) b small rest
    where
      stays :
          Prices w' last mgp
            ⊎ ((p : ℕ) × (check_price (stepped_price mgp is_increase) last ≡ accepted p)
                × Prices w' last p)
          → Prices w' last mgp
      stays (inl same) = same
      stays (inr (p, passed, stored)) =
          let q : p ≡ mgp =
            check_price-eq-accepted (stepped_price mgp is_increase) last passed
            ∙ stepped_price_small mgp is_increase small in
          rw q at stored
