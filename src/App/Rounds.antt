-- ===== src/App/Rounds.antt =====
-- What a block leaves behind for the next one: `Commit` of app/app.go.
use smartbch.Base.{
  >>=-elim, >>=-eq-returns, Bool-cases, List, Option-cases, Outcome-cases, [], ap, arith, be_bytes,
  false, inl, inr, ltb, refl, returns, true, ℕ, ◌*◌, ◌+◌, ◌<◌, ◌>>=◌, ◌^◌, ◌∙◌, ◌∷◌, ◌≡◌,
}
use smartbch.App.Machine.{Machine}
use smartbch.Staking.Context.{Context}
use smartbch.Staking.Epoch.{MapOrders, switch_epoch}
use smartbch.Staking.GasPrice.Bounds.{Prices, decode_gas_price_lem}
use smartbch.Staking.State.{
  load_min_gas_price, save_min_gas_price, slot_last_min_gas_price, slot_min_gas_price,
  staking_contract_address, load_staking_acc,
}
use smartbch.App.Commit.{
  roll_min_gas_price, Committed, commit, receive_epoch, update_validators, collect_reward, refresh,
  share_reward, slash_all, prepare_txs,
}
use smartbch.App.State.{App}
use smartbch.Staking.Info.{StakingInfo}
use smartbch.Watcher.Blocks.{Epoch, nominations_of}

module _ (c : Context) where
  open c use {
    World, sequence, get_account, get_account-set_storage_at, get_storage_at-set_storage_at,
  }

  -- Reading back the two prices after the last one is written.
  load-save_last_min_gas_price :
      (w w' : World) (p : ℕ)
      → p < 2 ^ 64
      → load_min_gas_price c w false ≡ returns p
      → save_min_gas_price c w p true ≡ returns w'
      → Prices c w' p p
  unfolding load_min_gas_price save_min_gas_price
  load-save_last_min_gas_price w w' p bound h e =
      elim (Option-cases (get_account w staking_contract_address)) [
        | inl missing_acc ↦ absurd (ground arith)
        | inr (acc, found) ↦
            let q = sequence acc in
            let bz = be_bytes 8 p in
            ground (
              arith,
              decode_gas_price_lem c p bound,
              get_account-set_storage_at w q slot_last_min_gas_price bz staking_contract_address,
              get_storage_at-set_storage_at w q slot_last_min_gas_price bz q slot_min_gas_price,
              get_storage_at-set_storage_at w q slot_last_min_gas_price bz q
                  slot_last_min_gas_price,
            )
      ]

  roll-Prices :
      (w : World) {r : World × ℕ}
      → roll_min_gas_price c w ≡ returns r
      → r.1 < 2 ^ 64
      → Prices c r.0 r.1 r.1
  unfolding roll_min_gas_price
  roll-Prices w {r} e bound =
      let (mgp, loaded, e1) =
        >>=-eq-returns (load_min_gas_price c w false)
          (λ mgp. save_min_gas_price c w mgp true >>= λ w'. returns (w', mgp)) e in
      let (w', saved, e2) =
        >>=-eq-returns (save_min_gas_price c w mgp true) (λ w'. returns (w', mgp)) e1 in
      let price : r.1 ≡ mgp = ground arith in
      let world : r.0 ≡ w' = ground arith in
      rw (price, world)
        (load-save_last_min_gas_price w w' mgp (omega (arith, bound, price)) loaded saved)

  module _ (m : Machine c) (o : MapOrders) (transfer_event : ℕ) where
    -- What `Commit` puts back for the next block, the validators aside.
    pub record IsReady (before app : App c m) : Type 0 where
      pub prices : Prices c app.trunk app.last_min_gas_price app.last_min_gas_price
      pub none_to_slash : app.slash_validators ≡ []
      pub no_votes : app.last_commit_info ≡ []
      pub none_rechecked : app.recheck_counter ≡ 0
      pub same_check : app.check_trunk ≡ app.trunk
      pub proposer : app.last_proposer ≡ before.block.miner
      pub height : app.curr_height ≡ before.curr_height

    update_validators-keeps :
        (app : App c m) (info : StakingInfo) {updated : App c m}
        → update_validators c m o transfer_event app info ≡ returns updated
        → (updated.curr_height ≡ app.curr_height) × (updated.block ≡ app.block)
    unfolding update_validators
    update_validators-keeps app info {updated} e = go app.epoch_list refl
      where
        go :
            (es : List Epoch)
            → app.epoch_list ≡ es
            → (updated.curr_height ≡ app.curr_height) × (updated.block ≡ app.block)
        go [] none_due = ground arith
        go (epoch ∷ epochs) due =
            elim (Bool-cases (ltb (epoch.end_time + 100 * 10 * 60) app.block.timestamp)) [
              | inr early ↦ ground arith
              | inl late ↦
                  elim (Outcome-cases (
                    switch_epoch c o app.trunk
                      (nominations_of epoch.val_map_by_pubkey epoch.cells))) [
                        | inl (x, bad) ↦ absurd (ground arith)
                        | inr (switched, ok) ↦ ground arith
                      ]
            ]

    receive_epoch-keeps :
        (app : App c m)
        → let received = receive_epoch c m o transfer_event app in
          (received.curr_height ≡ app.curr_height) × (received.block ≡ app.block)
    unfolding receive_epoch
    receive_epoch-keeps app = ground arith

    refresh-IsReady :
        (app : App c m) {r : App c m × Committed}
        → refresh c m o transfer_event app ≡ returns r
        → r.0.last_min_gas_price < 2 ^ 64
        → app.slash_validators ≡ []
        → IsReady app r.0
    unfolding refresh
    refresh-IsReady app {r} e bound none_left =
        >>=-elim (roll_min_gas_price c (m.set_curr_block_basic_info app.trunk app.block)) _ e
          (λ rolled rolls e1.
            let price : r.0.last_min_gas_price ≡ rolled.1 = ground arith in
            let world : r.0.trunk ≡ rolled.0 = ground arith in
            record {
              prices = rw (price, world) (roll-Prices _ rolls (rw (← price) bound));
              none_to_slash = ground arith;
              no_votes = ground arith;
              none_rechecked = ground arith;
              same_check = ground arith;
              proposer = ground arith;
              height = ground arith;
            })

    -- Whatever happens in a block, if `Commit` does not panic and the minimal gas price is a `uint64`:
    -- both stored prices are then the application's price, as they are at the begin of a block; the
    -- lists of validators to slash and of votes are empty, no transaction is counted as rechecked, the
    -- state for checking is the state that was committed, the proposer is the block's miner, and the
    -- height stays.
    pub commit-IsReady :
        (app : App c m) {r : App c m × Committed}
        → commit c m o transfer_event app ≡ returns r
        → r.0.last_min_gas_price < 2 ^ 64
        → IsReady app r.0
    unfolding commit prepare_txs
    commit-IsReady app {r} e bound = >>=-elim (load_staking_acc c app.trunk) _ e (λ loaded l e1.
        >>=-elim
          (update_validators c m o transfer_event (receive_epoch c m o transfer_event app) loaded.1)
          _ e1
          (λ updated u e2.
            >>=-elim
              (slash_all c m o transfer_event loaded.1 updated.trunk updated.slash_validators) _ e2
              (λ slashed s e3.
                >>=-elim (collect_reward c m o transfer_event updated slashed) _ e3
                  (λ rewarded w e4.
                    >>=-elim
                      (share_reward c m o transfer_event updated loaded.1 rewarded.0 rewarded.1) _
                      e4
                      (λ shared h e5.
                        >>=-elim
                          (refresh c m o transfer_event (
                            prepare_txs c m o transfer_event (record updated {
                              slash_validators = [];
                              trunk = shared.0;
                              readonly = shared.1;
                            })))
                          _ e5
                          (λ refreshed f e6.
                            let same : r.0 ≡ refreshed.0 = ground arith in
                            let ready = refresh-IsReady _ f (rw (← same) bound) refl in
                            let kept =
                              update_validators-keeps (receive_epoch c m o transfer_event app)
                                loaded.1 u in
                            let received = receive_epoch-keeps app in
                            rw same (record {
                              prices = ready.prices;
                              none_to_slash = ready.none_to_slash;
                              no_votes = ready.no_votes;
                              none_rechecked = ready.none_rechecked;
                              same_check = ready.same_check;
                              proposer = ready.proposer ∙ ap (λ b. b.miner) (kept.1 ∙ received.1);
                              height = ready.height ∙ kept.0 ∙ received.0;
                            })))))))
