-- ===== src/App/Funds.antt =====
-- A whole commit keeps the staking contract's money in step with what it owes (`Commit` of app/app.go
-- with staking/staking.go).
use smartbch.Base.{
  >>=-elim, Bool-cases, List, Option, [], false, inl, inr, length, ltb, refl, returns,
  returns-injective, some, sym, true, ℕ, ◌*◌, ◌+◌, ◌==◌, ◌>>=◌, ◌∙◌, ◌∷◌, ◌≡◌, ◌≤◌,
}
use smartbch.App.State.{App}
use smartbch.Staking.Context.{Context}
use smartbch.Watcher.Blocks.{Epoch, nominations_of}
use smartbch.Staking.Funds.{KeepsFunds}
use smartbch.App.Machine.{Machine}
use smartbch.Staking.Epoch.{MapOrders, age_info, update_voting_power, switch_epoch}
use smartbch.Staking.Info.{StakingInfo}
use smartbch.App.Money.{SystemLaws, load_staking_acc-same, KeepsFunds-trans, collect_reward_lem}
use smartbch.Staking.State.{load_staking_acc, load_min_gas_price, save_min_gas_price}
use smartbch.App.Commit.{
  update_validators, Committed, prepare_txs, refresh, roll_min_gas_price, share_reward, commit,
  receive_epoch, slash_all, collect_reward,
}
use smartbch.Staking.Epoch.Funds.{useless_validators, switch_epoch-KeepsFunds}
use smartbch.Staking.Fee.Funds.{distribute_fee-KeepsFunds}
use smartbch.Staking.Execute.Funds.{load-save_min_gas_price_same}

module _ (c : Context) (m : Machine c) (o : MapOrders) (transfer_event : ℕ)
    (laws : SystemLaws c m) where
  -- At most one validator is useless after the switch of the epoch that is next, where one is.
  abbrev pub OneUselessAtMost : List Epoch → StakingInfo → Type 0
  OneUselessAtMost [] info = Unit
  OneUselessAtMost (epoch ∷ epochs) info =
      length (
        useless_validators (
          update_voting_power (age_info info) (nominations_of epoch.val_map_by_pubkey epoch.cells)))
      ≤ 1

  -- What an update of the validators leaves as it is.
  Updates : c.Account → StakingInfo → App c m → App c m → Type 0
  Updates acc info app updated =
      KeepsFunds c acc info updated.trunk
      × (updated.slash_validators ≡ app.slash_validators)
      × (updated.curr_height ≡ app.curr_height)

  update_validators-Updates :
      (app : App c m) (acc : c.Account) (info : StakingInfo) {updated : App c m}
      → load_staking_acc c app.trunk ≡ returns (acc, info)
      → OneUselessAtMost app.epoch_list info
      → update_validators c m o transfer_event app info ≡ returns updated
      → Updates acc info app updated
  unfolding update_validators Updates
  update_validators-Updates app acc info {updated} loaded single e = go app.epoch_list refl
    where
      go : (es : List Epoch) → app.epoch_list ≡ es → Updates acc info app updated
      go [] none_waits =
          rw (← returns-injective (rw none_waits at e)) ((acc, info, loaded, refl), refl, refl)
      go (epoch ∷ epochs) waits =
          let e' = rw waits at e in
          elim (Bool-cases (ltb (epoch.end_time + 100 * 10 * 60) app.block.timestamp)) [
            | inl due ↦
                let votes = nominations_of epoch.val_map_by_pubkey epoch.cells in
                >>=-elim (switch_epoch c o app.trunk votes) _ (rw due at e') (λ r switched e3.
                  rw (← returns-injective e3) (
                    switch_epoch-KeepsFunds c o app.trunk votes loaded (rw waits at single)
                        switched,
                    refl,
                    refl,
                  ))
            | inr waiting ↦
                rw (← returns-injective (rw waiting at e')) ((acc, info, loaded, refl), refl, refl)
          ]

  share_reward-KeepsFunds :
      (app : App c m) (old : StakingInfo) (w : c.World) (reward : ℕ) {acc : c.Account}
      {info : StakingInfo} {shared : c.World × Option StakingInfo}
      → (app.curr_height == 1) ≡ false
      → load_staking_acc c w ≡ returns (acc, info)
      → share_reward c m o transfer_event app old w reward ≡ returns shared
      → KeepsFunds c acc info shared.0
  unfolding share_reward
  share_reward-KeepsFunds app old w reward later loaded e =
      distribute_fee-KeepsFunds c w app.readonly (some reward) _ _ loaded (rw later at e)

  load-prepare_txs :
      (app : App c m)
      → load_staking_acc c (prepare_txs c m o transfer_event app).trunk
        ≡ load_staking_acc c app.trunk
  unfolding prepare_txs
  load-prepare_txs app =
      load_staking_acc-same c m o transfer_event laws app.trunk _
        (laws.prepare_contract _ app.trunk _ _) (λ q s. laws.prepare_storage _ app.trunk _ _ q s)

  load-refresh :
      (app : App c m) {acc : c.Account} {info : StakingInfo} {r : App c m × Committed}
      → load_staking_acc c app.trunk ≡ returns (acc, info)
      → refresh c m o transfer_event app ≡ returns r
      → load_staking_acc c r.0.trunk ≡ returns (acc, info)
  unfolding refresh roll_min_gas_price
  load-refresh app loaded e =
      let w = m.set_curr_block_basic_info app.trunk app.block in
      let stays =
        load_staking_acc-same c m o transfer_event laws app.trunk w (laws.info_contract _ _)
          (λ q s. laws.info_storage _ _ q s)
        ∙ loaded in
      >>=-elim (roll_min_gas_price c w) _ e (λ rolled rolls e1.
        >>=-elim (load_min_gas_price c w false) _ rolls (λ mgp read e2.
          >>=-elim (save_min_gas_price c w mgp true) _ e2 (λ w' saved e3.
            rw (← returns-injective e1) (
              rw (← returns-injective e3)
                (load-save_min_gas_price_same c w mgp true stays saved)))))

  receive_epoch-trunk :
      (app : App c m)
      → ((receive_epoch c m o transfer_event app).trunk ≡ app.trunk)
        × ((receive_epoch c m o transfer_event app).slash_validators ≡ app.slash_validators)
        × ((receive_epoch c m o transfer_event app).curr_height ≡ app.curr_height)
  unfolding receive_epoch
  receive_epoch-trunk app = go app.epoch_chan refl
    where
      go :
          (es : List Epoch)
          → app.epoch_chan ≡ es
          → ((receive_epoch c m o transfer_event app).trunk ≡ app.trunk)
            × ((receive_epoch c m o transfer_event app).slash_validators ≡ app.slash_validators)
            × ((receive_epoch c m o transfer_event app).curr_height ≡ app.curr_height)
      go [] h = rw h (refl, refl, refl)
      go (epoch ∷ epochs) h = rw h (refl, refl, refl)

  -- The end of a commit, from the shared reward on.
  finish-KeepsFunds :
      (app : App c m) (acc : c.Account) (info : StakingInfo) {r : App c m × Committed}
      → KeepsFunds c acc info app.trunk
      → refresh c m o transfer_event (prepare_txs c m o transfer_event app) ≡ returns r
      → KeepsFunds c acc info r.0.trunk
  finish-KeepsFunds app acc info (acc', info', loaded, e) done = (
    acc',
    info',
    load-refresh (prepare_txs c m o transfer_event app) (load-prepare_txs app ∙ loaded) done,
    e,
  )

  -- The rest of a commit, from the update of the validators on.
  reward-KeepsFunds :
      (app : App c m) (old : StakingInfo) (acc : c.Account) (info : StakingInfo)
      {r : App c m × Committed}
      → KeepsFunds c acc info app.trunk
      → (app.curr_height == 1) ≡ false
      → (collect_reward c m o transfer_event app app.trunk >>= λ rewarded.
          share_reward c m o transfer_event app old rewarded.0 rewarded.1 >>= λ shared.
          refresh c m o transfer_event (
            prepare_txs c m o transfer_event
              (record app { slash_validators = []; trunk = shared.0; readonly = shared.1 })))
        ≡ returns r
      → KeepsFunds c acc info r.0.trunk
  reward-KeepsFunds app old acc info (acc1, info1, loaded, sums) later e =
      >>=-elim (collect_reward c m o transfer_event app app.trunk) _ e (λ rewarded collects e1.
        >>=-elim (share_reward c m o transfer_event app old rewarded.0 rewarded.1) _ e1
          (λ shared shares e2.
            let same = (collect_reward_lem c m o transfer_event laws app app.trunk collects).0 in
            let kept =
              share_reward-KeepsFunds app old rewarded.0 rewarded.1 later (same ∙ loaded) shares in
            finish-KeepsFunds
              (record app { slash_validators = []; trunk = shared.0; readonly = shared.1 }) acc info
              (KeepsFunds-trans c m acc acc1 info info1 shared.0 sums kept) e2))

  slash_all_none :
      (info : StakingInfo) (w : c.World) (addrs : List ℕ)
      → addrs ≡ []
      → slash_all c m o transfer_event info w addrs ≡ returns w
  unfolding slash_all
  slash_all_none info w [] h = refl
  slash_all_none info w (addr ∷ addrs) h = cc h

  -- A commit of a block after the first, with no validator to slash and at most one useless validator
  -- after a switch of the epoch, keeps the staking contract's money in step with what it owes,
  -- through the switch, the block's reward and its shares, whatever transactions are prepared: if the
  -- staking state can be loaded and the commit does not panic, the contract's balance changes, modulo
  -- 2 ^ 256, by as much as the sum of staked coins and pending rewards.
  pub commit-KeepsFunds :
      (app : App c m) {acc : c.Account} {info : StakingInfo} {r : App c m × Committed}
      → load_staking_acc c app.trunk ≡ returns (acc, info)
      → app.slash_validators ≡ []
      → (app.curr_height == 1) ≡ false
      → OneUselessAtMost (receive_epoch c m o transfer_event app).epoch_list info
      → commit c m o transfer_event app ≡ returns r
      → KeepsFunds c acc info r.0.trunk
  unfolding commit Updates
  commit-KeepsFunds app {acc} {info} {r} loaded unslashed later single e =
      let received = receive_epoch-trunk app in
      let e0 = rw loaded at e in
      >>=-elim
        (update_validators c m o transfer_event (receive_epoch c m o transfer_event app) info) _ e0
        (λ updated updates e1.
          let (switched, slashes, height) =
            update_validators-Updates (receive_epoch c m o transfer_event app) acc info
              (rw (received.0) loaded) single updates in
          >>=-elim (slash_all c m o transfer_event info updated.trunk updated.slash_validators) _ e1
            (λ slashed done e2.
              let nothing =
                slash_all_none info updated.trunk updated.slash_validators
                  (slashes ∙ received.1 ∙ unslashed) in
              let same : slashed ≡ updated.trunk = returns-injective (sym done ∙ nothing) in
              let e3 = rw same at e2 in
              >>=-elim (collect_reward c m o transfer_event updated updated.trunk) _ e3
                (λ rewarded collects e4.
                  >>=-elim (share_reward c m o transfer_event updated info rewarded.0 rewarded.1) _
                    e4
                    (λ shared shares e5.
                      >>=-elim
                        (refresh c m o transfer_event (
                          prepare_txs c m o transfer_event (record updated {
                            slash_validators = [];
                            trunk = shared.0;
                            readonly = shared.1;
                          })))
                        _ e5
                        (λ refreshed refreshes e6. rw (← returns-injective e6) (
                          reward-KeepsFunds updated info acc info {r = refreshed} switched
                            (rw (height ∙ received.2) later) (rw (collects, shares) refreshes)))))))
