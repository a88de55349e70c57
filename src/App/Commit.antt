-- ===== src/App/Commit.antt =====
-- app/app.go: `Commit`, with `refresh`, `syncBlockInfo` and `postCommit`, and what it publishes.
use smartbch.Base.{
  List, Option, Outcome, [], deref, false, find_last, if◌then◌else◌, leb, length,
  low_system_balance, ltb, map, none, require, returns, some, true, ℕ, ◌%◌, ◌&&◌, ◌*◌, ◌++◌, ◌+◌,
  ◌-◌, ◌==◌, ◌>>=◌, ◌>>◌, ◌^◌, ◌∷◌,
}
use smartbch.App.State.{App, StoredBlock}
use smartbch.App.Machine.{CommittedTx, EvmLog, Machine, Block}
use smartbch.Staking.Context.{Context}
use smartbch.Staking.Epoch.{MapOrders, switch_epoch}
use smartbch.Staking.External.{minimum_staking_amount, slashed_staking_amount}
use smartbch.Staking.Fee.{distribute_fee}
use smartbch.Staking.Info.{StakingInfo, get_active_validators}
use smartbch.Staking.Slash.{slash}
use smartbch.Staking.State.{load_min_gas_price, load_staking_acc, save_min_gas_price}
use smartbch.Staking.SumPower.{load_readonly_validators_info}
use smartbch.Watcher.Blocks.{nominations_of}

abbrev pub prune_every_n : ℕ
prune_every_n = 10

abbrev pub sep206_addr : ℕ
sep206_addr = 0x2711

-- One log of `getSep206SenderSet`; the sender is the end of the second topic.
unfoldable pub sep206_sender : ℕ → EvmLog → List ℕ
sep206_sender transfer_event log = elim log.topics [
  | [] ↦ []
  | event ∷ others ↦
      if log.address == sep206_addr && length log.topics == 2 && event == transfer_event
      then map (λ topic. topic % 2 ^ 160) others
      else []
]

unfoldable pub log_senders : ℕ → List EvmLog → List ℕ
log_senders transfer_event [] = []
log_senders transfer_event (log ∷ logs) =
    sep206_sender transfer_event log ++ log_senders transfer_event logs

unfoldable pub get_sep206_sender_set : ℕ → List CommittedTx → List ℕ
get_sep206_sender_set transfer_event [] = []
get_sep206_sender_set transfer_event (tx ∷ txs) =
    log_senders transfer_event tx.logs ++ get_sep206_sender_set transfer_event txs

unfoldable pub collect_all_logs : List CommittedTx → List EvmLog
collect_all_logs [] = []
collect_all_logs (tx ∷ txs) = tx.logs ++ collect_all_logs txs

-- What `Commit` hands on: to Tendermint the block's state root and the height from which blocks are
-- kept, to the stores the height before which to prune and the block to add.
pub record Committed : Type 0 where
  pub app_hash : ℕ
  pub retain_height : Option ℕ
  pub prune_before : Option ℕ
  pub stored : Option StoredBlock

module _ (c : Context) where
  open c use {World}

  -- The world that `refresh` writes, and the price in it.
  unfoldable pub roll_min_gas_price : World → Outcome (World × ℕ)
  roll_min_gas_price w = do
    mgp ← load_min_gas_price c w false
    w' ← save_min_gas_price c w mgp true
    returns (w', mgp)

module _ (c : Context) (m : Machine c) (o : MapOrders) (transfer_event : ℕ) where
  open c use {World}
  open m use {cons_addr, get_system_balance, sub_system_acc_balance}

  -- `epochList` after a receive that does not wait.
  unfoldable pub receive_epoch : App c m → App c m
  receive_epoch app = elim app.epoch_chan [
    | [] ↦ app
    | epoch ∷ epochs ↦ record app { epoch_chan = epochs; epoch_list = app.epoch_list ++ epoch ∷ [] }
  ]

  -- The update of the validator set. `info` is the staking state as it was loaded before.
  unfoldable pub update_validators : App c m → StakingInfo → Outcome (App c m)
  update_validators app info = elim app.epoch_list [
    | [] ↦
        returns (record app { curr_validators = get_active_validators info minimum_staking_amount })
    | epoch ∷ epochs ↦
        let switched =
          switch_epoch c o app.trunk (nominations_of epoch.val_map_by_pubkey epoch.cells) >>= λ r.
          returns (record app { trunk = r.0; curr_validators = r.1; epoch_list = epochs }) in
        if ltb (epoch.end_time + 100 * 10 * 60) app.block.timestamp then switched else returns app
  ]

  -- `pubkeyMapByConsAddr[addr]`: a missing key gives the zero public key.
  unfoldable pub pubkey_of : StakingInfo → ℕ → ℕ
  pubkey_of info addr = elim (find_last (λ val. cons_addr val.pubkey == addr) info.validators) [
    | none ↦ 0
    | some val ↦ val.pubkey
  ]

  unfoldable pub slash_all : StakingInfo → World → List ℕ → Outcome World
  slash_all info w [] = returns w
  slash_all info w (addr ∷ addrs) = do
    r ← slash c m.transfer_to_black_hole w (pubkey_of info addr) slashed_staking_amount
    slash_all info r.0 addrs

  -- `ebp.SubSystemAccBalance`, which is called only for an amount that is not zero.
  unfoldable pub take_from_system : World → ℕ → Outcome World
  take_from_system w amount =
      let taken = deref (sub_system_acc_balance w amount) low_system_balance in
      if amount == 0 then returns w else taken

  -- The block's reward and the world after it is taken from the system account.
  unfoldable pub collect_reward : App c m → World → Outcome (World × ℕ)
  collect_reward app w =
      take_from_system w (if app.last_gas.fee == 0 then 0 else app.last_gas.refund) >>= λ w'.
      let reward =
        if m.standby_q_len app.tx_engine == 0 then get_system_balance w' else app.last_gas.fee in
      require (leb app.last_gas.fee (get_system_balance w')) low_system_balance
      >> take_from_system w' reward
      >>= λ w''. returns (w'', reward)

  unfoldable pub share_reward :
      App c m → StakingInfo → World → ℕ → Outcome (World × Option StakingInfo)
  share_reward app info w reward =
      let first = load_readonly_validators_info c w >>= λ readonly. returns (w, readonly) in
      if app.curr_height == 1
      then first
      else distribute_fee c w app.readonly (some reward) (pubkey_of info app.last_proposer)
          (map (pubkey_of info) app.last_commit_info)

  -- The block before, as it is stored once its transactions are executed.
  abbrev pub finished_block : App c m → Block → ℕ → StoredBlock
  finished_block app prev root = record {
    info = record prev {
      state_root = root;
      gas_used = app.last_gas.used;
      transactions = map (λ tx. tx.hash) (m.committed_txs app.tx_engine);
    };
    logs = collect_all_logs (m.committed_txs app.tx_engine);
  }

  abbrev pub prune_height : App c m → Option Block → Option ℕ
  prune_height app none = none
  prune_height app (some prev) =
      if prev.number % prune_every_n == 0 && ltb app.num_kept_blocks prev.number
      then some (prev.number - app.num_kept_blocks)
      else none

  unfoldable pub refresh : App c m → Outcome (App c m × Committed)
  refresh app = do
    let prev = m.get_curr_block_basic_info app.trunk
    rolled ← roll_min_gas_price c (m.set_curr_block_basic_info app.trunk app.block)
    let root = m.get_root_hash rolled.0
    returns (
      record app {
        trunk = rolled.0;
        check_trunk = rolled.0;
        last_min_gas_price = rolled.1;
        block = record (app.block) { state_root = root };
        sep206_sender_set = elim prev [
          | none ↦ app.sep206_sender_set
          | some b ↦ get_sep206_sender_set transfer_event (m.committed_txs app.tx_engine)
        ];
        recheck_counter = 0;
        last_proposer = app.block.miner;
        last_commit_info = [];
      },
      record {
        app_hash = root;
        retain_height = none;
        prune_before = prune_height app prev;
        stored = elim prev [ none ↦ none | some b ↦ some (finished_block app b root) ];
      },
    )

  abbrev pub retain_height_of : App c m → Option ℕ
  retain_height_of app =
      if ltb 0 app.retain_blocks
        && leb app.retain_blocks app.curr_height
        && app.curr_height % 100 == 0
      then some (app.curr_height - app.retain_blocks + 1)
      else none

  unfoldable pub prepare_txs : App c m → App c m
  prepare_txs app =
      let (engine, w, touched) =
        m.prepare app.tx_engine app.trunk app.reorder_seed app.last_min_gas_price in
      record app { tx_engine = engine; trunk = w; touched_addrs = touched }

  unfoldable pub commit : App c m → Outcome (App c m × Committed)
  commit app = do
    loaded ← load_staking_acc c app.trunk
    let info = loaded.1
    updated ← update_validators (receive_epoch app) info
    slashed ← slash_all info updated.trunk updated.slash_validators
    rewarded ← collect_reward updated slashed
    shared ← share_reward updated info rewarded.0 rewarded.1
    refreshed ← refresh (
        prepare_txs
          (record updated { slash_validators = []; trunk = shared.0; readonly = shared.1 }))
    returns (refreshed.0, record (refreshed.1) { retain_height = retain_height_of refreshed.0 })

  -- `postCommit`, which runs on its own and holds the lock until it is done.
  unfoldable pub post_commit : App c m → App c m
  post_commit app =
      let (engine, w) = m.execute_txs app.tx_engine app.trunk app.block in
      record app { tx_engine = engine; trunk = w; last_gas = m.gas_used_info engine }
