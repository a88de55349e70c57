-- ===== src/Watcher.antt =====
-- staking/watcher.go: the watcher of Bitcoin Cash's mainnet, which finalizes blocks and puts out
-- epochs. Its maps are association lists. `epoch_chan` are all the epochs that were ever sent on its
-- channel, and `received` is the number of those that are received: the channel holds the others, one
-- at most. The numbers of blocks in an epoch and until the memory is cleared are variables of the package.
pub mod Blocks
pub mod Counting
pub mod Epochs
pub mod Tiles
pub mod Runs
pub mod Chain
pub mod LateStart
pub mod Stored
pub mod Retrace
pub mod Steady
pub mod Rounds
pub mod Adding
pub mod Liveness
use smartbch.Base.{
  Bool, List, Map, Option, Outcome, [], channel_full, deep_reorganization, deref, drop, erase,
  get_last?, height_skipped, if◌then◌else◌, insert, leb, length, lookup, ltb, missing_block,
  nil_dereference, no_parent_block, none, require, returns, some, sub64, suc, zero, ℕ, ◌%◌, ◌*◌,
  ◌++◌, ◌+◌, ◌-◌, ◌==◌, ◌>>=◌, ◌>>◌, ◌^◌, ◌∷◌,
}
use smartbch.Watcher.Blocks.{BchBlock, Epoch, equal}
use smartbch.Watcher.Counting.{Tally, count_block}

pub record Watcher : Type 0 where
  pub last_epoch_end_height : ℕ
  pub latest_finalized_height : ℕ
  pub hash_to_block : Map BchBlock
  pub height_to_finalized_block : Map BchBlock
  pub epoch_list : List Epoch
  pub epoch_chan : List Epoch
  pub received : ℕ

unfoldable pub new_watcher : ℕ → Watcher
new_watcher last_height = record {
  last_epoch_end_height = last_height;
  latest_finalized_height = last_height;
  hash_to_block = [];
  height_to_finalized_block = [];
  epoch_list = [];
  epoch_chan = [];
  received = 0;
}

-- The loop of `generateNewEpoch` over the blocks of the epoch.
pub record Gathered : Type 0 where
  pub start_time : ℕ
  pub end_time : ℕ
  pub tally : Tally

unfoldable pub gather : ℕ → ℕ → Map BchBlock → Gathered → Outcome Gathered
gather zero i blocks g = returns g
gather (suc rounds) i blocks g = deref (lookup i blocks) missing_block >>= λ blk.
    gather rounds (i + 1) blocks (record {
      start_time = if ltb blk.timestamp g.start_time then blk.timestamp else g.start_time;
      end_time = if ltb g.end_time blk.timestamp then blk.timestamp else g.end_time;
      tally = count_block g.tally blk.nominations;
    })

-- The end of the last epoch in the list, if there is one.
abbrev pub last_end_time : ℕ → List Epoch → ℕ
last_end_time time [] = time
last_end_time time (e ∷ es) = last_end_time e.end_time es

-- The loop of `ClearOldData`, downwards from a height, over both maps.
unfoldable pub clear_down : ℕ → Watcher → Watcher
clear_down zero w = elim (lookup 0 w.height_to_finalized_block) [
  | none ↦ w
  | some blk ↦ record w {
    height_to_finalized_block = erase 0 w.height_to_finalized_block;
    hash_to_block = erase blk.hash_id w.hash_to_block;
  }
]
clear_down (suc height) w = elim (lookup (suc height) w.height_to_finalized_block) [
  | none ↦ w
  | some blk ↦ clear_down height (record w {
    height_to_finalized_block = erase (suc height) w.height_to_finalized_block;
    hash_to_block = erase blk.hash_id w.hash_to_block;
  })
]

-- What the search for the tenth confirmation finds: the block to finalize, or where it stops.
pub data Confirmed : Type 0 where
  confirmed : BchBlock → Confirmed
  unconfirmed : Option ℕ → Confirmed

-- No hash is missing behind the first block.
abbrev pub missing_hash : ℕ → Option ℕ
missing_hash parent_blk = if parent_blk == 0 then none else some parent_blk

unfoldable pub confirm : ℕ → BchBlock → Map BchBlock → Confirmed
confirm zero parent blocks = confirmed parent
confirm (suc n) parent blocks = elim (lookup parent.parent_blk blocks) [
  | none ↦ unconfirmed (missing_hash parent.parent_blk)
  | some grandpa ↦ confirm n grandpa blocks
]

abbrev pub nothing_gathered : Gathered
nothing_gathered = record {
  start_time = 2 ^ 62;
  end_time = 0;
  tally = record { cells = []; val_map = [] };
}

abbrev pub new_epoch : Watcher → Gathered → Epoch
new_epoch w g = record {
  start_height = w.last_epoch_end_height + 1;
  end_time = g.end_time;
  duration = sub64 g.end_time (last_end_time g.start_time w.epoch_list);
  cells = g.tally.cells;
  val_map_by_pubkey = g.tally.val_map;
}

-- `EpochChan` holds one epoch, so that a send has room once the epochs before it are received.
abbrev pub has_room : Watcher → Bool
has_room w = leb (length w.epoch_chan) w.received

-- A receive of an epoch that waits in the channel, as `Commit` of app/app.go tries it.
unfoldable pub take_epoch : Watcher → Watcher
take_epoch w = record w {
  received = if ltb w.received (length w.epoch_chan) then w.received + 1 else w.received;
}

abbrev pub record_epoch : Watcher → Epoch → Watcher
record_epoch w epoch = record w {
  epoch_list = w.epoch_list ++ epoch ∷ [];
  epoch_chan = w.epoch_chan ++ epoch ∷ [];
  last_epoch_end_height = w.latest_finalized_height;
}

module _ (num_blocks_in_epoch num_blocks_to_clear_memory : ℕ) where
  -- A height below zero is no key of the map.
  unfoldable pub clear_old_data : Watcher → Watcher
  unfolding clear_down
  clear_old_data w = elim (get_last? w.epoch_list) [
    | none ↦ w
    | some epoch ↦
        let w' : Watcher =
          if leb (5 * num_blocks_in_epoch) epoch.start_height
          then clear_down (epoch.start_height - 5 * num_blocks_in_epoch) w
          else w in
        record w' { epoch_list = drop (length w.epoch_list - 5) w.epoch_list }
  ]

  unfoldable pub generate_new_epoch : Watcher → Outcome Watcher
  generate_new_epoch w = do
    let start = w.last_epoch_end_height + 1
    g ←
        gather (w.latest_finalized_height + 1 - start) start w.height_to_finalized_block
          nothing_gathered
    sent ← require (has_room w) channel_full
    returns (clear_old_data (record_epoch w (new_epoch w g)))

  -- The end of `addBlock`, with the block that has ten confirmations.
  unfoldable pub finalize : Watcher → BchBlock → Outcome Watcher
  finalize w blk = elim (lookup blk.height w.height_to_finalized_block) [
    | some finalized ↦ require (equal finalized blk) deep_reorganization >> returns w
    | none ↦
        let w' : Watcher = record w {
          height_to_finalized_block = insert blk.height blk w.height_to_finalized_block;
          latest_finalized_height = w.latest_finalized_height + 1;
        } in
        require (w.latest_finalized_height + 1 == blk.height) height_skipped
        >> (if w'.latest_finalized_height - w.last_epoch_end_height == num_blocks_in_epoch
            then generate_new_epoch w'
            else returns w')
  ]

  -- The second component is the hash of a missing block.
  unfoldable pub add_block : Watcher → BchBlock → Outcome (Watcher × Option ℕ)
  add_block w blk =
      let w' : Watcher = record w { hash_to_block = insert blk.hash_id blk w.hash_to_block } in
      elim (lookup blk.parent_blk w'.hash_to_block) [
        | none ↦ returns (w', missing_hash blk.parent_blk)
        | some parent ↦ elim (confirm 9 parent w'.hash_to_block) [
          | unconfirmed hash ↦ returns (w', hash)
          | confirmed b ↦ finalize w' b >>= λ w''. returns (w'', none)
        ]
      ]

  module _ (get_block_by_height get_block_by_hash : ℕ → Option BchBlock) where
    -- The loop that traces a new tip back, at most `i` blocks.
    unfoldable pub trace : ℕ → Watcher × Option ℕ → Outcome Watcher
    trace i (w, none) = returns w
    trace zero (w, some hash) = returns w
    trace (suc i) (w, some hash) =
        deref (get_block_by_hash hash) no_parent_block >>= λ blk. add_block w blk >>= trace i

    -- What `Run` does after it has added the block of a height: it traces a missing block back and
    -- falls back by a height, or goes on, and forgets the blocks of forks from time to time.
    unfoldable pub follow_up : ℕ → Watcher × Option ℕ → Outcome (Watcher × ℕ)
    follow_up height (w, some hash) = trace 10 (w, some hash) >>= λ w'. returns (w', height)
    follow_up height (w, none) =
        let forgets = (height + 1) % num_blocks_to_clear_memory == 0 in
        returns (record w { hash_to_block = if forgets then [] else w.hash_to_block }, height + 1)

    -- One round of `Run`, and the height that was fetched last. Where there is no block yet, the code
    -- waits, and then goes on with the nil pointer.
    unfoldable pub run_round : Watcher × ℕ → Outcome (Watcher × ℕ)
    run_round (w, height) = deref (get_block_by_height (height + 1)) nil_dereference >>= λ blk.
        add_block w blk >>= follow_up height

    -- The loop of `Run`, for a number of rounds, beside a receiver that takes an epoch that waits in the
    -- channel before each round.
    unfoldable pub run_rounds : ℕ → Watcher × ℕ → Outcome (Watcher × ℕ)
    run_rounds zero s = returns s
    run_rounds (suc k) s = run_rounds k s >>= λ r. run_round (take_epoch r.0, r.1)
