-- ===== src/Tests/Mainnet.antt =====
-- A run of the watcher (staking/watcher.go) on a chain of a hundred blocks as in its own tests
-- (staking/watcher_test.go): the hash of a block is its height, and an epoch has three blocks.
use smartbch.Watcher.Chain
use smartbch.Base.{
  List, Option, Outcome, [], arith, channel_full, height_skipped, if◌then◌else◌, insert, leb,
  length, lookup, map, none, panics, refl, returns, some, suc, zero, ℕ, ◌&&◌, ◌*◌, ◌+◌, ◌-◌, ◌>>=◌,
  ◌∷◌, ◌≡◌, ◌≤◌,
}
use smartbch.Watcher.Runs.{run-Tiles}
use smartbch.Watcher.Blocks.{BchBlock}
use smartbch.Watcher.{
  Watcher, new_watcher, run_round, add_block, clear_old_data, confirm, finalize, follow_up, gather,
  generate_new_epoch, run_rounds, take_epoch,
}
use smartbch.Watcher.Epochs.{IsWatching}
use smartbch.Watcher.Chain.{IsLinear}
use smartbch.Watcher.LateStart.{late_start_panics}
use smartbch.Watcher.Liveness.{epochs_come}
use smartbch.Watcher.Rounds.{run_rounds-Runs}
use smartbch.Watcher.Tiles.{Tiles}

abbrev block : ℕ → BchBlock
block height = record {
  height = height;
  timestamp = 600 * height;
  hash_id = height;
  parent_blk = height - 1;
  nominations = record { pubkey = 1; nominated_count = 1 } ∷ [];
}

abbrev get_block : ℕ → Option BchBlock
get_block height = if leb 1 height && leb height 100 then some (block height) else none

abbrev rounds : ℕ → Watcher × ℕ → Outcome (Watcher × ℕ)
rounds n s = run_rounds 3 100000 get_block get_block n s

-- What the checks below look at.
abbrev seen : Outcome (Watcher × ℕ) → Outcome (List (ℕ × ℕ × ℕ) × ℕ)
seen o = o >>= λ s. returns (
  map (λ e. (e.start_height, e.end_time, e.duration)) s.0.epoch_chan,
  s.0.latest_finalized_height,
)

seventeen_rounds :
    seen (rounds 17 (new_watcher 0, 0)) ≡ returns ((1, 1800, 1200) ∷ (4, 3600, 1800) ∷ [], 7)
unfolding run_rounds run_round add_block lookup insert new_watcher follow_up confirm finalize
    generate_new_epoch gather clear_old_data take_epoch
seventeen_rounds = refl

-- Without a receiver the second send finds the channel full.
abbrev unread_rounds : ℕ → Watcher × ℕ → Outcome (Watcher × ℕ)
unread_rounds zero s = returns s
unread_rounds (suc n) s = unread_rounds n s >>= run_round 3 100000 get_block get_block

unread_rounds_wait : unread_rounds 17 (new_watcher 0, 0) ≡ panics channel_full
unfolding run_round add_block lookup insert new_watcher follow_up confirm finalize
    generate_new_epoch gather clear_old_data
unread_rounds_wait = refl

ran : (s : Watcher × ℕ) × (rounds 17 (new_watcher 0, 0) ≡ returns s)
unfolding run_rounds run_round add_block lookup insert new_watcher follow_up confirm finalize
    generate_new_epoch gather clear_old_data take_epoch
ran = (_, refl)

run-Tiles_example :
    Tiles 3 1 (ran.0.0.last_epoch_end_height + 1) ran.0.0.epoch_chan × IsWatching 3 100000 ran.0.0
run-Tiles_example =
    run-Tiles 3 100000 {last_height = 0} (omega arith)
      (run_rounds-Runs 3 100000 get_block get_block 17 (new_watcher 0, 0) ran.1)

-- A chain whose hashes are the heights plus one, and a node that serves all of it.
abbrev mainnet_block : ℕ → BchBlock
mainnet_block i = Chain.chain_block (λ h. h + 1) (λ h. 600 * h) (λ h. []) 0 i

chain-IsLinear : IsLinear (λ h. h + 1) (λ h. 600 * h) (λ h. [])
chain-IsLinear = record { injective = λ i j e. omega (arith, e); not_zero = λ i. ground arith }

late_start_panics_example :
    (s : Watcher × ℕ) × (run_round 2016 100000
        (λ h. some (mainnet_block h))
        (λ x. some (mainnet_block (x - 1)))
        (new_watcher 20, 20)
      ≡ returns s)
    × (run_round 2016 100000 (λ h. some (mainnet_block h)) (λ x. some (mainnet_block (x - 1))) s
        ≡ panics height_skipped)
late_start_panics_example =
    late_start_panics (λ h. h + 1) (λ h. 600 * h) (λ h. []) chain-IsLinear 2016 100000
      (λ h. some (mainnet_block h)) (λ x. some (mainnet_block (x - 1)))
      (λ i. let e : i + 1 - 1 ≡ i = omega arith in rw e refl) 20 (omega arith) refl

-- The same chain from height 6 on, for a watcher that clears its memory at every seventh height.
abbrev later_block : ℕ → BchBlock
later_block i = Chain.chain_block (λ h. h + 1) (λ h. 600 * h) (λ h. []) 6 i

epochs_come_example :
    (k : ℕ) × (w : Watcher) × (run_rounds 3 7
        (λ h. some (later_block (h - 6)))
        (λ x. some (later_block (x - 1)))
        k
        (new_watcher 5, 5)
      ≡ returns (w, 21))
    × (k ≤ 32)
    × (w.latest_finalized_height ≡ 11)
    × (length w.epoch_chan ≡ 2)
    × (2 ≤ w.received + 1)
epochs_come_example =
    epochs_come 3 7 5 (λ h. h + 1) (λ h. 600 * h) (λ h. []) chain-IsLinear (omega arith)
      (λ h. some (later_block (h - 6))) (λ x. some (later_block (x - 1)))
      (λ i. let e : 6 + i - 6 ≡ i = omega arith in rw e refl)
      (λ i. let e : i + 1 - 1 ≡ i = omega arith in rw e refl) 2
