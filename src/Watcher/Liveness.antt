-- ===== src/Watcher/Liveness.antt =====
-- The epochs of the watcher come (`Run` of staking/watcher.go).
use smartbch.Base.{
  Bool-cases, List, Map, Option, [], arith, if◌then◌else◌, inl, inr, length, lookup, ltb, none,
  refl, returns, some, suc, zero, ℕ, ◌%◌, ◌*◌, ◌+◌, ◌<◌, ◌==◌, ◌≡◌, ◌≤◌,
}
use smartbch.Watcher.Blocks.{BchBlock}
use smartbch.Watcher.Chain.{IsLinear}
use smartbch.Staking.Epoch.{Nomination}
use smartbch.Watcher.{Watcher, add_block, follow_up, new_watcher, run_round, run_rounds, take_epoch}
use smartbch.Watcher.Stored.{mined}
use smartbch.Watcher.Runs.{run-Tiles}
use smartbch.Watcher.Adding.{Steady, add_block-Steady}
use smartbch.Watcher.Retrace.{Traced, retrace}
use smartbch.Watcher.Rounds.{run_rounds-Runs, whole_epochs}
use smartbch.Watcher.Tiles.{Tiles-length}

module _ (num_blocks_in_epoch num_blocks_to_clear_memory last_height : ℕ) (hash timestamp : ℕ → ℕ)
    (nominations : ℕ → List Nomination) (linear : IsLinear hash timestamp nominations)
    (positive : 0 < num_blocks_in_epoch)
    (get_block_by_height get_block_by_hash : ℕ → Option BchBlock)
    (serves : (i : ℕ)
      → get_block_by_height (last_height + 1 + i)
        ≡ some (mined last_height hash timestamp nominations i))
    (serves_hash : (i : ℕ)
      → get_block_by_hash (hash i) ≡ some (mined last_height hash timestamp nominations i)) where
  abbrev OnChain : ℕ → Watcher → Type 0
  OnChain count w =
      Steady num_blocks_in_epoch num_blocks_to_clear_memory last_height hash timestamp nominations
        linear positive count w

  new_watcher-OnChain : OnChain 0 (new_watcher last_height)
  unfolding new_watcher lookup
  new_watcher-OnChain = record {
    stored = record {
      recent = λ i lo hi. absurd (omega (arith, hi));
      rooted = refl;
      finalized = λ k b found. absurd (ground (arith, found));
    };
    reached = omega arith;
    watching = record {
      ordered = omega arith;
      short = omega (arith, positive);
      at_hand = λ k lo hi. absurd (omega (arith, lo, hi));
    };
    unread = omega arith;
  }

  -- A round that adds a block, which clears the memory or not.
  adding_round :
      (count : ℕ) (w w' : Watcher)
      → add_block num_blocks_in_epoch num_blocks_to_clear_memory w
          (mined last_height hash timestamp nominations count)
        ≡ returns (w', none)
      → run_round num_blocks_in_epoch num_blocks_to_clear_memory get_block_by_height
          get_block_by_hash
          (w, last_height + count)
        ≡ returns (
          record w' {
            hash_to_block =
                if (last_height + 1 + count) % num_blocks_to_clear_memory == 0
                then []
                else w'.hash_to_block;
          },
          last_height + suc count,
        )
  unfolding run_round follow_up
  adding_round count w w' added =
      let next : last_height + count + 1 ≡ last_height + 1 + count = omega arith in
      let end : last_height + suc count ≡ last_height + 1 + count = omega arith in
      rw (end, run_round, next, serves count) (rw (added, follow_up, next) refl)

  retraced-OnChain :
      (count : ℕ) (w : Watcher) (m : Map BchBlock)
      → OnChain (suc count) w
      → Traced hash timestamp nominations
          (last_height + 1)
          linear
          num_blocks_in_epoch
          num_blocks_to_clear_memory
          get_block_by_height
          get_block_by_hash
          serves_hash
          10
          count
          (suc count)
          m
      → OnChain (suc count) (record w { hash_to_block = m })
  retraced-OnChain count w m h traced = record {
    stored = record {
      recent = λ i lo hi. traced.0 i lo (omega (arith, hi));
      rooted = traced.1;
      finalized = h.stored.finalized;
    };
    reached = h.reached;
    watching = record {
      ordered = h.watching.ordered;
      short = h.watching.short;
      at_hand = h.watching.at_hand;
    };
    unread = h.unread;
  }

  -- After a receive the channel has room.
  take_epoch-OnChain :
      (count : ℕ) (w : Watcher)
      → OnChain count w
      → OnChain count (take_epoch w) × (length (take_epoch w).epoch_chan ≤ (take_epoch w).received)
  unfolding take_epoch
  take_epoch-OnChain count w h =
      let room : length w.epoch_chan
          ≤ (if ltb w.received (length w.epoch_chan) then w.received + 1 else w.received) =
        ground (arith, h.unread) in
      (
        record {
          stored = h.stored;
          reached = h.reached;
          watching = record {
            ordered = h.watching.ordered;
            short = h.watching.short;
            at_hand = h.watching.at_hand;
          };
          unread = omega (arith, room);
        },
        room,
      )

  -- The watcher after `count` blocks, which take at most two rounds each.
  Reaches : ℕ → Type 0
  Reaches count =
      (k : ℕ) × (w : Watcher) × (run_rounds num_blocks_in_epoch num_blocks_to_clear_memory
          get_block_by_height get_block_by_hash k (new_watcher last_height, last_height)
        ≡ returns (w, last_height + count))
      × OnChain count w
      × (k ≤ 2 * count)

  reaches : (count : ℕ) → Reaches count
  unfolding Reaches run_rounds take_epoch
  reaches zero =
      let e : last_height + 0 ≡ last_height = omega arith in
      (0, new_watcher last_height, rw e refl, new_watcher-OnChain, omega arith)
  reaches (suc count) =
      let (k, w, ran, steady, few) = reaches count in
      let (taken, room) = take_epoch-OnChain count w steady in
      let (w', added, steady') =
        add_block-Steady num_blocks_in_epoch num_blocks_to_clear_memory last_height hash timestamp
          nominations linear positive count (take_epoch w) taken room in
      let round = adding_round count (take_epoch w) w' added in
      elim (Bool-cases ((last_height + 1 + count) % num_blocks_to_clear_memory == 0)) [
        | inl forgets ↦
            let served : get_block_by_height (last_height + suc count + 1)
                ≡ some (mined last_height hash timestamp nominations (suc count)) =
              let e : last_height + suc count + 1 ≡ last_height + 1 + suc count = omega arith in
              rw e (serves (suc count)) in
            let (m, again, traced) =
              retrace hash timestamp nominations (last_height + 1) linear num_blocks_in_epoch
                num_blocks_to_clear_memory get_block_by_height get_block_by_hash serves_hash count
                (last_height + suc count) (take_epoch w') served in
            (
              suc (suc k),
              record (take_epoch w') { hash_to_block = m },
              rw (ran, round, forgets) again,
              retraced-OnChain count (take_epoch w') m (take_epoch-OnChain (suc count) w' steady').0
                  traced,
              omega (arith, few),
            )
        | inr remembers ↦ (suc k, w', rw (ran, round, remembers) refl, steady', omega (arith, few))
      ]

  -- On a chain without forks that begins behind `last_height`, of which the node serves every block,
  -- and beside a receiver that takes an epoch that waits in the channel before each round: a watcher
  -- that begins at `last_height` goes on without a panic and without a send that finds the channel
  -- full, and its epochs come. After at most two rounds for each of the blocks of `m` epochs and ten
  -- more, it has finalized just the blocks of `m` epochs, and has sent `m` epochs, of which one at most
  -- is still in the channel. This holds across the heights at which it clears its memory, where a
  -- round traces the chain back.
  pub epochs_come :
      (m : ℕ)
      → (k : ℕ) × (w : Watcher) × (run_rounds num_blocks_in_epoch num_blocks_to_clear_memory
            get_block_by_height get_block_by_hash k
            (new_watcher last_height, last_height)
          ≡ returns (w, last_height + (m * num_blocks_in_epoch + 10)))
        × (k ≤ 2 * (m * num_blocks_in_epoch + 10))
        × (w.latest_finalized_height ≡ last_height + m * num_blocks_in_epoch)
        × (length w.epoch_chan ≡ m)
        × (m ≤ w.received + 1)
  unfolding Reaches
  epochs_come m =
      let (k, w, ran, steady, few) = reaches (m * num_blocks_in_epoch + 10) in
      let tiles = run-Tiles num_blocks_in_epoch num_blocks_to_clear_memory positive (
        run_rounds-Runs num_blocks_in_epoch num_blocks_to_clear_memory get_block_by_height
          get_block_by_hash k (new_watcher last_height, last_height) ran) in
      let covers =
        Tiles-length num_blocks_in_epoch (last_height + 1) (w.last_epoch_end_height + 1)
          w.epoch_chan (tiles.0) in
      let at : w.latest_finalized_height ≡ last_height + m * num_blocks_in_epoch =
        omega (arith, steady.reached) in
      let all_sent : length w.epoch_chan ≡ m =
        whole_epochs num_blocks_in_epoch (length w.epoch_chan) m
          (omega (arith, steady.watching.ordered, at, covers))
          (omega (arith, steady.watching.short, at, covers)) in
      (k, w, ran, few, at, all_sent, omega (arith, all_sent, steady.unread))
