-- ===== src/Watcher/Runs.antt =====
-- Every run of the watcher (`Run` of staking/watcher.go), whatever the mainnet node answers.
use smartbch.Base.{
  >>=-eq-returns, Option, Option-cases, Outcome-cases, [], arith, deref, if◌then◌else◌, inl, inr,
  insert, lookup, nil_dereference, no_parent_block, none, refl, returns, some, suc, zero, ℕ, ◌%◌,
  ◌+◌, ◌<◌, ◌==◌, ◌>>=◌, ◌≡◌,
}
use smartbch.Watcher.Blocks.{BchBlock}
use smartbch.Watcher.Epochs.{IsWatching, Progress, finalize_lem, keeps, puts_out}
use smartbch.Watcher.{
  Confirmed, Watcher, add_block, confirm, confirmed, finalize, trace, unconfirmed, run_round,
  follow_up, new_watcher, take_epoch,
}
use smartbch.Watcher.Tiles.{Tiles, Tiles-append}

module _ (num_blocks_in_epoch num_blocks_to_clear_memory : ℕ) where
  -- The invariant of a run from `last_height` on.
  pub record IsRunning (last_height : ℕ) (w : Watcher) : Type 0 where
    pub watching : IsWatching num_blocks_in_epoch num_blocks_to_clear_memory w
    pub tiles :
        Tiles num_blocks_in_epoch (last_height + 1) (w.last_epoch_end_height + 1) w.epoch_chan

  Progress-IsRunning :
      {last_height : ℕ} {w w' : Watcher}
      → IsRunning last_height w
      → IsWatching num_blocks_in_epoch num_blocks_to_clear_memory w'
      → Progress num_blocks_in_epoch num_blocks_to_clear_memory w w'
      → IsRunning last_height w'
  Progress-IsRunning r v (keeps chan last) = record {
    watching = v;
    tiles = rw (chan, last) r.tiles;
  }
  Progress-IsRunning {last_height} {w} {w'} r v (puts_out epoch chan start last) =
      let end : w'.last_epoch_end_height + 1 ≡ w.last_epoch_end_height + 1 + num_blocks_in_epoch =
        omega (arith, last) in
      record {
        watching = v;
        tiles =
            rw (chan, end)
              (Tiles-append num_blocks_in_epoch (last_height + 1) (w.last_epoch_end_height + 1)
                w.epoch_chan epoch r.tiles start);
      }

  pub add_block-IsRunning :
      {last_height : ℕ} {w : Watcher} (blk : BchBlock) {r : Watcher × Option ℕ}
      → IsRunning last_height w
      → add_block num_blocks_in_epoch num_blocks_to_clear_memory w blk ≡ returns r
      → IsRunning last_height r.0
  unfolding add_block
  add_block-IsRunning {last_height} {w} blk {r} h e =
      let known : Watcher = record w { hash_to_block = insert blk.hash_id blk w.hash_to_block } in
      let watching : IsWatching num_blocks_in_epoch num_blocks_to_clear_memory known = record {
        ordered = h.watching.ordered;
        short = h.watching.short;
        at_hand = h.watching.at_hand;
      } in
      let running : IsRunning last_height known = record { watching = watching; tiles = h.tiles } in
      elim (Option-cases (lookup blk.parent_blk known.hash_to_block)) [
        | inl orphan ↦ let same : r.0 ≡ known = ground arith in rw same running
        | inr (parent, found) ↦ go parent running found (confirm 9 parent known.hash_to_block) refl
      ]
    where
      known : Watcher
      known = record w { hash_to_block = insert blk.hash_id blk w.hash_to_block }

      go :
          (parent : BchBlock)
          → IsRunning last_height known
          → lookup blk.parent_blk known.hash_to_block ≡ some parent
          → (x : Confirmed) → confirm 9 parent known.hash_to_block ≡ x
          → IsRunning last_height r.0
      go parent running found (unconfirmed hash) c =
          let same : r.0 ≡ known = ground arith in rw same running
      go parent running found (confirmed b) c =
          elim (Outcome-cases (finalize num_blocks_in_epoch num_blocks_to_clear_memory known b)) [
            | inl (x, bad) ↦ absurd (ground arith)
            | inr (w', done) ↦
                let next =
                  finalize_lem num_blocks_in_epoch num_blocks_to_clear_memory known b
                    running.watching done in
                let same : r.0 ≡ w' = ground arith in
                rw same (Progress-IsRunning running next.0 next.1)
          ]

  module _ (get_block_by_hash : ℕ → Option BchBlock) where
    trace-IsRunning :
        {last_height : ℕ} (i : ℕ) (s : Watcher × Option ℕ) {w' : Watcher}
        (get_block_by_height : ℕ → Option BchBlock)
        → IsRunning last_height s.0
        → trace num_blocks_in_epoch num_blocks_to_clear_memory get_block_by_height get_block_by_hash
            i s
          ≡ returns w'
        → IsRunning last_height w'
    unfolding trace
    trace-IsRunning i (w, none) {w'} g h e = let same : w' ≡ w = ground arith in rw same h
    trace-IsRunning zero (w, some hash) {w'} g h e = let same : w' ≡ w = ground arith in rw same h
    trace-IsRunning {last_height} (suc i) (w, some hash) {w'} g h e =
        elim (Option-cases (get_block_by_hash hash)) [
          | inl unknown ↦ absurd (ground arith)
          | inr (blk, known) ↦
              elim (Outcome-cases
                (add_block num_blocks_in_epoch num_blocks_to_clear_memory w blk)) [
                  | inl (x, bad) ↦ absurd (ground arith)
                  | inr (s, done) ↦
                      let step : (deref (get_block_by_hash hash) no_parent_block >>= λ b.
                      add_block num_blocks_in_epoch num_blocks_to_clear_memory w b
                      >>= trace num_blocks_in_epoch num_blocks_to_clear_memory g get_block_by_hash
                          i)
                          ≡ returns w' =
                        e in
                      trace-IsRunning i s g (add_block-IsRunning blk h done)
                        (rw (known, done) at step)
                ]
        ]

    follow_up-IsRunning :
        {last_height : ℕ} (height : ℕ) (s : Watcher × Option ℕ) {r : Watcher × ℕ}
        (get_block_by_height : ℕ → Option BchBlock)
        → IsRunning last_height s.0
        → follow_up num_blocks_in_epoch num_blocks_to_clear_memory get_block_by_height
            get_block_by_hash height s
          ≡ returns r
        → IsRunning last_height r.0
    unfolding follow_up
    follow_up-IsRunning height (w, none) {r} g h e =
        let forgets = (height + 1) % num_blocks_to_clear_memory == 0 in
        let same : r.0 ≡ record w { hash_to_block = if forgets then [] else w.hash_to_block } =
          ground arith in
        rw same (record {
          watching = record {
            ordered = h.watching.ordered;
            short = h.watching.short;
            at_hand = h.watching.at_hand;
          };
          tiles = h.tiles;
        })
    follow_up-IsRunning height (w, some hash) {r} g h e =
        let (w', traced, e1) =
          >>=-eq-returns
            (trace num_blocks_in_epoch num_blocks_to_clear_memory g get_block_by_hash 10
              (w, some hash))
            (λ w'. returns (w', height)) e in
        let same : r.0 ≡ w' = ground arith in rw same (trace-IsRunning 10 (w, some hash) g h traced)

    pub run_round-IsRunning :
        {last_height : ℕ} (s : Watcher × ℕ) {r : Watcher × ℕ}
        (get_block_by_height : ℕ → Option BchBlock)
        → IsRunning last_height s.0
        → run_round num_blocks_in_epoch num_blocks_to_clear_memory get_block_by_height
            get_block_by_hash s
          ≡ returns r
        → IsRunning last_height r.0
    unfolding run_round
    run_round-IsRunning (w, height) g h e =
        let (blk, got, e1) =
          >>=-eq-returns (deref (g (height + 1)) nil_dereference)
            (λ blk.
              add_block num_blocks_in_epoch num_blocks_to_clear_memory w blk
              >>= follow_up num_blocks_in_epoch num_blocks_to_clear_memory g get_block_by_hash
                  height)
            e in
        let (added, done, e2) =
          >>=-eq-returns (add_block num_blocks_in_epoch num_blocks_to_clear_memory w blk)
            (follow_up num_blocks_in_epoch num_blocks_to_clear_memory g get_block_by_hash height)
            e1 in
        follow_up-IsRunning height added g (add_block-IsRunning blk h done) e2

  -- The rounds of a run, with the receives between them. What the node answers may change from round to
  -- round.
  pub data Runs (start : Watcher × ℕ) : Watcher × ℕ → Type 0 where
    starts : Runs start start
    goes_on :
        {s r : Watcher × ℕ} (get_block_by_height get_block_by_hash : ℕ → Option BchBlock)
        → Runs start s
        → run_round num_blocks_in_epoch num_blocks_to_clear_memory get_block_by_height
            get_block_by_hash s
          ≡ returns r
        → Runs start r
    receives :
        {w : Watcher} {height : ℕ} → Runs start (w, height) → Runs start (take_epoch w, height)

  take_epoch-IsRunning :
      {last_height : ℕ} {w : Watcher}
      → IsRunning last_height w
      → IsRunning last_height (take_epoch w)
  unfolding take_epoch
  take_epoch-IsRunning h = record {
    watching = record {
      ordered = h.watching.ordered;
      short = h.watching.short;
      at_hand = h.watching.at_hand;
    };
    tiles = h.tiles;
  }

  Runs-IsRunning :
      {last_height : ℕ} {s : Watcher × ℕ}
      → 0 < num_blocks_in_epoch
      → Runs (new_watcher last_height, last_height) s
      → IsRunning last_height s.0
  unfolding new_watcher
  Runs-IsRunning positive starts = record {
    watching = record {
      ordered = omega arith;
      short = omega arith;
      at_hand = λ h lo hi. absurd (omega arith);
    };
    tiles = refl;
  }
  Runs-IsRunning positive (receives before) = take_epoch-IsRunning (Runs-IsRunning positive before)
  Runs-IsRunning positive (goes_on g f before step) =
      run_round-IsRunning f _ g (Runs-IsRunning positive before) step

  -- Whatever the node answers in each round, and whenever epochs are received between the rounds, as
  -- long as every round ends, without a panic and without a send that finds the channel full: the
  -- epochs that a watcher has sent on its channel, received or not, cover the heights from the block
  -- behind `last_height` up to `lastEpochEndHeight`, each `NumBlocksInEpoch` long and each where the
  -- one before ends, and between the rounds fewer than `NumBlocksInEpoch` further blocks are
  -- finalized, all of which are in `heightToFinalizedBlock`.
  pub run-Tiles :
      {last_height : ℕ} {s : Watcher × ℕ}
      → 0 < num_blocks_in_epoch
      → Runs (new_watcher last_height, last_height) s
      → Tiles num_blocks_in_epoch (last_height + 1) (s.0.last_epoch_end_height + 1) s.0.epoch_chan
        × IsWatching num_blocks_in_epoch num_blocks_to_clear_memory s.0
  run-Tiles positive run = let r = Runs-IsRunning positive run in (r.tiles, r.watching)
