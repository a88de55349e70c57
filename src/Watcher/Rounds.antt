-- ===== src/Watcher/Rounds.antt =====
-- Rounds of the watcher, and the epochs that a number of blocks gives (`Run` of staking/watcher.go).
use smartbch.Base.{
  >>=-elim, Option, ap, arith, refl, returns, suc, zero, ℕ, ◌*◌, ◌+◌, ◌<◌, ◌≡◌, ◌≤◌,
}
use smartbch.Watcher.Blocks.{BchBlock}
use smartbch.Watcher.{Watcher, run_rounds}
use smartbch.Watcher.Runs.{Runs, goes_on, starts, receives}

-- The number of whole epochs in a number of blocks.
pub whole_epochs : (n whole m : ℕ) → whole * n ≤ m * n → m * n < whole * n + n → whole ≡ m
whole_epochs n zero zero lo hi = refl
whole_epochs n zero (suc m) lo hi = absurd (omega (arith, hi))
whole_epochs n (suc whole) zero lo hi = absurd (omega (arith, lo))
whole_epochs n (suc whole) (suc m) lo hi =
    ap suc (whole_epochs n whole m (omega (arith, lo)) (omega (arith, hi)))

module _ (num_blocks_in_epoch num_blocks_to_clear_memory : ℕ)
    (get_block_by_height get_block_by_hash : ℕ → Option BchBlock) where
  pub run_rounds-Runs :
      (count : ℕ) (start : Watcher × ℕ) {s : Watcher × ℕ}
      → run_rounds num_blocks_in_epoch num_blocks_to_clear_memory get_block_by_height
          get_block_by_hash count start
        ≡ returns s
      → Runs num_blocks_in_epoch num_blocks_to_clear_memory start s
  unfolding run_rounds
  run_rounds-Runs zero start {s} e = let same : s ≡ start = ground arith in rw same starts
  run_rounds-Runs (suc count) start e =
      >>=-elim
        (run_rounds num_blocks_in_epoch num_blocks_to_clear_memory get_block_by_height
          get_block_by_hash count start)
        _ e
        (λ before ran goes.
          goes_on get_block_by_height get_block_by_hash (receives (run_rounds-Runs count start ran))
            goes)
