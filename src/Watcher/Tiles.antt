-- ===== src/Watcher/Tiles.antt =====
-- Epochs that follow each other without a gap (`generateNewEpoch` of staking/watcher.go).
use smartbch.Base.{List, [], arith, length, ℕ, ◌*◌, ◌++◌, ◌+◌, ◌∷◌, ◌≡◌}
use smartbch.Watcher.Blocks.{Epoch}

module _ (num_blocks_in_epoch : ℕ) where
  -- The epochs begin at `start` and follow each other without a gap, up to where the next begins.
  abbrev pub Tiles : ℕ → ℕ → List Epoch → Type 0
  Tiles start next_start [] = start ≡ next_start
  Tiles start next_start (e ∷ es) =
      (e.start_height ≡ start) × Tiles (start + num_blocks_in_epoch) next_start es

  pub Tiles-append :
      (start next_start : ℕ) (es : List Epoch) (e : Epoch)
      → Tiles start next_start es
      → e.start_height ≡ next_start
      → Tiles start (next_start + num_blocks_in_epoch) (es ++ e ∷ [])
  Tiles-append start next_start [] e h s = (omega arith, omega arith)
  Tiles-append start next_start (x ∷ es) e h s =
      (h.0, Tiles-append (start + num_blocks_in_epoch) next_start es e h.1 s)

-- Epochs without a gap are as long as their number says.
pub Tiles-length :
    (num_blocks_in_epoch start next_start : ℕ) (es : List Epoch)
    → Tiles num_blocks_in_epoch start next_start es
    → next_start ≡ start + length es * num_blocks_in_epoch
Tiles-length n start next_start [] e = ground (arith, e)
Tiles-length n start next_start (x ∷ es) h =
    omega (arith, Tiles-length n (start + n) next_start es h.1)
