-- ===== src/Watcher/Counting.antt =====
-- staking/watcher.go: the inner loop of `generateNewEpoch`, which counts the nominations of a block.
-- Its loop variable is one variable for all rounds of one execution of the loop (Go 1.16), and the
-- map stores pointers to it: `cells` holds these variables, one for each block.
use smartbch.Base.{
  List, Map, [], add64, foldl, insert, length, lookup, modify, none, some, ℕ, ◌++◌, ◌∷◌,
}
use smartbch.Staking.Epoch.{Nomination}

pub record Tally : Type 0 where
  pub cells : List Nomination
  pub val_map : Map ℕ

abbrev pub count_up : Nomination → Nomination
count_up n = record n { nominated_count = add64 n.nominated_count 1 }

-- One round: the loop variable, `cell`, gets the nomination; a new key points to it; the entry that
-- the key points to is counted up.
unfoldable pub count_nomination : ℕ → Tally → Nomination → Tally
count_nomination cell t n = elim (lookup n.pubkey t.val_map) [
  | none ↦ record {
    cells = modify cell count_up (modify cell (λ _. n) t.cells);
    val_map = insert n.pubkey cell t.val_map;
  }
  | some i ↦ record t { cells = modify i count_up (modify cell (λ _. n) t.cells) }
]

abbrev pub no_nomination : Nomination
no_nomination = record { pubkey = 0; nominated_count = 0 }

unfoldable pub count_block : Tally → List Nomination → Tally
count_block t ns =
    foldl (count_nomination (length t.cells)) (record t { cells = t.cells ++ no_nomination ∷ [] })
      ns
