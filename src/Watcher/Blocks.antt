-- ===== src/Watcher/Blocks.antt =====
-- staking/types/types.go: what the watcher knows of the blocks of Bitcoin Cash's mainnet. Heights and
-- times are natural numbers, far below 2 ^ 63; a hash is the number that its bytes spell.
use smartbch.Base.{Bool, List, Map, [], get_elem?, none, some, ℕ, ◌&&◌, ◌==◌, ◌∷◌}
use smartbch.Staking.Epoch.{Nomination}

pub record BchBlock : Type 0 where
  pub height : ℕ
  pub timestamp : ℕ
  pub hash_id : ℕ
  pub parent_blk : ℕ
  pub nominations : List Nomination

-- `BCHBlock.Equal` does not look at the nominations.
unfoldable pub equal : BchBlock → BchBlock → Bool
equal b o =
    b.height == o.height
    && b.timestamp == o.timestamp
    && b.hash_id == o.hash_id
    && b.parent_blk == o.parent_blk

-- `ValMapByPubkey` is a map to pointers, into `cells`.
pub record Epoch : Type 0 where
  pub start_height : ℕ
  pub end_time : ℕ
  pub duration : ℕ
  pub cells : List Nomination
  pub val_map_by_pubkey : Map ℕ

-- The values of the map, as a range over it sees them.
unfoldable pub nominations_of : Map ℕ → List Nomination → List Nomination
nominations_of [] cells = []
nominations_of ((key, i) ∷ m) cells = elim (get_elem? cells i) [
  | none ↦ nominations_of m cells
  | some n ↦ n ∷ nominations_of m cells
]
