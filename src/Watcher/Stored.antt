-- ===== src/Watcher/Stored.antt =====
-- What the watcher's maps hold of a chain without forks, and the search for the tenth confirmation in
-- them (staking/watcher.go).
use smartbch.Base.{
  Bool-cases, List, Map, Option-cases, ap, arith, erase, false, inl, inr, insert, lookup,
  lookup-erase, lookup-insert, none, refl, some, suc, sym, zero, ℕ, ◌+◌, ◌<◌, ◌==◌, ◌∙◌, ◌≡◌, ◌≢◌,
  ◌≤◌,
}
use smartbch.Watcher.Blocks.{BchBlock}
use smartbch.Watcher.Chain.{IsLinear, chain_block}
use smartbch.Staking.Epoch.{Nomination}
use smartbch.Watcher.{Watcher, clear_down}

-- The chain begins behind `last_height`: the block with index i has the height last_height + 1 + i.
module _ (last_height : ℕ) (hash timestamp : ℕ → ℕ) (nominations : ℕ → List Nomination) where
  abbrev pub mined : ℕ → BchBlock
  mined i = chain_block hash timestamp nominations (last_height + 1) i

  -- The two maps after `count` blocks: the last ten blocks can be looked up by their hashes, and
  -- what is finalized is behind them.
  pub record IsHolding (count : ℕ) (by_height by_hash : Map BchBlock) : Type 0 where
    pub recent : (i : ℕ) → count ≤ i + 10 → i < count → lookup (hash i) by_hash ≡ some (mined i)
    pub rooted : lookup 0 by_hash ≡ none
    pub finalized :
        (h : ℕ) (b : BchBlock)
        → lookup h by_height ≡ some b
        → (i : ℕ) × (b ≡ mined i) × (h ≡ last_height + 1 + i) × (i + 10 < count)

  module _ (linear : IsLinear hash timestamp nominations) where
    pub insert_recent :
        (count : ℕ) (by_height by_hash : Map BchBlock)
        → IsHolding count by_height by_hash
        → (i : ℕ) → count ≤ i + 10
        → i ≤ count
        → lookup (hash i) (insert (hash count) (mined count) by_hash) ≡ some (mined i)
    insert_recent count by_height by_hash stored i lo hi =
        elim (Bool-cases (hash count == hash i)) [
          | inl same ↦
              let e : count ≡ i = linear.injective count i (ground arith) in
              rw (lookup-insert (hash count) (hash i) (mined count) by_hash, same) (rw e refl)
          | inr differs ↦
              let ne : count ≢ i = λ q. absurd (ground (arith, ap hash q)) in
              rw (lookup-insert (hash count) (hash i) (mined count) by_hash, differs)
                (stored.recent i lo (omega (arith, ne, hi)))
        ]

    pub insert_rooted :
        (count : ℕ) (by_hash : Map BchBlock)
        → lookup 0 by_hash ≡ none
        → lookup 0 (insert (hash count) (mined count) by_hash) ≡ none
    insert_rooted count by_hash rooted =
        ground
          (arith, lookup-insert (hash count) 0 (mined count) by_hash, linear.not_zero count, rooted)

    -- A finalized block is forgotten.
    erase-IsHolding :
        (count h : ℕ) (blk : BchBlock) (by_height by_hash : Map BchBlock)
        → IsHolding count by_height by_hash
        → lookup h by_height ≡ some blk
        → IsHolding count (erase h by_height) (erase blk.hash_id by_hash)
    erase-IsHolding count h blk by_height by_hash stored found =
        let (i, is_mined, at, old) = stored.finalized h blk found in
        rw is_mined (record {
          recent = λ j lo hi.
              let ne : (hash i == hash j) ≡ false = elim (Bool-cases (hash i == hash j)) [
                | inl same ↦
                    let e : i ≡ j = linear.injective i j (ground arith) in
                    absurd (omega (arith, e, old, lo))
                | inr differs ↦ differs
              ] in
              rw (lookup-erase (hash i) (hash j) by_hash, ne) (stored.recent j lo hi);
          rooted = rw (lookup-erase (hash i) 0 by_hash, linear.not_zero i) stored.rooted;
          finalized = λ k b kept. elim (Bool-cases (h == k)) [
            | inl same ↦ absurd (ground (arith, lookup-erase h k by_height))
            | inr differs ↦
                stored.finalized k b (sym (rw (lookup-erase h k by_height, differs) refl) ∙ kept)
          ];
        })

    pub clear_down-IsHolding :
        (count height : ℕ) (w : Watcher)
        → IsHolding count w.height_to_finalized_block w.hash_to_block
        → IsHolding count
            (clear_down height w).height_to_finalized_block
            (clear_down height w).hash_to_block
    unfolding clear_down
    clear_down-IsHolding count zero w stored =
        elim (Option-cases (lookup 0 w.height_to_finalized_block)) [
          | inl e ↦ rw (clear_down, e) stored
          | inr (blk, e) ↦
              rw (clear_down, e)
                (erase-IsHolding count 0 blk w.height_to_finalized_block w.hash_to_block stored e)
        ]
    clear_down-IsHolding count (suc height) w stored =
        elim (Option-cases (lookup (suc height) w.height_to_finalized_block)) [
          | inl e ↦ rw (clear_down, e) stored
          | inr (blk, e) ↦
              rw (clear_down, e)
                (clear_down-IsHolding count height
                  (record w {
                    height_to_finalized_block = erase (suc height) w.height_to_finalized_block;
                    hash_to_block = erase blk.hash_id w.hash_to_block;
                  })
                  (erase-IsHolding count (suc height) blk w.height_to_finalized_block
                    w.hash_to_block stored e))
        ]
