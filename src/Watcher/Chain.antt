-- ===== src/Watcher/Chain.antt =====
-- A chain of the mainnet without forks, and how the watcher traces it back (staking/watcher.go).

-- The hash, the time and the nominations of each block.
use smartbch.Base.{
  Bool-cases, List, Map, ap, arith, false, inl, inr, insert, lookup, lookup-insert, none, refl,
  returns, some, suc, zero, ℕ, ◌+◌, ◌-◌, ◌<◌, ◌==◌, ◌≡◌, ◌≢◌, ◌≤◌,
}
use smartbch.Watcher.Blocks.{BchBlock}
use smartbch.Staking.Epoch.{Nomination}
use smartbch.Watcher.{Watcher, add_block, confirm, confirmed, unconfirmed}

module _ (hash timestamp : ℕ → ℕ) (nominations : ℕ → List Nomination) where
  abbrev pub parent_hash : ℕ → ℕ
  parent_hash zero = 0
  parent_hash (suc i) = hash i

  -- No two hashes are the same, and none is zero.
  pub record IsLinear : Type 0 where
    pub injective : (i j : ℕ) → hash i ≡ hash j → i ≡ j
    pub not_zero : (i : ℕ) → (hash i == 0) ≡ false

  -- The chain begins at the height `first`.
  module _ (first : ℕ) where
    abbrev pub chain_block : ℕ → BchBlock
    chain_block i = record {
      height = first + i;
      timestamp = timestamp i;
      hash_id = hash i;
      parent_blk = parent_hash i;
      nominations = nominations i;
    }

    -- A map that has exactly the blocks of a range of heights.
    abbrev pub HasRange : ℕ → ℕ → Map BchBlock → Type 0
    HasRange low high m =
        (i : ℕ)
        → ((low ≤ i) → (i ≤ high) → lookup (hash i) m ≡ some (chain_block i))
          × ((i < low) → lookup (hash i) m ≡ none)

    module _ (linear : IsLinear) where
      pub insert-HasRange :
          (low high : ℕ) (m : Map BchBlock)
          → HasRange (suc low) high m
          → HasRange low high (insert (hash low) (chain_block low) m)
      insert-HasRange low high m r i = elim (Bool-cases (hash low == hash i)) [
        | inl same ↦
            let e : low ≡ i = linear.injective low i (ground arith) in
            (
              λ lo hi. rw (lookup-insert (hash low) (hash i) (chain_block low) m, same) (rw e refl),
              λ below. absurd (omega (arith, e, below)),
            )
        | inr differs ↦
            let ne : low ≢ i = λ q. absurd (ground (arith, ap hash q)) in
            (
              λ lo hi.
                  rw (lookup-insert (hash low) (hash i) (chain_block low) m, differs)
                    ((r i).0 (omega (arith, ne, lo)) hi),
              λ below.
                  rw (lookup-insert (hash low) (hash i) (chain_block low) m, differs)
                    ((r i).1 (omega (arith, below))),
            )
      ]

      pub confirm_recent :
          (n p low : ℕ) (by_hash : Map BchBlock)
          → ((i : ℕ) → low ≤ i → i ≤ p → lookup (hash i) by_hash ≡ some (chain_block i))
          → low + n ≤ p
          → confirm n (chain_block p) by_hash ≡ confirmed (chain_block (p - n))
      unfolding confirm
      confirm_recent zero p low by_hash known h = let e : p - 0 ≡ p = omega arith in rw e refl
      confirm_recent (suc n) zero low by_hash known h = absurd (omega arith)
      confirm_recent (suc n) (suc p) low by_hash known h =
          let found = known p (omega (arith, h)) (omega arith) in
          let down : suc p - suc n ≡ p - n = omega arith in
          let rest =
            confirm_recent n p low by_hash (λ i lo hi. known i lo (omega (arith, hi)))
              (omega (arith, h)) in
          rw down (ground (arith, found, rest))

      -- Fewer than ten blocks: the search ends at the first.
      pub confirm_short :
          (n p : ℕ) (by_hash : Map BchBlock)
          → ((i : ℕ) → i ≤ p → lookup (hash i) by_hash ≡ some (chain_block i))
          → lookup 0 by_hash ≡ none
          → p < n
          → confirm n (chain_block p) by_hash ≡ unconfirmed none
      unfolding confirm
      confirm_short zero p by_hash known rooted h = absurd (omega arith)
      confirm_short (suc n) zero by_hash known rooted h = ground (arith, rooted)
      confirm_short (suc n) (suc p) by_hash known rooted h =
          let found = known p (omega arith) in
          let rest =
            confirm_short n p by_hash (λ i hi. known i (omega (arith, hi))) rooted
              (omega (arith, h)) in
          ground (arith, found, rest)

      -- Adding a block below the range: its parent is missing.
      module _ (num_blocks_in_epoch num_blocks_to_clear_memory : ℕ) where
        abbrev pub knowing : Watcher → Map BchBlock → Watcher
        knowing w m = record w { hash_to_block = m }

        pub add_below :
            (low high : ℕ) (w : Watcher)
            → HasRange (suc (suc low)) high w.hash_to_block
            → add_block num_blocks_in_epoch num_blocks_to_clear_memory w (chain_block (suc low))
              ≡ returns (
                knowing w (insert (hash (suc low)) (chain_block (suc low)) w.hash_to_block),
                some (hash low),
              )
        unfolding add_block
        add_below low high w r =
            let missing_parent =
              (insert-HasRange (suc low) high w.hash_to_block r low).1 (omega arith) in
            ground (arith, missing_parent, linear.not_zero low)
