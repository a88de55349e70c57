-- ===== src/Watcher/LateStart.antt =====
-- A watcher that begins in the middle of the mainnet's chain (staking/watcher.go).
use smartbch.Base.{
  Bool-cases, List, Map, Option, arith, false, height_skipped, inl, inr, insert, lookup,
  lookup-insert, panics, refl, returns, some, suc, zero, ℕ, ◌+◌, ◌-◌, ◌==◌, ◌≡◌, ◌≤◌,
}
use smartbch.Watcher.Blocks.{BchBlock}
use smartbch.Watcher.Chain.{
  HasRange, IsLinear, add_below, insert-HasRange, chain_block, knowing, confirm_recent,
}
use smartbch.Staking.Epoch.{Nomination}
use smartbch.Watcher.{Watcher, add_block, finalize, follow_up, new_watcher, run_round, trace}

module _ (hash timestamp : ℕ → ℕ) (nominations : ℕ → List Nomination)
    (linear : IsLinear hash timestamp nominations)
    (num_blocks_in_epoch num_blocks_to_clear_memory : ℕ)
    (get_block_by_height get_block_by_hash : ℕ → Option BchBlock)
    (serves : (i : ℕ)
      → get_block_by_hash (hash i) ≡ some (chain_block hash timestamp nominations 0 i)) where
  trace_below :
      (n low high : ℕ) (w : Watcher)
      → HasRange hash timestamp nominations 0 (suc low) high w.hash_to_block
      → n ≤ low
      → (m : Map BchBlock) × (trace num_blocks_in_epoch num_blocks_to_clear_memory
            get_block_by_height get_block_by_hash n
            (w, some (hash low))
          ≡ returns (
              knowing hash timestamp nominations 0 linear num_blocks_in_epoch
                num_blocks_to_clear_memory w m))
        × HasRange hash timestamp nominations 0 (suc low - n) high m
  unfolding trace
  trace_below zero low high w r h =
      let e : suc low - 0 ≡ suc low = omega arith in (w.hash_to_block, refl, rw e r)
  trace_below (suc n) zero high w r h = absurd (omega arith)
  trace_below (suc n) (suc low) high w r h =
      let m =
        insert (hash (suc low)) (chain_block hash timestamp nominations 0 (suc low))
          w.hash_to_block in
      let rest =
        trace_below n low high
          (knowing hash timestamp nominations 0 linear num_blocks_in_epoch
            num_blocks_to_clear_memory w m)
          (insert-HasRange hash timestamp nominations 0 linear (suc low) high w.hash_to_block r)
          (omega (arith, h)) in
      let e : suc (suc low) - suc n ≡ suc low - n = omega arith in
      (
        rest.0,
        ground (
          arith,
          serves (suc low),
          add_below hash timestamp nominations 0 linear num_blocks_in_epoch
              num_blocks_to_clear_memory low high w r,
          rest.1,
        ),
        rw e rest.2,
      )

  reinsert-HasRange :
      (low high i : ℕ) (m : Map BchBlock)
      → HasRange hash timestamp nominations 0 low high m
      → low ≤ i
      → i ≤ high
      → HasRange hash timestamp nominations 0 low high
          (insert (hash i) (chain_block hash timestamp nominations 0 i) m)
  reinsert-HasRange low high i m r lo hi j = elim (Bool-cases (hash i == hash j)) [
    | inl same ↦
        let e : i ≡ j = linear.injective i j (ground arith) in
        (
          λ l h.
              rw
                (
                  lookup-insert (hash i) (hash j) (chain_block hash timestamp nominations 0 i) m,
                  same,
                )
                (rw e refl),
          λ below. absurd (omega (arith, e, below, lo)),
        )
    | inr differs ↦ (
      λ l h.
          rw
            (
              lookup-insert (hash i) (hash j) (chain_block hash timestamp nominations 0 i) m,
              differs,
            )
            ((r j).0 l h),
      λ below.
          rw
            (
              lookup-insert (hash i) (hash j) (chain_block hash timestamp nominations 0 i) m,
              differs,
            )
            ((r j).1 below),
    )
  ]

  nothing_known :
      (n : ℕ)
      → HasRange hash timestamp nominations 0 (suc (suc n)) (suc n) (new_watcher n).hash_to_block
  unfolding new_watcher lookup
  nothing_known n i = (λ lo hi. absurd (omega (arith, lo, hi)), λ below. refl)

  finalize_skips :
      (n : ℕ) (m : Map BchBlock)
      → 10 ≤ n
      → finalize num_blocks_in_epoch num_blocks_to_clear_memory
          (knowing hash timestamp nominations 0 linear num_blocks_in_epoch
            num_blocks_to_clear_memory
            (new_watcher n)
            m)
          (chain_block hash timestamp nominations 0 (n - 9))
        ≡ panics height_skipped
  unfolding finalize new_watcher lookup
  finalize_skips n m h =
      let skipped : (n + 1 == n - 9) ≡ false = ground arith in ground (arith, skipped)

  second_round :
      (n : ℕ) (m : Map BchBlock)
      → 10 ≤ n
      → HasRange hash timestamp nominations 0 (suc n - 10) (suc n) m
      → add_block num_blocks_in_epoch num_blocks_to_clear_memory
          (knowing hash timestamp nominations 0 linear num_blocks_in_epoch
            num_blocks_to_clear_memory
            (new_watcher n)
            m)
          (chain_block hash timestamp nominations 0 (suc n))
        ≡ panics height_skipped
  unfolding add_block
  second_round n m h r =
      let r' = reinsert-HasRange (suc n - 10) (suc n) (suc n) m r (omega arith) (omega arith) in
      let parent = (r' n).0 (omega (arith, h)) (omega arith) in
      let m' = insert (hash (suc n)) (chain_block hash timestamp nominations 0 (suc n)) m in
      let tenth =
        confirm_recent hash timestamp nominations 0 linear 9 n (suc n - 10) m'
          (λ i lo hi. (r' i).0 lo (omega (arith, hi))) (omega (arith, h)) in
      ground (arith, parent, tenth, finalize_skips n m' h)

  -- On a chain without forks, of which the node serves every block, a watcher that begins at a height
  -- of at least 10 always fails: its first round traces ten blocks back, and its second round, which
  -- adds the same block again, finds ten confirmations of a block before the one that it should
  -- finalize next, and panics with "Height Skipped".
  pub late_start_panics :
      (n : ℕ)
      → 10 ≤ n
      → get_block_by_height (suc n) ≡ some (chain_block hash timestamp nominations 0 (suc n))
      → (s : Watcher × ℕ) × (run_round num_blocks_in_epoch num_blocks_to_clear_memory
            get_block_by_height get_block_by_hash
            (new_watcher n, n)
          ≡ returns s)
        × (run_round num_blocks_in_epoch num_blocks_to_clear_memory get_block_by_height
              get_block_by_hash s
            ≡ panics height_skipped)
  unfolding run_round follow_up
  late_start_panics n h served =
      let next : n + 1 ≡ suc n = omega arith in
      let first =
        add_below hash timestamp nominations 0 linear num_blocks_in_epoch num_blocks_to_clear_memory
          n (suc n) (new_watcher n) (nothing_known n) in
      let m1 =
        insert (hash (suc n)) (chain_block hash timestamp nominations 0 (suc n))
          (new_watcher n).hash_to_block in
      let traced =
        trace_below 10 n (suc n)
          (knowing hash timestamp nominations 0 linear num_blocks_in_epoch
            num_blocks_to_clear_memory (new_watcher n) m1)
          (insert-HasRange hash timestamp nominations 0 linear (suc n) (suc n)
            (new_watcher n).hash_to_block (nothing_known n))
          h in
      (
        (
          knowing hash timestamp nominations 0 linear num_blocks_in_epoch num_blocks_to_clear_memory
              (new_watcher n) traced.0,
          n,
        ),
        rw next (ground (arith, served, first, traced.1)),
        rw next (ground (arith, served, second_round n traced.0 h traced.2)),
      )
