-- ===== src/Watcher/Retrace.antt =====
-- Tracing a chain back, down to its first block or ten blocks far (`Run` of staking/watcher.go).
use smartbch.Base.{
  List, Map, Option, [], arith, insert, lookup, lookup-insert, none, refl, returns, some, suc, zero,
  ℕ, ◌+◌, ◌≡◌, ◌≤◌,
}
use smartbch.Watcher.Blocks.{BchBlock}
use smartbch.Watcher.Chain.{HasRange, IsLinear, add_below, chain_block, insert-HasRange}
use smartbch.Staking.Epoch.{Nomination}
use smartbch.Watcher.{Watcher, add_block, follow_up, run_round, trace}

module _ (hash timestamp : ℕ → ℕ) (nominations : ℕ → List Nomination) (first : ℕ)
    (linear : IsLinear hash timestamp nominations)
    (num_blocks_in_epoch num_blocks_to_clear_memory : ℕ)
    (get_block_by_height get_block_by_hash : ℕ → Option BchBlock)
    (serves_hash : (i : ℕ)
      → get_block_by_hash (hash i) ≡ some (chain_block hash timestamp nominations first i)) where
  abbrev found_block : ℕ → BchBlock
  found_block i = chain_block hash timestamp nominations first i

  abbrev with_blocks : Watcher → Map BchBlock → Watcher
  with_blocks w m = record w { hash_to_block = m }

  -- What the map holds after `n` blocks below `p + 1` are traced.
  abbrev pub Traced : ℕ → ℕ → ℕ → Map BchBlock → Type 0
  Traced n p high m =
      ((i : ℕ) → suc p ≤ i + n → i ≤ high → lookup (hash i) m ≡ some (found_block i))
      × (lookup 0 m ≡ none)

  insert_zero :
      (i : ℕ) (m : Map BchBlock)
      → lookup 0 m ≡ none
      → lookup 0 (insert (hash i) (found_block i) m) ≡ none
  insert_zero i m rooted =
      ground (arith, lookup-insert (hash i) 0 (found_block i) m, linear.not_zero i, rooted)

  add_root :
      (w : Watcher)
      → lookup 0 w.hash_to_block ≡ none
      → add_block num_blocks_in_epoch num_blocks_to_clear_memory w (found_block 0)
        ≡ returns (with_blocks w (insert (hash 0) (found_block 0) w.hash_to_block), none)
  unfolding add_block
  add_root w rooted =
      let missing = insert_zero 0 w.hash_to_block rooted in rw (add_block, missing) refl

  trace-none :
      (n : ℕ) (w : Watcher)
      → trace num_blocks_in_epoch num_blocks_to_clear_memory get_block_by_height get_block_by_hash n
          (w, none)
        ≡ returns w
  unfolding trace
  trace-none zero w = refl
  trace-none (suc n) w = refl

  pub trace_back :
      (n p high : ℕ) (w : Watcher)
      → HasRange hash timestamp nominations first (suc p) high w.hash_to_block
      → lookup 0 w.hash_to_block ≡ none
      → (m : Map BchBlock) × (trace num_blocks_in_epoch num_blocks_to_clear_memory
            get_block_by_height get_block_by_hash n
            (w, some (hash p))
          ≡ returns (with_blocks w m))
        × Traced n p high m
  unfolding trace
  trace_back zero p high w r rooted =
      (w.hash_to_block, refl, (λ i lo hi. (r i).0 (omega (arith, lo)) hi, rooted))
  trace_back (suc n) zero high w r rooted =
      let m = insert (hash 0) (found_block 0) w.hash_to_block in
      (
        m,
        ground (arith, serves_hash 0, add_root w rooted, trace-none n (with_blocks w m)),
        (
          λ i lo hi.
              (insert-HasRange hash timestamp nominations first linear 0 high w.hash_to_block r i).0
                (omega arith) hi,
          insert_zero 0 w.hash_to_block rooted,
        ),
      )
  trace_back (suc n) (suc p) high w r rooted =
      let m = insert (hash (suc p)) (found_block (suc p)) w.hash_to_block in
      let (m', traced, (blocks, root)) =
        trace_back n p high (with_blocks w m)
          (insert-HasRange hash timestamp nominations first linear (suc p) high w.hash_to_block r)
          (insert_zero (suc p) w.hash_to_block rooted) in
      let below =
        add_below hash timestamp nominations first linear num_blocks_in_epoch
          num_blocks_to_clear_memory p high w r in
      (
        m',
        ground (arith, serves_hash (suc p), below, traced),
        (λ i lo hi. blocks i (omega (arith, lo)) hi, root),
      )

  -- The round after the memory is cleared: it adds the next block alone, and traces it back.
  pub retrace :
      (p height : ℕ) (w : Watcher)
      → get_block_by_height (height + 1) ≡ some (found_block (suc p))
      → (m : Map BchBlock) × (run_round num_blocks_in_epoch num_blocks_to_clear_memory
            get_block_by_height get_block_by_hash
            (with_blocks w [], height)
          ≡ returns (with_blocks w m, height))
        × Traced 10 p (suc p) m
  unfolding run_round follow_up lookup
  retrace p height w served =
      let nothing : HasRange hash timestamp nominations first (suc (suc p)) (suc p) [] =
        λ i. (λ lo hi. absurd (omega (arith, lo, hi)), λ below. refl) in
      let m1 = insert (hash (suc p)) (found_block (suc p)) [] in
      let (m, traced, held) =
        trace_back 10 p (suc p) (with_blocks w m1)
          (insert-HasRange hash timestamp nominations first linear (suc p) (suc p) [] nothing)
          (insert_zero (suc p) [] refl) in
      let below =
        add_below hash timestamp nominations first linear num_blocks_in_epoch
          num_blocks_to_clear_memory p (suc p) (with_blocks w []) nothing in
      (m, ground (arith, served, below, traced), held)
