-- ===== src/Filters/Ranges.antt =====
-- What a search over a range of blocks gives (rpc/api/filters/geth_filter.go).
use smartbch.Base.{
  All, Bool-cases, List, [], add64, arith, false, inl, inr, leb_i64, ltb, none, refl, some, sub64,
  suc, true, u64_mod, zero, ℕ, ◌%◌, ◌*◌, ◌++◌, ◌+◌, ◌-◌, ◌<◌, ◌==◌, ◌^◌, ◌∙◌, ◌∷◌, ◌≡◌, ◌≤◌,
}
use smartbch.Filters.Bloom.{HasLog, block_logs-check_matches}
use smartbch.Filters.Matching.{Log, filter_logs, log_matches}
use smartbch.Filters.Search.{
  Backend, Filter, Header, fetched, check_matches, concat_logs, unindexed_logs, block_logs, logs_of,
  range_logs, minus_one, finish_range, indexed_part,
}

-- The values at `n` heights from `i` on, one after the other.
abbrev pub range_concat : (ℕ → List Log) → ℕ → ℕ → List Log
range_concat found i zero = []
range_concat found i (suc n) = found i ++ range_concat found (i + 1) n

-- The logs of some lists that match a filter.
abbrev pub matching : Filter → List (List Log) → List Log
matching f lists = filter_logs (concat_logs lists) none none f.addresses f.topics

module _ (b : Backend) where
  -- A chain at the backend, from one height to another: its blocks and their logs, all of them in the
  -- blocks' bloom filters, and with the hashes of their transactions.
  pub record IsChain (first last : ℕ) (header : ℕ → Header) (lists : ℕ → List (List Log))
      : Type 0 where
    pub at_height : (i : ℕ) → first ≤ i → i ≤ last → b.header_by_number i ≡ fetched (header i)
    pub with_logs :
        (i : ℕ) → first ≤ i → i ≤ last → b.get_logs (header i).block_hash ≡ some (lists i)
    pub in_bloom :
        (i : ℕ)
        → first ≤ i
        → i ≤ last
        → All (HasLog (b.bloom_lookup (header i).bloom)) (concat_logs (lists i))
    pub full :
        (i : ℕ)
        → first ≤ i
        → i ≤ last
        → All (λ log. (log.tx_hash == 0) ≡ false) (concat_logs (lists i))

  filter_logs-full :
      (logs : List Log) (addresses : List ℕ) (topics : List (List ℕ))
      → All (λ log. (log.tx_hash == 0) ≡ false) logs
      → All (λ log. (log.tx_hash == 0) ≡ false) (filter_logs logs none none addresses topics)
  unfolding filter_logs
  filter_logs-full [] addresses topics a = tt
  filter_logs-full (log ∷ logs) addresses topics a =
      elim (Bool-cases (log_matches none none addresses topics log)) [
        | inl kept ↦ rw kept (a.0, filter_logs-full logs addresses topics a.1)
        | inr dropped ↦ rw dropped (filter_logs-full logs addresses topics a.1)
      ]

  pub check_matches-full :
      (f : Filter) (header : Header) (lists : List (List Log))
      → b.get_logs header.block_hash ≡ some lists
      → All (λ log. (log.tx_hash == 0) ≡ false) (concat_logs lists)
      → check_matches b f header ≡ some (matching f lists)
  unfolding check_matches
  check_matches-full f header lists got a =
      go (matching f lists) refl (filter_logs-full (concat_logs lists) f.addresses f.topics a)
    where
      go :
          (found : List Log)
          → matching f lists ≡ found
          → All (λ log. (log.tx_hash == 0) ≡ false) found
          → check_matches b f header ≡ some (matching f lists)
      go [] e h = ground arith
      go (log ∷ logs) e h = ground (arith, h.0)

  unindexed_logs-range :
      (f : Filter) (header : ℕ → Header) (lists : ℕ → List (List Log)) (first n begin end : ℕ)
      → IsChain first end header lists
      → first ≤ begin
      → begin + n ≡ end + 1
      → end < 2 ^ 62
      → unindexed_logs b n f begin end
        ≡ ((range_concat (λ i. matching f (lists i)) begin n, false), begin + n)
  unfolding unindexed_logs
  unindexed_logs-range f header lists first zero begin end chain low total bound = ground arith
  unindexed_logs-range f header lists first (suc n) begin end chain low total bound =
      let high : begin ≤ end = omega (arith, total) in
      let goes : leb_i64 begin end ≡ true = ground arith in
      let next_begin : add64 begin 1 ≡ begin + 1 = omega arith in
      let blk : block_logs b f (header begin) ≡ some (matching f (lists begin)) =
        block_logs-check_matches b f (header begin) (chain.with_logs begin low high)
          (chain.in_bloom begin low high)
        ∙ check_matches-full f (header begin) (lists begin) (chain.with_logs begin low high)
            (chain.full begin low high) in
      let rest =
        unindexed_logs-range f header lists first n (begin + 1) end chain (omega (arith, low))
          (omega (arith, total)) bound in
      let last : begin + 1 + n ≡ begin + suc n = omega arith in
      rw (goes, chain.at_height begin low high, blk, next_begin, rest, last)

  no_sections :
      (f : Filter) (begin end : ℕ)
      → b.bloom_status.1 ≡ 0
      → indexed_part b f begin end ≡ (([], false), begin)
  unfolding indexed_part
  no_sections f begin end unsectioned =
      let none_behind : ltb begin ((b.bloom_status.1 * b.bloom_status.0) % u64_mod) ≡ false =
        rw unsectioned (ground arith) in
      rw none_behind refl

  range_logs-unindexed :
      (f : Filter) (begin end : ℕ)
      → b.bloom_status.1 ≡ 0
      → range_logs b f begin end ≡ (unindexed_logs b (sub64 (add64 end 1) begin) f begin end).0
  unfolding finish_range
  range_logs-unindexed f begin end unsectioned =
      let none_indexed : indexed_part b f begin end ≡ (([], false), begin) =
        no_sections f begin end unsectioned in
      rw none_indexed refl

  -- On a backend without bloom sections that has a latest header, and that has the blocks of a range,
  -- with all their logs in the blocks' bloom filters and a transaction hash that is not zero in every
  -- log: a search over the range, from `begin` to `end`, both below 2 ^ 62 and in order, ends without
  -- an error and gives exactly the matching logs of the blocks of the range, in the order of the
  -- blocks.
  pub logs_of-range :
      (f : Filter) (header : ℕ → Header) (lists : ℕ → List (List Log)) (latest : Header)
      → IsChain f.begin f.end header lists
      → b.bloom_status.1 ≡ 0
      → b.latest_header ≡ some latest
      → f.block ≡ 0
      → f.begin ≤ f.end
      → f.end < 2 ^ 62
      → logs_of b f
        ≡ (range_concat (λ i. matching f (lists i)) f.begin (f.end + 1 - f.begin), false)
  unfolding logs_of
  logs_of-range f header lists latest chain unsectioned head is_range ordered bound =
      let rounds : sub64 (add64 f.end 1) f.begin ≡ f.end + 1 - f.begin = omega arith in
      let found =
        unindexed_logs-range f header lists f.begin (f.end + 1 - f.begin) f.begin f.end chain
          (omega arith) (omega (arith, ordered)) bound in
      let from : (f.begin == minus_one) ≡ false = ground arith in
      let upto : (f.end == minus_one) ≡ false = ground arith in
      rw (
        is_range,
        head,
        from,
        upto,
        range_logs-unindexed f f.begin f.end unsectioned,
        rounds,
        found,
      )
