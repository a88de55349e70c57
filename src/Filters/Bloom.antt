-- ===== src/Filters/Bloom.antt =====
-- The bloom filter of a block loses no logs (rpc/api/filters/geth_filter.go).
use smartbch.Base.{
  All, Bool, Bool-cases, List, [], arith, false, inl, inr, length, none, refl, some, true, ℕ, ◌==◌,
  ◌||◌, ◌∷◌, ◌≡◌,
}
use smartbch.Filters.Matching.{
  Log, bloom_filter, filter_logs, includes, log_matches, rules_in_bloom, some_in_bloom,
  topic_allowed, topics_match,
}
use smartbch.Filters.Search.{Backend, Filter, Header, block_logs, check_matches, concat_logs}

-- A bloom filter that has the address and the topics of a log.
abbrev pub HasLog : (ℕ → Bool) → Log → Type 0
HasLog bloom_lookup log =
    (bloom_lookup log.address ≡ true) × All (λ t. bloom_lookup t ≡ true) log.topics

module _ (bloom_lookup : ℕ → Bool) where
  some_in_bloom-includes :
      (xs : List ℕ) (x : ℕ)
      → includes xs x ≡ true
      → bloom_lookup x ≡ true
      → some_in_bloom bloom_lookup xs ≡ true
  unfolding includes some_in_bloom
  some_in_bloom-includes [] x h k = cc h
  some_in_bloom-includes (y ∷ ys) x h k = elim (Bool-cases (y == x)) [
    | inl same ↦ let e : y ≡ x = ground arith in rw (e, k) refl
    | inr other ↦ ground (arith, some_in_bloom-includes ys x)
  ]

  rule_in_bloom :
      (sub : List ℕ) (topic : ℕ)
      → topic_allowed sub topic ≡ true
      → bloom_lookup topic ≡ true
      → length sub == 0 || some_in_bloom bloom_lookup sub ≡ true
  unfolding topic_allowed
  rule_in_bloom [] topic h k = refl
  rule_in_bloom (t ∷ ts) topic h k = ground (arith, some_in_bloom-includes (t ∷ ts) topic h k)

  rules_in_bloom-topics_match :
      (rules : List (List ℕ)) (topics : List ℕ)
      → topics_match rules topics ≡ true
      → All (λ t. bloom_lookup t ≡ true) topics
      → rules_in_bloom bloom_lookup rules ≡ true
  unfolding topics_match rules_in_bloom
  rules_in_bloom-topics_match [] topics h a = refl
  rules_in_bloom-topics_match (sub ∷ subs) [] h a = cc h
  rules_in_bloom-topics_match (sub ∷ subs) (topic ∷ topics) h a =
      let allowed : topic_allowed sub topic ≡ true = ground arith in
      let others : topics_match subs topics ≡ true = ground arith in
      ground (
        arith,
        rule_in_bloom sub topic allowed a.0,
        rules_in_bloom-topics_match subs topics others a.1,
      )

  bloom_filter-log_matches :
      (addresses : List ℕ) (topics : List (List ℕ)) (log : Log)
      → log_matches none none addresses topics log ≡ true
      → HasLog bloom_lookup log
      → bloom_filter bloom_lookup addresses topics ≡ true
  unfolding log_matches bloom_filter
  bloom_filter-log_matches addresses topics log h has =
      let rules : topics_match topics log.topics ≡ true = ground arith in
      ground (
        arith,
        some_in_bloom-includes addresses log.address,
        rules_in_bloom-topics_match topics log.topics rules has.1,
      )

  filter_logs-bloom_filter :
      (logs : List Log) (addresses : List ℕ) (topics : List (List ℕ))
      → All (HasLog bloom_lookup) logs
      → bloom_filter bloom_lookup addresses topics ≡ false
      → filter_logs logs none none addresses topics ≡ []
  unfolding filter_logs
  filter_logs-bloom_filter [] addresses topics has out = refl
  filter_logs-bloom_filter (log ∷ logs) addresses topics has out =
      elim (Bool-cases (log_matches none none addresses topics log)) [
        | inl matched ↦
            absurd (ground (arith, bloom_filter-log_matches addresses topics log matched has.0))
        | inr unmatched ↦ rw unmatched (filter_logs-bloom_filter logs addresses topics has.1 out)
      ]

module _ (b : Backend) where
  -- If the bloom filter of a block has the addresses and the topics of all the block's logs, as a bloom
  -- filter has no false negatives, then asking it first changes nothing: `blockLogs` gives exactly
  -- what `checkMatches` gives on the block, for every filter.
  pub block_logs-check_matches :
      (f : Filter) (header : Header) {lists : List (List Log)}
      → b.get_logs header.block_hash ≡ some lists
      → All (HasLog (b.bloom_lookup header.bloom)) (concat_logs lists)
      → block_logs b f header ≡ check_matches b f header
  unfolding block_logs check_matches
  block_logs-check_matches f header {lists} got has =
      elim (Bool-cases (bloom_filter (b.bloom_lookup header.bloom) f.addresses f.topics)) [
        | inl candidate ↦ ground arith
        | inr out ↦
            let empty =
              filter_logs-bloom_filter (b.bloom_lookup header.bloom) (concat_logs lists) f.addresses
                f.topics has out in
            ground (arith, empty)
      ]
