-- ===== src/Backend/Search.antt =====
-- What a search in one block finds on the node's backend (api/backend.go with
-- rpc/api/filters/geth_filter.go).
use smartbch.Base.{
  All, Bool, Bool-cases, List, [], ap, arith, false, inl, inr, keep_if, leb, length, map, none,
  refl, some, subst, sym, true, ℕ, ◌++◌, ◌==◌, ◌∷◌, ◌≡◌, ◌≤◌,
}
use smartbch.Backend.{
  ChainBlock, ChainTx, Node, filter_backend, get_block_logs, logs_of_txs, set_tx_hash, there,
  header_by_hash,
}
use smartbch.Filters.Search.{Filter, concat_logs, logs_of, block_logs, Header}
use smartbch.Filters.Ranges.{check_matches-full, matching}
use smartbch.Filters.Matching.{
  Log, bloom_filter, some_in_bloom, filter_logs, log_matches, rules_in_bloom, topic_allowed,
  topics_match,
}

-- The logs of a transaction, with its hash.
abbrev pub full_logs : ChainTx → List Log
full_logs tx = map (set_tx_hash tx.hash) tx.logs

none_in_bloom :
    (bloom_lookup : ℕ → Bool) (xs : List ℕ)
    → ((x : ℕ) → bloom_lookup x ≡ false)
    → some_in_bloom bloom_lookup xs ≡ false
unfolding some_in_bloom
none_in_bloom bloom_lookup [] h = refl
none_in_bloom bloom_lookup (x ∷ xs) h = rw (h x) (none_in_bloom bloom_lookup xs h)

out_of_bloom :
    (bloom_lookup : ℕ → Bool) (xs : List ℕ) (topics : List (List ℕ)) (address : ℕ)
    (addresses : List ℕ)
    → ((x : ℕ) → bloom_lookup x ≡ false)
    → xs ≡ address ∷ addresses
    → bloom_filter bloom_lookup xs topics ≡ false
unfolding bloom_filter
out_of_bloom bloom_lookup xs topics address addresses h e =
    rw (e, none_in_bloom bloom_lookup (address ∷ addresses) h) (ground arith)

-- A rule without alternatives allows everything.
abbrev pub AreWild : List (List ℕ) → Type 0
AreWild topics = All (λ alternatives. alternatives ≡ []) topics

rules_in_bloom-wild :
    (bloom_lookup : ℕ → Bool) (topics : List (List ℕ))
    → AreWild topics
    → rules_in_bloom bloom_lookup topics ≡ true
unfolding rules_in_bloom
rules_in_bloom-wild bloom_lookup [] h = refl
rules_in_bloom-wild bloom_lookup (alternatives ∷ topics) h =
    rw h.0 (rules_in_bloom-wild bloom_lookup topics h.1)

bloom_filter-wild :
    (bloom_lookup : ℕ → Bool) (topics : List (List ℕ))
    → AreWild topics
    → bloom_filter bloom_lookup [] topics ≡ true
unfolding bloom_filter
bloom_filter-wild bloom_lookup topics h = rules_in_bloom-wild bloom_lookup topics h

topics_match-wild :
    (topics : List (List ℕ)) (log_topics : List ℕ)
    → AreWild topics
    → length topics ≤ length log_topics
    → topics_match topics log_topics ≡ true
unfolding topics_match topic_allowed
topics_match-wild [] log_topics h le = refl
topics_match-wild (alternatives ∷ topics) [] h le = absurd (omega (arith, le))
topics_match-wild (alternatives ∷ topics) (topic ∷ log_topics) h le =
    rw h.0 (topics_match-wild topics log_topics h.1 (omega (arith, le)))

log_matches-wild :
    (topics : List (List ℕ)) (log : Log)
    → AreWild topics
    → log_matches none none [] topics log ≡ leb (length topics) (length log.topics)
unfolding log_matches
log_matches-wild topics log h = elim (Bool-cases (leb (length topics) (length log.topics))) [
  | inl enough ↦
      ground (arith, enough, topics_match-wild topics log.topics h (ground (arith, enough)))
  | inr few ↦ ground (arith, few)
]

filter_logs-wild :
    (logs : List Log) (topics : List (List ℕ))
    → AreWild topics
    → filter_logs logs none none [] topics
      ≡ keep_if (λ log. leb (length topics) (length log.topics)) logs
unfolding filter_logs
filter_logs-wild [] topics h = refl
filter_logs-wild (log ∷ logs) topics h =
    rw (log_matches-wild topics log h, filter_logs-wild logs topics h) refl

full_logs_named :
    (hash : ℕ) (logs rest : List Log)
    → (hash == 0) ≡ false
    → All (λ log. (log.tx_hash == 0) ≡ false) rest
    → All (λ log. (log.tx_hash == 0) ≡ false) (map (set_tx_hash hash) logs ++ rest)
full_logs_named hash [] rest h k = k
full_logs_named hash (log ∷ logs) rest h k = (h, full_logs_named hash logs rest h k)

concat_logs_named :
    (txs : List ChainTx)
    → All (λ tx. (tx.hash == 0) ≡ false) txs
    → All (λ log. (log.tx_hash == 0) ≡ false) (concat_logs (map full_logs txs))
concat_logs_named [] k = tt
concat_logs_named (tx ∷ txs) (named, k) =
    full_logs_named tx.hash tx.logs (concat_logs (map full_logs txs)) named
      (concat_logs_named txs k)

module _ (n : Node) where
  -- The store has the transactions of a block.
  abbrev pub HasTxs : ChainBlock → List ChainTx → Type 0
  HasTxs block txs =
      (block.transactions ≡ map (λ tx. tx.hash) txs)
      × All (λ tx. n.tx_of tx.hash ≡ there (some tx)) txs

  logs_of_txs-full :
      (txs : List ChainTx)
      → All (λ tx. n.tx_of tx.hash ≡ there (some tx)) txs
      → logs_of_txs n (map (λ tx. tx.hash) txs) ≡ map full_logs txs
  unfolding logs_of_txs
  logs_of_txs-full [] k = refl
  logs_of_txs-full (tx ∷ txs) (found, k) = rw (found, logs_of_txs-full txs k) refl

  get_block_logs-full :
      (block : ChainBlock) (txs : List ChainTx)
      → n.block_of block.hash ≡ there block
      → HasTxs block txs
      → get_block_logs n block.hash ≡ some (map full_logs txs)
  unfolding get_block_logs
  get_block_logs-full block txs h (e, k) =
      rw (get_block_logs, h) (ap some (rw e (logs_of_txs-full txs k)))

  -- On the node's own backend, a search in one block, named by its hash, without an address and with
  -- topics that allow everything: where the store has the block under that hash, which is not zero,
  -- and all its transactions, none of which has the hash zero, the search ends without an error, and
  -- gives exactly those logs of the block's transactions that have as many topics as are asked for or
  -- more, in their order, each with the hash of its transaction.
  pub wild_block_search :
      (f : Filter) (block : ChainBlock) (txs : List ChainTx)
      → (f.block == 0) ≡ false
      → n.block_of f.block ≡ there block
      → block.hash ≡ f.block
      → HasTxs block txs
      → All (λ tx. (tx.hash == 0) ≡ false) txs
      → f.addresses ≡ []
      → AreWild f.topics
      → logs_of (filter_backend n) f ≡ (
        keep_if
            (λ log. leb (length f.topics) (length log.topics))
            (concat_logs (map full_logs txs)),
        false,
      )
  unfolding logs_of block_logs header_by_hash
  wild_block_search f block txs named found hashed kept all_named unaddressed wild =
      let all_in : bloom_filter (n.bloom_lookup 0) f.addresses f.topics ≡ true =
        rw unaddressed (bloom_filter-wild (n.bloom_lookup 0) f.topics wild) in
      let logs =
        get_block_logs-full block txs (subst (λ h. n.block_of h ≡ there block) (sym hashed) found)
          kept in
      let header : Header = record { number = block.number; block_hash = block.hash; bloom = 0 } in
      let matches =
        check_matches-full (filter_backend n) f header (map full_logs txs) logs
          (concat_logs_named txs all_named) in
      let only_counted : matching f (map full_logs txs)
          ≡ keep_if (λ log. leb (length f.topics) (length log.topics))
              (concat_logs (map full_logs txs)) =
        rw unaddressed (filter_logs-wild (concat_logs (map full_logs txs)) f.topics wild) in
      rw (named, found, all_in, matches) (ap (λ ls. (ls, false)) only_counted)

  -- A search in one block, named by its hash, asks the bloom filter of a header that `HeaderByHash`
  -- leaves empty. So wherever an empty bloom filter has nothing in it, such a search with an address
  -- ends without an error and without logs, in every block of the store, whatever logs the block has.
  pub block_search_finds_nothing :
      (f : Filter) (block : ChainBlock) (address : ℕ) (addresses : List ℕ)
      → ((x : ℕ) → n.bloom_lookup 0 x ≡ false)
      → (f.block == 0) ≡ false
      → n.block_of f.block ≡ there block
      → f.addresses ≡ address ∷ addresses
      → logs_of (filter_backend n) f ≡ ([], false)
  unfolding logs_of block_logs header_by_hash
  block_search_finds_nothing f block address addresses empty named found asked =
      let out : bloom_filter (n.bloom_lookup 0) f.addresses f.topics ≡ false =
        out_of_bloom (n.bloom_lookup 0) f.addresses f.topics address addresses empty asked in
      rw (named, found, out) refl
