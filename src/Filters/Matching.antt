-- ===== src/Filters/Matching.antt =====
-- rpc/api/filters/geth_filter.go: which logs match a filter, and which blocks may have such logs.
use smartbch.Base.{
  Bool, List, Option, [], false, if◌then◌else◌, leb_i64, length, ltb, none, not, some, true, ℕ,
  ◌&&◌, ◌==◌, ◌||◌, ◌∷◌,
}

pub record Log : Type 0 where
  pub address : ℕ
  pub topics : List ℕ
  pub block_number : ℕ
  pub tx_hash : ℕ

-- `includes`, and the loops that look for a topic.
unfoldable pub includes : List ℕ → ℕ → Bool
includes [] a = false
includes (addr ∷ addrs) a = if addr == a then true else includes addrs a

-- An empty rule is a wildcard.
unfoldable pub topic_allowed : List ℕ → ℕ → Bool
unfolding includes
topic_allowed [] topic = true
topic_allowed (t ∷ ts) topic = includes (t ∷ ts) topic

-- The loop over the rules. There are not more rules than topics.
unfoldable pub topics_match : List (List ℕ) → List ℕ → Bool
topics_match [] log_topics = true
topics_match (sub ∷ subs) [] = false
topics_match (sub ∷ subs) (topic ∷ topics) =
    if topic_allowed sub topic then topics_match subs topics else false

-- The tests of `filterLogs` on one log, in the order of the code. A bound is an `int64` as its bit
-- pattern, and counts where it is not negative.
unfoldable pub log_matches : Option ℕ → Option ℕ → List ℕ → List (List ℕ) → Log → Bool
log_matches from_block to_block addresses topics log =
    if elim from_block [ none ↦ false | some b ↦ leb_i64 0 b && ltb log.block_number b ]
    then false
    else if elim to_block [ none ↦ false | some b ↦ leb_i64 0 b && ltb b log.block_number ]
    then false
    else if ltb 0 (length addresses) && not (includes addresses log.address)
    then false
    else if ltb (length log.topics) (length topics)
    then false
    else topics_match topics log.topics

unfoldable pub filter_logs : List Log → Option ℕ → Option ℕ → List ℕ → List (List ℕ) → List Log
filter_logs [] from_block to_block addresses topics = []
filter_logs (log ∷ logs) from_block to_block addresses topics =
    let rest = filter_logs logs from_block to_block addresses topics in
    if log_matches from_block to_block addresses topics log then log ∷ rest else rest

-- `bloom_lookup` is `types.BloomLookup` (go-ethereum) on the block's bloom filter.
module _ (bloom_lookup : ℕ → Bool) where
  unfoldable pub some_in_bloom : List ℕ → Bool
  some_in_bloom [] = false
  some_in_bloom (x ∷ xs) = if bloom_lookup x then true else some_in_bloom xs

  unfoldable pub rules_in_bloom : List (List ℕ) → Bool
  rules_in_bloom [] = true
  rules_in_bloom (sub ∷ subs) =
      if length sub == 0 || some_in_bloom sub then rules_in_bloom subs else false

  unfoldable pub bloom_filter : List ℕ → List (List ℕ) → Bool
  bloom_filter addresses topics =
      if ltb 0 (length addresses) && not (some_in_bloom addresses)
      then false
      else rules_in_bloom topics
