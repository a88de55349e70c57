-- ===== src/Rpc/Blocks.antt =====
-- What the requests for blocks and transactions answer (rpc/api/eth_api.go with api/backend.go).
use mathlib.Core.Option.{some-injective}
use smartbch.Base.{
  All, List, Option, Option-cases, [], ap, arith, get_elem?, inl, inr, length, map, none, refl,
  some, suc, zero, ℕ, ◌<◌, ◌^◌, ◌∙◌, ◌∷◌, ◌≡◌,
}
use smartbch.Rpc.Eth.{
  Answered, answer, get_tx_by_idx, null_answer, get_block_by_num,
  get_block_transaction_count_by_hash, get_block_transaction_count_by_number,
  get_transaction_by_block_hash_and_index, get_transaction_by_block_number_and_index,
}
use smartbch.Backend.{
  ChainBlock, ChainTx, Node, get_transaction, there, block_by_hash, block_by_number,
}
use smartbch.Backend.Search.{HasTxs}
use smartbch.Rpc.Resp.{TxResp, tx_to_rpc_resp}

get_elem?-map :
    {A B : Type 0} (f : A → B) (xs : List A) (k : ℕ) {found : Option A}
    → get_elem? xs k ≡ found
    → get_elem? (map f xs) k ≡ elim found [ none ↦ none | some x ↦ some (f x) ]
get_elem?-map f [] k h = rw (← h) refl
get_elem?-map f (x ∷ xs) zero h = rw (← h) refl
get_elem?-map f (x ∷ xs) (suc k) h = get_elem?-map f xs k h

get_elem?-All :
    {A : Type 0} (P : A → Type 0) (xs : List A) (k : ℕ) {x : A}
    → get_elem? xs k ≡ some x
    → All P xs
    → P x
get_elem?-All P [] k h a = cc h
get_elem?-All P (y ∷ ys) zero {x} h a = rw (some-injective y x h) at a.0
get_elem?-All P (y ∷ ys) (suc k) h a = get_elem?-All P ys k h a.1

length-map : {A B : Type 0} (f : A → B) (xs : List A) → length (map f xs) ≡ length xs
length-map f [] = refl
length-map f (x ∷ xs) = omega (arith, length-map f xs)

-- The answer for the transaction of a list at an index.
abbrev pub tx_answer_at : List ChainTx → ℕ → Answered TxResp
tx_answer_at txs k = elim (get_elem? txs k) [
  | none ↦ null_answer
  | some tx ↦ answer (tx_to_rpc_resp tx)
]

module _ (n : Node) where
  get_tx_by_idx-kept :
      (block : ChainBlock) (txs : List ChainTx) (k : ℕ)
      → HasTxs n block txs
      → get_tx_by_idx n block k ≡ tx_answer_at txs k
  unfolding get_tx_by_idx get_transaction
  get_tx_by_idx-kept block txs k (e, kept) = elim (Option-cases (get_elem? txs k)) [
    | inl out ↦
        let no_hash : get_elem? block.transactions k ≡ none =
          rw e (get_elem?-map (λ tx. tx.hash) txs k out) in
        ground (arith, no_hash, out)
    | inr (tx, spot) ↦
        let with_hash : get_elem? block.transactions k ≡ some tx.hash =
          rw e (get_elem?-map (λ tx. tx.hash) txs k spot) in
        let found : n.tx_of tx.hash ≡ there (some tx) =
          get_elem?-All (λ t. n.tx_of t.hash ≡ there (some t)) txs k spot kept in
        ground (arith, with_hash, spot, found)
  ]

  pub positive_height : (i : ℕ) → 0 < i → i < 2 ^ 62 → get_block_by_num n i ≡ n.block_at i
  unfolding get_block_by_num block_by_number
  positive_height i pos below = ground arith

  -- Where the store has a block at a height from 1 up to 2 ^ 62 and under its hash, and all its
  -- transactions, the requests for a transaction of the block by an index, by the block's number or by
  -- its hash, answer the same: the transaction of that index, or null where the index is not below
  -- their number. And the requests for the number of transactions, by number or by hash, answer how
  -- many there are.
  pub transactions_of_block :
      (i k : ℕ) (block : ChainBlock) (txs : List ChainTx)
      → n.block_at i ≡ there block
      → n.block_of block.hash ≡ there block
      → HasTxs n block txs
      → 0 < i
      → i < 2 ^ 62
      → (get_transaction_by_block_number_and_index n i k ≡ tx_answer_at txs k)
        × (get_transaction_by_block_hash_and_index n block.hash k ≡ tx_answer_at txs k)
        × (get_block_transaction_count_by_number n i ≡ some (length txs))
        × (get_block_transaction_count_by_hash n block.hash ≡ some (length txs))
  unfolding get_transaction_by_block_number_and_index get_transaction_by_block_hash_and_index
      get_block_transaction_count_by_number get_block_transaction_count_by_hash block_by_hash
  transactions_of_block i k block txs at by kept pos below =
      let number : get_block_by_num n i ≡ there block = positive_height i pos below ∙ at in
      let tx = get_tx_by_idx-kept block txs k kept in
      let many : length block.transactions ≡ length txs =
        rw (kept.0) (length-map (λ t. t.hash) txs) in
      (rw number tx, rw by tx, rw number (ap some many), rw by (ap some many))
