-- ===== src/RpcClient/Nominations.antt =====
-- What becomes of the nominations in coinbase transactions (staking/rpcclient.go, and
-- staking/staking.go where they decide on the voting power).
use smartbch.Base.{
  Bool, List, Option, Option-cases, [], arith, false, inl, inr, keep_if, map, refl, returns, some,
  true, ℕ, ◌∷◌, ◌≡◌,
}
use smartbch.Watcher.Blocks.{BchBlock}
use smartbch.RpcClient.{
  BlockInfo, TxInfo, Vout, find_pubkey, get_bch_block, get_block_by_height, get_validator_pubkey,
  decode_hex, nominations_in,
}
use smartbch.Staking.External.{failed, minimum_staking_amount}
use smartbch.Staking.Info.{StakingInfo, Validator, get_active_validators, is_eligible}
use smartbch.Staking.Epoch.{set_power, update_voting_power}

find_pubkey-ok : (vouts : List Vout) (pubkey : ℕ) → (find_pubkey vouts (pubkey, false)).1 ≡ false
unfolding find_pubkey
find_pubkey-ok [] pubkey = refl
find_pubkey-ok (vout ∷ vouts) pubkey = ground (arith, find_pubkey-ok vouts pubkey)

nominations_in-ok : (r : ℕ × Bool) → r.1 ≡ false → nominations_in r ≡ []
nominations_in-ok (pubkey, true) h = cc h
nominations_in-ok (pubkey, false) h = refl

module _ (get_block_hash_of_height : ℕ → Option (List ℕ)) (get_block : List ℕ → Option BlockInfo)
    (get_tx : List ℕ → Option TxInfo) where
  get_bch_block_drops :
      (hash : List ℕ) {blk : BchBlock}
      → get_bch_block get_block_hash_of_height get_block get_tx hash ≡ returns (some blk)
      → blk.nominations ≡ []
  unfolding get_bch_block get_validator_pubkey
  get_bch_block_drops hash {blk} e = elim (Option-cases (get_block hash)) [
    | inl failed ↦ absurd (ground arith)
    | inr (bi, b) ↦ elim (Option-cases (decode_hex bi.hash)) [
      | inl garbled ↦ absurd (ground arith)
      | inr (id, i) ↦ elim (Option-cases (decode_hex bi.previous_blockhash)) [
        | inl garbled ↦ absurd (ground arith)
        | inr (parent, p) ↦ go bi b id i parent p bi.tx refl
      ]
    ]
  ]
    where
      go :
          (bi : BlockInfo)
          → get_block hash ≡ some bi
          → (id : List ℕ) → decode_hex bi.hash ≡ some id
          → (parent : List ℕ) → decode_hex bi.previous_blockhash ≡ some parent
          → (txs : List (List ℕ)) → bi.tx ≡ txs
          → blk.nominations ≡ []
      go bi b id i parent p [] t = absurd (ground arith)
      go bi b id i parent p (txid ∷ txids) t = elim (Option-cases (get_tx txid)) [
        | inl failed ↦ absurd (ground arith)
        | inr (coinbase, g) ↦
            let dropped =
              nominations_in-ok (find_pubkey coinbase.vout_list (0, false))
                (find_pubkey-ok coinbase.vout_list 0) in
            ground (arith, dropped)
      ]

  -- Whatever the node answers, and whatever is nominated in the coinbase transaction: a block that the
  -- client makes for a height has no nominations, since `GetValidatorPubKey` never reports that it has
  -- found a public key.
  pub get_block_by_height_drops :
      (height : ℕ) {blk : BchBlock}
      → get_block_by_height get_block_hash_of_height get_block get_tx height ≡ returns (some blk)
      → blk.nominations ≡ []
  unfolding get_block_by_height
  get_block_by_height_drops height {blk} e = elim (Option-cases (get_block_hash_of_height height)) [
    | inl unknown ↦ absurd (ground arith)
    | inr (hash, h) ↦ get_bch_block_drops hash {blk = blk} (ground arith)
  ]

powerless :
    (vals : List Validator)
    → keep_if (is_eligible minimum_staking_amount) (map (set_power 0) vals) ≡ []
unfolding is_eligible
powerless [] = refl
powerless (val ∷ vals) = ground (arith, powerless vals)

-- An epoch without nominations leaves no active validator, whoever was one before.
pub no_nominations_no_validators :
    (info : StakingInfo)
    → get_active_validators (update_voting_power info []) minimum_staking_amount ≡ []
unfolding get_active_validators update_voting_power
no_nominations_no_validators info = rw (powerless info.validators) refl
