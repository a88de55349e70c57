-- ===== src/RpcClient.antt =====
-- staking/rpcclient.go: how the client of Bitcoin Cash's node makes a block out of the node's answers.
-- A text is the list of its bytes. The requests over HTTP with their JSON are parameters: an answer, or
-- an error.
pub mod Nominations
use smartbch.Base.{
  Bool, List, Option, Outcome, [], copy_32, false, if◌then◌else◌, leb, length, none, out_of_range,
  panics, returns, some, true, ℕ, ◌&&◌, ◌*◌, ◌+◌, ◌-◌, ◌==◌, ◌∷◌,
}
use smartbch.Watcher.Blocks.{BchBlock}
use smartbch.Staking.Epoch.{Nomination}

-- The text under "asm" in the map `ScriptPubKey`, where there is one.
pub record Vout : Type 0 where
  pub asm : Option (List ℕ)

pub record TxInfo : Type 0 where
  pub vout_list : List Vout

pub record BlockInfo : Type 0 where
  pub hash : List ℕ
  pub height : ℕ
  pub time : ℕ
  pub tx : List (List ℕ)
  pub previous_blockhash : List ℕ

-- "OP_RETURN " with the identifier and the version.
abbrev pub prefix : List ℕ
prefix =
    79 ∷ 80 ∷ 95 ∷ 82 ∷ 69 ∷ 84 ∷ 85 ∷ 82 ∷ 78 ∷ 32 ∷ 55 ∷ 51 ∷ 52 ∷ 50 ∷ 52 ∷ 51 ∷ 52 ∷ 56 ∷ 48
    ∷ 48 ∷ []

-- `strings.HasPrefix` and the rest of the text.
unfoldable pub strip_prefix : List ℕ → List ℕ → Option (List ℕ)
strip_prefix [] s = some s
strip_prefix (p ∷ ps) [] = none
strip_prefix (p ∷ ps) (b ∷ bz) = if p == b then strip_prefix ps bz else none

unfoldable pub hex_digit : ℕ → Option ℕ
hex_digit b =
    if leb b'0' b && leb b b'9'
    then some (b - b'0')
    else if leb b'a' b && leb b b'f'
    then some (b - b'a' + 10)
    else if leb b'A' b && leb b b'F'
    then some (b - b'A' + 10)
    else none

-- `hex.DecodeString`
unfoldable pub decode_hex : List ℕ → Option (List ℕ)
decode_hex [] = some []
decode_hex (a ∷ []) = none
decode_hex (a ∷ b ∷ bz) = elim (hex_digit a) [
  | none ↦ none
  | some high ↦ elim (hex_digit b) [
    | none ↦ none
    | some low ↦ elim (decode_hex bz) [ none ↦ none | some rest ↦ some ((16 * high + low) ∷ rest) ]
  ]
]

-- The public key in a script, where the loop of `GetValidatorPubKey` does not go on to the next output.
unfoldable pub pubkey_in : Option (List ℕ) → Option ℕ
pubkey_in none = none
pubkey_in (some script) = elim (strip_prefix prefix script) [
  | none ↦ none
  | some digits ↦
      if length digits == 64
      then elim (decode_hex digits) [ none ↦ none | some bz ↦ some (copy_32 bz) ]
      else none
]

-- `GetValidatorPubKey`: the named results `pubKey` and `ok`. The `ok` of the loop is another variable,
-- declared in its body, so that the result is the one from before the loop.
unfoldable pub find_pubkey : List Vout → ℕ × Bool → ℕ × Bool
find_pubkey [] results = results
find_pubkey (vout ∷ vouts) results = elim (pubkey_in vout.asm) [
  | none ↦ find_pubkey vouts results
  | some pubkey ↦ (pubkey, results.1)
]

unfoldable pub get_validator_pubkey : TxInfo → ℕ × Bool
get_validator_pubkey ti = find_pubkey ti.vout_list (0, false)

abbrev pub nominations_in : ℕ × Bool → List Nomination
nominations_in (pubkey, true) = record { pubkey = pubkey; nominated_count = 1 } ∷ []
nominations_in (pubkey, false) = []

module _ (get_block_hash_of_height : ℕ → Option (List ℕ)) (get_block : List ℕ → Option BlockInfo)
    (get_tx : List ℕ → Option TxInfo) where
  -- `none` is the nil pointer.
  unfoldable pub get_bch_block : List ℕ → Outcome (Option BchBlock)
  get_bch_block hash = elim (get_block hash) [
    | none ↦ returns none
    | some bi ↦ elim (decode_hex bi.hash) [
      | none ↦ returns none
      | some id ↦ elim (decode_hex bi.previous_blockhash) [
        | none ↦ returns none
        | some parent ↦ elim bi.tx [
          | [] ↦ panics out_of_range
          | txid ∷ txids ↦ elim (get_tx txid) [
            | none ↦ returns none
            | some coinbase ↦ returns (
                some (record {
                  height = bi.height;
                  timestamp = bi.time;
                  hash_id = copy_32 id;
                  parent_blk = copy_32 parent;
                  nominations = nominations_in (get_validator_pubkey coinbase);
                }))
          ]
        ]
      ]
    ]
  ]

  unfoldable pub get_block_by_height : ℕ → Outcome (Option BchBlock)
  get_block_by_height height = elim (get_block_hash_of_height height) [
    | none ↦ returns none
    | some hash ↦ get_bch_block hash
  ]
