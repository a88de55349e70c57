-- ===== src/App/Blocks.antt =====
-- app/app.go: `BeginBlock`, `DeliverTx` and `EndBlock`. An address is the number that its bytes spell.
use smartbch.Base.{
  Bool, List, [], copy_32, if◌then◌else◌, keep_if, leb, length, map, none, some, take, ℕ, ◌*◌, ◌++◌,
  ◌+◌, ◌∷◌,
}
use smartbch.App.State.{App}
use smartbch.App.Machine.{Machine, Block}
use smartbch.Staking.Context.{Context}

pub record VoteInfo : Type 0 where
  pub address : ℕ
  pub signed_last_block : Bool

pub record Evidence : Type 0 where
  pub address : ℕ
  pub is_duplicate_vote : Bool

pub record BeginBlockRequest : Type 0 where
  pub height : ℕ
  pub time : ℕ
  pub size : ℕ
  pub proposer_address : ℕ
  pub last_block_hash : ℕ
  pub data_hash : List ℕ
  pub hash : ℕ
  pub app_hash : ℕ
  pub votes : List VoteInfo
  pub byzantine_validators : List Evidence

unfoldable pub le_nat : List ℕ → ℕ
le_nat [] = 0
le_nat (b ∷ bz) = b + 256 * le_nat bz

unfoldable pub reorder_seed_of : List ℕ → ℕ
unfolding le_nat
reorder_seed_of data_hash = if leb 8 (length data_hash) then le_nat (take 8 data_hash) else 0

abbrev pub new_block : BeginBlockRequest → Block
new_block req = record {
  number = req.height;
  timestamp = req.time;
  size = req.size;
  miner = req.proposer_address;
  hash = req.hash;
  parent_hash = req.last_block_hash;
  transactions_root = copy_32 req.data_hash;
  state_root = req.app_hash;
  gas_used = 0;
  transactions = [];
}

abbrev pub signers : List VoteInfo → List ℕ
signers votes = map (λ v. v.address) (keep_if (λ v. v.signed_last_block) votes)

abbrev pub double_signers : List Evidence → List ℕ
double_signers evidence = map (λ e. e.address) (keep_if (λ e. e.is_duplicate_vote) evidence)

module _ (c : Context) (m : Machine c) where
  unfoldable pub begin_block : App c m → BeginBlockRequest → App c m
  unfolding reorder_seed_of
  begin_block app req = record app {
    block = new_block req;
    last_proposer = req.proposer_address;
    last_commit_info = app.last_commit_info ++ signers req.votes;
    reorder_seed = reorder_seed_of req.data_hash;
    curr_height = req.height;
    slash_validators = app.slash_validators ++ double_signers req.byzantine_validators;
  }

  -- `size` is the size of the request.
  unfoldable pub deliver_tx : App c m → ℕ → List ℕ → App c m
  deliver_tx app size tx =
      let block : Block = record (app.block) { size = app.block.size + size } in
      elim (m.decode_tx tx) [
        | none ↦ record app { block = block }
        | some t ↦ record app { block = block; tx_engine = m.collect_tx app.tx_engine t }
      ]

  -- The public keys and the powers of the validators.
  unfoldable pub end_block : App c m → List (ℕ × ℕ)
  end_block app = map (λ val. (val.pubkey, val.voting_power)) app.curr_validators
