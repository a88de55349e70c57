-- ===== src/Tests/Node.antt =====
-- Examples of the theorems about the application (app/app.go), with a small engine: its state is the
-- list of the transactions that it has collected.
use mathlib.Core.List.Perm
use smartbch.Base.{
  All, List, Map, Option, [], arith, be_bytes, be_nat, be_nat_from, false, if◌then◌else◌, length,
  lookup, ltb, nil_dereference, none, panics, refl, returns, some, true, ℕ, ◌%◌, ◌*◌, ◌++◌, ◌+◌,
  ◌-◌, ◌==◌, ◌∷◌, ◌≡◌,
}
use smartbch.Tests.World.{
  small, genesis_world, SmallWorld, contract, load_genesis, three_validators, alice, bob, carol,
}
use smartbch.App.Machine.{Machine, Tx, Block}
use smartbch.App.State.{App, SenderAndHeight}
use smartbch.App.SenderCache.{CacheIsSound, check_tx_cache_free, check_tx_uncached, with_cache}
use smartbch.App.CheckTx.{check_tx}
use smartbch.App.Commit.{
  Committed, commit, pubkey_of, share_reward, collect_reward, prepare_txs, receive_epoch, refresh,
  roll_min_gas_price, slash_all, take_from_system, update_validators,
}
use smartbch.App.Rounds.{IsReady, commit-IsReady}
use smartbch.Tests.Contract.{in_order}
use smartbch.App.Voters.{share_reward-unknown_voter}
use smartbch.Staking.Fee.{
  credit, distribute_fee, reward_voter, reward_voters, share_fee, split_fee, total_voting_power,
  voted_power,
}
use smartbch.Tests.Codec.{
  decode_many, decode_number, decode_reward, decode_text, decode_validator, encode_many,
  encode_number, encode_reward, encode_text, encode_validator, marshal, unmarshal,
}
use smartbch.Staking.Info.{
  get_active_validators, get_val_map_by_pubkey, insert_by_power, is_eligible, sort_by_power,
  StakingInfo,
}
use smartbch.Staking.State.{
  load_min_gas_price, load_staking_acc, save_min_gas_price, save_staking_info,
}
use smartbch.App.InitChain.{create_genesis_accs, genesis_rewards, init_chain}
use smartbch.App.Blocks.{end_block}
use smartbch.App.Genesis.{init_chain_lem}
use smartbch.Staking.External.{minimum_staking_amount}
use smartbch.App.CacheSize.{IsBounded, check_tx-IsBounded}

-- The system account is the account 1000; the address of a public key is the key plus one.
abbrev pub take_system : SmallWorld → ℕ → Option SmallWorld
take_system w amount = elim (w.accounts 1000) [
  | none ↦ none
  | some acc ↦
      if ltb (small.balance acc) amount
      then none
      else some (small.set_account w 1000 (small.update_balance acc (small.balance acc - amount)))
]

abbrev read_tx : List ℕ → Option Tx
read_tx (h ∷ n ∷ g ∷ p ∷ []) = some (record { hash = h; nonce = n; gas = g; gas_price = p })
read_tx bz = none

abbrev pub engine : Machine small
engine = record {
  decode_tx = read_tx;
  signer_sender = λ tx. if tx.hash == 0 then none else some (tx.hash % 100);
  signer_sender-hash = λ t u e. rw e refl;
  cons_addr = λ pubkey. pubkey + 1;
  max_tx_gas_limit = 1000000;
  check_nonce = λ w a n. elim (w.accounts a) [
    | none ↦ none
    | some acc ↦ if acc.nonce == n then some acc else none
  ];
  deduct_tx_fee = λ w a acc gas price.
      if ltb (small.balance acc) (gas * price)
      then none
      else some
          (small.set_account w a (small.update_balance acc (small.balance acc - gas * price)));
  Engine = List Tx;
  collect_tx = λ e t. e ++ t ∷ [];
  standby_q_len = λ e. length e;
  prepare = λ e w seed price. (e, w, []);
  execute_txs = λ e w blk. ([], w);
  gas_used_info = λ e. record { used = 0; refund = 0; fee = 0 };
  committed_txs = λ e. [];
  get_system_balance = λ w. elim (w.accounts 1000) [ none ↦ 0 | some acc ↦ small.balance acc ];
  sub_system_acc_balance = take_system;
  transfer_to_black_hole = λ w a n. w;
  get_curr_block_basic_info = λ w. none;
  set_curr_block_basic_info = λ w blk. w;
  get_root_hash = λ w. 77;
}

abbrev block_5 : Block
block_5 = record {
  number = 5;
  timestamp = 500;
  size = 0;
  miner = 112;
  hash = 9;
  parent_hash = 8;
  transactions_root = 0;
  state_root = 0;
  gas_used = 0;
  transactions = [];
}

abbrev pub node : App small engine
node = record {
  retain_blocks = 0;
  num_kept_blocks = 100;
  curr_height = 5;
  trunk = genesis_world;
  check_trunk = genesis_world;
  block = block_5;
  slash_validators = [];
  last_commit_info = 112 ∷ 223 ∷ [];
  last_proposer = 112;
  last_gas = record { used = 0; refund = 0; fee = 0 };
  last_min_gas_price = 200;
  tx_engine = [];
  reorder_seed = 0;
  touched_addrs = [];
  epoch_chan = [];
  epoch_list = [];
  curr_validators = [];
  sig_cache = (531, record { sender = 31; height = 4 }) ∷ [];
  sig_cache_size = 0;
  sep206_sender_set = 31 ∷ [];
  recheck_counter = 0;
  recheck_threshold = 10;
  readonly = none;
}

abbrev first_entry : Map SenderAndHeight → List (ℕ × SenderAndHeight)
first_entry cache = cache

cache-CacheIsSound : CacheIsSound small engine node.sig_cache
unfolding lookup
cache-CacheIsSound tx entry found = ground arith

check_tx_cache_free_example :
    (cache : Map SenderAndHeight) × (check_tx small engine first_entry node
        (record { is_recheck = false; tx = 731 ∷ 3 ∷ 21000 ∷ 300 ∷ [] })
      ≡ with_cache small engine cache (
          check_tx_uncached small engine node
            (record { is_recheck = false; tx = 731 ∷ 3 ∷ 21000 ∷ 300 ∷ [] })))
    × CacheIsSound small engine cache
check_tx_cache_free_example =
    check_tx_cache_free small engine first_entry node
      (record { is_recheck = false; tx = 731 ∷ 3 ∷ 21000 ∷ 300 ∷ [] }) cache-CacheIsSound

check_tx-IsBounded_example :
    IsBounded small engine first_entry
      (λ cache. Perm.refl cache)
      (check_tx small engine first_entry node
        (record { is_recheck = false; tx = 731 ∷ 3 ∷ 21000 ∷ 300 ∷ [] })).1
check_tx-IsBounded_example =
    check_tx-IsBounded small engine first_entry (λ cache. Perm.refl cache) node
      (record { is_recheck = false; tx = 731 ∷ 3 ∷ 21000 ∷ 300 ∷ [] }) (omega arith)
      (omega arith, refl)

pub committed :
    (r : App small engine × Committed) × (commit small engine in_order 555 node ≡ returns r)
    × (r.0.last_min_gas_price ≡ 200)
unfolding commit receive_epoch update_validators slash_all collect_reward take_from_system
    share_reward pubkey_of refresh roll_min_gas_price prepare_txs load_min_gas_price
    save_min_gas_price distribute_fee share_fee voted_power split_fee total_voting_power
    reward_voters reward_voter credit get_val_map_by_pubkey get_active_validators is_eligible
    sort_by_power insert_by_power load_staking_acc save_staking_info be_bytes be_nat be_nat_from
    marshal unmarshal encode_many decode_many encode_validator decode_validator encode_text
    decode_text encode_number decode_number encode_reward decode_reward
committed = (_, refl, refl)

commit-IsReady_example : IsReady small engine in_order 555 node committed.0.0
commit-IsReady_example =
    commit-IsReady small engine in_order 555 node committed.1 (omega (arith, committed.2))

share_reward-unknown_voter_example :
    share_reward small engine in_order 555
      (record node { last_commit_info = 9 ∷ [] })
      three_validators
      genesis_world
      100
    ≡ panics nil_dereference
unfolding pubkey_of
share_reward-unknown_voter_example =
    share_reward-unknown_voter small engine in_order 555 (record node { last_commit_info = 9 ∷ [] })
      three_validators three_validators genesis_world contract 100 refl load_genesis refl

started :
    (r : App small engine × List (ℕ × ℕ)) × (init_chain small engine node
        ((51, 7) ∷ [])
        (alice ∷ carol ∷ bob ∷ [])
      ≡ returns r)
unfolding init_chain create_genesis_accs genesis_rewards
started = (_, refl)

init_chain_lem_example :
    (acc : small.Account) × (info : StakingInfo) × (load_staking_acc small started.0.0.trunk
      ≡ returns (acc, info))
    × (info.validators ≡ alice ∷ carol ∷ bob ∷ [])
    × (info.curr_epoch_num ≡ 0)
    × (started.0.1 ≡ end_block small engine started.0.0)
    × All (λ val. is_eligible minimum_staking_amount val ≡ true) started.0.0.curr_validators
init_chain_lem_example =
    init_chain_lem small engine node ((51, 7) ∷ []) (alice ∷ carol ∷ bob ∷ []) started.1
