-- ===== src/App/InitChain.antt =====
-- app/app.go: `InitChain`, which writes the genesis state.
use smartbch.Base.{
  List, Outcome, [], deref, keep_if, map, no_genesis_validator, no_staking_contract, out_of_range,
  panics, returns, ℕ, ◌>>=◌, ◌∷◌,
}
use smartbch.App.State.{App}
use smartbch.App.Machine.{Machine}
use smartbch.Staking.Context.{Context}
use smartbch.Staking.External.{minimum_staking_amount}
use smartbch.Staking.Info.{PendingReward, StakingInfo, Validator, is_eligible}
use smartbch.Staking.State.{save_staking_info, staking_contract_address}

-- One pending reward for each current validator, with the addresses of the genesis validators; there
-- must be as many of these.
unfoldable pub genesis_rewards : List Validator → List Validator → Outcome (List PendingReward)
genesis_rewards [] genesis = returns []
genesis_rewards (val ∷ vals) [] = panics out_of_range
genesis_rewards (val ∷ vals) (g ∷ gs) = genesis_rewards vals gs >>= λ prs.
    returns (record { address = g.address; epoch_num = 0; amount = 0 } ∷ prs)

module _ (c : Context) (m : Machine c) where
  open c use {World, zero_account, update_balance, get_account, set_account}

  -- `alloc` are the balances of the genesis file.
  unfoldable pub create_genesis_accs : World → List (ℕ × ℕ) → World
  create_genesis_accs w [] = w
  create_genesis_accs w ((addr, amount) ∷ alloc) =
      create_genesis_accs (set_account w addr (update_balance zero_account amount)) alloc

  -- The state then, and the validators for Tendermint.
  unfoldable pub init_chain :
      App c m → List (ℕ × ℕ) → List Validator → Outcome (App c m × List (ℕ × ℕ))
  init_chain app alloc [] = panics no_genesis_validator
  init_chain app alloc (val ∷ vals) = do
    let w = create_genesis_accs app.trunk alloc
    acc ← deref (get_account w staking_contract_address) no_staking_contract
    prs ← genesis_rewards app.curr_validators (val ∷ vals)
    let info : StakingInfo = record {
      curr_epoch_num = 0;
      validators = val ∷ vals;
      pending_rewards = prs;
    }
    let active = keep_if (is_eligible minimum_staking_amount) (val ∷ vals)
    returns (
      record app { trunk = save_staking_info c w acc info; curr_validators = active },
      map (λ v. (v.pubkey, v.voting_power)) active,
    )
