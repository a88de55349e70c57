-- ===== src/App/Genesis.antt =====
-- The state that `InitChain` of app/app.go leaves.
use smartbch.Base.{
  >>=-elim, All, List, [], deref, deref-eq-returns, keep_if-All, no_staking_contract, refl, returns,
  returns-injective, true, ℕ, ◌∷◌, ◌≡◌,
}
use smartbch.App.State.{App}
use smartbch.App.Machine.{Machine}
use smartbch.Staking.Context.{Context}
use smartbch.Staking.Info.{StakingInfo, Validator, is_eligible}
use smartbch.App.InitChain.{create_genesis_accs, genesis_rewards, init_chain}
use smartbch.App.Blocks.{end_block}
use smartbch.Staking.State.{load_staking_acc, staking_contract_address}
use smartbch.Staking.External.{minimum_staking_amount}
use smartbch.Staking.State.Loading.{load-save}

module _ (c : Context) (m : Machine c) where
  -- If `InitChain` does not panic, then the staking state can be loaded, in epoch 0 and with exactly the
  -- validators of the genesis file, active or not; the validators that Tendermint is told are those
  -- that `EndBlock` reports from then on; and every one of them has enough coins, is not retiring and
  -- has a positive power.
  pub init_chain_lem :
      (app : App c m) (alloc : List (ℕ × ℕ)) (genesis : List Validator) {r : App c m × List (ℕ × ℕ)}
      → init_chain c m app alloc genesis ≡ returns r
      → (acc : c.Account) × (info : StakingInfo) × (load_staking_acc c r.0.trunk
          ≡ returns (acc, info))
        × (info.validators ≡ genesis)
        × (info.curr_epoch_num ≡ 0)
        × (r.1 ≡ end_block c m r.0)
        × All (λ val. is_eligible minimum_staking_amount val ≡ true) r.0.curr_validators
  unfolding init_chain end_block
  init_chain_lem app alloc [] e = absurd (cc e)
  init_chain_lem app alloc (val ∷ vals) {r} e =
      let w = create_genesis_accs c m app.trunk alloc in
      >>=-elim (deref (c.get_account w staking_contract_address) no_staking_contract) _ e
        (λ acc a e1. >>=-elim (genesis_rewards app.curr_validators (val ∷ vals)) _ e1 (λ prs g e2.
          let info : StakingInfo = record {
            curr_epoch_num = 0;
            validators = val ∷ vals;
            pending_rewards = prs;
          } in
          rw (← returns-injective e2) (
            acc,
            info,
            load-save c w acc info (deref-eq-returns _ no_staking_contract a),
            refl,
            refl,
            refl,
            keep_if-All (is_eligible minimum_staking_amount) (val ∷ vals),
          )))
