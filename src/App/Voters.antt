-- ===== src/App/Voters.antt =====
-- A voter who is no validator any more (`Commit` of app/app.go, `DistributeFee` of
-- staking/staking.go).
use smartbch.Base.{
  Bool, List, Option-cases, [], add64, any, any-find_last, arith, false, find_last, inl, inr, map,
  nil_dereference, not, panics, refl, returns, true, ℕ, ◌==◌, ◌∙◌, ◌∷◌, ◌≡◌,
}
use smartbch.App.State.{App}
use smartbch.App.Machine.{Machine}
use smartbch.Staking.Context.{Context}
use smartbch.Staking.Epoch.{MapOrders}
use smartbch.Staking.Info.{StakingInfo, get_val_map_by_pubkey, has_pubkey}
use smartbch.Staking.Fee.{distribute_fee, share_fee, voted_power}
use smartbch.Staking.State.{load_staking_acc}
use smartbch.App.Commit.{pubkey_of, share_reward}

abbrev is_unknown : StakingInfo → ℕ → Bool
is_unknown info pubkey = not (any (has_pubkey pubkey) info.validators)

voted_power-panics :
    (info : StakingInfo) (acc : ℕ) (voters : List ℕ)
    → any (is_unknown info) voters ≡ true
    → voted_power info acc voters ≡ panics nil_dereference
unfolding voted_power get_val_map_by_pubkey
voted_power-panics info acc [] h = cc h
voted_power-panics info acc (voter ∷ voters) h =
    elim (Option-cases (find_last (has_pubkey voter) info.validators)) [
      | inl unknown ↦ rw unknown refl
      | inr (val, found) ↦
          let known : any (has_pubkey voter) info.validators ≡ true =
            ground (arith, any-find_last (has_pubkey voter) info.validators) in
          let rest : any (is_unknown info) voters ≡ true = ground arith in
          rw found (voted_power-panics info (add64 acc val.voting_power) voters rest)
    ]

any-map : (p : ℕ → Bool) (f : ℕ → ℕ) (xs : List ℕ) → any p (map f xs) ≡ any (λ x. p (f x)) xs
any-map p f [] = refl
any-map p f (x ∷ xs) = ground (arith, any-map p f xs)

module _ (c : Context) (m : Machine c) (o : MapOrders) (transfer_event : ℕ) where
  -- In a block after the first, if a voter of the last commit, found by its consensus address among the
  -- validators as they were when `Commit` began, is no validator any more when the reward is shared,
  -- then sharing the reward panics with a nil pointer. A consensus address of no validator counts as
  -- the zero public key.
  pub share_reward-unknown_voter :
      (app : App c m) (info stored : StakingInfo) (w : c.World) (acc : c.Account) (reward : ℕ)
      → (app.curr_height == 1) ≡ false
      → load_staking_acc c w ≡ returns (acc, stored)
      → any
          (λ addr. is_unknown stored (pubkey_of c m o transfer_event info addr))
          app.last_commit_info
        ≡ true
      → share_reward c m o transfer_event app info w reward ≡ panics nil_dereference
  unfolding share_reward distribute_fee share_fee
  share_reward-unknown_voter app info stored w acc reward later loaded voter =
      let pubkey = pubkey_of c m o transfer_event info in
      rw (
        later,
        loaded,
        voted_power-panics stored 0 (map pubkey app.last_commit_info)
            (any-map (is_unknown stored) pubkey app.last_commit_info ∙ voter),
      )
