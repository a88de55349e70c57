-- ===== src/Tests/Commits.antt =====
-- The money in a commit of the small node (app/app.go).
use smartbch.Base.{
  Bool-cases, Option-cases, arith, inl, inr, ltb, refl, some, ℕ, ◌+◌, ◌-◌, ◌≡◌, ◌≤◌,
}
use smartbch.Tests.Node.{committed, engine, node, take_system}
use smartbch.Tests.World.{contract, load_genesis, small, SmallWorld, three_validators}
use smartbch.Staking.State.{staking_contract_address}
use smartbch.Staking.Funds.{KeepsFunds}
use smartbch.App.Money.{SystemLaws}
use smartbch.App.Funds.{commit-KeepsFunds}
use smartbch.Tests.Contract.{in_order}
use smartbch.App.Commit.{receive_epoch}

taken :
    (w w' : SmallWorld) (amount : ℕ)
    → take_system w amount ≡ some w'
    → (engine.get_system_balance w' + amount ≡ engine.get_system_balance w)
      × (w'.accounts staking_contract_address ≡ w.accounts staking_contract_address)
      × ((q s : ℕ) → w'.storage q s ≡ w.storage q s)
taken w w' amount h = elim (Option-cases (w.accounts 1000)) [
  | inl none_there ↦ absurd (ground arith)
  | inr (acc, found) ↦ elim (Bool-cases (ltb (small.balance acc) amount)) [
    | inl low ↦ absurd (ground arith)
    | inr enough ↦
        let after =
          small.set_account w 1000 (small.update_balance acc (small.balance acc - amount)) in
        let same : after ≡ w' = ground arith in
        let fits : amount ≤ small.balance acc = ground arith in
        let below = small.balance-lt acc in
        rw (← same) (rw found (omega (arith, fits, below)), refl, λ q s. refl)
  ]
]

engine-SystemLaws : SystemLaws small engine
engine-SystemLaws = record {
  takes = λ w w' amount h. (taken w w' amount h).0;
  leaves_contract = λ w w' amount h. (taken w w' amount h).1;
  leaves_storage = λ w w' amount q s h. (taken w w' amount h).2 q s;
  prepare_contract = λ e w seed price. refl;
  prepare_storage = λ e w seed price q s. refl;
  info_contract = λ w blk. refl;
  info_storage = λ w blk q s. refl;
}

commit-KeepsFunds_example : KeepsFunds small contract three_validators committed.0.0.trunk
unfolding receive_epoch
commit-KeepsFunds_example =
    commit-KeepsFunds small engine in_order 555 engine-SystemLaws node load_genesis refl refl tt
      committed.1
