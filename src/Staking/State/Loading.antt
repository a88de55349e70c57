-- ===== src/Staking/State/Loading.antt =====
-- What `LoadStakingAcc` finds after a write (staking/staking.go).
use smartbch.Base.{List, arith, returns, some, ℕ, ◌∙◌, ◌≡◌, ◌≢◌}
use smartbch.Staking.Info.{StakingInfo}
use smartbch.Staking.Context.{Context}
use smartbch.Staking.State.{
  load_staking_acc, staking_contract_address, slot_staking_info, save_staking_info,
}

module _ (c : Context) where
  open c use {
    World, Account, sequence, get_account, set_account, get_storage_at, set_storage_at,
    marshal_info, unmarshal_info, get_account-set_account, get_account-set_storage_at,
    get_storage_at-set_account, get_storage_at-set_storage_at, unmarshal_info-marshal_info,
  }

  -- A successful load has read the account and the decoded slot.
  pub load-account :
      (w : World) {acc : Account} {info : StakingInfo}
      → load_staking_acc c w ≡ returns (acc, info)
      → get_account w staking_contract_address ≡ some acc
  unfolding load_staking_acc
  load-account w h = ground arith

  pub load_stored :
      (w : World) (acc : Account) (info : StakingInfo)
      → get_account w staking_contract_address ≡ some acc
      → get_storage_at w (sequence acc) slot_staking_info ≡ some (marshal_info info)
      → load_staking_acc c w ≡ returns (acc, info)
  unfolding load_staking_acc
  load_stored w acc info e s = ground (arith, unmarshal_info-marshal_info info)

  pub load_same :
      (w w' : World) (acc acc' : Account) (info : StakingInfo)
      → load_staking_acc c w ≡ returns (acc, info)
      → get_account w' staking_contract_address ≡ some acc'
      → get_storage_at w' (sequence acc') slot_staking_info
        ≡ get_storage_at w (sequence acc) slot_staking_info
      → load_staking_acc c w' ≡ returns (acc', info)
  unfolding load_staking_acc
  load_same w w' acc acc' info h e s = ground (arith, load-account w h)

  pub get_storage_at-set_ne :
      (w : World) (q s : ℕ) (bz : List ℕ) (r t : ℕ)
      → s ≢ t
      → get_storage_at (set_storage_at w q s bz) r t ≡ get_storage_at w r t
  get_storage_at-set_ne w q s bz r t h = ground (arith, get_storage_at-set_storage_at w q s bz r t)

  -- What is saved is what is loaded.
  pub load-save :
      (w : World) (acc : Account) (info : StakingInfo)
      → get_account w staking_contract_address ≡ some acc
      → load_staking_acc c (save_staking_info c w acc info) ≡ returns (acc, info)
  unfolding save_staking_info
  load-save w acc info e =
      load_stored _ acc info
        (get_account-set_storage_at w (sequence acc) slot_staking_info (marshal_info info)
            staking_contract_address
          ∙ e)
        (ground (
          arith,
          get_storage_at-set_storage_at w (sequence acc) slot_staking_info (marshal_info info)
              (sequence acc) slot_staking_info,
        ))
