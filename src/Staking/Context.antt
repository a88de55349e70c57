-- ===== src/Staking/Context.antt =====
-- What the staking code uses of `mevmtypes.Context` and `mevmtypes.AccountInfo` (moeingevm), which
-- are not part of the repository, and of the generated codec of `StakingInfo`
-- (staking/types/types_gen.go), with the behaviour that it relies on. A storage slot is the number
-- that its 32-byte key spells.
use smartbch.Base.{List, Option, if◌then◌else◌, some, u256_mod, ℕ, ◌&&◌, ◌<◌, ◌==◌, ◌≡◌}
use smartbch.Staking.Info.{StakingInfo}

pub record Context : Type 1 where
  pub World : Type 0
  pub Account : Type 0
  pub zero_account : Account
  pub balance : Account → ℕ
  pub update_balance : Account → ℕ → Account
  pub sequence : Account → ℕ
  pub update_sequence : Account → ℕ → Account
  pub get_account : World → ℕ → Option Account
  pub set_account : World → ℕ → Account → World
  pub get_storage_at : World → ℕ → ℕ → Option (List ℕ)
  pub set_storage_at : World → ℕ → ℕ → List ℕ → World
  pub marshal_info : StakingInfo → List ℕ
  pub unmarshal_info : List ℕ → Option StakingInfo
  -- A balance is a `uint256`; the fields of an account are independent of each other.
  pub balance-lt : (a : Account) → balance a < u256_mod
  pub balance-zero_account : balance zero_account ≡ 0
  pub balance-update_balance :
      (a : Account) (b : ℕ) → b < u256_mod → balance (update_balance a b) ≡ b
  pub sequence-update_balance : (a : Account) (b : ℕ) → sequence (update_balance a b) ≡ sequence a
  pub sequence-update_sequence : (a : Account) (s : ℕ) → sequence (update_sequence a s) ≡ s
  -- A read gives what was last written there, and no write disturbs another place.
  pub get_account-set_account :
      (w : World) (a : ℕ) (acc : Account) (b : ℕ)
      → get_account (set_account w a acc) b ≡ (if a == b then some acc else get_account w b)
  pub get_account-set_storage_at :
      (w : World) (q s : ℕ) (bz : List ℕ) (b : ℕ)
      → get_account (set_storage_at w q s bz) b ≡ get_account w b
  pub get_storage_at-set_account :
      (w : World) (a : ℕ) (acc : Account) (q s : ℕ)
      → get_storage_at (set_account w a acc) q s ≡ get_storage_at w q s
  pub get_storage_at-set_storage_at :
      (w : World) (q s : ℕ) (bz : List ℕ) (r t : ℕ)
      → get_storage_at (set_storage_at w q s bz) r t
        ≡ (if q == r && s == t then some bz else get_storage_at w r t)
  -- What the codec writes, it reads back.
  pub unmarshal_info-marshal_info :
      (info : StakingInfo) → unmarshal_info (marshal_info info) ≡ some info
