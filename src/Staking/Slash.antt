-- ===== src/Staking/Slash.antt =====
-- staking/staking.go: `Slash`, which punishes a validator, and `incrAllBurnt`.
pub mod Funds
use smartbch.Base.{
  List, Option, Outcome, [], add256, be_bytes, be_nat, if◌then◌else◌, leb, length, ltb, none,
  out_of_range, require, returns, some, sub256, take, update_first, ℕ, ◌>>=◌, ◌>>◌, ◌∷◌,
}
use smartbch.Staking.Context.{Context}
use smartbch.Staking.Info.{
  StakingInfo, Validator, clear_rewards_of, get_validator_by_pubkey, has_pubkey,
}
use smartbch.Staking.State.{load_staking_acc, slot_all_burnt, staking_contract_address}

-- The validator's coins behind a slash, and the slashed amount.
unfoldable pub slash_coins : ℕ → ℕ → ℕ × ℕ
slash_coins coins amount = if ltb coins amount then (0, coins) else (sub256 coins amount, amount)

abbrev pub set_staked : ℕ → Validator → Validator
set_staked coins val = record val { staked_coins = coins }

-- The state that `Slash` computes, and the amount that it burns. `none` is an unknown validator.
unfoldable pub slash_info : StakingInfo → ℕ → ℕ → Option (ℕ × StakingInfo)
unfolding get_validator_by_pubkey slash_coins clear_rewards_of
slash_info info pubkey amount = elim (get_validator_by_pubkey info pubkey) [
  | none ↦ none
  | some val ↦
      let (coins, slashed) = slash_coins val.staked_coins amount in
      let info' : StakingInfo = record info {
        validators = update_first (has_pubkey pubkey) (set_staked coins) info.validators;
      } in
      let (cleared, info'') = clear_rewards_of info' val.address in
      some (add256 slashed cleared, info'')
]

-- `SetBytes32` reads the first 32 bytes, and there must be as many.
abbrev pub decode_burnt : Option (List ℕ) → Outcome ℕ
decode_burnt none = returns 0
decode_burnt (some []) = returns 0
decode_burnt (some (b ∷ bz)) =
    require (leb 32 (length (b ∷ bz))) out_of_range >> returns (be_nat (take 32 (b ∷ bz)))

-- `transfer_to_black_hole` is `ebp.TransferFromSenderAccToBlackHoleAcc` (moeingevm), whose error the
-- code ignores.
module _ (c : Context) (transfer_to_black_hole : c.World → ℕ → ℕ → c.World) where
  open c use {World, Account, sequence, get_storage_at, set_storage_at}

  unfoldable pub incr_all_burnt : World → Account → ℕ → Outcome World
  incr_all_burnt w acc amount = do
    burnt ← decode_burnt (get_storage_at w (sequence acc) slot_all_burnt)
    returns (set_storage_at w (sequence acc) slot_all_burnt (be_bytes 32 (add256 burnt amount)))

  -- The computed state is not saved.
  unfoldable pub slash : World → ℕ → ℕ → Outcome (World × Option ℕ)
  slash w pubkey amount = do
    loaded ← load_staking_acc c w
    elim (slash_info loaded.1 pubkey amount) [
      | none ↦ returns (w, none)
      | some (total_slashed, info') ↦ do
        let moved = transfer_to_black_hole w staking_contract_address total_slashed
        w' ← incr_all_burnt moved loaded.0 total_slashed
        returns (w', some total_slashed)
    ]
