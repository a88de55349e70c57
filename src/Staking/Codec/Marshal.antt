-- ===== src/Staking/Codec/Marshal.antt =====
-- The `MarshalMsg` methods of the staking state (staking/types/types_gen.go). They append to a slice
-- and return no errors.
use smartbch.Base.{List, Option, [], be_bytes, length, none, some, ℕ, ◌%◌, ◌++◌, ◌^◌, ◌∷◌}
use smartbch.Staking.Codec.{
  Msgp, StoredInfo, key_address, key_amount, key_curr_epoch_num, key_epoch_num, key_introduction,
  key_is_retiring, key_pending_rewards, key_pubkey, key_reward_to, key_staked_coins, key_validators,
  key_voting_power,
}
use smartbch.Staking.Info.{PendingReward, Validator}

module _ (m : Msgp) where
  unfoldable pub marshal_validator : Validator → List ℕ → List ℕ
  marshal_validator z o =
      o
      ++ (0x87 ∷ 0xa7 ∷ key_address)
      ++ m.bytes_of (be_bytes 20 z.address)
      ++ (0xa6 ∷ key_pubkey)
      ++ m.bytes_of (be_bytes 32 z.pubkey)
      ++ (0xa8 ∷ key_reward_to)
      ++ m.bytes_of (be_bytes 20 z.reward_to)
      ++ (0xab ∷ key_voting_power)
      ++ m.int64_of z.voting_power
      ++ (0xac ∷ key_introduction)
      ++ m.string_of z.introduction
      ++ (0xab ∷ key_staked_coins)
      ++ m.bytes_of (be_bytes 32 z.staked_coins)
      ++ (0xaa ∷ key_is_retiring)
      ++ m.bool_of z.is_retiring

  unfoldable pub marshal_reward : PendingReward → List ℕ → List ℕ
  marshal_reward z o =
      o
      ++ (0x83 ∷ 0xa7 ∷ key_address)
      ++ m.bytes_of (be_bytes 20 z.address)
      ++ (0xa8 ∷ key_epoch_num)
      ++ m.int64_of z.epoch_num
      ++ (0xa6 ∷ key_amount)
      ++ m.bytes_of (be_bytes 32 z.amount)

  -- The loop over a slice of pointers.
  unfoldable pub marshal_items :
      {A : Type 0} → (A → List ℕ → List ℕ) → List (Option A) → List ℕ → List ℕ
  marshal_items one [] o = o
  marshal_items one (none ∷ items) o = marshal_items one items (o ++ m.nil_of)
  marshal_items one (some z ∷ items) o = marshal_items one items (one z o)

  unfoldable pub marshal_staking_info : StoredInfo → List ℕ → List ℕ
  marshal_staking_info z o =
      let epoch = o ++ (0x83 ∷ 0xac ∷ key_curr_epoch_num) ++ m.int64_of z.curr_epoch_num in
      let vals =
        marshal_items marshal_validator z.validators
          (epoch ++ (0xaa ∷ key_validators) ++ m.array_header_of (length z.validators % 2 ^ 32)) in
      marshal_items marshal_reward z.pending_rewards (
        vals
        ++ (0xae ∷ key_pending_rewards)
        ++ m.array_header_of (length z.pending_rewards % 2 ^ 32))
