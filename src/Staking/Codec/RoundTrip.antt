-- ===== src/Staking/Codec/RoundTrip.antt =====
-- The staking state is read as it was written (staking/types/types_gen.go).
use smartbch.Base.{
  All, List, Option, [], ap, append_assoc, arith, false, length, some, ℕ, ◌%◌, ◌++◌, ◌<◌, ◌^◌, ◌∙◌,
  ◌∷◌, ◌≡◌,
}
use smartbch.Staking.Codec.Items.{
  Coded, IsPointer, item_bytes, read_items-bytes, marshal_items-append,
}
use smartbch.Staking.Codec.Values.{
  IsGoReward, IsGoValidator, marshal_reward-append, marshal_validator-append, reward_bytes,
  unmarshal_reward-bytes, unmarshal_validator-bytes, validator_bytes,
}
use smartbch.Staking.Codec.{
  Msgp, StoredInfo, key_curr_epoch_num, key_pending_rewards, key_validators,
}
use smartbch.Staking.Info.{PendingReward, Validator}
use smartbch.Staking.Codec.Fields.{
  entry_bytes, fields_loop-entry, fields_loop-key, read_fields-entries,
}
use smartbch.Staking.Codec.Unmarshal.{
  fields_loop, put_read, set_info_field, unmarshal_reward, unmarshal_staking_info,
  unmarshal_validator, zero_reward, zero_validator,
}
use smartbch.Staking.Codec.Marshal.{
  marshal_reward, marshal_staking_info, marshal_validator, marshal_items,
}

-- What the Go type holds, with slices shorter than 2 ^ 32.
abbrev pub IsGoInfo : StoredInfo → Type 0
IsGoInfo z =
    (z.curr_epoch_num < 2 ^ 64)
    × (length z.validators < 2 ^ 32)
    × All (IsPointer IsGoValidator) z.validators
    × (length z.pending_rewards < 2 ^ 32)
    × All (IsPointer IsGoReward) z.pending_rewards

module _ (m : Msgp) where
  validator_bytes-not_nil :
      (z : Validator) (rest : List ℕ) → m.is_nil (validator_bytes m z rest) ≡ false
  unfolding validator_bytes
  validator_bytes-not_nil z rest = m.map_not_nil 7 _ (omega arith)

  abbrev validators_coded : Coded m Validator IsGoValidator
  validators_coded = record {
    marshal_one = marshal_validator m;
    unmarshal_one = unmarshal_validator m;
    bytes_for = validator_bytes m;
    appends = marshal_validator-append m;
    reads_back = unmarshal_validator-bytes m;
    no_nil = validator_bytes-not_nil;
  }

  reward_bytes-not_nil :
      (z : PendingReward) (rest : List ℕ) → m.is_nil (reward_bytes m z rest) ≡ false
  unfolding reward_bytes
  reward_bytes-not_nil z rest = m.map_not_nil 3 _ (omega arith)

  abbrev rewards_coded : Coded m PendingReward IsGoReward
  rewards_coded = record {
    marshal_one = marshal_reward m;
    unmarshal_one = unmarshal_reward m;
    bytes_for = reward_bytes m;
    appends = marshal_reward-append m;
    reads_back = unmarshal_reward-bytes m;
    no_nil = reward_bytes-not_nil;
  }

  -- What is written of the validators and the pending rewards, in front of the rest.
  vals_bytes : StoredInfo → List ℕ → List ℕ
  vals_bytes z rest =
      m.array_header_of (length z.validators % 2 ^ 32)
      ++ item_bytes m validators_coded z.validators rest

  rewards_bytes : StoredInfo → List ℕ → List ℕ
  rewards_bytes z rest =
      m.array_header_of (length z.pending_rewards % 2 ^ 32)
      ++ item_bytes m rewards_coded z.pending_rewards rest

  info_bytes : StoredInfo → List ℕ → List ℕ
  info_bytes z rest =
      0x83
      ∷ entry_bytes key_curr_epoch_num (m.int64_of z.curr_epoch_num) (
          0xaa ∷ key_validators
          ++ vals_bytes z (0xae ∷ key_pending_rewards ++ rewards_bytes z rest))

  marshal_staking_info-append :
      (z : StoredInfo) (o rest : List ℕ)
      → marshal_staking_info m z o ++ rest ≡ o ++ info_bytes z rest
  unfolding marshal_staking_info info_bytes vals_bytes rewards_bytes
  marshal_staking_info-append z o rest =
      marshal_items-append m rewards_coded z.pending_rewards (vals ++ name ++ header) rest
      ∙ append_assoc (vals ++ name) header rewards
      ∙ append_assoc vals name (header ++ rewards)
      ∙ marshal_items-append m validators_coded z.validators front (name ++ (header ++ rewards))
      ∙ simp append_assoc
    where
      front : List ℕ
      front =
          o
          ++ (0x83 ∷ 0xac ∷ key_curr_epoch_num)
          ++ m.int64_of z.curr_epoch_num
          ++ (0xaa ∷ key_validators)
          ++ m.array_header_of (length z.validators % 2 ^ 32)

      vals : List ℕ
      vals = marshal_items m (marshal_validator m) z.validators front

      name : List ℕ
      name = 0xae ∷ key_pending_rewards

      header : List ℕ
      header = m.array_header_of (length z.pending_rewards % 2 ^ 32)

      rewards : List ℕ
      rewards = item_bytes m rewards_coded z.pending_rewards rest

  unmarshal_staking_info-bytes :
      (old z : StoredInfo) (rest : List ℕ)
      → IsGoInfo z
      → unmarshal_staking_info m old (info_bytes z rest) ≡ some (z, rest)
  unfolding unmarshal_staking_info set_info_field fields_loop info_bytes vals_bytes rewards_bytes
  unmarshal_staking_info-bytes old z rest (epoch, short_vals, vals, short_rewards, rewards) =
      read_fields-entries m set 3 old _ (omega arith)
      ∙ fields_loop-entry m set 2 key_curr_epoch_num _ _ old v1 (omega arith) (
          ap (put_read (λ x. record old { curr_epoch_num = x }))
            (m.int64_back z.curr_epoch_num _ epoch))
      ∙ fields_loop-key m set 1 key_validators _ _ v1 v2 (omega arith) (
          ap (put_read (λ x. record v1 { validators = x })) (
            read_items-bytes m validators_coded zero_validator old.validators z.validators _
              short_vals vals))
      ∙ fields_loop-key m set 0 key_pending_rewards _ rest v2 z (omega arith) (
          ap (put_read (λ x. record v2 { pending_rewards = x })) (
            read_items-bytes m rewards_coded zero_reward old.pending_rewards z.pending_rewards rest
              short_rewards rewards))
    where
      set : List ℕ → StoredInfo → List ℕ → Option (StoredInfo × List ℕ)
      set = set_info_field m

      v1 : StoredInfo
      v1 = record old { curr_epoch_num = z.curr_epoch_num }

      v2 : StoredInfo
      v2 = record v1 { validators = z.validators }

  -- A staking state whose fields are in the ranges of their Go types, with slices and introductions
  -- shorter than 2 ^ 32, and with nil pointers or not, is read by `UnmarshalMsg` exactly as
  -- `MarshalMsg` has appended it to nothing, whatever bytes follow and whatever state is read over, and
  -- the bytes that follow are what is left.
  pub unmarshal-marshal_staking_info :
      (old z : StoredInfo) (rest : List ℕ)
      → IsGoInfo z
      → unmarshal_staking_info m old (marshal_staking_info m z [] ++ rest) ≡ some (z, rest)
  unmarshal-marshal_staking_info old z rest ok =
      rw (marshal_staking_info-append z [] rest) (unmarshal_staking_info-bytes old z rest ok)
