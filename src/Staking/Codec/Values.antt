-- ===== src/Staking/Codec/Values.antt =====
-- A validator and a pending reward are read as they were written (staking/types/types_gen.go).
-- What the Go types hold: arrays of bytes, an `int64`, and a string shorter than 2 ^ 32.
use smartbch.Base.{
  List, Option, ap, append_assoc, arith, be_bytes, length, some, ℕ, ◌++◌, ◌<◌, ◌^◌, ◌∙◌, ◌∷◌, ◌≡◌,
}
use smartbch.Staking.Codec.{
  Msgp, key_address, key_amount, key_epoch_num, key_introduction, key_is_retiring, key_pubkey,
  key_reward_to, key_staked_coins, key_voting_power,
}
use smartbch.Staking.Info.{PendingReward, Validator}
use smartbch.Staking.Codec.Fields.{
  entry_bytes, fields_loop-entry, put_read-number, read_fields-entries,
}
use smartbch.Staking.Codec.Unmarshal.{
  fields_loop, put_read, set_reward_field, set_validator_field, unmarshal_reward,
  unmarshal_validator,
}
use smartbch.Staking.Codec.Marshal.{marshal_reward, marshal_validator}

abbrev pub IsGoValidator : Validator → Type 0
IsGoValidator val =
    (val.address < 256 ^ 20)
    × (val.pubkey < 256 ^ 32)
    × (val.reward_to < 256 ^ 20)
    × (val.voting_power < 2 ^ 64)
    × (length val.introduction < 2 ^ 32)
    × (val.staked_coins < 256 ^ 32)

abbrev pub IsGoReward : PendingReward → Type 0
IsGoReward pr = (pr.address < 256 ^ 20) × (pr.epoch_num < 2 ^ 64) × (pr.amount < 256 ^ 32)

module _ (m : Msgp) where
  unfoldable pub validator_bytes : Validator → List ℕ → List ℕ
  validator_bytes z rest =
      0x87
      ∷ entry_bytes key_address (m.bytes_of (be_bytes 20 z.address)) (
          entry_bytes key_pubkey (m.bytes_of (be_bytes 32 z.pubkey)) (
            entry_bytes key_reward_to (m.bytes_of (be_bytes 20 z.reward_to)) (
              entry_bytes key_voting_power (m.int64_of z.voting_power) (
                entry_bytes key_introduction (m.string_of z.introduction) (
                  entry_bytes key_staked_coins (m.bytes_of (be_bytes 32 z.staked_coins))
                    (entry_bytes key_is_retiring (m.bool_of z.is_retiring) rest))))))

  pub marshal_validator-append :
      (z : Validator) (o rest : List ℕ)
      → marshal_validator m z o ++ rest ≡ o ++ validator_bytes z rest
  unfolding marshal_validator validator_bytes
  marshal_validator-append z o rest = simp append_assoc

  pub unmarshal_validator-bytes :
      (old z : Validator) (rest : List ℕ)
      → IsGoValidator z
      → unmarshal_validator m old (validator_bytes z rest) ≡ some (z, rest)
  unfolding unmarshal_validator set_validator_field fields_loop validator_bytes
  unmarshal_validator-bytes old z rest (addr, key, to, power, intro, coins) =
      read_fields-entries m set 7 old _ (omega arith)
      ∙ fields_loop-entry m set 6 key_address _ _ old v1 (omega arith)
          (put_read-number m (λ x. record old { address = x }) 20 z.address _ (omega arith) addr)
      ∙ fields_loop-entry m set 5 key_pubkey _ _ v1 v2 (omega arith)
          (put_read-number m (λ x. record v1 { pubkey = x }) 32 z.pubkey _ (omega arith) key)
      ∙ fields_loop-entry m set 4 key_reward_to _ _ v2 v3 (omega arith)
          (put_read-number m (λ x. record v2 { reward_to = x }) 20 z.reward_to _ (omega arith) to)
      ∙ fields_loop-entry m set 3 key_voting_power _ _ v3 v4 (omega arith) (
          ap (put_read (λ x. record v3 { voting_power = x })) (m.int64_back z.voting_power _ power))
      ∙ fields_loop-entry m set 2 key_introduction _ _ v4 v5 (omega arith) (
          ap (put_read (λ x. record v4 { introduction = x }))
            (m.string_back z.introduction _ intro))
      ∙ fields_loop-entry m set 1 key_staked_coins _ _ v5 v6 (omega arith) (
          put_read-number m (λ x. record v5 { staked_coins = x }) 32 z.staked_coins _ (omega arith)
            coins)
      ∙ fields_loop-entry m set 0 key_is_retiring _ rest v6 z (omega arith)
          (ap (put_read (λ x. record v6 { is_retiring = x })) (m.bool_back z.is_retiring rest))
    where
      set : List ℕ → Validator → List ℕ → Option (Validator × List ℕ)
      set = set_validator_field m

      v1 : Validator
      v1 = record old { address = z.address }

      v2 : Validator
      v2 = record v1 { pubkey = z.pubkey }

      v3 : Validator
      v3 = record v2 { reward_to = z.reward_to }

      v4 : Validator
      v4 = record v3 { voting_power = z.voting_power }

      v5 : Validator
      v5 = record v4 { introduction = z.introduction }

      v6 : Validator
      v6 = record v5 { staked_coins = z.staked_coins }

module _ (m : Msgp) where
  unfoldable pub reward_bytes : PendingReward → List ℕ → List ℕ
  reward_bytes z rest =
      0x83
      ∷ entry_bytes key_address (m.bytes_of (be_bytes 20 z.address)) (
          entry_bytes key_epoch_num (m.int64_of z.epoch_num)
            (entry_bytes key_amount (m.bytes_of (be_bytes 32 z.amount)) rest))

  pub marshal_reward-append :
      (z : PendingReward) (o rest : List ℕ)
      → marshal_reward m z o ++ rest ≡ o ++ reward_bytes z rest
  unfolding marshal_reward reward_bytes
  marshal_reward-append z o rest = simp append_assoc

  pub unmarshal_reward-bytes :
      (old z : PendingReward) (rest : List ℕ)
      → IsGoReward z
      → unmarshal_reward m old (reward_bytes z rest) ≡ some (z, rest)
  unfolding unmarshal_reward set_reward_field fields_loop reward_bytes
  unmarshal_reward-bytes old z rest (addr, epoch, coins) =
      read_fields-entries m set 3 old _ (omega arith)
      ∙ fields_loop-entry m set 2 key_address _ _ old v1 (omega arith)
          (put_read-number m (λ x. record old { address = x }) 20 z.address _ (omega arith) addr)
      ∙ fields_loop-entry m set 1 key_epoch_num _ _ v1 v2 (omega arith)
          (ap (put_read (λ x. record v1 { epoch_num = x })) (m.int64_back z.epoch_num _ epoch))
      ∙ fields_loop-entry m set 0 key_amount _ rest v2 z (omega arith)
          (put_read-number m (λ x. record v2 { amount = x }) 32 z.amount rest (omega arith) coins)
    where
      set : List ℕ → PendingReward → List ℕ → Option (PendingReward × List ℕ)
      set = set_reward_field m

      v1 : PendingReward
      v1 = record old { address = z.address }

      v2 : PendingReward
      v2 = record v1 { epoch_num = z.epoch_num }
