-- ===== src/Staking/Codec/Unmarshal.antt =====
-- The `UnmarshalMsg` methods of the staking state (staking/types/types_gen.go). They return the value
-- with its fields set, and the bytes that they have not read.
use smartbch.Base.{
  List, Option, [], be_nat, bytes_eq, if◌then◌else◌, leb, length, none, replicate, some, suc, take,
  zero, ℕ, ◌∷◌,
}
use smartbch.Staking.Codec.{
  Msgp, StoredInfo, key_address, key_amount, key_curr_epoch_num, key_epoch_num, key_introduction,
  key_is_retiring, key_pending_rewards, key_pubkey, key_reward_to, key_staked_coins, key_validators,
  key_voting_power,
}
use smartbch.Staking.Info.{PendingReward, Validator, new_validator}

-- A value that is read, put to use.
abbrev pub put_read : {A B : Type 0} → (B → A) → Option (B × List ℕ) → Option (A × List ℕ)
put_read set none = none
put_read set (some (x, rest)) = some (set x, rest)

-- A slice for `n` pointers: what is there where it is long enough, and else a new one. A slice has no
-- capacity beyond its length, as after `make`.
unfoldable pub slice_for : {A : Type 0} → ℕ → List (Option A) → List (Option A)
slice_for n old = if leb n (length old) then take n old else replicate n none

abbrev pub zero_validator : Validator
zero_validator = new_validator 0 0 [] 0 0

abbrev pub zero_reward : PendingReward
zero_reward = record { address = 0; epoch_num = 0; amount = 0 }

module _ (m : Msgp) where
  -- The loop over the fields of a map.
  unfoldable pub fields_loop :
      {A : Type 0}
      → (List ℕ → A → List ℕ → Option (A × List ℕ))
      → ℕ
      → A
      → List ℕ
      → Option (A × List ℕ)
  fields_loop set zero z bts = some (z, bts)
  fields_loop set (suc n) z bts = elim (m.read_map_key_zc bts) [
    | none ↦ none
    | some (key, rest) ↦ elim (set key z rest) [
      | none ↦ none
      | some (after, end) ↦ fields_loop set n after end
    ]
  ]

  unfoldable pub read_fields :
      {A : Type 0} → (List ℕ → A → List ℕ → Option (A × List ℕ)) → A → List ℕ → Option (A × List ℕ)
  read_fields set z bts = elim (m.read_map_header_bytes bts) [
    | none ↦ none
    | some (n, rest) ↦ fields_loop set n z rest
  ]

  unfoldable pub set_validator_field : List ℕ → Validator → List ℕ → Option (Validator × List ℕ)
  set_validator_field key z bts =
      if bytes_eq key key_address
      then put_read (λ x. record z { address = be_nat x }) (m.read_exact_bytes 20 bts)
      else if bytes_eq key key_pubkey
      then put_read (λ x. record z { pubkey = be_nat x }) (m.read_exact_bytes 32 bts)
      else if bytes_eq key key_reward_to
      then put_read (λ x. record z { reward_to = be_nat x }) (m.read_exact_bytes 20 bts)
      else if bytes_eq key key_voting_power
      then put_read (λ x. record z { voting_power = x }) (m.read_int64_bytes bts)
      else if bytes_eq key key_introduction
      then put_read (λ x. record z { introduction = x }) (m.read_string_bytes bts)
      else if bytes_eq key key_staked_coins
      then put_read (λ x. record z { staked_coins = be_nat x }) (m.read_exact_bytes 32 bts)
      else if bytes_eq key key_is_retiring
      then put_read (λ x. record z { is_retiring = x }) (m.read_bool_bytes bts)
      else elim (m.skip_value bts) [ none ↦ none | some rest ↦ some (z, rest) ]

  unfoldable pub unmarshal_validator : Validator → List ℕ → Option (Validator × List ℕ)
  unmarshal_validator = read_fields set_validator_field

  unfoldable pub set_reward_field :
      List ℕ → PendingReward → List ℕ → Option (PendingReward × List ℕ)
  set_reward_field key z bts =
      if bytes_eq key key_address
      then put_read (λ x. record z { address = be_nat x }) (m.read_exact_bytes 20 bts)
      else if bytes_eq key key_epoch_num
      then put_read (λ x. record z { epoch_num = x }) (m.read_int64_bytes bts)
      else if bytes_eq key key_amount
      then put_read (λ x. record z { amount = be_nat x }) (m.read_exact_bytes 32 bts)
      else elim (m.skip_value bts) [ none ↦ none | some rest ↦ some (z, rest) ]

  unfoldable pub unmarshal_reward : PendingReward → List ℕ → Option (PendingReward × List ℕ)
  unmarshal_reward = read_fields set_reward_field

  -- The loop over a slice of pointers, with the value that `new` gives; a value in place is read over.
  unfoldable pub unmarshal_items :
      {A : Type 0}
      → (A → List ℕ → Option (A × List ℕ))
      → A
      → List (Option A)
      → List ℕ
      → Option (List (Option A) × List ℕ)
  unmarshal_items one new [] bts = some ([], bts)
  unmarshal_items one new (item ∷ items) bts =
      if m.is_nil bts
      then elim (m.read_nil_bytes bts) [
        | none ↦ none
        | some rest ↦ put_read (λ xs. none ∷ xs) (unmarshal_items one new items rest)
      ]
      else elim (one (elim item [ none ↦ new | some z ↦ z ]) bts) [
        | none ↦ none
        | some (z, rest) ↦ put_read (λ xs. some z ∷ xs) (unmarshal_items one new items rest)
      ]

  unfoldable pub read_items :
      {A : Type 0}
      → (A → List ℕ → Option (A × List ℕ))
      → A
      → List (Option A)
      → List ℕ
      → Option (List (Option A) × List ℕ)
  read_items one new old bts = elim (m.read_array_header_bytes bts) [
    | none ↦ none
    | some (n, rest) ↦ unmarshal_items one new (slice_for n old) rest
  ]

  unfoldable pub set_info_field : List ℕ → StoredInfo → List ℕ → Option (StoredInfo × List ℕ)
  set_info_field key z bts =
      if bytes_eq key key_curr_epoch_num
      then put_read (λ x. record z { curr_epoch_num = x }) (m.read_int64_bytes bts)
      else if bytes_eq key key_validators
      then put_read (λ xs. record z { validators = xs })
          (read_items unmarshal_validator zero_validator z.validators bts)
      else if bytes_eq key key_pending_rewards
      then put_read (λ xs. record z { pending_rewards = xs })
          (read_items unmarshal_reward zero_reward z.pending_rewards bts)
      else elim (m.skip_value bts) [ none ↦ none | some rest ↦ some (z, rest) ]

  unfoldable pub unmarshal_staking_info : StoredInfo → List ℕ → Option (StoredInfo × List ℕ)
  unmarshal_staking_info = read_fields set_info_field
