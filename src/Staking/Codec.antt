-- ===== src/Staking/Codec.antt =====
-- staking/types/types_gen.go: the codec of the staking state, `MarshalMsg` and `UnmarshalMsg`. The
-- package msgp, which writes and reads single values, is a parameter. A byte slice, a string and a key
-- are lists of bytes; an array of `n` bytes is the number that it spells. An error is `none`.
pub mod Marshal
pub mod Unmarshal
pub mod Fields
pub mod Values
pub mod Items
pub mod RoundTrip
use smartbch.Base.{
  Bool, List, Option, [], false, length, some, true, ℕ, ◌++◌, ◌+◌, ◌<◌, ◌^◌, ◌∷◌, ◌≡◌,
}
use smartbch.Staking.Info.{PendingReward, Validator}

-- What the generated code uses of the package: the bytes that the `Append` functions append, and the
-- `Read` functions, with MessagePack's rules for what is written as literal bytes.
pub record Msgp : Type 0 where
  pub int64_of : ℕ → List ℕ
  pub bytes_of : List ℕ → List ℕ
  pub string_of : List ℕ → List ℕ
  pub bool_of : Bool → List ℕ
  pub array_header_of : ℕ → List ℕ
  pub nil_of : List ℕ
  pub read_map_header_bytes : List ℕ → Option (ℕ × List ℕ)
  pub read_map_key_zc : List ℕ → Option (List ℕ × List ℕ)
  pub read_exact_bytes : ℕ → List ℕ → Option (List ℕ × List ℕ)
  pub read_int64_bytes : List ℕ → Option (ℕ × List ℕ)
  pub read_string_bytes : List ℕ → Option (List ℕ × List ℕ)
  pub read_bool_bytes : List ℕ → Option (Bool × List ℕ)
  pub read_array_header_bytes : List ℕ → Option (ℕ × List ℕ)
  pub is_nil : List ℕ → Bool
  pub read_nil_bytes : List ℕ → Option (List ℕ)
  pub skip_value : List ℕ → Option (List ℕ)
  -- A small map starts with one byte, and so does a short key.
  pub map_header :
      (n : ℕ) (rest : List ℕ) → n < 16 → read_map_header_bytes ((128 + n) ∷ rest) ≡ some (n, rest)
  pub map_key :
      (key rest : List ℕ)
      → length key < 32
      → read_map_key_zc ((160 + length key) ∷ key ++ rest) ≡ some (key, rest)
  pub map_not_nil : (n : ℕ) (rest : List ℕ) → n < 16 → is_nil ((128 + n) ∷ rest) ≡ false
  -- What is written is read back.
  pub exact_bytes :
      (x rest : List ℕ)
      → length x < 2 ^ 32
      → read_exact_bytes (length x) (bytes_of x ++ rest) ≡ some (x, rest)
  pub int64_back :
      (v : ℕ) (rest : List ℕ) → v < 2 ^ 64 → read_int64_bytes (int64_of v ++ rest) ≡ some (v, rest)
  pub string_back :
      (x rest : List ℕ)
      → length x < 2 ^ 32
      → read_string_bytes (string_of x ++ rest) ≡ some (x, rest)
  pub bool_back : (b : Bool) (rest : List ℕ) → read_bool_bytes (bool_of b ++ rest) ≡ some (b, rest)
  pub array_header_back :
      (n : ℕ) (rest : List ℕ)
      → n < 2 ^ 32
      → read_array_header_bytes (array_header_of n ++ rest) ≡ some (n, rest)
  pub nil_is_nil : (rest : List ℕ) → is_nil (nil_of ++ rest) ≡ true
  pub nil_back : (rest : List ℕ) → read_nil_bytes (nil_of ++ rest) ≡ some rest

-- The state as it is stored: its slices hold pointers, which may be nil.
pub record StoredInfo : Type 0 where
  pub curr_epoch_num : ℕ
  pub validators : List (Option Validator)
  pub pending_rewards : List (Option PendingReward)

abbrev pub key_address : List ℕ
key_address = 0x41 ∷ 0x64 ∷ 0x64 ∷ 0x72 ∷ 0x65 ∷ 0x73 ∷ 0x73 ∷ []

abbrev pub key_pubkey : List ℕ
key_pubkey = 0x50 ∷ 0x75 ∷ 0x62 ∷ 0x6b ∷ 0x65 ∷ 0x79 ∷ []

abbrev pub key_reward_to : List ℕ
key_reward_to = 0x52 ∷ 0x65 ∷ 0x77 ∷ 0x61 ∷ 0x72 ∷ 0x64 ∷ 0x54 ∷ 0x6f ∷ []

abbrev pub key_voting_power : List ℕ
key_voting_power = 0x56 ∷ 0x6f ∷ 0x74 ∷ 0x69 ∷ 0x6e ∷ 0x67 ∷ 0x50 ∷ 0x6f ∷ 0x77 ∷ 0x65 ∷ 0x72 ∷ []

abbrev pub key_introduction : List ℕ
key_introduction =
    0x49 ∷ 0x6e ∷ 0x74 ∷ 0x72 ∷ 0x6f ∷ 0x64 ∷ 0x75 ∷ 0x63 ∷ 0x74 ∷ 0x69 ∷ 0x6f ∷ 0x6e ∷ []

abbrev pub key_staked_coins : List ℕ
key_staked_coins = 0x53 ∷ 0x74 ∷ 0x61 ∷ 0x6b ∷ 0x65 ∷ 0x64 ∷ 0x43 ∷ 0x6f ∷ 0x69 ∷ 0x6e ∷ 0x73 ∷ []

abbrev pub key_is_retiring : List ℕ
key_is_retiring = 0x49 ∷ 0x73 ∷ 0x52 ∷ 0x65 ∷ 0x74 ∷ 0x69 ∷ 0x72 ∷ 0x69 ∷ 0x6e ∷ 0x67 ∷ []

abbrev pub key_epoch_num : List ℕ
key_epoch_num = 0x45 ∷ 0x70 ∷ 0x6f ∷ 0x63 ∷ 0x68 ∷ 0x4e ∷ 0x75 ∷ 0x6d ∷ []

abbrev pub key_amount : List ℕ
key_amount = 0x41 ∷ 0x6d ∷ 0x6f ∷ 0x75 ∷ 0x6e ∷ 0x74 ∷ []

abbrev pub key_curr_epoch_num : List ℕ
key_curr_epoch_num =
    0x43 ∷ 0x75 ∷ 0x72 ∷ 0x72 ∷ 0x45 ∷ 0x70 ∷ 0x6f ∷ 0x63 ∷ 0x68 ∷ 0x4e ∷ 0x75 ∷ 0x6d ∷ []

abbrev pub key_validators : List ℕ
key_validators = 0x56 ∷ 0x61 ∷ 0x6c ∷ 0x69 ∷ 0x64 ∷ 0x61 ∷ 0x74 ∷ 0x6f ∷ 0x72 ∷ 0x73 ∷ []

abbrev pub key_pending_rewards : List ℕ
key_pending_rewards =
    0x50 ∷ 0x65 ∷ 0x6e ∷ 0x64 ∷ 0x69 ∷ 0x6e ∷ 0x67 ∷ 0x52 ∷ 0x65 ∷ 0x77 ∷ 0x61 ∷ 0x72 ∷ 0x64 ∷ 0x73
    ∷ []
