-- ===== src/Tests/Codec.antt =====
-- A codec of the staking state that reads back what it writes, in the place of the generated one
-- (staking/types/types_gen.go).
use smartbch.Base.{
  List, Option, [], arith, if◌then◌else◌, length, none, refl, some, suc, zero, ℕ, ◌==◌, ◌∷◌, ◌≡◌,
}
use smartbch.Staking.Info.{Validator, PendingReward, StakingInfo}

module _ {ℓ} {A : Type ℓ} (encode : A → List ℕ → List ℕ)
    (decode : List ℕ → Option (A × List ℕ)) where
  -- Both write and read in front of the rest.
  unfoldable pub encode_many : List A → List ℕ → List ℕ
  encode_many [] rest = rest
  encode_many (x ∷ xs) rest = encode x (encode_many xs rest)

  unfoldable pub decode_many : ℕ → List ℕ → Option (List A × List ℕ)
  decode_many zero bz = some ([], bz)
  decode_many (suc n) bz = elim (decode bz) [
    | none ↦ none
    | some (x, rest) ↦ elim (decode_many n rest) [
      | none ↦ none
      | some (xs, end) ↦ some (x ∷ xs, end)
    ]
  ]

  pub decode_many-encode_many :
      ((x : A) (rest : List ℕ) → decode (encode x rest) ≡ some (x, rest))
      → (xs : List A) (rest : List ℕ)
      → decode_many (length xs) (encode_many xs rest) ≡ some (xs, rest)
  unfolding encode_many decode_many
  decode_many-encode_many round_trip [] rest = refl
  decode_many-encode_many round_trip (x ∷ xs) rest =
      rw (round_trip x (encode_many xs rest), decode_many-encode_many round_trip xs rest)

unfoldable pub encode_number : ℕ → List ℕ → List ℕ
encode_number n rest = n ∷ rest

unfoldable pub decode_number : List ℕ → Option (ℕ × List ℕ)
decode_number [] = none
decode_number (n ∷ rest) = some (n, rest)

decode_number-encode_number :
    (n : ℕ) (rest : List ℕ) → decode_number (encode_number n rest) ≡ some (n, rest)
unfolding encode_number decode_number
decode_number-encode_number n rest = refl

unfoldable pub encode_text : List ℕ → List ℕ → List ℕ
encode_text bz rest = length bz ∷ encode_many encode_number decode_number bz rest

unfoldable pub decode_text : List ℕ → Option (List ℕ × List ℕ)
decode_text [] = none
decode_text (n ∷ rest) = decode_many encode_number decode_number n rest

decode_text-encode_text : (bz rest : List ℕ) → decode_text (encode_text bz rest) ≡ some (bz, rest)
unfolding encode_text decode_text
decode_text-encode_text bz rest =
    decode_many-encode_many encode_number decode_number decode_number-encode_number bz rest

unfoldable pub encode_validator : Validator → List ℕ → List ℕ
encode_validator val rest =
    val.address
    ∷ val.pubkey
    ∷ val.reward_to
    ∷ val.voting_power
    ∷ val.staked_coins
    ∷ (if val.is_retiring then 1 else 0)
    ∷ encode_text val.introduction rest

unfoldable pub decode_validator : List ℕ → Option (Validator × List ℕ)
decode_validator (a ∷ p ∷ t ∷ v ∷ n ∷ r ∷ bz) = elim (decode_text bz) [
  | none ↦ none
  | some (intro, rest) ↦ some (
    record {
      address = a;
      pubkey = p;
      reward_to = t;
      voting_power = v;
      introduction = intro;
      staked_coins = n;
      is_retiring = r == 1;
    },
    rest,
  )
]
decode_validator bz = none

decode_validator-encode_validator :
    (val : Validator) (rest : List ℕ)
    → decode_validator (encode_validator val rest) ≡ some (val, rest)
unfolding encode_validator decode_validator
decode_validator-encode_validator val rest =
    ground (arith, decode_text-encode_text val.introduction rest)

unfoldable pub encode_reward : PendingReward → List ℕ → List ℕ
encode_reward pr rest = pr.address ∷ pr.epoch_num ∷ pr.amount ∷ rest

unfoldable pub decode_reward : List ℕ → Option (PendingReward × List ℕ)
decode_reward (a ∷ e ∷ n ∷ rest) = some (record { address = a; epoch_num = e; amount = n }, rest)
decode_reward bz = none

decode_reward-encode_reward :
    (pr : PendingReward) (rest : List ℕ) → decode_reward (encode_reward pr rest) ≡ some (pr, rest)
unfolding encode_reward decode_reward
decode_reward-encode_reward pr rest = refl

unfoldable pub marshal : StakingInfo → List ℕ
marshal info =
    info.curr_epoch_num
    ∷ length info.validators
    ∷ length info.pending_rewards
    ∷ encode_many encode_validator decode_validator info.validators
        (encode_many encode_reward decode_reward info.pending_rewards [])

unfoldable pub unmarshal : List ℕ → Option StakingInfo
unmarshal (e ∷ n ∷ m ∷ bz) = elim (decode_many encode_validator decode_validator n bz) [
  | none ↦ none
  | some (vals, rest) ↦ elim (decode_many encode_reward decode_reward m rest) [
    | none ↦ none
    | some (prs, end) ↦
        some (record { curr_epoch_num = e; validators = vals; pending_rewards = prs })
  ]
]
unmarshal bz = none

pub unmarshal-marshal : (info : StakingInfo) → unmarshal (marshal info) ≡ some info
unfolding marshal unmarshal
unmarshal-marshal info = ground (
  arith,
  decode_many-encode_many encode_validator decode_validator decode_validator-encode_validator
      info.validators (encode_many encode_reward decode_reward info.pending_rewards []),
  decode_many-encode_many encode_reward decode_reward decode_reward-encode_reward
      info.pending_rewards [],
)
