-- ===== src/Staking/Info.antt =====
-- staking/types/types.go: the staking state of the chain and its methods. A slice of pointers is a
-- list; an address, a public key and an amount of coins are the numbers that their bytes spell.
pub mod Active
pub mod Unique
use smartbch.Base.{
  Bool, List, Option, [], add256, any, false, find_first, find_last, if◌then◌else◌, keep_if, leb,
  ltb_i64, none, not, some, take, ℕ, ◌&&◌, ◌++◌, ◌==◌, ◌∷◌,
}

pub record Validator : Type 0 where
  pub address : ℕ
  pub pubkey : ℕ
  pub reward_to : ℕ
  pub voting_power : ℕ
  pub introduction : List ℕ
  pub staked_coins : ℕ
  pub is_retiring : Bool

pub record PendingReward : Type 0 where
  pub address : ℕ
  pub epoch_num : ℕ
  pub amount : ℕ

pub record StakingInfo : Type 0 where
  pub curr_epoch_num : ℕ
  pub validators : List Validator
  pub pending_rewards : List PendingReward

abbrev pub max_active_validator_num : ℕ
max_active_validator_num = 30

-- The keys by which the methods look for a validator or a reward.
abbrev pub has_address : ℕ → Validator → Bool
has_address addr val = val.address == addr

abbrev pub has_pubkey : ℕ → Validator → Bool
has_pubkey pubkey val = val.pubkey == pubkey

abbrev pub is_current_of : ℕ → ℕ → PendingReward → Bool
is_current_of epoch addr pr = pr.epoch_num == epoch && pr.address == addr

-- `GetValMapByPubkey` and `GetValMapByAddr`: a later validator overwrites an earlier one.
unfoldable pub get_val_map_by_pubkey : StakingInfo → ℕ → Option Validator
get_val_map_by_pubkey si pubkey = find_last (has_pubkey pubkey) si.validators

unfoldable pub get_val_map_by_addr : StakingInfo → ℕ → Option Validator
get_val_map_by_addr si addr = find_last (has_address addr) si.validators

unfoldable pub get_curr_reward_map_by_addr : StakingInfo → ℕ → Option PendingReward
get_curr_reward_map_by_addr si addr =
    find_last (is_current_of si.curr_epoch_num addr) si.pending_rewards

pub data AddError : Type 0 where
  address_already_exists pubkey_already_exists : AddError

-- The loop of `AddValidator` over the validators in place: its first clash decides the error.
unfoldable pub add_clash : ℕ → ℕ → List Validator → Option AddError
add_clash addr pubkey [] = none
add_clash addr pubkey (val ∷ vals) =
    if val.address == addr
    then some address_already_exists
    else if val.pubkey == pubkey
    then some pubkey_already_exists
    else add_clash addr pubkey vals

abbrev pub new_validator : ℕ → ℕ → List ℕ → ℕ → ℕ → Validator
new_validator addr pubkey intro coins reward_to = record {
  address = addr;
  pubkey = pubkey;
  reward_to = reward_to;
  voting_power = 0;
  introduction = intro;
  staked_coins = coins;
  is_retiring = false;
}

-- `AddValidator` returns its error, if any, and the new state.
unfoldable pub add_validator : StakingInfo → ℕ → ℕ → List ℕ → ℕ → ℕ → Option AddError × StakingInfo
unfolding add_clash
add_validator si addr pubkey intro coins reward_to = elim (add_clash addr pubkey si.validators) [
  | some e ↦ (some e, si)
  | none ↦ (
    none,
    record si {
      validators = si.validators ++ new_validator addr pubkey intro coins reward_to ∷ [];
    },
  )
]

unfoldable pub get_validator_by_addr : StakingInfo → ℕ → Option Validator
get_validator_by_addr si addr = find_first (has_address addr) si.validators

unfoldable pub get_validator_by_pubkey : StakingInfo → ℕ → Option Validator
get_validator_by_pubkey si pubkey = find_first (has_pubkey pubkey) si.validators

-- `GetUselessValidators`, as the test whether an address is a key of its result: some validator of
-- that address has no voting power, and no pending reward belongs to it.
unfoldable pub is_useless : StakingInfo → ℕ → Bool
is_useless si addr =
    any (λ val. val.voting_power == 0 && val.address == addr) si.validators
    && not (any (λ pr. pr.address == addr) si.pending_rewards)

-- What `ClearRewardsOf` keeps of one entry: that of the current epoch stays, with no amount.
abbrev pub kept_entry : ℕ → ℕ → PendingReward → List PendingReward
kept_entry epoch addr rwd =
    if rwd.address == addr
    then (if rwd.epoch_num == epoch then record rwd { amount = 0 } ∷ [] else [])
    else rwd ∷ []

-- The loop of `ClearRewardsOf`: the cleared amount, and the entries that are kept.
unfoldable pub clear_rewards : ℕ → ℕ → ℕ → List PendingReward → ℕ × List PendingReward
clear_rewards epoch addr total [] = (total, [])
clear_rewards epoch addr total (rwd ∷ rwds) =
    let total' = if rwd.address == addr then add256 total rwd.amount else total in
    let (cleared, rest) = clear_rewards epoch addr total' rwds in
    (cleared, kept_entry epoch addr rwd ++ rest)

unfoldable pub clear_rewards_of : StakingInfo → ℕ → ℕ × StakingInfo
unfolding clear_rewards
clear_rewards_of si addr =
    let (total, rwds) = clear_rewards si.curr_epoch_num addr 0 si.pending_rewards in
    (total, record si { pending_rewards = rwds })

-- The filter of `GetActiveValidators`. `VotingPower > 0` compares `int64`s.
unfoldable pub is_eligible : ℕ → Validator → Bool
is_eligible min_staked val =
    leb min_staked val.staked_coins && not val.is_retiring && ltb_i64 0 val.voting_power

-- `sort.SliceStable` by falling voting power, as an insertion sort: equal ones keep their order.
unfoldable pub insert_by_power : Validator → List Validator → List Validator
insert_by_power val [] = val ∷ []
insert_by_power val (w ∷ ws) =
    if ltb_i64 val.voting_power w.voting_power then w ∷ insert_by_power val ws else val ∷ w ∷ ws

unfoldable pub sort_by_power : List Validator → List Validator
unfolding insert_by_power
sort_by_power [] = []
sort_by_power (val ∷ vals) = insert_by_power val (sort_by_power vals)

unfoldable pub get_active_validators : StakingInfo → ℕ → List Validator
unfolding is_eligible sort_by_power
get_active_validators si min_staked =
    take max_active_validator_num (sort_by_power (keep_if (is_eligible min_staked) si.validators))
