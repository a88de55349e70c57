-- ===== src/Tests/Packing.antt =====
-- An instance of the package msgp, after MessagePack's rules, and the codec of the staking state run with
-- it (staking/types/types_gen.go).
use smartbch.Base.{
  Bool, List, Option, [], ap, append_assoc, arith, be_bytes, be_nat, be_nat-be_bytes, drop,
  drop-append_add, false, if◌then◌else◌, leb, length, length-append, length-be_bytes, ltb, none,
  refl, some, sym, take, take-append_length, true, ℕ, ◌&&◌, ◌++◌, ◌+◌, ◌-◌, ◌<◌, ◌==◌, ◌^◌, ◌∙◌,
  ◌∷◌, ◌≡◌,
}
use smartbch.Staking.Codec.RoundTrip.{IsGoInfo, unmarshal-marshal_staking_info}
use smartbch.Staking.Codec.{Msgp, StoredInfo, key_address}
use smartbch.Staking.Info.{Validator}
use smartbch.Staking.Codec.Unmarshal.{
  fields_loop, read_fields, set_reward_field, unmarshal_reward, unmarshal_staking_info,
}
use smartbch.Staking.Codec.Marshal.{marshal_staking_info}

split_at : ℕ → List ℕ → Option (List ℕ × List ℕ)
split_at n bts = if leb n (length bts) then some (take n bts, drop n bts) else none

split_at-length : (xs ys : List ℕ) → split_at (length xs) (xs ++ ys) ≡ some (xs, ys)
unfolding split_at
split_at-length xs ys =
    let enough : leb (length xs) (length (xs ++ ys)) ≡ true = ground (arith, length-append xs ys) in
    rw (enough, take-append_length xs ys, drop-append_add xs ys (length xs) 0 (omega arith)) refl

split_at-append : (n : ℕ) (xs ys : List ℕ) → length xs ≡ n → split_at n (xs ++ ys) ≡ some (xs, ys)
split_at-append n xs ys h = rw (sym h) (split_at-length xs ys)

-- A value of `n` bytes behind a tag.
tagged : ℕ → ℕ → List ℕ → Option (List ℕ × List ℕ)
unfolding split_at
tagged tag n [] = none
tagged tag n (b ∷ bts) = if b == tag then split_at n bts else none

-- A value behind a tag and its length.
counted : ℕ → List ℕ → Option (List ℕ × List ℕ)
unfolding tagged split_at
counted tag bts = elim (tagged tag 4 bts) [
  | none ↦ none
  | some (size, rest) ↦ split_at (be_nat size) rest
]

number_of : Option (List ℕ × List ℕ) → Option (ℕ × List ℕ)
number_of none = none
number_of (some (x, rest)) = some (be_nat x, rest)

tagged-back :
    (tag n : ℕ) (x rest : List ℕ) → length x ≡ n → tagged tag n (tag ∷ x ++ rest) ≡ some (x, rest)
unfolding tagged
tagged-back tag n x rest h = ground (arith, split_at-append n x rest h)

counted-tagged :
    (tag : ℕ) (bts size rest : List ℕ)
    → tagged tag 4 bts ≡ some (size, rest)
    → counted tag bts ≡ split_at (be_nat size) rest
unfolding counted
counted-tagged tag bts size rest h = rw (counted, h) refl

counted-back :
    (tag : ℕ) (x rest : List ℕ)
    → length x < 2 ^ 32
    → counted tag (tag ∷ be_bytes 4 (length x) ++ x ++ rest) ≡ some (x, rest)
counted-back tag x rest h =
    let size : be_nat (be_bytes 4 (length x)) ≡ length x =
      be_nat-be_bytes 4 (length x) (omega (arith, h)) in
    ap (counted tag) (append_assoc (tag ∷ be_bytes 4 (length x)) x rest)
    ∙ counted-tagged tag (tag ∷ be_bytes 4 (length x) ++ (x ++ rest)) (be_bytes 4 (length x))
        (x ++ rest)
        (tagged-back tag 4 (be_bytes 4 (length x)) (x ++ rest) (length-be_bytes 4 (length x)))
    ∙ ap (λ n. split_at n (x ++ rest)) size
    ∙ split_at-length x rest

number_back :
    (tag n v : ℕ) (rest : List ℕ)
    → v < 256 ^ n
    → number_of (tagged tag n (tag ∷ be_bytes n v ++ rest)) ≡ some (v, rest)
unfolding number_of
number_back tag n v rest h =
    rw
      (
        tagged-back tag n (be_bytes n v) rest (length-be_bytes n v),
        number_of,
        be_nat-be_bytes n v h,
      )
      refl

read_exact : ℕ → List ℕ → Option (List ℕ × List ℕ)
read_exact n bts = elim (counted 0xc6 bts) [
  | none ↦ none
  | some (x, rest) ↦ if length x == n then some (x, rest) else none
]

read_exact-back :
    (x rest : List ℕ)
    → length x < 2 ^ 32
    → read_exact (length x) (0xc6 ∷ be_bytes 4 (length x) ++ x ++ rest) ≡ some (x, rest)
unfolding read_exact
read_exact-back x rest h = rw (read_exact, counted-back 0xc6 x rest h) (ground arith)

read_header : List ℕ → Option (ℕ × List ℕ)
read_header [] = none
read_header (b ∷ rest) = if leb 128 b && ltb b 144 then some (b - 128, rest) else none

read_header-back :
    (n : ℕ) (rest : List ℕ) → n < 16 → read_header ((128 + n) ∷ rest) ≡ some (n, rest)
unfolding read_header
read_header-back n rest h = ground arith

read_key : List ℕ → Option (List ℕ × List ℕ)
read_key [] = none
read_key (b ∷ rest) = if leb 160 b && ltb b 192 then split_at (b - 160) rest else none

read_key-back :
    (key rest : List ℕ)
    → length key < 32
    → read_key ((160 + length key) ∷ key ++ rest) ≡ some (key, rest)
unfolding read_key
read_key-back key rest h =
    let exact : 160 + length key - 160 ≡ length key = omega arith in
    ground (arith, exact, split_at-length key rest)

bool_byte : Bool → List ℕ
bool_byte b = (if b then 0xc3 else 0xc2) ∷ []

read_bool : List ℕ → Option (Bool × List ℕ)
read_bool [] = none
read_bool (b ∷ rest) =
    if b == 0xc3 then some (true, rest) else if b == 0xc2 then some (false, rest) else none

read_bool-back : (b : Bool) (rest : List ℕ) → read_bool (bool_byte b ++ rest) ≡ some (b, rest)
unfolding read_bool bool_byte
read_bool-back true rest = refl
read_bool-back false rest = refl

starts_nil : List ℕ → Bool
starts_nil [] = false
starts_nil (b ∷ rest) = b == 0xc0

starts_nil-header : (n : ℕ) (rest : List ℕ) → n < 16 → starts_nil ((128 + n) ∷ rest) ≡ false
unfolding starts_nil
starts_nil-header n rest h = ground arith

read_nil : List ℕ → Option (List ℕ)
read_nil [] = none
read_nil (b ∷ rest) = if b == 0xc0 then some rest else none

skipped : List ℕ → Option (List ℕ)
skipped bts = none

-- It skips nothing, and fails there.
abbrev packing : Msgp
unfolding bool_byte read_bool starts_nil read_nil
packing = record {
  int64_of = λ v. 0xd3 ∷ be_bytes 8 v;
  bytes_of = λ x. 0xc6 ∷ be_bytes 4 (length x) ++ x;
  string_of = λ x. 0xdb ∷ be_bytes 4 (length x) ++ x;
  bool_of = bool_byte;
  array_header_of = λ n. 0xdd ∷ be_bytes 4 n;
  nil_of = 0xc0 ∷ [];
  read_map_header_bytes = read_header;
  read_map_key_zc = read_key;
  read_exact_bytes = read_exact;
  read_int64_bytes = λ bts. number_of (tagged 0xd3 8 bts);
  read_string_bytes = counted 0xdb;
  read_bool_bytes = read_bool;
  read_array_header_bytes = λ bts. number_of (tagged 0xdd 4 bts);
  is_nil = starts_nil;
  read_nil_bytes = read_nil;
  skip_value = skipped;
  map_header = read_header-back;
  map_key = read_key-back;
  map_not_nil = starts_nil-header;
  exact_bytes = read_exact-back;
  int64_back = λ v rest h. number_back 0xd3 8 v rest (omega (arith, h));
  string_back = counted-back 0xdb;
  bool_back = read_bool-back;
  array_header_back = λ n rest h. number_back 0xdd 4 n rest (omega (arith, h));
  nil_is_nil = λ rest. refl;
  nil_back = λ rest. refl;
}

abbrev a_validator : Validator
a_validator = record {
  address = 0x1234;
  pubkey = 77;
  reward_to = 5;
  voting_power = 9;
  introduction = 104 ∷ 105 ∷ [];
  staked_coins = 10 ^ 20;
  is_retiring = true;
}

abbrev a_stored_info : StoredInfo
a_stored_info = record {
  curr_epoch_num = 12;
  validators = some a_validator ∷ none ∷ [];
  pending_rewards = some (record { address = 0x1234; epoch_num = 11; amount = 3 }) ∷ [];
}

abbrev no_info : StoredInfo
no_info = record { curr_epoch_num = 0; validators = []; pending_rewards = [] }

a_stored_info-IsGoInfo : IsGoInfo a_stored_info
a_stored_info-IsGoInfo = (
  omega arith,
  omega arith,
  ((omega arith, omega arith, omega arith, omega arith, omega arith, omega arith), (tt, tt)),
  omega arith,
  ((omega arith, omega arith, omega arith), tt),
)

unmarshal-marshal_staking_info_example :
    unmarshal_staking_info packing no_info
      (marshal_staking_info packing a_stored_info [] ++ 1 ∷ 2 ∷ [])
    ≡ some (a_stored_info, 1 ∷ 2 ∷ [])
unmarshal-marshal_staking_info_example =
    unmarshal-marshal_staking_info packing no_info a_stored_info (1 ∷ 2 ∷ []) a_stored_info-IsGoInfo

-- A field that is cut short is an error.
cut_short :
    unmarshal_reward packing
      (record { address = 0; epoch_num = 0; amount = 0 })
      (0x81 ∷ 0xa7 ∷ key_address ++ (0xc6 ∷ 0 ∷ 0 ∷ 0 ∷ 20 ∷ 1 ∷ []))
    ≡ none
unfolding unmarshal_reward read_fields fields_loop set_reward_field read_header read_key read_exact
    counted tagged split_at be_nat packing
cut_short = refl
