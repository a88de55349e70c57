-- ===== src/Staking/SumPower/Faults.antt =====
-- What the loop over the addresses of sumVotingPower misses (`Run` of staking/staking.go).
use smartbch.Base.{
  List, Option, [], add64, arith, be_bytes, be_nat, drop, false, foldl, length, length-drop, ltb,
  not, out_of_range, panics, refl, returns, some, suc, take, zero, ℕ, ◌++◌, ◌+◌, ◌<◌, ◌==◌, ◌||◌,
  ◌∷◌, ◌≡◌, ◌≤◌,
}
use smartbch.Staking.SumPower.{
  Powers, count_power, selector_sum_voting_power, collect_addrs, run, sum_powers,
}
use smartbch.Staking.Info.{StakingInfo, Validator}

-- The sum of all powers, as the loop computes it.
abbrev pub all_powers : List Validator → ℕ
all_powers vals = foldl (λ acc val. add64 acc val.voting_power) 0 vals

nobody_counted :
    (vals : List Validator) (s : Powers)
    → foldl (count_power []) s vals
      ≡ record s { total = foldl (λ acc val. add64 acc val.voting_power) s.total vals }
unfolding count_power
nobody_counted [] s = refl
nobody_counted (val ∷ vals) s =
    nobody_counted vals (record s { total = add64 s.total val.voting_power })

collect_single :
    (fuel : ℕ) (input spare addrs : List ℕ)
    → length input ≤ 32
    → collect_addrs fuel 0 input spare addrs ≡ returns addrs
unfolding collect_addrs
collect_single zero input spare addrs h = refl
collect_single (suc fuel) input spare addrs h = ground arith

collect_panics :
    (fuel : ℕ) (input spare addrs : List ℕ)
    → 2 ≤ fuel
    → 64 < length input
    → length input + length spare < 1056
    → collect_addrs fuel 0 input spare addrs ≡ panics out_of_range
unfolding collect_addrs
collect_panics zero input spare addrs f long short = absurd (omega arith)
collect_panics (suc zero) input spare addrs f long short = absurd (omega arith)
collect_panics (suc (suc fuel)) input spare addrs f long short = ground arith

passes :
    (size selector : ℕ)
    → 68 ≤ size
    → selector ≡ selector_sum_voting_power
    → (ltb size 68 || not (selector == selector_sum_voting_power)) ≡ false
passes size selector h e = ground arith

-- A query about a single address, 100 bytes long, is answered with the sum 0 and the right total,
-- whoever the address belongs to: the loop ends before its last address.
pub run_single_address :
    (info : StakingInfo) (input spare : List ℕ)
    → length input ≡ 100
    → be_nat (take 4 input) ≡ selector_sum_voting_power
    → run (some info) input spare
      ≡ returns (some (be_bytes 32 0 ++ be_bytes 32 (all_powers info.validators)))
unfolding run sum_powers
run_single_address info input spare len sel =
    let args : length (drop 68 input) ≡ 32 = omega (arith, length-drop 68 input) in
    ground (
      arith,
      collect_single (length (drop 68 input)) (drop 68 input) spare [] (omega arith),
      nobody_counted info.validators (record { summed = 0; total = 0; counted = [] }),
    )

-- A query with more than two addresses panics, unless the memory behind its data is large: the
-- second round reads from byte 32 * 32 + 12 on.
pub run_panics :
    (readonly : Option StakingInfo) (input spare : List ℕ)
    → 68 + 64 < length input
    → length input + length spare < 68 + 1056
    → be_nat (take 4 input) ≡ selector_sum_voting_power
    → run readonly input spare ≡ panics out_of_range
unfolding run sum_powers
run_panics readonly input spare long short sel =
    let args : length (drop 68 input) + 68 ≡ length input = omega (arith, length-drop 68 input) in
    rw (
      passes (length input) (be_nat (take 4 input)) (omega arith) sel,
      collect_panics (length (drop 68 input)) (drop 68 input) spare [] (omega arith) (omega arith)
          (omega arith),
    )
