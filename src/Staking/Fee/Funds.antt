-- ===== src/Staking/Fee/Funds.antt =====
-- The whole fee becomes pending rewards (`DistributeFee` of staking/staking.go).
use smartbch.Base.{
  >>=-eq-returns, Bool, Bool-cases, List, Option, Option-cases, Outcome-cases, [], add256, any,
  arith, inl, inr, mul256, none, refl, returns, some, sum_by, sum_by-append, true, u256_mod,
  update_last, ℕ, ◌%◌, ◌++◌, ◌+◌, ◌/◌, ◌==◌, ◌∷◌, ◌≡◌,
}
use smartbch.Staking.Fee.{
  Ledger, change_amount, credit, reward_voter, reward_voters, distribute_fee, proposer_amount,
  share_fee, split_fee, total_voting_power, voted_power,
}
use smartbch.Staking.Info.{PendingReward, StakingInfo, is_current_of, get_val_map_by_pubkey}
use smartbch.Staking.Funds.{pending, KeepsFunds}
use smartbch.Staking.Context.{Context}
use smartbch.Staking.State.Loading.{load-save}
use smartbch.Staking.State.{load_staking_acc, save_staking_info, staking_contract_address}

sum_by-update_last {ℓ} :
    {A : Type ℓ} (m : A → ℕ) (p : A → Bool) (f : A → A) (k : ℕ) (xs : List A)
    → ((x : A) → m (f x) % u256_mod ≡ (m x + k) % u256_mod)
    → any p xs ≡ true
    → sum_by m (update_last p f xs) % u256_mod ≡ (sum_by m xs + k) % u256_mod
sum_by-update_last m p f k [] adds h = cc
sum_by-update_last m p f k (x ∷ xs) adds h =
    ground (arith, adds x, sum_by-update_last m p f k xs adds)

abbrev booked : Ledger → ℕ
booked l = pending l.loaded + pending l.appended

booked-credit :
    (epoch addr k : ℕ) (f : ℕ → ℕ) (l : Ledger)
    → ((n : ℕ) → f n % u256_mod ≡ (n + k) % u256_mod)
    → booked (credit epoch addr f l) % u256_mod ≡ (booked l + k) % u256_mod
unfolding credit
booked-credit epoch addr k f l adds = elim (Bool-cases (any (is_current_of epoch addr) l.loaded)) [
  | inl found ↦ rw found (
      omega (
        arith,
        sum_by-update_last (λ (pr : PendingReward). pr.amount) (is_current_of epoch addr)
            (change_amount f) k l.loaded (λ pr. adds pr.amount) found,
      ))
  | inr missing ↦ rw missing (
      omega (
        arith,
        adds 0,
        sum_by-append (λ (pr : PendingReward). pr.amount) l.appended
            (record { address = addr; epoch_num = epoch; amount = f 0 } ∷ []),
      ))
]

reward_voter-booked :
    (info : StakingInfo) (proposer fee voted voter : ℕ) (s : Ledger × ℕ) {t : Ledger × ℕ}
    → reward_voter info proposer fee voted voter s ≡ returns t
    → (booked t.0 + t.1) % u256_mod ≡ (booked s.0 + s.1) % u256_mod
unfolding reward_voter
reward_voter-booked info proposer fee voted voter (l, remained) {t} e =
    elim (Bool-cases (proposer == voter)) [
      | inl own ↦ ground arith
      | inr other ↦ elim (Option-cases (get_val_map_by_pubkey info voter)) [
        | inl missing ↦ absurd (ground arith)
        | inr (val, found) ↦
            let coins = mul256 fee val.voting_power / voted in
            ground (
              arith,
              booked-credit info.curr_epoch_num val.address coins (λ amount. add256 amount coins) l
                  (λ n. omega arith),
            )
      ]
    ]

reward_voters-booked :
    (info : StakingInfo) (proposer fee voted : ℕ) (voters : List ℕ) (s : Ledger × ℕ)
    {t : Ledger × ℕ}
    → reward_voters info proposer fee voted voters s ≡ returns t
    → (booked t.0 + t.1) % u256_mod ≡ (booked s.0 + s.1) % u256_mod
unfolding reward_voters
reward_voters-booked info proposer fee voted [] s e = ground arith
reward_voters-booked info proposer fee voted (voter ∷ voters) s {t} e =
    let (u, one, rest) =
      >>=-eq-returns (reward_voter info proposer fee voted voter s)
        (reward_voters info proposer fee voted voters) e in
    omega (
      arith,
      reward_voter-booked info proposer fee voted voter s one,
      reward_voters-booked info proposer fee voted voters u rest,
    )

split_fee_sum :
    (fee voted total : ℕ)
    → let shares = split_fee fee voted total in
      (shares.base_fee + shares.extra_fee + shares.voters_fee) % u256_mod ≡ fee % u256_mod
unfolding split_fee
split_fee_sum fee voted total = omega arith

-- If the fee of a block can be shared, that is, if the proposer and all voters are validators, then
-- the pending rewards grow in sum by exactly the fee, modulo 2 ^ 256, whatever is lost in the
-- roundings, also where a voter is listed twice; the validators and the epoch stay.
pub pending-share_fee :
    (info : StakingInfo) (fee proposer : ℕ) (voters : List ℕ) {info' : StakingInfo}
    → share_fee info fee proposer voters ≡ returns info'
    → (pending info'.pending_rewards % u256_mod ≡ (pending info.pending_rewards + fee) % u256_mod)
      × (info'.validators ≡ info.validators)
      × (info'.curr_epoch_num ≡ info.curr_epoch_num)
unfolding share_fee
pending-share_fee info fee proposer voters {info'} e =
    elim (Outcome-cases (voted_power info 0 voters)) [
      | inl (x, bad) ↦ absurd (ground arith)
      | inr (voted, counted) ↦
          let shares = split_fee fee voted (total_voting_power info) in
          let start : Ledger × ℕ =
            (record { loaded = info.pending_rewards; appended = [] }, shares.voters_fee) in
          elim (Outcome-cases (reward_voters info proposer shares.voters_fee voted voters start)) [
            | inl (x, bad) ↦ absurd (ground arith)
            | inr (s, rewarded) ↦ elim (Option-cases (get_val_map_by_pubkey info proposer)) [
              | inl missing ↦ absurd (ground arith)
              | inr (val, found) ↦
                  let l = credit info.curr_epoch_num val.address (proposer_amount shares s.1) s.0 in
                  let result : info' ≡ record info { pending_rewards = l.loaded ++ l.appended } =
                    ground arith in
                  rw result (
                    omega (
                      arith,
                      split_fee_sum fee voted (total_voting_power info),
                      reward_voters-booked info proposer shares.voters_fee voted voters start
                          rewarded,
                      booked-credit info.curr_epoch_num val.address
                          (shares.base_fee + shares.extra_fee + s.1) (proposer_amount shares s.1)
                          s.0 (λ n. omega arith),
                      sum_by-append (λ (pr : PendingReward). pr.amount) l.loaded l.appended,
                    ),
                    refl,
                    refl,
                  )
            ]
          ]
    ]

module _ (c : Context) where
  open c use {
    World, Account, balance, update_balance, sequence, get_account, set_account, get_storage_at,
    balance-update_balance, get_account-set_account, get_account-set_storage_at,
  }

  -- Sharing a fee keeps the contract's money in step with what it owes: if the staking state can be
  -- loaded and the call does not panic, the balance grows, modulo 2 ^ 256, by as much as the sum of
  -- staked coins and pending rewards.
  pub distribute_fee-KeepsFunds :
      (w : World) (readonly : Option StakingInfo) (fee : Option ℕ) (proposer : ℕ) (voters : List ℕ)
      {acc : Account} {info : StakingInfo} {r : World × Option StakingInfo}
      → load_staking_acc c w ≡ returns (acc, info)
      → distribute_fee c w readonly fee proposer voters ≡ returns r
      → KeepsFunds c acc info r.0
  unfolding distribute_fee
  distribute_fee-KeepsFunds w readonly none proposer voters {acc} {info} {r} h e =
      let same : r.0 ≡ w = ground arith in rw same (acc, info, h, refl)
  distribute_fee-KeepsFunds w readonly (some fee) proposer voters {acc} {info} {r} h e =
      elim (Outcome-cases (share_fee info fee proposer voters)) [
        | inl (x, bad) ↦ absurd (ground arith)
        | inr (info', shared) ↦
            let acc' = update_balance acc (add256 (balance acc) fee) in
            let done : r.0
                ≡ save_staking_info c (set_account w staking_contract_address acc') acc' info' =
              ground arith in
            let sums = pending-share_fee info fee proposer voters shared in
            rw done (
              acc',
              info',
              load-save c _ acc' info' (get_account-set_account _ _ _ _),
              ground (
                arith,
                sums.0,
                sums.1,
                balance-update_balance acc (add256 (balance acc) fee) (omega arith),
              ),
            )
      ]
