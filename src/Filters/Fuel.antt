-- ===== src/Filters/Fuel.antt =====
-- The search over a range ends (rpc/api/filters/geth_filter.go).
use smartbch.Base.{
  [], add64, ap, arith, false, if◌then◌else◌, leb_i64, none, refl, some, sub64, suc, sym, true,
  zero, ℕ, ◌+◌, ◌-◌, ◌<◌, ◌^◌, ◌∙◌, ◌≡◌, ◌≤◌,
}
use smartbch.Filters.Search.{
  Backend, Filter, unindexed_logs, Answer, absent, block_logs, fetch_failed, fetched, prepend_logs,
}

module _ (b : Backend) where
  -- A range behind which the loop is: with any fuel it stops at once.
  unindexed_logs-stopped :
      (f : Filter) (k begin end : ℕ)
      → leb_i64 begin end ≡ false
      → unindexed_logs b k f begin end ≡ (([], false), begin)
  unfolding unindexed_logs
  unindexed_logs-stopped f zero begin end past = refl
  unindexed_logs-stopped f (suc k) begin end past = rw past refl

  -- A round of the loop, with what the rounds behind it give.
  round_then : Filter → ℕ → ℕ → Answer × ℕ → Answer × ℕ
  round_then f begin end rest =
      if leb_i64 begin end
      then elim (b.header_by_number begin) [
        | fetch_failed ↦ (([], true), begin)
        | absent ↦ (([], false), begin)
        | fetched header ↦ elim (block_logs b f header) [
          | none ↦ (([], true), begin)
          | some found ↦ prepend_logs found rest
        ]
      ]
      else (([], false), begin)

  unindexed_logs-suc :
      (f : Filter) (n begin end : ℕ)
      → unindexed_logs b (suc n) f begin end
        ≡ round_then f begin end (unindexed_logs b n f (add64 begin 1) end)
  unfolding unindexed_logs round_then
  unindexed_logs-suc f n begin end = refl

  unindexed_logs-rounds :
      (f : Filter) (n k begin end : ℕ)
      → begin + n ≡ end + 1
      → end < 2 ^ 63 - 1
      → unindexed_logs b (n + k) f begin end ≡ unindexed_logs b n f begin end
  unindexed_logs-rounds f zero k begin end total below =
      let past : leb_i64 begin end ≡ false = ground arith in
      unindexed_logs-stopped f (0 + k) begin end past
      ∙ sym (unindexed_logs-stopped f 0 begin end past)
  unindexed_logs-rounds f (suc n) k begin end total below =
      let step_on : add64 begin 1 ≡ begin + 1 = omega arith in
      let rest : unindexed_logs b (n + k) f (add64 begin 1) end
          ≡ unindexed_logs b n f (add64 begin 1) end =
        rw step_on (unindexed_logs-rounds f n k (begin + 1) end (omega (arith, total)) below) in
      let more : suc n + k ≡ suc (n + k) = omega arith in
      rw more (
        unindexed_logs-suc f (n + k) begin end
        ∙ ap (round_then f begin end) rest
        ∙ sym (unindexed_logs-suc f n begin end))

  -- The rounds that the search over a range is given are enough: for a range from `begin` to `end`, in
  -- order and with the end below 2 ^ 63 - 1, the loop comes to its end by itself, so that any number of
  -- further rounds changes nothing, whatever the backend answers.
  pub unindexed_logs-fuel :
      (f : Filter) (k begin end : ℕ)
      → begin ≤ end
      → end < 2 ^ 63 - 1
      → unindexed_logs b (sub64 (add64 end 1) begin + k) f begin end
        ≡ unindexed_logs b (sub64 (add64 end 1) begin) f begin end
  unindexed_logs-fuel f k begin end ordered below =
      unindexed_logs-rounds f (sub64 (add64 end 1) begin) k begin end
        (omega (arith, ordered, below)) below
