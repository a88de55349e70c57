-- ===== src/Staking/Deletion.antt =====
-- staking/staking.go: the loop of `clearUp` that deletes the useless validators from the slice that
-- it ranges over. A slice is its backing array and a length; the range is over the slice as it was,
-- and reads the array as it is.
pub mod Scan
pub mod Verdicts
use smartbch.Base.{
  Bool, List, Outcome, deref, drop, get_elem?, if◌then◌else◌, leb, length, out_of_range, require,
  returns, suc, take, zero, ℕ, ◌++◌, ◌+◌, ◌-◌, ◌>>=◌, ◌>>◌,
}

module _ {ℓ} {A : Type ℓ} (p : A → Bool) where
  -- `append(s[:i], s[i+1:]...)` in place: the elements behind `i` move to the front by one, and the
  -- array behind the new end stays. `s[i+1:]` panics if `i + 1` is behind the end.
  unfoldable pub delete_at : ℕ → List A → ℕ → Outcome (List A × ℕ)
  delete_at i arr len =
      require (leb (i + 1) len) out_of_range
      >> returns
          (take i arr ++ (take (len - (i + 1)) (drop (i + 1) arr) ++ drop (len - 1) arr), len - 1)

  unfoldable pub delete_step : ℕ → List A × ℕ → Outcome (List A × ℕ)
  unfolding delete_at
  delete_step i (arr, len) = deref (get_elem? arr i) out_of_range >>= λ v.
      if p v then delete_at i arr len else returns (arr, len)

  -- The rounds that are left, and the index.
  unfoldable pub delete_loop : ℕ → ℕ → List A × ℕ → Outcome (List A × ℕ)
  delete_loop zero i s = returns s
  delete_loop (suc rounds) i s = delete_step i s >>= delete_loop rounds (i + 1)

  unfoldable pub delete_useless : List A → Outcome (List A)
  delete_useless vals = do
    s ← delete_loop (length vals) 0 (vals, length vals)
    returns (take s.1 s.0)
