-- ===== src/App/CacheSize.antt =====
-- The size of the cache of senders (`CheckTx` of app/app.go).
use smartbch.Base.{
  Bool, Bool-cases, List, Map, Option-cases, Perm, [], arith, if◌then◌else◌, inl, inr, insert,
  length, lookup, ltb, not, refl, some, sum_by, sum_by-perm, take, true, ℕ, ◌&&◌, ◌+◌, ◌-◌, ◌<◌,
  ◌==◌, ◌^◌, ◌∙◌, ◌∷◌, ◌≡◌, ◌≤◌,
}
use smartbch.App.State.{App, SenderAndHeight}
use smartbch.App.CheckTx.{
  CheckTxRequest, check_and_deduct, check_sender, check_tx, count_recheck, evict, find_sender,
  oldest,
}
use smartbch.Staking.Context.{Context}
use smartbch.App.Machine.{Machine, Tx}
use smartbch.App.CacheEntries.{
  hits, late_entries, late_entries-erase-le, late_entries-insert-le, length-erase, length-insert-le,
  oldest_young, sum_by-ones, sum_by-take-le,
}

module _ (c : Context) (m : Machine c) (order : Map SenderAndHeight → List (ℕ × SenderAndHeight))
    (order-perm : (cache : Map SenderAndHeight) → Perm (order cache) cache) where
  -- The cache has at most one sender more than its size, all of heights below `math.MaxInt64`.
  abbrev pub IsBounded : App c m → Type 0
  IsBounded app = (length app.sig_cache ≤ app.sig_cache_size + 1) × (late_entries app.sig_cache ≡ 0)

  evict-le :
      (size : ℕ) (cache : Map SenderAndHeight)
      → length cache ≤ size + 1
      → late_entries cache ≡ 0
      → (length (evict c m order size cache) ≤ size)
        × (late_entries (evict c m order size cache) ≡ 0)
  unfolding evict
  evict-le size cache small young = elim (Bool-cases (ltb size (length cache))) [
    | inr fits ↦ (ground arith, ground arith)
    | inl full ↦
        let same_length = sum_by-perm (λ e. 1) (order cache) cache (order-perm cache) in
        let young_order : late_entries (order cache) ≡ 0 =
          sum_by-perm _ (order cache) cache (order-perm cache) ∙ young in
        go full (order cache) refl same_length young_order
  ]
    where
      gone : ℕ
      gone = oldest (take 6 (order cache)) (0, 2 ^ 63 - 1)

      go :
          ltb size (length cache) ≡ true
          → (es : List (ℕ × SenderAndHeight)) → order cache ≡ es
          → sum_by (λ e. 1) (order cache) ≡ sum_by (λ e. 1) cache
          → late_entries (order cache) ≡ 0
          → (length (evict c m order size cache) ≤ size)
            × (late_entries (evict c m order size cache) ≡ 0)
      go full [] shown same_length young_order =
          absurd (ground (arith, sum_by-ones cache, same_length, shown))
      go full (e ∷ es) shown same_length young_order =
          let seen = take 6 (order cache) in
          let taken : seen ≡ e ∷ take 5 es = rw shown refl in
          let first_young : late_entries (e ∷ take 5 es) ≡ 0 = ground (
            arith,
            sum_by-take-le (λ x. if ltb x.1.height (2 ^ 63 - 1) then 0 else 1) 5 es,
            rw shown at young_order,
          ) in
          let hit : 1 ≤ hits gone seen = rw taken (oldest_young e (take 5 es) first_young) in
          let in_list : hits gone seen ≤ hits gone (order cache) =
            sum_by-take-le (λ x. if x.0 == gone then 1 else 0) 6 (order cache) in
          let in_cache : hits gone (order cache) ≡ hits gone cache =
            sum_by-perm (λ x. if x.0 == gone then 1 else 0) (order cache) cache
              (order-perm cache) in
          let shorter = length-erase gone cache in
          let kept = late_entries-erase-le gone cache in
          rw (evict, full)
            (omega (arith, shorter, hit, in_list, in_cache, small), omega (arith, kept, young))

  find_sender-IsBounded :
      (app : App c m) (tx : Tx) {r : ℕ × App c m}
      → app.curr_height < 2 ^ 63 - 1
      → IsBounded app
      → find_sender c m order app tx ≡ some r
      → IsBounded r.1
  unfolding find_sender
  find_sender-IsBounded app tx {r} height (small, young) e =
      elim (Option-cases (lookup tx.hash app.sig_cache)) [
        | inr (entry, hit) ↦ let same : r.1 ≡ app = ground arith in rw same (small, young)
        | inl missed ↦ elim (Option-cases (m.signer_sender tx)) [
          | inl bad ↦ absurd (ground arith)
          | inr (sender, signed) ↦
              let entry : SenderAndHeight = record { sender = sender; height = app.curr_height } in
              let kept = evict c m order app.sig_cache_size app.sig_cache in
              let (fits, still_young) = evict-le app.sig_cache_size app.sig_cache small young in
              let same : r.1 ≡ record app { sig_cache = insert tx.hash entry kept } =
                ground arith in
              rw same (
                omega (arith, length-insert-le tx.hash entry kept, fits),
                omega (arith, late_entries-insert-le tx.hash entry kept height, still_young),
              )
        ]
      ]

  -- The checks behind the search for the sender leave the cache alone.
  check_sender-sig_cache :
      (app : App c m) (is_recheck : Bool) (tx : Tx) (sender : ℕ)
      → ((check_sender c m app is_recheck tx sender).1.sig_cache ≡ app.sig_cache)
        × ((check_sender c m app is_recheck tx sender).1.sig_cache_size ≡ app.sig_cache_size)
  unfolding check_sender check_and_deduct
  check_sender-sig_cache app is_recheck tx sender = ground arith

  -- Whatever the order in which the cache is gone through, and whatever the request: `CheckTx` keeps
  -- the cache of senders at no more than `sigCacheSize` + 1 entries, as long as heights are below
  -- `math.MaxInt64`.
  pub check_tx-IsBounded :
      (app : App c m) (req : CheckTxRequest)
      → app.curr_height < 2 ^ 63 - 1
      → IsBounded app
      → IsBounded (check_tx c m order app req).1
  unfolding check_tx
  check_tx-IsBounded app req height bounded =
      elim (Bool-cases (not req.is_recheck && ltb app.recheck_threshold app.recheck_counter)) [
        | inl busy ↦ rw (check_tx, busy) bounded
        | inr free ↦ elim (Option-cases (m.decode_tx req.tx)) [
          | inl garbled ↦ rw (check_tx, free, garbled) bounded
          | inr (tx, decoded) ↦
              let app' = count_recheck c m app req.is_recheck in
              elim (Option-cases (find_sender c m order app' tx)) [
                | inl unsigned ↦ rw (check_tx, free, decoded, unsigned) bounded
                | inr (found, signed) ↦
                    let (fits, young) = find_sender-IsBounded app' tx height bounded signed in
                    let (cache, size) = check_sender-sig_cache found.1 req.is_recheck tx found.0 in
                    rw (check_tx, free, decoded, signed) (rw (cache, size) fits, rw cache young)
              ]
        ]
      ]
