-- ===== src/App/SenderCache.antt =====
-- The cache of senders does not change what `CheckTx` answers (app/app.go).
use smartbch.Base.{
  Bool, Bool-cases, List, Map, Option-cases, arith, if◌then◌else◌, inl, inr, insert, length, lookup,
  lookup-erase, lookup-insert, ltb, none, not, some, take, ℕ, ◌&&◌, ◌-◌, ◌==◌, ◌^◌, ◌∙◌, ◌≡◌, ◌⊎◌,
}
use smartbch.App.CheckTx.{
  check_and_deduct, check_sender, evict, find_sender, CheckTxRequest, CheckTxResponse, rejected,
  check_tx, oldest, check_found, count_recheck,
}
use smartbch.App.State.{App, SenderAndHeight, cannot_decode_tx, mempool_busy}
use smartbch.App.Machine.{Machine, Tx}
use smartbch.Staking.Context.{Context}

module _ (c : Context) (m : Machine c) where
  open m use {
    decode_tx, signer_sender, signer_sender-hash, check_nonce, deduct_tx_fee, max_tx_gas_limit,
  }

  -- The cache holds the true senders.
  abbrev pub CacheIsSound : Map SenderAndHeight → Type 0
  CacheIsSound cache =
      (tx : Tx) (entry : SenderAndHeight)
      → lookup tx.hash cache ≡ some entry
      → signer_sender tx ≡ some entry.sender

  -- `CheckTx` without a cache.
  unfoldable pub check_tx_uncached : App c m → CheckTxRequest → CheckTxResponse × App c m
  check_tx_uncached app req =
      if not req.is_recheck && ltb app.recheck_threshold app.recheck_counter
      then (rejected mempool_busy, app)
      else elim (decode_tx req.tx) [
        | none ↦ (rejected cannot_decode_tx, count_recheck c m app req.is_recheck)
        | some tx ↦
            let app' = count_recheck c m app req.is_recheck in
            check_found c m app' req.is_recheck tx
              (elim (signer_sender tx) [ none ↦ none | some sender ↦ some (sender, app') ])
      ]

  -- An answer, and the state but for the cache, which becomes the one given.
  abbrev pub with_cache :
      Map SenderAndHeight → CheckTxResponse × App c m → CheckTxResponse × App c m
  with_cache cache r = (r.0, record (r.1) { sig_cache = cache })

  check_and_deduct-with_cache :
      (app : App c m) (tx : Tx) (sender : ℕ) (cache : Map SenderAndHeight)
      → check_and_deduct c m (record app { sig_cache = cache }) tx sender
        ≡ with_cache cache (check_and_deduct c m app tx sender)
  unfolding check_and_deduct
  check_and_deduct-with_cache app tx sender cache = ground arith

  check_sender-with_cache :
      (app : App c m) (is_recheck : Bool) (tx : Tx) (sender : ℕ) (cache : Map SenderAndHeight)
      → check_sender c m (record app { sig_cache = cache }) is_recheck tx sender
        ≡ with_cache cache (check_sender c m app is_recheck tx sender)
  unfolding check_sender
  check_sender-with_cache app is_recheck tx sender cache =
      ground (arith, check_and_deduct-with_cache app tx sender cache)

  module _ (order : Map SenderAndHeight → List (ℕ × SenderAndHeight)) where
    evict-CacheIsSound :
        (size : ℕ) (cache : Map SenderAndHeight)
        → CacheIsSound cache
        → CacheIsSound (evict c m order size cache)
    unfolding evict
    evict-CacheIsSound size cache sound tx entry found =
        elim (Bool-cases (ltb size (length cache))) [
          | inr fits ↦ sound tx entry (ground arith)
          | inl full ↦
              let gone = oldest (take 6 (order cache)) (0, 2 ^ 63 - 1) in
              sound tx entry (ground (arith, lookup-erase gone tx.hash cache))
        ]

    insert-CacheIsSound :
        (cache : Map SenderAndHeight) (tx : Tx) (entry : SenderAndHeight)
        → CacheIsSound cache
        → signer_sender tx ≡ some entry.sender
        → CacheIsSound (insert tx.hash entry cache)
    insert-CacheIsSound cache tx entry sound signed u other found =
        elim (Bool-cases (tx.hash == u.hash)) [
          | inl same ↦
              let same_hash : u.hash ≡ tx.hash = ground arith in
              let same_entry : other ≡ entry =
                ground (arith, lookup-insert tx.hash u.hash entry cache) in
              rw same_entry (signer_sender-hash u tx same_hash ∙ signed)
          | inr differs ↦ sound u other (ground (arith, lookup-insert tx.hash u.hash entry cache))
        ]

    -- What `find_sender` gives is what the signature gives, with a sound cache.
    find_sender_lem :
        (app : App c m) (tx : Tx)
        → CacheIsSound app.sig_cache
        → ((signer_sender tx ≡ none) × (find_sender c m order app tx ≡ none))
          ⊎ ((sender : ℕ) × (cache : Map SenderAndHeight) × (signer_sender tx ≡ some sender)
              × (find_sender c m order app tx ≡ some (sender, record app { sig_cache = cache }))
              × CacheIsSound cache)
    unfolding find_sender
    find_sender_lem app tx sound = elim (Option-cases (lookup tx.hash app.sig_cache)) [
      | inr (entry, hit) ↦
          inr (entry.sender, app.sig_cache, sound tx entry hit, ground arith, sound)
      | inl missed ↦ elim (Option-cases (signer_sender tx)) [
        | inl bad ↦ inl (bad, ground arith)
        | inr (sender, signed) ↦
            let entry : SenderAndHeight = record { sender = sender; height = app.curr_height } in
            let kept = evict c m order app.sig_cache_size app.sig_cache in
            inr (
              sender,
              insert tx.hash entry kept,
              signed,
              ground arith,
              insert-CacheIsSound kept tx entry
                  (evict-CacheIsSound app.sig_cache_size app.sig_cache sound) signed,
            )
      ]
    ]

    -- Whatever the order in which the cache is gone through for an eviction: if every sender in the
    -- cache is the one that the signatures of the transactions of that hash give, then `CheckTx` answers
    -- a request, valid or not, as it would without a cache, it leaves the same state but for the cache,
    -- and the senders in the new cache are again those of the signatures.
    pub check_tx_cache_free :
        (app : App c m) (req : CheckTxRequest)
        → CacheIsSound app.sig_cache
        → (cache : Map SenderAndHeight) × (check_tx c m order app req
            ≡ with_cache cache (check_tx_uncached app req))
          × CacheIsSound cache
    unfolding check_tx check_tx_uncached
    check_tx_cache_free app req sound =
        elim (Bool-cases (not req.is_recheck && ltb app.recheck_threshold app.recheck_counter)) [
          | inl busy ↦ (app.sig_cache, ground arith, sound)
          | inr free ↦ elim (Option-cases (decode_tx req.tx)) [
            | inl garbled ↦ (app.sig_cache, ground arith, sound)
            | inr (tx, decoded) ↦
                let app' = count_recheck c m app req.is_recheck in
                elim (find_sender_lem app' tx sound) [
                  | inl (bad, not_found) ↦ (app.sig_cache, ground arith, sound)
                  | inr (sender, cache, signed, found, sound') ↦ (
                    cache,
                    ground (arith, check_sender-with_cache app' req.is_recheck tx sender cache),
                    sound',
                  )
                ]
          ]
        ]
