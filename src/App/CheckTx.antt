-- ===== src/App/CheckTx.antt =====
-- app/app.go: `CheckTx`, which lets transactions into the mempool, with its cache of senders.
use smartbch.Base.{
  Bool, List, Map, Option, [], any, erase, if◌then◌else◌, insert, length, lookup, ltb, none, not,
  some, take, ℕ, ◌&&◌, ◌+◌, ◌-◌, ◌==◌, ◌^◌, ◌∷◌,
}
use smartbch.App.State.{
  App, Code, SenderAndHeight, account_nonce_mismatch, cannot_decode_tx, cannot_pay_gas_fee,
  cannot_recover_sender, code_type_ok, gas_limit_invalid, has_pending_tx, invalid_min_gas_price,
  mempool_busy,
}
use smartbch.App.Machine.{Machine, Tx}
use smartbch.Staking.Context.{Context}

pub record CheckTxRequest : Type 0 where
  pub is_recheck : Bool
  pub tx : List ℕ

-- The texts of the code are left out.
pub record CheckTxResponse : Type 0 where
  pub code : Code
  pub gas_wanted : ℕ

abbrev pub rejected : Code → CheckTxResponse
rejected code = record { code = code; gas_wanted = 0 }

abbrev pub passed : Tx → CheckTxResponse
passed tx = record { code = code_type_ok; gas_wanted = tx.gas }

-- The oldest of some entries, by the key and the height; `math.MaxInt64` and the zero hash before.
unfoldable pub oldest : List (ℕ × SenderAndHeight) → ℕ × ℕ → ℕ
oldest [] best = best.0
oldest (entry ∷ entries) best =
    oldest entries (if ltb entry.1.height best.1 then (entry.0, entry.1.height) else best)

module _ (c : Context) (m : Machine c) where
  open m use {decode_tx, signer_sender, check_nonce, deduct_tx_fee, max_tx_gas_limit}

  -- `order` is the order in which Go ranges over the cache.
  module _ (order : Map SenderAndHeight → List (ℕ × SenderAndHeight)) where
    unfoldable pub evict : ℕ → Map SenderAndHeight → Map SenderAndHeight
    evict size cache =
        if ltb size (length cache)
        then erase (oldest (take 6 (order cache)) (0, 2 ^ 63 - 1)) cache
        else cache

    -- The sender of a transaction, from the cache or from the signature, and the cache then.
    unfoldable pub find_sender : App c m → Tx → Option (ℕ × App c m)
    find_sender app tx = elim (lookup tx.hash app.sig_cache) [
      | some entry ↦ some (entry.sender, app)
      | none ↦ elim (signer_sender tx) [
        | none ↦ none
        | some sender ↦ some (
          sender,
          record app {
            sig_cache =
                insert tx.hash (record { sender = sender; height = app.curr_height })
                  (evict app.sig_cache_size app.sig_cache);
          },
        )
      ]
    ]

  -- `checkTx`: the check state is written only where all checks have passed.
  unfoldable pub check_and_deduct : App c m → Tx → ℕ → CheckTxResponse × App c m
  check_and_deduct app tx sender =
      if ltb max_tx_gas_limit tx.gas
      then (rejected gas_limit_invalid, app)
      else elim (check_nonce app.check_trunk sender tx.nonce) [
        | none ↦ (rejected account_nonce_mismatch, app)
        | some acc ↦
            if ltb tx.gas_price app.last_min_gas_price
            then (rejected invalid_min_gas_price, app)
            else elim (deduct_tx_fee app.check_trunk sender acc tx.gas tx.gas_price) [
              | none ↦ (rejected cannot_pay_gas_fee, app)
              | some w ↦ (passed tx, record app { check_trunk = w })
            ]
      ]

  -- The end of `CheckTx`, with the sender.
  unfoldable pub check_sender : App c m → Bool → Tx → ℕ → CheckTxResponse × App c m
  check_sender app is_recheck tx sender =
      if any (λ a. a == sender) app.touched_addrs
      then (rejected has_pending_tx, app)
      else if is_recheck && not (any (λ a. a == sender) app.sep206_sender_set)
      then (passed tx, app)
      else check_and_deduct app tx sender

  -- What `CheckTx` does with the result of looking for the sender.
  abbrev pub check_found : App c m → Bool → Tx → Option (ℕ × App c m) → CheckTxResponse × App c m
  check_found app is_recheck tx none = (rejected cannot_recover_sender, app)
  check_found app is_recheck tx (some (sender, app')) = check_sender app' is_recheck tx sender

  abbrev pub count_recheck : App c m → Bool → App c m
  count_recheck app is_recheck = record app {
    recheck_counter = if is_recheck then app.recheck_counter + 1 else app.recheck_counter;
  }

  unfoldable pub check_tx :
      (Map SenderAndHeight → List (ℕ × SenderAndHeight))
      → App c m
      → CheckTxRequest
      → CheckTxResponse × App c m
  check_tx order app req =
      if not req.is_recheck && ltb app.recheck_threshold app.recheck_counter
      then (rejected mempool_busy, app)
      else elim (decode_tx req.tx) [
        | none ↦ (rejected cannot_decode_tx, count_recheck app req.is_recheck)
        | some tx ↦
            let app' = count_recheck app req.is_recheck in
            check_found app' req.is_recheck tx (find_sender order app' tx)
      ]
