-- ===== src/Watcher/Steady.antt =====
-- The watcher on a chain without forks: it goes on for ever, and its epochs come (`Run` of
-- staking/watcher.go).
use smartbch.Base.{
  >>=-elim, Bool-cases, List, Map, Option-cases, [], ap, arith, channel_full, get_last?, inl, inr,
  insert, leb, length, length-append, lookup, lookup-insert, none, require, returns,
  returns-injective, suc, ℕ, ◌*◌, ◌+◌, ◌-◌, ◌<◌, ◌==◌, ◌∙◌, ◌∷◌, ◌≡◌, ◌≤◌,
}
use smartbch.Watcher.Blocks.{BchBlock}
use smartbch.Watcher.Chain.{IsLinear}
use smartbch.Watcher.Epochs.{
  IsWatching, at_hand_next, clear_old_data-SameProgress, generate_new_epoch_lem,
}
use smartbch.Staking.Epoch.{Nomination}
use smartbch.Watcher.{
  Watcher, clear_old_data, finalize, gather, generate_new_epoch, new_epoch, nothing_gathered,
  record_epoch, has_room,
}
use smartbch.Watcher.Stored.{clear_down-IsHolding, insert_recent, insert_rooted, mined, IsHolding}

module _ (num_blocks_in_epoch num_blocks_to_clear_memory last_height : ℕ) (hash timestamp : ℕ → ℕ)
    (nominations : ℕ → List Nomination) where
  -- The watcher between two rounds, after `count` blocks.
  pub record IsSteady (count : ℕ) (w : Watcher) : Type 0 where
    pub stored :
        IsHolding last_height hash timestamp nominations count w.height_to_finalized_block
          w.hash_to_block
    pub reached : w.latest_finalized_height ≡ last_height + (count - 10)
    pub watching : IsWatching num_blocks_in_epoch num_blocks_to_clear_memory w
    pub unread : length w.epoch_chan ≤ w.received + 1

  module _ (linear : IsLinear hash timestamp nominations) (positive : 0 < num_blocks_in_epoch) where
    clear_old_data-IsHolding :
        (count : ℕ) (w : Watcher)
        → IsHolding last_height hash timestamp nominations count w.height_to_finalized_block
            w.hash_to_block
        → IsHolding last_height hash timestamp nominations count
            (clear_old_data num_blocks_in_epoch num_blocks_to_clear_memory
              w).height_to_finalized_block
            (clear_old_data num_blocks_in_epoch num_blocks_to_clear_memory w).hash_to_block
    unfolding clear_old_data
    clear_old_data-IsHolding count w stored = elim (Option-cases (get_last? w.epoch_list)) [
      | inl empty ↦ rw (clear_old_data, empty) stored
      | inr (epoch, found) ↦ elim (Bool-cases (leb (5 * num_blocks_in_epoch) epoch.start_height)) [
        | inl far ↦
            rw (clear_old_data, found, far)
              (clear_down-IsHolding last_height hash timestamp nominations linear count
                (epoch.start_height - 5 * num_blocks_in_epoch) w stored)
        | inr near ↦ rw (clear_old_data, found, near) stored
      ]
    ]

    generate_new_epoch-IsHolding :
        (count : ℕ) (w : Watcher) {w' : Watcher}
        → IsHolding last_height hash timestamp nominations count w.height_to_finalized_block
            w.hash_to_block
        → generate_new_epoch num_blocks_in_epoch num_blocks_to_clear_memory w ≡ returns w'
        → IsHolding last_height hash timestamp nominations count w'.height_to_finalized_block
            w'.hash_to_block
          × (w'.latest_finalized_height ≡ w.latest_finalized_height)
          × (length w'.epoch_chan ≡ length w.epoch_chan + 1)
          × (w'.received ≡ w.received)
    unfolding generate_new_epoch
    generate_new_epoch-IsHolding count w stored e =
        let start = w.last_epoch_end_height + 1 in
        >>=-elim
          (gather (w.latest_finalized_height + 1 - start) start w.height_to_finalized_block
            nothing_gathered)
          _ e
          (λ g gathered e1. >>=-elim (require (has_room w) channel_full) _ e1 (λ sent room e2.
            let epoch = new_epoch w g in
            let same =
              clear_old_data-SameProgress num_blocks_in_epoch num_blocks_to_clear_memory
                (record_epoch w epoch) in
            rw (← returns-injective e2) (
              clear_old_data-IsHolding count (record_epoch w epoch) stored,
              same.1,
              ap length same.2 ∙ length-append w.epoch_chan (epoch ∷ []),
              same.3,
            )))

    pub add-IsHolding :
        (count : ℕ) (w : Watcher)
        → IsSteady count w
        → IsHolding last_height hash timestamp nominations (suc count) w.height_to_finalized_block (
            insert
              (hash count)
              (mined last_height hash timestamp nominations count)
              w.hash_to_block)
    add-IsHolding count w h = record {
      recent = λ i lo hi.
          insert_recent last_height hash timestamp nominations linear count
            w.height_to_finalized_block w.hash_to_block h.stored i (omega (arith, lo))
            (omega (arith, hi));
      rooted =
          insert_rooted last_height hash timestamp nominations linear count w.hash_to_block
            h.stored.rooted;
      finalized = λ k b found.
          let (i, is_mined, at, old) = h.stored.finalized k b found in
          (i, is_mined, at, omega (arith, old));
    }

    -- The block ten back is recorded as finalized.
    record-IsHolding :
        (i : ℕ) (by_height by_hash : Map BchBlock)
        → IsHolding last_height hash timestamp nominations (suc (i + 10)) by_height by_hash
        → IsHolding last_height hash timestamp nominations
            (suc (i + 10))
            (insert
              (last_height + 1 + i)
              (mined last_height hash timestamp nominations i)
              by_height)
            by_hash
    record-IsHolding i by_height by_hash stored = record {
      recent = stored.recent;
      rooted = stored.rooted;
      finalized = λ k b found.
          let at =
            lookup-insert (last_height + 1 + i) k (mined last_height hash timestamp nominations i)
              by_height in
          elim (Bool-cases (last_height + 1 + i == k)) [
            | inl same ↦ (i, ground (arith, at), ground arith, omega arith)
            | inr differs ↦ stored.finalized k b (ground (arith, at))
          ];
    }

    pub finalize_next :
        (i : ℕ) (w : Watcher)
        → IsHolding last_height hash timestamp nominations
            (suc (i + 10))
            w.height_to_finalized_block
            w.hash_to_block
        → IsWatching num_blocks_in_epoch num_blocks_to_clear_memory w
        → w.latest_finalized_height ≡ last_height + i
        → lookup (last_height + 1 + i) w.height_to_finalized_block ≡ none
        → length w.epoch_chan ≤ w.received
        → (w' : Watcher) × (finalize num_blocks_in_epoch num_blocks_to_clear_memory w
              (mined last_height hash timestamp nominations i)
            ≡ returns w')
          × IsSteady (suc (i + 10)) w'
    unfolding finalize
    finalize_next i w stored v at fresh room =
        let blk = mined last_height hash timestamp nominations i in
        let grown : Watcher = record w {
          height_to_finalized_block = insert blk.height blk w.height_to_finalized_block;
          latest_finalized_height = w.latest_finalized_height + 1;
        } in
        let next : w.latest_finalized_height + 1 ≡ blk.height = omega (arith, at) in
        let kept = record-IsHolding i w.height_to_finalized_block w.hash_to_block stored in
        let here : w.latest_finalized_height + 1 ≡ last_height + (suc (i + 10) - 10) =
          omega (arith, at) in
        let at_hand = at_hand_next num_blocks_in_epoch num_blocks_to_clear_memory w blk v next in
        elim (Bool-cases
          (w.latest_finalized_height + 1 - w.last_epoch_end_height == num_blocks_in_epoch)) [
            | inl full ↦
                let (u, done, watches, progress) =
                  generate_new_epoch_lem num_blocks_in_epoch num_blocks_to_clear_memory grown
                    positive (ground (arith, v.ordered)) at_hand (ground (arith, room)) in
                let (clears, stays, one_more, none_received) =
                  generate_new_epoch-IsHolding (suc (i + 10)) grown kept done in
                (
                  u,
                  ground (arith, fresh, next, full, done),
                  record {
                    stored = clears;
                    reached = stays ∙ here;
                    watching = watches;
                    unread = omega (arith, one_more, none_received, room);
                  },
                )
            | inr part ↦ (
              grown,
              ground (arith, fresh, next, part),
              record {
                stored = kept;
                reached = here;
                watching = record {
                  ordered = omega (arith, v.ordered);
                  short = ground (arith, v.short, v.ordered);
                  at_hand = at_hand;
                };
                unread = omega (arith, room);
              },
            )
          ]
