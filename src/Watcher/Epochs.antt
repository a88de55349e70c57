-- ===== src/Watcher/Epochs.antt =====
-- The watcher's invariant, and how its epochs follow each other (staking/watcher.go).
use smartbch.Base.{
  >>=-elim, Bool-cases, Map, Option-cases, [], arith, channel_full, erase, get_last?, inl, inr,
  insert, lookup, lookup-insert, refl, require, require-eq-returns, returns, some, suc, true, zero,
  ℕ, ◌*◌, ◌++◌, ◌+◌, ◌-◌, ◌<◌, ◌==◌, ◌∙◌, ◌∷◌, ◌≡◌, ◌≤◌,
}
use smartbch.Watcher.Blocks.{BchBlock, Epoch}
use smartbch.Watcher.{
  Gathered, Watcher, clear_down, clear_old_data, gather, generate_new_epoch, finalize, new_epoch,
  nothing_gathered, record_epoch, has_room,
}

gather-returns :
    (rounds i : ℕ) (blocks : Map BchBlock) (g : Gathered)
    → ((h : ℕ) → i ≤ h → h < i + rounds → (b : BchBlock) × (lookup h blocks ≡ some b))
    → (g' : Gathered) × (gather rounds i blocks g ≡ returns g')
unfolding gather
gather-returns zero i blocks g present = (g, refl)
gather-returns (suc rounds) i blocks g present =
    let (b, found) = present i (omega arith) (omega arith) in
    rw found
      (gather-returns rounds (i + 1) blocks _ (λ h lo hi. present h (omega arith) (omega arith)))

-- What `ClearOldData` leaves alone.
abbrev SameProgress : Watcher → Watcher → Type 0
SameProgress w w' =
    (w'.last_epoch_end_height ≡ w.last_epoch_end_height)
    × (w'.latest_finalized_height ≡ w.latest_finalized_height)
    × (w'.epoch_chan ≡ w.epoch_chan)
    × (w'.received ≡ w.received)

clear_down-SameProgress : (height : ℕ) (w : Watcher) → SameProgress w (clear_down height w)
unfolding clear_down
clear_down-SameProgress zero w = ground arith
clear_down-SameProgress (suc height) w =
    elim (Option-cases (lookup (suc height) w.height_to_finalized_block)) [
      | inl none_left ↦ ground arith
      | inr (blk, found) ↦ ground (
        arith,
        clear_down-SameProgress height (record w {
          height_to_finalized_block = erase (suc height) w.height_to_finalized_block;
          hash_to_block = erase blk.hash_id w.hash_to_block;
        }),
      )
    ]

module _ (num_blocks_in_epoch num_blocks_to_clear_memory : ℕ) where
  pub clear_old_data-SameProgress :
      (w : Watcher)
      → SameProgress w (clear_old_data num_blocks_in_epoch num_blocks_to_clear_memory w)
  unfolding clear_old_data
  clear_old_data-SameProgress w = elim (Option-cases (get_last? w.epoch_list)) [
    | inl empty ↦ ground arith
    | inr (epoch, found) ↦
        ground (arith, clear_down-SameProgress (epoch.start_height - 5 * num_blocks_in_epoch) w)
  ]

  -- Between two epochs all finalized blocks of the coming epoch are at hand, fewer than an epoch has.
  pub record IsWatching (w : Watcher) : Type 0 where
    pub ordered : w.last_epoch_end_height ≤ w.latest_finalized_height
    pub short : w.latest_finalized_height < w.last_epoch_end_height + num_blocks_in_epoch
    pub at_hand :
        (h : ℕ)
        → w.last_epoch_end_height < h
        → h ≤ w.latest_finalized_height
        → (b : BchBlock) × (lookup h w.height_to_finalized_block ≡ some b)

  -- A step puts out no epoch, or one that begins behind the last and has the full length.
  pub data Progress (w w' : Watcher) : Type 0 where
    keeps :
        w'.epoch_chan ≡ w.epoch_chan
        → w'.last_epoch_end_height ≡ w.last_epoch_end_height
        → Progress w w'
    puts_out :
        (epoch : Epoch)
        → w'.epoch_chan ≡ w.epoch_chan ++ epoch ∷ []
        → epoch.start_height ≡ w.last_epoch_end_height + 1
        → w'.last_epoch_end_height ≡ w.last_epoch_end_height + num_blocks_in_epoch
        → Progress w w'

  -- The new epoch is generated where all its blocks are at hand.
  pub generate_new_epoch_lem :
      (w : Watcher)
      → 0 < num_blocks_in_epoch
      → w.latest_finalized_height ≡ w.last_epoch_end_height + num_blocks_in_epoch
      → ((h : ℕ)
          → w.last_epoch_end_height < h
          → h ≤ w.latest_finalized_height
          → (b : BchBlock) × (lookup h w.height_to_finalized_block ≡ some b))
      → has_room w ≡ true
      → (w' : Watcher) × (generate_new_epoch num_blocks_in_epoch num_blocks_to_clear_memory w
          ≡ returns w')
        × IsWatching w'
        × Progress w w'
  unfolding generate_new_epoch
  generate_new_epoch_lem w pos_n full at_hand room =
      let start = w.last_epoch_end_height + 1 in
      let (g, gathered) =
        gather-returns (w.latest_finalized_height + 1 - start) start w.height_to_finalized_block
          nothing_gathered (λ h lo hi. at_hand h (omega arith) (omega arith)) in
      let epoch = new_epoch w g in
      let same = clear_old_data-SameProgress (record_epoch w epoch) in
      (
        clear_old_data num_blocks_in_epoch num_blocks_to_clear_memory (record_epoch w epoch),
        rw (gathered, room) refl,
        record {
          ordered = omega (arith, same.0, same.1);
          short = omega (arith, same.0, same.1);
          at_hand = λ h lo hi. absurd (omega (arith, same.0, same.1));
        },
        puts_out epoch same.2 refl (same.0 ∙ full),
      )

  generate_new_epoch-has_room :
      (w : Watcher) {w' : Watcher}
      → generate_new_epoch num_blocks_in_epoch num_blocks_to_clear_memory w ≡ returns w'
      → has_room w ≡ true
  unfolding generate_new_epoch
  generate_new_epoch-has_room w e =
      let start = w.last_epoch_end_height + 1 in
      >>=-elim
        (gather (w.latest_finalized_height + 1 - start) start w.height_to_finalized_block
          nothing_gathered)
        _ e
        (λ g gathered e1.
          >>=-elim (require (has_room w) channel_full) _ e1
            (λ u room e2. require-eq-returns (has_room w) channel_full room))

  Progress-from :
      {v w w' : Watcher}
      → v.epoch_chan ≡ w.epoch_chan
      → v.last_epoch_end_height ≡ w.last_epoch_end_height
      → Progress v w'
      → Progress w w'
  Progress-from chan last (keeps c l) = keeps (c ∙ chan) (l ∙ last)
  Progress-from chan last (puts_out epoch c s l) =
      puts_out epoch (rw (← chan) c) (omega (arith, s, last)) (omega (arith, l, last))

  pub at_hand_next :
      (w : Watcher) (blk : BchBlock)
      → IsWatching w
      → w.latest_finalized_height + 1 ≡ blk.height
      → (h : ℕ) → w.last_epoch_end_height < h
      → h ≤ w.latest_finalized_height + 1
      → (b : BchBlock) × (lookup h (insert blk.height blk w.height_to_finalized_block) ≡ some b)
  at_hand_next w blk v next h lo hi = elim (Bool-cases (blk.height == h)) [
    | inl here ↦ (blk, ground (arith, lookup-insert blk.height h blk w.height_to_finalized_block))
    | inr other ↦
        let (b, found) = v.at_hand h lo (ground (arith, next)) in
        (b, ground (arith, lookup-insert blk.height h blk w.height_to_finalized_block))
  ]

  pub finalize_lem :
      (w : Watcher) (blk : BchBlock) {w' : Watcher}
      → IsWatching w
      → finalize num_blocks_in_epoch num_blocks_to_clear_memory w blk ≡ returns w'
      → IsWatching w' × Progress w w'
  unfolding finalize
  finalize_lem w blk {w'} v e =
      elim (Option-cases (lookup blk.height w.height_to_finalized_block)) [
        | inr (b, found) ↦ let same : w' ≡ w = ground arith in rw same (v, keeps refl refl)
        | inl fresh ↦
            let grown : Watcher = record w {
              height_to_finalized_block = insert blk.height blk w.height_to_finalized_block;
              latest_finalized_height = w.latest_finalized_height + 1;
            } in
            let next : w.latest_finalized_height + 1 ≡ blk.height = ground arith in
            let at_hand = at_hand_next w blk v next in
            elim (Bool-cases
              (w.latest_finalized_height + 1 - w.last_epoch_end_height == num_blocks_in_epoch)) [
                | inl full ↦
                    let generated : generate_new_epoch num_blocks_in_epoch
                          num_blocks_to_clear_memory grown
                        ≡ returns w' =
                      ground arith in
                    let (u, done, kept, progress) =
                      generate_new_epoch_lem grown (ground (arith, v.short))
                        (ground (arith, v.ordered)) at_hand
                        (generate_new_epoch-has_room grown generated) in
                    let same : w' ≡ u = ground arith in
                    rw same (kept, Progress-from refl refl progress)
                | inr part ↦
                    let same : w' ≡ grown = ground arith in
                    rw same (
                      record {
                        ordered = omega (arith, v.ordered);
                        short = ground (arith, v.short, v.ordered);
                        at_hand = at_hand;
                      },
                      keeps refl refl,
                    )
              ]
      ]
