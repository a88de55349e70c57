-- ===== src/Watcher/Adding.antt =====
-- A steady watcher adds the next block of a chain without forks (`addBlock` of staking/watcher.go).
use smartbch.Base.{
  Bool-cases, List, Option-cases, arith, inl, inr, insert, length, lookup, ltb, none, refl, returns,
  subst, suc, zero, ℕ, ◌+◌, ◌-◌, ◌<◌, ◌≡◌, ◌≤◌,
}
use smartbch.Watcher.Chain.{confirm_recent, confirm_short, IsLinear}
use smartbch.Watcher.Steady.{IsSteady, add-IsHolding, finalize_next}
use smartbch.Staking.Epoch.{Nomination}
use smartbch.Watcher.{Watcher, add_block}
use smartbch.Watcher.Stored.{insert_recent, insert_rooted, mined}

module _ (num_blocks_in_epoch num_blocks_to_clear_memory last_height : ℕ) (hash timestamp : ℕ → ℕ)
    (nominations : ℕ → List Nomination) (linear : IsLinear hash timestamp nominations)
    (positive : 0 < num_blocks_in_epoch) where
  abbrev pub Steady : ℕ → Watcher → Type 0
  Steady count w =
      IsSteady num_blocks_in_epoch num_blocks_to_clear_memory last_height hash timestamp nominations
        count w

  abbrev pub Adds : ℕ → Watcher → Type 0
  Adds count w =
      (w' : Watcher) × (add_block num_blocks_in_epoch num_blocks_to_clear_memory w
          (mined last_height hash timestamp nominations count)
        ≡ returns (w', none))
      × Steady (suc count) w'

  -- The first ten blocks are only recorded.
  abbrev with_block : ℕ → Watcher → Watcher
  with_block count w = record w {
    hash_to_block =
        insert (hash count) (mined last_height hash timestamp nominations count) w.hash_to_block;
  }

  recorded-Steady :
      (count : ℕ) (w : Watcher)
      → Steady count w
      → count < 10
      → Steady (suc count) (with_block count w)
  recorded-Steady count w h early = record {
    stored =
        add-IsHolding num_blocks_in_epoch num_blocks_to_clear_memory last_height hash timestamp
          nominations linear positive count w h;
    reached = omega (arith, h.reached);
    watching = record {
      ordered = h.watching.ordered;
      short = h.watching.short;
      at_hand = h.watching.at_hand;
    };
    unread = h.unread;
  }

  pub add_block-Steady :
      (count : ℕ) (w : Watcher) → Steady count w → length w.epoch_chan ≤ w.received → Adds count w
  unfolding add_block
  add_block-Steady zero w h room =
      let rooted =
        insert_rooted last_height hash timestamp nominations linear 0 w.hash_to_block
          h.stored.rooted in
      (with_block 0 w, rw (add_block, rooted) refl, recorded-Steady 0 w h (omega arith))
  add_block-Steady (suc p) w h room =
      let count = suc p in
      let held =
        insert_recent last_height hash timestamp nominations linear count
          w.height_to_finalized_block w.hash_to_block h.stored in
      let by_hash = (with_block count w).hash_to_block in
      let parent = held p (omega arith) (omega arith) in
      elim (Bool-cases (ltb p 9)) [
        | inl early ↦
            let few =
              confirm_short hash timestamp nominations (last_height + 1) linear 9 p by_hash
                (λ i hi. held i (ground (arith, early)) (omega (arith, hi)))
                (insert_rooted last_height hash timestamp nominations linear count w.hash_to_block
                  h.stored.rooted)
                (ground (arith, early)) in
            (
              with_block count w,
              ground (arith, parent, few),
              recorded-Steady count w h (ground (arith, early)),
            )
        | inr late ↦
            let i = p - 9 in
            let e : i + 10 ≡ count = ground (arith, late) in
            let tenth =
              confirm_recent hash timestamp nominations (last_height + 1) linear 9 p i by_hash
                (λ j lo hi. held j (omega (arith, e, lo)) (omega (arith, hi))) (omega (arith, e)) in
            let fresh : lookup (last_height + 1 + i) w.height_to_finalized_block ≡ none =
              elim (Option-cases (lookup (last_height + 1 + i) w.height_to_finalized_block)) [
                | inl none_yet ↦ none_yet
                | inr (b, found) ↦
                    let (j, is_mined, at, old) = h.stored.finalized _ b found in
                    absurd (omega (arith, at, old, e))
              ] in
            let stored =
              add-IsHolding num_blocks_in_epoch num_blocks_to_clear_memory last_height hash
                timestamp nominations linear positive count w h in
            let (w', done, steady) =
              finalize_next num_blocks_in_epoch num_blocks_to_clear_memory last_height hash
                timestamp nominations linear positive i (with_block count w) (rw e stored)
                (record {
                  ordered = h.watching.ordered;
                  short = h.watching.short;
                  at_hand = h.watching.at_hand;
                })
                (omega (arith, h.reached, e)) fresh room in
            (w', ground (arith, parent, tenth, done), subst (λ n. Steady (suc n) w') e steady)
      ]
