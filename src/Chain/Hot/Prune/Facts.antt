-- ===== src/Chain/Hot/Prune/Facts.antt =====
-- What OnPrunedBlock of chain/hot.go does, on each of its branches.
use rumor.Base.{
  ℕ, suc, ◌≤◌, ◌^◌, ◌≡◌, refl, List, [], ◌∷◌, length, Option, none, some, ok, panic, true, false,
  arith, IsU64, get_elem?-of_le, Bool, ◌==◌, bytes_eq, if◌then◌else◌,
}
use rumor.Base.Map
use rumor.Base.Map.{Map, get-delete, size-delete}
use rumor.Base.Exec.{Exec}
use rumor.Chain.Zrnt.{Zrnt, BlockRef, ChainError}
use rumor.Chain.Key.{BlockSlotKey, new_block_slot_key}
use rumor.Chain.Entry.{HotEntry, entry_state_root}
use rumor.Chain.Hot.{UnfinalizedChain}
use rumor.Chain.Hot.Prune.{
  collect, drop_block, sink_at, sink_down, sink_pruned, prune_entry, on_pruned_block,
}
use rumor.Chain.Hot.Prune.Walk.{collect_total}

module _ {z : Zrnt} {S : Type 0} (sink : HotEntry z → Bool → Exec ChainError S (Unit {0})) where
  -- The first round of the loop reads the slice one place behind its end.
  sink_down_panics :
      (pruned : List (HotEntry z)) (s : S) → sink_down sink pruned (length pruned) s ≡ (panic, s)
  unfolding sink_down
  sink_down_panics [] s = refl
  sink_down_panics (e ∷ es) s =
      rw (get_elem?-of_le es (length es) (omega arith), sink_down, sink_at)

  abbrev key_of : BlockRef → BlockSlotKey
  key_of ref = new_block_slot_key ref.root ref.slot

  -- What the callback finds: the block of `ref` in a hot chain of less than 2^64 entries.
  pub record Found (uc : UnfinalizedChain z) (ref : BlockRef) (entry : HotEntry z) : Type 0 where
    pub stored : Map.get uc.entries (key_of ref) ≡ some entry
    pub slot_fits : IsU64 ref.slot
    pub parent_array : length entry.parent_root ≡ 32
    pub few : Map.size uc.entries ≤ 2 ^ 64

  module _ (uc : UnfinalizedChain z) (ref : BlockRef) (entry : HotEntry z) (s : S) where
    walked :
        Found uc ref entry
        → (l : List (HotEntry z)) × (collect
              (suc (Map.size (drop_block uc (key_of ref) entry).entries))
              (drop_block uc (key_of ref) entry).entries
              entry.parent_root
              ref.slot
            ≡ some l)
    unfolding drop_block
    walked h =
        collect_total entry.parent_root h.parent_array (Map.delete uc.entries (key_of ref)) ref.slot
          h.slot_fits (omega (arith, h.few, size-delete uc.entries (key_of ref) entry h.stored))

    -- A canonical block that is in the hot chain is dropped from it, and then the loop over the
    -- collected entries panics, so the sink never gets it.
    pub on_pruned_block-canonical :
        Found uc ref entry
        → on_pruned_block sink uc ref true s ≡ (panic, drop_block uc (key_of ref) entry, s)
    unfolding on_pruned_block
    on_pruned_block-canonical h =
        let (l, e) = walked h in
        rw (h.stored, e, sink_pruned, prune_entry, sink_down_panics (entry ∷ l) s)

    -- A block that is not canonical is dropped from the hot chain and handed to the sink once, by
    -- itself and with the mark of a canonical one.
    pub on_pruned_block-abandoned :
        Found uc ref entry
        → on_pruned_block sink uc ref false s
          ≡ ((sink entry true s).0, drop_block uc (key_of ref) entry, (sink entry true s).1)
    unfolding on_pruned_block
    on_pruned_block-abandoned h =
        let (l, e) = walked h in rw (h.stored, e, sink_pruned, prune_entry)

    hot_after :
        (canonical : Bool)
        → Map.get uc.entries (key_of ref) ≡ some entry
        → (on_pruned_block sink uc ref canonical s).1 ≡ drop_block uc (key_of ref) entry
    unfolding on_pruned_block
    hot_after canonical h = rw (h, prune_entry)

    -- Whatever becomes of the sink, the block's key and its state root are gone from the hot chain,
    -- and every other key and state root is left as it was.
    pub on_pruned_block-entries :
        (canonical : Bool) (k r : List ℕ)
        → Map.get uc.entries (key_of ref) ≡ some entry
        → (Map.get (on_pruned_block sink uc ref canonical s).1.entries k
            ≡ (if key_of ref == k then none else Map.get uc.entries k))
          × (Map.get (on_pruned_block sink uc ref canonical s).1.state2key r
              ≡ (if entry_state_root entry == r then none else Map.get uc.state2key r))
    on_pruned_block-entries canonical k r h = rw (hot_after canonical h) (dropped k r)
      where
        dropped :
            (k r : List ℕ)
            → (Map.get (drop_block uc (key_of ref) entry).entries k
                ≡ (if key_of ref == k then none else Map.get uc.entries k))
              × (Map.get (drop_block uc (key_of ref) entry).state2key r
                  ≡ (if entry_state_root entry == r then none else Map.get uc.state2key r))
        dropped k r =
            unfold drop_block in
            (
              get-delete uc.entries (key_of ref) k,
              get-delete uc.state2key (entry_state_root entry) r,
            )

  sink_pruned_canonical :
      (entry : HotEntry z) (walk : Option (List (HotEntry z))) (s : S)
      → (sink_pruned sink true entry walk s).1 ≡ s
  unfolding sink_pruned
  sink_pruned_canonical entry none s = refl
  sink_pruned_canonical entry (some l) s = rw (sink_down_panics (entry ∷ l) s)

  prune_entry_canonical :
      (uc : UnfinalizedChain z) (ref : BlockRef) (o : Option (HotEntry z)) (s : S)
      → (prune_entry sink uc ref true o s).2 ≡ s
  unfolding prune_entry
  prune_entry_canonical uc ref none s = refl
  prune_entry_canonical uc ref (some entry) s =
      let uc' : UnfinalizedChain z = drop_block uc (key_of ref) entry in
      sink_pruned_canonical entry
        (collect (suc (Map.size uc'.entries)) uc'.entries entry.parent_root ref.slot) s

  -- Whatever the hot chain holds, a canonical pruning hands nothing to the sink.
  pub on_pruned_block-sinks_nothing :
      (uc : UnfinalizedChain z) (ref : BlockRef) (s : S)
      → (on_pruned_block sink uc ref true s).2 ≡ s
  unfolding on_pruned_block
  on_pruned_block-sinks_nothing uc ref s =
      prune_entry_canonical uc ref (Map.get uc.entries (key_of ref)) s

  sink_pruned_abandoned :
      (P : S → Type 0) (entry : HotEntry z) (walk : Option (List (HotEntry z))) (s : S)
      → P s
      → P (sink entry true s).1
      → P (sink_pruned sink false entry walk s).1
  unfolding sink_pruned
  sink_pruned_abandoned P entry none s h k = h
  sink_pruned_abandoned P entry (some l) s h k = k

  prune_entry_abandoned :
      (P : S → Type 0) (uc : UnfinalizedChain z) (ref : BlockRef) (o : Option (HotEntry z)) (s : S)
      → P s
      → ((e : HotEntry z) → P (sink e true s).1)
      → P (prune_entry sink uc ref false o s).2
  unfolding prune_entry
  prune_entry_abandoned P uc ref none s h k = h
  prune_entry_abandoned P uc ref (some entry) s h k =
      let uc' : UnfinalizedChain z = drop_block uc (key_of ref) entry in
      sink_pruned_abandoned P entry
        (collect (suc (Map.size uc'.entries)) uc'.entries entry.parent_root ref.slot) s h (k entry)

  -- What one call of the sink keeps, the callback keeps.
  pub on_pruned_block-keeps :
      (P : S → Type 0) (uc : UnfinalizedChain z) (ref : BlockRef) (canonical : Bool) (s : S)
      → P s
      → ((e : HotEntry z) → P (sink e true s).1)
      → P (on_pruned_block sink uc ref canonical s).2
  on_pruned_block-keeps P uc ref true s h k = rw (on_pruned_block-sinks_nothing uc ref s) h
  on_pruned_block-keeps P uc ref false s h k =
      unfold on_pruned_block in
      prune_entry_abandoned P uc ref (Map.get uc.entries (key_of ref)) s h k

  -- A block that the hot chain does not hold is passed over.
  pub on_pruned_block-unknown :
      (uc : UnfinalizedChain z) (ref : BlockRef) (canonical : Bool) (s : S)
      → Map.get uc.entries (key_of ref) ≡ none
      → on_pruned_block sink uc ref canonical s ≡ (ok tt, uc, s)
  unfolding on_pruned_block
  on_pruned_block-unknown uc ref canonical s h = rw (h, prune_entry)
