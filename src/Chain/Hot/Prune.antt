-- ===== src/Chain/Hot/Prune.antt =====
-- OnPrunedBlock of chain/hot.go: the fork choice's callback, which drops a block from the hot chain
-- and hands it to the sink. A sink is a function on a state of its own.
pub mod Facts
pub mod Walk
use rumor.Base.{
  ℕ, zero, suc, ◌+◌, Bool, true, false, List, [], ◌∷◌, length, get_elem?, Option, none, some, ok,
  err, panic, Result, ltb, if◌then◌else◌, ◌==◌, bytes_eq, sub64,
}
use rumor.Base.Map
use rumor.Base.Map.{Map}
use rumor.Base.Exec.{Exec, continue}
use rumor.Chain.Zrnt.{Zrnt, Root, BlockRef, ChainError, ChainResult}
use rumor.Chain.Key.{BlockSlotKey, new_block_slot_key}
use rumor.Chain.Entry.{HotEntry, entry_state_root}
use rumor.Chain.Hot.{UnfinalizedChain}

module _ {z : Zrnt} where
  -- `for slot := blockRef.Slot; true; slot--`, appending the entries found to `pruned`. The slot
  -- wraps around at 0. `none` says that the fuel ran out.
  unfoldable pub collect : ℕ → Map BlockSlotKey (HotEntry z) → Root → ℕ → Option (List (HotEntry z))
  collect zero entries prev slot = none
  collect (suc fuel) entries prev slot =
      let rest = collect fuel entries prev (sub64 slot 1) in
      elim (Map.get entries (new_block_slot_key prev slot)) [
        | none ↦ some []
        | some e ↦ elim rest [ none ↦ none | some l ↦ some (e ∷ l) ]
      ]

  -- The hot chain without the block, and with the anchor slot moved up to it.
  unfoldable pub drop_block : UnfinalizedChain z → BlockSlotKey → HotEntry z → UnfinalizedChain z
  drop_block uc key entry = record uc {
    entries = Map.delete uc.entries key;
    state2key = Map.delete uc.state2key (entry_state_root entry);
    anchor_slot = if ltb uc.anchor_slot entry.slot then entry.slot else uc.anchor_slot;
  }

  module _ {S : Type 0} (sink : HotEntry z → Bool → Exec ChainError S (Unit {0})) where
    -- `entry := pruned[i]` and the call of the sink.
    sink_at : List (HotEntry z) → ℕ → Exec ChainError S (Unit {0})
    sink_at pruned i s = elim (get_elem? pruned i) [ none ↦ (panic, s) | some e ↦ sink e true s ]

    -- `for i := len(pruned); i >= 0; i--`, from the index `i` on.
    unfoldable pub sink_down : List (HotEntry z) → ℕ → Exec ChainError S (Unit {0})
    unfolding sink_at
    sink_down pruned zero s = sink_at pruned zero s
    sink_down pruned (suc i) s =
        let (r, s') = sink_at pruned (suc i) s in continue r (λ _. sink_down pruned i) s'

    -- The fuel of `collect` is the number of entries and one, and `Walk.collect_total` shows that it
    -- does not run out; a walk that went round for ever would have no outcome here but `panic`.
    sink_pruned : Bool → HotEntry z → Option (List (HotEntry z)) → Exec ChainError S (Unit {0})
    unfolding sink_down
    sink_pruned canonical entry none s = (panic, s)
    sink_pruned true entry (some pruned) s = sink_down (entry ∷ pruned) (length (entry ∷ pruned)) s
    sink_pruned false entry (some pruned) s = sink entry true s

    prune_entry :
        UnfinalizedChain z
        → BlockRef
        → Bool
        → Option (HotEntry z)
        → S
        → ChainResult (Unit {0}) × UnfinalizedChain z × S
    unfolding sink_pruned drop_block
    prune_entry uc ref canonical none s = (ok tt, uc, s)
    prune_entry uc ref canonical (some entry) s =
        let uc' = drop_block uc (new_block_slot_key ref.root ref.slot) entry in
        let walked = collect (suc (Map.size uc'.entries)) uc'.entries entry.parent_root ref.slot in
        let (r, s') = sink_pruned canonical entry walked s in (r, uc', s')

    unfoldable pub on_pruned_block :
        UnfinalizedChain z → BlockRef → Bool → S → ChainResult (Unit {0}) × UnfinalizedChain z × S
    unfolding prune_entry
    on_pruned_block uc ref canonical s =
        prune_entry uc ref canonical (Map.get uc.entries (new_block_slot_key ref.root ref.slot)) s
