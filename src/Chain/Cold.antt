-- ===== src/Chain/Cold.antt =====
-- chain/cold.go: the finalized chain, two parallel slices of roots from the anchor slot on, with
-- indices from the roots to the slots. The pubkey cache and the spec, handles that are only passed
-- on, are left out; the proofs are in the modules below.
pub mod Invariant
pub mod Lookup
pub mod Replay
use rumor.Base.{
  ℕ, ◌+◌, ◌-◌, Bool, ◌||◌, List, [], ◌∷◌, ◌++◌, length, get_elem?, Option, none, some, Result, ok,
  err, ◌>>=◌, or_panic, ltb, leb, if◌then◌else◌, ◌==◌, bytes_eq, nat_beq, add64,
}
use rumor.Base.Map
use rumor.Base.Map.{Map}
use rumor.Chain.Zrnt.{
  Zrnt, Root, zero_root, ChainError, ChainResult, unknown_root, todo_state, no_chain_data,
  too_early, too_late, out_of_range, unexpected_slot,
}
use rumor.Chain.Entry.{HotEntry, entry_state_root}

pub record FinalizedChain : Type 0 where
  pub anchor_slot : ℕ
  pub block_roots : List Root
  pub state_roots : List Root
  pub slots_by_block_root : Map Root ℕ
  pub slots_by_state_root : Map Root ℕ

-- A view names a slot of the live chain: its methods read the chain as it is when they are called.
pub record FinalizedEntryView : Type 0 where
  pub slot : ℕ

unfoldable pub new_finalized_chain : ℕ → FinalizedChain
new_finalized_chain anchor = record {
  anchor_slot = anchor;
  block_roots = [];
  state_roots = [];
  slots_by_block_root = Map.empty;
  slots_by_state_root = Map.empty;
}

unfoldable pub start : FinalizedChain → ℕ
start f = f.anchor_slot

unfoldable pub end : FinalizedChain → ℕ
end f = add64 f.anchor_slot (length f.state_roots)

unfoldable pub by_slot : FinalizedChain → ℕ → ChainResult FinalizedEntryView
unfolding start end
by_slot f slot =
    if ltb slot (start f)
    then err (too_early slot (start f))
    else if leb (end f) slot
    then err (too_late slot (end f))
    else ok (record { slot = slot })

by_index : Option ℕ → FinalizedChain → ChainResult FinalizedEntryView
unfolding by_slot
by_index none f = err unknown_root
by_index (some slot) f = by_slot f slot

unfoldable pub by_state_root : FinalizedChain → Root → ChainResult FinalizedEntryView
unfolding by_index
by_state_root f root = by_index (Map.get f.slots_by_state_root root) f

unfoldable pub by_block_root : FinalizedChain → Root → ChainResult FinalizedEntryView
unfolding by_index
by_block_root f root = by_index (Map.get f.slots_by_block_root root) f

-- `toSlot` cut to the last slot of the chain.
clip_slot : FinalizedChain → ℕ → ChainResult ℕ
unfolding end
clip_slot f to_slot =
    if nat_beq (end f) 0
    then err no_chain_data
    else if leb (end f) to_slot
    then ok (end f - 1)
    else ok to_slot

-- The root is looked up among the state roots, as the source does.
unfoldable pub closest_from : FinalizedChain → Root → ℕ → ChainResult FinalizedEntryView
unfolding start by_slot clip_slot
closest_from f from_block_root to_slot =
    if ltb to_slot (start f)
    then err (too_early to_slot (start f))
    else elim (Map.get f.slots_by_state_root from_block_root) [
      | none ↦ err unknown_root
      | some _ ↦ clip_slot f to_slot >>= by_slot f
    ]

-- The guards keep the index from wrapping around.
unfoldable pub parent_root : FinalizedChain → ℕ → ChainResult Root
parent_root f slot =
    if leb slot f.anchor_slot
    then ok zero_root
    else or_panic (get_elem? f.block_roots (slot - 1 - f.anchor_slot))

unfoldable pub block_root : FinalizedChain → ℕ → ChainResult Root
block_root f slot =
    if ltb slot f.anchor_slot
    then ok zero_root
    else or_panic (get_elem? f.block_roots (slot - f.anchor_slot))

unfoldable pub state_root : FinalizedChain → ℕ → ChainResult Root
state_root f slot =
    if ltb slot f.anchor_slot
    then ok zero_root
    else or_panic (get_elem? f.state_roots (slot - f.anchor_slot))

-- FinalizedEntryView.IsEmpty
unfoldable pub view_is_empty : FinalizedChain → FinalizedEntryView → ChainResult Bool
unfolding parent_root block_root
view_is_empty f e = do
  parent ← parent_root f e.slot
  block ← block_root f e.slot
  ok (parent == block)

module _ (z : Zrnt) where
  unfoldable pub get_state : FinalizedChain → ℕ → ChainResult z.State
  get_state f slot = err todo_state

  unfoldable pub get_epochs_context : FinalizedChain → ℕ → ChainResult z.Epc
  unfolding get_state
  get_epochs_context f slot = do
    state ← get_state f slot
    epc ← z.load_shuffling z.empty_epc state
    z.load_proposers epc state

module _ {z : Zrnt} where
  -- The chain after an accepted entry.
  unfoldable pub append_entry : FinalizedChain → HotEntry z → FinalizedChain
  unfolding entry_state_root
  append_entry f entry = record f {
    block_roots = f.block_roots ++ entry.block_root ∷ [];
    state_roots = f.state_roots ++ entry_state_root entry ∷ [];
    slots_by_state_root = Map.put f.slots_by_state_root (entry_state_root entry) entry.slot;
    slots_by_block_root =
        if entry.parent_root == entry.block_root
        then f.slots_by_block_root
        else Map.put f.slots_by_block_root entry.block_root entry.slot;
  }

  unfoldable pub on_finalized_entry :
      FinalizedChain → HotEntry z → ChainResult (Unit {0}) × FinalizedChain
  unfolding end append_entry
  on_finalized_entry f entry =
      if nat_beq entry.slot (end f)
      then (ok tt, append_entry f entry)
      else (err (unexpected_slot (end f) entry.slot), f)

-- ColdChainIter
pub record ColdChainIter : Type 0 where
  pub start_slot : ℕ
  pub end_slot : ℕ

unfoldable pub cold_iter : FinalizedChain → ColdChainIter
unfolding start end
cold_iter f = record { start_slot = start f; end_slot = end f }

unfoldable pub cold_iter_entry : FinalizedChain → ColdChainIter → ℕ → ChainResult FinalizedEntryView
unfolding by_slot
cold_iter_entry f fi slot =
    if ltb slot fi.start_slot || leb fi.end_slot slot
    then err (out_of_range slot fi.start_slot fi.end_slot)
    else by_slot f slot
