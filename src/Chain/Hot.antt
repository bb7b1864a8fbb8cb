-- ===== src/Chain/Hot.antt =====
-- chain/hot.go: the unfinalized chain, a map of entries by block and slot beside zrnt's fork choice.
-- The lookups stand here; pruning, AddBlock and AddAttestation, and the iterator in the modules
-- below. A lookup of the hot chain only ever answers with a *HotEntry, and is given that type.
pub mod Advance
pub mod Prune
pub mod Process
pub mod Iter
pub mod Lookup
use rumor.Base.{
  ℕ, zero, suc, Bool, not, Option, none, some, ok, err, ◌>>=◌, leb, if◌then◌else◌, ◌==◌, bytes_eq,
  nat_beq,
}
use rumor.Base.Map
use rumor.Base.Map.{Map}
use rumor.Chain.Zrnt.{
  Zrnt, Root, zero_root, BlockRef, Checkpoint, ChainResult, unknown_state, unknown_block,
  unknown_block_slot, no_closest, no_hot_entry,
}
use rumor.Chain.Key.{BlockSlotKey, new_block_slot_key, key_root, key_slot}
use rumor.Chain.Entry.{HotEntry, entry_state_root}

module _ (z : Zrnt) where
  -- The sink and the spec of the source are arguments of the operations that use them.
  pub record UnfinalizedChain : Type 0 where
    pub fork_choice : z.ForkChoice
    pub anchor_slot : ℕ
    pub entries : Map BlockSlotKey (HotEntry z)
    pub state2key : Map Root BlockSlotKey

module _ {z : Zrnt} where
  -- The anchor slot is left at its zero value.
  unfoldable pub new_unfinalized_chain : HotEntry z → ChainResult (UnfinalizedChain z)
  new_unfinalized_chain block = do
    fin ← z.finalized_checkpoint block.state
    just ← z.justified_checkpoint block.state
    let key = new_block_slot_key block.block_root block.slot
    ok (record {
      fork_choice = z.new_fork_choice fin just;
      anchor_slot = 0;
      entries = Map.put Map.empty key block;
      state2key = Map.put Map.empty (entry_state_root block) key;
    })

  unfoldable pub by_block_slot : UnfinalizedChain z → BlockSlotKey → ChainResult (HotEntry z)
  by_block_slot uc key = elim (Map.get uc.entries key) [
    | none ↦ err (unknown_block_slot (key_root key) (key_slot key))
    | some entry ↦ ok entry
  ]

  unfoldable pub by_state_root : UnfinalizedChain z → Root → ChainResult (HotEntry z)
  unfolding by_block_slot
  by_state_root uc root = elim (Map.get uc.state2key root) [
    | none ↦ err (unknown_state root)
    | some key ↦ by_block_slot uc key
  ]

  unfoldable pub by_block_root : UnfinalizedChain z → Root → ChainResult (HotEntry z)
  unfolding by_block_slot
  by_block_root uc root = elim (z.get_block uc.fork_choice root) [
    | none ↦ err (unknown_block root)
    | some ref ↦ by_block_slot uc (new_block_slot_key root ref.slot)
  ]

  -- `for slot := toSlot; slot >= before.Slot && slot != 0; slot--`
  unfoldable pub scan_down : Map BlockSlotKey (HotEntry z) → BlockRef → ℕ → Option (HotEntry z)
  scan_down entries before zero = none
  scan_down entries before (suc n) =
      let rest = scan_down entries before n in
      let here = Map.get entries (new_block_slot_key before.root (suc n)) in
      if leb before.slot (suc n) then elim here [ none ↦ rest | some e ↦ some e ] else none

  found_by_scan : Root → ℕ → Option (HotEntry z) → ChainResult (HotEntry z)
  found_by_scan root slot none = err (no_closest root slot)
  found_by_scan root slot (some e) = ok e

  unfoldable pub closest_from : UnfinalizedChain z → Root → ℕ → ChainResult (HotEntry z)
  unfolding by_block_slot found_by_scan
  closest_from uc from_block_root to_slot = do
    (before, at, _) ← z.blocks_around_slot uc.fork_choice from_block_root to_slot
    if not (at.root == zero_root)
        then by_block_slot uc (new_block_slot_key at.root at.slot)
        else found_by_scan from_block_root to_slot (scan_down uc.entries before to_slot)

  unfoldable pub justified : UnfinalizedChain z → Checkpoint
  justified uc = z.justified uc.fork_choice

  unfoldable pub finalized : UnfinalizedChain z → Checkpoint
  finalized uc = z.finalized uc.fork_choice

  unfoldable pub by_slot : UnfinalizedChain z → ℕ → ChainResult (HotEntry z)
  unfolding by_block_slot justified
  by_slot uc slot = do
    (_, at, _) ← z.blocks_around_slot uc.fork_choice (justified uc).root slot
    if nat_beq at.slot slot
        then by_block_slot uc (new_block_slot_key at.root at.slot)
        else err (no_hot_entry slot)

  -- FindHead may update the fork choice.
  unfoldable pub head : UnfinalizedChain z → ChainResult (HotEntry z) × UnfinalizedChain z
  unfolding by_block_root
  head uc =
      let (found, fc) = z.find_head uc.fork_choice in
      let uc' : UnfinalizedChain z = record uc { fork_choice = fc } in
      (found >>= (λ ref. by_block_root uc' ref.root), uc')
