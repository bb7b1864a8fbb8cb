-- ===== src/Chain/Hot/Process.antt =====
-- AddBlock and AddAttestation of chain/hot.go. Both change the chain in place, so an error comes
-- back together with the chain as it was left.
pub mod Empty
pub mod Block
pub mod Stored
pub mod Votes
use rumor.Base.{
  ℕ, zero, suc, ◌+◌, ◌-◌, Bool, not, List, [], ◌∷◌, Option, none, some, Result, ok, err, ltb,
  if◌then◌else◌, ◌==◌, bytes_eq, nat_beq, add64,
}
use rumor.Base.Map
use rumor.Base.Exec.{Exec, ◌>>=◌, ◌>>◌, pure, lift, query, modify}
use rumor.Chain.Zrnt.{Zrnt, Root, zero_root, ChainError, ChainResult, unknown_parent}
use rumor.Chain.Key.{new_block_slot_key}
use rumor.Chain.Entry.{HotEntry, epochs_context, state_copy}
use rumor.Chain.Hot.Advance.{advance_slot}
use rumor.Chain.Hot.{UnfinalizedChain, closest_from, by_block_root}

module _ (z : Zrnt) where
  abbrev pub ChainExec : Type 0 → Type 0
  ChainExec A = Exec ChainError (UnfinalizedChain z) A

  -- The entry of an empty slot, as the source fills it in: with the slot and the root of the block.
  unfoldable pub empty_entry : z.SignedBlock → z.State → HotEntry z
  empty_entry block state = record {
    slot = z.block_slot block;
    block_root = z.block_root block;
    parent_root = zero_root;
    epc = none;
    state = state;
  }

  unfoldable pub put_empty : z.SignedBlock → ℕ → z.State → UnfinalizedChain z → UnfinalizedChain z
  unfolding empty_entry
  put_empty block slot state uc = record uc {
    entries =
        Map.put uc.entries (new_block_slot_key (z.block_parent block) slot)
          (empty_entry block state);
  }

  -- `for slot := pre.Slot() + 1; slot < block.Slot;` with `rounds` slots to go.
  unfoldable pub fill_empty :
      z.SignedBlock → (rounds : ℕ) → ℕ → z.Epc → z.State → ChainExec (z.Epc × z.State)
  unfolding put_empty
  fill_empty block zero slot epc state = pure (epc, state)
  fill_empty block (suc rounds) slot epc pre = do
    (epc', state) ← lift (advance_slot z slot epc pre)
    modify (put_empty block (slot + 1) state)
    next ← lift (z.copy_state state)
    next_epc ← lift (z.clone_epc (some epc'))
    fill_empty block rounds (slot + 1) next_epc next

  unfoldable pub block_entry : z.SignedBlock → z.State → HotEntry z
  block_entry block state = record {
    slot = z.block_slot block;
    block_root = z.block_root block;
    parent_root = z.block_parent block;
    epc = none;
    state = state;
  }

  -- The new entry, ProcessBlock, and the anchor slot.
  unfoldable pub insert_block :
      z.SignedBlock → z.State → ℕ → ℕ → UnfinalizedChain z → UnfinalizedChain z
  unfolding block_entry
  insert_block block state justified_epoch finalized_epoch uc = record uc {
    entries =
        Map.put uc.entries (new_block_slot_key (z.block_root block) (z.block_slot block))
          (block_entry block state);
    fork_choice =
        z.process_block uc.fork_choice
          (record { slot = z.block_slot block; root = z.block_root block }) (z.block_parent block)
          justified_epoch finalized_epoch;
    anchor_slot =
        if ltb (z.block_slot block) uc.anchor_slot then z.block_slot block else uc.anchor_slot;
  }

  unfoldable pub check_parent : Root → Root → ChainResult (Unit {0})
  check_parent parent found =
      if not (found == parent) then err (unknown_parent parent found) else ok tt

  -- StateTransition, the sealing ProcessSlot, the checkpoints and the insertion.
  unfoldable pub transition_and_insert : z.SignedBlock → z.Epc → z.State → ChainExec (Unit {0})
  unfolding insert_block
  transition_and_insert block epc filled = do
    (_, post) ← lift (z.state_transition epc filled block)
    sealed ← lift (z.process_slot post)
    fin ← lift (z.finalized_checkpoint sealed)
    just ← lift (z.justified_checkpoint sealed)
    modify (insert_block block sealed just.epoch fin.epoch)

  -- From the pre-state at the closest entry to the end.
  unfoldable pub build_on : z.SignedBlock → HotEntry z → ChainExec (Unit {0})
  build_on block pre = do
    lift (check_parent (z.block_parent block) pre.block_root)
    epc ← lift (epochs_context pre)
    state ← lift (state_copy pre)
    let first = add64 pre.slot 1
    (epc', filled) ← fill_empty block (z.block_slot block - first) first epc state
    transition_and_insert block epc' filled

  unfoldable pub add_block : z.SignedBlock → ChainExec (Unit {0})
  add_block block = do
    pre ← query (λ uc. closest_from uc (z.block_parent block) (z.block_slot block))
    build_on block pre

  -- `for _, index := range indexedAtt.AttestingIndices`
  unfoldable pub vote_all : List ℕ → Root → ℕ → z.ForkChoice → z.ForkChoice
  vote_all [] root epoch fc = fc
  vote_all (i ∷ is) root epoch fc = vote_all is root epoch (z.process_attestation fc i root epoch)

  unfoldable pub cast_votes : z.Attestation → List ℕ → UnfinalizedChain z → UnfinalizedChain z
  unfolding vote_all
  cast_votes att indices uc = record uc {
    fork_choice = vote_all indices (z.att_block_root att) (z.att_target_epoch att) uc.fork_choice;
  }

  unfoldable pub add_attestation : z.Attestation → ChainExec (Unit {0})
  unfolding epochs_context cast_votes
  add_attestation att = do
    entry ← query (λ uc. by_block_root uc (z.att_block_root att))
    epc ← lift (epochs_context entry)
    committee ← lift (z.get_beacon_committee epc (z.att_slot att) (z.att_index att))
    indices ← lift (z.convert_to_indexed att committee)
    modify (cast_votes att indices)
