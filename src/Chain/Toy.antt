-- ===== src/Chain/Toy.antt =====
-- A small instance of the zrnt parameter, and chains over it, for the tests of package chain: states
-- and contexts are numbers, a block is its slot, its parent and its root, and the fork choice is a
-- list of known blocks, the head first.
use rumor.Base.{
  ℕ, Option, none, some, List, [], ◌∷◌, ok, err, panic, replicate, ◌==◌, bytes_eq, if◌then◌else◌,
}
use rumor.Base.Map
use rumor.Chain.Zrnt.{Zrnt, Root, zero_root, BlockRef, Checkpoint, ChainResult, external}
use rumor.Chain.Key.{new_block_slot_key}
use rumor.Chain.Entry.{HotEntry}
use rumor.Chain.Hot.{UnfinalizedChain}

abbrev pub root : ℕ → Root
root n = n ∷ replicate 31 0

abbrev pub ref_at : ℕ → Root → BlockRef
ref_at slot r = record { slot = slot; root = r }

abbrev pub genesis_checkpoint : Checkpoint
genesis_checkpoint = record { epoch = 0; root = zero_root }

abbrev known_block : List BlockRef → Root → Option BlockRef
known_block [] r = none
known_block (b ∷ bs) r = if b.root == r then some b else known_block bs r

abbrev around : Option BlockRef → ChainResult (BlockRef × BlockRef × BlockRef)
around none = err (external 1)
around (some b) = ok (b, ref_at 0 zero_root, ref_at 0 zero_root)

abbrev head_of : List BlockRef → ChainResult BlockRef
head_of [] = err (external 2)
head_of (b ∷ bs) = ok b

abbrev cloned : Option ℕ → ChainResult ℕ
cloned none = panic
cloned (some e) = ok e

abbrev pub toy : Zrnt
toy = record {
  State = ℕ;
  Epc = ℕ;
  SignedBlock = ℕ × Root × Root;
  Attestation = Root;
  ForkChoice = List BlockRef;
  hash_tree_root = λ s. root s;
  copy_state = λ s. ok s;
  clone_epc = cloned;
  block_slot = λ b. b.0;
  block_parent = λ b. b.1;
  block_root = λ b. b.2;
  process_slot = λ s. ok s;
  process_epoch = λ e s. ok (e, s);
  slot_to_epoch = λ s. 0;
  state_transition = λ e s b. ok (e, b.0);
  set_slot = λ s slot. ok slot;
  rotate_epochs = λ e s. ok e;
  empty_epc = 0;
  load_shuffling = λ e s. ok e;
  load_proposers = λ e s. ok e;
  finalized_checkpoint = λ s. ok genesis_checkpoint;
  justified_checkpoint = λ s. ok genesis_checkpoint;
  att_slot = λ a. 0;
  att_index = λ a. 0;
  att_block_root = λ a. a;
  att_target_epoch = λ a. 0;
  get_beacon_committee = λ e slot index. ok (4 ∷ 5 ∷ []);
  convert_to_indexed = λ a committee. ok committee;
  new_fork_choice = λ f j. [];
  find_head = λ fc. (head_of fc, fc);
  get_block = known_block;
  blocks_around_slot = λ fc r slot. around (known_block fc r);
  process_block = λ fc b parent j f. b ∷ fc;
  process_attestation = λ fc i r epoch. fc;
  justified = λ fc. genesis_checkpoint;
  finalized = λ fc. genesis_checkpoint;
}

abbrev pub entry_at : ℕ → Root → Root → HotEntry toy
entry_at slot own parent = record {
  slot = slot;
  block_root = own;
  parent_root = parent;
  epc = some 0;
  state = slot;
}

-- The block `root 1` at slot 2.
abbrev pub anchor : HotEntry toy
anchor = entry_at 2 (root 1) (root 9)

abbrev pub hot_chain : UnfinalizedChain toy
hot_chain = record {
  fork_choice = ref_at 2 (root 1) ∷ [];
  anchor_slot = 0;
  entries = Map.put Map.empty (new_block_slot_key (root 1) 2) anchor;
  state2key = Map.put Map.empty (root 2) (new_block_slot_key (root 1) 2);
}

-- A block at slot 5 on top of it.
abbrev pub block_five : ℕ × Root × Root
block_five = (5, root 1, root 7)
