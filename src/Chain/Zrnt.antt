-- ===== src/Chain/Zrnt.antt =====
-- What package chain takes from the module zrnt (eth2/beacon, eth2/forkchoice), which is not part
-- of the repository: a record of types and functions, the parameter of the chain modules. A method
-- that changes its receiver or an argument returns the new value. No laws are assumed here.
use rumor.Base.{ℕ, List, Option, Result, replicate}

-- `beacon.Root`, a [32]byte, as its bytes.
abbrev pub Root : Type 0
Root = List ℕ

-- `Root{}`
abbrev pub zero_root : Root
zero_root = replicate 32 0

-- The errors that package chain builds or passes on; `external` is an error of zrnt.
pub data ChainError : Type 0 where
  unknown_root todo_state no_chain_data chain_existed : ChainError
  too_early too_late unexpected_slot : ℕ → ℕ → ChainError
  out_of_range : ℕ → ℕ → ℕ → ChainError
  unknown_state unknown_block : Root → ChainError
  unknown_block_slot no_closest : Root → ℕ → ChainError
  unknown_parent : Root → Root → ChainError
  no_hot_entry : ℕ → ChainError
  neither : ChainError → ChainError → ChainError
  cannot_iter_hot cannot_iter_cold : ChainError → ChainError
  external : ℕ → ChainError

abbrev pub ChainResult {ℓ} : Type ℓ → Type ℓ
ChainResult A = Result ChainError A

pub record Checkpoint : Type 0 where
  pub epoch : ℕ
  pub root : Root

pub record BlockRef : Type 0 where
  pub slot : ℕ
  pub root : Root

pub record Zrnt : Type 1 where
  -- beacon.BeaconStateView, beacon.EpochsContext, beacon.SignedBeaconBlock, beacon.Attestation
  pub State : Type 0
  pub Epc : Type 0
  pub SignedBlock : Type 0
  pub Attestation : Type 0
  -- forkchoice.ForkChoice
  pub ForkChoice : Type 0
  -- State.HashTreeRoot; AsBeaconStateView(State.Copy())
  pub hash_tree_root : State → Root
  pub copy_state : State → ChainResult State
  -- epc.Clone(), whose receiver may be nil
  pub clone_epc : Option Epc → ChainResult Epc
  -- Message.Slot, Message.ParentRoot, Message.HashTreeRoot
  pub block_slot : SignedBlock → ℕ
  pub block_parent : SignedBlock → Root
  pub block_root : SignedBlock → Root
  -- Spec.ProcessSlot, Spec.ProcessEpoch, Spec.SlotToEpoch, Spec.StateTransition
  pub process_slot : State → ChainResult State
  pub process_epoch : Epc → State → ChainResult (Epc × State)
  pub slot_to_epoch : ℕ → ℕ
  pub state_transition : Epc → State → SignedBlock → ChainResult (Epc × State)
  -- State.SetSlot, EpochsContext.RotateEpochs, LoadShuffling, LoadProposers
  pub set_slot : State → ℕ → ChainResult State
  pub rotate_epochs : Epc → State → ChainResult Epc
  pub empty_epc : Epc
  pub load_shuffling : Epc → State → ChainResult Epc
  pub load_proposers : Epc → State → ChainResult Epc
  -- FinalizedCheckpoint and CurrentJustifiedCheckpoint, read out
  pub finalized_checkpoint : State → ChainResult Checkpoint
  pub justified_checkpoint : State → ChainResult Checkpoint
  -- att.Data, epc.GetBeaconCommittee, att.ConvertToIndexed
  pub att_slot : Attestation → ℕ
  pub att_index : Attestation → ℕ
  pub att_block_root : Attestation → Root
  pub att_target_epoch : Attestation → ℕ
  pub get_beacon_committee : Epc → ℕ → ℕ → ChainResult (List ℕ)
  pub convert_to_indexed : Attestation → List ℕ → ChainResult (List ℕ)
  -- NewForkChoice and the methods of ForkChoice
  pub new_fork_choice : Checkpoint → Checkpoint → ForkChoice
  pub find_head : ForkChoice → ChainResult BlockRef × ForkChoice
  pub get_block : ForkChoice → Root → Option BlockRef
  pub blocks_around_slot : ForkChoice → Root → ℕ → ChainResult (BlockRef × BlockRef × BlockRef)
  pub process_block : ForkChoice → BlockRef → Root → ℕ → ℕ → ForkChoice
  pub process_attestation : ForkChoice → ℕ → Root → ℕ → ForkChoice
  pub justified : ForkChoice → Checkpoint
  pub finalized : ForkChoice → Checkpoint
