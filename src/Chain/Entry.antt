-- ===== src/Chain/Entry.antt =====
-- HotEntry of chain/hot.go.
use rumor.Base.{ℕ, Option, Bool, ◌==◌, bytes_eq}
use rumor.Chain.Zrnt.{Zrnt, Root, zero_root, ChainResult}

module _ (z : Zrnt) where
  -- A nil `epc` is `none`.
  pub record HotEntry : Type 0 where
    pub slot : ℕ
    pub block_root : Root
    pub parent_root : Root
    pub epc : Option z.Epc
    pub state : z.State

module _ {z : Zrnt} where
  -- HotEntry.IsEmpty
  unfoldable pub is_empty : HotEntry z → Bool
  is_empty e = e.parent_root == zero_root

  -- HotEntry.StateRoot
  unfoldable pub entry_state_root : HotEntry z → Root
  entry_state_root e = z.hash_tree_root e.state

  -- HotEntry.EpochsContext: a clone of the context
  unfoldable pub epochs_context : HotEntry z → ChainResult z.Epc
  epochs_context e = z.clone_epc e.epc

  -- HotEntry.State: a copy of the state
  unfoldable pub state_copy : HotEntry z → ChainResult z.State
  state_copy e = z.copy_state e.state
