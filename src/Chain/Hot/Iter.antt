-- ===== src/Chain/Hot/Iter.antt =====
-- HotChainIter of chain/hot.go, and UnfinalizedChain.Iter, which fills it.
pub mod Facts
use rumor.Base.{
  ℕ, zero, suc, ◌+◌, Bool, ◌||◌, List, [], ◌∷◌, length, get_elem?, Option, none, some, Result, ok,
  err, panic, or_panic, ltb, leb, if◌then◌else◌, add64, sub64, ◌>>=◌,
}
use rumor.Chain.Zrnt.{Zrnt, Root, BlockRef, ChainResult, out_of_range}
use rumor.Chain.Entry.{HotEntry}
use rumor.Chain.Hot.{UnfinalizedChain, by_block_root}

module _ (z : Zrnt) where
  -- Ordered from the head to 0.
  pub record HotChainIter : Type 0 where
    pub entries : List (HotEntry z)
    pub head_slot : ℕ

module _ {z : Zrnt} where
  unfoldable pub iter_start : HotChainIter z → ℕ
  iter_start fi = sub64 (add64 fi.head_slot 1) (length fi.entries)

  unfoldable pub iter_end : HotChainIter z → ℕ
  iter_end fi = add64 fi.head_slot 1

  -- The index is computed as the source does it, in uint64.
  unfoldable pub iter_entry : HotChainIter z → ℕ → ChainResult (HotEntry z)
  unfolding iter_start iter_end
  iter_entry fi slot =
      if ltb slot (iter_start fi) || leb (iter_end fi) slot
      then err (out_of_range slot (iter_start fi) (iter_end fi))
      else or_panic (get_elem? fi.entries (sub64 slot fi.head_slot))

  -- The loop from a block to its ancestors, until a root is unknown; `none` says that the fuel ran
  -- out.
  unfoldable pub ancestors : ℕ → UnfinalizedChain z → Root → Option (List (HotEntry z))
  ancestors zero uc root = none
  ancestors (suc fuel) uc root = elim (by_block_root uc root) [
    | ok e ↦ elim (ancestors fuel uc e.parent_root) [ none ↦ none | some l ↦ some (e ∷ l) ]
    | err _ ↦ some []
    | panic ↦ some []
  ]

  with_head : ℕ → Option (List (HotEntry z)) → Option (HotChainIter z)
  with_head slot none = none
  with_head slot (some l) = some (record { entries = l; head_slot = slot })

  unfoldable pub hot_iter :
      ℕ → UnfinalizedChain z → ChainResult (Option (HotChainIter z)) × UnfinalizedChain z
  unfolding with_head
  hot_iter fuel uc =
      let (found, fc) = z.find_head uc.fork_choice in
      let uc' : UnfinalizedChain z = record uc { fork_choice = fc } in
      (found >>= (λ ref. ok (with_head ref.slot (ancestors fuel uc' ref.root))), uc')
