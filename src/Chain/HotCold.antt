-- ===== src/Chain/HotCold.antt =====
-- HotColdChain, FullChainIter and ChainsMap of chain/chain.go. The embedded chains are interfaces of
-- the source; here they are the two implementations of the repository.
pub mod Facts
pub mod Chains
use rumor.Base.{
  ℕ, Bool, true, false, Option, none, some, Result, ok, err, panic, ltb, if◌then◌else◌,
}
use rumor.Base.Exec.{Exec}
use rumor.Chain.Zrnt.{
  Zrnt, Root, BlockRef, ChainError, ChainResult, neither, cannot_iter_hot, cannot_iter_cold,
}
use rumor.Chain.Entry.{HotEntry}
use rumor.Chain.Cold
use rumor.Chain.Cold.{FinalizedChain, FinalizedEntryView, on_finalized_entry, ColdChainIter}
use rumor.Chain.Hot
use rumor.Chain.Hot.{UnfinalizedChain}
use rumor.Chain.Hot.Prune.{on_pruned_block}
use rumor.Chain.Hot.Iter.{HotChainIter, hot_iter, iter_end, iter_entry}

module _ (z : Zrnt) where
  pub record HotColdChain : Type 0 where
    pub hot : UnfinalizedChain z
    pub cold : FinalizedChain

  -- A ChainEntry is a *HotEntry or a *FinalizedEntryView.
  pub data ChainEntry : Type 0 where
    of_hot : HotEntry z → ChainEntry
    of_cold : FinalizedEntryView → ChainEntry

  pub record FullChainIter : Type 0 where
    pub hot_part : HotChainIter z
    pub cold_part : ColdChainIter

module _ {z : Zrnt} where
  -- The hot answer, or else the cold one, or else both errors.
  unfoldable pub hot_or_cold :
      ChainResult (HotEntry z) → ChainResult FinalizedEntryView → ChainResult (ChainEntry z)
  hot_or_cold (ok e) cold = ok (of_hot e)
  hot_or_cold panic cold = panic
  hot_or_cold (err h) (ok v) = ok (of_cold v)
  hot_or_cold (err h) (err c) = err (neither h c)
  hot_or_cold (err h) panic = panic

  unfoldable pub by_state_root : HotColdChain z → Root → ChainResult (ChainEntry z)
  unfolding hot_or_cold
  by_state_root hc root =
      hot_or_cold (Hot.by_state_root hc.hot root) (Cold.by_state_root hc.cold root)

  unfoldable pub by_block_root : HotColdChain z → Root → ChainResult (ChainEntry z)
  unfolding hot_or_cold
  by_block_root hc root =
      hot_or_cold (Hot.by_block_root hc.hot root) (Cold.by_block_root hc.cold root)

  unfoldable pub closest_from : HotColdChain z → Root → ℕ → ChainResult (ChainEntry z)
  unfolding hot_or_cold
  closest_from hc root slot =
      hot_or_cold (Hot.closest_from hc.hot root slot) (Cold.closest_from hc.cold root slot)

  unfoldable pub by_slot : HotColdChain z → ℕ → ChainResult (ChainEntry z)
  unfolding hot_or_cold
  by_slot hc slot = hot_or_cold (Hot.by_slot hc.hot slot) (Cold.by_slot hc.cold slot)

  full_iter_of :
      FinalizedChain
      → ChainResult (Option (HotChainIter z))
      → ChainResult (Option (FullChainIter z))
  full_iter_of cold (ok none) = ok none
  full_iter_of cold (ok (some it)) =
      ok (some (record { hot_part = it; cold_part = Cold.cold_iter cold }))
  full_iter_of cold (err e) = err (cannot_iter_hot e)
  full_iter_of cold panic = panic

  -- The cold part never fails. `none` inside says that the fuel of the hot part ran out.
  unfoldable pub full_iter :
      ℕ → HotColdChain z → ChainResult (Option (FullChainIter z)) × HotColdChain z
  unfolding full_iter_of
  full_iter fuel hc =
      let (hot_it, hot') = hot_iter fuel hc.hot in
      (full_iter_of hc.cold hot_it, record hc { hot = hot' })

  unfoldable pub full_start : FullChainIter z → ℕ
  full_start fi = fi.cold_part.start_slot

  unfoldable pub full_end : FullChainIter z → ℕ
  full_end fi = iter_end fi.hot_part

  as_hot : ChainResult (HotEntry z) → ChainResult (ChainEntry z)
  as_hot (ok e) = ok (of_hot e)
  as_hot (err x) = err x
  as_hot panic = panic

  as_cold : ChainResult FinalizedEntryView → ChainResult (ChainEntry z)
  as_cold (ok v) = ok (of_cold v)
  as_cold (err x) = err x
  as_cold panic = panic

  unfoldable pub full_entry : FinalizedChain → FullChainIter z → ℕ → ChainResult (ChainEntry z)
  unfolding as_hot as_cold
  full_entry cold fi slot =
      if ltb slot fi.cold_part.end_slot
      then as_cold (Cold.cold_iter_entry cold fi.cold_part slot)
      else as_hot (iter_entry fi.hot_part slot)

  -- The sink that ChainsMap.Create gives to the hot chain.
  unfoldable pub finalizing_sink : HotEntry z → Bool → Exec ChainError FinalizedChain (Unit {0})
  finalizing_sink entry true cold = on_finalized_entry cold entry
  finalizing_sink entry false cold = (ok tt, cold)

  -- The fork choice's callback on the whole chain.
  unfoldable pub prune : HotColdChain z → BlockRef → Bool → ChainResult (Unit {0}) × HotColdChain z
  unfolding finalizing_sink
  prune hc ref canonical =
      let (r, hot', cold') = on_pruned_block finalizing_sink hc.hot ref canonical hc.cold in
      (r, record { hot = hot'; cold = cold' })
