-- ===== src/Chain/Hot/Iter/Facts.antt =====
-- What the iterator of chain/hot.go answers, and that the loop that fills it ends.
use rumor.Base.{
  ℕ, zero, suc, ◌+◌, ◌≤◌, ◌<◌, ◌^◌, ◌≡◌, List, [], ◌∷◌, length, get_elem?, none, some, ok, panic,
  arith, get_elem?-of_le, sub64, Option-cases, inl, inr, Result-cases, lt-of_get_elem?,
}
use rumor.Chain.Zrnt.{Zrnt, Root, BlockRef}
use rumor.Chain.Entry.{HotEntry}
use rumor.Chain.Hot.{UnfinalizedChain, by_block_root}
use rumor.Chain.Hot.Iter.{HotChainIter, iter_start, iter_entry, ancestors}

module _ {z : Zrnt} (fi : HotChainIter z) (fits : fi.head_slot < 2 ^ 63)
    (few : length fi.entries ≤ fi.head_slot + 1) where
  -- Every slot below the head that the iterator takes for its own makes Entry panic: the index is
  -- the slot less the head slot, which wraps around.
  pub iter_entry_panics :
      (slot : ℕ) → iter_start fi ≤ slot → slot < fi.head_slot → iter_entry fi slot ≡ panic
  unfolding iter_entry
  iter_entry_panics slot lo hi =
      ground (arith, get_elem?-of_le fi.entries (sub64 slot fi.head_slot))

  -- At the head slot it answers with the first entry.
  pub iter_entry-head :
      (e : HotEntry z) → get_elem? fi.entries 0 ≡ some e → iter_entry fi fi.head_slot ≡ ok e
  unfolding iter_entry
  iter_entry-head e h =
      let at_zero : sub64 fi.head_slot fi.head_slot ≡ 0 = omega arith in
      ground (arith, lt-of_get_elem? fi.entries 0 h, at_zero)

-- The slots that the fork choice knows fall along the parents of the hot chain's entries.
pub record IsLinked {z : Zrnt} (uc : UnfinalizedChain z) : Type 0 where
  pub falls :
      (root : Root) (ref parent_ref : BlockRef) (e : HotEntry z)
      → z.get_block uc.fork_choice root ≡ some ref
      → by_block_root uc root ≡ ok e
      → z.get_block uc.fork_choice e.parent_root ≡ some parent_ref
      → parent_ref.slot < ref.slot

module _ {z : Zrnt} (uc : UnfinalizedChain z) (linked : IsLinked uc) where
  ancestors_unknown :
      (fuel : ℕ) (root : Root)
      → z.get_block uc.fork_choice root ≡ none
      → ancestors (suc fuel) uc root ≡ some []
  unfolding ancestors by_block_root
  ancestors_unknown fuel root h = rw (h, ancestors)

  -- Where the slots that the fork choice knows fall along the parents of the entries, the loop over
  -- the ancestors of a known block ends: as many rounds as the block's slot, and two, are enough.
  pub ancestors_total :
      (fuel : ℕ) (root : Root) (ref : BlockRef)
      → z.get_block uc.fork_choice root ≡ some ref
      → ref.slot + 1 < fuel
      → (l : List (HotEntry z)) × (ancestors fuel uc root ≡ some l)
  unfolding ancestors
  ancestors_total zero root ref h lt = absurd (omega arith)
  ancestors_total (suc zero) root ref h lt = absurd (omega arith)
  ancestors_total (suc (suc fuel)) root ref h lt = elim (Result-cases (by_block_root uc root)) [
    | inl (e, found) ↦ elim (Option-cases (z.get_block uc.fork_choice e.parent_root)) [
      | inl none_left ↦
          (e ∷ [], rw (found, ancestors, ancestors_unknown fuel e.parent_root none_left))
      | inr (parent_ref, known) ↦
          let (l, walked) =
            ancestors_total (suc fuel) e.parent_root parent_ref known
              (omega (arith, linked.falls root ref parent_ref e h found known)) in
          (e ∷ l, rw (found, ancestors, walked))
    ]
    | inr (inl (x, failed)) ↦ ([], rw (failed, ancestors))
    | inr (inr panicked) ↦ ([], rw (panicked, ancestors))
  ]
