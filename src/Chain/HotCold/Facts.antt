-- ===== src/Chain/HotCold/Facts.antt =====
-- What HotColdChain of chain/chain.go does with its two parts.
use rumor.Base.{ℕ, ◌+◌, ◌≤◌, ◌<◌, ◌^◌, ◌≡◌, Bool, true, false, some, ok, err, length, get_elem?}
use rumor.Chain.Zrnt.{Zrnt, Root, BlockRef, ChainError}
use rumor.Chain.Key.{new_block_slot_key}
use rumor.Chain.Entry.{HotEntry}
use rumor.Chain.Cold
use rumor.Chain.Cold.{FinalizedChain, FinalizedEntryView, on_finalized_entry, append_entry, end}
use rumor.Chain.Cold.Invariant.{IsConsistent, on_finalized_entry-IsConsistent}
use rumor.Chain.Cold.Lookup.{view_at, by_state_root_found}
use rumor.Chain.Cold.Replay.{on_finalized_entry_next}
use rumor.Chain.Hot
use rumor.Chain.Hot.{UnfinalizedChain}
use rumor.Chain.Hot.Process.{add_block, add_attestation}
use rumor.Chain.Hot.Prune.{drop_block}
use rumor.Chain.Hot.Prune.Facts.{
  Found, on_pruned_block-abandoned, on_pruned_block-sinks_nothing, on_pruned_block-keeps,
}
use rumor.Chain.HotCold.{HotColdChain, of_cold, by_state_root, finalizing_sink, prune}

module _ {z : Zrnt} (hc : HotColdChain z) where
  -- The finalized chain is never extended by a canonical pruning.
  pub prune-canonical_cold : (ref : BlockRef) → (prune hc ref true).1.cold ≡ hc.cold
  unfolding prune
  prune-canonical_cold ref = on_pruned_block-sinks_nothing finalizing_sink hc.hot ref hc.cold

  -- The finalized chain is extended by the pruning of a block that is not canonical, if this block
  -- has the next slot.
  pub prune-abandoned_cold :
      (ref : BlockRef) (entry : HotEntry z)
      → Found (finalizing_sink {z = z}) hc.hot ref entry
      → entry.slot ≡ end hc.cold
      → prune hc ref false ≡ (
        ok tt,
        record {
          hot = drop_block hc.hot (new_block_slot_key ref.root ref.slot) entry;
          cold = append_entry hc.cold entry;
        },
      )
  unfolding prune finalizing_sink
  prune-abandoned_cold ref entry h next = rw (
    on_pruned_block-abandoned finalizing_sink hc.hot ref entry hc.cold h,
    on_finalized_entry_next hc.cold entry next,
  )

  -- A state root of the finalized chain that the hot chain does not know is found there.
  pub by_state_root-cold :
      (i : ℕ) (r : Root) (x : ChainError)
      → IsConsistent hc.cold
      → get_elem? hc.cold.state_roots i ≡ some r
      → Hot.by_state_root hc.hot r ≡ err x
      → (s : ℕ) × (by_state_root hc r ≡ ok (of_cold (view_at s)))
        × (hc.cold.anchor_slot + i ≤ s)
        × (Cold.state_root hc.cold s ≡ ok r)
  unfolding by_state_root
  by_state_root-cold i r x c h unknown =
      let (s, found, late, reads) = by_state_root_found hc.cold c i r h in
      (s, rw (unknown, found), late, reads)

-- What the program does to a chain, a step at a time: blocks and attestations are added, and the
-- fork choice calls back with blocks to prune.
pub data Step {z : Zrnt} : HotColdChain z → HotColdChain z → Type 0 where
  block :
      (hc : HotColdChain z) (b : z.SignedBlock)
      → Step hc (record hc { hot = (add_block z b hc.hot).1 })
  attestation :
      (hc : HotColdChain z) (a : z.Attestation)
      → Step hc (record hc { hot = (add_attestation z a hc.hot).1 })
  look_head : (hc : HotColdChain z) → Step hc (record hc { hot = (Hot.head hc.hot).1 })
  pruned :
      (hc : HotColdChain z) (ref : BlockRef) (canonical : Bool)
      → hc.cold.anchor_slot + length hc.cold.state_roots + 1 < 2 ^ 64
      → Step hc (prune hc ref canonical).1

pub data Reach {z : Zrnt} (from : HotColdChain z) : HotColdChain z → Type 0 where
  here : Reach from from
  next : {hc hc' : HotColdChain z} → Reach from hc → Step hc hc' → Reach from hc'

module _ {z : Zrnt} where
  Step-IsConsistent :
      {hc hc' : HotColdChain z} → Step hc hc' → IsConsistent hc.cold → IsConsistent hc'.cold
  Step-IsConsistent (block hc b) c = c
  Step-IsConsistent (attestation hc a) c = c
  Step-IsConsistent (look_head hc) c = c
  Step-IsConsistent (pruned hc ref canonical room) c =
      unfold prune finalizing_sink in
      on_pruned_block-keeps finalizing_sink IsConsistent hc.hot ref canonical hc.cold c
        (λ e. on_finalized_entry-IsConsistent hc.cold e c room)

  -- The finalized chain stays consistent through every series of steps, as long as its slots fit in
  -- 64 bits.
  pub Reach-IsConsistent :
      {from hc : HotColdChain z} → Reach from hc → IsConsistent from.cold → IsConsistent hc.cold
  Reach-IsConsistent here c = c
  Reach-IsConsistent (next r st) c = Step-IsConsistent st (Reach-IsConsistent r c)
