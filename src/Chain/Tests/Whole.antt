-- ===== src/Chain/Tests/Whole.antt =====
-- The theorems about the hot and the cold chain together, and about the named chains, at concrete
-- inputs.
use rumor.Base.{◌≡◌, refl, [], none, some, ok, err, false, arith, length, get_elem?, bytes_eq}
use rumor.Base.Compare.{bytes_beq}
use rumor.Base.Map
use rumor.Chain.Zrnt.{unknown_state}
use rumor.Chain.Key.{new_block_slot_key}
use rumor.Chain.Entry.{entry_state_root}
use rumor.Chain.Toy.{toy, root, ref_at, entry_at, anchor, hot_chain, block_five}
use rumor.Chain.Cold.{new_finalized_chain, append_entry, on_finalized_entry, end}
use rumor.Chain.Cold.Invariant.{
  IsConsistent, new_finalized_chain-IsConsistent, on_finalized_entry-IsConsistent,
}
use rumor.Chain.Hot
use rumor.Chain.Hot.Prune.{drop_block}
use rumor.Chain.Hot.Prune.Facts.{Found}
use rumor.Chain.HotCold.{HotColdChain, finalizing_sink, prune}
use rumor.Chain.HotCold.Facts.{prune-abandoned_cold, Step, Reach, Reach-IsConsistent}
use rumor.Chain.HotCold.Chains.{ChainsMap, find_chain, new_chain, string_eq}

-- The cold chain begins at the slot of the anchor, as ChainsMap.Create sets it up.
abbrev whole : HotColdChain toy
whole = record { hot = hot_chain; cold = new_finalized_chain 2 }

empty_cold :
    (whole.cold.anchor_slot ≡ 2) × (length whole.cold.state_roots ≡ 0) × (end whole.cold ≡ 2)
unfolding new_finalized_chain end
empty_cold = (refl, refl, refl)

whole-Found : Found finalizing_sink hot_chain (ref_at 2 (root 1)) anchor
unfolding Map.get Map.size Map.put Map.empty bytes_beq new_block_slot_key
whole-Found = record {
  stored = refl;
  slot_fits = omega arith;
  parent_array = refl;
  few = omega arith;
}

prune-abandoned_cold_example : prune whole (ref_at 2 (root 1)) false ≡ (
  ok tt,
  record {
    hot = drop_block hot_chain (new_block_slot_key (root 1) 2) anchor;
    cold = append_entry (new_finalized_chain 2) anchor;
  },
)
prune-abandoned_cold_example =
    prune-abandoned_cold whole (ref_at 2 (root 1)) anchor whole-Found (omega (arith, empty_cold))

cold-IsConsistent : IsConsistent (new_finalized_chain 2)
cold-IsConsistent = new_finalized_chain-IsConsistent 2 (omega arith)

-- A block is added, and another one is pruned as abandoned.
Reach-IsConsistent_example :
    IsConsistent
      (prune
        (record whole { hot = (Hot.Process.add_block toy block_five hot_chain).1 })
        (ref_at 2 (root 1))
        false).1.cold
Reach-IsConsistent_example =
    Reach-IsConsistent {from = whole}
      (Reach.next (Reach.next Reach.here (Step.block whole block_five)) (
        Step.pruned (record whole { hot = (Hot.Process.add_block toy block_five hot_chain).1 })
          (ref_at 2 (root 1)) false (omega (arith, empty_cold))))
      cold-IsConsistent

-- The cold chain with the entry of slot 2.
abbrev fed : HotColdChain toy
fed = record {
  hot = hot_chain;
  cold = (on_finalized_entry (new_finalized_chain 2) (entry_at 2 (root 8) (root 9))).1;
}

fed-IsConsistent : IsConsistent fed.cold
fed-IsConsistent =
    on_finalized_entry-IsConsistent (new_finalized_chain 2) (entry_at 2 (root 8) (root 9))
      cold-IsConsistent (omega (arith, empty_cold))

abbrev unfed : HotColdChain toy
unfed = record fed { hot = record hot_chain { state2key = Map.empty } }

fed_state : get_elem? unfed.cold.state_roots 0 ≡ some (root 2)
unfolding new_finalized_chain on_finalized_entry
fed_state = refl

not_hot : Hot.by_state_root unfed.hot (root 2) ≡ err (unknown_state (root 2))
unfolding Hot.by_state_root Map.get Map.empty
not_hot = refl

abbrev no_chains : ChainsMap toy
no_chains = Map.empty

abbrev made : HotColdChain toy
made = record {
  hot = record {
    fork_choice = [];
    anchor_slot = 0;
    entries = Map.put Map.empty (new_block_slot_key (root 1) 2) anchor;
    state2key = Map.put Map.empty (root 2) (new_block_slot_key (root 1) 2);
  };
  cold = new_finalized_chain 2;
}

new_made : new_chain anchor ≡ ok made
unfolding new_chain Hot.new_unfinalized_chain entry_state_root
new_made = refl

name_free : find_chain no_chains "main" ≡ none
unfolding find_chain Map.get Map.empty
name_free = refl
