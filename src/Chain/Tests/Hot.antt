-- ===== src/Chain/Tests/Hot.antt =====
-- The theorems about the hot chain at concrete inputs: one block at slot 2, and a block at slot 5
-- that is added on top of it.
use rumor.Base.{
  Bool-cases, inl, inr, ap, ℕ, ◌≤◌, ◌<◌, ◌≡◌, ◌⊎◌, refl, List, [], ◌∷◌, Bool, none, some, ok, err,
  panic, true, false, arith, ◌==◌, bytes_eq, if◌then◌else◌,
}
use rumor.Base.Compare.{bytes_beq, bytes_beq_iff}
use rumor.Base.Map
use rumor.Base.Exec.{Exec, ◌>>=◌}
use rumor.Base.Exec.Post.{Outcome}
use rumor.Chain.Zrnt.{Root, zero_root, ChainError, unknown_state, no_closest}
use rumor.Chain.Key.{new_block_slot_key}
use rumor.Chain.Entry.{HotEntry, entry_state_root, epochs_context, state_copy}
use rumor.Chain.Toy.{toy, root, ref_at, entry_at, anchor, hot_chain, block_five}
use rumor.Chain.Hot.{UnfinalizedChain, closest_from, by_state_root, by_block_root, scan_down}
use rumor.Chain.Hot.Lookup.{IsHighest, closest_from_scans}
use rumor.Chain.Hot.Advance.{advance_slot}
use rumor.Chain.Hot.Process.{
  add_block, build_on, fill_empty, check_parent, transition_and_insert, add_attestation,
}
use rumor.Chain.Hot.Process.Block.{AddedOn, LeftBy, add_block-Outcome}
use rumor.Chain.Hot.Process.Stored.{add_block-stored, by_state_root-add_block}
use rumor.Chain.Hot.Process.Votes.{VotedOn, add_attestation-Outcome}
use rumor.Chain.Hot.Prune.{drop_block, on_pruned_block}
use rumor.Chain.Hot.Prune.Facts.{
  Found, on_pruned_block-canonical, on_pruned_block-abandoned, on_pruned_block-entries,
}
use rumor.Chain.Hot.Iter.{HotChainIter, iter_start, iter_entry, ancestors}
use rumor.Chain.Hot.Iter.Facts.{IsLinked, iter_entry_panics, ancestors_total}

added_five : (add_block toy block_five hot_chain).0 ≡ ok tt
unfolding add_block build_on fill_empty check_parent transition_and_insert advance_slot closest_from
    scan_down epochs_context state_copy new_block_slot_key Map.get Map.put Map.empty bytes_beq ◌>>=◌
added_five = refl

-- The anchor's key, as its reference.
the_anchor : Map.get hot_chain.entries (new_block_slot_key (root 1) 2) ≡ some anchor
unfolding Map.get Map.put Map.empty bytes_beq new_block_slot_key
the_anchor = refl

few_entries : Map.size hot_chain.entries ≡ 1
unfolding Map.size Map.put Map.empty
few_entries = refl

sink : HotEntry toy → Bool → Exec ChainError (List ℕ) (Unit {0})
sink e canonical s = (ok tt, e.slot ∷ s)

anchor-Found : Found sink hot_chain (ref_at 2 (root 1)) anchor
anchor-Found = record {
  stored = the_anchor;
  slot_fits = omega arith;
  parent_array = refl;
  few = omega (arith, few_entries);
}

on_pruned_block-canonical_example :
    on_pruned_block sink hot_chain (ref_at 2 (root 1)) true []
    ≡ (panic, drop_block hot_chain (new_block_slot_key (root 1) 2) anchor, [])
on_pruned_block-canonical_example =
    on_pruned_block-canonical sink hot_chain (ref_at 2 (root 1)) anchor [] anchor-Found

on_pruned_block-abandoned_example : on_pruned_block sink hot_chain (ref_at 2 (root 1)) false [] ≡ (
  (sink anchor true []).0,
  drop_block hot_chain (new_block_slot_key (root 1) 2) anchor,
  (sink anchor true []).1,
)
on_pruned_block-abandoned_example =
    on_pruned_block-abandoned sink hot_chain (ref_at 2 (root 1)) anchor [] anchor-Found

abbrev own_key : List ℕ
own_key = new_block_slot_key (root 1) 2

on_pruned_block-entries_example :
    (Map.get (on_pruned_block sink hot_chain (ref_at 2 (root 1)) true []).1.entries own_key
      ≡ (if own_key == own_key then none else Map.get hot_chain.entries own_key))
    × (Map.get (on_pruned_block sink hot_chain (ref_at 2 (root 1)) true []).1.state2key (root 3) ≡ (
        if entry_state_root anchor == root 3 then none else Map.get hot_chain.state2key (root 3)))
on_pruned_block-entries_example =
    on_pruned_block-entries sink hot_chain (ref_at 2 (root 1)) anchor [] true own_key (root 3)
      the_anchor

abbrev after_five : UnfinalizedChain toy
after_five = (add_block toy block_five hot_chain).1

add_block-Outcome_example :
    Outcome
      (LeftBy toy block_five hot_chain)
      (AddedOn toy block_five hot_chain)
      (add_block toy block_five hot_chain)
add_block-Outcome_example = add_block-Outcome toy block_five hot_chain

add_block-stored_example :
    (entry : HotEntry toy) × (Map.get after_five.entries (new_block_slot_key (root 7) 5)
      ≡ some entry)
    × (entry.slot ≡ 5)
    × (entry.block_root ≡ root 7)
    × (entry.parent_root ≡ root 1)
    × (epochs_context entry ≡ toy.clone_epc none)
add_block-stored_example = add_block-stored toy block_five hot_chain added_five

unknown_five : by_state_root hot_chain (root 5) ≡ err (unknown_state (root 5))
unfolding by_state_root Map.get Map.put Map.empty bytes_beq
unknown_five = refl

by_state_root-add_block_example : by_state_root after_five (root 5) ≡ err (unknown_state (root 5))
by_state_root-add_block_example =
    by_state_root-add_block toy block_five hot_chain (root 5) unknown_five

-- A sibling of the added block, two slots later: the closest entry is that of an empty slot.
abbrev sibling : ℕ × Root × Root
sibling = (7, root 1, root 8)

abbrev last_empty : HotEntry toy
last_empty = record {
  slot = 5;
  block_root = root 7;
  parent_root = zero_root;
  epc = none;
  state = 5;
}

closest_sibling : closest_from after_five (root 1) 7 ≡ ok last_empty
unfolding add_block build_on fill_empty check_parent transition_and_insert advance_slot closest_from
    scan_down epochs_context state_copy new_block_slot_key Map.get Map.put Map.empty bytes_beq ◌>>=◌
closest_sibling = refl

around_five :
    toy.blocks_around_slot hot_chain.fork_choice (root 1) 5
    ≡ ok (ref_at 2 (root 1), ref_at 0 zero_root, ref_at 0 zero_root)
unfolding bytes_beq
around_five = refl

closest_from_scans_example :
    ((e : HotEntry toy) × (closest_from hot_chain (root 1) 5 ≡ ok e)
      × IsHighest hot_chain.entries (ref_at 2 (root 1)) 5 e)
    ⊎ ((closest_from hot_chain (root 1) 5 ≡ err (no_closest (root 1) 5))
        × ((t : ℕ)
            → 0 < t
            → 2 ≤ t
            → t ≤ 5
            → Map.get hot_chain.entries (new_block_slot_key (root 1) t) ≡ none))
closest_from_scans_example =
    closest_from_scans hot_chain (root 1) 5 (ref_at 2 (root 1)) (ref_at 0 zero_root)
      (ref_at 0 zero_root) around_five refl

abbrev two_blocks : HotChainIter toy
two_blocks = record {
  entries = entry_at 5 (root 7) (root 1) ∷ entry_at 4 (root 1) (root 9) ∷ [];
  head_slot = 5;
}

iter_entry_panics_example : iter_entry two_blocks 4 ≡ panic
iter_entry_panics_example =
    iter_entry_panics two_blocks (omega arith) (omega arith) 4 start_four (omega arith)
  where
    start_four : iter_start two_blocks ≤ 4
    start_four = unfold iter_start in omega arith

-- A chain of two blocks, of which the lower one has an unknown parent.
abbrev top : HotEntry toy
top = entry_at 5 (root 7) (root 1)

abbrev two_chain : UnfinalizedChain toy
two_chain = record hot_chain {
  fork_choice = ref_at 5 (root 7) ∷ ref_at 2 (root 1) ∷ [];
  entries = Map.put hot_chain.entries (new_block_slot_key (root 7) 5) top;
}

two_chain-top : by_block_root two_chain (root 7) ≡ ok top
unfolding by_block_root new_block_slot_key Map.get Map.put Map.empty bytes_beq
two_chain-top = refl

two_chain-anchor : by_block_root two_chain (root 1) ≡ ok anchor
unfolding by_block_root new_block_slot_key Map.get Map.put Map.empty bytes_beq
two_chain-anchor = refl

top_known : toy.get_block two_chain.fork_choice (root 7) ≡ some (ref_at 5 (root 7))
unfolding bytes_beq
top_known = refl

anchor_known : toy.get_block two_chain.fork_choice (root 1) ≡ some (ref_at 2 (root 1))
unfolding bytes_beq
anchor_known = refl

no_parent : toy.get_block two_chain.fork_choice (root 9) ≡ none
unfolding bytes_beq
no_parent = refl

two_chain-IsLinked : IsLinked two_chain
two_chain-IsLinked = record {
  falls = λ r ref parent_ref e known found parent_known. elim (Bool-cases (bytes_beq (root 7) r)) [
    | inl t ↦
        let same : root 7 ≡ r = (bytes_beq_iff (root 7) r).0 t in
        let is_top : e ≡ top = cc (two_chain-top, found, same) in
        let is_five : ref ≡ ref_at 5 (root 7) = cc (top_known, known, same) in
        let is_two : parent_ref ≡ ref_at 2 (root 1) = cc (anchor_known, parent_known, is_top) in
        omega (arith, ap (λ b. b.slot) is_five, ap (λ b. b.slot) is_two)
    | inr f ↦ elim (Bool-cases (bytes_beq (root 1) r)) [
      | inl t ↦
          let same : root 1 ≡ r = (bytes_beq_iff (root 1) r).0 t in
          let is_anchor : e ≡ anchor = cc (two_chain-anchor, found, same) in
          absurd (cc (no_parent, parent_known, is_anchor))
      | inr f' ↦ absurd (cc (rw (f, f') at known))
    ]
  ];
}

ancestors_total_example : (l : List (HotEntry toy)) × (ancestors 7 two_chain (root 7) ≡ some l)
ancestors_total_example =
    ancestors_total two_chain two_chain-IsLinked 7 (root 7) (ref_at 5 (root 7)) top_known
      (omega arith)

add_attestation-Outcome_example :
    Outcome
      (λ uc. uc ≡ hot_chain)
      (VotedOn toy (root 1) hot_chain)
      (add_attestation toy (root 1) hot_chain)
add_attestation-Outcome_example = add_attestation-Outcome toy (root 1) hot_chain
