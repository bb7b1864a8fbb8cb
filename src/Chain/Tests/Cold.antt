-- ===== src/Chain/Tests/Cold.antt =====
-- The theorems about the finalized chain at concrete inputs: the entries of three slots from 2 on,
-- the third of an empty slot.
use rumor.Base.{
  ℕ, zero, suc, ◌+◌, ◌-◌, ◌≤◌, ◌<◌, ◌≡◌, ◌≢◌, ◌↔◌, refl, List, [], ◌∷◌, map, some, ok, arith,
  length, get_elem?, bytes_eq,
}
use rumor.Base.Compare.{bytes_beq}
use rumor.Base.Map
use rumor.Chain.Entry.{HotEntry, entry_state_root}
use rumor.Chain.Toy.{toy, root, entry_at}
use rumor.Chain.Cold.{
  FinalizedChain, new_finalized_chain, on_finalized_entry, by_slot, by_state_root, by_block_root,
  closest_from, block_root, state_root,
}
use rumor.Chain.Cold.Invariant.{IsConsistent}
use rumor.Chain.Cold.Lookup.{view_at, by_slot_iff, by_state_root_sound}
use rumor.Chain.Cold.Replay.{finalize_all, finalize_all-new}

abbrev three : List (HotEntry toy)
three =
    entry_at 2 (root 11) (root 10)
    ∷ entry_at 3 (root 12) (root 11)
    ∷ entry_at 4 (root 12) (root 12)
    ∷ []

abbrev cold_three : FinalizedChain
cold_three = finalize_all (new_finalized_chain 2) three

finalize_all-new_example :
    (cold_three.block_roots ≡ map (λ e. e.block_root) three)
    × (cold_three.state_roots ≡ map entry_state_root three)
    × IsConsistent cold_three
finalize_all-new_example = finalize_all-new 2 three (omega arith) (omega arith)

cold_three-IsConsistent : IsConsistent cold_three
cold_three-IsConsistent = (finalize_all-new 2 three (omega arith) (omega arith)).2

anchored : (cold_three.anchor_slot ≡ 2) × (length cold_three.state_roots ≡ 3)
unfolding finalize_all on_finalized_entry new_finalized_chain
anchored = (refl, refl)

last_block :
    block_root cold_three (cold_three.anchor_slot + length cold_three.state_roots - 1)
    ≡ ok (root 12)
unfolding finalize_all on_finalized_entry new_finalized_chain block_root
last_block = refl

slot_four : by_slot cold_three 4 ≡ ok (view_at 4)
unfolding by_slot finalize_all on_finalized_entry new_finalized_chain
slot_four = refl

by_slot_iff_example :
    (by_slot cold_three 4 ≡ ok (view_at 4))
    ↔ ((cold_three.anchor_slot ≤ 4) × (4 < cold_three.anchor_slot + length cold_three.state_roots))
by_slot_iff_example = by_slot_iff cold_three cold_three-IsConsistent 4

second_state : get_elem? cold_three.state_roots 1 ≡ some (root 3)
unfolding finalize_all on_finalized_entry new_finalized_chain
second_state = refl

state_three : by_state_root cold_three (root 3) ≡ ok (view_at 3)
unfolding by_state_root finalize_all on_finalized_entry new_finalized_chain Map.get Map.put
    Map.empty bytes_beq
state_three = refl

by_state_root_sound_example : state_root cold_three 3 ≡ ok (root 3)
by_state_root_sound_example =
    by_state_root_sound cold_three cold_three-IsConsistent (root 3) (view_at 3) state_three

block_three : by_block_root cold_three (root 12) ≡ ok (view_at 3)
unfolding by_block_root finalize_all on_finalized_entry new_finalized_chain Map.get Map.put
    Map.empty bytes_beq
block_three = refl

closest_nine : closest_from cold_three (root 3) 9 ≡ ok (view_at 4)
unfolding closest_from finalize_all on_finalized_entry new_finalized_chain Map.get Map.put Map.empty
    bytes_beq
closest_nine = refl

no_state_twelve : (i : ℕ) → get_elem? cold_three.state_roots i ≢ some (root 12)
unfolding finalize_all on_finalized_entry new_finalized_chain
no_state_twelve zero = ground arith
no_state_twelve (suc zero) = ground arith
no_state_twelve (suc (suc zero)) = ground arith
no_state_twelve (suc (suc (suc i))) = ground arith
