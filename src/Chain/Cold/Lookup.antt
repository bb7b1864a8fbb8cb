-- ===== src/Chain/Cold/Lookup.antt =====
-- What the lookups of chain/cold.go answer on a consistent chain.
use rumor.Base.{
  ℕ, ◌+◌, ◌-◌, ◌≤◌, ◌<◌, ◌≡◌, length, get_elem?, some, arith, get_elem?-of_lt, lt-of_get_elem?, ok,
  err, bytes_eq, ◌↔◌, ◌≢◌, Bool-cases, Option-cases, inl, inr, ltb, leb, le→ltb, min,
}
use rumor.Base.Map
use rumor.Chain.Zrnt.{Root, zero_root, unknown_root}
use rumor.Chain.Cold.{
  FinalizedChain, FinalizedEntryView, by_slot, by_state_root, by_block_root, closest_from,
  parent_root, block_root, state_root,
}
use rumor.Chain.Cold.Invariant.{IsConsistent, end_lem}

abbrev pub view_at : ℕ → FinalizedEntryView
view_at slot = record { slot = slot }

module _ (f : FinalizedChain) (c : IsConsistent f) where
  -- BySlot succeeds exactly on the slots from the anchor up to the last entry.
  pub by_slot_iff :
      (slot : ℕ)
      → (by_slot f slot ≡ ok (view_at slot))
        ↔ ((f.anchor_slot ≤ slot) × (slot < f.anchor_slot + length f.state_roots))
  unfolding by_slot
  by_slot_iff slot = ground (arith, end_lem f c)

  by_slot_ok :
      (slot : ℕ)
      → f.anchor_slot ≤ slot
      → slot < f.anchor_slot + length f.state_roots
      → by_slot f slot ≡ ok (view_at slot)
  by_slot_ok slot h k = (by_slot_iff slot).1 (h, k)

  block_root_reads :
      (slot : ℕ)
      → slot < f.anchor_slot + length f.block_roots
      → (b : Root) × (block_root f slot ≡ ok b)
  unfolding block_root
  block_root_reads slot h = elim (Bool-cases (ltb slot f.anchor_slot)) [
    | inl early ↦ (zero_root, rw early)
    | inr late ↦
        let (b, e) = get_elem?-of_lt f.block_roots (slot - f.anchor_slot) (ground arith) in
        (b, rw (late, e))
  ]

  state_root_reads :
      (slot : ℕ)
      → slot < f.anchor_slot + length f.state_roots
      → (b : Root) × (state_root f slot ≡ ok b)
  unfolding state_root
  state_root_reads slot h = elim (Bool-cases (ltb slot f.anchor_slot)) [
    | inl early ↦ (zero_root, rw early)
    | inr late ↦
        let (b, e) = get_elem?-of_lt f.state_roots (slot - f.anchor_slot) (ground arith) in
        (b, rw (late, e))
  ]

  parent_root_reads :
      (slot : ℕ)
      → slot < f.anchor_slot + length f.block_roots
      → (b : Root) × (parent_root f slot ≡ ok b)
  unfolding parent_root
  parent_root_reads slot h = elim (Bool-cases (leb slot f.anchor_slot)) [
    | inl early ↦ (zero_root, rw early)
    | inr late ↦
        let (b, e) = get_elem?-of_lt f.block_roots (slot - 1 - f.anchor_slot) (ground arith) in
        (b, rw (late, e))
  ]

  -- On every slot that BySlot accepts, no method of the view panics.
  pub view_reads :
      (slot : ℕ)
      → by_slot f slot ≡ ok (view_at slot)
      → ((b : Root) × (block_root f slot ≡ ok b))
        × ((s : Root) × (state_root f slot ≡ ok s))
        × ((p : Root) × (parent_root f slot ≡ ok p))
  view_reads slot h =
      let inside : slot < f.anchor_slot + length f.state_roots = ((by_slot_iff slot).0 h).1 in
      (
        block_root_reads slot (omega (arith, c.same_length)),
        state_root_reads slot inside,
        parent_root_reads slot (omega (arith, c.same_length)),
      )

  -- ByStateRoot finds every state root of the chain: it answers with a slot not before the one
  -- where the root stands, and this slot has the root.
  pub by_state_root_found :
      (i : ℕ) (r : Root)
      → get_elem? f.state_roots i ≡ some r
      → (s : ℕ) × (by_state_root f r ≡ ok (view_at s))
        × (f.anchor_slot + i ≤ s)
        × (state_root f s ≡ ok r)
  unfolding by_state_root state_root
  by_state_root_found i r h =
      let (s, known, late) = c.state_known i r h in
      let place : get_elem? f.state_roots (s - f.anchor_slot) ≡ some r =
        c.by_state.finds r s known in
      let low : f.anchor_slot ≤ s = c.by_state.from_anchor r s known in
      let inside : s < f.anchor_slot + length f.state_roots =
        omega (arith, lt-of_get_elem? f.state_roots (s - f.anchor_slot) place) in
      (s, rw known (by_slot_ok s low inside), late, rw (le→ltb s f.anchor_slot low, place))

  -- What ByStateRoot answers has the state root that was asked for.
  pub by_state_root_sound :
      (r : Root) (v : FinalizedEntryView) → by_state_root f r ≡ ok v → state_root f v.slot ≡ ok r
  unfolding by_state_root state_root by_slot
  by_state_root_sound r v h = grind (arith, c.by_state.finds, c.by_state.from_anchor)

  -- What ByBlockRoot answers has the block root that was asked for.
  pub by_block_root_sound :
      (r : Root) (v : FinalizedEntryView) → by_block_root f r ≡ ok v → block_root f v.slot ≡ ok r
  unfolding by_block_root block_root by_slot
  by_block_root_sound r v h = grind (arith, c.by_block.finds, c.by_block.from_anchor)

  -- ClosestFrom, when it answers, answers with the wanted slot, or with the last one of the chain.
  pub closest_from_clips :
      (r : Root) (to_slot : ℕ) (v : FinalizedEntryView)
      → closest_from f r to_slot ≡ ok v
      → (v.slot ≡ min to_slot (f.anchor_slot + length f.state_roots - 1))
        × (f.anchor_slot ≤ v.slot)
        × (v.slot < f.anchor_slot + length f.state_roots)
  unfolding closest_from
  closest_from_clips r to_slot v h = ground (arith, end_lem f c)

  -- ClosestFrom does not know a block of the chain whose root is not also a state root.
  pub closest_from-block_root :
      (r : Root) (to_slot : ℕ) (v : FinalizedEntryView)
      → by_block_root f r ≡ ok v
      → ((i : ℕ) → get_elem? f.state_roots i ≢ some r)
      → f.anchor_slot ≤ to_slot
      → closest_from f r to_slot ≡ err unknown_root
  unfolding closest_from
  closest_from-block_root r to_slot v h new k =
      elim (Option-cases (Map.get f.slots_by_state_root r)) [
        | inl unknown ↦ rw (unknown, le→ltb to_slot f.anchor_slot k)
        | inr (s, known) ↦ absurd (new (s - f.anchor_slot) (c.by_state.finds r s known))
      ]
