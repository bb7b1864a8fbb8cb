-- ===== src/Chain/Cold/Replay.antt =====
-- The finalized chain of chain/cold.go as a function of the entries that it was handed, in order.
use rumor.Base.{
  ℕ, ◌+◌, ◌-◌, ◌<◌, ◌^◌, ◌≡◌, ◌≢◌, refl, sym, ap, subst, ◌∙◌, List, [], ◌∷◌, ◌++◌, map, length,
  arith, get_elem?-append_lt, get_elem?-append_last, length-append, ok, err, ◌==◌, bytes_eq,
  Bool-cases, inl, inr, nat_beq, nat_beq_iff,
}
use rumor.Chain.Zrnt.{Zrnt, Root, unexpected_slot}
use rumor.Chain.Entry.{HotEntry, entry_state_root}
use rumor.Chain.Cold.{
  FinalizedChain, new_finalized_chain, append_entry, on_finalized_entry, end, parent_root,
  block_root, state_root, view_is_empty,
}
use rumor.Chain.Cold.Invariant.{
  IsConsistent, end_lem, new_finalized_chain-IsConsistent, append_entry-IsConsistent,
}
use mathlib.Core.List.{append_assoc, append-nil}

module _ {z : Zrnt} where
  -- The chain after a series of entries, each handed over in turn.
  unfoldable pub finalize_all : FinalizedChain → List (HotEntry z) → FinalizedChain
  finalize_all f [] = f
  finalize_all f (e ∷ es) = finalize_all (on_finalized_entry f e).1 es

  -- The entries have the slots `from`, `from + 1`, and so on.
  abbrev pub IsRun : ℕ → List (HotEntry z) → Type 0
  IsRun from [] = Unit
  IsRun from (e ∷ es) = (e.slot ≡ from) × IsRun (from + 1) es

  pub on_finalized_entry_next :
      (f : FinalizedChain) (e : HotEntry z)
      → e.slot ≡ end f
      → on_finalized_entry f e ≡ (ok tt, append_entry f e)
  unfolding on_finalized_entry
  on_finalized_entry_next f e h = rw ((nat_beq_iff e.slot (end f)).1 h)

  -- An entry for any other slot than the next one is refused, and the chain stays as it was.
  pub on_finalized_entry_refuses :
      (f : FinalizedChain) (e : HotEntry z)
      → e.slot ≢ end f
      → on_finalized_entry f e ≡ (err (unexpected_slot (end f) e.slot), f)
  unfolding on_finalized_entry
  on_finalized_entry_refuses f e h = elim (Bool-cases (nat_beq e.slot (end f))) [
    | inl t ↦ absurd (h ((nat_beq_iff e.slot (end f)).0 t))
    | inr t ↦ rw t
  ]

  append_entry_fields :
      (f : FinalizedChain) (e : HotEntry z)
      → ((append_entry f e).block_roots ≡ f.block_roots ++ e.block_root ∷ [])
        × ((append_entry f e).state_roots ≡ f.state_roots ++ entry_state_root e ∷ [])
        × ((append_entry f e).anchor_slot ≡ f.anchor_slot)
        × (length (append_entry f e).state_roots ≡ length f.state_roots + 1)
  unfolding append_entry
  append_entry_fields f e =
      (refl, refl, refl, omega (arith, length-append f.state_roots (entry_state_root e ∷ [])))

  finalize_all_cons :
      (f : FinalizedChain) (e : HotEntry z) (es : List (HotEntry z))
      → e.slot ≡ end f
      → finalize_all f (e ∷ es) ≡ finalize_all (append_entry f e) es
  unfolding finalize_all
  finalize_all_cons f e es h = ap (λ p. finalize_all p.1 es) (on_finalized_entry_next f e h)

  finalize_all_appends :
      (f : FinalizedChain) (es : List (HotEntry z))
      → IsConsistent f
      → f.anchor_slot + length f.state_roots + length es < 2 ^ 64
      → IsRun (f.anchor_slot + length f.state_roots) es
      → ((finalize_all f es).block_roots ≡ f.block_roots ++ map (λ e. e.block_root) es)
        × ((finalize_all f es).state_roots ≡ f.state_roots ++ map entry_state_root es)
        × ((finalize_all f es).anchor_slot ≡ f.anchor_slot)
        × IsConsistent (finalize_all f es)
  finalize_all_appends f [] c room run =
      unfold finalize_all in
      (sym (append-nil f.block_roots), sym (append-nil f.state_roots), refl, c)
  finalize_all_appends f (e ∷ es) c room (here, later) =
      let g : FinalizedChain = append_entry f e in
      let (blocks, states, anchor, size) = append_entry_fields f e in
      let start : f.anchor_slot + length f.state_roots + 1 ≡ g.anchor_slot + length g.state_roots =
        omega arith in
      let rest =
        finalize_all_appends g es (append_entry-IsConsistent f e c here (omega arith)) (omega arith)
          (subst (λ n. IsRun n es) start later) in
      rw (finalize_all_cons f e es (omega (arith, end_lem f c))) (
        rest.0 ∙ rw (blocks, append_assoc),
        rest.1 ∙ rw (states, append_assoc),
        rest.2 ∙ anchor,
        rest.3,
      )

  -- A chain that is fed the entries of consecutive slots from its anchor on holds their block roots
  -- and their state roots, in order, and is consistent.
  pub finalize_all-new :
      (anchor : ℕ) (es : List (HotEntry z))
      → anchor + length es < 2 ^ 64
      → IsRun anchor es
      → ((finalize_all (new_finalized_chain anchor) es).block_roots ≡ map (λ e. e.block_root) es)
        × ((finalize_all (new_finalized_chain anchor) es).state_roots ≡ map entry_state_root es)
        × IsConsistent (finalize_all (new_finalized_chain anchor) es)
  unfolding new_finalized_chain
  finalize_all-new anchor es room run =
      let f : FinalizedChain = new_finalized_chain anchor in
      let all =
        finalize_all_appends f es (new_finalized_chain-IsConsistent anchor (omega arith))
          (omega arith) (subst (λ n. IsRun n es) (omega arith) run) in
      (all.0, all.1, all.3)

  -- A view keeps its roots: an entry that is finalized later changes none of the slots before it.
  pub view_stable :
      (f : FinalizedChain) (e : HotEntry z) (slot : ℕ)
      → IsConsistent f
      → slot < f.anchor_slot + length f.state_roots
      → (block_root (on_finalized_entry f e).1 slot ≡ block_root f slot)
        × (state_root (on_finalized_entry f e).1 slot ≡ state_root f slot)
        × (parent_root (on_finalized_entry f e).1 slot ≡ parent_root f slot)
  unfolding on_finalized_entry append_entry block_root state_root parent_root
  view_stable f e slot c h = ground (
    arith,
    c.same_length,
    get_elem?-append_lt f.block_roots (e.block_root ∷ []) (slot - f.anchor_slot),
    get_elem?-append_lt f.block_roots (e.block_root ∷ []) (slot - 1 - f.anchor_slot),
    get_elem?-append_lt f.state_roots (entry_state_root e ∷ []) (slot - f.anchor_slot),
  )

  -- A finalized entry counts as empty exactly when its block root repeats that of the slot before.
  pub view_is_empty_iff :
      (f : FinalizedChain) (e : HotEntry z) (b : Root)
      → IsConsistent f
      → 0 < length f.state_roots
      → block_root f (f.anchor_slot + length f.state_roots - 1) ≡ ok b
      → view_is_empty (append_entry f e) (record { slot = f.anchor_slot + length f.state_roots })
        ≡ ok (b == e.block_root)
  unfolding view_is_empty append_entry block_root parent_root
  view_is_empty_iff f e b c h g = ground (
    arith,
    c.same_length,
    get_elem?-append_last f.block_roots e.block_root
        (f.anchor_slot + length f.state_roots - f.anchor_slot),
    get_elem?-append_lt f.block_roots (e.block_root ∷ [])
        (f.anchor_slot + length f.state_roots - 1 - f.anchor_slot),
  )
