-- ===== src/Chain/Cold/Invariant.antt =====
-- The invariant of the finalized chain of chain/cold.go, and the operations that keep it.
use rumor.Base.{
  ℕ, ◌+◌, ◌-◌, ◌≤◌, ◌<◌, ◌^◌, ◌≡◌, refl, List, [], ◌∷◌, ◌++◌, length, get_elem?, some, arith,
  get_elem?-append_lt, get_elem?-append_last, ◌∙◌, get_elem?-append_cases, lt-of_get_elem?,
  length-append, ◌==◌, bytes_eq, IsU64, Bool-cases, inl, inr, nat_beq,
}
use rumor.Base.Map
use rumor.Base.Map.{Map, get-empty, get-put}
use rumor.Chain.Zrnt.{Zrnt, Root}
use rumor.Chain.Entry.{HotEntry, entry_state_root}
use rumor.Chain.Cold.{FinalizedChain, new_finalized_chain, append_entry, on_finalized_entry, end}

-- An index from roots to slots points at places of a slice that starts at `anchor`.
pub record Points (anchor : ℕ) (roots : List Root) (index : Map Root ℕ) : Type 0 where
  pub from_anchor : (r : Root) (s : ℕ) → Map.get index r ≡ some s → anchor ≤ s
  pub finds : (r : Root) (s : ℕ) → Map.get index r ≡ some s → get_elem? roots (s - anchor) ≡ some r

pub record IsConsistent (f : FinalizedChain) : Type 0 where
  pub same_length : length f.block_roots ≡ length f.state_roots
  pub fits : f.anchor_slot + length f.state_roots < 2 ^ 64
  pub by_state : Points f.anchor_slot f.state_roots f.slots_by_state_root
  pub by_block : Points f.anchor_slot f.block_roots f.slots_by_block_root
  -- Every state root is indexed, at its own slot or at a later one with the same root.
  pub state_known :
      (i : ℕ) (r : Root)
      → get_elem? f.state_roots i ≡ some r
      → (s : ℕ) × (Map.get f.slots_by_state_root r ≡ some s) × (f.anchor_slot + i ≤ s)

pub end_lem : (f : FinalizedChain) → IsConsistent f → end f ≡ f.anchor_slot + length f.state_roots
unfolding end
end_lem f c = omega arith

-- A chain without entries is consistent, wherever it is anchored.
pub new_finalized_chain-IsConsistent :
    (anchor : ℕ) → IsU64 anchor → IsConsistent (new_finalized_chain anchor)
unfolding new_finalized_chain
new_finalized_chain-IsConsistent anchor h = record {
  same_length = refl;
  fits = omega arith;
  by_state = record {
    from_anchor = λ r s e. cc (get-empty {V = ℕ} r);
    finds = λ r s e. cc (get-empty {V = ℕ} r);
  };
  by_block = record {
    from_anchor = λ r s e. cc (get-empty {V = ℕ} r);
    finds = λ r s e. cc (get-empty {V = ℕ} r);
  };
  state_known = λ i r e. cc;
}

module _ (anchor : ℕ) (roots : List Root) (index : Map Root ℕ) (p : Points anchor roots index) where
  -- The slice grows behind what the index points at.
  Points-append : (r : Root) → Points anchor (roots ++ r ∷ []) index
  Points-append r = record {
    from_anchor = p.from_anchor;
    finds = λ q s e.
        get_elem?-append_lt roots (r ∷ []) (s - anchor)
          (lt-of_get_elem? roots (s - anchor) (p.finds q s e))
        ∙ p.finds q s e;
  }

  Points-put :
      (r : Root) (slot : ℕ)
      → slot ≡ anchor + length roots
      → Points anchor (roots ++ r ∷ []) (Map.put index r slot)
  Points-put r slot e = record {
    from_anchor = λ q s g. ground (arith, get-put index r q slot, p.from_anchor q s);
    finds = λ q s g. ground (
      arith,
      get-put index r q slot,
      bytes_eq.same_iff r q,
      (Points-append r).finds q s,
      get_elem?-append_last roots r (slot - anchor),
    );
  }

module _ {z : Zrnt} (f : FinalizedChain) (entry : HotEntry z) (c : IsConsistent f) where
  state_known-append :
      entry.slot ≡ f.anchor_slot + length f.state_roots
      → (i : ℕ) (r : Root) → get_elem? (append_entry f entry).state_roots i ≡ some r
      → (s : ℕ) × (Map.get (append_entry f entry).slots_by_state_root r ≡ some s)
        × (f.anchor_slot + i ≤ s)
  unfolding append_entry
  state_known-append e i r g =
      let root : Root = entry_state_root entry in
      elim (Bool-cases (root == r)) [
        | inl same ↦ (
          entry.slot,
          rw (get-put, same),
          omega (
            arith,
            lt-of_get_elem? (f.state_roots ++ root ∷ []) i g,
            length-append f.state_roots (root ∷ []),
          ),
        )
        | inr other ↦ elim (get_elem?-append_cases f.state_roots root i r g) [
          | inl old ↦ (
            (c.state_known i r old).0,
            rw (get-put, other) ((c.state_known i r old).1),
            (c.state_known i r old).2,
          )
          | inr (_, new) ↦ absurd (ground (arith, bytes_eq.same_iff root r))
        ]
      ]

  block_index :
      entry.slot ≡ f.anchor_slot + length f.state_roots
      → Points f.anchor_slot
          (f.block_roots ++ entry.block_root ∷ [])
          (append_entry f entry).slots_by_block_root
  unfolding append_entry
  block_index e = elim (Bool-cases (entry.parent_root == entry.block_root)) [
    | inl empty ↦ rw empty (Points-append f.anchor_slot f.block_roots _ c.by_block entry.block_root)
    | inr full ↦ rw full (
        Points-put f.anchor_slot f.block_roots f.slots_by_block_root c.by_block entry.block_root
          entry.slot (omega (arith, c.same_length)))
  ]

  -- An entry at the end of the chain is appended consistently, as long as slots stay in 64 bits.
  pub append_entry-IsConsistent :
      entry.slot ≡ f.anchor_slot + length f.state_roots
      → f.anchor_slot + length f.state_roots + 1 < 2 ^ 64
      → IsConsistent (append_entry f entry)
  unfolding append_entry
  append_entry-IsConsistent e room = record {
    same_length = omega (
      arith,
      c.same_length,
      length-append f.block_roots (entry.block_root ∷ []),
      length-append f.state_roots (entry_state_root entry ∷ []),
    );
    fits = omega (arith, length-append f.state_roots (entry_state_root entry ∷ []));
    by_state =
        Points-put f.anchor_slot f.state_roots f.slots_by_state_root c.by_state
          (entry_state_root entry) entry.slot e;
    by_block = block_index e;
    state_known = state_known-append e;
  }

  -- OnFinalizedEntry keeps the invariant on every branch, as long as the slots after the entry fit
  -- in 64 bits.
  pub on_finalized_entry-IsConsistent :
      f.anchor_slot + length f.state_roots + 1 < 2 ^ 64
      → IsConsistent (on_finalized_entry f entry).1
  unfolding on_finalized_entry
  on_finalized_entry-IsConsistent room = elim (Bool-cases (nat_beq entry.slot (end f))) [
    | inl next ↦ rw next (append_entry-IsConsistent (ground (arith, end_lem f c)) room)
    | inr other ↦ rw other c
  ]
