-- ===== src/Chain/Hot/Process/Empty.antt =====
-- The loop of AddBlock (chain/hot.go) over the empty slots before the block: what it writes, and
-- what it leaves alone.
use rumor.Base.{
  ℕ, zero, suc, ◌+◌, ◌≤◌, ◌<◌, ◌≡◌, ◌≢◌, refl, sym, subst, ◌∙◌, some, ok, arith, ◌==◌, bytes_eq,
  Bool-cases, inl, inr, beq_ne, beq_refl,
}
use native.Mathlib.Decide.{dec_lt}
use rumor.Base.Map
use rumor.Base.Map.{get-put}
use rumor.Base.Exec.Post.{Post, Post-lift-bind, Post-modify-bind, Post-pure, Outcome-map}
use rumor.Chain.Zrnt.{Zrnt}
use rumor.Chain.Key.{BlockSlotKey, new_block_slot_key}
use rumor.Chain.Hot.Advance.{advance_slot}
use rumor.Chain.Hot.{UnfinalizedChain}
use rumor.Chain.Hot.Process.{empty_entry, put_empty, fill_empty}

module _ (z : Zrnt) (block : z.SignedBlock) where
  -- The key of an empty slot behind the block's parent.
  abbrev pub empty_key : ℕ → BlockSlotKey
  empty_key slot = new_block_slot_key (z.block_parent block) slot

  -- The chain differs at most in the entries of the slots after `lo` up to `hi` behind the block's
  -- parent.
  pub record SameButEmpty (lo hi : ℕ) (uc uc' : UnfinalizedChain z) : Type 0 where
    pub fork_choice : uc'.fork_choice ≡ uc.fork_choice
    pub anchor_slot : uc'.anchor_slot ≡ uc.anchor_slot
    pub state2key : uc'.state2key ≡ uc.state2key
    pub entries :
        (k : BlockSlotKey)
        → ((t : ℕ) → lo < t → t ≤ hi → k ≢ empty_key t)
        → Map.get uc'.entries k ≡ Map.get uc.entries k

  pub SameButEmpty-refl : (lo hi : ℕ) (uc : UnfinalizedChain z) → SameButEmpty lo hi uc uc
  SameButEmpty-refl lo hi uc = record {
    fork_choice = refl;
    anchor_slot = refl;
    state2key = refl;
    entries = λ k h. refl;
  }

  pub SameButEmpty-trans :
      (lo hi : ℕ) (a b c : UnfinalizedChain z)
      → SameButEmpty lo hi a b
      → SameButEmpty lo hi b c
      → SameButEmpty lo hi a c
  SameButEmpty-trans lo hi a b c h k = record {
    fork_choice = k.fork_choice ∙ h.fork_choice;
    anchor_slot = k.anchor_slot ∙ h.anchor_slot;
    state2key = k.state2key ∙ h.state2key;
    entries = λ j n. k.entries j n ∙ h.entries j n;
  }

  SameButEmpty-put_empty :
      (lo hi slot : ℕ) (state : z.State) (uc : UnfinalizedChain z)
      → lo < slot
      → slot ≤ hi
      → SameButEmpty lo hi uc (put_empty z block slot state uc)
  unfolding put_empty
  SameButEmpty-put_empty lo hi slot state uc above below = record {
    fork_choice = refl;
    anchor_slot = refl;
    state2key = refl;
    entries = λ k n. rw (get-put, beq_ne (empty_key slot) k (λ e. n slot above below (sym e)));
  }

  -- Slot `t` has the entry that the loop writes.
  unfoldable pub IsFilled : UnfinalizedChain z → ℕ → Type 0
  IsFilled uc t =
      (st : z.State) × (Map.get uc.entries (empty_key t) ≡ some (empty_entry z block st))

  IsFilled-put_empty :
      (slot : ℕ) (state : z.State) (uc : UnfinalizedChain z) (t : ℕ)
      → IsFilled uc t
      → IsFilled (put_empty z block slot state uc) t
  unfolding IsFilled put_empty
  IsFilled-put_empty slot state uc t (st, h) = elim (Bool-cases (empty_key slot == empty_key t)) [
    | inl same ↦ (state, rw (get-put, same))
    | inr other ↦ (st, rw (get-put, other) h)
  ]

  IsFilled-put_empty_self :
      (slot : ℕ) (state : z.State) (uc : UnfinalizedChain z)
      → IsFilled (put_empty z block slot state uc) slot
  unfolding IsFilled put_empty
  IsFilled-put_empty_self slot state uc = (state, rw (get-put, beq_refl (empty_key slot)))

  -- The loop's run: over `rounds` slots from `slot` on, each with ProcessSlots to the next slot, and
  -- copies of the state and of the context for the next round.
  pub data Advances : (slot rounds : ℕ) → z.Epc → z.State → z.Epc → z.State → Type 0 where
    reached : (slot : ℕ) (epc : z.Epc) (st : z.State) → Advances slot 0 epc st epc st
    further :
        (slot rounds : ℕ) (epc epc' next_epc epc'' : z.Epc) (st st' next st'' : z.State)
        → advance_slot z slot epc st ≡ ok (epc', st')
        → z.copy_state st' ≡ ok next
        → z.clone_epc (some epc') ≡ ok next_epc
        → Advances (slot + 1) rounds next_epc next epc'' st''
        → Advances slot (suc rounds) epc st epc'' st''

  -- After the loop: what was filled still is, and so is every slot that the loop went over.
  pub record Filled (slot rounds : ℕ) (uc uc' : UnfinalizedChain z) : Type 0 where
    pub kept : (t : ℕ) → IsFilled uc t → IsFilled uc' t
    pub filled : (t : ℕ) → slot < t → t ≤ slot + rounds → IsFilled uc' t

  Filled-step :
      (slot rounds : ℕ) (state : z.State) (uc uc' : UnfinalizedChain z)
      → Filled (slot + 1) rounds (put_empty z block (slot + 1) state uc) uc'
      → Filled slot (suc rounds) uc uc'
  Filled-step slot rounds state uc uc' f = record {
    kept = λ t h. f.kept t (IsFilled-put_empty (slot + 1) state uc t h);
    filled = λ t lo hi. elim (dec_lt (slot + 1) t) [
      | yes later ↦ f.filled t later (omega arith)
      | no here ↦
          subst (IsFilled uc') (omega arith)
            (f.kept (slot + 1) (IsFilled-put_empty_self (slot + 1) state uc))
    ];
  }

  -- The loop from `slot` with this context and state, which ends with those and this chain, within
  -- these bounds.
  pub record FilledBy (lo hi slot rounds : ℕ) (epc : z.Epc) (st : z.State) (uc : UnfinalizedChain z)
      (end : z.Epc × z.State) (uc' : UnfinalizedChain z) : Type 0 where
    pub same : SameButEmpty lo hi uc uc'
    pub filled : Filled slot rounds uc uc'
    pub advanced : Advances slot rounds epc st end.0 end.1

  module _ (lo hi : ℕ) where
    abbrev Same : UnfinalizedChain z → UnfinalizedChain z → Type 0
    Same = SameButEmpty lo hi

    abbrev same_refl : (uc : UnfinalizedChain z) → Same uc uc
    same_refl = SameButEmpty-refl lo hi

    pub fill_empty-FilledBy :
        (rounds slot : ℕ) (epc : z.Epc) (pre : z.State)
        → lo ≤ slot
        → slot + rounds ≤ hi
        → Post Same (FilledBy lo hi slot rounds epc pre) (fill_empty z block rounds slot epc pre)
    unfolding fill_empty
    fill_empty-FilledBy zero slot epc pre above below =
        Post-pure Same same_refl (epc, pre)
          (λ uc. record {
            same = same_refl uc;
            filled = record { kept = λ t h. h; filled = λ t l h. absurd (omega arith) };
            advanced = reached slot epc pre;
          })
    fill_empty-FilledBy (suc rounds) slot epc pre above below =
        Post-lift-bind Same same_refl (advance_slot z slot epc pre) _ (λ (epc', state) moved.
          Post-modify-bind Same (SameButEmpty-trans lo hi)
            (FilledBy lo hi slot (suc rounds) epc pre)
            (λ uc end uc'.
              (next : z.State) × (next_epc : z.Epc) × (z.copy_state state ≡ ok next)
              × (z.clone_epc (some epc') ≡ ok next_epc)
              × FilledBy lo hi (slot + 1) rounds next_epc next uc end uc')
            (put_empty z block (slot + 1) state) _
            (λ uc. SameButEmpty-put_empty lo hi (slot + 1) state uc (omega arith) (omega arith))
            (λ uc end uc' (next, next_epc, copied, cloned, f). record {
              same =
                  SameButEmpty-trans lo hi uc _ uc'
                    (SameButEmpty-put_empty lo hi (slot + 1) state uc (omega arith) (omega arith))
                    f.same;
              filled = Filled-step slot rounds state uc uc' f.filled;
              advanced =
                  further slot rounds epc epc' next_epc end.0 pre state next end.1 moved copied
                    cloned f.advanced;
            })
            (Post-lift-bind Same same_refl (z.copy_state state) _ (λ next copied.
              Post-lift-bind Same same_refl (z.clone_epc (some epc')) _ (λ next_epc cloned. record {
                at = λ uc.
                    Outcome-map (FilledBy lo hi (slot + 1) rounds next_epc next uc) _
                      (λ end uc' f. (next, next_epc, copied, cloned, f)) _
                      ((fill_empty-FilledBy rounds (slot + 1) next_epc next (omega arith)
                          (omega arith)).at
                        uc);
              }))))
