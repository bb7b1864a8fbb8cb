-- ===== src/Chain/Hot/Process/Block.antt =====
-- What AddBlock of chain/hot.go does to the hot chain, when it succeeds and when it fails.
use rumor.Base.{ℕ, ◌+◌, ◌-◌, ◌≡◌, refl, ◌⊎◌, inl, inr, ok, err, panic, bytes_eq, add64, arith}
use rumor.Base.Exec.{◌>>=◌, continue}
use rumor.Base.Exec.Post.{
  Post, Outcome, failed, panicked, Post-lift-bind, Post-modify, Outcome-map, Outcome-weaken,
  Post-bind,
}
use rumor.Chain.Zrnt.{Zrnt, Checkpoint, ChainResult}
use rumor.Chain.Entry.{HotEntry, epochs_context, state_copy}
use rumor.Chain.Hot.{UnfinalizedChain, closest_from}
use rumor.Chain.Hot.Process.{
  fill_empty, insert_block, check_parent, transition_and_insert, build_on, add_block,
}
use rumor.Chain.Hot.Process.Empty.{
  SameButEmpty, SameButEmpty-refl, SameButEmpty-trans, FilledBy, fill_empty-FilledBy,
}

module _ (z : Zrnt) (block : z.SignedBlock) where
  abbrev first_slot : HotEntry z → ℕ
  first_slot pre = add64 pre.slot 1

  abbrev empty_slots : HotEntry z → ℕ
  empty_slots pre = z.block_slot block - first_slot pre

  -- The chain differs at most in entries behind the block's parent, of slots after the one that
  -- follows the entry's, up to the block's.
  abbrev pub Between : HotEntry z → UnfinalizedChain z → UnfinalizedChain z → Type 0
  Between pre = SameButEmpty z block (first_slot pre) (first_slot pre + empty_slots pre)

  -- The insertion of the block, with the state that StateTransition makes of the filled one, sealed
  -- by ProcessSlot, and the epochs of that state's checkpoints.
  pub record Inserted (epc : z.Epc) (filled : z.State) (mid uc' : UnfinalizedChain z) : Type 0 where
    pub end : z.Epc × z.State
    pub post : z.State
    pub finalized : Checkpoint
    pub justified : Checkpoint
    pub transition : z.state_transition epc filled block ≡ ok end
    pub sealed : z.process_slot end.1 ≡ ok post
    pub is_finalized : z.finalized_checkpoint post ≡ ok finalized
    pub is_justified : z.justified_checkpoint post ≡ ok justified
    pub inserted : uc' ≡ insert_block z block post justified.epoch finalized.epoch mid

  -- The chain after a block was added on top of `pre`: the empty slots in between were filled,
  -- starting with copies of the entry's context and state, and then the block was inserted.
  pub record Added (pre : HotEntry z) (uc uc' : UnfinalizedChain z) : Type 0 where
    pub parent_known : pre.block_root ≡ z.block_parent block
    pub epc : z.Epc
    pub state : z.State
    pub context : epochs_context pre ≡ ok epc
    pub copied : state_copy pre ≡ ok state
    pub between : UnfinalizedChain z
    pub end : z.Epc × z.State
    pub filled :
        FilledBy z block
          (first_slot pre)
          (first_slot pre + empty_slots pre)
          (first_slot pre)
          (empty_slots pre)
          epc
          state
          uc
          end
          between
    pub insertion : Inserted end.0 end.1 between uc'

  module _ (pre : HotEntry z) where
    abbrev same_refl : (uc : UnfinalizedChain z) → Between pre uc uc
    same_refl = SameButEmpty-refl z block _ _

    transition_and_insert-Inserted :
        (epc : z.Epc) (filled : z.State)
        → Post
            (Between pre)
            (λ mid _ uc'. Inserted epc filled mid uc')
            (transition_and_insert z block epc filled)
    unfolding transition_and_insert
    transition_and_insert-Inserted epc filled =
        let R = Between pre in
        Post-lift-bind R same_refl (z.state_transition epc filled block) _ (λ end moved.
          Post-lift-bind R same_refl (z.process_slot end.1) _ (λ post sealed.
            Post-lift-bind R same_refl (z.finalized_checkpoint post) _ (λ fin is_fin.
              Post-lift-bind R same_refl (z.justified_checkpoint post) _ (λ just is_just.
                Post-modify R same_refl (insert_block z block post just.epoch fin.epoch) (λ mid.
                  record {
                    end = end;
                    post = post;
                    finalized = fin;
                    justified = just;
                    transition = moved;
                    sealed = sealed;
                    is_finalized = is_fin;
                    is_justified = is_just;
                    inserted = refl;
                  })))))

  check_parent_ok :
      (pre : HotEntry z) {u : Unit {0}}
      → check_parent z (z.block_parent block) pre.block_root ≡ ok u
      → pre.block_root ≡ z.block_parent block
  unfolding check_parent
  check_parent_ok pre h = ground (arith, bytes_eq.same_iff pre.block_root (z.block_parent block))

  build_on-Added :
      (pre : HotEntry z) → Post (Between pre) (λ uc _ uc'. Added pre uc uc') (build_on z block pre)
  unfolding build_on
  build_on-Added pre =
      let R = Between pre in
      let lo = first_slot pre in
      let n = empty_slots pre in
      Post-lift-bind R (same_refl pre) (check_parent z (z.block_parent block) pre.block_root) _
        (λ u known. Post-lift-bind R (same_refl pre) (epochs_context pre) _ (λ epc context.
          Post-lift-bind R (same_refl pre) (state_copy pre) _ (λ state copied.
            Post-bind R (SameButEmpty-trans z block lo (lo + n))
              (FilledBy z block lo (lo + n) lo n epc state) (λ uc _ uc'. Added pre uc uc')
              (fill_empty z block n lo epc state) _ (λ uc _ mid f. f.same)
              (fill_empty-FilledBy z block lo (lo + n) n lo epc state (omega arith) (omega arith))
              (λ uc end mid f.
                Outcome-map (λ _ uc'. Inserted end.0 end.1 mid uc') (λ _ uc'. Added pre uc uc')
                  (λ _ uc' i. record {
                    parent_known = check_parent_ok pre known;
                    epc = epc;
                    state = state;
                    context = context;
                    copied = copied;
                    between = mid;
                    end = end;
                    filled = f;
                    insertion = i;
                  })
                  (transition_and_insert z block end.0 end.1 mid)
                  ((transition_and_insert-Inserted pre end.0 end.1).at mid)))))

  -- The chain after an AddBlock that found `pre`.
  abbrev pub AddedOn : UnfinalizedChain z → Unit {0} → UnfinalizedChain z → Type 0
  AddedOn uc _ uc' =
      (pre : HotEntry z) × (closest_from uc (z.block_parent block) (z.block_slot block) ≡ ok pre)
      × Added pre uc uc'

  -- The chain after an AddBlock that failed: where it found no entry, it is as it was.
  abbrev pub LeftBy : UnfinalizedChain z → UnfinalizedChain z → Type 0
  LeftBy uc uc' =
      (uc' ≡ uc)
      ⊎ ((pre : HotEntry z) × (closest_from uc (z.block_parent block) (z.block_slot block) ≡ ok pre)
          × Between pre uc uc')

  add_block_from :
      (uc : UnfinalizedChain z) (r : ChainResult (HotEntry z))
      → closest_from uc (z.block_parent block) (z.block_slot block) ≡ r
      → Outcome (LeftBy uc) (AddedOn uc) (continue r (build_on z block) uc)
  add_block_from uc (ok pre) e =
      Outcome-weaken (Between pre uc) (LeftBy uc) (AddedOn uc) (λ uc' b. inr (pre, e, b))
        (build_on z block pre uc)
        (Outcome-map (λ _ uc'. Added pre uc uc') (AddedOn uc) (λ _ uc' a. (pre, e, a))
          (build_on z block pre uc) ((build_on-Added pre).at uc))
  add_block_from uc (err x) e = failed x refl (inl refl)
  add_block_from uc panic e = panicked refl (inl refl)

  pub add_block-Outcome :
      (uc : UnfinalizedChain z) → Outcome (LeftBy uc) (AddedOn uc) (add_block z block uc)
  unfolding add_block ◌>>=◌
  add_block-Outcome uc =
      add_block_from uc (closest_from uc (z.block_parent block) (z.block_slot block)) refl
