-- ===== src/Serve/Sync/Process.antt =====
-- What handle_sync.go does with the blocks that it gets, as a relation.
use rumor.Base.{
  ℕ, ◌≡◌, refl, sym, ap, subst, Bool, true, false, List, [], ◌∷◌, Option, none, some, Option-cases,
  inl, inr,
}
use rumor.Serve.Sync.{
  SyncError, process_failed, store_failed, Syncer, Done, if_chosen, process_block, handle_blocks,
}

module _ (sy : Syncer) where
  -- What an action answers, and the world after it, where it is chosen; else nothing happens.
  unfoldable pub IfChosen :
      Bool → (sy.World → Option ℕ × sy.World) → sy.World → Option ℕ → sy.World → Type 0
  IfChosen true f w e w' = f w ≡ (e, w')
  IfChosen false f w e w' = (e ≡ none) × (w' ≡ w)

  -- The blocks are added to the chain and stored, one after the other, with the error of the request
  -- at the end; a block that cannot be added or stored ends it with the error of that.
  pub data Processed
      : List sy.Block → Option SyncError → sy.World → Option SyncError → sy.World → Type 0 where
    all_done : (end : Option SyncError) (w : sy.World) → Processed [] end w end w
    one_done :
        (b : sy.Block) (bs : List sy.Block) (end e : Option SyncError) (w w₁ w₂ w' : sy.World)
        → IfChosen sy.process (sy.add_block b) w none w₁
        → IfChosen sy.store (sy.store_block b) w₁ none w₂
        → Processed bs end w₂ e w'
        → Processed (b ∷ bs) end w e w'
    not_added :
        (b : sy.Block) (bs : List sy.Block) (end : Option SyncError) (x : ℕ) (w w₁ : sy.World)
        → IfChosen sy.process (sy.add_block b) w (some x) w₁
        → Processed (b ∷ bs) end w (some (process_failed x)) w₁
    not_stored :
        (b : sy.Block) (bs : List sy.Block) (end : Option SyncError) (x : ℕ) (w w₁ w₂ : sy.World)
        → IfChosen sy.process (sy.add_block b) w none w₁
        → IfChosen sy.store (sy.store_block b) w₁ (some x) w₂
        → Processed (b ∷ bs) end w (some (store_failed x)) w₂

  if_chosen-IfChosen :
      (flag : Bool) (f : sy.World → Option ℕ × sy.World) (w : sy.World)
      → IfChosen flag f w (if_chosen sy flag f w).0 (if_chosen sy flag f w).1
  unfolding IfChosen
  if_chosen-IfChosen true f w = refl
  if_chosen-IfChosen false f w = (refl, refl)

  module _ (b : sy.Block) (w : sy.World) where
    abbrev adds : Option ℕ × sy.World
    adds = if_chosen sy sy.process (sy.add_block b) w

    abbrev stores : Option ℕ × sy.World
    stores = if_chosen sy sy.store (sy.store_block b) adds.1

    process_block_not_added :
        (x : ℕ) → adds.0 ≡ some x → process_block sy b w ≡ (some (process_failed x), adds.1)
    unfolding process_block
    process_block_not_added x e = rw (e, process_block) refl

    process_block_not_stored :
        (x : ℕ)
        → adds.0 ≡ none
        → stores.0 ≡ some x
        → process_block sy b w ≡ (some (store_failed x), stores.1)
    unfolding process_block
    process_block_not_stored x e e' = rw (e, e', process_block) refl

    process_block_done : adds.0 ≡ none → stores.0 ≡ none → process_block sy b w ≡ (none, stores.1)
    unfolding process_block
    process_block_done e e' = rw (e, e', process_block) refl

  handle_blocks_after :
      (b : sy.Block) (bs : List sy.Block) (end : Option SyncError) (w : sy.World) {w' : sy.World}
      → process_block sy b w ≡ (none, w')
      → handle_blocks sy (b ∷ bs) end w ≡ handle_blocks sy bs end w'
  unfolding handle_blocks
  handle_blocks_after b bs end w e = rw (ap (λ p. p.0) e, ap (λ p. p.1) e, handle_blocks) refl

  handle_blocks_fails :
      (b : sy.Block) (bs : List sy.Block) (end : Option SyncError) (w : sy.World) {x : SyncError}
      {w' : sy.World}
      → process_block sy b w ≡ (some x, w')
      → handle_blocks sy (b ∷ bs) end w ≡ (some x, w')
  unfolding handle_blocks
  handle_blocks_fails b bs end w e = rw (ap (λ p. p.0) e, ap (λ p. p.1) e, handle_blocks) refl

  pub handle_blocks-Processed :
      (bs : List sy.Block) (end : Option SyncError) (w : sy.World)
      → Processed bs end w (handle_blocks sy bs end w).0 (handle_blocks sy bs end w).1
  unfolding handle_blocks
  handle_blocks-Processed [] end w = all_done end w
  handle_blocks-Processed (b ∷ bs) end w =
      let added = if_chosen-IfChosen sy.process (sy.add_block b) w in
      let stored = if_chosen-IfChosen sy.store (sy.store_block b) (adds b w).1 in
      let is = λ (r : Done sy). Processed (b ∷ bs) end w r.0 r.1 in
      elim (Option-cases (adds b w).0) [
        | inr (x, e) ↦
            subst is (sym (handle_blocks_fails b bs end w (process_block_not_added b w x e)))
              (not_added b bs end x w (adds b w).1 (rw e at added))
        | inl e ↦ elim (Option-cases (stores b w).0) [
          | inr (y, e') ↦
              subst is (sym (handle_blocks_fails b bs end w (process_block_not_stored b w y e e')))
                (not_stored b bs end y w (adds b w).1 (stores b w).1 (rw e at added)
                  (rw e' at stored))
          | inl e' ↦ subst is (sym (handle_blocks_after b bs end w (process_block_done b w e e'))) (
              one_done b bs end _ w (adds b w).1 (stores b w).1 _ (rw e at added) (rw e' at stored)
                (handle_blocks-Processed bs end (stores b w).1))
        ]
      ]
