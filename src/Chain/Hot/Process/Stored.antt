-- ===== src/Chain/Hot/Process/Stored.antt =====
-- What the hot chain of chain/hot.go holds after AddBlock, and what it does not.
use rumor.Base.{
  ℕ, ◌≤◌, ◌<◌, ◌≡◌, ◌≢◌, refl, ap, ◌∙◌, inl, inr, none, some, ok, err, bytes_eq, beq_ne, add64,
  arith,
}
use rumor.Base.Map
use rumor.Base.Map.{Map, get-put, get-put_self}
use rumor.Base.Exec.{◌>>=◌}
use rumor.Base.Exec.Post.{Outcome, returned, failed, panicked}
use rumor.Chain.Zrnt.{Zrnt, Root, unknown_parent, unknown_state}
use rumor.Chain.Key.{BlockSlotKey, new_block_slot_key}
use rumor.Chain.Entry.{HotEntry, epochs_context}
use rumor.Chain.Hot.{UnfinalizedChain, closest_from, by_state_root}
use rumor.Chain.Hot.Process.{
  insert_block, block_entry, check_parent, build_on, add_block, empty_entry,
}
use rumor.Chain.Hot.Process.Empty.{IsFilled, empty_key}
use rumor.Chain.Hot.Process.Block.{AddedOn, LeftBy, add_block-Outcome}

module _ (z : Zrnt) (block : z.SignedBlock) (uc : UnfinalizedChain z) where
  abbrev after : UnfinalizedChain z
  after = (add_block z block uc).1

  abbrev own_key : BlockSlotKey
  own_key = new_block_slot_key (z.block_root block) (z.block_slot block)

  -- The result of AddBlock says which of the two happened.
  added_if_ok : (add_block z block uc).0 ≡ ok tt → AddedOn z block uc tt after
  added_if_ok h = by_outcome (add_block-Outcome z block uc)
    where
      by_outcome :
          Outcome (LeftBy z block uc) (AddedOn z block uc) (add_block z block uc)
          → AddedOn z block uc tt after
      by_outcome (returned a e q) = q
      by_outcome (failed x e r) = absurd (cc)
      by_outcome (panicked e r) = absurd (cc)

  -- After an error or a panic the fork choice, the anchor slot and the state index are as before,
  -- and so is every entry but those of the empty slots behind the block's parent.
  pub add_block-failure : (add_block z block uc).0 ≢ ok tt → LeftBy z block uc after
  add_block-failure h = by_outcome (add_block-Outcome z block uc)
    where
      by_outcome :
          Outcome (LeftBy z block uc) (AddedOn z block uc) (add_block z block uc)
          → LeftBy z block uc after
      by_outcome (returned a e q) = absurd (h e)
      by_outcome (failed x e r) = r
      by_outcome (panicked e r) = r

  -- A block that was added is stored under its root and slot, with its parent, and with no epochs
  -- context: asked for one, the entry answers what Clone of a nil context answers.
  pub add_block-stored :
      (add_block z block uc).0 ≡ ok tt
      → (entry : HotEntry z) × (Map.get after.entries own_key ≡ some entry)
        × (entry.slot ≡ z.block_slot block)
        × (entry.block_root ≡ z.block_root block)
        × (entry.parent_root ≡ z.block_parent block)
        × (epochs_context entry ≡ z.clone_epc none)
  unfolding block_entry insert_block epochs_context
  add_block-stored h =
      let (pre, _, a) = added_if_ok h in
      (
        block_entry z block a.insertion.post,
        rw (a.insertion.inserted, get-put_self),
        refl,
        refl,
        refl,
        refl,
      )

  state_index : after.state2key ≡ uc.state2key
  unfolding insert_block
  state_index = by_outcome (add_block-Outcome z block uc)
    where
      by_outcome :
          Outcome (LeftBy z block uc) (AddedOn z block uc) (add_block z block uc)
          → after.state2key ≡ uc.state2key
      by_outcome (returned _ _ (pre, _, a)) =
          ap (λ (u : UnfinalizedChain z). u.state2key) a.insertion.inserted
          ∙ a.filled.same.state2key
      by_outcome (failed x e (inl same)) = ap (λ (u : UnfinalizedChain z). u.state2key) same
      by_outcome (failed x e (inr (pre, found, r))) = r.state2key
      by_outcome (panicked e (inl same)) = ap (λ (u : UnfinalizedChain z). u.state2key) same
      by_outcome (panicked e (inr (pre, found, r))) = r.state2key

  -- AddBlock never indexes a state: a state root that was unknown before it is unknown after it,
  -- also that of the block it added.
  pub by_state_root-add_block :
      (r : Root)
      → by_state_root uc r ≡ err (unknown_state r)
      → by_state_root after r ≡ err (unknown_state r)
  unfolding by_state_root
  by_state_root-add_block r h = ground (arith, state_index)

  -- A block that was added left an entry at every slot after the one that follows its closest
  -- entry, up to its own; each carries the slot and the root of the block, not its own.
  pub add_block-fills :
      (add_block z block uc).0 ≡ ok tt
      → (pre : HotEntry z) × (closest_from uc (z.block_parent block) (z.block_slot block) ≡ ok pre)
        × ((t : ℕ)
            → add64 pre.slot 1 < t
            → t ≤ z.block_slot block
            → own_key ≢ empty_key z block t
            → (e : HotEntry z) × (Map.get after.entries (empty_key z block t) ≡ some e)
              × (e.slot ≡ z.block_slot block)
              × (e.block_root ≡ z.block_root block))
  unfolding insert_block IsFilled empty_entry
  add_block-fills h =
      let (pre, found, a) = added_if_ok h in
      (
        pre,
        found,
        λ t lo hi other.
            let (st, e) = a.filled.filled.filled t lo (omega arith) in
            (
              empty_entry z block st,
              rw (a.insertion.inserted, get-put, beq_ne own_key (empty_key z block t) other) e,
              refl,
              refl,
            ),
      )

  -- Where the closest entry does not carry the parent's root, the block is refused, and nothing is
  -- changed.
  pub add_block-other_root :
      (pre : HotEntry z)
      → closest_from uc (z.block_parent block) (z.block_slot block) ≡ ok pre
      → pre.block_root ≢ z.block_parent block
      → add_block z block uc ≡ (err (unknown_parent (z.block_parent block) pre.block_root), uc)
  unfolding add_block build_on check_parent ◌>>=◌
  add_block-other_root pre found other =
      rw (found, beq_ne pre.block_root (z.block_parent block) other)
