-- ===== src/Chain/Hot/Lookup.antt =====
-- ClosestFrom of chain/hot.go: the loop downwards finds the highest slot with an entry.
use rumor.Base.{
  ℕ, zero, suc, ◌≤◌, ◌<◌, ◌≡◌, Option, none, some, ok, err, arith, Option-cases, inl, inr, ◌⊎◌,
  Bool-cases, bytes_eq, leb, subst,
}
use native.Mathlib.Decide.{dec_lt}
use rumor.Base.Map
use rumor.Base.Map.{Map}
use rumor.Chain.Zrnt.{Zrnt, Root, zero_root, BlockRef, no_closest}
use rumor.Chain.Key.{BlockSlotKey, new_block_slot_key}
use rumor.Chain.Entry.{HotEntry}
use rumor.Chain.Hot.{UnfinalizedChain, scan_down, closest_from}

module _ {z : Zrnt} (entries : Map BlockSlotKey (HotEntry z)) (before : BlockRef) where
  abbrev entry_at : ℕ → Option (HotEntry z)
  entry_at slot = Map.get entries (new_block_slot_key before.root slot)

  -- `e` stands at the highest slot of the map from `before` on, and not above `top`.
  pub record IsHighest (top : ℕ) (e : HotEntry z) : Type 0 where
    pub slot : ℕ
    pub positive : 0 < slot
    pub from_before : before.slot ≤ slot
    pub below_top : slot ≤ top
    pub here : entry_at slot ≡ some e
    pub none_above : (t : ℕ) → slot < t → t ≤ top → entry_at t ≡ none

  IsHighest-suc :
      (top : ℕ) (e : HotEntry z)
      → entry_at (suc top) ≡ none
      → IsHighest top e
      → IsHighest (suc top) e
  IsHighest-suc top e missing h = record {
    slot = h.slot;
    positive = h.positive;
    from_before = h.from_before;
    below_top = omega arith;
    here = h.here;
    none_above = λ t lo hi. elim (dec_lt top t) [
      | yes at_top ↦ subst (λ s. entry_at s ≡ none) (omega arith) missing
      | no inside ↦ h.none_above t lo (omega arith)
    ];
  }

  -- The loop answers with the highest entry, if it answers.
  pub scan_down-some :
      (top : ℕ) (e : HotEntry z) → scan_down entries before top ≡ some e → IsHighest top e
  unfolding scan_down
  scan_down-some zero e h = cc
  scan_down-some (suc top) e h = elim (Bool-cases (leb before.slot (suc top))) [
    | inr low ↦ absurd (ground arith)
    | inl high ↦ elim (Option-cases (entry_at (suc top))) [
      | inl missing ↦ IsHighest-suc top e missing (scan_down-some top e (ground arith))
      | inr (x, found) ↦ record {
        slot = suc top;
        positive = omega arith;
        from_before = ground arith;
        below_top = omega arith;
        here = ground arith;
        none_above = λ t lo hi. absurd (omega arith);
      }
    ]
  ]

  -- If it finds none, there is none.
  pub scan_down-none :
      (top : ℕ)
      → scan_down entries before top ≡ none
      → (t : ℕ) → 0 < t
      → before.slot ≤ t
      → t ≤ top
      → entry_at t ≡ none
  unfolding scan_down
  scan_down-none zero h t pos lo hi = absurd (omega arith)
  scan_down-none (suc top) h t pos lo hi = elim (Option-cases (entry_at (suc top))) [
    | inr (x, found) ↦ absurd (ground arith)
    | inl missing ↦ elim (dec_lt top t) [
      | yes at_top ↦ subst (λ s. entry_at s ≡ none) (omega arith) missing
      | no inside ↦ scan_down-none top (ground arith) t pos lo (omega arith)
    ]
  ]

module _ {z : Zrnt} (uc : UnfinalizedChain z) (root : Root) (to_slot : ℕ)
    (before at after : BlockRef) where
  -- Where the fork choice has no block at the slot, ClosestFrom answers with the entry at the
  -- highest slot but slot 0 that has one, between the block before and the slot; or there is no
  -- entry in that range, slot 0 aside, and it says so. Slot 0 is never looked at.
  pub closest_from_scans :
      z.blocks_around_slot uc.fork_choice root to_slot ≡ ok (before, at, after)
      → at.root ≡ zero_root
      → ((e : HotEntry z) × (closest_from uc root to_slot ≡ ok e)
          × IsHighest uc.entries before to_slot e)
        ⊎ ((closest_from uc root to_slot ≡ err (no_closest root to_slot))
            × ((t : ℕ)
                → 0 < t
                → before.slot ≤ t
                → t ≤ to_slot
                → entry_at uc.entries before t ≡ none))
  unfolding closest_from
  closest_from_scans known none_at = elim (Option-cases (scan_down uc.entries before to_slot)) [
    | inr (e, found) ↦ inl (
      e,
      rw (known, (bytes_eq.same_iff at.root zero_root).1 none_at, found),
      scan_down-some uc.entries before to_slot e found,
    )
    | inl missing ↦ inr (
      rw (known, (bytes_eq.same_iff at.root zero_root).1 none_at, missing),
      scan_down-none uc.entries before to_slot missing,
    )
  ]
