-- ===== src/Chain/Hot/Prune/Walk.antt =====
-- The walk over the empty slots before a pruned block ends: every round meets another key of the
-- map, so there are at most as many rounds as entries, also where the slot wraps around.
use rumor.Base.{
  ℕ, zero, suc, ◌-◌, ◌≤◌, ◌<◌, ◌^◌, ◌≡◌, ◌≢◌, refl, ◌∙◌, List, [], ◌∷◌, length, Option, some, arith,
  IsU64, sub64, bytes_eq, nat_eq, nat_beq_iff, Option-cases, inl, inr,
}
use rumor.Base.Map
use rumor.Base.Map.{Map, get-delete, size-delete}
use rumor.Chain.Zrnt.{Zrnt, Root}
use rumor.Chain.Key.{BlockSlotKey, new_block_slot_key, key-beq}
use rumor.Chain.Entry.{HotEntry}
use rumor.Chain.Hot.Prune.{collect}

module _ {z : Zrnt} (prev : Root) (array : length prev ≡ 32) where
  abbrev at_slot : Map BlockSlotKey (HotEntry z) → ℕ → Option (HotEntry z)
  at_slot m slot = Map.get m (new_block_slot_key prev slot)

  -- Deleting the key of one slot leaves the other slots.
  at_slot-delete :
      (m : Map BlockSlotKey (HotEntry z)) (s t : ℕ)
      → IsU64 s
      → IsU64 t
      → s ≢ t
      → at_slot (Map.delete m (new_block_slot_key prev s)) t ≡ at_slot m t
  at_slot-delete m s t hs ht h =
      rw get-delete (ground (arith, key-beq prev prev s t array array hs ht, nat_beq_iff s t))

  -- `rest` is what the walk has not met: it agrees with `m` on the next `left` slots downwards.
  collect_unmet :
      (fuel left slot : ℕ) (m rest : Map BlockSlotKey (HotEntry z))
      → IsU64 slot
      → fuel ≤ left
      → left ≤ 2 ^ 64
      → ((t : ℕ) → IsU64 t → sub64 slot t < left → at_slot rest t ≡ at_slot m t)
      → Map.size rest < fuel
      → (l : List (HotEntry z)) × (collect fuel m prev slot ≡ some l)
  unfolding collect
  collect_unmet zero left slot m rest hs hf hl same h = absurd (omega arith)
  collect_unmet (suc fuel) left slot m rest hs hf hl same h = elim (Option-cases (at_slot m slot)) [
    | inl missing ↦ ([], rw (missing, collect))
    | inr (e, found) ↦
        let (l, walked) =
          collect_unmet fuel (left - 1) (sub64 slot 1) m
            (Map.delete rest (new_block_slot_key prev slot)) (omega arith) (omega arith)
            (omega arith)
            (λ t ht near.
              at_slot-delete rest slot t hs ht (λ p. omega arith) ∙ same t ht (omega arith))
            (omega (
              arith,
              size-delete rest (new_block_slot_key prev slot) e
                  (same slot hs (omega arith) ∙ found),
            )) in
        (e ∷ l, rw (found, walked, collect))
  ]

  -- With one round for each entry and one more, the walk ends at a missing key.
  pub collect_total :
      (m : Map BlockSlotKey (HotEntry z)) (slot : ℕ)
      → IsU64 slot
      → Map.size m < 2 ^ 64
      → (l : List (HotEntry z)) × (collect (suc (Map.size m)) m prev slot ≡ some l)
  collect_total m slot hs h =
      collect_unmet (suc (Map.size m)) (2 ^ 64) slot m m hs (omega arith) (omega arith)
        (λ t ht near. refl) (omega arith)
