-- ===== src/Serve/Sync/Facts.antt =====
-- Which blocks of a response sync/range.go lets through, and what handle_sync.go does with them.
use native.Mathlib.Nat.{div-add-mod, div-lt_iff_lt-mul, mul-mod_left, mul-lt-mul_of_pos_right}
use rumor.Base.{
  map, ℕ, ◌+◌, ◌-◌, ◌*◌, ◌/◌, ◌%◌, ◌^◌, ◌≤◌, ◌<◌, ◌≡◌, ◌↔◌, refl, sym, ap, ◌∙◌, true, false, List,
  [], ◌∷◌, ◌++◌, Option, some, sub64, arith, Bool-cases, inl, inr, All, ◌⊎◌,
}
use rumor.Serve.Range.{RangeRequest, range_end}
use rumor.Serve.Sync.{
  SyncError, bad_block, error_response, unknown_code, unreadable, Chunk, success, refusal, strange,
  broken, is_bad_slot, Syncer, take_chunk, received, sync_range,
}
use rumor.Serve.Sync.Process.{Processed, handle_blocks-Processed}

module _ (req : RangeRequest) (slot : ℕ) (pos : 0 < req.step)
    (fits : req.start_slot + req.count * req.step < 2 ^ 64) (small : slot < 2 ^ 64) where
  whole : range_end req ≡ req.start_slot + req.count * req.step
  whole = omega arith

  index :
      is_bad_slot req slot ≡ false
      → (i : ℕ) × (i < req.count) × (slot ≡ req.start_slot + i * req.step)
  unfolding is_bad_slot
  index fine =
      let low : req.start_slot ≤ slot = ground arith in
      let high : slot < range_end req = ground arith in
      let diff : sub64 slot req.start_slot ≡ slot - req.start_slot = omega arith in
      let even : sub64 slot req.start_slot % req.step ≡ 0 = ground arith in
      let even' : (slot - req.start_slot) % req.step ≡ 0 =
        ap (λ d. d % req.step) (sym diff) ∙ even in
      let parts = div-add-mod (slot - req.start_slot) req.step in
      let within : slot - req.start_slot < req.count * req.step = omega (arith, whole) in
      let few : (slot - req.start_slot) / req.step < req.count = (div-lt_iff_lt-mul pos).1 within in
      ((slot - req.start_slot) / req.step, few, omega arith)

  in_range :
      (i : ℕ) → i < req.count → slot ≡ req.start_slot + i * req.step → is_bad_slot req slot ≡ false
  unfolding is_bad_slot
  in_range i few e =
      let within : i * req.step < req.count * req.step = mul-lt-mul_of_pos_right few pos in
      let diff : sub64 slot req.start_slot ≡ i * req.step = omega arith in
      let even : sub64 slot req.start_slot % req.step ≡ 0 =
        ap (λ d. d % req.step) diff ∙ mul-mod_left i req.step in
      ground (arith, whole)

  -- For a request whose end does not wrap around, the three tests on the slot of a block let through the
  -- slots start, start + step and so on, as many as were asked for, and no other.
  pub is_bad_slot_iff :
      (is_bad_slot req slot ≡ false)
      ↔ ((i : ℕ) × (i < req.count) × (slot ≡ req.start_slot + i * req.step))
  is_bad_slot_iff = (index, λ (i, few, e). in_range i few e)

module _ (sy : Syncer) where
  -- The chunk is no block at a good slot, and this is its error.
  unfoldable pub Refused : RangeRequest → Chunk sy.Block → SyncError → Type 0
  Refused req (success b) x =
      (is_bad_slot req (sy.slot_of b) ≡ true) × (x ≡ bad_block (sy.slot_of b))
  Refused req (refusal code) x = x ≡ error_response code
  Refused req (strange code) x = x ≡ unknown_code code
  Refused req (broken e) x = x ≡ unreadable e

  -- What a response comes to: the blocks that were let through, and what comes behind them.
  pub record Filtered (req : RangeRequest) (ended : Option SyncError)
      (chunks : List (Chunk sy.Block)) (got : List sy.Block × Option SyncError) : Type 0 where
    pub rest : List (Chunk sy.Block)
    pub splits : chunks ≡ map success got.0 ++ rest
    pub good : All (λ b. is_bad_slot req (sy.slot_of b) ≡ false) got.0
    pub end :
        ((rest ≡ []) × (got.1 ≡ ended))
        ⊎ ((c : Chunk sy.Block) × (more : List (Chunk sy.Block)) × (x : SyncError) × (rest
              ≡ c ∷ more)
            × (Refused req c x)
            × (got.1 ≡ some x))

  -- Only a block at a good slot is taken.
  taken_block :
      (req : RangeRequest) (c : Chunk sy.Block)
      → ((b : sy.Block) × (c ≡ success b)
          × (is_bad_slot req (sy.slot_of b) ≡ false)
          × (take_chunk sy req c ≡ inl b))
        ⊎ ((x : SyncError) × Refused req c x × (take_chunk sy req c ≡ inr x))
  unfolding take_chunk Refused
  taken_block req (success b) = elim (Bool-cases (is_bad_slot req (sy.slot_of b))) [
    | inl t ↦ inr (bad_block (sy.slot_of b), (t, refl), rw (t, take_chunk) refl)
    | inr f ↦ inl (b, refl, f, rw (f, take_chunk) refl)
  ]
  taken_block req (refusal code) = inr (error_response code, refl, refl)
  taken_block req (strange code) = inr (unknown_code code, refl, refl)
  taken_block req (broken e) = inr (unreadable e, refl, refl)

  received-Filtered :
      (req : RangeRequest) (ended : Option SyncError) (chunks : List (Chunk sy.Block))
      → Filtered req ended chunks (received sy req ended chunks)
  unfolding received
  received-Filtered req ended [] = record {
    rest = [];
    splits = refl;
    good = tt;
    end = inl (refl, refl);
  }
  received-Filtered req ended (c ∷ cs) =
      let f = received-Filtered req ended cs in
      elim (taken_block req c) [
        | inl (b, is_block, g, e) ↦
            rw (e, received)
              (record {
                rest = f.rest;
                splits = ap (λ d. d ∷ cs) is_block ∙ ap (λ r. success b ∷ r) f.splits;
                good = (g, f.good);
                end = f.end;
              })
        | inr (x, why, e) ↦
            rw (e, received)
              (record {
                rest = c ∷ cs;
                splits = refl;
                good = tt;
                end = inr (c, cs, x, refl, why, refl);
              })
      ]

  pub sync_range-Filtered :
      (req : RangeRequest) (ended : Option SyncError) (chunks : List (Chunk sy.Block))
      (w : sy.World)
      → (got : List sy.Block × Option SyncError) × Filtered req ended chunks got
        × Processed sy got.0 got.1 w
            (sync_range sy req ended chunks w).0
            (sync_range sy req ended chunks w).1
  unfolding sync_range
  sync_range-Filtered req ended chunks w =
      let (bs, e) = received sy req ended chunks in
      ((bs, e), received-Filtered req ended chunks, handle_blocks-Processed sy bs e w)
