-- ===== src/Serve/Sync.antt =====
-- What control/actor/chain/chcmd/sync does with the blocks of a response: the check of range.go on each
-- chunk, and the processing of handle_sync.go.
pub mod Process
pub mod Facts
use rumor.Base.{
  ◌⊎◌, inl, inr, ℕ, ◌%◌, Bool, true, false, not, ◌||◌, List, [], ◌∷◌, length, Option, none, some,
  ltb, nat_beq, leb, if◌then◌else◌, sub64,
}
use rumor.Serve.Range.{RangeRequest, range_end}

pub data SyncError : Type 0 where
  bad_block error_response unknown_code unreadable : ℕ → SyncError
  process_failed store_failed request_failed : ℕ → SyncError

-- A chunk of the response, as the handler reads it: a block, an error with its code, another code, or
-- what cannot be read.
pub data Chunk (Block : Type 0) : Type 0 where
  success : Block → Chunk Block
  refusal strange broken : ℕ → Chunk Block

-- The three tests on the slot of a block in the response.
unfoldable pub is_bad_slot : RangeRequest → ℕ → Bool
is_bad_slot req slot =
    ltb slot req.start_slot
    || not (nat_beq (sub64 slot req.start_slot % req.step) 0)
    || leb (range_end req) slot

-- The chain and the blocks database, and what the flags choose.
pub record Syncer : Type 1 where
  pub Block : Type 0
  pub World : Type 0
  pub slot_of : Block → ℕ
  pub add_block : Block → World → Option ℕ × World
  pub store_block : Block → World → Option ℕ × World
  pub store : Bool
  pub process : Bool

module _ (sy : Syncer) where
  -- What the handler makes of a chunk: a block for the channel, or its error.
  unfoldable pub take_chunk : RangeRequest → Chunk sy.Block → sy.Block ⊎ SyncError
  unfolding is_bad_slot
  take_chunk req (success b) =
      if is_bad_slot req (sy.slot_of b) then inr (bad_block (sy.slot_of b)) else inl b
  take_chunk req (refusal code) = inr (error_response code)
  take_chunk req (strange code) = inr (unknown_code code)
  take_chunk req (broken e) = inr (unreadable e)

  -- The blocks before the first error go to the channel; `ended` is the error that the request itself
  -- ends with otherwise.
  unfoldable pub received :
      RangeRequest → Option SyncError → List (Chunk sy.Block) → List sy.Block × Option SyncError
  unfolding take_chunk
  received req ended [] = ([], ended)
  received req ended (c ∷ cs) =
      let (rest, e) = received req ended cs in
      elim (take_chunk req c) [ inl b ↦ (b ∷ rest, e) | inr x ↦ ([], some x) ]

  abbrev pub Done : Type 0
  Done = Option SyncError × sy.World

  abbrev pub if_chosen : Bool → (sy.World → Option ℕ × sy.World) → sy.World → Option ℕ × sy.World
  if_chosen true f w = f w
  if_chosen false f w = (none, w)

  -- One block: it is added to the chain, then stored.
  unfoldable pub process_block : sy.Block → sy.World → Done
  process_block b w =
      let (e, w') = if_chosen sy.process (sy.add_block b) w in
      let (e', w'') = if_chosen sy.store (sy.store_block b) w' in
      elim e [
        | some x ↦ (some (process_failed x), w')
        | none ↦ elim e' [ some y ↦ (some (store_failed y), w'') | none ↦ (none, w'') ]
      ]

  -- The loop over the channel, whose end brings the error of the request.
  unfoldable pub handle_blocks : List sy.Block → Option SyncError → sy.World → Done
  unfolding process_block
  handle_blocks [] sync_err w = (sync_err, w)
  handle_blocks (b ∷ bs) sync_err w =
      let (e, w') = process_block b w in
      let rest = handle_blocks bs sync_err w' in elim e [ some x ↦ (some x, w') | none ↦ rest ]

  -- The chunks that a peer has sent, and how the request ended.
  unfoldable pub sync_range :
      RangeRequest → Option SyncError → List (Chunk sy.Block) → sy.World → Done
  unfolding received handle_blocks
  sync_range req ended chunks w = let (bs, e) = received req ended chunks in handle_blocks bs e w
