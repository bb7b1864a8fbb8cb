-- ===== src/Serve/Tests.antt =====
-- The theorems on serving and fetching at concrete inputs: a chain with the slots 2 to 5, where slot 4 is
-- empty and repeats the root of slot 3, and a block of one byte for each root.
use rumor.Base.{
  ℕ, ◌+◌, ◌*◌, ◌<◌, ◌≡◌, ◌↔◌, refl, true, false, List, [], ◌∷◌, map, Option, none, some, arith,
  nat_beq, if◌then◌else◌,
}
use rumor.Serve.Types.{Root, found, entry_missing, entry_of, Iter, Server}
use rumor.Serve.Range.{RangeRequest, RangeLimits, handled, crashed, serve_range}
use rumor.Serve.Range.Facts.{slots_from, serve_range_wraps}
use rumor.Serve.Root.{serve_roots}
use rumor.Serve.Root.Facts.{serve_range-serve_roots}
use rumor.Serve.Sync.{Chunk, success, SyncError, is_bad_slot, Syncer, sync_range}
use rumor.Serve.Sync.Process.{Processed}
use rumor.Serve.Sync.Facts.{Filtered, is_bad_slot_iff, sync_range-Filtered}

abbrev toy_root : ℕ → Root
toy_root slot = (if nat_beq slot 4 then 3 else slot) ∷ []

abbrev toy_iter : Iter
toy_iter = record { start = 2; end = 6; entry = λ slot. entry_of (toy_root slot) }

-- The world is what was sent, the last first.
abbrev toy : Server
toy = record {
  World = List (List ℕ);
  iter = λ w. some toy_iter;
  stream = λ w root. found root;
  stream_chunk = λ bytes w. (true, bytes ∷ w);
  write_error = λ code e w. [] ∷ w;
  in_view = λ w root. true;
}

abbrev limits : RangeLimits
limits = record { max_count = 100; max_step = 10 }

abbrev three : RangeRequest
three = record { start_slot = 3; count = 3; step = 1 }

-- The block of slot 3 is sent twice.
serve_range-three :
    serve_range toy limits (some three) [] ≡ some (handled, (5 ∷ []) ∷ (3 ∷ []) ∷ (3 ∷ []) ∷ [])
unfolding serve_range
serve_range-three = refl

-- An iterator that has no entry at slot 4: the block of slot 3 is sent, and then the handler panics.
abbrev gap_iter : Iter
gap_iter = record {
  start = 2;
  end = 6;
  entry = λ slot. if nat_beq slot 4 then entry_missing else entry_of (toy_root slot);
}

serve_range-gap :
    serve_range (record toy { iter = λ w. some gap_iter }) limits (some three) []
    ≡ some (crashed, (3 ∷ []) ∷ [])
unfolding serve_range
serve_range-gap = refl

serve_range-serve_roots_example :
    serve_range toy limits (some three) []
    ≡ some (handled, serve_roots toy (map toy_root (slots_from 3 1 3)) [])
unfolding slots_from
serve_range-serve_roots_example =
    serve_range-serve_roots toy toy_iter toy_root limits three [] (omega arith) (omega arith)
      (omega arith) refl (omega arith) (omega arith) (omega arith) (refl, (refl, (refl, tt)))

abbrev beyond : RangeRequest
beyond = record { start_slot = 18446744073709551615; count = 2; step = 1 }

serve_range_wraps_example : serve_range toy limits (some beyond) [] ≡ some (handled, [])
serve_range_wraps_example =
    serve_range_wraps toy limits beyond toy_iter [] (omega arith) (omega arith) (omega arith) refl
      (omega arith) (omega arith) (omega arith)

is_bad_slot_iff_example :
    (is_bad_slot three 4 ≡ false) ↔ ((i : ℕ) × (i < 3) × (◌≡◌ {A = ℕ} 4 (3 + i * 1)))
is_bad_slot_iff_example = is_bad_slot_iff three 4 (omega arith) (omega arith) (omega arith)

-- Blocks are their slots, and the world is what was stored.
abbrev toy_syncer : Syncer
toy_syncer = record {
  Block = ℕ;
  World = List ℕ;
  slot_of = λ b. b;
  add_block = λ b w. (none, w);
  store_block = λ b w. (none, b ∷ w);
  store = true;
  process = true;
}

abbrev chunks : List (Chunk ℕ)
chunks = success 3 ∷ success 2 ∷ success 5 ∷ []

-- A block from before the start, as an empty slot at the start is answered with, ends the sync.
sync_range-before : (sync_range toy_syncer three none chunks []).1 ≡ 3 ∷ []
unfolding sync_range is_bad_slot
sync_range-before = refl

sync_range-Filtered_example :
    (got : List ℕ × Option SyncError) × Filtered toy_syncer three none chunks got
    × Processed toy_syncer got.0 got.1 []
        (sync_range toy_syncer three none chunks []).0
        (sync_range toy_syncer three none chunks []).1
sync_range-Filtered_example = sync_range-Filtered toy_syncer three none chunks []
