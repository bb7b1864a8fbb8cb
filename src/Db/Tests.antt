-- ===== src/Db/Tests.antt =====
-- The databases at concrete inputs: blocks and states that are numbers, with one byte each.
use rumor.Base.{
  ℕ, ◌≡◌, ◌≢◌, refl, true, false, List, [], ◌∷◌, Option, none, some, Result, ok, err, panic,
  bytes_eq,
}
use rumor.Base.Map
use rumor.Base.Map.{Map}
use rumor.Base.Compare.{bytes_beq}
use rumor.Db.Table.{Root, empty_table, load_or_store}
use rumor.Db.Blocks.{
  BlockCodec, Dynamic, slice, Pooling, MemDb, new_mem_db, get_pool_block_buf, store, import_block,
  keep_block, get, size, export, stream, remove,
}
use rumor.Db.Blocks.Facts.{Kept, import_block-Kept, remove-spoils}
use rumor.Db.Blocks.Reach.{here, next, stored, Reach-reads}
use rumor.Db.States
use rumor.Db.States.{StateViews}
use rumor.Db.States.Facts.{get-store}

abbrev decode_byte : List ℕ → Result ℕ ℕ × List ℕ
decode_byte [] = (err 1, [])
decode_byte (b ∷ bytes) = (ok b, bytes)

abbrev byte_codec : BlockCodec
byte_codec = record {
  Block = ℕ;
  block_root = λ b. b ∷ b ∷ [];
  signature = λ b. b ∷ [];
  serialize = λ b. ok (b ∷ []);
  deserialize = decode_byte;
}

-- A pool that gives out what was put last.
abbrev take_last :
    List (Dynamic byte_codec) → Option (Dynamic byte_codec × List (Dynamic byte_codec))
take_last [] = none
take_last (v ∷ rest) = some (v, rest)

abbrev stack : Pooling byte_codec
stack = record { take = take_last }

abbrev fresh : MemDb byte_codec
fresh = new_mem_db [] []

abbrev with_seven : MemDb byte_codec
with_seven = (store stack (7 ∷ 7 ∷ []) 7 fresh).1

store-seven : (store stack (7 ∷ 7 ∷ []) 7 fresh).0 ≡ ok false
unfolding store new_mem_db empty_table load_or_store Map.get Map.empty
store-seven = refl

import_block-Kept_example :
    Kept (7 ∷ 7 ∷ []) [] (get_pool_block_buf stack fresh).1 (import_block stack (7 ∷ []) none fresh)
unfolding get_pool_block_buf new_mem_db empty_table Map.get Map.empty
import_block-Kept_example = import_block-Kept stack (7 ∷ []) [] 7 fresh refl refl refl

Reach-reads_example :
    ((v : Dynamic byte_codec)
      → Map.get with_seven.table.stored (7 ∷ 7 ∷ []) ≡ some v
      → (get (7 ∷ 7 ∷ []) with_seven ≡ (panic, with_seven))
        × (size (7 ∷ 7 ∷ []) with_seven ≡ panic)
        × (export (7 ∷ 7 ∷ []) with_seven ≡ (panic, with_seven))
        × (stream (7 ∷ 7 ∷ []) with_seven ≡ panic)
        × ((new : ℕ) (bytes : List ℕ) → (keep_block new (7 ∷ 7 ∷ []) bytes with_seven).0 ≡ panic))
    × (Map.get with_seven.table.stored (7 ∷ 7 ∷ []) ≡ none
        → (get (7 ∷ 7 ∷ []) with_seven ≡ (ok none, with_seven))
          × (size (7 ∷ 7 ∷ []) with_seven ≡ ok none)
          × (export (7 ∷ 7 ∷ []) with_seven ≡ (ok none, with_seven))
          × (stream (7 ∷ 7 ∷ []) with_seven ≡ ok none))
Reach-reads_example =
    Reach-reads stack [] [] with_seven (7 ∷ 7 ∷ []) (next here (stored (7 ∷ 7 ∷ []) 7 fresh))

-- The block that was just stored is such a one.
get-seven : get (7 ∷ 7 ∷ []) with_seven ≡ (panic, with_seven)
unfolding store new_mem_db empty_table load_or_store Map.get Map.empty Map.put bytes_beq
get-seven =
    ((Reach-reads stack [] [] with_seven (7 ∷ 7 ∷ []) (next here (stored (7 ∷ 7 ∷ []) 7 fresh))).0
      (slice (7 ∷ [])) refl).0

remove-spoils_example :
    ((remove (7 ∷ 7 ∷ []) with_seven).0 ≡ true)
    × ((other : Root) (new : ℕ)
        → (store stack other new (remove (7 ∷ 7 ∷ []) with_seven).1).0 ≡ panic)
    × ((bytes : List ℕ) (e : Option ℕ)
        → (import_block stack bytes e (remove (7 ∷ 7 ∷ []) with_seven).1).0 ≡ panic)
unfolding store new_mem_db empty_table load_or_store Map.get Map.empty Map.put bytes_beq
remove-spoils_example = remove-spoils stack (7 ∷ 7 ∷ []) (7 ∷ []) with_seven refl (λ v rest. refl)

abbrev number_views : StateViews
number_views = record {
  State = ℕ;
  Node = ℕ;
  hash_tree_root = λ s. s ∷ [];
  backing = λ s. s;
  view_from_backing = λ n. ok n;
}

abbrev no_states : States.MemDb number_views
no_states = States.new_mem_db []

get-store_example :
    ((States.store 5 no_states).0 ≡ false)
    × (States.get (5 ∷ []) (States.store 5 no_states).1 ≡ ok (some 5))
    × ((other : Root)
        → 5 ∷ [] ≢ other
        → States.get other (States.store 5 no_states).1 ≡ States.get other no_states)
unfolding States.get States.new_mem_db empty_table Map.get Map.empty
get-store_example = get-store 5 5 no_states refl refl
