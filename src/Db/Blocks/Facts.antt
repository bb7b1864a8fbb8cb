-- ===== src/Db/Blocks/Facts.antt =====
-- MemDB of chain/db/blocks/mem.go: single operations.
use rumor.Base.{
  ℕ, ◌≡◌, ◌≢◌, refl, sym, subst, Bool, true, false, List, [], ◌∷◌, Option, none, some, Result, ok,
  panic, bytes_eq, add64, beq_ne,
}
use rumor.Base.Map
use rumor.Base.Map.{Map, get-put, get-put_self}
use rumor.Db.Table.{Root, evict}
use rumor.Db.Table.Facts.{load_or_store_new}
use rumor.Db.Blocks.{
  BlockCodec, Refused, Dynamic, slice, Pooling, MemDb, get_pool_block_buf, after_load, keep_block,
  store_serialized, store, import_decoded, import_read, import_block, remove,
}

module _ {bc : BlockCodec} where
  -- What Store and Import leave of a block that was not known.
  pub record Kept (root : Root) (bytes : List ℕ) (db : MemDb bc)
      (got : Result Refused Bool × MemDb bc) : Type 0 where
    pub is_new : got.0 ≡ ok false
    pub holds_bytes : Map.get got.1.table.stored root ≡ some (slice bytes)
    pub others :
        (other : Root)
        → root ≢ other
        → Map.get got.1.table.stored other ≡ Map.get db.table.stored other
    pub written : got.1.table.stats.last_write ≡ root
    pub counted : got.1.table.stats.count ≡ add64 db.table.stats.count 1

  keep_block-Kept :
      (new : bc.Block) (root : Root) (bytes : List ℕ) (db : MemDb bc)
      → Map.get db.table.stored root ≡ none
      → Kept root bytes db (keep_block new root bytes db)
  unfolding keep_block after_load
  keep_block-Kept new root bytes db e =
      subst (λ loaded. Kept root bytes db (after_load new root bytes db loaded))
        (sym (load_or_store_new root (slice bytes) db.table e))
        (record {
          is_new = refl;
          holds_bytes = get-put_self db.table.stored root (slice bytes);
          others = λ other ne. rw (get-put, beq_ne root other ne) refl;
          written = refl;
          counted = refl;
        })

  -- Store of a new block, with a buffer at hand, keeps its SSZ bytes under the root it was given.
  pub store-Kept :
      (p : Pooling bc) (root : Root) (new : bc.Block) (bytes : List ℕ) (db : MemDb bc)
      → (get_pool_block_buf p db).0 ≡ ok []
      → bc.serialize new ≡ ok bytes
      → Map.get (get_pool_block_buf p db).1.table.stored root ≡ none
      → Kept root bytes (get_pool_block_buf p db).1 (store p root new db)
  unfolding store store_serialized
  store-Kept p root new bytes db at_hand fine e =
      rw (at_hand, store)
        (rw (fine, store_serialized) (keep_block-Kept new root bytes (get_pool_block_buf p db).1 e))

  -- Import of a new block keeps what the decoding has left unread of the input, not the input.
  pub import_block-Kept :
      (p : Pooling bc) (bytes left : List ℕ) (new : bc.Block) (db : MemDb bc)
      → (get_pool_block_buf p db).0 ≡ ok []
      → bc.deserialize bytes ≡ (ok new, left)
      → Map.get (get_pool_block_buf p db).1.table.stored (bc.block_root new) ≡ none
      → Kept (bc.block_root new) left (get_pool_block_buf p db).1 (import_block p bytes none db)
  unfolding import_block import_read import_decoded
  import_block-Kept p bytes left new db at_hand fine e =
      rw (at_hand, import_block)
        (rw (fine, import_read, import_decoded)
          (keep_block-Kept new (bc.block_root new) left (get_pool_block_buf p db).1 e))

  -- After a block was removed, Store and Import panic where the pool gives out what was put last:
  -- Remove has put the byte slice of the block there.
  pub remove-spoils :
      (p : Pooling bc) (root : Root) (stored : List ℕ) (db : MemDb bc)
      → Map.get db.table.stored root ≡ some (slice stored)
      → ((v : Dynamic bc) (rest : List (Dynamic bc)) → p.take (v ∷ rest) ≡ some (v, rest))
      → ((remove root db).0 ≡ true)
        × ((other : Root) (new : bc.Block) → (store p other new (remove root db).1).0 ≡ panic)
        × ((bytes : List ℕ) (e : Option ℕ) → (import_block p bytes e (remove root db).1).0 ≡ panic)
  unfolding remove evict store import_block get_pool_block_buf
  remove-spoils p root stored db e lifo =
      let gone = lifo (slice stored) db.pool in
      rw (e, evict, remove)
        (
          refl,
          λ other new. rw (gone, store, get_pool_block_buf) refl,
          λ bytes x. rw (gone, import_block, get_pool_block_buf) refl,
        )
