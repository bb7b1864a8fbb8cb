-- ===== src/Db/Blocks/Reach.antt =====
-- MemDB of chain/db/blocks/mem.go: what holds after any series of its operations.
use rumor.Base.{
  ℕ, ◌≡◌, refl, sym, ap, ◌∙◌, List, Option, none, some, ok, panic, Option-cases, inl, inr, bytes_eq,
}
use rumor.Base.Map
use rumor.Base.Map.{Map, get-put_cases, get-of_delete, get-empty}
use rumor.Db.Table.{Root, empty_table, evict}
use rumor.Db.Table.Facts.{empty_table-Counted, load_or_store_known}
use rumor.Db.Blocks.{
  BlockCodec, Dynamic, slice, Pooling, MemDb, new_mem_db, compare_known, after_load, keep_block,
  store_serialized, store, import_read, import_block, find_buffer, get, size, export, stream,
  remove,
}
use rumor.Db.Blocks.Valid.{
  IsValid, evict-Valid, store_serialized-IsValid, import_read-IsValid, with_buffer-IsValid,
}

module _ {bc : BlockCodec} where
  -- A byte slice is no buffer.
  pub find_buffer_panics :
      (root : Root) (db : MemDb bc) (v : Dynamic bc)
      → IsValid db
      → Map.get db.table.stored root ≡ some v
      → find_buffer root db ≡ panic
  unfolding find_buffer
  find_buffer_panics root db v c e =
      let (bytes, is_slice) = c.slices root v e in rw (e, find_buffer) (rw is_slice refl)

  -- Nor is it a block.
  keep_block_panics :
      (new : bc.Block) (root : Root) (bytes : List ℕ) (db : MemDb bc) (v : Dynamic bc)
      → IsValid db
      → Map.get db.table.stored root ≡ some v
      → (keep_block new root bytes db).0 ≡ panic
  unfolding keep_block after_load compare_known
  keep_block_panics new root bytes db v c e =
      let (old, is_slice) = c.slices root v e in
      let known =
        load_or_store_known root (slice bytes) (slice old) db.table (e ∙ ap some is_slice) in
      ap (λ loaded. (after_load new root bytes db loaded).0) known

  find_buffer-none :
      (root : Root) (db : MemDb bc)
      → Map.get db.table.stored root ≡ none
      → find_buffer root db ≡ ok none
  unfolding find_buffer
  find_buffer-none root db e = rw (e, find_buffer) refl

  get-IsValid : (root : Root) (db : MemDb bc) → IsValid db → IsValid (get root db).1
  unfolding get
  get-IsValid root db c = elim (Option-cases (Map.get db.table.stored root)) [
    | inl e ↦ rw (find_buffer-none root db e, get) c
    | inr (v, e) ↦ rw (find_buffer_panics root db v c e, get) c
  ]

  export-IsValid : (root : Root) (db : MemDb bc) → IsValid db → IsValid (export root db).1
  unfolding export
  export-IsValid root db c = elim (Option-cases (Map.get db.table.stored root)) [
    | inl e ↦ rw (find_buffer-none root db e, export) c
    | inr (v, e) ↦ rw (find_buffer_panics root db v c e, export) c
  ]

  remove-table : (root : Root) (db : MemDb bc) → (remove root db).1.table ≡ (evict root db.table).1
  unfolding remove
  remove-table root db = elim (Option-cases (evict root db.table).0) [
    | inl e ↦ rw (e, remove) refl
    | inr (v, e) ↦ rw (e, remove) refl
  ]

  module _ (p : Pooling bc) where
    pub data Step : MemDb bc → MemDb bc → Type 0 where
      stored : (root : Root) (new : bc.Block) (db : MemDb bc) → Step db (store p root new db).1
      imported :
          (bytes : List ℕ) (e : Option ℕ) (db : MemDb bc) → Step db (import_block p bytes e db).1
      read : (root : Root) (db : MemDb bc) → Step db (get root db).1
      exported : (root : Root) (db : MemDb bc) → Step db (export root db).1
      removed : (root : Root) (db : MemDb bc) → Step db (remove root db).1
      -- Other databases of the package use the same pool.
      pooled : (db : MemDb bc) (pool : List (Dynamic bc)) → Step db (record db { pool = pool })

    pub data Reach (db : MemDb bc) : MemDb bc → Type 0 where
      here : Reach db db
      next : {db' db'' : MemDb bc} → Reach db db' → Step db' db'' → Reach db db''

    Step-IsValid : {db db' : MemDb bc} → Step db db' → IsValid db → IsValid db'
    unfolding store import_block
    Step-IsValid (stored root new db) c =
        with_buffer-IsValid p db (λ db'. store_serialized new root (bc.serialize new) db') c
          (λ db' c'. store_serialized-IsValid new root (bc.serialize new) db' c')
    Step-IsValid (imported bytes e db) c =
        with_buffer-IsValid p db (λ db'. import_read bytes e db') c
          (λ db' c'. import_read-IsValid bytes e db' c')
    Step-IsValid (read root db) c = get-IsValid root db c
    Step-IsValid (exported root db) c = export-IsValid root db c
    Step-IsValid (removed root db) c = rw (remove-table root db) (evict-Valid root db.table c)
    Step-IsValid (pooled db pool) c = c

    from-IsValid : {db db' : MemDb bc} → Reach db db' → IsValid db → IsValid db'
    from-IsValid here c = c
    from-IsValid (next r st) c = Step-IsValid st (from-IsValid r c)

    new_mem_db-IsValid : (z : Root) (pool : List (Dynamic bc)) → IsValid (new_mem_db z pool)
    unfolding new_mem_db empty_table
    new_mem_db-IsValid z pool = record {
      slices = λ root v e. let gone : none ≡ some v = sym (get-empty root) ∙ e in absurd (cc);
      counted = empty_table-Counted z;
    }

    -- After any operations on a new database, whatever happens to the pool of buffers, all values in
    -- its map are byte slices, no root stands in it twice, and the count is the number of blocks.
    pub Reach-Valid :
        (z : Root) (pool : List (Dynamic bc)) (db : MemDb bc)
        → Reach (new_mem_db z pool) db
        → IsValid db
    Reach-Valid z pool db r = from-IsValid r (new_mem_db-IsValid z pool)

    -- In a database that was used in any way since it was new, to read a block that is there is a
    -- panic: Get, Size, Export and Stream take the byte slice in the map for a buffer. So is the end of
    -- Store and Import, which takes it for a block. A block that is not there is reported as such.
    pub Reach-reads :
        (z : Root) (pool : List (Dynamic bc)) (db : MemDb bc) (root : Root)
        → Reach (new_mem_db z pool) db
        → ((v : Dynamic bc)
            → Map.get db.table.stored root ≡ some v
            → (get root db ≡ (panic, db))
              × (size root db ≡ panic)
              × (export root db ≡ (panic, db))
              × (stream root db ≡ panic)
              × ((new : bc.Block) (bytes : List ℕ) → (keep_block new root bytes db).0 ≡ panic))
          × (Map.get db.table.stored root ≡ none
              → (get root db ≡ (ok none, db))
                × (size root db ≡ ok none)
                × (export root db ≡ (ok none, db))
                × (stream root db ≡ ok none))
    unfolding get size export stream
    Reach-reads z pool db root r = (
      λ v e.
          let f = find_buffer_panics root db v (Reach-Valid z pool db r) e in
          (
            rw (f, get) refl,
            rw (f, size) refl,
            rw (f, export) refl,
            rw (f, stream) refl,
            λ new bytes. keep_block_panics new root bytes db v (Reach-Valid z pool db r) e,
          ),
      λ e.
          let f = find_buffer-none root db e in
          (rw (f, get) refl, rw (f, size) refl, rw (f, export) refl, rw (f, stream) refl),
    )
