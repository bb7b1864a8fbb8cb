-- ===== src/Db/Blocks/Valid.antt =====
-- MemDB of chain/db/blocks/mem.go: its map holds byte slices only, and its count is right.
use rumor.Base.{
  ℕ, ◌≡◌, refl, sym, Bool, List, Option, none, some, Result, ok, err, panic, Result-cases,
  Option-cases, inl, inr, bytes_eq, arith,
}
use rumor.Base.Map
use rumor.Base.Map.{Map, get-put_cases, get-of_delete, get-empty}
use rumor.Db.Table.{Root, Table, load_or_store, evict}
use rumor.Db.Table.Facts.{Counted, load_or_store-Counted, evict-Counted}
use rumor.Db.Blocks.{
  BlockCodec, Refused, Dynamic, slice, Pooling, MemDb, as_block, get_pool_block_buf, compare_known,
  after_load, keep_block, store_serialized, import_decoded, import_read,
}

module _ {bc : BlockCodec} where
  -- All that the map holds are byte slices, and the count is right.
  pub record Valid (t : Table (Dynamic bc)) : Type 0 where
    pub slices :
        (root : Root) (v : Dynamic bc)
        → Map.get t.stored root ≡ some v
        → (bytes : List ℕ) × (v ≡ slice bytes)
    pub counted : Counted t

  abbrev pub IsValid : MemDb bc → Type 0
  IsValid db = Valid db.table

  pub load_or_store-Valid :
      (root : Root) (bytes : List ℕ) (t : Table (Dynamic bc))
      → Valid t
      → Valid (load_or_store root (slice bytes) t).1
  unfolding load_or_store
  load_or_store-Valid root bytes t c = record {
    slices = elim (Option-cases (Map.get t.stored root)) [
      | inr (w, e) ↦ rw (e, load_or_store) c.slices
      | inl e ↦
          rw (e, load_or_store)
            (λ other v at. elim (get-put_cases t.stored root other (slice bytes) v at) [
              | inl (same, new) ↦ (bytes, sym new)
              | inr old ↦ c.slices other v old
            ])
    ];
    counted = load_or_store-Counted root (slice bytes) t c.counted;
  }

  pub evict-Valid : (root : Root) (t : Table (Dynamic bc)) → Valid t → Valid (evict root t).1
  unfolding evict
  evict-Valid root t c = record {
    slices = elim (Option-cases (Map.get t.stored root)) [
      | inl e ↦
          rw (e, evict) (λ other v at. c.slices other v (get-of_delete t.stored root other v at).0)
      | inr (w, e) ↦
          rw (e, evict) (λ other v at. c.slices other v (get-of_delete t.stored root other v at).0)
    ];
    counted = evict-Counted root t c.counted;
  }

  compare_known-table :
      (known : Option bc.Block) (new : bc.Block) (root : Root) (bytes : List ℕ) (db : MemDb bc)
      → (compare_known known new root bytes db).1.table ≡ db.table
  unfolding compare_known
  compare_known-table none new root bytes db = refl
  compare_known-table (some known) new root bytes db = ground arith

  after_load-table :
      (new : bc.Block) (root : Root) (bytes : List ℕ) (db : MemDb bc)
      → (loaded : Option (Dynamic bc) × Table (Dynamic bc))
      → (after_load new root bytes db loaded).1.table ≡ loaded.1
  unfolding after_load
  after_load-table new root bytes db (none, table) = refl
  after_load-table new root bytes db (some v, table) =
      compare_known-table (as_block bc v) new root bytes (record db { table = table })

  keep_block-table :
      (new : bc.Block) (root : Root) (bytes : List ℕ) (db : MemDb bc)
      → (keep_block new root bytes db).1.table ≡ (load_or_store root (slice bytes) db.table).1
  unfolding keep_block
  keep_block-table new root bytes db =
      after_load-table new root bytes db (load_or_store root (slice bytes) db.table)

  keep_block-IsValid :
      (new : bc.Block) (root : Root) (bytes : List ℕ) (db : MemDb bc)
      → IsValid db
      → IsValid (keep_block new root bytes db).1
  keep_block-IsValid new root bytes db c =
      rw (keep_block-table new root bytes db) (load_or_store-Valid root bytes db.table c)

  get_pool_block_buf-table :
      (p : Pooling bc) (db : MemDb bc) → (get_pool_block_buf p db).1.table ≡ db.table
  unfolding get_pool_block_buf
  get_pool_block_buf-table p db = elim (Option-cases (p.take db.pool)) [
    | inl e ↦ rw (e, get_pool_block_buf) refl
    | inr (v, e) ↦ rw (e, get_pool_block_buf) refl
  ]

  pub store_serialized-IsValid :
      (new : bc.Block) (root : Root) (r : Result ℕ (List ℕ)) (db : MemDb bc)
      → IsValid db
      → IsValid (store_serialized new root r db).1
  unfolding store_serialized
  store_serialized-IsValid new root (ok bytes) db c = keep_block-IsValid new root bytes db c
  store_serialized-IsValid new root (err e) db c = c
  store_serialized-IsValid new root panic db c = c

  import_decoded-IsValid :
      (r : Result ℕ bc.Block × List ℕ) (db : MemDb bc)
      → IsValid db
      → IsValid (import_decoded r db).1
  unfolding import_decoded
  import_decoded-IsValid (ok new, left) db c = keep_block-IsValid new (bc.block_root new) left db c
  import_decoded-IsValid (err e, left) db c = c
  import_decoded-IsValid (panic, left) db c = c

  pub import_read-IsValid :
      (bytes : List ℕ) (e : Option ℕ) (db : MemDb bc)
      → IsValid db
      → IsValid (import_read bytes e db).1
  unfolding import_read
  import_read-IsValid bytes none db c = import_decoded-IsValid (bc.deserialize bytes) db c
  import_read-IsValid bytes (some e) db c = c

  -- With a buffer from the pool, or without one.
  pub with_buffer-IsValid :
      (p : Pooling bc) (db : MemDb bc) (f : MemDb bc → Result Refused Bool × MemDb bc)
      → IsValid db
      → ((db' : MemDb bc) → IsValid db' → IsValid (f db').1)
      → IsValid
          (elim (get_pool_block_buf p db).0 as (λ _. Result Refused Bool × MemDb bc) [
            | ok _ ↦ f (get_pool_block_buf p db).1
            | err e ↦ (err e, (get_pool_block_buf p db).1)
            | panic ↦ (panic, (get_pool_block_buf p db).1)
          ]).1
  with_buffer-IsValid p db f c h =
      let c' : IsValid (get_pool_block_buf p db).1 = rw (get_pool_block_buf-table p db) c in
      elim (Result-cases (get_pool_block_buf p db).0) [
        | inl (b, e) ↦ rw e (h (get_pool_block_buf p db).1 c')
        | inr (inl (x, e)) ↦ rw e c'
        | inr (inr e) ↦ rw e c'
      ]
