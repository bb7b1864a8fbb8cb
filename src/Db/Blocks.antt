-- ===== src/Db/Blocks.antt =====
-- MemDB of chain/db/blocks/mem.go, with the pool of buffers of chain/db/blocks/db.go. The map holds values
-- of any type, and so does the pool: what is taken out goes through a type assertion, and a wrong type is
-- a panic. A buffer is its unread bytes. The bytes that a stored buffer shares with the map are never
-- written again, since only buffers that were not stored go back to the pool.
pub mod Facts
pub mod Valid
pub mod Reach
use rumor.Base.{
  ℕ, Bool, true, false, not, List, [], ◌∷◌, length, Option, none, some, Result, ok, err, panic,
  ◌==◌, bytes_eq, if◌then◌else◌,
}
use rumor.Base.Map
use rumor.Base.Map.{Map}
use rumor.Base.Exec.{Exec}
use rumor.Db.Table.{Root, Table, empty_table, load_or_store, evict, list_roots}

-- What the package uses of zrnt and ztyp: a signed block, its root and signature, and its SSZ form.
-- Decoding returns what it leaves unread of its reader, also beside an error.
pub record BlockCodec : Type 1 where
  pub Block : Type 0
  pub block_root : Block → Root
  pub signature : Block → List ℕ
  pub serialize : Block → Result ℕ (List ℕ)
  pub deserialize : List ℕ → Result ℕ Block × List ℕ

pub data BlocksError : Type 0 where
  store_failed decode_failed read_failed : ℕ → BlocksError
  signature_differs : Root → BlocksError

-- `exists` beside an error.
pub record Refused : Type 0 where
  pub existed : Bool
  pub error : BlocksError

module _ (bc : BlockCodec) where
  -- A value of an interface type, with the types that the package puts there or expects.
  pub data Dynamic : Type 0 where
    slice buffer : List ℕ → Dynamic
    block : bc.Block → Dynamic

  -- sync.Pool: Get takes any of the items that were put, or finds none and makes a new one.
  pub record Pooling : Type 0 where
    pub take : List Dynamic → Option (Dynamic × List Dynamic)

  pub record MemDb : Type 0 where
    pub table : Table Dynamic
    pub pool : List Dynamic

  abbrev pub Action : Type 0 → Type 0
  Action A = Exec Refused MemDb A

  -- `v.(*bytes.Buffer)`
  abbrev pub as_buffer : Dynamic → Option (List ℕ)
  as_buffer (buffer bytes) = some bytes
  as_buffer (slice bytes) = none
  as_buffer (block b) = none

  -- `v.(*beacon.SignedBeaconBlock)`
  abbrev pub as_block : Dynamic → Option bc.Block
  as_block (block b) = some b
  as_block (slice bytes) = none
  as_block (buffer bytes) = none

  abbrev pub reset : Option (List ℕ) → Result Refused (List ℕ)
  reset none = panic
  reset (some bytes) = ok []

module _ {bc : BlockCodec} where
  unfoldable pub new_mem_db : Root → List (Dynamic bc) → MemDb bc
  new_mem_db zero_root pool = record { table = empty_table zero_root; pool = pool }

  abbrev pub put_back : List ℕ → MemDb bc → MemDb bc
  put_back bytes db = record db { pool = buffer bytes ∷ db.pool }

  unfoldable pub get_pool_block_buf : Pooling bc → Action bc (List ℕ)
  get_pool_block_buf p db = elim (p.take db.pool) [
    | none ↦ (ok [], db)
    | some (v, rest) ↦ (reset bc (as_buffer bc v), record db { pool = rest })
  ]

  -- The end of Store and of Import: the signature of a known block is compared.
  unfoldable pub compare_known : Option bc.Block → bc.Block → Root → List ℕ → Action bc Bool
  compare_known none new root bytes db = (panic, db)
  compare_known (some known) new root bytes db =
      if bc.signature known == bc.signature new
      then (ok true, put_back bytes db)
      else (err (record { existed = true; error = signature_differs root }), put_back bytes db)

  -- `bytes` is what is unread of the buffer: it went into the map, or the buffer goes back to the pool.
  unfoldable pub after_load :
      bc.Block
      → Root
      → List ℕ
      → MemDb bc
      → Option (Dynamic bc) × Table (Dynamic bc)
      → Result Refused Bool × MemDb bc
  unfolding compare_known
  after_load new root bytes db (none, table) = (ok false, record db { table = table })
  after_load new root bytes db (some v, table) =
      compare_known (as_block bc v) new root bytes (record db { table = table })

  unfoldable pub keep_block : bc.Block → Root → List ℕ → Action bc Bool
  unfolding after_load
  keep_block new root bytes db =
      after_load new root bytes db (load_or_store root (slice bytes) db.table)

  unfoldable pub store_serialized : bc.Block → Root → Result ℕ (List ℕ) → Action bc Bool
  unfolding keep_block
  store_serialized new root (ok bytes) db = keep_block new root bytes db
  store_serialized new root (err e) db =
      (err (record { existed = false; error = store_failed e }), db)
  store_serialized new root panic db = (panic, db)

  -- Store of a BlockWithRoot.
  unfoldable pub store : Pooling bc → Root → bc.Block → Action bc Bool
  unfolding get_pool_block_buf store_serialized
  store p root new db =
      let (got, db') = get_pool_block_buf p db in
      elim got [
        | ok _ ↦ store_serialized new root (bc.serialize new) db'
        | err e ↦ (err e, db')
        | panic ↦ (panic, db')
      ]

  -- `buf.Bytes()` after decoding is what the decoding has left unread.
  unfoldable pub import_decoded : Result ℕ bc.Block × List ℕ → Action bc Bool
  unfolding keep_block
  import_decoded (ok new, left) db = keep_block new (bc.block_root new) left db
  import_decoded (err e, left) db = (err (record { existed = false; error = decode_failed e }), db)
  import_decoded (panic, left) db = (panic, db)

  -- What `buf.ReadFrom` has read, and its error.
  unfoldable pub import_read : List ℕ → Option ℕ → Action bc Bool
  unfolding import_decoded
  import_read bytes none db = import_decoded (bc.deserialize bytes) db
  import_read bytes (some e) db =
      (err (record { existed = false; error = read_failed e }), put_back bytes db)

  unfoldable pub import_block : Pooling bc → List ℕ → Option ℕ → Action bc Bool
  unfolding get_pool_block_buf import_read
  import_block p bytes e db =
      let (got, db') = get_pool_block_buf p db in
      elim got [ ok _ ↦ import_read bytes e db' | err x ↦ (err x, db') | panic ↦ (panic, db') ]

  -- The buffer of a block that was found, or that there is none.
  unfoldable pub find_buffer : Root → MemDb bc → Result Refused (Option (List ℕ))
  find_buffer root db = elim (Map.get db.table.stored root) [
    | none ↦ ok none
    | some v ↦ elim (as_buffer bc v) [ none ↦ panic | some bytes ↦ ok (some bytes) ]
  ]

  -- The buffer that was found has been read from.
  abbrev pub read_on : Root → List ℕ → MemDb bc → MemDb bc
  read_on root left db = record db {
    table = record db.table { stored = Map.put db.table.stored root (buffer left) };
  }

  unfoldable pub get_decoded : Root → Result ℕ bc.Block × List ℕ → Action bc (Option bc.Block)
  get_decoded root (ok b, left) db = (ok (some b), read_on root left db)
  get_decoded root (err e, left) db =
      (err (record { existed = true; error = decode_failed e }), read_on root left db)
  get_decoded root (panic, left) db = (panic, db)

  -- Get, with what it writes to `dest`.
  unfoldable pub get : Root → Action bc (Option bc.Block)
  unfolding find_buffer get_decoded
  get root db = elim (find_buffer root db) [
    | ok none ↦ (ok none, db)
    | ok (some bytes) ↦ get_decoded root (bc.deserialize bytes) db
    | err e ↦ (err e, db)
    | panic ↦ (panic, db)
  ]

  unfoldable pub size : Root → MemDb bc → Result Refused (Option ℕ)
  unfolding find_buffer
  size root db = elim (find_buffer root db) [
    | ok none ↦ ok none
    | ok (some bytes) ↦ ok (some (length bytes))
    | err e ↦ err e
    | panic ↦ panic
  ]

  -- Export to a writer that takes all, and Stream, whose reader is the buffer in the map itself.
  unfoldable pub export : Root → Action bc (Option (List ℕ))
  unfolding find_buffer
  export root db = elim (find_buffer root db) [
    | ok none ↦ (ok none, db)
    | ok (some bytes) ↦ (ok (some bytes), read_on root [] db)
    | err e ↦ (err e, db)
    | panic ↦ (panic, db)
  ]

  unfoldable pub stream : Root → MemDb bc → Result Refused (Option (List ℕ × ℕ))
  unfolding find_buffer
  stream root db = elim (find_buffer root db) [
    | ok none ↦ ok none
    | ok (some bytes) ↦ ok (some (bytes, length bytes))
    | err e ↦ err e
    | panic ↦ panic
  ]

  unfoldable pub remove : Root → MemDb bc → Bool × MemDb bc
  remove root db =
      let (v, table) = evict root db.table in
      elim v [
        | none ↦ (false, record db { table = table })
        | some v ↦ (true, record { table = table; pool = v ∷ db.pool })
      ]
