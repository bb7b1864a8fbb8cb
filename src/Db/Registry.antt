-- ===== src/Db/Registry.antt =====
-- DBMap of chain/db/blocks/global.go and of chain/db/states/global.go: databases by name, in a sync.Map.
pub mod Facts
use rumor.Base.{
  ℕ, Bool, true, false, List, [], ◌∷◌, Option, none, some, Result, ok, err, panic, bytes_eq,
}
use rumor.Base.Map
use rumor.Base.Map.{Map}
use rumor.Db.Table.{Root}
use rumor.Db.Blocks
use rumor.Db.States

-- A DBID and a path, as bytes.
abbrev pub Name : Type 0
Name = List ℕ

pub data DbsError : Type 0 where
  db_existed file_unsupported : DbsError

-- A database of blocks; of FileDB only its path.
pub data BlocksDb (bc : Blocks.BlockCodec) : Type 0 where
  mem_blocks : Blocks.MemDb bc → BlocksDb bc
  file_blocks : Name → BlocksDb bc

module _ {Db : Type 0} where
  unfoldable pub find_db : Name → Map Name Db → Option Db
  find_db id dbs = Map.get dbs id

  -- Create, of a database that could be made.
  unfoldable pub add_db : Name → Db → Map Name Db → Result DbsError Db × Map Name Db
  add_db id db dbs = elim (Map.get dbs id) [
    | none ↦ (ok db, Map.put dbs id db)
    | some old ↦ (err db_existed, dbs)
  ]

  unfoldable pub create : Result DbsError Db → Name → Map Name Db → Result DbsError Db × Map Name Db
  unfolding add_db
  create (ok db) id dbs = add_db id db dbs
  create (err e) id dbs = (err e, dbs)
  create panic id dbs = (panic, dbs)

  unfoldable pub remove_db : Name → Map Name Db → Bool × Map Name Db
  remove_db id dbs = elim (Map.get dbs id) [
    | none ↦ (false, dbs)
    | some db ↦ (true, Map.delete dbs id)
  ]

-- An empty path makes a database in memory.
module _ {bc : Blocks.BlockCodec} where
  unfoldable pub make_blocks_db :
      Root → List (Blocks.Dynamic bc) → Name → Result DbsError (BlocksDb bc)
  make_blocks_db zero_root pool [] = ok (mem_blocks (Blocks.new_mem_db zero_root pool))
  make_blocks_db zero_root pool (c ∷ path) = ok (file_blocks (c ∷ path))

module _ {sv : States.StateViews} where
  unfoldable pub make_states_db : Root → Name → Result DbsError (States.MemDb sv)
  make_states_db zero_root [] = ok (States.new_mem_db zero_root)
  make_states_db zero_root (c ∷ path) = err file_unsupported
