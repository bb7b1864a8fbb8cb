-- ===== src/Db/States.antt =====
-- MemDB of chain/db/states/mem.go: states by the root of their tree, as the backings of their views.
pub mod Facts
use rumor.Base.{ℕ, Bool, true, false, List, Option, none, some, Result, ok, err, panic, bytes_eq}
use rumor.Base.Map
use rumor.Base.Map.{Map}
use rumor.Db.Table.{Root, Table, empty_table, load_or_store, evict}

-- What the package uses of zrnt and ztyp: a view of a state, its root, the immutable tree behind it,
-- and a new view of such a tree.
pub record StateViews : Type 1 where
  pub State : Type 0
  pub Node : Type 0
  pub hash_tree_root : State → Root
  pub backing : State → Node
  pub view_from_backing : Node → Result ℕ State

-- The map holds nothing but nodes, so that the type assertions hold.
pub record MemDb (sv : StateViews) : Type 0 where
  pub table : Table sv.Node

module _ {State : Type 0} where
  unfoldable pub viewed : Result ℕ State → Result ℕ (Option State)
  viewed (ok state) = ok (some state)
  viewed (err e) = err e
  viewed panic = panic

module _ {Node State : Type 0} where
  -- The view of the backing that was found; an error comes with `exists`.
  unfoldable pub as_view : (Node → Result ℕ State) → Option Node → Result ℕ (Option State)
  unfolding viewed
  as_view view none = ok none
  as_view view (some node) = viewed (view node)

module _ {Node : Type 0} where
  abbrev pub is_there : Option Node → Bool
  is_there none = false
  is_there (some node) = true

module _ {sv : StateViews} where
  unfoldable pub new_mem_db : Root → MemDb sv
  new_mem_db zero_root = record { table = empty_table zero_root }

  unfoldable pub store : sv.State → MemDb sv → Bool × MemDb sv
  store state db =
      let (existing, table) = load_or_store (sv.hash_tree_root state) (sv.backing state) db.table in
      (is_there existing, record { table = table })

  unfoldable pub get : Root → MemDb sv → Result ℕ (Option sv.State)
  unfolding as_view
  get root db = as_view sv.view_from_backing (Map.get db.table.stored root)

  unfoldable pub remove : Root → MemDb sv → Bool × MemDb sv
  remove root db = let (v, table) = evict root db.table in (is_there v, record { table = table })
