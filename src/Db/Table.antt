-- ===== src/Db/Table.antt =====
-- What MemDB of chain/db/blocks/mem.go and of chain/db/states/mem.go have in common: a sync.Map with
-- the statistics that are kept beside it.
pub mod Facts
use rumor.Base.{ℕ, List, Option, none, some, sub64, add64, bytes_eq}
use rumor.Base.Map
use rumor.Base.Map.{Map}

-- `beacon.Root`, a [32]byte, as its bytes.
abbrev pub Root : Type 0
Root = List ℕ

-- The count is an int64.
pub record DbStats : Type 0 where
  pub count : ℕ
  pub last_write : Root

pub record Table (V : Type 0) : Type 0 where
  pub stored : Map Root V
  pub stats : DbStats

module _ {V : Type 0} where
  unfoldable pub empty_table : Root → Table V
  empty_table zero_root = record {
    stored = Map.empty;
    stats = record { count = 0; last_write = zero_root };
  }

  -- `data.LoadOrStore`, and the statistics where it has stored.
  unfoldable pub load_or_store : Root → V → Table V → Option V × Table V
  load_or_store root v t = elim (Map.get t.stored root) [
    | some existing ↦ (some existing, t)
    | none ↦ (
      none,
      record {
        stored = Map.put t.stored root v;
        stats = record { count = add64 t.stats.count 1; last_write = root };
      },
    )
  ]

  -- What Remove takes out.
  unfoldable pub evict : Root → Table V → Option V × Table V
  evict root t = elim (Map.get t.stored root) [
    | none ↦ (none, record t { stored = Map.delete t.stored root })
    | some v ↦ (
      some v,
      record {
        stored = Map.delete t.stored root;
        stats = record t.stats { count = sub64 t.stats.count 1 };
      },
    )
  ]

  unfoldable pub list_roots : Table V → List Root
  list_roots t = Map.keys t.stored
