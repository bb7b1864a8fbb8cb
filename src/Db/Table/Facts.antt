-- ===== src/Db/Table/Facts.antt =====
-- The count that is kept beside the entries is the number of entries.
use rumor.Base.{
  ◌%◌, ◌^◌, ◌≡◌, refl, sym, ap, ◌∙◌, none, some, add64, bytes_eq, arith, Option-cases, inl, inr,
}
use rumor.Base.Map
use rumor.Base.Map.{
  Map, IsUnique, empty-IsUnique, put-IsUnique, delete-IsUnique, size-put_new, size-delete_unique,
  delete_fresh,
}
use rumor.Db.Table.{Root, Table, empty_table, load_or_store, evict}

pub record Counted {V : Type 0} (t : Table V) : Type 0 where
  pub unique : IsUnique t.stored
  pub counts : t.stats.count ≡ Map.size t.stored % 2 ^ 64

module _ {V : Type 0} where
  pub load_or_store_new :
      (root : Root) (v : V) (t : Table V)
      → Map.get t.stored root ≡ none
      → load_or_store root v t ≡ (
        none,
        record {
          stored = Map.put t.stored root v;
          stats = record { count = add64 t.stats.count 1; last_write = root };
        },
      )
  unfolding load_or_store
  load_or_store_new root v t e = rw (e, load_or_store) refl

  pub load_or_store_known :
      (root : Root) (v w : V) (t : Table V)
      → Map.get t.stored root ≡ some w
      → load_or_store root v t ≡ (some w, t)
  unfolding load_or_store
  load_or_store_known root v w t e = rw (e, load_or_store) refl

  pub empty_table-Counted : (z : Root) → Counted {V = V} (empty_table z)
  unfolding empty_table Map.size Map.empty
  empty_table-Counted z = record { unique = empty-IsUnique Map.empty refl; counts = refl }

  pub load_or_store-Counted :
      (root : Root) (v : V) (t : Table V) → Counted t → Counted (load_or_store root v t).1
  unfolding load_or_store
  load_or_store-Counted root v t c = elim (Option-cases (Map.get t.stored root)) [
    | inr (w, e) ↦ rw (e, load_or_store) c
    | inl e ↦
        rw (e, load_or_store)
          (record {
            unique = put-IsUnique t.stored root v c.unique;
            counts = omega (arith, c.counts, size-put_new t.stored root v e);
          })
  ]

  pub evict-Counted : (root : Root) (t : Table V) → Counted t → Counted (evict root t).1
  unfolding evict
  evict-Counted root t c = elim (Option-cases (Map.get t.stored root)) [
    | inl e ↦
        rw (e, evict)
          (record {
            unique = delete-IsUnique t.stored root c.unique;
            counts = c.counts ∙ ap (λ m. Map.size m % 2 ^ 64) (sym (delete_fresh t.stored root e));
          })
    | inr (w, e) ↦
        rw (e, evict)
          (record {
            unique = delete-IsUnique t.stored root c.unique;
            counts = omega (arith, c.counts, size-delete_unique t.stored root w c.unique e);
          })
  ]
