-- ===== src/Db/States/Facts.antt =====
-- MemDB of chain/db/states/mem.go: what is stored is found, and the count is right.
use rumor.Base.{
  ℕ, ◌≡◌, ◌≢◌, refl, ap, ◌∙◌, false, Option, none, some, Result, ok, err, panic, bytes_eq, beq_ne,
}
use rumor.Base.Map
use rumor.Base.Map.{Map, get-put, get-put_self, get-delete}
use rumor.Db.Table.{Root}
use rumor.Db.Table.Facts.{
  Counted, empty_table-Counted, load_or_store-Counted, load_or_store_new, evict-Counted,
}
use rumor.Db.States.{StateViews, MemDb, new_mem_db, store, get, viewed, as_view, is_there, remove}

none-of_viewed : {State : Type 0} (r : Result ℕ State) → viewed r ≢ ok none
unfolding viewed
none-of_viewed (ok s) e = cc
none-of_viewed (err x) e = cc
none-of_viewed panic e = cc

none-of_as_view :
    {Node State : Type 0} (view : Node → Result ℕ State) (o : Option Node)
    → as_view view o ≡ ok none
    → o ≡ none
unfolding as_view
none-of_as_view view none e = refl
none-of_as_view view (some node) e = absurd (none-of_viewed (view node) e)

module _ {sv : StateViews} where
  -- A state of an unknown root that is stored is found again, and no other state is changed. The one
  -- thing that is asked of the library is that a view can be made of the state's tree.
  pub get-store :
      (state seen : sv.State) (db : MemDb sv)
      → get (sv.hash_tree_root state) db ≡ ok none
      → sv.view_from_backing (sv.backing state) ≡ ok seen
      → ((store state db).0 ≡ false)
        × (get (sv.hash_tree_root state) (store state db).1 ≡ ok (some seen))
        × ((other : Root)
            → sv.hash_tree_root state ≢ other
            → get other (store state db).1 ≡ get other db)
  unfolding get store as_view viewed
  get-store state seen db unknown fine =
      let root = sv.hash_tree_root state in
      let stored =
        load_or_store_new root (sv.backing state) db.table
          (none-of_as_view sv.view_from_backing (Map.get db.table.stored root) unknown) in
      (
        ap (λ loaded. is_there loaded.0) stored,
        ap (λ loaded. as_view sv.view_from_backing (Map.get loaded.1.stored root)) stored
            ∙ rw (get-put_self, as_view, fine) refl,
        λ other ne.
            ap (λ loaded. as_view sv.view_from_backing (Map.get loaded.1.stored other)) stored
            ∙ rw (get-put, beq_ne root other ne) refl,
      )

  pub data Step : MemDb sv → MemDb sv → Type 0 where
    stored : (state : sv.State) (db : MemDb sv) → Step db (store state db).1
    removed : (root : Root) (db : MemDb sv) → Step db (remove root db).1

  pub data Reach (db : MemDb sv) : MemDb sv → Type 0 where
    here : Reach db db
    next : {db' db'' : MemDb sv} → Reach db db' → Step db' db'' → Reach db db''

  Step-Counted : {db db' : MemDb sv} → Step db db' → Counted db.table → Counted db'.table
  unfolding store remove
  Step-Counted (stored state db) c =
      load_or_store-Counted (sv.hash_tree_root state) (sv.backing state) db.table c
  Step-Counted (removed root db) c = evict-Counted root db.table c

  from-Counted : {db db' : MemDb sv} → Reach db db' → Counted db.table → Counted db'.table
  from-Counted here c = c
  from-Counted (next r st) c = Step-Counted st (from-Counted r c)

  -- After any stores and removals on a new database no root stands in it twice, and the count of its
  -- statistics is the number of its states.
  pub Reach-Counted : (z : Root) (db : MemDb sv) → Reach (new_mem_db z) db → Counted db.table
  unfolding new_mem_db
  Reach-Counted z db r = from-Counted r (empty_table-Counted z)
