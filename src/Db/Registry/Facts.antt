-- ===== src/Db/Registry/Facts.antt =====
-- Create, Find and Remove of DBMap (chain/db/blocks/global.go, chain/db/states/global.go) together.
use rumor.Base.{
  ◌≡◌, ◌≢◌, refl, ◌⊎◌, true, none, some, Result, ok, err, Option-cases, inl, inr, bytes_eq, beq_ne,
  beq_refl,
}
use rumor.Base.Map
use rumor.Base.Map.{Map, get-put, get-put_self, get-delete}
use rumor.Db.Registry.{Name, DbsError, db_existed, find_db, add_db, create, remove_db}

module _ {Db : Type 0} where
  -- How Create ends, of a database that could be made.
  pub data Created (id : Name) (db : Db) (dbs : Map Name Db)
      : Result DbsError Db × Map Name Db → Type 0 where
    added :
        {dbs' : Map Name Db}
        → find_db id dbs ≡ none
        → find_db id dbs' ≡ some db
        → ((other : Name) → id ≢ other → find_db other dbs' ≡ find_db other dbs)
        → Created id db dbs (ok db, dbs')
    refused : (old : Db) → find_db id dbs ≡ some old → Created id db dbs (err db_existed, dbs)

  -- Create, of a database that could be made, either finds its name free and from then on finds the
  -- database under it, and under every other name what was there, or refuses and changes nothing.
  pub create-Created :
      (id : Name) (db : Db) (dbs : Map Name Db) → Created id db dbs (create (ok db) id dbs)
  unfolding create add_db find_db
  create-Created id db dbs = elim (Option-cases (Map.get dbs id)) [
    | inl e ↦
        rw (e, create, add_db)
          (added e (get-put_self dbs id db) (λ other ne. rw (get-put, beq_ne id other ne) refl))
    | inr (old, e) ↦ rw (e, create, add_db) (refused old e)
  ]

  -- A name that was created and removed is free again, and Remove says whether it was in use.
  pub remove_db-frees :
      (id : Name) (dbs : Map Name Db)
      → (find_db id (remove_db id dbs).1 ≡ none)
        × (((remove_db id dbs).0 ≡ true) ⊎ (find_db id dbs ≡ none))
        × ((other : Name) → id ≢ other → find_db other (remove_db id dbs).1 ≡ find_db other dbs)
  unfolding remove_db find_db
  remove_db-frees id dbs = elim (Option-cases (Map.get dbs id)) [
    | inl e ↦ rw (e, remove_db) (e, inr refl, λ other ne. refl)
    | inr (old, e) ↦
        rw (e, remove_db)
          (
            rw (get-delete, beq_refl id) refl,
            inl refl,
            λ other ne. rw (get-delete, beq_ne id other ne) refl,
          )
  ]
