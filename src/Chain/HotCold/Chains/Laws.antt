-- ===== src/Chain/HotCold/Chains/Laws.antt =====
-- What ChainsMap of chain/chain.go answers after Create and Remove.
use Prim.Native.String.{String}
use rumor.Base.{◌≡◌, none, some, ok, err, ◌==◌, arith, if◌then◌else◌, inl, inr, Option-cases}
use rumor.Base.Map
use rumor.Base.Map.{get-put, get-delete, get-put_self}
use rumor.Chain.Zrnt.{Zrnt, chain_existed}
use rumor.Chain.Entry.{HotEntry}
use rumor.Chain.HotCold.{HotColdChain}
use rumor.Chain.HotCold.Chains.{
  ChainsMap, find_chain, new_chain, create_chain, create_from, load_or_store, remove_chain,
  remove_found, string_eq,
}

module _ {z : Zrnt} (cs : ChainsMap z) (id : String) where
  -- Create stores a new chain under a free name, and only there.
  pub create_chain-free :
      (anchor : HotEntry z) (c : HotColdChain z)
      → new_chain anchor ≡ ok c
      → find_chain cs id ≡ none
      → ((create_chain cs id anchor).0 ≡ ok c)
        × ((j : String)
            → find_chain (create_chain cs id anchor).1 j
              ≡ (if id == j then some c else find_chain cs j))
  unfolding create_chain find_chain
  create_chain-free anchor c made free = (
    rw (made, create_from, free, load_or_store),
    λ j. rw (made, create_from, free, load_or_store) (get-put cs id j c),
  )

  -- Under a name that is taken Create fails, and the chain that has the name keeps it.
  pub create_chain-taken :
      (anchor : HotEntry z) (c old : HotColdChain z)
      → new_chain anchor ≡ ok c
      → find_chain cs id ≡ some old
      → create_chain cs id anchor ≡ (err chain_existed, cs)
  unfolding create_chain find_chain
  create_chain-taken anchor c old made taken = rw (made, create_from, taken, load_or_store)

  -- Remove tells whether the name was taken, frees it, and leaves the others.
  pub remove_chain_frees :
      (j : String)
      → find_chain (remove_chain cs id).1 j ≡ (if id == j then none else find_chain cs j)
  unfolding remove_chain find_chain
  remove_chain_frees j = elim (Option-cases (Map.get cs id)) [
    | inl free ↦ rw (free, remove_found) (ground (arith, string_eq.same_iff id j))
    | inr (c, taken) ↦ rw (taken, remove_found) (get-delete cs id j)
  ]
