-- ===== src/Chain/HotCold/Chains.antt =====
-- ChainsMap of chain/chain.go: the named chains, a sync.Map.
pub mod Laws
use Prim.Native.String.{String}
use text.Mathlib.Text.{◌==◌ as str_eq}
use text.Mathlib.TextEquality.{eq_iff}
use rumor.Base.{
  ℕ, Bool, true, false, List, Option, none, some, Result, ok, err, panic, ◌>>=◌, Comparable,
}
use rumor.Base.Map
use rumor.Base.Map.{Map}
use rumor.Chain.Zrnt.{Zrnt, ChainResult, chain_existed}
use rumor.Chain.Entry.{HotEntry}
use rumor.Chain.Cold.{new_finalized_chain}
use rumor.Chain.Hot.{new_unfinalized_chain}
use rumor.Chain.HotCold.{HotColdChain}

instance abbrev pub string_eq : Comparable String
string_eq = record { same = str_eq; same_iff = eq_iff }

abbrev pub ChainsMap : Zrnt → Type 0
ChainsMap z = Map String (HotColdChain z)

module _ {z : Zrnt} where
  unfoldable pub find_chain : ChainsMap z → String → Option (HotColdChain z)
  find_chain cs id = Map.get cs id

  unfoldable pub new_chain : HotEntry z → ChainResult (HotColdChain z)
  new_chain anchor = do
    hot ← new_unfinalized_chain anchor
    ok (record { hot = hot; cold = new_finalized_chain anchor.slot })

  load_or_store :
      ChainsMap z
      → String
      → HotColdChain z
      → Option (HotColdChain z)
      → ChainResult (HotColdChain z) × ChainsMap z
  load_or_store cs id c none = (ok c, Map.put cs id c)
  load_or_store cs id c (some _) = (err chain_existed, cs)

  create_from :
      ChainsMap z
      → String
      → ChainResult (HotColdChain z)
      → ChainResult (HotColdChain z) × ChainsMap z
  unfolding load_or_store
  create_from cs id (ok c) = load_or_store cs id c (Map.get cs id)
  create_from cs id (err e) = (err e, cs)
  create_from cs id panic = (panic, cs)

  unfoldable pub create_chain :
      ChainsMap z → String → HotEntry z → ChainResult (HotColdChain z) × ChainsMap z
  unfolding create_from new_chain
  create_chain cs id anchor = create_from cs id (new_chain anchor)

  remove_found : ChainsMap z → String → Option (HotColdChain z) → Bool × ChainsMap z
  remove_found cs id none = (false, cs)
  remove_found cs id (some _) = (true, Map.delete cs id)

  unfoldable pub remove_chain : ChainsMap z → String → Bool × ChainsMap z
  unfolding remove_found
  remove_chain cs id = remove_found cs id (Map.get cs id)

  unfoldable pub list_chains : ChainsMap z → List String
  list_chains cs = Map.keys cs
