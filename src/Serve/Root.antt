-- ===== src/Serve/Root.antt =====
-- The handler of blocks-by-root requests in control/actor/chain/chcmd/serve/root.go.
pub mod Facts
use rumor.Base.{
  ℕ, Bool, true, false, ◌&&◌, not, List, [], ◌∷◌, length, Option, none, some, ltb, nat_beq,
  if◌then◌else◌,
}
use rumor.Serve.Types.{
  Root, Complaint, request_unreadable, too_many_roots, root_unavailable, ErrorCode, invalid_request,
  Server,
}
use rumor.Serve.Range.{serve_root}

pub record RootLimits : Type 0 where
  pub max_count : ℕ
  pub within_view : Bool

module _ (sv : Server) where
  -- The loop that looks every root up in the chain.
  unfoldable pub all_in_view : List Root → sv.World → Bool
  all_in_view [] w = true
  all_in_view (root ∷ roots) w = sv.in_view w root && all_in_view roots w

  unfoldable pub serve_roots : List Root → sv.World → sv.World
  serve_roots [] w = w
  serve_roots (root ∷ roots) w =
      let (go_on, w') = serve_root sv root w in
      let rest = serve_roots roots w' in if go_on then rest else w'

  unfoldable pub serve_by_root : RootLimits → Option (List Root) → sv.World → sv.World
  unfolding all_in_view serve_roots
  serve_by_root limits none w = sv.write_error invalid_request request_unreadable w
  serve_by_root limits (some roots) w =
      if nat_beq (length roots) 0
      then w
      else if ltb limits.max_count (length roots)
      then sv.write_error invalid_request too_many_roots w
      else if limits.within_view && not (all_in_view roots w)
      then sv.write_error invalid_request root_unavailable w
      else serve_roots roots w
