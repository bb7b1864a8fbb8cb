-- ===== src/Rpc/Tests/Requests.antt =====
-- The open requests of a method at concrete inputs: one that was closed, and another.
use rumor.Base.{ℕ, ◌≡◌, ◌≢◌, [], ◌∷◌, none, some, All, arith, nat_eq}
use rumor.Base.Map
use rumor.Rpc.Responder.{RequestEntry, Responder, get_request, close_request, add_request}
use rumor.Rpc.Responder.Facts.{here, next, added, closed, add_request-fresh}

abbrev ping : RequestEntry ℕ
ping = record { from = 7 ∷ []; handler = 1 }

abbrev no_requests : Responder ℕ
no_requests = record { key_counter = 0; requests = Map.empty; cancelled = [] }

abbrev one_closed : Responder ℕ
one_closed = close_request 0 (add_request ping no_requests).1

add_request-fresh_example :
    (get_request one_closed (add_request ping one_closed).0 ≡ none)
    × All (λ key. key ≢ (add_request ping one_closed).0) one_closed.cancelled
    × (get_request (add_request ping one_closed).1 (add_request ping one_closed).0 ≡ some ping)
    × ((key : ℕ)
        → key ≢ (add_request ping one_closed).0
        → get_request (add_request ping one_closed).1 key ≡ get_request one_closed key)
add_request-fresh_example = add_request-fresh one_closed ping (
    next (next here (added ping no_requests (omega arith)))
      (closed 0 (add_request ping no_requests).1))
