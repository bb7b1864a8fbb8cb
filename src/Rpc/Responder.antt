-- ===== src/Rpc/Responder.antt =====
-- Responder of control/actor/rpc/state.go: the open requests of a method, by key. What their Cancel
-- functions do is noted as the keys that were cancelled.
pub mod Facts
use rumor.Base.{ℕ, ◌+◌, List, [], ◌∷◌, Option, none, some, add64, nat_eq}
use rumor.Base.Map
use rumor.Base.Map.{Map}

-- RequestEntry, with the handler of its response.
pub record RequestEntry (Handler : Type 0) : Type 0 where
  pub from : List ℕ
  pub handler : Handler

pub record Responder (Handler : Type 0) : Type 0 where
  pub key_counter : ℕ
  pub requests : Map ℕ (RequestEntry Handler)
  pub cancelled : List ℕ

module _ {Handler : Type 0} where
  unfoldable pub get_request : Responder Handler → ℕ → Option (RequestEntry Handler)
  get_request r key = Map.get r.requests key

  unfoldable pub close_request : ℕ → Responder Handler → Responder Handler
  unfolding get_request
  close_request key r = elim (get_request r key) [
    | none ↦ r
    | some e ↦ record r { requests = Map.delete r.requests key; cancelled = key ∷ r.cancelled }
  ]

  unfoldable pub add_request : RequestEntry Handler → Responder Handler → ℕ × Responder Handler
  add_request req r = (
    r.key_counter,
    record r {
      key_counter = add64 r.key_counter 1;
      requests = Map.put r.requests r.key_counter req;
    },
  )
