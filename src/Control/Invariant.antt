-- ===== src/Control/Invariant.antt =====
-- The invariant of the session processor (control/session_processor.go): an id that is ongoing is that
-- of the call that it stands for, no two names have the same actor, and every pointer to a call or number
-- of an actor is one that was given out.
pub mod Calls
use rumor.Base.{
  ℕ, zero, suc, ◌<◌, ◌≤◌, ◌≡◌, refl, sym, ap, subst, ◌∙◌, List, [], ◌∷◌, ◌++◌, map, length,
  length-map, length-append, Option, none, some, get_elem?, arith, All, All-append,
  get_elem?-append_lt, get_elem?-append_last, get_elem?-append_cases, lt-of_get_elem?, Bool-cases,
  Option-cases, inl, inr, bytes_eq, nat_eq,
}
use mathlib.Core.List.{map-append}
use rumor.Base.Map
use rumor.Base.Map.{Map, get-put_cases, get-of_delete}
use rumor.Control.Text.{Text}
use rumor.Control.Types.{Env, Call, Session, SessionProcessor, of_text}
use rumor.Control.Call.{update, update_call, cancel}
use rumor.Control.Processor.{
  new_session, get_actor, new_actor, kill_actor, close_actor, make_call, new_call, execute_call,
  remove_interests, free, free_call, log_entry, trace_level, freed_key, true_text,
}
use rumor.Control.Session.{update_session}
use rumor.Control.Shape.{
  Shape, shape, identity, last_call_of, shape-execute_call, shape-remove_interests,
  shape-close_actor, shape-log_entry, shape-update_call,
}

abbrev pub Within : ℕ → Option ℕ → Type 0
Within n none = Unit {0}
Within n (some ref) = ref < n

pub record Consistent (sh : Shape) : Type 0 where
  pub ongoing_known :
      (id : Text) (ref : ℕ)
      → Map.get sh.ongoing id ≡ some ref
      → (a : ℕ) × (get_elem? sh.identities ref ≡ some (id, a))
  pub calls_known :
      (ref : ℕ) (id : Text) (a : ℕ)
      → get_elem? sh.identities ref ≡ some (id, a)
      → a < sh.actor_count
  pub actors_known : (name : Text) (a : ℕ) → Map.get sh.actors name ≡ some a → a < sh.actor_count
  pub actors_apart :
      (name other : Text) (a : ℕ)
      → Map.get sh.actors name ≡ some a
      → Map.get sh.actors other ≡ some a
      → name ≡ other
  pub last_known : All (Within (length sh.identities)) sh.last_calls

Within-le : (m n : ℕ) → m ≤ n → (o : Option ℕ) → Within m o → Within n o
Within-le m n h none w = tt
Within-le m n h (some r) w = omega arith

pub All-le : (m n : ℕ) → m ≤ n → (os : List (Option ℕ)) → All (Within m) os → All (Within n) os
All-le m n h [] w = tt
All-le m n h (o ∷ os) w = (Within-le m n h o w.0, All-le m n h os w.1)

module _ {env : Env} where
  abbrev pub IsConsistent : SessionProcessor env → Type 0
  IsConsistent sp = Consistent (shape sp)

  pub same-IsConsistent :
      (sp sp' : SessionProcessor env) → shape sp' ≡ shape sp → IsConsistent sp → IsConsistent sp'
  same-IsConsistent sp sp' e h = subst Consistent (sym e) h

  pub length_calls :
      (sp sp' : SessionProcessor env) → shape sp' ≡ shape sp → length sp'.calls ≡ length sp.calls
  length_calls sp sp' e =
      sym (length-map identity sp'.calls)
      ∙ ap (λ sh. length sh.identities) e
      ∙ length-map identity sp.calls

  All-update :
      (n : ℕ) (f : Session env → Session env) (ss : List (Session env)) (i : ℕ)
      → ((s : Session env) → Within n (last_call_of s) → Within n (last_call_of (f s)))
      → All (Within n) (map last_call_of ss)
      → All (Within n) (map last_call_of (update ss i f))
  unfolding update
  All-update n f [] i h w = w
  All-update n f (s ∷ ss) zero h w = (h s w.0, w.1)
  All-update n f (s ∷ ss) (suc i) h w = (w.0, All-update n f ss i h w.1)

  All-at :
      (n : ℕ) (ss : List (Session env)) (i : ℕ) (s : Session env)
      → get_elem? ss i ≡ some s
      → All (Within n) (map last_call_of ss)
      → Within n (last_call_of s)
  All-at n [] i s e w = cc
  All-at n (t ∷ ss) zero s e w = let same : t ≡ s = cc in rw (← same) w.0
  All-at n (t ∷ ss) (suc i) s e w = All-at n ss i s e w.1

  pub session-Within :
      (i : ℕ) (sp : SessionProcessor env) (s : Session env)
      → get_elem? sp.sessions i ≡ some s
      → IsConsistent sp
      → Within (length sp.calls) (last_call_of s)
  session-Within i sp s e c =
      subst (λ n. Within n (last_call_of s)) (length-map identity sp.calls)
        (All-at (length (map identity sp.calls)) sp.sessions i s e c.last_known)

  -- A change of a session's last call to one of the calls, or to none.
  pub update_session-IsConsistent :
      (i : ℕ) (f : Session env → Session env) (sp : SessionProcessor env)
      → ((s : Session env)
          → Within (length sp.calls) (last_call_of s)
          → Within (length sp.calls) (last_call_of (f s)))
      → IsConsistent sp
      → IsConsistent (update_session i f sp)
  unfolding update_session
  update_session-IsConsistent i f sp h c =
      let size : length (map identity sp.calls) ≡ length sp.calls = length-map identity sp.calls in
      record {
        ongoing_known = c.ongoing_known;
        calls_known = c.calls_known;
        actors_known = c.actors_known;
        actors_apart = c.actors_apart;
        last_known =
            All-update (length (map identity sp.calls)) f sp.sessions i
              (λ s w. rw size (h s (rw size at w))) c.last_known;
      }

  pub new_session-IsConsistent :
      (sp : SessionProcessor env) → IsConsistent sp → IsConsistent (new_session sp).1
  unfolding new_session
  new_session-IsConsistent sp c = record {
    ongoing_known = c.ongoing_known;
    calls_known = c.calls_known;
    actors_known = c.actors_known;
    actors_apart = c.actors_apart;
    last_known = rw (map-append) (
        All-append (Within (length (map identity sp.calls))) (map last_call_of sp.sessions)
          (none ∷ []) c.last_known (tt, tt));
  }
