-- ===== src/Control/Run/Facts.antt =====
-- What Session.runCmd of control/session.go makes of the last call of its session.
use rumor.Base.{
  ℕ, ◌≡◌, refl, sym, ap, ◌∙◌, List, [], ◌∷◌, map, length, length-map, Option, none, some, get_elem?,
  get_elem?-of_lt, lt-of_get_elem?, arith, Option-cases, inl, inr, bytes_eq, zero, suc,
}
use rumor.Base.Map
use rumor.Base.Map.{get-delete, get-put_self}
use rumor.Control.Text.{Text}
use rumor.Control.Types.{Env, Session, SessionProcessor, Failure, runtime, command_unparsed}
use rumor.Control.Call.Facts.{get_elem?-update}
use rumor.Control.Processor.{
  make_call, get_call, get_actor, new_actor, remove_interests, new_call, execute_call,
}
use rumor.Control.Processor.Facts.{make_call-Started, make_call_unparsed}
use rumor.Control.Session.{update_session, set_interest, last_call_id}
use rumor.Control.Run.{run_call}
use rumor.Control.Shape.{
  shape, shape-update_session, shape-execute_call, shape-remove_interests, identity, last_call_of,
}
use rumor.Control.Invariant.Calls.{with_call}

get_elem?-of_map {ℓ κ} :
    {A : Type ℓ} {B : Type κ} (f : A → B) (xs : List A) (i : ℕ) (b : B)
    → get_elem? (map f xs) i ≡ some b
    → (a : A) × (get_elem? xs i ≡ some a) × (f a ≡ b)
get_elem?-of_map f [] i b e = absurd (cc)
get_elem?-of_map f (x ∷ xs) zero b e = (x, refl, cc)
get_elem?-of_map f (x ∷ xs) (suc i) b e = get_elem?-of_map f xs i b e

module _ {env : Env} where
  length_sessions :
      (sp sp' : SessionProcessor env)
      → shape sp' ≡ shape sp
      → length sp'.sessions ≡ length sp.sessions
  length_sessions sp sp' e =
      sym (length-map last_call_of sp'.sessions)
      ∙ ap (λ sh. length sh.last_calls) e
      ∙ length-map last_call_of sp.sessions

  get_actor_sessions :
      (name : Text) (sp : SessionProcessor env) → (get_actor name sp).1.sessions ≡ sp.sessions
  unfolding get_actor new_actor
  get_actor_sessions name sp = elim (Option-cases (Map.get sp.actors name)) [
    | inl e ↦ rw (e, get_actor) refl
    | inr (a, e) ↦ rw (e, get_actor) refl
  ]

  make_call_sessions :
      (actor id : Text) (args : List Text) (sp : SessionProcessor env)
      → length (make_call actor id args sp).1.sessions ≡ length sp.sessions
  unfolding make_call
  make_call_sessions actor id args sp =
      let (a, sp₁) = get_actor actor sp in
      elim (Option-cases (env.load actor id)) [
        | inr (e, failed) ↦
            rw (failed, make_call)
              (length_sessions sp₁ (remove_interests id sp₁) (shape-remove_interests id sp₁)
                ∙ ap length (get_actor_sessions actor sp))
        | inl loaded ↦
            let stored = with_call (new_call actor id args a (env.now sp₁.world)) sp₁ in
            rw (loaded, make_call)
              (length_sessions stored (execute_call (length sp₁.calls) actor id args stored).1
                  (shape-execute_call (length sp₁.calls) actor id args stored)
                ∙ ap length (get_actor_sessions actor sp))
      ]

  module _ (run_script : ℕ → Text → SessionProcessor env → Option Failure × SessionProcessor env)
      (i : ℕ) (id : Text) (level : ℕ) (actor : Text) (args : List Text) (sp : SessionProcessor env)
      (s : Session env) (here : get_elem? sp.sessions i ≡ some s) where
    abbrev interested : SessionProcessor env
    interested = update_session i (set_interest id level) sp

    -- The session that MakeCall leaves at its place.
    still_there :
        (s' : Session env) × (get_elem? (make_call actor id args interested).1.sessions i ≡ some s')
    still_there = get_elem?-of_lt (make_call actor id args interested).1.sessions i (
        omega (
          arith,
          lt-of_get_elem? sp.sessions i here,
          make_call_sessions actor id args interested,
          length_sessions sp interested
              (shape-update_session i (set_interest id level) sp (λ s. refl)),
        ))

    -- After an actor's command that could be loaded, whether it then failed or not, the last call of
    -- the session is the ongoing call with the command's id.
    pub run_call_remembers :
        env.load actor id ≡ none
        → (s' : Session env) × (get_elem?
              (run_call run_script i id level actor args sp).1.sessions
              i
            ≡ some s')
          × (last_call_id s' (run_call run_script i id level actor args sp).1 ≡ some id)
          × (get_call (run_call run_script i id level actor args sp).1 id ≡ s'.last_call)
    unfolding run_call update_session last_call_id get_call
    run_call_remembers loaded =
        let st = make_call-Started actor id args interested loaded in
        let (s', at) = still_there in
        let (c, at_ref, named) =
          get_elem?-of_map identity (make_call actor id args interested).1.calls st.ref
            (id, st.number) st.of_actor in
        (
          record s' { last_call = (make_call actor id args interested).0.0 },
          get_elem?-update (make_call actor id args interested).1.sessions i _ s' at,
          rw (st.returned, last_call_id, at_ref) (ap (λ p. some p.0) named),
          st.is_ongoing ∙ sym st.returned,
        )

    -- After one that could not be loaded the command fails and what was ongoing stays so, but the
    -- session has no last call any more.
    pub run_call_unparsed :
        (e : ℕ)
        → env.load actor id ≡ some e
        → ((run_call run_script i id level actor args sp).0 ≡ some (runtime (command_unparsed e)))
          × ((run_call run_script i id level actor args sp).1.ongoing_calls ≡ sp.ongoing_calls)
          × (s' : Session env) × (get_elem?
                (run_call run_script i id level actor args sp).1.sessions
                i
              ≡ some s')
          × (s'.last_call ≡ none)
    unfolding run_call update_session
    run_call_unparsed e failed =
        let (result, ongoing, _, _) = make_call_unparsed actor id args interested e failed in
        let (s', at) = still_there in
        (
          rw result refl,
          ongoing,
          record s' { last_call = (make_call actor id args interested).0.0 },
          get_elem?-update (make_call actor id args interested).1.sessions i _ s' at,
          ap (λ r. r.0) result,
        )
