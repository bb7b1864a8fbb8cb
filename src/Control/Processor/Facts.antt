-- ===== src/Control/Processor/Facts.antt =====
-- What MakeCall and the freeing of a call leave, in control/session_processor.go.
use rumor.Base.{
  ℕ, ◌≡◌, ◌≢◌, refl, sym, ap, ◌∙◌, ◌⊎◌, true, false, List, [], ◌∷◌, map, length, length-map, Option,
  none, some, get_elem?, arith, All, get_elem?-append_last, Bool-cases, Option-cases, inl, inr,
  bytes_eq, nat_eq, beq_refl, beq_ne,
}
use rumor.Base.Map
use rumor.Base.Map.{Map, get-put, get-delete, get-put_self}
use rumor.Control.Text.{Text}
use rumor.Control.Types.{Env, Call, Session, SessionProcessor, Reason, command_unparsed, of_text}
use rumor.Control.Call.{update_call, cancel}
use rumor.Control.Processor.{
  log_entry, trace_level, freed_key, true_text, remove_interests, unset_interest, make_call,
  get_actor, new_actor, free, free_call, new_call,
}
use mathlib.Core.List.{map-append}
use rumor.Control.Shape.{identity, shape-execute_call, shape-log_entry}
use rumor.Control.Invariant.Calls.{with_call}

module _ {env : Env} where
  -- The session has no interest in the call.
  abbrev pub Uninterested : Text → Session env → Type 0
  Uninterested id s = Map.get s.interests id ≡ none

  unset-Uninterested :
      (id : Text) (ss : List (Session env)) → All (Uninterested id) (map (unset_interest id) ss)
  unset-Uninterested id [] = tt
  unset-Uninterested id (s ∷ ss) = (rw (get-delete, beq_refl id), unset-Uninterested id ss)

  free_forgets :
      (c : Call env) (sp : SessionProcessor env)
      → (Map.get (free c sp).ongoing_calls c.id ≡ none)
        × All (Uninterested c.id) (free c sp).sessions
        × ((other : Text)
            → c.id ≢ other
            → Map.get (free c sp).ongoing_calls other ≡ Map.get sp.ongoing_calls other)
  unfolding free remove_interests
  free_forgets c sp =
      let logged =
        log_entry c.actor_name c.id trace_level ((freed_key, of_text true_text) ∷ []) sp in
      (
        rw (get-delete, beq_refl c.id),
        unset-Uninterested c.id logged.sessions,
        λ other ne.
            rw (get-delete, beq_ne c.id other ne)
              (ap (λ sh. Map.get sh.ongoing other) (shape-log_entry c.actor_name c.id _ _ sp)),
      )

  -- Freeing the call at a pointer, once it has spawned nothing or its context is done, ends all that
  -- stands under its id: the id is not ongoing and no session has an interest in it, also where the
  -- id stands for a newer call by then. Other ids stay ongoing as they were.
  pub free_call_forgets :
      (ref : ℕ) (c : Call env) (sp : SessionProcessor env)
      → get_elem? sp.calls ref ≡ some c
      → (c.spawned ≡ false) ⊎ (c.done ≡ true)
      → (Map.get (free_call ref sp).ongoing_calls c.id ≡ none)
        × All (Uninterested c.id) (free_call ref sp).sessions
        × ((other : Text)
            → c.id ≢ other
            → Map.get (free_call ref sp).ongoing_calls other ≡ Map.get sp.ongoing_calls other)
  unfolding free_call update_call
  free_call_forgets ref c sp e over = elim (Bool-cases c.spawned) [
    | inr alone ↦ rw (e, free_call) (rw alone (free_forgets c (update_call ref cancel sp)))
    | inl spawned ↦
        let done : c.done ≡ true = elim over [ inl f ↦ absurd (ground arith) | inr t ↦ t ] in
        rw (e, free_call) (rw (spawned, done) (free_forgets c sp))
  ]

  get_actor_found :
      (name : Text) (sp : SessionProcessor env)
      → Map.get (get_actor name sp).1.actors name ≡ some (get_actor name sp).0
  unfolding get_actor new_actor
  get_actor_found name sp = elim (Option-cases (Map.get sp.actors name)) [
    | inl e ↦ rw (e, get_actor) (get-put_self sp.actors name sp.actor_counter)
    | inr (a, e) ↦ rw (e, get_actor) e
  ]

  get_actor_ongoing :
      (name : Text) (sp : SessionProcessor env)
      → (get_actor name sp).1.ongoing_calls ≡ sp.ongoing_calls
  unfolding get_actor new_actor
  get_actor_ongoing name sp = elim (Option-cases (Map.get sp.actors name)) [
    | inl e ↦ rw (e, get_actor) refl
    | inr (a, e) ↦ rw (e, get_actor) refl
  ]

  get_actor_calls :
      (name : Text) (sp : SessionProcessor env) → (get_actor name sp).1.calls ≡ sp.calls
  unfolding get_actor new_actor
  get_actor_calls name sp = elim (Option-cases (Map.get sp.actors name)) [
    | inl e ↦ rw (e, get_actor) refl
    | inr (a, e) ↦ rw (e, get_actor) refl
  ]

  -- What MakeCall leaves where the command could be loaded, whether it then failed or not: the call is
  -- ongoing under its id, and belongs to the actor that has the name now.
  pub record Started (actor id : Text) (got : (Option ℕ × Option Reason) × SessionProcessor env)
      : Type 0 where
    pub ref : ℕ
    pub number : ℕ
    pub returned : got.0.0 ≡ some ref
    pub is_ongoing : Map.get got.1.ongoing_calls id ≡ some ref
    pub of_actor : get_elem? (map identity got.1.calls) ref ≡ some (id, number)
    pub registered : Map.get got.1.actors actor ≡ some number

  pub make_call-Started :
      (actor id : Text) (args : List Text) (sp : SessionProcessor env)
      → env.load actor id ≡ none
      → Started actor id (make_call actor id args sp)
  unfolding make_call new_call
  make_call-Started actor id args sp loaded =
      let (a, sp₁) = get_actor actor sp in
      let ref : ℕ = length sp₁.calls in
      let stored = with_call (new_call actor id args a (env.now sp₁.world)) sp₁ in
      let same = shape-execute_call ref actor id args stored in
      rw (loaded, make_call)
        (record {
          ref = ref;
          number = a;
          returned = refl;
          is_ongoing =
              ap (λ sh. Map.get sh.ongoing id) same ∙ get-put_self sp₁.ongoing_calls id ref;
          of_actor =
              ap (λ sh. get_elem? sh.identities ref) same
              ∙ ap (λ ids. get_elem? ids ref) (map-append identity sp₁.calls (_ ∷ []))
              ∙ get_elem?-append_last (map identity sp₁.calls) (id, a) ref
                  (sym (length-map identity sp₁.calls));
          registered = ap (λ sh. Map.get sh.actors actor) same ∙ get_actor_found actor sp;
        })

  -- Where the command could not be loaded there is no call, what was ongoing stays so, and no session
  -- has an interest in the id, also in an ongoing call that has it.
  pub make_call_unparsed :
      (actor id : Text) (args : List Text) (sp : SessionProcessor env) (e : ℕ)
      → env.load actor id ≡ some e
      → ((make_call actor id args sp).0 ≡ (none, some (command_unparsed e)))
        × ((make_call actor id args sp).1.ongoing_calls ≡ sp.ongoing_calls)
        × ((make_call actor id args sp).1.calls ≡ sp.calls)
        × All (Uninterested id) (make_call actor id args sp).1.sessions
  unfolding make_call remove_interests
  make_call_unparsed actor id args sp e failed =
      rw (failed, make_call)
        (
          refl,
          get_actor_ongoing actor sp,
          get_actor_calls actor sp,
          unset-Uninterested id (get_actor actor sp).1.sessions,
        )
