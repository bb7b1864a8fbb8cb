-- ===== src/Control/Invariant/Calls.antt =====
-- The operations of control/session_processor.go on actors and calls keep the invariant.
use rumor.Base.{
  ℕ, ◌<◌, ◌≡◌, refl, sym, ap, ◌∙◌, List, [], ◌∷◌, ◌++◌, map, length, length-map, length-append,
  get_elem?, arith, get_elem?-append_lt, get_elem?-append_last, get_elem?-append_cases,
  lt-of_get_elem?, Bool-cases, Option-cases, inl, inr, bytes_eq, nat_eq,
}
use mathlib.Core.List.{map-append}
use rumor.Base.Map
use rumor.Base.Map.{Map, get-put_cases, get-of_delete}
use rumor.Control.Text.{Text}
use rumor.Control.Types.{Env, Call, SessionProcessor, of_text}
use rumor.Control.Call.{update_call, cancel}
use rumor.Control.Processor.{
  get_actor, new_actor, kill_actor, close_actor, make_call, new_call, execute_call,
  remove_interests, free, free_call, log_entry, trace_level, freed_key, true_text,
}
use rumor.Control.Shape.{
  identity, last_call_of, shape-execute_call, shape-remove_interests, shape-close_actor,
  shape-log_entry, shape-update_call,
}
use rumor.Control.Invariant.{Within, IsConsistent, All-le, same-IsConsistent, length_calls}

module _ {env : Env} where
  new_actor-IsConsistent :
      (name : Text) (sp : SessionProcessor env)
      → IsConsistent sp
      → IsConsistent (new_actor name sp).1
        × ((new_actor name sp).0 < (new_actor name sp).1.actor_counter)
  unfolding new_actor
  new_actor-IsConsistent name sp c = (
    record {
      ongoing_known = c.ongoing_known;
      calls_known = λ ref id a e. omega (arith, c.calls_known ref id a e);
      actors_known = λ other a e. elim (get-put_cases sp.actors name other sp.actor_counter a e) [
        | inl (same, new) ↦ omega arith
        | inr old ↦ omega (arith, c.actors_known other a old)
      ];
      actors_apart = λ n n' a e e'. elim (get-put_cases sp.actors name n sp.actor_counter a e) [
        | inl (same, new) ↦ elim (get-put_cases sp.actors name n' sp.actor_counter a e') [
          | inl (same', _) ↦ sym same ∙ same'
          | inr old' ↦ absurd (omega (arith, new, c.actors_known n' a old'))
        ]
        | inr old ↦ elim (get-put_cases sp.actors name n' sp.actor_counter a e') [
          | inl (_, new') ↦ absurd (omega (arith, new', c.actors_known n a old))
          | inr old' ↦ c.actors_apart n n' a old old'
        ]
      ];
      last_known = c.last_known;
    },
    omega arith,
  )

  pub get_actor-IsConsistent :
      (name : Text) (sp : SessionProcessor env)
      → IsConsistent sp
      → IsConsistent (get_actor name sp).1
        × ((get_actor name sp).0 < (get_actor name sp).1.actor_counter)
  unfolding get_actor
  get_actor-IsConsistent name sp c = elim (Option-cases (Map.get sp.actors name)) [
    | inl e ↦ rw (e, get_actor) (new_actor-IsConsistent name sp c)
    | inr (a, e) ↦ rw (e, get_actor) (c, c.actors_known name a e)
  ]

  -- A call that is added to the store and to the ongoing ones.
  abbrev pub with_call : Call env → SessionProcessor env → SessionProcessor env
  with_call call sp = record sp {
    calls = sp.calls ++ (call ∷ []);
    ongoing_calls = Map.put sp.ongoing_calls call.id (length sp.calls);
  }

  module _ (call : Call env) (sp : SessionProcessor env) (c : IsConsistent sp)
      (known : call.actor < sp.actor_counter) where
    abbrev ids : List (Text × ℕ)
    ids = map identity sp.calls

    grown : map identity (sp.calls ++ (call ∷ [])) ≡ ids ++ (identity call ∷ [])
    grown = map-append identity sp.calls (call ∷ [])

    with_call-IsConsistent : IsConsistent (with_call call sp)
    with_call-IsConsistent = record {
      ongoing_known = λ id ref e.
          elim (get-put_cases sp.ongoing_calls call.id id (length sp.calls) ref e) [
            | inl (same, new) ↦ (
              call.actor,
              rw (grown, sym same)
                  (get_elem?-append_last ids (identity call) ref
                    (omega (arith, length-map identity sp.calls))),
            )
            | inr old ↦
                let (a, at) = c.ongoing_known id ref old in
                (
                  a,
                  rw grown (
                      get_elem?-append_lt ids (identity call ∷ []) ref (lt-of_get_elem? ids ref at)
                      ∙ at),
                )
          ];
      calls_known = λ ref id a e.
          elim (get_elem?-append_cases ids (identity call) ref (id, a) (rw grown at e)) [
            | inl old ↦ c.calls_known ref id a old
            | inr (end, new) ↦ rw (← (ap (λ p. p.1) new)) known
          ];
      actors_known = c.actors_known;
      actors_apart = c.actors_apart;
      last_known =
          All-le (length ids) (length (map identity (sp.calls ++ (call ∷ []))))
            (rw grown (omega (arith, length-append ids (identity call ∷ []))))
            (map last_call_of sp.sessions) c.last_known;
    }

  pub make_call-IsConsistent :
      (actor id : Text) (args : List Text) (sp : SessionProcessor env)
      → IsConsistent sp
      → IsConsistent (make_call actor id args sp).1
        × Within (length (make_call actor id args sp).1.calls) (make_call actor id args sp).0.0
  unfolding make_call new_call
  make_call-IsConsistent actor id args sp c =
      let (a, sp₁) = get_actor actor sp in
      let (c₁, known) = get_actor-IsConsistent actor sp c in
      elim (Option-cases (env.load actor id)) [
        | inr (e, failed) ↦
            rw (failed, make_call)
              (
                same-IsConsistent sp₁ (remove_interests id sp₁) (shape-remove_interests id sp₁) c₁,
                tt,
              )
        | inl loaded ↦
            let call = new_call actor id args a (env.now sp₁.world) in
            let ref : ℕ = length sp₁.calls in
            let stored = with_call call sp₁ in
            let same = shape-execute_call ref actor id args stored in
            rw (loaded, make_call)
              (
                same-IsConsistent stored (execute_call ref actor id args stored).1 same
                    (with_call-IsConsistent call sp₁ c₁ known),
                omega (
                  arith,
                  length_calls stored (execute_call ref actor id args stored).1 same,
                  length-append sp₁.calls (call ∷ []),
                ),
              )
      ]

  pub kill_actor-IsConsistent :
      (name : Text) (sp : SessionProcessor env)
      → IsConsistent sp
      → IsConsistent (kill_actor name sp)
  unfolding kill_actor
  kill_actor-IsConsistent name sp c = elim (Option-cases (Map.get sp.actors name)) [
    | inl e ↦ rw (e, kill_actor) c
    | inr (a, e) ↦
        let c' = same-IsConsistent sp (close_actor a sp) (shape-close_actor a sp) c in
        rw (e, kill_actor)
          (record {
            ongoing_known = c'.ongoing_known;
            calls_known = c'.calls_known;
            actors_known =
                λ other b f. c.actors_known other b (get-of_delete sp.actors name other b f).0;
            actors_apart = λ n n' b f f'.
                c.actors_apart n n' b (get-of_delete sp.actors name n b f).0
                  (get-of_delete sp.actors name n' b f').0;
            last_known = c'.last_known;
          })
  ]

  free-IsConsistent :
      (call : Call env) (sp : SessionProcessor env) → IsConsistent sp → IsConsistent (free call sp)
  unfolding free
  free-IsConsistent call sp c =
      let logged =
        log_entry call.actor_name call.id trace_level ((freed_key, of_text true_text) ∷ []) sp in
      let c' =
        same-IsConsistent sp (remove_interests call.id logged)
          (shape-remove_interests call.id logged ∙ shape-log_entry call.actor_name call.id _ _ sp)
          c in
      record {
        ongoing_known = λ id ref e.
            c'.ongoing_known id ref
              (get-of_delete (remove_interests call.id logged).ongoing_calls call.id id ref e).0;
        calls_known = c'.calls_known;
        actors_known = c'.actors_known;
        actors_apart = c'.actors_apart;
        last_known = c'.last_known;
      }

  pub free_call-IsConsistent :
      (ref : ℕ) (sp : SessionProcessor env) → IsConsistent sp → IsConsistent (free_call ref sp)
  unfolding free_call
  free_call-IsConsistent ref sp c = elim (Option-cases (get_elem? sp.calls ref)) [
    | inl e ↦ rw (e, free_call) c
    | inr (call, e) ↦
        let c' =
          same-IsConsistent sp (update_call ref cancel sp)
            (shape-update_call ref cancel sp (λ _. refl)) c in
        elim (Bool-cases call.spawned) [
          | inr alone ↦
              rw (e, free_call) (rw alone (free-IsConsistent call (update_call ref cancel sp) c'))
          | inl spawned ↦ elim (Bool-cases call.done) [
            | inl done ↦ rw (e, free_call) (rw (spawned, done) (free-IsConsistent call sp c))
            | inr running ↦ rw (e, free_call) (rw (spawned, running) c)
          ]
        ]
  ]
