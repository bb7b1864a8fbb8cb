-- ===== src/Control/Shape.antt =====
-- What most operations of control/*.go leave as it is: which calls there are and of whom, which are
-- ongoing, the actors, and each session's last call.
use rumor.Base.{
  ℕ, zero, suc, ◌≡◌, refl, ap, ◌∙◌, Bool, true, false, List, [], ◌∷◌, map, Option, none, some,
  get_elem?, arith, Option-cases, inl, inr, nat_eq, bytes_eq,
}
use rumor.Base.Map
use rumor.Base.Map.{Map}
use rumor.Control.Text.{Text}
use rumor.Control.Types.{
  Env, Event, registers, logs, OnStop, stop, Entry, Reason, Call, Session, SessionProcessor, Value,
  of_call_id, other,
}
use rumor.Control.Call.{
  update, update_call, register_stop, cancel, run_on_stop, after_stop, stop_call, request_stop,
}
use rumor.Control.Processor.{
  store_entry, log_entry, logged_id, actor_key, call_id_key, info_level, show, remove_interests,
  unset_interest, close_actor, apply_events, finish_call, execute_call,
}
use rumor.Control.Overview.{stop_calls, close_actors, close}
use rumor.Control.Session.{update_session}

pub record Shape : Type 0 where
  pub identities : List (Text × ℕ)
  pub ongoing : Map Text ℕ
  pub actors : Map Text ℕ
  pub actor_count : ℕ
  pub last_calls : List (Option ℕ)

pub map-update {ℓ κ} :
    {A : Type ℓ} {B : Type κ} (g : A → B) (f : A → A) (xs : List A) (i : ℕ)
    → ((a : A) → g (f a) ≡ g a)
    → map g (update xs i f) ≡ map g xs
unfolding update
map-update g f [] i h = refl
map-update g f (x ∷ xs) zero h = ap (λ b. b ∷ map g xs) (h x)
map-update g f (x ∷ xs) (suc i) h = ap (λ bs. g x ∷ bs) (map-update g f xs i h)

pub map-map_same {ℓ κ} :
    {A : Type ℓ} {B : Type κ} (g : A → B) (f : A → A) (xs : List A)
    → ((a : A) → g (f a) ≡ g a)
    → map g (map f xs) ≡ map g xs
map-map_same g f [] h = refl
map-map_same g f (x ∷ xs) h = cc (h x, map-map_same g f xs h)

module _ {env : Env} where
  -- The id of a call, and its actor.
  abbrev pub identity : Call env → Text × ℕ
  identity c = (c.id, c.actor)

  abbrev pub last_call_of : Session env → Option ℕ
  last_call_of s = s.last_call

  abbrev pub shape : SessionProcessor env → Shape
  shape sp = record {
    identities = map identity sp.calls;
    ongoing = sp.ongoing_calls;
    actors = sp.actors;
    actor_count = sp.actor_counter;
    last_calls = map last_call_of sp.sessions;
  }

  with_identities : SessionProcessor env → List (Text × ℕ) → Shape
  with_identities sp ids = record (shape sp) { identities = ids }

  pub shape-update_call :
      (ref : ℕ) (f : Call env → Call env) (sp : SessionProcessor env)
      → ((c : Call env) → identity (f c) ≡ identity c)
      → shape (update_call ref f sp) ≡ shape sp
  unfolding update_call with_identities
  shape-update_call ref f sp h = ap (with_identities sp) (map-update identity f sp.calls ref h)

  pub shape-update_session :
      (i : ℕ) (f : Session env → Session env) (sp : SessionProcessor env)
      → ((s : Session env) → last_call_of (f s) ≡ last_call_of s)
      → shape (update_session i f sp) ≡ shape sp
  unfolding update_session
  shape-update_session i f sp h =
      ap (λ lasts. record (shape sp) { last_calls = lasts })
        (map-update last_call_of f sp.sessions i h)

  shape-map_sessions :
      (f : Session env → Session env) (sp : SessionProcessor env)
      → ((s : Session env) → last_call_of (f s) ≡ last_call_of s)
      → shape (record sp { sessions = map f sp.sessions }) ≡ shape sp
  shape-map_sessions f sp h =
      ap (λ lasts. record (shape sp) { last_calls = lasts })
        (map-map_same last_call_of f sp.sessions h)

  show_last_call :
      (id : Text) (e : Entry env) (s : Session env) → last_call_of (show id e s) ≡ last_call_of s
  unfolding show
  show_last_call id e s = ground arith

  shape-store_entry :
      (id : Text) (level : ℕ) (all : List (Text × Value)) (sp : SessionProcessor env)
      → shape (store_entry id level all sp) ≡ shape sp
  unfolding store_entry
  shape-store_entry id level all sp =
      ap (λ lasts. record (shape sp) { last_calls = lasts })
        (map-map_same last_call_of _ sp.sessions (show_last_call id _))

  pub shape-log_entry :
      (actor id : Text) (level : ℕ) (fields : List (Text × Value)) (sp : SessionProcessor env)
      → shape (log_entry actor id level fields sp) ≡ shape sp
  unfolding log_entry
  shape-log_entry actor id level fields sp =
      let all = (actor_key, other actor) ∷ (call_id_key, of_call_id id) ∷ fields in
      elim (Option-cases (logged_id (Map.last_value call_id_key all none))) [
        | inl e ↦ rw (e, log_entry) refl
        | inr (id', e) ↦ rw (e, log_entry) (shape-store_entry id' level all sp)
      ]

  pub shape-remove_interests :
      (id : Text) (sp : SessionProcessor env) → shape (remove_interests id sp) ≡ shape sp
  unfolding remove_interests
  shape-remove_interests id sp = shape-map_sessions (unset_interest id) sp (λ s. refl)

  pub shape-apply_events :
      (ref : ℕ) (actor id : Text) (es : List (Event env.Stop)) (sp : SessionProcessor env)
      → shape (apply_events ref actor id es sp) ≡ shape sp
  unfolding apply_events register_stop
  shape-apply_events ref actor id [] sp = refl
  shape-apply_events ref actor id (registers s ∷ es) sp =
      shape-apply_events ref actor id es (update_call ref (register_stop (stop s)) sp)
      ∙ shape-update_call ref (register_stop (stop s)) sp (λ c. refl)
  shape-apply_events ref actor id (logs level fields ∷ es) sp =
      shape-apply_events ref actor id es (log_entry actor id level fields sp)
      ∙ shape-log_entry actor id level fields sp

  pub shape-finish_call :
      (actor id : Text) (e : Option ℕ) (is_help : Bool) (sp : SessionProcessor env)
      → shape (finish_call actor id e is_help sp).1 ≡ shape sp
  unfolding finish_call
  shape-finish_call actor id (some e) is_help sp = shape-log_entry actor id _ _ sp
  shape-finish_call actor id none true sp =
      shape-log_entry actor id _ _ (log_entry actor id info_level [] sp)
      ∙ shape-log_entry actor id info_level [] sp
  shape-finish_call actor id none false sp = shape-log_entry actor id _ _ sp

  pub shape-execute_call :
      (ref : ℕ) (actor id : Text) (args : List Text) (sp : SessionProcessor env)
      → shape (execute_call ref actor id args sp).1 ≡ shape sp
  unfolding execute_call
  shape-execute_call ref actor id args sp =
      let (done, w) = env.execute actor id args sp.world in
      let running = record sp { world = w } in
      shape-finish_call actor id done.error done.is_help
        (apply_events ref actor id done.events running)
      ∙ shape-apply_events ref actor id done.events running

  shape-after_stop :
      (ref : ℕ) (r : Option Reason × env.World) (sp : SessionProcessor env)
      → shape (after_stop ref r sp).1 ≡ shape sp
  unfolding after_stop
  shape-after_stop ref (none, w) sp = shape-update_call ref _ (record sp { world = w }) (λ c. refl)
  shape-after_stop ref (some e, w) sp = refl

  shape-stop_call :
      (ref : ℕ) (on_stop : Option (OnStop env)) (sp : SessionProcessor env)
      → shape (stop_call ref on_stop sp).1 ≡ shape sp
  unfolding stop_call
  shape-stop_call ref none sp = shape-update_call ref cancel sp (λ c. refl)
  shape-stop_call ref (some on_stop) sp = shape-after_stop ref (run_on_stop on_stop sp.world) sp

  pub shape-request_stop :
      (ref : ℕ) (sp : SessionProcessor env) → shape (request_stop ref sp).1 ≡ shape sp
  unfolding request_stop stop_call
  shape-request_stop ref sp = elim (Option-cases (get_elem? sp.calls ref)) [
    | inl e ↦ rw (e, request_stop) refl
    | inr (c, e) ↦ rw (e, request_stop) (shape-stop_call ref c.on_stop sp)
  ]

  pub shape-close_actor : (a : ℕ) (sp : SessionProcessor env) → shape (close_actor a sp) ≡ shape sp
  unfolding close_actor with_identities
  shape-close_actor a sp =
      ap (with_identities sp) (map-map_same identity _ sp.calls (λ c. ground arith))

  shape-stop_calls :
      (ids : List Text) (sp : SessionProcessor env) → shape (stop_calls ids sp) ≡ shape sp
  unfolding stop_calls
  shape-stop_calls [] sp = refl
  shape-stop_calls (id ∷ ids) sp = elim (Option-cases (Map.get sp.ongoing_calls id)) [
    | inl e ↦ rw (e, stop_calls) (shape-stop_calls ids sp)
    | inr (ref, e) ↦
        rw (e, stop_calls)
          (shape-stop_calls ids (request_stop ref sp).1 ∙ shape-request_stop ref sp)
  ]

  shape-close_actors :
      (names : List Text) (sp : SessionProcessor env) → shape (close_actors names sp) ≡ shape sp
  unfolding close_actors
  shape-close_actors [] sp = refl
  shape-close_actors (name ∷ names) sp = elim (Option-cases (Map.get sp.actors name)) [
    | inl e ↦ rw (e, close_actors) (shape-close_actors names sp)
    | inr (a, e) ↦
        rw (e, close_actors) (shape-close_actors names (close_actor a sp) ∙ shape-close_actor a sp)
  ]

  pub shape-close : (sp : SessionProcessor env) → shape (close sp) ≡ shape sp
  unfolding close with_identities
  shape-close sp =
      let stopped = stop_calls (Map.keys sp.ongoing_calls) (record sp { closing = true }) in
      let closed = close_actors (Map.keys stopped.actors) stopped in
      ap (with_identities closed) (map-map_same identity cancel closed.calls (λ c. refl))
      ∙ shape-close_actors (Map.keys stopped.actors) stopped
      ∙ shape-stop_calls (Map.keys sp.ongoing_calls) (record sp { closing = true })
