-- ===== src/Control/Processor.antt =====
-- SessionProcessor of control/session_processor.go. A log entry is shown by the sessions with an
-- interest in its call; the processor's own log, which has no call, is left out.
pub mod Facts
use rumor.Base.{
  ℕ, zero, suc, ◌+◌, Bool, true, false, not, List, [], ◌∷◌, ◌++◌, length, map, Option, none, some,
  leb, ◌==◌, bytes_eq, nat_eq, get_elem?, add64, if◌then◌else◌, ◌||◌, ◌/◌,
}
use rumor.Base.Map
use rumor.Base.Map.{Map}
use rumor.Control.Text.{Text, bytes, decimal}
use rumor.Control.Types.{
  Env, Event, registers, logs, Executed, Call, Session, Entry, SessionProcessor, Value, of_text,
  of_call_id, of_map, other_map, of_list, other_slice, other, Reason, command_unparsed,
  command_failed, stop,
}
use rumor.Control.Call.{update, update_call, cancel, register_stop}

-- Names of log fields.
abbrev pub actor_key : Text
actor_key = bytes "actor"

abbrev pub call_id_key : Text
call_id_key = bytes "call_id"

abbrev pub level_key : Text
level_key = bytes "level"

abbrev pub msg_key : Text
msg_key = bytes "msg"

abbrev pub time_key : Text
time_key = bytes "time"

abbrev pub freed_key : Text
freed_key = bytes "__freed"

abbrev pub error_key : Text
error_key = bytes "__error"

abbrev pub success_key : Text
success_key = bytes "__success"

abbrev pub true_text : Text
true_text = bytes "true"

-- logrus.InfoLevel and logrus.TraceLevel
abbrev pub info_level : ℕ
info_level = 4

abbrev pub trace_level : ℕ
trace_level = 6

-- string(callID) + "_" + k
abbrev pub data_key : Text → Text → Text
data_key id k = id ++ (95 ∷ k)

unfoldable pub is_reserved : Text → Bool
is_reserved k = k == level_key || k == call_id_key || k == msg_key || k == time_key

-- The loop of the formatter over the entry's data.
unfoldable pub store_fields : Text → List (Text × Value) → Map Text Value → Map Text Value
store_fields id [] m = m
store_fields id ((k, v) ∷ fields) m =
    store_fields id fields (if is_reserved k then m else Map.put m (data_key id k) v)

-- The call of an entry, from the field call_id. With a field of another type the formatter fails; an
-- entry with no such field, which no call's logger makes, goes to the log of the processor.
unfoldable pub logged_id : Option Value → Option Text
logged_id (some (of_call_id id)) = some id
logged_id (some (of_text id)) = some id
logged_id (some (of_map m)) = none
logged_id (some (other_map m)) = none
logged_id (some (of_list l)) = none
logged_id (some (other_slice l)) = none
logged_id (some (other s)) = none
logged_id none = none

module _ {env : Env} where
  unfoldable pub show : Text → Entry env → Session env → Session env
  show id entry s = elim (Map.get s.interests id) [
    | none ↦ s
    | some lvl ↦ if leb entry.level lvl then record s { shown = entry ∷ s.shown } else s
  ]

  -- The loops of the formatter over the data of an entry and over the sessions.
  unfoldable pub store_entry :
      Text → ℕ → List (Text × Value) → SessionProcessor env → SessionProcessor env
  unfolding store_fields show
  store_entry id level all sp = record sp {
    log_data = store_fields id all sp.log_data;
    sessions = map (show id (record { level = level; fields = all })) sp.sessions;
  }

  -- An entry of a call's logger, which adds the actor and the call to the fields; a field of the entry
  -- itself goes before them, also one with the name call_id.
  unfoldable pub log_entry :
      Text → Text → ℕ → List (Text × Value) → SessionProcessor env → SessionProcessor env
  unfolding logged_id store_entry
  log_entry actor id level fields sp =
      let all = (actor_key, other actor) ∷ (call_id_key, of_call_id id) ∷ fields in
      elim (logged_id (Map.last_value call_id_key all none)) [
        | none ↦ sp
        | some id' ↦ store_entry id' level all sp
      ]

  -- newSession, with the id "s%d". The environment and the context of the parent are left out.
  unfoldable pub new_session_value : ℕ → Session env
  new_session_value counter = record {
    session_id = 115 ∷ decimal counter;
    last_call = none;
    interests = Map.empty;
    default_actor = bytes "DEFAULT_ACTOR_ID";
    call_counter = 0;
    requested_exit = false;
    shown = [];
    printed = [];
  }

  -- NewSession and NewSubSession: the new session's place in the store.
  unfoldable pub new_session : SessionProcessor env → ℕ × SessionProcessor env
  unfolding new_session_value
  new_session sp =
      let counter = add64 sp.session_id_counter 1 in
      (
        length sp.sessions,
        record sp {
          session_id_counter = counter;
          sessions = sp.sessions ++ (new_session_value counter ∷ []);
        },
      )

  unfoldable pub get_call : SessionProcessor env → Text → Option ℕ
  get_call sp id = Map.get sp.ongoing_calls id

  unfoldable pub new_actor : Text → SessionProcessor env → ℕ × SessionProcessor env
  new_actor name sp = (
    sp.actor_counter,
    record sp {
      actors = Map.put sp.actors name sp.actor_counter;
      actor_counter = sp.actor_counter + 1;
    },
  )

  unfoldable pub get_actor : Text → SessionProcessor env → ℕ × SessionProcessor env
  unfolding new_actor
  get_actor name sp = elim (Map.get sp.actors name) [ some a ↦ (a, sp) | none ↦ new_actor name sp ]

  -- Actor.Close ends the contexts of the calls of the actor.
  unfoldable pub close_actor : ℕ → SessionProcessor env → SessionProcessor env
  close_actor a sp = record sp { calls = map (λ c. if c.actor == a then cancel c else c) sp.calls }

  unfoldable pub kill_actor : Text → SessionProcessor env → SessionProcessor env
  unfolding close_actor
  kill_actor name sp = elim (Map.get sp.actors name) [
    | none ↦ sp
    | some a ↦ record (close_actor a sp) { actors = Map.delete sp.actors name }
  ]

  abbrev pub unset_interest : Text → Session env → Session env
  unset_interest id s = record s { interests = Map.delete s.interests id }

  unfoldable pub remove_interests : Text → SessionProcessor env → SessionProcessor env
  remove_interests id sp = record sp { sessions = map (unset_interest id) sp.sessions }

  -- What the command does to its call and to the log.
  unfoldable pub apply_events :
      ℕ → Text → Text → List (Event env.Stop) → SessionProcessor env → SessionProcessor env
  unfolding update_call register_stop log_entry
  apply_events ref actor id [] sp = sp
  apply_events ref actor id (registers s ∷ es) sp =
      apply_events ref actor id es (update_call ref (register_stop (stop s)) sp)
  apply_events ref actor id (logs level fields ∷ es) sp =
      apply_events ref actor id es (log_entry actor id level fields sp)

  -- The log of a command's end; the usage text of the help is left out of the entry.
  unfoldable pub finish_call :
      Text → Text → Option ℕ → Bool → SessionProcessor env → Option Reason × SessionProcessor env
  unfolding log_entry
  finish_call actor id (some e) is_help sp = (
    some (command_failed e),
    log_entry actor id trace_level ((error_key, other (env.error_text e)) ∷ []) sp,
  )
  finish_call actor id none is_help sp =
      let helped = if is_help then log_entry actor id info_level [] sp else sp in
      (none, log_entry actor id trace_level ((success_key, of_text true_text) ∷ []) helped)

  unfoldable pub new_call : Text → Text → List Text → ℕ → ℕ → Call env
  new_call actor id args a now = record {
    id = id;
    args = args;
    start_time = now;
    on_stop = none;
    spawned = false;
    done = false;
    actor_name = actor;
    actor = a;
  }

  unfoldable pub execute_call :
      ℕ → Text → Text → List Text → SessionProcessor env → Option Reason × SessionProcessor env
  unfolding apply_events finish_call
  execute_call ref actor id args sp =
      let (done, w) = env.execute actor id args sp.world in
      finish_call actor id done.error done.is_help
        (apply_events ref actor id done.events (record sp { world = w }))

  -- MakeCall: the call, if its command could be loaded, and the error. The goroutine that it leaves
  -- behind is `free_call`.
  unfoldable pub make_call :
      Text
      → Text
      → List Text
      → SessionProcessor env
      → (Option ℕ × Option Reason) × SessionProcessor env
  unfolding get_actor remove_interests new_call execute_call
  make_call actor id args sp =
      let (a, sp₁) = get_actor actor sp in
      elim (env.load actor id) [
        | some e ↦ ((none, some (command_unparsed e)), remove_interests id sp₁)
        | none ↦
            let ref = length sp₁.calls in
            let (e, sp₂) = execute_call ref actor id args (record sp₁ {
              calls = sp₁.calls ++ (new_call actor id args a (env.now sp₁.world) ∷ []);
              ongoing_calls = Map.put sp₁.ongoing_calls id ref;
            }) in
            ((some ref, e), sp₂)
      ]

  -- What the goroutine of a call does once the call is over.
  unfoldable pub free : Call env → SessionProcessor env → SessionProcessor env
  unfolding log_entry remove_interests
  free c sp =
      let logged =
        log_entry c.actor_name c.id trace_level ((freed_key, of_text true_text) ∷ []) sp in
      let removed = remove_interests c.id logged in
      record removed { ongoing_calls = Map.delete removed.ongoing_calls c.id }

  -- The goroutine of the call at a pointer. It waits, and changes nothing yet, where something was
  -- spawned and the context is not done.
  unfoldable pub free_call : ℕ → SessionProcessor env → SessionProcessor env
  unfolding update_call free
  free_call ref sp = elim (get_elem? sp.calls ref) [
    | none ↦ sp
    | some c ↦
        if not c.spawned
        then free c (update_call ref cancel sp)
        else if c.done
        then free c sp
        else sp
  ]
