-- ===== src/Control/Run.antt =====
-- Session.runCmd of control/session.go, on the session at a pointer. What an included script does is an
-- argument here: Script runs it, through these commands.
pub mod Facts
use rumor.Base.{
  ℕ, Bool, true, false, not, ◌&&◌, ◌||◌, List, [], ◌∷◌, length, Option, none, some, ltb, nat_beq,
  ◌==◌, bytes_eq, nat_eq, get_elem?, if◌then◌else◌,
}
use rumor.Control.Text.{Text, bytes, has_prefix}
use rumor.Control.Types.{
  Env, Call, Session, SessionProcessor, Value, Failure, runtime, exit_parse_error, plain, Reason,
  too_many_arguments, no_name, unknown_variable, no_command, bad_duration, no_steps, call_finished,
  no_call, nothing_to_cancel, step_failed, external,
}
use rumor.Control.Call.{request_stop, request_step, Stepped, as_external}
use rumor.Control.Processor.{new_session, get_call, kill_actor, make_call}
use rumor.Control.Overview.{clear_log_data}
use rumor.Control.Prefixes.{Prefixes, no_prefixes, parse_prefixes, is_empty_text}
use rumor.Control.Session.{update_session, new_call_id, set_interest, close_session, grab_value}

-- topRoutes of control/actor/actor.go
abbrev pub top_routes : List Text
top_routes =
    bytes "host"
    ∷ bytes "enr"
    ∷ bytes "peer"
    ∷ bytes "peerstore"
    ∷ bytes "dv5"
    ∷ bytes "gossip"
    ∷ bytes "rpc"
    ∷ bytes "blocks"
    ∷ bytes "states"
    ∷ bytes "chain"
    ∷ bytes "sleep"
    ∷ bytes "tool"
    ∷ []

unfoldable pub is_one_of : Text → List Text → Bool
is_one_of word [] = false
is_one_of word (w ∷ ws) = word == w || is_one_of word ws

-- IsActorCmd of control/actor/actor.go
unfoldable pub is_actor_cmd : List Text → Bool
unfolding is_one_of
is_actor_cmd [] = false
is_actor_cmd (word ∷ args) = word == bytes "help" || is_one_of word top_routes

-- `args[0] == word`, if there is one.
abbrev pub starts_with : List Text → Text → Bool
starts_with [] word = false
starts_with (arg ∷ args) word = arg == word

abbrev pub or_else : Text → Text → Text
or_else [] name = name
or_else (c ∷ cs) name = c ∷ cs

-- MaybeRuntimeErr
abbrev pub maybe_runtime_err : Option Reason → Option Failure
maybe_runtime_err none = none
maybe_runtime_err (some e) = some (runtime e)

module _ {env : Env}
    (run_script : ℕ → Text → SessionProcessor env → Option Failure × SessionProcessor env) where
  abbrev pub Done : Type 0
  Done = Option Failure × SessionProcessor env

  -- RunInclude: a sub-session with the default actor of this one, which is closed at the end.
  unfoldable pub run_include : Text → Text → SessionProcessor env → Done
  unfolding new_session update_session
  run_include default_actor path sp =
      let (j, sp₁) = new_session sp in
      let (e, sp₂) =
        run_script j path
          (update_session j (λ s. record s { default_actor = default_actor }) sp₁) in
      (e, update_session j close_session sp₂)

  abbrev pub set_default : Text → Session env → Session env
  set_default name s = record s { default_actor = name }

  unfoldable pub cmd_include : ℕ → Session env → Text → List Text → SessionProcessor env → Done
  unfolding run_include update_session
  cmd_include i s actor (word ∷ path ∷ []) sp =
      let (e, sp') = run_include actor path (update_session i (set_default actor) sp) in
      (e, update_session i (set_default s.default_actor) sp')
  cmd_include i s actor args sp = (some exit_parse_error, sp)

  -- The call that `next` and `cancel` are about.
  unfoldable pub target_call : Session env → Text → SessionProcessor env → Option ℕ
  unfolding get_call
  target_call s id sp = if is_empty_text id then s.last_call else get_call sp id

  abbrev pub bad_timeout : List Text → Bool
  bad_timeout (word ∷ timeout ∷ []) = not (env.is_duration timeout)
  bad_timeout args = false

  abbrev pub step_result : Stepped → Option Failure
  step_result r = elim r.error [
    | some e ↦ some (runtime (step_failed e))
    | none ↦
        if r.no_step
        then some (runtime no_steps)
        else if r.finish
        then some (runtime call_finished)
        else none
  ]

  unfoldable pub step_call : List Text → Option (Call env) → SessionProcessor env → Done
  unfolding request_step
  step_call args none sp = (some (runtime no_call), sp)
  step_call args (some c) sp =
      if bad_timeout args
      then (some (runtime bad_duration), sp)
      else let (r, sp') = request_step c sp in (step_result r, sp')

  unfoldable pub call_at : Option ℕ → SessionProcessor env → Option (Call env)
  call_at none sp = none
  call_at (some ref) sp = get_elem? sp.calls ref

  unfoldable pub cmd_next : Session env → Text → List Text → SessionProcessor env → Done
  unfolding target_call step_call call_at
  cmd_next s id args sp =
      if ltb 2 (length args)
      then (some (plain too_many_arguments), sp)
      else step_call args (call_at (target_call s id sp) sp) sp

  -- `if sess.lastCall == call { sess.lastCall = nil }`
  abbrev pub forget_call : ℕ → Session env → Session env
  forget_call ref s = record s {
    last_call = elim s.last_call [
      | none ↦ none
      | some last ↦ if last == ref then none else some last
    ];
  }

  unfoldable pub stop_target : ℕ → Option ℕ → SessionProcessor env → Done
  unfolding request_stop update_session
  stop_target i none sp = (some (runtime nothing_to_cancel), sp)
  stop_target i (some ref) sp =
      let (e, sp') = request_stop ref sp in
      elim e [
        | some x ↦ (some (runtime x), sp')
        | none ↦ (none, update_session i (forget_call ref) sp')
      ]

  unfoldable pub cmd_cancel : ℕ → Session env → Text → List Text → SessionProcessor env → Done
  unfolding target_call stop_target
  cmd_cancel i s id args sp =
      if ltb 2 (length args)
      then (some (runtime too_many_arguments), sp)
      else if bad_timeout args
      then (some (runtime bad_duration), sp)
      else stop_target i (target_call s id sp) sp

  abbrev pub print : ℕ → Option Value → SessionProcessor env → Done
  print i none sp = (some (runtime unknown_variable), sp)
  print i (some v) sp = (none, update_session i (λ s. record s { printed = v ∷ s.printed }) sp)

  unfoldable pub cmd_grab : ℕ → Session env → List Text → SessionProcessor env → Done
  unfolding grab_value update_session
  cmd_grab i s (word ∷ []) sp = (some (runtime no_name), sp)
  cmd_grab i s (word ∷ name ∷ []) sp = print i (grab_value s sp name) sp
  cmd_grab i s args sp = (some (runtime too_many_arguments), sp)

  -- Only prefixes: the log level of a call is changed.
  unfoldable pub cmd_level : ℕ → Prefixes → SessionProcessor env → Done
  unfolding update_session
  cmd_level i p sp =
      if p.changed_level && not (is_empty_text p.custom_call_id)
      then (none, update_session i (set_interest p.custom_call_id p.level) sp)
      else (some (plain no_command), sp)

  unfoldable pub run_non_rumor_cmd : List Text → SessionProcessor env → Done
  run_non_rumor_cmd args sp =
      let (e, w) = env.run_other args sp.world in
      (elim e [ none ↦ none | some x ↦ some (plain (external x)) ], record sp { world = w })

  -- The call with its id: the interest, MakeCall, and the last call, which a command that could not be
  -- loaded leaves empty.
  unfoldable pub run_call : ℕ → Text → ℕ → Text → List Text → SessionProcessor env → Done
  unfolding update_session make_call
  run_call i id level actor args sp =
      let ((ref, e), sp') = make_call actor id args (update_session i (set_interest id level) sp) in
      (maybe_runtime_err e, update_session i (λ s. record s { last_call = ref }) sp')

  unfoldable pub cmd_call :
      ℕ → Session env → Prefixes → Text → List Text → SessionProcessor env → Done
  unfolding run_call new_call_id
  cmd_call i s p actor args sp =
      if is_empty_text p.custom_call_id
      then (let (id, s') = new_call_id s in
          run_call i id p.level actor args (update_session i (λ _. s') sp))
      else run_call i p.custom_call_id p.level actor args sp

  unfoldable pub dispatch :
      ℕ → Session env → Prefixes → Text → List Text → SessionProcessor env → Done
  unfolding cmd_include cmd_next cmd_cancel cmd_grab cmd_level cmd_call run_non_rumor_cmd
      is_actor_cmd
  dispatch i s p actor args sp =
      if starts_with args (bytes "include")
      then cmd_include i s actor args sp
      else if starts_with args (bytes "next")
      then cmd_next s p.custom_call_id args sp
      else if starts_with args (bytes "cancel")
      then cmd_cancel i s p.custom_call_id args sp
      else if nat_beq (length args) 1 && starts_with args (bytes "kill")
      then (none, kill_actor actor sp)
      else if nat_beq (length args) 1 && starts_with args (bytes "calls")
      then (none, sp)
      else if nat_beq (length args) 1 && starts_with args (bytes "clear_log_data")
      then (none, clear_log_data sp)
      else if starts_with args (bytes "grab")
      then cmd_grab i s args sp
      else if nat_beq (length args) 1 && starts_with args (bytes "me")
      then (none, update_session i (set_default actor) sp)
      else if nat_beq (length args) 0
      then cmd_level i p sp
      else if not (is_actor_cmd args)
      then run_non_rumor_cmd args sp
      else cmd_call i s p actor args sp

  unfoldable pub run_cmd : ℕ → Session env → List Text → SessionProcessor env → Done
  unfolding dispatch parse_prefixes
  run_cmd i s args sp =
      let (p, rest) = parse_prefixes env args no_prefixes in
      dispatch i s p (or_else p.actor_str s.default_actor) rest sp

  -- Every pointer to a session points to one.
  unfoldable pub run_command : ℕ → List Text → SessionProcessor env → Done
  unfolding run_cmd
  run_command i args sp = elim (get_elem? sp.sessions i) [
    | none ↦ (none, sp)
    | some s ↦ run_cmd i s args sp
  ]
