-- ===== src/Control/Reach.antt =====
-- Whatever sessions run and the runtime does (control/*.go), the session processor stays consistent.
use rumor.Base.{
  ℕ, ◌≡◌, refl, Bool, true, false, ◌&&◌, not, List, [], ◌∷◌, length, Option, none, some, get_elem?,
  nat_beq, ltb, nat_eq, bytes_eq, Bool-cases, Option-cases, inl, inr, if◌then◌else◌, ◌==◌,
}
use rumor.Control.Text.{Text, bytes}
use rumor.Control.Types.{Env, Call, Session, SessionProcessor, Failure, Value}
use rumor.Control.Call.{request_stop, request_step}
use rumor.Control.Processor.{new_session, make_call}
use rumor.Control.Overview.{clear_log_data}
use rumor.Control.Session.{update_session, set_interest, close_session, new_call_id, grab_value}
use rumor.Control.Prefixes.{Prefixes, no_prefixes, parse_prefixes, is_empty_text}
use rumor.Control.Run.{
  Done, run_include, set_default, cmd_include, target_call, bad_timeout, step_call, call_at,
  cmd_next, forget_call, stop_target, cmd_cancel, print, cmd_grab, cmd_level, run_non_rumor_cmd,
  run_call, cmd_call, dispatch, run_cmd, run_command, is_actor_cmd, starts_with, or_else,
}
use rumor.Control.Shape.{shape-update_session, shape-request_stop, last_call_of}
use rumor.Control.Invariant.{
  Within, IsConsistent, same-IsConsistent, update_session-IsConsistent, new_session-IsConsistent,
  session-Within,
}
use rumor.Control.Invariant.Calls.{make_call-IsConsistent, kill_actor-IsConsistent}

module _ {env : Env}
    (run_script : ℕ → Text → SessionProcessor env → Option Failure × SessionProcessor env)
    (scripts : (i : ℕ) (path : Text) (sp : SessionProcessor env)
      → IsConsistent sp
      → IsConsistent (run_script i path sp).1) where
  kept :
      (i : ℕ) (f : Session env → Session env) (sp : SessionProcessor env)
      → ((s : Session env) → last_call_of (f s) ≡ last_call_of s)
      → IsConsistent sp
      → IsConsistent (update_session i f sp)
  kept i f sp h c = same-IsConsistent sp (update_session i f sp) (shape-update_session i f sp h) c

  run_include-IsConsistent :
      (name path : Text) (sp : SessionProcessor env)
      → IsConsistent sp
      → IsConsistent (run_include run_script name path sp).1
  unfolding run_include
  run_include-IsConsistent name path sp c =
      let (j, sp₁) = new_session sp in
      let sp₂ = update_session j (set_default run_script name) sp₁ in
      kept j close_session (run_script j path sp₂).1 (λ s. refl)
        (scripts j path sp₂
          (kept j (set_default run_script name) sp₁ (λ s. refl) (new_session-IsConsistent sp c)))

  cmd_include-IsConsistent :
      (i : ℕ) (s : Session env) (actor : Text) (args : List Text) (sp : SessionProcessor env)
      → IsConsistent sp
      → IsConsistent (cmd_include run_script i s actor args sp).1
  unfolding cmd_include
  cmd_include-IsConsistent i s actor [] sp c = c
  cmd_include-IsConsistent i s actor (word ∷ []) sp c = c
  cmd_include-IsConsistent i s actor (word ∷ path ∷ []) sp c =
      let sp₁ = update_session i (set_default run_script actor) sp in
      kept i (set_default run_script s.default_actor) (run_include run_script actor path sp₁).1
        (λ s. refl)
        (run_include-IsConsistent actor path sp₁
          (kept i (set_default run_script actor) sp (λ s. refl) c))
  cmd_include-IsConsistent i s actor (word ∷ path ∷ more ∷ args) sp c = c

  step_call-IsConsistent :
      (args : List Text) (call : Option (Call env)) (sp : SessionProcessor env)
      → IsConsistent sp
      → IsConsistent (step_call run_script args call sp).1
  unfolding step_call request_step
  step_call-IsConsistent args none sp c = c
  step_call-IsConsistent args (some call) sp c = elim (Bool-cases (bad_timeout run_script args)) [
    | inl bad ↦ rw bad c
    | inr good ↦ rw good c
  ]

  cmd_next-IsConsistent :
      (s : Session env) (id : Text) (args : List Text) (sp : SessionProcessor env)
      → IsConsistent sp
      → IsConsistent (cmd_next run_script s id args sp).1
  unfolding cmd_next
  cmd_next-IsConsistent s id args sp c = elim (Bool-cases (ltb 2 (length args))) [
    | inl many ↦ rw many c
    | inr few ↦
        rw few (
          step_call-IsConsistent args (call_at run_script (target_call run_script s id sp) sp) sp c)
  ]

  forget_call-Within :
      (n ref : ℕ) (s : Session env)
      → Within n (last_call_of s)
      → Within n (last_call_of (forget_call run_script ref s))
  forget_call-Within n ref s w = elim (Option-cases s.last_call) [
    | inl e ↦ rw e tt
    | inr (last, e) ↦ elim (Bool-cases (last == ref)) [
      | inl t ↦ rw (e, t) tt
      | inr f ↦ rw (e, f) (rw e at w)
    ]
  ]

  stop_target-IsConsistent :
      (i : ℕ) (target : Option ℕ) (sp : SessionProcessor env)
      → IsConsistent sp
      → IsConsistent (stop_target run_script i target sp).1
  unfolding stop_target
  stop_target-IsConsistent i none sp c = c
  stop_target-IsConsistent i (some ref) sp c =
      let sp' = (request_stop ref sp).1 in
      let c' = same-IsConsistent sp sp' (shape-request_stop ref sp) c in
      elim (Option-cases (request_stop ref sp).0) [
        | inr (x, e) ↦ rw (e, stop_target) c'
        | inl e ↦
            rw (e, stop_target)
              (update_session-IsConsistent i (forget_call run_script ref) sp'
                (forget_call-Within (length sp'.calls) ref) c')
      ]

  new_call_id-Within :
      (n : ℕ) (s : Session env)
      → Within n (last_call_of s)
      → Within n (last_call_of (new_call_id s).1)
  unfolding new_call_id
  new_call_id-Within n s w = w

  -- A command's end that leaves a consistent processor.
  record Sound (d : Done run_script) : Type 0 where
    pub consistent : IsConsistent d.1

  sound : {d : Done run_script} → IsConsistent d.1 → Sound d
  sound c = record { consistent = c }

  either-Sound : (b : Bool) {x y : Done run_script} → Sound x → Sound y → Sound (if b then x else y)
  either-Sound true sx sy = sx
  either-Sound false sx sy = sy

  cmd_cancel-Sound :
      (i : ℕ) (s : Session env) (id : Text) (args : List Text) (sp : SessionProcessor env)
      → IsConsistent sp
      → Sound (cmd_cancel run_script i s id args sp)
  unfolding cmd_cancel
  cmd_cancel-Sound i s id args sp c = either-Sound (ltb 2 (length args)) (sound c) (
      either-Sound (bad_timeout run_script args) (sound c)
        (sound (stop_target-IsConsistent i (target_call run_script s id sp) sp c)))

  print-IsConsistent :
      (i : ℕ) (v : Option Value) (sp : SessionProcessor env)
      → IsConsistent sp
      → IsConsistent (print run_script i v sp).1
  print-IsConsistent i none sp c = c
  print-IsConsistent i (some v) sp c = kept i _ sp (λ s. refl) c

  cmd_grab-IsConsistent :
      (i : ℕ) (s : Session env) (args : List Text) (sp : SessionProcessor env)
      → IsConsistent sp
      → IsConsistent (cmd_grab run_script i s args sp).1
  unfolding cmd_grab
  cmd_grab-IsConsistent i s [] sp c = c
  cmd_grab-IsConsistent i s (word ∷ []) sp c = c
  cmd_grab-IsConsistent i s (word ∷ name ∷ []) sp c =
      print-IsConsistent i (grab_value s sp name) sp c
  cmd_grab-IsConsistent i s (word ∷ name ∷ more ∷ args) sp c = c

  run_call-IsConsistent :
      (i : ℕ) (id : Text) (level : ℕ) (actor : Text) (args : List Text) (sp : SessionProcessor env)
      → IsConsistent sp
      → IsConsistent (run_call run_script i id level actor args sp).1
  unfolding run_call
  run_call-IsConsistent i id level actor args sp c =
      let sp₁ = update_session i (set_interest id level) sp in
      let (c₁, within) =
        make_call-IsConsistent actor id args sp₁
          (kept i (set_interest id level) sp (λ s. refl) c) in
      update_session-IsConsistent i
        (λ s. record s { last_call = (make_call actor id args sp₁).0.0 })
        (make_call actor id args sp₁).1 (λ s w. within) c₁

  cmd_call-Sound :
      (i : ℕ) (s : Session env) (p : Prefixes) (actor : Text) (args : List Text)
      (sp : SessionProcessor env)
      → Within (length sp.calls) (last_call_of s)
      → IsConsistent sp
      → Sound (cmd_call run_script i s p actor args sp)
  unfolding cmd_call
  cmd_call-Sound i s p actor args sp w c =
      let (id, s') = new_call_id s in
      let sp₁ = update_session i (λ _. s') sp in
      either-Sound (is_empty_text p.custom_call_id)
        (sound (
          run_call-IsConsistent i id p.level actor args sp₁ (
            update_session-IsConsistent i (λ _. s') sp
              (λ _ _. new_call_id-Within (length sp.calls) s w) c)))
        (sound (run_call-IsConsistent i p.custom_call_id p.level actor args sp c))

  cmd_level-Sound :
      (i : ℕ) (p : Prefixes) (sp : SessionProcessor env)
      → IsConsistent sp
      → Sound (cmd_level run_script i p sp)
  unfolding cmd_level
  cmd_level-Sound i p sp c =
      either-Sound (p.changed_level && not (is_empty_text p.custom_call_id))
        (sound (kept i (set_interest p.custom_call_id p.level) sp (λ s. refl) c)) (sound c)

  dispatch-Sound :
      (i : ℕ) (s : Session env) (p : Prefixes) (actor : Text) (args : List Text)
      (sp : SessionProcessor env)
      → Within (length sp.calls) (last_call_of s)
      → IsConsistent sp
      → Sound (dispatch run_script i s p actor args sp)
  unfolding dispatch clear_log_data run_non_rumor_cmd
  dispatch-Sound i s p actor args sp w c =
      let is = λ (word : Text). starts_with args word in
      let alone = nat_beq (length args) 1 in
      either-Sound (is (bytes "include")) (sound (cmd_include-IsConsistent i s actor args sp c)) (
        either-Sound (is (bytes "next"))
          (sound (cmd_next-IsConsistent s p.custom_call_id args sp c))
          (either-Sound (is (bytes "cancel")) (cmd_cancel-Sound i s p.custom_call_id args sp c) (
            either-Sound (alone && is (bytes "kill")) (sound (kill_actor-IsConsistent actor sp c)) (
              either-Sound (alone && is (bytes "calls")) (sound c) (
                either-Sound (alone && is (bytes "clear_log_data")) (sound c) (
                  either-Sound (is (bytes "grab")) (sound (cmd_grab-IsConsistent i s args sp c)) (
                    either-Sound (alone && is (bytes "me"))
                      (sound (kept i (set_default run_script actor) sp (λ s. refl) c))
                      (either-Sound (nat_beq (length args) 0) (cmd_level-Sound i p sp c) (
                        either-Sound (not (is_actor_cmd args)) (sound c)
                          (cmd_call-Sound i s p actor args sp w c))))))))))

  pub run_command-IsConsistent :
      (i : ℕ) (args : List Text) (sp : SessionProcessor env)
      → IsConsistent sp
      → IsConsistent (run_command run_script i args sp).1
  unfolding run_command run_cmd
  run_command-IsConsistent i args sp c = elim (Option-cases (get_elem? sp.sessions i)) [
    | inl e ↦ rw (e, run_command) c
    | inr (s, e) ↦
        let (p, rest) = parse_prefixes env args no_prefixes in
        rw (e, run_command)
          (dispatch-Sound i s p (or_else p.actor_str s.default_actor) rest sp
            (session-Within i sp s e c) c).consistent
  ]
