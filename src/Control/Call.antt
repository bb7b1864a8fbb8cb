-- ===== src/Control/Call.antt =====
-- Call of control/call.go: RegisterStop, RequestStep and RequestStop, on the processor's store of calls.
pub mod Facts
use rumor.Base.{
  ℕ, zero, suc, Bool, true, false, List, [], ◌∷◌, Option, none, some, Result, ok, err, panic,
  get_elem?,
}
use rumor.Control.Text.{Text}
use rumor.Control.Types.{
  Env, OnStop, stop, both, Call, SessionProcessor, Reason, external, first_stop_failed,
  second_stop_failed, both_stops_failed, step_stopped, step_failed, Ready, stopped, offered, over,
}

-- A write through a pointer into a store.
unfoldable pub update {ℓ} : {A : Type ℓ} → List A → ℕ → (A → A) → List A
update [] i f = []
update (x ∷ xs) zero f = f x ∷ xs
update (x ∷ xs) (suc i) f = x ∷ update xs i f

-- Both tasks are stopped, also if the first one fails.
abbrev pub joined : Option Reason → Option Reason → Option Reason
joined none none = none
joined none (some e) = some (second_stop_failed e)
joined (some e) none = some (first_stop_failed e)
joined (some e) (some e') = some (both_stops_failed e e')

abbrev pub as_external : Option ℕ → Option Reason
as_external none = none
as_external (some e) = some (external e)

-- What RequestStep returns: noStep, finish and the error. The channel of steps is never closed.
pub record Stepped : Type 0 where
  pub no_step : Bool
  pub finish : Bool
  pub error : Option Reason

unfoldable pub stepped : Ready → Stepped
stepped stopped = record { no_step = false; finish = false; error = some step_stopped }
stepped (offered e) = record { no_step = false; finish = false; error = as_external e }
stepped over = record { no_step = true; finish = true; error = none }

module _ {env : Env} where
  unfoldable pub register_stop : OnStop env → Call env → Call env
  register_stop on_stop c = record c {
    on_stop = elim c.on_stop [ none ↦ some on_stop | some prev ↦ some (both prev on_stop) ];
    spawned = true;
  }

  unfoldable pub run_on_stop : OnStop env → env.World → Option Reason × env.World
  run_on_stop (stop s) w = let (e, w') = env.run_stop s w in (as_external e, w')
  run_on_stop (both prev next) w =
      let (e, w') = run_on_stop prev w in let (e', w'') = run_on_stop next w' in (joined e e', w'')

  unfoldable pub update_call :
      ℕ → (Call env → Call env) → SessionProcessor env → SessionProcessor env
  unfolding update
  update_call ref f sp = record sp { calls = update sp.calls ref f }

  -- c.bgCancel()
  abbrev pub cancel : Call env → Call env
  cancel c = record c { done = true }

  -- The wait behind bgCancel ends at once, since the context is done.
  unfoldable pub after_stop :
      ℕ → Option Reason × env.World → SessionProcessor env → Option Reason × SessionProcessor env
  unfolding update_call
  after_stop ref (some e, w) sp = (some e, record sp { world = w })
  after_stop ref (none, w) sp = (
    none,
    update_call ref (λ c. record c { on_stop = none; done = true }) (record sp { world = w }),
  )

  unfoldable pub stop_call :
      ℕ → Option (OnStop env) → SessionProcessor env → Option Reason × SessionProcessor env
  unfolding after_stop run_on_stop
  stop_call ref none sp = (none, update_call ref cancel sp)
  stop_call ref (some on_stop) sp = after_stop ref (run_on_stop on_stop sp.world) sp

  -- RequestStop of the call at a pointer.
  unfoldable pub request_stop : ℕ → SessionProcessor env → Option Reason × SessionProcessor env
  unfolding stop_call
  request_stop ref sp = elim (get_elem? sp.calls ref) [
    | none ↦ (none, sp)
    | some c ↦ stop_call ref c.on_stop sp
  ]

  unfoldable pub request_step : Call env → SessionProcessor env → Stepped × SessionProcessor env
  unfolding stepped
  request_step c sp =
      let (r, w) = env.ready c.done c.id sp.world in (stepped r, record sp { world = w })
