-- ===== src/Control/Call/Facts.antt =====
-- What RequestStop of control/call.go does with the tasks that RegisterStop has collected.
use mathlib.Core.List.{append-nil, append_assoc}
use rumor.Base.{
  ℕ, zero, suc, ◌≡◌, refl, sym, ap, ◌∙◌, Bool, true, false, ◌&&◌, List, [], ◌∷◌, ◌++◌, Option, none,
  some, get_elem?, Option-cases, inl, inr,
}
use rumor.Control.Types.{Env, OnStop, stop, both, Call, SessionProcessor, Reason}
use rumor.Control.Call.{
  update, update_call, joined, as_external, register_stop, run_on_stop, after_stop, stop_call,
  request_stop, cancel,
}

pub get_elem?-update {ℓ} :
    {A : Type ℓ} (xs : List A) (i : ℕ) (f : A → A) (x : A)
    → get_elem? xs i ≡ some x
    → get_elem? (update xs i f) i ≡ some (f x)
unfolding update
get_elem?-update [] i f x h = absurd (cc)
get_elem?-update (y ∷ xs) zero f x h = cc
get_elem?-update (y ∷ xs) (suc i) f x h = get_elem?-update xs i f x h

abbrev is_none : Option ℕ → Bool
is_none none = true
is_none (some e) = false

abbrev no_error : Option Reason → Bool
no_error none = true
no_error (some e) = false

no_error-joined : (e e' : Option Reason) → no_error (joined e e') ≡ (no_error e && no_error e')
no_error-joined none none = refl
no_error-joined none (some e) = refl
no_error-joined (some e) none = refl
no_error-joined (some e) (some e') = refl

no_error-as_external : (e : Option ℕ) → no_error (as_external e) ≡ is_none e
no_error-as_external none = refl
no_error-as_external (some e) = refl

and_true : (b : Bool) → (b && true) ≡ b
and_true true = refl
and_true false = refl

and_assoc : (a b c : Bool) → (a && (b && c)) ≡ ((a && b) && c)
and_assoc true b c = refl
and_assoc false b c = refl

module _ (env : Env) where
  -- Each task once, in order, and whether all went well.
  unfoldable pub run_tasks : List env.Stop → env.World → Bool × env.World
  run_tasks [] w = (true, w)
  run_tasks (s ∷ ss) w =
      let (e, w') = env.run_stop s w in
      let (fine, w'') = run_tasks ss w' in (is_none e && fine, w'')

  run_tasks-append :
      (ss ts : List env.Stop) (w : env.World)
      → run_tasks (ss ++ ts) w ≡ (
        (run_tasks ss w).0 && (run_tasks ts (run_tasks ss w).1).0,
        (run_tasks ts (run_tasks ss w).1).1,
      )
  unfolding run_tasks
  run_tasks-append [] ts w = refl
  run_tasks-append (s ∷ ss) ts w = rw (run_tasks-append ss ts (env.run_stop s w).1) (
      ap (λ fine. (fine, (run_tasks ts (run_tasks ss (env.run_stop s w).1).1).1))
        (and_assoc (is_none (env.run_stop s w).0) (run_tasks ss (env.run_stop s w).1).0
          (run_tasks ts (run_tasks ss (env.run_stop s w).1).1).0))

module _ {env : Env} where
  unfoldable pub tasks_of : OnStop env → List env.Stop
  tasks_of (stop s) = s ∷ []
  tasks_of (both prev next) = tasks_of prev ++ tasks_of next

  -- The tasks of a call, in the order of their registration.
  unfoldable pub tasks : Option (OnStop env) → List env.Stop
  unfolding tasks_of
  tasks none = []
  tasks (some s) = tasks_of s

  run_on_stop_all :
      (s : OnStop env) (w : env.World)
      → (no_error (run_on_stop s w).0, (run_on_stop s w).1) ≡ run_tasks env (tasks_of s) w
  unfolding run_on_stop tasks_of run_tasks
  run_on_stop_all (stop s) w =
      ap (λ fine. (fine, (env.run_stop s w).1))
        (no_error-as_external (env.run_stop s w).0 ∙ sym (and_true (is_none (env.run_stop s w).0)))
  run_on_stop_all (both prev next) w =
      let first = run_on_stop_all prev w in
      let second = run_on_stop_all next (run_on_stop prev w).1 in
      rw (no_error-joined, run_tasks-append env (tasks_of prev) (tasks_of next) w)
        (rw⁻¹ first (rw⁻¹ second refl))

  pub tasks-register_stop :
      (s : OnStop env) (c : Call env)
      → tasks (register_stop s c).on_stop ≡ tasks c.on_stop ++ tasks_of s
  unfolding tasks register_stop tasks_of
  tasks-register_stop s c = elim (Option-cases c.on_stop) [
    | inl e ↦ rw e refl
    | inr (p, e) ↦ rw e refl
  ]

  -- A call after RegisterStop of these tasks, the first one first.
  unfoldable pub register_all : List env.Stop → Call env → Call env
  register_all [] c = c
  register_all (s ∷ ss) c = register_all ss (register_stop (stop s) c)

  tasks-register_all :
      (ss : List env.Stop) (c : Call env)
      → tasks (register_all ss c).on_stop ≡ tasks c.on_stop ++ ss
  unfolding register_all tasks_of
  tasks-register_all [] c = sym (append-nil (tasks c.on_stop))
  tasks-register_all (s ∷ ss) c =
      tasks-register_all ss (register_stop (stop s) c)
      ∙ ap (λ ts. ts ++ ss) (tasks-register_stop (stop s) c)
      ∙ append_assoc (tasks c.on_stop) (s ∷ []) ss

  -- What RequestStop leaves of a call with these tasks.
  pub record Stopped (ref : ℕ) (c : Call env) (ss : List env.Stop) (sp : SessionProcessor env)
      (got : Option Reason × SessionProcessor env) : Type 0 where
    pub ran : got.1.world ≡ (run_tasks env ss sp.world).1
    pub reports : no_error got.0 ≡ (run_tasks env ss sp.world).0
    pub ends :
        no_error got.0 ≡ true
        → get_elem? got.1.calls ref ≡ some (record c { on_stop = none; done = true })
    pub keeps : no_error got.0 ≡ false → got.1.calls ≡ sp.calls

  after_stop-Stopped :
      (ref : ℕ) (c : Call env) (ss : List env.Stop) (sp : SessionProcessor env) (e : Option Reason)
      (w : env.World)
      → get_elem? sp.calls ref ≡ some c
      → (no_error e, w) ≡ run_tasks env ss sp.world
      → Stopped ref c ss sp (after_stop ref (e, w) sp)
  unfolding after_stop update_call
  after_stop-Stopped ref c ss sp none w found same = record {
    ran = ap (λ r. r.1) same;
    reports = ap (λ r. r.0) same;
    ends = λ _. get_elem?-update sp.calls ref _ c found;
    keeps = λ h. absurd (cc);
  }
  after_stop-Stopped ref c ss sp (some e) w found same = record {
    ran = ap (λ r. r.1) same;
    reports = ap (λ r. r.0) same;
    ends = λ h. absurd (cc);
    keeps = λ _. refl;
  }

  stop_call-Stopped :
      (ref : ℕ) (c : Call env) (ss : List env.Stop) (sp : SessionProcessor env)
      (o : Option (OnStop env))
      → c.on_stop ≡ o
      → tasks c.on_stop ≡ ss
      → get_elem? sp.calls ref ≡ some c
      → Stopped ref c ss sp (stop_call ref o sp)
  unfolding stop_call update_call tasks run_tasks
  stop_call-Stopped ref c ss sp none e listed found =
      let empty : [] ≡ ss = ap tasks (sym e) ∙ listed in
      let none_run : (true, sp.world) ≡ run_tasks env ss sp.world =
        ap (λ ts. run_tasks env ts sp.world) empty in
      record {
        ran = ap (λ r. r.1) none_run;
        reports = ap (λ r. r.0) none_run;
        ends = λ _.
            get_elem?-update sp.calls ref cancel c found
            ∙ ap (λ o. some (record c { on_stop = o; done = true })) e;
        keeps = λ h. absurd (cc);
      }
  stop_call-Stopped ref c ss sp (some s) e listed found =
      after_stop-Stopped ref c ss sp (run_on_stop s sp.world).0 (run_on_stop s sp.world).1 found (
        run_on_stop_all s sp.world
        ∙ ap (λ ts. run_tasks env ts sp.world) (ap tasks (sym e) ∙ listed))

  -- RequestStop of a call for which RegisterStop has been called with each of these tasks, and with
  -- no other, runs each of them once in the order of their registration, also after one has failed.
  -- It fails if and only if one of them does; then the calls stay as they were, and otherwise the
  -- call is done and has no more tasks.
  pub request_stop-Stopped :
      (ref : ℕ) (c : Call env) (ss : List env.Stop) (sp : SessionProcessor env)
      → c.on_stop ≡ none
      → get_elem? sp.calls ref ≡ some (register_all ss c)
      → Stopped ref (register_all ss c) ss sp (request_stop ref sp)
  unfolding request_stop tasks
  request_stop-Stopped ref c ss sp fresh found =
      rw (found, request_stop)
        (stop_call-Stopped ref (register_all ss c) ss sp (register_all ss c).on_stop refl
          (tasks-register_all ss c ∙ ap (λ o. tasks o ++ ss) fresh) found)
