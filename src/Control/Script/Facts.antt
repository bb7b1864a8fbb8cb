-- ===== src/Control/Script/Facts.antt =====
-- Included scripts (runInclude of control/session.go) keep the session processor consistent.
use rumor.Base.{ℕ, zero, suc, List, [], ◌∷◌, Option, ◌≡◌, refl, ◌⊎◌, inl, inr}
use rumor.Control.Text.{Text}
use rumor.Control.Types.{Env, SessionProcessor, Failure}
use rumor.Control.Run.{run_command}
use rumor.Control.Script.{
  Loaded, cannot_open, cannot_parse, parsed, Doing, finishes, runs, Shell, Result, run_script,
  run_program, included,
}
use rumor.Control.Invariant.{IsConsistent}
use rumor.Control.Reach.{run_command-IsConsistent}

Doing-cases :
    (d : Doing) → ((e : Option Failure) × (d ≡ finishes e)) ⊎ ((args : List Text) × (d ≡ runs args))
Doing-cases (finishes e) = inl (e, refl)
Doing-cases (runs args) = inr (args, refl)

module _ {env : Env} (sh : Shell env) where
  -- A run that keeps a consistent processor so.
  abbrev Keeps : (ℕ → sh.Program → SessionProcessor env → Result sh) → Type 0
  Keeps run =
      (i : ℕ) (program : sh.Program) (sp : SessionProcessor env)
      → IsConsistent sp
      → IsConsistent (run i program sp).1

  run_script-IsConsistent :
      (run : ℕ → sh.Program → SessionProcessor env → Result sh)
      → Keeps run
      → (i : ℕ) (path : Text) (sp : SessionProcessor env) → IsConsistent sp
      → IsConsistent (run_script sh run i path sp).1
  unfolding run_script
  run_script-IsConsistent run keeps i path sp c = by_load (sh.load_script path sp.world) refl
    where
      by_load :
          (l : Loaded sh.Program)
          → sh.load_script path sp.world ≡ l
          → IsConsistent (run_script sh run i path sp).1
      by_load cannot_open e = rw (e, run_script) c
      by_load cannot_parse e = rw (e, run_script) c
      by_load (parsed program) e = rw (e, run_script) (keeps i program sp c)

  run_program-IsConsistent :
      (fuel : ℕ) (ends : List (Option Failure))
      → Keeps (λ i program. run_program sh fuel i program ends)
  unfolding run_program
  run_program-IsConsistent zero ends i program sp c = c
  run_program-IsConsistent (suc fuel) ends i program sp c =
      let inner = included sh fuel in
      elim (Doing-cases (sh.next_command program ends sp)) [
        | inl (x, e) ↦ rw (e, run_program) c
        | inr (args, e) ↦
            let kept =
              run_command-IsConsistent inner
                (run_script-IsConsistent (λ j p. run_program sh fuel j p [])
                  (run_program-IsConsistent fuel []))
                i args sp c in
            rw (e, run_program)
              (run_program-IsConsistent fuel ((run_command inner i args sp).0 ∷ ends) i program
                (run_command inner i args sp).1 kept)
      ]

  pub included-IsConsistent :
      (fuel i : ℕ) (path : Text) (sp : SessionProcessor env)
      → IsConsistent sp
      → IsConsistent (included sh fuel i path sp).1
  included-IsConsistent fuel =
      run_script-IsConsistent (λ j program. run_program sh fuel j program [])
        (run_program-IsConsistent fuel [])
