-- ===== src/Control/Script.antt =====
-- Session.runInclude of control/session.go, and what the session's interpreter does with a script: it
-- hands every command that it comes to to RunCmd of the sub-session. The interpreter of mvdan.cc/sh is a
-- parameter: how files are opened and parsed, and which command comes next.
pub mod Facts
use rumor.Base.{ℕ, zero, suc, List, [], ◌∷◌, Option, none, some}
use rumor.Control.Text.{Text}
use rumor.Control.Types.{Env, SessionProcessor, Failure, exit_parse_error, exit_runtime_error}
use rumor.Control.Run.{run_command}

pub data Loaded (Program : Type 0) : Type 0 where
  cannot_open cannot_parse : Loaded Program
  parsed : Program → Loaded Program

-- What the interpreter does next: it is at the end, or it calls its handler with the words of a command.
pub data Doing : Type 0 where
  finishes : Option Failure → Doing
  runs : List Text → Doing

-- The choice of the next command may depend on how the commands before it ended, the last first, and on
-- all that there is, such as the variables of the session.
pub record Shell (env : Env) : Type 1 where
  pub Program : Type 0
  pub load_script : Text → env.World → Loaded Program
  pub next_command : Program → List (Option Failure) → SessionProcessor env → Doing

module _ {env : Env} (sh : Shell env) where
  abbrev pub Result : Type 0
  Result = Option Failure × SessionProcessor env

  -- runInclude of the session at a pointer, with what runs a parsed file.
  unfoldable pub run_script :
      (ℕ → sh.Program → SessionProcessor env → Result) → ℕ → Text → SessionProcessor env → Result
  run_script run i path sp = elim (sh.load_script path sp.world) [
    | cannot_open ↦ (some exit_runtime_error, sp)
    | cannot_parse ↦ (some exit_parse_error, sp)
    | parsed program ↦ run i program sp
  ]

  -- subShell.Run, with at most so many commands behind each other and inside each other. A script need
  -- not end: where the fuel runs out, the processor is as the script has left it so far.
  unfoldable pub run_program :
      (fuel : ℕ) → ℕ → sh.Program → List (Option Failure) → SessionProcessor env → Result
  unfolding run_script
  run_program zero i program ends sp = (none, sp)
  run_program (suc fuel) i program ends sp = elim (sh.next_command program ends sp) [
    | finishes e ↦ (e, sp)
    | runs args ↦
        let (e, sp') =
          run_command (run_script (λ j inner. run_program fuel j inner [])) i args sp in
        run_program fuel i program (e ∷ ends) sp'
  ]

  -- What an included script does, as far as the fuel goes.
  abbrev pub included : (fuel : ℕ) → ℕ → Text → SessionProcessor env → Result
  included fuel = run_script (λ j program. run_program fuel j program [])
