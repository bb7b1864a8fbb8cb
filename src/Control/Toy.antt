-- ===== src/Control/Toy.antt =====
-- A small world of commands for package control: tasks that note that they ran, where task 9 fails,
-- commands that start task 5 and log a field, and ids of which `bad` cannot be loaded.
use Prim.Native.Nat.{ℕ}
use rumor.Base.{
  Bool, true, false, List, [], ◌∷◌, ◌++◌, length, none, some, nat_beq, ◌==◌, bytes_eq, ◌≡◌, refl,
  if◌then◌else◌,
}
use rumor.Control.Text.{bytes}
use rumor.Control.Types.{Env, Executed, Ready, offered, over, registers, logs, of_text}

abbrev pub toy_ready : Bool → Ready
toy_ready true = over
toy_ready false = offered none

pub toy_over_done : (done : Bool) → toy_ready done ≡ over → done ≡ true
toy_over_done true e = refl
toy_over_done false e = cc

abbrev pub toy_executed : Executed ℕ
toy_executed = record {
  events = registers 5 ∷ logs 4 ((bytes "height", of_text (bytes "12")) ∷ []) ∷ [];
  error = none;
  is_help = false;
}

abbrev pub toy : Env
toy = record {
  World = List ℕ;
  Stop = ℕ;
  now = λ w. length w;
  run_stop = λ s w. (if nat_beq s 9 then some 9 else none, w ++ (s ∷ []));
  load = λ actor id. if id == bytes "bad" then some 3 else none;
  execute = λ actor id args w. (toy_executed, w);
  ready = λ done id w. (toy_ready done, w);
  error_text = λ e. e ∷ [];
  parse_level = λ level. if level == bytes "warn" then some 3 else none;
  is_duration = λ d. d == bytes "3s";
  run_other = λ args w. (none, w);
  over_done = λ done id w. toy_over_done done;
}
