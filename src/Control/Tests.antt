-- ===== src/Control/Tests.antt =====
-- The theorems about package control at concrete inputs, in the small world of Toy.
use rumor.Base.{
  ℕ, ◌≡◌, ◌≢◌, refl, inr, true, false, List, [], ◌∷◌, ◌++◌, Option, none, some, get_elem?, All,
  arith, add64, bytes_eq,
}
use rumor.Base.Compare.{bytes_beq}
use rumor.Base.Map
use rumor.Base.Map.{Map}
use rumor.Control.Text.{Text, bytes, has_prefix}
use rumor.Control.Types.{
  Call, Session, SessionProcessor, Failure, runtime, command_unparsed, of_text,
}
use rumor.Control.Toy.{toy}
use rumor.Control.Call.{register_stop, request_stop}
use rumor.Control.Call.Facts.{register_all, Stopped, request_stop-Stopped}
use rumor.Control.Processor.{
  free_call, is_reserved, new_call, new_session_value, new_session, get_call, data_key, log_entry,
}
use rumor.Control.Processor.Facts.{Uninterested, free_call_forgets}
use rumor.Control.Overview.{clear_log_data}
use rumor.Control.Overview.Facts.{clear_log_data_keeps}
use rumor.Control.Prefixes.{no_prefixes, parse_prefixes}
use rumor.Control.Prefixes.Facts.{actor_word, call_word, level_word, parse_prefixes-words}
use rumor.Control.Session.{Variable, string, get, last_call_id}
use rumor.Control.Session.Facts.{Shows, new_call_id_unique, get-log_entry}
use rumor.Control.Run.{run_call, run_command}
use rumor.Control.Run.Facts.{run_call_remembers, run_call_unparsed}
use rumor.Control.Script.{Doing, finishes, runs, parsed, Shell, included}
use rumor.Control.Invariant.{IsConsistent}
use rumor.Control.Steps.{new_session_processor, opened, command, here, next, Reach-Consistent}
use rumor.Control.Lines.{Next, line, failed, LinesReader, ReadLines, read_lines}
use rumor.Control.Lines.Facts.{Delivers, read_lines-Delivers}

-- An included script that does nothing.
abbrev no_script : ℕ → Text → SessionProcessor toy → Option Failure × SessionProcessor toy
no_script i path sp = (none, sp)

abbrev started : SessionProcessor toy
started = new_session_processor toy []

abbrev with_session : SessionProcessor toy
with_session = record started { sessions = new_session_value {env = toy} 1 ∷ [] }

abbrev made_call : Call toy
made_call = new_call (bytes "alice") (bytes "c") (bytes "sleep" ∷ []) 0 0

-- A call with two tasks of which the first one fails.
abbrev busy_call : Call toy
busy_call = register_all (9 ∷ 5 ∷ []) made_call

abbrev busy : SessionProcessor toy
busy = record with_session {
  calls = busy_call ∷ [];
  ongoing_calls = Map.put Map.empty (bytes "c") 0;
  log_data = Map.put Map.empty (bytes "c2_x") (of_text (bytes "7"));
}

request_stop-runs_both : (request_stop 0 busy).1.world ≡ 9 ∷ 5 ∷ []
unfolding request_stop new_session_processor new_call register_all register_stop
request_stop-runs_both = refl

request_stop-Stopped_example : Stopped 0 busy_call (9 ∷ 5 ∷ []) busy (request_stop 0 busy)
unfolding new_call
request_stop-Stopped_example = request_stop-Stopped 0 made_call (9 ∷ 5 ∷ []) busy refl refl

free_call_forgets_example :
    (Map.get
        (free_call 0 (record busy { calls = record busy_call { done = true } ∷ [] })).ongoing_calls
        (bytes "c")
      ≡ none)
    × All
        (Uninterested (bytes "c"))
        (free_call 0 (record busy { calls = record busy_call { done = true } ∷ [] })).sessions
    × ((other : Text)
        → bytes "c" ≢ other
        → Map.get
            (free_call 0
              (record busy { calls = record busy_call { done = true } ∷ [] })).ongoing_calls
            other
          ≡ Map.get busy.ongoing_calls other)
unfolding new_call register_all register_stop
free_call_forgets_example =
    free_call_forgets 0 (record busy_call { done = true })
      (record busy { calls = record busy_call { done = true } ∷ [] }) refl (inr refl)

-- The data of another call is kept where its id begins with that of an ongoing call.
clear_log_data-of_longer_id :
    Map.get (clear_log_data busy).log_data (bytes "c2_x") ≡ some (of_text (bytes "7"))
unfolding Map.get Map.put bytes_beq has_prefix
clear_log_data-of_longer_id = (clear_log_data_keeps busy (bytes "c2_x")).0 (bytes "c") 0 refl refl

clear_log_data_keeps_example :
    ((id : Text) (ref : ℕ)
      → Map.get busy.ongoing_calls id ≡ some ref
      → has_prefix (bytes "c2_x") id ≡ true
      → Map.get (clear_log_data busy).log_data (bytes "c2_x")
        ≡ Map.get busy.log_data (bytes "c2_x"))
    × (((id : Text) (ref : ℕ)
          → Map.get busy.ongoing_calls id ≡ some ref
          → has_prefix (bytes "c2_x") id ≡ false)
        → Map.get (clear_log_data busy).log_data (bytes "c2_x") ≡ none)
clear_log_data_keeps_example = clear_log_data_keeps busy (bytes "c2_x")

parse_prefixes-words_example :
    parse_prefixes toy
      (actor_word (bytes "bob")
        ∷ call_word (bytes "c")
        ∷ level_word (bytes "warn")
        ∷ bytes "host"
        ∷ [])
      no_prefixes
    ≡ (
      record {
        actor_str = bytes "bob";
        custom_call_id = bytes "c";
        level = 3;
        changed_level = true;
      },
      bytes "host" ∷ [],
    )
unfolding bytes_beq
parse_prefixes-words_example =
    parse_prefixes-words toy 98 (bytes "ob") 99 [] (bytes "warn") 3 (bytes "host" ∷ []) refl

abbrev second : Session toy
second = new_session_value 2

new_call_id_unique_example :
    (◌≡◌ {A = ℕ} 2 2) × (add64 second.call_counter 1 ≡ add64 second.call_counter 1)
new_call_id_unique_example =
    new_call_id_unique 2 2 second second (omega arith) (omega arith) refl refl refl

abbrev no_parent : Text → Variable
no_parent name = string []

get-log_entry_example :
    get second
      (log_entry
        (bytes "alice")
        (bytes "c")
        4
        ([] ++ ((bytes "height", of_text (bytes "12")) ∷ []))
        busy)
      no_parent
      (bytes "_" ++ data_key (bytes "c") (bytes "height"))
    ≡ string (bytes "12")
unfolding is_reserved bytes_beq Shows
get-log_entry_example =
    get-log_entry second busy no_parent (bytes "alice") 99 [] (bytes "height") 4 [] []
      (of_text (bytes "12")) (λ e. omega arith) refl (refl, tt) tt

run_call_remembers_example :
    (s : Session toy) × (get_elem?
        (run_call no_script 0 (bytes "d") 5 (bytes "bob") (bytes "sleep" ∷ []) busy).1.sessions
        0
      ≡ some s)
    × (last_call_id s (run_call no_script 0 (bytes "d") 5 (bytes "bob") (bytes "sleep" ∷ []) busy).1
        ≡ some (bytes "d"))
    × (get_call
          (run_call no_script 0 (bytes "d") 5 (bytes "bob") (bytes "sleep" ∷ []) busy).1
          (bytes "d")
        ≡ s.last_call)
unfolding bytes_beq
run_call_remembers_example =
    run_call_remembers no_script 0 (bytes "d") 5 (bytes "bob") (bytes "sleep" ∷ []) busy
      (new_session_value 1) refl refl

run_call_unparsed_example :
    ((run_call no_script 0 (bytes "bad") 5 (bytes "bob") (bytes "sleep" ∷ []) busy).0
      ≡ some (runtime (command_unparsed 3)))
    × ((run_call no_script 0
          (bytes "bad")
          5
          (bytes "bob")
          (bytes "sleep" ∷ [])
          busy).1.ongoing_calls
        ≡ busy.ongoing_calls)
    × (s : Session toy) × (get_elem?
          (run_call no_script 0 (bytes "bad") 5 (bytes "bob") (bytes "sleep" ∷ []) busy).1.sessions
          0
        ≡ some s)
    × (s.last_call ≡ none)
unfolding bytes_beq
run_call_unparsed_example =
    run_call_unparsed no_script 0 (bytes "bad") 5 (bytes "bob") (bytes "sleep" ∷ []) busy
      (new_session_value 1) refl 3 refl

-- A shell that runs the commands of a file one after the other; every file has the same two, of which
-- the first one runs a call and the second one kills the call's actor.
abbrev nth_command : List (List Text) → List (Option Failure) → Doing
nth_command [] ends = finishes none
nth_command (args ∷ program) [] = runs args
nth_command (args ∷ program) (e ∷ ends) = nth_command program ends

abbrev toy_shell : Shell toy
toy_shell = record {
  Program = List (List Text);
  load_script = λ path w.
      parsed ((bytes "bob:" ∷ bytes "sleep" ∷ []) ∷ (bytes "bob:" ∷ bytes "kill" ∷ []) ∷ []);
  next_command = λ program ends sp. nth_command program ends;
}

-- After a session was opened and has included a file.
abbrev after_include : SessionProcessor toy
after_include =
    (run_command (included toy_shell 3) 0 (bytes "include" ∷ bytes "file" ∷ [])
      (new_session started).1).1

Reach-Consistent_example : IsConsistent after_include
Reach-Consistent_example = Reach-Consistent toy toy_shell [] after_include (
    next (next here (opened started))
      (command 3 0 (bytes "include" ∷ bytes "file" ∷ []) (new_session started).1))

abbrev two_lines : List Text → Next (List Text)
two_lines [] = failed 1 []
two_lines (text ∷ texts) = line text texts

abbrev line_reader : LinesReader two_lines
line_reader = record { source = bytes "ab" ∷ bytes "c" ∷ []; last = [] }

read_lines-Delivers_example :
    Delivers two_lines 2 [] line_reader (read_lines two_lines line_reader 2)
read_lines-Delivers_example = read_lines-Delivers two_lines line_reader 2

-- The line break comes with the next Read, which then stops although there is room.
abbrev read_twice : ReadLines two_lines
read_twice = read_lines two_lines (read_lines two_lines line_reader 2).reader 5

read_lines-line_break : read_twice.written ≡ 10 ∷ []
unfolding read_lines
read_lines-line_break = refl
