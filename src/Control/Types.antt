-- ===== src/Control/Types.antt =====
-- The objects of package control: Call (control/call.go), Session (control/session.go) and
-- SessionProcessor (control/session_processor.go). Calls and sessions are shared by pointer: both lie
-- in a store of the processor, in the order of their creation, and are referred to by their place.
use rumor.Base.{ℕ, Bool, List, Option, ◌≡◌, true}
use rumor.Base.Map.{Map}
use rumor.Base.Exec.{Exec}
use rumor.Control.Text.{Text}

-- What a log field may hold, as Session.Get tells it apart: a string, a map or a list of strings, by
-- type or by reflection (with %v of the contents), or anything else with its %v. The id of a call has a
-- type of its own, which the log formatter knows.
pub data Value : Type 0 where
  of_text of_call_id : Text → Value
  of_map other_map : List (Text × Text) → Value
  of_list other_slice : List Text → Value
  other : Text → Value

-- The reasons in the errors of a command. `external` is an error of a library or of a command.
pub data Reason : Type 0 where
  too_many_arguments no_name unknown_variable no_command : Reason
  bad_duration no_steps call_finished no_call nothing_to_cancel step_stopped : Reason
  command_unparsed command_failed external : ℕ → Reason
  step_failed first_stop_failed second_stop_failed : Reason → Reason
  both_stops_failed : Reason → Reason → Reason

-- CallErr, an exit status, and a plain error.
pub data Failure : Type 0 where
  runtime : Reason → Failure
  exit_parse_error exit_runtime_error : Failure
  plain : Reason → Failure

-- What RequestStep finds first: the end of its own context, a step that the command offers, with the
-- error of the step, or the end of the call.
pub data Ready : Type 0 where
  stopped : Ready
  offered : Option ℕ → Ready
  over : Ready

-- What a command does to its call while it runs.
pub data Event (Stop : Type 0) : Type 0 where
  registers : Stop → Event Stop
  logs : ℕ → List (Text × Value) → Event Stop

pub record Executed (Stop : Type 0) : Type 0 where
  pub events : List (Event Stop)
  pub error : Option ℕ
  pub is_help : Bool

-- The commands of the actors and the libraries that package control calls: ask, logrus, time and the
-- shell interpreter, which run in a world of their own.
pub record Env : Type 1 where
  pub World : Type 0
  pub Stop : Type 0
  pub now : World → ℕ
  pub run_stop : Stop → World → Option ℕ × World
  pub load : Text → Text → Option ℕ
  pub execute : Text → Text → List Text → World → Executed Stop × World
  pub ready : Bool → Text → World → Ready × World
  pub error_text : ℕ → Text
  -- logrus.ParseLevel returns level 0 beside its error.
  pub parse_level : Text → Option ℕ
  pub is_duration : Text → Bool
  pub run_other : List Text → World → Option ℕ × World
  -- The call's context is done only if it is.
  pub over_done : (done : Bool) (id : Text) (w : World) → (ready done id w).0 ≡ over → done ≡ true

module _ (env : Env) where
  pub data OnStop : Type 0 where
    stop : env.Stop → OnStop
    both : OnStop → OnStop → OnStop

  pub record Call : Type 0 where
    pub id : Text
    pub args : List Text
    pub start_time : ℕ
    pub on_stop : Option OnStop
    pub spawned : Bool
    pub done : Bool
    pub actor_name : Text
    -- The actor whose context the call's context is derived from.
    pub actor : ℕ

  -- A log entry as a session shows it; of two fields with one name the later one counts.
  pub record Entry : Type 0 where
    pub level : ℕ
    pub fields : List (Text × Value)

  pub record Session : Type 0 where
    pub session_id : Text
    pub last_call : Option ℕ
    pub interests : Map Text ℕ
    pub default_actor : Text
    pub call_counter : ℕ
    pub requested_exit : Bool
    -- What the session has logged of calls, and what `grab` has printed, the newest first.
    pub shown : List Entry
    pub printed : List Value

  -- The actors are numbered: a name can stand for one after the other.
  pub record SessionProcessor : Type 0 where
    pub sessions : List Session
    pub session_id_counter : ℕ
    pub actors : Map Text ℕ
    pub actor_counter : ℕ
    pub calls : List Call
    pub ongoing_calls : Map Text ℕ
    pub log_data : Map Text Value
    pub closing : Bool
    pub world : env.World

  abbrev pub Control : Type 0 → Type 0
  Control A = Exec Failure SessionProcessor A
