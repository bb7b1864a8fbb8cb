-- ===== src/Control/Overview.antt =====
-- The operations of SessionProcessor (control/session_processor.go) that range over all calls:
-- GetCalls, ClearLogData, Report and Close.
pub mod Facts
use rumor.Base.{
  ℕ, ◌/◌, ◌-◌, Bool, true, false, List, [], ◌∷◌, map, Option, none, some, ◌==◌, bytes_eq, get_elem?,
  if◌then◌else◌, ◌||◌,
}
use rumor.Base.Map
use rumor.Base.Map.{Map}
use rumor.Control.Text.{Text, has_prefix}
use rumor.Control.Types.{Env, Call, SessionProcessor, Value}
use rumor.Control.Call.{request_stop, cancel}
use rumor.Control.Processor.{close_actor}

pub record CallSummary : Type 0 where
  pub summary_actor : Text
  pub summary_args : List Text

pub record ReportCall : Type 0 where
  pub report_actor : Text
  pub report_args : List Text
  pub start_time_ms : ℕ

unfoldable pub is_open_data : List Text → Text → Bool
is_open_data [] k = false
is_open_data (id ∷ ids) k = has_prefix k id || is_open_data ids k

-- The loop over the keys of the log data.
unfoldable pub clear_keys : List Text → List Text → Map Text Value → Map Text Value
unfolding is_open_data
clear_keys ids [] m = m
clear_keys ids (k ∷ ks) m = clear_keys ids ks (if is_open_data ids k then m else Map.delete m k)

module _ {env : Env} where
  unfoldable pub clear_log_data : SessionProcessor env → SessionProcessor env
  unfolding clear_keys
  clear_log_data sp = record sp {
    log_data = clear_keys (Map.keys sp.ongoing_calls) (Map.keys sp.log_data) sp.log_data;
  }

  abbrev pub summary : Call env → CallSummary
  summary c = record { summary_actor = c.actor_name; summary_args = c.args }

  -- One round of GetCalls; every pointer in `ongoing_calls` points to a call.
  unfoldable pub add_summary :
      Text → Text → Option (Call env) → Map Text CallSummary → Map Text CallSummary
  add_summary actor id none m = m
  add_summary actor id (some c) m = if c.actor_name == actor then Map.put m id (summary c) else m

  unfoldable pub collect_calls :
      Text → List Text → SessionProcessor env → Map Text CallSummary → Map Text CallSummary
  unfolding add_summary
  collect_calls actor [] sp m = m
  collect_calls actor (id ∷ ids) sp m = elim (Map.get sp.ongoing_calls id) [
    | none ↦ collect_calls actor ids sp m
    | some ref ↦ collect_calls actor ids sp (add_summary actor id (get_elem? sp.calls ref) m)
  ]

  unfoldable pub get_calls : Text → SessionProcessor env → Map Text CallSummary
  unfolding collect_calls
  get_calls actor sp = collect_calls actor (Map.keys sp.ongoing_calls) sp Map.empty

  -- The entry of a call in Report; the actors' entries are what libp2p knows of the hosts.
  unfoldable pub report_call : Call env → ReportCall
  report_call c = record {
    report_actor = c.actor_name;
    report_args = c.args;
    start_time_ms = c.start_time / 1000;
  }

  -- `sp.ongoing_calls.Range`: each call is asked to stop, and a failure is only logged.
  unfoldable pub stop_calls : List Text → SessionProcessor env → SessionProcessor env
  stop_calls [] sp = sp
  stop_calls (id ∷ ids) sp = elim (Map.get sp.ongoing_calls id) [
    | none ↦ stop_calls ids sp
    | some ref ↦ stop_calls ids (request_stop ref sp).1
  ]

  unfoldable pub close_actors : List Text → SessionProcessor env → SessionProcessor env
  close_actors [] sp = sp
  close_actors (name ∷ names) sp = elim (Map.get sp.actors name) [
    | none ↦ close_actors names sp
    | some a ↦ close_actors names (close_actor a sp)
  ]

  -- Close. The global actor context ends every call; the sessions' contexts are left out.
  unfoldable pub close : SessionProcessor env → SessionProcessor env
  unfolding stop_calls close_actors
  close sp =
      let stopped = stop_calls (Map.keys sp.ongoing_calls) (record sp { closing = true }) in
      let closed = close_actors (Map.keys stopped.actors) stopped in
      record closed { calls = map cancel closed.calls }
