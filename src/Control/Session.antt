-- ===== src/Control/Session.antt =====
-- Session of control/session.go: its state, and the lookup of variables.
pub mod Facts
use rumor.Base.{
  ℕ, Bool, true, false, List, [], ◌∷◌, ◌++◌, map, drop, Option, none, some, ◌==◌, bytes_eq,
  get_elem?, add64, if◌then◌else◌,
}
use rumor.Base.Map
use rumor.Base.Map.{Map}
use rumor.Control.Text.{Text, bytes, decimal, has_prefix}
use rumor.Control.Types.{
  Env, Call, Session, SessionProcessor, Value, of_text, of_call_id, of_map, other_map, of_list,
  other_slice, other,
}
use rumor.Control.Call.{update}

-- The variables of the shell that Get makes; all are exported and read-only.
pub data Variable : Type 0 where
  string : Text → Variable
  associative : Map Text Text → Variable
  indexed : List Text → Variable

unfoldable pub fill_map : List (Text × Text) → Map Text Text → Map Text Text
fill_map [] m = m
fill_map ((k, v) ∷ rest) m = fill_map rest (Map.put m k v)

-- The conversion of Get, by type and then by reflection.
unfoldable pub variable_of : Value → Variable
unfolding fill_map
variable_of (of_text s) = string s
variable_of (of_map m) = associative (fill_map m Map.empty)
variable_of (of_list l) = indexed l
variable_of (other_map m) = associative (fill_map m Map.empty)
variable_of (other_slice l) = indexed l
variable_of (of_call_id s) = string s
variable_of (other s) = string s

module _ {env : Env} where
  -- A change through a pointer to a session.
  unfoldable pub update_session :
      ℕ → (Session env → Session env) → SessionProcessor env → SessionProcessor env
  unfolding update
  update_session i f sp = record sp { sessions = update sp.sessions i f }

  unfoldable pub new_call_id : Session env → Text × Session env
  new_call_id s =
      let number = add64 s.call_counter 1 in
      (s.session_id ++ (bytes "_" ++ decimal number), record s { call_counter = number })

  abbrev pub set_interest : Text → ℕ → Session env → Session env
  set_interest id level s = record s { interests = Map.put s.interests id level }

  unfoldable pub has_interest : Session env → Text → Option ℕ
  has_interest s id = Map.get s.interests id

  unfoldable pub list_interests : Session env → List Text
  list_interests s = Map.keys s.interests

  abbrev pub close_session : Session env → Session env
  close_session s = record s { requested_exit = true }

  -- The id of the last call, as it stands before a variable's name.
  unfoldable pub last_call_id : Session env → SessionProcessor env → Option Text
  last_call_id s sp = elim s.last_call [
    | none ↦ none
    | some ref ↦ elim (get_elem? sp.calls ref) [ none ↦ none | some c ↦ some c.id ]
  ]

  unfoldable pub get_of_last : Session env → SessionProcessor env → Text → Option Value
  unfolding last_call_id
  get_of_last s sp suffix = elim (last_call_id s sp) [
    | none ↦ none
    | some id ↦ Map.get sp.log_data (id ++ suffix)
  ]

  -- The value of a name that begins with `_`, in `grab` and in Get.
  unfoldable pub underscore_value : Session env → SessionProcessor env → Text → Option Value
  unfolding get_of_last
  underscore_value s sp name =
      if has_prefix name (bytes "__")
      then get_of_last s sp (drop 1 name)
      else Map.get sp.log_data (drop 1 name)

  -- The value that `grab` prints: a plain name may also be a field of the last call.
  unfoldable pub grab_value : Session env → SessionProcessor env → Text → Option Value
  unfolding underscore_value
  grab_value s sp name =
      if has_prefix name (bytes "_")
      then underscore_value s sp name
      else elim (Map.get sp.log_data name) [
        | some v ↦ some v
        | none ↦ get_of_last s sp (bytes "_" ++ name)
      ]

  unfoldable pub session_variable : Session env → (Text → Variable) → Text → Variable
  session_variable s parent name =
      if name == bytes "ACTOR" then string s.default_actor else parent name

  -- Get, over the environment of the parent.
  unfoldable pub get : Session env → SessionProcessor env → (Text → Variable) → Text → Variable
  unfolding underscore_value variable_of session_variable
  get s sp parent name =
      if has_prefix name (bytes "_")
      then elim (underscore_value s sp name) [
        | some v ↦ variable_of v
        | none ↦ session_variable s parent name
      ]
      else session_variable s parent name
