-- ===== src/Control/Session/Facts.antt =====
-- The names of calls and of their data, in control/session.go and control/session_processor.go: the ids
-- that sessions generate, and the variables under which a call's log data is read back.
use rumor.Base.{
  ℕ, ◌^◌, ◌<◌, ◌≡◌, ◌≢◌, refl, sym, ap, ◌∙◌, true, false, List, [], ◌∷◌, ◌++◌, Option, none, some,
  arith, nat_beq, Bool-cases, inl, inr, if◌then◌else◌, All, ◌==◌, bytes_eq, add64, beq_refl, beq_ne,
}
use rumor.Base.Compare.{bytes_beq}
use rumor.Base.Map
use rumor.Base.Map.{Map, get-put}
use rumor.Control.Text.{Text, bytes, decimal, has_prefix}
use rumor.Control.Text.Facts.{decimal-Digits, decimal_injective, split_digits}
use rumor.Control.Types.{
  Env, Session, SessionProcessor, Value, of_text, of_call_id, of_map, other_map, of_list,
  other_slice, other,
}
use rumor.Control.Processor.{
  new_session_value, data_key, is_reserved, store_fields, log_entry, logged_id, store_entry,
  actor_key, call_id_key,
}
use rumor.Control.Session.{
  Variable, string, indexed, associative, new_call_id, underscore_value, get, variable_of, fill_map,
}

add64_lt : (a b : ℕ) → add64 a b < 2 ^ 64
add64_lt a b = omega arith

module _ {env : Env} where
  -- Two ids that sessions generate are different, unless the sessions have the same number and have
  -- counted the same number of calls.
  pub new_call_id_unique :
      (m n : ℕ) (s s' : Session env)
      → m < 2 ^ 64
      → n < 2 ^ 64
      → s.session_id ≡ (new_session_value {env = env} m).session_id
      → s'.session_id ≡ (new_session_value {env = env} n).session_id
      → (new_call_id s).0 ≡ (new_call_id s').0
      → (m ≡ n) × (add64 s.call_counter 1 ≡ add64 s'.call_counter 1)
  unfolding new_session_value new_call_id
  new_call_id_unique m n s s' hm hn e e' same =
      let texts : decimal m ++ (95 ∷ decimal (add64 s.call_counter 1))
          ≡ decimal n ++ (95 ∷ decimal (add64 s'.call_counter 1)) =
        cc in
      let (first, second) =
        split_digits (decimal m) (decimal n) 95 (decimal (add64 s.call_counter 1))
          (decimal (add64 s'.call_counter 1)) (decimal-Digits m) (decimal-Digits n) (omega arith)
          texts in
      (
        decimal_injective m n hm hn first,
        decimal_injective _ _ (add64_lt s.call_counter 1) (add64_lt s'.call_counter 1) second,
      )

data_key_injective : (id j k : Text) → data_key id j ≡ data_key id k → j ≡ k
data_key_injective [] j k e = cc
data_key_injective (c ∷ id) j k e = data_key_injective id j k (cc)

data_key_same : (id j k : Text) → (data_key id j == data_key id k) ≡ (j == k)
data_key_same id j k = elim (Bool-cases (j == k)) [
  | inl t ↦ (bytes_eq.same_iff _ _).1 (ap (data_key id) ((bytes_eq.same_iff j k).0 t)) ∙ sym t
  | inr f ↦
      beq_ne (data_key id j) (data_key id k) (λ e.
        let t = (bytes_eq.same_iff j k).1 (data_key_injective id j k e) in absurd (ground arith))
      ∙ sym f
]

get-store_fields :
    (id k : Text) (fields : List (Text × Value)) (m : Map Text Value)
    → is_reserved k ≡ false
    → Map.get (store_fields id fields m) (data_key id k)
      ≡ Map.last_value k fields (Map.get m (data_key id k))
unfolding store_fields Map.last_value
get-store_fields id k [] m h = refl
get-store_fields id k ((j, v) ∷ fields) m h = elim (Bool-cases (is_reserved j)) [
  | inl t ↦
      let other_name : (j == k) ≡ false =
        beq_ne j k (λ e. let r : true ≡ false = sym t ∙ ap is_reserved e ∙ h in absurd (cc)) in
      rw (t, other_name) (get-store_fields id k fields m h)
  | inr f ↦ rw f (
      get-store_fields id k fields (Map.put m (data_key id j) v) h
      ∙ ap (λ o. Map.last_value k fields o)
          (get-put m (data_key id j) (data_key id k) v
            ∙ ap (λ b. if b then some v else Map.get m (data_key id k)) (data_key_same id j k)))
]

-- No field has the name.
abbrev pub Lacks : Text → List (Text × Value) → Type 0
Lacks k fields = All (λ f. (f.0 == k) ≡ false) fields

last_value-Lacks :
    (k : Text) (fields : List (Text × Value)) (o : Option Value)
    → Lacks k fields
    → Map.last_value k fields o ≡ o
unfolding Map.last_value
last_value-Lacks k [] o h = refl
last_value-Lacks k ((j, v) ∷ fields) o h = rw (h.0) (last_value-Lacks k fields o h.1)

last_value-append :
    (k : Text) (xs ys : List (Text × Value)) (o : Option Value)
    → Map.last_value k (xs ++ ys) o ≡ Map.last_value k ys (Map.last_value k xs o)
unfolding Map.last_value
last_value-append k [] ys o = refl
last_value-append k ((j, v) ∷ xs) ys o = last_value-append k xs ys (if j == k then some v else o)

last_value-last :
    (k : Text) (before after : List (Text × Value)) (v : Value) (o : Option Value)
    → Lacks k after
    → Map.last_value k (before ++ ((k, v) ∷ after)) o ≡ some v
unfolding Map.last_value
last_value-last k before after v o h =
    last_value-append k before ((k, v) ∷ after) o
    ∙ rw (beq_refl k) (last_value-Lacks k after (some v) h)

-- The shell variable that a value is to be read as: a text as itself, also that of a call's id or of
-- anything else, a list as its items, and a map with each key at its last value.
unfoldable pub Shows : Value → Variable → Type 0
Shows (of_text s) x = x ≡ string s
Shows (of_call_id s) x = x ≡ string s
Shows (other s) x = x ≡ string s
Shows (of_list l) x = x ≡ indexed l
Shows (other_slice l) x = x ≡ indexed l
Shows (of_map m) x =
    (a : Map Text Text) × (x ≡ associative a) × ((k : Text) → Map.get a k ≡ Map.last_value k m none)
Shows (other_map m) x =
    (a : Map Text Text) × (x ≡ associative a) × ((k : Text) → Map.get a k ≡ Map.last_value k m none)

get-fill_map :
    (l : List (Text × Text)) (m : Map Text Text) (k : Text)
    → Map.get (fill_map l m) k ≡ Map.last_value k l (Map.get m k)
unfolding fill_map Map.last_value
get-fill_map [] m k = refl
get-fill_map ((j, v) ∷ l) m k =
    get-fill_map l (Map.put m j v) k ∙ ap (λ o. Map.last_value k l o) (get-put m j k v)

variable_of-Shows : (v : Value) → Shows v (variable_of v)
unfolding variable_of Shows Map.empty Map.get
variable_of-Shows (of_text s) = refl
variable_of-Shows (of_call_id s) = refl
variable_of-Shows (other s) = refl
variable_of-Shows (of_list l) = refl
variable_of-Shows (other_slice l) = refl
variable_of-Shows (of_map m) = (fill_map m Map.empty, refl, λ k. get-fill_map m Map.empty k)
variable_of-Shows (other_map m) = (fill_map m Map.empty, refl, λ k. get-fill_map m Map.empty k)

own_id :
    (actor id : Text) (fields : List (Text × Value))
    → Lacks call_id_key fields
    → Map.last_value call_id_key
        ((actor_key, other actor) ∷ (call_id_key, of_call_id id) ∷ fields)
        none
      ≡ some (of_call_id id)
unfolding Map.last_value bytes_beq
own_id actor id fields no_id = last_value-Lacks call_id_key fields (some (of_call_id id)) no_id

module _ {env : Env} where
  log_entry-store_entry :
      (actor id : Text) (level : ℕ) (fields : List (Text × Value)) (sp : SessionProcessor env)
      → Lacks call_id_key fields
      → log_entry actor id level fields sp
        ≡ store_entry id level ((actor_key, other actor) ∷ (call_id_key, of_call_id id) ∷ fields) sp
  unfolding logged_id log_entry store_entry
  log_entry-store_entry actor id level fields sp no_id =
      rw (own_id actor id fields no_id, log_entry) refl

  pub get-log_entry :
      (s : Session env) (sp : SessionProcessor env) (parent : Text → Variable)
      → (actor : Text) (c : ℕ) (id k : Text) (level : ℕ) (before after : List (Text × Value))
        (v : Value)
      → c ≢ 95
      → is_reserved k ≡ false
      → Lacks call_id_key (before ++ ((k, v) ∷ after))
      → Lacks k after
      → Shows v (
          get s
            (log_entry actor (c ∷ id) level (before ++ ((k, v) ∷ after)) sp)
            parent
            (bytes "_" ++ data_key (c ∷ id) k))
  unfolding get store_entry underscore_value has_prefix
  get-log_entry s sp parent actor c id k level before after v plain free no_id last =
      let one : nat_beq c 95 ≡ false = ground arith in
      let fields : List (Text × Value) = before ++ ((k, v) ∷ after) in
      let stored =
        get-store_fields (c ∷ id) k
          ((actor_key, other actor) ∷ (call_id_key, of_call_id (c ∷ id)) ∷ fields) sp.log_data free
        ∙ last_value-last k ((actor_key, other actor) ∷ (call_id_key, of_call_id (c ∷ id)) ∷ before)
            after v _ last in
      rw (log_entry-store_entry actor (c ∷ id) level fields sp no_id)
        (rw (one, stored) (variable_of-Shows v))
