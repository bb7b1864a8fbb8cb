-- ===== src/Control/Overview/Facts.antt =====
-- What ClearLogData of control/session_processor.go keeps.
use rumor.Base.{
  ℕ, ◌≡◌, refl, sym, ◌∙◌, true, false, List, [], ◌∷◌, none, some, arith, Bool-cases, inl, inr,
  if◌then◌else◌, ◌==◌, bytes_eq, beq_refl,
}
use rumor.Base.Map
use rumor.Base.Map.{Map, get-delete, get-of_not_key, get-of_key, holds, keys}
use rumor.Control.Text.{Text, has_prefix}
use rumor.Control.Types.{Env, SessionProcessor, Value}
use rumor.Control.Overview.{is_open_data, clear_keys, clear_log_data}

is_open_data-of_prefix :
    (ids : List Text) (k id : Text)
    → holds ids id ≡ true
    → has_prefix k id ≡ true
    → is_open_data ids k ≡ true
unfolding holds is_open_data
is_open_data-of_prefix [] k id h p = h
is_open_data-of_prefix (j ∷ ids) k id h p =
    ground (arith, bytes_eq.same_iff j id, is_open_data-of_prefix ids k id)

prefix-of_open_data :
    (ids : List Text) (k : Text)
    → is_open_data ids k ≡ true
    → (id : Text) × (holds ids id ≡ true) × (has_prefix k id ≡ true)
unfolding holds is_open_data
prefix-of_open_data [] k h = absurd (cc)
prefix-of_open_data (j ∷ ids) k h = elim (Bool-cases (has_prefix k j)) [
  | inl t ↦ (j, rw (beq_refl j) refl, t)
  | inr f ↦
      let (id, member, p) = prefix-of_open_data ids k (rw f at h) in
      (id, ground (arith, bytes_eq.same_iff j id), p)
]

clear_keys_open :
    (ids ks : List Text) (m : Map Text Value) (k : Text)
    → is_open_data ids k ≡ true
    → Map.get (clear_keys ids ks m) k ≡ Map.get m k
unfolding clear_keys
clear_keys_open ids [] m k h = refl
clear_keys_open ids (j ∷ ks) m k h =
    clear_keys_open ids ks (if is_open_data ids j then m else Map.delete m j) k h
    ∙ ground (arith, get-delete m j k, bytes_eq.same_iff j k)

clear_keys-none :
    (ids ks : List Text) (m : Map Text Value) (k : Text)
    → Map.get m k ≡ none
    → Map.get (clear_keys ids ks m) k ≡ none
unfolding clear_keys
clear_keys-none ids [] m k h = h
clear_keys-none ids (j ∷ ks) m k h =
    clear_keys-none ids ks (if is_open_data ids j then m else Map.delete m j) k
      (ground (arith, get-delete m j k))

clear_keys_shut :
    (ids ks : List Text) (m : Map Text Value) (k : Text)
    → is_open_data ids k ≡ false
    → holds ks k ≡ true
    → Map.get (clear_keys ids ks m) k ≡ none
unfolding clear_keys holds
clear_keys_shut ids [] m k shut h = absurd (cc)
clear_keys_shut ids (j ∷ ks) m k shut h = elim (Bool-cases (j == k)) [
  | inl t ↦
      clear_keys-none ids ks (if is_open_data ids j then m else Map.delete m j) k
        (ground (arith, get-delete m j k, bytes_eq.same_iff j k))
  | inr f ↦
      clear_keys_shut ids ks (if is_open_data ids j then m else Map.delete m j) k shut (rw f at h)
]

key_held :
    (m : Map Text ℕ) (id : Text) (ref : ℕ) → Map.get m id ≡ some ref → holds (keys m) id ≡ true
key_held m id ref e = elim (Bool-cases (holds (keys m) id)) [
  | inl t ↦ t
  | inr f ↦ let gone : none ≡ some ref = sym (get-of_not_key m id f) ∙ e in absurd (cc)
]

not_open :
    (m : Map Text ℕ) (k : Text)
    → ((id : Text) (ref : ℕ) → Map.get m id ≡ some ref → has_prefix k id ≡ false)
    → is_open_data (keys m) k ≡ false
not_open m k apart = elim (Bool-cases (is_open_data (keys m) k)) [
  | inr f ↦ f
  | inl t ↦
      let (id, member, p) = prefix-of_open_data (keys m) k t in
      let (ref, e) = get-of_key m id member in t ∙ sym p ∙ apart id ref e
]

module _ {env : Env} (sp : SessionProcessor env) (k : Text) where
  -- ClearLogData keeps the data whose key begins with the id of an ongoing call, whatever follows the
  -- id, and drops all other data.
  pub clear_log_data_keeps :
      ((id : Text) (ref : ℕ)
        → Map.get sp.ongoing_calls id ≡ some ref
        → has_prefix k id ≡ true
        → Map.get (clear_log_data sp).log_data k ≡ Map.get sp.log_data k)
      × (((id : Text) (ref : ℕ) → Map.get sp.ongoing_calls id ≡ some ref → has_prefix k id ≡ false)
          → Map.get (clear_log_data sp).log_data k ≡ none)
  unfolding clear_log_data
  clear_log_data_keeps = (
    λ id ref ongoing p. clear_keys_open (keys sp.ongoing_calls) (keys sp.log_data) sp.log_data k (
        is_open_data-of_prefix (keys sp.ongoing_calls) k id
          (key_held sp.ongoing_calls id ref ongoing) p),
    λ apart. elim (Bool-cases (holds (keys sp.log_data) k)) [
      | inl there ↦
          clear_keys_shut (keys sp.ongoing_calls) (keys sp.log_data) sp.log_data k
            (not_open sp.ongoing_calls k apart) there
      | inr gone ↦
          clear_keys-none (keys sp.ongoing_calls) (keys sp.log_data) sp.log_data k
            (get-of_not_key sp.log_data k gone)
    ],
  )
