-- ===== src/Control/Prefixes.antt =====
-- The words before a command in Session.runCmd (control/session.go): `alice:` for the actor,
-- `_some_id` for the call, `lvl_warn` for the log level.
pub mod Facts
use rumor.Base.{
  ℕ, ◌-◌, ◌+◌, Bool, true, false, not, ◌&&◌, List, [], ◌∷◌, length, take, drop, Option, none, some,
  nat_beq, ◌==◌, bytes_eq, if◌then◌else◌,
}
use rumor.Control.Text.{Text, bytes, has_prefix, has_suffix}
use rumor.Control.Types.{Env}

pub record Prefixes : Type 0 where
  pub actor_str : Text
  pub custom_call_id : Text
  pub level : ℕ
  pub changed_level : Bool

-- logrus.DebugLevel
abbrev pub debug_level : ℕ
debug_level = 5

abbrev pub no_prefixes : Prefixes
no_prefixes = record {
  actor_str = [];
  custom_call_id = [];
  level = debug_level;
  changed_level = false;
}

abbrev pub is_empty_text : Text → Bool
is_empty_text [] = true
is_empty_text (c ∷ cs) = false

module _ (env : Env) where
  -- `logLvl, err = logrus.ParseLevel(arg[4:])`, and a break on the error.
  abbrev pub take_level : Option ℕ → Prefixes → Bool × Prefixes
  take_level none p = (false, record p { level = 0 })
  take_level (some l) p = (true, record p { level = l; changed_level = true })

  -- One round of the loop: whether the word is skipped.
  unfoldable pub prefix_step : Text → Prefixes → Bool × Prefixes
  prefix_step arg p =
      if nat_beq (length arg) 0
      then (false, p)
      else if has_suffix arg (bytes ":") && is_empty_text p.actor_str
      then (true, record p { actor_str = take (length arg - 1) arg })
      else if has_prefix arg (bytes "_") && is_empty_text p.custom_call_id
      then (true, record p { custom_call_id = drop 1 arg })
      else if not p.changed_level && has_prefix arg (bytes "lvl_")
      then take_level (env.parse_level (drop 4 arg)) p
      else (false, p)

  unfoldable pub parse_prefixes : List Text → Prefixes → Prefixes × List Text
  unfolding prefix_step
  parse_prefixes [] p = (p, [])
  parse_prefixes (arg ∷ args) p =
      let (skipped, p') = prefix_step arg p in
      elim skipped [ true ↦ parse_prefixes args p' | false ↦ (p', arg ∷ args) ]
