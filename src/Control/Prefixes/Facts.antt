-- ===== src/Control/Prefixes/Facts.antt =====
-- What Session.runCmd (control/session.go) takes from the words before a command.
use rumor.Base.{
  ℕ, suc, ◌-◌, ◌≡◌, refl, ap, ◌∙◌, Bool, true, false, ◌&&◌, List, [], ◌∷◌, ◌++◌, length,
  length-append, take-append, some, arith, nat_beq, bytes_eq,
}
use rumor.Control.Text.{Text, bytes, has_prefix, has_suffix}
use rumor.Control.Text.Facts.{has_suffix-append}
use rumor.Control.Types.{Env}
use rumor.Control.Prefixes.{Prefixes, debug_level, no_prefixes, prefix_step, parse_prefixes}

-- `alice:`
abbrev pub actor_word : Text → Text
actor_word actor = actor ++ bytes ":"

-- `_some_id`
abbrev pub call_word : Text → Text
call_word id = bytes "_" ++ id

-- `lvl_warn`
abbrev pub level_word : Text → Text
level_word level = bytes "lvl_" ++ level

module _ (env : Env) where
  and_false : (b : Bool) → (b && false) ≡ false
  and_false true = refl
  and_false false = refl

  not_empty : (n : ℕ) → nat_beq (suc n) 0 ≡ false
  not_empty n = ground arith

  -- A word for the actor is taken unless one was.
  prefix_step-actor :
      (actor id : Text) (level : ℕ) (changed : Bool)
      → prefix_step env
          (actor_word actor)
          (record { actor_str = []; custom_call_id = id; level = level; changed_level = changed })
        ≡ (
          true,
          record { actor_str = actor; custom_call_id = id; level = level; changed_level = changed },
        )
  unfolding prefix_step
  prefix_step-actor actor id level changed =
      let some_byte : nat_beq (length (actor ++ (58 ∷ []))) 0 ≡ false =
        ground (arith, length-append actor (58 ∷ [])) in
      let n : length (actor ++ (58 ∷ [])) - 1 ≡ length actor =
        ground (arith, length-append actor (58 ∷ [])) in
      rw (some_byte, has_suffix-append actor (58 ∷ []), take-append actor (58 ∷ []) _ n) refl

  prefix_step-call :
      (a : ℕ) (actor id : Text) (level : ℕ) (changed : Bool)
      → prefix_step env (call_word id) (record {
        actor_str = a ∷ actor;
        custom_call_id = [];
        level = level;
        changed_level = changed;
      })
        ≡ (
          true,
          record {
            actor_str = a ∷ actor;
            custom_call_id = id;
            level = level;
            changed_level = changed;
          },
        )
  unfolding prefix_step has_prefix
  prefix_step-call a actor id level changed =
      rw (not_empty (length id), and_false (has_suffix (call_word id) (58 ∷ []))) refl

  prefix_step-level :
      (a : ℕ) (actor : Text) (i : ℕ) (id level : Text) (l old : ℕ)
      → env.parse_level level ≡ some l
      → prefix_step env (level_word level) (record {
        actor_str = a ∷ actor;
        custom_call_id = i ∷ id;
        level = old;
        changed_level = false;
      })
        ≡ (
          true,
          record {
            actor_str = a ∷ actor;
            custom_call_id = i ∷ id;
            level = l;
            changed_level = true;
          },
        )
  unfolding prefix_step has_prefix
  prefix_step-level a actor i id level l old e =
      rw
        (
          not_empty (length (bytes "vl_" ++ level)),
          and_false (has_suffix (level_word level) (58 ∷ [])),
          e,
        )
        refl

  -- Once there are all three, every word is the command's.
  prefix_step-full :
      (a : ℕ) (actor : Text) (i : ℕ) (id : Text) (l : ℕ) (word : Text)
      → prefix_step env word (record {
        actor_str = a ∷ actor;
        custom_call_id = i ∷ id;
        level = l;
        changed_level = true;
      })
        ≡ (
          false,
          record {
            actor_str = a ∷ actor;
            custom_call_id = i ∷ id;
            level = l;
            changed_level = true;
          },
        )
  unfolding prefix_step
  prefix_step-full a actor i id l [] = refl
  prefix_step-full a actor i id l (c ∷ cs) =
      rw
        (
          not_empty (length cs),
          and_false (has_suffix (c ∷ cs) (58 ∷ [])),
          and_false (has_prefix (c ∷ cs) (95 ∷ [])),
        )
        refl

  parse_prefixes-step :
      (arg : Text) (args : List Text) (p : Prefixes) (r : Bool × Prefixes)
      → prefix_step env arg p ≡ r
      → parse_prefixes env (arg ∷ args) p
        ≡ elim r.0 [ true ↦ parse_prefixes env args r.1 | false ↦ (r.1, arg ∷ args) ]
  unfolding parse_prefixes
  parse_prefixes-step arg args p r e =
      ap
        (λ r. elim r.0 as (λ _. Prefixes × List Text) [
          | true ↦ parse_prefixes env args r.1
          | false ↦ (r.1, arg ∷ args)
        ])
        e

  parse_prefixes_full :
      (a : ℕ) (actor : Text) (i : ℕ) (id : Text) (l : ℕ) (words : List Text)
      → parse_prefixes env words (record {
        actor_str = a ∷ actor;
        custom_call_id = i ∷ id;
        level = l;
        changed_level = true;
      })
        ≡ (
          record {
            actor_str = a ∷ actor;
            custom_call_id = i ∷ id;
            level = l;
            changed_level = true;
          },
          words,
        )
  unfolding parse_prefixes
  parse_prefixes_full a actor i id l [] = refl
  parse_prefixes_full a actor i id l (word ∷ words) =
      parse_prefixes-step word words _ _ (prefix_step-full a actor i id l word)

  -- An actor, a call and a level that are written in front of a command, in this order, are read back,
  -- and what follows is the command, whatever it is. The actor and the call are not empty, and the
  -- level is one that logrus knows.
  pub parse_prefixes-words :
      (a : ℕ) (actor : Text) (i : ℕ) (id level : Text) (l : ℕ) (command : List Text)
      → env.parse_level level ≡ some l
      → parse_prefixes env
          (actor_word (a ∷ actor) ∷ call_word (i ∷ id) ∷ level_word level ∷ command)
          no_prefixes
        ≡ (
          record {
            actor_str = a ∷ actor;
            custom_call_id = i ∷ id;
            level = l;
            changed_level = true;
          },
          command,
        )
  parse_prefixes-words a actor i id level l command e =
      parse_prefixes-step (actor_word (a ∷ actor)) _ _ _
        (prefix_step-actor (a ∷ actor) [] debug_level false)
      ∙ parse_prefixes-step (call_word (i ∷ id)) _ _ _
          (prefix_step-call a actor (i ∷ id) debug_level false)
      ∙ parse_prefixes-step (level_word level) command _ _
          (prefix_step-level a actor i id level l debug_level e)
      ∙ parse_prefixes_full a actor i id l command
