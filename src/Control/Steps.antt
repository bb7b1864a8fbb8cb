-- ===== src/Control/Steps.antt =====
-- All that changes the session processor (control/session_processor.go), as a step relation: commands of
-- the sessions, what their background tasks do later, the goroutines that free calls, and the ends of
-- sessions and of the processor.
use rumor.Base.{ℕ, refl, false, List, [], bytes_eq}
use rumor.Base.Map
use rumor.Control.Text.{Text}
use rumor.Control.Types.{Env, Event, SessionProcessor}
use rumor.Control.Processor.{new_session, free_call, apply_events}
use rumor.Control.Overview.{close}
use rumor.Control.Session.{update_session, close_session}
use rumor.Control.Run.{run_command}
use rumor.Control.Shape.{shape-close, shape-apply_events, shape-update_session}
use rumor.Control.Invariant.{IsConsistent, same-IsConsistent, new_session-IsConsistent}
use rumor.Control.Invariant.Calls.{free_call-IsConsistent}
use rumor.Control.Script.{Shell, included}
use rumor.Control.Script.Facts.{included-IsConsistent}
use rumor.Control.Reach.{run_command-IsConsistent}

module _ (env : Env) where
  -- NewSessionProcessor
  unfoldable pub new_session_processor : env.World → SessionProcessor env
  new_session_processor w = record {
    sessions = [];
    session_id_counter = 0;
    actors = Map.empty;
    actor_counter = 0;
    calls = [];
    ongoing_calls = Map.empty;
    log_data = Map.empty;
    closing = false;
    world = w;
  }

  pub data Step (sh : Shell env) : SessionProcessor env → SessionProcessor env → Type 0 where
    command :
        (fuel i : ℕ) (args : List Text) (sp : SessionProcessor env)
        → Step sh sp (run_command (included sh fuel) i args sp).1
    background :
        (ref : ℕ) (actor id : Text) (es : List (Event env.Stop)) (sp : SessionProcessor env)
        → Step sh sp (apply_events ref actor id es sp)
    freed : (ref : ℕ) (sp : SessionProcessor env) → Step sh sp (free_call ref sp)
    opened : (sp : SessionProcessor env) → Step sh sp (new_session sp).1
    ended : (i : ℕ) (sp : SessionProcessor env) → Step sh sp (update_session i close_session sp)
    closed : (sp : SessionProcessor env) → Step sh sp (close sp)

  pub data Reach (sh : Shell env) (sp : SessionProcessor env) : SessionProcessor env → Type 0 where
    here : Reach sh sp sp
    next : {sp' sp'' : SessionProcessor env} → Reach sh sp sp' → Step sh sp' sp'' → Reach sh sp sp''

  new_session_processor-IsConsistent : (w : env.World) → IsConsistent (new_session_processor w)
  unfolding new_session_processor Map.empty Map.get
  new_session_processor-IsConsistent w = record {
    ongoing_known = λ id ref e. cc;
    calls_known = λ ref id a e. cc;
    actors_known = λ name a e. cc;
    actors_apart = λ name other a e e'. absurd (cc);
    last_known = tt;
  }

  module _ (sh : Shell env) where
    Step-IsConsistent :
        {sp sp' : SessionProcessor env} → Step sh sp sp' → IsConsistent sp → IsConsistent sp'
    Step-IsConsistent (command fuel i args sp) c =
        run_command-IsConsistent (included sh fuel) (included-IsConsistent sh fuel) i args sp c
    Step-IsConsistent (background ref actor id es sp) c =
        same-IsConsistent sp (apply_events ref actor id es sp)
          (shape-apply_events ref actor id es sp) c
    Step-IsConsistent (freed ref sp) c = free_call-IsConsistent ref sp c
    Step-IsConsistent (opened sp) c = new_session-IsConsistent sp c
    Step-IsConsistent (ended i sp) c =
        same-IsConsistent sp (update_session i close_session sp)
          (shape-update_session i close_session sp (λ s. refl)) c
    Step-IsConsistent (closed sp) c = same-IsConsistent sp (close sp) (shape-close sp) c

    from-IsConsistent :
        {sp sp' : SessionProcessor env} → Reach sh sp sp' → IsConsistent sp → IsConsistent sp'
    from-IsConsistent here c = c
    from-IsConsistent (next r st) c = Step-IsConsistent st (from-IsConsistent r c)

    -- From a new processor on, whatever commands sessions and included scripts run and however far the
    -- scripts get: an id that is ongoing stands for a call that was made under this id, no two names
    -- stand for the same actor, every call and every name belongs to an actor that was made, and the
    -- last call of every session is a call that was made.
    pub Reach-Consistent :
        (w : env.World) (sp : SessionProcessor env)
        → Reach sh (new_session_processor w) sp
        → IsConsistent sp
    Reach-Consistent w sp r = from-IsConsistent r (new_session_processor-IsConsistent w)
