-- ===== src/Base/Exec/Post.antt =====
-- Postconditions of actions: `Q` relates the state before to a result and the state after it, and
-- `R` relates it to the state that an error or a panic leaves.
use mathlib.Core.Path.{◌≡◌, refl}
use rumor.Base.Go.{Result, ok, err, panic}
use rumor.Base.Exec.{Exec, pure, throw, lift, modify, continue, ◌>>=◌, ◌>>◌}

pub data Outcome {E S A : Type 0} (R : S → Type 0) (Q : A → S → Type 0) (p : Result E A × S)
    : Type 0 where
  returned : (a : A) → p.0 ≡ ok a → Q a p.1 → Outcome R Q p
  failed : (e : E) → p.0 ≡ err e → R p.1 → Outcome R Q p
  panicked : p.0 ≡ panic → R p.1 → Outcome R Q p

module _ {E S : Type 0} where
  pub record Post {A : Type 0} (R : S → S → Type 0) (Q : S → A → S → Type 0) (m : Exec E S A)
      : Type 0 where
    pub at : (s : S) → Outcome (R s) (Q s) (m s)

  module _ (R : S → S → Type 0) (rfl : (s : S) → R s s) where
    pub Post-lift :
        {A : Type 0} (r : Result E A) → Post R (λ s a s'. (r ≡ ok a) × (s' ≡ s)) (lift r)
    unfolding lift
    Post-lift (ok a) = record { at = λ s. returned a refl (refl, refl) }
    Post-lift (err e) = record { at = λ s. failed e refl (rfl s) }
    Post-lift panic = record { at = λ s. panicked refl (rfl s) }

    -- The rest of a block after a call that leaves the state alone.
    pub Post-lift-bind :
        {A B : Type 0} {Q : S → B → S → Type 0} (r : Result E A) (f : A → Exec E S B)
        → ((a : A) → r ≡ ok a → Post R Q (f a))
        → Post R Q (lift r >>= f)
    unfolding ◌>>=◌
    Post-lift-bind (ok a) f h = h a refl
    Post-lift-bind (err e) f h = record { at = λ s. failed e refl (rfl s) }
    Post-lift-bind panic f h = record { at = λ s. panicked refl (rfl s) }

    pub Post-pure :
        {A : Type 0} {Q : S → A → S → Type 0} (a : A) → ((s : S) → Q s a s) → Post R Q (pure a)
    unfolding pure
    Post-pure a h = record { at = λ s. returned a refl (h s) }

    pub Post-modify :
        {Q : S → Unit {0} → S → Type 0} (g : S → S) → ((s : S) → Q s tt (g s)) → Post R Q (modify g)
    unfolding modify
    Post-modify g h = record { at = λ s. returned tt refl (h s) }

    pub Post-throw : {A : Type 0} {Q : S → A → S → Type 0} (e : E) → Post R Q (throw e)
    unfolding throw
    Post-throw e = record { at = λ s. failed e refl (rfl s) }

  pub Outcome-weaken :
      {A : Type 0} (R R' : S → Type 0) (Q : A → S → Type 0)
      → ((s : S) → R s → R' s)
      → (p : Result E A × S) → Outcome R Q p
      → Outcome R' Q p
  Outcome-weaken R R' Q w p (returned a e q) = returned a e q
  Outcome-weaken R R' Q w p (failed x e r) = failed x e (w p.1 r)
  Outcome-weaken R R' Q w p (panicked e r) = panicked e (w p.1 r)

  pub Outcome-map :
      {A : Type 0} {R : S → Type 0} (Q Q' : A → S → Type 0)
      → ((a : A) (s : S) → Q a s → Q' a s)
      → (p : Result E A × S) → Outcome R Q p
      → Outcome R Q' p
  Outcome-map Q Q' w p (returned a e q) = returned a e (w a p.1 q)
  Outcome-map Q Q' w p (failed x e r) = failed x e r
  Outcome-map Q Q' w p (panicked e r) = panicked e r

  -- What follows an action, from the action's outcome.
  Outcome-continue :
      {A B : Type 0} (R : S → Type 0) (P : A → S → Type 0) (Q : B → S → Type 0) (f : A → Exec E S B)
      → ((a : A) (t : S) → P a t → Outcome R Q (f a t))
      → (r : Result E A) (t : S) → Outcome R P (r, t)
      → Outcome R Q (continue r f t)
  Outcome-continue R P Q f h r t (returned a e q) = rw e (h a t q)
  Outcome-continue R P Q f h r t (failed x e q) = rw e (failed x refl q)
  Outcome-continue R P Q f h r t (panicked e q) = rw e (panicked refl q)

  module _ (R : S → S → Type 0) (trans : (s t u : S) → R s t → R t u → R s u) where
    -- A part that frames by `R` whatever its result, and then the rest from the state it leaves.
    pub Post-bind :
        {A B : Type 0} (P : S → A → S → Type 0) (Q : S → B → S → Type 0) (m : Exec E S A)
        (f : A → Exec E S B)
        → ((s : S) (a : A) (t : S) → P s a t → R s t)
        → Post R P m
        → ((s : S) (a : A) (t : S) → P s a t → Outcome (R t) (Q s) (f a t))
        → Post R Q (m >>= f)
    unfolding ◌>>=◌
    Post-bind P Q m f frame pm pf = record {
      at = λ s.
          Outcome-continue (R s) (P s) (Q s) f
            (λ a t h.
              Outcome-weaken (R t) (R s) (Q s) (λ u k. trans s t u (frame s a t h) k) (f a t)
                (pf s a t h))
            (m s).0 (m s).1 (pm.at s);
    }

    -- A write that frames by `R`, before the rest.
    pub Post-modify-bind :
        {A : Type 0} (Q Q' : S → A → S → Type 0) (g : S → S) (m : Exec E S A)
        → ((s : S) → R s (g s))
        → ((s : S) (a : A) (t : S) → Q' (g s) a t → Q s a t)
        → Post R Q' m
        → Post R Q (modify g >> m)
    unfolding ◌>>=◌
    Post-modify-bind Q Q' g m frame post pm = record {
      at = λ s. Outcome-map (Q' (g s)) (Q s) (post s) (m (g s)) (
          Outcome-weaken (R (g s)) (R s) (Q' (g s)) (λ u k. trans s (g s) u (frame s) k) (m (g s))
            (pm.at (g s)));
    }
