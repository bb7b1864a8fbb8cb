-- ===== src/Rpc/Responder/Facts.antt =====
-- Requests come and go under keys of their own (control/actor/rpc/state.go).
use rumor.Base.{
  ℕ, ◌+◌, ◌^◌, ◌<◌, ◌≡◌, ◌≢◌, refl, sym, ◌∙◌, List, [], ◌∷◌, none, some, add64, arith, Option-cases,
  inl, inr, beq_ne, beq_refl, All, nat_eq,
}
use rumor.Base.Map
use rumor.Base.Map.{Map, get-put, get-put_self, get-delete, get-put_cases, get-of_delete, get-empty}
use rumor.Rpc.Responder.{RequestEntry, Responder, get_request, close_request, add_request}

-- Open and cancelled requests have keys that were given out, and none is both.
pub record IsSound {Handler : Type 0} (r : Responder Handler) : Type 0 where
  pub open_known :
      (key : ℕ) (e : RequestEntry Handler) → Map.get r.requests key ≡ some e → key < r.key_counter
  pub cancelled_known :
      All (λ key. (key < r.key_counter) × (Map.get r.requests key ≡ none)) r.cancelled

module _ {Handler : Type 0} where
  -- As long as the counter of keys does not wrap around, the events of a Responder.
  pub data Step : Responder Handler → Responder Handler → Type 0 where
    added :
        (req : RequestEntry Handler) (r : Responder Handler)
        → r.key_counter + 1 < 2 ^ 64
        → Step r (add_request req r).1
    closed : (key : ℕ) (r : Responder Handler) → Step r (close_request key r)

  pub data Reach (r : Responder Handler) : Responder Handler → Type 0 where
    here : Reach r r
    next : {r' r'' : Responder Handler} → Reach r r' → Step r' r'' → Reach r r''

  kept_after_put :
      (n : ℕ) (req : RequestEntry Handler) (m : Map ℕ (RequestEntry Handler)) (keys : List ℕ)
      → All (λ key. (key < n) × (Map.get m key ≡ none)) keys
      → All (λ key. (key < n + 1) × (Map.get (Map.put m n req) key ≡ none)) keys
  kept_after_put n req m [] h = tt
  kept_after_put n req m (key ∷ keys) h = (
    (omega (arith, h.0.0), rw (get-put, beq_ne n key (λ e. omega (arith, h.0.0)), h.0.1) refl),
    kept_after_put n req m keys h.1,
  )

  kept_after_delete :
      (n k : ℕ) (m : Map ℕ (RequestEntry Handler)) (keys : List ℕ)
      → All (λ key. (key < n) × (Map.get m key ≡ none)) keys
      → All (λ key. (key < n) × (Map.get (Map.delete m k) key ≡ none)) keys
  kept_after_delete n k m [] h = tt
  kept_after_delete n k m (key ∷ keys) h =
      ((h.0.0, ground (arith, get-delete m k key, h.0.1)), kept_after_delete n k m keys h.1)

  Step-IsSound : {r r' : Responder Handler} → Step r r' → IsSound r → IsSound r'
  unfolding add_request close_request get_request
  Step-IsSound (added req r h) s =
      let sum : add64 r.key_counter 1 ≡ r.key_counter + 1 = omega arith in
      record {
        open_known = λ key e found. elim (get-put_cases r.requests r.key_counter key req e found) [
          | inl (same, new) ↦ omega (arith, sum)
          | inr old ↦ omega (arith, sum, s.open_known key e old)
        ];
        cancelled_known =
            rw sum (kept_after_put r.key_counter req r.requests r.cancelled s.cancelled_known);
      }
  Step-IsSound (closed key r) s = elim (Option-cases (Map.get r.requests key)) [
    | inl e ↦ rw (e, close_request) s
    | inr (req, e) ↦
        rw (e, close_request)
          (record {
            open_known = λ k x found. s.open_known k x (get-of_delete r.requests key k x found).0;
            cancelled_known = (
              (s.open_known key req e, rw (get-delete, beq_refl key) refl),
              kept_after_delete r.key_counter key r.requests r.cancelled s.cancelled_known,
            );
          })
  ]

  from-IsSound : {r r' : Responder Handler} → Reach r r' → IsSound r → IsSound r'
  from-IsSound here s = s
  from-IsSound (next r st) s = Step-IsSound st (from-IsSound r s)

  nothing-IsSound :
      IsSound {Handler = Handler} (record { key_counter = 0; requests = Map.empty; cancelled = [] })
  nothing-IsSound = record {
    open_known =
        λ key e found. let gone : none ≡ some e = sym (get-empty key) ∙ found in absurd (cc);
    cancelled_known = tt;
  }

  old_keys :
      (n : ℕ) (keys : List ℕ) (m : Map ℕ (RequestEntry Handler))
      → All (λ key. (key < n) × (Map.get m key ≡ none)) keys
      → All (λ key. key ≢ n) keys
  old_keys n [] m h = tt
  old_keys n (key ∷ keys) m h = (λ e. omega (arith, h.0.0), old_keys n keys m h.1)

  -- From a responder without requests on, and as long as its counter does not wrap around: a request
  -- that is added gets a key that no open request has and under which none was cancelled, is found
  -- under it, and no other open request is touched.
  pub add_request-fresh :
      (r : Responder Handler) (req : RequestEntry Handler)
      → Reach (record { key_counter = 0; requests = Map.empty; cancelled = [] }) r
      → (get_request r (add_request req r).0 ≡ none)
        × All (λ key. key ≢ (add_request req r).0) r.cancelled
        × (get_request (add_request req r).1 (add_request req r).0 ≡ some req)
        × ((key : ℕ)
            → key ≢ (add_request req r).0
            → get_request (add_request req r).1 key ≡ get_request r key)
  unfolding get_request add_request
  add_request-fresh r req reach =
      let s = from-IsSound reach nothing-IsSound in
      (
        elim (Option-cases (Map.get r.requests r.key_counter)) [
          | inl e ↦ e
          | inr (x, e) ↦ absurd (omega (arith, s.open_known r.key_counter x e))
        ],
        old_keys r.key_counter r.cancelled r.requests s.cancelled_known,
        get-put_self r.requests r.key_counter req,
        λ key ne. rw (get-put, beq_ne r.key_counter key (λ e. ne (sym e))) refl,
      )
