-- ===== src/Serve/Range/Facts.antt =====
-- Which blocks the handler of serve/range.go sends.
use rumor.Base.{
  ℕ, zero, suc, ◌+◌, ◌*◌, ◌^◌, ◌≤◌, ◌<◌, ◌≡◌, refl, sym, ap, ◌∙◌, true, false, List, [], ◌∷◌, some,
  ltb, nat_beq, add64, arith, ◌⊎◌, inl, inr, le→ltb, lt→ltb,
}
use rumor.Serve.Types.{Iter, Server}
use rumor.Serve.Range.{
  RangeRequest, RangeLimits, range_end, Progress, goes_on, stops, panics, handled, crashed,
  Answered, serve_slot, serve_loop, serve_iter, serve_range,
}

-- The slots that a request asks for, from one on.
unfoldable pub slots_from : ℕ → ℕ → ℕ → List ℕ
slots_from slot step zero = []
slots_from slot step (suc n) = slot ∷ slots_from (slot + step) step n

Progress-cases : (p : Progress) → (p ≡ goes_on) ⊎ ((p ≡ stops) ⊎ (p ≡ panics))
Progress-cases goes_on = inl refl
Progress-cases stops = inr (inl refl)
Progress-cases panics = inr (inr refl)

module _ (sv : Server) where
  -- Each of the slots in turn, until one fails.
  unfoldable pub serve_slots : Iter → List ℕ → sv.World → Answered sv
  serve_slots iter [] w = (handled, w)
  serve_slots iter (slot ∷ slots) w =
      let (progress, w') = serve_slot sv iter slot w in
      let rest = serve_slots iter slots w' in
      elim progress [ goes_on ↦ rest | stops ↦ (handled, w') | panics ↦ (crashed, w') ]

  module _ (iter : Iter) (slot : ℕ) (w : sv.World) where
    abbrev round : Progress × sv.World
    round = serve_slot sv iter slot w

    round_is : (p : Progress) → round.0 ≡ p → round ≡ (p, round.1)
    round_is p e = ap (λ q. (q, round.1)) e

    -- What a round makes of the rest of the slots.
    pub serve_slots_on :
        {w' : sv.World} (slots : List ℕ)
        → round ≡ (goes_on, w')
        → serve_slots iter (slot ∷ slots) w ≡ serve_slots iter slots w'
    unfolding serve_slots
    serve_slots_on slots e = rw (ap (λ p. p.0) e, ap (λ p. p.1) e, serve_slots) refl

    pub serve_slots_stops :
        {w' : sv.World} (slots : List ℕ)
        → round ≡ (stops, w')
        → serve_slots iter (slot ∷ slots) w ≡ (handled, w')
    unfolding serve_slots
    serve_slots_stops slots e = rw (ap (λ p. p.0) e, ap (λ p. p.1) e, serve_slots) refl

    -- A round of the loop does the same.
    serve_loop_round :
        (n step end next : ℕ) (slots : List ℕ)
        → ltb slot end ≡ true
        → add64 slot step ≡ next
        → serve_loop sv n iter step end next round.1 ≡ some (serve_slots iter slots round.1)
        → serve_loop sv (suc n) iter step end slot w ≡ some (serve_slots iter (slot ∷ slots) w)
    unfolding serve_loop serve_slots
    serve_loop_round n step end next slots more e rest = elim (Progress-cases round.0) [
      | inl on ↦ rw (on, more, e, serve_loop, serve_slots) rest
      | inr (inl ends) ↦ rw (ends, more, serve_loop, serve_slots) refl
      | inr (inr fails) ↦ rw (fails, more, serve_loop, serve_slots) refl
    ]

  serve_loop-serve_slots :
      (n : ℕ) (iter : Iter) (step end slot : ℕ) (w : sv.World)
      → 0 < step
      → slot + n * step ≡ end
      → end < 2 ^ 64
      → serve_loop sv (suc n) iter step end slot w
        ≡ some (serve_slots iter (slots_from slot step n) w)
  unfolding serve_slots slots_from serve_loop
  serve_loop-serve_slots zero iter step end slot w pos e h =
      rw (serve_loop, le→ltb slot end (omega arith)) refl
  serve_loop-serve_slots (suc n) iter step end slot w pos e h =
      serve_loop_round iter slot w (suc n) step end (slot + step) (slots_from (slot + step) step n)
        (lt→ltb slot end (omega arith)) (omega arith)
        (serve_loop-serve_slots n iter step end (slot + step) (serve_slot sv iter slot w).1 pos
          (omega arith) h)

  -- What passes every test of the handler comes to the loop.
  module _ (limits : RangeLimits) (req : RangeRequest) (iter : Iter) (w : sv.World)
      (pos : 0 < req.step) (count : req.count ≤ limits.max_count)
      (step : req.step ≤ limits.max_step) (found : sv.iter w ≡ some iter)
      (low : iter.start ≤ req.start_slot) where
    serve_range_admitted :
        range_end req ≤ iter.end
        → serve_range sv limits (some req) w
          ≡ serve_loop sv (suc req.count) iter req.step (range_end req) req.start_slot w
    unfolding serve_range serve_iter
    serve_range_admitted high =
        let moving : nat_beq req.step 0 ≡ false = ground arith in
        rw
          (
            serve_range,
            found,
            moving,
            le→ltb limits.max_count req.count count,
            le→ltb limits.max_step req.step step,
          )
          (rw
            (serve_iter, le→ltb req.start_slot iter.start low, le→ltb iter.end (range_end req) high)
            refl)

    -- A request within the limits and within the chain, whose end does not wrap around, is served as
    -- the slots start, start + step and so on, as many as were asked for, each by the block of the
    -- chain's entry there, up to the first that fails.
    pub serve_range-serve_slots :
        req.start_slot + req.count * req.step ≤ iter.end
        → iter.end < 2 ^ 64
        → serve_range sv limits (some req) w
          ≡ some (serve_slots iter (slots_from req.start_slot req.step req.count) w)
    serve_range-serve_slots high top =
        let whole : range_end req ≡ req.start_slot + req.count * req.step = omega arith in
        serve_range_admitted (omega arith)
        ∙ serve_loop-serve_slots req.count iter req.step (range_end req) req.start_slot w pos
            (sym whole) (omega arith)

    pub serve_range_wraps :
        range_end req ≤ req.start_slot
        → range_end req ≤ iter.end
        → serve_range sv limits (some req) w ≡ some (handled, w)
    unfolding serve_loop
    serve_range_wraps wrapped high =
        serve_range_admitted high
        ∙ rw (serve_loop, le→ltb req.start_slot (range_end req) wrapped) refl
