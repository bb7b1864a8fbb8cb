-- ===== src/Serve/Root/Facts.antt =====
-- Serving by range (serve/range.go) and serving by root (serve/root.go) compared.
use rumor.Base.{
  ℕ, ◌+◌, ◌*◌, ◌^◌, ◌≤◌, ◌<◌, ◌≡◌, refl, ap, ◌∙◌, List, [], ◌∷◌, map, some, Bool, true, false,
  if◌then◌else◌, Bool-cases, inl, inr, All,
}
use rumor.Serve.Types.{Root, entry_of, Iter, Server}
use rumor.Serve.Range.{
  RangeRequest, RangeLimits, handled, goes_on, stops, serve_root, serve_slot, serve_range,
}
use rumor.Serve.Range.Facts.{
  slots_from, serve_slots, serve_slots_on, serve_slots_stops, serve_range-serve_slots,
}
use rumor.Serve.Root.{serve_roots}

module _ (sv : Server) (iter : Iter) (root_at : ℕ → Root) where
  -- The chain has an entry at each of the slots, with this block root.
  abbrev pub Entered : List ℕ → Type 0
  Entered slots = All (λ slot. iter.entry slot ≡ entry_of (root_at slot)) slots

  -- A round of the loop at an entry is that of its block root.
  round_at :
      (slot : ℕ) (w : sv.World) (go_on : Bool)
      → iter.entry slot ≡ entry_of (root_at slot)
      → (serve_root sv (root_at slot) w).0 ≡ go_on
      → serve_slot sv iter slot w
        ≡ (if go_on then goes_on else stops, (serve_root sv (root_at slot) w).1)
  unfolding serve_slot
  round_at slot w go_on at e = rw (at, e, serve_slot) refl

  serve_slots-serve_roots :
      (slots : List ℕ) (w : sv.World)
      → Entered slots
      → serve_slots sv iter slots w ≡ (handled, serve_roots sv (map root_at slots) w)
  unfolding serve_slots serve_roots
  serve_slots-serve_roots [] w h = refl
  serve_slots-serve_roots (slot ∷ slots) w h =
      let served = serve_root sv (root_at slot) w in
      elim (Bool-cases served.0) [
        | inl on ↦
            rw (on, serve_roots)
              (serve_slots_on sv iter slot w slots (round_at slot w true h.0 on)
                ∙ serve_slots-serve_roots slots served.1 h.1)
        | inr off ↦
            rw (off, serve_roots)
              (serve_slots_stops sv iter slot w slots (round_at slot w false h.0 off))
      ]

  pub serve_range-serve_roots :
      (limits : RangeLimits) (req : RangeRequest) (w : sv.World)
      → 0 < req.step
      → req.count ≤ limits.max_count
      → req.step ≤ limits.max_step
      → sv.iter w ≡ some iter
      → iter.start ≤ req.start_slot
      → req.start_slot + req.count * req.step ≤ iter.end
      → iter.end < 2 ^ 64
      → Entered (slots_from req.start_slot req.step req.count)
      → serve_range sv limits (some req) w
        ≡ some
            (handled, serve_roots sv (map root_at (slots_from req.start_slot req.step req.count)) w)
  serve_range-serve_roots limits req w pos count step found low high top entered =
      serve_range-serve_slots sv limits req iter w pos count step found low high top
      ∙ ap some (serve_slots-serve_roots (slots_from req.start_slot req.step req.count) w entered)
