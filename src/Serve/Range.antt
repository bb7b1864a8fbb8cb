-- ===== src/Serve/Range.antt =====
-- The handler of blocks-by-range requests in control/actor/chain/chcmd/serve/range.go.
pub mod Facts
use rumor.Base.{
  ℕ, zero, suc, ◌+◌, ◌*◌, ◌%◌, ◌^◌, Bool, true, false, not, ◌||◌, List, Option, none, some, ltb,
  nat_beq, if◌then◌else◌, add64,
}
use rumor.Serve.Types.{
  Root, Complaint, request_unreadable, zero_step, out_of_bounds_size, no_chain, out_of_bounds,
  no_entry, load_failed, not_found, ErrorCode, invalid_request, server_error, Streamed, failed,
  missing, found, EntryAt, entry_failed, entry_missing, entry_panics, entry_of, Iter, Server,
}

-- BlocksByRangeReqV1, of uint64s.
pub record RangeRequest : Type 0 where
  pub start_slot : ℕ
  pub count : ℕ
  pub step : ℕ

pub record RangeLimits : Type 0 where
  pub max_count : ℕ
  pub max_step : ℕ

-- The multiplication of uint64s.
abbrev pub mul64 : ℕ → ℕ → ℕ
mul64 a b = a * b % 2 ^ 64

-- `req.StartSlot + beacon.Slot(req.Step*req.Count)`
abbrev pub range_end : RangeRequest → ℕ
range_end req = add64 req.start_slot (mul64 req.step req.count)

-- What a round of the loop comes to: the loop goes on, the handler returns, or it panics.
pub data Progress : Type 0 where
  goes_on stops panics : Progress

-- The end of the handler: it returns, or it panics.
pub data Ending : Type 0 where
  handled crashed : Ending

module _ (sv : Server) where
  -- Whether the handler goes on after a block.
  abbrev pub Served : Type 0
  Served = Bool × sv.World

  unfoldable pub send_block : Root → Streamed → sv.World → Served
  send_block root failed w = (false, sv.write_error server_error (load_failed root) w)
  send_block root missing w = (false, sv.write_error server_error (not_found root) w)
  send_block root (found bytes) w = sv.stream_chunk bytes w

  unfoldable pub serve_root : Root → sv.World → Served
  unfolding send_block
  serve_root root w = send_block root (sv.stream w root) w

  -- One round of the loop over the slots. A nil entry has no block root: that is a nil dereference.
  unfoldable pub serve_slot : Iter → ℕ → sv.World → Progress × sv.World
  unfolding serve_root
  serve_slot iter slot w = elim (iter.entry slot) [
    | entry_failed ↦ (stops, sv.write_error server_error (no_entry slot) w)
    | entry_missing ↦ (panics, w)
    | entry_panics ↦ (panics, w)
    | entry_of root ↦ let (go_on, w') = serve_root root w in (if go_on then goes_on else stops, w')
  ]

  -- How the handler ends, and with what world.
  abbrev pub Answered : Type 0
  Answered = Ending × sv.World

  -- The loop has a round for each block that is asked for, and one more; `none` is that it is not over.
  unfoldable pub serve_loop : (fuel : ℕ) → Iter → (step end slot : ℕ) → sv.World → Option Answered
  unfolding serve_slot
  serve_loop zero iter step end slot w = none
  serve_loop (suc fuel) iter step end slot w =
      let (progress, w') = serve_slot iter slot w in
      let rest = serve_loop fuel iter step end (add64 slot step) w' in
      if not (ltb slot end) then some (handled, w) else elim progress [
        | goes_on ↦ rest
        | stops ↦ some (handled, w')
        | panics ↦ some (crashed, w')
      ]

  unfoldable pub serve_iter : RangeRequest → Iter → sv.World → Option Answered
  unfolding serve_loop
  serve_iter req iter w =
      if ltb req.start_slot iter.start || ltb iter.end (range_end req)
      then some (handled, sv.write_error invalid_request out_of_bounds w)
      else serve_loop (suc req.count) iter req.step (range_end req) req.start_slot w

  -- `listenReq`, with the request if it could be read.
  unfoldable pub serve_range : RangeLimits → Option RangeRequest → sv.World → Option Answered
  unfolding serve_iter
  serve_range limits none w = some (handled, sv.write_error invalid_request request_unreadable w)
  serve_range limits (some req) w =
      if nat_beq req.step 0
      then some (handled, sv.write_error invalid_request zero_step w)
      else if ltb limits.max_count req.count || ltb limits.max_step req.step
      then some (handled, sv.write_error invalid_request out_of_bounds_size w)
      else elim (sv.iter w) [
        | none ↦ some (handled, sv.write_error server_error no_chain w)
        | some iter ↦ serve_iter req iter w
      ]
