-- ===== src/Chain/Hot/Advance.antt =====
-- One round of AddBlock's loop over the empty slots, in chain/hot.go: the state and the epochs
-- context of the next slot.
use rumor.Base.{ℕ, ◌+◌, Bool, not, ok, ◌>>=◌, if◌then◌else◌, nat_beq}
use rumor.Chain.Zrnt.{Zrnt, ChainResult}

module _ (z : Zrnt) where
  -- `isEpochEnd`
  is_epoch_end : ℕ → Bool
  is_epoch_end slot = not (nat_beq (z.slot_to_epoch (slot + 1)) (z.slot_to_epoch slot))

  epoch_step : Bool → z.Epc → z.State → ChainResult (z.Epc × z.State)
  epoch_step b epc state = if b then z.process_epoch epc state else ok (epc, state)

  rotate_step : Bool → z.Epc → z.State → ChainResult z.Epc
  rotate_step b epc state = if b then z.rotate_epochs epc state else ok epc

  unfoldable pub advance_slot : ℕ → z.Epc → z.State → ChainResult (z.Epc × z.State)
  unfolding is_epoch_end epoch_step rotate_step
  advance_slot slot epc pre = do
    sealed ← z.process_slot pre
    (epc', processed) ← epoch_step (is_epoch_end slot) epc sealed
    moved ← z.set_slot processed (slot + 1)
    rotated ← rotate_step (is_epoch_end slot) epc' moved
    ok (rotated, moved)
