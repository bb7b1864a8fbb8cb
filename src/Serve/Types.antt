-- ===== src/Serve/Types.antt =====
-- What the commands of control/actor/chain/chcmd use of the chain, the blocks database and the stream to
-- the peer, as parameters: this is how their interfaces answer.
use rumor.Base.{ℕ, Bool, List, Option}

abbrev pub Root : Type 0
Root = List ℕ

-- The errors of the commands' handlers, by their messages.
pub data Complaint : Type 0 where
  request_unreadable zero_step out_of_bounds_size no_chain out_of_bounds : Complaint
  no_entry : ℕ → Complaint
  load_failed not_found : Root → Complaint
  too_many_roots root_unavailable : Complaint

-- reqresp.InvalidReqCode and reqresp.ServerErrCode
pub data ErrorCode : Type 0 where
  invalid_request server_error : ErrorCode

-- `Blocks.Stream(root)`: an error, no block, or its bytes.
pub data Streamed : Type 0 where
  failed missing : Streamed
  found : List ℕ → Streamed

-- `iter.Entry(slot)`: an error, a nil entry without one, a panic, as the iterators of the chains have it,
-- or an entry, of which the block root is asked for.
pub data EntryAt : Type 0 where
  entry_failed entry_missing entry_panics : EntryAt
  entry_of : Root → EntryAt

-- An iterator over the chain: its bounds, and the entry at a slot.
pub record Iter : Type 0 where
  pub start : ℕ
  pub end : ℕ
  pub entry : ℕ → EntryAt

pub record Server : Type 1 where
  pub World : Type 0
  pub iter : World → Option Iter
  pub stream : World → Root → Streamed
  -- Whether a chunk was written.
  pub stream_chunk : List ℕ → World → Bool × World
  pub write_error : ErrorCode → Complaint → World → World
  pub in_view : World → Root → Bool
