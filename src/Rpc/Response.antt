-- ===== src/Rpc/Response.antt =====
-- ResponseChunkHandler.MakeResponseHandler of p2p/rpc/reqresp/handle_response.go. What the chunk
-- handler does is a parameter: it reads from the reader, through the decompression if there is one,
-- and keeps a state of its own. The deferred close of the stream is left out.
pub mod Facts
pub mod Loop
use rumor.Base.{
  ℕ, zero, suc, ◌+◌, Bool, true, false, Option, none, some, ltb, nat_beq, if◌then◌else◌, ◌||◌,
}
use rumor.Rpc.Stream.{
  Reader, RpcError, eof, no_result_byte, error_chunk_too_large, chunk_too_large, no_chunk_close,
}
use rumor.Rpc.Compression.{Compression}
use rumor.Rpc.BufLimit.{BufLimitReader, new_buf_limit_reader, read_byte}
use rumor.Rpc.Varint.{read_uvarint}
use rumor.Rpc.Request.{int_limit}

-- InvalidReqCode, ServerErrCode and MAX_ERR_SIZE of p2p/rpc/reqresp/rpc_method.go.
abbrev pub invalid_req_code : ℕ
invalid_req_code = 1

abbrev pub server_err_code : ℕ
server_err_code = 2

abbrev pub max_err_size : ℕ
max_err_size = 256

abbrev pub response_buffer_size : ℕ
response_buffer_size = 1024

unfoldable pub is_error_code : ℕ → Bool
is_error_code code = nat_beq code invalid_req_code || nat_beq code server_err_code

-- `handle` is called with the index, the size and the result code of a chunk. `close` is the close of
-- the compressed writer for the chunk's answer.
pub record ChunkHandler (rd : Reader) : Type 1 where
  pub State : Type 0
  pub handle :
      (index size code : ℕ)
      → BufLimitReader rd
      → State
      → Option RpcError × BufLimitReader rd × State
  pub close : State → Option RpcError × State

-- The most that the content of a chunk may be, by its result code.
unfoldable pub chunk_limit : (max code : ℕ) → ℕ
unfolding is_error_code
chunk_limit max code = if is_error_code code then max_err_size else max

unfoldable pub size_error : (max index code size : ℕ) → RpcError
unfolding is_error_code
size_error max index code size =
    if is_error_code code then error_chunk_too_large size index else chunk_too_large size index max

module _ (rd : Reader) (ch : ChunkHandler rd) (comp : Option Compression) (max : ℕ) where
  abbrev pub Outcome : Type 0
  Outcome = Option RpcError × BufLimitReader rd × ch.State

  -- What the loop goes on with, in its next round.
  abbrev pub Next : Type 0
  Next = BufLimitReader rd → ch.State → Outcome

  unfoldable pub after_close : Option Compression → Next → BufLimitReader rd → ch.State → Outcome
  after_close none next b s = next b s
  after_close (some c) next b s =
      let (e, s') = ch.close s in
      elim e [ none ↦ next b s' | some x ↦ (some no_chunk_close, b, s') ]

  -- `_ = cw.Close()`; without compression this closes the stream, which is left out.
  unfoldable pub close_anyway : Option Compression → ch.State → ch.State
  close_anyway none s = s
  close_anyway (some c) s = (ch.close s).1

  unfoldable pub after_handle : Next → Outcome → Outcome
  unfolding after_close close_anyway
  after_handle next (none, b, s) = after_close comp next b s
  after_handle next (some e, b, s) = (some e, b, close_anyway comp s)

  -- With the size read.
  unfoldable pub sized_chunk :
      Next → (index code size : ℕ) → Option RpcError → BufLimitReader rd → ch.State → Outcome
  unfolding chunk_limit size_error after_handle int_limit
  sized_chunk next index code size (some e) b s = (some e, record b { per_read = false }, s)
  sized_chunk next index code size none b s =
      if ltb (chunk_limit max code) size
      then (some (size_error max index code size), record b { per_read = false }, s)
      else after_handle next (
          ch.handle index size code
            (record b { per_read = false; limit = int_limit (chunk_limit max code) }) s)

  -- With the result byte read.
  unfoldable pub result_chunk :
      Next → (index code : ℕ) → Option RpcError → BufLimitReader rd → ch.State → Outcome
  unfolding sized_chunk
  result_chunk next index code (some eof) b s = (none, b, s)
  result_chunk next index code (some e) b s = (some (no_result_byte index e), b, s)
  result_chunk next index code none b s =
      let ((size, e), b') = read_uvarint rd (record b { limit = 1; per_read = true }) in
      sized_chunk next index code size e b' s

  -- The loop with `rounds` chunks to go.
  unfoldable pub handle_chunks : (rounds index : ℕ) → BufLimitReader rd → ch.State → Outcome
  unfolding result_chunk
  handle_chunks zero index b s = (none, b, s)
  handle_chunks (suc n) index b s =
      let ((code, e), b') = read_byte rd (record b { limit = 1 }) in
      result_chunk (handle_chunks n (index + 1)) index code e b' s

  -- The early return for a count of 0 is the loop without a round.
  unfoldable pub handle_response : (max_chunk_count : ℕ) → rd.Source → ch.State → Outcome
  unfolding handle_chunks new_buf_limit_reader
  handle_response count stream s =
      handle_chunks count 0 (new_buf_limit_reader rd stream response_buffer_size 0) s
