-- ===== src/Rpc/Request.antt =====
-- RequestPayloadHandler.MakeStreamHandler of p2p/rpc/reqresp/handle_request.go. The handler that it
-- makes assigns to the parameter maxRequestContentSize, which all its calls share: here a call takes
-- the value and returns the new one. The context that closes the stream is left out.
pub mod Limits
pub mod Facts
use rumor.Base.{
  ℕ, ◌^◌, Bool, true, false, Option, none, some, ◌⊎◌, inl, inr, ltb, nat_beq, if◌then◌else◌,
}
use rumor.Rpc.Stream.{Reader, RpcError, too_small, too_large}
use rumor.Rpc.Compression.{Compression}
use rumor.Rpc.BufLimit.{BufLimitReader, new_buf_limit_reader}
use rumor.Rpc.Varint.{read_uvarint}

abbrev pub request_buffer_size : ℕ
request_buffer_size = 2048

-- `int(v)` of a uint64 as a limit: a negative one admits nothing, as 0 does.
unfoldable pub int_limit : ℕ → ℕ
int_limit v = if ltb v (2 ^ 63) then v else 0

-- The content size limit under compression.
unfoldable pub adjust_limit : Option Compression → ℕ → Option RpcError × ℕ
adjust_limit none max = (none, max)
adjust_limit (some c) max = elim (c.max_encoded_len max) [
  | inl s ↦ (none, s)
  | inr e ↦ (some e, max)
]

-- From `if err != nil` on the length to the compression: invalidInputErr, and the size limit.
unfoldable pub check_request :
    Option Compression → (min max len : ℕ) → Option RpcError → Option RpcError × ℕ
unfolding adjust_limit
check_request comp min max len (some e) = (some e, max)
check_request comp min max len none =
    if ltb len min
    then (some (too_small len min), max)
    else if ltb max len
    then (some (too_large len max), max)
    else adjust_limit comp max

-- `if invalidInputErr != nil { maxRequestContentSize = 0 }`
unfoldable pub limit_after : Option RpcError × ℕ → ℕ
limit_after (none, max) = max
limit_after (some e, max) = 0

-- The limit of the reader that the handler gets.
unfoldable pub body_limit : Option Compression → ℕ → ℕ
unfolding int_limit
body_limit none max = int_limit max
body_limit (some c) max = elim (c.max_encoded_len max) [
  | inl v ↦ int_limit v
  | inr e ↦ int_limit max
]

module _ (rd : Reader) where
  -- The arguments that `handle` is called with.
  pub record HandleCall : Type 0 where
    pub request_len : ℕ
    pub body : Option (BufLimitReader rd)
    pub invalid_input : Option RpcError

  abbrev pub empty_call : HandleCall
  empty_call = record { request_len = 0; body = none; invalid_input = none }

  -- The reader for the length, which is read byte by byte.
  unfoldable pub length_reader : rd.Source → BufLimitReader rd
  unfolding new_buf_limit_reader
  length_reader stream = record (new_buf_limit_reader rd stream request_buffer_size 0) {
    limit = 1;
    per_read = true;
  }

  -- The rest, with the length read.
  unfoldable pub handle_length :
      Option Compression → (min max len : ℕ) → Option RpcError → BufLimitReader rd → HandleCall × ℕ
  unfolding check_request limit_after body_limit
  handle_length comp min max len e blr =
      let checked = check_request comp min max len e in
      let max' = limit_after checked in
      (
        record {
          request_len = len;
          body = some (record blr { per_read = false; limit = body_limit comp max' });
          invalid_input = checked.0;
        },
        max',
      )

  unfoldable pub handle_stream : Option Compression → (min max : ℕ) → rd.Source → HandleCall × ℕ
  unfolding length_reader handle_length
  handle_stream comp min max stream =
      if nat_beq max 0
      then (empty_call, max)
      else let ((len, e), blr) = read_uvarint rd (length_reader stream) in
        handle_length comp min max len e blr
