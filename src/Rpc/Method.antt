-- ===== src/Rpc/Method.antt =====
-- SSZCodec, and the methods of RPCMethod and its request handler that use it, of
-- p2p/rpc/reqresp/rpc_method.go. A nil *SSZCodec is `none`. The SSZ objects are ztyp's and zrnt's, a
-- parameter.
pub mod Facts
use rumor.Base.{
  ℕ, List, [], length, Option, none, some, Result, ok, err, panic, nat_beq, if◌then◌else◌,
}
use rumor.Base.Exec.{◌>>=◌, lift}
use rumor.Rpc.Stream.{Reader, RpcResult, expected_empty, no_definition}
use rumor.Rpc.Compression.{Compression}
use rumor.Rpc.BufLimit.{BufLimitReader}
use rumor.Rpc.Request.{HandleCall, handle_stream}
use rumor.Rpc.Encode.{Writer, Write, payload_of, stream_chunk}

-- Objects with their Serialize, and with the Deserialize of a reader and a length.
pub record SerDes (rd : Reader) : Type 1 where
  pub Object : Type 0
  pub serialize : Object → RpcResult (List ℕ)
  pub deserialize : BufLimitReader rd → ℕ → RpcResult Object

module _ {rd : Reader} where
  pub record SszCodec (sd : SerDes rd) : Type 0 where
    pub new_object : sd.Object
    pub min_len : ℕ
    pub max_len : ℕ

  module _ {sd : SerDes rd} where
    unfoldable pub min_byte_len : Option (SszCodec sd) → ℕ
    min_byte_len none = 0
    min_byte_len (some c) = c.min_len

    unfoldable pub max_byte_len : Option (SszCodec sd) → ℕ
    max_byte_len none = 0
    max_byte_len (some c) = c.max_len

    -- The bytes that Encode writes; a nil input of a real codec is dereferenced.
    unfoldable pub encode : Option (SszCodec sd) → Option sd.Object → RpcResult (List ℕ)
    encode none none = ok []
    encode none (some x) = err expected_empty
    encode (some c) none = panic
    encode (some c) (some x) = sd.serialize x

    -- What Decode fills in, if anything.
    unfoldable pub decode :
        Option (SszCodec sd) → BufLimitReader rd → ℕ → RpcResult (Option sd.Object)
    decode none r len = if nat_beq len 0 then ok none else err no_definition
    decode (some c) r len = elim (sd.deserialize r len) [
      | ok x ↦ ok (some x)
      | err e ↦ err e
      | panic ↦ panic
    ]

    unfoldable pub alloc : Option (SszCodec sd) → Option sd.Object
    alloc none = none
    alloc (some c) = some c.new_object

    -- RPCMethod.MakeStreamHandler: the size limits are those of the request codec at the start.
    unfoldable pub method_stream :
        (codec : Option (SszCodec sd))
        → Option Compression
        → (max : ℕ) → rd.Source
        → HandleCall rd × ℕ
    unfolding min_byte_len
    method_stream codec comp max stream = handle_stream rd comp (min_byte_len codec) max stream

    -- chReqHandler.WriteResponseChunk
    unfoldable pub write_response_chunk :
        (wr : Writer)
        → Option (SszCodec sd)
        → Option Compression
        → ℕ
        → Option sd.Object
        → Write wr (Unit {0})
    unfolding encode
    write_response_chunk wr codec comp code input = do
      b ← lift (encode codec input)
      stream_chunk wr code (length b) (payload_of b) comp
