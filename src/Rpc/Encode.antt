-- ===== src/Rpc/Encode.antt =====
-- p2p/rpc/reqresp/encode.go, and the chunk writers of p2p/rpc/reqresp/rpc_method.go. The sink of an
-- io.Writer is a parameter. A compressed writer that failed puts out nothing more when it is closed.
pub mod Facts
use rumor.Base.{
  ℕ, ◌-◌, ◌<◌, ◌≡◌, not, List, [], ◌∷◌, ◌++◌, length, take, Option, none, some, Result, ok, err,
  panic, ltb, nat_beq, if◌then◌else◌,
}
use rumor.Base.Exec.{Exec, ◌>>=◌, ◌>>◌, pure, throw, lift}
use rumor.Rpc.Stream.{
  RpcError, RpcResult, short_write, size_not_written, size_failed, payload_failed,
}
use rumor.Rpc.Compression.{Compression}
use rumor.Rpc.Varint.{put_uvarint}
use rumor.Rpc.Response.{max_err_size}

-- Write returns the count, or an error with what the sink took before it.
pub record Writer : Type 1 where
  pub Sink : Type 0
  pub write : List ℕ → Exec RpcError Sink ℕ

-- What io.Copy gets from a reader: the pieces of its reads, and the error that ends them, if it is
-- not io.EOF.
pub record Payload : Type 0 where
  pub pieces : List (List ℕ)
  pub failure : Option RpcError

abbrev pub join : List (List ℕ) → List ℕ
join [] = []
join (p ∷ ps) = p ++ join ps

-- bytes.Reader and bytes.Buffer write all that they hold at once, or nothing if they are empty.
abbrev pub pieces_of : List ℕ → List (List ℕ)
pieces_of [] = []
pieces_of (x ∷ xs) = (x ∷ xs) ∷ []

abbrev pub payload_of : List ℕ → Payload
payload_of bytes = record { pieces = pieces_of bytes; failure = none }

abbrev pub ended : Option RpcError → RpcResult (Unit {0})
ended none = ok tt
ended (some e) = err e

-- fmt.Errorf around an error.
abbrev pub wrapped : {A : Type 0} → (RpcError → RpcError) → RpcResult A → RpcResult A
wrapped f (ok a) = ok a
wrapped f (err e) = err (f e)
wrapped f panic = panic

-- The message that WriteErrorChunk writes, with 46 for a dot.
unfoldable pub error_message : List ℕ → List ℕ
error_message msg =
    if ltb max_err_size (length msg)
    then take (max_err_size - 3) msg ++ (46 ∷ 46 ∷ 46 ∷ [])
    else msg

module _ (wr : Writer) where
  abbrev pub Write : Type 0 → Type 0
  Write A = Exec RpcError wr.Sink A

  unfoldable pub wrap_error : {A : Type 0} → (RpcError → RpcError) → Write A → Write A
  wrap_error f m sink = let (r, sink') = m sink in (wrapped f r, sink')

  -- A write of io.Copy, which takes a count that is too small as an error.
  unfoldable pub write_all : List ℕ → Write (Unit {0})
  write_all bytes = do
    n ← wr.write bytes
    if nat_beq n (length bytes) then pure tt else throw short_write

  unfoldable pub write_pieces : List (List ℕ) → Write (Unit {0})
  unfolding write_all
  write_pieces [] = pure tt
  write_pieces (p ∷ ps) = do write_all p; write_pieces ps

  -- The pieces through a compressed writer.
  unfoldable pub compress_pieces : (c : Compression) → List (List ℕ) → c.Buffer → Write c.Buffer
  unfolding write_all
  compress_pieces c [] buffer = pure buffer
  compress_pieces c (p ∷ ps) buffer = do
    write_all (c.put buffer p).0
    compress_pieces c ps (c.put buffer p).1

  -- The deferred Close, whose error is dropped.
  unfoldable pub close_compressed :
      (c : Compression) → c.Buffer → RpcResult (Unit {0}) → Write (Unit {0})
  close_compressed c buffer result sink = (result, (wr.write (c.finish buffer) sink).1)

  -- io.Copy of a payload, through the compression if there is one.
  unfoldable pub copy_payload : Option Compression → Payload → Write (Unit {0})
  unfolding write_pieces compress_pieces close_compressed
  copy_payload none p = do write_pieces p.pieces; lift (ended p.failure)
  copy_payload (some c) p = do
    buffer ← compress_pieces c p.pieces c.start
    close_compressed c buffer (ended p.failure)

  -- OutputSizeVarint of a buffer with these bytes.
  unfoldable pub output_size_varint : List ℕ → Write (Unit {0})
  output_size_varint buf = do _ ← wr.write (put_uvarint (length buf)); pure tt

  unfoldable pub encode_header_and_payload : Payload → Option Compression → Write (Unit {0})
  unfolding output_size_varint copy_payload
  encode_header_and_payload r comp = do
    lift (ended r.failure)
    output_size_varint (join r.pieces)
    copy_payload comp (payload_of (join r.pieces))

  unfoldable pub write_size : ℕ → Write (Unit {0})
  unfolding wrap_error
  write_size size = do
    n ← wrap_error size_failed (wr.write (put_uvarint size))
    if nat_beq n (length (put_uvarint size))
        then pure tt
        else throw (size_not_written n (length (put_uvarint size)))

  unfoldable pub stream_header_and_payload : ℕ → Payload → Option Compression → Write (Unit {0})
  unfolding write_size copy_payload wrap_error
  stream_header_and_payload size r comp = do
    write_size size
    wrap_error payload_failed (copy_payload comp r)

  unfoldable pub encode_result : ℕ → Write (Unit {0})
  encode_result code = do _ ← wr.write (code ∷ []); pure tt

  unfoldable pub encode_chunk : ℕ → Payload → Option Compression → Write (Unit {0})
  unfolding encode_result encode_header_and_payload
  encode_chunk code r comp = do encode_result code; encode_header_and_payload r comp

  unfoldable pub stream_chunk : ℕ → ℕ → Payload → Option Compression → Write (Unit {0})
  unfolding encode_result stream_header_and_payload
  stream_chunk code size r comp = do encode_result code; stream_header_and_payload size r comp

  -- WriteRawResponseChunk
  unfoldable pub write_raw_response_chunk : Option Compression → ℕ → List ℕ → Write (Unit {0})
  unfolding stream_chunk
  write_raw_response_chunk comp code chunk =
      stream_chunk code (length chunk) (payload_of chunk) comp

  -- WriteErrorChunk
  unfoldable pub write_error_chunk : Option Compression → ℕ → List ℕ → Write (Unit {0})
  unfolding write_raw_response_chunk error_message
  write_error_chunk comp code msg = write_raw_response_chunk comp code (error_message msg)
