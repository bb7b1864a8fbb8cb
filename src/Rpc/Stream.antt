-- ===== src/Rpc/Stream.antt =====
-- The byte streams that package reqresp (p2p/rpc/reqresp) reads from: Go's io.Reader, as a parameter.
use rumor.Base.{ℕ, ◌≤◌, ◌<◌, ◌≡◌, ◌≢◌, List, [], ◌++◌, length, Option, none, some, Result}

-- The errors of package reqresp; `external` is one that a stream, a compressor or a handler returns.
pub data RpcError : Type 0 where
  eof limit_reached no_single_byte varint_overflow : RpcError
  too_small too_large : ℕ → ℕ → RpcError
  error_chunk_too_large : ℕ → ℕ → RpcError
  chunk_too_large : ℕ → ℕ → ℕ → RpcError
  no_result_byte : ℕ → RpcError → RpcError
  no_chunk_close short_write expected_empty no_definition : RpcError
  size_not_written : ℕ → ℕ → RpcError
  size_failed payload_failed : RpcError → RpcError
  external : ℕ → RpcError

abbrev pub RpcResult {ℓ} : Type ℓ → Type ℓ
RpcResult A = Result RpcError A

-- `rd.Read(p)` at a slice of the given length: the bytes, the error, and the reader after it. The
-- contract of io.Reader bounds the count by the length of `p`.
pub record Reader : Type 1 where
  pub Source : Type 0
  pub read : Source → ℕ → List ℕ × Option RpcError × Source
  pub read_bounded : (s : Source) (n : ℕ) → length (read s n).0 ≤ n

-- A reader that hands out the bytes of a content in order.
pub record Ordered (rd : Reader) : Type 0 where
  pub content : rd.Source → List ℕ
  pub in_order : (s : rd.Source) (n : ℕ) → content s ≡ (rd.read s n).0 ++ content (rd.read s n).2

-- One that reports its error only by itself, makes progress, and ends with io.EOF: bytes.Reader,
-- bytes.Buffer, and a stream that is closed after its last byte.
pub record Steady (rd : Reader) (o : Ordered rd) : Type 0 where
  pub delivers :
      (s : rd.Source) (n : ℕ)
      → 0 < n
      → o.content s ≢ []
      → ((rd.read s n).1 ≡ none) × (0 < length (rd.read s n).0)
  pub ends : (s : rd.Source) (n : ℕ) → o.content s ≡ [] → (rd.read s n).1 ≡ some eof
