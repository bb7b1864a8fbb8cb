-- ===== src/Rpc/Compression.antt =====
-- Compression of p2p/rpc/reqresp/compression.go, an interface that requests and chunks go through.
-- Its implementation calls golang/snappy, which is a parameter here.
use rumor.Base.{ℕ, List, ◌⊎◌}
use rumor.Rpc.Stream.{RpcError}

pub record Compression : Type 1 where
  -- MaxEncodedLen: a bound on the compressed size of that many bytes, or an error.
  pub max_encoded_len : ℕ → ℕ ⊎ RpcError
  -- A writer from Compress: what it has buffered, what it puts out for a piece, and what it puts out
  -- when it is closed.
  pub Buffer : Type 0
  pub start : Buffer
  pub put : Buffer → List ℕ → List ℕ × Buffer
  pub finish : Buffer → List ℕ
