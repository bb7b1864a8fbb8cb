-- ===== src/Rpc/Wire.antt =====
-- Response chunks as they stand on the stream: <result> | <encoding-dependent-header> |
-- <encoded-payload>, the grammar in p2p/rpc/reqresp/handle_response.go, without compression.
use rumor.Base.{ℕ, List, [], ◌∷◌, ◌++◌, length}
use rumor.Rpc.Varint.{put_uvarint}

pub record Chunk : Type 0 where
  pub code : ℕ
  pub payload : List ℕ

abbrev pub chunk_bytes : Chunk → List ℕ
chunk_bytes c = c.code ∷ (put_uvarint (length c.payload) ++ c.payload)

abbrev pub response_bytes : List Chunk → List ℕ
response_bytes [] = []
response_bytes (c ∷ cs) = chunk_bytes c ++ response_bytes cs
