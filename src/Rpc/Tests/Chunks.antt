-- ===== src/Rpc/Tests/Chunks.antt =====
-- The theorems about chunk writers at concrete inputs.
use rumor.Base.{ℕ, ◌≤◌, ◌≡◌, refl, List, [], ◌∷◌, ◌++◌, length, none, arith, ok, All}
use rumor.Base.Exec.{◌>>=◌}
use rumor.Rpc.Varint.{uvarint_bytes}
use rumor.Rpc.Wire.{Chunk, chunk_bytes}
use rumor.Rpc.Encode.{
  Writer, stream_chunk, write_error_chunk, error_message, write_raw_response_chunk, encode_result,
  stream_header_and_payload, write_size, wrap_error, copy_payload, write_pieces, write_all,
}
use rumor.Rpc.Encode.Facts.{Lossless, Writes, write_error_chunk-Writes, write_response}
use rumor.Rpc.Response.{handle_response, chunk_limit, is_error_code, max_err_size}
use rumor.Rpc.Response.Facts.{Took, Fits}
use rumor.Rpc.RoundTrip.{handle_response-write_response}
use rumor.Rpc.Toy.{closed_stream, closed_order, closed_steady, collector, collector_exact}

-- A bytes.Buffer.
abbrev buffer : Writer
buffer = record { Sink = List ℕ; write = λ p s. (ok (length p), s ++ p) }

abbrev buffer_lossless : Lossless buffer
buffer_lossless = record { content = λ s. s; takes = λ p s. (s ++ p, refl, refl) }

write_error_chunk-Writes_example :
    Writes buffer buffer_lossless
      (write_error_chunk buffer none 2 (98 ∷ 97 ∷ 100 ∷ []))
      (chunk_bytes (record { code = 2; payload = error_message (98 ∷ 97 ∷ 100 ∷ []) }))
    × (length (error_message (98 ∷ 97 ∷ 100 ∷ [])) ≤ max_err_size)
    × (3 ≤ max_err_size → error_message (98 ∷ 97 ∷ 100 ∷ []) ≡ 98 ∷ 97 ∷ 100 ∷ [])
write_error_chunk-Writes_example =
    write_error_chunk-Writes buffer buffer_lossless 2 (98 ∷ 97 ∷ 100 ∷ [])

abbrev two_chunks : List Chunk
two_chunks = record { code = 0; payload = 4 ∷ 5 ∷ [] } ∷ record { code = 1; payload = 6 ∷ [] } ∷ []

two_chunks-Fits : All (Fits 8) two_chunks
unfolding chunk_limit is_error_code
two_chunks-Fits = (omega arith, (omega arith, tt))

two_written :
    0 ∷ 2 ∷ 4 ∷ 5 ∷ 1 ∷ 1 ∷ 6 ∷ [] ≡ (write_response buffer buffer_lossless two_chunks []).1
unfolding write_raw_response_chunk stream_chunk encode_result stream_header_and_payload write_size
    wrap_error copy_payload write_pieces write_all uvarint_bytes ◌>>=◌
two_written = refl

handle_response-write_response_example :
    Took closed_stream closed_order
      (List (ℕ × Chunk))
      (handle_response closed_stream collector none 8 2 (0 ∷ 2 ∷ 4 ∷ 5 ∷ 1 ∷ 1 ∷ 6 ∷ []) [])
      []
      ((1, record { code = 1; payload = 6 ∷ [] })
        ∷ (0, record { code = 0; payload = 4 ∷ 5 ∷ [] })
        ∷ [])
handle_response-write_response_example =
    handle_response-write_response buffer buffer_lossless closed_stream closed_order closed_steady
      collector collector_exact 8 2 two_chunks [] (0 ∷ 2 ∷ 4 ∷ 5 ∷ 1 ∷ 1 ∷ 6 ∷ []) [] (omega arith)
      (omega arith) two_chunks-Fits refl two_written
