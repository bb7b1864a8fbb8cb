-- ===== src/Rpc/Tests/Messages.antt =====
-- The theorems about requests and responses at concrete inputs.
use rumor.Base.{
  ℕ, ◌+◌, ◌<◌, ◌≡◌, refl, List, [], ◌∷◌, ◌++◌, replicate, none, some, arith, inl, true, All,
}
use rumor.Rpc.Stream.{too_small}
use rumor.Rpc.Compression.{Compression}
use rumor.Rpc.BufLimit.{BufLimitReader}
use rumor.Rpc.BufLimit.Facts.{pending}
use rumor.Rpc.Varint.{uvarint_bytes, put_uvarint, read_uvarint}
use rumor.Rpc.Varint.RoundTrip.{IsReady, ReadsTo, read_uvarint-put_uvarint}
use rumor.Rpc.Request.{handle_stream, empty_call}
use rumor.Rpc.Request.Limits.{Limits}
use rumor.Rpc.Request.Facts.{
  Handled, handle_stream_accepts, handle_stream_refuses, handle_stream_closes,
}
use rumor.Rpc.Wire.{Chunk, response_bytes}
use rumor.Rpc.Response.{handle_response, chunk_limit, is_error_code, size_error}
use rumor.Rpc.Response.Facts.{Took, Fits}
use rumor.Rpc.Response.Loop.{handle_response_handles, handle_response_oversize}
use rumor.Rpc.Toy.{closed_stream, closed_order, closed_steady, collector, collector_exact}

three_hundred : put_uvarint 300 ≡ 172 ∷ 2 ∷ []
unfolding uvarint_bytes
three_hundred = refl

abbrev byte_reader : BufLimitReader closed_stream
byte_reader = record {
  buf = replicate 4 0;
  source = 172 ∷ 2 ∷ 9 ∷ [];
  r = 0;
  w = 0;
  limit = 1;
  per_read = true;
}

byte_reader-IsReady : IsReady byte_reader
byte_reader-IsReady = record {
  valid = omega arith;
  mode = refl;
  open_limit = omega arith;
  sized = omega arith;
}

byte_reader-pending : pending closed_stream closed_order byte_reader ≡ put_uvarint 300 ++ (9 ∷ [])
unfolding uvarint_bytes
byte_reader-pending = refl

read_uvarint-put_uvarint_example :
    ReadsTo closed_stream closed_order closed_steady
      (read_uvarint closed_stream byte_reader)
      300
      (9 ∷ [])
read_uvarint-put_uvarint_example =
    read_uvarint-put_uvarint closed_stream closed_order closed_steady byte_reader 300 (9 ∷ [])
      (omega arith) byte_reader-IsReady byte_reader-pending

-- A request of two bytes where one to eight are allowed, and one of none.
request_content : 2 ∷ 5 ∷ 6 ∷ [] ≡ put_uvarint 2 ++ (5 ∷ 6 ∷ [])
unfolding uvarint_bytes
request_content = refl

-- Compression that keeps its input, with a bound of two bytes more.
abbrev two_more : Compression
two_more = record {
  max_encoded_len = λ n. inl (n + 2);
  Buffer = List ℕ;
  start = [];
  put = λ buffered piece. ([], buffered ++ piece);
  finish = λ buffered. buffered;
}

two_more-Limits : Limits (some two_more) 8 10 12
unfolding Limits
two_more-Limits = (refl, inl (12, refl, inl (omega arith, refl)))

handle_stream_accepts_example :
    Handled closed_stream closed_order closed_steady
      (handle_stream closed_stream (some two_more) 1 8 (2 ∷ 5 ∷ 6 ∷ []))
      2
      (5 ∷ 6 ∷ [])
      none
      12
      10
handle_stream_accepts_example =
    handle_stream_accepts closed_stream closed_order closed_steady (some two_more) 1 8 2 10 12
      (2 ∷ 5 ∷ 6 ∷ []) (5 ∷ 6 ∷ []) (omega arith) (omega arith) (omega arith) (omega arith)
      two_more-Limits request_content

refused :
    (handle_stream closed_stream none 3 8 (2 ∷ 5 ∷ 6 ∷ [])).0.invalid_input ≡ some (too_small 2 3)
refused =
    (handle_stream_refuses closed_stream closed_order closed_steady none 3 8 2 (2 ∷ 5 ∷ 6 ∷ [])
      (5 ∷ 6 ∷ []) (omega arith) (omega arith) (inl (omega arith)) request_content).invalid_input

handle_stream_closes_example :
    handle_stream closed_stream none 3
      (handle_stream closed_stream none 3 8 (2 ∷ 5 ∷ 6 ∷ [])).1
      (3 ∷ 7 ∷ 7 ∷ 7 ∷ [])
    ≡ (empty_call closed_stream, 0)
handle_stream_closes_example =
    handle_stream_closes closed_stream none 3 8 (2 ∷ 5 ∷ 6 ∷ []) (too_small 2 3)
      (3 ∷ 7 ∷ 7 ∷ 7 ∷ []) refused

-- A response of a chunk and an error, behind each other.
abbrev response : List Chunk
response = record { code = 0; payload = 4 ∷ 5 ∷ [] } ∷ record { code = 2; payload = 6 ∷ [] } ∷ []

abbrev response_stream : List ℕ
response_stream = 0 ∷ 2 ∷ 4 ∷ 5 ∷ 2 ∷ 1 ∷ 6 ∷ []

response_content : response_stream ≡ response_bytes response
unfolding uvarint_bytes
response_content = refl

response-Fits : All (Fits 8) response
unfolding chunk_limit is_error_code
response-Fits = (omega arith, (omega arith, tt))

handle_response_handles_example :
    Took closed_stream closed_order
      (List (ℕ × Chunk))
      (handle_response closed_stream collector none 8 3 response_stream [])
      []
      ((1, record { code = 2; payload = 6 ∷ [] })
        ∷ (0, record { code = 0; payload = 4 ∷ 5 ∷ [] })
        ∷ [])
handle_response_handles_example =
    handle_response_handles closed_stream closed_order closed_steady collector collector_exact 8
      (omega arith) response [] response_stream response-Fits 3 (omega arith) response_content

-- The same with two chunks allowed, and a byte more.
response_and_more : 0 ∷ 2 ∷ 4 ∷ 5 ∷ 2 ∷ 1 ∷ 6 ∷ 7 ∷ [] ≡ response_bytes response ++ (7 ∷ [])
unfolding uvarint_bytes
response_and_more = refl

-- A third chunk of nine bytes where eight are allowed.
oversize_content :
    0 ∷ 2 ∷ 4 ∷ 5 ∷ 2 ∷ 1 ∷ 6 ∷ 0 ∷ 9 ∷ [] ≡ response_bytes response ++ (0 ∷ (put_uvarint 9 ++ []))
unfolding uvarint_bytes
oversize_content = refl

oversize_limit : chunk_limit 8 0 < 9
unfolding chunk_limit is_error_code
oversize_limit = omega arith

handle_response_oversize_example :
    ((handle_response closed_stream collector none 8 5
        (0 ∷ 2 ∷ 4 ∷ 5 ∷ 2 ∷ 1 ∷ 6 ∷ 0 ∷ 9 ∷ [])
        []).0
      ≡ some (size_error 8 2 0 9))
    × ((handle_response closed_stream collector none 8 5
          (0 ∷ 2 ∷ 4 ∷ 5 ∷ 2 ∷ 1 ∷ 6 ∷ 0 ∷ 9 ∷ [])
          []).2
        ≡ (1, record { code = 2; payload = 6 ∷ [] })
          ∷ (0, record { code = 0; payload = 4 ∷ 5 ∷ [] })
          ∷ [])
handle_response_oversize_example =
    handle_response_oversize closed_stream closed_order closed_steady collector collector_exact 8
      (omega arith) response [] (0 ∷ 2 ∷ 4 ∷ 5 ∷ 2 ∷ 1 ∷ 6 ∷ 0 ∷ 9 ∷ []) response-Fits 5 0 9 []
      (omega arith) (omega arith) oversize_limit oversize_content
