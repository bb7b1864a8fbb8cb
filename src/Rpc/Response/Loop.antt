-- ===== src/Rpc/Response/Loop.antt =====
-- The whole of MakeResponseHandler's handler in p2p/rpc/reqresp/handle_response.go: all chunks, as
-- many as are allowed, and a chunk that is too large.
use rumor.Base.{
  subst, ℕ, zero, suc, ◌+◌, ◌-◌, ◌^◌, ◌≤◌, ◌<◌, ◌≡◌, refl, sym, ap, ◌∙◌, true, List, [], ◌∷◌, ◌++◌,
  length, length-replicate, none, some, arith, ltb, IsU64, append-eq_nil, All,
}
use mathlib.Core.List.{append-nil}
use rumor.Rpc.Stream.{Reader, Ordered, Steady}
use rumor.Rpc.BufLimit.{BufLimitReader, new_buf_limit_reader, read, read_byte}
use rumor.Rpc.BufLimit.Facts.{IsValid, pending}
use rumor.Rpc.BufLimit.Contract.{read_conserves, read-Charged}
use rumor.Rpc.BufLimit.Progress.{read_byte_ends}
use rumor.Rpc.Varint.{put_uvarint}
use rumor.Rpc.Varint.RoundTrip.{read_uvarint-put_uvarint}
use rumor.Rpc.Wire.{Chunk, response_bytes}
use rumor.Rpc.Response.{
  ChunkHandler, chunk_limit, size_error, sized_chunk, result_chunk, handle_chunks, handle_response,
  response_buffer_size,
}
use rumor.Rpc.Response.Facts.{
  IsOpen, Took, Exact, Fits, handled, handle_chunks-response_bytes, next_byte,
}

module _ (rd : Reader) (o : Ordered rd) (st : Steady rd o) (ch : ChunkHandler rd)
    (x : Exact rd o ch) (max : ℕ) (h : max < 2 ^ 63) where
  at_start : (stream : rd.Source) → IsOpen (new_buf_limit_reader rd stream response_buffer_size 0)
  unfolding new_buf_limit_reader
  at_start stream = record {
    valid = omega arith;
    mode = refl;
    sized = omega (arith, length-replicate {A = ℕ} response_buffer_size 0);
  }

  at_start_pending :
      (stream : rd.Source)
      → pending rd o (new_buf_limit_reader rd stream response_buffer_size 0) ≡ o.content stream
  unfolding new_buf_limit_reader
  at_start_pending stream = refl

  -- The end of the stream ends the loop without an error.
  handle_chunks_ends :
      (n index : ℕ) (b : BufLimitReader rd) (s : ch.State)
      → IsOpen b
      → pending rd o b ≡ []
      → Took rd o ch.State (handle_chunks rd ch none max n index b s) [] s
  unfolding handle_chunks result_chunk read_byte
  handle_chunks_ends zero index b s op e = record {
    fine = refl;
    is_open = op;
    left = e;
    state = refl;
  }
  handle_chunks_ends (suc n) index b s op e =
      let b₁ : BufLimitReader rd = record b { limit = 1 } in
      let v : IsValid b₁ = record { r_le_w = op.valid.r_le_w; w_fits = op.valid.w_fits } in
      let c = read-Charged rd o b₁ 1 v in
      let (copied, left) =
        append-eq_nil (read rd b₁ 1).0.copied (pending rd o (read rd b₁ 1).1)
          (sym (read_conserves rd o b₁ 1 v) ∙ e) in
      rw (read_byte_ends rd o st b₁ v e) (record {
        fine = refl;
        is_open = record {
          valid = c.valid;
          mode = c.mode ∙ op.mode;
          sized = omega (arith, c.size, op.sized);
        };
        left = left;
        state = refl;
      })

  module _ (cs : List Chunk) (s : ch.State) (stream : rd.Source) (fits : All (Fits max) cs) where
    -- Where a steady stream holds a response of uncompressed chunks that fit, as many as are
    -- allowed or fewer, an exact chunk handler gets each in order with its index, size and result
    -- code, and there is no error.
    pub handle_response_handles :
        (count : ℕ)
        → length cs ≤ count
        → o.content stream ≡ response_bytes cs
        → Took rd o ch.State
            (handle_response rd ch none max count stream s)
            []
            (handled rd o st ch x 0 s cs)
    unfolding handle_response
    handle_response_handles count enough e =
        let b = new_buf_limit_reader rd stream response_buffer_size 0 in
        let (b', op, left, p) =
          handle_chunks-response_bytes rd o st ch x max h (count - length cs) 0 cs b s [] fits
            (at_start stream)
            (at_start_pending stream ∙ e ∙ sym (append-nil (response_bytes cs))) in
        let all : count ≡ length cs + (count - length cs) = omega arith in
        subst (λ got. Took rd o ch.State got [] (handled rd o st ch x 0 s cs))
          (sym (ap (λ n. handle_chunks rd ch none max n 0 b s) all ∙ p))
          (handle_chunks_ends (count - length cs) (0 + length cs) b' (handled rd o st ch x 0 s cs)
            op left)

    -- Where as many chunks that fit as are allowed stand before anything else on a steady stream,
    -- without compression, an exact chunk handler gets these, there is no error, and the rest is
    -- left.
    pub handle_response_stops :
        (rest : List ℕ)
        → o.content stream ≡ response_bytes cs ++ rest
        → Took rd o ch.State
            (handle_response rd ch none max (length cs) stream s)
            rest
            (handled rd o st ch x 0 s cs)
    unfolding handle_response handle_chunks
    handle_response_stops rest e =
        let b = new_buf_limit_reader rd stream response_buffer_size 0 in
        let (b', op, left, p) =
          handle_chunks-response_bytes rd o st ch x max h 0 0 cs b s rest fits (at_start stream)
            (at_start_pending stream ∙ e) in
        let all : length cs ≡ length cs + 0 = omega arith in
        subst (λ got. Took rd o ch.State got rest (handled rd o st ch x 0 s cs))
          (sym (ap (λ n. handle_chunks rd ch none max n 0 b s) all ∙ p))
          (record { fine = refl; is_open = op; left = left; state = refl })

    oversize_chunk :
        (n index code size : ℕ) (b : BufLimitReader rd) (s' : ch.State) (rest : List ℕ)
        → IsU64 size
        → chunk_limit max code < size
        → IsOpen b
        → pending rd o b ≡ code ∷ (put_uvarint size ++ rest)
        → ((handle_chunks rd ch none max (suc n) index b s').0
            ≡ some (size_error max index code size))
          × ((handle_chunks rd ch none max (suc n) index b s').2 ≡ s')
    unfolding handle_chunks result_chunk sized_chunk
    oversize_chunk n index code size b s' rest small large op e =
        let (byte, left, op') =
          next_byte rd o st ch x max h b code (put_uvarint size ++ rest) op e in
        let b₁ = (read_byte rd (record b { limit = 1 })).1 in
        let r =
          read_uvarint-put_uvarint rd o st (record b₁ { limit = 1; per_read = true }) size rest
            small
            (record {
              valid = record { r_le_w = op'.valid.r_le_w; w_fits = op'.valid.w_fits };
              mode = refl;
              open_limit = omega arith;
              sized = op'.sized;
            })
            left in
        let too_much : ltb (chunk_limit max code) size ≡ true = ground arith in
        rw
          (
            ap (λ p. p.0) byte,
            ap (λ p. p.1) byte,
            ap (λ p. p.0) r.value,
            ap (λ p. p.1) r.value,
            too_much,
          )
          (refl, refl)

    -- A chunk whose size is above the limit for its result code, behind chunks that fit and are
    -- exactly handled, ends the loop with the error for its index and size, on a steady stream and
    -- without compression. The chunk is never handled.
    pub handle_response_oversize :
        (count code size : ℕ) (rest : List ℕ)
        → length cs < count
        → IsU64 size
        → chunk_limit max code < size
        → o.content stream ≡ response_bytes cs ++ (code ∷ (put_uvarint size ++ rest))
        → ((handle_response rd ch none max count stream s).0
            ≡ some (size_error max (length cs) code size))
          × ((handle_response rd ch none max count stream s).2 ≡ handled rd o st ch x 0 s cs)
    unfolding handle_response
    handle_response_oversize count code size rest more small large e =
        let b = new_buf_limit_reader rd stream response_buffer_size 0 in
        let m : ℕ = count - length cs - 1 in
        let (b', op, left, p) =
          handle_chunks-response_bytes rd o st ch x max h (suc m) 0 cs b s
            (code ∷ (put_uvarint size ++ rest)) fits (at_start stream)
            (at_start_pending stream ∙ e) in
        let all : count ≡ length cs + suc m = omega arith in
        let index : 0 + length cs ≡ length cs = omega arith in
        rw (ap (λ n. handle_chunks rd ch none max n 0 b s) all ∙ p, index)
          (oversize_chunk m (length cs) code size b' (handled rd o st ch x 0 s cs) rest small large
            op left)
