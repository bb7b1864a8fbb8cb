-- ===== src/Rpc/Response/Facts.antt =====
-- The response handler of p2p/rpc/reqresp/handle_response.go takes a response apart into the chunks
-- that it was made of.
use rumor.Base.{
  ℕ, suc, ◌+◌, ◌^◌, ◌≤◌, ◌<◌, ◌≡◌, refl, ap, ◌∙◌, inl, inr, true, false, List, [], ◌∷◌, ◌++◌,
  length, Option, none, some, arith, ltb, Bool-cases, All,
}
use mathlib.Core.List.{append_assoc}
use rumor.Rpc.Stream.{Reader, Ordered, Steady, RpcError}
use rumor.Rpc.BufLimit.{BufLimitReader, read_byte}
use rumor.Rpc.BufLimit.Facts.{IsValid, pending}
use rumor.Rpc.BufLimit.Progress.{read_byte_next}
use rumor.Rpc.Varint.{put_uvarint, read_uvarint}
use rumor.Rpc.Varint.RoundTrip.{IsReady, read_uvarint-put_uvarint}
use rumor.Rpc.Request.{int_limit}
use rumor.Rpc.Wire.{Chunk, chunk_bytes, response_bytes}
use rumor.Rpc.Response.{
  ChunkHandler, chunk_limit, is_error_code, Outcome, Next, after_close, after_handle, sized_chunk,
  result_chunk, handle_chunks,
}

-- The reader between two chunks.
pub record IsOpen {rd : Reader} (b : BufLimitReader rd) : Type 0 where
  pub valid : IsValid b
  pub mode : b.per_read ≡ false
  pub sized : 0 < length b.buf

-- What a call of the chunk handler, or of the loop, did: no error, all bytes before `rest` taken.
pub record Took (rd : Reader) (o : Ordered rd) (S : Type 0)
    (got : Option RpcError × BufLimitReader rd × S) (rest : List ℕ) (s : S) : Type 0 where
  pub fine : got.0 ≡ none
  pub is_open : IsOpen got.1
  pub left : pending rd o got.1 ≡ rest
  pub state : got.2 ≡ s

-- A chunk handler that reads the content of its chunk, all of it and no more, and returns no error.
pub record Exact (rd : Reader) (o : Ordered rd) (ch : ChunkHandler rd) : Type 0 where
  pub step : ch.State → ℕ → Chunk → ch.State
  pub exact :
      (index : ℕ) (c : Chunk) (b : BufLimitReader rd) (s : ch.State) (rest : List ℕ)
      → IsOpen b
      → length c.payload ≤ b.limit
      → pending rd o b ≡ c.payload ++ rest
      → Took rd o ch.State (ch.handle index (length c.payload) c.code b s) rest (step s index c)

-- The chunk's size is within the limit for its result code.
abbrev pub Fits : ℕ → Chunk → Type 0
Fits max c = length c.payload ≤ chunk_limit max c.code

module _ (rd : Reader) (o : Ordered rd) (st : Steady rd o) (ch : ChunkHandler rd)
    (x : Exact rd o ch) where
  -- The handler's state after the chunks from an index on.
  abbrev pub handled : ℕ → ch.State → List Chunk → ch.State
  handled index s [] = s
  handled index s (c ∷ cs) = handled (index + 1) (x.step s index c) cs

  chunk_limit_small : (max code : ℕ) → max < 2 ^ 63 → chunk_limit max code < 2 ^ 63
  unfolding chunk_limit
  chunk_limit_small max code h = elim (Bool-cases (is_error_code code)) [
    | inl e ↦ rw e (omega arith)
    | inr e ↦ rw e h
  ]

  int_limit_small : (v : ℕ) → v < 2 ^ 63 → int_limit v ≡ v
  unfolding int_limit
  int_limit_small v h = let small : ltb v (2 ^ 63) ≡ true = ground arith in rw small refl

  module _ (max : ℕ) (h : max < 2 ^ 63) where
    after_handle_fine :
        (next : Next rd ch none max) (got : Outcome rd ch none max)
        → got.0 ≡ none
        → after_handle rd ch none max next got ≡ next got.1 got.2
    unfolding after_handle after_close
    after_handle_fine next (none, b, s) e = refl
    after_handle_fine next (some y, b, s) e = cc

    sized_chunk-Fits :
        (next : Next rd ch none max) (index : ℕ) (c : Chunk) (b : BufLimitReader rd) (s : ch.State)
        (rest : List ℕ)
        → Fits max c
        → IsReady b
        → pending rd o b ≡ c.payload ++ rest
        → (b' : BufLimitReader rd) × IsOpen b'
          × (pending rd o b' ≡ rest)
          × (sized_chunk rd ch none max next index c.code (length c.payload) none b s
              ≡ next b' (x.step s index c))
    unfolding sized_chunk
    sized_chunk-Fits next index c b s rest fits ready e =
        let size : ℕ = length c.payload in
        let limit : ℕ = chunk_limit max c.code in
        let b₁ : BufLimitReader rd = record b { per_read = false; limit = int_limit limit } in
        let same : int_limit limit ≡ limit =
          int_limit_small limit (chunk_limit_small max c.code h) in
        let small : ltb limit size ≡ false = ground arith in
        let op : IsOpen b₁ = record {
          valid = record { r_le_w = ready.valid.r_le_w; w_fits = ready.valid.w_fits };
          mode = refl;
          sized = ready.sized;
        } in
        let got = ch.handle index size c.code b₁ s in
        let t = x.exact index c b₁ s rest op (omega (arith, fits, same)) e in
        (
          got.1,
          t.is_open,
          t.left,
          rw small (after_handle_fine next got t.fine ∙ ap (λ s'. next got.1 s') t.state),
        )

    result_chunk-Fits :
        (next : Next rd ch none max) (index : ℕ) (c : Chunk) (b : BufLimitReader rd) (s : ch.State)
        (rest : List ℕ)
        → Fits max c
        → IsOpen b
        → pending rd o b ≡ put_uvarint (length c.payload) ++ (c.payload ++ rest)
        → (b' : BufLimitReader rd) × IsOpen b'
          × (pending rd o b' ≡ rest)
          × (result_chunk rd ch none max next index c.code none b s ≡ next b' (x.step s index c))
    unfolding result_chunk
    result_chunk-Fits next index c b s rest fits op e =
        let b₁ : BufLimitReader rd = record b { limit = 1; per_read = true } in
        let r =
          read_uvarint-put_uvarint rd o st b₁ (length c.payload) (c.payload ++ rest)
            (omega (arith, fits, chunk_limit_small max c.code h))
            (record {
              valid = record { r_le_w = op.valid.r_le_w; w_fits = op.valid.w_fits };
              mode = refl;
              open_limit = omega arith;
              sized = op.sized;
            })
            e in
        rw (ap (λ p. p.0) r.value, ap (λ p. p.1) r.value)
          (sized_chunk-Fits next index c (read_uvarint rd b₁).1 s rest fits r.ready r.left)

    pub next_byte :
        (b : BufLimitReader rd) (code : ℕ) (rest : List ℕ)
        → IsOpen b
        → pending rd o b ≡ code ∷ rest
        → ((read_byte rd (record b { limit = 1 })).0 ≡ (code, none))
          × (pending rd o (read_byte rd (record b { limit = 1 })).1 ≡ rest)
          × IsOpen (read_byte rd (record b { limit = 1 })).1
    next_byte b code rest op e =
        let b₁ : BufLimitReader rd = record b { limit = 1 } in
        let v : IsValid b₁ = record { r_le_w = op.valid.r_le_w; w_fits = op.valid.w_fits } in
        let (byte, left, c) = read_byte_next rd o st b₁ code rest v (omega arith) op.sized e in
        (
          byte,
          left,
          record {
            valid = c.valid;
            mode = c.mode ∙ op.mode;
            sized = omega (arith, c.size, op.sized);
          },
        )

    chunk-Fits :
        (n index : ℕ) (c : Chunk) (b : BufLimitReader rd) (s : ch.State) (rest : List ℕ)
        → Fits max c
        → IsOpen b
        → pending rd o b ≡ chunk_bytes c ++ rest
        → (b' : BufLimitReader rd) × IsOpen b'
          × (pending rd o b' ≡ rest)
          × (handle_chunks rd ch none max (suc n) index b s
              ≡ handle_chunks rd ch none max n (index + 1) b' (x.step s index c))
    unfolding handle_chunks
    chunk-Fits n index c b s rest fits op e =
        let size_bytes = put_uvarint (length c.payload) in
        let (byte, left, op') =
          next_byte b c.code (size_bytes ++ (c.payload ++ rest)) op
            (e ∙ ap (λ l. c.code ∷ l) (append_assoc size_bytes c.payload rest)) in
        rw (ap (λ p. p.0) byte, ap (λ p. p.1) byte)
          (result_chunk-Fits (handle_chunks rd ch none max n (index + 1)) index c
            (read_byte rd (record b { limit = 1 })).1 s rest fits op' left)

    loop_at :
        (n m i j : ℕ) (b : BufLimitReader rd) (s : ch.State)
        → n ≡ m
        → i ≡ j
        → handle_chunks rd ch none max n i b s ≡ handle_chunks rd ch none max m j b s
    loop_at n m i j b s e f =
        ap (λ k. handle_chunks rd ch none max k i b s) e
        ∙ ap (λ k. handle_chunks rd ch none max m k b s) f

    -- The loop over the chunks that fit and stand before anything else.
    pub handle_chunks-response_bytes :
        (n index : ℕ) (cs : List Chunk) (b : BufLimitReader rd) (s : ch.State) (rest : List ℕ)
        → All (Fits max) cs
        → IsOpen b
        → pending rd o b ≡ response_bytes cs ++ rest
        → (b' : BufLimitReader rd) × IsOpen b'
          × (pending rd o b' ≡ rest)
          × (handle_chunks rd ch none max (length cs + n) index b s
              ≡ handle_chunks rd ch none max n (index + length cs) b' (handled index s cs))
    handle_chunks-response_bytes n index [] b s rest fits op e =
        (b, op, e, loop_at (0 + n) n index (index + 0) b s (omega arith) (omega arith))
    handle_chunks-response_bytes n index (c ∷ cs) b s rest fits op e =
        let (b₁, op₁, e₁, p) =
          chunk-Fits (length cs + n) index c b s (response_bytes cs ++ rest) fits.0 op
            (e ∙ append_assoc (chunk_bytes c) (response_bytes cs) rest) in
        let (b₂, op₂, e₂, q) =
          handle_chunks-response_bytes n (index + 1) cs b₁ (x.step s index c) rest fits.1 op₁ e₁ in
        (
          b₂,
          op₂,
          e₂,
          loop_at (length (c ∷ cs) + n) (suc (length cs + n)) index index b s (omega arith) refl
              ∙ p
              ∙ q
              ∙ loop_at n n (index + 1 + length cs) (index + length (c ∷ cs)) b₂
                  (handled (index + 1) (x.step s index c) cs) refl (omega arith),
        )
