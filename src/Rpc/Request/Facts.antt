-- ===== src/Rpc/Request/Facts.antt =====
-- What the stream handler of p2p/rpc/reqresp/handle_request.go calls the request handler with, and
-- what it leaves for the next stream.
use rumor.Base.{
  ℕ, ◌≤◌, ◌<◌, ◌≡◌, subst, refl, ap, ◌∙◌, ◌⊎◌, inl, inr, true, false, List, ◌++◌, length-replicate,
  Option, none, some, arith, ltb, nat_beq, Bool-cases, if◌then◌else◌, IsU64,
}
use rumor.Rpc.Stream.{Reader, Ordered, Steady, RpcError, too_small, too_large}
use rumor.Rpc.Compression.{Compression}
use rumor.Rpc.BufLimit.{BufLimitReader, new_buf_limit_reader}
use rumor.Rpc.BufLimit.Facts.{IsValid, pending}
use rumor.Rpc.Varint.{put_uvarint, read_uvarint}
use rumor.Rpc.Varint.RoundTrip.{IsReady, read_uvarint-put_uvarint}
use rumor.Rpc.Request.{
  HandleCall, empty_call, adjust_limit, check_request, limit_after, body_limit, length_reader,
  handle_length, handle_stream, request_buffer_size,
}
use rumor.Rpc.Request.Limits.{Limits, Limits-adjust_limit, Limits-body_limit}

check_request_ok :
    (comp : Option Compression) (min max len : ℕ)
    → min ≤ len
    → len ≤ max
    → check_request comp min max len none ≡ adjust_limit comp max
unfolding check_request
check_request_ok comp min max len lo hi =
    let not_less : ltb len min ≡ false = ground arith in
    let not_more : ltb max len ≡ false = ground arith in rw (not_less, not_more) refl

check_request_out :
    (comp : Option Compression) (min max len : ℕ)
    → (len < min) ⊎ (max < len)
    → check_request comp min max len none
      ≡ (some (if ltb len min then too_small len min else too_large len max), max)
unfolding check_request
check_request_out comp min max len out = elim (Bool-cases (ltb len min)) [
  | inl less ↦ rw less refl
  | inr not_less ↦ let more : ltb max len ≡ true = ground arith in rw (not_less, more) refl
]

limit_after-some :
    (checked : Option RpcError × ℕ) (e : RpcError) → checked.0 ≡ some e → limit_after checked ≡ 0
unfolding limit_after
limit_after-some (none, max) e h = cc
limit_after-some (some x, max) e h = refl

module _ (rd : Reader) where
  handle_length_closes :
      (comp : Option Compression) (min max len : ℕ) (x : Option RpcError) (blr : BufLimitReader rd)
      (e : RpcError)
      → (handle_length rd comp min max len x blr).0.invalid_input ≡ some e
      → (handle_length rd comp min max len x blr).1 ≡ 0
  unfolding handle_length
  handle_length_closes comp min max len x blr e h =
      limit_after-some (check_request comp min max len x) e h

  max_after :
      (comp : Option Compression) (min max : ℕ) (s : rd.Source) (e : RpcError)
      → (handle_stream rd comp min max s).0.invalid_input ≡ some e
      → (handle_stream rd comp min max s).1 ≡ 0
  unfolding handle_stream
  max_after comp min max s e h = elim (Bool-cases (nat_beq max 0)) [
    | inl closed ↦ rw closed (ground arith)
    | inr takes ↦
        let got = read_uvarint rd (length_reader rd s) in
        rw takes (handle_length_closes comp min max got.0.0 got.0.1 got.1 e (rw takes at h))
  ]

  closed_call :
      (comp : Option Compression) (min : ℕ) (s : rd.Source)
      → handle_stream rd comp min 0 s ≡ (empty_call rd, 0)
  unfolding handle_stream
  closed_call comp min s = refl

  -- After a request that is refused (its length cannot be read, is out of bounds, or has no bound on
  -- its compressed size) the handler takes no request any more: it calls `handle` for every later
  -- stream as for a method without a request, with no reader and no error.
  pub handle_stream_closes :
      (comp : Option Compression) (min max : ℕ) (s : rd.Source) (e : RpcError) (next : rd.Source)
      → (handle_stream rd comp min max s).0.invalid_input ≡ some e
      → handle_stream rd comp min (handle_stream rd comp min max s).1 next ≡ (empty_call rd, 0)
  handle_stream_closes comp min max s e next h =
      ap (λ m. handle_stream rd comp min m next) (max_after comp min max s e h)
      ∙ closed_call comp min next

module _ (rd : Reader) (o : Ordered rd) (st : Steady rd o) where
  length_reader-IsReady : (s : rd.Source) → IsReady (length_reader rd s)
  unfolding length_reader new_buf_limit_reader
  length_reader-IsReady s = record {
    valid = omega arith;
    mode = refl;
    open_limit = omega arith;
    sized = omega (arith, length-replicate {A = ℕ} request_buffer_size 0);
  }

  length_reader-pending : (s : rd.Source) → pending rd o (length_reader rd s) ≡ o.content s
  unfolding length_reader new_buf_limit_reader
  length_reader-pending s = refl

  -- A call for a stream that begins with a length: the length and the error that `handle` gets, its
  -- reader, which stands behind the length, and the size limit that is left.
  pub record Handled (got : HandleCall rd × ℕ) (len : ℕ) (rest : List ℕ) (invalid : Option RpcError)
      (limit max' : ℕ) : Type 0 where
    pub request_len : got.0.request_len ≡ len
    pub invalid_input : got.0.invalid_input ≡ invalid
    pub new_max : got.1 ≡ max'
    pub reader : BufLimitReader rd
    pub body : got.0.body ≡ some reader
    pub valid : IsValid reader
    pub mode : reader.per_read ≡ false
    pub reader_limit : reader.limit ≡ limit
    pub left : pending rd o reader ≡ rest

  handle_length-Handled :
      (comp : Option Compression) (min max len : ℕ) (blr : BufLimitReader rd) (rest : List ℕ)
      → (invalid : Option RpcError) (m : ℕ) → check_request comp min max len none ≡ (invalid, m)
      → IsReady blr
      → pending rd o blr ≡ rest
      → Handled
          (handle_length rd comp min max len none blr)
          len
          rest
          invalid
          (body_limit comp (limit_after (invalid, m)))
          (limit_after (invalid, m))
  unfolding handle_length
  handle_length-Handled comp min max len blr rest invalid m e ready left = record {
    request_len = refl;
    invalid_input = ap (λ p. p.0) e;
    new_max = ap limit_after e;
    reader = record blr {
      per_read = false;
      limit = body_limit comp (limit_after (check_request comp min max len none));
    };
    body = refl;
    valid = record { r_le_w = ready.valid.r_le_w; w_fits = ready.valid.w_fits };
    mode = refl;
    reader_limit = ap (λ p. body_limit comp (limit_after p)) e;
    left = left;
  }

  handle_stream-Handled :
      (comp : Option Compression) (min max len : ℕ) (s : rd.Source) (rest : List ℕ)
      → (invalid : Option RpcError) (m : ℕ) → 0 < max
      → IsU64 len
      → o.content s ≡ put_uvarint len ++ rest
      → check_request comp min max len none ≡ (invalid, m)
      → Handled
          (handle_stream rd comp min max s)
          len
          rest
          invalid
          (body_limit comp (limit_after (invalid, m)))
          (limit_after (invalid, m))
  unfolding handle_stream
  handle_stream-Handled comp min max len s rest invalid m open_max fits e checked =
      let r =
        read_uvarint-put_uvarint rd o st (length_reader rd s) len rest fits
          (length_reader-IsReady s) (length_reader-pending s ∙ e) in
      let takes : nat_beq max 0 ≡ false = ground arith in
      rw (takes, ap (λ p. p.0) r.value, ap (λ p. p.1) r.value)
        (handle_length-Handled comp min max len (read_uvarint rd (length_reader rd s)).1 rest
          invalid m checked r.ready r.left)

  -- On a steady stream, a request whose length is in bounds reaches `handle` with its length, no
  -- error, and a reader of what follows the length. Without compression the old limit is kept for
  -- all later requests, and the reader has it too. Under compression, where the compressed size of
  -- the old limit has a bound, this bound is kept, and the limit of the reader is the bound on the
  -- compressed size of the kept limit, or the kept limit where that has no bound. The limit of
  -- the reader is taken as an int, so that one of 2^63 or more lets nothing through.
  pub handle_stream_accepts :
      (comp : Option Compression) (min max len m limit : ℕ) (s : rd.Source) (rest : List ℕ)
      → 0 < max
      → IsU64 len
      → min ≤ len
      → len ≤ max
      → Limits comp max m limit
      → o.content s ≡ put_uvarint len ++ rest
      → Handled (handle_stream rd comp min max s) len rest none limit m
  unfolding limit_after
  handle_stream_accepts comp min max len m limit s rest open_max fits lo hi limits e =
      subst (λ l. Handled (handle_stream rd comp min max s) len rest none l m)
        (Limits-body_limit comp max m limit limits)
        (handle_stream-Handled comp min max len s rest none m open_max fits e
          (check_request_ok comp min max len lo hi ∙ Limits-adjust_limit comp max m limit limits))

  -- On a steady stream, a request whose length is out of bounds reaches `handle` with the error
  -- that says so. The size limit becomes 0, and the limit of the reader is 0, or under compression
  -- the bound on the compressed size of nothing, if there is one.
  pub handle_stream_refuses :
      (comp : Option Compression) (min max len : ℕ) (s : rd.Source) (rest : List ℕ)
      → 0 < max
      → IsU64 len
      → (len < min) ⊎ (max < len)
      → o.content s ≡ put_uvarint len ++ rest
      → Handled
          (handle_stream rd comp min max s)
          len
          rest
          (some (if ltb len min then too_small len min else too_large len max))
          (body_limit comp 0)
          0
  unfolding limit_after
  handle_stream_refuses comp min max len s rest open_max fits out e =
      handle_stream-Handled comp min max len s rest
        (some (if ltb len min then too_small len min else too_large len max)) max open_max fits e
        (check_request_out comp min max len out)
