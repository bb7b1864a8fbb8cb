-- ===== src/Rpc/BufLimit/Progress.antt =====
-- A BufLimitReader (p2p/rpc/reqresp/buf_limit_read.go) over a steady reader makes progress: it
-- delivers bytes while there are some, and io.EOF after the last one.
use rumor.Base.{
  ℕ, ◌≤◌, ◌<◌, ◌≡◌, ◌≢◌, refl, sym, ap, ◌∙◌, true, false, List, [], ◌∷◌, ◌++◌, length,
  append-eq_nil, Option, none, some, min, arith, length-take, ltb, leb, nat_beq, Bool-cases, inl,
  inr,
}
use rumor.Rpc.Stream.{Reader, Ordered, Steady, RpcError, eof}
use rumor.Rpc.BufLimit.{
  BufLimitReader, ReadOut, unread, copy_out, direct_read, filled, after_fill, fill_read, read_cut,
  read_limited, read, read_byte, read_byte_of, first_or_zero,
}
use rumor.Rpc.BufLimit.Facts.{IsValid, pending, length-unread, unread_empty, refilled-unread}
use rumor.Rpc.BufLimit.Contract.{Charged, read_conserves, read-Charged}

module _ (rd : Reader) (o : Ordered rd) (st : Steady rd o) where
  Delivers : ReadOut rd → Type 0
  Delivers out = (out.error ≡ none) × (0 < length out.copied)

  after_fill-Delivers :
      (b : BufLimitReader rd) (len : ℕ) (x : Option RpcError)
      → x ≡ none
      → 0 < len
      → 0 < length (unread rd b)
      → Delivers (after_fill rd b len x).0
  unfolding after_fill copy_out Delivers
  after_fill-Delivers b len none e h u = (refl, omega (arith, length-take len (unread rd b)))
  after_fill-Delivers b len (some x) e h u = cc

  content_left : (b : BufLimitReader rd) → b.r ≡ b.w → pending rd o b ≢ [] → o.content b.source ≢ []
  content_left b e more none_left = more (rw (unread_empty rd o b e) none_left)

  read_cut-Delivers :
      (b : BufLimitReader rd) (len : ℕ)
      → IsValid b
      → 0 < len
      → len ≤ b.limit
      → 0 < length b.buf
      → pending rd o b ≢ []
      → Delivers (read_cut rd b len).0
  unfolding read_cut copy_out direct_read fill_read Delivers
  read_cut-Delivers b len v wanted fits sized more =
      let some_wanted : nat_beq len 0 ≡ false = ground arith in
      elim (Bool-cases (nat_beq b.r b.w)) [
        | inr buffered ↦
            let apart : b.r ≢ b.w = ground arith in
            rw (some_wanted, buffered)
              (refl, omega (arith, v.r_le_w, length-unread b v, length-take len (unread rd b)))
        | inl empty ↦
            let at_end : b.r ≡ b.w = ground arith in
            let left = content_left b at_end more in
            elim (Bool-cases (leb (length b.buf) len)) [
              | inl large ↦ rw (some_wanted, empty, large) (st.delivers b.source len wanted left)
              | inr small ↦
                  let asked : ℕ = min b.limit (length b.buf) in
                  let got = st.delivers b.source asked (omega arith) left in
                  rw (some_wanted, empty, small)
                    (after_fill-Delivers
                      (filled rd b (rd.read b.source asked).0 (rd.read b.source asked).2) len
                      (rd.read b.source asked).1 got.0 wanted
                      (rw (refilled-unread rd o b len v at_end fits) got.1))
            ]
      ]

  -- Over a steady reader, a Read for at least one byte, within a limit of at least one, into a
  -- buffer that has a size, delivers a byte and no error where a byte is still to come.
  pub read_delivers :
      (b : BufLimitReader rd) (len : ℕ)
      → IsValid b
      → 0 < len
      → 0 < b.limit
      → 0 < length b.buf
      → pending rd o b ≢ []
      → ((read rd b len).0.error ≡ none) × (0 < length (read rd b len).0.copied)
  unfolding read read_limited Delivers
  read_delivers b len v wanted open_limit sized more =
      let left : nat_beq b.limit 0 ≡ false = ground arith in
      elim (Bool-cases (ltb b.limit len)) [
        | inl long ↦
            rw (left, long) (read_cut-Delivers b b.limit v open_limit (omega arith) sized more)
        | inr short ↦ rw (left, short) (read_cut-Delivers b len v wanted (ground arith) sized more)
      ]

  after_fill_ends :
      (b : BufLimitReader rd) (len : ℕ) (x : Option RpcError)
      → x ≡ some eof
      → (after_fill rd b len x).0.error ≡ some eof
  unfolding after_fill
  after_fill_ends b len none e = cc
  after_fill_ends b len (some x) e = e

  nothing_left :
      (b : BufLimitReader rd)
      → IsValid b
      → pending rd o b ≡ []
      → (b.r ≡ b.w) × (o.content b.source ≡ [])
  nothing_left b v e =
      let (unread_none, empty) = append-eq_nil (unread rd b) (o.content b.source) e in
      (omega (arith, v.r_le_w, length-unread b v, ap length unread_none), empty)

  read_cut_ends :
      (b : BufLimitReader rd) (len : ℕ)
      → IsValid b
      → 0 < len
      → pending rd o b ≡ []
      → (read_cut rd b len).0.error ≡ some eof
  unfolding read_cut direct_read fill_read
  read_cut_ends b len v wanted e =
      let some_wanted : nat_beq len 0 ≡ false = ground arith in
      let (at_end, empty) = nothing_left b v e in
      let no_bytes : nat_beq b.r b.w ≡ true = ground arith in
      elim (Bool-cases (leb (length b.buf) len)) [
        | inl large ↦ rw (some_wanted, no_bytes, large) (st.ends b.source len empty)
        | inr small ↦
            let asked : ℕ = min b.limit (length b.buf) in
            rw (some_wanted, no_bytes, small)
              (after_fill_ends (filled rd b (rd.read b.source asked).0 (rd.read b.source asked).2)
                len (rd.read b.source asked).1 (st.ends b.source asked empty))
      ]

  -- A Read for at least one byte returns io.EOF where no byte is to come, whatever the limit.
  pub read_ends :
      (b : BufLimitReader rd) (len : ℕ)
      → IsValid b
      → 0 < len
      → pending rd o b ≡ []
      → (read rd b len).0.error ≡ some eof
  unfolding read read_limited
  read_ends b len v wanted e = elim (Bool-cases (nat_beq b.limit 0)) [
    | inl spent ↦ rw spent
    | inr left ↦ elim (Bool-cases (ltb b.limit len)) [
      | inl long ↦ rw (left, long) (read_cut_ends b b.limit v (ground arith) e)
      | inr short ↦ rw (left, short) (read_cut_ends b len v wanted e)
    ]
  ]

  single :
      (ys : List ℕ) {x : ℕ} {rest xs : List ℕ}
      → length ys ≡ 1
      → x ∷ rest ≡ ys ++ xs
      → (ys ≡ x ∷ []) × (xs ≡ rest)
  single [] one all = cc
  single (y ∷ []) one all = (cc, cc)
  single (y ∷ z ∷ ys) one all = ground arith

  read_byte_of-one :
      (out : ReadOut rd) (x : ℕ) (rest xs : List ℕ)
      → out.error ≡ none
      → out.n ≡ length out.copied
      → length out.copied ≡ 1
      → x ∷ rest ≡ out.copied ++ xs
      → (read_byte_of rd out ≡ (x, none)) × (xs ≡ rest)
  unfolding read_byte_of first_or_zero
  read_byte_of-one out x rest xs e n one all =
      let (copied, left) = single out.copied one all in
      let some_read : nat_beq out.n 0 ≡ false = ground arith in (rw (e, some_read, copied), left)

  read_byte_of_eof : (out : ReadOut rd) → out.error ≡ some eof → (read_byte_of rd out).1 ≡ some eof
  unfolding read_byte_of
  read_byte_of_eof out e = rw e

  -- ReadByte hands over the next byte.
  pub read_byte_next :
      (b : BufLimitReader rd) (x : ℕ) (rest : List ℕ)
      → IsValid b
      → 0 < b.limit
      → 0 < length b.buf
      → pending rd o b ≡ x ∷ rest
      → ((read_byte rd b).0 ≡ (x, none))
        × (pending rd o (read_byte rd b).1 ≡ rest)
        × Charged rd o b 1 (read rd b 1).0 (read_byte rd b).1
  unfolding read_byte
  read_byte_next b x rest v open_limit sized e =
      let (fine, some_copied) =
        read_delivers b 1 v (omega arith) open_limit sized (λ none_left. cc) in
      let c = read-Charged rd o b 1 v in
      let (byte, left) =
        read_byte_of-one (read rd b 1).0 x rest (pending rd o (read rd b 1).1) fine (c.counted fine)
          (omega (arith, c.copied_within, some_copied)) (sym e ∙ read_conserves rd o b 1 v) in
      (byte, left, c)

  -- ReadByte returns io.EOF where no byte is to come.
  pub read_byte_ends :
      (b : BufLimitReader rd) → IsValid b → pending rd o b ≡ [] → (read_byte rd b).0.1 ≡ some eof
  unfolding read_byte
  read_byte_ends b v e = read_byte_of_eof (read rd b 1).0 (read_ends b 1 v (omega arith) e)
