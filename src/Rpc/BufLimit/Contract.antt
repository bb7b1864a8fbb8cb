-- ===== src/Rpc/BufLimit/Contract.antt =====
-- What a Read of p2p/rpc/reqresp/buf_limit_read.go promises to its caller, and where it breaks the
-- contract of io.Reader.
use rumor.Base.{
  ℕ, ◌-◌, ◌≤◌, ◌<◌, ◌≡◌, refl, sym, ap, ◌∙◌, Bool, true, false, [], ◌++◌, length, Option, none,
  some, min, arith, ltb, leb, nat_beq, Bool-cases, inl, inr, if◌then◌else◌,
}
use rumor.Rpc.Stream.{Reader, Ordered, RpcError, eof}
use rumor.Rpc.BufLimit.{
  BufLimitReader, ReadOut, unread, after_fill, fill_read, read_cut, read_limited, read, charge,
}
use rumor.Rpc.BufLimit.Facts.{
  IsValid, Served, pending, copy_out-Served, direct_read-Served, after_fill-Served,
}

module _ (rd : Reader) (o : Ordered rd) where
  -- A call that serves nothing and leaves the reader as it is.
  Served-nothing :
      (b : BufLimitReader rd) (len : ℕ) (x : Option RpcError)
      → IsValid b
      → Served rd o b len (record { copied = []; n = 0; error = x }) b
  Served-nothing b len x v = record {
    valid = v;
    size = refl;
    mode = refl;
    limit = refl;
    within = omega arith;
    copied_within = omega arith;
    conserved = refl;
    counted = λ _. refl;
    buffered = λ _ h. omega arith;
  }

  read_cut-Served :
      (b : BufLimitReader rd) (len : ℕ)
      → IsValid b
      → len ≤ b.limit
      → Served rd o b len (read_cut rd b len).0 (read_cut rd b len).1
  unfolding read_cut fill_read
  read_cut-Served b len v h = elim (Bool-cases (nat_beq len 0)) [
    | inl none_wanted ↦ rw none_wanted (Served-nothing b len none v)
    | inr wanted ↦ elim (Bool-cases (nat_beq b.r b.w)) [
      | inr buffered ↦ rw (wanted, buffered) (copy_out-Served rd o b len v h)
      | inl empty ↦
          let at_end : b.r ≡ b.w = ground arith in
          elim (Bool-cases (leb (length b.buf) len)) [
            | inl large ↦ rw (wanted, empty, large) (direct_read-Served rd o b len v at_end h)
            | inr small ↦
                rw (wanted, empty, small)
                  (after_fill-Served rd o b len v at_end h
                    (rd.read b.source (min b.limit (length b.buf))).1)
          ]
    ]
  ]

  Served-shorter :
      (b : BufLimitReader rd) (len less : ℕ) (out : ReadOut rd) (b' : BufLimitReader rd)
      → less ≤ len
      → Served rd o b less out b'
      → Served rd o b len out b'
  Served-shorter b len less out b' h s = record {
    valid = s.valid;
    size = s.size;
    mode = s.mode;
    limit = s.limit;
    within = s.within;
    copied_within = omega (arith, s.copied_within);
    conserved = s.conserved;
    counted = s.counted;
    buffered = s.buffered;
  }

  read_limited-Served :
      (b : BufLimitReader rd) (len : ℕ)
      → IsValid b
      → Served rd o b len (read_limited rd b len).0 (read_limited rd b len).1
  unfolding read_limited
  read_limited-Served b len v = elim (Bool-cases (nat_beq b.limit 0)) [
    | inl spent ↦ rw spent (Served-nothing b len (some eof) v)
    | inr left ↦ elim (Bool-cases (ltb b.limit len)) [
      | inl long ↦
          rw (left, long)
            (Served-shorter b len b.limit (read_cut rd b b.limit).0 (read_cut rd b b.limit).1
              (ground arith) (read_cut-Served b b.limit v (omega arith)))
      | inr short ↦ rw (left, short) (read_cut-Served b len v (ground arith))
    ]
  ]

  charge-pending :
      (p : Bool) (n : ℕ) (b : BufLimitReader rd) → pending rd o (charge rd p n b) ≡ pending rd o b
  unfolding charge
  charge-pending true n b = refl
  charge-pending false n b = refl

  -- Over a reader that hands out its bytes in order, the bytes that are still to come, buffered or
  -- not, are handed over in order: no Read of a valid buffer loses one, doubles one or takes one
  -- before another, also when it returns an error.
  pub read_conserves :
      (b : BufLimitReader rd) (len : ℕ)
      → IsValid b
      → pending rd o b ≡ (read rd b len).0.copied ++ pending rd o (read rd b len).1
  unfolding read
  read_conserves b len v =
      let s = read_limited-Served b len v in
      let (out, b') = read_limited rd b len in
      s.conserved ∙ ap (λ x. out.copied ++ x) (sym (charge-pending b'.per_read out.n b'))

  -- What a Read leaves, once the limit is charged.
  pub record Charged (b : BufLimitReader rd) (len : ℕ) (out : ReadOut rd) (b' : BufLimitReader rd)
      : Type 0 where
    pub valid : IsValid b'
    pub size : length b'.buf ≡ length b.buf
    pub mode : b'.per_read ≡ b.per_read
    pub within : out.n ≤ b.limit
    pub copied_within : length out.copied ≤ len
    pub charged : b'.limit ≡ (if b.per_read then b.limit else b.limit - out.n)
    pub counted : out.error ≡ none → out.n ≡ length out.copied
    pub buffered :
        out.error ≡ none → length (unread rd b) ≤ b.limit → length (unread rd b') ≤ b'.limit

  charge-Charged :
      (b : BufLimitReader rd) (len : ℕ) (out : ReadOut rd) (b' : BufLimitReader rd) (p : Bool)
      → b'.per_read ≡ p
      → Served rd o b len out b'
      → Charged b len out (charge rd p out.n b')
  unfolding charge
  charge-Charged b len out b' true e s = record {
    valid = s.valid;
    size = s.size;
    mode = s.mode;
    within = s.within;
    copied_within = s.copied_within;
    charged = rw (sym s.mode ∙ e) s.limit;
    counted = s.counted;
    buffered = λ h f. omega (arith, s.buffered h f, s.limit);
  }
  charge-Charged b len out b' false e s = record {
    valid = record { r_le_w = s.valid.r_le_w; w_fits = s.valid.w_fits };
    size = s.size;
    mode = s.mode;
    within = s.within;
    copied_within = s.copied_within;
    charged = rw (sym s.mode ∙ e) (ap (λ x. x - out.n) s.limit);
    counted = s.counted;
    buffered = λ h f. omega (arith, s.buffered h f, s.limit);
  }

  -- A Read leaves a valid reader of the same buffer size and mode. Its count stays within the limit
  -- and what it copies within the slice; the count is taken off the limit unless the limit is for
  -- each read. Without an error the count is that of the copied bytes, and what is left in the
  -- buffer stays within the limit that is left, if it was so before.
  pub read-Charged :
      (b : BufLimitReader rd) (len : ℕ)
      → IsValid b
      → Charged b len (read rd b len).0 (read rd b len).1
  unfolding read
  read-Charged b len v =
      charge-Charged b len (read_limited rd b len).0 (read_limited rd b len).1
        (read_limited rd b len).1.per_read refl (read_limited-Served b len v)

module _ (rd : Reader) where
  -- Where the buffer is empty, the slice smaller than it, and the reader returns bytes together with
  -- an error, Read copies nothing and still returns their count.
  pub read_miscounts :
      (b : BufLimitReader rd) (len : ℕ) (x : RpcError)
      → b.r ≡ b.w
      → 0 < len
      → len ≤ b.limit
      → len < length b.buf
      → (rd.read b.source (min b.limit (length b.buf))).1 ≡ some x
      → ((read rd b len).0.copied ≡ [])
        × ((read rd b len).0.n ≡ length (rd.read b.source (min b.limit (length b.buf))).0)
        × ((read rd b len).0.error ≡ some x)
  unfolding read read_limited read_cut fill_read after_fill
  read_miscounts b len x empty wanted fits small failed =
      let left : nat_beq b.limit 0 ≡ false = ground arith in
      let short : ltb b.limit len ≡ false = ground arith in
      let some_wanted : nat_beq len 0 ≡ false = ground arith in
      let at_end : nat_beq b.r b.w ≡ true = ground arith in
      let little : leb (length b.buf) len ≡ false = ground arith in
      rw (left, short, some_wanted, at_end, little, failed) (refl, refl, refl)
