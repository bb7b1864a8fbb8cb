-- ===== src/Rpc/Varint/RoundTrip.antt =====
-- Reading a uvarint byte by byte through a BufLimitReader, as p2p/rpc/reqresp does, reads the number
-- that was written.
use rumor.Base.{
  subst, ℕ, zero, suc, ◌+◌, ◌-◌, ◌*◌, ◌/◌, ◌%◌, ◌^◌, ◌<◌, ◌≡◌, refl, ap, ◌∙◌, true, false, List, [],
  ◌∷◌, ◌++◌, length, Option, none, some, arith, ltb, nat_beq, Bool-cases, inl, inr, if◌then◌else◌,
  IsU64,
}
use rumor.Rpc.Stream.{Reader, Ordered, Steady, RpcError, eof}
use rumor.Rpc.BufLimit.{BufLimitReader, read, read_byte}
use rumor.Rpc.BufLimit.Facts.{IsValid, pending}
use rumor.Rpc.BufLimit.Progress.{read_byte_next, read_byte_ends}
use rumor.Rpc.Varint.{uvarint_bytes, put_uvarint, uvarint_step, uvarint_loop, read_uvarint}

-- The reader is set to read single bytes: its limit holds for each read and admits one.
pub record IsReady {rd : Reader} (b : BufLimitReader rd) : Type 0 where
  pub valid : IsValid b
  pub mode : b.per_read ≡ true
  pub open_limit : 0 < b.limit
  pub sized : 0 < length b.buf

digits :
    (x scale m : ℕ) → x + (m % 128 + 128) % 128 * scale + m / 128 * (scale * 128) ≡ x + m * scale
digits x scale m =
    let low : (m % 128 + 128) % 128 ≡ m % 128 = omega arith in
    let split : m % 128 + m / 128 * 128 ≡ m = omega arith in
    rw low (omega (arith, ap (λ y. y * scale) split))

bytes_short : (k m : ℕ) → ltb m 128 ≡ true → uvarint_bytes (suc k) m ≡ m ∷ []
unfolding uvarint_bytes
bytes_short k m e = rw e refl

bytes_long :
    (k m : ℕ)
    → ltb m 128 ≡ false
    → uvarint_bytes (suc k) m ≡ (m % 128 + 128) ∷ uvarint_bytes k (m / 128)
unfolding uvarint_bytes
bytes_long k m e = rw e refl

module _ (rd : Reader) (o : Ordered rd) (st : Steady rd o) where
  -- What is read, and that the reader stands behind it.
  pub record ReadsTo (got : (ℕ × Option RpcError) × BufLimitReader rd) (x : ℕ) (rest : List ℕ)
      : Type 0 where
    pub value : got.0 ≡ (x, none)
    pub left : pending rd o got.1 ≡ rest
    pub ready : IsReady got.1

  read_byte-ReadsTo :
      (b : BufLimitReader rd) (x : ℕ) (rest : List ℕ)
      → IsReady b
      → pending rd o b ≡ x ∷ rest
      → ReadsTo (read_byte rd b) x rest
  read_byte-ReadsTo b x rest h e =
      let (byte, left, c) = read_byte_next rd o st b x rest h.valid h.open_limit h.sized e in
      let same : (if b.per_read then b.limit else b.limit - (read rd b 1).0.n) ≡ b.limit =
        rw h.mode refl in
      let kept : (read_byte rd b).1.limit ≡ b.limit = c.charged ∙ same in
      record {
        value = byte;
        left = left;
        ready = record {
          valid = c.valid;
          mode = c.mode ∙ h.mode;
          open_limit = omega (arith, kept, h.open_limit);
          sized = omega (arith, c.size, h.sized);
        };
      }

  uvarint_loop-ReadsTo :
      (k x scale m : ℕ) (b : BufLimitReader rd) (rest : List ℕ)
      → m < 2 * 128 ^ k
      → IsReady b
      → pending rd o b ≡ uvarint_bytes k m ++ rest
      → ReadsTo (uvarint_loop rd (suc k) x scale b) (x + m * scale) rest
  unfolding uvarint_loop uvarint_step uvarint_bytes
  uvarint_loop-ReadsTo zero x scale m b rest h ready e =
      let r = read_byte-ReadsTo b m rest ready e in
      let short : ltb m 128 ≡ true = ground arith in
      let fits : ltb 1 m ≡ false = ground arith in
      rw (ap (λ p. p.0) r.value, ap (λ p. p.1) r.value, short, fits)
        (record { value = refl; left = r.left; ready = r.ready })
  uvarint_loop-ReadsTo (suc k) x scale m b rest h ready e = elim (Bool-cases (ltb m 128)) [
    | inl short ↦
        let r =
          read_byte-ReadsTo b m rest ready (e ∙ ap (λ l. l ++ rest) (bytes_short k m short)) in
        let more : nat_beq (suc k) 0 ≡ false = ground arith in
        rw (ap (λ p. p.0) r.value, ap (λ p. p.1) r.value, short, more)
          (record { value = refl; left = r.left; ready = r.ready })
    | inr long ↦
        let r =
          read_byte-ReadsTo b (m % 128 + 128) (uvarint_bytes k (m / 128) ++ rest) ready
            (e ∙ ap (λ l. l ++ rest) (bytes_long k m long)) in
        let again : ltb (m % 128 + 128) 128 ≡ false = ground arith in
        let whole : x + (m % 128 + 128) % 128 * scale + m / 128 * (scale * 128) ≡ x + m * scale =
          digits x scale m in
        rw (ap (λ p. p.0) r.value, ap (λ p. p.1) r.value, again)
          (subst
            (λ v.
              ReadsTo
                (uvarint_loop rd (suc k) (x + (m % 128 + 128) % 128 * scale) (scale * 128)
                  (read_byte rd b).1)
                v rest)
            whole
            (uvarint_loop-ReadsTo k (x + (m % 128 + 128) % 128 * scale) (scale * 128) (m / 128)
              (read_byte rd b).1 rest (omega arith) r.ready r.left))
  ]

  -- A uvarint of 64 bits that stands before anything else on a steady reader is read back, byte by
  -- byte, and nothing behind it is taken.
  pub read_uvarint-put_uvarint :
      (b : BufLimitReader rd) (n : ℕ) (rest : List ℕ)
      → IsU64 n
      → IsReady b
      → pending rd o b ≡ put_uvarint n ++ rest
      → ReadsTo (read_uvarint rd b) n rest
  unfolding read_uvarint
  read_uvarint-put_uvarint b n rest h ready e =
      subst (λ v. ReadsTo (uvarint_loop rd 10 0 1 b) v rest) (omega arith)
        (uvarint_loop-ReadsTo 9 0 1 n b rest h ready e)

  -- At the end of the stream there is io.EOF.
  pub read_uvarint_ends :
      (b : BufLimitReader rd) → IsValid b → pending rd o b ≡ [] → (read_uvarint rd b).0.1 ≡ some eof
  unfolding read_uvarint uvarint_loop uvarint_step
  read_uvarint_ends b v e = rw (read_byte_ends rd o st b v e)
