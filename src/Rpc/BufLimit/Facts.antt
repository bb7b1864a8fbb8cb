-- ===== src/Rpc/BufLimit/Facts.antt =====
-- BufLimitReader of p2p/rpc/reqresp/buf_limit_read.go keeps to its limit and loses no byte.
use rumor.Base.{
  ℕ, ◌+◌, ◌-◌, ◌≤◌, ◌≡◌, refl, sym, ap, ◌∙◌, List, [], ◌++◌, length, take, drop, Option, none, some,
  min, arith, length-take, length-drop, length-append, take-append, take-append-drop-length,
  drop-take, drop-drop,
}
use mathlib.Core.List.{append_assoc}
use rumor.Rpc.Stream.{Reader, Ordered, RpcError}
use rumor.Rpc.BufLimit.{BufLimitReader, ReadOut, unread, copy_out, direct_read, filled, after_fill}

-- The read position is not behind the write position, which is inside the buffer.
pub record IsValid {rd : Reader} (b : BufLimitReader rd) : Type 0 where
  pub r_le_w : b.r ≤ b.w
  pub w_fits : b.w ≤ length b.buf

module _ {rd : Reader} where
  pub length-unread : (b : BufLimitReader rd) → IsValid b → length (unread rd b) ≡ b.w - b.r
  length-unread b v =
      omega
        (arith, length-take (b.w - b.r) (drop b.r b.buf), length-drop b.r b.buf, v.r_le_w, v.w_fits)

module _ (rd : Reader) (o : Ordered rd) where
  -- All bytes that are still to come: the buffered ones, and then the reader's.
  abbrev pub pending : BufLimitReader rd → List ℕ
  pending b = unread rd b ++ o.content b.source

  -- What a call of the body leaves, with the limit not charged yet.
  pub record Served (b : BufLimitReader rd) (len : ℕ) (out : ReadOut rd) (b' : BufLimitReader rd)
      : Type 0 where
    pub valid : IsValid b'
    pub size : length b'.buf ≡ length b.buf
    pub mode : b'.per_read ≡ b.per_read
    pub limit : b'.limit ≡ b.limit
    pub within : out.n ≤ b.limit
    pub copied_within : length out.copied ≤ len
    pub conserved : pending b ≡ out.copied ++ pending b'
    pub counted : out.error ≡ none → out.n ≡ length out.copied
    pub buffered :
        out.error ≡ none → length (unread rd b) ≤ b.limit → length (unread rd b') + out.n ≤ b.limit

  unread_moved :
      (b : BufLimitReader rd) (k : ℕ) → unread rd (record b { r = b.r + k }) ≡ drop k (unread rd b)
  unread_moved b k =
      let e : b.w - b.r - k ≡ b.w - (b.r + k) = omega arith in
      sym (drop-take k (b.w - b.r) (drop b.r b.buf) ∙ rw (drop-drop b.r k b.buf, e))

  pub unread_empty : (b : BufLimitReader rd) → b.r ≡ b.w → unread rd b ≡ []
  unread_empty b e = let none_left : b.w - b.r ≡ 0 = omega arith in rw none_left

  pub copy_out-Served :
      (b : BufLimitReader rd) (len : ℕ)
      → IsValid b
      → len ≤ b.limit
      → Served b len (copy_out rd b len).0 (copy_out rd b len).1
  unfolding copy_out
  copy_out-Served b len v h =
      let u : List ℕ = unread rd b in
      let k : ℕ = length (take len u) in
      let size : k ≡ min len (length u) = length-take len u in
      let v' : IsValid (record b { r = b.r + k }) =
        omega (arith, v.r_le_w, v.w_fits, size, length-unread b v) in
      record {
        valid = v';
        size = refl;
        mode = refl;
        limit = refl;
        within = omega (arith, size);
        copied_within = omega (arith, size);
        conserved =
            ap (λ x. x ++ o.content b.source) (sym (take-append-drop-length len u))
            ∙ append_assoc (take len u) (drop k u) (o.content b.source)
            ∙ ap (λ x. take len u ++ (x ++ o.content b.source)) (sym (unread_moved b k));
        counted = λ _. refl;
        buffered = λ _ fits.
            omega (arith, size, length-unread b v, length-unread (record b { r = b.r + k }) v');
      }

  pub direct_read-Served :
      (b : BufLimitReader rd) (len : ℕ)
      → IsValid b
      → b.r ≡ b.w
      → len ≤ b.limit
      → Served b len (direct_read rd b len).0 (direct_read rd b len).1
  unfolding direct_read
  direct_read-Served b len v e h = record {
    valid = omega (arith, v.r_le_w, v.w_fits);
    size = refl;
    mode = refl;
    limit = refl;
    within = omega (arith, rd.read_bounded b.source len);
    copied_within = rd.read_bounded b.source len;
    conserved = rw (unread_empty b e) (o.in_order b.source len);
    counted = λ _. refl;
    buffered = λ _ _. omega (arith, rd.read_bounded b.source len, length-unread b v);
  }

  module _ (b : BufLimitReader rd) (len : ℕ) (v : IsValid b) (e : b.r ≡ b.w)
      (h : len ≤ b.limit) where
    abbrev asked : ℕ
    asked = min b.limit (length b.buf)

    abbrev bytes : List ℕ
    bytes = (rd.read b.source asked).0

    abbrev refilled : BufLimitReader rd
    refilled = filled rd b bytes (rd.read b.source asked).2

    pub refilled-unread : unread rd refilled ≡ bytes
    refilled-unread = take-append bytes (drop (length bytes) b.buf) (length bytes - 0) (omega arith)

    refilled_size : length refilled.buf ≡ length b.buf
    refilled_size = omega (
      arith,
      length-append bytes (drop (length bytes) b.buf),
      length-drop (length bytes) b.buf,
      rd.read_bounded b.source asked,
    )

    refilled-IsValid : IsValid refilled
    refilled-IsValid = omega (arith, refilled_size, rd.read_bounded b.source asked)

    refilled-conserves : pending b ≡ pending refilled
    refilled-conserves = rw (unread_empty b e, refilled-unread) (o.in_order b.source asked)

    pub after_fill-Served :
        (x : Option RpcError)
        → Served b len (after_fill rd refilled len x).0 (after_fill rd refilled len x).1
    unfolding after_fill
    after_fill-Served none =
        let s = copy_out-Served refilled len refilled-IsValid h in
        record {
          valid = s.valid;
          size = s.size ∙ refilled_size;
          mode = s.mode;
          limit = s.limit;
          within = s.within;
          copied_within = s.copied_within;
          conserved = refilled-conserves ∙ s.conserved;
          counted = s.counted;
          buffered = λ n _.
              s.buffered n
                (omega (arith, ap length refilled-unread, rd.read_bounded b.source asked));
        }
    after_fill-Served (some x) = record {
      valid = refilled-IsValid;
      size = refilled_size;
      mode = refl;
      limit = refl;
      within = omega (arith, rd.read_bounded b.source asked);
      copied_within = omega arith;
      conserved = refilled-conserves;
      counted = λ n. cc;
      buffered = λ n. cc;
    }
