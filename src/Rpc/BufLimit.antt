-- ===== src/Rpc/BufLimit.antt =====
-- BufLimitReader of p2p/rpc/reqresp/buf_limit_read.go. Go's int N is a number here: it is negative
-- only where an int conversion of a huge uint64 makes it so, and reads as 0 does then.
pub mod Facts
pub mod Contract
pub mod Progress
use rumor.Base.{
  ℕ, ◌+◌, ◌-◌, Bool, List, [], ◌∷◌, ◌++◌, length, take, drop, replicate, Option, none, some, min,
  ltb, leb, nat_beq, if◌then◌else◌,
}
use rumor.Rpc.Stream.{Reader, RpcError, eof, limit_reached, no_single_byte}

module _ (rd : Reader) where
  pub record BufLimitReader : Type 0 where
    pub buf : List ℕ
    pub source : rd.Source
    pub r : ℕ
    pub w : ℕ
    pub limit : ℕ
    pub per_read : Bool

  -- What a Read writes to `p`, the count that it returns, and its error.
  pub record ReadOut : Type 0 where
    pub copied : List ℕ
    pub n : ℕ
    pub error : Option RpcError

  unfoldable pub new_buf_limit_reader : rd.Source → ℕ → ℕ → BufLimitReader
  new_buf_limit_reader source size limit = record {
    buf = replicate size 0;
    source = source;
    r = 0;
    w = 0;
    limit = limit;
    per_read = Bool.false;
  }

  -- b.buf[b.r:b.w]
  abbrev pub unread : BufLimitReader → List ℕ
  unread b = take (b.w - b.r) (drop b.r b.buf)

  -- `n = copy(p, b.buf[b.r:b.w])`
  unfoldable pub copy_out : BufLimitReader → ℕ → ReadOut × BufLimitReader
  copy_out b len =
      let bytes = take len (unread b) in
      (
        record { copied = bytes; n = length bytes; error = none },
        record b { r = b.r + length bytes },
      )

  -- `n, err = b.rd.Read(p)`
  unfoldable pub direct_read : BufLimitReader → ℕ → ReadOut × BufLimitReader
  direct_read b len =
      let (bytes, e, source) = rd.read b.source len in
      (record { copied = bytes; n = length bytes; error = e }, record b { source = source })

  -- The buffer after it was read into from its start.
  abbrev pub filled : BufLimitReader → List ℕ → rd.Source → BufLimitReader
  filled b bytes source = record b {
    buf = bytes ++ drop (length bytes) b.buf;
    r = 0;
    w = length bytes;
    source = source;
  }

  unfoldable pub after_fill : BufLimitReader → ℕ → Option RpcError → ReadOut × BufLimitReader
  unfolding copy_out
  after_fill b len none = copy_out b len
  after_fill b len (some e) = (record { copied = []; n = b.w; error = some e }, b)

  -- The buffer is filled, and on an error of the reader its count is returned as it is.
  unfoldable pub fill_read : BufLimitReader → ℕ → ReadOut × BufLimitReader
  unfolding after_fill
  fill_read b len =
      let (bytes, e, source) = rd.read b.source (min b.limit (length b.buf)) in
      after_fill (filled b bytes source) len e

  -- The body of Read, behind the cut of `p` to the limit.
  unfoldable pub read_cut : BufLimitReader → ℕ → ReadOut × BufLimitReader
  unfolding copy_out direct_read fill_read
  read_cut b len =
      if nat_beq len 0
      then (record { copied = []; n = 0; error = none }, b)
      else if nat_beq b.r b.w
      then if leb (length b.buf) len then direct_read b len else fill_read b len
      else copy_out b len

  -- The test of N = 0 under `len(p) > b.N` is there in the source too, and never holds.
  unfoldable pub read_limited : BufLimitReader → ℕ → ReadOut × BufLimitReader
  read_limited b len =
      if nat_beq b.limit 0
      then (record { copied = []; n = 0; error = some eof }, b)
      else if ltb b.limit len
      then if nat_beq b.limit 0
        then (record { copied = []; n = 0; error = some limit_reached }, b)
        else read_cut b b.limit
      else read_cut b len

  -- The deferred `b.N -= n`.
  unfoldable pub charge : Bool → ℕ → BufLimitReader → BufLimitReader
  charge per_read n b = if per_read then b else record b { limit = b.limit - n }

  unfoldable pub read : BufLimitReader → ℕ → ReadOut × BufLimitReader
  unfolding read_limited charge
  read b len = let (out, b') = read_limited b len in (out, charge b'.per_read out.n b')

  unfoldable pub first_or_zero : List ℕ → ℕ
  first_or_zero [] = 0
  first_or_zero (x ∷ xs) = x

  unfoldable pub read_byte_of : ReadOut → ℕ × Option RpcError
  unfolding first_or_zero
  read_byte_of out = elim out.error [
    | none ↦ if nat_beq out.n 0 then (0, some no_single_byte) else (first_or_zero out.copied, none)
    | some e ↦ (first_or_zero out.copied, some e)
  ]

  unfoldable pub read_byte : BufLimitReader → (ℕ × Option RpcError) × BufLimitReader
  unfolding read read_byte_of
  read_byte b = let (out, b') = read b 1 in (read_byte_of out, b')
