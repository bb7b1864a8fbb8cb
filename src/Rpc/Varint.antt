-- ===== src/Rpc/Varint.antt =====
-- PutUvarint and ReadUvarint of Go's encoding/binary, which p2p/rpc/reqresp frames its messages with.
pub mod RoundTrip
use rumor.Base.{
  ℕ, zero, suc, ◌+◌, ◌-◌, ◌*◌, ◌/◌, ◌%◌, ◌^◌, List, [], ◌∷◌, Option, none, some, ltb, if◌then◌else◌,
  nat_beq, ◌&&◌, Bool,
}
use rumor.Rpc.Stream.{Reader, RpcError, varint_overflow}
use rumor.Rpc.BufLimit.{BufLimitReader, read_byte}

-- `for x >= 0x80 { ...; x >>= 7 }`; a uint64 takes MaxVarintLen64 = 10 bytes at most.
unfoldable pub uvarint_bytes : (rounds : ℕ) → ℕ → List ℕ
uvarint_bytes zero x = x ∷ []
uvarint_bytes (suc n) x =
    let rest = uvarint_bytes n (x / 128) in if ltb x 128 then x ∷ [] else (x % 128 + 128) ∷ rest

abbrev pub put_uvarint : ℕ → List ℕ
put_uvarint x = uvarint_bytes 9 x

module _ (rd : Reader) where
  -- The value, which comes along with an error too.
  abbrev pub Uvarint : Type 0
  Uvarint = (ℕ × Option RpcError) × BufLimitReader rd

  -- One byte in the loop: `scale` is 2^s, and `last` says that it is the tenth byte.
  uvarint_step :
      (again : ℕ → BufLimitReader rd → Uvarint)
      → (last : Bool) (x scale byte : ℕ) → Option RpcError
      → BufLimitReader rd
      → Uvarint
  uvarint_step again last x scale byte (some e) b = ((x, some e), b)
  uvarint_step again last x scale byte none b =
      if ltb byte 128
      then if last && ltb 1 byte
        then ((x, some varint_overflow), b)
        else ((x + byte * scale, none), b)
      else again (x + byte % 128 * scale) b

  -- The loop with `rounds` bytes to go; after the last one the value is too long.
  unfoldable pub uvarint_loop : (rounds x scale : ℕ) → BufLimitReader rd → Uvarint
  unfolding uvarint_step
  uvarint_loop zero x scale b = ((x, some varint_overflow), b)
  uvarint_loop (suc n) x scale b =
      let ((byte, e), b') = read_byte rd b in
      uvarint_step (λ x' b''. uvarint_loop n x' (scale * 128) b'') (nat_beq n 0) x scale byte e b'

  unfoldable pub read_uvarint : BufLimitReader rd → Uvarint
  unfolding uvarint_loop
  read_uvarint b = uvarint_loop 10 0 1 b
