-- ===== src/Chain/Key.antt =====
-- BlockSlotKey of chain/chain.go: the 40 bytes of a block root and a slot, a key of the hot chain's
-- map of entries.
use rumor.Base.{
  ℕ, ◌+◌, ◌*◌, ◌/◌, ◌%◌, ◌≡◌, List, [], ◌∷◌, ◌++◌, ◌&&◌, arith, length, take, drop, take-append,
  drop-append, IsU64, ◌==◌, bytes_eq, nat_eq,
}
use rumor.Chain.Zrnt.{Root}

-- binary.LittleEndian.PutUint64
put_uint64 : ℕ → List ℕ
put_uint64 v =
    (v % 256)
    ∷ (v / 256 % 256)
    ∷ (v / 65536 % 256)
    ∷ (v / 16777216 % 256)
    ∷ (v / 4294967296 % 256)
    ∷ (v / 1099511627776 % 256)
    ∷ (v / 281474976710656 % 256)
    ∷ (v / 72057594037927936 % 256)
    ∷ []

-- binary.LittleEndian.Uint64 of a slice of 8 bytes, by Horner's rule.
uint64 : List ℕ → ℕ
uint64 [] = 0
uint64 (b ∷ bs) = b + 256 * uint64 bs

abbrev pub BlockSlotKey : Type 0
BlockSlotKey = List ℕ

unfoldable pub new_block_slot_key : Root → ℕ → BlockSlotKey
unfolding put_uint64
new_block_slot_key block slot = block ++ put_uint64 slot

-- key.Slot()
unfoldable pub key_slot : BlockSlotKey → ℕ
unfolding uint64
key_slot key = uint64 (drop 32 key)

-- key.Root()
unfoldable pub key_root : BlockSlotKey → Root
key_root key = take 32 key

uint64-put_uint64 : (v : ℕ) → IsU64 v → uint64 (put_uint64 v) ≡ v
unfolding uint64 put_uint64
uint64-put_uint64 v h = omega arith

module _ (r : Root) (s : ℕ) (array : length r ≡ 32) (fits : IsU64 s) where
  -- A key made of a 32-byte root and a uint64 slot gives back both.
  pub key_parts : (key_root (new_block_slot_key r s) ≡ r) × (key_slot (new_block_slot_key r s) ≡ s)
  unfolding key_root key_slot new_block_slot_key
  key_parts = (
    take-append r (put_uint64 s) 32 (omega arith),
    rw (drop-append r (put_uint64 s) 32 (omega arith)) (uint64-put_uint64 s fits),
  )

-- Two keys are the same exactly when they have the same root and the same slot.
pub key-beq :
    (r q : Root) (s t : ℕ)
    → length r ≡ 32
    → length q ≡ 32
    → IsU64 s
    → IsU64 t
    → (new_block_slot_key r s == new_block_slot_key q t) ≡ (r == q && s == t)
key-beq r q s t hr hq hs ht = ground (
  arith,
  bytes_eq.same_iff (new_block_slot_key r s) (new_block_slot_key q t),
  bytes_eq.same_iff r q,
  key_parts r s hr hs,
  key_parts q t hq ht,
)
