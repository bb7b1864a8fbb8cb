-- ===== src/Rpc/Request/Limits.antt =====
-- Which size limits the stream handler of p2p/rpc/reqresp/handle_request.go keeps and gives its readers.
use rumor.Base.{ℕ, ◌≤◌, ◌<◌, ◌≡◌, ◌^◌, refl, sym, ap, ◌∙◌, ◌⊎◌, inl, inr, Option, none, some, arith}
use rumor.Rpc.Stream.{RpcError}
use rumor.Rpc.Compression.{Compression}
use rumor.Rpc.Request.{adjust_limit, int_limit, body_limit}

-- `int(v)` of a limit, where a negative limit admits nothing, as 0 does.
abbrev AsInt : (v limit : ℕ) → Type 0
AsInt v limit = ((v < 2 ^ 63) × (limit ≡ v)) ⊎ ((2 ^ 63 ≤ v) × (limit ≡ 0))

-- The limit that is kept after a request with the old limit `max`, and the limit of the reader.
unfoldable pub Limits : Option Compression → (max kept limit : ℕ) → Type 0
Limits none max kept limit = (kept ≡ max) × AsInt max limit
Limits (some c) max kept limit =
    (c.max_encoded_len max ≡ inl kept)
    × (((v : ℕ) × (c.max_encoded_len kept ≡ inl v) × AsInt v limit)
        ⊎ ((e : RpcError) × (c.max_encoded_len kept ≡ inr e) × AsInt kept limit))

pub Limits-adjust_limit :
    (comp : Option Compression) (max kept limit : ℕ)
    → Limits comp max kept limit
    → adjust_limit comp max ≡ (none, kept)
unfolding adjust_limit Limits
Limits-adjust_limit none max kept limit (same, _) = ap (λ m. (none, m)) (sym same)
Limits-adjust_limit (some c) max kept limit (first, _) = rw first refl

int_limit-AsInt : (v limit : ℕ) → AsInt v limit → int_limit v ≡ limit
unfolding int_limit
int_limit-AsInt v limit h = ground arith

pub Limits-body_limit :
    (comp : Option Compression) (max kept limit : ℕ)
    → Limits comp max kept limit
    → body_limit comp kept ≡ limit
unfolding body_limit Limits
Limits-body_limit none max kept limit (same, as_int) =
    ap int_limit same ∙ int_limit-AsInt max limit as_int
Limits-body_limit (some c) max kept limit (first, inl (v, second, as_int)) =
    rw second (int_limit-AsInt v limit as_int)
Limits-body_limit (some c) max kept limit (first, inr (e, second, as_int)) =
    rw second (int_limit-AsInt kept limit as_int)
