-- ===== src/Rpc/Toy.antt =====
-- A closed stream and a chunk handler that reads its chunk byte by byte, to run the definitions on.
use rumor.Base.{
  ℕ, zero, suc, ◌-◌, ◌≤◌, ◌<◌, ◌≡◌, ◌≢◌, refl, ap, ◌∙◌, List, [], ◌∷◌, ◌++◌, length, take, drop,
  length-take, Option, none, some, arith, if◌then◌else◌,
}
use rumor.Rpc.Stream.{Reader, Ordered, Steady, RpcError, eof}
use rumor.Rpc.BufLimit.{BufLimitReader, read, read_byte}
use rumor.Rpc.BufLimit.Facts.{pending}
use rumor.Rpc.BufLimit.Progress.{read_byte_next, read_delivers}
use rumor.Rpc.Wire.{Chunk}
use rumor.Rpc.Response.{ChunkHandler}
use rumor.Rpc.Response.Facts.{IsOpen, Took, Exact}

-- A stream of these bytes, closed behind them.
abbrev pub read_closed : List ℕ → ℕ → List ℕ × Option RpcError × List ℕ
read_closed [] n = ([], some eof, [])
read_closed (x ∷ xs) n = (take n (x ∷ xs), none, drop n (x ∷ xs))

pub read_closed-bounded : (s : List ℕ) (n : ℕ) → length (read_closed s n).0 ≤ n
read_closed-bounded [] n = omega arith
read_closed-bounded (x ∷ xs) n = omega (arith, length-take n (x ∷ xs))

abbrev pub closed_stream : Reader
closed_stream = record { Source = List ℕ; read = read_closed; read_bounded = read_closed-bounded }

pub split_at : (n : ℕ) (s : List ℕ) → s ≡ take n s ++ drop n s
split_at zero [] = refl
split_at (suc n) [] = refl
split_at zero (x ∷ xs) = refl
split_at (suc n) (x ∷ xs) = ap (λ l. x ∷ l) (split_at n xs)

pub read_closed-order : (s : List ℕ) (n : ℕ) → s ≡ (read_closed s n).0 ++ (read_closed s n).2
read_closed-order [] n = refl
read_closed-order (x ∷ xs) n = split_at n (x ∷ xs)

abbrev pub closed_order : Ordered closed_stream
closed_order = record { content = λ s. s; in_order = read_closed-order }

pub read_closed_delivers :
    (s : List ℕ) (n : ℕ)
    → 0 < n
    → s ≢ []
    → ((read_closed s n).1 ≡ none) × (0 < length (read_closed s n).0)
read_closed_delivers [] n h more = elim (more refl) [ ]
read_closed_delivers (x ∷ xs) n h more = (refl, omega (arith, length-take n (x ∷ xs)))

pub read_closed_ends : (s : List ℕ) (n : ℕ) → s ≡ [] → (read_closed s n).1 ≡ some eof
read_closed_ends [] n e = refl
read_closed_ends (x ∷ xs) n e = cc

abbrev pub closed_steady : Steady closed_stream closed_order
closed_steady = record { delivers = read_closed_delivers; ends = read_closed_ends }

abbrev Read : Type 0
Read = (List ℕ × Option RpcError) × BufLimitReader closed_stream

-- That many bytes, one by one.
pub read_on :
    (again : BufLimitReader closed_stream → Read)
    → ℕ
    → Option RpcError
    → BufLimitReader closed_stream
    → Read
read_on again x (some e) b = (([], some e), b)
read_on again x none b = let ((xs, e), b') = again b in ((x ∷ xs, e), b')

unfoldable pub read_exactly : ℕ → BufLimitReader closed_stream → Read
unfolding read_on
read_exactly zero b = (([], none), b)
read_exactly (suc n) b =
    let ((x, e), b') = read_byte closed_stream b in read_on (read_exactly n) x e b'

-- The handler collects the chunks, the newest first.
abbrev pub collector : ChunkHandler closed_stream
collector = record {
  State = List (ℕ × Chunk);
  handle = λ index size code b s.
      let ((xs, e), b') = read_exactly size b in
      (e, b', (index, record { code = code; payload = xs }) ∷ s);
  close = λ s. (none, s);
}

read_exactly_takes :
    (p : List ℕ) (b : BufLimitReader closed_stream) (rest : List ℕ)
    → IsOpen b
    → length p ≤ b.limit
    → pending closed_stream closed_order b ≡ p ++ rest
    → ((read_exactly (length p) b).0 ≡ (p, none))
      × IsOpen (read_exactly (length p) b).1
      × (pending closed_stream closed_order (read_exactly (length p) b).1 ≡ rest)
unfolding read_exactly
read_exactly_takes [] b rest op h e = (refl, op, e)
read_exactly_takes (x ∷ xs) b rest op h e =
    let (byte, left, c) =
      read_byte_next closed_stream closed_order closed_steady b x (xs ++ rest) op.valid
        (omega arith) op.sized e in
    let b' = (read_byte closed_stream b).1 in
    let op' : IsOpen b' = record {
      valid = c.valid;
      mode = c.mode ∙ op.mode;
      sized = omega (arith, c.size, op.sized);
    } in
    let fewer : (if b.per_read then b.limit else b.limit - (read closed_stream b 1).0.n)
        ≡ b.limit - (read closed_stream b 1).0.n =
      rw op.mode refl in
    let fine =
      (read_delivers closed_stream closed_order closed_steady b 1 op.valid (omega arith)
        (omega arith) op.sized (λ none_left. cc)).0 in
    let one : (read closed_stream b 1).0.n ≤ 1 = omega (arith, c.counted fine, c.copied_within) in
    let enough : length xs ≤ b'.limit = omega (arith, c.charged ∙ fewer, one, h) in
    let (got, is_open, done) = read_exactly_takes xs b' rest op' enough left in
    rw (ap (λ p. p.0) byte, ap (λ p. p.1) byte)
      (rw (ap (λ p. p.0) got, ap (λ p. p.1) got) refl, is_open, done)

pub collector_takes :
    (index : ℕ) (c : Chunk) (b : BufLimitReader closed_stream) (s : List (ℕ × Chunk))
    (rest : List ℕ)
    → IsOpen b
    → length c.payload ≤ b.limit
    → pending closed_stream closed_order b ≡ c.payload ++ rest
    → Took closed_stream closed_order
        (List (ℕ × Chunk))
        (collector.handle index (length c.payload) c.code b s)
        rest
        ((index, c) ∷ s)
collector_takes index c b s rest op h e =
    let (got, is_open, left) = read_exactly_takes c.payload b rest op h e in
    record {
      fine = ap (λ p. p.1) got;
      is_open = is_open;
      left = left;
      state = ap (λ p. (index, record { code = c.code; payload = p.0 }) ∷ s) got;
    }

abbrev pub collector_exact : Exact closed_stream closed_order collector
collector_exact = record { step = λ s index c. (index, c) ∷ s; exact = collector_takes }
