-- ===== src/Control/Lines.antt =====
-- LinesReader of control/util.go: a stream of lines as a reader of bytes.
pub mod Facts
use rumor.Base.{
  ℕ, zero, suc, ◌-◌, Bool, true, false, ◌||◌, List, [], ◌∷◌, ◌++◌, length, take, drop, Option, none,
  some, nat_beq, leb, Result, if◌then◌else◌,
}
use rumor.Control.Text.{Text}

-- NextMultiLineFn, with what it reads from: the next lines without the last line break, or an error.
pub data Next (Source : Type 0) : Type 0 where
  line : Text → Source → Next Source
  failed : ℕ → Source → Next Source

abbrev pub newline : ℕ
newline = 10

unfoldable pub ends_line : Text → Bool
ends_line [] = false
ends_line (c ∷ []) = nat_beq c newline
ends_line (c ∷ d ∷ cs) = ends_line (d ∷ cs)

module _ {Source : Type 0} (fn : Source → Next Source) where
  pub record LinesReader : Type 0 where
    pub source : Source
    pub last : Text

  -- What has been written to `p`, and the error.
  pub record ReadLines : Type 0 where
    pub written : Text
    pub error : Option ℕ
    pub reader : LinesReader

  -- One round of the loop: Read returns, or goes on with more bytes in `p`.
  pub data Turn : Type 0 where
    returns : ReadLines → Turn
    goes_on : Text → LinesReader → Turn

  -- `sk := copy(p[n:], data)`, and the remainder is kept.
  unfoldable pub copy_line : ℕ → Text → Text → Source → Turn
  copy_line len p text source =
      goes_on (p ++ take (len - length p) text)
        (record { source = source; last = drop (len - length p) text })

  unfoldable pub fetched : ℕ → Text → Next Source → Turn
  unfolding copy_line
  fetched len p (line text source) = copy_line len p (text ++ (newline ∷ [])) source
  fetched len p (failed e source) =
      returns
        (record { written = p; error = some e; reader = record { source = source; last = [] } })

  unfoldable pub next_bytes : ℕ → Text → LinesReader → Turn
  unfolding copy_line fetched
  next_bytes len p lr = elim lr.last [
    | [] ↦ fetched len p (fn lr.source)
    | c ∷ cs ↦ copy_line len p (c ∷ cs) lr.source
  ]

  unfoldable pub turn : ℕ → Text → LinesReader → Turn
  unfolding next_bytes ends_line
  turn len p lr =
      if nat_beq len 0 || leb len (length p) || ends_line p
      then returns (record { written = p; error = none; reader = lr })
      else next_bytes len p lr

  unfoldable pub read_loop : (fuel : ℕ) → ℕ → Text → LinesReader → ReadLines
  unfolding turn
  read_loop zero len p lr = record { written = p; error = none; reader = lr }
  read_loop (suc fuel) len p lr = elim (turn len p lr) [
    | returns r ↦ r
    | goes_on p' lr' ↦ read_loop fuel len p' lr'
  ]

  -- Read into `len` bytes. Each round writes a byte at least.
  unfoldable pub read_lines : LinesReader → ℕ → ReadLines
  unfolding read_loop
  read_lines lr len = read_loop len len [] lr
