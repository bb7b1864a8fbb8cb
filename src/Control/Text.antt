-- ===== src/Control/Text.antt =====
-- Go strings as bytes, with what control/*.go uses of package strings and of the verb %d.
pub mod Facts
use Prim.Native.Char.{code}
use Prim.Native.String.{String}
use rumor.Base.{
  ℕ, zero, suc, ◌+◌, ◌-◌, ◌/◌, ◌%◌, Bool, true, false, ◌&&◌, List, [], ◌∷◌, ◌++◌, length, drop,
  Option, none, some, nat_beq, ltb, leb, ◌==◌, bytes_eq, nat_eq, if◌then◌else◌,
}

abbrev pub Text : Type 0
Text = List ℕ

-- The bytes of an ASCII literal.
abbrev pub bytes : String → Text
bytes String.[] = []
bytes (String.◌∷◌ c s) = code c ∷ bytes s

-- strings.HasPrefix
unfoldable pub has_prefix : Text → Text → Bool
has_prefix s [] = true
has_prefix [] (p ∷ ps) = false
has_prefix (x ∷ s) (p ∷ ps) = nat_beq x p && has_prefix s ps

-- strings.HasSuffix
unfoldable pub has_suffix : Text → Text → Bool
has_suffix s suffix =
    leb (length suffix) (length s) && (drop (length s - length suffix) s == suffix)

-- The decimal digits of a number, in front of others.
unfoldable pub digits : (fuel : ℕ) → ℕ → Text → Text
digits zero n out = out
digits (suc fuel) n out =
    let c = n % 10 + 48 in
    let rest = digits fuel (n / 10) (c ∷ out) in if ltb n 10 then c ∷ out else rest

-- %d of a uint64, which has twenty digits at most.
abbrev pub decimal : ℕ → Text
decimal n = digits 20 n []
