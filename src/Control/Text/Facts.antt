-- ===== src/Control/Text/Facts.antt =====
-- Decimal numbers in the names that control/*.go makes up are told apart.
use rumor.Base.{
  ℕ, zero, suc, ◌+◌, ◌-◌, ◌*◌, ◌/◌, ◌%◌, ◌^◌, ◌≤◌, ◌<◌, ◌≡◌, refl, sym, ap, ◌∙◌, true, [], ◌∷◌,
  ◌++◌, length, arith, ltb, Bool-cases, inl, inr, All, length-append, drop-append, bytes_eq,
  beq_refl, leb,
}
use rumor.Control.Text.{Text, digits, decimal, has_prefix, has_suffix}

-- The number that decimal digits stand for, behind those read before.
value : ℕ → Text → ℕ
value acc [] = acc
value acc (c ∷ cs) = value (acc * 10 + (c - 48)) cs

value-digits :
    (fuel n : ℕ) (out : Text) → n < 10 ^ suc fuel → value 0 (digits (suc fuel) n out) ≡ value n out
unfolding value digits
value-digits zero n out h = ground arith
value-digits (suc fuel) n out h = elim (Bool-cases (ltb n 10)) [
  | inl t ↦ rw t (ap (λ m. value m out) (ground arith))
  | inr f ↦ rw f (
      value-digits fuel (n / 10) ((n % 10 + 48) ∷ out) (omega arith)
      ∙ ap (λ m. value m out) (omega arith))
]

abbrev pub IsDigit : ℕ → Type 0
IsDigit c = (48 ≤ c) × (c ≤ 57)

digits-Digits : (fuel n : ℕ) (out : Text) → All IsDigit out → All IsDigit (digits fuel n out)
unfolding digits
digits-Digits zero n out h = h
digits-Digits (suc fuel) n out h = elim (Bool-cases (ltb n 10)) [
  | inl t ↦ rw t ((omega arith, omega arith), h)
  | inr f ↦ rw f (digits-Digits fuel (n / 10) ((n % 10 + 48) ∷ out) ((omega arith, omega arith), h))
]

pub decimal-Digits : (n : ℕ) → All IsDigit (decimal n)
decimal-Digits n = digits-Digits 20 n [] tt

pub decimal_injective : (m n : ℕ) → m < 2 ^ 64 → n < 2 ^ 64 → decimal m ≡ decimal n → m ≡ n
unfolding value
decimal_injective m n hm hn e =
    sym (value-digits 19 m [] (omega arith)) ∙ ap (value 0) e ∙ value-digits 19 n [] (omega arith)

-- What digits and a character that is none begin with tells both apart.
pub split_digits :
    (a b : Text) (c : ℕ) (x y : Text)
    → All IsDigit a
    → All IsDigit b
    → 57 < c
    → a ++ (c ∷ x) ≡ b ++ (c ∷ y)
    → (a ≡ b) × (x ≡ y)
split_digits [] [] c x y ha hb h e = (refl, cc)
split_digits [] (d ∷ b) c x y ha hb h e = let same : c ≡ d = cc in absurd (omega arith)
split_digits (d ∷ a) [] c x y ha hb h e = let same : d ≡ c = cc in absurd (omega arith)
split_digits (d ∷ a) (d' ∷ b) c x y ha hb h e =
    let (p, q) = split_digits a b c x y ha.1 hb.1 h (cc) in (cc, q)

pub has_suffix-append : (s suffix : Text) → has_suffix (s ++ suffix) suffix ≡ true
unfolding has_suffix
has_suffix-append s suffix =
    let n : length (s ++ suffix) - length suffix ≡ length s =
      ground (arith, length-append s suffix) in
    let fits : leb (length suffix) (length (s ++ suffix)) ≡ true =
      ground (arith, length-append s suffix) in
    rw (fits, drop-append s suffix (length (s ++ suffix) - length suffix) n) (beq_refl suffix)

pub has_prefix-append : (prefix s : Text) → has_prefix (prefix ++ s) prefix ≡ true
unfolding has_prefix
has_prefix-append [] s = refl
has_prefix-append (c ∷ prefix) s = ground (arith, has_prefix-append prefix s)
