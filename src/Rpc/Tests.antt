-- ===== src/Rpc/Tests.antt =====
-- The theorems about the reader at concrete inputs.
pub mod Messages
pub mod Chunks
pub mod Requests
use rumor.Base.{
  ℕ, zero, suc, ◌≡◌, refl, sym, List, [], ◌∷◌, ◌++◌, take, drop, replicate, length-take, Option,
  none, some, arith, false,
}
use rumor.Rpc.Stream.{Reader, Ordered, RpcError, eof}
use rumor.Rpc.BufLimit.{
  BufLimitReader, new_buf_limit_reader, read, read_limited, read_cut, fill_read, after_fill,
  copy_out, charge,
}
use rumor.Rpc.BufLimit.Facts.{IsValid, pending}
use rumor.Rpc.BufLimit.Contract.{Charged, read_conserves, read-Charged, read_miscounts}

-- A reader of a fixed content that gives io.EOF together with its last bytes.
abbrev end_of : List ℕ → Option RpcError
end_of [] = some eof
end_of (x ∷ xs) = none

abbrev slice_reader : Reader
slice_reader = record {
  Source = List ℕ;
  read = λ s n. (take n s, end_of (drop n s), drop n s);
  read_bounded = λ s n. omega (arith, length-take n s);
}

slice_Ordered : (s : List ℕ) (n : ℕ) → s ≡ take n s ++ drop n s
slice_Ordered [] zero = refl
slice_Ordered [] (suc n) = refl
slice_Ordered (x ∷ xs) zero = refl
slice_Ordered (x ∷ xs) (suc n) = rw (sym (slice_Ordered xs n)) refl

abbrev slice_order : Ordered slice_reader
slice_order = record { content = λ s. s; in_order = slice_Ordered }

abbrev five : BufLimitReader slice_reader
five = record {
  buf = replicate 4 0;
  source = 1 ∷ 2 ∷ 3 ∷ 4 ∷ 5 ∷ [];
  r = 0;
  w = 0;
  limit = 3;
  per_read = false;
}

abbrev three : BufLimitReader slice_reader
three = record {
  buf = replicate 4 0;
  source = 1 ∷ 2 ∷ 3 ∷ [];
  r = 0;
  w = 0;
  limit = 9;
  per_read = false;
}

five-IsValid : IsValid five
five-IsValid = omega arith

three_made : new_buf_limit_reader slice_reader (1 ∷ 2 ∷ 3 ∷ []) 4 9 ≡ three
unfolding new_buf_limit_reader
three_made = refl

-- Three bytes are buffered, two of them are handed out.
five_read :
    ((read slice_reader five 2).0.copied ≡ 1 ∷ 2 ∷ []) × ((read slice_reader five 2).1.limit ≡ 1)
unfolding read read_limited read_cut fill_read after_fill copy_out charge
five_read = (refl, refl)

read_conserves_example :
    1 ∷ 2 ∷ 3 ∷ 4 ∷ 5 ∷ []
    ≡ (read slice_reader five 2).0.copied
      ++ pending slice_reader slice_order (read slice_reader five 2).1
read_conserves_example = read_conserves slice_reader slice_order five 2 five-IsValid
