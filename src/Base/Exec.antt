-- ===== src/Base/Exec.antt =====
-- Methods that change their receiver and may fail: what was written before an error stays written,
-- so the receiver comes back beside the error too.
pub mod Post
use rumor.Base.Go.{Result, ok, err, panic}

abbrev pub Exec : Type 0 → Type 0 → Type 0 → Type 0
Exec E S A = S → Result E A × S

pub pure : {E S A : Type 0} → A → Exec E S A
pure a s = (ok a, s)

pub throw : {E S A : Type 0} → E → Exec E S A
throw e s = (err e, s)

-- A call that reads no state, one that only reads it, and a write.
pub lift : {E S A : Type 0} → Result E A → Exec E S A
lift r s = (r, s)

pub query : {E S A : Type 0} → (S → Result E A) → Exec E S A
query f s = (f s, s)

pub modify : {E S : Type 0} → (S → S) → Exec E S (Unit {0})
modify f s = (ok tt, f s)

abbrev pub continue : {E S A B : Type 0} → Result E A → (A → Exec E S B) → Exec E S B
continue (ok a) f s = f a s
continue (err e) f s = (err e, s)
continue panic f s = (panic, s)

infixl 5 ◌>>=◌ ◌>>◌
-- To unfold this is to unfold the actions above too.
unfoldable pub ◌>>=◌ : {E S A B : Type 0} → Exec E S A → (A → Exec E S B) → Exec E S B
unfolding pure throw lift query modify
◌>>=◌ m f s = let (r, s') = m s in continue r f s'

abbrev pub ◌>>◌ : {E S B : Type 0} → Exec E S (Unit {0}) → Exec E S B → Exec E S B
m >> k = m >>= λ _. k
