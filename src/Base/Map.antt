-- ===== src/Base/Map.antt =====
-- Go's maps, also sync.Map: at most one value for each key. Clients use the laws.
use Prim.Native.Nat.{ℕ, suc, ◌≤◌, ◌<◌}
use mathlib.Core.Path.{◌≡◌, refl, sym, ap, ◌∙◌}
use mathlib.Core.Logic.{◌⊎◌, inl, inr}
use mathlib.Core.Bool.{Bool, true, false, ◌||◌}
use mathlib.Core.Option.{Option, none, some}
use mathlib.Core.List.{List, [], ◌∷◌, map}
use native.Mathlib.Omega.{arith}
use rumor.Base.Compare.{Comparable, ◌==◌, if◌then◌else◌, beq_refl, Bool-cases}
use rumor.Base.Lists.{length}

pub record Map {ℓ} (K : Type 0) (V : Type ℓ) : Type ℓ where
  entries : List (K × V)

module _ {K : Type 0} ⦃e : Comparable K⦄ where
  unfoldable pub holds : List K → K → Bool
  holds [] k = false
  holds (j ∷ js) k = j == k || holds js k

module _ {ℓ} {K : Type 0} {V : Type ℓ} ⦃e : Comparable K⦄ where
  find : K → List (K × V) → Option V
  find k [] = none
  find k ((j, v) ∷ m) = if j == k then some v else find k m

  without : K → List (K × V) → List (K × V)
  without k [] = []
  without k ((j, v) ∷ m) = let rest = without k m in if j == k then rest else (j, v) ∷ rest

  find-without :
      (k j : K) (m : List (K × V)) → find j (without k m) ≡ (if k == j then none else find j m)
  unfolding find without
  find-without k j [] = ground arith
  find-without k j ((i, v) ∷ m) =
      ground (arith, find-without k j m, e.same_iff i k, e.same_iff i j, e.same_iff k j)

  length-without : (k : K) (m : List (K × V)) → length (without k m) ≤ length m
  unfolding without
  length-without k [] = omega arith
  length-without k ((j, v) ∷ m) = ground (arith, length-without k m)

  length-without_lt :
      (k : K) (m : List (K × V)) (v : V) → find k m ≡ some v → length (without k m) < length m
  unfolding find without
  length-without_lt k [] v h = cc
  length-without_lt k ((j, w) ∷ m) v h = ground (arith, length-without k m, length-without_lt k m v)

  unfoldable pub empty : Map K V
  empty = record { entries = [] }

  -- `v, ok := m[k]`
  unfoldable pub get : Map K V → K → Option V
  unfolding find
  get m k = find k m.entries

  -- What a key stands for once these pairs are assigned in their order: its last value.
  unfoldable pub last_value : K → List (K × V) → Option V → Option V
  last_value k [] found = found
  last_value k ((j, v) ∷ m) found = last_value k m (if j == k then some v else found)

  -- `m[k] = v`
  unfoldable pub put : Map K V → K → V → Map K V
  unfolding without
  put m k v = record { entries = (k, v) ∷ without k m.entries }

  -- `delete(m, k)`
  unfoldable pub delete : Map K V → K → Map K V
  unfolding without
  delete m k = record { entries = without k m.entries }

  unfoldable pub size : Map K V → ℕ
  size m = length m.entries

  -- The keys in the order in which `Range` meets them.
  unfoldable pub keys : Map K V → List K
  keys m = map (λ p. p.0) m.entries

  pub get-empty : (k : K) → get empty k ≡ none
  unfolding get empty
  get-empty k = refl

  pub get-put :
      (m : Map K V) (k j : K) (v : V) → get (put m k v) j ≡ (if k == j then some v else get m j)
  unfolding get put
  get-put m k j v = ground (arith, find-without k j m.entries)

  pub get-delete : (m : Map K V) (k j : K) → get (delete m k) j ≡ (if k == j then none else get m j)
  unfolding get delete
  get-delete m k j = find-without k j m.entries

  -- What is found after a write was written or was there before, and after a removal it was there.
  pub get-put_cases :
      (m : Map K V) (k j : K) (v w : V)
      → get (put m k v) j ≡ some w
      → ((k ≡ j) × (v ≡ w)) ⊎ (get m j ≡ some w)
  get-put_cases m k j v w h = elim (Bool-cases (k == j)) [
    | inl t ↦
        let found : some v ≡ some w = (rw (get-put, t) at h) in inl ((e.same_iff k j).0 t, (cc))
    | inr f ↦ inr (rw (get-put, f) at h)
  ]

  pub get-of_delete :
      (m : Map K V) (k j : K) (w : V)
      → get (delete m k) j ≡ some w
      → (get m j ≡ some w) × ((k == j) ≡ false)
  get-of_delete m k j w h = elim (Bool-cases (k == j)) [
    | inl t ↦ let gone : none ≡ some w = (rw (get-delete, t) at h) in absurd (cc)
    | inr f ↦ ((rw (get-delete, f) at h), f)
  ]

  pub get-put_self : (m : Map K V) (k : K) (v : V) → get (put m k v) k ≡ some v
  get-put_self m k v = rw (get-put, beq_refl k)

  pub size-delete : (m : Map K V) (k : K) (v : V) → get m k ≡ some v → size (delete m k) < size m
  unfolding size get delete
  size-delete m k v h = length-without_lt k m.entries v h

  find-of_not_key :
      (m : List (K × V)) (k : K) → holds (map (λ p. p.0) m) k ≡ false → find k m ≡ none
  unfolding find holds
  find-of_not_key [] k h = refl
  find-of_not_key ((j, v) ∷ m) k h = ground (arith, find-of_not_key m k)

  find-of_key :
      (m : List (K × V)) (k : K) → holds (map (λ p. p.0) m) k ≡ true → (v : V) × (find k m ≡ some v)
  unfolding find holds
  find-of_key [] k h = absurd (ground arith)
  find-of_key ((j, v) ∷ m) k h = elim (Bool-cases (j == k)) [
    | inl t ↦ (v, rw t)
    | inr f ↦ let (w, e) = find-of_key m k (rw f at h) in (w, rw f e)
  ]

  -- The keys are those that are found.
  pub get-of_not_key : (m : Map K V) (k : K) → holds (keys m) k ≡ false → get m k ≡ none
  unfolding keys get
  get-of_not_key m k h = find-of_not_key m.entries k h

  pub get-of_key : (m : Map K V) (k : K) → holds (keys m) k ≡ true → (v : V) × (get m k ≡ some v)
  unfolding keys get
  get-of_key m k h = find-of_key m.entries k h

  without_fresh : (k : K) (m : List (K × V)) → find k m ≡ none → without k m ≡ m
  unfolding find without
  without_fresh k [] h = refl
  without_fresh k ((j, v) ∷ m) h = elim (Bool-cases (j == k)) [
    | inl t ↦ let found : some v ≡ none = (rw t at h) in absurd (cc)
    | inr f ↦ rw f (ap (λ rest. (j, v) ∷ rest) (without_fresh k m (rw f at h)))
  ]

  -- No key stands twice in the list, as in a Go map.
  pub Unique : List (K × V) → Type ℓ
  Unique [] = Unit {ℓ}
  Unique ((k, v) ∷ m) = (find k m ≡ none) × Unique m

  without-Unique : (k : K) (m : List (K × V)) → Unique m → Unique (without k m)
  unfolding without Unique
  without-Unique k [] u = tt
  without-Unique k ((j, v) ∷ m) u = elim (Bool-cases (j == k)) [
    | inl t ↦ rw t (without-Unique k m u.1)
    | inr f ↦ rw f (ground (arith, find-without k j m, u.0), without-Unique k m u.1)
  ]

  length-without-Unique :
      (k : K) (m : List (K × V)) (v : V)
      → Unique m
      → find k m ≡ some v
      → suc (length (without k m)) ≡ length m
  unfolding find without Unique
  length-without-Unique k [] v u h = absurd (cc)
  length-without-Unique k ((j, w) ∷ m) v u h = elim (Bool-cases (j == k)) [
    | inl t ↦
        let same : find k m ≡ none = ap (λ i. find i m) (sym ((e.same_iff j k).0 t)) ∙ u.0 in
        rw t (ap (λ rest. suc (length rest)) (without_fresh k m same))
    | inr f ↦ rw f (ap suc (length-without-Unique k m v u.1 (rw f at h)))
  ]

  abbrev pub IsUnique : Map K V → Type ℓ
  IsUnique m = Unique m.entries

  pub empty-IsUnique : (m : Map K V) → m ≡ empty → IsUnique m
  unfolding empty Unique
  empty-IsUnique m h = rw h tt

  pub put-IsUnique : (m : Map K V) (k : K) (v : V) → IsUnique m → IsUnique (put m k v)
  unfolding put Unique
  put-IsUnique m k v u =
      (rw (find-without k k m.entries, beq_refl k) refl, without-Unique k m.entries u)

  pub delete-IsUnique : (m : Map K V) (k : K) → IsUnique m → IsUnique (delete m k)
  unfolding delete
  delete-IsUnique m k u = without-Unique k m.entries u

  pub size-put_new :
      (m : Map K V) (k : K) (v : V) → get m k ≡ none → size (put m k v) ≡ suc (size m)
  unfolding size put get
  size-put_new m k v h = ap (λ rest. suc (length rest)) (without_fresh k m.entries h)

  pub delete_fresh : (m : Map K V) (k : K) → get m k ≡ none → delete m k ≡ m
  unfolding delete get
  delete_fresh m k h = ap (λ es. record { entries = es }) (without_fresh k m.entries h)

  pub size-delete_unique :
      (m : Map K V) (k : K) (v : V)
      → IsUnique m
      → get m k ≡ some v
      → suc (size (delete m k)) ≡ size m
  unfolding size delete get
  size-delete_unique m k v u h = length-without-Unique k m.entries v u h

pub ruleset map_laws = (get-empty, get-put, get-delete)
