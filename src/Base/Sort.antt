-- ===== src/Base/Sort.antt =====
-- Python's `sorted` with a numeric key: stable, ascending.
use ecommerce_platform.Base.Tests.{◌==◌, Bool-cases, leb, if◌then◌else◌}
use mathlib.Core.Logic.{inl, inr}
use ecommerce_platform.Base.Int.{ℤ, ◌+ℤ◌, sum, +ℤ_left_comm}
use Prim.Native.Nat.{◌+◌, ℕ, ◌≤◌}
use mathlib.Core.List.{List, [], ◌∷◌, map}
use mathlib.Core.Path.{ap, ◌∙◌, ◌≡◌, refl}
use native.Mathlib.Omega.{arith}

module _ {ℓ} {A : Type ℓ} (key : A → ℕ) where
  unfoldable pub insert : A → List A → List A
  insert x [] = x ∷ []
  insert x (y ∷ ys) =
      let later = insert x ys in if leb (key x) (key y) then x ∷ y ∷ ys else y ∷ later

  unfoldable pub sorted : List A → List A
  unfolding insert
  sorted [] = []
  sorted (x ∷ xs) = insert x (sorted xs)

  -- Every key is at least `k`.
  abbrev pub AtLeast : ℕ → List A → Type 0
  AtLeast k [] = Unit
  AtLeast k (x ∷ xs) = (k ≤ key x) × AtLeast k xs

  abbrev pub IsSorted : List A → Type 0
  IsSorted [] = Unit
  IsSorted (x ∷ xs) = AtLeast (key x) xs × IsSorted xs

  AtLeast-insert :
      (k : ℕ) (x : A) (xs : List A) → k ≤ key x → AtLeast k xs → AtLeast k (insert x xs)
  unfolding insert
  AtLeast-insert k x [] h t = (h, tt)
  AtLeast-insert k x (y ∷ ys) h t = ground (arith, AtLeast-insert k x ys h t.1)

  AtLeast-weaken : (j k : ℕ) (xs : List A) → j ≤ k → AtLeast k xs → AtLeast j xs
  AtLeast-weaken j k [] h t = tt
  AtLeast-weaken j k (x ∷ xs) h t = (omega arith, AtLeast-weaken j k xs h t.1)

  insert-IsSorted : (x : A) (xs : List A) → IsSorted xs → IsSorted (insert x xs)
  unfolding insert
  insert-IsSorted x [] s = (tt, tt)
  insert-IsSorted x (y ∷ ys) s = ground (
    arith,
    insert-IsSorted x ys s.1,
    AtLeast-weaken (key x) (key y) ys,
    AtLeast-insert (key y) x ys,
  )

  pub sorted-IsSorted : (xs : List A) → IsSorted (sorted xs)
  unfolding sorted
  sorted-IsSorted [] = tt
  sorted-IsSorted (x ∷ xs) = insert-IsSorted x (sorted xs) (sorted-IsSorted xs)

  -- Sorting keeps the sum of any measure of the elements.
  sum-insert : (f : A → ℤ) (x : A) (xs : List A) → sum (map f (insert x xs)) ≡ f x +ℤ sum (map f xs)
  unfolding insert sum
  sum-insert f x [] = refl
  sum-insert f x (y ∷ ys) = elim (Bool-cases (leb (key x) (key y))) [
    | inl first ↦ rw first
    | inr later ↦ rw (later, sum-insert f x ys) (+ℤ_left_comm (f y) (f x) (sum (map f ys)))
  ]

  pub sum-sorted : (f : A → ℤ) (xs : List A) → sum (map f (sorted xs)) ≡ sum (map f xs)
  unfolding sorted sum
  sum-sorted f [] = refl
  sum-sorted f (x ∷ xs) = sum-insert f x (sorted xs) ∙ ap (λ t. f x +ℤ t) (sum-sorted f xs)

  -- How many elements have the key `k`.
  abbrev pub count : ℕ → List A → ℕ
  count k [] = 0
  count k (x ∷ xs) = (if key x == k then 1 else 0) + count k xs

  count-insert : (k : ℕ) (x : A) (xs : List A) → count k (insert x xs) ≡ count k (x ∷ xs)
  unfolding insert
  count-insert k x [] = refl
  count-insert k x (y ∷ ys) = ground (arith, count-insert k x ys)

  pub count-sorted : (k : ℕ) (xs : List A) → count k (sorted xs) ≡ count k xs
  unfolding sorted
  count-sorted k [] = refl
  count-sorted k (x ∷ xs) = omega (arith, count-insert k x (sorted xs), count-sorted k xs)
