-- ===== src/Base/Sorting.antt =====
-- ORDER BY: a stable insertion sort of the selected rows by a Boolean order.
use Prim.Native.Nat.{ℕ, ◌≤◌, ◌<◌, ◌+◌}
use mathlib.Core.Path.{◌≡◌, refl, sym}
use mathlib.Core.Logic.{inl, inr, ◌≢◌}
use mathlib.Core.Bool.{Bool}
use mathlib.Core.List.{List, [], ◌∷◌}
use native.Mathlib.Omega.{arith}
use meshserver.Base.Tests.{if◌then◌else◌, leb, Bool-cases}
use meshserver.Base.Lists.{All, length}
use meshserver.Base.Tables.{count}

module _ {ℓ} {A : Type ℓ} where
  pub place : (A → A → Bool) → A → List A → List A
  place le x [] = x ∷ []
  place le x (y ∷ ys) = let rest = place le x ys in if le x y then x ∷ y ∷ ys else y ∷ rest

  unfoldable pub order_by : (A → A → Bool) → List A → List A
  unfolding place
  order_by le [] = []
  order_by le (x ∷ xs) = place le x (order_by le xs)

  -- ORDER BY a number, ascending.
  abbrev pub asc : (A → ℕ) → A → A → Bool
  asc key x y = leb (key x) (key y)

  -- ORDER BY a number, descending.
  abbrev pub desc : (A → ℕ) → A → A → Bool
  desc key x y = leb (key y) (key x)

  abbrev pub IsAscending : (A → ℕ) → List A → Type 0
  IsAscending key [] = Unit {0}
  IsAscending key (x ∷ xs) = All (λ y. key x ≤ key y) xs × IsAscending key xs

  -- No two rows share the key.
  abbrev pub HasDistinct : (A → ℕ) → List A → Type 0
  HasDistinct key [] = Unit {0}
  HasDistinct key (x ∷ xs) = All (λ y. key x ≢ key y) xs × HasDistinct key xs

  abbrev pub IsStrictlyAscending : (A → ℕ) → List A → Type 0
  IsStrictlyAscending key [] = Unit {0}
  IsStrictlyAscending key (x ∷ xs) = All (λ y. key x < key y) xs × IsStrictlyAscending key xs

module _ {ℓ κ} {A : Type ℓ} (P : A → Type κ) (le : A → A → Bool) where
  All-place : (x : A) (ys : List A) → P x → All P ys → All P (place le x ys)
  unfolding place
  All-place x [] hx hy = (hx, tt)
  All-place x (y ∷ ys) hx hy = elim (Bool-cases (le x y)) [
    | inl e ↦ rw e (hx, hy)
    | inr e ↦ rw e (hy.0, All-place x ys hx hy.1)
  ]

  pub All-order_by : (xs : List A) → All P xs → All P (order_by le xs)
  unfolding order_by
  All-order_by [] h = tt
  All-order_by (x ∷ xs) h = All-place x (order_by le xs) h.0 (All-order_by xs h.1)

module _ {ℓ} {A : Type ℓ} (le : A → A → Bool) where
  count-place : (p : A → Bool) (x : A) (ys : List A) → count p (place le x ys) ≡ count p (x ∷ ys)
  unfolding place count
  count-place p x [] = refl
  count-place p x (y ∷ ys) = ground (arith, count-place p x ys)

  -- Sorting moves rows, and neither drops nor doubles one.
  pub count-order_by : (p : A → Bool) (xs : List A) → count p (order_by le xs) ≡ count p xs
  unfolding order_by count
  count-order_by p [] = refl
  count-order_by p (x ∷ xs) = ground (arith, count-place p x (order_by le xs), count-order_by p xs)

  length-place : (x : A) (ys : List A) → length (place le x ys) ≡ length ys + 1
  unfolding place
  length-place x [] = omega arith
  length-place x (y ∷ ys) = ground (arith, length-place x ys)

  pub length-order_by : (xs : List A) → length (order_by le xs) ≡ length xs
  unfolding order_by
  length-order_by [] = refl
  length-order_by (x ∷ xs) = omega (arith, length-place x (order_by le xs), length-order_by xs)

module _ {ℓ} {A : Type ℓ} (key : A → ℕ) where
  All-le_trans : (a b : ℕ) (ys : List A) → a ≤ b → All (λ y. b ≤ key y) ys → All (λ y. a ≤ key y) ys
  All-le_trans a b [] h hs = tt
  All-le_trans a b (y ∷ ys) h hs = (omega arith, All-le_trans a b ys h hs.1)

  place-IsAscending :
      (x : A) (ys : List A) → IsAscending key ys → IsAscending key (place (asc key) x ys)
  unfolding place
  place-IsAscending x [] h = (tt, tt)
  place-IsAscending x (y ∷ ys) h = elim (Bool-cases (leb (key x) (key y))) [
    | inl e ↦ rw e (((ground arith), All-le_trans (key x) (key y) ys (ground arith) h.0), h)
    | inr e ↦ rw e (
      All-place (λ z. key y ≤ key z) (asc key) x ys (ground arith) h.0,
      place-IsAscending x ys h.1,
    )
  ]

  pub order_by-IsAscending : (xs : List A) → IsAscending key (order_by (asc key) xs)
  unfolding order_by
  order_by-IsAscending [] = tt
  order_by-IsAscending (x ∷ xs) =
      place-IsAscending x (order_by (asc key) xs) (order_by-IsAscending xs)

  place-HasDistinct :
      (x : A) (ys : List A)
      → All (λ y. key x ≢ key y) ys
      → HasDistinct key ys
      → HasDistinct key (place (asc key) x ys)
  unfolding place
  place-HasDistinct x [] hx h = (tt, tt)
  place-HasDistinct x (y ∷ ys) hx h = elim (Bool-cases (leb (key x) (key y))) [
    | inl e ↦ rw e (hx, h)
    | inr e ↦ rw e (
      All-place (λ z. key y ≢ key z) (asc key) x ys (λ e. hx.0 (sym e)) h.0,
      place-HasDistinct x ys hx.1 h.1,
    )
  ]

  pub order_by-HasDistinct :
      (xs : List A) → HasDistinct key xs → HasDistinct key (order_by (asc key) xs)
  unfolding order_by
  order_by-HasDistinct [] h = tt
  order_by-HasDistinct (x ∷ xs) h =
      place-HasDistinct x (order_by (asc key) xs)
        (All-order_by (λ y. key x ≢ key y) (asc key) xs h.0) (order_by-HasDistinct xs h.1)

  All-lt :
      (a : ℕ) (ys : List A)
      → All (λ y. a ≤ key y) ys
      → All (λ y. a ≢ key y) ys
      → All (λ y. a < key y) ys
  All-lt a [] h d = tt
  All-lt a (y ∷ ys) h d = (omega arith, All-lt a ys h.1 d.1)

  pub IsStrictlyAscending-of_distinct :
      (xs : List A) → IsAscending key xs → HasDistinct key xs → IsStrictlyAscending key xs
  IsStrictlyAscending-of_distinct [] h d = tt
  IsStrictlyAscending-of_distinct (x ∷ xs) h d =
      (All-lt (key x) xs h.0 d.0, IsStrictlyAscending-of_distinct xs h.1 d.1)
