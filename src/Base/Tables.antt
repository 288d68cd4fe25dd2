-- ===== src/Base/Tables.antt =====
-- A database table is the list of its rows in the order of insertion. The source's SQL statements
-- are these functions: SELECT … WHERE … LIMIT 1 is `find`, COUNT(1) is `count`, UPDATE … WHERE is
-- `update_where`, DELETE … WHERE is `delete_where`, INSERT is `insert`.
use Prim.Native.Nat.{ℕ, suc, ◌+◌}
use mathlib.Core.Path.{◌≡◌, refl}
use mathlib.Core.Logic.{inl, inr}
use mathlib.Core.Bool.{Bool, true, false}
use mathlib.Core.Option
use mathlib.Core.Option.{Option, none, some}
use mathlib.Core.List.{List, [], ◌∷◌, ◌++◌}
use native.Mathlib.Omega.{arith}
use meshserver.Base.Tests.{if◌then◌else◌, Bool-cases}
use meshserver.Base.Lists.{length, All}

module _ {ℓ} {A : Type ℓ} where
  unfoldable pub find : (A → Bool) → List A → Option A
  find p [] = none
  find p (x ∷ xs) = if p x then some x else find p xs

  unfoldable pub select : (A → Bool) → List A → List A
  select p [] = []
  select p (x ∷ xs) = let rest = select p xs in if p x then x ∷ rest else rest

  unfoldable pub count : (A → Bool) → List A → ℕ
  count p [] = 0
  count p (x ∷ xs) = let rest = count p xs in if p x then suc rest else rest

  unfoldable pub update_where : (A → Bool) → (A → A) → List A → List A
  update_where q f [] = []
  update_where q f (x ∷ xs) = (if q x then f x else x) ∷ update_where q f xs

  unfoldable pub delete_where : (A → Bool) → List A → List A
  delete_where q [] = []
  delete_where q (x ∷ xs) = let rest = delete_where q xs in if q x then rest else x ∷ rest

  abbrev pub insert : A → List A → List A
  insert x xs = xs ++ x ∷ []

  abbrev pub or_else : Option A → Option A → Option A
  or_else none o = o
  or_else (some x) o = some x

  pub find-insert :
      (p : A → Bool) (x : A) (xs : List A)
      → find p (insert x xs) ≡ or_else (find p xs) (if p x then some x else none)
  unfolding find
  find-insert p x [] = refl
  find-insert p x (y ∷ xs) = ground (arith, find-insert p x xs)

  -- An update that does not move rows in or out of `p`, read back row by row.
  pub find-update_where :
      (p q : A → Bool) (f : A → A) (xs : List A)
      → ((x : A) → p (f x) ≡ p x)
      → find p (update_where q f xs) ≡ Option.map (λ x. if q x then f x else x) (find p xs)
  unfolding find update_where
  find-update_where p q f [] h = refl
  find-update_where p q f (x ∷ xs) h = ground (arith, find-update_where p q f xs h, h x)

  pub find-delete_where_ne :
      (p q : A → Bool) (xs : List A)
      → ((x : A) → p x ≡ true → q x ≡ false)
      → find p (delete_where q xs) ≡ find p xs
  unfolding find delete_where
  find-delete_where_ne p q [] h = refl
  find-delete_where_ne p q (x ∷ xs) h = ground (arith, find-delete_where_ne p q xs h, h x)

  pub find-delete_where_all :
      (p q : A → Bool) (xs : List A)
      → ((x : A) → p x ≡ true → q x ≡ true)
      → find p (delete_where q xs) ≡ none
  unfolding find delete_where
  find-delete_where_all p q [] h = refl
  find-delete_where_all p q (x ∷ xs) h = ground (arith, find-delete_where_all p q xs h, h x)

  -- What `find` returns satisfies its condition.
  pub find-holds : (p : A → Bool) (xs : List A) {x : A} → find p xs ≡ some x → p x ≡ true
  unfolding find
  find-holds p [] e = cc
  find-holds p (y ∷ xs) {x} e = elim (Bool-cases (p y)) [
    | inl hit ↦ ground (arith, hit)
    | inr miss ↦ find-holds p xs (ground arith)
  ]

  pub count-insert :
      (p : A → Bool) (x : A) (xs : List A)
      → count p (insert x xs) ≡ count p xs + (if p x then 1 else 0)
  unfolding count
  count-insert p x [] = ground arith
  count-insert p x (y ∷ xs) = ground (arith, count-insert p x xs)

  pub count-update_where :
      (p q : A → Bool) (f : A → A) (xs : List A)
      → ((x : A) → q x ≡ true → p (f x) ≡ p x)
      → count p (update_where q f xs) ≡ count p xs
  unfolding count update_where
  count-update_where p q f [] h = refl
  count-update_where p q f (x ∷ xs) h = ground (arith, count-update_where p q f xs h, h x)

  pub count-delete_where_ne :
      (p q : A → Bool) (xs : List A)
      → ((x : A) → q x ≡ true → p x ≡ false)
      → count p (delete_where q xs) ≡ count p xs
  unfolding count delete_where
  count-delete_where_ne p q [] h = refl
  count-delete_where_ne p q (x ∷ xs) h = ground (arith, count-delete_where_ne p q xs h, h x)

  pub count-ext : (p q : A → Bool) (xs : List A) → ((x : A) → p x ≡ q x) → count p xs ≡ count q xs
  unfolding count
  count-ext p q [] h = refl
  count-ext p q (x ∷ xs) h = ground (arith, count-ext p q xs h, h x)

  -- Every selected row satisfies the condition.
  pub select-All : (p : A → Bool) (xs : List A) → All (λ x. p x ≡ true) (select p xs)
  unfolding select
  select-All p [] = tt
  select-All p (x ∷ xs) = ground (arith, select-All p xs)

  pub length-select : (p : A → Bool) (xs : List A) → length (select p xs) ≡ count p xs
  unfolding select count
  length-select p [] = refl
  length-select p (x ∷ xs) = ground (arith, length-select p xs)
