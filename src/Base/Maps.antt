-- ===== src/Base/Maps.antt =====
-- Go's `map[K]map[V]struct{}` with numbers for keys and values: a list of entries, each a key with the
-- values of its set. A lookup of a key that has no entry is the empty set, as in Go.
use Prim.Native.Nat.{ℕ}
use mathlib.Core.Path.{◌≡◌, refl, ◌∙◌}
use mathlib.Core.Logic.{◌≢◌, inl, inr}
use mathlib.Core.Bool.{Bool, false, not, ◌&&◌, ◌||◌}
use mathlib.Core.List.{List, [], ◌∷◌, ◌++◌}
use native.Mathlib.Omega.{arith}
use meshserver.Base.Tests.{◌==◌, if◌then◌else◌, Bool-cases}
use meshserver.Base.Lists.{All}

abbrev pub SetMap : Type 0
SetMap = List (ℕ × List ℕ)

unfoldable pub elem : ℕ → List ℕ → Bool
elem v [] = false
elem v (x ∷ xs) = (x == v) || elem v xs

-- `set[v] = struct{}{}`
unfoldable pub adjoin : ℕ → List ℕ → List ℕ
adjoin v xs = if elem v xs then xs else xs ++ v ∷ []

-- `delete(set, v)`
unfoldable pub discard : ℕ → List ℕ → List ℕ
discard v [] = []
discard v (x ∷ xs) = let rest = discard v xs in if x == v then rest else x ∷ rest

-- The values under a key.
unfoldable pub members : ℕ → SetMap → List ℕ
members k [] = []
members k ((k', vs) ∷ m) = let rest = members k m in if k' == k then vs ++ rest else rest

unfoldable pub contains : ℕ → ℕ → SetMap → Bool
contains k v m = elem v (members k m)

-- Adds to the set of a key, which is made if there is none.
unfoldable pub add : ℕ → ℕ → SetMap → SetMap
add k v [] = (k, v ∷ []) ∷ []
add k v ((k', vs) ∷ m) =
    let rest = add k v m in if k' == k then (k', adjoin v vs) ∷ m else (k', vs) ∷ rest

-- An entry whose set became empty is deleted.
abbrev keep_entry : ℕ → List ℕ → SetMap → SetMap
keep_entry k [] m = m
keep_entry k (x ∷ xs) m = (k, x ∷ xs) ∷ m

-- Deletes a value from the set of a key, and the entry if that leaves nothing.
unfoldable pub remove : ℕ → ℕ → SetMap → SetMap
remove k v [] = []
remove k v ((k', vs) ∷ m) =
    let rest = remove k v m in
    if k' == k then keep_entry k' (discard v vs) rest else (k', vs) ∷ rest

-- Deletes a value from every set.
unfoldable pub remove_everywhere : ℕ → SetMap → SetMap
remove_everywhere v [] = []
remove_everywhere v ((k, vs) ∷ m) = keep_entry k (discard v vs) (remove_everywhere v m)

pub elem-append : (v : ℕ) (xs ys : List ℕ) → elem v (xs ++ ys) ≡ (elem v xs || elem v ys)
unfolding elem
elem-append v [] ys = refl
elem-append v (x ∷ xs) ys = ground (arith, elem-append v xs ys)

pub elem-adjoin : (v w : ℕ) (xs : List ℕ) → elem w (adjoin v xs) ≡ ((w == v) || elem w xs)
unfolding adjoin
elem-adjoin v w xs = elim (Bool-cases (elem v xs)) [
  | inl e ↦ elim (Bool-cases (w == v)) [
    | inl same ↦ let p : w ≡ v = ground (arith, same) in rw p (ground (arith, e))
    | inr other ↦ ground (arith, e, other)
  ]
  | inr e ↦ rw e (elem-append w xs (v ∷ []) ∙ (unfold elem in ground arith))
]

pub elem-discard : (v w : ℕ) (xs : List ℕ) → elem w (discard v xs) ≡ (not (w == v) && elem w xs)
unfolding elem discard
elem-discard v w [] = ground arith
elem-discard v w (x ∷ xs) = ground (arith, elem-discard v w xs)

contains-cons :
    (k v j : ℕ) (vs : List ℕ) (m : SetMap)
    → contains k v ((j, vs) ∷ m) ≡ ((j == k) && elem v vs || contains k v m)
unfolding contains members
contains-cons k v j vs m = ground (arith, elem-append v vs (members k m))

contains-keep_entry :
    (k v j : ℕ) (vs : List ℕ) (m : SetMap)
    → contains k v (keep_entry j vs m) ≡ ((j == k) && elem v vs || contains k v m)
contains-keep_entry k v j [] m = unfold elem in ground arith
contains-keep_entry k v j (x ∷ xs) m = contains-cons k v j (x ∷ xs) m

pub contains-nil : (k v : ℕ) → contains k v [] ≡ false
unfolding contains members elem
contains-nil k v = refl

pub contains-add :
    (k v k' v' : ℕ) (m : SetMap)
    → contains k' v' (add k v m) ≡ ((k == k') && (v == v') || contains k' v' m)
unfolding add
contains-add k v k' v' [] =
    contains-cons k' v' k (v ∷ []) [] ∙ rw (contains-nil k' v') (unfold elem in ground arith)
contains-add k v k' v' ((j, vs) ∷ m) = ground (
  arith,
  contains-cons k' v' j vs m,
  contains-cons k' v' j (adjoin v vs) m,
  contains-cons k' v' j vs (add k v m),
  elem-adjoin v v' vs,
  contains-add k v k' v' m,
)

pub contains-remove :
    (k v k' v' : ℕ) (m : SetMap)
    → contains k' v' (remove k v m) ≡ (not ((k == k') && (v == v')) && contains k' v' m)
unfolding remove
contains-remove k v k' v' [] = rw (contains-nil k' v') (ground arith)
contains-remove k v k' v' ((j, vs) ∷ m) = ground (
  arith,
  contains-cons k' v' j vs m,
  contains-keep_entry k' v' j (discard v vs) (remove k v m),
  contains-cons k' v' j vs (remove k v m),
  elem-discard v v' vs,
  contains-remove k v k' v' m,
)

pub contains-remove_everywhere :
    (v k' v' : ℕ) (m : SetMap)
    → contains k' v' (remove_everywhere v m) ≡ (not (v == v') && contains k' v' m)
unfolding remove_everywhere
contains-remove_everywhere v k' v' [] = rw (contains-nil k' v') (ground arith)
contains-remove_everywhere v k' v' ((j, vs) ∷ m) = ground (
  arith,
  contains-cons k' v' j vs m,
  contains-keep_entry k' v' j (discard v vs) (remove_everywhere v m),
  elem-discard v v' vs,
  contains-remove_everywhere v k' v' m,
)

-- No entry has an empty set.
abbrev pub HasNoEmptySet : SetMap → Type 0
HasNoEmptySet = All (λ (e : ℕ × List ℕ). e.1 ≢ [])

adjoin-nonempty : (v : ℕ) (xs : List ℕ) → xs ≢ [] → adjoin v xs ≢ []
unfolding adjoin
adjoin-nonempty v [] h = absurd (h refl)
adjoin-nonempty v (x ∷ xs) h = ground arith

pub add-HasNoEmptySet : (k v : ℕ) (m : SetMap) → HasNoEmptySet m → HasNoEmptySet (add k v m)
unfolding add
add-HasNoEmptySet k v [] h = ((λ e. cc e), tt)
add-HasNoEmptySet k v ((j, vs) ∷ m) h = elim (Bool-cases (j == k)) [
  | inl e ↦ rw e (adjoin-nonempty v vs h.0, h.1)
  | inr e ↦ rw e (h.0, add-HasNoEmptySet k v m h.1)
]

keep_entry-HasNoEmptySet :
    (k : ℕ) (vs : List ℕ) (m : SetMap) → HasNoEmptySet m → HasNoEmptySet (keep_entry k vs m)
keep_entry-HasNoEmptySet k [] m h = h
keep_entry-HasNoEmptySet k (x ∷ xs) m h = ((λ e. cc e), h)

pub remove-HasNoEmptySet : (k v : ℕ) (m : SetMap) → HasNoEmptySet m → HasNoEmptySet (remove k v m)
unfolding remove
remove-HasNoEmptySet k v [] h = tt
remove-HasNoEmptySet k v ((j, vs) ∷ m) h = elim (Bool-cases (j == k)) [
  | inl e ↦ rw e (keep_entry-HasNoEmptySet j (discard v vs) _ (remove-HasNoEmptySet k v m h.1))
  | inr e ↦ rw e (h.0, remove-HasNoEmptySet k v m h.1)
]

pub remove_everywhere-HasNoEmptySet :
    (v : ℕ) (m : SetMap) → HasNoEmptySet m → HasNoEmptySet (remove_everywhere v m)
unfolding remove_everywhere
remove_everywhere-HasNoEmptySet v [] h = tt
remove_everywhere-HasNoEmptySet v ((j, vs) ∷ m) h =
    keep_entry-HasNoEmptySet j (discard v vs) _ (remove_everywhere-HasNoEmptySet v m h.1)
