-- ===== src/Base/Exec.antt =====
-- Errors as values, and calls on the state. A function of the source that returns `(T, error)`
-- returns a `Result`; a transaction's body also returns the tables that it would commit, and
-- `transaction` keeps them or rolls back; an `Exec` is a call whose writes stay after an error.
use mathlib.Core.Path.{◌≡◌, refl, ap, subst, ◌∙◌}
use mathlib.Core.Bool.{Bool, true, false}
use mathlib.Core.Option.{Option, none, some}
use meshserver.Base.Errors.{Error}

pub data Result {ℓ} (A : Type ℓ) : Type ℓ where
  ok : A → Result A
  err : Error → Result A

-- A query of one row, with the error for no row.
unfoldable pub or_err {ℓ} : {A : Type ℓ} → Option A → Error → Result A
or_err none e = err e
or_err (some a) e = ok a

-- `if err != nil { return err }`, and the rest of the function.
infixl 5 ◌>>=◌
unfoldable pub ◌>>=◌ {ℓ κ} :
    {A : Type ℓ} → {B : Type κ} → (r : Result A) → (A → Result B) → Result B
err why >>= rest = err why
ok value >>= rest = rest value

-- `if !cond { return err }`
unfoldable pub guard : Bool → Error → Result (Unit {0})
guard false why = err why
guard true why = ok tt

infixl 5 ◌>>◌
abbrev pub ◌>>◌ {ℓ} : {B : Type ℓ} → (r : Result (Unit {0})) → Result B → Result B
r >> rest = r >>= λ u. rest

abbrev pub Exec : Type 0 → Type 0 → Type 0
Exec S A = S → Result A × S

module _ {S A : Type 0} where
  -- BeginTxx, the body, and Commit, or none of its writes after an error. The deferred Rollback runs
  -- where the variable err holds the error. Where a check returns an error of its own while err is nil
  -- it does not run, and the tables are kept as well, since nothing commits; the row locks, which stay
  -- until the context of the call ends, are not modelled.
  abbrev pub transaction : (S → Result (A × S)) → Exec S A
  transaction body s = elim (body s) [ ok (a, s') ↦ (ok a, s') | err e ↦ (err e, s) ]

  -- A call that writes nothing.
  abbrev pub reads : (S → Result A) → Exec S A
  reads f s = (f s, s)

  abbrev pub value : A → Exec S A
  value a s = (ok a, s)

  abbrev pub fail : Error → Exec S A
  fail e s = (err e, s)

module _ {S A B : Type 0} where
  abbrev pub continue : (A → Exec S B) → Result A → S → Result B × S
  continue f (ok a) s = f a s
  continue f (err e) s = (err e, s)

  -- The next call of a function, made if the one before returned no error.
  abbrev pub and_then : Exec S A → (A → Exec S B) → Exec S B
  and_then m f s = continue f (m s).0 (m s).1

module _ {ℓ} {S A : Type 0} (P : S → Type ℓ) where
  -- A property that the body establishes when it succeeds holds after the transaction.
  pub transaction-keeps :
      (body : S → Result (A × S)) (s : S)
      → P s
      → ((a : A) (s' : S) → body s ≡ ok (a, s') → P s')
      → P (transaction body s).1
  transaction-keeps body s h keep = go (body s) refl
    where
      go :
          (r : Result (A × S))
          → body s ≡ r
          → P (elim r as (λ _. Result A × S) [ ok (a, s') ↦ (ok a, s') | err e ↦ (err e, s) ]).1
      go (ok (a, s')) e = keep a s' e
      go (err x) e = h

-- Inversion of a body that succeeded, one step at a time.
module _ {ℓ} {B : Type ℓ} where
  pub guard-ok :
      (b : Bool) (e : Error) (k : Result B) {x : B}
      → (guard b e >> k) ≡ ok x
      → (b ≡ true) × (k ≡ ok x)
  unfolding guard ◌>>=◌
  guard-ok true e k h = (refl, h)
  guard-ok false e k h = cc

  pub or_err-ok {κ} :
      {A : Type κ} (o : Option A) (e : Error) (f : A → Result B) {x : B}
      → (or_err o e >>= f) ≡ ok x
      → (a : A) × (o ≡ some a) × (f a ≡ ok x)
  unfolding or_err ◌>>=◌
  or_err-ok none e f h = cc
  or_err-ok (some a) e f h = (a, refl, h)

  pub bind-ok {κ} :
      {A : Type κ} (m : Result A) (f : A → Result B) {x : B}
      → (m >>= f) ≡ ok x
      → (a : A) × (m ≡ ok a) × (f a ≡ ok x)
  unfolding ◌>>=◌
  bind-ok (ok a) f h = (a, refl, h)
  bind-ok (err e) f h = cc

-- The committed tables of a body that ended in `ok (a, s)`.
pub ok-committed {ℓ} :
    {A : Type 0} {S : Type 0} (P : S → Type ℓ) {a b : A} {s t : S}
    → ◌≡◌ {A = Result (A × S)} (ok (a, s)) (ok (b, t))
    → P s
    → P t
ok-committed P h p = subst P (cc) p

-- A query behind a call leaves what the call wrote.
pub reads-keeps {ℓ} :
    {S A B : Type 0} (P : S → Type ℓ) (m : Exec S A) (f : A → S → Result B) (s : S)
    → P (m s).1
    → P (and_then m (λ a. reads (f a)) s).1
reads-keeps {S} {A} {B} P m f s h = go (m s).0
  where
    go : (r : Result A) → P (continue {A = A} (λ a. reads (f a)) r (m s).1).1
    go (ok a) = h
    go (err e) = h

-- A call that returned a value behind a commit: its body succeeded, and its tables are there.
pub committed :
    {S A B : Type 0} (body : S → Result (A × S)) (f : A → S → Result B) (s : S) {b : B}
    → (and_then (transaction body) (λ a. reads (f a)) s).0 ≡ ok b
    → (a : A) × (s' : S) × (body s ≡ ok (a, s'))
      × ((and_then (transaction body) (λ a. reads (f a)) s).1 ≡ s')
committed {S} {A} {B} body f s {b} h = go (body s) refl h
  where
    run : Result (A × S) → Result B × S
    run r =
        let t : Result A × S = elim r [ ok (a, s') ↦ (ok a, s') | err e ↦ (err e, s) ] in
        continue (λ a. reads (f a)) t.0 t.1

    go :
        (r : Result (A × S))
        → body s ≡ r
        → (run r).0 ≡ ok b
        → (a : A) × (s' : S) × (body s ≡ ok (a, s')) × ((run (body s)).1 ≡ s')
    go (ok (a, s')) e h = (a, s', e, rw e)
    go (err x) e h = cc

-- A transaction whose body is known.
module _ {S A : Type 0} (body : S → Result (A × S)) (s : S) where
  pub transaction-ok : {a : A} {s' : S} → body s ≡ ok (a, s') → transaction body s ≡ (ok a, s')
  transaction-ok e = ap outcome e
    where
      outcome : Result (A × S) → Result A × S
      outcome r = elim r [ ok (a, s') ↦ (ok a, s') | err e ↦ (err e, s) ]

  pub transaction-err : {e : Error} → body s ≡ err e → transaction body s ≡ (err e, s)
  transaction-err e = ap outcome e
    where
      outcome : Result (A × S) → Result A × S
      outcome r = elim r [ ok (a, s') ↦ (ok a, s') | err e ↦ (err e, s) ]

-- The call after one that is known.
module _ {S A B : Type 0} (m : Exec S A) (f : A → Exec S B) (s : S) where
  pub and_then-ok : {a : A} {s' : S} → m s ≡ (ok a, s') → and_then m f s ≡ f a s'
  and_then-ok e = ap (λ (r : Result A × S). continue f r.0 r.1) e

  pub and_then-err : {e : Error} {s' : S} → m s ≡ (err e, s') → and_then m f s ≡ (err e, s')
  and_then-err e = ap (λ (r : Result A × S). continue f r.0 r.1) e

-- A call behind a transaction that returned a value: the transaction committed.
pub committed_then :
    {S A B : Type 0} (body : S → Result (A × S)) (f : A → Exec S B) (s : S) {b : B}
    → (and_then (transaction body) f s).0 ≡ ok b
    → (a : A) × (s' : S) × (body s ≡ ok (a, s')) × (and_then (transaction body) f s ≡ f a s')
committed_then {S} {A} {B} body f s {b} h = go (body s) refl h
  where
    run : Result (A × S) → Result B × S
    run r =
        let t : Result A × S = elim r [ ok (a, s') ↦ (ok a, s') | err e ↦ (err e, s) ] in
        continue f t.0 t.1

    go :
        (r : Result (A × S))
        → body s ≡ r
        → (run r).0 ≡ ok b
        → (a : A) × (s' : S) × (body s ≡ ok (a, s')) × (run (body s) ≡ f a s')
    go (ok (a, s')) e h = (a, s', e, ap run e)
    go (err x) e h = cc

-- A transaction that returned a value: its body succeeded.
pub transaction-returns :
    {S A : Type 0} (body : S → Result (A × S)) (s : S) {a : A}
    → (transaction body s).0 ≡ ok a
    → (s' : S) × (body s ≡ ok (a, s'))
transaction-returns {S} {A} body s {a} h = go (body s) refl h
  where
    go :
        (r : Result (A × S))
        → body s ≡ r
        → (elim r as (λ _. Result A × S) [ ok (x, s') ↦ (ok x, s') | err e ↦ (err e, s) ]).0 ≡ ok a
        → (s' : S) × (body s ≡ ok (a, s'))
    go (ok (x, s')) e h = (s', e ∙ ap (λ y. ok (y, s')) (cc h))
    go (err x) e h = cc

-- Two functions that go on alike.
pub and_then-agree :
    {S A B : Type 0} (m : Exec S A) (f g : A → Exec S B) (s : S)
    → ((a : A) (t : S) → f a t ≡ g a t)
    → and_then m f s ≡ and_then m g s
and_then-agree {S} {A} m f g s same = go (m s).0
  where
    go : (r : Result A) → continue f r (m s).1 ≡ continue g r (m s).1
    go (ok a) = same a (m s).1
    go (err e) = refl

-- A property that every step keeps.
pub and_then-keeps {ℓ} :
    {S A B : Type 0} (P : S → Type ℓ) (m : Exec S A) (f : A → Exec S B) (s : S)
    → P (m s).1
    → ((a : A) (t : S) → P t → P (f a t).1)
    → P (and_then m f s).1
and_then-keeps {S} {A} P m f s h keep = go (m s).0
  where
    go : (r : Result A) → P (continue f r (m s).1).1
    go (ok a) = keep a (m s).1 h
    go (err e) = h

-- Two calls of which the second returned a value.
pub and_then-inv :
    {S A B : Type 0} (m : Exec S A) (f : A → Exec S B) (s : S) {b : B}
    → (and_then m f s).0 ≡ ok b
    → (a : A) × (t : S) × (m s ≡ (ok a, t)) × ((f a t).0 ≡ ok b)
and_then-inv {S} {A} {B} m f s {b} h = go (m s) refl h
  where
    go :
        (r : Result A × S)
        → m s ≡ r
        → (continue f r.0 r.1).0 ≡ ok b
        → (a : A) × (t : S) × (m s ≡ (ok a, t)) × ((f a t).0 ≡ ok b)
    go (ok a, t) e h = (a, t, e, h)
    go (err x, t) e h = cc
