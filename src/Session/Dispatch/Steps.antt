-- ===== src/Session/Dispatch/Steps.antt =====
-- internal/session: a handler and a method, call by call.
use meshserver.Base.{◌≡◌, refl, sym, ap, ◌∙◌}
use meshserver.Base.Exec.{Result, ok, err, Exec, and_then, continue, and_then-agree}
use meshserver.Model.Database.{Database}
use meshserver.Store.Spaces.Members.{}
use meshserver.Session.Node.{Node, call, with_db}
use meshserver.Session.Api.{}

-- A handler's first call beside the same call of a method, and what they do next.
module _ {A B C : Type 0} where
  pub call-and_then :
      (m : Exec Database A) (f : A → Exec Database B) (k : B → Exec Node C) (n : Node)
      → and_then (call (and_then m f)) k n ≡ and_then (call m) (λ a. and_then (call (f a)) k) n
  call-and_then m f k n = go (m n.db).0
    where
      go :
          (r : Result A)
          → and_then (λ s. with_db s (continue f r (m n.db).1)) k n
            ≡ continue (λ a. and_then (call (f a)) k) r (record n { db = (m n.db).1 })
      go (ok a) = refl
      go (err e) = refl

  pub step :
      (h : Exec Node A) (m : Exec Database A) {rest : A → Exec Node C} (f : A → Exec Database B)
      (k : B → Exec Node C)
      → (n : Node) → h n ≡ call m n
      → ((a : A) (t : Node) → rest a t ≡ and_then (call (f a)) k t)
      → and_then h rest n ≡ and_then (call (and_then m f)) k n
  step h m {rest} f k n first next =
      ap (λ (r : Result A × Node). continue rest r.0 r.1) first
      ∙ and_then-agree (call m) rest (λ a. and_then (call (f a)) k) n next
      ∙ sym (call-and_then m f k n)
