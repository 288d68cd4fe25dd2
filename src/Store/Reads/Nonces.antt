-- ===== src/Store/Reads/Nonces.antt =====
-- internal/repository/mysql/read_and_auth.go: an authentication nonce is used once.
use meshserver.Base.{
  ℕ, ◌+◌, ◌≤◌, ◌≡◌, refl, Bool, true, not, ◌&&◌, List, [], ◌∷◌, arith, if◌then◌else◌, Bool-cases,
  inl, inr,
}
use meshserver.Base.Tables.{count, update_where}
use meshserver.Base.Text.{Text, text_eq, text_eq→eq}
use meshserver.Base.Exec.{Result, ok, err}
use meshserver.Model.Rows.{Nonce}
use meshserver.Model.Database.{Database}
use meshserver.Store.Direct.Conversations.{is_some}
use meshserver.Store.Reads.{has_nonce_hash, is_usable, set_used, use_nonce}

-- A login attempt: the hash, the two peers, and the time.
pub record Attempt : Type 0 where
  pub hash : Text
  pub client : Text
  pub node : Text
  pub now : ℕ

abbrev pub succeeded : Result (Unit {0}) → ℕ
succeeded (ok a) = 1
succeeded (err e) = 0

abbrev attempt : Attempt → Database → Result (Unit {0}) × Database
attempt a db = use_nonce a.hash a.client a.node a.now db

-- How many of the attempts with this hash are accepted, one after the other.
unfoldable pub accepted : Text → List Attempt → Database → ℕ
accepted hash [] db = 0
accepted hash (a ∷ rest) db =
    (if text_eq a.hash hash then succeeded (attempt a db).0 else 0)
    + accepted hash rest (attempt a db).1

-- The rows of a hash that no one has used.
abbrev pub is_unused : Text → Nonce → Bool
is_unused hash n = has_nonce_hash hash n && not (is_some n.used_at)

abbrev pub unused : Text → Database → ℕ
unused hash db = count (is_unused hash) db.auth_nonces

-- What one UPDATE does to the unused rows of a hash.
count-set_used :
    (hash : Text) (a : Attempt) (ns : List Nonce)
    → count
          (is_unused hash)
          (update_where (is_usable a.hash a.client a.node a.now) (set_used a.now) ns)
        + (if text_eq a.hash hash then count (is_usable a.hash a.client a.node a.now) ns else 0)
      ≤ count (is_unused hash) ns
unfolding count update_where
count-set_used hash a [] = ground arith
count-set_used hash a (n ∷ ns) = elim (Bool-cases (text_eq a.hash hash)) [
  | inl e ↦ rw e (ground (arith, e, count-set_used hash a ns, same_hash e))
  | inr e ↦ rw e (ground (arith, e, count-set_used hash a ns))
]
  where
    same_hash : text_eq a.hash hash ≡ true → has_nonce_hash a.hash n ≡ has_nonce_hash hash n
    same_hash e = rw (text_eq→eq a.hash hash e) refl

unused-attempt :
    (hash : Text) (a : Attempt) (db : Database)
    → unused hash (attempt a db).1 + (if text_eq a.hash hash then succeeded (attempt a db).0 else 0)
      ≤ unused hash db
unfolding use_nonce
unused-attempt hash a db = ground (arith, count-set_used hash a db.auth_nonces)

-- However many attempts are made, by whomever and whenever, those with a given hash that are
-- accepted are at most the rows of that hash that nobody had used.
pub accepted-le-unused :
    (hash : Text) (calls : List Attempt) (db : Database) → accepted hash calls db ≤ unused hash db
unfolding accepted
accepted-le-unused hash [] db = omega arith
accepted-le-unused hash (a ∷ rest) db =
    omega (arith, accepted-le-unused hash rest (attempt a db).1, unused-attempt hash a db)
