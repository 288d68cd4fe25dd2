-- ===== src/Store/Spaces/Ownership/Transfer.antt =====
-- Changing roles keeps the ownership of spaces, also where the ownership moves.
use mathlib.Core.Path.{ap₂}
use meshserver.Base.{
  ℕ, ◌≡◌, ◌≢◌, refl, ap, ◌∙◌, sym, true, not, ◌||◌, some, arith, ◌==◌, if◌then◌else◌, Bool-cases,
  Option-cases, inl, inr,
}
use meshserver.Base.Exec.{ok}
use meshserver.Model.Enums.{Role, is_owner}
use meshserver.Model.Rows.{Space, Membership}
use meshserver.Model.Database.{Database}
use meshserver.Store.Spaces.Writes.{find_space, find_member, set_membership, set_space}
use meshserver.Store.Spaces.Views.{
  owner_of, role_of, same_member, find_member-set, owner_of-set_space, find_member-key,
}
use meshserver.Store.Spaces.Members.{}
use meshserver.Store.Spaces.Roles.{
  set_space_member_role_body, set_role, transfer_ownership, assign_role,
}
use meshserver.Base.Exec.{guard-ok, or_err-ok, ok-committed}
use meshserver.Store.Spaces.Ownership.{IsOwned, Ownership-eq, Ownership-transfer}
use meshserver.Store.Spaces.Ownership.Statements.{
  set_membership-RoleChange, owner_of-here, assign-IsOwned,
}
use meshserver.Store.Spaces.Ownership.Calls.{find_space_self}

is_owner→eq : (r : Role) → is_owner r ≡ true → r ≡ Role.owner
is_owner→eq Role.owner h = refl
is_owner→eq Role.admin h = cc
is_owner→eq Role.member h = cc
is_owner→eq Role.subscriber h = cc
is_owner→eq (Role.other t) h = cc

module _ (now : ℕ) (db : Database) (v : IsOwned db) where
  -- The owner's row is there to be demoted.
  owner_row :
      (space : Space)
      → find_space space.id db ≡ some space
      → (m : Membership) × (find_member space.id space.owner_user_id db ≡ some m)
  owner_row space here = elim (Option-cases (find_member space.id space.owner_user_id db)) [
    | inl e ↦ cc (
      v.owner_holds space.id space.owner_user_id
          (owner_of-here now db space.id space.owner_user_id space v here),
      e,
    )
    | inr found ↦ found
  ]

  transfer-IsOwned :
      (u : ℕ) (space : Space) {m : Membership}
      → find_space space.id db ≡ some space
      → u ≢ space.owner_user_id
      → find_member space.id u db ≡ some m
      → IsOwned (transfer_ownership now space u db)
  unfolding transfer_ownership set_space set_membership
  transfer-IsOwned u space {m} here other member =
      Ownership-transfer db.next_space_id _ _ _ _ (λ s x. role_of s x demoted) space.id u
        space.owner_user_id v own
        (λ sid.
          owner_of-set_space sid promoted space.id named u (λ x. refl) (λ x. refl)
          ∙ ground (arith, own))
        (set_membership-RoleChange space.id space.owner_user_id (set_role now Role.admin) Role.admin
          db (λ x. refl) (λ x. refl) (λ x. refl) (owner_row space here).1)
        (set_membership-RoleChange space.id u (set_role now Role.owner) Role.owner demoted
          (λ x. refl) (λ x. refl) (λ x. refl) still)
    where
      own : owner_of space.id db ≡ some space.owner_user_id
      own = owner_of-here now db space.id u space v here

      demoted : Database
      demoted = set_membership space.id space.owner_user_id (set_role now Role.admin) db

      promoted : Database
      promoted = set_membership space.id u (set_role now Role.owner) demoted

      named : Space → Space
      named x = record x { owner_user_id = u; updated_at = now }

      still : find_member space.id u demoted ≡ some m
      still =
          find_member-set space.id u space.id space.owner_user_id db (set_role now Role.admin)
            (λ x. refl) (λ x. refl)
          ∙ rw member (ground (arith, find_member-key space.id u db member))

  -- The owner's role is written again, as it was.
  refresh_owner-IsOwned :
      (u : ℕ) (space : Space)
      → find_space space.id db ≡ some space
      → u ≡ space.owner_user_id
      → IsOwned (set_membership space.id u (set_role now Role.owner) db)
  unfolding set_membership
  refresh_owner-IsOwned u space here same =
      Ownership-eq db.next_space_id _ _ _ _ v (λ sid. refl)
        (λ sid uid.
          set_membership-RoleChange space.id u (set_role now Role.owner) Role.owner db
            {m = (owner_row space here).0} (λ x. refl) (λ x. refl) (λ x. refl)
            (rw same (owner_row space here).1) sid uid
          ∙ unchanged sid uid)
    where
      held : role_of space.id space.owner_user_id db ≡ some Role.owner
      held =
          v.owner_holds space.id space.owner_user_id (owner_of-here now db space.id u space v here)

      unchanged :
          (sid uid : ℕ)
          → (if same_member sid uid space.id u then some Role.owner else role_of sid uid db)
            ≡ role_of sid uid db
      unchanged sid uid = elim (Bool-cases (same_member sid uid space.id u)) [
        | inl e ↦
            let es : sid ≡ space.id = ground arith in
            let eu : uid ≡ space.owner_user_id = ground (arith, same) in
            rw e (sym held ∙ ap₂ (λ i j. role_of i j db) (sym es) (sym eu))
        | inr e ↦ rw e
      ]

  assign_role-IsOwned :
      (u : ℕ) (space : Space) (r : Role) {m : Membership}
      → find_space space.id db ≡ some space
      → find_member space.id u db ≡ some m
      → (not (u == space.owner_user_id) || is_owner r) ≡ true
      → IsOwned (assign_role now space u r db)
  unfolding assign_role
  assign_role-IsOwned u space r here member allowed = elim (Bool-cases (u == space.owner_user_id)) [
    | inl e ↦
        let plain : is_owner r ≡ true = ground (arith, allowed, e) in
        rw (e, is_owner→eq r plain) (refresh_owner-IsOwned u space here (ground arith))
    | inr e ↦ elim (Bool-cases (is_owner r)) [
      | inl o ↦ rw (e, o) (transfer-IsOwned u space here (ground arith) member)
      | inr o ↦
          rw (e, o)
            (assign-IsOwned now db space.id u space v here member (set_role now r) r (λ x. refl)
              (λ x. refl) (λ x. refl) (λ p. cc (o, ap is_owner p)) (ground arith))
    ]
  ]

  pub set_role_body-IsOwned :
      (s u : ℕ) (r : Role) (x : Unit {0}) (db' : Database)
      → set_space_member_role_body now s u r db ≡ ok (x, db')
      → IsOwned db'
  unfolding set_space_member_role_body
  set_role_body-IsOwned s u r x db' h =
      let (blank, h1) = guard-ok _ _ _ h in
      let (known, h2) = guard-ok _ _ _ h1 in
      let (space, here, h3) = or_err-ok _ _ _ h2 in
      let (m, member, h4) = or_err-ok _ _ _ h3 in
      let (allowed, h5) = guard-ok _ _ _ h4 in
      ok-committed IsOwned h5
        (assign_role-IsOwned u space r (find_space_self s db here) member allowed)
