-- ===== src/Store/Spaces/Ownership/Calls.antt =====
-- Adding, kicking, banning and unbanning members, and creating a space, keep the ownership of spaces.
use mathlib.Core.Path.{subst}
use meshserver.Base.{
  ℕ, ◌+◌, ◌<◌, ◌^◌, ◌≡◌, ◌≢◌, refl, sym, Bool, true, false, Option, none, some, arith, ◌==◌,
  if◌then◌else◌, Bool-cases, inl, inr,
}
use meshserver.Base.Tables.{insert, find-insert}
use meshserver.Base.Exec.{ok}
use meshserver.Model.Enums.{Role}
use meshserver.Model.Rows.{Space, Membership}
use meshserver.Model.Database.{Database}
use meshserver.Store.Spaces.Writes.{has_space_id, find_space, find_member, insert_membership}
use meshserver.Store.Spaces.Views.{owner_of, find_space-id}
use meshserver.Store.Spaces.Members.{
  CreateSpaceInput, create_space_body, add_space_member_body, kick_space_member_body,
  ban_space_member_body, unban_space_member_body, add_membership, add_to_space, ban_in_space,
  ban_membership, unban_membership, new_space, to_uint32,
}
use meshserver.Store.Spaces.Roles.{}
use meshserver.Base.Exec.{guard-ok, or_err-ok, ok-committed}
use meshserver.Store.Spaces.Ownership.{IsOwned, Ownership-create}
use meshserver.Store.Spaces.Ownership.Statements.{
  add_membership-RoleChange, refresh-IsOwned, add_membership-IsOwned, delete_membership-IsOwned,
  assign-IsOwned, rewrite-IsOwned,
}

-- The row that a query by id finds is found under its own id.
pub find_space_self :
    (s : ℕ) (db : Database) {space : Space}
    → find_space s db ≡ some space
    → find_space space.id db ≡ some space
find_space_self s db {space} e =
    subst (λ i. find_space i db ≡ some space) (sym (find_space-id s db e)) e

module _ (now : ℕ) (db : Database) (v : IsOwned db) where
  add_to_space-IsOwned :
      (u : ℕ) (po : Bool) (space : Space) (o : Option Membership) {x : ℕ} {db' : Database}
      → find_space space.id db ≡ some space
      → find_member space.id u db ≡ o
      → add_to_space now u po space o db ≡ ok (x, db')
      → IsOwned db'
  unfolding add_to_space
  add_to_space-IsOwned u po space (some m) here e h = ok-committed IsOwned (guard-ok _ _ _ h).1 v
  add_to_space-IsOwned u po space none here e h = ok-committed IsOwned (guard-ok _ _ _ h).1 (
      refresh-IsOwned now space.id _
        (add_membership-IsOwned now db space.id u space v here false e))

  pub add_space_member_body-IsOwned :
      (s u : ℕ) (po : Bool) (x : ℕ) (db' : Database)
      → add_space_member_body now s u po db ≡ ok (x, db')
      → IsOwned db'
  unfolding add_space_member_body
  add_space_member_body-IsOwned s u po x db' h =
      let (space, here, h1) = or_err-ok _ _ _ h in
      add_to_space-IsOwned u po space _ (find_space_self s db here) refl h1

  pub kick_body-IsOwned :
      (s u : ℕ) (x : ℕ) (db' : Database)
      → kick_space_member_body now s u db ≡ ok (x, db')
      → IsOwned db'
  unfolding kick_space_member_body
  kick_body-IsOwned s u x db' h =
      let (space, here, h1) = or_err-ok _ _ _ h in
      let (other, h2) = guard-ok _ _ _ h1 in
      let (m, member, h3) = or_err-ok _ _ _ h2 in
      let (active, h4) = guard-ok _ _ _ h3 in
      ok-committed IsOwned h4 (
        refresh-IsOwned now space.id _ (
          delete_membership-IsOwned now db space.id u space v (find_space_self s db here)
            (ground arith)))

  ban_in_space-IsOwned :
      (u : ℕ) (space : Space) (o : Option Membership)
      → find_space space.id db ≡ some space
      → u ≢ space.owner_user_id
      → find_member space.id u db ≡ o
      → IsOwned (ban_in_space now u space o db)
  unfolding ban_in_space
  ban_in_space-IsOwned u space none here other e =
      refresh-IsOwned now space.id _ (add_membership-IsOwned now db space.id u space v here true e)
  ban_in_space-IsOwned u space (some m) here other e = elim (Bool-cases m.is_banned) [
    | inl b ↦ rw b v
    | inr b ↦ rw b (
        refresh-IsOwned now space.id _ (
          assign-IsOwned now db space.id u space v here e (ban_membership now) Role.member
            (λ x. refl) (λ x. refl) (λ x. refl) (λ e. cc) other))
  ]

  pub ban_body-IsOwned :
      (s u : ℕ) (x : ℕ) (db' : Database)
      → ban_space_member_body now s u db ≡ ok (x, db')
      → IsOwned db'
  unfolding ban_space_member_body
  ban_body-IsOwned s u x db' h =
      let (space, here, h1) = or_err-ok _ _ _ h in
      let (other, h2) = guard-ok _ _ _ h1 in
      ok-committed IsOwned h2
        (ban_in_space-IsOwned u space _ (find_space_self s db here) (ground arith) refl)

  pub unban_body-IsOwned :
      (s u : ℕ) (x : ℕ) (db' : Database)
      → unban_space_member_body now s u db ≡ ok (x, db')
      → IsOwned db'
  unfolding unban_space_member_body
  unban_body-IsOwned s u x db' h =
      let (space, here, h1) = or_err-ok _ _ _ h in
      let (other, h2) = guard-ok _ _ _ h1 in
      let (m, member, h3) = or_err-ok _ _ _ h2 in
      ok-committed IsOwned h3 (elim (Bool-cases m.is_banned) [
        | inl b ↦ rw b (
            refresh-IsOwned now space.id _ (
              rewrite-IsOwned now db space.id u space v (find_space_self s db here) member
                (unban_membership now) (λ x. refl) (λ x. refl) (λ x. refl)))
        | inr b ↦ rw b v
      ])

  inserted_space : CreateSpaceInput → Database
  inserted_space in_ = record db {
    servers = insert (new_space now in_ db.next_space_id) db.servers;
    next_space_id = db.next_space_id + 1;
  }

  owner_of-inserted :
      (in_ : CreateSpaceInput) (sid : ℕ)
      → owner_of sid (inserted_space in_)
        ≡ (if sid == db.next_space_id then some in_.creator_user_id else owner_of sid db)
  unfolding inserted_space
  owner_of-inserted in_ sid =
      rw (find-insert (has_space_id sid) (new_space now in_ db.next_space_id) db.servers)
        (ground (arith, v.fresh_space sid))

  pub create_body-IsOwned :
      (in_ : CreateSpaceInput) (x : ℕ) (db' : Database)
      → db.next_space_id < 2 ^ 32
      → create_space_body now in_ db ≡ ok (x, db')
      → IsOwned db'
  unfolding create_space_body inserted_space add_membership insert_membership
  create_body-IsOwned in_ x db' room h =
      let (named, h1) = guard-ok _ _ _ h in
      let (known, h2) = guard-ok _ _ _ h1 in
      ok-committed IsOwned h2 (
        refresh-IsOwned now _ _ (
          Ownership-create db.next_space_id _ _ _ _ in_.creator_user_id v (owner_of-inserted in_) (
            rw whole (
              add_membership-RoleChange now db.next_space_id in_.creator_user_id Role.owner false
                (inserted_space in_) absent))))
    where
      whole : to_uint32 db.next_space_id ≡ db.next_space_id
      whole = omega arith

      absent : find_member db.next_space_id in_.creator_user_id db ≡ none
      absent = ground (arith, v.fresh_member db.next_space_id in_.creator_user_id)
