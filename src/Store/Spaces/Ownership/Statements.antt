-- ===== src/Store/Spaces/Ownership/Statements.antt =====
-- Each statement on spaces and memberships, and the ownership that it keeps.
use meshserver.Base.{ℕ, ◌≡◌, ◌≢◌, refl, ◌∙◌, Bool, none, some, arith, Bool-cases, inl, inr}
use meshserver.Model.Enums.{Role}
use meshserver.Model.Rows.{Space, Membership}
use meshserver.Model.Database.{Database}
use meshserver.Store.Spaces.Writes.{
  find_space, find_member, insert_membership, set_membership, delete_membership,
  refresh_aggregate_counts,
}
use meshserver.Store.Spaces.Views.{
  owner_of, role_of, same_member, role_of-insert, role_of-insert_ne, role_of-delete, role_of-set,
  role_of-set_same, owner_of-refresh,
}
use meshserver.Store.Spaces.Members.{add_membership}
use meshserver.Store.Spaces.Roles.{}
use meshserver.Store.Spaces.Ownership.{IsOwned, RoleChange, Ownership-eq, Ownership-change}

-- A new membership, where there was none.
pub add_membership-RoleChange :
    (now s u : ℕ) (r : Role) (banned : Bool) (db : Database)
    → find_member s u db ≡ none
    → RoleChange
        (λ sid uid. role_of sid uid db)
        (λ sid uid. role_of sid uid (add_membership now s u r banned db))
        s
        u
        (some r)
unfolding add_membership
add_membership-RoleChange now s u r banned db absent sid uid =
    elim (Bool-cases (same_member sid uid s u)) [
      | inl e ↦
          let es : sid ≡ s = ground arith in
          let eu : uid ≡ u = ground arith in
          rw (es, eu) (role_of-insert s u s u db _ absent ∙ ground arith)
      | inr e ↦ rw e (role_of-insert_ne sid uid s u db _ (ground arith))
    ]

pub set_membership-RoleChange :
    (s u : ℕ) (f : Membership → Membership) (r : Role) (db : Database) {m : Membership}
    → ((m : Membership) → (f m).space_id ≡ m.space_id)
    → ((m : Membership) → (f m).user_id ≡ m.user_id)
    → ((m : Membership) → (f m).role ≡ r)
    → find_member s u db ≡ some m
    → RoleChange
        (λ sid uid. role_of sid uid db)
        (λ sid uid. role_of sid uid (set_membership s u f db))
        s
        u
        (some r)
set_membership-RoleChange s u f r db hs hu hr here sid uid =
    elim (Bool-cases (same_member sid uid s u)) [
      | inl e ↦
          let es : sid ≡ s = ground arith in
          let eu : uid ≡ u = ground arith in
          rw (es, eu) (role_of-set s u s u db f r hs hu hr ∙ rw here (ground arith))
      | inr e ↦ role_of-set sid uid s u db f r hs hu hr ∙ rw e
    ]

-- Recounting changes no owner and no role.
pub refresh-IsOwned :
    (now s : ℕ) (db : Database) → IsOwned db → IsOwned (refresh_aggregate_counts now s db)
unfolding refresh_aggregate_counts
refresh-IsOwned now s db v =
    Ownership-eq db.next_space_id _ _ _ _ v (λ sid. owner_of-refresh sid db now s) (λ sid uid. refl)

module _ (now : ℕ) (db : Database) (s u : ℕ) (space : Space) (v : IsOwned db)
    (here : find_space s db ≡ some space) where
  -- A membership that stands in a space with an owner's row missing would be the owner's.
  pub owner_of-here : owner_of s db ≡ some space.owner_user_id
  owner_of-here = rw here

  pub absent-ne-owner : find_member s u db ≡ none → u ≢ space.owner_user_id
  absent-ne-owner absent e = cc (v.owner_holds s space.owner_user_id owner_of-here, absent, e)

  pub add_membership-IsOwned :
      (banned : Bool)
      → find_member s u db ≡ none
      → IsOwned (add_membership now s u Role.member banned db)
  unfolding add_membership insert_membership
  add_membership-IsOwned banned absent =
      Ownership-change db.next_space_id _ _ _ _ s u space.owner_user_id (some Role.member) v
        owner_of-here (absent-ne-owner absent) (λ e. cc) (λ sid. refl)
        (add_membership-RoleChange now s u Role.member banned db absent)

  pub delete_membership-IsOwned : u ≢ space.owner_user_id → IsOwned (delete_membership s u db)
  unfolding delete_membership
  delete_membership-IsOwned other =
      Ownership-change db.next_space_id _ _ _ _ s u space.owner_user_id none v owner_of-here other
        (λ e. cc) (λ sid. refl) (λ sid uid. role_of-delete sid uid s u db)

  module _ {m : Membership} (member : find_member s u db ≡ some m) where
    pub assign-IsOwned :
        (f : Membership → Membership) (r : Role)
        → ((x : Membership) → (f x).space_id ≡ x.space_id)
        → ((x : Membership) → (f x).user_id ≡ x.user_id)
        → ((x : Membership) → (f x).role ≡ r)
        → r ≢ Role.owner
        → u ≢ space.owner_user_id
        → IsOwned (set_membership s u f db)
    unfolding set_membership
    assign-IsOwned f r hs hu hr plain other =
        Ownership-change db.next_space_id _ _ _ _ s u space.owner_user_id (some r) v owner_of-here
          other (λ e. plain (ground arith)) (λ sid. refl)
          (set_membership-RoleChange s u f r db hs hu hr member)

    -- A write that leaves the role alone.
    pub rewrite-IsOwned :
        (f : Membership → Membership)
        → ((x : Membership) → (f x).space_id ≡ x.space_id)
        → ((x : Membership) → (f x).user_id ≡ x.user_id)
        → ((x : Membership) → (f x).role ≡ x.role)
        → IsOwned (set_membership s u f db)
    unfolding set_membership
    rewrite-IsOwned f hs hu hr =
        Ownership-eq db.next_space_id _ _ _ _ v (λ sid. refl)
          (λ sid uid. role_of-set_same sid uid s u db f Role.member hs hu hr)
