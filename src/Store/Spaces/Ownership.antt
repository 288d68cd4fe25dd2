-- ===== src/Store/Spaces/Ownership.antt =====
-- internal/repository/mysql/server.go: each space has exactly one owner, the user that its row names.
mod Statements
pub mod Calls
pub mod Transfer
pub mod Steps
use mathlib.Core.Option
use meshserver.Base.{
  ℕ, ◌+◌, ◌≤◌, ◌<◌, ◌^◌, ◌≡◌, ◌≢◌, refl, ap, ◌∙◌, sym, Bool, true, false, not, ◌&&◌, Option, none,
  some, arith, ◌==◌, if◌then◌else◌, Bool-cases, Option-cases, inl, inr,
}
use meshserver.Base.Tables.{find, count, update_where, insert, or_else, find-insert}
use meshserver.Base.Exec.{Result, ok, err, transaction, transaction-keeps}
use meshserver.Model.Enums.{Role, is_owner}
use meshserver.Model.Rows.{Space, Membership}
use meshserver.Model.Database.{Database}
use meshserver.Store.Spaces.Writes.{
  has_space_id, is_membership_of, find_space, find_member, insert_membership, set_membership,
  delete_membership, set_space, refresh_aggregate_counts,
}
use meshserver.Store.Spaces.Views.{
  owner_of, role_of, same_member, role_of-insert, role_of-insert_ne, role_of-delete, role_of-set,
  role_of-set_same, owner_of-refresh, owner_of-set_space, find_space-id, find_member-key,
}
use meshserver.Store.Spaces.Members.{
  CreateSpaceInput, create_space_body, create_space, add_space_member_body, add_space_member,
  kick_space_member_body, kick_space_member, ban_space_member_body, ban_space_member,
  unban_space_member_body, unban_space_member, add_membership, add_to_space, ban_in_space,
  ban_membership, unban_membership,
}
use meshserver.Store.Spaces.Roles.{
  set_space_member_role_body, set_space_member_role, set_role, transfer_ownership, assign_role,
}

-- The owner that each space names, and the roles of its members: nothing is known of a space that has
-- no id yet, the named owner has the role of owner, and nobody else has.
pub record Ownership (next : ℕ) (own : ℕ → Option ℕ) (role : ℕ → ℕ → Option Role) : Type 0 where
  pub fresh_space : (sid : ℕ) → next ≤ sid → own sid ≡ none
  pub fresh_member : (sid uid : ℕ) → next ≤ sid → role sid uid ≡ none
  pub owner_holds : (sid o : ℕ) → own sid ≡ some o → role sid o ≡ some Role.owner
  pub owner_only : (sid uid o : ℕ) → own sid ≡ some o → role sid uid ≡ some Role.owner → uid ≡ o

abbrev pub IsOwned : Database → Type 0
IsOwned db = Ownership db.next_space_id (λ s. owner_of s db) (λ s u. role_of s u db)

-- `role'` is `role` but at one member.
abbrev RoleChange : (ℕ → ℕ → Option Role) → (ℕ → ℕ → Option Role) → ℕ → ℕ → Option Role → Type 0
RoleChange role role' s u r =
    (sid uid : ℕ) → role' sid uid ≡ (if same_member sid uid s u then r else role sid uid)

module _ (next : ℕ) (own own' : ℕ → Option ℕ) (role role' : ℕ → ℕ → Option Role) where
  Ownership-eq :
      Ownership next own role
      → ((sid : ℕ) → own' sid ≡ own sid)
      → ((sid uid : ℕ) → role' sid uid ≡ role sid uid)
      → Ownership next own' role'
  Ownership-eq v eo er = record {
    fresh_space = λ sid h. eo sid ∙ v.fresh_space sid h;
    fresh_member = λ sid uid h. er sid uid ∙ v.fresh_member sid uid h;
    owner_holds = λ sid o e. er sid o ∙ v.owner_holds sid o (sym (eo sid) ∙ e);
    owner_only = λ sid uid o e h. v.owner_only sid uid o (sym (eo sid) ∙ e) (sym (er sid uid) ∙ h);
  }

  -- A member other than the owner gets a role other than the owner's, or leaves.
  Ownership-change :
      (s u o : ℕ) (r : Option Role)
      → Ownership next own role
      → own s ≡ some o
      → u ≢ o
      → r ≢ some Role.owner
      → ((sid : ℕ) → own' sid ≡ own sid)
      → RoleChange role role' s u r
      → Ownership next own' role'
  Ownership-change s u o r v here other plain eo er = record {
    fresh_space = λ sid h. eo sid ∙ v.fresh_space sid h;
    fresh_member = λ sid uid h.
        ground (arith, er sid uid, v.fresh_member sid uid h, v.fresh_space sid h, here);
    owner_holds = λ sid p e. ground (arith, er sid p, eo sid, v.owner_holds sid p, here, other);
    owner_only = λ sid uid p e h. ground (arith, er sid uid, eo sid, v.owner_only sid uid p, plain);
  }

  -- The owner becomes an admin, and another member the owner.
  Ownership-transfer :
      (mid : ℕ → ℕ → Option Role) (s t o : ℕ)
      → Ownership next own role
      → own s ≡ some o
      → ((sid : ℕ) → own' sid ≡ (if sid == s then some t else own sid))
      → RoleChange role mid s o (some Role.admin)
      → RoleChange mid role' s t (some Role.owner)
      → Ownership next own' role'
  Ownership-transfer mid s t o v here eo em er = record {
    fresh_space = λ sid h. ground (arith, eo sid, v.fresh_space sid h, here);
    fresh_member = λ sid uid h.
        ground (arith, er sid uid, em sid uid, v.fresh_member sid uid h, v.fresh_space sid h, here);
    owner_holds = λ sid p e. ground (arith, er sid p, em sid p, eo sid, v.owner_holds sid p, here);
    owner_only = λ sid uid p e h.
        ground (
          arith,
          er sid uid,
          em sid uid,
          eo sid,
          v.owner_only sid uid p,
          here,
          v.owner_only s uid o,
        );
  }

-- A new space, with its owner as the first member.
Ownership-create :
    (next : ℕ) (own own' : ℕ → Option ℕ) (role role' : ℕ → ℕ → Option Role) (u : ℕ)
    → Ownership next own role
    → ((sid : ℕ) → own' sid ≡ (if sid == next then some u else own sid))
    → RoleChange role role' next u (some Role.owner)
    → Ownership (next + 1) own' role'
Ownership-create next own own' role role' u v eo er = record {
  fresh_space = λ sid h. ground (arith, eo sid, v.fresh_space sid);
  fresh_member = λ sid uid h. ground (arith, er sid uid, v.fresh_member sid uid);
  owner_holds = λ sid p e. ground (arith, er sid p, eo sid, v.owner_holds sid p);
  owner_only = λ sid uid p e h.
      ground (arith, er sid uid, eo sid, v.owner_only sid uid p, v.fresh_member sid uid);
}
