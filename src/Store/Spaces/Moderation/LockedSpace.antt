-- ===== src/Store/Spaces/Moderation/LockedSpace.antt =====
-- `SetSpaceMemberRole` reads the target's membership without its `is_banned`: it hands a space to a
-- banned member, whom no later call can unban.
use mathlib.Core.Path.{subst}
use meshserver.Base.{
  ℕ, ◌≡◌, ◌≢◌, refl, sym, ◌∙◌, ap, true, false, none, some, arith, ◌==◌, Option-cases, inl, inr,
}
use meshserver.Base.Tables.{count-update_where}
use meshserver.Base.Errors.{Error}
use meshserver.Base.Exec.{Result, ok, err, ◌>>=◌, guard, or_err, or_err-ok, transaction}
use meshserver.Model.Enums.{Role}
use meshserver.Model.Rows.{Space, Membership}
use meshserver.Model.Database.{Database}
use meshserver.Store.Spaces.Writes.{is_membership_of, find_space, find_member, set_membership}
use meshserver.Store.Spaces.Queries.{get_member_role}
use meshserver.Store.Spaces.Views.{find_space-id}
use meshserver.Store.Spaces.Members.{unban_space_member_body}
use meshserver.Store.Spaces.Roles.{
  set_space_member_role_body, transfer_ownership, assign_role, set_role,
}
use meshserver.Base.Exec.{and_then-err, transaction-err, transaction-ok}
use meshserver.Store.Spaces.Writes.{set_space}
use meshserver.Store.Spaces.Members.{unban_space_member}
use meshserver.Store.Spaces.Roles.{set_space_member_role}
use meshserver.Store.Spaces.Views.{owner_of, owner_of-set_space, find_member-set, find_member-key}
use meshserver.Store.Spaces.Ownership.{IsOwned}
use meshserver.Store.Spaces.Ownership.Transfer.{set_role_body-IsOwned}
use meshserver.Store.Spaces.Moderation.{
  HasUniqueMembers, active_row, active_row-banned, active_row-find,
}

-- A call by an acting owner reads the one active row.
get_member_role-find :
    (s u : ℕ) (db : Database) {r : Role}
    → HasUniqueMembers db
    → get_member_role s u db ≡ ok r
    → (m : Membership) × (active_row s u db.server_members ≡ some m)
      × (find_member s u db ≡ some m)
      × (m.role ≡ r)
unfolding get_member_role
get_member_role-find s u db unique h =
    let (space, here, h1) = or_err-ok _ _ _ h in
    let (m, row, h2) = or_err-ok _ _ _ h1 in
    let row' =
      subst (λ i. active_row i u db.server_members ≡ some m) (find_space-id s db here) row in
    (m, row', active_row-find s u db.server_members m (unique s u) row', cc)

module _ (now s t : ℕ) (db : Database) (space : Space) (m : Membership)
    (here : find_space s db ≡ some space) (member : find_member s t db ≡ some m)
    (banned : m.is_banned ≡ true) (other : t ≢ space.owner_user_id) where
  handed_over : Database
  handed_over = transfer_ownership now space t db

  body_handed_over : set_space_member_role_body now s t Role.owner db ≡ ok (tt, handed_over)
  unfolding set_space_member_role_body assign_role handed_over or_err guard ◌>>=◌
  body_handed_over =
      let there : find_member space.id t db ≡ some m =
        subst (λ i. find_member i t db ≡ some m) (sym (find_space-id s db here)) member in
      let apart : (t == space.owner_user_id) ≡ false = ground (arith, other) in
      rw here (rw there (rw apart))

  -- The two writes on memberships: the owner is demoted, the target promoted.
  demoted : Database
  demoted = set_membership space.id space.owner_user_id (set_role now Role.admin) db

  promoted : Database
  unfolding demoted
  promoted = set_membership space.id t (set_role now Role.owner) demoted

  -- The target's row keeps its ban.
  still_banned : find_member s t promoted ≡ some (set_role now Role.owner m)
  unfolding promoted
  still_banned =
      find_member-set s t space.id t demoted (set_role now Role.owner) (λ x. refl) (λ x. refl)
      ∙ rw
          (find_member-set s t space.id space.owner_user_id db (set_role now Role.admin) (λ x. refl)
            (λ x. refl))
          (rw member (ground (arith, find_member-key s t db member, find_space-id s db here)))

  unique_promoted : HasUniqueMembers db → HasUniqueMembers promoted
  unfolding promoted set_membership
  unique_promoted unique a b =
      rw
        (count-update_where (is_membership_of a b) (is_membership_of space.id t)
          (set_role now Role.owner) demoted.server_members (λ x h. refl))
        (rw
          (count-update_where (is_membership_of a b) (is_membership_of space.id space.owner_user_id)
            (set_role now Role.admin) db.server_members (λ x h. refl))
          (unique a b))

  owner_handed_over : owner_of s handed_over ≡ some t
  unfolding handed_over transfer_ownership promoted set_membership
  owner_handed_over =
      owner_of-set_space s promoted space.id (λ x. record x { owner_user_id = t; updated_at = now })
        t (λ x. refl) (λ x. refl)
      ∙ rw here (ground (arith, find_space-id s db here))

  handed_over_members : handed_over.server_members ≡ promoted.server_members
  unfolding handed_over transfer_ownership promoted set_space
  handed_over_members = refl

  -- Nobody acts as the owner any more.
  no_acting_owner :
      (u : ℕ) → IsOwned db → HasUniqueMembers db → get_member_role s u handed_over ≢ ok Role.owner
  no_acting_owner u v unique h =
      let (r, row, found, owns) = get_member_role-find s u handed_over unique_here h in
      let owned : IsOwned handed_over =
        set_role_body-IsOwned now db v s t Role.owner tt handed_over body_handed_over in
      let same : u ≡ t = owned.owner_only s u t owner_handed_over (rw found (ap some owns)) in
      cc (row, subst (λ i. active_row s i handed_over.server_members ≡ none) (sym same) none_active)
    where
      unique_here : HasUniqueMembers handed_over
      unique_here = rw handed_over_members (unique_promoted unique)

      none_active : active_row s t handed_over.server_members ≡ none
      none_active = rw handed_over_members (
          active_row-banned s t promoted.server_members (set_role now Role.owner m)
            (unique_promoted unique s t) still_banned banned)

  refused_unban :
      (later : ℕ)
      → (unban_space_member later s t handed_over).0 ≡ err Error.owner_cannot_be_unbanned
  unfolding unban_space_member
  refused_unban later = elim (Option-cases (find_space s handed_over)) [
    | inl e ↦ cc (owner_handed_over, e)
    | inr (space', e) ↦
        ap (λ r. r.0)
          (and_then-err (transaction (unban_space_member_body later s t)) _ handed_over
            (transaction-err (unban_space_member_body later s t) handed_over (refused space' e)))
  ]
    where
      refused :
          (x : Space)
          → find_space s handed_over ≡ some x
          → unban_space_member_body later s t handed_over ≡ err Error.owner_cannot_be_unbanned
      refused x e =
          unfold unban_space_member_body or_err guard ◌>>=◌ in
          let named : (t == x.owner_user_id) ≡ true = ground (arith, owner_handed_over, e) in
          rw e (rw named)

  -- In owned tables with their unique key, handing the ownership of a space to a banned member who
  -- does not own it succeeds; afterwards no user at all passes a check for the owner's role, and
  -- unbanning the new owner is refused.
  pub set_space_member_role-locks :
      IsOwned db
      → HasUniqueMembers db
      → ((set_space_member_role now s t Role.owner db).0 ≡ ok tt)
        × ((u : ℕ)
            → get_member_role s u (set_space_member_role now s t Role.owner db).1 ≢ ok Role.owner)
        × ((later : ℕ)
            → (unban_space_member later s t (set_space_member_role now s t Role.owner db).1).0
              ≡ err Error.owner_cannot_be_unbanned)
  unfolding set_space_member_role
  set_space_member_role-locks v unique =
      subst
        (λ (r : Result (Unit {0}) × Database).
          (r.0 ≡ ok tt)
          × ((u : ℕ) → get_member_role s u r.1 ≢ ok Role.owner)
          × ((later : ℕ)
              → (unban_space_member later s t r.1).0 ≡ err Error.owner_cannot_be_unbanned))
        (sym (transaction-ok (set_space_member_role_body now s t Role.owner) db body_handed_over))
        (refl, λ u. no_acting_owner u v unique, refused_unban)
