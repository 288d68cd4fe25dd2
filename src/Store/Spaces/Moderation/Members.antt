-- ===== src/Store/Spaces/Moderation/Members.antt =====
-- A member who is kicked or banned has no role left.
use mathlib.Core.Path.{subst}
use meshserver.Base.{
  ℕ, ◌≤◌, ◌≡◌, refl, sym, ◌∙◌, true, Option, none, some, List, arith, Bool-cases, inl, inr,
}
use meshserver.Base.Tables.{count, delete_where, insert, find-insert}
use meshserver.Base.Errors.{Error}
use meshserver.Base.Exec.{ok, err, guard-ok, or_err-ok, ok-committed}
use meshserver.Model.Rows.{Space, Membership}
use meshserver.Model.Database.{Database}
use meshserver.Store.Spaces.Writes.{
  is_membership_of, find_member, insert_membership, set_membership, delete_membership,
  refresh_aggregate_counts,
}
use meshserver.Store.Spaces.Queries.{is_active_membership_of, get_member_role}
use meshserver.Store.Spaces.Views.{find_space-id}
use meshserver.Store.Spaces.Members.{
  kick_space_member_body, ban_space_member_body, add_membership, ban_in_space,
}
use meshserver.Store.Spaces.Roles.{}
use meshserver.Base.Exec.{committed}
use meshserver.Store.Spaces.Queries.{get_by_space_id}
use meshserver.Store.Spaces.Members.{kick_space_member, ban_space_member}
use meshserver.Store.Spaces.Moderation.{
  HasUniqueMembers, active_row, active_row-banned, active_row-ban, active_row-absent,
  active_row-delete, get_member_role-none,
}

-- The row that INSERT writes for a banned user is no active row.
active_row-insert_banned :
    (s u : ℕ) (m : Membership) (ms : List Membership)
    → m.is_banned ≡ true
    → active_row s u ms ≡ none
    → active_row s u (insert m ms) ≡ none
active_row-insert_banned s u m ms b h =
    find-insert (is_active_membership_of s u) m ms ∙ ground (arith, h, b)

ban_in_space-active :
    (now u : ℕ) (space : Space) (o : Option Membership) (db : Database)
    → count (is_membership_of space.id u) db.server_members ≤ 1
    → find_member space.id u db ≡ o
    → active_row space.id u (ban_in_space now u space o db).server_members ≡ none
unfolding ban_in_space refresh_aggregate_counts add_membership insert_membership set_membership
ban_in_space-active now u space none db one e =
    active_row-insert_banned space.id u _ db.server_members refl
      (active_row-absent space.id u db.server_members e)
ban_in_space-active now u space (some m) db one e = elim (Bool-cases m.is_banned) [
  | inl b ↦ rw b (active_row-banned space.id u db.server_members m one e b)
  | inr b ↦ rw b (active_row-ban now space.id u db.server_members)
]

-- If the table of members has its unique key, then after a ban that returned no error the look-up of
-- the user's role in the space fails with "not found".
pub get_member_role-ban_space_member :
    (now s u : ℕ) (db : Database) (space : Space)
    → HasUniqueMembers db
    → (ban_space_member now s u db).0 ≡ ok space
    → get_member_role s u (ban_space_member now s u db).1 ≡ err Error.not_found
unfolding ban_space_member
get_member_role-ban_space_member now s u db space unique h =
    let (x, db', body, state) = committed (ban_space_member_body now s u) get_by_space_id db h in
    rw state (get_member_role-none s u db' (banned x db' body))
  where
    banned :
        (x : ℕ) (db' : Database)
        → ban_space_member_body now s u db ≡ ok (x, db')
        → active_row s u db'.server_members ≡ none
    banned x db' e =
        unfold ban_space_member_body in
        let (found, here, h1) = or_err-ok _ _ _ e in
        ok-committed (λ d. active_row s u d.server_members ≡ none) (guard-ok _ _ _ h1).1
          (subst
            (λ i.
              active_row i u
                (ban_in_space now u found (find_member found.id u db) db).server_members
              ≡ none)
            (find_space-id s db here)
            (ban_in_space-active now u found (find_member found.id u db) db (unique found.id u)
              refl))

-- After a kick that returned no error the look-up of the user's role in the space fails with "not
-- found".
pub get_member_role-kick_space_member :
    (now s u : ℕ) (db : Database) (space : Space)
    → (kick_space_member now s u db).0 ≡ ok space
    → get_member_role s u (kick_space_member now s u db).1 ≡ err Error.not_found
unfolding kick_space_member
get_member_role-kick_space_member now s u db space h =
    let (x, db', body, state) = committed (kick_space_member_body now s u) get_by_space_id db h in
    rw state (get_member_role-none s u db' (kicked x db' body))
  where
    kicked :
        (x : ℕ) (db' : Database)
        → kick_space_member_body now s u db ≡ ok (x, db')
        → active_row s u db'.server_members ≡ none
    kicked x db' e =
        unfold kick_space_member_body delete_membership refresh_aggregate_counts in
        let (found, here, h1) = or_err-ok _ _ _ e in
        let (other, h2) = guard-ok _ _ _ h1 in
        let (m, member, h3) = or_err-ok _ _ _ h2 in
        ok-committed (λ d. active_row s u d.server_members ≡ none) (guard-ok _ _ _ h3).1
          (subst
            (λ i. active_row s u (delete_where (is_membership_of i u) db.server_members) ≡ none)
            (sym (find_space-id s db here)) (active_row-delete s u db.server_members))
