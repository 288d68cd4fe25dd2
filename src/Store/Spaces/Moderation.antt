-- ===== src/Store/Spaces/Moderation.antt =====
-- internal/repository/mysql/server.go: what kicking, banning and unbanning mean for the member, and
-- what becomes of a space whose ownership goes to a banned member.
pub mod Members
pub mod Access
pub mod LockedSpace
use mathlib.Core.Option
use mathlib.Core.Path.{subst}
use meshserver.Base.{
  ℕ, suc, ◌+◌, ◌≤◌, ◌≡◌, ◌≢◌, refl, sym, ◌∙◌, ap, Bool, true, false, not, ◌&&◌, Option, none, some,
  List, [], ◌∷◌, arith, ◌==◌, if◌then◌else◌, Bool-cases, Option-cases, inl, inr,
}
use meshserver.Base.Tables.{find, count, update_where, delete_where, insert, find-insert}
use meshserver.Base.Errors.{Error}
use meshserver.Base.Exec.{
  Result, ok, err, ◌>>=◌, guard, or_err, guard-ok, or_err-ok, ok-committed, transaction, and_then,
}
use meshserver.Model.Enums.{Role, is_owner}
use meshserver.Model.Rows.{Space, Membership}
use meshserver.Model.Database.{Database}
use meshserver.Store.Spaces.Writes.{
  is_membership_of, has_space_id, find_space, find_member, insert_membership, set_membership,
  delete_membership, refresh_aggregate_counts,
}
use meshserver.Store.Spaces.Queries.{is_active_membership_of, get_member_role}
use meshserver.Store.Spaces.Views.{find_space-id}
use meshserver.Store.Spaces.Members.{
  add_space_member_body, kick_space_member_body, ban_space_member_body, unban_space_member_body,
  add_membership, add_to_space, ban_in_space, ban_membership, new_membership,
}
use meshserver.Store.Spaces.Roles.{
  set_space_member_role_body, transfer_ownership, assign_role, set_role,
}

-- The unique key of `server_members`.
abbrev pub HasUniqueMembers : Database → Type 0
HasUniqueMembers db = (s u : ℕ) → count (is_membership_of s u) db.server_members ≤ 1

abbrev pub active_row : ℕ → ℕ → List Membership → Option Membership
active_row s u = find (is_active_membership_of s u)

pub active_row-none :
    (s u : ℕ) (ms : List Membership)
    → count (is_membership_of s u) ms ≡ 0
    → active_row s u ms ≡ none
unfolding find count
active_row-none s u [] h = refl
active_row-none s u (m ∷ ms) h = ground (arith, active_row-none s u ms)

-- One row, and that one banned: no active row.
pub active_row-banned :
    (s u : ℕ) (ms : List Membership) (m : Membership)
    → count (is_membership_of s u) ms ≤ 1
    → find (is_membership_of s u) ms ≡ some m
    → m.is_banned ≡ true
    → active_row s u ms ≡ none
unfolding find count
active_row-banned s u [] m h e b = refl
active_row-banned s u (x ∷ ms) m h e b =
    ground (arith, active_row-banned s u ms m, active_row-none s u ms)

pub active_row-ban :
    (now s u : ℕ) (ms : List Membership)
    → active_row s u (update_where (is_membership_of s u) (ban_membership now) ms) ≡ none
unfolding find update_where
active_row-ban now s u [] = refl
active_row-ban now s u (m ∷ ms) = ground (arith, active_row-ban now s u ms)

pub active_row-absent :
    (s u : ℕ) (ms : List Membership)
    → find (is_membership_of s u) ms ≡ none
    → active_row s u ms ≡ none
unfolding find
active_row-absent s u [] h = refl
active_row-absent s u (m ∷ ms) h = ground (arith, active_row-absent s u ms)

pub active_row-delete :
    (s u : ℕ) (ms : List Membership)
    → active_row s u (delete_where (is_membership_of s u) ms) ≡ none
unfolding find delete_where
active_row-delete s u [] = refl
active_row-delete s u (m ∷ ms) = ground (arith, active_row-delete s u ms)

-- The active row is the one row.
pub active_row-find :
    (s u : ℕ) (ms : List Membership) (m : Membership)
    → count (is_membership_of s u) ms ≤ 1
    → active_row s u ms ≡ some m
    → find (is_membership_of s u) ms ≡ some m
unfolding find count
active_row-find s u [] m h e = e
active_row-find s u (x ∷ ms) m h e =
    ground (arith, active_row-find s u ms m, active_row-none s u ms)

pub get_member_role-none :
    (s u : ℕ) (db : Database)
    → active_row s u db.server_members ≡ none
    → get_member_role s u db ≡ err Error.not_found
unfolding get_member_role or_err ◌>>=◌
get_member_role-none s u db h = elim (Option-cases (find_space s db)) [
  | inl e ↦ rw e
  | inr (space, e) ↦
      rw e
        (rw (subst (λ i. active_row i u db.server_members ≡ none) (sym (find_space-id s db e)) h))
]
