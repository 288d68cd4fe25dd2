-- ===== src/Store/Spaces/Queries.antt =====
-- internal/repository/mysql/server.go: the queries of spaces and members. The order of names is the
-- database's collation, a parameter.
use meshserver.Base.{
  ℕ, Bool, not, ◌&&◌, Option, none, some, List, [], ◌∷◌, ◌++◌, map, ◌==◌, ltb, if◌then◌else◌, take,
}
use meshserver.Base.Tables.{find, select, count}
use meshserver.Base.Sorting.{order_by, asc}
use meshserver.Base.Text.{Text}
use meshserver.Base.Errors.{Error}
use meshserver.Base.Exec.{Result, ok, ◌>>=◌, or_err}
use meshserver.Model.Enums.{Role, is_manager}
use meshserver.Model.Rows.{Space, Membership}
use meshserver.Model.Database.{Database}
use meshserver.Store.Spaces.Writes.{find_space, has_space_id, is_membership_of}

unfoldable pub get_by_space_id : ℕ → Database → Result Space
get_by_space_id space_id db = or_err (find_space space_id db) Error.not_found

-- `WHERE … AND sm.user_id = ? AND sm.is_banned = 0`
abbrev pub is_active_membership_of : ℕ → ℕ → Membership → Bool
is_active_membership_of space_id user_id m = is_membership_of space_id user_id m && not m.is_banned

-- A banned member has no role.
unfoldable pub get_member_role : ℕ → ℕ → Database → Result Role
get_member_role space_id user_id db = do
  space ← or_err (find_space space_id db) Error.not_found
  m ← or_err (find (is_active_membership_of space.id user_id) db.server_members) Error.not_found
  ok m.role

-- The count of the rows of the join that meet the condition is positive.
abbrev pub is_creator_row : ℕ → Space → Membership → Bool
is_creator_row user_id space m =
    is_active_membership_of space.id user_id m
    && ((space.status == 1) && (is_manager m.role && space.allow_channel_creation))

abbrev creator_rows : ℕ → Database → Option Space → ℕ
creator_rows user_id db none = 0
creator_rows user_id db (some space) = count (is_creator_row user_id space) db.server_members

unfoldable pub can_create_group : ℕ → ℕ → Database → Bool
can_create_group space_id user_id db = ltb 0 (creator_rows user_id db (find_space space_id db))

-- The inner join of spaces and the user's memberships, one row for each pair.
joined_rows : ℕ → List Membership → List Space → List Space
joined_rows user_id members [] = []
joined_rows user_id members (s ∷ rest) =
    map (λ _. s) (select (λ m. is_active_membership_of s.id user_id m && (s.status == 1)) members)
    ++ joined_rows user_id members rest

unfoldable pub list_by_user_id : (Text → Text → Bool) → ℕ → Database → List Space
unfolding joined_rows
list_by_user_id collates user_id db =
    order_by (λ s t. collates s.name t.name) (joined_rows user_id db.server_members db.servers)

abbrev is_listed_space : ℕ → Database → Bool
is_listed_space space_id db =
    ltb 0 (count (λ s. has_space_id space_id s && (s.status == 1)) db.servers)

abbrev has_user : ℕ → Database → Bool
has_user user_id db = ltb 0 (count (λ u. u.id == user_id) db.users)

-- A page of the active members after a member id, in order of their ids. The columns of `users`
-- that the page shows are joined by the caller's lookup of `user_id`.
unfoldable pub list_space_members : ℕ → ℕ → ℕ → Database → List Membership
list_space_members space_id after_member_id limit db = take (if limit == 0 then 20 else limit) (
    order_by (asc (λ m. m.id)) (
      select
        (λ m.
          is_listed_space space_id db
          && (m.space_id == space_id)
          && (not m.is_banned && (ltb after_member_id m.id && has_user m.user_id db)))
        db.server_members))
