-- ===== src/Store/Spaces/Roles.antt =====
-- internal/repository/mysql/server.go: the roles of members, the transfer of ownership, and the flag
-- that lets managers create channels.
use meshserver.Base.{ℕ, Bool, not, ◌&&◌, ◌||◌, ◌==◌, if◌then◌else◌}
use meshserver.Base.Errors.{Error}
use meshserver.Base.Exec.{Result, ok, ◌>>=◌, ◌>>◌, guard, or_err, Exec, transaction}
use meshserver.Model.Enums.{Role, is_owner, is_known_role, is_blank_role}
use meshserver.Model.Rows.{Space, Membership}
use meshserver.Model.Database.{Database}
use meshserver.Store.Spaces.Writes.{find_space, find_member, set_membership, set_space}

unfoldable pub set_space_allow_channel_creation : ℕ → ℕ → Bool → Exec Database (Unit {0})
set_space_allow_channel_creation now space_id enabled = transaction λ db. do
  space ← or_err (find_space space_id db) Error.not_found
  ok (
    tt,
    set_space space.id (λ s. record s { allow_channel_creation = enabled; updated_at = now }) db,
  )

abbrev pub set_role : ℕ → Role → Membership → Membership
set_role now role m = record m { role = role; updated_at = now }

-- Ownership moves: the owner becomes an admin, the target the owner, and the space names it.
unfoldable pub transfer_ownership : ℕ → Space → ℕ → Database → Database
transfer_ownership now space target_user_id db =
    set_space space.id (λ s. record s { owner_user_id = target_user_id; updated_at = now })
      (set_membership space.id target_user_id (set_role now Role.owner)
        (set_membership space.id space.owner_user_id (set_role now Role.admin) db))

unfoldable pub assign_role : ℕ → Space → ℕ → Role → Database → Database
assign_role now space target_user_id role db =
    if is_owner role && not (target_user_id == space.owner_user_id)
    then transfer_ownership now space target_user_id db
    else set_membership space.id target_user_id (set_role now role) db

unfoldable pub set_space_member_role_body :
    ℕ → ℕ → ℕ → Role → Database → Result (Unit {0} × Database)
set_space_member_role_body now space_id target_user_id role db = do
  guard (not (is_blank_role role)) Error.role_required
  guard (is_known_role role) Error.unsupported_role
  space ← or_err (find_space space_id db) Error.not_found
  m ← or_err (find_member space.id target_user_id db) Error.not_found
  guard (not (target_user_id == space.owner_user_id) || is_owner role)
      Error.owner_role_cannot_change
  ok (tt, assign_role now space target_user_id role db)

unfoldable pub set_space_member_role : ℕ → ℕ → ℕ → Role → Exec Database (Unit {0})
set_space_member_role now space_id target_user_id role =
    transaction (set_space_member_role_body now space_id target_user_id role)
