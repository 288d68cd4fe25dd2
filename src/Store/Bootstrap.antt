-- ===== src/Store/Bootstrap.antt =====
-- internal/repository/mysql/default_admin_bootstrap.go: the configured administrator at the start of the
-- process. libp2p's peer.Decode followed by String is the parameter `canonical`; log lines are left out.
pub mod Admin
pub mod Barred
use meshserver.Base.{
  ℕ, ◌<◌, ◌^◌, ◌≡◌, refl, Bool, true, false, Option, none, some, [], ◌==◌, if◌then◌else◌,
}
use meshserver.Base.Text.{Text, trim_space, is_empty}
use meshserver.Base.Errors.{Error}
use meshserver.Base.Exec.{Result, ok, err, or_err, Exec, reads, value, and_then, and_then-keeps}
use meshserver.Model.Enums.{Role, is_manager}
use meshserver.Model.Rows.{User, Space}
use meshserver.Model.Database.{Database}
use meshserver.Store.Users.{create_if_not_exists_by_peer_id, insert_or_touch}
use meshserver.Store.Spaces.Queries.{get_by_space_id, get_member_role}
use meshserver.Store.Spaces.Members.{invite_space_member}
use meshserver.Store.Spaces.Roles.{set_space_member_role}
use meshserver.Store.Spaces.Ownership.{IsOwned}
use meshserver.Store.Spaces.Ownership.Steps.{SpaceCall, after, after-IsOwned}

unfoldable pub promote : ℕ → ℕ → ℕ → Result Role → Exec Database (Unit {0})
promote now space_id user_id (ok role) =
    if is_manager role then value tt else set_space_member_role now space_id user_id Role.admin
promote now space_id user_id (err e) =
    and_then (invite_space_member now space_id user_id)
      (λ item. set_space_member_role now space_id user_id Role.admin)

-- GetMemberRole has no other error than not_found.
unfoldable pub ensure_admin_membership : ℕ → ℕ → ℕ → Exec Database (Unit {0})
ensure_admin_membership now space_id user_id db =
    promote now space_id user_id (get_member_role space_id user_id db) db

abbrev pub target_or_first : ℕ → ℕ
target_or_first target = if target == 0 then 1 else target

-- A space that does not exist yet is left for a later start.
unfoldable pub admin_in_space : ℕ → ℕ → ℕ → Result Space → Exec Database (Unit {0})
admin_in_space now target user_id (ok item) = ensure_admin_membership now target user_id
admin_in_space now target user_id (err e) = value tt

module _ (canonical : Text → Option Text) (now : ℕ) (uid : Text) where
  unfoldable pub bootstrap_peer : ℕ → Text → Exec Database (Unit {0})
  bootstrap_peer target peer_id =
      and_then (create_if_not_exists_by_peer_id now uid peer_id []) (λ usr db.
        admin_in_space now (target_or_first target) usr.id
          (get_by_space_id (target_or_first target) db) db)

  unfoldable pub bootstrap_default_admin : Text → ℕ → Exec Database (Unit {0})
  bootstrap_default_admin admin_peer_id target =
      if is_empty (trim_space admin_peer_id)
      then value tt
      else and_then (reads (λ db. or_err (canonical (trim_space admin_peer_id)) Error.bad_peer_id))
          (bootstrap_peer target)
