-- ===== src/Store/Spaces/Members.antt =====
-- internal/repository/mysql/server.go: creating a space, and adding, kicking, banning and unbanning
-- its members. The body of each transaction is a function of its own.
use meshserver.Base.{
  ℕ, ◌+◌, ◌%◌, ◌^◌, Bool, true, false, not, ◌||◌, Option, none, some, ◌==◌, if◌then◌else◌,
}
use meshserver.Base.Tables.{insert}
use meshserver.Base.Text.{Text, trim_space, is_empty}
use meshserver.Base.Errors.{Error}
use meshserver.Base.Exec.{
  Result, ok, ◌>>=◌, ◌>>◌, guard, or_err, Exec, transaction, reads, and_then,
}
use meshserver.Model.Enums.{Visibility, Role, is_public, is_known_visibility}
use meshserver.Model.Rows.{Space, Membership}
use meshserver.Model.Database.{Database}
use meshserver.Store.Spaces.Writes.{
  find_space, find_member, insert_membership, set_membership, delete_membership,
  refresh_aggregate_counts,
}
use meshserver.Store.Spaces.Queries.{get_by_space_id}

abbrev pub SpaceExec : Type 0
SpaceExec = Exec Database Space

-- `return s.GetBySpaceID(ctx, id)` behind the commit.
abbrev pub then_load : Exec Database ℕ → SpaceExec
then_load call = and_then call λ space_id. reads (get_by_space_id space_id)

-- `uint32(spaceDBID64)`
abbrev pub to_uint32 : ℕ → ℕ
to_uint32 n = n % 2 ^ 32

pub record CreateSpaceInput : Type 0 where
  pub host_node_id : ℕ
  pub creator_user_id : ℕ
  pub name : Text
  pub description : Text
  pub visibility : Visibility
  pub allow_channel_creation : Bool

-- The row that INSERT INTO server_members writes.
abbrev pub new_membership : ℕ → ℕ → ℕ → ℕ → Role → Bool → Membership
new_membership now id space_id user_id role banned = record {
  id = id;
  space_id = space_id;
  user_id = user_id;
  role = role;
  is_muted = false;
  is_banned = banned;
  joined_at = now;
  last_seen_at = now;
  created_at = now;
  updated_at = now;
}

unfoldable pub add_membership : ℕ → ℕ → ℕ → Role → Bool → Database → Database
add_membership now space_id user_id role banned db =
    let added =
      insert_membership (new_membership now db.next_member_id space_id user_id role banned) db in
    record added { next_member_id = db.next_member_id + 1 }

abbrev pub new_space : ℕ → CreateSpaceInput → ℕ → Space
new_space now in_ id = record {
  id = id;
  host_node_id = in_.host_node_id;
  owner_user_id = in_.creator_user_id;
  name = trim_space in_.name;
  description = trim_space in_.description;
  visibility = in_.visibility;
  member_count = 1;
  channel_count = 0;
  allow_channel_creation = in_.allow_channel_creation;
  status = 1;
  created_at = now;
  updated_at = now;
}

unfoldable pub create_space_body : ℕ → CreateSpaceInput → Database → Result (ℕ × Database)
create_space_body now in_ db = do
  guard (not (is_empty (trim_space in_.name))) Error.name_required
  guard (is_known_visibility in_.visibility) Error.unsupported_visibility
  let space_id = to_uint32 db.next_space_id
  let inserted = record db {
    servers = insert (new_space now in_ db.next_space_id) db.servers;
    next_space_id = db.next_space_id + 1;
  }
  let joined = add_membership now space_id in_.creator_user_id Role.owner false inserted
  ok (space_id, refresh_aggregate_counts now space_id joined)

unfoldable pub create_space : ℕ → CreateSpaceInput → SpaceExec
create_space now in_ = then_load (transaction (create_space_body now in_))

-- A member who is already there is left alone; a banned one is refused.
unfoldable pub add_to_space :
    ℕ → ℕ → Bool → Space → Option Membership → Database → Result (ℕ × Database)
add_to_space now user_id public_only space (some m) db =
    guard (not m.is_banned) Error.user_is_banned >> ok (space.id, db)
add_to_space now user_id public_only space none db =
    guard (not public_only || is_public space.visibility) Error.space_is_private
    >> ok (
      space.id,
      refresh_aggregate_counts now space.id
          (add_membership now space.id user_id Role.member false db),
    )

unfoldable pub add_space_member_body : ℕ → ℕ → ℕ → Bool → Database → Result (ℕ × Database)
add_space_member_body now space_id user_id public_only db = do
  space ← or_err (find_space space_id db) Error.not_found
  add_to_space now user_id public_only space (find_member space.id user_id db) db

unfoldable pub add_space_member : ℕ → ℕ → ℕ → Bool → SpaceExec
add_space_member now space_id user_id public_only =
    then_load (transaction (add_space_member_body now space_id user_id public_only))

unfoldable pub join_space : ℕ → ℕ → ℕ → SpaceExec
join_space now space_id user_id = add_space_member now space_id user_id true

unfoldable pub invite_space_member : ℕ → ℕ → ℕ → SpaceExec
invite_space_member now space_id target_user_id = add_space_member now space_id target_user_id false

unfoldable pub kick_space_member_body : ℕ → ℕ → ℕ → Database → Result (ℕ × Database)
kick_space_member_body now space_id target_user_id db = do
  space ← or_err (find_space space_id db) Error.not_found
  guard (not (target_user_id == space.owner_user_id)) Error.owner_cannot_be_removed
  m ← or_err (find_member space.id target_user_id db) Error.not_found
  guard (not m.is_banned) Error.user_is_banned
  ok (
    space.id,
    refresh_aggregate_counts now space.id (delete_membership space.id target_user_id db),
  )

unfoldable pub kick_space_member : ℕ → ℕ → ℕ → SpaceExec
kick_space_member now space_id target_user_id =
    then_load (transaction (kick_space_member_body now space_id target_user_id))

abbrev pub ban_membership : ℕ → Membership → Membership
ban_membership now m = record m { is_banned = true; role = Role.member; updated_at = now }

-- The three cases of the switch: banned before, a member, not a member.
unfoldable pub ban_in_space : ℕ → ℕ → Space → Option Membership → Database → Database
ban_in_space now user_id space none db =
    refresh_aggregate_counts now space.id (add_membership now space.id user_id Role.member true db)
ban_in_space now user_id space (some m) db =
    if m.is_banned
    then db
    else refresh_aggregate_counts now space.id
        (set_membership space.id user_id (ban_membership now) db)

unfoldable pub ban_space_member_body : ℕ → ℕ → ℕ → Database → Result (ℕ × Database)
ban_space_member_body now space_id target_user_id db = do
  space ← or_err (find_space space_id db) Error.not_found
  guard (not (target_user_id == space.owner_user_id)) Error.owner_cannot_be_banned
  ok (space.id, ban_in_space now target_user_id space (find_member space.id target_user_id db) db)

unfoldable pub ban_space_member : ℕ → ℕ → ℕ → SpaceExec
ban_space_member now space_id target_user_id =
    then_load (transaction (ban_space_member_body now space_id target_user_id))

abbrev pub unban_membership : ℕ → Membership → Membership
unban_membership now m = record m { is_banned = false; updated_at = now }

unfoldable pub unban_space_member_body : ℕ → ℕ → ℕ → Database → Result (ℕ × Database)
unban_space_member_body now space_id target_user_id db = do
  space ← or_err (find_space space_id db) Error.not_found
  guard (not (target_user_id == space.owner_user_id)) Error.owner_cannot_be_unbanned
  m ← or_err (find_member space.id target_user_id db) Error.not_found
  let unbanned = set_membership space.id target_user_id (unban_membership now) db
  ok (space.id, if m.is_banned then refresh_aggregate_counts now space.id unbanned else db)

unfoldable pub unban_space_member : ℕ → ℕ → ℕ → SpaceExec
unban_space_member now space_id target_user_id =
    then_load (transaction (unban_space_member_body now space_id target_user_id))
