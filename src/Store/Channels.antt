-- ===== src/Store/Channels.antt =====
-- internal/repository/mysql/channel.go: the channels and their members.
use meshserver.Base.{
  ℕ, ◌+◌, Bool, true, not, ◌&&◌, ◌||◌, Option, List, [], ◌∷◌, ◌==◌, ltb, max, if◌then◌else◌,
}
use meshserver.Base.Tables.{find, select, count, update_where, insert}
use meshserver.Base.Sorting.{order_by}
use meshserver.Base.Text.{Text, trim_space, is_empty}
use meshserver.Base.Errors.{Error}
use meshserver.Base.Exec.{Result, ok, ◌>>=◌, ◌>>◌, guard, or_err, Exec, transaction}
use meshserver.Model.Enums.{Visibility, Role, ChannelType, is_group, is_broadcast, is_manager}
use meshserver.Model.Rows.{Membership, Permission, Channel, ChannelMember}
use meshserver.Model.Database.{Database}
use meshserver.Store.Direct.Conversations.{is_some}
use meshserver.Store.Spaces.Writes.{has_space_id, is_membership_of, refresh_aggregate_counts}
use meshserver.Store.Spaces.Members.{to_uint32}
use meshserver.Store.Messages.{find_channel, is_known_channel}

abbrev pub is_channel_member : ℕ → ℕ → ChannelMember → Bool
is_channel_member channel_id user_id m = (m.channel_id == channel_id) && (m.user_id == user_id)

abbrev pub find_channel_member : ℕ → ℕ → Database → Option ChannelMember
find_channel_member channel_id user_id db =
    find (λ m. is_channel_member channel_id user_id m && is_known_channel m.channel_id db)
      db.channel_members

unfoldable pub is_user_member : ℕ → ℕ → Database → Bool
is_user_member channel_id user_id db = ltb 0 (
    count (λ m. is_channel_member channel_id user_id m && is_known_channel m.channel_id db)
      db.channel_members)

unfoldable pub get_permission : ℕ → ℕ → Database → Result Permission
get_permission channel_id user_id db = do
  m ← or_err (find_channel_member channel_id user_id db) Error.not_found
  ok m.permission

-- The open channels of the space that the user is a member of. `name_le` is the collation's order.
abbrev by_sort_order : (Text → Text → Bool) → Channel → Channel → Bool
by_sort_order name_le x y =
    ltb x.sort_order y.sort_order || ((x.sort_order == y.sort_order) && name_le x.name y.name)

unfoldable pub list_by_space_id_for_user : (Text → Text → Bool) → ℕ → ℕ → Database → List Channel
list_by_space_id_for_user name_le space_id user_id db = order_by (by_sort_order name_le) (
    select
      (λ c.
        ((c.space_id == space_id) && is_some (find (has_space_id space_id) db.servers))
        && (is_some (find (is_channel_member c.id user_id) db.channel_members) && (c.status == 1)))
      db.channels)

pub record CreateChannelInput : Type 0 where
  pub creator_user_id : ℕ
  pub space_id : ℕ
  pub channel_type : ChannelType
  pub name : Text
  pub description : Text
  pub visibility : Visibility
  pub slow_mode_seconds : ℕ
  pub bypass_space_channel_creation_policy : Bool

-- COALESCE(MAX(sort_order), 0)
unfoldable pub max_sort_order : ℕ → List Channel → ℕ
max_sort_order space_id [] = 0
max_sort_order space_id (c ∷ cs) =
    let rest = max_sort_order space_id cs in
    if c.space_id == space_id then max c.sort_order rest else rest

abbrev pub all_permissions : Permission
all_permissions = record {
  role = Role.owner;
  can_view = true;
  can_send_message = true;
  can_send_image = true;
  can_send_file = true;
  can_delete_message = true;
  can_manage_channel = true;
}

abbrev pub new_channel : ℕ → CreateChannelInput → ℕ → ℕ → ℕ → Channel
new_channel now in_ id sort_order member_count = record {
  id = id;
  space_id = in_.space_id;
  channel_type = in_.channel_type;
  name = trim_space in_.name;
  description = trim_space in_.description;
  visibility = in_.visibility;
  slow_mode_seconds = in_.slow_mode_seconds;
  auto_delete_after_seconds = 0;
  message_seq = 0;
  message_count = 0;
  subscriber_count = 0;
  member_count = member_count;
  created_by = in_.creator_user_id;
  status = 1;
  sort_order = sort_order;
  created_at = now;
  updated_at = now;
}

-- ON DUPLICATE KEY UPDATE leaves `can_view` as it is.
abbrev own_channel : ℕ → ChannelMember → ChannelMember
own_channel now m = record m {
  permission = record all_permissions { can_view = m.permission.can_view };
  updated_at = now;
}

unfoldable pub upsert_channel_owner : ℕ → ℕ → ℕ → Database → Database
upsert_channel_owner now channel_id user_id db = record db {
  channel_members =
      if is_some (find (is_channel_member channel_id user_id) db.channel_members)
      then update_where (is_channel_member channel_id user_id) (own_channel now) db.channel_members
      else insert
          (record {
            channel_id = channel_id;
            user_id = user_id;
            permission = all_permissions;
            joined_at = now;
            created_at = now;
            updated_at = now;
          })
          db.channel_members;
}

abbrev is_unbanned : ℕ → ℕ → Membership → Bool
is_unbanned space_id user_id m = is_membership_of space_id user_id m && not m.is_banned

unfoldable pub create_channel_body : ℕ → CreateChannelInput → Database → Result (Channel × Database)
create_channel_body now in_ db = do
  space ← or_err (find (has_space_id in_.space_id) db.servers) Error.not_found
  guard (space.allow_channel_creation || in_.bypass_space_channel_creation_policy)
      Error.channel_creation_disabled
  m ← or_err (find (is_unbanned space.id in_.creator_user_id) db.server_members) Error.not_found
  guard (is_manager m.role) Error.admin_role_required
  let sort_order = max_sort_order space.id db.channels + 10
  let inserted = record db {
    channels = insert (new_channel now in_ db.next_channel_id sort_order 0) db.channels;
    next_channel_id = db.next_channel_id + 1;
  }
  let joined = upsert_channel_owner now db.next_channel_id in_.creator_user_id inserted
  ok (
    new_channel now in_ (to_uint32 db.next_channel_id) sort_order 1,
    refresh_aggregate_counts now space.id joined,
  )

-- The checks of the arguments stand before the transaction.
unfoldable pub check_channel_input : CreateChannelInput → Result (Unit {0})
check_channel_input in_ = do
  guard (not (in_.space_id == 0)) Error.space_id_required
  guard (not (is_empty (trim_space in_.name))) Error.name_required
  guard (is_group in_.channel_type || is_broadcast in_.channel_type) Error.unsupported_channel_type

unfoldable pub create_channel : ℕ → CreateChannelInput → Exec Database Channel
create_channel now in_ =
    transaction (λ db. check_channel_input in_ >> create_channel_body now in_ db)

unfoldable pub set_group_auto_delete_body : ℕ → ℕ → ℕ → Database → Result (Unit {0} × Database)
set_group_auto_delete_body now channel_id seconds db = do
  c ← or_err (find_channel channel_id db) Error.not_found
  guard (is_group c.channel_type) Error.auto_delete_group_only
  ok (
    tt,
    record db {
      channels =
          update_where (λ x. x.id == c.id)
            (λ x. record x { auto_delete_after_seconds = seconds; updated_at = now }) db.channels;
    },
  )

unfoldable pub set_group_auto_delete_after_seconds : ℕ → ℕ → ℕ → Exec Database (Unit {0})
set_group_auto_delete_after_seconds now channel_id seconds =
    transaction (set_group_auto_delete_body now channel_id seconds)
