-- ===== src/Store/Spaces/Writes.antt =====
-- The statements of internal/repository/mysql/server.go that read and write one membership or one
-- space, and `refreshAggregateCounts` of bootstrap.go.
use meshserver.Base.{ℕ, Bool, not, ◌&&◌, Option, ◌==◌}
use meshserver.Base.Tables.{find, count, update_where, delete_where, insert}
use meshserver.Model.Rows.{Space, Membership, Channel}
use meshserver.Model.Database.{Database}

abbrev pub has_space_id : ℕ → Space → Bool
has_space_id space_id s = s.id == space_id

-- `WHERE space_id = ? AND user_id = ?`
abbrev pub is_membership_of : ℕ → ℕ → Membership → Bool
is_membership_of space_id user_id m = (m.space_id == space_id) && (m.user_id == user_id)

-- `WHERE space_id = ? AND is_banned = 0`
abbrev pub is_active_in : ℕ → Membership → Bool
is_active_in space_id m = (m.space_id == space_id) && not m.is_banned

-- `WHERE space_id = ? AND status = 1`
abbrev pub is_open_channel_of : ℕ → Channel → Bool
is_open_channel_of space_id c = (c.space_id == space_id) && (c.status == 1)

abbrev pub find_space : ℕ → Database → Option Space
find_space space_id db = find (has_space_id space_id) db.servers

abbrev pub find_member : ℕ → ℕ → Database → Option Membership
find_member space_id user_id db = find (is_membership_of space_id user_id) db.server_members

abbrev pub active_members : ℕ → Database → ℕ
active_members space_id db = count (is_active_in space_id) db.server_members

unfoldable pub insert_membership : Membership → Database → Database
insert_membership m db = record db { server_members = insert m db.server_members }

unfoldable pub set_membership : ℕ → ℕ → (Membership → Membership) → Database → Database
set_membership space_id user_id f db = record db {
  server_members = update_where (is_membership_of space_id user_id) f db.server_members;
}

unfoldable pub delete_membership : ℕ → ℕ → Database → Database
delete_membership space_id user_id db = record db {
  server_members = delete_where (is_membership_of space_id user_id) db.server_members;
}

unfoldable pub set_space : ℕ → (Space → Space) → Database → Database
set_space space_id f db = record db { servers = update_where (has_space_id space_id) f db.servers }

abbrev pub channel_headcount : ℕ → Database → ℕ
channel_headcount channel_id db = count (λ m. m.channel_id == channel_id) db.channel_members

-- Both UPDATE statements: the counts of the space, and those of its channels.
unfoldable pub refresh_aggregate_counts : ℕ → ℕ → Database → Database
refresh_aggregate_counts now space_id db = record db {
  servers =
      update_where (has_space_id space_id)
        (λ s. record s {
          member_count = active_members space_id db;
          channel_count = count (is_open_channel_of space_id) db.channels;
          updated_at = now;
        })
        db.servers;
  channels =
      update_where (λ c. c.space_id == space_id)
        (λ c. record c {
          subscriber_count = channel_headcount c.id db;
          member_count = channel_headcount c.id db;
          updated_at = now;
        })
        db.channels;
}
