-- ===== src/Store/Reads.antt =====
-- internal/repository/mysql/read_and_auth.go: read cursors and authentication nonces.
pub mod Cursors
pub mod Nonces
use meshserver.Base.{ℕ, Bool, not, ◌&&◌, Option, none, some, ◌==◌, leb, max, if◌then◌else◌}
use meshserver.Base.Tables.{find, count, update_where, insert}
use meshserver.Base.Text.{Text, text_eq}
use meshserver.Base.Errors.{Error}
use meshserver.Base.Exec.{Result, ok, err, Exec}
use meshserver.Model.Rows.{Channel, ReadCursor, Nonce}
use meshserver.Model.Database.{Database}
use meshserver.Store.Direct.Conversations.{is_some}

-- The unique key of `user_channel_reads`.
abbrev pub is_cursor_of : ℕ → ℕ → ReadCursor → Bool
is_cursor_of user_id channel_id r = (r.user_id == user_id) && (r.channel_id == channel_id)

abbrev pub new_cursor : ℕ → ℕ → ℕ → ℕ → ℕ → ReadCursor
new_cursor now user_id channel_id delivered read = record {
  user_id = user_id;
  channel_id = channel_id;
  last_delivered_seq = delivered;
  last_read_seq = read;
  updated_at = now;
}

abbrev pub find_cursor : ℕ → ℕ → Database → Option ReadCursor
find_cursor user_id channel_id db = find (is_cursor_of user_id channel_id) db.user_channel_reads

-- INSERT … ON DUPLICATE KEY UPDATE: the row of the key is updated if there is one.
unfoldable pub upsert_cursor : ReadCursor → (ReadCursor → ReadCursor) → Database → Database
upsert_cursor new f db = record db {
  user_channel_reads =
      if is_some (find_cursor new.user_id new.channel_id db)
      then update_where (is_cursor_of new.user_id new.channel_id) f db.user_channel_reads
      else insert new db.user_channel_reads;
}

abbrev pub channel_exists : ℕ → Database → Bool
channel_exists channel_id db = is_some (find (λ c. c.id == channel_id) db.channels)

abbrev pub raise_delivered : ℕ → ℕ → ReadCursor → ReadCursor
raise_delivered now seq r = record r {
  last_delivered_seq = max r.last_delivered_seq seq;
  updated_at = now;
}

abbrev pub raise_read : ℕ → ℕ → ReadCursor → ReadCursor
raise_read now seq r = record r { last_read_seq = max r.last_read_seq seq; updated_at = now }

-- The SELECT yields no row, and nothing is inserted, if there is no such channel.
unfoldable pub upsert_delivered_seq : ℕ → ℕ → ℕ → ℕ → Database → Database
upsert_delivered_seq now user_id channel_id seq db =
    if channel_exists channel_id db
    then upsert_cursor (new_cursor now user_id channel_id seq 0) (raise_delivered now seq) db
    else db

unfoldable pub upsert_read_seq : ℕ → ℕ → ℕ → ℕ → Database → Database
upsert_read_seq now user_id channel_id seq db =
    if channel_exists channel_id db
    then upsert_cursor (new_cursor now user_id channel_id 0 seq) (raise_read now seq) db
    else db

abbrev pub has_nonce_hash : Text → Nonce → Bool
has_nonce_hash hash n = text_eq n.nonce_hash hash

-- The hash is a unique key.
unfoldable pub store_nonce : Text → Text → Text → ℕ → ℕ → Exec Database (Unit {0})
store_nonce hash client node issued_at expires_at db =
    if is_some (find (has_nonce_hash hash) db.auth_nonces) then (err Error.duplicate_key, db) else (
      ok tt,
      record db {
        auth_nonces =
            insert
              (record {
                nonce_hash = hash;
                client_peer_id = client;
                node_peer_id = node;
                issued_at = issued_at;
                expires_at = expires_at;
                used_at = none;
              })
              db.auth_nonces;
      },
    )

-- The WHERE clause of the UPDATE.
abbrev pub is_usable : Text → Text → Text → ℕ → Nonce → Bool
is_usable hash client node now n =
    has_nonce_hash hash n
    && (text_eq n.client_peer_id client
        && (text_eq n.node_peer_id node && (not (is_some n.used_at) && leb now n.expires_at)))

abbrev pub set_used : ℕ → Nonce → Nonce
set_used now n = record n { used_at = some now }

unfoldable pub use_nonce : Text → Text → Text → ℕ → Exec Database (Unit {0})
use_nonce hash client node now db =
    if count (is_usable hash client node now) db.auth_nonces == 0
    then (err Error.not_found, db)
    else (
      ok tt,
      record db {
        auth_nonces = update_where (is_usable hash client node now) (set_used now) db.auth_nonces;
      },
    )
