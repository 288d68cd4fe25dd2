-- ===== src/Store/Messages.antt =====
-- internal/repository/mysql/message.go: the messages of the channels.
pub mod Cleanup
use meshserver.Base.{
  ℕ, suc, ◌+◌, ◌-◌, ◌*◌, Bool, true, false, not, ◌&&◌, ◌||◌, Option, none, some, List, [], ◌∷◌, map,
  ◌==◌, ltb, leb, take, if◌then◌else◌, All,
}
use meshserver.Base.Tables.{find, select, count, update_where, insert}
use meshserver.Base.Sorting.{order_by, asc, desc}
use meshserver.Base.Text.{Text, text_eq}
use meshserver.Base.Errors.{Error}
use meshserver.Base.Exec.{
  Result, ok, err, ◌>>=◌, ◌>>◌, guard, or_err, Exec, transaction, reads, value, and_then,
}
use meshserver.Model.Enums.{MessageType, Status, is_normal}
use meshserver.Model.Rows.{User, Channel, Message, Attachment, Blob, MediaObject}
use meshserver.Model.Database.{Database}
use meshserver.Store.Direct.Conversations.{is_some, find_user}
use meshserver.Store.Direct.Messages.{nullable_string, is_known_user}

-- message.Attachment: the media object with its blob.
pub record AttachmentView : Type 0 where
  pub media : MediaObject
  pub blob : Blob

-- message.Message: the row with the sender's external id and the attachments.
pub record MessageView : Type 0 where
  pub row : Message
  pub sender_external_id : Text
  pub images : List AttachmentView
  pub files : List AttachmentView

abbrev pub find_channel : ℕ → Database → Option Channel
find_channel channel_id db = find (λ c. c.id == channel_id) db.channels

abbrev pub is_known_channel : ℕ → Database → Bool
is_known_channel channel_id db = is_some (find_channel channel_id db)

abbrev find_media : ℕ → Database → Option MediaObject
find_media id db = find (λ o. o.id == id) db.media_objects

abbrev find_blob : ℕ → Database → Option Blob
find_blob id db = find (λ b. b.id == id) db.blobs

-- An attachment whose media object or blob has no row is dropped by the joins.
abbrev join_blob : Option MediaObject → (MediaObject → Option Blob) → List AttachmentView
join_blob none f = []
join_blob (some o) f = elim (f o) [ none ↦ [] | some b ↦ record { media = o; blob = b } ∷ [] ]

abbrev add_all : List AttachmentView → List AttachmentView → List AttachmentView
add_all [] ys = ys
add_all (x ∷ xs) ys = x ∷ ys

attachment_views : Database → List Attachment → List AttachmentView
attachment_views db [] = []
attachment_views db (a ∷ as_) =
    add_all (join_blob (find_media a.media_id db) (λ o. find_blob o.blob_id db))
      (attachment_views db as_)

unfoldable pub attachments_of : ℕ → Database → List AttachmentView
unfolding attachment_views
attachments_of message_id db = attachment_views db (
    order_by (asc (λ a. a.sort_order))
      (select (λ a. a.message_id == message_id) db.message_attachments))

abbrev external_id_of : Option User → Text
external_id_of none = []
external_id_of (some u) = u.user_id

-- One row of `hydrateMessages`.
unfoldable pub hydrate : Database → Message → MessageView
hydrate db m = record {
  row = m;
  sender_external_id = external_id_of (find_user m.sender_user_id db);
  images = select (λ a. a.media.is_image) (attachments_of m.id db);
  files = select (λ a. not a.media.is_image) (attachments_of m.id db);
}

-- The joins of the queries: the message's channel and sender exist.
abbrev pub is_joined : Database → Message → Bool
is_joined db m = is_known_channel m.channel_id db && is_known_user m.sender_user_id db

unfoldable pub load_message_by_id : ℕ → Database → Result MessageView
load_message_by_id id db = do
  m ← or_err (find (λ m. (m.id == id) && is_joined db m) db.messages) Error.not_found
  ok (hydrate db m)

-- The columns of the unique key of `messages` that a client's id belongs to. Their collation ignores
-- case, the comparison here does not.
abbrev pub is_sent_as : ℕ → ℕ → Text → Message → Bool
is_sent_as channel_id sender client m =
    (m.channel_id == channel_id) && ((m.sender_user_id == sender) && text_eq m.client_msg_id client)

pub record CreateMessageInput : Type 0 where
  pub channel_id : ℕ
  pub sender_user_id : ℕ
  pub client_msg_id : Text
  pub message_type : MessageType
  pub text : Text
  pub attachment_media : List ℕ

abbrev pub new_message : ℕ → ℕ → Text → CreateMessageInput → ℕ → Message
new_message now id mid in_ seq = record {
  id = id;
  message_id = mid;
  channel_id = in_.channel_id;
  seq = seq;
  sender_user_id = in_.sender_user_id;
  client_msg_id = in_.client_msg_id;
  message_type = in_.message_type;
  text_content = nullable_string in_.text;
  status = Status.normal;
  created_at = now;
  updated_at = now;
  deleted_at = none;
}

-- INSERT INTO messages under the table's three unique keys.
unfoldable pub insert_message : Message → Database → Result Database
insert_message m db = do
  guard (not (is_some (find (λ x. text_eq x.message_id m.message_id) db.messages)))
      Error.duplicate_key
  guard (not (is_some (find (λ x. (x.channel_id == m.channel_id) && (x.seq == m.seq)) db.messages)))
      Error.duplicate_key
  guard
      (not (is_some (find (is_sent_as m.channel_id m.sender_user_id m.client_msg_id) db.messages)))
      Error.duplicate_key
  ok (record db { messages = insert m db.messages; next_message_id = db.next_message_id + 1 })

-- The blobs that the join of the UPDATE on blobs meets.
abbrev counts_for : ℕ → List MediaObject → Blob → Bool
counts_for media_id objects b =
    is_some (find (λ o. (o.id == media_id) && (o.blob_id == b.id)) objects)

-- The two statements of one turn of the loop over the attachments.
unfoldable pub attach : ℕ → ℕ → ℕ → Database → Result Database
attach message_id media_id index db = do
  guard
      (not (
        is_some (
          find (λ a. (a.message_id == message_id) && (a.media_id == media_id))
            db.message_attachments)))
      Error.duplicate_key
  ok (record db {
    message_attachments =
        insert (record { message_id = message_id; media_id = media_id; sort_order = index })
          db.message_attachments;
    blobs =
        update_where (counts_for media_id db.media_objects)
          (λ b. record b { ref_count = b.ref_count + 1 }) db.blobs;
  })

unfoldable pub attach_all : ℕ → List ℕ → ℕ → Database → Result Database
attach_all message_id [] index db = ok db
attach_all message_id (media_id ∷ rest) index db =
    attach message_id media_id index db >>= attach_all message_id rest (suc index)

unfoldable pub advance_channel : ℕ → ℕ → ℕ → Database → Database
advance_channel now channel_id seq db = record db {
  channels =
      update_where (λ c. c.id == channel_id)
        (λ c. record c { message_seq = seq; message_count = c.message_count + 1; updated_at = now })
        db.channels;
}

-- The row id to load behind the commit: of the message found, or of the new one.
unfoldable pub create_message_in :
    ℕ → Text → CreateMessageInput → Channel → Option Message → Database → Result (ℕ × Database)
create_message_in now mid in_ ch (some m) db = ok (m.id, db)
create_message_in now mid in_ ch none db = do
  inserted ← insert_message (new_message now db.next_message_id mid in_ (ch.message_seq + 1)) db
  attached ← attach_all db.next_message_id in_.attachment_media 0 inserted
  ok (db.next_message_id, advance_channel now ch.id (ch.message_seq + 1) attached)

unfoldable pub create_message_body :
    ℕ → Text → CreateMessageInput → Database → Result (ℕ × Database)
create_message_body now mid in_ db = do
  ch ← or_err (find_channel in_.channel_id db) Error.not_found
  create_message_in now mid in_ ch
      (find (is_sent_as ch.id in_.sender_user_id in_.client_msg_id) db.messages) db

-- `mid` is the id that `newExternalID` draws.
unfoldable pub create_message : ℕ → Text → CreateMessageInput → Exec Database MessageView
create_message now mid in_ =
    and_then (transaction (create_message_body now mid in_)) (λ id. reads (load_message_by_id id))

abbrev pub is_listed : ℕ → ℕ → Database → Message → Bool
is_listed channel_id after_seq db m =
    ((m.channel_id == channel_id) && (ltb after_seq m.seq && is_normal m.status)) && is_joined db m

unfoldable pub list_after_seq : ℕ → ℕ → ℕ → Database → List MessageView
list_after_seq channel_id after_seq limit db = map (hydrate db) (
    take limit
      (order_by (asc (λ m. m.seq)) (select (is_listed channel_id after_seq db) db.messages)))

-- The query of channel.go by which `GetByClientMsgID` finds the channel: its space exists.
unfoldable pub get_by_channel_id : ℕ → Database → Result Channel
get_by_channel_id channel_id db =
    or_err
      (find (λ c. (c.id == channel_id) && is_some (find (λ s. s.id == c.space_id) db.servers))
        db.channels)
      Error.not_found

unfoldable pub get_by_client_msg_id : ℕ → ℕ → Text → Database → Result MessageView
get_by_client_msg_id channel_id sender client db = do
  ch ← get_by_channel_id channel_id db
  m ← or_err (find (is_sent_as ch.id sender client) db.messages) Error.not_found
  load_message_by_id m.id db

abbrev created_first : List Message → Option ℕ
created_first [] = none
created_first (m ∷ ms) = some m.created_at

unfoldable pub get_last_message_time : ℕ → ℕ → Database → Option ℕ
get_last_message_time channel_id sender db = created_first (
    order_by (desc (λ m. m.seq)) (
      select
        (λ m.
          ((m.channel_id == channel_id) && is_known_channel m.channel_id db)
          && (m.sender_user_id == sender))
        db.messages))

-- The channels of the messages that an attachment row of the media object joins.
abbrev attached_to : ℕ → Database → Message → Bool
attached_to media_id db m =
    is_some (find (λ a. (a.media_id == media_id) && (a.message_id == m.id)) db.message_attachments)

abbrev joins_media : Text → Database → Message → Bool
joins_media media_id db m =
    is_some (find (λ o. text_eq o.media_id media_id && attached_to o.id db m) db.media_objects)

-- DISTINCT
unfoldable pub distinct : List ℕ → List ℕ
distinct [] = []
distinct (x ∷ xs) =
    let rest = distinct xs in if is_some (find (λ y. y == x) rest) then rest else x ∷ rest

unfoldable pub list_channel_ids_by_media_id : Text → Database → List ℕ
list_channel_ids_by_media_id media_id db =
    order_by (asc (λ c. c)) (
      distinct (map (λ (m : Message). m.channel_id) (select (joins_media media_id db) db.messages)))

-- Times are in milliseconds, so a second of DATE_SUB is 1000.
abbrev expires_in : ℕ → ℕ → Channel → Bool
expires_in now created_at c =
    ltb 0 c.auto_delete_after_seconds && ltb (created_at + c.auto_delete_after_seconds * 1000) now

abbrev expired_by : ℕ → ℕ → Option Channel → Bool
expired_by now created_at none = false
expired_by now created_at (some c) = expires_in now created_at c

-- The WHERE clause of the query for expired messages.
unfoldable pub is_expired : ℕ → Database → Message → Bool
is_expired now db m =
    is_normal m.status && expired_by now m.created_at (find_channel m.channel_id db)

abbrev pub cleanup_limit : ℕ → ℕ
cleanup_limit limit = if limit == 0 then 100 else limit

-- ORDER BY created_at, id
abbrev by_age : Message → Message → Bool
by_age x y = ltb x.created_at y.created_at || ((x.created_at == y.created_at) && leb x.id y.id)

unfoldable pub expired_rows : ℕ → ℕ → Database → List Message
expired_rows now limit db =
    take (cleanup_limit limit) (order_by by_age (select (is_expired now db) db.messages))

abbrev pub is_live : ℕ → Message → Bool
is_live id m = (m.id == id) && is_normal m.status

abbrev pub set_deleted : ℕ → Message → Message
set_deleted now m = record m { status = Status.deleted; deleted_at = some now; updated_at = now }

-- `deletedByChannel[id]++`
abbrev deleted_one : ℕ → (ℕ → ℕ) → ℕ → ℕ
deleted_one channel_id f c = if c == channel_id then f c + 1 else f c

-- What the loop keeps: the rows that it deleted, how many of them of each channel, the table.
pub record Progress : Type 0 where
  pub total : ℕ
  pub deleted_by_channel : ℕ → ℕ
  pub table : List Message

-- One turn of the loop; a row that is no longer normal does not count.
unfoldable pub delete_row : ℕ → Message → Progress → Progress
delete_row now row p = if count (is_live row.id) p.table == 0 then p else record {
  total = p.total + 1;
  deleted_by_channel = deleted_one row.channel_id p.deleted_by_channel;
  table = update_where (is_live row.id) (set_deleted now) p.table;
}

unfoldable pub delete_rows : ℕ → List Message → Progress → Progress
delete_rows now [] p = p
delete_rows now (row ∷ rows) p = delete_rows now rows (delete_row now row p)

-- The UPDATE of a channel whose count is not 0; ℕ's subtraction stops at 0, as the CASE does.
abbrev pub lower_count : ℕ → (ℕ → ℕ) → Channel → Channel
lower_count now f c = if f c.id == 0 then c else record c {
  message_count = if ltb (f c.id) c.message_count then c.message_count - f c.id else 0;
  updated_at = now;
}

abbrev pub no_counts : ℕ → ℕ
no_counts c = 0

unfoldable pub after_cleanup : ℕ → Progress → Database → Database
after_cleanup now p db = record db {
  messages = p.table;
  channels = map (lower_count now p.deleted_by_channel) db.channels;
}

abbrev pub cleaned : ℕ → Progress → Database → ℕ × Database
cleaned now p db = (p.total, after_cleanup now p db)

-- How many messages were deleted, which is the sum over the channels, and the tables.
unfoldable pub cleanup_expired_messages : ℕ → ℕ → Database → ℕ × Database
cleanup_expired_messages now limit db =
    cleaned now
      (delete_rows now (expired_rows now limit db)
        (record { total = 0; deleted_by_channel = no_counts; table = db.messages }))
      db
