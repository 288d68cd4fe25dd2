-- ===== src/Store/Direct/Messages.antt =====
-- internal/repository/mysql/direct_chat.go: storing, acknowledging and listing direct messages.
use meshserver.Base.{
  ℕ, ◌+◌, Bool, true, false, not, ◌&&◌, ◌||◌, Option, none, some, List, [], ◌∷◌, ◌==◌, ltb,
  if◌then◌else◌, take, length, last?, map,
}
use meshserver.Base.Tables.{find, select, insert, update_where, count}
use meshserver.Base.Sorting.{order_by, asc}
use meshserver.Base.Text.{Text, text_eq}
use meshserver.Base.Errors.{Error}
use meshserver.Base.Exec.{
  Result, ok, err, ◌>>=◌, ◌>>◌, guard, or_err, Exec, transaction, reads, value, and_then,
}
use meshserver.Model.Enums.{MessageType}
use meshserver.Model.Rows.{User, DirectConversation, DirectMessage}
use meshserver.Model.Database.{Database}
use meshserver.Store.Direct.Conversations.{has_conversation_id, is_some, find_user, takes_part}

-- repository.DirectMessage: the row with the external ids of its users.
pub record DirectMessageView : Type 0 where
  pub row : DirectMessage
  pub sender_external_id : Text
  pub recipient_external_id : Text

abbrev text_or_empty : Option Text → Text
text_or_empty none = []
text_or_empty (some t) = t

abbrev pub text_of : DirectMessageView → Text
text_of v = text_or_empty v.row.text_content

abbrev pub is_known_user : ℕ → Database → Bool
is_known_user id db = is_some (find_user id db)

-- The joined query: the first row of the condition whose users both exist.
unfoldable pub load_direct_message_row :
    (DirectMessage → Bool) → Database → Result DirectMessageView
load_direct_message_row where_ db = do
  m ←
      or_err
        (find
          (λ m.
            where_ m && (is_known_user m.sender_user_id db && is_known_user m.recipient_user_id db))
          db.direct_messages)
        Error.not_found
  su ← or_err (find_user m.sender_user_id db) Error.not_found
  ru ← or_err (find_user m.recipient_user_id db) Error.not_found
  ok (record { row = m; sender_external_id = su.user_id; recipient_external_id = ru.user_id })

-- The columns of the unique key `uk_dm_idempotent`. Their collation ignores case, the comparison here
-- does not: client ids that differ in case alone are outside the model.
abbrev pub is_resend : Text → ℕ → Text → DirectMessage → Bool
is_resend cid sender client m =
    text_eq m.conversation_id cid
    && ((m.sender_user_id == sender) && text_eq m.client_msg_id client)

abbrev pub has_message_id : Text → DirectMessage → Bool
has_message_id mid m = text_eq m.message_id mid

-- The columns of the unique key `uk_dm_conv_seq`.
abbrev pub has_seq : Text → ℕ → DirectMessage → Bool
has_seq cid seq m = text_eq m.conversation_id cid && (m.seq == seq)

unfoldable pub get_direct_message_by_client_msg_id :
    Text → ℕ → Text → Database → Result DirectMessageView
get_direct_message_by_client_msg_id cid sender client =
    load_direct_message_row (is_resend cid sender client)

unfoldable pub get_direct_message_by_message_id : Text → Database → Result DirectMessageView
get_direct_message_by_message_id mid = load_direct_message_row (has_message_id mid)

pub record CreateDirectMessageInput : Type 0 where
  pub conversation_id : Text
  pub sender_user_id : ℕ
  pub recipient_user_id : ℕ
  pub client_msg_id : Text
  pub message_type : MessageType
  pub text : Text

-- `nullableString`
abbrev pub nullable_string : Text → Option Text
nullable_string [] = none
nullable_string (c ∷ t) = some (c ∷ t)

-- An empty type is stored as text.
abbrev pub type_or_text : MessageType → MessageType
type_or_text (MessageType.other []) = MessageType.text
type_or_text t = t

abbrev pub new_direct_message : ℕ → Text → CreateDirectMessageInput → ℕ → DirectMessage
new_direct_message now mid in_ seq = record {
  message_id = mid;
  conversation_id = in_.conversation_id;
  seq = seq;
  sender_user_id = in_.sender_user_id;
  recipient_user_id = in_.recipient_user_id;
  client_msg_id = in_.client_msg_id;
  message_type = type_or_text in_.message_type;
  text_content = nullable_string in_.text;
  created_at_ms = now;
  recipient_acked_at_ms = none;
}

-- INSERT INTO direct_messages under the table's three unique keys.
unfoldable pub insert_direct_message : DirectMessage → Database → Result Database
insert_direct_message m db = do
  guard (not (is_some (find (has_message_id m.message_id) db.direct_messages))) Error.duplicate_key
  guard (not (is_some (find (has_seq m.conversation_id m.seq) db.direct_messages)))
      Error.duplicate_key
  guard
      (not (
        is_some
          (find (is_resend m.conversation_id m.sender_user_id m.client_msg_id) db.direct_messages)))
      Error.duplicate_key
  ok (record db { direct_messages = insert m db.direct_messages })

-- UPDATE direct_conversations … WHERE id = ?
unfoldable pub advance_conversation : ℕ → ℕ → ℕ → Database → Database
advance_conversation now id seq db = record db {
  direct_conversations =
      update_where (λ c. c.id == id)
        (λ c. record c { last_seq = seq; last_message_at_ms = now; updated_at = now })
        db.direct_conversations;
}

-- What the transaction found: the message that was stored before, or the id of the new one.
pub data Stored : Type 0 where
  existing : DirectMessageView → Stored
  created : Text → Stored

unfoldable pub store_new :
    ℕ → Text → CreateDirectMessageInput → DirectConversation → Database → Result (Stored × Database)
store_new now mid in_ conv db = do
  inserted ← insert_direct_message (new_direct_message now mid in_ (conv.last_seq + 1)) db
  ok (created mid, advance_conversation now conv.id (conv.last_seq + 1) inserted)

-- `ErrNotFound` of the look-up leads on to the insertion; another error would be returned.
unfoldable pub store_unless :
    ℕ
    → Text
    → CreateDirectMessageInput
    → DirectConversation
    → Result DirectMessageView
    → Database
    → Result (Stored × Database)
store_unless now mid in_ conv (ok v) db = ok (existing v, db)
store_unless now mid in_ conv (err Error.not_found) db = store_new now mid in_ conv db
store_unless now mid in_ conv (err e) db = err e

unfoldable pub create_direct_message_body :
    ℕ → Text → CreateDirectMessageInput → Database → Result (Stored × Database)
create_direct_message_body now mid in_ db = do
  conv ←
      or_err (find (has_conversation_id in_.conversation_id) db.direct_conversations)
        Error.not_found
  guard (takes_part in_.sender_user_id conv) Error.direct_chat_forbidden
  guard (takes_part in_.recipient_user_id conv) Error.direct_chat_forbidden
  guard (not (in_.sender_user_id == in_.recipient_user_id)) Error.invalid_recipient
  store_unless now mid in_ conv
      (get_direct_message_by_client_msg_id in_.conversation_id in_.sender_user_id in_.client_msg_id
        db)
      db

-- Behind the commit: the message found, or a query of the new one.
unfoldable pub load_stored : Stored → Exec Database DirectMessageView
load_stored (existing v) = value v
load_stored (created mid) = reads (get_direct_message_by_message_id mid)

-- `mid` is the id that `newExternalID` draws.
unfoldable pub create_direct_message :
    ℕ → Text → CreateDirectMessageInput → Exec Database DirectMessageView
create_direct_message now mid in_ =
    and_then (transaction (create_direct_message_body now mid in_)) load_stored

-- The answer of `AckDirectMessage`: acknowledged before, the sender, the conversation.
pub record AckOutcome : Type 0 where
  pub already_acked : Bool
  pub sender_user_id : ℕ
  pub conversation_id : Text

abbrev pub ack_outcome : Bool → DirectMessageView → AckOutcome
ack_outcome already v = record {
  already_acked = already;
  sender_user_id = v.row.sender_user_id;
  conversation_id = v.row.conversation_id;
}

-- `WHERE message_id = ? AND recipient_user_id = ? AND recipient_acked_at_ms IS NULL`
abbrev pub is_unacked_for : Text → ℕ → DirectMessage → Bool
is_unacked_for mid recipient m =
    has_message_id mid m
    && ((m.recipient_user_id == recipient) && not (is_some m.recipient_acked_at_ms))

abbrev pub set_acked : ℕ → DirectMessage → DirectMessage
set_acked at m = record m { recipient_acked_at_ms = some at }

abbrev pub write_ack : Text → ℕ → ℕ → Database → Database
write_ack mid recipient at db = record db {
  direct_messages = update_where (is_unacked_for mid recipient) (set_acked at) db.direct_messages;
}

-- No row was written: another call may have acknowledged the message in between.
unfoldable pub recheck_ack : Text → Database → Result AckOutcome
recheck_ack mid db = do
  v ← get_direct_message_by_message_id mid db
  guard (is_some v.row.recipient_acked_at_ms) Error.ack_failed
  ok (ack_outcome true v)

unfoldable pub update_ack : Text → ℕ → ℕ → DirectMessageView → Exec Database AckOutcome
update_ack mid recipient at v db =
    if count (is_unacked_for mid recipient) db.direct_messages == 0
    then (recheck_ack mid db, db)
    else (ok (ack_outcome false v), write_ack mid recipient at db)

unfoldable pub ack_loaded :
    (Database → Database) → Text → ℕ → ℕ → Result DirectMessageView → Exec Database AckOutcome
ack_loaded between mid recipient at (err e) db = (err e, db)
ack_loaded between mid recipient at (ok v) db =
    if not (v.row.recipient_user_id == recipient)
    then (err Error.direct_chat_forbidden, db)
    else if is_some v.row.recipient_acked_at_ms
    then (ok (ack_outcome true v), db)
    else update_ack mid recipient at v (between db)

unfoldable pub ack_direct_message : (Database → Database) → Text → ℕ → ℕ → Exec Database AckOutcome
ack_direct_message between mid recipient at db =
    ack_loaded between mid recipient at (get_direct_message_by_message_id mid db) db

-- The rows of the query in `ListPendingDirectMessages`, with its joins.
abbrev pub is_pending : Text → ℕ → ℕ → Database → DirectMessage → Bool
is_pending cid recipient after_seq db m =
    (text_eq m.conversation_id cid
      && ((m.recipient_user_id == recipient)
          && (not (is_some m.recipient_acked_at_ms) && ltb after_seq m.seq)))
    && (is_known_user m.sender_user_id db && is_known_user m.recipient_user_id db)

abbrev pub pending_limit : ℕ → ℕ
pending_limit limit = if (limit == 0) || ltb 500 limit then 100 else limit

pub record PendingPage : Type 0 where
  pub items : List DirectMessageView
  pub next_after : ℕ
  pub has_more : Bool

abbrev pub last_seq_or : ℕ → Option DirectMessage → ℕ
last_seq_or after_seq none = after_seq
last_seq_or after_seq (some m) = m.seq

abbrev external_id : Option User → Text
external_id none = []
external_id (some u) = u.user_id

-- The row with its users' external ids, which the joins have shown to exist.
abbrev pub view_of : Database → DirectMessage → DirectMessageView
view_of db m = record {
  row = m;
  sender_external_id = external_id (find_user m.sender_user_id db);
  recipient_external_id = external_id (find_user m.recipient_user_id db);
}

unfoldable pub page_of : Database → ℕ → ℕ → List DirectMessage → PendingPage
page_of db limit after_seq out = record {
  items = map (view_of db) out;
  next_after = last_seq_or after_seq (last? out);
  has_more = length out == limit;
}

unfoldable pub list_pending_direct_messages : Text → ℕ → ℕ → ℕ → Database → PendingPage
list_pending_direct_messages cid recipient after_seq limit db =
    page_of db (pending_limit limit) after_seq (
      take (pending_limit limit) (
        order_by (asc (λ m. m.seq))
          (select (is_pending cid recipient after_seq db) db.direct_messages)))
