-- ===== src/Service/Direct.antt =====
-- internal/service/direct_chat.go: the direct messaging service. The answers keep what the code
-- computes; the constant fields `Ok` and `Message` of the wire messages are left out.
pub mod Send
pub mod Privacy
use meshserver.Base.{
  ℕ, Bool, true, false, not, ◌&&◌, ◌||◌, Option, none, some, List, [], ◌∷◌, map, ◌==◌, ltb,
  if◌then◌else◌,
}
use meshserver.Base.Text.{Text, is_empty, trim_space, rune_count}
use meshserver.Base.Errors.{Error}
use meshserver.Base.Exec.{
  Result, ok, err, ◌>>=◌, ◌>>◌, guard, Exec, transaction, reads, value, fail, and_then,
}
use meshserver.Model.Enums.{MessageType, is_text}
use meshserver.Model.Rows.{User, DirectConversation}
use meshserver.Model.Database.{Database}
use meshserver.Store.Users.{get_by_id, get_by_user_id}
use meshserver.Store.Direct.Conversations.{
  get_or_create_conversation, get_conversation_by_external_id, takes_part, ConversationListItem,
  list_conversations_for_user,
}
use meshserver.Store.Direct.Messages.{
  DirectMessageView, text_of, get_direct_message_by_client_msg_id, CreateDirectMessageInput,
  create_direct_message, AckOutcome, ack_direct_message, PendingPage, list_pending_direct_messages,
}

-- sessionv1.MessageType
pub data WireType : Type 0 where
  text image file system unspecified : WireType

unfoldable pub message_type_to_proto : MessageType → WireType
message_type_to_proto MessageType.image = WireType.image
message_type_to_proto MessageType.file = WireType.file
message_type_to_proto MessageType.system = WireType.system
message_type_to_proto t = WireType.text

unfoldable pub proto_to_message_type : WireType → MessageType
proto_to_message_type WireType.image = MessageType.image
proto_to_message_type WireType.file = MessageType.file
proto_to_message_type WireType.system = MessageType.system
proto_to_message_type t = MessageType.text

unfoldable pub other_participant : DirectConversation → ℕ → ℕ
other_participant conv self =
    if conv.user_low_id == self then conv.user_high_id else conv.user_low_id

pub record OpenResp : Type 0 where
  pub conversation_id : Text
  pub peer_user_id : Text
  pub last_seq : ℕ

-- `peer == ""` and the look-up of the peer; then not the caller itself.
unfoldable pub find_peer : ℕ → Text → Database → Result User
find_peer user_id peer_user_id db = do
  guard (not (is_empty (trim_space peer_user_id))) Error.invalid_message
  u ← get_by_user_id (trim_space peer_user_id) db
  guard (not (u.id == user_id)) Error.invalid_message
  ok u

abbrev open_resp : User → DirectConversation → OpenResp
open_resp u conv = record {
  conversation_id = conv.conversation_id;
  peer_user_id = u.user_id;
  last_seq = conv.last_seq;
}

unfoldable pub open_conversation : ℕ → Text → ℕ → Text → Exec Database OpenResp
open_conversation now drawn user_id peer_user_id =
    and_then (reads (find_peer user_id peer_user_id)) (λ u.
      and_then (get_or_create_conversation now drawn user_id u.id)
        (λ conv. value (open_resp u conv)))

unfoldable pub list_conversations : ℕ → Database → List ConversationListItem
list_conversations user_id db = list_conversations_for_user user_id db

pub record SendReq : Type 0 where
  pub conversation_id : Text
  pub to_user_id : Text
  pub client_msg_id : Text
  pub message_type : WireType
  pub text : Text

pub record SendAck : Type 0 where
  pub conversation_id : Text
  pub client_msg_id : Text
  pub message_id : Text
  pub seq : ℕ
  pub server_time_ms : ℕ

pub record DirectEvent : Type 0 where
  pub conversation_id : Text
  pub message_id : Text
  pub seq : ℕ
  pub from_user_id : Text
  pub to_user_id : Text
  pub message_type : WireType
  pub text : Text
  pub created_at_ms : ℕ

abbrev pub event_of : DirectMessageView → DirectEvent
event_of m = record {
  conversation_id = m.row.conversation_id;
  message_id = m.row.message_id;
  seq = m.row.seq;
  from_user_id = m.sender_external_id;
  to_user_id = m.recipient_external_id;
  message_type = message_type_to_proto m.row.message_type;
  text = text_of m;
  created_at_ms = m.row.created_at_ms;
}

-- What SendDirectMessage returns: the acknowledgement, the event to push, the recipient's id.
pub record SendResult : Type 0 where
  pub ack : SendAck
  pub event : Option DirectEvent
  pub push_to : ℕ

abbrev ack_of : ℕ → Text → Text → DirectMessageView → SendAck
ack_of now cid client v = record {
  conversation_id = cid;
  client_msg_id = client;
  message_id = v.row.message_id;
  seq = v.row.seq;
  server_time_ms = now;
}

-- The message that was there before the request: no event.
abbrev pub resent : ℕ → Text → DirectMessageView → SendResult
resent now client v = record {
  ack = ack_of now v.row.conversation_id client v;
  event = none;
  push_to = 0;
}

abbrev pub sent : ℕ → Text → Text → ℕ → DirectMessageView → SendResult
sent now cid client recipient v = record {
  ack = ack_of now cid client v;
  event = some (event_of v);
  push_to = recipient;
}

-- The checks of the request alone; `max_text_len` is 0 where the configuration sets no limit.
unfoldable pub check_request : ℕ → SendReq → Result (Unit {0})
check_request max_text_len req = do
  guard (not (is_empty (trim_space req.client_msg_id))) Error.invalid_message
  guard (not (is_empty (trim_space req.text))) Error.invalid_message
  guard (not (ltb 0 max_text_len && ltb max_text_len (rune_count (trim_space req.text))))
      Error.invalid_message
  guard (is_text (proto_to_message_type req.message_type)) Error.invalid_message

-- By the conversation's id: the conversation and its other participant.
unfoldable pub target_by_id : ℕ → Text → Database → Result (DirectConversation × ℕ)
target_by_id sender cid db = do
  c ← get_conversation_by_external_id cid db
  guard (takes_part sender c) Error.forbidden
  ok (c, other_participant c sender)

unfoldable pub find_recipient : Text → Database → Result User
find_recipient to db = do guard (not (is_empty to)) Error.invalid_message; get_by_user_id to db

-- By the recipient's id, which opens the conversation.
unfoldable pub target_by_user : ℕ → Text → ℕ → Text → Exec Database (DirectConversation × ℕ)
target_by_user now drawn sender to =
    and_then (reads (find_recipient to)) (λ u.
      and_then (get_or_create_conversation now drawn sender u.id) (λ conv. value (conv, u.id)))

unfoldable pub target : ℕ → Text → ℕ → SendReq → Exec Database (DirectConversation × ℕ)
target now drawn sender req =
    if is_empty (trim_space req.conversation_id)
    then target_by_user now drawn sender (trim_space req.to_user_id)
    else reads (target_by_id sender (trim_space req.conversation_id))

abbrev pub send_input : ℕ → SendReq → DirectConversation → ℕ → CreateDirectMessageInput
send_input sender req conv recipient = record {
  conversation_id = conv.conversation_id;
  sender_user_id = sender;
  recipient_user_id = recipient;
  client_msg_id = trim_space req.client_msg_id;
  message_type = proto_to_message_type req.message_type;
  text = trim_space req.text;
}

-- `errors.Is(err, repository.ErrDirectChatForbidden)`
unfoldable pub as_forbidden {ℓ} : {A : Type ℓ} → Result A → Result A
as_forbidden (err Error.direct_chat_forbidden) = err Error.forbidden
as_forbidden r = r

abbrev finish_send : ℕ → Text → Text → ℕ → Result DirectMessageView → Result SendResult
finish_send now cid client recipient r =
    as_forbidden r >>= λ v. ok (sent now cid client recipient v)

-- Behind the look-up by the client's id. `between` is what other requests do before the insertion.
unfoldable pub send_to :
    (Database → Database)
    → ℕ
    → Text
    → ℕ
    → SendReq
    → DirectConversation
    → ℕ
    → Result DirectMessageView
    → Exec Database SendResult
send_to between now mid sender req conv recipient (ok v) db =
    (ok (resent now (trim_space req.client_msg_id) v), db)
send_to between now mid sender req conv recipient (err Error.not_found) db =
    let r = create_direct_message now mid (send_input sender req conv recipient) (between db) in
    (finish_send now conv.conversation_id (trim_space req.client_msg_id) recipient r.0, r.1)
send_to between now mid sender req conv recipient (err e) db = (err e, db)

unfoldable pub send_direct_message :
    (Database → Database) → ℕ → ℕ → Text → Text → ℕ → SendReq → Exec Database SendResult
send_direct_message between max_text_len now drawn mid sender req =
    and_then (reads (λ db. check_request max_text_len req)) (λ u.
      and_then (target now drawn sender req) (λ (conv, recipient) db.
        send_to between now mid sender req conv recipient
          (get_direct_message_by_client_msg_id conv.conversation_id sender
            (trim_space req.client_msg_id) db)
          db))

pub record PeerAckEvent : Type 0 where
  pub conversation_id : Text
  pub message_id : Text
  pub acked_at_ms : ℕ
  pub peer_user_id : Text

abbrev ack_event : ℕ → Text → AckOutcome → User → Option PeerAckEvent × ℕ
ack_event now mid outcome recv = if outcome.already_acked then (none, 0) else (
  some (record {
    conversation_id = outcome.conversation_id;
    message_id = mid;
    acked_at_ms = now;
    peer_user_id = recv.user_id;
  }),
  outcome.sender_user_id,
)

-- The event for the sender and its id, if this call acknowledged the message.
unfoldable pub ack_message :
    (Database → Database) → ℕ → ℕ → Text → Exec Database (Option PeerAckEvent × ℕ)
ack_message between now recipient message_id =
    and_then (reads (λ db. guard (not (is_empty (trim_space message_id))) Error.invalid_message))
      (λ u.
        and_then
          (λ db.
            let r = ack_direct_message between (trim_space message_id) recipient now db in
            (as_forbidden r.0, r.1))
          (λ outcome.
            and_then (reads (get_by_id recipient))
              (λ recv. value (ack_event now (trim_space message_id) outcome recv))))

pub record SyncResp : Type 0 where
  pub messages : List DirectEvent
  pub next_after_seq : ℕ
  pub has_more : Bool

abbrev sync_limit : ℕ → ℕ
sync_limit limit = if limit == 0 then 50 else limit

abbrev sync_resp : PendingPage → SyncResp
sync_resp p = record {
  messages = map event_of p.items;
  next_after_seq = p.next_after;
  has_more = p.has_more;
}

unfoldable pub sync_direct_messages : ℕ → Text → ℕ → ℕ → Database → Result SyncResp
sync_direct_messages user_id conversation_id after_seq limit db = do
  guard (not (is_empty (trim_space conversation_id))) Error.invalid_message
  conv ← get_conversation_by_external_id (trim_space conversation_id) db
  guard (takes_part user_id conv) Error.forbidden
  ok (
      sync_resp (
        list_pending_direct_messages (trim_space conversation_id) user_id after_seq
          (sync_limit limit) db))
