-- ===== src/Tests/Data.antt =====
-- The databases of the tests: no rows; two users with a conversation; a channel with two messages.
use meshserver.Base.{ℕ, Option, none, some, [], ◌∷◌, false}
use meshserver.Base.Text.{Text, codes}
use meshserver.Model.Enums.{Visibility, ChannelType, MessageType, Status}
use meshserver.Model.Rows.{User, Space, Channel, Message, DirectConversation, DirectMessage, Nonce}
use meshserver.Model.Database.{Database}
use meshserver.Store.Channels.{all_permissions}

abbrev pub empty : Database
empty = record {
  users = [];
  servers = [];
  server_members = [];
  channels = [];
  channel_members = [];
  messages = [];
  message_attachments = [];
  blobs = [];
  media_objects = [];
  user_channel_reads = [];
  auth_nonces = [];
  direct_conversations = [];
  direct_messages = [];
  next_user_id = 1;
  next_space_id = 1;
  next_member_id = 1;
  next_channel_id = 1;
  next_message_id = 1;
  next_conversation_id = 1;
  next_blob_id = 1;
  next_media_id = 1;
}

abbrev pub user : ℕ → Text → User
user id name = record {
  id = id;
  user_id = name;
  peer_id = name;
  pubkey = [];
  display_name = name;
  status = 1;
  last_login_at = 0;
  created_at = 0;
  updated_at = 0;
}

abbrev pub cid : Text
cid = codes "dm"

abbrev pub conversation : DirectConversation
conversation = record {
  id = 1;
  conversation_id = cid;
  user_low_id = 1;
  user_high_id = 2;
  last_seq = 0;
  last_message_at_ms = 0;
  updated_at = 0;
}

abbrev pub talking : Database
talking = record empty {
  users = user 1 (codes "ann") ∷ user 2 (codes "bob") ∷ [];
  direct_conversations = conversation ∷ [];
  next_conversation_id = 2;
}

abbrev pub direct : Text → ℕ → Option ℕ → DirectMessage
direct mid seq acked = record {
  message_id = mid;
  conversation_id = cid;
  seq = seq;
  sender_user_id = 1;
  recipient_user_id = 2;
  client_msg_id = mid;
  message_type = MessageType.text;
  text_content = some (codes "hi");
  created_at_ms = 5;
  recipient_acked_at_ms = acked;
}

-- Two messages to acknowledge, one acknowledged.
abbrev pub waiting : Database
waiting = record talking {
  direct_messages =
      direct (codes "m3") 3 none ∷ direct (codes "m1") 1 (some 4) ∷ direct (codes "m2") 2 none ∷ [];
}

abbrev pub space : Space
space = record {
  id = 1;
  host_node_id = 1;
  owner_user_id = 1;
  name = codes "home";
  description = [];
  visibility = Visibility.public;
  member_count = 1;
  channel_count = 1;
  allow_channel_creation = false;
  status = 1;
  created_at = 0;
  updated_at = 0;
}

abbrev pub channel : Channel
channel = record {
  id = 1;
  space_id = 1;
  channel_type = ChannelType.broadcast;
  name = codes "news";
  description = [];
  visibility = Visibility.public;
  slow_mode_seconds = 2;
  auto_delete_after_seconds = 60;
  message_seq = 2;
  message_count = 2;
  subscriber_count = 0;
  member_count = 1;
  created_by = 1;
  status = 1;
  sort_order = 10;
  created_at = 0;
  updated_at = 0;
}

abbrev pub message : ℕ → ℕ → Message
message id at = record {
  id = id;
  message_id = codes "m";
  channel_id = 1;
  seq = id;
  sender_user_id = 1;
  client_msg_id = id ∷ [];
  message_type = MessageType.text;
  text_content = none;
  status = Status.normal;
  created_at = at;
  updated_at = at;
  deleted_at = none;
}

abbrev pub channelled : Database
channelled = record talking {
  servers = space ∷ [];
  channels = channel ∷ [];
  channel_members =
      record {
        channel_id = 1;
        user_id = 1;
        permission = all_permissions;
        joined_at = 0;
        created_at = 0;
        updated_at = 0;
      }
      ∷ [];
  messages = message 1 10 ∷ message 2 70000 ∷ [];
  next_message_id = 3;
}

abbrev pub nonce : Text → Nonce
nonce hash = record {
  nonce_hash = hash;
  client_peer_id = codes "ann";
  node_peer_id = codes "node";
  issued_at = 0;
  expires_at = 100;
  used_at = none;
}
