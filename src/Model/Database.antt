-- ===== src/Model/Database.antt =====
-- The database that `mysql.Store` works on: a list of rows for each table, and the next value of
-- each AUTO_INCREMENT column that the code reads back.
use meshserver.Base.{ℕ, List}
use meshserver.Model.Rows.{
  User, Space, Membership, Channel, ChannelMember, Message, Attachment, Blob, MediaObject,
  ReadCursor, Nonce, DirectConversation, DirectMessage,
}

pub record Database : Type 0 where
  pub users : List User
  pub servers : List Space
  pub server_members : List Membership
  pub channels : List Channel
  pub channel_members : List ChannelMember
  pub messages : List Message
  pub message_attachments : List Attachment
  pub blobs : List Blob
  pub media_objects : List MediaObject
  pub user_channel_reads : List ReadCursor
  pub auth_nonces : List Nonce
  pub direct_conversations : List DirectConversation
  pub direct_messages : List DirectMessage
  pub next_user_id : ℕ
  pub next_space_id : ℕ
  pub next_member_id : ℕ
  pub next_channel_id : ℕ
  pub next_message_id : ℕ
  pub next_conversation_id : ℕ
  pub next_blob_id : ℕ
  pub next_media_id : ℕ
