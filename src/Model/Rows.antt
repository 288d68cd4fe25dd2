-- ===== src/Model/Rows.antt =====
-- The rows of the tables, with the columns that the repository reads or writes.
use meshserver.Base.{ℕ, Bool, Option}
use meshserver.Base.Text.{Text}
use meshserver.Model.Enums.{Visibility, Role, ChannelType, MessageType, Status}

pub record User : Type 0 where
  pub id : ℕ
  pub user_id : Text
  pub peer_id : Text
  pub pubkey : Text
  pub display_name : Text
  pub status : ℕ
  pub last_login_at : ℕ
  pub created_at : ℕ
  pub updated_at : ℕ

-- A row of `servers`: internal/space.Space.
pub record Space : Type 0 where
  pub id : ℕ
  pub host_node_id : ℕ
  pub owner_user_id : ℕ
  pub name : Text
  pub description : Text
  pub visibility : Visibility
  pub member_count : ℕ
  pub channel_count : ℕ
  pub allow_channel_creation : Bool
  pub status : ℕ
  pub created_at : ℕ
  pub updated_at : ℕ

-- A row of `server_members`: internal/space.Membership.
pub record Membership : Type 0 where
  pub id : ℕ
  pub space_id : ℕ
  pub user_id : ℕ
  pub role : Role
  pub is_muted : Bool
  pub is_banned : Bool
  pub joined_at : ℕ
  pub last_seen_at : ℕ
  pub created_at : ℕ
  pub updated_at : ℕ

pub record Permission : Type 0 where
  pub role : Role
  pub can_view : Bool
  pub can_send_message : Bool
  pub can_send_image : Bool
  pub can_send_file : Bool
  pub can_delete_message : Bool
  pub can_manage_channel : Bool

pub record Channel : Type 0 where
  pub id : ℕ
  pub space_id : ℕ
  pub channel_type : ChannelType
  pub name : Text
  pub description : Text
  pub visibility : Visibility
  pub slow_mode_seconds : ℕ
  pub auto_delete_after_seconds : ℕ
  pub message_seq : ℕ
  pub message_count : ℕ
  pub subscriber_count : ℕ
  pub member_count : ℕ
  pub created_by : ℕ
  pub status : ℕ
  pub sort_order : ℕ
  pub created_at : ℕ
  pub updated_at : ℕ

pub record ChannelMember : Type 0 where
  pub channel_id : ℕ
  pub user_id : ℕ
  pub permission : Permission
  pub joined_at : ℕ
  pub created_at : ℕ
  pub updated_at : ℕ

-- A row of `messages`; the text is NULL if it was empty.
pub record Message : Type 0 where
  pub id : ℕ
  pub message_id : Text
  pub channel_id : ℕ
  pub seq : ℕ
  pub sender_user_id : ℕ
  pub client_msg_id : Text
  pub message_type : MessageType
  pub text_content : Option Text
  pub status : Status
  pub created_at : ℕ
  pub updated_at : ℕ
  pub deleted_at : Option ℕ

-- A row of `message_attachments`.
pub record Attachment : Type 0 where
  pub message_id : ℕ
  pub media_id : ℕ
  pub sort_order : ℕ

pub record Blob : Type 0 where
  pub id : ℕ
  pub blob_id : Text
  pub sha256 : Text
  pub size : ℕ
  pub mime_type : Text
  pub storage_path : Text
  pub ref_count : ℕ
  pub created_at : ℕ

pub record MediaObject : Type 0 where
  pub id : ℕ
  pub media_id : Text
  pub blob_id : ℕ
  pub is_image : Bool
  pub original_name : Text
  pub mime_type : Text
  pub file_cid : Text
  pub size : ℕ
  pub created_by : ℕ
  pub created_at : ℕ

-- A row of `user_channel_reads`.
pub record ReadCursor : Type 0 where
  pub user_id : ℕ
  pub channel_id : ℕ
  pub last_delivered_seq : ℕ
  pub last_read_seq : ℕ
  pub updated_at : ℕ

-- A row of `auth_nonces`.
pub record Nonce : Type 0 where
  pub nonce_hash : Text
  pub client_peer_id : Text
  pub node_peer_id : Text
  pub issued_at : ℕ
  pub expires_at : ℕ
  pub used_at : Option ℕ

pub record DirectConversation : Type 0 where
  pub id : ℕ
  pub conversation_id : Text
  pub user_low_id : ℕ
  pub user_high_id : ℕ
  pub last_seq : ℕ
  pub last_message_at_ms : ℕ
  pub updated_at : ℕ

pub record DirectMessage : Type 0 where
  pub message_id : Text
  pub conversation_id : Text
  pub seq : ℕ
  pub sender_user_id : ℕ
  pub recipient_user_id : ℕ
  pub client_msg_id : Text
  pub message_type : MessageType
  pub text_content : Option Text
  pub created_at_ms : ℕ
  pub recipient_acked_at_ms : Option ℕ
