-- ===== src/Session/Wire.antt =====
-- internal/gen: the messages of the session protocol, with the fields that the manager sets or reads.
-- Their encoding is protobuf's. `MsgType` is the constructor of a request or a packet.
use meshserver.Base.{ℕ, Bool, Option, List}
use meshserver.Base.Text.{Text}
use meshserver.Base.Errors.{Error}
use meshserver.Store.Direct.Conversations.{ConversationListItem}
use meshserver.Service.Direct.{
  WireType, OpenResp, SendReq, SendAck, DirectEvent, PeerAckEvent, SyncResp,
}

pub data WireVisibility : Type 0 where
  public private unspecified : WireVisibility

pub data WireChannelType : Type 0 where
  group broadcast unspecified : WireChannelType

pub data WireRole : Type 0 where
  owner admin member subscriber unspecified : WireRole

pub record SpaceSummary : Type 0 where
  pub space_id : ℕ
  pub name : Text
  pub description : Text
  pub visibility : WireVisibility
  pub member_count : ℕ
  pub allow_channel_creation : Bool

pub record ChannelSummary : Type 0 where
  pub channel_id : ℕ
  pub space_id : ℕ
  pub channel_type : WireChannelType
  pub name : Text
  pub description : Text
  pub visibility : WireVisibility
  pub slow_mode_seconds : ℕ
  pub auto_delete_after_seconds : ℕ
  pub last_seq : ℕ
  pub member_count : ℕ
  pub can_view : Bool
  pub can_send_message : Bool
  pub can_send_image : Bool
  pub can_send_file : Bool

pub record MemberSummary : Type 0 where
  pub member_id : ℕ
  pub user_id : Text
  pub display_name : Text
  pub role : WireRole
  pub is_muted : Bool
  pub is_banned : Bool
  pub joined_at_ms : ℕ
  pub last_seen_at_ms : ℕ

-- A MediaImage has no `file_cid`.
pub record MediaFile : Type 0 where
  pub media_id : Text
  pub blob_id : Text
  pub name : Text
  pub mime_type : Text
  pub size : ℕ
  pub sha256 : Text
  pub file_cid : Text
  pub url : Text
  pub inline_data : List ℕ

pub record MessageEvent : Type 0 where
  pub channel_id : ℕ
  pub message_id : Text
  pub seq : ℕ
  pub sender_user_id : Text
  pub message_type : WireType
  pub text : Text
  pub images : List MediaFile
  pub files : List MediaFile
  pub created_at_ms : ℕ

-- CreateSpaceReq, CreateGroupReq and CreateChannelReq; a space has no slow mode.
pub record CreateReq : Type 0 where
  pub space_id : ℕ
  pub name : Text
  pub description : Text
  pub visibility : WireVisibility
  pub slow_mode_seconds : ℕ

-- SendMessageReq; `content` may be absent, and is the text with the images and the files.
pub record SendMessageReq : Type 0 where
  pub channel_id : ℕ
  pub client_msg_id : Text
  pub message_type : WireType
  pub content : Option (Text × List MediaFile × List MediaFile)

pub record ProveReq : Type 0 where
  pub client_peer_id : Text
  pub nonce : List ℕ
  pub issued_at_ms : ℕ
  pub expires_at_ms : ℕ
  pub signature : List ℕ
  pub public_key : List ℕ

pub data Request : Type 0 where
  hello : Text → Request
  auth_prove : ProveReq → Request
  ping : ℕ → Request
  list_spaces : Request
  list_channels : ℕ → Request
  list_space_members : ℕ → ℕ → ℕ → Request
  create_space : CreateReq → Request
  get_create_space_permissions : Request
  get_create_group_permissions : ℕ → Request
  subscribe_channel : ℕ → Request
  unsubscribe_channel : ℕ → Request
  set_member_role : ℕ → Text → WireRole → Request
  set_channel_creation : ℕ → Bool → Request
  set_auto_delete : ℕ → ℕ → Request
  join_space : ℕ → Request
  invite_member kick_member ban_member unban_member : ℕ → Text → Request
  create_group : CreateReq → Request
  create_channel : CreateReq → Request
  send_message : SendMessageReq → Request
  deliver_ack : ℕ → ℕ → Request
  read_update : ℕ → ℕ → Request
  sync_channel : ℕ → ℕ → ℕ → Request
  open_direct : Text → Request
  list_direct : Request
  send_direct : SendReq → Request
  ack_direct : Text → Request
  sync_direct : Text → ℕ → ℕ → Request
  get_media : Text → Request
  unsupported : Request

-- What the server writes: the answers, the events, and errors with their code.
pub data Packet : Type 0 where
  auth_challenge : Text → List ℕ → ℕ → ℕ → Packet
  auth_result : Text → Text → List SpaceSummary → Packet
  pong : ℕ → Packet
  spaces : List SpaceSummary → Packet
  channels : ℕ → List ChannelSummary → Packet
  space_members : ℕ → List MemberSummary → ℕ → Bool → Packet
  space_created : ℕ → SpaceSummary → Packet
  create_space_permissions : Bool → Packet
  create_group_permissions : ℕ → SpaceSummary → WireRole → Bool → Packet
  subscribed : ℕ → ℕ → Packet
  unsubscribed : ℕ → Packet
  member_role_set : ℕ → Text → WireRole → Packet
  channel_creation_set : ℕ → Bool → Packet
  auto_delete_set : ℕ → ℕ → ChannelSummary → Packet
  joined : ℕ → SpaceSummary → Packet
  invited kicked banned unbanned : ℕ → Text → SpaceSummary → Packet
  group_created channel_created : ℕ → ℕ → ChannelSummary → Packet
  message_stored : ℕ → Text → Text → ℕ → ℕ → Packet
  channel_synced : ℕ → List MessageEvent → ℕ → Bool → Packet
  direct_opened : OpenResp → Packet
  direct_conversations : List ConversationListItem → Packet
  direct_stored : SendAck → Packet
  direct_acked : Text → Packet
  direct_synced : Text → SyncResp → Packet
  media : Text → MediaFile → Packet
  message_event : MessageEvent → Packet
  direct_message_event : DirectEvent → Packet
  direct_peer_ack_event : PeerAckEvent → Packet
  error_msg : ℕ → Error → Packet
