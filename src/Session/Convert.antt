-- ===== src/Session/Convert.antt =====
-- internal/session/convert.go, and the conversions of manager.go: between the domain's values and the
-- messages of the protocol.
pub mod RoundTrip
use meshserver.Base.{
  ℕ, Bool, true, false, not, ◌&&◌, Option, none, some, List, [], ◌∷◌, ◌++◌, map, ◌==◌,
  if◌then◌else◌, last?,
}
use mathlib.Core.List.{reverse}
use meshserver.Base.Text.{Text, is_empty, trim_space}
use meshserver.Base.Errors.{Error}
use meshserver.Base.Exec.{Result, ok, err}
use meshserver.Model.Enums.{Visibility, Role, ChannelType, MessageType}
use meshserver.Model.Rows.{User, Space, Membership, Permission, Channel}
use meshserver.Model.Database.{Database}
use meshserver.Store.Direct.Conversations.{find_user}
use meshserver.Store.Messages.{AttachmentView, MessageView}
use meshserver.Service.Direct.{WireType}
use meshserver.Service.Channels.{AttachmentInput, SendMessageInput}
use meshserver.Session.Wire.{
  WireVisibility, WireChannelType, WireRole, ChannelSummary, MemberSummary, MediaFile, MessageEvent,
  SendMessageReq,
}

unfoldable pub to_visibility : Visibility → WireVisibility
to_visibility Visibility.public = WireVisibility.public
to_visibility v = WireVisibility.private

unfoldable pub to_domain_visibility : WireVisibility → Visibility
to_domain_visibility WireVisibility.public = Visibility.public
to_domain_visibility v = Visibility.private

unfoldable pub to_channel_type : ChannelType → WireChannelType
to_channel_type ChannelType.group = WireChannelType.group
to_channel_type t = WireChannelType.broadcast

unfoldable pub to_proto_message_type : MessageType → WireType
to_proto_message_type MessageType.image = WireType.image
to_proto_message_type MessageType.file = WireType.file
to_proto_message_type MessageType.system = WireType.system
to_proto_message_type t = WireType.text

unfoldable pub to_domain_message_type : WireType → MessageType
to_domain_message_type WireType.image = MessageType.image
to_domain_message_type WireType.file = MessageType.file
to_domain_message_type WireType.system = MessageType.system
to_domain_message_type t = MessageType.text

unfoldable pub to_domain_member_role : WireRole → Result Role
to_domain_member_role WireRole.owner = ok Role.owner
to_domain_member_role WireRole.admin = ok Role.admin
to_domain_member_role WireRole.member = ok Role.member
to_domain_member_role WireRole.subscriber = ok Role.subscriber
to_domain_member_role WireRole.unspecified = err Error.unsupported_member_role

unfoldable pub to_proto_member_role : Role → WireRole
to_proto_member_role Role.owner = WireRole.owner
to_proto_member_role Role.admin = WireRole.admin
to_proto_member_role Role.member = WireRole.member
to_proto_member_role Role.subscriber = WireRole.subscriber
to_proto_member_role (Role.other t) = WireRole.unspecified

abbrev id_of : Option User → Text
id_of none = []
id_of (some u) = u.user_id

abbrev display_name_of : Option User → Text
display_name_of none = []
display_name_of (some u) = u.display_name

-- The columns of the joined user are looked up here.
unfoldable pub to_space_member_summary : Database → Membership → MemberSummary
to_space_member_summary db m = record {
  member_id = m.id;
  user_id = id_of (find_user m.user_id db);
  display_name = display_name_of (find_user m.user_id db);
  role = to_proto_member_role m.role;
  is_muted = m.is_muted;
  is_banned = m.is_banned;
  joined_at_ms = m.joined_at;
  last_seen_at_ms = m.last_seen_at;
}

unfoldable pub to_space_member_summaries : Database → List Membership → List MemberSummary
to_space_member_summaries db = map (to_space_member_summary db)

unfoldable pub to_channel_summary : Channel → Permission → ChannelSummary
to_channel_summary c p = record {
  channel_id = c.id;
  space_id = c.space_id;
  channel_type = to_channel_type c.channel_type;
  name = c.name;
  description = c.description;
  visibility = to_visibility c.visibility;
  slow_mode_seconds = c.slow_mode_seconds;
  auto_delete_after_seconds = c.auto_delete_after_seconds;
  last_seq = c.message_seq;
  member_count = c.member_count;
  can_view = p.can_view;
  can_send_message = p.can_send_message;
  can_send_image = p.can_send_image;
  can_send_file = p.can_send_file;
}

-- The permission of a channel that a query loads without it.
abbrev pub no_permission : Permission
no_permission = record {
  role = Role.other [];
  can_view = false;
  can_send_message = false;
  can_send_image = false;
  can_send_file = false;
  can_delete_message = false;
  can_manage_channel = false;
}

abbrev to_attachment_input : MediaFile → AttachmentInput
to_attachment_input f = record {
  media_id = f.media_id;
  original_name = f.name;
  mime_type = f.mime_type;
  content = f.inline_data;
}

-- `req.Content == nil` leaves text, images and files empty.
unfoldable pub to_send_message_input : SendMessageReq → SendMessageInput
to_send_message_input req = elim req.content [
  | none ↦ record {
    channel_id = req.channel_id;
    client_msg_id = req.client_msg_id;
    message_type = to_domain_message_type req.message_type;
    text = [];
    images = [];
    files = [];
  }
  | some (text, images, files) ↦ record {
    channel_id = req.channel_id;
    client_msg_id = req.client_msg_id;
    message_type = to_domain_message_type req.message_type;
    text = text;
    images = map to_attachment_input images;
    files = map to_attachment_input files;
  }
]

-- strings.TrimLeft(s, "/")
unfoldable pub trim_left_slash : Text → Text
trim_left_slash [] = []
trim_left_slash (c ∷ s) = if c == 47 then trim_left_slash s else c ∷ s

unfoldable pub trim_right_slash : Text → Text
trim_right_slash s = reverse (trim_left_slash (reverse s))

unfoldable pub blob_url : Text → Text → Text
blob_url base path = trim_right_slash base ++ (47 ∷ trim_left_slash path)

-- An image of an event; the pixel sizes are left out.
abbrev to_media_image : Text → AttachmentView → MediaFile
to_media_image base a = record {
  media_id = a.media.media_id;
  blob_id = a.blob.blob_id;
  name = a.media.original_name;
  mime_type = a.media.mime_type;
  size = a.media.size;
  sha256 = a.blob.sha256;
  file_cid = [];
  url = blob_url base a.blob.storage_path;
  inline_data = [];
}

-- A file shows its CID, or the hash if it has none.
abbrev to_media_file : Text → AttachmentView → MediaFile
to_media_file base a = record {
  media_id = a.media.media_id;
  blob_id = a.blob.blob_id;
  name = a.media.original_name;
  mime_type = a.media.mime_type;
  size = a.media.size;
  sha256 = if is_empty a.media.file_cid then a.blob.sha256 else [];
  file_cid = a.media.file_cid;
  url = blob_url base a.blob.storage_path;
  inline_data = [];
}

abbrev text_content_of : Option Text → Text
text_content_of none = []
text_content_of (some t) = t

unfoldable pub to_message_event : Text → MessageView → MessageEvent
to_message_event base m = record {
  channel_id = m.row.channel_id;
  message_id = m.row.message_id;
  seq = m.row.seq;
  sender_user_id = m.sender_external_id;
  message_type = to_proto_message_type m.row.message_type;
  text = text_content_of m.row.text_content;
  images = map (to_media_image base) m.images;
  files = map (to_media_file base) m.files;
  created_at_ms = m.row.created_at;
}

abbrev ends_in_quote : Option ℕ → Bool
ends_in_quote none = false
ends_in_quote (some c) = c == 34

abbrev drop_last : Text → Text
drop_last [] = []
drop_last (c ∷ []) = []
drop_last (c ∷ d ∷ s) = c ∷ drop_last (d ∷ s)

-- A pair of double quotes around the text is taken off.
unfoldable pub unquote : Text → Text
unquote [] = []
unquote (c ∷ s) = if (c == 34) && ends_in_quote (last? s) then trim_space (drop_last s) else c ∷ s

unfoldable pub trim_peer_id_for_compare : Text → Text
trim_peer_id_for_compare s = unquote (trim_space s)
