-- ===== src/Session/Dispatch.antt =====
-- internal/session/manager.go: HandleStream and the switches of dispatch.
mod Steps
pub mod Members
pub mod Others
pub mod Agreement
pub mod Guards
pub mod Owners
pub mod Managers
pub mod Delivery
use meshserver.Base.{
  ℕ, ◌+◌, Bool, true, false, not, ◌&&◌, ◌||◌, Option, none, some, List, [], ◌∷◌, map, ◌==◌,
  if◌then◌else◌,
}
use meshserver.Base.Text.{Text, trim_space}
use meshserver.Base.Errors.{Error}
use meshserver.Base.Exec.{Result, ok, err, guard, ◌>>=◌, ◌>>◌, Exec, reads, value, fail, and_then}
use meshserver.Model.Enums.{Role, ChannelType, is_owner, is_manager, is_group}
use meshserver.Model.Rows.{User, Space, Channel}
use meshserver.Model.Database.{Database}
use meshserver.Store.Users.{get_by_user_id}
use meshserver.Store.Spaces.Queries.{
  get_by_space_id, get_member_role, can_create_group, list_by_user_id, list_space_members,
}
use meshserver.Store.Spaces.Members.{
  SpaceExec, create_space, join_space, invite_space_member, kick_space_member, ban_space_member,
  unban_space_member,
}
use meshserver.Store.Spaces.Roles.{set_space_allow_channel_creation, set_space_member_role}
use meshserver.Store.Channels.{
  all_permissions, is_user_member, get_permission, list_by_space_id_for_user, create_channel,
  set_group_auto_delete_after_seconds,
}
use meshserver.Store.Messages.{MessageView, get_by_channel_id, list_channel_ids_by_media_id}
use meshserver.Service.Channels.{SyncPage, send_message, sync_channel, ack_delivered, update_read}
use meshserver.Service.Direct.{
  SendReq, SendResult, PeerAckEvent, SyncResp, open_conversation, list_conversations,
  send_direct_message, ack_message, sync_direct_messages,
}
use meshserver.Auth.{Scheme, Challenge, VerifyInput, issue_challenge, verify_challenge}
use meshserver.Session.Wire.{
  WireRole, ChannelSummary, SpaceSummary, MessageEvent, CreateReq, SendMessageReq, ProveReq,
  Request, Packet,
}
use meshserver.Session.Convert.{
  to_domain_visibility, to_domain_member_role, to_proto_member_role, to_channel_summary,
  no_permission, to_send_message_input, to_message_event,
}
use meshserver.Session.Hub.{
  ConnSession, subscribe_channel, unsubscribe, register_direct_user_session, unregister_session,
}
use meshserver.Session.Node.{
  Node, call, look, write, deliver_message, deliver_to_user, current_user, update_session, on_hub,
}
use meshserver.Session.Api.{
  Env, is_global_admin, space_summary_for_viewer, space_summaries_for_viewer, member_limit,
  members_page, may_view_any, download_media, permission_or_none, space_input, channel_input,
  clean_up,
}
use meshserver.Session.Handlers.{
  verify_input, has_challenge, set_user, register_direct, authenticate, greet, log_in_session,
  require_manager, summarize, handle_members, handle_create_space, handle_group_permissions,
  handle_subscribe, handle_unsubscribe, allow_role_change, handle_set_role, handle_channel_creation,
  handle_auto_delete, handle_join, handle_member, handle_create_channel, handle_send, synced,
  handle_sync, handle_media, with_direct, announce, direct_event, ack_packet, handle_send_direct,
  handle_ack_direct, handle_list_spaces, handle_list_channels, handle_open_direct,
  handle_list_direct, handle_sync_direct, handle_deliver_ack, handle_read_update, Server, Drawn,
}

module _ (server : Server) (drawn : Drawn) (rid : Text) (user : User) where
  -- The second switch of dispatch.
  unfoldable pub handle : Request → Exec Node (Unit {0})
  handle (Request.hello p) = fail Error.unsupported_message_type
  handle (Request.auth_prove p) = fail Error.unsupported_message_type
  handle (Request.ping p) = fail Error.unsupported_message_type
  handle Request.list_spaces = handle_list_spaces server drawn rid user
  handle (Request.list_channels space_id) = handle_list_channels server drawn rid user space_id
  handle (Request.list_space_members space_id after limit) =
      handle_members server drawn rid user space_id after limit
  handle (Request.create_space req) = handle_create_space server drawn rid user req
  handle Request.get_create_space_permissions =
      write rid (Packet.create_space_permissions (is_global_admin server.env user.peer_id))
  handle (Request.get_create_group_permissions space_id) =
      handle_group_permissions server drawn rid user space_id
  handle (Request.subscribe_channel c) = handle_subscribe server drawn rid user c
  handle (Request.unsubscribe_channel c) = handle_unsubscribe server drawn rid user c
  handle (Request.set_member_role s t r) = handle_set_role server drawn rid user s t r
  handle (Request.set_channel_creation s b) = handle_channel_creation server drawn rid user s b
  handle (Request.set_auto_delete c s) = handle_auto_delete server drawn rid user c s
  handle (Request.join_space s) = handle_join server drawn rid user s
  handle (Request.invite_member s t) =
      handle_member server drawn rid user (invite_space_member server.env.now) Packet.invited s t
  handle (Request.kick_member s t) =
      handle_member server drawn rid user (kick_space_member server.env.now) Packet.kicked s t
  handle (Request.ban_member s t) =
      handle_member server drawn rid user (ban_space_member server.env.now) Packet.banned s t
  handle (Request.unban_member s t) =
      handle_member server drawn rid user (unban_space_member server.env.now) Packet.unbanned s t
  handle (Request.create_group req) =
      handle_create_channel server drawn rid user ChannelType.group Packet.group_created req
  handle (Request.create_channel req) =
      handle_create_channel server drawn rid user ChannelType.broadcast Packet.channel_created req
  handle (Request.send_message req) = handle_send server drawn rid user req
  handle (Request.deliver_ack c seq) = handle_deliver_ack server drawn rid user c seq
  handle (Request.read_update c seq) = handle_read_update server drawn rid user c seq
  handle (Request.sync_channel c after limit) = handle_sync server drawn rid user c after limit
  handle (Request.open_direct peer) =
      with_direct server drawn rid user (handle_open_direct server drawn rid user peer)
  handle Request.list_direct =
      with_direct server drawn rid user (handle_list_direct server drawn rid user)
  handle (Request.send_direct req) =
      with_direct server drawn rid user (handle_send_direct server drawn rid user req)
  handle (Request.ack_direct m) =
      with_direct server drawn rid user (handle_ack_direct server drawn rid user m)
  handle (Request.sync_direct c after limit) =
      with_direct server drawn rid user (handle_sync_direct server drawn rid user c after limit)
  handle (Request.get_media m) = handle_media server drawn rid user m
  handle Request.unsupported = fail Error.unsupported_message_type

-- SendMessageForAPI, for which `message_id` is the id that is drawn.
unfoldable pub send_message_for_api : Env → Text → ℕ → SendMessageReq → Exec Node MessageView
send_message_for_api env message_id user_id req =
    and_then
      (call
        (send_message env.save env.limits env.now message_id user_id (to_send_message_input req)))
      (λ msg n. (ok msg, deliver_message env.blob_url_base msg.row.channel_id msg n))

unfoldable pub is_channel_member_for_ws : ℕ → ℕ → Database → Bool
is_channel_member_for_ws user_id channel_id db = is_user_member channel_id user_id db

module _ (crypto : Scheme) (server : Server) (drawn : Drawn) (rid : Text) where
  abbrev pub handle_as : Option User → Request → Exec Node (Unit {0})
  handle_as none req = fail Error.authentication_required
  handle_as (some user) req = handle server drawn rid user req

  unfoldable pub dispatch : Request → Exec Node (Unit {0})
  dispatch (Request.hello p) n = greet crypto server drawn rid p n
  dispatch (Request.auth_prove p) n = log_in_session crypto server drawn rid p n
  dispatch (Request.ping nonce) n = write rid (Packet.pong nonce) n
  dispatch req n = handle_as (current_user n.sess) req n

  abbrev pub answer : Result (Unit {0}) × Node → Node
  answer (ok u, n) = n
  answer (err e, n) = (write rid (Packet.error_msg 400 e) n).1

  -- One turn of the loop of HandleStream: an error is answered.
  unfoldable pub serve : Request → Node → Node
  serve req n = answer (dispatch req n)

-- A request as it comes: its id, what it draws, and its content.
pub record Arrival : Type 0 where
  pub request_id : Text
  pub drawn : Drawn
  pub request : Request

module _ (crypto : Scheme) (server : Server) where
  unfoldable pub serve_all : List Arrival → Node → Node
  serve_all [] n = n
  serve_all (a ∷ rest) n = serve_all rest (serve crypto server a.drawn a.request_id a.request n)

  -- The stream until it ends, and the deferred clean-up.
  unfoldable pub handle_stream : List Arrival → Node → Node
  handle_stream arrivals n =
      let last = serve_all arrivals n in
      record last {
        hub = unregister_session last.sess last.hub;
        sess = record last.sess { stream_open = false };
      }
