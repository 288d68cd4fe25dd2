-- ===== src/Session/Handlers.antt =====
-- internal/session/manager.go: Authenticate, and the cases of dispatch. A request arrives decoded; one
-- whose body protobuf cannot decode is answered with an error by the code and is not among these.
use meshserver.Base.{
  ℕ, ◌+◌, Bool, true, false, ◌&&◌, Option, none, some, List, map, ◌==◌, if◌then◌else◌,
}
use meshserver.Base.Text.{Text, trim_space}
use meshserver.Base.Errors.{Error}
use meshserver.Base.Exec.{Result, ok, guard, Exec, value, fail, and_then}
use meshserver.Model.Enums.{Role, ChannelType, is_owner, is_manager, is_group}
use meshserver.Model.Rows.{User, Space, Channel}
use meshserver.Model.Database.{Database}
use meshserver.Store.Users.{get_by_user_id}
use meshserver.Store.Spaces.Queries.{
  get_by_space_id, get_member_role, can_create_group, list_by_user_id, list_space_members,
}
use meshserver.Store.Spaces.Members.{SpaceExec, create_space, join_space}
use meshserver.Store.Spaces.Roles.{set_space_allow_channel_creation, set_space_member_role}
use meshserver.Store.Channels.{
  all_permissions, is_user_member, get_permission, list_by_space_id_for_user, create_channel,
  set_group_auto_delete_after_seconds,
}
use meshserver.Store.Messages.{get_by_channel_id, list_channel_ids_by_media_id}
use meshserver.Service.Channels.{SyncPage, send_message, sync_channel, ack_delivered, update_read}
use meshserver.Service.Direct.{
  SendReq, SendResult, PeerAckEvent, open_conversation, list_conversations, send_direct_message,
  ack_message, sync_direct_messages,
}
use meshserver.Auth.{Scheme, VerifyInput, issue_challenge, verify_challenge}
use meshserver.Session.Wire.{
  WireRole, ChannelSummary, SpaceSummary, CreateReq, SendMessageReq, ProveReq, Packet,
}
use meshserver.Session.Convert.{
  to_domain_member_role, to_proto_member_role, to_channel_summary, no_permission,
  to_send_message_input, to_message_event,
}
use meshserver.Session.Hub.{
  ConnSession, subscribe_channel, unsubscribe, register_direct_user_session,
}
use meshserver.Session.Node.{
  Node, call, look, write, deliver_message, deliver_to_user, update_session, on_hub,
}
use meshserver.Session.Api.{
  Env, is_global_admin, space_summary_for_viewer, space_summaries_for_viewer, member_limit,
  members_page, may_view_any, download_media, permission_or_none, space_input, channel_input,
  clean_up,
}

-- What the manager has beside Env, and what other requests do in between (see Service.Direct).
pub record Server : Type 0 where
  pub env : Env
  pub protocol_id : Text
  pub node_peer_id : Text
  pub challenge_ttl : ℕ
  pub max_direct_text_len : ℕ
  pub has_direct_messaging : Bool
  pub between : Database → Database

-- What a request draws at random: a nonce, and the ids of the rows it may insert.
pub record Drawn : Type 0 where
  pub nonce : List ℕ
  pub user_id : Text
  pub conversation_id : Text
  pub message_id : Text

abbrev pub verify_input : Text → ProveReq → VerifyInput
verify_input node_peer_id prove = record {
  challenge = record {
    client_peer_id = prove.client_peer_id;
    node_peer_id = node_peer_id;
    nonce = prove.nonce;
    issued_at = prove.issued_at_ms;
    expires_at = prove.expires_at_ms;
  };
  signature = prove.signature;
  public_key = prove.public_key;
}

abbrev pub has_challenge : ConnSession → Bool
has_challenge sess = elim sess.issued_challenge [ none ↦ false | some c ↦ true ]

abbrev pub set_user : User → ConnSession → ConnSession
set_user user sess = record sess { authenticated = true; auth_result = some user }

abbrev pub register_direct : Exec Node (Unit {0})
register_direct n = (ok tt, record n { hub = register_direct_user_session n.sess n.hub })

module _ (crypto : Scheme) (server : Server) (drawn : Drawn) (rid : Text) where
  unfoldable pub authenticate : ProveReq → Exec Node User
  authenticate prove =
      and_then (λ n. (guard (has_challenge n.sess) Error.missing_challenge, n))
        (λ u.
          and_then
            (call (
              verify_challenge crypto server.protocol_id server.env.now server.env.now drawn.user_id
                (verify_input server.node_peer_id prove)))
            (λ user. and_then (update_session (set_user user)) (λ v. value user)))

  -- The requests that need no login.
  unfoldable pub greet : Text → Exec Node (Unit {0})
  greet client_peer_id =
      and_then (update_session (λ s. record s { hello = some client_peer_id })) (λ u.
        and_then
          (call (
            issue_challenge crypto server.protocol_id server.env.now server.challenge_ttl
              drawn.nonce client_peer_id server.node_peer_id))
          (λ (c, payload).
            and_then (update_session (λ s. record s { issued_challenge = some c })) (λ v.
              write rid (Packet.auth_challenge c.node_peer_id c.nonce c.issued_at c.expires_at))))

  unfoldable pub log_in_session : ProveReq → Exec Node (Unit {0})
  log_in_session prove = and_then (authenticate prove) (λ user.
      and_then (look (λ db. ok (list_by_user_id server.env.collates user.id db))) (λ servers.
        and_then
          (look (λ db. ok (space_summaries_for_viewer server.env servers user.id user.peer_id db)))
          (λ spaces.
            and_then register_direct
              (λ u. write rid (Packet.auth_result user.user_id user.display_name spaces)))))

module _ (server : Server) (drawn : Drawn) (rid : Text) (user : User) where
  -- The lines that every administrative request repeats.
  unfoldable pub require_manager : ℕ → Exec Node (Unit {0})
  require_manager space_id =
      and_then (look (get_member_role space_id user.id))
        (λ role n. (guard (is_manager role) Error.admin_role_required, n))

  unfoldable pub summarize : Space → Exec Node SpaceSummary
  summarize item =
      look (λ db. ok (space_summary_for_viewer server.env item user.id user.peer_id db))

  unfoldable pub handle_members : ℕ → ℕ → ℕ → Exec Node (Unit {0})
  handle_members space_id after_member_id limit = and_then (require_manager space_id) (λ u.
      and_then
        (look (λ db. ok (
          members_page space_id (member_limit limit)
            (list_space_members space_id after_member_id (member_limit limit + 1) db) db)))
        (write rid))

  unfoldable pub handle_create_space : CreateReq → Exec Node (Unit {0})
  handle_create_space req =
      and_then
        (look (λ db.
          guard (is_global_admin server.env user.peer_id) Error.create_space_permission_required))
        (λ u.
          and_then (call (create_space server.env.now (space_input server.env user.id req)))
            (λ item.
              and_then (summarize item) (λ sum. write rid (Packet.space_created item.id sum))))

  unfoldable pub handle_group_permissions : ℕ → Exec Node (Unit {0})
  handle_group_permissions space_id = and_then (look (get_by_space_id space_id)) (λ item.
      and_then (look (get_member_role space_id user.id)) (λ role.
        and_then (look (λ db. ok (can_create_group space_id user.id db))) (λ can_create.
          and_then (summarize item) (λ sum. write rid (
            Packet.create_group_permissions space_id sum (to_proto_member_role role) (
              if is_global_admin server.env user.peer_id && is_manager role
              then true
              else can_create))))))

  unfoldable pub handle_subscribe : ℕ → Exec Node (Unit {0})
  handle_subscribe channel_id =
      and_then (look (λ db. guard (is_user_member channel_id user.id db) Error.not_channel_member))
        (λ u. and_then (look (get_by_channel_id channel_id)) (λ ch.
          and_then (on_hub (λ s hub. subscribe_channel s channel_id hub))
            (λ v. write rid (Packet.subscribed channel_id ch.message_seq))))

  unfoldable pub handle_unsubscribe : ℕ → Exec Node (Unit {0})
  handle_unsubscribe channel_id =
      and_then (on_hub (λ s hub. unsubscribe s channel_id hub))
        (λ u. write rid (Packet.unsubscribed channel_id))

  -- `role == owner` asks for the actor to be an owner, any other role for an owner or an admin.
  unfoldable pub allow_role_change : Role → Role → Result (Unit {0})
  allow_role_change role actor =
      if is_owner role
      then guard (is_owner actor) Error.owner_role_required
      else guard (is_manager actor) Error.admin_role_required

  unfoldable pub handle_set_role : ℕ → Text → WireRole → Exec Node (Unit {0})
  handle_set_role space_id target_id wire_role =
      and_then (look (λ db. to_domain_member_role wire_role)) (λ role.
        and_then (look (get_member_role space_id user.id)) (λ actor.
          and_then (look (λ db. allow_role_change role actor)) (λ u.
            and_then (look (get_by_user_id target_id)) (λ target.
              and_then (call (set_space_member_role server.env.now space_id target.id role))
                (λ v. write rid (Packet.member_role_set space_id target_id wire_role))))))

  unfoldable pub handle_channel_creation : ℕ → Bool → Exec Node (Unit {0})
  handle_channel_creation space_id allow = and_then (require_manager space_id) (λ u.
      and_then (call (set_space_allow_channel_creation server.env.now space_id allow))
        (λ v. write rid (Packet.channel_creation_set space_id allow)))

  unfoldable pub handle_auto_delete : ℕ → ℕ → Exec Node (Unit {0})
  handle_auto_delete channel_id seconds = and_then (look (get_by_channel_id channel_id)) (λ ch.
      and_then (look (λ db. guard (is_group ch.channel_type) Error.auto_delete_group_only)) (λ u.
        and_then (require_manager ch.space_id) (λ v.
          and_then (call (set_group_auto_delete_after_seconds server.env.now channel_id seconds))
            (λ w. and_then (call (clean_up server.env.now)) (λ x.
              and_then (look (get_by_channel_id channel_id)) (λ after. write rid (
                Packet.auto_delete_set channel_id after.auto_delete_after_seconds
                  (to_channel_summary after no_permission))))))))

  unfoldable pub handle_join : ℕ → Exec Node (Unit {0})
  handle_join space_id =
      and_then (call (join_space server.env.now space_id user.id))
        (λ item. and_then (summarize item) (λ sum. write rid (Packet.joined space_id sum)))

  -- INVITE, KICK, BAN and UNBAN differ in the call and in the answer.
  unfoldable pub handle_member :
      (ℕ → ℕ → SpaceExec) → (ℕ → Text → SpaceSummary → Packet) → ℕ → Text → Exec Node (Unit {0})
  handle_member act reply space_id target_id = and_then (require_manager space_id) (λ u.
      and_then (look (get_by_user_id target_id)) (λ target.
        and_then (call (act space_id target.id))
          (λ item. and_then (summarize item) (λ sum. write rid (reply space_id target_id sum)))))

  unfoldable pub handle_create_channel :
      ChannelType → (ℕ → ℕ → ChannelSummary → Packet) → CreateReq → Exec Node (Unit {0})
  handle_create_channel type_ reply req =
      and_then
        (call
          (create_channel server.env.now (channel_input server.env type_ user.id user.peer_id req)))
        (λ item. write rid (reply req.space_id item.id (to_channel_summary item all_permissions)))

  -- The message is announced after its sender has the answer.
  unfoldable pub handle_send : SendMessageReq → Exec Node (Unit {0})
  handle_send req =
      and_then
        (call (
          send_message server.env.save server.env.limits server.env.now drawn.message_id user.id
            (to_send_message_input req)))
        (λ msg.
          and_then
            (write rid (
              Packet.message_stored msg.row.channel_id msg.row.client_msg_id msg.row.message_id
                msg.row.seq server.env.now))
            (λ u n. (ok tt, deliver_message server.env.blob_url_base msg.row.channel_id msg n)))

  abbrev pub synced : ℕ → SyncPage → Packet
  synced channel_id page =
      Packet.channel_synced channel_id (map (to_message_event server.env.blob_url_base) page.items)
        page.next_after_seq page.has_more

  unfoldable pub handle_sync : ℕ → ℕ → ℕ → Exec Node (Unit {0})
  handle_sync channel_id after_seq limit =
      and_then (look (sync_channel server.env.limits user.id channel_id after_seq limit))
        (λ page. write rid (synced channel_id page))

  unfoldable pub handle_media : Text → Exec Node (Unit {0})
  handle_media media_id =
      and_then
        (look (λ db.
          guard (may_view_any (list_channel_ids_by_media_id media_id db) user.id db)
            Error.forbidden))
        (λ u.
          and_then (look (download_media server.env media_id))
            (λ file. write rid (Packet.media media_id file)))

  -- Every direct request is refused where the service is not configured.
  abbrev pub with_direct : Exec Node (Unit {0}) → Exec Node (Unit {0})
  with_direct m = if server.has_direct_messaging then m else fail Error.direct_messaging_unavailable

  -- `ev != nil && recvID != 0`
  abbrev pub announce : Option Packet → ℕ → Node → Node
  announce none to n = n
  announce (some packet) to n = if to == 0 then n else deliver_to_user to packet n

  abbrev pub direct_event : SendResult → Option Packet
  direct_event r = elim r.event [ none ↦ none | some ev ↦ some (Packet.direct_message_event ev) ]

  abbrev pub ack_packet : Option PeerAckEvent → Option Packet
  ack_packet none = none
  ack_packet (some ev) = some (Packet.direct_peer_ack_event ev)

  unfoldable pub handle_send_direct : SendReq → Exec Node (Unit {0})
  handle_send_direct req =
      and_then
        (call (
          send_direct_message server.between server.max_direct_text_len server.env.now
            drawn.conversation_id drawn.message_id user.id req))
        (λ r.
          and_then (write rid (Packet.direct_stored r.ack))
            (λ u n. (ok tt, announce (direct_event r) r.push_to n)))

  unfoldable pub handle_ack_direct : Text → Exec Node (Unit {0})
  handle_ack_direct message_id =
      and_then (call (ack_message server.between server.env.now user.id message_id)) (λ (event, to).
        and_then (write rid (Packet.direct_acked (trim_space message_id)))
          (λ u n. (ok tt, announce (ack_packet event) to n)))

  unfoldable pub handle_list_spaces : Exec Node (Unit {0})
  handle_list_spaces =
      and_then (look (λ db. ok (list_by_user_id server.env.collates user.id db))) (λ items.
        and_then
          (look (λ db. ok (space_summaries_for_viewer server.env items user.id user.peer_id db)))
          (λ s. write rid (Packet.spaces s)))

  unfoldable pub handle_list_channels : ℕ → Exec Node (Unit {0})
  handle_list_channels space_id =
      and_then
        (look (λ db. ok (
          map
            (λ (c : Channel).
              to_channel_summary c (permission_or_none (get_permission c.id user.id db)))
            (list_by_space_id_for_user server.env.collates space_id user.id db))))
        (λ cs. write rid (Packet.channels space_id cs))

  unfoldable pub handle_open_direct : Text → Exec Node (Unit {0})
  handle_open_direct peer =
      and_then (call (open_conversation server.env.now drawn.conversation_id user.id peer))
        (λ r. write rid (Packet.direct_opened r))

  unfoldable pub handle_list_direct : Exec Node (Unit {0})
  handle_list_direct =
      and_then (look (λ db. ok (list_conversations user.id db)))
        (λ r. write rid (Packet.direct_conversations r))

  unfoldable pub handle_sync_direct : Text → ℕ → ℕ → Exec Node (Unit {0})
  handle_sync_direct c after limit =
      and_then (look (sync_direct_messages user.id c after limit))
        (λ r. write rid (Packet.direct_synced (trim_space c) r))

  -- Neither of the two acknowledgements of a channel has an answer.
  unfoldable pub handle_deliver_ack : ℕ → ℕ → Exec Node (Unit {0})
  handle_deliver_ack channel_id seq = call (ack_delivered server.env.now user.id channel_id seq)

  unfoldable pub handle_read_update : ℕ → ℕ → Exec Node (Unit {0})
  handle_read_update channel_id seq = call (update_read server.env.now user.id channel_id seq)
