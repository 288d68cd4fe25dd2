-- ===== src/Session/Dispatch/Agreement.antt =====
-- internal/session: dispatch beside the methods that the HTTP interface calls.
use meshserver.Base.{ℕ, ◌≡◌, refl, Bool}
use meshserver.Base.Text.{Text}
use meshserver.Base.Exec.{Exec, reads, value, and_then}
use meshserver.Model.Enums.{ChannelType}
use meshserver.Model.Rows.{User}
use meshserver.Model.Database.{Database}
use meshserver.Store.Spaces.Queries.{}
use meshserver.Store.Spaces.Members.{
  invite_space_member, kick_space_member, ban_space_member, unban_space_member,
}
use meshserver.Session.Wire.{WireRole, Request, Packet, CreateReq}
use meshserver.Session.Node.{Node, call, write}
use meshserver.Session.Api.{
  Env, list_space_members_for_api, get_media_for_api, create_space_for_api,
  get_create_space_permissions_for_api, get_create_group_permissions_for_api,
  admin_set_space_member_role_for_api, admin_set_space_channel_creation_for_api,
  admin_set_group_auto_delete_for_api, invite_space_member_for_api, kick_space_member_for_api,
  ban_space_member_for_api, unban_space_member_for_api, create_group_for_api,
  create_channel_for_api,
}
use meshserver.Session.Handlers.{Server, Drawn}
use meshserver.Session.Dispatch.{handle}
use meshserver.Session.Convert.{}
use meshserver.Session.Dispatch.Members.{
  handle_member-on_member, handle_set_role-Agrees, handle_channel_creation-Agrees,
}
use meshserver.Session.Dispatch.Others.{
  handle_auto_delete-Agrees, handle_members-Agrees, handle_create_space-Agrees,
  handle_create_channel-Agrees, handle_media-Agrees, handle_group_permissions-Agrees,
}

-- The requests that have a method of manager_v1_rest.go or manager.go, each with its method.
module _ (env : Env) (user : User) where
  pub data Mirrors : Request → Exec Database Packet → Type 0 where
    members :
        (s a l : ℕ)
        → Mirrors
            (Request.list_space_members s a l)
            (reads (list_space_members_for_api user.id s a l))
    new_space :
        (r : CreateReq)
        → Mirrors (Request.create_space r) (create_space_for_api env user.id user.peer_id r)
    space_permissions :
        Mirrors Request.get_create_space_permissions
          (value (get_create_space_permissions_for_api env user.peer_id))
    group_permissions :
        (s : ℕ)
        → Mirrors
            (Request.get_create_group_permissions s)
            (reads (get_create_group_permissions_for_api env user.id user.peer_id s))
    member_role :
        (s : ℕ) (t : Text) (r : WireRole)
        → Mirrors
            (Request.set_member_role s t r)
            (admin_set_space_member_role_for_api env user.id s t r)
    channel_creation :
        (s : ℕ) (b : Bool)
        → Mirrors
            (Request.set_channel_creation s b)
            (admin_set_space_channel_creation_for_api env user.id s b)
    auto_delete :
        (c s : ℕ)
        → Mirrors
            (Request.set_auto_delete c s)
            (admin_set_group_auto_delete_for_api env user.id c s)
    invite :
        (s : ℕ) (t : Text)
        → Mirrors
            (Request.invite_member s t)
            (invite_space_member_for_api env user.id user.peer_id s t)
    kick :
        (s : ℕ) (t : Text)
        → Mirrors (Request.kick_member s t) (kick_space_member_for_api env user.id user.peer_id s t)
    ban :
        (s : ℕ) (t : Text)
        → Mirrors (Request.ban_member s t) (ban_space_member_for_api env user.id user.peer_id s t)
    unban :
        (s : ℕ) (t : Text)
        → Mirrors
            (Request.unban_member s t)
            (unban_space_member_for_api env user.id user.peer_id s t)
    group :
        (r : CreateReq)
        → Mirrors (Request.create_group r) (create_group_for_api env user.id user.peer_id r)
    channel :
        (r : CreateReq)
        → Mirrors (Request.create_channel r) (create_channel_for_api env user.id user.peer_id r)
    media : (m : Text) → Mirrors (Request.get_media m) (reads (get_media_for_api env user.id m))

module _ (server : Server) (drawn : Drawn) (rid : Text) (user : User) where
  -- For each of the requests that Mirrors names, handling it over a stream is to call its method of
  -- the HTTP interface and then, where the method returns an answer, to write that answer to the
  -- stream: the tables are those that the method leaves, and an error is the method's or, after an
  -- answer, that of the write (a closed stream, or an answer that no envelope holds).
  pub handle-Agrees :
      {req : Request} {m : Exec Database Packet} (n : Node)
      → Mirrors server.env user req m
      → handle server drawn rid user req n ≡ and_then (call m) (write rid) n
  unfolding handle invite_space_member_for_api kick_space_member_for_api ban_space_member_for_api
      unban_space_member_for_api create_group_for_api create_channel_for_api
      get_create_space_permissions_for_api
  handle-Agrees n (Mirrors.members s a l) = handle_members-Agrees server drawn rid user s a l n
  handle-Agrees n (Mirrors.new_space r) = handle_create_space-Agrees server drawn rid user r n
  handle-Agrees n Mirrors.space_permissions = refl
  handle-Agrees n (Mirrors.group_permissions s) =
      handle_group_permissions-Agrees server drawn rid user s n
  handle-Agrees n (Mirrors.member_role s t r) = handle_set_role-Agrees server drawn rid user s t r n
  handle-Agrees n (Mirrors.channel_creation s b) =
      handle_channel_creation-Agrees server drawn rid user s b n
  handle-Agrees n (Mirrors.auto_delete c s) = handle_auto_delete-Agrees server drawn rid user c s n
  handle-Agrees n (Mirrors.invite s t) =
      handle_member-on_member server drawn rid user (invite_space_member server.env.now)
        Packet.invited s t n
  handle-Agrees n (Mirrors.kick s t) =
      handle_member-on_member server drawn rid user (kick_space_member server.env.now) Packet.kicked
        s t n
  handle-Agrees n (Mirrors.ban s t) =
      handle_member-on_member server drawn rid user (ban_space_member server.env.now) Packet.banned
        s t n
  handle-Agrees n (Mirrors.unban s t) =
      handle_member-on_member server drawn rid user (unban_space_member server.env.now)
        Packet.unbanned s t n
  handle-Agrees n (Mirrors.group r) =
      handle_create_channel-Agrees server drawn rid user ChannelType.group Packet.group_created r n
  handle-Agrees n (Mirrors.channel r) =
      handle_create_channel-Agrees server drawn rid user ChannelType.broadcast
        Packet.channel_created r n
  handle-Agrees n (Mirrors.media m) = handle_media-Agrees server drawn rid user m n
