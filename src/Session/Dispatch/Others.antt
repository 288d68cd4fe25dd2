-- ===== src/Session/Dispatch/Others.antt =====
-- internal/session: dispatch beside the methods that the HTTP interface calls.
use meshserver.Base.{ℕ, ◌+◌, ◌≡◌, refl, ap, ◌∙◌, true, ◌&&◌, if◌then◌else◌}
use meshserver.Base.Text.{Text}
use meshserver.Base.Errors.{Error}
use meshserver.Base.Exec.{
  Result, ok, err, guard, ◌>>=◌, ◌>>◌, Exec, reads, value, and_then, continue,
}
use meshserver.Model.Enums.{Role, ChannelType, is_manager, is_group}
use meshserver.Model.Rows.{User, Space, Channel}
use meshserver.Model.Database.{Database}
use meshserver.Store.Spaces.Queries.{
  get_by_space_id, get_member_role, list_space_members, can_create_group,
}
use meshserver.Store.Channels.{create_channel, all_permissions, set_group_auto_delete_after_seconds}
use meshserver.Store.Messages.{get_by_channel_id, list_channel_ids_by_media_id}
use meshserver.Store.Spaces.Members.{create_space}
use meshserver.Session.Wire.{ChannelSummary, MediaFile, Packet, CreateReq}
use meshserver.Session.Node.{Node, call, look, write}
use meshserver.Session.Api.{
  is_global_admin, space_input, channel_input, members_page, member_limit, may_view_any,
  download_media, space_summary_for_viewer, check_manager, check_group, clean_up,
  list_space_members_for_api, get_media_for_api, create_space_for_api,
  get_create_group_permissions_for_api, admin_set_group_auto_delete_for_api,
}
use meshserver.Session.Handlers.{
  Server, Drawn, require_manager, handle_auto_delete, summarize, handle_members,
  handle_create_space, handle_group_permissions, handle_create_channel, handle_media,
}
use meshserver.Session.Convert.{to_proto_member_role, to_channel_summary, no_permission}
use meshserver.Session.Dispatch.Steps.{step}
use meshserver.Session.Dispatch.Members.{Agrees, require_manager-check_manager}

module _ (server : Server) (drawn : Drawn) (rid : Text) (user : User) where
  pub check_group-steps :
      (channel_id : ℕ) (rest : Unit {0} → Exec Node (Unit {0})) (n : Node)
      → and_then
          (look (get_by_channel_id channel_id))
          (λ ch.
            and_then
              (look (λ db. guard (is_group ch.channel_type) Error.auto_delete_group_only))
              (λ u. and_then (require_manager server drawn rid user ch.space_id) rest))
          n
        ≡ and_then (look (check_group channel_id user.id)) rest n
  unfolding check_group ◌>>=◌
  check_group-steps channel_id rest n = go (get_by_channel_id channel_id n.db)
    where
      managed :
          (ch : Channel) (b : Result (Unit {0}))
          → continue (λ u. and_then (require_manager server drawn rid user ch.space_id) rest) b n
            ≡ continue rest (b >> check_manager ch.space_id user.id n.db) n
      managed ch (ok u) =
          ap (λ (r : Result (Unit {0}) × Node). continue rest r.0 r.1)
            (require_manager-check_manager server drawn rid user ch.space_id n)
      managed ch (err e) = refl

      go :
          (r : Result Channel)
          → continue
              (λ ch.
                and_then
                  (look (λ db. guard (is_group ch.channel_type) Error.auto_delete_group_only))
                  (λ u. and_then (require_manager server drawn rid user ch.space_id) rest))
              r
              n
            ≡ continue rest
                (r >>= λ ch.
                  guard (is_group ch.channel_type) Error.auto_delete_group_only
                  >> check_manager ch.space_id user.id n.db)
                n
      go (ok ch) = managed ch (guard (is_group ch.channel_type) Error.auto_delete_group_only)
      go (err e) = refl

  pub handle_auto_delete-Agrees :
      (channel_id seconds : ℕ)
      → Agrees server drawn rid user
          (handle_auto_delete server drawn rid user channel_id seconds)
          (admin_set_group_auto_delete_for_api server.env user.id channel_id seconds)
  unfolding handle_auto_delete admin_set_group_auto_delete_for_api
  handle_auto_delete-Agrees channel_id seconds n =
      check_group-steps channel_id _ n
      ∙ step (look (check_group channel_id user.id)) (reads (check_group channel_id user.id)) _
          (write rid) n refl
          (λ u t.
            step (call (set_group_auto_delete_after_seconds server.env.now channel_id seconds))
              (set_group_auto_delete_after_seconds server.env.now channel_id seconds) _ (write rid)
              t refl
              (λ v t'.
                step (call (clean_up server.env.now)) (clean_up server.env.now) reread (write rid)
                  t' refl
                  (λ w t''.
                    step (look (get_by_channel_id channel_id))
                      (reads (get_by_channel_id channel_id)) shown (write rid) t'' refl
                      (λ ch o. refl))))
    where
      shown : Channel → Exec Database Packet
      shown ch = value (
          Packet.auto_delete_set channel_id ch.auto_delete_after_seconds
            (to_channel_summary ch no_permission))

      reread : Unit {0} → Exec Database Packet
      reread w = and_then (reads (get_by_channel_id channel_id)) shown

  pub handle_members-Agrees :
      (space_id after limit : ℕ)
      → Agrees server drawn rid user
          (handle_members server drawn rid user space_id after limit)
          (reads (list_space_members_for_api user.id space_id after limit))
  unfolding handle_members list_space_members_for_api ◌>>=◌
  handle_members-Agrees space_id after limit n =
      ap (λ (r : Result (Unit {0}) × Node). continue page r.0 r.1)
        (require_manager-check_manager server drawn rid user space_id n)
      ∙ go (check_manager space_id user.id n.db)
    where
      page : Unit {0} → Exec Node (Unit {0})
      page u =
          and_then
            (look (λ db. ok (
              members_page space_id (member_limit limit)
                (list_space_members space_id after (member_limit limit + 1) db) db)))
            (write rid)

      go :
          (r : Result (Unit {0}))
          → continue page r n
            ≡ continue
                (write rid)
                (r
                  >> ok (
                      members_page space_id
                        (member_limit limit)
                        (list_space_members space_id after (member_limit limit + 1) n.db)
                        n.db))
                n
      go (ok u) = refl
      go (err e) = refl

  pub handle_create_space-Agrees :
      (req : CreateReq)
      → Agrees server drawn rid user
          (handle_create_space server drawn rid user req)
          (create_space_for_api server.env user.id user.peer_id req)
  unfolding handle_create_space create_space_for_api summarize
  handle_create_space-Agrees req n =
      step
        (look (λ db.
          guard (is_global_admin server.env user.peer_id) Error.create_space_permission_required))
        (reads (λ db.
          guard (is_global_admin server.env user.peer_id) Error.create_space_permission_required))
        _ (write rid) n refl
        (λ u t.
          step (call (create_space server.env.now (space_input server.env user.id req)))
            (create_space server.env.now (space_input server.env user.id req)) _ (write rid) t refl
            (λ item t'. refl))

  pub handle_create_channel-Agrees :
      (type_ : ChannelType) (reply : ℕ → ℕ → ChannelSummary → Packet) (req : CreateReq)
      → Agrees server drawn rid user (handle_create_channel server drawn rid user type_ reply req) (
          and_then
            (create_channel server.env.now
              (channel_input server.env type_ user.id user.peer_id req))
            (λ item. value (reply req.space_id item.id (to_channel_summary item all_permissions))))
  unfolding handle_create_channel
  handle_create_channel-Agrees type_ reply req n =
      step
        (call
          (create_channel server.env.now (channel_input server.env type_ user.id user.peer_id req)))
        (create_channel server.env.now (channel_input server.env type_ user.id user.peer_id req)) _
        (write rid) n refl (λ item t. refl)

  pub handle_media-Agrees :
      (media_id : Text)
      → Agrees server drawn rid user
          (handle_media server drawn rid user media_id)
          (reads (get_media_for_api server.env user.id media_id))
  unfolding handle_media get_media_for_api ◌>>=◌
  handle_media-Agrees media_id n = go (
      guard (may_view_any (list_channel_ids_by_media_id media_id n.db) user.id n.db)
        Error.forbidden)
    where
      sent : Result MediaFile → Result (Unit {0}) × Node
      sent r = continue (λ file. write rid (Packet.media media_id file)) r n

      found :
          (r : Result MediaFile)
          → sent r ≡ continue (write rid) (r >>= λ file. ok (Packet.media media_id file)) n
      found (ok file) = refl
      found (err e) = refl

      go :
          (r : Result (Unit {0}))
          → continue
              (λ u.
                and_then
                  (look (download_media server.env media_id))
                  (λ file. write rid (Packet.media media_id file)))
              r
              n
            ≡ continue
                (write rid)
                (r
                  >> (download_media server.env media_id n.db >>= λ file.
                      ok (Packet.media media_id file)))
                n
      go (ok u) = found (download_media server.env media_id n.db)
      go (err e) = refl

  pub handle_group_permissions-Agrees :
      (space_id : ℕ)
      → Agrees server drawn rid user
          (handle_group_permissions server drawn rid user space_id)
          (reads (get_create_group_permissions_for_api server.env user.id user.peer_id space_id))
  unfolding handle_group_permissions get_create_group_permissions_for_api summarize ◌>>=◌
  handle_group_permissions-Agrees space_id n = found (get_by_space_id space_id n.db)
    where
      reply : Space → Role → Exec Node (Unit {0})
      reply item role =
          and_then (look (λ db. ok (can_create_group space_id user.id db))) (λ can_create.
            and_then (summarize server drawn rid user item) (λ sum. write rid (
              Packet.create_group_permissions space_id sum (to_proto_member_role role) (
                if is_global_admin server.env user.peer_id && is_manager role
                then true
                else can_create))))

      packet : Space → Role → Result Packet
      packet item role = ok (
          Packet.create_group_permissions space_id
            (space_summary_for_viewer server.env item user.id user.peer_id n.db)
            (to_proto_member_role role)
            (if is_global_admin server.env user.peer_id && is_manager role
              then true
              else can_create_group space_id user.id n.db))

      known :
          (item : Space) (q : Result Role)
          → continue (reply item) q n ≡ continue (write rid) (q >>= packet item) n
      known item (ok role) = refl
      known item (err e) = refl

      found :
          (r : Result Space)
          → continue (λ item. and_then (look (get_member_role space_id user.id)) (reply item)) r n
            ≡ continue
                (write rid)
                (r >>= λ item. get_member_role space_id user.id n.db >>= packet item)
                n
      found (ok item) = known item (get_member_role space_id user.id n.db)
      found (err e) = refl
