-- ===== src/Session/Api.antt =====
-- internal/session/manager.go and manager_v1_rest.go: the `…ForAPI` methods, which the HTTP interface
-- calls with a user that it has authenticated, and the viewer's summaries of spaces.
use meshserver.Base.{
  ℕ, ◌+◌, Bool, true, false, not, ◌&&◌, ◌||◌, Option, none, some, List, [], ◌∷◌, map, ◌==◌, ltb,
  length, take, last?, if◌then◌else◌,
}
use meshserver.Base.Tables.{find}
use meshserver.Base.Text.{Text, text_eq, is_empty}
use meshserver.Base.Errors.{Error}
use meshserver.Base.Exec.{Result, ok, err, ◌>>=◌, ◌>>◌, guard, or_err, Exec, reads, value, and_then}
use meshserver.Model.Enums.{Role, ChannelType, is_owner, is_manager, is_group}
use meshserver.Model.Rows.{Space, Membership, Permission, Blob, MediaObject}
use meshserver.Model.Database.{Database}
use meshserver.Store.Users.{get_by_user_id}
use meshserver.Store.Spaces.Queries.{
  get_by_space_id, get_member_role, can_create_group, list_by_user_id, list_space_members,
}
use meshserver.Store.Spaces.Members.{
  SpaceExec, CreateSpaceInput, create_space, join_space, invite_space_member, kick_space_member,
  ban_space_member, unban_space_member,
}
use meshserver.Store.Spaces.Roles.{set_space_allow_channel_creation, set_space_member_role}
use meshserver.Store.Channels.{
  all_permissions, get_permission, list_by_space_id_for_user, CreateChannelInput, create_channel,
  set_group_auto_delete_after_seconds,
}
use meshserver.Store.Messages.{get_by_channel_id, list_channel_ids_by_media_id}
use meshserver.Service.Channels.{
  Limits, AttachmentInput, SyncPage, sync_channel, ack_delivered, update_read, cleanup,
  get_media_by_id,
}
use meshserver.Session.Wire.{
  WireRole, SpaceSummary, ChannelSummary, MediaFile, CreateReq, Packet, space_members,
  space_created, create_space_permissions, create_group_permissions, member_role_set,
  channel_creation_set, auto_delete_set, invited, kicked, banned, unbanned, group_created,
  channel_created,
}
use meshserver.Session.Convert.{
  to_visibility, to_domain_visibility, to_domain_member_role, to_proto_member_role,
  to_space_member_summaries, to_channel_summary, no_permission, trim_peer_id_for_compare,
}

-- The fields of Manager that do not change, what the libraries compute, and the time of the request.
-- `decode_peer` is libp2p's peer.Decode, `collates` the order of names in the database, `save` the
-- media service's SaveUploadedBlob, and `read_blob` reads a file of the blob store.
pub record Env : Type 0 where
  pub global_admin_peer_id : Text
  pub node_id : ℕ
  pub blob_url_base : Text
  pub limits : Limits
  pub decode_peer : Text → Option (List ℕ)
  pub collates : Text → Text → Bool
  pub save : ℕ → Bool → AttachmentInput → Exec Database ℕ
  pub read_blob : Text → Result (List ℕ)
  pub now : ℕ

abbrev same_peer : Option (List ℕ) → Option (List ℕ) → Bool
same_peer none o = false
same_peer (some a) none = false
same_peer (some a) (some b) = text_eq a b

-- NewManager has trimmed the configured id once.
unfoldable pub is_global_admin : Env → Text → Bool
is_global_admin env peer_id =
    let configured = trim_peer_id_for_compare (trim_peer_id_for_compare env.global_admin_peer_id) in
    if is_empty configured
    then false
    else same_peer (env.decode_peer configured) (env.decode_peer (trim_peer_id_for_compare peer_id))

-- Not being a member counts as not being a manager; another error would be returned.
abbrev pub manages : Result Role → Bool
manages (ok r) = is_manager r
manages (err e) = false

unfoldable pub effective_allow_channel_creation : Env → Space → ℕ → Text → Database → Bool
effective_allow_channel_creation env item user_id peer_id db =
    if item.allow_channel_creation
    then true
    else if not (is_global_admin env peer_id)
    then false
    else manages (get_member_role item.id user_id db)

unfoldable pub space_summary_for_viewer : Env → Space → ℕ → Text → Database → SpaceSummary
space_summary_for_viewer env item user_id peer_id db = record {
  space_id = item.id;
  name = item.name;
  description = item.description;
  visibility = to_visibility item.visibility;
  member_count = item.member_count;
  allow_channel_creation = effective_allow_channel_creation env item user_id peer_id db;
}

unfoldable pub space_summaries_for_viewer :
    Env → List Space → ℕ → Text → Database → List SpaceSummary
space_summaries_for_viewer env items user_id peer_id db =
    map (λ item. space_summary_for_viewer env item user_id peer_id db) items

-- DirectoryService.ListSpaces and ListChannels with the viewer's summaries.
unfoldable pub list_spaces_for_api : Env → ℕ → Text → Database → List SpaceSummary
list_spaces_for_api env user_id peer_id db =
    space_summaries_for_viewer env (list_by_user_id env.collates user_id db) user_id peer_id db

abbrev pub permission_or_none : Result Permission → Permission
permission_or_none (ok p) = p
permission_or_none (err e) = no_permission

-- The query joins the membership's permission to each channel; it is the one that get_permission reads.
unfoldable pub list_channels_for_api : Env → ℕ → ℕ → Database → List ChannelSummary
list_channels_for_api env user_id space_id db =
    map (λ c. to_channel_summary c (permission_or_none (get_permission c.id user_id db)))
      (list_by_space_id_for_user env.collates space_id user_id db)

-- The actor's role, which has to be owner or admin.
unfoldable pub check_manager : ℕ → ℕ → Database → Result (Unit {0})
check_manager space_id user_id db = do
  role ← get_member_role space_id user_id db
  guard (is_manager role) Error.admin_role_required

unfoldable pub member_limit : ℕ → ℕ
member_limit limit =
    let wanted = if limit == 0 then 20 else limit in if ltb 100 wanted then 100 else wanted

abbrev last_member_id : Option Membership → ℕ
last_member_id none = 0
last_member_id (some m) = m.id

-- One row more than the limit was asked for; it is cut off.
unfoldable pub members_page : ℕ → ℕ → List Membership → Database → Packet
members_page space_id limit found db =
    let more = ltb limit (length found) in
    let items = if more then take limit found else found in
    space_members space_id (to_space_member_summaries db items) (last_member_id (last? items)) more

unfoldable pub list_space_members_for_api : ℕ → ℕ → ℕ → ℕ → Database → Result Packet
list_space_members_for_api user_id space_id after_member_id limit db = do
  check_manager space_id user_id db
  ok (
      members_page space_id (member_limit limit)
        (list_space_members space_id after_member_id (member_limit limit + 1) db) db)

-- The channels that show the media object are asked until one lets the user view it.
unfoldable pub may_view_any : List ℕ → ℕ → Database → Bool
may_view_any [] user_id db = false
may_view_any (c ∷ cs) user_id db = elim (get_permission c user_id db) [
  | ok p ↦ p.can_view || may_view_any cs user_id db
  | err e ↦ may_view_any cs user_id db
]

-- `item.Kind == "file" && item.FileCID != ""` shows the CID in place of the hash.
unfoldable pub media_file : MediaObject → Blob → List ℕ → MediaFile
media_file o b content =
    let by_cid = not o.is_image && not (is_empty o.file_cid) in
    record {
      media_id = o.media_id;
      blob_id = b.blob_id;
      name = o.original_name;
      mime_type = o.mime_type;
      size = o.size;
      sha256 = if by_cid then [] else b.sha256;
      file_cid = if by_cid then o.file_cid else [];
      url = [];
      inline_data = content;
    }

abbrev blob_of : MediaObject → Database → Option Blob
blob_of o db = find (λ b. b.id == o.blob_id) db.blobs

-- `DownloadMediaByID`
unfoldable pub download_media : Env → Text → Database → Result MediaFile
download_media env media_id db = do
  o ← get_media_by_id media_id db
  b ← or_err (blob_of o db) Error.not_found
  content ← env.read_blob b.storage_path
  ok (media_file o b content)

unfoldable pub get_media_for_api : Env → ℕ → Text → Database → Result Packet
get_media_for_api env user_id media_id db = do
  guard (may_view_any (list_channel_ids_by_media_id media_id db) user_id db) Error.forbidden
  file ← download_media env media_id db
  ok (Packet.media media_id file)

unfoldable pub join_space_for_api : Env → ℕ → Text → ℕ → Exec Database SpaceSummary
join_space_for_api env user_id peer_id space_id =
    and_then (join_space env.now space_id user_id)
      (λ item. reads (λ db. ok (space_summary_for_viewer env item user_id peer_id db)))

abbrev pub space_input : Env → ℕ → CreateReq → CreateSpaceInput
space_input env user_id req = record {
  host_node_id = env.node_id;
  creator_user_id = user_id;
  name = req.name;
  description = req.description;
  visibility = to_domain_visibility req.visibility;
  allow_channel_creation = true;
}

unfoldable pub create_space_for_api : Env → ℕ → Text → CreateReq → Exec Database Packet
create_space_for_api env user_id peer_id req =
    and_then
      (reads (λ db. guard (is_global_admin env peer_id) Error.create_space_permission_required))
      (λ u. and_then (create_space env.now (space_input env user_id req)) (λ item.
        reads (λ db.
          ok (space_created item.id (space_summary_for_viewer env item user_id peer_id db)))))

unfoldable pub get_create_space_permissions_for_api : Env → Text → Packet
get_create_space_permissions_for_api env peer_id =
    create_space_permissions (is_global_admin env peer_id)

unfoldable pub get_create_group_permissions_for_api : Env → ℕ → Text → ℕ → Database → Result Packet
get_create_group_permissions_for_api env user_id peer_id space_id db = do
  item ← get_by_space_id space_id db
  role ← get_member_role space_id user_id db
  ok (
      create_group_permissions space_id (space_summary_for_viewer env item user_id peer_id db)
        (to_proto_member_role role)
        (if is_global_admin env peer_id && is_manager role
          then true
          else can_create_group space_id user_id db))

-- Only an owner makes an owner; the other roles are given by owners and admins.
unfoldable pub check_role_change : Role → ℕ → ℕ → Database → Result (Unit {0})
check_role_change role space_id user_id db = do
  actor ← get_member_role space_id user_id db
  if is_owner role
      then guard (is_owner actor) Error.owner_role_required
      else guard (is_manager actor) Error.admin_role_required

unfoldable pub admin_set_space_member_role_for_api :
    Env → ℕ → ℕ → Text → WireRole → Exec Database Packet
admin_set_space_member_role_for_api env user_id space_id target_id wire_role =
    and_then (reads (λ db. to_domain_member_role wire_role)) (λ role.
      and_then (reads (check_role_change role space_id user_id)) (λ u.
        and_then (reads (get_by_user_id target_id)) (λ target.
          and_then (set_space_member_role env.now space_id target.id role)
            (λ v. value (member_role_set space_id target_id wire_role)))))

unfoldable pub admin_set_space_channel_creation_for_api : Env → ℕ → ℕ → Bool → Exec Database Packet
admin_set_space_channel_creation_for_api env user_id space_id allow =
    and_then (reads (check_manager space_id user_id)) (λ u.
      and_then (set_space_allow_channel_creation env.now space_id allow)
        (λ v. value (channel_creation_set space_id allow)))

-- The group channel, whose space the actor manages.
unfoldable pub check_group : ℕ → ℕ → Database → Result (Unit {0})
check_group channel_id user_id db = do
  ch ← get_by_channel_id channel_id db
  guard (is_group ch.channel_type) Error.auto_delete_group_only
  check_manager ch.space_id user_id db

-- The cleanup's outcome is only logged.
abbrev pub clean_up : ℕ → Exec Database (Unit {0})
clean_up now db = (ok tt, (cleanup now db).1)

unfoldable pub admin_set_group_auto_delete_for_api : Env → ℕ → ℕ → ℕ → Exec Database Packet
admin_set_group_auto_delete_for_api env user_id channel_id seconds =
    and_then (reads (check_group channel_id user_id)) (λ u.
      and_then (set_group_auto_delete_after_seconds env.now channel_id seconds) (λ v.
        and_then (clean_up env.now) (λ w. and_then (reads (get_by_channel_id channel_id)) (λ ch.
          value (
            auto_delete_set channel_id ch.auto_delete_after_seconds
              (to_channel_summary ch no_permission))))))

-- The four methods on a member have one form: the actor's role, the target, the call, the summary.
abbrev pub on_member :
    (ℕ → ℕ → SpaceExec)
    → (ℕ → Text → SpaceSummary → Packet)
    → Env
    → ℕ
    → Text
    → ℕ
    → Text
    → Exec Database Packet
on_member act reply env user_id peer_id space_id target_id =
    and_then (reads (check_manager space_id user_id)) (λ u.
      and_then (reads (get_by_user_id target_id)) (λ target.
        and_then (act space_id target.id) (λ item. reads (λ db.
          ok (reply space_id target_id (space_summary_for_viewer env item user_id peer_id db))))))

unfoldable pub invite_space_member_for_api : Env → ℕ → Text → ℕ → Text → Exec Database Packet
invite_space_member_for_api env = on_member (invite_space_member env.now) invited env

unfoldable pub kick_space_member_for_api : Env → ℕ → Text → ℕ → Text → Exec Database Packet
kick_space_member_for_api env = on_member (kick_space_member env.now) kicked env

unfoldable pub ban_space_member_for_api : Env → ℕ → Text → ℕ → Text → Exec Database Packet
ban_space_member_for_api env = on_member (ban_space_member env.now) banned env

unfoldable pub unban_space_member_for_api : Env → ℕ → Text → ℕ → Text → Exec Database Packet
unban_space_member_for_api env = on_member (unban_space_member env.now) unbanned env

abbrev pub channel_input : Env → ChannelType → ℕ → Text → CreateReq → CreateChannelInput
channel_input env type_ user_id peer_id req = record {
  creator_user_id = user_id;
  space_id = req.space_id;
  channel_type = type_;
  name = req.name;
  description = req.description;
  visibility = to_domain_visibility req.visibility;
  slow_mode_seconds = req.slow_mode_seconds;
  bypass_space_channel_creation_policy = is_global_admin env peer_id;
}

unfoldable pub create_group_for_api : Env → ℕ → Text → CreateReq → Exec Database Packet
create_group_for_api env user_id peer_id req =
    and_then (create_channel env.now (channel_input env ChannelType.group user_id peer_id req))
      (λ item. value (group_created req.space_id item.id (to_channel_summary item all_permissions)))

unfoldable pub create_channel_for_api : Env → ℕ → Text → CreateReq → Exec Database Packet
create_channel_for_api env user_id peer_id req =
    and_then (create_channel env.now (channel_input env ChannelType.broadcast user_id peer_id req))
      (λ item.
        value (channel_created req.space_id item.id (to_channel_summary item all_permissions)))

unfoldable pub sync_channel_for_api : Env → ℕ → ℕ → ℕ → ℕ → Database → Result SyncPage
sync_channel_for_api env user_id channel_id after_seq limit =
    sync_channel env.limits user_id channel_id after_seq limit

unfoldable pub ack_delivered_for_api : Env → ℕ → ℕ → ℕ → Exec Database (Unit {0})
ack_delivered_for_api env user_id channel_id seq = ack_delivered env.now user_id channel_id seq

unfoldable pub update_read_for_api : Env → ℕ → ℕ → ℕ → Exec Database (Unit {0})
update_read_for_api env user_id channel_id seq = update_read env.now user_id channel_id seq
