-- ===== src/Base/Errors.antt =====
-- The errors that the source returns, one for each sentinel or message.
pub data Error : Type 0 where
  -- repository/interfaces.go and service/messaging.go
  not_found direct_chat_forbidden forbidden invalid_message : Error
  -- repository/mysql
  name_required unsupported_visibility space_is_private user_is_banned : Error
  owner_cannot_be_removed owner_cannot_be_banned owner_cannot_be_unbanned : Error
  owner_role_cannot_change role_required unsupported_role : Error
  space_id_required unsupported_channel_type channel_creation_disabled : Error
  admin_role_required owner_role_required auto_delete_group_only : Error
  invalid_peer invalid_recipient ack_failed duplicate_key : Error
  -- service/messaging.go: ErrInvalidMessage with its reason
  bad_client_msg_id text_too_long too_many_images too_many_files : Error
  images_and_files empty_message invalid_text_type slow_mode_active : Error
  -- auth/service.go
  challenge_expired bad_public_key peer_id_mismatch bad_signature : Error
  -- session/manager.go
  missing_challenge authentication_required create_space_permission_required : Error
  not_channel_member unsupported_member_role unsupported_message_type : Error
  direct_messaging_unavailable : Error
  -- protocol/codec.go, media/blob_service.go and storage/local.go
  envelope_too_large bad_envelope end_of_stream unexpected_eof stream_closed : Error
  empty_blob blob_too_large blob_missing bad_peer_id cid_failed : Error
