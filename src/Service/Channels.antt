-- ===== src/Service/Channels.antt =====
-- internal/service/messaging.go: the channel messaging service.
pub mod Sync
pub mod Admission
use meshserver.Base.{
  ℕ, ◌+◌, ◌*◌, ◌%◌, ◌^◌, Bool, true, false, not, ◌&&◌, ◌||◌, Option, none, some, List, [], ◌∷◌,
  ◌==◌, ltb, if◌then◌else◌, length, take, last?,
}
use meshserver.Base.Tables.{find}
use meshserver.Base.Text.{Text, text_eq, is_empty, trim_space, len}
use meshserver.Base.Errors.{Error}
use meshserver.Base.Exec.{Result, ok, err, ◌>>=◌, ◌>>◌, guard, or_err, Exec, reads, value, and_then}
use meshserver.Model.Enums.{MessageType, is_text, is_broadcast, is_manager}
use meshserver.Model.Rows.{Channel, Permission, MediaObject}
use meshserver.Model.Database.{Database}
use meshserver.Store.Direct.Conversations.{is_some}
use meshserver.Store.Channels.{is_user_member, get_permission}
use meshserver.Store.Messages.{
  MessageView, CreateMessageInput, create_message, get_by_channel_id, get_last_message_time,
  list_after_seq, cleanup_expired_messages,
}
use meshserver.Store.Reads.{upsert_delivered_seq, upsert_read_seq}

-- The limits of config.Config that the service reads.
pub record Limits : Type 0 where
  pub max_text_len : ℕ
  pub max_images_per_message : ℕ
  pub max_files_per_message : ℕ
  pub default_sync_limit : ℕ
  pub max_sync_limit : ℕ

pub record AttachmentInput : Type 0 where
  pub media_id : Text
  pub original_name : Text
  pub mime_type : Text
  pub content : List ℕ

pub record SendMessageInput : Type 0 where
  pub channel_id : ℕ
  pub client_msg_id : Text
  pub message_type : MessageType
  pub text : Text
  pub images : List AttachmentInput
  pub files : List AttachmentInput

abbrev pub no_items {ℓ} : {A : Type ℓ} → List A → Bool
no_items [] = true
no_items (x ∷ xs) = false

unfoldable pub infer_message_type : SendMessageInput → MessageType
infer_message_type in_ =
    if not (no_items in_.images)
    then MessageType.image
    else if not (no_items in_.files)
    then MessageType.file
    else MessageType.text

-- The switch on what the message carries.
unfoldable pub check_kind : Permission → SendMessageInput → Result (Unit {0})
check_kind perm in_ =
    if no_items in_.images && no_items in_.files
    then guard (is_text (infer_message_type in_)) Error.invalid_text_type
    else if not (no_items in_.images)
    then guard perm.can_send_image Error.forbidden
    else guard perm.can_send_file Error.forbidden

-- `last` is the answer of `GetLastMessageTime`; times are in milliseconds.
abbrev pub slow_mode_allows : ℕ → ℕ → Option ℕ → Bool
slow_mode_allows now seconds none = true
slow_mode_allows now seconds (some last) = not (ltb now (last + seconds * 1000))

unfoldable pub validate_message :
    Limits → ℕ → Channel → Permission → ℕ → SendMessageInput → Database → Result (Unit {0})
validate_message cfg now ch perm user_id in_ db = do
  guard
      (not (ltb (len (trim_space in_.client_msg_id)) 8)
        && not (ltb 64 (len (trim_space in_.client_msg_id))))
      Error.bad_client_msg_id
  guard (not (ltb cfg.max_text_len (len (trim_space in_.text)))) Error.text_too_long
  guard (not (ltb cfg.max_images_per_message (length in_.images))) Error.too_many_images
  guard (not (ltb cfg.max_files_per_message (length in_.files))) Error.too_many_files
  guard (no_items in_.images || no_items in_.files) Error.images_and_files
  guard (not (is_empty (trim_space in_.text) && (no_items in_.images && no_items in_.files)))
      Error.empty_message
  check_kind perm in_
  guard perm.can_send_message Error.forbidden
  guard (not (is_broadcast ch.channel_type && not (is_manager perm.role))) Error.forbidden
  guard
      (not (ltb 0 ch.slow_mode_seconds)
        || slow_mode_allows now ch.slow_mode_seconds (get_last_message_time ch.id user_id db))
      Error.slow_mode_active

unfoldable pub sync_limit : Limits → ℕ → ℕ
sync_limit cfg limit =
    let wanted = if limit == 0 then cfg.default_sync_limit else limit in
    if ltb cfg.max_sync_limit wanted then cfg.max_sync_limit else wanted

pub record SyncPage : Type 0 where
  pub items : List MessageView
  pub next_after_seq : ℕ
  pub has_more : Bool

abbrev pub last_seq_of : ℕ → Option MessageView → ℕ
last_seq_of after_seq none = after_seq
last_seq_of after_seq (some m) = m.row.seq

-- One item more than the limit was asked for; it is cut off.
unfoldable pub cut_page : ℕ → ℕ → List MessageView → SyncPage
cut_page after_seq limit found =
    let more = ltb limit (length found) in
    let items = if more then take limit found else found in
    record { items = items; next_after_seq = last_seq_of after_seq (last? items); has_more = more }

-- `limit+1` is a uint32.
unfoldable pub sync_channel : Limits → ℕ → ℕ → ℕ → ℕ → Database → Result SyncPage
sync_channel cfg user_id channel_id after_seq limit db = do
  guard (is_user_member channel_id user_id db) Error.forbidden
  ok (
      cut_page after_seq (sync_limit cfg limit)
        (list_after_seq channel_id after_seq ((sync_limit cfg limit + 1) % 2 ^ 32) db))

unfoldable pub ack_delivered : ℕ → ℕ → ℕ → ℕ → Exec Database (Unit {0})
ack_delivered now user_id channel_id seq db =
    if is_user_member channel_id user_id db
    then (ok tt, upsert_delivered_seq now user_id channel_id seq db)
    else (err Error.forbidden, db)

unfoldable pub update_read : ℕ → ℕ → ℕ → ℕ → Exec Database (Unit {0})
update_read now user_id channel_id seq db =
    if is_user_member channel_id user_id db
    then (ok tt, upsert_read_seq now user_id channel_id seq db)
    else (err Error.forbidden, db)

unfoldable pub cleanup : ℕ → Database → ℕ × Database
cleanup now = cleanup_expired_messages now 200

-- `GetByMediaID` of the repository: the media object, whose blob exists.
unfoldable pub get_media_by_id : Text → Database → Result MediaObject
get_media_by_id media_id db =
    or_err
      (find (λ o. text_eq o.media_id media_id && is_some (find (λ b. b.id == o.blob_id) db.blobs))
        db.media_objects)
      Error.not_found

-- The checks before anything is written.
unfoldable pub admit : Limits → ℕ → ℕ → SendMessageInput → Database → Result (Unit {0})
admit cfg now user_id in_ db = do
  ch ← get_by_channel_id in_.channel_id db
  perm ← get_permission in_.channel_id user_id db
  guard perm.can_view Error.forbidden
  validate_message cfg now ch perm user_id in_ db

-- `save` is the media service's `SaveUploadedBlob`, which writes the content to the file store: for
-- the user, an image or a file, and the attachment it returns the media object's row id.
module _ (save : ℕ → Bool → AttachmentInput → Exec Database ℕ) where
  unfoldable pub resolve_one : ℕ → Bool → AttachmentInput → Exec Database ℕ
  resolve_one user_id is_image a =
      if not (is_empty a.media_id) && no_items a.content
      then and_then (reads (get_media_by_id a.media_id)) (λ o. value o.id)
      else save user_id is_image a

  unfoldable pub resolve_all : ℕ → Bool → List AttachmentInput → Exec Database (List ℕ)
  resolve_all user_id is_image [] = value []
  resolve_all user_id is_image (a ∷ rest) =
      and_then (resolve_one user_id is_image a)
        (λ id. and_then (resolve_all user_id is_image rest) (λ ids. value (id ∷ ids)))

  unfoldable pub resolve_attachments : ℕ → SendMessageInput → Exec Database (List ℕ)
  resolve_attachments user_id in_ =
      if not (no_items in_.images)
      then resolve_all user_id true in_.images
      else resolve_all user_id false in_.files

  unfoldable pub send_message : Limits → ℕ → Text → ℕ → SendMessageInput → Exec Database MessageView
  send_message cfg now mid user_id in_ = and_then (reads (admit cfg now user_id in_)) (λ u.
      and_then (resolve_attachments user_id in_) (λ ids. create_message now mid (record {
        channel_id = in_.channel_id;
        sender_user_id = user_id;
        client_msg_id = in_.client_msg_id;
        message_type = infer_message_type in_;
        text = trim_space in_.text;
        attachment_media = ids;
      })))
