-- ===== src/Tests/Channels.antt =====
-- Messages of a channel, read cursors and nonces.
use meshserver.Base.{ℕ, ◌+◌, ◌≤◌, ◌≡◌, refl, Bool, true, List, [], ◌∷◌, arith}
use meshserver.Base.Tables.{find, count, select, update_where}
use meshserver.Base.Sorting.{order_by}
use meshserver.Base.Text.{codes, text_eq, trim_space, is_space, trim_left, len, utf8_width}
use meshserver.Base.Exec.{Exec, ok, fail, ◌>>=◌, guard, or_err}
use meshserver.Base.Errors.{Error}
use meshserver.Model.Enums.{MessageType}
use meshserver.Model.Rows.{Channel, Permission}
use meshserver.Model.Database.{Database}
use meshserver.Store.Channels.{get_permission}
use meshserver.Store.Messages.{
  MessageView, attachments_of, hydrate, load_message_by_id, create_message, create_message_body,
  create_message_in, insert_message, attach_all, advance_channel, get_by_channel_id,
  get_last_message_time, is_expired, expired_rows, delete_row, delete_rows,
  cleanup_expired_messages, cleanup_limit, new_message,
}
use meshserver.Store.Messages.Cleanup.{HasUniqueIds, live, live-cleanup_expired_messages}
use meshserver.Store.Reads.{channel_exists, find_cursor}
use meshserver.Store.Reads.Cursors.{Report, reports, greatest, cursor_of, reports-greatest}
use meshserver.Store.Reads.Nonces.{Attempt, accepted, unused, accepted-le-unused}
use meshserver.Service.Channels.{
  Limits, AttachmentInput, SendMessageInput, SyncPage, infer_message_type, check_kind,
  validate_message, cut_page, admit, resolve_all, resolve_attachments, send_message,
}
use meshserver.Service.Channels.Admission.{IsPermitted, send_message-IsPermitted}
use meshserver.Tests.Data.{empty, channelled, message, nonce}

abbrev pub limits : Limits
limits = record {
  max_text_len = 20;
  max_images_per_message = 2;
  max_files_per_message = 2;
  default_sync_limit = 50;
  max_sync_limit = 100;
}

abbrev told : List Report
told =
    Report.delivered 1 1 1 4
    ∷ Report.read 2 1 1 3
    ∷ Report.delivered 3 2 1 9
    ∷ Report.read 4 1 1 2
    ∷ []

there_is_a_channel : channel_exists 1 channelled ≡ true
unfolding find
there_is_a_channel = refl

reports-greatest_example :
    cursor_of (find_cursor 1 1 (reports told channelled))
    ≡ greatest 1 1 told (cursor_of (find_cursor 1 1 channelled))
reports-greatest_example = reports-greatest 1 1 told channelled there_is_a_channel

abbrev tries : List Attempt
tries =
    record { hash = codes "h"; client = codes "ann"; node = codes "node"; now = 5 }
    ∷ record { hash = codes "h"; client = codes "ann"; node = codes "node"; now = 6 }
    ∷ []

accepted-le-unused_example :
    accepted (codes "h") tries (record empty { auth_nonces = nonce (codes "h") ∷ [] })
    ≤ unused (codes "h") (record empty { auth_nonces = nonce (codes "h") ∷ [] })
accepted-le-unused_example =
    accepted-le-unused (codes "h") tries (record empty { auth_nonces = nonce (codes "h") ∷ [] })

channelled_ids : HasUniqueIds channelled.messages
unfolding count
channelled_ids id = ground arith

live-cleanup_expired_messages_example :
    ((cleanup_expired_messages 70500 0 channelled).0
        + live (cleanup_expired_messages 70500 0 channelled).1.messages
      ≡ live channelled.messages)
    × ((cleanup_expired_messages 70500 0 channelled).0 ≤ cleanup_limit 0)
live-cleanup_expired_messages_example =
    live-cleanup_expired_messages 70500 0 channelled channelled_ids

one_deleted : (cleanup_expired_messages 70500 0 channelled).0 ≡ 1
unfolding cleanup_expired_messages expired_rows is_expired delete_rows delete_row order_by select
    find count update_where
one_deleted = refl

abbrev first_page : SyncPage
first_page =
    cut_page 0 1 (hydrate channelled (message 1 10) ∷ hydrate channelled (message 2 70000) ∷ [])

abbrev pub no_media : ℕ → Bool → AttachmentInput → Exec Database ℕ
no_media user_id is_image a = fail Error.not_found

abbrev pub post : SendMessageInput
post = record {
  channel_id = 1;
  client_msg_id = codes "client-1";
  message_type = MessageType.text;
  text = codes "hello";
  images = [];
  files = [];
}

abbrev posted : MessageView
posted = record {
  row =
      new_message 90000 3 (codes "m3")
        (record {
          channel_id = 1;
          sender_user_id = 1;
          client_msg_id = codes "client-1";
          message_type = MessageType.text;
          text = codes "hello";
          attachment_media = [];
        })
        3;
  sender_external_id = codes "ann";
  images = [];
  files = [];
}

post_is_stored : (send_message no_media limits 90000 (codes "m3") 1 post channelled).0 ≡ ok posted
unfolding send_message admit validate_message check_kind infer_message_type resolve_attachments
    resolve_all get_by_channel_id get_permission get_last_message_time create_message
    create_message_body create_message_in insert_message attach_all advance_channel
    load_message_by_id hydrate attachments_of trim_space trim_left is_space len utf8_width order_by
    select find count update_where text_eq or_err guard ◌>>=◌
post_is_stored = refl

send_message-IsPermitted_example :
    (ch : Channel) × (perm : Permission) × (get_by_channel_id 1 channelled ≡ ok ch)
    × (get_permission 1 1 channelled ≡ ok perm)
    × IsPermitted limits 90000 ch perm 1 post channelled
send_message-IsPermitted_example =
    send_message-IsPermitted no_media limits 90000 (codes "m3") 1 post channelled posted
      post_is_stored
