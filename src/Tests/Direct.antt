-- ===== src/Tests/Direct.antt =====
-- Direct messages between two users.
use mathlib.Core.Option
use meshserver.Base.{
  ◌+◌, ◌<◌, ◌≡◌, refl, true, false, none, some, [], ◌∷◌, map, length, All, ◌⊎◌, ◌&&◌, ◌≤◌, ◌==◌,
}
use meshserver.Base.Tables.{find, insert, count, select, update_where}
use meshserver.Base.Sorting.{order_by, IsAscending}
use meshserver.Base.Text.{codes, text_eq, trim_space, is_space, trim_left, is_empty}
use meshserver.Base.Errors.{Error}
use meshserver.Base.Exec.{ok, err, ◌>>=◌, guard, or_err}
use meshserver.Model.Enums.{MessageType}
use meshserver.Model.Rows.{DirectConversation}
use meshserver.Model.Database.{Database}
use meshserver.Store.Direct.Conversations.{
  normalize_user_pair, open_pair, open_body, get_or_create_conversation,
  get_conversation_by_external_id,
}
use meshserver.Store.Direct.Messages.{
  DirectMessageView, CreateDirectMessageInput, load_direct_message_row,
  get_direct_message_by_client_msg_id, get_direct_message_by_message_id, insert_direct_message,
  advance_conversation, store_new, store_unless, create_direct_message_body, load_stored,
  create_direct_message, update_ack, ack_loaded, ack_direct_message, page_of,
  list_pending_direct_messages, AckOutcome, created, new_direct_message, is_pending, pending_limit,
}
use meshserver.Store.Direct.Idempotence.{create_direct_message-again}
use meshserver.Store.Direct.Sequence.{
  IsNumbered, find_conversation, create_direct_message_body-next,
}
use meshserver.Store.Direct.Acks.{ack_direct_message-again}
use meshserver.Store.Direct.Shown.{page_first}
use meshserver.Store.Direct.Pending.{page, page_complete, page-progress}
use meshserver.Store.Direct.Opening.{get_or_create-again}
use meshserver.Service.Direct.{
  WireType, SendReq, sent, proto_to_message_type, check_request, send_to,
}
use meshserver.Service.Direct.Send.{send_to-overtaken}
use meshserver.Base.{arith}
use meshserver.Base.Maps.{elem}
use meshserver.Store.Direct.Following.{follow, pending_as, follow-shows}
use meshserver.Tests.Data.{talking, waiting, cid, conversation}

abbrev greeting : CreateDirectMessageInput
greeting = record {
  conversation_id = cid;
  sender_user_id = 1;
  recipient_user_id = 2;
  client_msg_id = codes "c1";
  message_type = MessageType.text;
  text = codes "hello";
}

abbrev greeted : DirectMessageView
greeted = record {
  row = new_direct_message 7 (codes "m1") greeting 1;
  sender_external_id = codes "ann";
  recipient_external_id = codes "bob";
}

greeting_is_stored : (create_direct_message 7 (codes "m1") greeting talking).0 ≡ ok greeted
unfolding create_direct_message create_direct_message_body store_unless store_new
    insert_direct_message advance_conversation load_stored load_direct_message_row
    get_direct_message_by_client_msg_id get_direct_message_by_message_id find update_where text_eq
    or_err guard ◌>>=◌
greeting_is_stored = refl

create_direct_message-again_example :
    create_direct_message 9
      (codes "m2")
      greeting
      (create_direct_message 7 (codes "m1") greeting talking).1
    ≡ (ok greeted, (create_direct_message 7 (codes "m1") greeting talking).1)
create_direct_message-again_example =
    create_direct_message-again 7 9 (codes "m1") (codes "m2") greeting talking greeted
      greeting_is_stored

abbrev told : Database
told = record talking {
  direct_messages = new_direct_message 7 (codes "m1") greeting 1 ∷ [];
  direct_conversations =
      record conversation { last_seq = 1; last_message_at_ms = 7; updated_at = 7 } ∷ [];
}

greeting_body :
    create_direct_message_body 7 (codes "m1") greeting talking ≡ ok (created (codes "m1"), told)
unfolding create_direct_message_body store_unless store_new insert_direct_message
    advance_conversation load_direct_message_row get_direct_message_by_client_msg_id find
    update_where text_eq or_err guard ◌>>=◌
greeting_body = refl

create_direct_message_body-next_example :
    (conv : DirectConversation) × (find_conversation cid talking ≡ some conv)
    × (told.direct_messages
        ≡ insert
            (new_direct_message 7 (codes "m1") greeting (conv.last_seq + 1))
            talking.direct_messages)
    × (Option.map (λ c. c.last_seq) (find_conversation cid told) ≡ some (conv.last_seq + 1))
    × All
        (λ m. text_eq m.conversation_id cid ≡ true → m.seq < conv.last_seq + 1)
        talking.direct_messages
    × IsNumbered cid told
create_direct_message_body-next_example =
    create_direct_message_body-next 7 (codes "m1") (codes "m1") greeting talking told (λ c e. tt)
      greeting_body

abbrev received : AckOutcome
received = record { already_acked = false; sender_user_id = 1; conversation_id = cid }

first_ack : (ack_direct_message (λ d. d) (codes "m2") 2 8 waiting).0 ≡ ok received
unfolding ack_direct_message ack_loaded update_ack load_direct_message_row
    get_direct_message_by_message_id find count text_eq or_err ◌>>=◌
first_ack = refl

ack_direct_message-again_example :
    ack_direct_message
      (λ d. d)
      (codes "m2")
      2
      9
      (ack_direct_message (λ d. d) (codes "m2") 2 8 waiting).1
    ≡ (
      ok (record received { already_acked = true }),
      (ack_direct_message (λ d. d) (codes "m2") 2 8 waiting).1,
    )
ack_direct_message-again_example =
    ack_direct_message-again (codes "m2") 2 8 waiting (λ d. d) 9 received first_ack

page_first_example :
    All
      (λ m.
        (m.conversation_id ≡ cid)
        × (m.recipient_user_id ≡ 2)
        × (m.recipient_acked_at_ms ≡ none)
        × (0 < m.seq))
      (map (λ v. v.row) (page cid 2 0 1 waiting).items)
    × IsAscending (λ m. m.seq) (map (λ v. v.row) (page cid 2 0 1 waiting).items)
    × ((count (λ m. m.seq == 2) (map (λ v. v.row) (page cid 2 0 1 waiting).items)
          ≡ count (λ m. (m.seq == 2) && is_pending cid 2 0 waiting m) waiting.direct_messages)
        ⊎ All (λ m. m.seq ≤ 2) (map (λ v. v.row) (page cid 2 0 1 waiting).items))
page_first_example = page_first cid 2 0 1 waiting 2

page_complete_example :
    ((page cid 2 0 5 waiting).has_more ≡ false
      → length (map (λ v. v.row) (page cid 2 0 5 waiting).items)
        ≡ count (is_pending cid 2 0 waiting) waiting.direct_messages)
    × ((page cid 2 0 5 waiting).has_more ≡ true
        → length (map (λ v. v.row) (page cid 2 0 5 waiting).items) ≡ pending_limit 5)
page_complete_example = page_complete cid 2 0 5 waiting

there_is_more : (page cid 2 0 1 waiting).has_more ≡ true
unfolding list_pending_direct_messages page_of order_by select text_eq find
there_is_more = refl

page-progress_example : 0 < (page cid 2 0 1 waiting).next_after
page-progress_example = page-progress cid 2 0 1 waiting there_is_more

conversation_opened : (get_or_create_conversation 5 (codes "x") 2 1 talking).0 ≡ ok conversation
unfolding get_or_create_conversation open_body open_pair normalize_user_pair find
conversation_opened = refl

get_or_create-again_example :
    (row : DirectConversation) × (row.conversation_id ≡ cid)
    × (get_or_create_conversation 6
          (codes "y")
          2
          1
          (get_or_create_conversation 5 (codes "x") 2 1 talking).1
        ≡ (ok row, (get_or_create_conversation 5 (codes "x") 2 1 talking).1))
    × (get_or_create_conversation 6
          (codes "y")
          1
          2
          (get_or_create_conversation 5 (codes "x") 2 1 talking).1
        ≡ (ok row, (get_or_create_conversation 5 (codes "x") 2 1 talking).1))
get_or_create-again_example =
    get_or_create-again 5 6 (codes "x") (codes "y") 2 1 talking conversation conversation_opened

abbrev request : SendReq
request = record {
  conversation_id = cid;
  to_user_id = [];
  client_msg_id = codes "c1";
  message_type = WireType.text;
  text = codes "hello";
}

request_checked : check_request 10 request ≡ ok tt
unfolding check_request proto_to_message_type trim_space trim_left is_space guard ◌>>=◌
request_checked = refl

request_named : is_empty (trim_space request.conversation_id) ≡ false
unfolding trim_space trim_left is_space
request_named = refl

request_found :
    get_conversation_by_external_id (trim_space request.conversation_id) talking ≡ ok conversation
unfolding get_conversation_by_external_id trim_space trim_left is_space find text_eq or_err
request_found = refl

overtaken : Database → Database
overtaken d = told

nothing_yet :
    get_direct_message_by_client_msg_id cid 1 (trim_space request.client_msg_id) talking
    ≡ err Error.not_found
unfolding get_direct_message_by_client_msg_id load_direct_message_row find or_err ◌>>=◌
nothing_yet = refl

stored_meanwhile :
    get_direct_message_by_client_msg_id cid 1 (trim_space request.client_msg_id) (overtaken talking)
    ≡ ok greeted
unfolding overtaken get_direct_message_by_client_msg_id load_direct_message_row trim_space trim_left
    is_space find text_eq or_err ◌>>=◌
stored_meanwhile = refl

told_conversation :
    find_conversation cid (overtaken talking)
    ≡ some (record conversation { last_seq = 1; last_message_at_ms = 7; updated_at = 7 })
unfolding overtaken find text_eq
told_conversation = refl

send_to-overtaken_example :
    send_to overtaken 9
      (codes "m2")
      1
      request
      conversation
      2
      (get_direct_message_by_client_msg_id cid 1 (trim_space request.client_msg_id) talking)
      talking
    ≡ (ok (sent 9 cid (trim_space request.client_msg_id) 2 greeted), overtaken talking)
send_to-overtaken_example =
    send_to-overtaken overtaken 9 (codes "m2") 1 request conversation
      (record conversation { last_seq = 1; last_message_at_ms = 7; updated_at = 7 }) 2 talking
      greeted nothing_yet told_conversation refl refl refl stored_meanwhile

-- Message 3 waits behind message 2 for a client that asks for one message at a time.
third_is_pending : 0 < pending_as cid 2 1 waiting 3 0
unfolding count find text_eq
third_is_pending = omega arith

follow-shows_example : elem 3 (follow cid 2 1 waiting 3 0) ≡ true
follow-shows_example = follow-shows cid 2 1 waiting 3 0 3 (omega arith) third_is_pending
