-- ===== src/Service/Direct/Privacy.antt =====
-- internal/service/direct_chat.go: the calls of the service, whoever makes them, and the users of the
-- messages that they leave.
use meshserver.Base.{ℕ, Bool, true, false, not, if◌then◌else◌}
use meshserver.Base.Text.{Text, is_empty, trim_space}
use meshserver.Base.Errors.{Error}
use meshserver.Base.Exec.{Result, ok, err, guard, reads, and_then-keeps}
use meshserver.Model.Rows.{DirectConversation}
use meshserver.Model.Database.{Database}
use meshserver.Store.Users.{get_by_id}
use meshserver.Store.Direct.Conversations.{get_or_create_conversation}
use meshserver.Store.Direct.Messages.{
  DirectMessageView, get_direct_message_by_client_msg_id, ack_direct_message,
}
use meshserver.Store.Direct.Participants.{
  IsPrivate, get_or_create_conversation-IsPrivate, create_direct_message-IsPrivate,
  ack_direct_message-IsPrivate,
}
use meshserver.Service.Direct.{
  SendReq, send_input, check_request, find_peer, find_recipient, open_conversation, target_by_user,
  target_by_id, target, as_forbidden, send_to, send_direct_message, ack_message,
}

-- The calls of the service that can write, each with the user who makes it.
pub data DirectCall : Type 0 where
  opens : ℕ → Text → DirectCall
  sends : ℕ → SendReq → DirectCall
  acks : ℕ → Text → DirectCall

-- What a call leaves in the database, whether it returns an error or not: `others` is what other
-- requests do in its course, then the limit of a text, the time, and the two ids that are drawn.
unfoldable pub after_call :
    (Database → Database) → ℕ → ℕ → Text → Text → DirectCall → Database → Database
after_call others max_text_len now cid mid (DirectCall.opens user_id peer) db =
    (open_conversation now cid user_id peer db).1
after_call others max_text_len now cid mid (DirectCall.sends user_id req) db =
    (send_direct_message others max_text_len now cid mid user_id req db).1
after_call others max_text_len now cid mid (DirectCall.acks user_id message_id) db =
    (ack_message others now user_id message_id db).1

module _ (others : Database → Database) (max_text_len now : ℕ) (cid mid : Text) where
  open-IsPrivate :
      (user_id : ℕ) (peer : Text) (db : Database)
      → IsPrivate db
      → IsPrivate (open_conversation now cid user_id peer db).1
  unfolding open_conversation
  open-IsPrivate user_id peer db h =
      and_then-keeps IsPrivate (reads (find_peer user_id peer)) _ db h (λ u t k.
        and_then-keeps IsPrivate (get_or_create_conversation now cid user_id u.id) _ t
          (get_or_create_conversation-IsPrivate now cid user_id u.id t k) (λ conv t' k'. k'))

  target-IsPrivate :
      (user_id : ℕ) (req : SendReq) (db : Database)
      → IsPrivate db
      → IsPrivate (target now cid user_id req db).1
  unfolding target target_by_user
  target-IsPrivate user_id req db h = go (is_empty (trim_space req.conversation_id))
    where
      go :
          (b : Bool)
          → IsPrivate
              ((if b
                  then target_by_user now cid user_id (trim_space req.to_user_id)
                  else reads (target_by_id user_id (trim_space req.conversation_id)))
                db).1
      go true =
          and_then-keeps IsPrivate (reads (find_recipient (trim_space req.to_user_id))) _ db h
            (λ u t k.
              and_then-keeps IsPrivate (get_or_create_conversation now cid user_id u.id) _ t
                (get_or_create_conversation-IsPrivate now cid user_id u.id t k) (λ conv t' k'. k'))
      go false = h

  send_to-IsPrivate :
      (user_id : ℕ) (req : SendReq) (conv : DirectConversation) (recipient : ℕ)
      (r : Result DirectMessageView) (db : Database)
      → IsPrivate db
      → ((t : Database) → IsPrivate t → IsPrivate (others t))
      → IsPrivate (send_to others now mid user_id req conv recipient r db).1
  unfolding send_to
  send_to-IsPrivate user_id req conv recipient (ok v) db h keep = h
  send_to-IsPrivate user_id req conv recipient (err Error.not_found) db h keep =
      create_direct_message-IsPrivate now mid (send_input user_id req conv recipient) (others db)
        (keep db h)
  send_to-IsPrivate user_id req conv recipient (err _) db h keep = h

  send-IsPrivate :
      (user_id : ℕ) (req : SendReq) (db : Database)
      → IsPrivate db
      → ((t : Database) → IsPrivate t → IsPrivate (others t))
      → IsPrivate (send_direct_message others max_text_len now cid mid user_id req db).1
  unfolding send_direct_message
  send-IsPrivate user_id req db h keep =
      and_then-keeps IsPrivate (reads (λ d. check_request max_text_len req)) _ db h (λ u t k.
        and_then-keeps IsPrivate (target now cid user_id req) _ t (target-IsPrivate user_id req t k)
          (λ (conv, recipient) t' k'.
            send_to-IsPrivate user_id req conv recipient
              (get_direct_message_by_client_msg_id conv.conversation_id user_id
                (trim_space req.client_msg_id) t')
              t' k' keep))

  ack-IsPrivate :
      (user_id : ℕ) (message_id : Text) (db : Database)
      → IsPrivate db
      → ((t : Database) → IsPrivate t → IsPrivate (others t))
      → IsPrivate (ack_message others now user_id message_id db).1
  unfolding ack_message
  ack-IsPrivate user_id message_id db h keep =
      and_then-keeps IsPrivate
        (reads (λ d. guard (not (is_empty (trim_space message_id))) Error.invalid_message)) _ db h
        (λ u t k.
          and_then-keeps IsPrivate
            (λ d.
              let r = ack_direct_message others (trim_space message_id) user_id now d in
              (as_forbidden r.0, r.1))
            _ t (ack_direct_message-IsPrivate others (trim_space message_id) user_id now t k keep)
            (λ outcome t' k'.
              and_then-keeps IsPrivate (reads (get_by_id user_id)) _ t' k' (λ recv t'' k''. k'')))

  -- If every direct message is from one participant of its conversation to the other, it is so after
  -- any call of any user that opens a conversation, sends a message (naming a conversation or a user)
  -- or acknowledges one, whatever comes of the call, provided that what other requests do in its
  -- course keeps it so.
  pub after_call-IsPrivate :
      (call : DirectCall) (db : Database)
      → IsPrivate db
      → ((t : Database) → IsPrivate t → IsPrivate (others t))
      → IsPrivate (after_call others max_text_len now cid mid call db)
  unfolding after_call
  after_call-IsPrivate (DirectCall.opens user_id peer) db h keep = open-IsPrivate user_id peer db h
  after_call-IsPrivate (DirectCall.sends user_id req) db h keep =
      send-IsPrivate user_id req db h keep
  after_call-IsPrivate (DirectCall.acks user_id message_id) db h keep =
      ack-IsPrivate user_id message_id db h keep
