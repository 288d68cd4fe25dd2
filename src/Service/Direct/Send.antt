-- ===== src/Service/Direct/Send.antt =====
-- internal/service/direct_chat.go: what a request to send that another one overtakes leads to.
use meshserver.Base.{ℕ, ◌≡◌, refl, true, not, some, ◌==◌}
use meshserver.Base.Tables.{find}
use meshserver.Base.Text.{Text, trim_space}
use meshserver.Base.Errors.{Error}
use meshserver.Base.Exec.{ok, err, ◌>>=◌}
use meshserver.Model.Rows.{DirectConversation}
use meshserver.Model.Database.{Database}
use meshserver.Store.Direct.Conversations.{has_conversation_id, takes_part}
use meshserver.Store.Direct.Messages.{DirectMessageView, get_direct_message_by_client_msg_id}
use meshserver.Store.Direct.Idempotence.{resend}
use meshserver.Service.Direct.{SendReq, send_input, sent, as_forbidden, send_to}

-- If no message has the client's id when a request looks for it, but one is stored by the time the
-- request comes to the insertion, in a conversation of the sender and the recipient, who are two
-- users, then the request returns that message and writes nothing, yet it returns an event to push.
pub send_to-overtaken :
    (between : Database → Database) (now : ℕ) (mid : Text) (sender : ℕ) (req : SendReq)
    (conv conv' : DirectConversation) (recipient : ℕ) (db : Database) (v : DirectMessageView)
    → get_direct_message_by_client_msg_id conv.conversation_id sender
        (trim_space req.client_msg_id)
        db
      ≡ err Error.not_found
    → find (has_conversation_id conv.conversation_id) (between db).direct_conversations ≡ some conv'
    → takes_part sender conv' ≡ true
    → takes_part recipient conv' ≡ true
    → not (sender == recipient) ≡ true
    → get_direct_message_by_client_msg_id conv.conversation_id sender
        (trim_space req.client_msg_id)
        (between db)
      ≡ ok v
    → send_to between now mid sender req conv recipient
        (get_direct_message_by_client_msg_id conv.conversation_id sender
          (trim_space req.client_msg_id)
          db)
        db
      ≡ (ok (sent now conv.conversation_id (trim_space req.client_msg_id) recipient v), between db)
unfolding send_to
send_to-overtaken between now mid sender req conv conv' recipient db v missing here a b differ
      found =
    rw missing (
      rw
        (resend now mid (send_input sender req conv recipient) (between db) conv' v here a b differ
          found)
        (unfold as_forbidden ◌>>=◌ in refl))
