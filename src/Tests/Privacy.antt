-- ===== src/Tests/Privacy.antt =====
-- Bob answers Ann, whom he names by her id, in the conversation that holds three messages.
use meshserver.Base.{refl, []}
use meshserver.Base.Tables.{find}
use meshserver.Base.Text.{codes, text_eq}
use meshserver.Store.Direct.Participants.{IsPrivate}
use meshserver.Service.Direct.{WireType, SendReq}
use meshserver.Service.Direct.Privacy.{DirectCall, after_call, after_call-IsPrivate}
use meshserver.Tests.Data.{waiting}

abbrev reply : SendReq
reply = record {
  conversation_id = [];
  to_user_id = codes "ann";
  client_msg_id = codes "c9";
  message_type = WireType.text;
  text = codes "yes";
}

waiting-IsPrivate : IsPrivate waiting
unfolding find text_eq
waiting-IsPrivate = (refl, (refl, (refl, tt)))

after_call-IsPrivate_example :
    IsPrivate (after_call (λ d. d) 10 7 (codes "x") (codes "m9") (DirectCall.sends 2 reply) waiting)
after_call-IsPrivate_example =
    after_call-IsPrivate (λ d. d) 10 7 (codes "x") (codes "m9") (DirectCall.sends 2 reply) waiting
      waiting-IsPrivate (λ t h. h)
