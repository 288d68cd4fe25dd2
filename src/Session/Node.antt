-- ===== src/Session/Node.antt =====
-- internal/session/manager.go: what one request can read and change, and the writes to streams.
use meshserver.Base.{ℕ, Option, none, List, [], ◌++◌, map, if◌then◌else◌}
use meshserver.Base.Tables.{insert}
use meshserver.Base.Text.{Text}
use meshserver.Base.Maps.{members}
use meshserver.Base.Errors.{Error}
use meshserver.Base.Exec.{Result, ok, err, Exec, ◌>>=◌}
use meshserver.Protocol.{Codec, Envelope, new_envelope, write_envelope}
use meshserver.Model.Rows.{User}
use meshserver.Model.Database.{Database}
use meshserver.Store.Messages.{MessageView}
use meshserver.Session.Wire.{Packet}
use meshserver.Session.Convert.{to_message_event}
use meshserver.Session.Hub.{ConnSession, Hub}

-- A stream, or a subscriber such as a WebSocket.
pub data Receiver : Type 0 where
  session subscriber : ℕ → Receiver

pub record Sent : Type 0 where
  pub to : Receiver
  pub request_id : Text
  pub packet : Packet

-- What the envelopes need of protobuf: the generated number of a packet's type, and the encodings of
-- packets and envelopes. The clock is the time in their stamp, in milliseconds.
pub record Wire : Type 0 where
  pub msg_type : Packet → ℕ
  pub bodies : Codec Packet
  pub envelopes : Codec (Envelope ℕ)
  pub clock : ℕ

-- The session that sent the request, the hub, the tables, and what was written so far.
pub record Node : Type 0 where
  pub sess : ConnSession
  pub hub : Hub
  pub db : Database
  pub out : List Sent
  pub wire : Wire

module _ {A : Type 0} where
  abbrev pub with_db : Node → Result A × Database → Result A × Node
  with_db n (r, db) = (r, record n { db = db })

  -- A call of a service or of the repository.
  abbrev pub call : Exec Database A → Exec Node A
  call m n = with_db n (m n.db)

  abbrev pub look : (Database → Result A) → Exec Node A
  look f n = (f n.db, n)

-- NewEnvelope, and then what WriteEnvelope reports before it comes to the stream: an envelope that
-- protobuf cannot encode, or one above the limit.
unfoldable pub frame : Wire → Text → Packet → Result (Unit {0})
frame wire request_id packet =
    new_envelope wire.bodies wire.clock (wire.msg_type packet) request_id packet >>= λ envelope.
    (write_envelope wire.envelopes envelope []).0

-- The bytes go to the stream; a stream that is closed returns an error.
abbrev pub to_stream : Text → Packet → Result (Unit {0}) → Exec Node (Unit {0})
to_stream request_id packet (err e) n = (err e, n)
to_stream request_id packet (ok u) n =
    if n.sess.stream_open
    then (
      ok tt,
      record n {
        out =
            insert
              (record { to = Receiver.session n.sess.id; request_id = request_id; packet = packet })
              n.out;
      },
    )
    else (err Error.stream_closed, n)

-- `sess.write`
unfoldable pub write : Text → Packet → Exec Node (Unit {0})
write request_id packet n = to_stream request_id packet (frame n.wire request_id packet) n

abbrev pub event_to : (ℕ → Receiver) → Packet → ℕ → Sent
event_to kind packet i = record { to = kind i; request_id = []; packet = packet }

-- An event for every receiver of a set; what a closed stream refuses is only logged.
abbrev pub push_all : (ℕ → Receiver) → List ℕ → Packet → Node → Node
push_all kind targets packet n = record n { out = n.out ++ map (event_to kind packet) targets }

-- The sessions whose `write` of an event comes to the stream; an error before is only logged.
abbrev pub reached : Result (Unit {0}) → List ℕ → List ℕ
reached (ok u) targets = targets
reached (err e) targets = []

abbrev pub push_sessions : List ℕ → Packet → Node → Node
push_sessions targets packet n =
    push_all Receiver.session (reached (frame n.wire [] packet) targets) packet n

unfoldable pub deliver_message : Text → ℕ → MessageView → Node → Node
deliver_message base channel_id msg n =
    push_all Receiver.subscriber (members channel_id n.hub.realtime_subs)
      (Packet.message_event (to_message_event base msg))
      (push_sessions (members channel_id n.hub.subscriptions)
        (Packet.message_event (to_message_event base msg)) n)

-- deliverDirectMessageToUser and deliverDirectPeerAckToUser
unfoldable pub deliver_to_user : ℕ → Packet → Node → Node
deliver_to_user user_id packet n = push_sessions (members user_id n.hub.direct_sessions) packet n

abbrev pub current_user : ConnSession → Option User
current_user sess = if sess.authenticated then sess.auth_result else none

abbrev pub update_session : (ConnSession → ConnSession) → Exec Node (Unit {0})
update_session f n = (ok tt, record n { sess = f n.sess })

abbrev moved : Node → ConnSession × Hub → Result (Unit {0}) × Node
moved n (sess, hub) = (ok tt, record n { sess = sess; hub = hub })

-- Subscribing and unsubscribing change the session and the hub.
abbrev pub on_hub : (ConnSession → Hub → ConnSession × Hub) → Exec Node (Unit {0})
on_hub f n = moved n (f n.sess n.hub)
