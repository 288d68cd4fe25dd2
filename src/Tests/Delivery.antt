-- ===== src/Tests/Delivery.antt =====
-- A message to a channel that one session and one other subscriber follow.
use meshserver.Base.{◌≡◌, refl, some, [], ◌∷◌}
use meshserver.Base.Tables.{find, count, select, update_where}
use meshserver.Base.Sorting.{order_by}
use meshserver.Base.Text.{codes, text_eq, trim_space, trim_left, is_space, len, utf8_width}
use meshserver.Base.Exec.{ok, ◌>>=◌, guard, or_err}
use meshserver.Store.Messages.{
  get_by_channel_id, get_last_message_time, create_message, create_message_body, create_message_in,
  insert_message, attach_all, advance_channel, load_message_by_id, hydrate, attachments_of,
}
use meshserver.Store.Channels.{get_permission}
use meshserver.Service.Direct.{WireType}
use meshserver.Service.Channels.{
  infer_message_type, check_kind, validate_message, admit, resolve_all, resolve_attachments,
  send_message,
}
use meshserver.Session.Wire.{SendMessageReq}
use meshserver.Session.Convert.{to_send_message_input, to_domain_message_type}
use meshserver.Session.Hub.{new_session}
use meshserver.Session.Node.{Node, frame, write, deliver_message}
use meshserver.Protocol.{new_envelope, write_envelope}
use meshserver.Session.Handlers.{Server, Drawn, handle_send}
use meshserver.Session.Dispatch.Delivery.{Delivers, handle_send-Delivers}
use meshserver.Tests.Data.{user, channelled}
use meshserver.Tests.Session.{env, server, drawn, wire}

abbrev later : Server
later = record server { env = record env { now = 90000 } }

abbrev fresh : Drawn
fresh = record drawn { message_id = codes "m3" }

abbrev followed : Node
followed = record {
  sess = new_session 1;
  hub = record {
    subscriptions = (1, 1 ∷ 4 ∷ []) ∷ [];
    realtime_subs = (1, 2 ∷ []) ∷ [];
    direct_sessions = [];
  };
  db = channelled;
  out = [];
  wire = wire;
}

abbrev note : SendMessageReq
note = record {
  channel_id = 1;
  client_msg_id = codes "client-3";
  message_type = WireType.text;
  content = some (codes "hey", [], []);
}

note_is_sent : (handle_send later fresh (codes "r") (user 1 (codes "ann")) note followed).0 ≡ ok tt
unfolding handle_send frame write new_envelope write_envelope deliver_message to_send_message_input
    to_domain_message_type send_message admit validate_message check_kind infer_message_type
    resolve_attachments resolve_all get_by_channel_id get_permission get_last_message_time
    create_message create_message_body create_message_in insert_message attach_all advance_channel
    load_message_by_id hydrate attachments_of trim_space trim_left is_space len utf8_width order_by
    select find count update_where text_eq or_err guard ◌>>=◌
note_is_sent = refl

handle_send-Delivers_example : Delivers later fresh (codes "r") (user 1 (codes "ann")) note followed
handle_send-Delivers_example =
    handle_send-Delivers later fresh (codes "r") (user 1 (codes "ann")) note followed note_is_sent
