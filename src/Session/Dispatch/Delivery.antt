-- ===== src/Session/Dispatch/Delivery.antt =====
-- internal/session/manager.go: who is told of a new message.
use meshserver.Base.{
  ℕ, ◌≡◌, refl, sym, ap, ◌∙◌, Bool, true, false, ◌||◌, ◌&&◌, All, All-append, List, [], ◌∷◌, ◌++◌,
  map, ◌==◌, arith, if◌then◌else◌,
}
use meshserver.Base.Tables.{insert}
use meshserver.Base.Text.{Text}
use meshserver.Base.Maps.{members, elem, contains}
use meshserver.Base.Errors.{Error}
use meshserver.Base.Exec.{Result, ok, err, Exec, and_then, and_then-inv, and_then-ok}
use meshserver.Model.Rows.{User}
use meshserver.Model.Database.{Database}
use meshserver.Store.Messages.{MessageView}
use meshserver.Service.Channels.{send_message}
use meshserver.Session.Wire.{SendMessageReq, Packet}
use meshserver.Session.Convert.{to_send_message_input, to_message_event}
use meshserver.Session.Node.{
  Receiver, Sent, Node, call, frame, to_stream, write, reached, deliver_message, event_to,
}
use meshserver.Session.Handlers.{Server, Drawn, handle_send}

abbrev pub is_session : ℕ → Receiver → Bool
is_session i (Receiver.session j) = j == i
is_session i (Receiver.subscriber j) = false

abbrev pub is_subscriber : ℕ → Receiver → Bool
is_subscriber i (Receiver.session j) = false
is_subscriber i (Receiver.subscriber j) = j == i

-- Some packet of the list goes to a receiver of the kind.
abbrev pub told : (Receiver → Bool) → List Sent → Bool
told p [] = false
told p (s ∷ rest) = p s.to || told p rest

told-append :
    (p : Receiver → Bool) (xs ys : List Sent) → told p (xs ++ ys) ≡ (told p xs || told p ys)
told-append p [] ys = refl
told-append p (x ∷ xs) ys = ground (arith, told-append p xs ys)

-- An envelope was made.
abbrev pub is_framed : Result (Unit {0}) → Bool
is_framed (ok u) = true
is_framed (err e) = false

elem-reached :
    (i : ℕ) (r : Result (Unit {0})) (ids : List ℕ)
    → elem i (reached r ids) ≡ (is_framed r && elem i ids)
unfolding elem
elem-reached i (ok u) ids = refl
elem-reached i (err e) ids = refl

module _ (packet : Packet) where
  packet-event_to :
      (kind : ℕ → Receiver) (ids : List ℕ)
      → All (λ s. s.packet ≡ packet) (map (event_to kind packet) ids)
  packet-event_to kind [] = tt
  packet-event_to kind (j ∷ js) = (refl, packet-event_to kind js)

module _ (packet : Packet) (i : ℕ) where
  told-sessions :
      (ids : List ℕ) → told (is_session i) (map (event_to Receiver.session packet) ids) ≡ elem i ids
  unfolding elem
  told-sessions [] = refl
  told-sessions (j ∷ js) = ap (λ b. (j == i) || b) (told-sessions js)

  told-no_subscribers :
      (ids : List ℕ) → told (is_subscriber i) (map (event_to Receiver.session packet) ids) ≡ false
  told-no_subscribers [] = refl
  told-no_subscribers (j ∷ js) = told-no_subscribers js

  told-subscribers :
      (ids : List ℕ)
      → told (is_subscriber i) (map (event_to Receiver.subscriber packet) ids) ≡ elem i ids
  unfolding elem
  told-subscribers [] = refl
  told-subscribers (j ∷ js) = ap (λ b. (j == i) || b) (told-subscribers js)

  told-no_sessions :
      (ids : List ℕ) → told (is_session i) (map (event_to Receiver.subscriber packet) ids) ≡ false
  told-no_sessions [] = refl
  told-no_sessions (j ∷ js) = told-no_sessions js

  -- Sessions first, then the other subscribers.
  told-both :
      (sessions subscribers : List ℕ)
      → let events : List Sent =
          map (event_to Receiver.session packet) sessions
          ++ map (event_to Receiver.subscriber packet) subscribers in
        (told (is_session i) events ≡ elem i sessions)
        × (told (is_subscriber i) events ≡ elem i subscribers)
  told-both sessions subscribers = (
    told-append (is_session i) to_sessions to_subscribers
        ∙ ground (arith, told-sessions sessions, told-no_sessions subscribers),
    told-append (is_subscriber i) to_sessions to_subscribers
        ∙ ground (arith, told-no_subscribers sessions, told-subscribers subscribers),
  )
    where
      to_sessions : List Sent
      to_sessions = map (event_to Receiver.session packet) sessions

      to_subscribers : List Sent
      to_subscribers = map (event_to Receiver.subscriber packet) subscribers

append_assoc : (xs ys zs : List Sent) → (xs ++ ys) ++ zs ≡ xs ++ (ys ++ zs)
append_assoc [] ys zs = refl
append_assoc (x ∷ xs) ys zs = ap (◌∷◌ x) (append_assoc xs ys zs)

-- A write that succeeded added its packet.
write-ok :
    (rid : Text) (p : Packet) (n t : Node) {u : Unit {0}}
    → write rid p n ≡ (ok u, t)
    → t ≡ record n {
      out = insert (record { to = Receiver.session n.sess.id; request_id = rid; packet = p }) n.out;
    }
unfolding write
write-ok rid p n t {u} h = framed (frame n.wire rid p) h
  where
    sent : Node
    sent = record n {
      out = insert (record { to = Receiver.session n.sess.id; request_id = rid; packet = p }) n.out;
    }

    written : Bool → Result (Unit {0}) × Node
    written b = if b then (ok tt, sent) else (err Error.stream_closed, n)

    go : (b : Bool) → written b ≡ (ok u, t) → t ≡ sent
    go true e = sym (ap (λ (r : Result (Unit {0}) × Node). r.1) e)
    go false e = absurd (cc (ap (λ (r : Result (Unit {0}) × Node). r.0) e))

    framed : (r : Result (Unit {0})) → to_stream rid p r n ≡ (ok u, t) → t ≡ sent
    framed (ok v) e = go n.sess.stream_open e
    framed (err x) e = absurd (cc (ap (λ (r : Result (Unit {0}) × Node). r.0) e))

module _ (server : Server) (drawn : Drawn) (rid : Text) (user : User) where
  abbrev answer_to : MessageView → Packet
  answer_to msg =
      Packet.message_stored msg.row.channel_id msg.row.client_msg_id msg.row.message_id msg.row.seq
        server.env.now

  abbrev reply_to : Node → MessageView → Sent
  reply_to n msg = record {
    to = Receiver.session n.sess.id;
    request_id = rid;
    packet = answer_to msg;
  }

  abbrev event_of : MessageView → Packet
  event_of msg = Packet.message_event (to_message_event server.env.blob_url_base msg)

  -- The message is stored, the answer goes to the sender, then the message's event to exactly the
  -- receivers of the channel.
  abbrev pub Delivers : SendMessageReq → Node → Type 0
  Delivers req n =
      (msg : MessageView) × (events : List Sent) × ((send_message server.env.save server.env.limits
          server.env.now drawn.message_id user.id (to_send_message_input req) n.db).0
        ≡ ok msg)
      × ((handle_send server drawn rid user req n).1.db
          ≡ (send_message server.env.save server.env.limits server.env.now drawn.message_id user.id
              (to_send_message_input req) n.db).1)
      × ((handle_send server drawn rid user req n).1.out ≡ insert (reply_to n msg) n.out ++ events)
      × All (λ s. s.packet ≡ event_of msg) events
      × ((i : ℕ)
          → (told (is_session i) events ≡ (
              is_framed (frame n.wire [] (event_of msg))
              && contains msg.row.channel_id i n.hub.subscriptions))
            × (told (is_subscriber i) events ≡ contains msg.row.channel_id i n.hub.realtime_subs))

  abbrev tables : SendMessageReq → Node → Database
  tables req n =
      (send_message server.env.save server.env.limits server.env.now drawn.message_id user.id
        (to_send_message_input req) n.db).1

  finish :
      (req : SendMessageReq) (n : Node) (msg : MessageView)
      → (send_message server.env.save server.env.limits server.env.now drawn.message_id user.id
          (to_send_message_input req)
          n.db).0
        ≡ ok msg
      → handle_send server drawn rid user req n ≡ (
        ok tt,
        deliver_message server.env.blob_url_base msg.row.channel_id msg
            (record n { db = tables req n; out = insert (reply_to n msg) n.out }),
      )
      → Delivers req n
  unfolding deliver_message contains
  finish req n msg stored ran = (
    msg,
    to_sessions ++ to_subscribers,
    stored,
    ap (λ (r : Result (Unit {0}) × Node). r.1.db) ran,
    ap (λ (r : Result (Unit {0}) × Node). r.1.out) ran
        ∙ append_assoc (insert (reply_to n msg) n.out) to_sessions to_subscribers,
    All-append (λ s. s.packet ≡ event) to_sessions to_subscribers
        (packet-event_to event Receiver.session sessions)
        (packet-event_to event Receiver.subscriber
          (members msg.row.channel_id n.hub.realtime_subs)),
    λ i.
        let (a, b) = told-both event i sessions (members msg.row.channel_id n.hub.realtime_subs) in
        (
          a
              ∙ elem-reached i (frame n.wire [] event)
                  (members msg.row.channel_id n.hub.subscriptions),
          b,
        ),
  )
    where
      event : Packet
      event = event_of msg

      sessions : List ℕ
      sessions = reached (frame n.wire [] event) (members msg.row.channel_id n.hub.subscriptions)

      to_sessions : List Sent
      to_sessions = map (event_to Receiver.session event) sessions

      to_subscribers : List Sent
      to_subscribers =
          map (event_to Receiver.subscriber event) (members msg.row.channel_id n.hub.realtime_subs)

  -- When a request to send a message is handled without an error, the tables are those that
  -- SendMessage left, the sender is answered first, and then that message's event, and no other
  -- packet, goes to exactly the other subscribers of its channel and, if the event fits an envelope,
  -- to exactly the sessions that subscribed to the channel.
  pub handle_send-Delivers :
      (req : SendMessageReq) (n : Node)
      → (handle_send server drawn rid user req n).0 ≡ ok tt
      → Delivers req n
  unfolding handle_send
  handle_send-Delivers req n done = stored (and_then-inv store reply n done)
    where
      store : Exec Node MessageView
      store = call (
          send_message server.env.save server.env.limits server.env.now drawn.message_id user.id
            (to_send_message_input req))

      deliver : MessageView → Unit {0} → Exec Node (Unit {0})
      deliver msg u m = (ok tt, deliver_message server.env.blob_url_base msg.row.channel_id msg m)

      reply : MessageView → Exec Node (Unit {0})
      reply msg = and_then (write rid (answer_to msg)) (deliver msg)

      written :
          (msg : MessageView) (t : Node)
          → store n ≡ (ok msg, t)
          → (u : Unit {0}) × (t' : Node) × (write rid (answer_to msg) t ≡ (ok u, t'))
            × ((deliver msg u t').0 ≡ ok tt)
          → Delivers req n
      written msg t e (u, t', e', last) =
          finish req n msg (ap (λ (r : Result MessageView × Node). r.0) e) (
            and_then-ok store reply n e
            ∙ and_then-ok (write rid (answer_to msg)) (deliver msg) t e'
            ∙ ap (λ m. deliver msg u m)
                (write-ok rid (answer_to msg) t t' e'
                  ∙ ap (λ (m : Node). record m { out = insert (reply_to m msg) m.out })
                      (sym (ap (λ (r : Result MessageView × Node). r.1) e))))

      stored :
          (msg : MessageView) × (t : Node) × (store n ≡ (ok msg, t)) × ((reply msg t).0 ≡ ok tt)
          → Delivers req n
      stored (msg, t, e, rest) =
          written msg t e (and_then-inv (write rid (answer_to msg)) (deliver msg) t rest)
