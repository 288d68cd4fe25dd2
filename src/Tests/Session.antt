-- ===== src/Tests/Session.antt =====
-- Requests of the owner and of a member of one space, and the life of two sessions.
use meshserver.Base.{◌≡◌, refl, true, false, none, some, List, [], ◌∷◌, arith}
use meshserver.Base.Tables.{find}
use meshserver.Base.Text.{codes}
use meshserver.Base.Maps.{contains}
use meshserver.Base.Errors.{Error}
use meshserver.Base.Exec.{err, ◌>>=◌, or_err, and_then}
use meshserver.Model.Enums.{Role}
use meshserver.Model.Database.{Database}
use meshserver.Store.Spaces.Queries.{get_member_role}
use meshserver.Session.Wire.{Request}
use meshserver.Session.Hub.{
  new_hub, new_session, register_direct_user_session, unregister_session, subscribe_channel,
}
use meshserver.Session.Hub.World.{
  World, Step, Reach, IsCoherent, put, mark, start, Reach-IsCoherent,
}
use meshserver.Session.Hub.Relogin.{logged_in, unregister_session-relogin}
use meshserver.Session.Node.{Wire, Node, call, write}
use meshserver.Session.Api.{Env, ban_space_member_for_api}
use meshserver.Session.Handlers.{Server, Drawn}
use meshserver.Session.Dispatch.{Arrival, handle, serve_all}
use meshserver.Session.Dispatch.Guards.{Unchanged, serve_all-Unchanged}
use meshserver.Session.Dispatch.Managers.{Administers, handle-not_manager}
use meshserver.Store.Spaces.Members.{new_membership}
use meshserver.Session.Dispatch.Agreement.{Mirrors, handle-Agrees}
use meshserver.Tests.Data.{user}
use meshserver.Tests.Spaces.{housed}
use meshserver.Tests.Auth.{echo}

abbrev inhabited : Database
inhabited = record housed { users = user 7 (codes "ann") ∷ user 8 (codes "bob") ∷ [] }

abbrev pub env : Env
env = record {
  global_admin_peer_id = codes "ann";
  node_id = 1;
  blob_url_base = codes "http://node/";
  limits = record {
    max_text_len = 100;
    max_images_per_message = 4;
    max_files_per_message = 4;
    default_sync_limit = 10;
    max_sync_limit = 50;
  };
  decode_peer = λ t. some t;
  collates = λ s t. true;
  save = λ u i a db. (err Error.forbidden, db);
  read_blob = λ path. err Error.blob_missing;
  now = 9;
}

abbrev pub server : Server
server = record {
  env = env;
  protocol_id = codes "p";
  node_peer_id = codes "node";
  challenge_ttl = 60;
  max_direct_text_len = 100;
  has_direct_messaging = true;
  between = λ db. db;
}

abbrev pub drawn : Drawn
drawn = record {
  nonce = 1 ∷ [];
  user_id = codes "u";
  conversation_id = codes "c";
  message_id = codes "m";
}

-- Everything is encoded as no bytes.
abbrev pub wire : Wire
wire = record {
  msg_type = λ p. 0;
  bodies = record { marshal = λ p. some []; unmarshal = λ bs. none };
  envelopes = record { marshal = λ e. some []; unmarshal = λ bs. none };
  clock = 9;
}

abbrev node : Node
node = record { sess = new_session 1; hub = new_hub; db = inhabited; out = []; wire = wire }

handle-Agrees_example :
    handle server drawn (codes "r") (user 7 (codes "ann")) (Request.ban_member 1 (codes "bob")) node
    ≡ and_then
        (call (ban_space_member_for_api env 7 (codes "ann") 1 (codes "bob")))
        (write (codes "r"))
        node
handle-Agrees_example =
    handle-Agrees server drawn (codes "r") (user 7 (codes "ann")) node (Mirrors.ban 1 (codes "bob"))

handle-not_manager_example :
    (e : Error) × (handle server drawn
        (codes "r")
        (user 8 (codes "bob"))
        (Request.kick_member 1 (codes "ann"))
        node
      ≡ (err e, node))
unfolding get_member_role find or_err ◌>>=◌
handle-not_manager_example =
    handle-not_manager server drawn (codes "r") (user 8 (codes "bob")) node
      (Administers.kick 1 (codes "ann")) refl

-- Bob is an admin, who makes Cy the owner.
abbrev deputised : Database
deputised = record inhabited {
  users = user 7 (codes "ann") ∷ user 8 (codes "bob") ∷ user 9 (codes "cy") ∷ [];
  server_members =
      new_membership 5 1 1 7 Role.owner false
      ∷ new_membership 6 2 1 8 Role.admin false
      ∷ new_membership 6 3 1 9 Role.member false
      ∷ [];
}

abbrev knocks : List Arrival
knocks =
    record { request_id = codes "r1"; drawn = drawn; request = Request.ping 5 }
    ∷ record {
      request_id = codes "r2";
      drawn = drawn;
      request = Request.kick_member 1 (codes "bob");
    }
    ∷ []

serve_all-Unchanged_example : Unchanged node (serve_all echo server knocks node)
serve_all-Unchanged_example = serve_all-Unchanged echo server knocks node refl refl

abbrev opened : World
opened = record start {
  sessions = put 3 (new_session 3) new_session;
  served = mark 3 true (λ i. false);
}

abbrev subscribed : World
subscribed = record opened {
  sessions = put 3 (subscribe_channel (opened.sessions 3) 5 opened.hub).0 opened.sessions;
  hub = (subscribe_channel (opened.sessions 3) 5 opened.hub).1;
}

abbrev ended : World
ended = record subscribed {
  served = mark 3 false subscribed.served;
  hub = unregister_session (subscribed.sessions 3) subscribed.hub;
}

Reach-IsCoherent_example : IsCoherent ended
Reach-IsCoherent_example = Reach-IsCoherent ended (
    Reach.next (Reach.next (Reach.next Reach.here (Step.opens 3 refl)) (Step.subscribes 3 5 refl))
      (Step.closes 3 refl))

unregister_session-relogin_example :
    (contains 7 1
        (unregister_session (logged_in (user 8 (codes "bob")) (new_session 1)) (
          register_direct_user_session (logged_in (user 8 (codes "bob")) (new_session 1)) (
            register_direct_user_session
              (logged_in (user 7 (codes "ann")) (new_session 1))
              new_hub))).direct_sessions
      ≡ true)
    × (contains 8 1
          (unregister_session (logged_in (user 8 (codes "bob")) (new_session 1)) (
            register_direct_user_session (logged_in (user 8 (codes "bob")) (new_session 1)) (
              register_direct_user_session
                (logged_in (user 7 (codes "ann")) (new_session 1))
                new_hub))).direct_sessions
        ≡ false)
unregister_session-relogin_example =
    unregister_session-relogin (new_session 1) (user 7 (codes "ann")) (user 8 (codes "bob")) new_hub
      (λ e. omega (arith, e))
