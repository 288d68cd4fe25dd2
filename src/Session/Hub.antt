-- ===== src/Session/Hub.antt =====
-- internal/session/manager.go and realtime.go: the sessions, and who receives which events. A session
-- and a real-time subscriber are known by a number, as Go knows them by their address.
pub mod World
pub mod Relogin
use meshserver.Base.{ℕ, Bool, true, false, Option, none, some, List, [], ◌∷◌}
use meshserver.Base.Maps.{SetMap, adjoin, discard, add, remove, remove_everywhere, members}
use meshserver.Base.Text.{Text}
use meshserver.Model.Rows.{User}
use meshserver.Auth.{Challenge}

-- `hello` is the peer id of the client's greeting; `auth_result` is the user of auth.Result.
pub record ConnSession : Type 0 where
  pub id : ℕ
  pub stream_open : Bool
  pub authenticated : Bool
  pub hello : Option Text
  pub issued_challenge : Option Challenge
  pub auth_result : Option User
  pub subscribed : List ℕ

-- The maps of Manager: subscriptions and real-time subscribers by channel, sessions by user.
pub record Hub : Type 0 where
  pub subscriptions : SetMap
  pub realtime_subs : SetMap
  pub direct_sessions : SetMap

abbrev pub new_hub : Hub
new_hub = record { subscriptions = []; realtime_subs = []; direct_sessions = [] }

abbrev pub new_session : ℕ → ConnSession
new_session id = record {
  id = id;
  stream_open = true;
  authenticated = false;
  hello = none;
  issued_challenge = none;
  auth_result = none;
  subscribed = [];
}

unfoldable pub subscribe_channel : ConnSession → ℕ → Hub → ConnSession × Hub
subscribe_channel sess channel_id hub = (
  record sess { subscribed = adjoin channel_id sess.subscribed },
  record hub { subscriptions = add channel_id sess.id hub.subscriptions },
)

unfoldable pub unsubscribe : ConnSession → ℕ → Hub → ConnSession × Hub
unsubscribe sess channel_id hub = (
  record sess { subscribed = discard channel_id sess.subscribed },
  record hub { subscriptions = remove channel_id sess.id hub.subscriptions },
)

unfoldable pub register_direct_user_session : ConnSession → Hub → Hub
register_direct_user_session sess hub = elim sess.auth_result [
  | none ↦ hub
  | some user ↦ record hub { direct_sessions = add user.id sess.id hub.direct_sessions }
]

abbrev pub remove_direct : ℕ → Option User → SetMap → SetMap
remove_direct id none m = m
remove_direct id (some user) m = remove user.id id m

-- The loop over the channels that the session has subscribed to.
unfoldable pub remove_each : ℕ → List ℕ → SetMap → SetMap
remove_each id [] m = m
remove_each id (c ∷ cs) m = remove_each id cs (remove c id m)

unfoldable pub unregister_session : ConnSession → Hub → Hub
unregister_session sess hub = record hub {
  direct_sessions = remove_direct sess.id sess.auth_result hub.direct_sessions;
  subscriptions = remove_each sess.id sess.subscribed hub.subscriptions;
}

unfoldable pub register_realtime_subscriber : ℕ → ℕ → Hub → Hub
register_realtime_subscriber channel_id sub hub = record hub {
  realtime_subs = add channel_id sub hub.realtime_subs;
}

unfoldable pub unregister_realtime_subscriber : ℕ → ℕ → Hub → Hub
unregister_realtime_subscriber channel_id sub hub = record hub {
  realtime_subs = remove channel_id sub hub.realtime_subs;
}

unfoldable pub unregister_realtime_subscriber_all : ℕ → Hub → Hub
unregister_realtime_subscriber_all sub hub = record hub {
  realtime_subs = remove_everywhere sub hub.realtime_subs;
}
