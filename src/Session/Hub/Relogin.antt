-- ===== src/Session/Hub/Relogin.antt =====
-- internal/session: a session that logs in twice as different users.
use meshserver.Base.{◌≡◌, ◌≢◌, true, false, some, arith}
use meshserver.Base.Maps.{add, contains, contains-add, contains-remove}
use meshserver.Model.Rows.{User}
use meshserver.Session.Hub.{ConnSession, Hub, register_direct_user_session, unregister_session}

-- The session after `Authenticate` returned the user.
abbrev pub logged_in : User → ConnSession → ConnSession
logged_in user s = record s { authenticated = true; auth_result = some user }

-- If a session logs in as one user, then as another with a different id, and then ends, the hub still
-- holds the session among those of the first user; of the second it does not.
pub unregister_session-relogin :
    (s : ConnSession) (first second : User) (hub : Hub)
    → first.id ≢ second.id
    → (contains first.id s.id
          (unregister_session (logged_in second s) (
            register_direct_user_session
              (logged_in second s)
              (register_direct_user_session (logged_in first s) hub))).direct_sessions
        ≡ true)
      × (contains second.id s.id
            (unregister_session (logged_in second s) (
              register_direct_user_session
                (logged_in second s)
                (register_direct_user_session (logged_in first s) hub))).direct_sessions
          ≡ false)
unfolding unregister_session register_direct_user_session
unregister_session-relogin s first second hub differ = (
  ground (
    arith,
    contains-remove second.id s.id first.id s.id
        (add second.id s.id (add first.id s.id hub.direct_sessions)),
    contains-add second.id s.id first.id s.id (add first.id s.id hub.direct_sessions),
    contains-add first.id s.id first.id s.id hub.direct_sessions,
    differ,
  ),
  ground (
    arith,
    contains-remove second.id s.id second.id s.id
        (add second.id s.id (add first.id s.id hub.direct_sessions)),
  ),
)
