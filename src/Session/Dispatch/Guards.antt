-- ===== src/Session/Dispatch/Guards.antt =====
-- internal/session/manager.go: what a request cannot do before its session logged in, and what a member
-- who manages nothing cannot do at all.
use meshserver.Base.{
  ℕ, ◌≡◌, refl, sym, ◌∙◌, ap, if◌then◌else◌, Bool, true, false, not, ◌&&◌, ◌⊎◌, inl, inr, Option,
  none, List, [], ◌∷◌, arith,
}
use meshserver.Base.Text.{Text}
use meshserver.Base.Errors.{Error}
use meshserver.Base.Exec.{Result, ok, err}
use meshserver.Model.Rows.{User}
use meshserver.Auth.{Scheme}
use meshserver.Session.Wire.{Request, Packet}
use mathlib.Core.Path.{subst}
use meshserver.Session.Node.{Receiver, Node, frame, to_stream, write, current_user}
use meshserver.Session.Handlers.{Server, Drawn}
use meshserver.Session.Dispatch.{Arrival, dispatch, serve, serve_all, handle_as, answer}
use meshserver.Base.Tables.{insert}

-- The requests by which a session logs in.
abbrev pub is_login : Request → Bool
is_login (Request.hello p) = true
is_login (Request.auth_prove p) = true
is_login req = false

abbrev pub no_login : List Arrival → Bool
no_login [] = true
no_login (a ∷ rest) = not (is_login a.request) && no_login rest

-- What is the same for a session that stays unknown.
abbrev pub Unchanged : Node → Node → Type 0
Unchanged n n' = (n'.db ≡ n.db) × (n'.hub ≡ n.hub) × (n'.sess ≡ n.sess)

then-Unchanged : (a b c : Node) → Unchanged a b → Unchanged b c → Unchanged a c
then-Unchanged a b c (d, h, s) (d', h', s') = (d' ∙ d, h' ∙ h, s' ∙ s)

module _ (crypto : Scheme) (server : Server) (drawn : Drawn) (rid : Text) where
  refused :
      (n : Node)
      → current_user n.sess ≡ none
      → (req : Request)
      → handle_as crypto server drawn rid (current_user n.sess) req n
        ≡ (err Error.authentication_required, n)
  refused n unknown req =
      ap (λ (u : Option User). handle_as crypto server drawn rid u req n) unknown

  -- An unknown session's request is refused unless it is a ping or a step of the login.
  dispatch-refused :
      (req : Request) (n : Node)
      → current_user n.sess ≡ none
      → is_login req ≡ false
      → ((nonce : ℕ) × (req ≡ Request.ping nonce))
        ⊎ (dispatch crypto server drawn rid req n ≡ (err Error.authentication_required, n))
  unfolding dispatch
  dispatch-refused (Request.ping nonce) n unknown h = inl (nonce, refl)
  dispatch-refused Request.list_spaces n unknown h = inr (refused n unknown Request.list_spaces)
  dispatch-refused (Request.list_channels s) n unknown h =
      inr (refused n unknown (Request.list_channels s))
  dispatch-refused (Request.list_space_members s a l) n unknown h =
      inr (refused n unknown (Request.list_space_members s a l))
  dispatch-refused (Request.create_space r) n unknown h =
      inr (refused n unknown (Request.create_space r))
  dispatch-refused Request.get_create_space_permissions n unknown h =
      inr (refused n unknown Request.get_create_space_permissions)
  dispatch-refused (Request.get_create_group_permissions s) n unknown h =
      inr (refused n unknown (Request.get_create_group_permissions s))
  dispatch-refused (Request.subscribe_channel c) n unknown h =
      inr (refused n unknown (Request.subscribe_channel c))
  dispatch-refused (Request.unsubscribe_channel c) n unknown h =
      inr (refused n unknown (Request.unsubscribe_channel c))
  dispatch-refused (Request.set_member_role s t r) n unknown h =
      inr (refused n unknown (Request.set_member_role s t r))
  dispatch-refused (Request.set_channel_creation s b) n unknown h =
      inr (refused n unknown (Request.set_channel_creation s b))
  dispatch-refused (Request.set_auto_delete c s) n unknown h =
      inr (refused n unknown (Request.set_auto_delete c s))
  dispatch-refused (Request.join_space s) n unknown h =
      inr (refused n unknown (Request.join_space s))
  dispatch-refused (Request.invite_member s t) n unknown h =
      inr (refused n unknown (Request.invite_member s t))
  dispatch-refused (Request.kick_member s t) n unknown h =
      inr (refused n unknown (Request.kick_member s t))
  dispatch-refused (Request.ban_member s t) n unknown h =
      inr (refused n unknown (Request.ban_member s t))
  dispatch-refused (Request.unban_member s t) n unknown h =
      inr (refused n unknown (Request.unban_member s t))
  dispatch-refused (Request.create_group r) n unknown h =
      inr (refused n unknown (Request.create_group r))
  dispatch-refused (Request.create_channel r) n unknown h =
      inr (refused n unknown (Request.create_channel r))
  dispatch-refused (Request.send_message r) n unknown h =
      inr (refused n unknown (Request.send_message r))
  dispatch-refused (Request.deliver_ack c s) n unknown h =
      inr (refused n unknown (Request.deliver_ack c s))
  dispatch-refused (Request.read_update c s) n unknown h =
      inr (refused n unknown (Request.read_update c s))
  dispatch-refused (Request.sync_channel c a l) n unknown h =
      inr (refused n unknown (Request.sync_channel c a l))
  dispatch-refused (Request.open_direct t) n unknown h =
      inr (refused n unknown (Request.open_direct t))
  dispatch-refused Request.list_direct n unknown h = inr (refused n unknown Request.list_direct)
  dispatch-refused (Request.send_direct r) n unknown h =
      inr (refused n unknown (Request.send_direct r))
  dispatch-refused (Request.ack_direct m) n unknown h =
      inr (refused n unknown (Request.ack_direct m))
  dispatch-refused (Request.sync_direct c a l) n unknown h =
      inr (refused n unknown (Request.sync_direct c a l))
  dispatch-refused (Request.get_media m) n unknown h = inr (refused n unknown (Request.get_media m))
  dispatch-refused Request.unsupported n unknown h = inr (refused n unknown Request.unsupported)
  dispatch-refused (Request.hello p) n unknown h = cc
  dispatch-refused (Request.auth_prove p) n unknown h = cc

  write-Unchanged : (p : Packet) (n : Node) → Unchanged n (write rid p n).1
  unfolding write
  write-Unchanged p n = framed (frame n.wire rid p)
    where
      sent : Node
      sent = record n {
        out =
            insert (record { to = Receiver.session n.sess.id; request_id = rid; packet = p }) n.out;
      }

      written : Bool → Result (Unit {0}) × Node
      written b = if b then (ok tt, sent) else (err Error.stream_closed, n)

      go : (b : Bool) → Unchanged n (written b).1
      go true = (refl, refl, refl)
      go false = (refl, refl, refl)

      framed : (r : Result (Unit {0})) → Unchanged n (to_stream rid p r n).1
      framed (ok u) = go n.sess.stream_open
      framed (err e) = (refl, refl, refl)

  answer-Unchanged :
      (n : Node) (r : Result (Unit {0}) × Node)
      → Unchanged n r.1
      → Unchanged n (answer crypto server drawn rid r)
  answer-Unchanged n (ok u, n') h = h
  answer-Unchanged n (err e, n') h =
      then-Unchanged n n' (write rid (Packet.error_msg 400 e) n').1 h
        (write-Unchanged (Packet.error_msg 400 e) n')

  serve-Unchanged :
      (req : Request) (n : Node)
      → current_user n.sess ≡ none
      → is_login req ≡ false
      → Unchanged n (serve crypto server drawn rid req n)
  unfolding serve dispatch
  serve-Unchanged req n unknown h =
      answer-Unchanged n (dispatch crypto server drawn rid req n)
        (dispatched (dispatch-refused req n unknown h))
    where
      dispatched :
          ((nonce : ℕ) × (req ≡ Request.ping nonce))
            ⊎ (dispatch crypto server drawn rid req n ≡ (err Error.authentication_required, n))
          → Unchanged n (dispatch crypto server drawn rid req n).1
      dispatched (inl (nonce, e)) =
          subst (λ (r : Request). Unchanged n (dispatch crypto server drawn rid r n).1) (sym e)
            (write-Unchanged (Packet.pong nonce) n)
      dispatched (inr e) = rw e (refl, refl, refl)

-- Whatever a session sends before it has logged in, other than the two steps of the login, changes no
-- table and no subscription, and leaves the session as it was.
pub serve_all-Unchanged :
    (crypto : Scheme) (server : Server) (arrivals : List Arrival) (n : Node)
    → current_user n.sess ≡ none
    → no_login arrivals ≡ true
    → Unchanged n (serve_all crypto server arrivals n)
unfolding serve_all
serve_all-Unchanged crypto server [] n unknown h = (refl, refl, refl)
serve_all-Unchanged crypto server (a ∷ rest) n unknown h =
    then-Unchanged n next (serve_all crypto server rest next) first (
      serve_all-Unchanged crypto server rest next (ap current_user first.2 ∙ unknown)
        (ground (arith, h)))
  where
    next : Node
    next = serve crypto server a.drawn a.request_id a.request n

    first : Unchanged n next
    first =
        serve-Unchanged crypto server a.drawn a.request_id a.request n unknown (ground (arith, h))
