-- ===== src/Session/Hub/World.antt =====
-- internal/session: every session at once, under any sequence of subscriptions, logins and closings.
use meshserver.Base.{
  ℕ, ◌≡◌, refl, Bool, true, false, not, ◌&&◌, Option, none, some, List, [], ◌∷◌, arith, ◌==◌,
  if◌then◌else◌, Bool-cases, inl, inr,
}
use meshserver.Base.Maps.{
  SetMap, elem, remove, contains, elem-adjoin, elem-discard, contains-add, contains-remove,
  contains-nil, HasNoEmptySet, add-HasNoEmptySet, remove-HasNoEmptySet,
  remove_everywhere-HasNoEmptySet,
}
use meshserver.Model.Rows.{User}
use meshserver.Session.Hub.{
  ConnSession, Hub, new_hub, new_session, subscribe_channel, unsubscribe,
  register_direct_user_session, remove_direct, remove_each, unregister_session,
  register_realtime_subscriber, unregister_realtime_subscriber, unregister_realtime_subscriber_all,
}

-- The sessions by their numbers, each in its own `id`, those that are being served, and the hub.
pub record World : Type 0 where
  pub sessions : ℕ → ConnSession
  pub served : ℕ → Bool
  pub hub : Hub

abbrev pub put : ℕ → ConnSession → (ℕ → ConnSession) → ℕ → ConnSession
put i s f j = if j == i then s else f j

abbrev pub mark : ℕ → Bool → (ℕ → Bool) → ℕ → Bool
mark i b f j = if j == i then b else f j

abbrev pub start : World
start = record { sessions = new_session; served = λ i. false; hub = new_hub }

-- What can happen: a stream is opened under a number that no stream had, a session that is served
-- subscribes, unsubscribes, or logs in as a user, its stream ends, or a real-time subscriber comes or
-- goes.
pub data Step (w : World) : World → Type 0 where
  opens :
      (i : ℕ)
      → w.served i ≡ false
      → Step w
          (record w { sessions = put i (new_session i) w.sessions; served = mark i true w.served })
  subscribes :
      (i c : ℕ)
      → w.served i ≡ true
      → Step w (record w {
        sessions = put i (subscribe_channel (w.sessions i) c w.hub).0 w.sessions;
        hub = (subscribe_channel (w.sessions i) c w.hub).1;
      })
  unsubscribes :
      (i c : ℕ)
      → w.served i ≡ true
      → Step w (record w {
        sessions = put i (unsubscribe (w.sessions i) c w.hub).0 w.sessions;
        hub = (unsubscribe (w.sessions i) c w.hub).1;
      })
  logs_in :
      (i : ℕ) (user : User)
      → w.served i ≡ true
      → Step w (record w {
        sessions =
            put i
              (record (w.sessions i) { authenticated = true; auth_result = some user })
              w.sessions;
        hub =
            register_direct_user_session
              (record (w.sessions i) { authenticated = true; auth_result = some user })
              w.hub;
      })
  closes :
      (i : ℕ)
      → w.served i ≡ true
      → Step w (record w {
        served = mark i false w.served;
        hub = unregister_session (w.sessions i) w.hub;
      })
  realtime_comes : (c s : ℕ) → Step w (record w { hub = register_realtime_subscriber c s w.hub })
  realtime_leaves : (c s : ℕ) → Step w (record w { hub = unregister_realtime_subscriber c s w.hub })
  realtime_ends : (s : ℕ) → Step w (record w { hub = unregister_realtime_subscriber_all s w.hub })

pub data Reach : World → Type 0 where
  here : Reach start
  next : {v w : World} → Reach v → Step v w → Reach w

-- A session is in a channel's set exactly while it is served and has the channel among its own.
pub record IsCoherent (w : World) : Type 0 where
  pub own_id : (i : ℕ) → (w.sessions i).id ≡ i
  pub both_sides :
      (i c : ℕ)
      → contains c i w.hub.subscriptions ≡ (w.served i && elem c (w.sessions i).subscribed)
  pub no_empty_sets :
      HasNoEmptySet w.hub.subscriptions
      × HasNoEmptySet w.hub.realtime_subs
      × HasNoEmptySet w.hub.direct_sessions

contains-remove_each :
    (i : ℕ) (cs : List ℕ) (m : SetMap) (c j : ℕ)
    → contains c j (remove_each i cs m) ≡ (not ((i == j) && elem c cs) && contains c j m)
unfolding remove_each elem
contains-remove_each i [] m c j = ground arith
contains-remove_each i (x ∷ cs) m c j =
    ground (arith, contains-remove_each i cs (remove x i m) c j, contains-remove x i c j m)

remove_each-HasNoEmptySet :
    (i : ℕ) (cs : List ℕ) (m : SetMap) → HasNoEmptySet m → HasNoEmptySet (remove_each i cs m)
unfolding remove_each
remove_each-HasNoEmptySet i [] m h = h
remove_each-HasNoEmptySet i (x ∷ cs) m h =
    remove_each-HasNoEmptySet i cs (remove x i m) (remove-HasNoEmptySet x i m h)

remove_direct-HasNoEmptySet :
    (i : ℕ) (o : Option User) (m : SetMap) → HasNoEmptySet m → HasNoEmptySet (remove_direct i o m)
remove_direct-HasNoEmptySet i none m h = h
remove_direct-HasNoEmptySet i (some user) m h = remove-HasNoEmptySet user.id i m h

start-IsCoherent : IsCoherent start
start-IsCoherent = record {
  own_id = λ i. refl;
  both_sides = λ i c. contains-nil c i;
  no_empty_sets = (tt, tt, tt);
}

put-own :
    (i : ℕ) (s : ConnSession) (f : ℕ → ConnSession)
    → s.id ≡ i
    → ((j : ℕ) → (f j).id ≡ j)
    → (j : ℕ) → (put i s f j).id ≡ j
put-own i s f e h j = ground (arith, e, h j)

Step-IsCoherent : {v w : World} → Step v w → IsCoherent v → IsCoherent w
unfolding subscribe_channel unsubscribe register_direct_user_session unregister_session
    register_realtime_subscriber unregister_realtime_subscriber unregister_realtime_subscriber_all
Step-IsCoherent {v} (opens i closed) h = record {
  own_id = put-own i (new_session i) v.sessions refl h.own_id;
  both_sides = λ j c. elim (Bool-cases (j == i)) [
    | inl e ↦
        let p : j ≡ i = ground (arith, e) in
        rw p (unfold elem in ground (arith, h.both_sides i c, closed))
    | inr e ↦ rw e (h.both_sides j c)
  ];
  no_empty_sets = h.no_empty_sets;
}
Step-IsCoherent {v} (subscribes i c open_) h = record {
  own_id = put-own i _ v.sessions (h.own_id i) h.own_id;
  both_sides = λ j d. elim (Bool-cases (j == i)) [
    | inl e ↦
        let p : j ≡ i = ground (arith, e) in
        rw (p, h.own_id i)
          (ground (
            arith,
            contains-add c i d i v.hub.subscriptions,
            elem-adjoin c d (v.sessions i).subscribed,
            h.both_sides i d,
            open_,
          ))
    | inr e ↦
        rw (e, h.own_id i)
          (ground (arith, contains-add c i d j v.hub.subscriptions, h.both_sides j d, e))
  ];
  no_empty_sets = (
    add-HasNoEmptySet c _ v.hub.subscriptions h.no_empty_sets.0,
    h.no_empty_sets.1,
    h.no_empty_sets.2,
  );
}
Step-IsCoherent {v} (unsubscribes i c open_) h = record {
  own_id = put-own i _ v.sessions (h.own_id i) h.own_id;
  both_sides = λ j d. elim (Bool-cases (j == i)) [
    | inl e ↦
        let p : j ≡ i = ground (arith, e) in
        rw (p, h.own_id i)
          (ground (
            arith,
            contains-remove c i d i v.hub.subscriptions,
            elem-discard c d (v.sessions i).subscribed,
            h.both_sides i d,
            open_,
          ))
    | inr e ↦
        rw (e, h.own_id i)
          (ground (arith, contains-remove c i d j v.hub.subscriptions, h.both_sides j d, e))
  ];
  no_empty_sets = (
    remove-HasNoEmptySet c _ v.hub.subscriptions h.no_empty_sets.0,
    h.no_empty_sets.1,
    h.no_empty_sets.2,
  );
}
Step-IsCoherent {v} (logs_in i user open_) h = record {
  own_id = put-own i _ v.sessions (h.own_id i) h.own_id;
  both_sides = λ j d. elim (Bool-cases (j == i)) [
    | inl e ↦ let p : j ≡ i = ground (arith, e) in rw p (ground (arith, h.both_sides i d))
    | inr e ↦ rw e (h.both_sides j d)
  ];
  no_empty_sets = (
    h.no_empty_sets.0,
    h.no_empty_sets.1,
    add-HasNoEmptySet user.id _ v.hub.direct_sessions h.no_empty_sets.2,
  );
}
Step-IsCoherent {v} (closes i open_) h = record {
  own_id = h.own_id;
  both_sides = λ j d. elim (Bool-cases (j == i)) [
    | inl e ↦
        let p : j ≡ i = ground (arith, e) in
        rw (p, h.own_id i)
          (ground (
            arith,
            contains-remove_each i (v.sessions i).subscribed v.hub.subscriptions d i,
            h.both_sides i d,
            open_,
          ))
    | inr e ↦
        rw (e, h.own_id i)
          (ground (
            arith,
            contains-remove_each i (v.sessions i).subscribed v.hub.subscriptions d j,
            h.both_sides j d,
            e,
          ))
  ];
  no_empty_sets = (
    remove_each-HasNoEmptySet (v.sessions i).id (v.sessions i).subscribed v.hub.subscriptions
        h.no_empty_sets.0,
    h.no_empty_sets.1,
    remove_direct-HasNoEmptySet (v.sessions i).id (v.sessions i).auth_result v.hub.direct_sessions
        h.no_empty_sets.2,
  );
}
Step-IsCoherent {v} (realtime_comes c s) h = record {
  own_id = h.own_id;
  both_sides = h.both_sides;
  no_empty_sets = (
    h.no_empty_sets.0,
    add-HasNoEmptySet c s v.hub.realtime_subs h.no_empty_sets.1,
    h.no_empty_sets.2,
  );
}
Step-IsCoherent {v} (realtime_leaves c s) h = record {
  own_id = h.own_id;
  both_sides = h.both_sides;
  no_empty_sets = (
    h.no_empty_sets.0,
    remove-HasNoEmptySet c s v.hub.realtime_subs h.no_empty_sets.1,
    h.no_empty_sets.2,
  );
}
Step-IsCoherent {v} (realtime_ends s) h = record {
  own_id = h.own_id;
  both_sides = h.both_sides;
  no_empty_sets = (
    h.no_empty_sets.0,
    remove_everywhere-HasNoEmptySet s v.hub.realtime_subs h.no_empty_sets.1,
    h.no_empty_sets.2,
  );
}

-- In every world that any sequence of openings, subscriptions, logins and closings leads to, a session
-- is in a channel's set exactly while it is served and has subscribed to the channel, and the hub
-- keeps no empty set.
pub Reach-IsCoherent : (w : World) → Reach w → IsCoherent w
Reach-IsCoherent w here = start-IsCoherent
Reach-IsCoherent w (next r s) = Step-IsCoherent s (Reach-IsCoherent _ r)
