-- ===== src/Store/Users.antt =====
-- internal/repository/mysql/user.go: the users' rows. A peer id is ASCII text, so that the bytes
-- that `shortPeerID` slices are the code points.
use meshserver.Base.{
  ℕ, ◌+◌, ◌-◌, Bool, Option, none, some, ◌++◌, ◌==◌, leb, length, drop, if◌then◌else◌,
}
use meshserver.Base.Tables.{find, update_where, insert, or_else}
use meshserver.Base.Text.{Text, text_eq, is_empty, trim_space, len, codes}
use meshserver.Base.Errors.{Error}
use meshserver.Base.Exec.{Result, or_err, Exec}
use meshserver.Model.Rows.{User}
use meshserver.Model.Database.{Database}
use meshserver.Store.Direct.Conversations.{find_user}

abbrev pub has_peer_id : Text → User → Bool
has_peer_id peer_id u = text_eq u.peer_id peer_id

-- The column's collation ignores case, the comparison here does not.
abbrev pub has_user_id : Text → User → Bool
has_user_id user_id u = text_eq u.user_id user_id

unfoldable pub get_by_peer_id : Text → Database → Result User
get_by_peer_id peer_id db = or_err (find (has_peer_id peer_id) db.users) Error.not_found

unfoldable pub get_by_id : ℕ → Database → Result User
get_by_id id db = or_err (find_user id db) Error.not_found

unfoldable pub get_by_user_id : Text → Database → Result User
get_by_user_id user_id db = or_err (find (has_user_id user_id) db.users) Error.not_found

abbrev drop_to : Text → Text
drop_to s = drop (length s - 8) s

unfoldable pub short_peer_id : Text → Text
short_peer_id peer_id =
    if leb (len (trim_space peer_id)) 8 then trim_space peer_id else drop_to (trim_space peer_id)

-- `CASE WHEN … IS NULL OR LENGTH(…) = 0 THEN pubkey ELSE … END`
abbrev pub key_or_old : Text → Text → Text
key_or_old new old = if is_empty new then old else new

abbrev pub new_user : ℕ → ℕ → Text → Text → Text → User
new_user now id uid peer_id pubkey = record {
  id = id;
  user_id = uid;
  peer_id = peer_id;
  pubkey = pubkey;
  display_name = codes "Peer " ++ short_peer_id peer_id;
  status = 1;
  last_login_at = now;
  created_at = now;
  updated_at = now;
}

abbrev pub touch_user : ℕ → Text → User → User
touch_user now pubkey u = record u { pubkey = key_or_old pubkey u.pubkey; updated_at = now }

-- The row that the insertion clashes with: of the same drawn id, or of the same peer.
abbrev pub clash : Text → Text → Database → Option User
clash uid peer_id db =
    or_else (find (has_user_id uid) db.users) (find (has_peer_id peer_id) db.users)

unfoldable pub insert_or_touch : ℕ → Text → Text → Text → Option User → Database → Database
insert_or_touch now uid peer_id pubkey none db = record db {
  users = insert (new_user now db.next_user_id uid peer_id pubkey) db.users;
  next_user_id = db.next_user_id + 1;
}
insert_or_touch now uid peer_id pubkey (some u) db = record db {
  users = update_where (λ v. v.id == u.id) (touch_user now pubkey) db.users;
}

-- `uid` is the id that `newExternalID` draws.
unfoldable pub create_if_not_exists_by_peer_id : ℕ → Text → Text → Text → Exec Database User
create_if_not_exists_by_peer_id now uid peer_id pubkey db =
    let stored = insert_or_touch now uid peer_id pubkey (clash uid peer_id db) db in
    (get_by_peer_id peer_id stored, stored)

unfoldable pub update_login : ℕ → Text → ℕ → Database → Database
update_login user_id pubkey when db = record db {
  users =
      update_where (λ u. u.id == user_id)
        (λ u. record u {
          pubkey = key_or_old pubkey u.pubkey;
          last_login_at = when;
          updated_at = when;
        })
        db.users;
}
