-- ===== src/Store/Bootstrap/Barred.antt =====
-- default_admin_bootstrap.go: a start whose configured administrator was banned from the space.
use mathlib.Core.Path.{subst}
use meshserver.Base.{
  ℕ, ◌≡◌, refl, sym, ap, ◌∙◌, true, false, Option, none, some, [], if◌then◌else◌, ◌==◌, arith,
}
use mathlib.Core.Option
use meshserver.Base.Tables.{find, update_where, find-update_where}
use meshserver.Base.Text.{Text, trim_space, is_empty}
use meshserver.Base.Errors.{Error}
use meshserver.Base.Exec.{
  Result, ok, err, or_err, guard, ◌>>=◌, reads, and_then-ok, and_then-err, transaction,
  transaction-err,
}
use meshserver.Model.Rows.{User, Space, Membership}
use meshserver.Model.Database.{Database}
use meshserver.Store.Users.{
  create_if_not_exists_by_peer_id, insert_or_touch, touch_user, has_user_id, has_peer_id,
  get_by_peer_id,
}
use meshserver.Store.Spaces.Views.{find_space-id}
use meshserver.Store.Spaces.Writes.{find_space, find_member}
use meshserver.Store.Spaces.Queries.{get_by_space_id}
use meshserver.Store.Spaces.Members.{
  invite_space_member, add_space_member, add_space_member_body, add_to_space,
}
use meshserver.Store.Spaces.Moderation.{HasUniqueMembers, active_row-banned, get_member_role-none}
use meshserver.Store.Bootstrap.{
  promote, ensure_admin_membership, admin_in_space, target_or_first, bootstrap_peer,
  bootstrap_default_admin,
}

-- A banned member is refused as a new one.
ensure_admin_membership-banned :
    (now s u : ℕ) (db : Database) (space : Space) (m : Membership)
    → HasUniqueMembers db
    → find_space s db ≡ some space
    → find_member s u db ≡ some m
    → m.is_banned ≡ true
    → ensure_admin_membership now s u db ≡ (err Error.user_is_banned, db)
unfolding ensure_admin_membership promote invite_space_member add_space_member add_space_member_body
    add_to_space or_err guard ◌>>=◌
ensure_admin_membership-banned now s u db space m unique here member banned =
    ap (λ r. promote now s u r db)
      (get_member_role-none s u db
        (active_row-banned s u db.server_members m (unique s u) member banned))
    ∙ refused
  where
    there : find_member space.id u db ≡ some m
    there = subst (λ i. find_member i u db ≡ some m) (sym (find_space-id s db here)) member

    refused : promote now s u (err Error.not_found) db ≡ (err Error.user_is_banned, db)
    refused = and_then-err (invite_space_member now s u) _ db (
        and_then-err (transaction (add_space_member_body now s u false)) _ db (
          transaction-err (add_space_member_body now s u false) db
            (rw here (rw there (rw banned)))))

module _ (now : ℕ) (uid peer : Text) (db : Database) (usr : User) where
  abbrev touched : User
  touched = if usr.id == usr.id then touch_user now [] usr else usr

  abbrev known : Database
  known = record db { users = update_where (λ v. v.id == usr.id) (touch_user now []) db.users }

  -- The administrator's row is there, and is brought up to date.
  create-known :
      find (has_user_id uid) db.users ≡ none
      → find (has_peer_id peer) db.users ≡ some usr
      → create_if_not_exists_by_peer_id now uid peer [] db ≡ (ok touched, known)
  unfolding create_if_not_exists_by_peer_id insert_or_touch get_by_peer_id or_err
  create-known unused here = rw unused (
      rw here (
        ap (λ o. (or_err o Error.not_found, known))
          (find-update_where (has_peer_id peer) (λ v. v.id == usr.id) (touch_user now []) db.users
              (λ x. refl)
            ∙ ap (Option.map (λ v. if v.id == usr.id then touch_user now [] v else v)) here)))

-- When the configured administrator has a row, his peer id is written as that row has it, the id drawn
-- for a new user is not in use, the space is there, and he is banned from it, then a start of the
-- process, BootstrapDefaultAdmin, returns the error that the user is banned.
pub bootstrap_default_admin-banned :
    (canonical : Text → Option Text) (now : ℕ) (uid peer_id peer : Text) (target : ℕ)
    (db : Database) (usr : User) (space : Space) (m : Membership)
    → is_empty (trim_space peer_id) ≡ false
    → canonical (trim_space peer_id) ≡ some peer
    → find (has_user_id uid) db.users ≡ none
    → find (has_peer_id peer) db.users ≡ some usr
    → HasUniqueMembers db
    → find_space (target_or_first target) db ≡ some space
    → find_member (target_or_first target) usr.id db ≡ some m
    → m.is_banned ≡ true
    → (bootstrap_default_admin canonical now uid peer_id target db).0 ≡ err Error.user_is_banned
unfolding bootstrap_default_admin or_err
bootstrap_default_admin-banned canonical now uid peer_id peer target db usr space m named decoded
      unused here unique there member banned =
    rw named (
      ap (λ (r : Result (Unit {0}) × Database). r.0)
        (and_then-ok (reads (λ d. or_err (canonical (trim_space peer_id)) Error.bad_peer_id))
            (bootstrap_peer canonical now uid target) db
            (ap (λ o. (or_err o Error.bad_peer_id, db)) decoded)
          ∙ started))
  where
    same : (touched now uid peer db usr).id ≡ usr.id
    same = ground arith

    in_space :
        (s : ℕ) (u : ℕ)
        → find_space s db ≡ some space
        → find_member s u db ≡ some m
        → admin_in_space now s u
            (get_by_space_id s (known now uid peer db usr))
            (known now uid peer db usr)
          ≡ (err Error.user_is_banned, known now uid peer db usr)
    in_space s u e e' =
        unfold admin_in_space get_by_space_id or_err in
        rw e (
          ensure_admin_membership-banned now s u (known now uid peer db usr) space m unique e e'
            banned)

    started :
        bootstrap_peer canonical now uid target peer db
        ≡ (err Error.user_is_banned, known now uid peer db usr)
    started =
        unfold bootstrap_peer in
        and_then-ok (create_if_not_exists_by_peer_id now uid peer []) _ db
          (create-known now uid peer db usr unused here)
        ∙ in_space (target_or_first target) _ there (rw same member)
