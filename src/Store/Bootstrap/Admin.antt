-- ===== src/Store/Bootstrap/Admin.antt =====
-- default_admin_bootstrap.go: the owners of spaces at a start.
use meshserver.Base.{ℕ, ◌<◌, ◌^◌, Bool, true, false, Option, none, some, [], if◌then◌else◌}
use meshserver.Base.Text.{Text, trim_space, is_empty}
use meshserver.Base.Errors.{Error}
use meshserver.Base.Exec.{
  Result, ok, err, or_err, Exec, reads, value, and_then, continue, and_then-keeps,
  transaction-keeps,
}
use meshserver.Store.Spaces.Ownership.Transfer.{set_role_body-IsOwned}
use meshserver.Model.Enums.{Role, is_manager}
use meshserver.Model.Rows.{User, Space}
use meshserver.Model.Database.{Database}
use meshserver.Store.Users.{create_if_not_exists_by_peer_id, insert_or_touch, clash}
use meshserver.Store.Spaces.Queries.{get_by_space_id, get_member_role}
use meshserver.Store.Spaces.Members.{invite_space_member}
use meshserver.Store.Spaces.Roles.{set_space_member_role, set_space_member_role_body}
use meshserver.Store.Spaces.Ownership.{IsOwned}
use meshserver.Store.Spaces.Ownership.Steps.{SpaceCall, after, after-IsOwned}
use meshserver.Store.Bootstrap.{
  promote, ensure_admin_membership, admin_in_space, target_or_first, bootstrap_peer,
  bootstrap_default_admin,
}

module _ (now : ℕ) where
  set_admin-IsOwned :
      (s u : ℕ) (db : Database)
      → IsOwned db
      → IsOwned (set_space_member_role now s u Role.admin db).1
  unfolding set_space_member_role
  set_admin-IsOwned s u db h =
      transaction-keeps IsOwned (set_space_member_role_body now s u Role.admin) db h
        (set_role_body-IsOwned now db h s u Role.admin)

  promote-IsOwned :
      (s u : ℕ) (r : Result Role) (db : Database)
      → db.next_space_id < 2 ^ 32
      → IsOwned db
      → IsOwned (promote now s u r db).1
  unfolding promote after
  promote-IsOwned s u (ok role) db room h = go (is_manager role)
    where
      go :
          (b : Bool)
          → IsOwned ((if b then value tt else set_space_member_role now s u Role.admin) db).1
      go true = h
      go false = set_admin-IsOwned s u db h
  promote-IsOwned s u (err e) db room h =
      and_then-keeps IsOwned (invite_space_member now s u) _ db invited
        (λ item t kept. set_admin-IsOwned s u t kept)
    where
      invited : IsOwned (invite_space_member now s u db).1
      invited = after-IsOwned now (SpaceCall.invites s u) db room h

  -- Starting the process with a configured administrator, whatever comes of it, keeps every space with
  -- exactly its owner, while 32-bit space ids are left.
  pub bootstrap_default_admin-IsOwned :
      (canonical : Text → Option Text) (uid peer_id : Text) (target : ℕ) (db : Database)
      → db.next_space_id < 2 ^ 32
      → IsOwned db
      → IsOwned (bootstrap_default_admin canonical now uid peer_id target db).1
  unfolding bootstrap_default_admin bootstrap_peer admin_in_space ensure_admin_membership
      create_if_not_exists_by_peer_id insert_or_touch or_err
  bootstrap_default_admin-IsOwned canonical uid peer_id target db room h =
      configured (is_empty (trim_space peer_id))
    where
      Ready : Database → Type 0
      Ready t = IsOwned t × (t.next_space_id < 2 ^ 32)

      start : Text → Exec Database (Unit {0})
      start = bootstrap_peer canonical now uid target

      created : (peer : Text) (o : Option User) → Ready (insert_or_touch now uid peer [] o db)
      created peer none = (h, room)
      created peer (some u) = (h, room)

      in_space :
          (s u : ℕ) (r : Result Space) (t : Database)
          → Ready t
          → IsOwned (admin_in_space now s u r t).1
      in_space s u (ok item) t (kept, room') =
          promote-IsOwned s u (get_member_role s u t) t room' kept
      in_space s u (err e) t (kept, room') = kept

      placed : User → Exec Database (Unit {0})
      placed usr t =
          admin_in_space now (target_or_first target) usr.id
            (get_by_space_id (target_or_first target) t) t

      then_placed : (r : Result User) (t : Database) → Ready t → IsOwned (continue placed r t).1
      then_placed (ok usr) t ready =
          in_space (target_or_first target) usr.id (get_by_space_id (target_or_first target) t) t
            ready
      then_placed (err e) t ready = ready.0

      known : (peer : Text) → IsOwned (start peer db).1
      known peer =
          then_placed (create_if_not_exists_by_peer_id now uid peer [] db).0 _
            (created peer (clash uid peer db))

      decoded :
          (o : Option Text)
          → IsOwned (and_then (reads (λ db. or_err o Error.bad_peer_id)) start db).1
      decoded none = h
      decoded (some peer) = known peer

      configured :
          (b : Bool)
          → IsOwned
              ((if b
                  then value tt
                  else and_then
                      (reads (λ db. or_err (canonical (trim_space peer_id)) Error.bad_peer_id))
                      start)
                db).1
      configured true = h
      configured false = decoded (canonical (trim_space peer_id))
