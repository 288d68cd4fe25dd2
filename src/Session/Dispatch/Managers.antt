-- ===== src/Session/Dispatch/Managers.antt =====
-- internal/session/manager.go: the requests that a user may send only as owner or admin of the space.
use meshserver.Base.{ℕ, ◌≡◌, refl, ◌∙◌, ap, if◌then◌else◌, Bool, true, false}
use meshserver.Base.Text.{Text}
use meshserver.Base.Errors.{Error}
use meshserver.Base.Exec.{
  Result, ok, err, guard, ◌>>=◌, ◌>>◌, Exec, and_then, and_then-err, and_then-ok,
}
use meshserver.Model.Enums.{Role, is_owner, is_manager, is_group}
use meshserver.Model.Rows.{User, Channel}
use meshserver.Model.Database.{Database}
use meshserver.Store.Spaces.Queries.{get_member_role}
use meshserver.Store.Messages.{get_by_channel_id}
use meshserver.Session.Wire.{WireRole, Request}
use meshserver.Session.Convert.{to_domain_member_role}
use meshserver.Session.Node.{Node, look}
use meshserver.Session.Api.{manages, check_manager, check_role_change, check_group}
use meshserver.Session.Handlers.{
  Server, Drawn, handle_members, handle_set_role, handle_channel_creation, handle_auto_delete,
  handle_member, allow_role_change, require_manager,
}
use meshserver.Session.Dispatch.{handle}
use meshserver.Session.Dispatch.Members.{require_manager-check_manager, allow-check_role_change}
use meshserver.Session.Dispatch.Others.{check_group-steps}

-- Eight requests, each with the space it acts on: to list the members, to set a role, to set the flag
-- for creating channels, to set a group's auto-delete time, to invite, kick, ban and unban.
pub data Administers (db : Database) : ℕ → Request → Type 0 where
  members : (s a l : ℕ) → Administers db s (Request.list_space_members s a l)
  member_role : (s : ℕ) (t : Text) (r : WireRole) → Administers db s (Request.set_member_role s t r)
  channel_creation : (s : ℕ) (b : Bool) → Administers db s (Request.set_channel_creation s b)
  auto_delete :
      (c seconds : ℕ) (ch : Channel)
      → get_by_channel_id c db ≡ ok ch
      → Administers db ch.space_id (Request.set_auto_delete c seconds)
  invite : (s : ℕ) (t : Text) → Administers db s (Request.invite_member s t)
  kick : (s : ℕ) (t : Text) → Administers db s (Request.kick_member s t)
  ban : (s : ℕ) (t : Text) → Administers db s (Request.ban_member s t)
  unban : (s : ℕ) (t : Text) → Administers db s (Request.unban_member s t)

abbrev Refused : Exec Node (Unit {0}) → Node → Type 0
Refused m n = (e : Error) × (m n ≡ (err e, n))

module _ (server : Server) (drawn : Drawn) (rid : Text) (user : User) where
  -- A handler whose first step is refused.
  first-Refused :
      {A : Type 0} (m : Exec Node A) (f : A → Exec Node (Unit {0})) (n : Node)
      → (e : Error) × (m n ≡ (err e, n))
      → Refused (and_then m f) n
  first-Refused m f n (e, h) = (e, and_then-err m f n h)

  check_manager-refuses :
      (space_id : ℕ) (db : Database)
      → manages (get_member_role space_id user.id db) ≡ false
      → (e : Error) × (check_manager space_id user.id db ≡ err e)
  unfolding check_manager guard ◌>>=◌
  check_manager-refuses space_id db = go (get_member_role space_id user.id db)
    where
      go :
          (r : Result Role)
          → manages r ≡ false
          → (e : Error) × ((r >>= λ role. guard (is_manager role) Error.admin_role_required)
              ≡ err e)
      go (ok role) h = (Error.admin_role_required, ap (λ b. guard b Error.admin_role_required) h)
      go (err e) h = (e, refl)

  require_manager-Refused :
      (space_id : ℕ) (n : Node)
      → manages (get_member_role space_id user.id n.db) ≡ false
      → Refused (require_manager server drawn rid user space_id) n
  require_manager-Refused space_id n h = refused (check_manager-refuses space_id n.db h)
    where
      refused :
          (e : Error) × (check_manager space_id user.id n.db ≡ err e)
          → Refused (require_manager server drawn rid user space_id) n
      refused (e, h) =
          (e, require_manager-check_manager server drawn rid user space_id n ∙ ap (λ r. (r, n)) h)

  check_role_change-refuses :
      (role : Role) (space_id : ℕ) (db : Database)
      → manages (get_member_role space_id user.id db) ≡ false
      → (e : Error) × (check_role_change role space_id user.id db ≡ err e)
  unfolding check_role_change allow_role_change guard ◌>>=◌
  check_role_change-refuses role space_id db = go (get_member_role space_id user.id db)
    where
      test : Bool → Role → Result (Unit {0})
      test b actor =
          if b
          then guard (is_owner actor) Error.owner_role_required
          else guard (is_manager actor) Error.admin_role_required

      tested :
          (b : Bool) (actor : Role)
          → is_manager actor ≡ false
          → (e : Error) × (test b actor ≡ err e)
      tested b Role.owner h = cc
      tested b Role.admin h = cc
      tested true Role.member h = (Error.owner_role_required, refl)
      tested false Role.member h = (Error.admin_role_required, refl)
      tested true Role.subscriber h = (Error.owner_role_required, refl)
      tested false Role.subscriber h = (Error.admin_role_required, refl)
      tested true (Role.other t) h = (Error.owner_role_required, refl)
      tested false (Role.other t) h = (Error.admin_role_required, refl)

      go :
          (r : Result Role)
          → manages r ≡ false
          → (e : Error) × ((r >>= test (is_owner role)) ≡ err e)
      go (ok actor) h = tested (is_owner role) actor h
      go (err e) h = (e, refl)

  set_role-Refused :
      (space_id : ℕ) (target : Text) (wire : WireRole) (n : Node)
      → manages (get_member_role space_id user.id n.db) ≡ false
      → Refused (handle_set_role server drawn rid user space_id target wire) n
  unfolding handle_set_role
  set_role-Refused space_id target wire n h = known (to_domain_member_role wire) refl
    where
      refused :
          (role : Role)
          → (e : Error) × (check_role_change role space_id user.id n.db ≡ err e)
          → to_domain_member_role wire ≡ ok role
          → Refused (handle_set_role server drawn rid user space_id target wire) n
      refused role (e, why) h' = (
        e,
        and_then-ok (look (λ db. to_domain_member_role wire)) _ n (ap (λ r. (r, n)) h')
            ∙ allow-check_role_change server drawn rid user role space_id _ n
            ∙ and_then-err (look (check_role_change role space_id user.id)) _ n
                (ap (λ r. (r, n)) why),
      )

      known :
          (r : Result Role)
          → to_domain_member_role wire ≡ r
          → Refused (handle_set_role server drawn rid user space_id target wire) n
      known (ok role) h' = refused role (check_role_change-refuses role space_id n.db h) h'
      known (err e) h' =
          first-Refused (look (λ db. to_domain_member_role wire)) _ n (e, ap (λ r. (r, n)) h')

  auto_delete-Refused :
      (c seconds : ℕ) (ch : Channel) (n : Node)
      → get_by_channel_id c n.db ≡ ok ch
      → manages (get_member_role ch.space_id user.id n.db) ≡ false
      → Refused (handle_auto_delete server drawn rid user c seconds) n
  unfolding handle_auto_delete check_group guard ◌>>=◌
  auto_delete-Refused c seconds ch n found h = refused (check_manager-refuses ch.space_id n.db h)
    where
      test : Result Channel → Result (Unit {0})
      test r = r >>= λ (x : Channel).
          guard (is_group x.channel_type) Error.auto_delete_group_only
          >> check_manager x.space_id user.id n.db

      tested :
          (b : Bool)
          → (e : Error) × (check_manager ch.space_id user.id n.db ≡ err e)
          → (e : Error) × ((guard b Error.auto_delete_group_only
                >> check_manager ch.space_id user.id n.db)
              ≡ err e)
      tested true h = h
      tested false h = (Error.auto_delete_group_only, refl)

      checked :
          (e : Error) × ((guard (is_group ch.channel_type) Error.auto_delete_group_only
                >> check_manager ch.space_id user.id n.db)
              ≡ err e)
          → Refused (handle_auto_delete server drawn rid user c seconds) n
      checked (e, why) = (
        e,
        check_group-steps server drawn rid user c _ n
            ∙ and_then-err (look (check_group c user.id)) _ n
                (ap (λ r. (r, n)) (ap test found ∙ why)),
      )

      refused :
          (e : Error) × (check_manager ch.space_id user.id n.db ≡ err e)
          → Refused (handle_auto_delete server drawn rid user c seconds) n
      refused why = checked (tested (is_group ch.channel_type) why)

  -- A request to list a space's members, to set a member's role, the flag for creating channels or a
  -- group's auto-delete time, or to invite, kick, ban or unban a user, from a user who is neither owner
  -- nor admin of the space, ends with an error, and changes nothing.
  pub handle-not_manager :
      {space_id : ℕ} {req : Request} (n : Node)
      → Administers n.db space_id req
      → manages (get_member_role space_id user.id n.db) ≡ false
      → (e : Error) × (handle server drawn rid user req n ≡ (err e, n))
  unfolding handle handle_members handle_channel_creation handle_member
  handle-not_manager n (Administers.members s a l) h =
      first-Refused (require_manager server drawn rid user s) _ n (require_manager-Refused s n h)
  handle-not_manager n (Administers.member_role s t r) h = set_role-Refused s t r n h
  handle-not_manager n (Administers.channel_creation s b) h =
      first-Refused (require_manager server drawn rid user s) _ n (require_manager-Refused s n h)
  handle-not_manager n (Administers.auto_delete c seconds ch found) h =
      auto_delete-Refused c seconds ch n found h
  handle-not_manager n (Administers.invite s t) h =
      first-Refused (require_manager server drawn rid user s) _ n (require_manager-Refused s n h)
  handle-not_manager n (Administers.kick s t) h =
      first-Refused (require_manager server drawn rid user s) _ n (require_manager-Refused s n h)
  handle-not_manager n (Administers.ban s t) h =
      first-Refused (require_manager server drawn rid user s) _ n (require_manager-Refused s n h)
  handle-not_manager n (Administers.unban s t) h =
      first-Refused (require_manager server drawn rid user s) _ n (require_manager-Refused s n h)
