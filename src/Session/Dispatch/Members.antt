-- ===== src/Session/Dispatch/Members.antt =====
-- internal/session: the administrative requests on a space beside the methods of the HTTP interface.
use meshserver.Base.{ℕ, ◌≡◌, refl, ◌∙◌, Bool}
use meshserver.Base.Text.{Text}
use meshserver.Base.Errors.{Error}
use meshserver.Base.Exec.{Result, ok, err, guard, ◌>>=◌, Exec, reads, and_then, continue}
use meshserver.Model.Enums.{Role, is_manager}
use meshserver.Model.Rows.{User}
use meshserver.Model.Database.{Database}
use meshserver.Store.Users.{get_by_user_id}
use meshserver.Store.Spaces.Queries.{get_member_role}
use meshserver.Store.Spaces.Members.{SpaceExec}
use meshserver.Session.Wire.{WireRole, SpaceSummary, Packet}
use meshserver.Session.Node.{Node, call, look, write}
use meshserver.Session.Api.{
  check_manager, check_role_change, on_member, admin_set_space_member_role_for_api,
  admin_set_space_channel_creation_for_api,
}
use meshserver.Session.Handlers.{
  Server, Drawn, require_manager, handle_member, handle_set_role, handle_channel_creation,
  allow_role_change, summarize,
}
use meshserver.Store.Spaces.Roles.{set_space_allow_channel_creation, set_space_member_role}
use meshserver.Session.Convert.{to_domain_member_role}
use meshserver.Session.Dispatch.Steps.{step}

module _ (server : Server) (drawn : Drawn) (rid : Text) (user : User) where
  pub require_manager-check_manager :
      (space_id : ℕ) (n : Node)
      → require_manager server drawn rid user space_id n ≡ (check_manager space_id user.id n.db, n)
  unfolding require_manager check_manager guard ◌>>=◌
  require_manager-check_manager space_id n = go (get_member_role space_id user.id n.db)
    where
      go :
          (r : Result Role)
          → continue (λ role s. (guard (is_manager role) Error.admin_role_required, s)) r n
            ≡ (r >>= (λ role. guard (is_manager role) Error.admin_role_required), n)
      go (ok role) = refl
      go (err e) = refl

  abbrev pub Agrees : Exec Node (Unit {0}) → Exec Database Packet → Type 0
  Agrees handler m = (n : Node) → handler n ≡ and_then (call m) (write rid) n

  -- A handler that looks at the tables in two steps, and one that does in one.
  pub allow-check_role_change :
      (role : Role) (space_id : ℕ) (rest : Unit {0} → Exec Node (Unit {0})) (n : Node)
      → and_then
          (look (get_member_role space_id user.id))
          (λ actor. and_then (look (λ db. allow_role_change server drawn rid user role actor)) rest)
          n
        ≡ and_then (look (check_role_change role space_id user.id)) rest n
  unfolding allow_role_change check_role_change ◌>>=◌
  allow-check_role_change role space_id rest n = go (get_member_role space_id user.id n.db)
    where
      go :
          (r : Result Role)
          → continue
              (λ actor.
                and_then (look (λ db. allow_role_change server drawn rid user role actor)) rest)
              r
              n
            ≡ continue rest (r >>= allow_role_change server drawn rid user role) n
      go (ok actor) = refl
      go (err e) = refl

  pub handle_member-on_member :
      (act : ℕ → ℕ → SpaceExec) (reply : ℕ → Text → SpaceSummary → Packet) (space_id : ℕ)
      (target : Text)
      → Agrees
          (handle_member server drawn rid user act reply space_id target)
          (on_member act reply server.env user.id user.peer_id space_id target)
  unfolding handle_member summarize
  handle_member-on_member act reply space_id target n =
      step (require_manager server drawn rid user space_id) (reads (check_manager space_id user.id))
        _ (write rid) n (require_manager-check_manager space_id n)
        (λ u t.
          step (look (get_by_user_id target)) (reads (get_by_user_id target)) _ (write rid) t refl
            (λ who t'.
              step (call (act space_id who.id)) (act space_id who.id) _ (write rid) t' refl
                (λ item t''. refl)))

  pub handle_set_role-Agrees :
      (space_id : ℕ) (target : Text) (wire : WireRole)
      → Agrees
          (handle_set_role server drawn rid user space_id target wire)
          (admin_set_space_member_role_for_api server.env user.id space_id target wire)
  unfolding handle_set_role admin_set_space_member_role_for_api
  handle_set_role-Agrees space_id target wire n =
      step (look (λ db. to_domain_member_role wire)) (reads (λ db. to_domain_member_role wire)) _
        (write rid) n refl
        (λ role t.
          allow-check_role_change role space_id _ t
          ∙ step (look (check_role_change role space_id user.id))
              (reads (check_role_change role space_id user.id)) _ (write rid) t refl
              (λ u t'.
                step (look (get_by_user_id target)) (reads (get_by_user_id target)) _ (write rid) t'
                  refl
                  (λ who t''.
                    step (call (set_space_member_role server.env.now space_id who.id role))
                      (set_space_member_role server.env.now space_id who.id role) _ (write rid) t''
                      refl (λ v w. refl))))

  pub handle_channel_creation-Agrees :
      (space_id : ℕ) (allow : Bool)
      → Agrees
          (handle_channel_creation server drawn rid user space_id allow)
          (admin_set_space_channel_creation_for_api server.env user.id space_id allow)
  unfolding handle_channel_creation admin_set_space_channel_creation_for_api
  handle_channel_creation-Agrees space_id allow n =
      step (require_manager server drawn rid user space_id) (reads (check_manager space_id user.id))
        _ (write rid) n (require_manager-check_manager space_id n)
        (λ u t.
          step (call (set_space_allow_channel_creation server.env.now space_id allow))
            (set_space_allow_channel_creation server.env.now space_id allow) _ (write rid) t refl
            (λ v w. refl))
