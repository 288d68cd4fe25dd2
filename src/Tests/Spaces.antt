-- ===== src/Tests/Spaces.antt =====
-- A space that a user creates, with a member whom the owner bans, kicks and promotes.
use mathlib.Core.Path.{subst}
use meshserver.Base.{ℕ, ◌≡◌, ◌≢◌, refl, true, false, some, [], ◌∷◌, arith}
use meshserver.Base.Tables.{find, count, update_where, delete_where}
use meshserver.Base.Text.{codes, trim_space, is_space, trim_left}
use meshserver.Base.Errors.{Error}
use meshserver.Base.Exec.{ok, err, ◌>>=◌, guard, or_err}
use meshserver.Model.Enums.{Visibility, Role}
use meshserver.Model.Rows.{Space, Membership}
use meshserver.Model.Database.{Database}
use meshserver.Store.Spaces.Writes.{
  find_space, find_member, insert_membership, set_membership, delete_membership,
  refresh_aggregate_counts,
}
use meshserver.Store.Spaces.Queries.{get_by_space_id, get_member_role}
use meshserver.Store.Spaces.Members.{
  CreateSpaceInput, add_membership, create_space_body, create_space, add_to_space,
  add_space_member_body, add_space_member, join_space, kick_space_member_body, kick_space_member,
  ban_in_space, ban_space_member_body, ban_space_member, unban_space_member, new_membership,
  new_space,
}
use meshserver.Store.Spaces.Roles.{set_space_member_role}
use meshserver.Store.Spaces.Ownership.{IsOwned}
use meshserver.Store.Spaces.Ownership.Steps.{creates, joins, bans, sets_role, after, after-IsOwned}
use meshserver.Store.Spaces.Moderation.{HasUniqueMembers}
use meshserver.Store.Spaces.Moderation.Members.{
  get_member_role-ban_space_member, get_member_role-kick_space_member,
}
use meshserver.Store.Spaces.Moderation.LockedSpace.{set_space_member_role-locks}
use meshserver.Store.Spaces.Moderation.Access.{get_permission-ban_space_member}
use meshserver.Store.Channels.{all_permissions, get_permission}
use meshserver.Tests.Data.{empty, channelled}

abbrev pub home : CreateSpaceInput
home = record {
  host_node_id = 1;
  creator_user_id = 7;
  name = codes "home";
  description = [];
  visibility = Visibility.public;
  allow_channel_creation = true;
}

empty-IsOwned : IsOwned empty
unfolding find
empty-IsOwned = record {
  fresh_space = λ sid h. refl;
  fresh_member = λ sid uid h. refl;
  owner_holds = λ sid o e. cc e;
  owner_only = λ sid uid o e h. cc e;
}

-- The space of user 7.
abbrev pub lone : Database
lone = record empty {
  servers = new_space 5 home 1 ∷ [];
  server_members = new_membership 5 1 1 7 Role.owner false ∷ [];
  next_space_id = 2;
  next_member_id = 2;
}

lone_is : after 5 (creates home) empty ≡ lone
unfolding after create_space create_space_body add_membership insert_membership
    refresh_aggregate_counts get_by_space_id trim_space trim_left is_space find count update_where
    or_err guard ◌>>=◌
lone_is = refl

-- It with member 8.
abbrev pub housed : Database
housed = record lone {
  servers = record (new_space 6 home 1) { member_count = 2; created_at = 5 } ∷ [];
  server_members =
      new_membership 5 1 1 7 Role.owner false ∷ new_membership 6 2 1 8 Role.member false ∷ [];
  next_member_id = 3;
}

housed_is : after 6 (joins 1 8) lone ≡ housed
unfolding after join_space add_space_member add_space_member_body add_to_space add_membership
    insert_membership refresh_aggregate_counts get_by_space_id find count update_where or_err guard
    ◌>>=◌
housed_is = refl

lone-IsOwned : IsOwned lone
lone-IsOwned =
    subst IsOwned lone_is (after-IsOwned 5 (creates home) empty (omega arith) empty-IsOwned)

pub housed-IsOwned : IsOwned housed
housed-IsOwned =
    subst IsOwned housed_is (after-IsOwned 6 (joins 1 8) lone (omega arith) lone-IsOwned)

after-IsOwned_example : IsOwned (after 9 (sets_role 1 8 Role.owner) housed)
after-IsOwned_example =
    after-IsOwned 9 (sets_role 1 8 Role.owner) housed (omega arith) housed-IsOwned

housed-HasUniqueMembers : HasUniqueMembers housed
unfolding count
housed-HasUniqueMembers s u = ground arith

abbrev counted : ℕ → ℕ → Space
counted now n = record (new_space now home 1) { member_count = n; created_at = 5 }

ban_done : (ban_space_member 9 1 8 housed).0 ≡ ok (counted 9 1)
unfolding ban_space_member ban_space_member_body ban_in_space set_membership
    refresh_aggregate_counts get_by_space_id find count update_where or_err guard ◌>>=◌
ban_done = refl

get_member_role-ban_space_member_example :
    get_member_role 1 8 (ban_space_member 9 1 8 housed).1 ≡ err Error.not_found
get_member_role-ban_space_member_example =
    get_member_role-ban_space_member 9 1 8 housed (counted 9 1) housed-HasUniqueMembers ban_done

kick_done : (kick_space_member 9 1 8 housed).0 ≡ ok (counted 9 1)
unfolding kick_space_member kick_space_member_body delete_membership refresh_aggregate_counts
    get_by_space_id find count update_where delete_where or_err guard ◌>>=◌
kick_done = refl

get_member_role-kick_space_member_example :
    get_member_role 1 8 (kick_space_member 9 1 8 housed).1 ≡ err Error.not_found
get_member_role-kick_space_member_example =
    get_member_role-kick_space_member 9 1 8 housed (counted 9 1) kick_done

-- Member 8 banned.
abbrev banned_row : Membership
banned_row = record (new_membership 6 2 1 8 Role.member true) { updated_at = 9 }

abbrev barred : Database
barred = record housed {
  servers = counted 9 1 ∷ [];
  server_members = new_membership 5 1 1 7 Role.owner false ∷ banned_row ∷ [];
}

barred_is : after 9 (bans 1 8) housed ≡ barred
unfolding after ban_space_member ban_space_member_body ban_in_space set_membership
    refresh_aggregate_counts get_by_space_id find count update_where or_err guard ◌>>=◌
barred_is = refl

barred-IsOwned : IsOwned barred
barred-IsOwned =
    subst IsOwned barred_is (after-IsOwned 9 (bans 1 8) housed (omega arith) housed-IsOwned)

barred-HasUniqueMembers : HasUniqueMembers barred
unfolding count
barred-HasUniqueMembers s u = ground arith

space_here : find_space 1 barred ≡ some (counted 9 1)
unfolding find
space_here = refl

banned_here : find_member 1 8 barred ≡ some banned_row
unfolding find
banned_here = refl

set_space_member_role-locks_example :
    ((set_space_member_role 12 1 8 Role.owner barred).0 ≡ ok tt)
    × ((u : ℕ)
        → get_member_role 1 u (set_space_member_role 12 1 8 Role.owner barred).1 ≢ ok Role.owner)
    × ((later : ℕ)
        → (unban_space_member later 1 8 (set_space_member_role 12 1 8 Role.owner barred).1).0
          ≡ err Error.owner_cannot_be_unbanned)
set_space_member_role-locks_example =
    set_space_member_role-locks 12 1 8 barred (counted 9 1) banned_row space_here banned_here refl
      (λ e. omega (arith, e)) barred-IsOwned barred-HasUniqueMembers

-- A space of user 1, in which the administrator 2 has created a channel.
abbrev administered : Database
administered = record channelled {
  server_members =
      new_membership 5 1 1 1 Role.owner false ∷ new_membership 6 2 1 2 Role.admin false ∷ [];
  channel_members =
      record {
        channel_id = 1;
        user_id = 2;
        permission = all_permissions;
        joined_at = 0;
        created_at = 0;
        updated_at = 0;
      }
      ∷ [];
}

get_permission-ban_space_member_example :
    get_permission 1 2 (ban_space_member 9 1 2 administered).1 ≡ get_permission 1 2 administered
get_permission-ban_space_member_example = get_permission-ban_space_member 9 1 2 1 2 administered

administrator_may_send : get_permission 1 2 administered ≡ ok all_permissions
unfolding get_permission find or_err ◌>>=◌
administrator_may_send = refl
