-- ===== src/Tests/Bootstrap.antt =====
-- A start whose configured administrator was banned, and one that finds the space.
use meshserver.Base.{◌≡◌, refl, true, false, some, [], ◌∷◌, arith}
use meshserver.Base.Tables.{find, count}
use meshserver.Base.Text.{codes, trim_space, trim_left, is_space, text_eq}
use meshserver.Base.Errors.{Error}
use meshserver.Base.Exec.{err}
use meshserver.Model.Enums.{Role}
use meshserver.Model.Rows.{Membership}
use meshserver.Model.Database.{Database}
use meshserver.Store.Spaces.Members.{new_membership, new_space}
use meshserver.Store.Spaces.Ownership.{IsOwned}
use meshserver.Store.Spaces.Moderation.{HasUniqueMembers}
use meshserver.Store.Bootstrap.{bootstrap_default_admin}
use meshserver.Store.Bootstrap.Admin.{bootstrap_default_admin-IsOwned}
use meshserver.Store.Bootstrap.Barred.{bootstrap_default_admin-banned}
use meshserver.Tests.Data.{user}
use meshserver.Tests.Spaces.{home, housed, housed-IsOwned}

bootstrap_default_admin-IsOwned_example :
    IsOwned (bootstrap_default_admin (λ t. some t) 9 (codes "u") (codes "ann") 1 housed).1
bootstrap_default_admin-IsOwned_example =
    bootstrap_default_admin-IsOwned 9 (λ t. some t) (codes "u") (codes "ann") 1 housed (omega arith)
      housed-IsOwned

-- Member 8 is banned.
abbrev barred : Membership
barred = record (new_membership 6 2 1 8 Role.member false) { is_banned = true }

abbrev barring : Database
barring = record housed {
  users = user 8 (codes "bob") ∷ [];
  server_members = new_membership 5 1 1 7 Role.owner false ∷ barred ∷ [];
}

barring_unique : HasUniqueMembers barring
unfolding count
barring_unique s u = ground arith

bootstrap_default_admin-banned_example :
    (bootstrap_default_admin (λ t. some t) 9 (codes "u") (codes " bob ") 1 barring).0
    ≡ err Error.user_is_banned
unfolding find trim_space trim_left is_space text_eq
bootstrap_default_admin-banned_example =
    bootstrap_default_admin-banned (λ t. some t) 9 (codes "u") (codes " bob ") (codes "bob") 1
      barring (user 8 (codes "bob"))
      (record (new_space 6 home 1) { member_count = 2; created_at = 5 }) barred refl refl refl refl
      barring_unique refl refl refl
