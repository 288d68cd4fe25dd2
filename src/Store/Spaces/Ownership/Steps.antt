-- ===== src/Store/Spaces/Ownership/Steps.antt =====
-- Every call on spaces and roles, in any order, keeps the ownership of each space.
use meshserver.Base.{ℕ, ◌<◌, ◌^◌, Bool}
use meshserver.Base.Exec.{transaction, transaction-keeps, reads-keeps}
use meshserver.Model.Enums.{Role}
use meshserver.Model.Database.{Database}
use meshserver.Store.Spaces.Queries.{get_by_space_id}
use meshserver.Store.Spaces.Members.{
  CreateSpaceInput, create_space_body, create_space, add_space_member_body, add_space_member,
  join_space, invite_space_member, kick_space_member_body, kick_space_member, ban_space_member_body,
  ban_space_member, unban_space_member_body, unban_space_member,
}
use meshserver.Store.Spaces.Roles.{set_space_member_role_body, set_space_member_role}
use meshserver.Store.Spaces.Ownership.{IsOwned}
use meshserver.Store.Spaces.Ownership.Calls.{
  add_space_member_body-IsOwned, kick_body-IsOwned, ban_body-IsOwned, unban_body-IsOwned,
  create_body-IsOwned,
}
use meshserver.Store.Spaces.Ownership.Transfer.{set_role_body-IsOwned}

pub data SpaceCall : Type 0 where
  creates : CreateSpaceInput → SpaceCall
  joins invites kicks bans unbans : ℕ → ℕ → SpaceCall
  sets_role : ℕ → ℕ → Role → SpaceCall

-- What a call leaves in the database, whether it returns an error or not.
unfoldable pub after : ℕ → SpaceCall → Database → Database
unfolding create_space join_space invite_space_member kick_space_member ban_space_member
    unban_space_member set_space_member_role
after now (creates in_) db = (create_space now in_ db).1
after now (joins s u) db = (join_space now s u db).1
after now (invites s u) db = (invite_space_member now s u db).1
after now (kicks s u) db = (kick_space_member now s u db).1
after now (bans s u) db = (ban_space_member now s u db).1
after now (unbans s u) db = (unban_space_member now s u db).1
after now (sets_role s u r) db = (set_space_member_role now s u r db).1

added-IsOwned :
    (now s u : ℕ) (po : Bool) (db : Database)
    → IsOwned db
    → IsOwned (add_space_member now s u po db).1
unfolding add_space_member
added-IsOwned now s u po db v =
    reads-keeps IsOwned (transaction (add_space_member_body now s u po)) get_by_space_id db (
      transaction-keeps IsOwned (add_space_member_body now s u po) db v
        (add_space_member_body-IsOwned now db v s u po))

-- While the next space id is below 2 ^ 32, every call, with an error or without, keeps the tables
-- owned: the user whom a space's row names as its owner has the owner's role there and nobody else
-- has it, and no row uses a space id that is still to be given out.
pub after-IsOwned :
    (now : ℕ) (call : SpaceCall) (db : Database)
    → db.next_space_id < 2 ^ 32
    → IsOwned db
    → IsOwned (after now call db)
unfolding after create_space join_space invite_space_member add_space_member kick_space_member
    ban_space_member unban_space_member set_space_member_role
after-IsOwned now (creates in_) db room v =
    reads-keeps IsOwned (transaction (create_space_body now in_)) get_by_space_id db (
      transaction-keeps IsOwned (create_space_body now in_) db v
        (λ x db'. create_body-IsOwned now db v in_ x db' room))
after-IsOwned now (joins s u) db room v = added-IsOwned now s u _ db v
after-IsOwned now (invites s u) db room v = added-IsOwned now s u _ db v
after-IsOwned now (kicks s u) db room v =
    reads-keeps IsOwned (transaction (kick_space_member_body now s u)) get_by_space_id db (
      transaction-keeps IsOwned (kick_space_member_body now s u) db v
        (kick_body-IsOwned now db v s u))
after-IsOwned now (bans s u) db room v =
    reads-keeps IsOwned (transaction (ban_space_member_body now s u)) get_by_space_id db (
      transaction-keeps IsOwned (ban_space_member_body now s u) db v
        (ban_body-IsOwned now db v s u))
after-IsOwned now (unbans s u) db room v =
    reads-keeps IsOwned (transaction (unban_space_member_body now s u)) get_by_space_id db (
      transaction-keeps IsOwned (unban_space_member_body now s u) db v
        (unban_body-IsOwned now db v s u))
after-IsOwned now (sets_role s u r) db room v =
    transaction-keeps IsOwned (set_space_member_role_body now s u r) db v
      (set_role_body-IsOwned now db v s u r)
