-- ===== src/Store/Spaces/Moderation/Access.antt =====
-- A ban in a space and the access to its channels.
use mathlib.Core.Option
use meshserver.Base.{
  ℕ, ◌≡◌, refl, ◌∙◌, ap, Bool, ◌&&◌, Option, none, some, List, [], ◌∷◌, arith, ◌==◌, if◌then◌else◌,
  Bool-cases, inl, inr,
}
use meshserver.Base.Tables.{find, find-update_where}
use meshserver.Base.Errors.{Error}
use meshserver.Base.Exec.{
  ok, ◌>>=◌, or_err, or_err-ok, guard-ok, ok-committed, transaction, transaction-keeps, reads-keeps,
}
use meshserver.Model.Rows.{Space, Membership, Channel, ChannelMember}
use meshserver.Model.Database.{Database}
use meshserver.Store.Direct.Conversations.{is_some}
use meshserver.Store.Spaces.Writes.{
  find_member, refresh_aggregate_counts, insert_membership, set_membership,
}
use meshserver.Store.Spaces.Queries.{get_by_space_id}
use meshserver.Store.Spaces.Members.{
  add_membership, ban_in_space, ban_space_member_body, ban_space_member,
}
use meshserver.Store.Messages.{is_known_channel}
use meshserver.Store.Channels.{is_channel_member, get_permission}

-- The same members of channels, and the same channels by their ids.
record SameAccess (d db : Database) : Type 0 where
  members : d.channel_members ≡ db.channel_members
  known : (i : ℕ) → is_known_channel i d ≡ is_known_channel i db

is_some-map :
    (q : Channel → Bool) (f : Channel → Channel) (o : Option Channel)
    → is_some (Option.map (λ x. if q x then f x else x) o) ≡ is_some o
is_some-map q f none = refl
is_some-map q f (some c) = refl

refresh-SameAccess :
    (now s : ℕ) (d db : Database)
    → SameAccess d db
    → SameAccess (refresh_aggregate_counts now s d) db
unfolding refresh_aggregate_counts
refresh-SameAccess now s d db h = record {
  members = h.members;
  known = λ i.
      ap is_some
        (find-update_where (λ c. c.id == i) (λ c. c.space_id == s) _ d.channels (λ x. refl))
      ∙ is_some-map (λ c. c.space_id == s) _ (find (λ c. c.id == i) d.channels)
      ∙ h.known i;
}

ban_in_space-SameAccess :
    (now u : ℕ) (space : Space) (o : Option Membership) (db : Database)
    → SameAccess (ban_in_space now u space o db) db
unfolding ban_in_space
ban_in_space-SameAccess now u space none db =
    refresh-SameAccess now space.id _ db
      (unfold add_membership insert_membership in record { members = refl; known = λ i. refl })
ban_in_space-SameAccess now u space (some m) db = elim (Bool-cases m.is_banned) [
  | inl b ↦ rw b (record { members = refl; known = λ i. refl })
  | inr b ↦ rw b (
      refresh-SameAccess now space.id _ db
        (unfold set_membership in record { members = refl; known = λ i. refl }))
]

find-ext :
    (p q : ChannelMember → Bool) (ms : List ChannelMember)
    → ((m : ChannelMember) → p m ≡ q m)
    → find p ms ≡ find q ms
unfolding find
find-ext p q [] h = refl
find-ext p q (m ∷ ms) h = ground (arith, h m, find-ext p q ms h)

get_permission-SameAccess :
    (channel_id u : ℕ) (d db : Database)
    → SameAccess d db
    → get_permission channel_id u d ≡ get_permission channel_id u db
unfolding get_permission
get_permission-SameAccess channel_id u d db h =
    ap (λ o. or_err o Error.not_found >>= λ (m : ChannelMember). ok m.permission)
      (ap (find (λ m. is_channel_member channel_id u m && is_known_channel m.channel_id d))
          h.members
        ∙ find-ext _ _ db.channel_members
            (λ m. ap (λ b. is_channel_member channel_id u m && b) (h.known m.channel_id)))

-- A ban leaves every user's permission in every channel as it was, the banned user's in the channels
-- of the space too.
pub get_permission-ban_space_member :
    (now s u channel_id user_id : ℕ) (db : Database)
    → get_permission channel_id user_id (ban_space_member now s u db).1
      ≡ get_permission channel_id user_id db
unfolding ban_space_member
get_permission-ban_space_member now s u channel_id user_id db =
    get_permission-SameAccess channel_id user_id _ db (
      reads-keeps (λ d. SameAccess d db) (transaction (ban_space_member_body now s u))
        get_by_space_id db
        (transaction-keeps (λ d. SameAccess d db) (ban_space_member_body now s u) db
          (record { members = refl; known = λ i. refl }) kept))
  where
    kept : (x : ℕ) (d : Database) → ban_space_member_body now s u db ≡ ok (x, d) → SameAccess d db
    kept x d e =
        unfold ban_space_member_body in
        let (found, here, h1) = or_err-ok _ _ _ e in
        ok-committed (λ d. SameAccess d db) (guard-ok _ _ _ h1).1
          (ban_in_space-SameAccess now u found (find_member found.id u db) db)
