-- ===== src/Store/Spaces/Views.antt =====
-- What each statement on spaces and memberships changes, read through the owner of a space, the
-- role of a member, whether a member is banned, and the number of active members.
use mathlib.Core.Option
use meshserver.Base.{
  ℕ, ◌≡◌, refl, Bool, false, ◌&&◌, Option, none, some, arith, ◌==◌, if◌then◌else◌, Bool-cases,
  Option-cases, inl, inr,
}
use meshserver.Base.Tables.{
  find, count, update_where, or_else, find-insert, find-update_where, find-delete_where_ne,
  find-delete_where_all, find-holds,
}
use meshserver.Model.Enums.{Role}
use meshserver.Model.Rows.{Space, Membership}
use meshserver.Model.Database.{Database}
use meshserver.Store.Spaces.Writes.{
  has_space_id, is_open_channel_of, is_membership_of, find_space, find_member, active_members,
  insert_membership, set_membership, delete_membership, set_space, refresh_aggregate_counts,
}

abbrev pub owner_of : ℕ → Database → Option ℕ
owner_of space_id db = Option.map (λ s. s.owner_user_id) (find_space space_id db)

abbrev pub role_of : ℕ → ℕ → Database → Option Role
role_of space_id user_id db = Option.map (λ m. m.role) (find_member space_id user_id db)

abbrev pub banned_of : ℕ → ℕ → Database → Option Bool
banned_of space_id user_id db = Option.map (λ m. m.is_banned) (find_member space_id user_id db)

abbrev pub same_member : ℕ → ℕ → ℕ → ℕ → Bool
same_member s u s' u' = (s == s') && (u == u')

module _ (sid uid s u : ℕ) (db : Database) where
  pub find_member-insert :
      (m : Membership)
      → find_member sid uid (insert_membership m db)
        ≡ or_else (find_member sid uid db) (if is_membership_of sid uid m then some m else none)
  unfolding insert_membership
  find_member-insert m = find-insert (is_membership_of sid uid) m db.server_members

  pub find_member-set :
      (f : Membership → Membership)
      → ((m : Membership) → (f m).space_id ≡ m.space_id)
      → ((m : Membership) → (f m).user_id ≡ m.user_id)
      → find_member sid uid (set_membership s u f db)
        ≡ Option.map (λ m. if is_membership_of s u m then f m else m) (find_member sid uid db)
  unfolding set_membership
  find_member-set f hs hu =
      find-update_where (is_membership_of sid uid) (is_membership_of s u) f db.server_members
        (λ m. ground (arith, hs m, hu m))

  pub find_member-delete :
      find_member sid uid (delete_membership s u db)
      ≡ (if same_member sid uid s u then none else find_member sid uid db)
  unfolding delete_membership
  find_member-delete = elim (Bool-cases (same_member sid uid s u)) [
    | inl e ↦ rw e (
        find-delete_where_all (is_membership_of sid uid) (is_membership_of s u) db.server_members
          (λ m p. ground arith))
    | inr e ↦ rw e (
        find-delete_where_ne (is_membership_of sid uid) (is_membership_of s u) db.server_members
          (λ m p. ground arith))
  ]

  pub role_of-insert :
      (m : Membership)
      → find_member sid uid db ≡ none
      → role_of sid uid (insert_membership m db)
        ≡ (if is_membership_of sid uid m then some m.role else none)
  role_of-insert m e = rw (find_member-insert m, e) (ground arith)

  pub role_of-insert_ne :
      (m : Membership)
      → is_membership_of sid uid m ≡ false
      → role_of sid uid (insert_membership m db) ≡ role_of sid uid db
  role_of-insert_ne m e = rw (find_member-insert m, e) (ground arith)

  pub role_of-delete :
      role_of sid uid (delete_membership s u db)
      ≡ (if same_member sid uid s u then none else role_of sid uid db)
  role_of-delete = rw find_member-delete (ground arith)

-- The row that a query finds has the key that it asked for.
pub find_member-key :
    (sid uid : ℕ) (db : Database) {m : Membership}
    → find_member sid uid db ≡ some m
    → (m.space_id ≡ sid) × (m.user_id ≡ uid)
find_member-key sid uid db e =
    ground (arith, find-holds (is_membership_of sid uid) db.server_members e)

pub find_space-id : (sid : ℕ) (db : Database) {s : Space} → find_space sid db ≡ some s → s.id ≡ sid
find_space-id sid db e = ground (arith, find-holds (has_space_id sid) db.servers e)

module _ (sid uid s u : ℕ) (db : Database) (f : Membership → Membership) (r : Role)
    (hs : (m : Membership) → (f m).space_id ≡ m.space_id)
    (hu : (m : Membership) → (f m).user_id ≡ m.user_id) where
  pub role_of-set :
      ((m : Membership) → (f m).role ≡ r)
      → role_of sid uid (set_membership s u f db) ≡ (
          if same_member sid uid s u
          then Option.map (λ _. r) (role_of sid uid db)
          else role_of sid uid db)
  role_of-set hr = elim (Option-cases (find_member sid uid db)) [
    | inl e ↦ rw (find_member-set sid uid s u db f hs hu, e) (ground arith)
    | inr (m, e) ↦
        rw (find_member-set sid uid s u db f hs hu, e)
          (ground (arith, find_member-key sid uid db e, hr m))
  ]

  pub role_of-set_same :
      ((m : Membership) → (f m).role ≡ m.role)
      → role_of sid uid (set_membership s u f db) ≡ role_of sid uid db
  role_of-set_same hr = elim (Option-cases (find_member sid uid db)) [
    | inl e ↦ rw (find_member-set sid uid s u db f hs hu, e) (ground arith)
    | inr (m, e) ↦ rw (find_member-set sid uid s u db f hs hu, e) (ground (arith, hr m))
  ]

module _ (sid : ℕ) (db : Database) where
  pub owner_of-refresh :
      (now s : ℕ) → owner_of sid (refresh_aggregate_counts now s db) ≡ owner_of sid db
  unfolding refresh_aggregate_counts
  owner_of-refresh now s = rw find_refreshed (ground arith)
    where
      refreshed : Space → Space
      refreshed x = record x {
        member_count = active_members s db;
        channel_count = count (is_open_channel_of s) db.channels;
        updated_at = now;
      }

      find_refreshed :
          find (has_space_id sid) (update_where (has_space_id s) refreshed db.servers)
          ≡ Option.map (λ x. if has_space_id s x then refreshed x else x) (find_space sid db)
      find_refreshed =
          find-update_where (has_space_id sid) (has_space_id s) refreshed db.servers (λ x. refl)

  pub owner_of-set_space :
      (s : ℕ) (f : Space → Space) (o : ℕ)
      → ((x : Space) → (f x).id ≡ x.id)
      → ((x : Space) → (f x).owner_user_id ≡ o)
      → owner_of sid (set_space s f db)
        ≡ (if sid == s then Option.map (λ _. o) (owner_of sid db) else owner_of sid db)
  unfolding set_space
  owner_of-set_space s f o hi ho = elim (Option-cases (find_space sid db)) [
    | inl e ↦
        rw
          (
            find-update_where (has_space_id sid) (has_space_id s) f db.servers
                (λ x. ground (arith, hi x)),
            e,
          )
          (ground arith)
    | inr (x, e) ↦
        rw
          (
            find-update_where (has_space_id sid) (has_space_id s) f db.servers
                (λ x. ground (arith, hi x)),
            e,
          )
          (ground (arith, find_space-id sid db e, ho x))
  ]
