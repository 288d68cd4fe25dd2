-- ===== src/Store/Spaces/Counts.antt =====
-- internal/repository/mysql/server.go and bootstrap.go: the stored `member_count` of a space is the
-- number of its members that are not banned.
pub mod Steps
use mathlib.Core.Option
use meshserver.Base.{
  ℕ, ◌+◌, ◌<◌, ◌≤◌, ◌^◌, ◌≡◌, ◌≢◌, refl, sym, ◌∙◌, ap, Bool, true, false, not, ◌&&◌, Option, none,
  some, arith, ◌==◌, if◌then◌else◌, Bool-cases, Option-cases, inl, inr,
}
use meshserver.Base.Tables.{
  find, count, update_where, delete_where, insert, find-insert, find-update_where, count-insert,
  count-update_where, count-delete_where_ne,
}
use meshserver.Base.Exec.{
  ok, guard-ok, or_err-ok, ok-committed, transaction, transaction-keeps, reads-keeps,
}
use meshserver.Model.Enums.{Role}
use meshserver.Model.Rows.{Space, Membership}
use meshserver.Model.Database.{Database}
use meshserver.Store.Spaces.Writes.{
  has_space_id, is_membership_of, is_active_in, is_open_channel_of, find_space, find_member,
  active_members, insert_membership, set_membership, delete_membership, set_space,
  refresh_aggregate_counts,
}
use meshserver.Store.Spaces.Views.{find_space-id}

abbrev pub IsCounted : Database → Type 0
IsCounted db =
    (sid : ℕ) (space : Space)
    → find_space sid db ≡ some space
    → space.member_count ≡ active_members sid db

-- Recounting one space mends it, and leaves the others, if their members did not change.
pub refresh-IsCounted :
    (now s : ℕ) (before db : Database)
    → IsCounted before
    → ((sid : ℕ) → sid ≢ s → find_space sid db ≡ find_space sid before)
    → ((sid : ℕ) → sid ≢ s → active_members sid db ≡ active_members sid before)
    → IsCounted (refresh_aggregate_counts now s db)
unfolding refresh_aggregate_counts
refresh-IsCounted now s before db v same others sid space e =
    elim (Option-cases (find_space sid db)) [
      | inl none_here ↦ ground (arith, found, none_here)
      | inr (x, here) ↦ elim (Bool-cases (sid == s)) [
        | inl p ↦
            let eq : sid ≡ s = ground arith in
            ground
              (arith, found, here, find_space-id sid db here, p, ap (λ i. active_members i db) eq)
        | inr p ↦
            let ne : sid ≢ s = ground arith in
            let kept : x.member_count ≡ active_members sid before =
              v sid x (sym (same sid ne) ∙ here) in
            ground (arith, found, here, find_space-id sid db here, p, kept, others sid ne)
      ]
    ]
  where
    refreshed : Space → Space
    refreshed x = record x {
      member_count = active_members s db;
      channel_count = count (is_open_channel_of s) db.channels;
      updated_at = now;
    }

    found :
        Option.map (λ x. if has_space_id s x then refreshed x else x) (find_space sid db)
        ≡ some space
    found =
        sym (find-update_where (has_space_id sid) (has_space_id s) refreshed db.servers (λ x. refl))
        ∙ e

module _ (sid s u : ℕ) (db : Database) (other : sid ≢ s) where
  pub active_members-insert :
      (m : Membership)
      → m.space_id ≡ s
      → active_members sid (insert_membership m db) ≡ active_members sid db
  unfolding insert_membership
  active_members-insert m e =
      count-insert (is_active_in sid) m db.server_members ∙ ground (arith, other, e)

  pub active_members-set :
      (f : Membership → Membership)
      → ((m : Membership) → (f m).space_id ≡ m.space_id)
      → active_members sid (set_membership s u f db) ≡ active_members sid db
  unfolding set_membership
  active_members-set f hs =
      count-update_where (is_active_in sid) (is_membership_of s u) f db.server_members
        (λ m h. ground (arith, hs m, other))

  pub active_members-delete : active_members sid (delete_membership s u db) ≡ active_members sid db
  unfolding delete_membership
  active_members-delete =
      count-delete_where_ne (is_active_in sid) (is_membership_of s u) db.server_members
        (λ m h. ground (arith, other))

-- A change of roles changes no count.
pub active_members-set_role :
    (sid s u : ℕ) (db : Database) (f : Membership → Membership)
    → ((m : Membership) → (f m).space_id ≡ m.space_id)
    → ((m : Membership) → (f m).is_banned ≡ m.is_banned)
    → active_members sid (set_membership s u f db) ≡ active_members sid db
unfolding set_membership
active_members-set_role sid s u db f hs hb =
    count-update_where (is_active_in sid) (is_membership_of s u) f db.server_members
      (λ m h. ground (arith, hs m, hb m))
