-- ===== src/Store/Messages/Cleanup.antt =====
-- internal/repository/mysql/message.go: how much `CleanupExpiredMessages` deletes.
use meshserver.Base.{
  ℕ, ◌+◌, ◌≤◌, ◌≡◌, refl, List, [], ◌∷◌, arith, ◌==◌, length, length-take, Bool-cases, inl, inr,
}
use meshserver.Base.Tables.{count, update_where}
use meshserver.Model.Enums.{is_normal}
use meshserver.Model.Rows.{Message}
use meshserver.Model.Database.{Database}
use meshserver.Store.Messages.{
  is_live, set_deleted, Progress, delete_row, delete_rows, expired_rows, no_counts, after_cleanup,
  cleanup_limit, cleanup_expired_messages,
}

-- The messages of a table that are not deleted.
abbrev pub live : List Message → ℕ
live = count (λ m. is_normal m.status)

live-set_deleted :
    (now id : ℕ) (ms : List Message)
    → live (update_where (is_live id) (set_deleted now) ms) + count (is_live id) ms ≡ live ms
unfolding count update_where
live-set_deleted now id [] = omega arith
live-set_deleted now id (m ∷ ms) = ground (arith, live-set_deleted now id ms)

-- The primary key.
abbrev pub HasUniqueIds : List Message → Type 0
HasUniqueIds ms = (id : ℕ) → count (λ m. m.id == id) ms ≤ 1

count-is_live : (id : ℕ) (ms : List Message) → count (is_live id) ms ≤ count (λ m. m.id == id) ms
unfolding count
count-is_live id [] = omega arith
count-is_live id (m ∷ ms) = ground (arith, count-is_live id ms)

-- The UPDATE leaves the ids.
count-set_deleted :
    (now id : ℕ) (ms : List Message) (k : ℕ)
    → count (λ m. m.id == k) (update_where (is_live id) (set_deleted now) ms)
      ≡ count (λ m. m.id == k) ms
unfolding count update_where
count-set_deleted now id [] k = refl
count-set_deleted now id (m ∷ ms) k = ground (arith, count-set_deleted now id ms k)

-- One turn of the loop counts just the message that the table loses.
live-delete_row :
    (now : ℕ) (row : Message) (p : Progress)
    → HasUniqueIds p.table
    → ((delete_row now row p).total + live (delete_row now row p).table ≡ p.total + live p.table)
      × ((delete_row now row p).total ≤ p.total + 1)
      × HasUniqueIds (delete_row now row p).table
unfolding delete_row
live-delete_row now row p unique = elim (Bool-cases (count (is_live row.id) p.table == 0)) [
  | inl e ↦ rw e (omega arith, omega arith, unique)
  | inr e ↦ rw e (
    ground (
      arith,
      e,
      live-set_deleted now row.id p.table,
      count-is_live row.id p.table,
      unique row.id,
    ),
    omega arith,
    λ k. rw (count-set_deleted now row.id p.table k) (unique k),
  )
]

live-delete_rows :
    (now : ℕ) (rows : List Message) (p : Progress)
    → HasUniqueIds p.table
    → ((delete_rows now rows p).total + live (delete_rows now rows p).table
        ≡ p.total + live p.table)
      × ((delete_rows now rows p).total ≤ p.total + length rows)
unfolding delete_rows
live-delete_rows now [] p unique = (omega arith, omega arith)
live-delete_rows now (row ∷ rows) p unique =
    let (a, b, unique') = live-delete_row now row p unique in
    let (c, d) = live-delete_rows now rows (delete_row now row p) unique' in
    (omega arith, omega arith)

-- Where ids are unique, as the primary key has it, one run of the cleanup deletes exactly as many
-- messages as the number it returns, and that number is at most its limit.
pub live-cleanup_expired_messages :
    (now limit : ℕ) (db : Database)
    → HasUniqueIds db.messages
    → ((cleanup_expired_messages now limit db).0
          + live (cleanup_expired_messages now limit db).1.messages
        ≡ live db.messages)
      × ((cleanup_expired_messages now limit db).0 ≤ cleanup_limit limit)
unfolding cleanup_expired_messages after_cleanup
live-cleanup_expired_messages now limit db unique =
    let (a, b) =
      live-delete_rows now (expired_rows now limit db)
        (record { total = 0; deleted_by_channel = no_counts; table = db.messages }) unique in
    (omega (arith, a), omega (arith, b, short))
  where
    short : length (expired_rows now limit db) ≤ cleanup_limit limit
    short = unfold expired_rows in rw (length-take (cleanup_limit limit) _) (omega arith)
