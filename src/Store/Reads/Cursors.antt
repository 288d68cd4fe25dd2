-- ===== src/Store/Reads/Cursors.antt =====
-- internal/repository/mysql/read_and_auth.go: the read cursors under any sequence of reports.
use mathlib.Core.Option
use meshserver.Base.{
  ℕ, ◌≡◌, refl, ◌∙◌, ap, Bool, true, false, ◌&&◌, Option, none, some, List, [], ◌∷◌, arith, ◌==◌,
  max, if◌then◌else◌, Bool-cases, Option-cases, inl, inr,
}
use meshserver.Base.Tables.{or_else, find-insert, find-update_where, find-holds}
use meshserver.Model.Rows.{ReadCursor}
use meshserver.Model.Database.{Database}
use meshserver.Store.Direct.Conversations.{is_some}
use meshserver.Store.Reads.{
  is_cursor_of, new_cursor, find_cursor, upsert_cursor, channel_exists, raise_delivered, raise_read,
  upsert_delivered_seq, upsert_read_seq,
}

-- A report of a client: the user, the channel and the sequence number, delivered or read.
pub data Report : Type 0 where
  delivered read : ℕ → ℕ → ℕ → ℕ → Report

unfoldable pub report : Report → Database → Database
report (Report.delivered now user_id channel_id seq) =
    upsert_delivered_seq now user_id channel_id seq
report (Report.read now user_id channel_id seq) = upsert_read_seq now user_id channel_id seq

unfoldable pub reports : List Report → Database → Database
reports [] db = db
reports (r ∷ rs) db = reports rs (report r db)

-- The two numbers of a cursor; both are 0 while there is no row.
abbrev pub cursor_of : Option ReadCursor → ℕ × ℕ
cursor_of none = (0, 0)
cursor_of (some r) = (r.last_delivered_seq, r.last_read_seq)

abbrev concerns : ℕ → ℕ → ℕ → ℕ → Bool
concerns user_id channel_id u c = (u == user_id) && (c == channel_id)

-- What a cursor should become: the greatest numbers that its user has reported for its channel.
unfoldable pub greatest : ℕ → ℕ → List Report → ℕ × ℕ → ℕ × ℕ
greatest user_id channel_id [] (d, r) = (d, r)
greatest user_id channel_id (Report.delivered now u c seq ∷ rs) (d, r) =
    greatest user_id channel_id rs (if concerns user_id channel_id u c then max d seq else d, r)
greatest user_id channel_id (Report.read now u c seq ∷ rs) (d, r) =
    greatest user_id channel_id rs (d, if concerns user_id channel_id u c then max r seq else r)

abbrev raised : ReadCursor → (ReadCursor → ReadCursor) → Option ReadCursor → ReadCursor
raised new f none = new
raised new f (some r) = f r

-- The upsert of the key that is read: its row is raised, or the new one.
find-upsert_same :
    (new : ReadCursor) (f : ReadCursor → ReadCursor) (db : Database)
    → ((r : ReadCursor)
        → is_cursor_of new.user_id new.channel_id (f r) ≡ is_cursor_of new.user_id new.channel_id r)
    → find_cursor new.user_id new.channel_id (upsert_cursor new f db)
      ≡ some (raised new f (find_cursor new.user_id new.channel_id db))
unfolding upsert_cursor
find-upsert_same new f db keeps = elim (Option-cases (find_cursor new.user_id new.channel_id db)) [
  | inl e ↦ rw e (
      find-insert (is_cursor_of new.user_id new.channel_id) new db.user_channel_reads
      ∙ rw e (ground (arith, own)))
  | inr (r, e) ↦ rw e (
      find-update_where (is_cursor_of new.user_id new.channel_id)
        (is_cursor_of new.user_id new.channel_id) f db.user_channel_reads keeps
      ∙ rw e (
          ground
            (arith, find-holds (is_cursor_of new.user_id new.channel_id) db.user_channel_reads e)))
]
  where
    own : is_cursor_of new.user_id new.channel_id new ≡ true
    own = ground arith

-- The upsert of another key leaves the row as it is.
find-upsert_other :
    (u c : ℕ) (new : ReadCursor) (f : ReadCursor → ReadCursor) (db : Database)
    → concerns u c new.user_id new.channel_id ≡ false
    → ((r : ReadCursor) → is_cursor_of u c (f r) ≡ is_cursor_of u c r)
    → find_cursor u c (upsert_cursor new f db) ≡ find_cursor u c db
unfolding upsert_cursor
find-upsert_other u c new f db other keeps =
    elim (Bool-cases (is_some (find_cursor new.user_id new.channel_id db))) [
      | inl e ↦ rw e (
          find-update_where (is_cursor_of u c) (is_cursor_of new.user_id new.channel_id) f
            db.user_channel_reads keeps
          ∙ untouched (find_cursor u c db) refl)
      | inr e ↦ rw e (
          find-insert (is_cursor_of u c) new db.user_channel_reads
          ∙ rw other (left (find_cursor u c db)))
    ]
  where
    left : (o : Option ReadCursor) → or_else o none ≡ o
    left none = refl
    left (some r) = refl

    untouched :
        (o : Option ReadCursor)
        → find_cursor u c db ≡ o
        → Option.map (λ x. if is_cursor_of new.user_id new.channel_id x then f x else x) o ≡ o
    untouched none e = refl
    untouched (some r) e =
        ground (arith, other, find-holds (is_cursor_of u c) db.user_channel_reads e)

module _ (user_id channel_id : ℕ) where
  channel_exists-report :
      (r : Report) (db : Database)
      → channel_exists channel_id (report r db) ≡ channel_exists channel_id db
  unfolding report upsert_delivered_seq upsert_read_seq upsert_cursor
  channel_exists-report (Report.delivered now u c seq) db =
      elim (Bool-cases (channel_exists c db)) [ inl e ↦ rw e | inr e ↦ rw e ]
  channel_exists-report (Report.read now u c seq) db = elim (Bool-cases (channel_exists c db)) [
    | inl e ↦ rw e
    | inr e ↦ rw e
  ]

  cursor_of-raised :
      (now seq : ℕ) (o : Option ReadCursor)
      → (cursor_of
            (some (raised (new_cursor now user_id channel_id seq 0) (raise_delivered now seq) o))
          ≡ (max (cursor_of o).0 seq, (cursor_of o).1))
        × (cursor_of
              (some (raised (new_cursor now user_id channel_id 0 seq) (raise_read now seq) o))
            ≡ ((cursor_of o).0, max (cursor_of o).1 seq))
  cursor_of-raised now seq none = (ground arith, ground arith)
  cursor_of-raised now seq (some r) = (refl, refl)

  delivered-cursor :
      (now u c seq : ℕ) (db : Database)
      → channel_exists channel_id db ≡ true
      → cursor_of (find_cursor user_id channel_id (upsert_delivered_seq now u c seq db)) ≡ (
        if concerns user_id channel_id u c
            then max (cursor_of (find_cursor user_id channel_id db)).0 seq
            else (cursor_of (find_cursor user_id channel_id db)).0,
        (cursor_of (find_cursor user_id channel_id db)).1,
      )
  unfolding upsert_delivered_seq
  delivered-cursor now u c seq db here = elim (Bool-cases (concerns user_id channel_id u c)) [
    | inl e ↦
        let eu : u ≡ user_id = ground (arith, e) in
        let ec : c ≡ channel_id = ground (arith, e) in
        rw (eu, ec, here)
          (ap cursor_of (
              find-upsert_same (new_cursor now user_id channel_id seq 0) (raise_delivered now seq)
                db (λ r. refl))
            ∙ (cursor_of-raised now seq (find_cursor user_id channel_id db)).0
            ∙ ground arith)
    | inr e ↦ elim (Bool-cases (channel_exists c db)) [
      | inl there ↦
          rw (e, there)
            (ap cursor_of (
              find-upsert_other user_id channel_id (new_cursor now u c seq 0)
                (raise_delivered now seq) db e (λ r. refl)))
      | inr absent ↦ rw (e, absent) refl
    ]
  ]

  read-cursor :
      (now u c seq : ℕ) (db : Database)
      → channel_exists channel_id db ≡ true
      → cursor_of (find_cursor user_id channel_id (upsert_read_seq now u c seq db)) ≡ (
        (cursor_of (find_cursor user_id channel_id db)).0,
        if concerns user_id channel_id u c
            then max (cursor_of (find_cursor user_id channel_id db)).1 seq
            else (cursor_of (find_cursor user_id channel_id db)).1,
      )
  unfolding upsert_read_seq
  read-cursor now u c seq db here = elim (Bool-cases (concerns user_id channel_id u c)) [
    | inl e ↦
        let eu : u ≡ user_id = ground (arith, e) in
        let ec : c ≡ channel_id = ground (arith, e) in
        rw (eu, ec, here)
          (ap cursor_of (
              find-upsert_same (new_cursor now user_id channel_id 0 seq) (raise_read now seq) db
                (λ r. refl))
            ∙ (cursor_of-raised now seq (find_cursor user_id channel_id db)).1
            ∙ ground arith)
    | inr e ↦ elim (Bool-cases (channel_exists c db)) [
      | inl there ↦
          rw (e, there)
            (ap cursor_of (
              find-upsert_other user_id channel_id (new_cursor now u c 0 seq) (raise_read now seq)
                db e (λ r. refl)))
      | inr absent ↦ rw (e, absent) refl
    ]
  ]

  -- After any sequence of reports by any users, in any order, the cursor of a user in a channel that
  -- exists holds the greatest delivered and the greatest read number among what it held before and
  -- what that user reported for that channel.
  pub reports-greatest :
      (rs : List Report) (db : Database)
      → channel_exists channel_id db ≡ true
      → cursor_of (find_cursor user_id channel_id (reports rs db))
        ≡ greatest user_id channel_id rs (cursor_of (find_cursor user_id channel_id db))
  unfolding reports greatest
  reports-greatest [] db here = refl
  reports-greatest (Report.delivered now u c seq ∷ rs) db here =
      reports-greatest rs (report (Report.delivered now u c seq) db)
        (channel_exists-report (Report.delivered now u c seq) db ∙ here)
      ∙ ap (greatest user_id channel_id rs) (unfold report in delivered-cursor now u c seq db here)
  reports-greatest (Report.read now u c seq ∷ rs) db here =
      reports-greatest rs (report (Report.read now u c seq) db)
        (channel_exists-report (Report.read now u c seq) db ∙ here)
      ∙ ap (greatest user_id channel_id rs) (unfold report in read-cursor now u c seq db here)
