-- ===== src/Store/Direct/Shown.antt =====
-- internal/repository/mysql/direct_chat.go: which messages a page of pending messages shows.
use meshserver.Base.{
  ℕ, zero, suc, ◌≤◌, ◌<◌, ◌≡◌, ◌⊎◌, inl, inr, none, ◌&&◌, List, [], ◌∷◌, map, arith, ◌==◌, take,
  drop, All, Bool-cases,
}
use meshserver.Base.Tables.{count}
use meshserver.Base.Sorting.{order_by-IsAscending, IsAscending}
use meshserver.Base.Text.{Text}
use meshserver.Model.Rows.{DirectMessage}
use meshserver.Model.Database.{Database}
use meshserver.Store.Direct.Messages.{is_pending, pending_limit}
use meshserver.Store.Direct.Pending.{page, page_rows, rows_of-page, page-pending}
use meshserver.Store.Direct.Following.{
  is_number, pending_as, count-split, below-count, sorted, count-page_rows,
}

-- The rows before one that is sorted behind them have numbers at most as large as its own.
before-le :
    (k n : ℕ) (xs : List DirectMessage)
    → IsAscending (λ m. m.seq) xs
    → 0 < count (is_number k) (drop n xs)
    → All (λ y. y.seq ≤ k) (take n xs)
before-le k zero xs h c = tt
before-le k (suc n) [] h c = tt
before-le k (suc n) (x ∷ xs) h c = (
  below-count x.seq k xs h.0 (omega (arith, count-split (is_number k) n xs, c)),
  before-le k n xs h.1 c,
)

module _ (cid : Text) (recipient after_seq limit : ℕ) (db : Database) where
  skips_none :
      (k : ℕ)
      → (count (is_number k) (page_rows cid recipient after_seq limit db)
          ≡ pending_as cid recipient limit db k after_seq)
        ⊎ All (λ m. m.seq ≤ k) (page_rows cid recipient after_seq limit db)
  unfolding page_rows sorted
  skips_none k =
      let rest : List DirectMessage =
        drop (pending_limit limit) (sorted cid recipient limit db after_seq) in
      elim (Bool-cases (count (is_number k) rest == 0)) [
        | inl e ↦ inl (ground (arith, e, count-page_rows cid recipient limit db k after_seq))
        | inr e ↦ inr (
            before-le k (pending_limit limit) (sorted cid recipient limit db after_seq)
              (order_by-IsAscending (λ m. m.seq) _) (ground (arith, e)))
      ]

  -- Each message on a page is of the conversation and to this recipient, is not acknowledged and
  -- has a number above `after_seq`; the numbers ascend; and the page skips none: of any number k,
  -- either all messages that are pending are shown, or no number on the page is above k.
  pub page_first :
      (k : ℕ)
      → All
          (λ m.
            (m.conversation_id ≡ cid)
            × (m.recipient_user_id ≡ recipient)
            × (m.recipient_acked_at_ms ≡ none)
            × (after_seq < m.seq))
          (map (λ v. v.row) (page cid recipient after_seq limit db).items)
        × IsAscending (λ m. m.seq) (map (λ v. v.row) (page cid recipient after_seq limit db).items)
        × ((count (λ m. m.seq == k) (map (λ v. v.row) (page cid recipient after_seq limit db).items)
              ≡ count
                  (λ m. is_number k m && is_pending cid recipient after_seq db m)
                  db.direct_messages)
            ⊎ All (λ m. m.seq ≤ k) (map (λ v. v.row) (page cid recipient after_seq limit db).items))
  page_first k =
      let (shown, ascending) = page-pending cid recipient after_seq limit db in
      (shown, ascending, rw (rows_of-page cid recipient after_seq limit db) (skips_none k))
