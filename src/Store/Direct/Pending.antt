-- ===== src/Store/Direct/Pending.antt =====
-- internal/repository/mysql/direct_chat.go: what `ListPendingDirectMessages` returns.
use mathlib.Core.Path.{subst}
use meshserver.Base.{
  ℕ, zero, suc, ◌≤◌, ◌<◌, ◌≡◌, refl, ◌∙◌, ap, true, false, some, List, [], ◌∷◌, map, arith, ◌==◌,
  min, length, take, last?, All, All-take, All-mono, length-take, none, Option-cases, inl, inr,
}
use meshserver.Base.Tables.{select, count, select-All, length-select}
use meshserver.Base.Sorting.{
  order_by, asc, All-order_by, length-order_by, order_by-IsAscending, IsAscending,
}
use meshserver.Base.Text.{Text, text_eq→eq}
use meshserver.Model.Rows.{DirectMessage}
use meshserver.Model.Database.{Database}
use meshserver.Store.Direct.Messages.{
  is_pending, pending_limit, PendingPage, view_of, last_seq_or, page_of,
  list_pending_direct_messages, DirectMessageView,
}

IsAscending-take :
    (n : ℕ) (xs : List DirectMessage)
    → IsAscending (λ m. m.seq) xs
    → IsAscending (λ m. m.seq) (take n xs)
IsAscending-take zero xs h = tt
IsAscending-take (suc n) [] h = tt
IsAscending-take (suc n) (x ∷ xs) h =
    (All-take (λ y. x.seq ≤ y.seq) n xs h.0, IsAscending-take n xs h.1)

pub last?-some :
    (xs : List DirectMessage) → 0 < length xs → (m : DirectMessage) × (last? xs ≡ some m)
last?-some [] h = elim h [ ]
last?-some (x ∷ []) h = (x, refl)
last?-some (x ∷ y ∷ xs) h = last?-some (y ∷ xs) (omega arith)

pub last?-All :
    (P : DirectMessage → Type 0) (xs : List DirectMessage) (m : DirectMessage)
    → last? xs ≡ some m
    → All P xs
    → P m
last?-All P [] m e h = cc
last?-All P (x ∷ []) m e h = subst P (cc) h.0
last?-All P (x ∷ y ∷ xs) m e h = last?-All P (y ∷ xs) m e h.1

-- The rows that a page shows, before their users' ids are joined.
module _ (cid : Text) (recipient after_seq limit : ℕ) (db : Database) where
  unfoldable pub page_rows : List DirectMessage
  page_rows = take (pending_limit limit) (
      order_by (asc (λ m. m.seq))
        (select (is_pending cid recipient after_seq db) db.direct_messages))

  page_rows-pending : All (λ m. is_pending cid recipient after_seq db m ≡ true) page_rows
  unfolding page_rows
  page_rows-pending =
      All-take (λ m. is_pending cid recipient after_seq db m ≡ true) (pending_limit limit) _
        (All-order_by (λ m. is_pending cid recipient after_seq db m ≡ true) (asc (λ m. m.seq)) _
          (select-All (is_pending cid recipient after_seq db) db.direct_messages))

  page_rows-IsAscending : IsAscending (λ m. m.seq) page_rows
  unfolding page_rows
  page_rows-IsAscending =
      IsAscending-take (pending_limit limit) _ (order_by-IsAscending (λ m. m.seq) _)

  length-page_rows :
      length page_rows
      ≡ min (pending_limit limit) (count (is_pending cid recipient after_seq db) db.direct_messages)
  unfolding page_rows
  length-page_rows =
      length-take (pending_limit limit) _
      ∙ ap (min (pending_limit limit)) (
          length-order_by (asc (λ m. m.seq)) _
          ∙ length-select (is_pending cid recipient after_seq db) db.direct_messages)

  abbrev pub page : PendingPage
  page = list_pending_direct_messages cid recipient after_seq limit db

  pub rows_of-page : map (λ v. v.row) page.items ≡ page_rows
  unfolding list_pending_direct_messages page_of page_rows
  rows_of-page = rows page_rows
    where
      rows :
          (xs : List DirectMessage)
          → map (λ (v : DirectMessageView). v.row) (map (view_of db) xs) ≡ xs
      rows [] = refl
      rows (x ∷ xs) = ap (◌∷◌ x) (rows xs)

  pending_row :
      (m : DirectMessage)
      → is_pending cid recipient after_seq db m ≡ true
      → (m.conversation_id ≡ cid)
        × (m.recipient_user_id ≡ recipient)
        × (m.recipient_acked_at_ms ≡ none)
        × (after_seq < m.seq)
  pending_row m h = (
    text_eq→eq m.conversation_id cid (ground (arith, h)),
    ground (arith, h),
    elim (Option-cases m.recipient_acked_at_ms) [ inl e ↦ e | inr (t, e) ↦ ground (arith, h, e) ],
    ground (arith, h),
  )

  pub page-pending :
      All
        (λ m.
          (m.conversation_id ≡ cid)
          × (m.recipient_user_id ≡ recipient)
          × (m.recipient_acked_at_ms ≡ none)
          × (after_seq < m.seq))
        (map (λ v. v.row) page.items)
      × IsAscending (λ m. m.seq) (map (λ v. v.row) page.items)
  page-pending =
      rw rows_of-page (All-mono pending_row page_rows page_rows-pending, page_rows-IsAscending)

  pub has_more-page : page.has_more ≡ (length page_rows == pending_limit limit)
  unfolding list_pending_direct_messages page_of page_rows
  has_more-page = refl

  pub next_after-page : page.next_after ≡ last_seq_or after_seq (last? page_rows)
  unfolding list_pending_direct_messages page_of page_rows
  next_after-page = refl

  -- A page that says there is no more shows every pending message; one that says there is more is
  -- as long as the limit.
  pub page_complete :
      (page.has_more ≡ false
        → length (map (λ v. v.row) page.items)
          ≡ count (is_pending cid recipient after_seq db) db.direct_messages)
      × (page.has_more ≡ true → length (map (λ v. v.row) page.items) ≡ pending_limit limit)
  page_complete = (
    (λ h. rw rows_of-page (ground (arith, has_more-page, length-page_rows))),
    (λ h. rw rows_of-page (ground (arith, has_more-page))),
  )

  -- While a page says there is more, the cursor for the next request moves on, so that a client
  -- that follows it comes to an end.
  pub page-progress : page.has_more ≡ true → after_seq < page.next_after
  page-progress h =
      let full : 0 < length page_rows = ground (arith, has_more-page) in
      let (m, e) = last?-some page_rows full in
      rw (next_after-page, e)
        (ground (
          arith,
          last?-All (λ x. is_pending cid recipient after_seq db x ≡ true) page_rows m e
              page_rows-pending,
        ))
