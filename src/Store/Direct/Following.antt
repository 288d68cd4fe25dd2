-- ===== src/Store/Direct/Following.antt =====
-- internal/repository/mysql/direct_chat.go: a client that asks for pending messages page after page.
use meshserver.Base.{
  ℕ, zero, suc, ◌+◌, ◌≤◌, ◌<◌, ◌≡◌, refl, sym, ◌∙◌, ap, Bool, true, ◌&&◌, List, [], ◌∷◌, ◌++◌, map,
  arith, ◌==◌, length, take, drop, All, if◌then◌else◌, ltb, ltb→lt, Bool-cases, inl, inr,
}
use meshserver.Base.Tables.{select, count}
use meshserver.Base.Sorting.{order_by, asc, count-order_by, order_by-IsAscending, IsAscending}
use meshserver.Base.Text.{Text}
use meshserver.Base.Maps.{elem, elem-append}
use meshserver.Model.Rows.{DirectMessage}
use meshserver.Model.Database.{Database}
use meshserver.Store.Direct.Messages.{is_pending, pending_limit, DirectMessageView}
use meshserver.Store.Direct.Pending.{
  last?-some, last?-All, page, page_rows, rows_of-page, has_more-page, next_after-page,
  page-progress,
}

abbrev pub is_number : ℕ → DirectMessage → Bool
is_number k m = m.seq == k

count-select :
    (p q : DirectMessage → Bool) (xs : List DirectMessage)
    → count p (select q xs) ≡ count (λ x. p x && q x) xs
unfolding count select
count-select p q [] = refl
count-select p q (x ∷ xs) = ground (arith, count-select p q xs)

pub count-split :
    (p : DirectMessage → Bool) (n : ℕ) (xs : List DirectMessage)
    → count p xs ≡ count p (take n xs) + count p (drop n xs)
unfolding count
count-split p zero xs = omega arith
count-split p (suc n) [] = omega arith
count-split p (suc n) (x ∷ xs) = ground (arith, count-split p n xs)

-- Where some rows are left, the part before is full.
length-full :
    (p : DirectMessage → Bool) (n : ℕ) (xs : List DirectMessage)
    → 0 < count p (drop n xs)
    → length (take n xs) ≡ n
unfolding count
length-full p zero xs h = refl
length-full p (suc n) [] h = absurd (omega (arith, h))
length-full p (suc n) (x ∷ xs) h = ap suc (length-full p n xs h)

elem-count :
    (k : ℕ) (xs : List DirectMessage)
    → 0 < count (is_number k) xs
    → elem k (map (λ m. m.seq) xs) ≡ true
unfolding count elem
elem-count k [] h = absurd (omega (arith, h))
elem-count k (x ∷ xs) h = ground (arith, elem-count k xs, h)

pub below-count :
    (a k : ℕ) (xs : List DirectMessage)
    → All (λ y. a ≤ y.seq) xs
    → 0 < count (is_number k) xs
    → a ≤ k
unfolding count
below-count a k [] h c = absurd (omega (arith, c))
below-count a k (x ∷ xs) h c = ground (arith, h, c, below-count a k xs h.1)

-- The numbers before a row that is sorted behind them are not greater than its number.
before-count :
    (k n : ℕ) (xs : List DirectMessage)
    → IsAscending (λ m. m.seq) xs
    → 0 < count (is_number k) (drop n xs)
    → count (is_number k) (take n xs) ≡ 0
    → All (λ y. y.seq < k) (take n xs)
unfolding count
before-count k zero xs h c none_here = tt
before-count k (suc n) [] h c none_here = tt
before-count k (suc n) (x ∷ xs) h c none_here = (
  ground (arith, below-count x.seq k xs h.0, count-split (is_number k) n xs, c, none_here),
  before-count k n xs h.1 c (ground (arith, none_here)),
)

count-above :
    (k n m : ℕ) (cid : Text) (r : ℕ) (db : Database) (xs : List DirectMessage)
    → n < k
    → m < k
    → count (λ x. is_number k x && is_pending cid r n db x) xs
      ≡ count (λ x. is_number k x && is_pending cid r m db x) xs
unfolding count
count-above k n m cid r db [] hn hm = refl
count-above k n m cid r db (x ∷ xs) hn hm =
    ground (arith, hn, hm, count-above k n m cid r db xs hn hm)

count-low :
    (k n : ℕ) (cid : Text) (r : ℕ) (db : Database) (xs : List DirectMessage)
    → k ≤ n
    → count (λ x. is_number k x && is_pending cid r n db x) xs ≡ 0
unfolding count
count-low k n cid r db [] h = refl
count-low k n cid r db (x ∷ xs) h = ground (arith, h, count-low k n cid r db xs h)

map_twice :
    (vs : List DirectMessageView)
    → map (λ v. v.row.seq) vs ≡ map (λ (m : DirectMessage). m.seq) (map (λ v. v.row) vs)
map_twice [] = refl
map_twice (v ∷ vs) = ap (◌∷◌ v.row.seq) (map_twice vs)

module _ (cid : Text) (recipient limit : ℕ) (db : Database) where
  -- The numbers of the messages that a client sees that asks at most `n` times, each time behind the
  -- cursor of the page before, until a page says that there is no more.
  unfoldable pub follow : ℕ → ℕ → List ℕ
  follow zero after_seq = []
  follow (suc n) after_seq =
      let rest = follow n (page cid recipient after_seq limit db).next_after in
      map (λ v. v.row.seq) (page cid recipient after_seq limit db).items
      ++ (if (page cid recipient after_seq limit db).has_more then rest else [])

  abbrev pub pending_as : ℕ → ℕ → ℕ
  pending_as k after_seq =
      count (λ m. is_number k m && is_pending cid recipient after_seq db m) db.direct_messages

  ahead : (k after_seq : ℕ) → 0 < pending_as k after_seq → after_seq < k
  ahead k after_seq h = elim (Bool-cases (ltb after_seq k)) [
    | inl low ↦ ltb→lt after_seq k low
    | inr high ↦ absurd (
        omega (
          arith,
          h,
          count-low k after_seq cid recipient db db.direct_messages (ground (arith, high)),
        ))
  ]

  unfoldable pub sorted : ℕ → List DirectMessage
  sorted after_seq =
      order_by (asc (λ m. m.seq))
        (select (is_pending cid recipient after_seq db) db.direct_messages)

  -- A pending message stands on the page or behind it.
  pub count-page_rows :
      (k after_seq : ℕ)
      → pending_as k after_seq
        ≡ count (is_number k) (page_rows cid recipient after_seq limit db)
          + count (is_number k) (drop (pending_limit limit) (sorted after_seq))
  unfolding page_rows sorted
  count-page_rows k after_seq =
      sym (count-select (is_number k) (is_pending cid recipient after_seq db) db.direct_messages)
      ∙ sym (
          count-order_by (asc (λ m. m.seq)) (is_number k)
            (select (is_pending cid recipient after_seq db) db.direct_messages))
      ∙ count-split (is_number k) (pending_limit limit) (sorted after_seq)

  -- If it stands behind, there is more, and the next cursor is below it.
  behind_page :
      (k after_seq : ℕ)
      → count (is_number k) (page_rows cid recipient after_seq limit db) ≡ 0
      → 0 < count (is_number k) (drop (pending_limit limit) (sorted after_seq))
      → ((page cid recipient after_seq limit db).has_more ≡ true)
        × ((page cid recipient after_seq limit db).next_after < k)
  unfolding page_rows sorted
  behind_page k after_seq none_here left =
      let rows : List DirectMessage = page_rows cid recipient after_seq limit db in
      let full : length rows ≡ pending_limit limit =
        length-full (is_number k) (pending_limit limit) (sorted after_seq) left in
      let (m, e) = last?-some rows (ground (arith, full)) in
      (
        ground (arith, has_more-page cid recipient after_seq limit db, full),
        rw (next_after-page cid recipient after_seq limit db, e)
            (last?-All (λ y. y.seq < k) rows m e
              (before-count k (pending_limit limit) (sorted after_seq)
                (order_by-IsAscending (λ m. m.seq) _) left none_here)),
      )

  shown_numbers :
      (after_seq : ℕ)
      → map (λ v. v.row.seq) (page cid recipient after_seq limit db).items
        ≡ map (λ m. m.seq) (page_rows cid recipient after_seq limit db)
  shown_numbers after_seq =
      map_twice (page cid recipient after_seq limit db).items
      ∙ ap (map (λ m. m.seq)) (rows_of-page cid recipient after_seq limit db)

  -- Every message that is pending behind a cursor is seen by a client that follows the pages from there,
  -- if it may ask as often as the message's number is ahead.
  pub follow-shows :
      (n after_seq k : ℕ)
      → k ≤ after_seq + n
      → 0 < pending_as k after_seq
      → elem k (follow n after_seq) ≡ true
  unfolding follow
  follow-shows zero after_seq k near h =
      absurd (omega (arith, near, h, count-low k after_seq cid recipient db db.direct_messages))
  follow-shows (suc n) after_seq k near h =
      elem-append k (map (λ v. v.row.seq) (page cid recipient after_seq limit db).items) _
      ∙ elim (Bool-cases (count (is_number k) (page_rows cid recipient after_seq limit db) == 0)) [
        | inl none_here ↦
            let left : 0 < count (is_number k) (drop (pending_limit limit) (sorted after_seq)) =
              ground (arith, none_here, h, count-page_rows k after_seq) in
            let (more, below) = behind_page k after_seq (ground (arith, none_here)) left in
            let later : elem k (follow n (page cid recipient after_seq limit db).next_after)
                ≡ true =
              follow-shows n (page cid recipient after_seq limit db).next_after k
                (omega (arith, near, page-progress cid recipient after_seq limit db more))
                (omega (
                  arith,
                  h,
                  count-above k after_seq (page cid recipient after_seq limit db).next_after cid
                      recipient db db.direct_messages (ahead k after_seq h) below,
                )) in
            rw more (ground (arith, later))
        | inr some_here ↦
            let here : elem k (map (λ v. v.row.seq) (page cid recipient after_seq limit db).items)
                ≡ true =
              ap (elem k) (shown_numbers after_seq)
              ∙ elem-count k (page_rows cid recipient after_seq limit db)
                  (ground (arith, some_here)) in
            rw here refl
      ]
