-- ===== src/Store/Direct/Opening.antt =====
-- internal/repository/mysql/direct_chat.go: two users share one conversation.
use mathlib.Core.Path.{subst}
use meshserver.Base.{
  ℕ, ◌+◌, ◌≡◌, refl, sym, ◌∙◌, ap, true, false, Option, none, some, List, arith, ◌==◌, Bool-cases,
  inl, inr,
}
use meshserver.Base.Tables.{find, insert, find-insert}
use meshserver.Base.Text.{Text}
use meshserver.Base.Errors.{Error}
use meshserver.Base.Exec.{ok, err, guard-ok, transaction, transaction-ok, transaction-returns}
use meshserver.Model.Rows.{DirectConversation}
use meshserver.Model.Database.{Database}
use meshserver.Store.Direct.Conversations.{
  normalize_user_pair, is_pair, find_pair, new_conversation, open_pair, open_body,
  get_or_create_conversation,
}

normalize-symmetric :
    (a b : ℕ) → (a == b) ≡ false → normalize_user_pair a b ≡ normalize_user_pair b a
unfolding normalize_user_pair
normalize-symmetric a b h = ground arith

-- Who of the two asks makes no difference.
get_or_create-symmetric :
    (now : ℕ) (cid : Text) (a b : ℕ) (db : Database)
    → get_or_create_conversation now cid a b db ≡ get_or_create_conversation now cid b a db
unfolding get_or_create_conversation
get_or_create-symmetric now cid a b db = elim (Bool-cases (a == b)) [
  | inl e ↦ rw (e, (the_same e)) refl
  | inr e ↦
      rw (e, other e)
        (ap (λ pair. transaction (open_body now cid pair) db) (normalize-symmetric a b e))
]
  where
    the_same : (a == b) ≡ true → (b == a) ≡ true
    the_same e = ground (arith, e)

    other : (a == b) ≡ false → (b == a) ≡ false
    other e = ground (arith, e)

pair-new :
    (now id low high : ℕ) (cid : Text) (cs : List DirectConversation)
    → find (is_pair low high) cs ≡ none
    → find (is_pair low high) (insert (new_conversation now id cid low high) cs)
      ≡ some (new_conversation now id cid low high)
pair-new now id low high cid cs e =
    find-insert (is_pair low high) (new_conversation now id cid low high) cs ∙ rw e (ground arith)

-- Behind a body that succeeded the pair has a row, with the id that the body returned.
open_pair-finds :
    (now : ℕ) (cid : Text) (low high : ℕ) (db db' : Database) (c : DirectConversation)
    (o : Option DirectConversation)
    → find_pair (low, high) db ≡ o
    → open_pair now cid low high o db ≡ ok (c, db')
    → (row : DirectConversation) × (find_pair (low, high) db' ≡ some row)
      × (row.conversation_id ≡ c.conversation_id)
unfolding open_pair
open_pair-finds now cid low high db db' c none e h =
    let (fresh, h1) = guard-ok _ _ _ h in
    let made : new_conversation now 0 cid low high ≡ c = cc h1 in
    let state : record db {
      direct_conversations =
          insert (new_conversation now db.next_conversation_id cid low high)
            db.direct_conversations;
      next_conversation_id = db.next_conversation_id + 1;
    }
        ≡ db' =
      cc h1 in
    (
      new_conversation now db.next_conversation_id cid low high,
      ap (find_pair (low, high)) (sym state)
          ∙ pair-new now db.next_conversation_id low high cid _ e,
      ap (λ x. x.conversation_id) made,
    )
open_pair-finds now cid low high db db' c (some row) e h =
    let found : row ≡ c = cc h in
    let state : db ≡ db' = cc h in
    (row, ap (find_pair (low, high)) (sym state) ∙ e, ap (λ x. x.conversation_id) found)

open_body-finds :
    (now : ℕ) (cid : Text) (pair : ℕ × ℕ) (db db' : Database) (c : DirectConversation)
    → open_body now cid pair db ≡ ok (c, db')
    → (row : DirectConversation) × (find_pair pair db' ≡ some row)
      × (row.conversation_id ≡ c.conversation_id)
unfolding open_body
open_body-finds now cid (low, high) db db' c h =
    open_pair-finds now cid low high db db' c (find_pair (low, high) db) refl h

open_body-found :
    (now : ℕ) (cid : Text) (pair : ℕ × ℕ) (db : Database) (row : DirectConversation)
    → find_pair pair db ≡ some row
    → open_body now cid pair db ≡ ok (row, db)
unfolding open_body open_pair
open_body-found now cid (low, high) db row e = rw e refl

-- If a user has opened a conversation with another, then either of them who opens it again, whenever
-- and whatever id is drawn, gets the conversation with the same external id, and nothing is written.
pub get_or_create-again :
    (now later : ℕ) (cid cid' : Text) (a b : ℕ) (db : Database) (c : DirectConversation)
    → (get_or_create_conversation now cid a b db).0 ≡ ok c
    → (row : DirectConversation) × (row.conversation_id ≡ c.conversation_id)
      × (get_or_create_conversation later cid' a b (get_or_create_conversation now cid a b db).1
          ≡ (ok row, (get_or_create_conversation now cid a b db).1))
      × (get_or_create_conversation later cid' b a (get_or_create_conversation now cid a b db).1
          ≡ (ok row, (get_or_create_conversation now cid a b db).1))
get_or_create-again now later cid cid' a b db c h =
    let (row, same, again) = first in
    (row, same, again, sym (get_or_create-symmetric later cid' a b _) ∙ again)
  where
    opens :
        (at : ℕ) (drawn : Text) (d : Database)
        → (a == b) ≡ false
        → get_or_create_conversation at drawn a b d
          ≡ transaction (open_body at drawn (normalize_user_pair a b)) d
    opens at drawn d e = unfold get_or_create_conversation in rw e refl

    fails :
        (a == b) ≡ true → get_or_create_conversation now cid a b db ≡ (err Error.invalid_peer, db)
    fails e = unfold get_or_create_conversation in rw e refl

    refused : (a == b) ≡ true → ⊥
    refused e = cc (sym h ∙ ap (λ r. r.0) (fails e))

    first :
        (row : DirectConversation) × (row.conversation_id ≡ c.conversation_id)
        × (get_or_create_conversation later cid' a b (get_or_create_conversation now cid a b db).1
            ≡ (ok row, (get_or_create_conversation now cid a b db).1))
    first = elim (Bool-cases (a == b)) [
      | inl e ↦ absurd (refused e)
      | inr e ↦
          let (db', body) =
            transaction-returns (open_body now cid (normalize_user_pair a b)) db
              (sym (ap (λ r. r.0) (opens now cid db e)) ∙ h) in
          let (row, found, same) =
            open_body-finds now cid (normalize_user_pair a b) db db' c body in
          let state : (get_or_create_conversation now cid a b db).1 ≡ db' =
            ap (λ r. r.1)
              (opens now cid db e
                ∙ transaction-ok (open_body now cid (normalize_user_pair a b)) db body) in
          (
            row,
            same,
            subst (λ d. get_or_create_conversation later cid' a b d ≡ (ok row, d)) (sym state)
                (opens later cid' db' e
                  ∙ transaction-ok (open_body later cid' (normalize_user_pair a b)) db'
                      (open_body-found later cid' (normalize_user_pair a b) db' row found)),
          )
    ]
