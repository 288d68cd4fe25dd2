-- ===== src/Store/Direct/Participants.antt =====
-- internal/repository/mysql/direct_chat.go: who the sender and the recipient of a stored message are.
use mathlib.Core.Path.{subst}
use meshserver.Base.{
  ℕ, ◌+◌, ◌≡◌, refl, sym, ap, ◌∙◌, Bool, true, false, not, ◌&&◌, Option, none, some, List, [], ◌∷◌,
  arith, ◌==◌, All, All-append, All-mono, Option-cases, Bool-cases, inl, inr,
}
use meshserver.Base.Tables.{find, find-insert, find-update_where, update_where, insert, count}
use meshserver.Base.Text.{Text}
use meshserver.Base.Errors.{Error}
use meshserver.Base.Exec.{
  Result, ok, err, guard-ok, bind-ok, ok-committed, and_then-keeps, transaction, transaction-keeps,
}
use meshserver.Model.Rows.{DirectConversation, DirectMessage}
use meshserver.Model.Database.{Database}
use meshserver.Store.Direct.Conversations.{
  has_conversation_id, takes_part, new_conversation, open_pair, open_body, find_pair,
  normalize_user_pair, get_or_create_conversation, is_some,
}
use meshserver.Store.Direct.Messages.{
  DirectMessageView, CreateDirectMessageInput, new_direct_message, insert_direct_message,
  advance_conversation, Stored, store_new, store_unless, create_direct_message_body, load_stored,
  create_direct_message, is_unacked_for, set_acked, update_ack, ack_loaded, ack_direct_message,
  get_direct_message_by_message_id,
}
use meshserver.Store.Direct.Idempotence.{insert_direct_message-ok, create_body-ok}

-- Two different users who take part in the conversation that was found.
abbrev pub is_between : Option DirectConversation → DirectMessage → Bool
is_between none m = false
is_between (some c) m =
    takes_part m.sender_user_id c
    && (takes_part m.recipient_user_id c && not (m.sender_user_id == m.recipient_user_id))

-- Every message is from one participant of its conversation to the other.
abbrev pub IsPrivate : Database → Type 0
IsPrivate db =
    All
      (λ m.
        is_between (find (has_conversation_id m.conversation_id) db.direct_conversations) m ≡ true)
      db.direct_messages

-- Conversations that are added or updated leave the participants of those that are there.
module _ (cs : List DirectConversation) (m : DirectMessage) where
  is_between-insert :
      (c : DirectConversation)
      → is_between (find (has_conversation_id m.conversation_id) cs) m ≡ true
      → is_between (find (has_conversation_id m.conversation_id) (insert c cs)) m ≡ true
  is_between-insert c h = elim (Option-cases (find (has_conversation_id m.conversation_id) cs)) [
    | inl e ↦ absurd (cc (ap (λ o. is_between o m) (sym e) ∙ h))
    | inr (x, e) ↦
        rw (find-insert (has_conversation_id m.conversation_id) c cs, e)
          (sym (ap (λ o. is_between o m) e) ∙ h)
  ]

  is_between-advance :
      (now id seq : ℕ)
      → is_between (find (has_conversation_id m.conversation_id) cs) m ≡ true
      → is_between
          (find (has_conversation_id m.conversation_id) (
            update_where
              (λ c. c.id == id)
              (λ c. record c { last_seq = seq; last_message_at_ms = now; updated_at = now })
              cs))
          m
        ≡ true
  is_between-advance now id seq h =
      elim (Option-cases (find (has_conversation_id m.conversation_id) cs)) [
        | inl e ↦ absurd (cc (ap (λ o. is_between o m) (sym e) ∙ h))
        | inr (x, e) ↦
            let advanced : DirectConversation → DirectConversation =
              λ c. record c { last_seq = seq; last_message_at_ms = now; updated_at = now } in
            rw
              (
                find-update_where (has_conversation_id m.conversation_id) (λ c. c.id == id) advanced
                    cs (λ y. refl),
                e,
              )
              (elim (Bool-cases (x.id == id)) [
                | inl same ↦ rw same (sym (ap (λ o. is_between o m) e) ∙ h)
                | inr other ↦ rw other (sym (ap (λ o. is_between o m) e) ∙ h)
              ])
      ]

advance-IsPrivate :
    (now id seq : ℕ) (db : Database) → IsPrivate db → IsPrivate (advance_conversation now id seq db)
unfolding advance_conversation
advance-IsPrivate now id seq db h =
    All-mono (λ m. is_between-advance db.direct_conversations m now id seq) db.direct_messages h

open_pair-IsPrivate :
    (now : ℕ) (cid : Text) (low high : ℕ) (o : Option DirectConversation) (db t : Database)
    (c : DirectConversation)
    → open_pair now cid low high o db ≡ ok (c, t)
    → IsPrivate db
    → IsPrivate t
unfolding open_pair
open_pair-IsPrivate now cid low high (some x) db t c ran h = ok-committed IsPrivate ran h
open_pair-IsPrivate now cid low high none db t c ran h =
    let (fresh, stored) = guard-ok _ _ _ ran in
    ok-committed IsPrivate stored (
      All-mono
        (λ m.
          is_between-insert db.direct_conversations m
            (new_conversation now db.next_conversation_id cid low high))
        db.direct_messages h)

pub get_or_create_conversation-IsPrivate :
    (now : ℕ) (cid : Text) (a b : ℕ) (db : Database)
    → IsPrivate db
    → IsPrivate (get_or_create_conversation now cid a b db).1
unfolding get_or_create_conversation open_body
get_or_create_conversation-IsPrivate now cid a b db h = elim (Bool-cases (a == b)) [
  | inl e ↦ rw e h
  | inr e ↦ rw e (
      transaction-keeps IsPrivate (open_body now cid (normalize_user_pair a b)) db h (λ c t ran.
        let (low, high) = normalize_user_pair a b in
        open_pair-IsPrivate now cid (normalize_user_pair a b).0 (normalize_user_pair a b).1
          (find_pair (normalize_user_pair a b) db) db t c ran h))
]

module _ (now : ℕ) (mid : Text) (in_ : CreateDirectMessageInput) where
  store_unless-IsPrivate :
      (conv : DirectConversation) (found : Result DirectMessageView) (db t : Database) (r : Stored)
      → find (has_conversation_id in_.conversation_id) db.direct_conversations ≡ some conv
      → takes_part in_.sender_user_id conv ≡ true
      → takes_part in_.recipient_user_id conv ≡ true
      → not (in_.sender_user_id == in_.recipient_user_id) ≡ true
      → IsPrivate db
      → store_unless now mid in_ conv found db ≡ ok (r, t)
      → IsPrivate t
  unfolding store_unless store_new
  store_unless-IsPrivate conv (ok v) db t r here a b differ h ran = ok-committed IsPrivate ran h
  store_unless-IsPrivate conv (err Error.not_found) db t r here a b differ h ran =
      let new : DirectMessage = new_direct_message now mid in_ (conv.last_seq + 1) in
      let (d, inserted, stored) = bind-ok (insert_direct_message new db) _ ran in
      let (x, y, e) = insert_direct_message-ok new db d inserted in
      ok-committed IsPrivate stored (
        advance-IsPrivate now conv.id (conv.last_seq + 1) d (
          subst IsPrivate (sym e) (
            All-append _ db.direct_messages (new ∷ []) h
              (ap (λ o. is_between o new) here ∙ ground (arith, a, b, differ), tt))))
  store_unless-IsPrivate conv (err _) db t r here a b differ h ran = cc

  pub create_direct_message-IsPrivate :
      (db : Database) → IsPrivate db → IsPrivate (create_direct_message now mid in_ db).1
  unfolding create_direct_message
  create_direct_message-IsPrivate db h =
      and_then-keeps IsPrivate (transaction (create_direct_message_body now mid in_)) load_stored db
        (transaction-keeps IsPrivate (create_direct_message_body now mid in_) db h (λ r t ran.
          let (conv, here, a, b, differ, rest) = create_body-ok now mid in_ db (r, t) ran in
          store_unless-IsPrivate conv _ db t r here a b differ h rest))
        loaded
    where
      loaded : (r : Stored) (t : Database) → IsPrivate t → IsPrivate (load_stored r t).1
      loaded (Stored.existing v) t k = unfold load_stored in k
      loaded (Stored.created x) t k = unfold load_stored in k

-- An acknowledgement leaves the users of the messages.
acked-IsPrivate :
    (mid : Text) (recipient at : ℕ) (cs : List DirectConversation) (ms : List DirectMessage)
    → All (λ m. is_between (find (has_conversation_id m.conversation_id) cs) m ≡ true) ms
    → All
        (λ m. is_between (find (has_conversation_id m.conversation_id) cs) m ≡ true)
        (update_where (is_unacked_for mid recipient) (set_acked at) ms)
unfolding update_where
acked-IsPrivate mid recipient at cs [] h = tt
acked-IsPrivate mid recipient at cs (m ∷ ms) h =
    elim (Bool-cases (is_unacked_for mid recipient m)) [
      | inl e ↦ rw e (between cs h.0, acked-IsPrivate mid recipient at cs ms h.1)
      | inr e ↦ rw e (h.0, acked-IsPrivate mid recipient at cs ms h.1)
    ]
  where
    between :
        (ds : List DirectConversation)
        → is_between (find (has_conversation_id m.conversation_id) ds) m ≡ true
        → is_between (find (has_conversation_id m.conversation_id) ds) (set_acked at m) ≡ true
    between ds k = elim (Option-cases (find (has_conversation_id m.conversation_id) ds)) [
      | inl e ↦ absurd (cc (ap (λ o. is_between o m) (sym e) ∙ k))
      | inr (x, e) ↦ rw e (sym (ap (λ o. is_between o m) e) ∙ k)
    ]

module _ (others : Database → Database) (mid : Text) (recipient at : ℕ) where
  pub ack_direct_message-IsPrivate :
      (db : Database)
      → IsPrivate db
      → ((t : Database) → IsPrivate t → IsPrivate (others t))
      → IsPrivate (ack_direct_message others mid recipient at db).1
  unfolding ack_direct_message ack_loaded update_ack
  ack_direct_message-IsPrivate db h keep = go (get_direct_message_by_message_id mid db)
    where
      go : (r : Result DirectMessageView) → IsPrivate (ack_loaded others mid recipient at r db).1
      go (err e) = h
      go (ok v) = elim (Bool-cases (v.row.recipient_user_id == recipient)) [
        | inr other ↦ rw other h
        | inl mine ↦ elim (Bool-cases (is_some v.row.recipient_acked_at_ms)) [
          | inl before ↦ rw (mine, before) h
          | inr now ↦
              elim (Bool-cases
                (count (is_unacked_for mid recipient) (others db).direct_messages == 0)) [
                  | inl lost ↦ rw (mine, now, lost) (keep db h)
                  | inr won ↦
                      rw (mine, now, won)
                        (acked-IsPrivate mid recipient at (others db).direct_conversations
                          (others db).direct_messages (keep db h))
                ]
        ]
      ]
