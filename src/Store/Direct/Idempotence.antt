-- ===== src/Store/Direct/Idempotence.antt =====
-- internal/repository/mysql/direct_chat.go: a direct message sent again with the same client id is
-- the message that was stored the first time.
use mathlib.Core.Path.{subst, ap₂}
use meshserver.Base.{
  ℕ, ◌+◌, ◌≡◌, refl, sym, ◌∙◌, Bool, true, not, ◌&&◌, Option, none, some, List, [], ◌∷◌, arith,
  ◌==◌, if◌then◌else◌,
}
use meshserver.Base.Tables.{find, insert, find-insert, find-update_where}
use meshserver.Base.Text.{Text, text_eq_refl}
use meshserver.Base.Errors.{Error}
use meshserver.Base.Exec.{
  Result, ok, err, ◌>>=◌, guard, or_err, guard-ok, or_err-ok, bind-ok, transaction, transaction-ok,
  and_then-ok, committed_then,
}
use meshserver.Model.Rows.{DirectConversation, DirectMessage}
use meshserver.Model.Database.{Database}
use meshserver.Store.Direct.Conversations.{has_conversation_id, is_some, takes_part}
use meshserver.Store.Direct.Messages.{
  DirectMessageView, CreateDirectMessageInput, Stored, existing, created, load_direct_message_row,
  get_direct_message_by_client_msg_id, get_direct_message_by_message_id, is_resend, has_message_id,
  is_known_user, new_direct_message, insert_direct_message, advance_conversation, store_new,
  store_unless, create_direct_message_body, create_direct_message, load_stored,
}

-- A search among the rows of which none meets the wider condition finds nothing.
find-none_and :
    (p q : DirectMessage → Bool) (ms : List DirectMessage)
    → find p ms ≡ none
    → find (λ m. p m && q m) ms ≡ none
unfolding find
find-none_and p q [] h = refl
find-none_and p q (m ∷ ms) h = ground (arith, find-none_and p q ms)

-- The new row is the one that a key finds which it alone has.
find-new :
    (p q : DirectMessage → Bool) (m : DirectMessage) (ms : List DirectMessage)
    → find p ms ≡ none
    → p m ≡ true
    → find (λ x. p x && q x) (insert m ms) ≡ (if q m then some m else none)
find-new p q m ms h e =
    find-insert (λ x. p x && q x) m ms ∙ rw (find-none_and p q ms h) (ground (arith, e))

is_some-none {ℓ} : {A : Type ℓ} (o : Option A) → not (is_some o) ≡ true → o ≡ none
is_some-none none h = refl
is_some-none (some a) h = cc

-- What an insertion that the unique keys let through has shown and left.
pub insert_direct_message-ok :
    (m : DirectMessage) (db db' : Database)
    → insert_direct_message m db ≡ ok db'
    → (find (has_message_id m.message_id) db.direct_messages ≡ none)
      × (find (is_resend m.conversation_id m.sender_user_id m.client_msg_id) db.direct_messages
          ≡ none)
      × (db' ≡ record db { direct_messages = insert m db.direct_messages })
unfolding insert_direct_message
insert_direct_message-ok m db db' h =
    let (a, h1) = guard-ok _ _ _ h in
    let (b, h2) = guard-ok _ _ _ h1 in
    let (c, h3) = guard-ok _ _ _ h2 in (is_some-none _ a, is_some-none _ c, cc)

-- The checks of the transaction's body, and what it stores.
pub create_body-ok :
    (now : ℕ) (mid : Text) (in_ : CreateDirectMessageInput) (db : Database) (r : Stored × Database)
    → create_direct_message_body now mid in_ db ≡ ok r
    → (conv : DirectConversation) × (find
          (has_conversation_id in_.conversation_id)
          db.direct_conversations
        ≡ some conv)
      × (takes_part in_.sender_user_id conv ≡ true)
      × (takes_part in_.recipient_user_id conv ≡ true)
      × (not (in_.sender_user_id == in_.recipient_user_id) ≡ true)
      × (store_unless now mid in_ conv
            (get_direct_message_by_client_msg_id in_.conversation_id in_.sender_user_id
              in_.client_msg_id db)
            db
          ≡ ok r)
unfolding create_direct_message_body
create_body-ok now mid in_ db r h =
    let (conv, here, h1) = or_err-ok _ _ _ h in
    let (a, h2) = guard-ok _ _ _ h1 in
    let (b, h3) = guard-ok _ _ _ h2 in let (c, h4) = guard-ok _ _ _ h3 in (conv, here, a, b, c, h4)

module _ (now : ℕ) (mid : Text) (in_ : CreateDirectMessageInput) (conv : DirectConversation) where
  store_unless-existing :
      (found : Result DirectMessageView) (db db' : Database) (v : DirectMessageView)
      → store_unless now mid in_ conv found db ≡ ok (existing v, db')
      → (found ≡ ok v) × (db' ≡ db)
  unfolding store_unless store_new
  store_unless-existing (ok w) db db' v h = (cc, cc)
  store_unless-existing (err Error.not_found) db db' v h =
      let (x, e, h1) =
        bind-ok (insert_direct_message (new_direct_message now mid in_ (conv.last_seq + 1)) db) _
          h in
      cc
  store_unless-existing (err _) db db' v h = cc

  pub store_unless-created :
      (found : Result DirectMessageView) (db db' : Database) (x : Text)
      → store_unless now mid in_ conv found db ≡ ok (created x, db')
      → (x ≡ mid)
        × (find (has_message_id mid) db.direct_messages ≡ none)
        × (find
              (is_resend in_.conversation_id in_.sender_user_id in_.client_msg_id)
              db.direct_messages
            ≡ none)
        × (db'
            ≡ advance_conversation now conv.id (conv.last_seq + 1) (record db {
              direct_messages =
                  insert (new_direct_message now mid in_ (conv.last_seq + 1)) db.direct_messages;
            }))
  unfolding store_unless store_new
  store_unless-created (ok w) db db' x h = cc
  store_unless-created (err Error.not_found) db db' x h =
      let (d, e, h1) =
        bind-ok (insert_direct_message (new_direct_message now mid in_ (conv.last_seq + 1)) db) _
          h in
      let (a, b, c) = insert_direct_message-ok _ db d e in (cc, a, b, cc (h1, c))
  store_unless-created (err _) db db' x h = cc

module _ (now : ℕ) (mid : Text) (in_ : CreateDirectMessageInput) (conv : DirectConversation)
    (db : Database) where
  new_row : DirectMessage
  new_row = new_direct_message now mid in_ (conv.last_seq + 1)

  -- The tables behind a new message.
  stored_in : Database
  stored_in = advance_conversation now conv.id (conv.last_seq + 1) (record db {
    direct_messages =
        insert (new_direct_message now mid in_ (conv.last_seq + 1)) db.direct_messages;
  })

  -- The client id finds the row that the message id finds.
  load-stored_in :
      find (has_message_id mid) db.direct_messages ≡ none
      → find (is_resend in_.conversation_id in_.sender_user_id in_.client_msg_id) db.direct_messages
        ≡ none
      → get_direct_message_by_client_msg_id in_.conversation_id in_.sender_user_id in_.client_msg_id
          stored_in
        ≡ get_direct_message_by_message_id mid stored_in
  unfolding stored_in new_row get_direct_message_by_client_msg_id get_direct_message_by_message_id
      load_direct_message_row advance_conversation
  load-stored_in fresh first =
      rw
        (find-new (is_resend in_.conversation_id in_.sender_user_id in_.client_msg_id)
          (λ m. is_known_user m.sender_user_id db && is_known_user m.recipient_user_id db) new_row
          db.direct_messages first
          (ground (arith, text_eq_refl in_.conversation_id, text_eq_refl in_.client_msg_id)))
        (rw (
          find-new (has_message_id mid)
            (λ m. is_known_user m.sender_user_id db && is_known_user m.recipient_user_id db) new_row
            db.direct_messages fresh (text_eq_refl mid)))

  -- The conversation is still there, between the same users.
  conversation_of-stored_in :
      (cid : Text)
      → find (has_conversation_id cid) db.direct_conversations ≡ some conv
      → (c : DirectConversation) × (find (has_conversation_id cid) stored_in.direct_conversations
          ≡ some c)
        × (c.user_low_id ≡ conv.user_low_id)
        × (c.user_high_id ≡ conv.user_high_id)
  unfolding stored_in advance_conversation
  conversation_of-stored_in cid here = (
    advanced,
    find-update_where (has_conversation_id cid) (λ c. c.id == conv.id) advance
          db.direct_conversations (λ x. refl)
        ∙ rw here (ground arith),
    refl,
    refl,
  )
    where
      advance : DirectConversation → DirectConversation
      advance c = record c {
        last_seq = conv.last_seq + 1;
        last_message_at_ms = now;
        updated_at = now;
      }

      advanced : DirectConversation
      advanced = advance conv

-- A repeated call finds the message and writes nothing.
pub resend :
    (later : ℕ) (mid : Text) (in_ : CreateDirectMessageInput) (db : Database)
    (conv : DirectConversation) (v : DirectMessageView)
    → find (has_conversation_id in_.conversation_id) db.direct_conversations ≡ some conv
    → takes_part in_.sender_user_id conv ≡ true
    → takes_part in_.recipient_user_id conv ≡ true
    → not (in_.sender_user_id == in_.recipient_user_id) ≡ true
    → get_direct_message_by_client_msg_id in_.conversation_id in_.sender_user_id in_.client_msg_id
        db
      ≡ ok v
    → create_direct_message later mid in_ db ≡ (ok v, db)
unfolding create_direct_message load_stored
resend later mid in_ db conv v here a b c found =
    and_then-ok (transaction (create_direct_message_body later mid in_)) _ db
      (transaction-ok (create_direct_message_body later mid in_) db body)
  where
    body : create_direct_message_body later mid in_ db ≡ ok (existing v, db)
    body =
        unfold create_direct_message_body store_unless or_err guard ◌>>=◌ in
        rw here (rw a (rw b (rw c (rw found))))

module _ (now later : ℕ) (mid mid' : Text) (in_ : CreateDirectMessageInput) (db : Database)
    (v : DirectMessageView) where
  again_of :
      (stored : Stored) (db' : Database)
      → create_direct_message_body now mid in_ db ≡ ok (stored, db')
      → (load_stored stored db').0 ≡ ok v
      → create_direct_message later mid' in_ (load_stored stored db').1
        ≡ (ok v, (load_stored stored db').1)
  unfolding load_stored
  again_of (existing w) db' body e =
      let (conv, here, a, b, c, stored) = create_body-ok now mid in_ db _ body in
      let (found, same) = store_unless-existing now mid in_ conv _ db db' w stored in
      subst (λ d. create_direct_message later mid' in_ d ≡ (ok v, d)) (sym same)
        (resend later mid' in_ db conv v here a b c (found ∙ e))
  again_of (created x) db' body e =
      let (conv, here, a, b, c, stored) = create_body-ok now mid in_ db _ body in
      let (drawn, fresh, first, state) = store_unless-created now mid in_ conv _ db db' x stored in
      let (conv', here', low, high) =
        conversation_of-stored_in now mid in_ conv db in_.conversation_id here in
      let found : get_direct_message_by_message_id mid (stored_in now mid in_ conv db) ≡ ok v =
        sym (ap₂ get_direct_message_by_message_id drawn (state_eq conv db' state)) ∙ e in
      subst (λ d. create_direct_message later mid' in_ d ≡ (ok v, d))
        (sym (state_eq conv db' state))
        (resend later mid' in_ (stored_in now mid in_ conv db) conv' v here'
          (ground (arith, a, low, high)) (ground (arith, b, low, high)) c
          (load-stored_in now mid in_ conv db fresh first ∙ found))
    where
      state_eq :
          (conv : DirectConversation) (db' : Database)
          → db'
            ≡ advance_conversation now conv.id (conv.last_seq + 1) (record db {
              direct_messages =
                  insert (new_direct_message now mid in_ (conv.last_seq + 1)) db.direct_messages;
            })
          → db' ≡ stored_in now mid in_ conv db
      state_eq conv db' e = unfold stored_in in e

-- If a call stored or found a message, then the same request again, whenever it comes and whatever
-- id is drawn for it, returns that message and leaves the database as it is.
pub create_direct_message-again :
    (now later : ℕ) (mid mid' : Text) (in_ : CreateDirectMessageInput) (db : Database)
    (v : DirectMessageView)
    → (create_direct_message now mid in_ db).0 ≡ ok v
    → create_direct_message later mid' in_ (create_direct_message now mid in_ db).1
      ≡ (ok v, (create_direct_message now mid in_ db).1)
unfolding create_direct_message
create_direct_message-again now later mid mid' in_ db v h =
    let (stored, db', body, outcome) =
      committed_then (create_direct_message_body now mid in_) load_stored db h in
    subst
      (λ (r : Result DirectMessageView × Database).
        r.0 ≡ ok v → create_direct_message later mid' in_ r.1 ≡ (ok v, r.1))
      (sym outcome) (again_of now later mid mid' in_ db v stored db' body) h
