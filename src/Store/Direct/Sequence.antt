-- ===== src/Store/Direct/Sequence.antt =====
-- internal/repository/mysql/direct_chat.go: the sequence numbers of a conversation.
use mathlib.Core.Option
use mathlib.Core.Path.{subst}
use meshserver.Base.{
  ℕ, ◌+◌, ◌≤◌, ◌<◌, ◌≡◌, refl, sym, ◌∙◌, ap, true, Option, some, [], ◌∷◌, arith, ◌==◌, All,
  All-append, All-mono,
}
use meshserver.Base.Tables.{find, insert, find-update_where}
use meshserver.Base.Text.{Text, text_eq}
use meshserver.Base.Exec.{ok}
use meshserver.Model.Rows.{DirectConversation}
use meshserver.Model.Database.{Database}
use meshserver.Store.Direct.Conversations.{has_conversation_id}
use meshserver.Store.Direct.Messages.{
  CreateDirectMessageInput, created, new_direct_message, advance_conversation,
  create_direct_message_body,
}
use meshserver.Store.Direct.Idempotence.{create_body-ok, store_unless-created}

abbrev pub find_conversation : Text → Database → Option DirectConversation
find_conversation cid db = find (has_conversation_id cid) db.direct_conversations

-- No message of the conversation has a number above the last that the conversation gave out.
abbrev pub IsNumbered : Text → Database → Type 0
IsNumbered cid db =
    (c : DirectConversation)
    → find_conversation cid db ≡ some c
    → All (λ m. text_eq m.conversation_id cid ≡ true → m.seq ≤ c.last_seq) db.direct_messages

some_injective :
    (cid : Text) (n : ℕ) (c : DirectConversation) (db' : Database)
    → find_conversation cid db' ≡ some c
    → Option.map (λ c. c.last_seq) (find_conversation cid db') ≡ some n
    → c.last_seq ≡ n
some_injective cid n c db' e h = cc (sym (ap (Option.map (λ c. c.last_seq)) e) ∙ h)

-- If no message of the conversation has a number above its last, then a call that stores a new
-- message appends one row, numbered one above the conversation's last number, which is above the
-- number of every message before it; the conversation's last number becomes that of the row, and
-- again no message has a number above it.
pub create_direct_message_body-next :
    (now : ℕ) (mid x : Text) (in_ : CreateDirectMessageInput) (db db' : Database)
    → IsNumbered in_.conversation_id db
    → create_direct_message_body now mid in_ db ≡ ok (created x, db')
    → (conv : DirectConversation) × (find_conversation in_.conversation_id db ≡ some conv)
      × (db'.direct_messages
          ≡ insert (new_direct_message now mid in_ (conv.last_seq + 1)) db.direct_messages)
      × (Option.map (λ c. c.last_seq) (find_conversation in_.conversation_id db')
          ≡ some (conv.last_seq + 1))
      × All
          (λ m. text_eq m.conversation_id in_.conversation_id ≡ true → m.seq < conv.last_seq + 1)
          db.direct_messages
      × IsNumbered in_.conversation_id db'
create_direct_message_body-next now mid x in_ db db' numbered body =
    let (conv, here, a, b, c, stored) = create_body-ok now mid in_ db _ body in
    let (drawn, fresh, first, state) = store_unless-created now mid in_ conv _ db db' x stored in
    let below = numbered conv here in
    (
      conv,
      here,
      rows conv db' state,
      last_seq conv here db' state,
      All-mono (λ m h e. omega (arith, h e)) db.direct_messages below,
      numbers conv db' (rows conv db' state) (last_seq conv here db' state) below,
    )
  where
    numbers :
        (conv : DirectConversation) (db' : Database)
        → db'.direct_messages
          ≡ insert (new_direct_message now mid in_ (conv.last_seq + 1)) db.direct_messages
        → Option.map (λ c. c.last_seq) (find_conversation in_.conversation_id db')
          ≡ some (conv.last_seq + 1)
        → All
            (λ m. text_eq m.conversation_id in_.conversation_id ≡ true → m.seq ≤ conv.last_seq)
            db.direct_messages
        → IsNumbered in_.conversation_id db'
    numbers conv db' rows_eq last_eq below c e =
        let eq : c.last_seq ≡ conv.last_seq + 1 = some_injective _ _ c db' e last_eq in
        subst (All (λ m. text_eq m.conversation_id in_.conversation_id ≡ true → m.seq ≤ c.last_seq))
          (sym rows_eq)
          (All-append
            (λ m. text_eq m.conversation_id in_.conversation_id ≡ true → m.seq ≤ c.last_seq)
            db.direct_messages (new_direct_message now mid in_ (conv.last_seq + 1) ∷ [])
            (All-mono (λ m h e. omega (arith, h e, eq)) db.direct_messages below)
            ((λ h. omega (arith, eq)), tt))

    rows :
        (conv : DirectConversation) (db' : Database)
        → db'
          ≡ advance_conversation now conv.id (conv.last_seq + 1) (record db {
            direct_messages =
                insert (new_direct_message now mid in_ (conv.last_seq + 1)) db.direct_messages;
          })
        → db'.direct_messages
          ≡ insert (new_direct_message now mid in_ (conv.last_seq + 1)) db.direct_messages
    rows conv db' e = unfold advance_conversation in ap (λ d. d.direct_messages) e

    last_seq :
        (conv : DirectConversation)
        → find_conversation in_.conversation_id db ≡ some conv
        → (db' : Database)
        → db'
          ≡ advance_conversation now conv.id (conv.last_seq + 1) (record db {
            direct_messages =
                insert (new_direct_message now mid in_ (conv.last_seq + 1)) db.direct_messages;
          })
        → Option.map (λ c. c.last_seq) (find_conversation in_.conversation_id db')
          ≡ some (conv.last_seq + 1)
    last_seq conv here db' e =
        unfold advance_conversation in
        ap (λ d. Option.map (λ c. c.last_seq) (find_conversation in_.conversation_id d)) e
        ∙ ap (Option.map (λ c. c.last_seq)) (
            find-update_where (has_conversation_id in_.conversation_id) (λ c. c.id == conv.id)
              (λ c. record c {
                last_seq = conv.last_seq + 1;
                last_message_at_ms = now;
                updated_at = now;
              })
              db.direct_conversations (λ x. refl))
        ∙ rw here (ground arith)
