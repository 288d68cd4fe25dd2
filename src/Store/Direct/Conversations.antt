-- ===== src/Store/Direct/Conversations.antt =====
-- internal/repository/mysql/direct_chat.go: opening, finding and listing conversations.
use meshserver.Base.{
  ℕ, ◌+◌, Bool, true, false, not, ◌&&◌, ◌||◌, Option, none, some, List, [], ◌∷◌, ◌==◌, ltb,
  if◌then◌else◌,
}
use meshserver.Base.Tables.{find, select, insert}
use meshserver.Base.Sorting.{order_by, desc}
use meshserver.Base.Text.{Text, text_eq, trim_space}
use meshserver.Base.Errors.{Error}
use meshserver.Base.Exec.{Result, ok, ◌>>◌, guard, or_err, Exec, transaction, fail}
use meshserver.Model.Rows.{User, DirectConversation}
use meshserver.Model.Database.{Database}

-- The lower id first.
unfoldable pub normalize_user_pair : ℕ → ℕ → ℕ × ℕ
normalize_user_pair a b = if ltb a b then (a, b) else (b, a)

abbrev pub is_pair : ℕ → ℕ → DirectConversation → Bool
is_pair low high c = (c.user_low_id == low) && (c.user_high_id == high)

abbrev pub has_conversation_id : Text → DirectConversation → Bool
has_conversation_id cid c = text_eq c.conversation_id cid

abbrev pub is_some {ℓ} : {A : Type ℓ} → Option A → Bool
is_some none = false
is_some (some a) = true

abbrev pub find_user : ℕ → Database → Option User
find_user id db = find (λ u. u.id == id) db.users

abbrev pub new_conversation : ℕ → ℕ → Text → ℕ → ℕ → DirectConversation
new_conversation now id cid low high = record {
  id = id;
  conversation_id = cid;
  user_low_id = low;
  user_high_id = high;
  last_seq = 0;
  last_message_at_ms = 0;
  updated_at = now;
}

-- The row that is there, or a new one. What a new one returns has no row id.
unfoldable pub open_pair :
    ℕ → Text → ℕ → ℕ → Option DirectConversation → Database → Result (DirectConversation × Database)
open_pair now cid low high (some c) db = ok (c, db)
open_pair now cid low high none db = do
  guard (not (is_some (find (has_conversation_id cid) db.direct_conversations))) Error.duplicate_key
  ok (
    new_conversation now 0 cid low high,
    record db {
      direct_conversations =
          insert (new_conversation now db.next_conversation_id cid low high)
            db.direct_conversations;
      next_conversation_id = db.next_conversation_id + 1;
    },
  )

abbrev pub find_pair : ℕ × ℕ → Database → Option DirectConversation
find_pair (low, high) db = find (is_pair low high) db.direct_conversations

unfoldable pub open_body : ℕ → Text → ℕ × ℕ → Database → Result (DirectConversation × Database)
open_body now cid (low, high) db = open_pair now cid low high (find_pair (low, high) db) db

-- `cid` is the id that `newExternalID` draws.
unfoldable pub get_or_create_conversation : ℕ → Text → ℕ → ℕ → Exec Database DirectConversation
get_or_create_conversation now cid a b =
    if a == b
    then fail Error.invalid_peer
    else transaction (open_body now cid (normalize_user_pair a b))

unfoldable pub get_conversation_by_external_id : Text → Database → Result DirectConversation
get_conversation_by_external_id cid db =
    or_err (find (has_conversation_id (trim_space cid)) db.direct_conversations) Error.not_found

pub record ConversationListItem : Type 0 where
  pub conversation_id : Text
  pub peer_user_id : Text
  pub peer_display_name : Text
  pub last_seq : ℕ
  pub last_message_at_ms : ℕ

abbrev list_item : DirectConversation → User → ConversationListItem
list_item c peer = record {
  conversation_id = c.conversation_id;
  peer_user_id = peer.user_id;
  peer_display_name = peer.display_name;
  last_seq = c.last_seq;
  last_message_at_ms = c.last_message_at_ms;
}

-- The two inner joins drop a conversation one of whose users has no row.
abbrev join_users : ℕ → DirectConversation → Option User → Option User → List ConversationListItem
join_users user_id c (some low) (some high) =
    list_item c (if user_id == c.user_low_id then high else low) ∷ []
join_users user_id c (some low) none = []
join_users user_id c none o = []

abbrev prepend : List ConversationListItem → List ConversationListItem → List ConversationListItem
prepend [] ys = ys
prepend (x ∷ xs) ys = x ∷ ys

list_items : ℕ → Database → List DirectConversation → List ConversationListItem
list_items user_id db [] = []
list_items user_id db (c ∷ cs) =
    prepend (join_users user_id c (find_user c.user_low_id db) (find_user c.user_high_id db))
      (list_items user_id db cs)

abbrev pub takes_part : ℕ → DirectConversation → Bool
takes_part user_id c = (c.user_low_id == user_id) || (c.user_high_id == user_id)

unfoldable pub list_conversations_for_user : ℕ → Database → List ConversationListItem
unfolding list_items
list_conversations_for_user user_id db =
    list_items user_id db
      (order_by (desc (λ c. c.updated_at)) (select (takes_part user_id) db.direct_conversations))
