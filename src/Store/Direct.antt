-- ===== src/Store/Direct.antt =====
-- internal/repository/mysql/direct_chat.go: conversations of two users (`direct_conversations`) and
-- their messages (`direct_messages`). Other connections may write between two statements that are
-- in no transaction: a call that makes such a pair takes what they do as the function `between`.
pub mod Conversations
pub mod Messages
pub mod Sequence
pub mod Idempotence
pub mod Acks
pub mod Pending
pub mod Opening
pub mod Following
pub mod Shown
pub mod Participants
