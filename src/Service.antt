-- ===== src/Service.antt =====
-- internal/service: the rules of the messaging services above the repository.
pub mod Direct
pub mod Channels
