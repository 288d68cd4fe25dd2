-- ===== src/Session.antt =====
-- internal/session: the sessions of clients, the requests they send, and the fan-out of events.
pub mod Wire
pub mod Convert
pub mod Hub
pub mod Api
pub mod Node
pub mod Handlers
pub mod Dispatch
