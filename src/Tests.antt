-- ===== src/Tests.antt =====
-- Runs of the code on small databases, and the theorems applied to them.
pub mod Data
mod Direct
mod Channels
mod Spaces
mod Auth
pub mod Privacy
pub mod Session
mod Protocol
mod Media
mod Bootstrap
mod Delivery
