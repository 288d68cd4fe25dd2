-- ===== src/Store/Spaces.antt =====
-- internal/repository/mysql/server.go, with `refreshAggregateCounts` of bootstrap.go: the spaces
-- (table `servers`) and their members (`server_members`). A call takes the time `now` that it reads
-- from the clock; the driver's own failures (a lost connection) are not modelled.
pub mod Writes
pub mod Queries
pub mod Members
pub mod Roles
pub mod Views
pub mod Ownership
pub mod Counts
pub mod Moderation
