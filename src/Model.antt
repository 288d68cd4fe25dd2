-- ===== src/Model.antt =====
-- The data of the program: the enumerations and entities of internal/space, internal/channel and
-- internal/message, the rows of internal/repository and of the tables in migrations, and the whole
-- database as one record of tables. Times are milliseconds.
pub mod Enums
pub mod Rows
pub mod Database
