-- ===== src/Store.antt =====
-- internal/repository/mysql: the methods of `Store`, each as a function of the database. A SELECT,
-- UPDATE, INSERT or DELETE is the function of Base.Tables on the rows of its table.
pub mod Spaces
pub mod Direct
pub mod Reads
pub mod Users
pub mod Messages
pub mod Channels
pub mod Media
pub mod Bootstrap
