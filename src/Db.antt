-- ===== src/Db.antt =====
-- internal/db: the SQL statements of the queries, over tables as lists of rows.
pub mod Rows
pub mod Social
pub mod Rooms
pub mod Users
pub mod Boards
pub mod Bindings
pub mod Admin
