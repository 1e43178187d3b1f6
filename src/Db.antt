-- ===== src/Db.antt =====
-- The database: the rows of app/db/models, and what the code relies on of a SQLModel session.
mod Rows
mod Orm
pub mod Demo
pub mod Attempt
unfoldable pub use Rows.*
unfoldable pub use Orm.*
