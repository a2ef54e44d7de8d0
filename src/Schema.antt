-- ===== src/Schema.antt =====
-- The data model: the rows of the tables, and the store that holds them.
mod Rows
mod State
pub use Rows.*
pub use State.*
