-- ===== src/Books.antt =====
-- The double-entry books: the balances of migrations/0001_init.sql, the chain of ledger rows of each
-- user, and the invariant that ties them.
mod Balances
pub mod Chain
pub mod Invariant
pub mod Unmoved
pub mod Still
pub use Balances.*
