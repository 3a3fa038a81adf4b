-- ===== src/Transfers.antt =====
-- features/transfers: the payment of one user to another.
pub mod Race
pub mod Routes
pub mod Dto
pub mod Transactions
pub mod Service
pub mod Books
pub mod Outcome
pub mod Replay
pub mod Queries
