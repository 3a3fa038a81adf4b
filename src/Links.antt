-- ===== src/Links.antt =====
-- features/links: a payment link that its creator funds and another user claims.
pub mod Routes
pub mod Dto
pub mod Transactions
pub mod Service
pub mod Claimed
pub mod Once
pub mod Books
pub mod Queries
