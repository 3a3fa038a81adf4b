-- ===== src/Requests.antt =====
-- features/requests: one user asks another for money, who accepts or rejects.
pub mod Routes
pub mod Dto
pub mod Transactions
pub mod Service
pub mod Accepted
pub mod Once
pub mod Books
pub mod Queries
