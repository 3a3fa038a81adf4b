-- ===== src/History.antt =====
-- features/history: a user's transactions, statement and activity.
pub mod Routes
pub mod Dto
pub mod Service
pub mod Pages
pub mod Statement
