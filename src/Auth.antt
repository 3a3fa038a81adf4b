-- ===== src/Auth.antt =====
-- features/auth: accounts, their PINs and their sessions.
pub mod Routes
pub mod Dto
pub mod Transactions
pub mod Register
pub mod Books
pub mod PinChange
pub mod Login
pub mod Sessions
