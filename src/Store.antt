-- ===== src/Store.antt =====
-- The PostgreSQL store: its tables, its transactions, and the statements that the services run.
pub mod Schema
pub mod Tx
pub mod Statements
pub mod Events
pub mod Logs
