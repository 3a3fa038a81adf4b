-- ===== src/Startup.antt =====
-- main.rs, bin/reconcile.rs and lib.rs: how the two programs start.
pub mod Connect
pub mod Cors
pub mod Audit
pub mod Mail
