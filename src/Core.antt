-- ===== src/Core.antt =====
-- core/: what every feature shares.
pub mod Error
pub mod Limits
pub mod Text
pub mod Money
pub mod Services
pub mod App
pub mod Pin
pub mod RateLimit
pub mod Config
pub mod Reference
