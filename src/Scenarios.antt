-- ===== src/Scenarios.antt =====
-- Concrete runs of the handlers, and each theorem of the development applied to one.
mod Memory
mod World
mod Transfers
mod Pins
mod Money
mod Requests
mod Links
mod Accounts
mod Sessions
mod Limits
mod History
mod Private
mod Server
mod Locks
mod Ai
