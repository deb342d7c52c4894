-- ===== src/Locks.antt =====
-- The mutexes by name: azurerm/locks.go, and the handlers that lock several of them in turn. The
-- store of the mutexes is `mutexkv`; the keys, and the order in which they are locked, are the provider's.
pub mod Handlers
pub mod System
pub mod Order
pub mod Progress
pub mod Aligned
pub mod Deadlock
pub mod Paired
pub mod Exclusion
mod Tests
