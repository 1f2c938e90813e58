-- ===== src/Gic/Cache.antt =====
-- src/gicv3.cpp: `state_epoch_` and the cache of `has_pending` that relies on it.
pub mod Steps
pub mod Quiet
pub mod Writes
pub mod Registers
pub mod Calls
