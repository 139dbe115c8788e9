-- ===== src/Manager.antt =====
-- server/transfer_manager.py: the life of a transfer.
pub mod Probe
pub mod Lifecycle
mod Tests
