-- ===== src/Storage.antt =====
-- The files behind the server (common/dir_manager.py, common/file_handler.py,
-- common/filesystem_service.py).
pub mod System
pub mod Paths
pub mod Directories
pub mod Service
pub mod Filled
mod Tests
