-- ===== src/Client.antt =====
-- The client (client/ftp_client.py, common/rdt_utils.py).
pub mod Address
pub mod Replies
mod Tests
