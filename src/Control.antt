-- ===== src/Control.antt =====
-- The control connection of the server (server/command_parser.py, server/session.py,
-- server/ftp_reply.py, server/command_handler.py, server/client_handler.py).
pub mod Parser
pub mod Session
pub mod Files
pub mod Replies
pub mod Handler
pub mod Connection
mod Tests
