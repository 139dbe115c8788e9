-- ===== src/Rdt.antt =====
-- The reliable data transfer over UDP (common/RDTHeader.py, common/rdt_context.py,
-- common/rdt_sender.py, common/rdt_receiver.py).
pub mod Header
pub mod Context
pub mod Network
pub mod Receiver
pub mod Sender
pub mod Protocol
mod Tests
