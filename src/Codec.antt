-- ===== src/Codec.antt =====
-- common/mode_codec.py: the codecs of the transmission modes.
pub mod Source
pub mod Block
pub mod Wire
pub mod Compressed
pub mod Chunks
mod Tests
