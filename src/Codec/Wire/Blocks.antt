-- ===== src/Codec/Wire/Blocks.antt =====
-- Block mode from end to end: what `encode_chunks` makes of the file, `decode_chunks` gives back.
use hybrid_ftp_socket.Prelude.{none, ◌≡◌, arith}
use hybrid_ftp_socket.Codec.Source.{Source, content, ending}
use hybrid_ftp_socket.Codec.Block.{block_encode, block_decode}
use hybrid_ftp_socket.Codec.Block.RoundTrip.{block_decode-block_encode, block_encode-ending}
use hybrid_ftp_socket.Codec.Wire.{batch_wire, wire_chunk_size}
use hybrid_ftp_socket.Codec.Wire.Batches.{batch_wire_lem, IsBatched-IsSolid}

-- When the chunks do not raise, the blocks, cut into wire chunks of 1024 bytes as they are
-- sent, are decoded to the bytes of the chunks, and the decoder stops without an exception.
pub block_decode-batch_wire :
    (chunks : Source)
    → ending chunks ≡ none
    → let decoded =
        block_decode (batch_wire (block_encode chunks wire_chunk_size) wire_chunk_size) in
      (content decoded ≡ content chunks) × (ending decoded ≡ none)
block_decode-batch_wire chunks e =
    let encoded = block_encode-ending wire_chunk_size chunks (omega arith) (omega arith) e in
    let cut =
      batch_wire_lem wire_chunk_size (block_encode chunks wire_chunk_size) (omega arith) encoded in
    block_decode-block_encode wire_chunk_size chunks
      (batch_wire (block_encode chunks wire_chunk_size) wire_chunk_size) (omega arith) (omega arith)
      e cut.1 (IsBatched-IsSolid wire_chunk_size _ cut.2) cut.0
