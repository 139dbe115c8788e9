-- ===== src/Codec/Chunks/RoundTrip.antt =====
-- What `encode_chunks` makes of a file, `decode_chunks` gives back, in every mode.
use hybrid_ftp_socket.Prelude.{
  ℕ, Option, none, List, ◌≡◌, refl, sym, ◌∙◌, arith, inl, inr, ◌==◌, Bool-cases,
}
use hybrid_ftp_socket.Prelude.Outcome.{Result, ok, err}
use hybrid_ftp_socket.Codec.Source.{Source, content, ending}
use hybrid_ftp_socket.Codec.Block.{block_encode, block_decode}
use hybrid_ftp_socket.Codec.Wire.{batch_wire, wire_chunk_size}
use hybrid_ftp_socket.Codec.Wire.Batches.{batch_wire_lem, batch_wire-ending}
use hybrid_ftp_socket.Codec.Wire.Blocks.{block_decode-batch_wire}
use hybrid_ftp_socket.Codec.Compressed.{compressed_encode, compressed_decode}
use hybrid_ftp_socket.Codec.Compressed.Primitives.{Decoded}
use hybrid_ftp_socket.Codec.Compressed.RoundTrip.{compressed_decode-compressed_encode}
use hybrid_ftp_socket.Codec.Chunks.{
  normalize_mode, compressed_filler_byte, with_filler, dispatch, encode_chunks, decode_chunks,
}

module _ (chunks : Source) (clean : ending chunks ≡ none) where
  compressed-Decoded :
      (filler : Result ℕ)
      → let encoded =
          with_filler filler (λ f. batch_wire (compressed_encode f chunks) wire_chunk_size) in
        ending encoded ≡ none
        → Decoded (with_filler filler (λ f. compressed_decode f encoded)) (content chunks)
  unfolding with_filler ending
  compressed-Decoded (err e) ended = absurd cc
  compressed-Decoded (ok filler) ended =
      let inner =
        sym (batch_wire-ending wire_chunk_size (compressed_encode filler chunks) (omega arith))
        ∙ ended in
      let cut =
        batch_wire_lem wire_chunk_size (compressed_encode filler chunks) (omega arith) inner in
      compressed_decode-compressed_encode filler chunks
        (batch_wire (compressed_encode filler chunks) wire_chunk_size) clean ended cut.0

  dispatch-Decoded :
      (mode filler : Result ℕ)
      → let encoded =
          dispatch mode chunks
            (batch_wire (block_encode chunks wire_chunk_size) wire_chunk_size)
            (with_filler filler (λ f. batch_wire (compressed_encode f chunks) wire_chunk_size)) in
        ending encoded ≡ none
        → Decoded
            (dispatch mode encoded
              (block_decode encoded)
              (with_filler filler (λ f. compressed_decode f encoded)))
            (content chunks)
  unfolding dispatch ending
  dispatch-Decoded (err e) filler = λ ended. absurd cc
  dispatch-Decoded (ok normalized) filler = elim (Bool-cases (normalized == b'S')) [
    | inl t ↦ rw t (λ ended. (refl, ended))
    | inr t ↦ elim (Bool-cases (normalized == b'B')) [
      | inl u ↦ rw (t, u) (λ ended. block_decode-batch_wire chunks clean)
      | inr u ↦ rw (t, u) (compressed-Decoded filler)
    ]
  ]

  -- For chunks, a mode and a type for which `encode_chunks` does not raise: `decode_chunks` with the
  -- same mode and type gives back the bytes of the chunks, and stops without an exception.
  pub decode_chunks-encode_chunks :
      (mode transfer_type : Option (List ℕ))
      → ending (encode_chunks chunks mode transfer_type) ≡ none
      → let decoded = decode_chunks (encode_chunks chunks mode transfer_type) mode transfer_type in
        (content decoded ≡ content chunks) × (ending decoded ≡ none)
  unfolding encode_chunks decode_chunks
  decode_chunks-encode_chunks mode transfer_type ended =
      dispatch-Decoded (normalize_mode mode) (compressed_filler_byte transfer_type) ended
