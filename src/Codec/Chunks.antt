-- ===== src/Codec/Chunks.antt =====
-- common/mode_codec.py: the names of modes and types, `encode_chunks` and `decode_chunks`.
pub mod RoundTrip
use hybrid_ftp_socket.Prelude.{
  ℕ, Bool, true, false, Option, none, some, List, [], ◌∷◌, ◌==◌, if◌then◌else◌,
}
use hybrid_ftp_socket.Prelude.Text.{strip, upper}
use hybrid_ftp_socket.Prelude.Outcome.{
  Error, Malformed, Result, ok, err, mode_codec_error, unknown_mode, unknown_type,
}
use hybrid_ftp_socket.Rdt.Context.{is_mode, is_type}
use hybrid_ftp_socket.Codec.Source.{Source, raises}
use hybrid_ftp_socket.Codec.Block.{block_encode, block_decode}
use hybrid_ftp_socket.Codec.Wire.{batch_wire, wire_chunk_size}
use hybrid_ftp_socket.Codec.Compressed.{compressed_encode, compressed_decode}

-- A text of one letter that passes the test.
unfoldable pub letter : (ℕ → Bool) → Malformed → List ℕ → Result ℕ
letter test reason [] = err (mode_codec_error reason)
letter test reason (c ∷ []) = if test c then ok c else err (mode_codec_error reason)
letter test reason (c ∷ d ∷ s) = err (mode_codec_error reason)

unfoldable pub normalize_mode : Option (List ℕ) → Result ℕ
normalize_mode none = ok b'S'
normalize_mode (some mode) = letter is_mode unknown_mode (upper (strip mode))

unfoldable pub normalize_transfer_type : Option (List ℕ) → Result ℕ
normalize_transfer_type none = ok b'I'
normalize_transfer_type (some transfer_type) =
    letter is_type unknown_type (upper (strip transfer_type))

unfoldable pub compressed_filler_byte : Option (List ℕ) → Result ℕ
compressed_filler_byte transfer_type = elim (normalize_transfer_type transfer_type) [
  | err e ↦ err e
  | ok representation ↦ ok (if representation == b'A' then 0x20 else 0x00)
]

-- Compressed mode with the filler of a type.
unfoldable pub with_filler : Result ℕ → (ℕ → Source) → Source
with_filler (err e) codec = raises e
with_filler (ok filler) codec = codec filler

-- The codec of a mode: the chunks themselves for stream mode.
unfoldable pub dispatch : Result ℕ → Source → Source → Source → Source
dispatch (err e) stream block compressed = raises e
dispatch (ok normalized) stream block compressed =
    if normalized == b'S' then stream else if normalized == b'B' then block else compressed

unfoldable pub encode_chunks : Source → Option (List ℕ) → Option (List ℕ) → Source
encode_chunks chunks mode transfer_type =
    dispatch (normalize_mode mode) chunks
      (batch_wire (block_encode chunks wire_chunk_size) wire_chunk_size)
      (with_filler (compressed_filler_byte transfer_type)
        (λ filler. batch_wire (compressed_encode filler chunks) wire_chunk_size))

unfoldable pub decode_chunks : Source → Option (List ℕ) → Option (List ℕ) → Source
decode_chunks chunks mode transfer_type =
    dispatch (normalize_mode mode) chunks (block_decode chunks) (
      with_filler (compressed_filler_byte transfer_type)
        (λ filler. compressed_decode filler chunks))
