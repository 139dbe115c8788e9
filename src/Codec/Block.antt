-- ===== src/Codec/Block.antt =====
-- common/mode_codec.py: block mode, a descriptor byte and a count of two bytes before each block.
pub mod RoundTrip
pub mod Fuel
use hybrid_ftp_socket.Prelude.{
  ℕ, zero, suc, ◌+◌, Bytes, Bool, true, false, ◌||◌, List, [], ◌∷◌, ◌++◌, ltb, if◌then◌else◌,
  length, take, drop, get_or,
}
use hybrid_ftp_socket.Prelude.Outcome.{
  Error, mode_codec_error, block_size, truncated_header, truncated_payload, data_after_eof,
  out_of_fuel,
}
use hybrid_ftp_socket.Rdt.Header.{u16, u16_at, has_flag}
use hybrid_ftp_socket.Codec.Source.{
  Source, stops, raises, yields, content, Filled, enough, short, failed, fill,
}

abbrev pub header_len : ℕ
header_len = 3

abbrev pub flag_eof : ℕ
flag_eof = 0x40

-- `_block_packet`, of a payload whose length has two bytes.
unfoldable pub block_packet : Bytes → Bool → Bytes
block_packet payload eof = (if eof then flag_eof else 0) ∷ (u16 (length payload) ++ payload)

-- The outer loop of `block_encode`, on fuel.
unfoldable pub encode_from : ℕ → ℕ → Bytes → Source → Source
encode_from zero size buffer source = raises out_of_fuel
encode_from (suc fuel) size buffer source = elim (fill (size + 1) buffer source) [
  | failed e ↦ raises e
  | short rest ↦ yields (block_packet rest true) stops
  | enough bytes source' ↦
      yields (block_packet (take size bytes) false)
        (encode_from fuel size (drop size bytes) source')
]

-- Every turn takes a byte or more off, so the fuel is one more than the bytes.
unfoldable pub block_encode : Source → ℕ → Source
block_encode chunks size =
    if ltb size 1 || ltb 0xFFFF size
    then raises (mode_codec_error block_size)
    else encode_from (suc (length (content chunks))) size [] chunks

-- Behind the block with EOF nothing may follow, not even an empty chunk.
unfoldable pub after_eof : Bytes → Source → Source
after_eof (b ∷ buffer) source = raises (mode_codec_error data_after_eof)
after_eof [] stops = stops
after_eof [] (raises e) = raises e
after_eof [] (yields extra rest) = raises (mode_codec_error data_after_eof)

-- The loop of `block_decode`, on fuel. `eof_seen` is false at its head, since the turn that sets
-- it returns or raises.
unfoldable pub decode_from : ℕ → Bytes → Source → Source
decode_from zero buffer source = raises out_of_fuel
decode_from (suc fuel) buffer source = elim (fill header_len buffer source) [
  | failed e ↦ raises e
  | short rest ↦ raises (mode_codec_error truncated_header)
  | enough bytes source' ↦ elim (fill (u16_at bytes 1) (drop header_len bytes) source') [
    | failed e ↦ raises e
    | short rest ↦ raises (mode_codec_error truncated_payload)
    | enough bytes' source'' ↦ yields (take (u16_at bytes 1) bytes') (
        if has_flag (get_or bytes 0 0) flag_eof
        then after_eof (drop (u16_at bytes 1) bytes') source''
        else decode_from fuel (drop (u16_at bytes 1) bytes') source'')
  ]
]

-- Every turn takes a header off, so the fuel is one more than the bytes.
unfoldable pub block_decode : Source → Source
block_decode chunks = decode_from (suc (length (content chunks))) [] chunks
