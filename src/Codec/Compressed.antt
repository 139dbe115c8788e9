-- ===== src/Codec/Compressed.antt =====
-- common/mode_codec.py: compressed mode, run-length encoding with literals, runs and fillers.
-- A byte is below 256, so the masks of the code are remainders and quotients by powers of two:
-- `header & 0x80` is `header / 128 % 2` and `0x80 | run` is `0x80 + run`.
pub mod Counts
pub mod Primitives
pub mod RoundTrip
use hybrid_ftp_socket.Prelude.{
  ℕ, zero, suc, ◌+◌, ◌/◌, ◌%◌, Bytes, Bool, true, false, ◌&&◌, ◌||◌, not, List, [], ◌∷◌, ◌++◌, leb,
  ltb, ◌==◌, if◌then◌else◌, length, take, drop, get_or, replicate,
}
use hybrid_ftp_socket.Prelude.Outcome.{
  Error, Malformed, mode_codec_error, truncated_escape, control_byte, data_after_eof,
  truncated_literal, zero_filler, zero_run, truncated_run, missing_eof, out_of_fuel,
}
use hybrid_ftp_socket.Codec.Source.{
  Source, stops, raises, yields, content, Filled, enough, short, failed, fill,
}

-- `COMPRESSED_MAX_LITERAL` and `COMPRESSED_MAX_RUN`
abbrev pub max_literal : ℕ
max_literal = 127

abbrev pub max_run : ℕ
max_run = 63

-- The bytes at the front that equal `byte`, up to `cap` of them.
unfoldable pub run_length : ℕ → ℕ → Bytes → ℕ
run_length zero byte buffer = 0
run_length (suc cap) byte [] = 0
run_length (suc cap) byte (c ∷ buffer) = if c == byte then suc (run_length cap byte buffer) else 0

-- The loop that counts a literal: how far the bytes differ from their successors, up to `cap`.
unfoldable pub literal_more : ℕ → Bytes → ℕ
literal_more zero buffer = 0
literal_more (suc cap) [] = 0
literal_more (suc cap) (c ∷ []) = 0
literal_more (suc cap) (c ∷ d ∷ buffer) = if c == d then 0 else suc (literal_more cap (d ∷ buffer))

unfoldable pub literal_length : Bytes → ℕ
literal_length buffer = 1 + literal_more 126 (drop 1 buffer)

-- The primitives on the wire.
unfoldable pub run_primitive : ℕ → ℕ → ℕ → Bytes
run_primitive filler byte run =
    if byte == filler then (0xC0 + run) ∷ [] else (0x80 + run) ∷ byte ∷ []

unfoldable pub literal_primitive : Bytes → Bytes
literal_primitive literal = length literal ∷ literal

-- The buffer and the source once the run at the front is known: when the buffer ends with it, one
-- byte more is asked for. `short` means that the source has stopped.
unfoldable pub lengthened : ℕ → Bytes → Source → Filled
lengthened run buffer source =
    if ltb run max_run && run == length buffer
    then fill (run + 1) buffer source
    else enough buffer source

abbrev pub eof_escape : Bytes
eof_escape = 0x00 ∷ 0x40 ∷ []

-- A literal at the front of the buffer, then the rest of the loop.
unfoldable pub put_literal : Bytes → Source → (Bytes → Source → Source) → Source
put_literal buffer source next =
    yields (literal_primitive (take (literal_length buffer) buffer))
      (next (drop (literal_length buffer) buffer) source)

-- A turn of the loop from where the run is counted for the last time.
unfoldable pub put_primitive : ℕ → Bytes → Source → (Bytes → Source → Source) → Source
put_primitive filler buffer source next =
    let byte = get_or buffer 0 0 in
    let run = run_length max_run byte buffer in
    elim (leb 2 run) [
      | true ↦ yields (run_primitive filler byte run) (next (drop run buffer) source)
      | false ↦ elim (fill (max_literal + 2) buffer source) [
        | failed e ↦ raises e
        | short rest ↦ put_literal rest stops next
        | enough bytes source' ↦ put_literal bytes source' next
      ]
    ]

-- The loop of `compressed_encode`, on fuel.
unfoldable pub compress_from : ℕ → ℕ → Bytes → Source → Source
compress_from zero filler buffer source = raises out_of_fuel
compress_from (suc fuel) filler buffer source = elim (fill 1 buffer source) [
  | failed e ↦ raises e
  | short rest ↦ yields eof_escape stops
  | enough bytes source' ↦
      elim (lengthened (run_length max_run (get_or bytes 0 0) bytes) bytes source') [
        | failed e ↦ raises e
        | short rest ↦ put_primitive filler rest stops (compress_from fuel filler)
        | enough bytes' source'' ↦ put_primitive filler bytes' source'' (compress_from fuel filler)
      ]
]

-- Every turn takes a byte or more off, so the fuel is one more than the bytes. `filler` is what
-- `compressed_filler_byte` says of the type.
unfoldable pub compressed_encode : ℕ → Source → Source
compressed_encode filler chunks = compress_from (suc (length (content chunks))) filler [] chunks

-- Behind the EOF escape no byte may follow.
unfoldable pub expect_end : Bytes → Source → Source
expect_end buffer source = elim (fill 1 buffer source) [
  | failed e ↦ raises e
  | short rest ↦ stops
  | enough bytes source' ↦ raises (mode_codec_error data_after_eof)
]

-- The escape: a descriptor follows, which ends the file or is passed over.
unfoldable pub take_escape : Bytes → Source → (Bytes → Source → Source) → Source
take_escape buffer source next = elim (fill 1 buffer source) [
  | failed e ↦ raises e
  | short rest ↦ raises (mode_codec_error truncated_escape)
  | enough bytes source' ↦
      let descriptor = get_or bytes 0 0 in
      if descriptor == 0 || not (descriptor % 16 == 0)
      then raises (mode_codec_error control_byte)
      else if descriptor / 64 % 2 == 1
      then expect_end (drop 1 bytes) source'
      else next (drop 1 bytes) source'
]

-- A literal of `count` bytes.
unfoldable pub take_literal : ℕ → Bytes → Source → (Bytes → Source → Source) → Source
take_literal count buffer source next = elim (fill count buffer source) [
  | failed e ↦ raises e
  | short rest ↦ raises (mode_codec_error truncated_literal)
  | enough bytes source' ↦ yields (take count bytes) (next (drop count bytes) source')
]

-- A byte that is repeated `count` times.
unfoldable pub take_run : ℕ → Bytes → Source → (Bytes → Source → Source) → Source
take_run count buffer source next = elim (fill 1 buffer source) [
  | failed e ↦ raises e
  | short rest ↦ raises (mode_codec_error truncated_run)
  | enough bytes source' ↦ yields (replicate count (get_or bytes 0 0)) (next (drop 1 bytes) source')
]

-- A primitive, by its first byte.
unfoldable pub take_primitive : ℕ → ℕ → Bytes → Source → (Bytes → Source → Source) → Source
take_primitive filler header buffer source next =
    if header / 128 % 2 == 0
    then (if header % 128 == 0
        then take_escape buffer source next
        else take_literal (header % 128) buffer source next)
    else if header / 64 % 2 == 1
    then (if header % 64 == 0
        then raises (mode_codec_error zero_filler)
        else yields (replicate (header % 64) filler) (next buffer source))
    else if header % 64 == 0
    then raises (mode_codec_error zero_run)
    else take_run (header % 64) buffer source next

-- The loop of `compressed_decode`, on fuel. `eof_seen` is false at its head, since the turn that
-- sets it returns or raises.
unfoldable pub expand_from : ℕ → ℕ → Bytes → Source → Source
expand_from zero filler buffer source = raises out_of_fuel
expand_from (suc fuel) filler buffer source = elim (fill 1 buffer source) [
  | failed e ↦ raises e
  | short rest ↦ raises (mode_codec_error missing_eof)
  | enough bytes source' ↦
      take_primitive filler (get_or bytes 0 0) (drop 1 bytes) source' (expand_from fuel filler)
]

-- Every turn takes a byte or more off, so the fuel is one more than the bytes.
unfoldable pub compressed_decode : ℕ → Source → Source
compressed_decode filler chunks = expand_from (suc (length (content chunks))) filler [] chunks
