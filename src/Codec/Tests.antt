-- ===== src/Codec/Tests.antt =====
-- The theorems on the codecs applied to a short file.
use hybrid_ftp_socket.Prelude.{none, [], ◌∷◌, ◌≡◌, refl, arith}
use hybrid_ftp_socket.Codec.Source.{Source, stops, yields, content, ending, fill}
use hybrid_ftp_socket.Codec.Block.{block_packet, encode_from, block_encode, block_decode}
use hybrid_ftp_socket.Codec.Block.Fuel.{block_decode-fueled}
use hybrid_ftp_socket.Prelude.{◌≢◌}
use hybrid_ftp_socket.Prelude.Outcome.{out_of_fuel}
use hybrid_ftp_socket.Codec.Block.RoundTrip.{block_decode-block_encode, block_encode-ending}
use hybrid_ftp_socket.Codec.Wire.{batch_wire}
use hybrid_ftp_socket.Codec.Wire.Batches.{IsBatched, batch_wire_lem}
use hybrid_ftp_socket.Prelude.{some}
use hybrid_ftp_socket.Prelude.Text.{is_space, lstrip, strip, upper_char, upper}
use hybrid_ftp_socket.Rdt.Context.{is_mode, is_type}
use hybrid_ftp_socket.Codec.Wire.{flush, last_batch, batch_from}
use hybrid_ftp_socket.Codec.Compressed.{
  run_length, literal_more, literal_length, run_primitive, literal_primitive, lengthened,
  put_literal, put_primitive, compress_from, compressed_encode, compressed_decode,
}
use hybrid_ftp_socket.Codec.Compressed.RoundTrip.{compressed_decode-compressed_encode}
use hybrid_ftp_socket.Codec.Chunks.{
  letter, normalize_mode, normalize_transfer_type, compressed_filler_byte, with_filler, dispatch,
  encode_chunks, decode_chunks,
}
use hybrid_ftp_socket.Codec.Chunks.RoundTrip.{decode_chunks-encode_chunks}

abbrev file : Source
file = yields (1 ∷ 2 ∷ 3 ∷ []) (yields (4 ∷ 5 ∷ []) stops)

-- The blocks of the file, of two bytes each, cut at other places.
abbrev cut : Source
cut =
    yields (0 ∷ 0 ∷ [])
      (yields (2 ∷ 1 ∷ 2 ∷ 0 ∷ 0 ∷ 2 ∷ 3 ∷ 4 ∷ 64 ∷ []) (yields (0 ∷ 1 ∷ 5 ∷ []) stops))

file-ending : ending file ≡ none
unfolding ending
file-ending = refl

cut-ending : ending cut ≡ none
unfolding ending
cut-ending = refl

cut-content : content cut ≡ content (block_encode file 2)
unfolding content block_encode encode_from fill block_packet
cut-content = refl

block_decode-block_encode_example :
    (content (block_decode cut) ≡ content file) × (ending (block_decode cut) ≡ none)
block_decode-block_encode_example =
    block_decode-block_encode 2 file cut (omega arith) (omega arith) file-ending cut-ending
      (omega arith, (omega arith, (omega arith, tt))) cut-content

block_encode-ending_example : ending (block_encode file 2) ≡ none
block_encode-ending_example = block_encode-ending 2 file (omega arith) (omega arith) file-ending

batch_wire_lem_example :
    (content (batch_wire file 4) ≡ content file)
    × (ending (batch_wire file 4) ≡ none)
    × IsBatched 4 (batch_wire file 4)
batch_wire_lem_example = batch_wire_lem 4 file (omega arith) file-ending

-- A run over two chunks, fillers and a literal.
abbrev runs : Source
runs = yields (7 ∷ 7 ∷ []) (yields (7 ∷ 0 ∷ 0 ∷ 0 ∷ []) (yields (1 ∷ 2 ∷ []) stops))

runs-ending : ending runs ≡ none
unfolding ending
runs-ending = refl

abbrev runs_cut : Source
runs_cut = yields [] (
    yields (0x83 ∷ [])
      (yields (7 ∷ 0xC3 ∷ 1 ∷ 1 ∷ []) (yields (1 ∷ 2 ∷ 0 ∷ []) (yields (0x40 ∷ []) stops))))

runs_cut-ending : ending runs_cut ≡ none
unfolding ending
runs_cut-ending = refl

runs_cut-content : content runs_cut ≡ content (compressed_encode 0 runs)
unfolding content compressed_encode compress_from fill lengthened put_primitive put_literal
    run_length literal_more literal_length run_primitive literal_primitive
runs_cut-content = refl

compressed_decode-compressed_encode_example :
    (content (compressed_decode 0 runs_cut) ≡ content runs)
    × (ending (compressed_decode 0 runs_cut) ≡ none)
compressed_decode-compressed_encode_example =
    compressed_decode-compressed_encode 0 runs runs_cut runs-ending runs_cut-ending runs_cut-content

runs-encoded : ending (encode_chunks runs (some (b'c' ∷ [])) (some (b'A' ∷ []))) ≡ none
unfolding ending content encode_chunks dispatch with_filler letter normalize_mode
    normalize_transfer_type compressed_filler_byte is_mode is_type is_space lstrip strip upper_char
    upper batch_wire batch_from flush last_batch compressed_encode compress_from fill lengthened
    put_primitive put_literal run_length literal_more literal_length run_primitive literal_primitive
runs-encoded = refl

decode_chunks-encode_chunks_example :
    let decoded =
      decode_chunks
        (encode_chunks runs (some (b'c' ∷ [])) (some (b'A' ∷ [])))
        (some (b'c' ∷ []))
        (some (b'A' ∷ [])) in
    (content decoded ≡ content runs) × (ending decoded ≡ none)
decode_chunks-encode_chunks_example =
    decode_chunks-encode_chunks runs runs-ending (some (b'c' ∷ [])) (some (b'A' ∷ [])) runs-encoded

-- A file whose second block is cut off.
abbrev truncated : Source
truncated = yields (0 ∷ 0 ∷ 1 ∷ 9 ∷ []) (yields (64 ∷ 0 ∷ 2 ∷ 8 ∷ []) stops)

truncated-ending : ending truncated ≢ some out_of_fuel
unfolding ending
truncated-ending e = absurd cc

block_decode-fueled_example : ending (block_decode truncated) ≢ some out_of_fuel
block_decode-fueled_example = block_decode-fueled truncated truncated-ending
