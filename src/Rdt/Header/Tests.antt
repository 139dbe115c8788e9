-- ===== src/Rdt/Header/Tests.antt =====
-- The theorems on headers and metadata applied to concrete packets.
use hybrid_ftp_socket.Prelude.{
  ℕ, ◌+◌, ◌*◌, ◌<◌, ◌^◌, Bytes, ◌≡◌, refl, some, List, [], ◌∷◌, ◌++◌, arith, length, All,
}
use hybrid_ftp_socket.Prelude.Text.{is_space, lstrip, strip, upper_char, upper}
use hybrid_ftp_socket.Prelude.Outcome.{ok}
use hybrid_ftp_socket.Rdt.Header.{
  Header, serialize, deserialize, is_valid_flags, fits, wire, covered, compute_checksum, sealed,
  size,
}
use hybrid_ftp_socket.Rdt.Header.RoundTrip.{Passes, deserialize-serialize, sealed-Passes}
use hybrid_ftp_socket.Rdt.Context.{
  encode_start_metadata, decode_start_metadata, is_mode, is_mode_text, is_type, is_type_text, u64,
  text, normalize_transfer_id,
}
use hybrid_ftp_socket.Rdt.Context.Metadata.{
  decode-encode_start_metadata, IsHex, normalize_transfer_id-lt,
}

-- A stand-in for `zlib.crc32`.
unfoldable sum_of : Bytes → ℕ
sum_of [] = 0
sum_of (b ∷ bytes) = b + 3 * sum_of bytes

abbrev data_header : Header
data_header = record {
  transfer_id = 0xDEADBEEF;
  seq_num = 258;
  ack_num = 0;
  flags = 5;
  checksum = 7;
  payload_length = 3;
}

abbrev payload : Bytes
payload = 1 ∷ 2 ∷ 3 ∷ []

serialized : serialize data_header ≡ ok (wire data_header)
unfolding serialize is_valid_flags fits
serialized = refl

deserialize-serialize_example :
    (deserialize (wire data_header ++ payload) ≡ ok data_header)
    × (length (wire data_header) ≡ size)
deserialize-serialize_example = deserialize-serialize data_header payload serialized

abbrev packet : Bytes
packet =
    wire (record data_header { checksum = sum_of (covered sum_of data_header payload) }) ++ payload

packet-sealed : sealed sum_of data_header payload ≡ ok packet
unfolding sealed compute_checksum serialize is_valid_flags fits covered sum_of wire
packet-sealed = refl

sealed-Passes_example : (c : ℕ) × Passes sum_of (record data_header { checksum = c }) payload packet
sealed-Passes_example = sealed-Passes sum_of data_header payload refl packet-sealed

-- " b" for the mode and "I" for the type.
abbrev metadata : Bytes
metadata = 0 ∷ 0 ∷ 0 ∷ 0 ∷ 0 ∷ 0 ∷ 1 ∷ 44 ∷ b'B' ∷ b'I' ∷ []

metadata-encoded : encode_start_metadata (some 300) (32 ∷ b'b' ∷ []) (b'I' ∷ []) ≡ ok metadata
unfolding encode_start_metadata is_space lstrip strip upper_char upper is_mode is_mode_text is_type
    is_type_text u64
metadata-encoded = refl

decode-encode_start_metadata_example :
    (m : ℕ) × (t : ℕ) × (upper (strip (32 ∷ b'b' ∷ [])) ≡ m ∷ [])
    × (upper (strip (b'I' ∷ [])) ≡ t ∷ [])
    × (decode_start_metadata metadata ≡ ok (300, some m, some t))
decode-encode_start_metadata_example =
    decode-encode_start_metadata (some 300) (32 ∷ b'b' ∷ []) (b'I' ∷ []) metadata-encoded

-- A stand-in for `hashlib.sha256(...).hexdigest()`.
abbrev hexdigest : List ℕ → List ℕ
hexdigest s = b'f' ∷ b'f' ∷ b'f' ∷ b'f' ∷ b'f' ∷ b'f' ∷ b'f' ∷ b'0' ∷ b'1' ∷ []

hexdigest-IsHex : (s : List ℕ) → All IsHex (hexdigest s)
hexdigest-IsHex s = ground arith

normalize_transfer_id-lt_example : normalize_transfer_id hexdigest (text (b'q' ∷ [])) < 2 ^ 32
normalize_transfer_id-lt_example =
    normalize_transfer_id-lt hexdigest hexdigest-IsHex (text (b'q' ∷ []))
