-- ===== src/Rdt/Header.antt =====
-- common/RDTHeader.py: the packet header, its wire form and its checksum.
-- `zlib.crc32` is not in the repository: it is the parameter `crc32`.
pub mod RoundTrip
mod Tests
use hybrid_ftp_socket.Prelude.{
  ℕ, ◌+◌, ◌*◌, ◌/◌, ◌%◌, ◌^◌, Bytes, Bool, ◌&&◌, ◌||◌, [], ◌∷◌, ◌++◌, ltb, leb, ◌==◌, if◌then◌else◌,
  length, get_or, bit_and, not, ◌-◌, drop, take,
}
use hybrid_ftp_socket.Prelude.Outcome.{
  Result, ok, err, value_error, struct_error, guard, ◌>>=◌, ◌>>◌,
}

-- `RDTHeader.size`, that is `struct.calcsize("!IIIHIH")`.
abbrev pub size : ℕ
size = 20

abbrev pub flag_data : ℕ
flag_data = 0x01

abbrev pub flag_ack : ℕ
flag_ack = 0x02

abbrev pub flag_fin : ℕ
flag_fin = 0x04

abbrev pub flag_start : ℕ
flag_start = 0x08

abbrev pub flag_abort : ℕ
flag_abort = 0x10

pub record Header : Type 0 where
  pub transfer_id : ℕ
  pub seq_num : ℕ
  pub ack_num : ℕ
  pub flags : ℕ
  pub checksum : ℕ
  pub payload_length : ℕ

-- `flags in cls._VALID_FLAG_SETS`
unfoldable pub is_valid_flags : ℕ → Bool
is_valid_flags flags =
    flags == flag_data
    || flags == flag_fin
    || flags == flag_data + flag_fin
    || flags == flag_ack
    || flags == flag_start
    || flags == flag_abort

-- `flags & mask`, read as a truth value.
unfoldable pub has_flag : ℕ → ℕ → Bool
has_flag flags mask = not (bit_and flags mask == 0)

-- Network order: `H` and `I` of `struct.pack`.
abbrev pub u16 : ℕ → Bytes
u16 n = n / 2 ^ 8 % 2 ^ 8 ∷ n % 2 ^ 8 ∷ []

abbrev pub u32 : ℕ → Bytes
u32 n = n / 2 ^ 24 % 2 ^ 8 ∷ n / 2 ^ 16 % 2 ^ 8 ∷ n / 2 ^ 8 % 2 ^ 8 ∷ n % 2 ^ 8 ∷ []

-- `struct.unpack` of `H` and `I` at a position.
abbrev pub u16_at : Bytes → ℕ → ℕ
u16_at b i = get_or b i 0 * 2 ^ 8 + get_or b (i + 1) 0

abbrev pub u32_at : Bytes → ℕ → ℕ
u32_at b i = u16_at b i * 2 ^ 16 + u16_at b (i + 2)

-- Where `struct.pack("!IIIHIH", ...)` does not raise `struct.error`.
unfoldable pub fits : Header → Bool
fits h =
    ltb h.transfer_id (2 ^ 32)
    && ltb h.seq_num (2 ^ 32)
    && ltb h.ack_num (2 ^ 32)
    && ltb h.flags (2 ^ 16)
    && ltb h.checksum (2 ^ 32)
    && ltb h.payload_length (2 ^ 16)

unfoldable pub wire : Header → Bytes
wire h =
    u32 h.transfer_id
    ++ (u32 h.seq_num
        ++ (u32 h.ack_num ++ (u16 h.flags ++ (u32 h.checksum ++ u16 h.payload_length))))

unfoldable pub serialize : Header → Result Bytes
serialize h = do
  guard (is_valid_flags h.flags) value_error
  guard (leb h.payload_length 0xFFFF) value_error
  guard (fits h) struct_error
  ok (wire h)

unfoldable pub unpack : Bytes → Header
unpack b = record {
  transfer_id = u32_at b 0;
  seq_num = u32_at b 4;
  ack_num = u32_at b 8;
  flags = u16_at b 12;
  checksum = u32_at b 14;
  payload_length = u16_at b 18;
}

unfoldable pub deserialize : Bytes → Result Header
deserialize b = if ltb (length b) size then err value_error else ok (unpack b)

-- `available = len(packet_data) - self.size`, which is negative for a shorter packet.
unfoldable pub validate_length : Header → Bytes → Bool
validate_length h packet = leb size (length packet) && h.payload_length == length packet - size

-- `data[RDTHeader.size : RDTHeader.size + header.length]`
abbrev pub payload_of : Header → Bytes → Bytes
payload_of h packet = take h.payload_length (drop size packet)

module _ (crc32 : Bytes → ℕ) where
  -- What the checksum covers: the header without it (`!IIIHI`), then the payload.
  unfoldable pub covered : Header → Bytes → Bytes
  covered h payload =
      u32 h.transfer_id
      ++ (u32 h.seq_num ++ (u32 h.ack_num ++ (u16 h.flags ++ (u32 h.payload_length ++ payload))))

  unfoldable pub compute_checksum : Header → Bytes → Result ℕ
  compute_checksum h payload =
      if ltb h.transfer_id (2 ^ 32)
        && ltb h.seq_num (2 ^ 32)
        && ltb h.ack_num (2 ^ 32)
        && ltb h.flags (2 ^ 16)
        && ltb h.payload_length (2 ^ 32)
      then ok (crc32 (covered h payload) % 2 ^ 32)
      else err struct_error

  unfoldable pub verify_checksum : Header → Bytes → Result Bool
  verify_checksum h payload = do computed ← compute_checksum h payload; ok (h.checksum == computed)

  -- How every packet is made: the header gets its checksum, is serialized, and the payload follows.
  unfoldable pub sealed : Header → Bytes → Result Bytes
  sealed h payload = do
    computed ← compute_checksum h payload
    bytes ← serialize (record h { checksum = computed })
    ok (bytes ++ payload)
