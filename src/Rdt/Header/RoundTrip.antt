-- ===== src/Rdt/Header/RoundTrip.antt =====
-- A serialized header is read back, and a packet that was sealed passes the receiver's checks.
use hybrid_ftp_socket.Prelude.{
  ℕ, ◌+◌, ◌*◌, ◌/◌, ◌<◌, ◌^◌, ◌%◌, Bytes, ◌≡◌, refl, true, arith, ◌++◌, length, take_all, drop, ap,
  sym, append-nil, ◌∙◌, subst, [],
}
use hybrid_ftp_socket.Prelude.Outcome.{ok, >>=-eq-ok}
use hybrid_ftp_socket.Rdt.Header.{
  Header, size, fits, wire, serialize, deserialize, unpack, validate_length, payload_of, covered,
  compute_checksum, verify_checksum, sealed,
}

-- The fields are within the widths of the wire format.
pub record InRange (h : Header) : Type 0 where
  pub transfer_id : h.transfer_id < 2 ^ 32
  pub seq_num : h.seq_num < 2 ^ 32
  pub ack_num : h.ack_num < 2 ^ 32
  pub flags : h.flags < 2 ^ 16
  pub checksum : h.checksum < 2 ^ 32
  pub payload_length : h.payload_length < 2 ^ 16

join32 :
    (n : ℕ)
    → n < 2 ^ 32
    → (n / 2 ^ 24 % 2 ^ 8 * 2 ^ 8 + n / 2 ^ 16 % 2 ^ 8) * 2 ^ 16
        + (n / 2 ^ 8 % 2 ^ 8 * 2 ^ 8 + n % 2 ^ 8)
      ≡ n
join32 n h = omega arith

join16 : (n : ℕ) → n < 2 ^ 16 → n / 2 ^ 8 % 2 ^ 8 * 2 ^ 8 + n % 2 ^ 8 ≡ n
join16 n h = omega arith

unpack-wire : (h : Header) (rest : Bytes) → InRange h → unpack (wire h ++ rest) ≡ h
unfolding unpack wire
unpack-wire h rest r = λ i. record {
  transfer_id = join32 h.transfer_id r.transfer_id i;
  seq_num = join32 h.seq_num r.seq_num i;
  ack_num = join32 h.ack_num r.ack_num i;
  flags = join16 h.flags r.flags i;
  checksum = join32 h.checksum r.checksum i;
  payload_length = join16 h.payload_length r.payload_length i;
}

length-wire : (h : Header) (rest : Bytes) → length (wire h ++ rest) ≡ size + length rest
unfolding wire
length-wire h rest = omega arith

drop-wire : (h : Header) (rest : Bytes) → drop size (wire h ++ rest) ≡ rest
unfolding wire
drop-wire h rest = refl

fits-InRange : (h : Header) → fits h ≡ true → InRange h
unfolding fits
fits-InRange h e = ground arith

InRange-fits : (h : Header) → InRange h → fits h ≡ true
unfolding fits
InRange-fits h r = ground arith

deserialize-wire : (h : Header) (rest : Bytes) → InRange h → deserialize (wire h ++ rest) ≡ ok h
unfolding deserialize
deserialize-wire h rest r = ground (arith, length-wire h rest, unpack-wire h rest r)

pub serialize-wire : (h : Header) {b : Bytes} → serialize h ≡ ok b → (b ≡ wire h) × InRange h
unfolding serialize
serialize-wire h e = ground (arith, fits-InRange h)

-- Whatever `serialize` returns has 20 bytes and is read back as the same header, whatever follows
-- it in the packet.
pub deserialize-serialize :
    (h : Header) (rest : Bytes) {b : Bytes}
    → serialize h ≡ ok b
    → (deserialize (b ++ rest) ≡ ok h) × (length b ≡ size)
deserialize-serialize h rest e =
    let (made, r) = serialize-wire h e in
    (
      rw made (deserialize-wire h rest r),
      rw made (ap length (sym (append-nil (wire h))) ∙ length-wire h []),
    )

module _ (crc32 : Bytes → ℕ) where
  -- The checksum of a header in range is a number, never an exception.
  pub compute_checksum-InRange :
      (h : Header) (payload : Bytes)
      → InRange h
      → compute_checksum crc32 h payload ≡ ok (crc32 (covered crc32 h payload) % 2 ^ 32)
  unfolding compute_checksum
  compute_checksum-InRange h payload r = ground arith

  -- The packet passes the tests that a receiver makes, and carries these fields and this payload.
  pub record Passes (h : Header) (payload packet : Bytes) : Type 0 where
    pub reads : deserialize packet ≡ ok h
    pub sized : validate_length h packet ≡ true
    pub body : payload_of h packet ≡ payload
    pub verified : verify_checksum crc32 h payload ≡ ok true
    pub total : length packet ≡ size + length payload

  wire-Passes :
      (h : Header) (payload : Bytes)
      → InRange h
      → h.payload_length ≡ length payload
      → compute_checksum crc32 h payload ≡ ok h.checksum
      → Passes h payload (wire h ++ payload)
  unfolding validate_length verify_checksum
  wire-Passes h payload r l c = record {
    reads = deserialize-wire h payload r;
    sized = ground (arith, length-wire h payload);
    body = rw (drop-wire h payload, l) (take_all (length payload) payload (omega arith));
    verified = ground arith;
    total = length-wire h payload;
  }

  compute_checksum-set :
      (h : Header) (payload : Bytes) (c : ℕ)
      → compute_checksum crc32 (record h { checksum = c }) payload
        ≡ compute_checksum crc32 h payload
  unfolding compute_checksum covered
  compute_checksum-set h payload c = refl

  serialized-Passes :
      (h : Header) (payload : Bytes) (c : ℕ) {b packet : Bytes}
      → h.payload_length ≡ length payload
      → compute_checksum crc32 h payload ≡ ok c
      → serialize (record h { checksum = c }) ≡ ok b
      → ok (b ++ payload) ≡ ok packet
      → Passes (record h { checksum = c }) payload packet
  serialized-Passes h payload c {b} {packet} l p s t =
      let (made, r) = serialize-wire (record h { checksum = c }) s in
      subst (Passes (record h { checksum = c }) payload) (cc (made, t))
        (wire-Passes (record h { checksum = c }) payload r l (compute_checksum-set h payload c ∙ p))

  -- A packet that was sealed passes all of the receiver's tests, with the fields that it was made
  -- of and the computed checksum.
  pub sealed-Passes :
      (h : Header) (payload : Bytes) {packet : Bytes}
      → h.payload_length ≡ length payload
      → sealed crc32 h payload ≡ ok packet
      → (c : ℕ) × Passes (record h { checksum = c }) payload packet
  unfolding sealed
  sealed-Passes h payload {packet} l e =
      let (c, p, q) = >>=-eq-ok (compute_checksum crc32 h payload) _ e in
      let (b, s, t) = >>=-eq-ok (serialize (record h { checksum = c })) _ q in
      (c, serialized-Passes h payload c l p s t)
