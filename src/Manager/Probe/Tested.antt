-- ===== src/Manager/Probe/Tested.antt =====
-- What the tests of `_wait_for_passive_peer` say of a datagram.
use hybrid_ftp_socket.Prelude.{
  ℕ, ◌+◌, Bytes, Bool, true, false, ◌&&◌, not, Option, none, some, [], ◌∷◌, ◌==◌, drop, length, ◌≡◌,
  refl, ap, ◌∙◌, arith,
}
use hybrid_ftp_socket.Prelude.Outcome.{Result, ok, err}
use hybrid_ftp_socket.Prelude.Numerals.{Text, text_eq}
use hybrid_ftp_socket.Prelude.Numerals.Equality.{text_eq_lem}
use hybrid_ftp_socket.Rdt.Header.{
  Header, size, flag_start, deserialize, validate_length, verify_checksum,
}
use hybrid_ftp_socket.Manager.Probe.{is_other, is_sound, is_probe}

not-false : (b : Bool) → not b ≡ false → b ≡ true
not-false true e = refl
not-false false e = absurd cc

pub is_other-expected :
    (expected_ip : Option Text) (host : Text)
    → is_other expected_ip host ≡ false
    → (c : ℕ) (ip : Text) → expected_ip ≡ some (c ∷ ip)
    → host ≡ c ∷ ip
unfolding is_other
is_other-expected none host e c ip same = absurd cc
is_other-expected (some []) host e c ip same = absurd cc
is_other-expected (some (d ∷ known)) host e c ip same =
    let equal : text_eq host (d ∷ known) ≡ true = not-false (text_eq host (d ∷ known)) e in
    text_eq_lem host (d ∷ known) equal ∙ cc

module _ (crc32 : Bytes → ℕ) where
  -- What the tests of the code say.
  pub record IsTested (packet : Bytes) : Type 0 where
    pub header : Header
    pub reads : deserialize packet ≡ ok header
    pub kind : header.flags ≡ 0x08
    pub first : header.seq_num ≡ 0
    pub sized : size + header.payload_length ≡ length packet
    pub sound : verify_checksum crc32 header (drop size packet) ≡ ok true

  all_true :
      (a b c d : Bool)
      → (a && b && c && d) ≡ true
      → (a ≡ true) × (b ≡ true) × (c ≡ true) × (d ≡ true)
  all_true true true true true t = (refl, refl, refl, refl)
  all_true true true true false t = absurd cc
  all_true true true false d t = absurd cc
  all_true true false c d t = absurd cc
  all_true false b c d t = absurd cc

  is_sound_lem :
      (header : Header) (packet : Bytes)
      → is_sound crc32 header packet ≡ true
      → verify_checksum crc32 header (drop size packet) ≡ ok true
  unfolding is_sound
  is_sound_lem header packet e = by_result (verify_checksum crc32 header (drop size packet)) e
    where
      by_result :
          (result : Result Bool)
          → (elim result [ ok same ↦ same | err e ↦ false ]) ≡ true
          → result ≡ ok true
      by_result (ok same) e = ap ok e
      by_result (err x) e = absurd cc

  validate_length_lem :
      (header : Header) (packet : Bytes)
      → validate_length header packet ≡ true
      → size + header.payload_length ≡ length packet
  unfolding validate_length
  validate_length_lem header packet e = ground arith

  pub is_probe-IsTested : (packet : Bytes) → is_probe crc32 packet ≡ true → IsTested packet
  unfolding is_probe
  is_probe-IsTested packet e = by_result (deserialize packet) refl e
    where
      by_result :
          (result : Result Header)
          → deserialize packet ≡ result
          → (elim result [
            | err e ↦ false
            | ok header ↦
                header.flags == flag_start
                && header.seq_num == 0
                && validate_length header packet
                && is_sound crc32 header packet
          ])
            ≡ true
          → IsTested packet
      by_result (err x) reads e = absurd cc
      by_result (ok header) reads e =
          let (k, f, l, c) =
            all_true (header.flags == flag_start) (header.seq_num == 0)
              (validate_length header packet) (is_sound crc32 header packet) e in
          record {
            header = header;
            reads = reads;
            kind = ground arith;
            first = ground arith;
            sized = validate_length_lem header packet l;
            sound = is_sound_lem header packet c;
          }
