-- ===== src/Codec/Block/RoundTrip.antt =====
-- Block mode decodes what it encodes, however the bytes on the wire are cut into chunks.
use hybrid_ftp_socket.Prelude.{
  take-drop, ℕ, zero, suc, ◌+◌, ◌*◌, ◌/◌, ◌%◌, ◌^◌, ◌<◌, ◌≤◌, Bytes, Bool, true, false, none, [],
  ◌∷◌, ◌++◌, ◌≡◌, refl, ◌∙◌, ap, subst, inl, inr, arith, length, ltb, take, drop, get_or,
  length-append, length-drop, length-take_le, append-nil, if◌then◌else◌, ◌||◌,
}
use hybrid_ftp_socket.Rdt.Header.{u16, u16_at, has_flag}
use hybrid_ftp_socket.Codec.Source.{
  Source, stops, raises, yields, content, ending, IsSolid, enough, fill,
}
use hybrid_ftp_socket.Codec.Source.Reading.{front, fill-cases, fill-enough}
use hybrid_ftp_socket.Codec.Block.{
  block_packet, encode_from, block_encode, after_eof, decode_from, block_decode, header_len,
  flag_eof,
}

-- A block on the wire: its header, then its payload.
abbrev packet_header : Bytes → Bool → Bytes
packet_header payload eof = (if eof then flag_eof else 0) ∷ u16 (length payload)

-- Where the wire goes on with a block, the decoder yields its payload, and stands behind it.
pub record Unblocked (fuel : ℕ) (payload : Bytes) (eof : Bool) (y bytes : Bytes) (wire : Source)
    : Type 0 where
  pub buffer : Bytes
  pub source : Source
  pub turn :
      decode_from (suc fuel) bytes wire
      ≡ yields payload (if eof then after_eof buffer source else decode_from fuel buffer source)
  pub rest : buffer ++ content source ≡ y
  pub clean : ending source ≡ none
  pub solid : IsSolid source

join16 : (n : ℕ) → n < 2 ^ 16 → n / 2 ^ 8 % 2 ^ 8 * 2 ^ 8 + n % 2 ^ 8 ≡ n
join16 n h = omega arith

eof_flag : (eof : Bool) → has_flag (if eof then flag_eof else 0) flag_eof ≡ eof
unfolding has_flag
eof_flag true = refl
eof_flag false = refl

unblock-body :
    (fuel : ℕ) (payload : Bytes) (eof : Bool) (y bytes b : Bytes) (wire s : Source)
    → fill header_len bytes wire ≡ enough b s
    → u16_at b 1 ≡ length payload
    → has_flag (get_or b 0 0) flag_eof ≡ eof
    → drop header_len b ++ content s ≡ payload ++ y
    → ending s ≡ none
    → IsSolid s
    → Unblocked fuel payload eof y bytes wire
unfolding decode_from
unblock-body fuel payload eof y bytes b wire s first counted flagged after clean solid =
    let (b', s', q, (l, c, n, k)) =
      fill-enough (length payload) (drop header_len b) s clean
        (omega (arith, ap length after, length-append payload y)) in
    let (p, r, w) = front payload b' (content s') y (c ∙ after) l in
    record {
      buffer = drop (length payload) b';
      source = s';
      turn = rw (first, decode_from, counted, q, counted, flagged, p) refl;
      rest = r;
      clean = n ∙ clean;
      solid = k solid;
    }

unblock :
    (fuel : ℕ) (payload : Bytes) (eof : Bool) (y bytes : Bytes) (wire : Source)
    → length payload < 2 ^ 16
    → bytes ++ content wire ≡ block_packet payload eof ++ y
    → ending wire ≡ none
    → IsSolid wire
    → Unblocked fuel payload eof y bytes wire
unfolding block_packet
unblock fuel payload eof y bytes wire small e clean solid =
    let (b, s, q, (l, c, n, k)) =
      fill-enough header_len bytes wire clean (omega (arith, ap length e)) in
    let (t, after, starts) =
      front (packet_header payload eof) b (content s) (payload ++ y) (c ∙ e) l in
    unblock-body fuel payload eof y bytes b wire s q (rw starts (join16 (length payload) small))
      (rw starts (eof_flag eof)) after (n ∙ clean) (k solid)

after_eof-nil :
    (b : Bytes) (s : Source)
    → b ++ content s ≡ []
    → ending s ≡ none
    → IsSolid s
    → after_eof b s ≡ stops
unfolding after_eof content ending
after_eof-nil (c ∷ b) s e n k = absurd cc
after_eof-nil [] stops e n k = refl
after_eof-nil [] (raises x) e n k = absurd cc
after_eof-nil [] (yields chunk rest) e n k =
    absurd (omega (arith, ap length e, k.0, length-append chunk (content rest)))

-- A block is longer than its header.
length-packet : (p y : Bytes) (eof : Bool) → length y < length (block_packet p eof ++ y)
unfolding block_packet
length-packet p y eof = omega (arith, length-append p y)

-- What decoding gives back.
abbrev Decoded : Source → Bytes → Type 0
Decoded decoded logical = (content decoded ≡ logical) × (ending decoded ≡ none)

last-Decoded :
    (fuel : ℕ) (b bytes : Bytes) (wire : Source)
    → Unblocked fuel b true [] bytes wire
    → Decoded (decode_from (suc fuel) bytes wire) b
unfolding content ending
last-Decoded fuel b bytes wire u =
    rw (u.turn, after_eof-nil u.buffer u.source u.rest u.clean u.solid) (append-nil b, refl)

next-Decoded :
    (fuel : ℕ) (p y bytes logical : Bytes) (wire : Source)
    → (u : Unblocked fuel p false y bytes wire)
    → Decoded (decode_from fuel u.buffer u.source) logical
    → Decoded (decode_from (suc fuel) bytes wire) (p ++ logical)
unfolding content ending
next-Decoded fuel p y bytes logical wire u (c, e) = rw u.turn (ap (λ r. p ++ r) c, e)

decode_from-encode_from :
    (fuel fuel' size : ℕ) (buffer bytes : Bytes) (chunks wire : Source)
    → 1 ≤ size
    → size < 2 ^ 16
    → ending chunks ≡ none
    → ending wire ≡ none
    → IsSolid wire
    → length (buffer ++ content chunks) < fuel
    → bytes ++ content wire ≡ content (encode_from fuel size buffer chunks)
    → length (bytes ++ content wire) < fuel'
    → Decoded (decode_from fuel' bytes wire) (buffer ++ content chunks)
unfolding encode_from content
decode_from-encode_from zero fuel' size buffer bytes chunks wire pos small ec ew k f e f' =
    absurd (omega arith)
decode_from-encode_from (suc fuel) zero size buffer bytes chunks wire pos small ec ew k f e f' =
    absurd (omega arith)
decode_from-encode_from (suc fuel) (suc fuel') size buffer bytes chunks wire pos small ec ew k f e
      f' =
    elim (fill-cases (size + 1) buffer chunks ec) [
      | inr (b, q, (l, c, n)) ↦ subst (Decoded (decode_from (suc fuel') bytes wire)) c (
          last-Decoded fuel' b bytes wire (
            unblock fuel' b true [] bytes wire (omega arith) (e ∙ rw (q, encode_from, content) refl)
              ew k))
      | inl (b, s, q, (l, c, n, _)) ↦
          let y = content (encode_from fuel size (drop size b) s) in
          let e' : bytes ++ content wire ≡ block_packet (take size b) false ++ y =
            e ∙ rw (q, encode_from, content) refl in
          let u =
            unblock fuel' (take size b) false y bytes wire
              (omega (arith, length-take_le size b (omega (arith, l)))) e' ew k in
          subst (Decoded (decode_from (suc fuel') bytes wire)) (take-drop size b (content s) ∙ c) (
            next-Decoded fuel' (take size b) y bytes (drop size b ++ content s) wire u (
              decode_from-encode_from fuel fuel' size (drop size b) u.buffer s u.source pos small
                (n ∙ ec) u.clean u.solid
                (omega (
                  arith,
                  l,
                  pos,
                  f,
                  ap length c,
                  length-append b (content s),
                  length-append (drop size b) (content s),
                  length-drop size b,
                ))
                u.rest
                (omega (
                  arith,
                  f',
                  ap length u.rest,
                  ap length e',
                  length-packet (take size b) y false,
                ))))
    ]

is_accepted : (size : ℕ) → 1 ≤ size → size ≤ 0xFFFF → (ltb size 1 || ltb 0xFFFF size) ≡ false
is_accepted size pos small = ground arith

encode_from-ending :
    (fuel size : ℕ) (buffer : Bytes) (chunks : Source)
    → 1 ≤ size
    → ending chunks ≡ none
    → length (buffer ++ content chunks) < fuel
    → ending (encode_from fuel size buffer chunks) ≡ none
unfolding encode_from ending
encode_from-ending zero size buffer chunks pos ec f = absurd (omega arith)
encode_from-ending (suc fuel) size buffer chunks pos ec f =
    elim (fill-cases (size + 1) buffer chunks ec) [
      | inr (b, q, _) ↦ rw (q, encode_from, ending) refl
      | inl (b, s, q, (l, c, n, _)) ↦
          rw (q, encode_from, ending)
            (encode_from-ending fuel size (drop size b) s pos (n ∙ ec) (
              omega (
                arith,
                l,
                pos,
                f,
                ap length c,
                length-append b (content s),
                length-append (drop size b) (content s),
                length-drop size b,
              )))
    ]

-- For a block size that it accepts and chunks that do not raise, the encoder stops without an
-- exception.
pub block_encode-ending :
    (size : ℕ) (chunks : Source)
    → 1 ≤ size
    → size ≤ 0xFFFF
    → ending chunks ≡ none
    → ending (block_encode chunks size) ≡ none
unfolding block_encode
block_encode-ending size chunks pos small ec =
    rw (is_accepted size pos small)
      (encode_from-ending (suc (length (content chunks))) size [] chunks pos ec (omega arith))

-- For a block size that the encoder accepts and chunks that do not raise: whatever bytes the
-- encoder yields, cut into any chunks but empty ones, the decoder gives back the bytes of the
-- chunks, and stops without an exception.
pub block_decode-block_encode :
    (size : ℕ) (chunks wire : Source)
    → 1 ≤ size
    → size ≤ 0xFFFF
    → ending chunks ≡ none
    → ending wire ≡ none
    → IsSolid wire
    → content wire ≡ content (block_encode chunks size)
    → (content (block_decode wire) ≡ content chunks) × (ending (block_decode wire) ≡ none)
unfolding block_encode block_decode
block_decode-block_encode size chunks wire pos small ec ew k e =
    decode_from-encode_from (suc (length (content chunks))) (suc (length (content wire))) size [] []
      chunks wire pos (omega arith) ec ew k (omega arith) (e ∙ rw (is_accepted size pos small) refl)
      (omega arith)
