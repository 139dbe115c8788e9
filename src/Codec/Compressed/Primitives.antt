-- ===== src/Codec/Compressed/Primitives.antt =====
-- What the primitives of compressed mode are decoded to, however the wire bytes are cut.
use hybrid_ftp_socket.Prelude.{
  take-drop, ℕ, zero, suc, ◌+◌, ◌/◌, ◌%◌, ◌<◌, ◌≤◌, Bytes, true, false, none, [], ◌∷◌, ◌++◌, ◌≡◌,
  refl, ◌∙◌, ap, subst, inl, inr, arith, length, take, drop, get_or, replicate, length-append,
  length-drop, length-take_le, Bool-cases, ◌==◌,
}
use hybrid_ftp_socket.Codec.Compressed.Counts.{literal_length-lem}
use hybrid_ftp_socket.Codec.Source.{Source, yields, content, ending, enough, fill}
use hybrid_ftp_socket.Codec.Source.Reading.{front, fill-enough}
use hybrid_ftp_socket.Codec.Compressed.{
  literal_length, run_primitive, literal_primitive, put_literal, take_literal, take_run,
  take_primitive, expand_from,
}

-- Where the wire goes on with a primitive, the decoder yields its bytes, and stands behind it.
pub record Unpacked (fuel filler : ℕ) (logical y bytes : Bytes) (wire : Source) : Type 0 where
  pub buffer : Bytes
  pub source : Source
  pub turn :
      expand_from (suc fuel) filler bytes wire
      ≡ yields logical (expand_from fuel filler buffer source)
  pub rest : buffer ++ content source ≡ y
  pub clean : ending source ≡ none

-- The first byte of a primitive has been taken.
pub record Opened (fuel filler header : ℕ) (y bytes : Bytes) (wire : Source) : Type 0 where
  pub buffer : Bytes
  pub source : Source
  pub turn :
      expand_from (suc fuel) filler bytes wire
      ≡ take_primitive filler header buffer source (expand_from fuel filler)
  pub rest : buffer ++ content source ≡ y
  pub clean : ending source ≡ none

pub opens :
    (fuel filler header : ℕ) (y bytes : Bytes) (wire : Source)
    → bytes ++ content wire ≡ header ∷ y
    → ending wire ≡ none
    → Opened fuel filler header y bytes wire
unfolding expand_from
opens fuel filler header y bytes wire e clean =
    let (b, s, q, (l, c, n, _)) = fill-enough 1 bytes wire clean (omega (arith, ap length e)) in
    let (t, after, starts) = front (header ∷ []) b (content s) y (c ∙ e) l in
    let first : get_or b 0 0 ≡ header = ap (λ r. get_or r 0 0) starts in
    record {
      buffer = drop 1 b;
      source = s;
      turn = rw (q, expand_from, first) refl;
      rest = after;
      clean = n ∙ clean;
    }

take_literal_turn :
    (n : ℕ) (literal buffer b : Bytes) (source s : Source) (next : Bytes → Source → Source)
    → fill n buffer source ≡ enough b s
    → take n b ≡ literal
    → take_literal n buffer source next ≡ yields literal (next (drop n b) s)
unfolding take_literal
take_literal_turn n literal buffer b source s next q p = rw (q, take_literal, p) refl

take_run_turn :
    (n byte : ℕ) (buffer b : Bytes) (source s : Source) (next : Bytes → Source → Source)
    → fill 1 buffer source ≡ enough b s
    → get_or b 0 0 ≡ byte
    → take_run n buffer source next ≡ yields (replicate n byte) (next (drop 1 b) s)
unfolding take_run
take_run_turn n byte buffer b source s next q g = rw (q, take_run, g) refl

literal_turn :
    (filler : ℕ) (literal buffer b : Bytes) (source s : Source) (next : Bytes → Source → Source)
    → 1 ≤ length literal
    → length literal ≤ 127
    → fill (length literal) buffer source ≡ enough b s
    → take (length literal) b ≡ literal
    → take_primitive filler (length literal) buffer source next
      ≡ yields literal (next (drop (length literal) b) s)
unfolding take_primitive
literal_turn filler literal buffer b source s next pos small q p =
    rw
      (
        is_literal (length literal) small,
        is_long (length literal) pos small,
        masked (length literal) small,
      )
      (take_literal_turn (length literal) literal buffer b source s next q p)
  where
    is_literal : (n : ℕ) → n ≤ 127 → (n / 128 % 2 == 0) ≡ true
    is_literal n h = ground arith

    masked : (n : ℕ) → n ≤ 127 → n % 128 ≡ n
    masked n h = omega arith

    is_long : (n : ℕ) → 1 ≤ n → n ≤ 127 → (n % 128 == 0) ≡ false
    is_long n pos h = ground arith

unpack-literal :
    (fuel filler : ℕ) (literal y bytes : Bytes) (wire : Source)
    → 1 ≤ length literal
    → length literal ≤ 127
    → bytes ++ content wire ≡ literal_primitive literal ++ y
    → ending wire ≡ none
    → Unpacked fuel filler literal y bytes wire
unfolding literal_primitive
unpack-literal fuel filler literal y bytes wire pos small e clean =
    let o = opens fuel filler (length literal) (literal ++ y) bytes wire e clean in
    let (b, s, q, (l, c, n, _)) =
      fill-enough (length literal) o.buffer o.source o.clean
        (omega (arith, ap length o.rest, length-append literal y)) in
    let (p, r, w) = front literal b (content s) y (c ∙ o.rest) l in
    record {
      buffer = drop (length literal) b;
      source = s;
      turn =
          o.turn
          ∙ literal_turn filler literal o.buffer b o.source s (expand_from fuel filler) pos small q
              p;
      rest = r;
      clean = n ∙ o.clean;
    }

filler_turn :
    (filler run : ℕ) (buffer : Bytes) (source : Source) (next : Bytes → Source → Source)
    → 1 ≤ run
    → run ≤ 63
    → take_primitive filler (0xC0 + run) buffer source next
      ≡ yields (replicate run filler) (next buffer source)
unfolding take_primitive
filler_turn filler run buffer source next pos small =
    rw (not_literal run small, is_filler run small, is_long run pos small, masked run small) refl
  where
    not_literal : (n : ℕ) → n ≤ 63 → ((0xC0 + n) / 128 % 2 == 0) ≡ false
    not_literal n h = ground arith

    is_filler : (n : ℕ) → n ≤ 63 → ((0xC0 + n) / 64 % 2 == 1) ≡ true
    is_filler n h = ground arith

    masked : (n : ℕ) → n ≤ 63 → (0xC0 + n) % 64 ≡ n
    masked n h = omega arith

    is_long : (n : ℕ) → 1 ≤ n → n ≤ 63 → ((0xC0 + n) % 64 == 0) ≡ false
    is_long n pos h = ground arith

repeat_turn :
    (filler byte run : ℕ) (buffer b : Bytes) (source s : Source) (next : Bytes → Source → Source)
    → 1 ≤ run
    → run ≤ 63
    → fill 1 buffer source ≡ enough b s
    → get_or b 0 0 ≡ byte
    → take_primitive filler (0x80 + run) buffer source next
      ≡ yields (replicate run byte) (next (drop 1 b) s)
unfolding take_primitive
repeat_turn filler byte run buffer b source s next pos small q g =
    rw (not_literal run small, no_filler run small, is_long run pos small, masked run small)
      (take_run_turn run byte buffer b source s next q g)
  where
    not_literal : (n : ℕ) → n ≤ 63 → ((0x80 + n) / 128 % 2 == 0) ≡ false
    not_literal n h = ground arith

    no_filler : (n : ℕ) → n ≤ 63 → ((0x80 + n) / 64 % 2 == 1) ≡ false
    no_filler n h = ground arith

    masked : (n : ℕ) → n ≤ 63 → (0x80 + n) % 64 ≡ n
    masked n h = omega arith

    is_long : (n : ℕ) → 1 ≤ n → n ≤ 63 → ((0x80 + n) % 64 == 0) ≡ false
    is_long n pos h = ground arith

unpack-run :
    (fuel filler byte run : ℕ) (y bytes : Bytes) (wire : Source)
    → 1 ≤ run
    → run ≤ 63
    → bytes ++ content wire ≡ run_primitive filler byte run ++ y
    → ending wire ≡ none
    → Unpacked fuel filler (replicate run byte) y bytes wire
unfolding run_primitive
unpack-run fuel filler byte run y bytes wire pos small e clean =
    elim (Bool-cases (byte == filler)) [
      | inl t ↦
          let o =
            opens fuel filler (0xC0 + run) y bytes wire (e ∙ rw (t, run_primitive) refl) clean in
          let same : byte ≡ filler = ground arith in
          record {
            buffer = o.buffer;
            source = o.source;
            turn =
                o.turn
                ∙ filler_turn filler run o.buffer o.source (expand_from fuel filler) pos small
                ∙ rw same refl;
            rest = o.rest;
            clean = o.clean;
          }
      | inr t ↦
          let o =
            opens fuel filler (0x80 + run) (byte ∷ y) bytes wire (e ∙ rw (t, run_primitive) refl)
              clean in
          let (b, s, q, (l, c, n, _)) =
            fill-enough 1 o.buffer o.source o.clean (omega (arith, ap length o.rest)) in
          let (p, r, w) = front (byte ∷ []) b (content s) y (c ∙ o.rest) l in
          record {
            buffer = drop 1 b;
            source = s;
            turn =
                o.turn
                ∙ repeat_turn filler byte run o.buffer b o.source s (expand_from fuel filler) pos
                    small q (ap (λ z. get_or z 0 0) w);
            rest = r;
            clean = n ∙ o.clean;
          }
    ]

-- What decoding gives back.
abbrev pub Decoded : Source → Bytes → Type 0
Decoded decoded logical = (content decoded ≡ logical) × (ending decoded ≡ none)

-- Whatever wire has the bytes of `encoded` is decoded to `logical`.
abbrev pub Decodes : ℕ → Source → Bytes → Type 0
Decodes filler encoded logical =
    (fuel : ℕ) (bytes : Bytes) (wire : Source)
    → ending wire ≡ none
    → bytes ++ content wire ≡ content encoded
    → length (content encoded) < fuel
    → Decoded (expand_from fuel filler bytes wire) logical

next-Decoded :
    (fuel filler : ℕ) (p y bytes logical : Bytes) (wire : Source)
    → (u : Unpacked fuel filler p y bytes wire)
    → Decoded (expand_from fuel filler u.buffer u.source) logical
    → Decoded (expand_from (suc fuel) filler bytes wire) (p ++ logical)
unfolding content ending
next-Decoded fuel filler p y bytes logical wire u (c, e) = rw u.turn (ap (λ r. p ++ r) c, e)

literal-Decodes :
    (filler : ℕ) (literal logical : Bytes) (encoded : Source)
    → 1 ≤ length literal
    → length literal ≤ 127
    → Decodes filler encoded logical
    → Decodes filler (yields (literal_primitive literal) encoded) (literal ++ logical)
unfolding content literal_primitive
literal-Decodes filler literal logical encoded pos small d zero bytes wire clean e f =
    absurd (omega arith)
literal-Decodes filler literal logical encoded pos small d (suc fuel) bytes wire clean e f =
    let u = unpack-literal fuel filler literal (content encoded) bytes wire pos small e clean in
    next-Decoded fuel filler literal (content encoded) bytes logical wire u (
      d fuel u.buffer u.source u.clean u.rest
        (omega (arith, f, length-append literal (content encoded))))

length-run :
    (filler byte run : ℕ) (y : Bytes) → suc (length y) ≤ length (run_primitive filler byte run ++ y)
unfolding run_primitive
length-run filler byte run y = elim (Bool-cases (byte == filler)) [
  | inl t ↦ rw t (omega arith)
  | inr t ↦ rw t (omega arith)
]

pub run-Decodes :
    (filler byte run : ℕ) (logical : Bytes) (encoded : Source)
    → 1 ≤ run
    → run ≤ 63
    → Decodes filler encoded logical
    → Decodes filler
        (yields (run_primitive filler byte run) encoded)
        (replicate run byte ++ logical)
unfolding content
run-Decodes filler byte run logical encoded pos small d zero bytes wire clean e f =
    absurd (omega arith)
run-Decodes filler byte run logical encoded pos small d (suc fuel) bytes wire clean e f =
    let u = unpack-run fuel filler byte run (content encoded) bytes wire pos small e clean in
    next-Decoded fuel filler (replicate run byte) (content encoded) bytes logical wire u (
      d fuel u.buffer u.source u.clean u.rest
        (omega (arith, f, length-run filler byte run (content encoded))))

-- The encoder's continuation decodes to the bytes that it is given, if these are below `n`.
abbrev pub Continues : ℕ → ℕ → (Bytes → Source → Source) → Type 0
Continues filler n next =
    (buffer : Bytes) (source : Source)
    → ending source ≡ none
    → length (buffer ++ content source) < n
    → Decodes filler (next buffer source) (buffer ++ content source)

pub put_literal-Decodes :
    (filler n : ℕ) (buffer : Bytes) (source : Source) (next : Bytes → Source → Source)
    → Continues filler n next
    → ending source ≡ none
    → 1 ≤ length buffer
    → length (buffer ++ content source) < suc n
    → Decodes filler (put_literal buffer source next) (buffer ++ content source)
unfolding put_literal
put_literal-Decodes filler n buffer source next k clean pos f =
    let (l, m, r) = literal_length-lem buffer pos in
    let size = length-take_le (literal_length buffer) buffer r in
    subst (Decodes filler (put_literal buffer source next))
      (take-drop (literal_length buffer) buffer (content source))
      (literal-Decodes filler (take (literal_length buffer) buffer)
        (drop (literal_length buffer) buffer ++ content source)
        (next (drop (literal_length buffer) buffer) source) (omega (arith, l, size))
        (omega (arith, m, size))
        (k (drop (literal_length buffer) buffer) source clean (
          omega (
            arith,
            f,
            l,
            r,
            length-drop (literal_length buffer) buffer,
            length-append buffer (content source),
            length-append (drop (literal_length buffer) buffer) (content source),
          ))))
