-- ===== src/Codec/Compressed/RoundTrip.antt =====
-- Compressed mode decodes what it encodes, however the bytes on the wire are cut into chunks.
use hybrid_ftp_socket.Prelude.{
  take-drop, ℕ, zero, suc, ◌+◌, ◌<◌, ◌≤◌, Bytes, none, [], ◌∷◌, ◌++◌, ◌≡◌, refl, sym, ◌∙◌, ap,
  subst, ◌⊎◌, inl, inr, arith, ◌&&◌, ltb, length, leb, take, drop, get_or, replicate, append-nil,
  length-append, length-drop, Bool-cases, ◌==◌,
}
use hybrid_ftp_socket.Codec.Compressed.Counts.{run_length-lem}
use hybrid_ftp_socket.Codec.Source.{Source, stops, yields, content, ending, enough, short, fill}
use hybrid_ftp_socket.Codec.Source.Reading.{front, fill-cases, fill-enough}
use hybrid_ftp_socket.Codec.Compressed.{
  max_run, max_literal, run_length, run_primitive, lengthened, put_literal, put_primitive,
  compress_from, compressed_encode, eof_escape, expect_end, take_escape, take_primitive,
  expand_from, compressed_decode,
}
use hybrid_ftp_socket.Codec.Compressed.Primitives.{
  Decodes, Continues, run-Decodes, put_literal-Decodes, opens,
}

expect_end-nil :
    (b : Bytes) (s : Source) → b ++ content s ≡ [] → ending s ≡ none → expect_end b s ≡ stops
unfolding expect_end
expect_end-nil b s e clean = elim (fill-cases 1 b s clean) [
  | inl (b', s', q, (l, c, n, _)) ↦
      absurd (omega (arith, l, ap length c, ap length e, length-append b' (content s')))
  | inr (b', q, r) ↦ rw (q, expect_end) refl
]

escape_turn :
    (buffer b : Bytes) (source s : Source) (next : Bytes → Source → Source)
    → fill 1 buffer source ≡ enough b s
    → get_or b 0 0 ≡ 0x40
    → expect_end (drop 1 b) s ≡ stops
    → take_escape buffer source next ≡ stops
unfolding take_escape
escape_turn buffer b source s next q g x = rw (q, take_escape, g) x

eof-Decodes : (filler : ℕ) → Decodes filler (yields eof_escape stops) []
unfolding content take_primitive ending
eof-Decodes filler zero bytes wire clean e f = absurd (omega arith)
eof-Decodes filler (suc fuel) bytes wire clean e f =
    let o = opens fuel filler 0x00 (0x40 ∷ []) bytes wire e clean in
    let (b, s, q, (l, c, n, _)) =
      fill-enough 1 o.buffer o.source o.clean (omega (arith, ap length o.rest)) in
    let (p, r, w) = front (0x40 ∷ []) b (content s) [] (c ∙ o.rest) l in
    let ended : expand_from (suc fuel) filler bytes wire ≡ stops =
      o.turn
      ∙ escape_turn o.buffer b o.source s (expand_from fuel filler) q (ap (λ z. get_or z 0 0) w)
          (expect_end-nil (drop 1 b) s r (n ∙ o.clean)) in
    rw ended (refl, refl)

module _ (filler n : ℕ) (next : Bytes → Source → Source) (k : Continues filler n next) where
  put_run-Decodes :
      (buffer : Bytes) (source : Source) (byte run : ℕ)
      → ending source ≡ none
      → length (buffer ++ content source) < suc n
      → 2 ≤ run
      → run ≤ 63
      → run ≤ length buffer
      → take run buffer ≡ replicate run byte
      → Decodes filler
          (yields (run_primitive filler byte run) (next (drop run buffer) source))
          (buffer ++ content source)
  put_run-Decodes buffer source byte run clean f two small r e =
      subst
        (Decodes filler (yields (run_primitive filler byte run) (next (drop run buffer) source)))
        (ap (λ z. z ++ (drop run buffer ++ content source)) (sym e)
          ∙ take-drop run buffer (content source))
        (run-Decodes filler byte run (drop run buffer ++ content source)
          (next (drop run buffer) source) (omega arith) small
          (k (drop run buffer) source clean (
            omega (
              arith,
              f,
              two,
              r,
              length-drop run buffer,
              length-append buffer (content source),
              length-append (drop run buffer) (content source),
            ))))

  put_primitive-Decodes :
      (buffer : Bytes) (source : Source)
      → ending source ≡ none
      → 1 ≤ length buffer
      → length (buffer ++ content source) < suc n
      → Decodes filler (put_primitive filler buffer source next) (buffer ++ content source)
  unfolding put_primitive content ending
  put_primitive-Decodes buffer source clean pos f =
      let byte = get_or buffer 0 0 in
      let run = run_length max_run byte buffer in
      let (l, m, e) = run_length-lem max_run byte buffer in
      elim (Bool-cases (leb 2 run)) [
        | inl t ↦
            rw (t, put_primitive)
              (put_run-Decodes buffer source byte run clean f (ground arith) l m e)
        | inr t ↦ elim (fill-cases (max_literal + 2) buffer source clean) [
          | inl (b, s, q, (x, c, z, _)) ↦
              rw (t, put_primitive, q)
                (subst (Decodes filler (put_literal b s next)) c (
                  put_literal-Decodes filler n b s next k (z ∙ clean) (omega (arith, x))
                    (omega (arith, f, ap length c))))
          | inr (b, q, (x, c, z)) ↦
              rw (t, put_primitive, q)
                (subst (Decodes filler (put_literal b stops next)) (append-nil b ∙ c) (
                  put_literal-Decodes filler n b stops next k refl
                    (omega (arith, pos, ap length c, length-append buffer (content source)))
                    (omega (arith, f, ap length c, length-append b []))))
        ]
      ]

-- Counting the run again loses nothing.
lengthened-cases :
    (run : ℕ) (b : Bytes) (s : Source)
    → ending s ≡ none
    → 1 ≤ length b
    → ((b' : Bytes) × (s' : Source) × (lengthened run b s ≡ enough b' s')
        × (1 ≤ length b')
        × (b' ++ content s' ≡ b ++ content s)
        × (ending s' ≡ none))
      ⊎ ((b' : Bytes) × (lengthened run b s ≡ short b') × (1 ≤ length b') × (b' ≡ b ++ content s))
unfolding lengthened
lengthened-cases run b s clean pos = elim (Bool-cases (ltb run max_run && run == length b)) [
  | inr t ↦ rw t (inl (b, s, refl, pos, refl, clean))
  | inl t ↦ elim (fill-cases (run + 1) b s clean) [
    | inl (b', s', q, (l, c, n, _)) ↦ rw t (inl (b', s', q, omega (arith, l), c, n ∙ clean))
    | inr (b', q, (l, c, n)) ↦
        rw t (inr (b', q, omega (arith, pos, ap length c, length-append b (content s)), c))
  ]
]

stops-ending : ending stops ≡ none
unfolding ending
stops-ending = refl

stops-content : (b : Bytes) → b ++ content stops ≡ b
unfolding content
stops-content b = append-nil b

compress_from-Continues : (filler n : ℕ) → Continues filler n (compress_from n filler)
unfolding compress_from
compress_from-Continues filler zero buffer source clean f = absurd (omega arith)
compress_from-Continues filler (suc n) buffer source clean f =
    elim (fill-cases 1 buffer source clean) [
      | inr (b, q, (l, c, z)) ↦
          rw (q, compress_from)
            (subst (Decodes filler (yields eof_escape stops)) (no_bytes b l ∙ c)
              (eof-Decodes filler))
      | inl (b, s, q, (l, c, z, _)) ↦
          elim (lengthened-cases (run_length max_run (get_or b 0 0) b) b s (z ∙ clean) l) [
            | inl (b', s', p, pos, e, clean') ↦
                rw (q, compress_from, p)
                  (subst (Decodes filler (put_primitive filler b' s' (compress_from n filler)))
                    (e ∙ c)
                    (put_primitive-Decodes filler n (compress_from n filler)
                      (compress_from-Continues filler n) b' s' clean' pos
                      (omega (arith, f, ap length c, ap length e))))
            | inr (b', p, pos, e) ↦
                rw (q, compress_from, p)
                  (subst (Decodes filler (put_primitive filler b' stops (compress_from n filler)))
                    (stops-content b' ∙ e ∙ c)
                    (put_primitive-Decodes filler n (compress_from n filler)
                      (compress_from-Continues filler n) b' stops stops-ending pos
                      (omega (arith, f, ap length c, ap length e, ap length (stops-content b')))))
          ]
    ]
  where
    no_bytes : (b : Bytes) → length b < 1 → [] ≡ b
    no_bytes [] l = refl
    no_bytes (x ∷ b) l = absurd (omega arith)

-- For chunks that do not raise: whatever bytes the encoder yields, cut into any chunks, the decoder
-- for the same filler gives back the bytes of the chunks, and stops without an exception.
pub compressed_decode-compressed_encode :
    (filler : ℕ) (chunks wire : Source)
    → ending chunks ≡ none
    → ending wire ≡ none
    → content wire ≡ content (compressed_encode filler chunks)
    → (content (compressed_decode filler wire) ≡ content chunks)
      × (ending (compressed_decode filler wire) ≡ none)
unfolding compressed_encode compressed_decode
compressed_decode-compressed_encode filler chunks wire ec ew e =
    compress_from-Continues filler (suc (length (content chunks))) [] chunks ec (omega arith)
      (suc (length (content wire))) [] wire ew e (omega (arith, ap length e))
