-- ===== src/Codec/Block/Fuel.antt =====
-- The loop of `block_decode` ends by itself on every input.
use hybrid_ftp_socket.Prelude.{
  ℕ, zero, suc, ◌<◌, Bytes, Bool, true, false, some, [], ◌∷◌, ◌++◌, ◌≢◌, ◌∙◌, sym, ap, inl, inr,
  arith, length, drop, get_or, length-append, length-drop, if◌then◌else◌,
}
use hybrid_ftp_socket.Prelude.Outcome.{out_of_fuel}
use hybrid_ftp_socket.Rdt.Header.{u16_at, has_flag}
use hybrid_ftp_socket.Codec.Source.{Source, stops, raises, yields, content, ending}
use hybrid_ftp_socket.Codec.Source.Reading.{fill-outcomes}
use hybrid_ftp_socket.Codec.Block.{header_len, flag_eof, after_eof, decode_from, block_decode}

after_eof-fueled :
    (buffer : Bytes) (source : Source)
    → ending source ≢ some out_of_fuel
    → ending (after_eof buffer source) ≢ some out_of_fuel
unfolding after_eof ending
after_eof-fueled (b ∷ buffer) source h e = absurd cc
after_eof-fueled [] stops h e = absurd cc
after_eof-fueled [] (raises x) h e = h e
after_eof-fueled [] (yields extra rest) h e = absurd cc

-- A turn behind a block, by its flag.
branch-fueled :
    (eof : Bool) (end more : Source)
    → ending end ≢ some out_of_fuel
    → ending more ≢ some out_of_fuel
    → ending (if eof then end else more) ≢ some out_of_fuel
branch-fueled true end more h k = h
branch-fueled false end more h k = k

decode_from-fueled :
    (fuel : ℕ) (buffer : Bytes) (source : Source)
    → ending source ≢ some out_of_fuel
    → length (buffer ++ content source) < fuel
    → ending (decode_from fuel buffer source) ≢ some out_of_fuel
unfolding decode_from ending
decode_from-fueled zero buffer source h f = absurd (omega arith)
decode_from-fueled (suc fuel) buffer source h f = elim (fill-outcomes header_len buffer source) [
  | inr (inl (b, q)) ↦ rw (q, decode_from, ending) (λ e. absurd cc)
  | inr (inr (x, q, r)) ↦ rw (q, decode_from, ending) (λ e. h (r ∙ e))
  | inl (b, s, q, (l, c, n, _)) ↦ elim (fill-outcomes (u16_at b 1) (drop header_len b) s) [
    | inr (inl (b', p)) ↦ rw (q, decode_from, ending, p) (λ e. absurd cc)
    | inr (inr (x, p, r)) ↦ rw (q, decode_from, ending, p) (λ e. h (sym n ∙ r ∙ e))
    | inl (b', s', p, (l', c', n', _)) ↦
        rw (q, decode_from, ending, p)
          (branch-fueled (has_flag (get_or b 0 0) flag_eof) _ _
            (after_eof-fueled (drop (u16_at b 1) b') s' (λ e. h (sym n ∙ sym n' ∙ e)))
            (decode_from-fueled fuel (drop (u16_at b 1) b') s' (λ e. h (sym n ∙ sym n' ∙ e))
              (omega (
                arith,
                f,
                l,
                ap length c,
                ap length c',
                length-append b (content s),
                length-append (drop header_len b) (content s),
                length-append b' (content s'),
                length-append (drop (u16_at b 1) b') (content s'),
                length-drop header_len b,
                length-drop (u16_at b 1) b',
              ))))
  ]
]

-- Whatever bytes it is given, well formed or not, from a source that does not itself run out of
-- fuel: `block_decode` stops or raises an exception of the code, and never runs out of fuel.
pub block_decode-fueled :
    (chunks : Source)
    → ending chunks ≢ some out_of_fuel
    → ending (block_decode chunks) ≢ some out_of_fuel
unfolding block_decode
block_decode-fueled chunks h =
    decode_from-fueled (suc (length (content chunks))) [] chunks h (omega arith)
