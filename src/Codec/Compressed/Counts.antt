-- ===== src/Codec/Compressed/Counts.antt =====
-- The counts of `compressed_encode`: how long a run or a literal at the front of the buffer is.
use hybrid_ftp_socket.Prelude.{
  ℕ, zero, suc, ◌≤◌, Bytes, [], ◌∷◌, ◌≡◌, refl, ap, inl, inr, arith, length, take, drop, replicate,
  length-drop, Bool-cases, ◌==◌,
}
use hybrid_ftp_socket.Codec.Compressed.{run_length, literal_more, literal_length}

pub run_length-lem :
    (cap byte : ℕ) (b : Bytes)
    → (run_length cap byte b ≤ cap)
      × (run_length cap byte b ≤ length b)
      × (take (run_length cap byte b) b ≡ replicate (run_length cap byte b) byte)
unfolding run_length
run_length-lem zero byte b = (omega arith, omega arith, refl)
run_length-lem (suc cap) byte [] = (omega arith, omega arith, refl)
run_length-lem (suc cap) byte (c ∷ b) = elim (Bool-cases (c == byte)) [
  | inl t ↦
      let (l, m, e) = run_length-lem cap byte b in
      let same : c ≡ byte = ground arith in
      rw t (omega (arith, l), omega (arith, m), rw same (ap (λ r. byte ∷ r) e))
  | inr t ↦ rw t (omega arith, omega arith, refl)
]

literal_more-lem :
    (cap : ℕ) (b : Bytes) → (literal_more cap b ≤ cap) × (literal_more cap b ≤ length b)
unfolding literal_more
literal_more-lem zero b = (omega arith, omega arith)
literal_more-lem (suc cap) [] = (omega arith, omega arith)
literal_more-lem (suc cap) (c ∷ []) = (omega arith, omega arith)
literal_more-lem (suc cap) (c ∷ d ∷ b) = elim (Bool-cases (c == d)) [
  | inl t ↦ rw t (omega arith, omega arith)
  | inr t ↦ let (l, m) = literal_more-lem cap (d ∷ b) in rw t (omega (arith, l), omega (arith, m))
]

pub literal_length-lem :
    (b : Bytes)
    → 1 ≤ length b
    → (1 ≤ literal_length b) × (literal_length b ≤ 127) × (literal_length b ≤ length b)
unfolding literal_length
literal_length-lem b pos =
    let (l, m) = literal_more-lem 126 (drop 1 b) in
    (omega arith, omega (arith, l), omega (arith, m, length-drop 1 b))
