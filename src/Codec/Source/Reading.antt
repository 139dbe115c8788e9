-- ===== src/Codec/Source/Reading.antt =====
-- What buffered reading keeps: the bytes of the buffer and the source together, and their end.
use hybrid_ftp_socket.Prelude.{
  ℕ, ◌<◌, ◌≤◌, Bytes, none, some, [], ◌∷◌, ◌++◌, ◌≡◌, refl, sym, ◌∙◌, ap, ◌⊎◌, inl, inr, arith,
  length, leb, take, drop, append-nil, append_assoc, Bool-cases,
}
use hybrid_ftp_socket.Prelude.Outcome.{Error}
use hybrid_ftp_socket.Codec.Source.{
  Source, stops, raises, yields, content, ending, IsSolid, Filled, enough, short, failed, fill,
}

-- The outcomes of a reading of `needed` bytes, with what each says of the buffer and the source.
abbrev pub Reads : ℕ → Bytes → Source → Filled → Type 0
Reads needed buffer source (enough b s) =
    (needed ≤ length b)
    × (b ++ content s ≡ buffer ++ content source)
    × (ending s ≡ ending source)
    × (IsSolid source → IsSolid s)
Reads needed buffer source (short b) =
    (length b < needed) × (b ≡ buffer ++ content source) × (ending source ≡ none)
Reads needed buffer source (failed e) = ending source ≡ some e

more-Reads :
    (needed : ℕ) (buffer chunk : Bytes) (rest : Source) (f : Filled)
    → Reads needed (buffer ++ chunk) rest f
    → Reads needed buffer (yields chunk rest) f
unfolding content ending
more-Reads needed buffer chunk rest (enough b s) (l, c, e, k) =
    (l, c ∙ append_assoc buffer chunk (content rest), e, λ p. k p.1)
more-Reads needed buffer chunk rest (short b) (l, c, e) =
    (l, c ∙ append_assoc buffer chunk (content rest), e)
more-Reads needed buffer chunk rest (failed e) l = l

pub fill-Reads :
    (needed : ℕ) (buffer : Bytes) (source : Source)
    → Reads needed buffer source (fill needed buffer source)
unfolding fill content ending
fill-Reads needed buffer stops = elim (Bool-cases (leb needed (length buffer))) [
  | inl t ↦ rw (t, fill, Reads) (ground arith, refl, refl, λ p. p)
  | inr f ↦ rw (f, fill, Reads) (ground arith, sym (append-nil buffer), refl)
]
fill-Reads needed buffer (raises e) = elim (Bool-cases (leb needed (length buffer))) [
  | inl t ↦ rw (t, fill, Reads) (ground arith, refl, refl, λ p. p)
  | inr f ↦ rw (f, fill, Reads) refl
]
fill-Reads needed buffer (yields chunk rest) = elim (Bool-cases (leb needed (length buffer))) [
  | inl t ↦ rw (t, fill, Reads) (ground arith, refl, refl, λ p. p)
  | inr f ↦
      rw (f, fill, Reads)
        (more-Reads needed buffer chunk rest (fill needed (buffer ++ chunk) rest)
          (fill-Reads needed (buffer ++ chunk) rest))
]

-- What is taken off the front of a buffer that starts with `p`.
pub front :
    (p b x y : Bytes)
    → b ++ x ≡ p ++ y
    → length p ≤ length b
    → (take (length p) b ≡ p) × (drop (length p) b ++ x ≡ y) × (b ≡ p ++ drop (length p) b)
front [] b x y e l = (refl, e, refl)
front (c ∷ p) [] x y e l = absurd (omega arith)
front (c ∷ p) (d ∷ b) x y e l =
    let tail : b ++ x ≡ p ++ y = cc in
    let rest = front p b x y tail (omega arith) in (cc (rest.0), rest.1, cc (rest.2))

-- A reading from a source that does not raise has one of two outcomes.
pub fill-cases :
    (needed : ℕ) (buffer : Bytes) (source : Source)
    → ending source ≡ none
    → ((b : Bytes) × (s : Source) × (fill needed buffer source ≡ enough b s)
        × Reads needed buffer source (enough b s))
      ⊎ ((b : Bytes) × (fill needed buffer source ≡ short b) × Reads needed buffer source (short b))
fill-cases needed buffer source e =
    by_outcome (fill needed buffer source) refl (fill-Reads needed buffer source)
  where
    by_outcome :
        (f : Filled)
        → fill needed buffer source ≡ f
        → Reads needed buffer source f
        → ((b : Bytes) × (s : Source) × (fill needed buffer source ≡ enough b s)
            × Reads needed buffer source (enough b s))
          ⊎ ((b : Bytes) × (fill needed buffer source ≡ short b)
              × Reads needed buffer source (short b))
    by_outcome (enough b s) q r = inl (b, s, q, r)
    by_outcome (short b) q r = inr (b, q, r)
    by_outcome (failed x) q r = absurd cc

-- Where there are bytes enough, they are read.
pub fill-enough :
    (needed : ℕ) (buffer : Bytes) (source : Source)
    → ending source ≡ none
    → needed ≤ length (buffer ++ content source)
    → (b : Bytes) × (s : Source) × (fill needed buffer source ≡ enough b s)
      × Reads needed buffer source (enough b s)
fill-enough needed buffer source e h = elim (fill-cases needed buffer source e) [
  | inl r ↦ r
  | inr (b, q, (l, c, n)) ↦ absurd (omega (arith, ap length c))
]

-- A reading has one of three outcomes.
pub fill-outcomes :
    (needed : ℕ) (buffer : Bytes) (source : Source)
    → ((b : Bytes) × (s : Source) × (fill needed buffer source ≡ enough b s)
        × Reads needed buffer source (enough b s))
      ⊎ (((b : Bytes) × (fill needed buffer source ≡ short b))
          ⊎ ((e : Error) × (fill needed buffer source ≡ failed e) × (ending source ≡ some e)))
fill-outcomes needed buffer source =
    by_outcome (fill needed buffer source) refl (fill-Reads needed buffer source)
  where
    by_outcome :
        (f : Filled)
        → fill needed buffer source ≡ f
        → Reads needed buffer source f
        → ((b : Bytes) × (s : Source) × (fill needed buffer source ≡ enough b s)
            × Reads needed buffer source (enough b s))
          ⊎ (((b : Bytes) × (fill needed buffer source ≡ short b))
              ⊎ ((e : Error) × (fill needed buffer source ≡ failed e) × (ending source ≡ some e)))
    by_outcome (enough b s) q r = inl (b, s, q, r)
    by_outcome (short b) q r = inr (inl (b, q))
    by_outcome (failed e) q r = inr (inr (e, q, r))
