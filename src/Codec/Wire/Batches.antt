-- ===== src/Codec/Wire/Batches.antt =====
-- Cutting the wire bytes anew loses and adds nothing.
use hybrid_ftp_socket.Prelude.{
  take-drop, ℕ, zero, suc, ◌<◌, ◌≤◌, Bytes, none, [], ◌∷◌, ◌++◌, ◌≡◌, refl, ◌∙◌, ap, arith, inl,
  inr, leb, length, take, drop, append_assoc, Bool-cases, length-drop, length-take_le,
}
use hybrid_ftp_socket.Codec.Source.{Source, stops, raises, yields, content, ending, IsSolid}
use hybrid_ftp_socket.Codec.Wire.{flush, last_batch, batch_from, batch_wire}

-- Every chunk has a byte at least, and `size` at most.
abbrev pub IsBatched : ℕ → Source → Type 0
IsBatched size stops = Unit
IsBatched size (raises e) = Unit
IsBatched size (yields chunk rest) =
    (1 ≤ length chunk) × (length chunk ≤ size) × IsBatched size rest

-- What a source yields, compared with the bytes that go in and how they end.
pub record Cut (size : ℕ) (bytes : Bytes) (source cut : Source) : Type 0 where
  pub all : ending source ≡ none → content cut ≡ bytes ++ content source
  pub ends : ending cut ≡ ending source
  pub batched : IsBatched size cut

flush-Cut :
    (fuel size : ℕ) (buffer : Bytes) (source : Source) (after : Bytes → Source)
    → 1 ≤ size
    → length buffer < fuel
    → ((left : Bytes) → length left < size → Cut size left source (after left))
    → Cut size buffer source (flush fuel size buffer after)
unfolding flush content ending
flush-Cut zero size buffer source after pos f h = absurd (omega arith)
flush-Cut (suc fuel) size buffer source after pos f h =
    elim (Bool-cases (leb size (length buffer))) [
      | inr l ↦ rw (l, flush) (h buffer (ground arith))
      | inl l ↦
          let fits : size ≤ length buffer = ground arith in
          let rest =
            flush-Cut fuel size (drop size buffer) source after pos
              (omega (arith, length-drop size buffer, fits)) h in
          rw (l, flush)
            (record {
              all = λ n.
                  ap (λ r. take size buffer ++ r) (rest.all n)
                  ∙ take-drop size buffer (content source);
              ends = rest.ends;
              batched = (
                omega (arith, length-take_le size buffer fits),
                omega (arith, length-take_le size buffer fits),
                rest.batched,
              );
            })
    ]

batch_from-Cut :
    (size : ℕ) (buffer : Bytes) (source : Source)
    → 1 ≤ size
    → length buffer < size
    → Cut size buffer source (batch_from size buffer source)
unfolding batch_from last_batch content ending
batch_from-Cut size [] stops pos l = record { all = λ n. refl; ends = refl; batched = tt }
batch_from-Cut size (b ∷ buffer) stops pos l = record {
  all = λ n. refl;
  ends = refl;
  batched = (omega arith, omega (arith, l), tt);
}
batch_from-Cut size buffer (raises e) pos l = record {
  all = λ n. absurd cc;
  ends = refl;
  batched = tt;
}
batch_from-Cut size buffer (yields primitive rest) pos l =
    let cut =
      flush-Cut (suc (length (buffer ++ primitive))) size (buffer ++ primitive) rest
        (λ left. batch_from size left rest) pos (omega arith)
        (λ left less. batch_from-Cut size left rest pos less) in
    record {
      all = λ n. cut.all n ∙ append_assoc buffer primitive (content rest);
      ends = cut.ends;
      batched = cut.batched;
    }

-- For any size but 0 and primitives that do not raise: `_batch_wire` yields the same bytes and
-- stops, and its chunks are not empty and not longer than the size.
pub batch_wire_lem :
    (size : ℕ) (primitives : Source)
    → 1 ≤ size
    → ending primitives ≡ none
    → (content (batch_wire primitives size) ≡ content primitives)
      × (ending (batch_wire primitives size) ≡ none)
      × IsBatched size (batch_wire primitives size)
unfolding batch_wire
batch_wire_lem size primitives pos e =
    let cut = batch_from-Cut size [] primitives pos (omega arith) in
    (cut.all e, cut.ends ∙ e, cut.batched)

pub IsBatched-IsSolid : (size : ℕ) (source : Source) → IsBatched size source → IsSolid source
IsBatched-IsSolid size stops b = tt
IsBatched-IsSolid size (raises e) b = tt
IsBatched-IsSolid size (yields chunk rest) b = (b.0, IsBatched-IsSolid size rest b.2)

pub batch_wire-ending :
    (size : ℕ) (primitives : Source)
    → 1 ≤ size
    → ending (batch_wire primitives size) ≡ ending primitives
unfolding batch_wire
batch_wire-ending size primitives pos = (batch_from-Cut size [] primitives pos (omega arith)).ends
