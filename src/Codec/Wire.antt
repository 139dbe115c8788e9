-- ===== src/Codec/Wire.antt =====
-- common/mode_codec.py: `_batch_wire`, which cuts what a codec yields into chunks of one size.
pub mod Batches
pub mod Blocks
use hybrid_ftp_socket.Prelude.{
  ℕ, zero, suc, Bytes, true, false, [], ◌∷◌, ◌++◌, leb, length, take, drop,
}
use hybrid_ftp_socket.Prelude.Outcome.{out_of_fuel}
use hybrid_ftp_socket.Codec.Source.{Source, stops, raises, yields}

-- `WIRE_CHUNK_SIZE`
abbrev pub wire_chunk_size : ℕ
wire_chunk_size = 1024

-- What the inner loop yields and leaves in the buffer, on fuel, then the rest of the call.
unfoldable pub flush : ℕ → ℕ → Bytes → (Bytes → Source) → Source
flush zero size buffer after = raises out_of_fuel
flush (suc fuel) size buffer after = elim (leb size (length buffer)) [
  | true ↦ yields (take size buffer) (flush fuel size (drop size buffer) after)
  | false ↦ after buffer
]

-- The buffer that is left at the end, if it is not empty.
unfoldable pub last_batch : Bytes → Source
last_batch [] = stops
last_batch (b ∷ buffer) = yields (b ∷ buffer) stops

-- Every turn of the inner loop takes a byte or more off, so the fuel is one more than the bytes.
unfoldable pub batch_from : ℕ → Bytes → Source → Source
batch_from size buffer stops = last_batch buffer
batch_from size buffer (raises e) = raises e
batch_from size buffer (yields primitive rest) =
    flush (suc (length (buffer ++ primitive))) size (buffer ++ primitive)
      (λ left. batch_from size left rest)

unfoldable pub batch_wire : Source → ℕ → Source
batch_wire primitives size = batch_from size [] primitives
