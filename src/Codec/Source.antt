-- ===== src/Codec/Source.antt =====
-- Iterators of bytes, which the codecs take and return, and the buffered reading that they share.
pub mod Reading
use hybrid_ftp_socket.Prelude.{
  ℕ, ◌≤◌, Bytes, Bool, true, false, Option, none, some, List, [], ◌∷◌, ◌++◌, ◌≡◌, length, leb,
}
use hybrid_ftp_socket.Prelude.Outcome.{Error}

-- An iterator: the chunks that it yields, and whether it then stops or raises.
pub data Source : Type 0 where
  stops : Source
  raises : Error → Source
  yields : Bytes → Source → Source

-- All bytes that it yields.
unfoldable pub content : Source → Bytes
content stops = []
content (raises e) = []
content (yields chunk rest) = chunk ++ content rest

-- The exception that it ends by, if it does.
unfoldable pub ending : Source → Option Error
ending stops = none
ending (raises e) = some e
ending (yields chunk rest) = ending rest

-- It yields no empty chunk.
abbrev pub IsSolid : Source → Type 0
IsSolid stops = Unit
IsSolid (raises e) = Unit
IsSolid (yields chunk rest) = (1 ≤ length chunk) × IsSolid rest

-- What the nested functions `read` and `fill` of the codecs leave: the buffer is long enough, or
-- the source stopped before, or it raised.
pub data Filled : Type 0 where
  enough : Bytes → Source → Filled
  short : Bytes → Filled
  failed : Error → Filled

unfoldable pub fill : ℕ → Bytes → Source → Filled
fill needed buffer stops = elim (leb needed (length buffer)) [
  | true ↦ enough buffer stops
  | false ↦ short buffer
]
fill needed buffer (raises e) = elim (leb needed (length buffer)) [
  | true ↦ enough buffer (raises e)
  | false ↦ failed e
]
fill needed buffer (yields chunk rest) = elim (leb needed (length buffer)) [
  | true ↦ enough buffer (yields chunk rest)
  | false ↦ fill needed (buffer ++ chunk) rest
]
