-- ===== src/Client/Replies.antt =====
-- client/ftp_client.py: the reading of replies from the control connection. `chunks` is what `recv`
-- will return; no bytes, and the end of the list, are the end of the connection.
pub mod Lines
use hybrid_ftp_socket.Prelude.{
  ℕ, zero, suc, ◌+◌, Bytes, Bool, true, false, ◌&&◌, Option, none, some, List, [], ◌∷◌, ◌++◌,
  length, leb, ◌==◌, take, drop, if◌then◌else◌,
}
use hybrid_ftp_socket.Prelude.Text.{codes}
use hybrid_ftp_socket.Prelude.Numerals.{is_empty, is_digit, text_eq}
use hybrid_ftp_socket.Control.Connection.Lines.{split_line}
use hybrid_ftp_socket.Storage.Paths.{startswith}

-- The buffer of the client, and what is still to come.
pub record Incoming : Type 0 where
  pub reply_buffer : Bytes
  pub chunks : List Bytes

-- `_recv_line`; none is the `ConnectionError`.
unfoldable pub recv_line_from : Bytes → List Bytes → Option (Bytes × Incoming)
recv_line_from buffer [] = elim (split_line buffer) [
  | none ↦ none
  | some (line, remainder) ↦
      some (line ++ (13 ∷ 10 ∷ []), record { reply_buffer = remainder; chunks = [] })
]
recv_line_from buffer (chunk ∷ later) =
    let next = recv_line_from (buffer ++ chunk) later in
    elim (split_line buffer) [
      | none ↦ if is_empty chunk then none else next
      | some (line, remainder) ↦
          some (line ++ (13 ∷ 10 ∷ []), record { reply_buffer = remainder; chunks = chunk ∷ later })
    ]

abbrev pub recv_line : Incoming → Option (Bytes × Incoming)
recv_line i = recv_line_from i.reply_buffer i.chunks

-- `first[:3].isdigit()` and a dash behind it: the reply has more lines.
unfoldable pub has_more : Bytes → Bool
has_more (a ∷ b ∷ c ∷ d ∷ rest) = is_digit a && is_digit b && is_digit c && d == b'-'
has_more other = false

-- Lines up to one that the test takes for the last; every one takes at least two bytes off.
unfoldable pub recv_until : ℕ → (Bytes → Bool) → Incoming → Option (Bytes × Incoming)
recv_until zero is_last i = none
recv_until (suc fuel) is_last i = elim (recv_line i) [
  | none ↦ none
  | some (line, rest) ↦ elim (is_last line) [
    | true ↦ some (line, rest)
    | false ↦ elim (recv_until fuel is_last rest) [
      | none ↦ none
      | some (later, after) ↦ some (line ++ later, after)
    ]
  ]
]

-- All bytes that can still be read.
unfoldable pub pending_from : Bytes → List Bytes → Bytes
pending_from buffer [] = buffer
pending_from buffer (chunk ∷ later) = pending_from (buffer ++ chunk) later

abbrev pub pending : Incoming → Bytes
pending i = pending_from i.reply_buffer i.chunks

-- The lines behind the first one.
unfoldable pub recv_rest : (Bytes → Bool) → Bytes → Incoming → Option (Bytes × Incoming)
recv_rest is_last first i = elim (recv_until (suc (length (pending i))) is_last i) [
  | none ↦ none
  | some (later, after) ↦ some (first ++ later, after)
]

-- `_recv_reply`, as bytes.
unfoldable pub recv_reply : Incoming → Option (Bytes × Incoming)
recv_reply i = elim (recv_line i) [
  | none ↦ none
  | some (first, rest) ↦
      if has_more first
      then recv_rest (λ line. startswith line (take 3 first ++ (32 ∷ []))) first rest
      else some (first, rest)
]

-- `line[:3] in (b"226", ...)`
unfoldable pub ends_listing : Bytes → Bool
ends_listing line =
    if text_eq (take 3 line) (codes "226")
    then true
    else if text_eq (take 3 line) (codes "425")
    then true
    else if text_eq (take 3 line) (codes "426")
    then true
    else if text_eq (take 3 line) (codes "450")
    then true
    else text_eq (take 3 line) (codes "550")

-- `_recv_listing_reply`, as bytes.
unfoldable pub recv_listing_reply : Incoming → Option (Bytes × Incoming)
recv_listing_reply i = elim (recv_line i) [
  | none ↦ none
  | some (first, rest) ↦
      if startswith first (codes "150")
      then recv_rest ends_listing first rest
      else some (first, rest)
]
