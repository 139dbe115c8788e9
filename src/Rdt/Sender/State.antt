-- ===== src/Rdt/Sender/State.antt =====
-- The arguments and local variables of `send_chunks_rdt`, and `_lookahead`.
use hybrid_ftp_socket.Prelude.{
  ℕ, zero, suc, ◌+◌, Bytes, Bool, true, false, Option, none, some, List, [], ◌∷◌, leb,
  if◌then◌else◌,
}
use hybrid_ftp_socket.Prelude.Outcome.{Error, runtime_error, start_retry_limit}
use hybrid_ftp_socket.Rdt.Network.{Address, Output, sent}

-- The arguments of `send_chunks_rdt`; `destination` is the address after `gethostbyname`.
pub record Job : Type 0 where
  pub transfer_id : ℕ
  pub destination : Address
  pub retry_limit : ℕ
  pub total_bytes : Option ℕ
  pub window_size : ℕ
  pub transfer_mode : List ℕ
  pub transfer_type : List ℕ

-- What `enumerate(_lookahead(chunks))` gives: a number, a chunk, and whether it is the last.
pub record Item : Type 0 where
  pub seq_num : ℕ
  pub chunk : Bytes
  pub is_last : Bool

unfoldable pub lookahead_from : ℕ → Bytes → List Bytes → List Item
lookahead_from n current [] = record { seq_num = n; chunk = current; is_last = true } ∷ []
lookahead_from n current (nxt ∷ rest) =
    record { seq_num = n; chunk = current; is_last = false } ∷ lookahead_from (suc n) nxt rest

-- An empty iterable gives one empty last chunk.
unfoldable pub lookahead : List Bytes → List Item
unfolding lookahead_from
lookahead [] = record { seq_num = 0; chunk = []; is_last = true } ∷ []
lookahead (current ∷ rest) = lookahead_from 0 current rest

-- An entry of the dict `window`: its key, the packet and the length of its chunk. The entries
-- stand in the order of insertion.
pub record Slot : Type 0 where
  pub seq_num : ℕ
  pub packet_data : Bytes
  pub chunk_length : ℕ

-- Where the call stands: in `_send_start_with_ack` with attempts left, in the loop of the window,
-- returned, or ended by an exception.
pub data Phase : Type 0 where
  starting : ℕ → Phase
  sending : Phase
  returned : Phase
  raised : Error → Phase

-- `last_acked` is `none` for the -1 of the source.
pub record Sender : Type 0 where
  pub phase : Phase
  pub pending : List Item
  pub pending_exhausted : Bool
  pub window : List Slot
  pub next_seq : ℕ
  pub last_acked : Option ℕ
  pub timeout_count : ℕ
  pub transferred_bytes : ℕ

abbrev pub Reply : Type 0
Reply = Sender × List Output

abbrev pub raise : Sender → Error → Reply
raise s e = (record s { phase = raised e }, [])

abbrev pub skip : Sender → Reply
skip s = (s, [])

-- The attempts that are left, or the exception behind the loop over them.
abbrev pub attempts : ℕ → Phase
attempts zero = raised (runtime_error start_retry_limit)
attempts (suc left) = starting (suc left)

-- `ack_num <= last_acked`
unfoldable pub is_acked : Option ℕ → ℕ → Bool
is_acked none ack_num = false
is_acked (some last) ack_num = leb ack_num last

-- `while window and min(window) <= ack_num: pop`, and the lengths of what it pops. The keys are
-- inserted in increasing order, so the least one is the first.
unfoldable pub pop_acked : ℕ → List Slot → List Slot × ℕ
pop_acked ack_num [] = ([], 0)
pop_acked ack_num (slot ∷ window) =
    let (rest, bytes) = pop_acked ack_num window in
    if leb slot.seq_num ack_num then (rest, slot.chunk_length + bytes) else (slot ∷ window, 0)

-- `while not pending_exhausted or window`, tested when a round is over.
unfoldable pub is_done : Sender → Bool
is_done s = elim s.window [ [] ↦ s.pending_exhausted | slot ∷ window ↦ false ]

-- The end of a round: the loop's condition is tested.
abbrev pub settle : Sender → Sender
settle s = if is_done s then record s { phase = returned } else s

-- `for packet, _ in window.values(): sendto(packet, ...)`
unfoldable pub resend : Address → List Slot → List Output
resend destination [] = []
resend destination (slot ∷ window) = sent slot.packet_data destination ∷ resend destination window
