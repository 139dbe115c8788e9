-- ===== src/Rdt/Receiver/State.antt =====
-- The local variables of `receive_chunks_rdt` and the tests of its loop that need no checksum.
use hybrid_ftp_socket.Prelude.{
  ℕ, zero, suc, Bytes, Bool, true, false, not, Option, none, some, List, [], ◌∷◌, ltb, ◌==◌,
  if◌then◌else◌,
}
use hybrid_ftp_socket.Prelude.Outcome.{Error}
use hybrid_ftp_socket.Rdt.Header.{Header, flag_fin, has_flag}
use hybrid_ftp_socket.Rdt.Network.{Address, address_eq, Output, sent, progress, yielded}

-- The arguments of `receive_chunks_rdt` that its loop reads. A mode or type is its letter.
pub record Config : Type 0 where
  pub max_timeouts : ℕ
  pub expected_mode : Option ℕ
  pub expected_type : Option ℕ

-- Where the generator stands: in its main loop, in `_fin_grace` with rounds left (and the
-- sequence number of FIN), returned, or ended by an exception.
pub data Phase : Type 0 where
  receiving : Phase
  grace : ℕ → ℕ → Phase
  returned : Phase
  raised : Error → Phase

pub record Receiver : Type 0 where
  pub phase : Phase
  pub expected_seq : ℕ
  pub peer_addr : Option Address
  pub transfer_id : Option ℕ
  pub timeout_count : ℕ
  pub committed_bytes : ℕ
  pub total_bytes : Option ℕ

abbrev pub Reply : Type 0
Reply = Receiver × List Output

abbrev pub start : Option ℕ → Receiver
start transfer_id_hint = record {
  phase = receiving;
  expected_seq = 0;
  peer_addr = none;
  transfer_id = transfer_id_hint;
  timeout_count = 0;
  committed_bytes = 0;
  total_bytes = none;
}

abbrev pub raise : Receiver → Error → Reply
raise r e = (record r { phase = raised e }, [])

-- `continue`, with nothing sent.
abbrev pub skip : Receiver → Reply
skip r = (r, [])

-- `peer_addr is not None and addr != peer_addr`
unfoldable pub is_stranger : Option Address → Address → Bool
is_stranger none addr = false
is_stranger (some peer) addr = not (address_eq addr peer)

-- `transfer_id is None or header.transfer_id == transfer_id`
unfoldable pub is_our_id : Option ℕ → ℕ → Bool
is_our_id none id = true
is_our_id (some expected) id = id == expected

-- `if peer_addr is None: peer_addr = addr`
unfoldable pub or_else {ℓ} : {A : Type ℓ} → Option A → A → A
or_else none a = a
or_else (some b) a = b

-- `addr == peer` and `hdr.transfer_id == transfer_id` in `_fin_grace`, where both are known.
unfoldable pub is_peer : Option Address → Address → Bool
is_peer none addr = false
is_peer (some peer) addr = address_eq addr peer

unfoldable pub is_same_id : Option ℕ → ℕ → Bool
is_same_id none id = false
is_same_id (some expected) id = id == expected

-- `expected is not None and (wire is None or wire != expected)`
unfoldable pub mismatch : Option ℕ → Option ℕ → Bool
mismatch none wire = false
mismatch (some expected) none = true
mismatch (some expected) (some letter) = not (letter == expected)

-- `total_bytes is None and raw_size > 0`
unfoldable pub learn_total : Option ℕ → ℕ → Option ℕ
learn_total (some total) raw_size = some total
learn_total none raw_size = if ltb 0 raw_size then some raw_size else none

-- The chunks that a list of outputs yields to the consumer, in order.
unfoldable pub chunks_of : List Output → List Bytes
chunks_of [] = []
chunks_of (sent bytes addr ∷ out) = chunks_of out
chunks_of (progress done total ∷ out) = chunks_of out
chunks_of (yielded chunk ∷ out) = chunk ∷ chunks_of out

-- The phase after a chunk: FIN is followed by `_fin_grace` with its three attempts.
abbrev pub after_chunk : Header → Phase
after_chunk header = if has_flag header.flags flag_fin then grace 3 header.seq_num else receiving

-- The phase when a round of `_fin_grace` is over and `n` are left.
abbrev pub grace_left : ℕ → ℕ → Phase
grace_left zero fin_seq = returned
grace_left (suc n) fin_seq = grace (suc n) fin_seq
