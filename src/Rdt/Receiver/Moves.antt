-- ===== src/Rdt/Receiver/Moves.antt =====
-- One round of the receiver, from the handlers of a packet up: it delivers the next chunk, keeps
-- its place, or ends by an exception.
pub mod Rounds
use hybrid_ftp_socket.Prelude.{
  ℕ, zero, suc, ◌+◌, ◌-◌, ◌<◌, ◌≤◌, Bytes, Bool, true, false, Option, none, some, List, [], ◌∷◌,
  ◌++◌, ◌≡◌, refl, ◌⊎◌, inl, inr, arith, length, take, get_elem?, All, append-nil, append_assoc,
  not, take-suc, get_elem?-lt, ap, ◌∙◌, Bool-cases, ◌==◌, ==_iff, ltb, ◌||◌,
}
use hybrid_ftp_socket.Prelude.Outcome.{
  Result, ok, err, Error, runtime_error, aborted, cancelled, Result-cases,
}
use hybrid_ftp_socket.Rdt.Header.{
  Header, size, flag_fin, flag_start, flag_abort, has_flag, is_valid_flags, deserialize,
  validate_length, payload_of, verify_checksum,
}
use hybrid_ftp_socket.Rdt.Context.{decode_start_metadata}
use hybrid_ftp_socket.Rdt.Network.{
  Address, Received, timeout, failure, packet, Event, Output, sent, progress, yielded,
}
use hybrid_ftp_socket.Rdt.Receiver.State.{
  Config, Phase, receiving, grace, returned, raised, Receiver, Reply, start, chunks_of, or_else,
  is_our_id, is_stranger,
}
use hybrid_ftp_socket.Rdt.Receiver.{
  ack_packet, verified, on_metadata, on_start, on_payload, on_data, on_flags, on_header, on_packet,
  on_received, on_grace_packet, on_grace, step_in, step, run, receive_chunks_rdt,
}

-- The generator has come past the last chunk: it waits in `_fin_grace`, or has returned.
abbrev pub IsOver : Phase → Type 0
IsOver receiving = ⊥
IsOver (grace left fin_seq) = Unit
IsOver returned = Unit
IsOver (raised e) = ⊥

-- The header speaks of the list: its payload is the chunk of its number, and FIN marks the last.
pub record IsChunkOf (chunks : List Bytes) (h : Header) (payload : Bytes) : Type 0 where
  pub chunk : get_elem? chunks h.seq_num ≡ some payload
  pub last : has_flag h.flags flag_fin ≡ true → suc h.seq_num ≡ length chunks

module _ (crc32 : Bytes → ℕ) where
  -- The packet has the transfer id and passes each test before the comparison of its sequence
  -- number with the expected one.
  pub record IsAccepted (id : ℕ) (packet_data : Bytes) (h : Header) : Type 0 where
    pub reads : deserialize packet_data ≡ ok h
    pub ours : h.transfer_id ≡ id
    pub no_abort : has_flag h.flags flag_abort ≡ false
    pub no_start : has_flag h.flags flag_start ≡ false
    pub sized : validate_length h packet_data ≡ true
    pub flags_ok : is_valid_flags h.flags ≡ true
    pub verified : verify_checksum crc32 h (payload_of h packet_data) ≡ ok true

  -- No datagram that the receiver would accept was forged: each carries one of the chunks.
  abbrev pub IsGenuine : ℕ → List Bytes → Received → Type 0
  IsGenuine id chunks timeout = Unit
  IsGenuine id chunks failure = Unit
  IsGenuine id chunks (packet packet_data addr) =
      (h : Header) → IsAccepted id packet_data h → IsChunkOf chunks h (payload_of h packet_data)

  module _ (id : ℕ) (chunks : List Bytes) where
    -- A round from these values of the counters and the phase yields nothing and keeps its place,
    -- delivers the next chunk, or ends by an exception.
    pub record Stays (seq committed : ℕ) (phase : Phase) (reply : Reply) : Type 0 where
      pub expected : reply.0.expected_seq ≡ seq
      pub total : reply.0.committed_bytes ≡ committed
      pub silent : chunks_of reply.1 ≡ []
      pub over : IsOver reply.0.phase → IsOver phase
      pub known : reply.0.transfer_id ≡ some id

    pub record Delivers (seq committed : ℕ) (reply : Reply) : Type 0 where
      pub payload : Bytes
      pub chunk : get_elem? chunks seq ≡ some payload
      pub expected : reply.0.expected_seq ≡ suc seq
      pub total : reply.0.committed_bytes ≡ committed + length payload
      pub yields : chunks_of reply.1 ≡ payload ∷ []
      pub over : IsOver reply.0.phase → suc seq ≡ length chunks
      pub known : reply.0.transfer_id ≡ some id

    pub record Fails (reply : Reply) : Type 0 where
      pub failed : Error
      pub phase : reply.0.phase ≡ raised failed
      pub quiet : reply.1 ≡ []

    abbrev pub Moves : Receiver → Reply → Type 0
    Moves r reply =
        Stays r.expected_seq r.committed_bytes r.phase reply
        ⊎ Delivers r.expected_seq r.committed_bytes reply
        ⊎ Fails reply

    chunks_of-nil : chunks_of [] ≡ []
    unfolding chunks_of
    chunks_of-nil = refl

    on_metadata-Stays :
        (cfg : Config) (r : Receiver) (peer : Address) (m : Result (ℕ × Option ℕ × Option ℕ))
        → r.transfer_id ≡ some id
        → Stays r.expected_seq r.committed_bytes r.phase (on_metadata crc32 cfg r peer id m)
    unfolding on_metadata chunks_of
    on_metadata-Stays cfg r peer (err e) k = ground arith
    on_metadata-Stays cfg r peer (ok (raw_size, wire_mode, wire_type)) k = ground arith

    on_start-Stays :
        (cfg : Config) (r : Receiver) (h : Header) (packet_data : Bytes) (addr : Address)
        → r.transfer_id ≡ some id
        → Stays r.expected_seq r.committed_bytes r.phase
            (on_start crc32 cfg r id h packet_data addr)
    unfolding on_start chunks_of
    on_start-Stays cfg r h packet_data addr k =
        let peer = or_else r.peer_addr addr in
        ground (
          arith,
          on_metadata-Stays cfg (record r { peer_addr = some peer }) peer
              (decode_start_metadata (payload_of h packet_data)) k,
        )

    -- The expected packet: its chunk is delivered, unless the acknowledgement cannot be made.
    expected-Moves :
        (r : Receiver) (peer : Address) (h : Header) (payload : Bytes)
        → r.transfer_id ≡ some id
        → IsChunkOf chunks h payload
        → (h.seq_num == r.expected_seq) ≡ true
        → Delivers r.expected_seq r.committed_bytes (on_payload crc32 r id peer h payload)
          ⊎ Fails (on_payload crc32 r id peer h payload)
    unfolding on_payload chunks_of
    expected-Moves r peer h payload k c e = elim (Result-cases (ack_packet crc32 id h.seq_num)) [
      | inl (b, p) ↦ inl (record {
        payload = payload;
        chunk = ground arith;
        expected = ground arith;
        total = ground arith;
        yields = ground arith;
        over = ground arith;
        known = ground arith;
      })
      | inr (x, p) ↦ inr (record { failed = x; phase = ground arith; quiet = ground arith })
    ]

    on_payload-Moves :
        (r : Receiver) (peer : Address) (h : Header) (payload : Bytes)
        → r.transfer_id ≡ some id
        → IsChunkOf chunks h payload
        → Moves r (on_payload crc32 r id peer h payload)
    unfolding on_payload chunks_of
    on_payload-Moves r peer h payload k c = elim (Bool-cases (h.seq_num == r.expected_seq)) [
      | inl e ↦ inr (expected-Moves r peer h payload k c e)
      | inr n ↦ inl (ground arith)
    ]

    verified-Moves :
        (r : Receiver) (h : Header) (payload : Bytes) (rest : Reply)
        → r.transfer_id ≡ some id
        → (verify_checksum crc32 h payload ≡ ok true → Moves r rest)
        → Moves r (verified crc32 r h payload rest)
    unfolding chunks_of
    verified-Moves r h payload rest k next = elim (Result-cases (verify_checksum crc32 h payload)) [
      | inl (b, p) ↦ elim (Bool-cases b) [
        | inl t ↦
            let q : verify_checksum crc32 h payload ≡ ok true = cc in rw (q, verified) (next q)
        | inr f ↦ inl (ground arith)
      ]
      | inr (x, p) ↦ inr (inr (record { failed = x; phase = ground arith; quiet = ground arith }))
    ]

    on_data-Moves :
        (r : Receiver) (h : Header) (packet_data : Bytes) (addr : Address)
        → r.transfer_id ≡ some id
        → (validate_length h packet_data ≡ true
            → is_valid_flags h.flags ≡ true
            → verify_checksum crc32 h (payload_of h packet_data) ≡ ok true
            → IsChunkOf chunks h (payload_of h packet_data))
        → Moves r (on_data crc32 r id h packet_data addr)
    unfolding on_data chunks_of
    on_data-Moves r h packet_data addr k c = elim (Bool-cases (validate_length h packet_data)) [
      | inr n ↦ inl (ground arith)
      | inl v ↦ elim (Bool-cases (is_valid_flags h.flags)) [
        | inr n ↦ inl (ground arith)
        | inl f ↦
            let peer = or_else r.peer_addr addr in
            rw (v, f)
              (verified-Moves r h (payload_of h packet_data) _ k λ q.
                on_payload-Moves (record r { peer_addr = some peer }) peer h
                  (payload_of h packet_data) k (c v f q))
      ]
    ]
