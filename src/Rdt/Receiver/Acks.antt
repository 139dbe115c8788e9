-- ===== src/Rdt/Receiver/Acks.antt =====
-- What the receiver acknowledges: 0 for START, and otherwise only numbers of chunks that it has.
use hybrid_ftp_socket.Prelude.{
  ℕ, zero, suc, ◌+◌, ◌-◌, ◌<◌, Bytes, true, false, not, Option, some, List, [], ◌≡◌, refl, ◌⊎◌, inl,
  inr, arith, length, All, Bool-cases, ◌==◌, ltb, leb, ◌||◌, ◌&&◌,
}
use hybrid_ftp_socket.Prelude.Outcome.{Result, ok, err, Error, Result-cases}
use hybrid_ftp_socket.Rdt.Header.{
  Header, size, flag_fin, flag_start, flag_abort, has_flag, is_valid_flags, deserialize,
  validate_length, payload_of, verify_checksum,
}
use hybrid_ftp_socket.Rdt.Header.RoundTrip.{sealed-Passes}
use hybrid_ftp_socket.Rdt.Context.{decode_start_metadata}
use hybrid_ftp_socket.Rdt.Network.{
  Address, Received, timeout, failure, packet, Event, Output, sent, progress, yielded,
}
use hybrid_ftp_socket.Rdt.Receiver.State.{
  Config, Phase, receiving, grace, returned, raised, Receiver, Reply, or_else, is_our_id,
  is_stranger, mismatch, is_peer, is_same_id, after_chunk, grace_left,
}
use hybrid_ftp_socket.Rdt.Receiver.{
  ack_packet, acked, verified, on_metadata, on_start, on_payload, on_data, on_flags, on_header,
  on_packet, on_received, on_grace_packet, on_grace, step_in, step,
}

-- A datagram that is read as an acknowledgement is one of 0, or of a number below `n`.
abbrev pub IsAckBelow : ℕ → Output → Type 0
IsAckBelow n (sent bytes addr) =
    (h : Header) → deserialize bytes ≡ ok h → (h.ack_num ≡ 0) ⊎ (h.ack_num < n)
IsAckBelow n (progress done total) = Unit
IsAckBelow n (yielded chunk) = Unit

-- FIN, while it is waited for again, is a packet that has been delivered.
abbrev pub IsFinBelow : Phase → ℕ → Type 0
IsFinBelow receiving n = Unit
IsFinBelow (grace left fin_seq) n = fin_seq < n
IsFinBelow returned n = Unit
IsFinBelow (raised e) n = Unit

-- A round acknowledges only what the state after it has, or raises and sends nothing.
abbrev pub Speaks : Reply → Type 0
Speaks reply =
    (All (IsAckBelow reply.0.expected_seq) reply.1 × IsFinBelow reply.0.phase reply.0.expected_seq)
    ⊎ ((e : Error) × (reply.0.phase ≡ raised e) × (reply.1 ≡ []))

grace_left-IsFinBelow : (left fin_seq n : ℕ) → fin_seq < n → IsFinBelow (grace_left left fin_seq) n
grace_left-IsFinBelow zero fin_seq n h = tt
grace_left-IsFinBelow (suc left) fin_seq n h = h

module _ (crc32 : Bytes → ℕ) where
  -- An acknowledgement is read back with its number.
  ack_packet-reads :
      (id k : ℕ) {bytes : Bytes} (h : Header)
      → ack_packet crc32 id k ≡ ok bytes
      → deserialize bytes ≡ ok h
      → h.ack_num ≡ k
  unfolding ack_packet
  ack_packet-reads id k h e d =
      let (c, p) = sealed-Passes crc32 _ [] refl e in ground (arith, p.reads)

  acked-Speaks :
      (r : Receiver) (peer : Address) (id k : ℕ) (rest : List Output)
      → (k ≡ 0) ⊎ (k < r.expected_seq)
      → IsFinBelow r.phase r.expected_seq
      → All (IsAckBelow r.expected_seq) rest
      → Speaks (acked crc32 r peer id k rest)
  acked-Speaks r peer id k rest b f a = elim (Result-cases (ack_packet crc32 id k)) [
    | inl (bytes, p) ↦
        rw (p, acked) (inl ((λ h d. omega (arith, ack_packet-reads id k h p d), a), f))
    | inr (e, p) ↦ rw (p, acked) (inr (e, refl, refl))
  ]

  verified-Speaks :
      (r : Receiver) (h : Header) (payload : Bytes) (rest : Reply)
      → IsFinBelow r.phase r.expected_seq
      → Speaks rest
      → Speaks (verified crc32 r h payload rest)
  verified-Speaks r h payload rest f s = elim (Result-cases (verify_checksum crc32 h payload)) [
    | inl (true, p) ↦ rw (p, verified) s
    | inl (false, p) ↦ rw (p, verified) (inl (tt, f))
    | inr (e, p) ↦ rw (p, verified) (inr (e, refl, refl))
  ]

  on_metadata-Speaks :
      (cfg : Config) (r : Receiver) (peer : Address) (id : ℕ) (m : Result (ℕ × Option ℕ × Option ℕ))
      → IsFinBelow r.phase r.expected_seq
      → Speaks (on_metadata crc32 cfg r peer id m)
  unfolding on_metadata
  on_metadata-Speaks cfg r peer id (err e) f = inr (_, refl, refl)
  on_metadata-Speaks cfg r peer id (ok (raw_size, wire_mode, wire_type)) f =
      elim (Bool-cases (mismatch cfg.expected_mode wire_mode)) [
        | inl t ↦ rw t (inr (_, refl, refl))
        | inr a ↦ elim (Bool-cases (mismatch cfg.expected_type wire_type)) [
          | inl t ↦ rw (a, t) (inr (_, refl, refl))
          | inr b ↦ rw (a, b) (acked-Speaks _ peer id 0 [] (inl refl) f tt)
        ]
      ]

  on_start-Speaks :
      (cfg : Config) (r : Receiver) (id : ℕ) (h : Header) (packet_data : Bytes) (addr : Address)
      → IsFinBelow r.phase r.expected_seq
      → Speaks (on_start crc32 cfg r id h packet_data addr)
  unfolding on_start
  on_start-Speaks cfg r id h packet_data addr f =
      elim (Bool-cases (not (h.flags == flag_start) || not (h.seq_num == 0))) [
        | inl t ↦ rw t (inl (tt, f))
        | inr a ↦ elim (Bool-cases (validate_length h packet_data)) [
          | inr b ↦ rw (a, b) (inl (tt, f))
          | inl b ↦
              rw (a, b)
                (verified-Speaks r h (payload_of h packet_data) _ f (
                  on_metadata-Speaks cfg _ (or_else r.peer_addr addr) id
                    (decode_start_metadata (payload_of h packet_data)) f))
        ]
      ]

  after_chunk-IsFinBelow : (h : Header) (n : ℕ) → h.seq_num < n → IsFinBelow (after_chunk h) n
  after_chunk-IsFinBelow h n l = elim (Bool-cases (has_flag h.flags flag_fin)) [
    | inl t ↦ rw t l
    | inr f ↦ rw f tt
  ]

  on_payload-Speaks :
      (r : Receiver) (id : ℕ) (peer : Address) (h : Header) (payload : Bytes)
      → IsFinBelow r.phase r.expected_seq
      → Speaks (on_payload crc32 r id peer h payload)
  unfolding on_payload
  on_payload-Speaks r id peer h payload f = elim (Bool-cases (h.seq_num == r.expected_seq)) [
    | inl t ↦ rw t (
        acked-Speaks _ peer id h.seq_num _ (inr (ground arith))
          (after_chunk-IsFinBelow h (r.expected_seq + 1) (ground arith)) (tt, (tt, tt)))
    | inr a ↦ elim (Bool-cases (ltb h.seq_num r.expected_seq)) [
      | inl t ↦ rw (a, t) (acked-Speaks r peer id (r.expected_seq - 1) [] (inr (ground arith)) f tt)
      | inr b ↦ elim (Bool-cases (ltb 0 r.expected_seq)) [
        | inl t ↦
            rw (a, b, t) (acked-Speaks r peer id (r.expected_seq - 1) [] (inr (ground arith)) f tt)
        | inr c ↦ rw (a, b, c) (inl (tt, f))
      ]
    ]
  ]

  on_data-Speaks :
      (r : Receiver) (id : ℕ) (h : Header) (packet_data : Bytes) (addr : Address)
      → IsFinBelow r.phase r.expected_seq
      → Speaks (on_data crc32 r id h packet_data addr)
  unfolding on_data
  on_data-Speaks r id h packet_data addr f = elim (Bool-cases (validate_length h packet_data)) [
    | inr a ↦ rw a (inl (tt, f))
    | inl a ↦ elim (Bool-cases (is_valid_flags h.flags)) [
      | inr b ↦ rw (a, b) (inl (tt, f))
      | inl b ↦
          rw (a, b)
            (verified-Speaks r h (payload_of h packet_data) _ f (
              on_payload-Speaks (record r { peer_addr = some (or_else r.peer_addr addr) }) id
                (or_else r.peer_addr addr) h (payload_of h packet_data) f))
    ]
  ]

  on_flags-Speaks :
      (cfg : Config) (r : Receiver) (id : ℕ) (packet_data : Bytes) (addr : Address) (h : Header)
      → IsFinBelow r.phase r.expected_seq
      → Speaks (on_flags crc32 cfg r id packet_data addr h)
  unfolding on_flags
  on_flags-Speaks cfg r id packet_data addr h f = elim (Bool-cases (has_flag h.flags flag_abort)) [
    | inl t ↦ rw t (verified-Speaks r h [] _ f (inr (_, refl, refl)))
    | inr a ↦ elim (Bool-cases (has_flag h.flags flag_start)) [
      | inl b ↦ rw (a, b) (on_start-Speaks cfg r id h packet_data addr f)
      | inr b ↦ rw (a, b) (on_data-Speaks r id h packet_data addr f)
    ]
  ]

  on_packet-Speaks :
      (cfg : Config) (r : Receiver) (packet_data : Bytes) (addr : Address)
      → IsFinBelow r.phase r.expected_seq
      → Speaks (on_packet crc32 cfg r packet_data addr)
  unfolding on_packet on_header
  on_packet-Speaks cfg r packet_data addr f = elim (Bool-cases (ltb (length packet_data) size)) [
    | inl t ↦ rw t (inl (tt, f))
    | inr a ↦ elim (Bool-cases (is_stranger r.peer_addr addr)) [
      | inl t ↦ rw (a, t) (inl (tt, f))
      | inr b ↦ elim (Result-cases (deserialize packet_data)) [
        | inr (e, p) ↦ rw (a, b, p, on_packet) (inl (tt, f))
        | inl (h, p) ↦ elim (Bool-cases (is_our_id r.transfer_id h.transfer_id)) [
          | inr c ↦ rw (a, b, p, on_packet, c) (inl (tt, f))
          | inl c ↦
              rw (a, b, p, on_packet, c)
                (on_flags-Speaks cfg
                  (record r { transfer_id = some (or_else r.transfer_id h.transfer_id) })
                  (or_else r.transfer_id h.transfer_id) packet_data addr h f)
        ]
      ]
    ]
  ]

  on_received-Speaks :
      (cfg : Config) (r : Receiver) (received : Received)
      → IsFinBelow r.phase r.expected_seq
      → Speaks (on_received crc32 cfg r received)
  unfolding on_received
  on_received-Speaks cfg r timeout f =
      elim (Bool-cases (leb cfg.max_timeouts (r.timeout_count + 1))) [
        | inl t ↦ rw t (inr (_, refl, refl))
        | inr a ↦ rw a (inl (tt, f))
      ]
  on_received-Speaks cfg r failure f = inr (_, refl, refl)
  on_received-Speaks cfg r (packet packet_data addr) f =
      on_packet-Speaks cfg (record r { timeout_count = 0 }) packet_data addr f

  on_grace_packet-Speaks :
      (r : Receiver) (fin_seq : ℕ) (packet_data : Bytes) (addr : Address)
      → IsFinBelow r.phase r.expected_seq
      → fin_seq < r.expected_seq
      → Speaks (on_grace_packet crc32 r fin_seq packet_data addr)
  unfolding on_grace_packet
  on_grace_packet-Speaks r fin_seq packet_data addr f l =
      elim (Bool-cases (ltb (length packet_data) size || not (is_peer r.peer_addr addr))) [
        | inl t ↦ rw t (inl (tt, f))
        | inr a ↦ elim (Result-cases (deserialize packet_data)) [
          | inr (e, p) ↦ rw (a, p, on_grace_packet) (inl (tt, f))
          | inl (h, p) ↦
              elim (Bool-cases (
                is_same_id r.transfer_id h.transfer_id
                && h.seq_num == fin_seq
                && has_flag h.flags flag_fin)) [
                  | inr b ↦ rw (a, p, on_grace_packet, b) (inl (tt, f))
                  | inl b ↦
                      rw (a, p, on_grace_packet, b)
                        (acked-Speaks r (or_else r.peer_addr addr) h.transfer_id fin_seq [] (inr l)
                          f tt)
                ]
        ]
      ]

  on_grace-Speaks :
      (r : Receiver) (left fin_seq : ℕ) (received : Received)
      → fin_seq < r.expected_seq
      → Speaks (on_grace crc32 r left fin_seq received)
  unfolding on_grace
  on_grace-Speaks r left fin_seq timeout l = inl (tt, grace_left-IsFinBelow left fin_seq _ l)
  on_grace-Speaks r left fin_seq failure l = inl (tt, tt)
  on_grace-Speaks r left fin_seq (packet packet_data addr) l =
      on_grace_packet-Speaks (record r { phase = grace_left left fin_seq }) fin_seq packet_data addr
        (grace_left-IsFinBelow left fin_seq r.expected_seq l) l

  step_in-Speaks :
      (phase : Phase) (cfg : Config) (r : Receiver) (event : Event)
      → r.phase ≡ phase
      → IsFinBelow phase r.expected_seq
      → Speaks (step_in crc32 phase cfg r event)
  unfolding step_in
  step_in-Speaks receiving cfg r event p f = elim (Bool-cases event.cancelled) [
    | inl c ↦ rw c (inr (_, refl, refl))
    | inr c ↦ rw c (on_received-Speaks cfg r event.received (rw p tt))
  ]
  step_in-Speaks (grace zero fin_seq) cfg r event p f = inl (tt, tt)
  step_in-Speaks (grace (suc left) fin_seq) cfg r event p f =
      on_grace-Speaks r left fin_seq event.received f
  step_in-Speaks returned cfg r event p f = inl (tt, rw p tt)
  step_in-Speaks (raised e) cfg r event p f = inl (tt, rw p tt)

  -- A round, from a state that waits for no FIN beyond its packets, sends only acknowledgements of
  -- 0 or of a packet below the sequence number that it leaves, and leaves such a state; or it ends
  -- by an exception and puts out nothing.
  pub step-Speaks :
      (cfg : Config) (r : Receiver) (event : Event)
      → IsFinBelow r.phase r.expected_seq
      → Speaks (step crc32 cfg r event)
  unfolding step
  step-Speaks cfg r event f = step_in-Speaks r.phase cfg r event refl f
