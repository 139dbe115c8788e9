-- ===== src/Rdt/Receiver/Moves/Rounds.antt =====
-- One round of the receiver, from the flags of a packet to the phases of the generator.
use hybrid_ftp_socket.Prelude.{
  ℕ, zero, suc, Bytes, some, List, [], ◌≡◌, refl, inl, inr, arith, length, Bool-cases, ◌==◌, ==_iff,
  ltb,
}
use hybrid_ftp_socket.Prelude.Outcome.{ok, runtime_error, aborted, cancelled, Result-cases}
use hybrid_ftp_socket.Rdt.Header.{Header, size, flag_start, flag_abort, has_flag, deserialize}
use hybrid_ftp_socket.Rdt.Network.{Address, Received, timeout, failure, packet, Event}
use hybrid_ftp_socket.Rdt.Receiver.State.{
  Config, Phase, receiving, grace, returned, raised, Receiver, chunks_of, is_stranger,
}
use hybrid_ftp_socket.Rdt.Receiver.{
  on_flags, on_header, on_packet, on_received, on_grace_packet, on_grace, step_in, step,
}
use hybrid_ftp_socket.Rdt.Receiver.Moves.{
  IsGenuine, Stays, Moves, chunks_of-nil, verified-Moves, on_start-Stays, on_data-Moves,
}

module _ (crc32 : Bytes → ℕ) (id : ℕ) (chunks : List Bytes) where
  on_flags-Moves :
      (cfg : Config) (r : Receiver) (packet_data : Bytes) (addr : Address) (h : Header)
      → r.transfer_id ≡ some id
      → h.transfer_id ≡ id
      → deserialize packet_data ≡ ok h
      → IsGenuine crc32 id chunks (packet packet_data addr)
      → Moves crc32 id chunks r (on_flags crc32 cfg r id packet_data addr h)
  unfolding on_flags
  on_flags-Moves cfg r packet_data addr h k o d g =
      elim (Bool-cases (has_flag h.flags flag_abort)) [
        | inl a ↦ rw a (
            verified-Moves crc32 id chunks r h [] _ k λ q.
              inr (inr (record { failed = runtime_error aborted; phase = refl; quiet = refl })))
        | inr a ↦ elim (Bool-cases (has_flag h.flags flag_start)) [
          | inl s ↦ rw (a, s) (inl (on_start-Stays crc32 id chunks cfg r h packet_data addr k))
          | inr s ↦
              rw (a, s)
                (on_data-Moves crc32 id chunks r h packet_data addr k λ v f q. g h (record {
                  reads = d;
                  ours = o;
                  no_abort = a;
                  no_start = s;
                  sized = v;
                  flags_ok = f;
                  verified = q;
                }))
        ]
      ]

  on_header-Moves :
      (cfg : Config) (r : Receiver) (packet_data : Bytes) (addr : Address) (h : Header)
      → r.transfer_id ≡ some id
      → deserialize packet_data ≡ ok h
      → IsGenuine crc32 id chunks (packet packet_data addr)
      → Moves crc32 id chunks r (on_header crc32 cfg r packet_data addr h)
  unfolding on_header chunks_of
  on_header-Moves cfg r packet_data addr h k d g = elim (Bool-cases (h.transfer_id == id)) [
    | inr n ↦ inl (ground arith)
    | inl o ↦
        rw (k, o)
          (on_flags-Moves cfg (record r { transfer_id = some id }) packet_data addr h refl
            ((==_iff _ _).0 o) d g)
  ]

  on_packet-Moves :
      (cfg : Config) (r : Receiver) (packet_data : Bytes) (addr : Address)
      → r.transfer_id ≡ some id
      → IsGenuine crc32 id chunks (packet packet_data addr)
      → Moves crc32 id chunks r (on_packet crc32 cfg r packet_data addr)
  unfolding on_packet chunks_of
  on_packet-Moves cfg r packet_data addr k g = elim (Bool-cases (ltb (length packet_data) size)) [
    | inl n ↦ inl (ground arith)
    | inr a ↦ elim (Bool-cases (is_stranger r.peer_addr addr)) [
      | inl n ↦ inl (ground arith)
      | inr b ↦ elim (Result-cases (deserialize packet_data)) [
        | inr (e, p) ↦ inl (ground arith)
        | inl (h, p) ↦ rw (a, b, p, on_packet) (on_header-Moves cfg r packet_data addr h k p g)
      ]
    ]
  ]

  on_received-Moves :
      (cfg : Config) (r : Receiver) (received : Received)
      → r.transfer_id ≡ some id
      → IsGenuine crc32 id chunks received
      → Moves crc32 id chunks r (on_received crc32 cfg r received)
  unfolding on_received chunks_of
  on_received-Moves cfg r timeout k g = inl (ground arith)
  on_received-Moves cfg r failure k g = inl (ground arith)
  on_received-Moves cfg r (packet packet_data addr) k g =
      on_packet-Moves cfg (record r { timeout_count = 0 }) packet_data addr k g

  -- `_fin_grace` yields nothing, whatever arrives.
  on_grace-Stays :
      (r : Receiver) (left fin_seq : ℕ) (received : Received)
      → r.transfer_id ≡ some id
      → Stays crc32 id chunks r.expected_seq r.committed_bytes
          (grace (suc left) fin_seq)
          (on_grace crc32 r left fin_seq received)
  unfolding on_grace on_grace_packet chunks_of
  on_grace-Stays r left fin_seq timeout k = ground arith
  on_grace-Stays r left fin_seq failure k = ground arith
  on_grace-Stays r left fin_seq (packet packet_data addr) k = ground arith

  step_in-Moves :
      (phase : Phase) (cfg : Config) (r : Receiver) (event : Event)
      → r.phase ≡ phase
      → r.transfer_id ≡ some id
      → IsGenuine crc32 id chunks event.received
      → Moves crc32 id chunks r (step_in crc32 phase cfg r event)
  unfolding step_in
  step_in-Moves receiving cfg r event p k g = elim (Bool-cases event.cancelled) [
    | inl c ↦
        rw c (inr (inr (record { failed = runtime_error cancelled; phase = refl; quiet = refl })))
    | inr c ↦ rw c (on_received-Moves cfg r event.received k g)
  ]
  step_in-Moves (grace zero fin_seq) cfg r event p k g =
      inl (ground (arith, (chunks_of-nil crc32 id chunks)))
  step_in-Moves (grace (suc left) fin_seq) cfg r event p k g = rw p (
      inl (
        on_grace-Stays (record r { phase = grace (suc left) fin_seq }) left fin_seq event.received
          k))
  step_in-Moves returned cfg r event p k g = inl (ground (arith, (chunks_of-nil crc32 id chunks)))
  step_in-Moves (raised e) cfg r event p k g = inl (ground (arith, (chunks_of-nil crc32 id chunks)))

  pub step-Moves :
      (cfg : Config) (r : Receiver) (event : Event)
      → r.transfer_id ≡ some id
      → IsGenuine crc32 id chunks event.received
      → Moves crc32 id chunks r (step crc32 cfg r event)
  unfolding step
  step-Moves cfg r event k g = step_in-Moves r.phase cfg r event refl k g
