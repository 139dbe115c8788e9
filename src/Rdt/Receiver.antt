-- ===== src/Rdt/Receiver.antt =====
-- common/rdt_receiver.py: the receiving half of the transport.
-- `receive_chunks_rdt` is a loop over events. Its local variables are the record `Receiver`, and
-- `step` is one round: of the main loop, or of the loop of `_fin_grace` after the last chunk.
pub mod State
pub mod Moves
pub mod Delivery
pub mod Acks
use State.{
  Config, Phase, receiving, grace, returned, raised, Receiver, Reply, start, raise, skip,
  is_stranger, is_our_id, or_else, is_peer, is_same_id, mismatch, learn_total, after_chunk,
  grace_left, chunks_of,
}
use hybrid_ftp_socket.Prelude.{
  ℕ, zero, suc, ◌+◌, ◌-◌, ◌<◌, Bytes, Bool, true, false, ◌&&◌, ◌||◌, not, Option, none, some, List,
  [], ◌∷◌, ◌++◌, ltb, leb, ◌==◌, if◌then◌else◌, length,
}
use hybrid_ftp_socket.Prelude.Outcome.{
  Result, ok, err, Error, runtime_error, cancelled, no_packet, socket_error, aborted, invalid_start,
  mode_mismatch, type_mismatch, ◌>>=◌,
}
use hybrid_ftp_socket.Rdt.Header.{
  Header, size, flag_ack, flag_fin, flag_start, flag_abort, has_flag, is_valid_flags, deserialize,
  validate_length, payload_of, verify_checksum, sealed,
}
use hybrid_ftp_socket.Rdt.Context.{decode_start_metadata}
use hybrid_ftp_socket.Rdt.Network.{
  Address, address_eq, Received, timeout, failure, packet, Event, Output, sent, progress, yielded,
}

module _ (crc32 : Bytes → ℕ) where
  -- The datagram of `_send_ack`.
  unfoldable pub ack_packet : ℕ → ℕ → Result Bytes
  ack_packet transfer_id ack_seq =
      sealed crc32
        (record {
          transfer_id = transfer_id;
          seq_num = 0;
          ack_num = ack_seq;
          flags = flag_ack;
          checksum = 0;
          payload_length = 0;
        })
        []

  -- `_send_ack`, then what follows it in the round. An `OSError` of `sendto` is passed over there.
  abbrev pub acked : Receiver → Address → ℕ → ℕ → List Output → Reply
  acked r peer transfer_id ack_seq rest = elim (ack_packet transfer_id ack_seq) [
    | ok bytes ↦ (r, sent bytes peer ∷ rest)
    | err e ↦ raise r e
  ]

  -- `if not header.verify_checksum(payload): continue`, then the rest of the round.
  abbrev pub verified : Receiver → Header → Bytes → Reply → Reply
  verified r header payload rest = elim (verify_checksum crc32 header payload) [
    | ok true ↦ rest
    | ok false ↦ skip r
    | err e ↦ raise r e
  ]

  -- Metadata that was decoded: the mode and the type are compared, and START is acknowledged.
  unfoldable pub on_metadata :
      Config → Receiver → Address → ℕ → Result (ℕ × Option ℕ × Option ℕ) → Reply
  unfolding mismatch learn_total
  on_metadata cfg r peer id (err e) = raise r (runtime_error invalid_start)
  on_metadata cfg r peer id (ok (raw_size, wire_mode, wire_type)) =
      if mismatch cfg.expected_mode wire_mode
      then raise r (runtime_error mode_mismatch)
      else if mismatch cfg.expected_type wire_type
      then raise r (runtime_error type_mismatch)
      else acked (record r { total_bytes = learn_total r.total_bytes raw_size }) peer id 0 []

  -- A packet with the START flag.
  unfoldable pub on_start : Config → Receiver → ℕ → Header → Bytes → Address → Reply
  unfolding or_else
  on_start cfg r id header packet_data addr =
      if not (header.flags == flag_start) || not (header.seq_num == 0)
      then skip r
      else if not (validate_length header packet_data)
      then skip r
      else verified r header (payload_of header packet_data) (
          let peer = or_else r.peer_addr addr in
          on_metadata cfg (record r { peer_addr = some peer }) peer id
            (decode_start_metadata (payload_of header packet_data)))

  -- A packet with a payload that verified, from the peer.
  unfoldable pub on_payload : Receiver → ℕ → Address → Header → Bytes → Reply
  on_payload r id peer header payload =
      if header.seq_num == r.expected_seq
      then acked
          (record r {
            phase = after_chunk header;
            expected_seq = r.expected_seq + 1;
            committed_bytes = r.committed_bytes + length payload;
          })
          peer id header.seq_num
          (progress (r.committed_bytes + length payload) r.total_bytes ∷ yielded payload ∷ [])
      else if ltb header.seq_num r.expected_seq
      then acked r peer id (r.expected_seq - 1) []
      else if ltb 0 r.expected_seq
      then acked r peer id (r.expected_seq - 1) []
      else skip r

  -- A packet that is neither ABORT nor START.
  unfoldable pub on_data : Receiver → ℕ → Header → Bytes → Address → Reply
  unfolding or_else
  on_data r id header packet_data addr =
      if not (validate_length header packet_data)
      then skip r
      else if not (is_valid_flags header.flags)
      then skip r
      else verified r header (payload_of header packet_data) (
          let peer = or_else r.peer_addr addr in
          on_payload (record r { peer_addr = some peer }) id peer header
            (payload_of header packet_data))

  -- A packet of this transfer, by its flags.
  unfoldable pub on_flags : Config → Receiver → ℕ → Bytes → Address → Header → Reply
  on_flags cfg r id packet_data addr header =
      if has_flag header.flags flag_abort
      then verified r header [] (raise r (runtime_error aborted))
      else if has_flag header.flags flag_start
      then on_start cfg r id header packet_data addr
      else on_data r id header packet_data addr

  -- A packet whose header could be read, from no stranger. The first one sets an unknown id.
  unfoldable pub on_header : Config → Receiver → Bytes → Address → Header → Reply
  unfolding is_our_id or_else
  on_header cfg r packet_data addr header =
      if not (is_our_id r.transfer_id header.transfer_id)
      then skip r
      else (let id = or_else r.transfer_id header.transfer_id in
          on_flags cfg (record r { transfer_id = some id }) id packet_data addr header)

  -- A datagram, once the timeouts are counted anew.
  unfoldable pub on_packet : Config → Receiver → Bytes → Address → Reply
  unfolding is_stranger
  on_packet cfg r packet_data addr =
      if ltb (length packet_data) size
      then skip r
      else if is_stranger r.peer_addr addr
      then skip r
      else elim (deserialize packet_data) [
        | ok header ↦ on_header cfg r packet_data addr header
        | err e ↦ skip r
      ]

  -- One round of the main loop after the test of `cancel_event`.
  unfoldable pub on_received : Config → Receiver → Received → Reply
  on_received cfg r timeout =
      if leb cfg.max_timeouts (r.timeout_count + 1)
      then raise (record r { timeout_count = r.timeout_count + 1 }) (runtime_error no_packet)
      else skip (record r { timeout_count = r.timeout_count + 1 })
  on_received cfg r failure = raise r (runtime_error socket_error)
  on_received cfg r (packet packet_data addr) =
      on_packet cfg (record r { timeout_count = 0 }) packet_data addr

  -- A datagram in `_fin_grace`: FIN again is acknowledged again.
  unfoldable pub on_grace_packet : Receiver → ℕ → Bytes → Address → Reply
  unfolding is_peer is_same_id or_else
  on_grace_packet r fin_seq packet_data addr =
      if ltb (length packet_data) size || not (is_peer r.peer_addr addr)
      then skip r
      else elim (deserialize packet_data) [
        | err e ↦ skip r
        | ok header ↦
            if is_same_id r.transfer_id header.transfer_id
              && header.seq_num == fin_seq
              && has_flag header.flags flag_fin
            then acked r (or_else r.peer_addr addr) header.transfer_id fin_seq []
            else skip r
      ]

  unfoldable pub on_grace : Receiver → ℕ → ℕ → Received → Reply
  on_grace r left fin_seq timeout = skip (record r { phase = grace_left left fin_seq })
  on_grace r left fin_seq failure = skip (record r { phase = returned })
  on_grace r left fin_seq (packet packet_data addr) =
      on_grace_packet (record r { phase = grace_left left fin_seq }) fin_seq packet_data addr

  -- One round of whichever loop the generator is in.
  unfoldable pub step_in : Phase → Config → Receiver → Event → Reply
  step_in receiving cfg r event =
      if event.cancelled
      then raise r (runtime_error cancelled)
      else on_received cfg r event.received
  step_in (grace zero fin_seq) cfg r event = skip (record r { phase = returned })
  step_in (grace (suc left) fin_seq) cfg r event = on_grace r left fin_seq event.received
  step_in returned cfg r event = skip r
  step_in (raised e) cfg r event = skip r

  unfoldable pub step : Config → Receiver → Event → Reply
  step cfg r event = step_in r.phase cfg r event

  -- The generator run to its end, or as far as the events go.
  unfoldable pub run : Config → Receiver → List Event → Reply
  run cfg r [] = (r, [])
  run cfg r (event ∷ events) =
      let (r', out) = step cfg r event in let (r'', rest) = run cfg r' events in (r'', out ++ rest)

  unfoldable pub receive_chunks_rdt : Config → Option ℕ → List Event → Reply
  receive_chunks_rdt cfg transfer_id_hint events = run cfg (start transfer_id_hint) events
