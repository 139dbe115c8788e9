-- ===== src/Rdt/Tests.antt =====
-- One transfer of two chunks, and the theorems of the transport applied to it.
use hybrid_ftp_socket.Prelude.{
  ℕ, ◌+◌, ◌*◌, ◌≤◌, Bytes, true, false, ◌≡◌, refl, inl, inr, some, none, List, [], ◌∷◌, arith,
  length, replicate, take, subst,
}
use hybrid_ftp_socket.Prelude.Outcome.{Result, ok, err}
use hybrid_ftp_socket.Rdt.Header.{
  Header, serialize, deserialize, is_valid_flags, has_flag, fits, wire, unpack, validate_length,
  covered, compute_checksum, verify_checksum, sealed, payload_of,
}
use hybrid_ftp_socket.Prelude.Text.{is_space, lstrip, strip, upper_char, upper}
use hybrid_ftp_socket.Rdt.Context.{
  encode_start_metadata, decode_start_metadata, is_mode, is_mode_text, is_type, is_type_text, u64,
  u64_at,
}
use hybrid_ftp_socket.Rdt.Network.{Address, address_eq, timeout, packet, Event}
use hybrid_ftp_socket.Rdt.Receiver
use hybrid_ftp_socket.Rdt.Receiver.State.{
  Config, chunks_of, is_our_id, is_peer, is_same_id, is_stranger, learn_total, mismatch, or_else,
}
use hybrid_ftp_socket.Rdt.Receiver.Moves.{IsOver}
use hybrid_ftp_socket.Rdt.Receiver.{receive_chunks_rdt}
use hybrid_ftp_socket.Rdt.Receiver.Moves.{IsChunkOf, IsGenuine}
use hybrid_ftp_socket.Rdt.Receiver.Delivery.{receive_chunks_rdt_prefix, receive_chunks_rdt_complete}
use hybrid_ftp_socket.Rdt.Receiver.Acks.{Speaks, step-Speaks}
use hybrid_ftp_socket.Rdt.Sender.{send_chunks_rdt}
use hybrid_ftp_socket.Rdt.Sender.Invariant.{IsValid}
use hybrid_ftp_socket.Rdt.Sender.Completion.{send_chunks_rdt-IsValid}
use hybrid_ftp_socket.Rdt.Sender.Silence.{IsEnded, silent, silent-IsEnded}
use hybrid_ftp_socket.Rdt.Sender.StartAck.{start_ack_twice-returned}
use hybrid_ftp_socket.Rdt.Sender
use hybrid_ftp_socket.Rdt.Sender.State.{Job, returned, Item, is_acked, is_done, pop_acked, resend}
use hybrid_ftp_socket.Rdt.Protocol.{
  System, initial, sender_round, receiver_round, Reach, begin, by_sender, by_receiver,
}
use hybrid_ftp_socket.Rdt.Protocol.Completion.{Reach-prefix, Reach-over, returned-delivered}

-- A stand-in for `zlib.crc32`.
unfoldable sum_of : Bytes → ℕ
sum_of [] = 0
sum_of (b ∷ bytes) = b + 3 * sum_of bytes

abbrev sender_addr : Address
sender_addr = record { host = "10.0.0.1"; port = 5000 }

abbrev receiver_addr : Address
receiver_addr = record { host = "10.0.0.2"; port = 6000 }

abbrev job : Job
job = record {
  transfer_id = 77;
  destination = receiver_addr;
  retry_limit = 3;
  total_bytes = some 5;
  window_size = 3;
  transfer_mode = b's' ∷ [];
  transfer_type = b'I' ∷ [];
}

abbrev cfg : Config
cfg = record { max_timeouts = 3; expected_mode = some b'S'; expected_type = none }

abbrev two_chunks : List Bytes
two_chunks = (1 ∷ 2 ∷ 3 ∷ []) ∷ (4 ∷ 5 ∷ []) ∷ []

abbrev bytes_of : Result Bytes → Bytes
bytes_of (ok bytes) = bytes
bytes_of (err e) = []

abbrev start_sent : Bytes
start_sent = bytes_of (Sender.start_packet sum_of job)

abbrev first_sent : Bytes
first_sent =
    bytes_of (
      Sender.data_packet sum_of 77
        (record { seq_num = 0; chunk = 1 ∷ 2 ∷ 3 ∷ []; is_last = false }))

abbrev last_sent : Bytes
last_sent =
    bytes_of
      (Sender.data_packet sum_of 77 (record { seq_num = 1; chunk = 4 ∷ 5 ∷ []; is_last = true }))

abbrev ack_sent : ℕ → Bytes
ack_sent n = bytes_of (Receiver.ack_packet sum_of 77 n)

abbrev nothing : Event
nothing = record { cancelled = false; received = timeout }

abbrev arrives : Bytes → Address → Event
arrives d addr = record { cancelled = false; received = packet d addr }

abbrev by_S : System → Event → System
by_S = sender_round sum_of job cfg two_chunks

abbrev by_R : System → Event → System
by_R = receiver_round sum_of job cfg two_chunks

abbrev opened : System
opened = by_S (initial sum_of job cfg two_chunks) nothing

abbrev answered : System
answered = by_R opened (arrives start_sent sender_addr)

abbrev filled : System
filled = by_S (by_S answered (arrives (ack_sent 0) receiver_addr)) nothing

abbrev received_both : System
received_both = by_R (by_R filled (arrives first_sent sender_addr)) (arrives last_sent sender_addr)

abbrev finished : System
finished = by_S received_both (arrives (ack_sent 1) receiver_addr)

finished-returned : finished.sender.phase ≡ returned
unfolding sum_of sender_round receiver_round chunks_of serialize is_space lstrip strip upper_char
    upper is_mode is_mode_text is_type is_type_text u64 u64_at encode_start_metadata
    decode_start_metadata covered compute_checksum sealed deserialize fits has_flag is_valid_flags
    unpack validate_length verify_checksum wire address_eq is_our_id is_peer is_same_id is_stranger
    learn_total mismatch or_else Receiver.ack_packet Receiver.on_data Receiver.on_flags
    Receiver.on_grace Receiver.on_grace_packet Receiver.on_header Receiver.on_metadata
    Receiver.on_packet Receiver.on_payload Receiver.on_received Receiver.on_start Receiver.step
    Receiver.step_in is_acked is_done pop_acked resend Sender.State.lookahead
    Sender.State.lookahead_from Sender.start_packet Sender.data_packet Sender.abort_packet
    Sender.after_fill Sender.fill Sender.on_ack Sender.on_new_ack Sender.on_received
    Sender.on_start_ack Sender.on_attempt Sender.refill Sender.valid_ack Sender.step Sender.step_in
finished-returned = refl

-- The rounds of the transfer, none of which gets a forged datagram.
opened-Reach : Reach sum_of job cfg two_chunks opened
opened-Reach = by_sender nothing begin tt

answered-Reach : Reach sum_of job cfg two_chunks answered
unfolding sum_of sender_round receiver_round chunks_of serialize is_space lstrip strip upper_char
    upper is_mode is_mode_text is_type is_type_text u64 u64_at encode_start_metadata
    decode_start_metadata covered compute_checksum sealed deserialize fits has_flag is_valid_flags
    unpack validate_length verify_checksum wire address_eq is_our_id is_peer is_same_id is_stranger
    learn_total mismatch or_else Receiver.ack_packet Receiver.on_data Receiver.on_flags
    Receiver.on_grace Receiver.on_grace_packet Receiver.on_header Receiver.on_metadata
    Receiver.on_packet Receiver.on_payload Receiver.on_received Receiver.on_start Receiver.step
    Receiver.step_in is_acked is_done pop_acked resend Sender.State.lookahead
    Sender.State.lookahead_from Sender.start_packet Sender.data_packet Sender.abort_packet
    Sender.after_fill Sender.fill Sender.on_ack Sender.on_new_ack Sender.on_received
    Sender.on_start_ack Sender.on_attempt Sender.refill Sender.valid_ack Sender.step Sender.step_in
answered-Reach = by_receiver (arrives start_sent sender_addr) opened-Reach (λ h a. inl refl)

filled-Reach : Reach sum_of job cfg two_chunks filled
unfolding sum_of sender_round receiver_round chunks_of serialize is_space lstrip strip upper_char
    upper is_mode is_mode_text is_type is_type_text u64 u64_at encode_start_metadata
    decode_start_metadata covered compute_checksum sealed deserialize fits has_flag is_valid_flags
    unpack validate_length verify_checksum wire address_eq is_our_id is_peer is_same_id is_stranger
    learn_total mismatch or_else Receiver.ack_packet Receiver.on_data Receiver.on_flags
    Receiver.on_grace Receiver.on_grace_packet Receiver.on_header Receiver.on_metadata
    Receiver.on_packet Receiver.on_payload Receiver.on_received Receiver.on_start Receiver.step
    Receiver.step_in is_acked is_done pop_acked resend Sender.State.lookahead
    Sender.State.lookahead_from Sender.start_packet Sender.data_packet Sender.abort_packet
    Sender.after_fill Sender.fill Sender.on_ack Sender.on_new_ack Sender.on_received
    Sender.on_start_ack Sender.on_attempt Sender.refill Sender.valid_ack Sender.step Sender.step_in
filled-Reach =
    by_sender nothing
      (by_sender (arrives (ack_sent 0) receiver_addr) answered-Reach (λ h d v a. inl refl)) tt

received_both-Reach : Reach sum_of job cfg two_chunks received_both
unfolding sum_of sender_round receiver_round chunks_of serialize is_space lstrip strip upper_char
    upper is_mode is_mode_text is_type is_type_text u64 u64_at encode_start_metadata
    decode_start_metadata covered compute_checksum sealed deserialize fits has_flag is_valid_flags
    unpack validate_length verify_checksum wire address_eq is_our_id is_peer is_same_id is_stranger
    learn_total mismatch or_else Receiver.ack_packet Receiver.on_data Receiver.on_flags
    Receiver.on_grace Receiver.on_grace_packet Receiver.on_header Receiver.on_metadata
    Receiver.on_packet Receiver.on_payload Receiver.on_received Receiver.on_start Receiver.step
    Receiver.step_in is_acked is_done pop_acked resend Sender.State.lookahead
    Sender.State.lookahead_from Sender.start_packet Sender.data_packet Sender.abort_packet
    Sender.after_fill Sender.fill Sender.on_ack Sender.on_new_ack Sender.on_received
    Sender.on_start_ack Sender.on_attempt Sender.refill Sender.valid_ack Sender.step Sender.step_in
received_both-Reach =
    by_receiver (arrives last_sent sender_addr)
      (by_receiver (arrives first_sent sender_addr) filled-Reach (λ h a. inr (inr (inl refl))))
      (λ h a. inr (inr (inr (inl refl))))

finished-Reach : Reach sum_of job cfg two_chunks finished
unfolding sum_of sender_round receiver_round chunks_of serialize is_space lstrip strip upper_char
    upper is_mode is_mode_text is_type is_type_text u64 u64_at encode_start_metadata
    decode_start_metadata covered compute_checksum sealed deserialize fits has_flag is_valid_flags
    unpack validate_length verify_checksum wire address_eq is_our_id is_peer is_same_id is_stranger
    learn_total mismatch or_else Receiver.ack_packet Receiver.on_data Receiver.on_flags
    Receiver.on_grace Receiver.on_grace_packet Receiver.on_header Receiver.on_metadata
    Receiver.on_packet Receiver.on_payload Receiver.on_received Receiver.on_start Receiver.step
    Receiver.step_in is_acked is_done pop_acked resend Sender.State.lookahead
    Sender.State.lookahead_from Sender.start_packet Sender.data_packet Sender.abort_packet
    Sender.after_fill Sender.fill Sender.on_ack Sender.on_new_ack Sender.on_received
    Sender.on_start_ack Sender.on_attempt Sender.refill Sender.valid_ack Sender.step Sender.step_in
finished-Reach =
    by_sender (arrives (ack_sent 1) receiver_addr) received_both-Reach
      (λ h d v a. inr (inr (inl refl)))

returned-delivered_example : chunks_of finished.receiver_output ≡ two_chunks
returned-delivered_example =
    returned-delivered sum_of job cfg two_chunks finished-Reach finished-returned (omega arith)

Reach-prefix_example :
    (place : ℕ) × (place ≤ length two_chunks)
    × (chunks_of received_both.receiver_output ≡ take place two_chunks)
Reach-prefix_example = Reach-prefix sum_of job cfg two_chunks received_both-Reach

received_both-IsOver : IsOver received_both.receiver.phase
unfolding sum_of sender_round receiver_round chunks_of serialize is_space lstrip strip upper_char
    upper is_mode is_mode_text is_type is_type_text u64 u64_at encode_start_metadata
    decode_start_metadata covered compute_checksum sealed deserialize fits has_flag is_valid_flags
    unpack validate_length verify_checksum wire address_eq is_our_id is_peer is_same_id is_stranger
    learn_total mismatch or_else Receiver.ack_packet Receiver.on_data Receiver.on_flags
    Receiver.on_grace Receiver.on_grace_packet Receiver.on_header Receiver.on_metadata
    Receiver.on_packet Receiver.on_payload Receiver.on_received Receiver.on_start Receiver.step
    Receiver.step_in is_acked is_done pop_acked resend Sender.State.lookahead
    Sender.State.lookahead_from Sender.start_packet Sender.data_packet Sender.abort_packet
    Sender.after_fill Sender.fill Sender.on_ack Sender.on_new_ack Sender.on_received
    Sender.on_start_ack Sender.on_attempt Sender.refill Sender.valid_ack Sender.step Sender.step_in
received_both-IsOver = tt

Reach-over_example : chunks_of received_both.receiver_output ≡ two_chunks
Reach-over_example = Reach-over sum_of job cfg two_chunks received_both-Reach received_both-IsOver

-- The receiver alone: what it gets is what the sender sent, out of order and twice.
abbrev to_receiver : List Event
to_receiver =
    arrives last_sent sender_addr
    ∷ arrives first_sent sender_addr
    ∷ arrives first_sent sender_addr
    ∷ arrives last_sent sender_addr
    ∷ []

ok-injective : (h h' : Header) → ok h ≡ ok h' → h ≡ h'
ok-injective h h' e = cc

first-IsGenuine : IsGenuine sum_of 77 two_chunks (packet first_sent sender_addr)
unfolding sum_of sender_round receiver_round chunks_of serialize is_space lstrip strip upper_char
    upper is_mode is_mode_text is_type is_type_text u64 u64_at encode_start_metadata
    decode_start_metadata covered compute_checksum sealed deserialize fits has_flag is_valid_flags
    unpack validate_length verify_checksum wire address_eq is_our_id is_peer is_same_id is_stranger
    learn_total mismatch or_else Receiver.ack_packet Receiver.on_data Receiver.on_flags
    Receiver.on_grace Receiver.on_grace_packet Receiver.on_header Receiver.on_metadata
    Receiver.on_packet Receiver.on_payload Receiver.on_received Receiver.on_start Receiver.step
    Receiver.step_in is_acked is_done pop_acked resend Sender.State.lookahead
    Sender.State.lookahead_from Sender.start_packet Sender.data_packet Sender.abort_packet
    Sender.after_fill Sender.fill Sender.on_ack Sender.on_new_ack Sender.on_received
    Sender.on_start_ack Sender.on_attempt Sender.refill Sender.valid_ack Sender.step Sender.step_in
first-IsGenuine h a =
    subst (λ h. IsChunkOf two_chunks h (payload_of h first_sent)) (ok-injective _ _ a.reads)
      (record { chunk = refl; last = λ x. cc })

last-IsGenuine : IsGenuine sum_of 77 two_chunks (packet last_sent sender_addr)
unfolding sum_of sender_round receiver_round chunks_of serialize is_space lstrip strip upper_char
    upper is_mode is_mode_text is_type is_type_text u64 u64_at encode_start_metadata
    decode_start_metadata covered compute_checksum sealed deserialize fits has_flag is_valid_flags
    unpack validate_length verify_checksum wire address_eq is_our_id is_peer is_same_id is_stranger
    learn_total mismatch or_else Receiver.ack_packet Receiver.on_data Receiver.on_flags
    Receiver.on_grace Receiver.on_grace_packet Receiver.on_header Receiver.on_metadata
    Receiver.on_packet Receiver.on_payload Receiver.on_received Receiver.on_start Receiver.step
    Receiver.step_in is_acked is_done pop_acked resend Sender.State.lookahead
    Sender.State.lookahead_from Sender.start_packet Sender.data_packet Sender.abort_packet
    Sender.after_fill Sender.fill Sender.on_ack Sender.on_new_ack Sender.on_received
    Sender.on_start_ack Sender.on_attempt Sender.refill Sender.valid_ack Sender.step Sender.step_in
last-IsGenuine h a =
    subst (λ h. IsChunkOf two_chunks h (payload_of h last_sent)) (ok-injective _ _ a.reads)
      (record { chunk = refl; last = λ x. refl })

receiver-IsOver : IsOver (receive_chunks_rdt sum_of cfg (some 77) to_receiver).0.phase
unfolding Receiver.run receive_chunks_rdt sum_of sender_round receiver_round chunks_of serialize
    is_space lstrip strip upper_char upper is_mode is_mode_text is_type is_type_text u64 u64_at
    encode_start_metadata decode_start_metadata covered compute_checksum sealed deserialize fits
    has_flag is_valid_flags unpack validate_length verify_checksum wire address_eq is_our_id is_peer
    is_same_id is_stranger learn_total mismatch or_else Receiver.ack_packet Receiver.on_data
    Receiver.on_flags Receiver.on_grace Receiver.on_grace_packet Receiver.on_header
    Receiver.on_metadata Receiver.on_packet Receiver.on_payload Receiver.on_received
    Receiver.on_start Receiver.step Receiver.step_in is_acked is_done pop_acked resend
    Sender.State.lookahead Sender.State.lookahead_from Sender.start_packet Sender.data_packet
    Sender.abort_packet Sender.after_fill Sender.fill Sender.on_ack Sender.on_new_ack
    Sender.on_received Sender.on_start_ack Sender.on_attempt Sender.refill Sender.valid_ack
    Sender.step Sender.step_in
receiver-IsOver = tt

receive_chunks_rdt_complete_example :
    chunks_of (receive_chunks_rdt sum_of cfg (some 77) to_receiver).1 ≡ two_chunks
receive_chunks_rdt_complete_example =
    receive_chunks_rdt_complete sum_of 77 two_chunks cfg to_receiver
      (last-IsGenuine, (first-IsGenuine, (first-IsGenuine, (last-IsGenuine, tt)))) receiver-IsOver

receive_chunks_rdt_prefix_example :
    (place : ℕ) × (place ≤ length two_chunks)
    × (chunks_of (receive_chunks_rdt sum_of cfg (some 77) to_receiver).1 ≡ take place two_chunks)
receive_chunks_rdt_prefix_example =
    receive_chunks_rdt_prefix sum_of 77 two_chunks cfg to_receiver
      (last-IsGenuine, (first-IsGenuine, (first-IsGenuine, (last-IsGenuine, tt))))

step-Speaks_example :
    Speaks (Receiver.step sum_of cfg filled.receiver (arrives first_sent sender_addr))
unfolding sum_of sender_round receiver_round chunks_of serialize is_space lstrip strip upper_char
    upper is_mode is_mode_text is_type is_type_text u64 u64_at encode_start_metadata
    decode_start_metadata covered compute_checksum sealed deserialize fits has_flag is_valid_flags
    unpack validate_length verify_checksum wire address_eq is_our_id is_peer is_same_id is_stranger
    learn_total mismatch or_else Receiver.ack_packet Receiver.on_data Receiver.on_flags
    Receiver.on_grace Receiver.on_grace_packet Receiver.on_header Receiver.on_metadata
    Receiver.on_packet Receiver.on_payload Receiver.on_received Receiver.on_start Receiver.step
    Receiver.step_in is_acked is_done pop_acked resend Sender.State.lookahead
    Sender.State.lookahead_from Sender.start_packet Sender.data_packet Sender.abort_packet
    Sender.after_fill Sender.fill Sender.on_ack Sender.on_new_ack Sender.on_received
    Sender.on_start_ack Sender.on_attempt Sender.refill Sender.valid_ack Sender.step Sender.step_in
step-Speaks_example = step-Speaks sum_of cfg filled.receiver (arrives first_sent sender_addr) tt

-- The sender alone: START is acknowledged, then both packets are.
abbrev to_sender : List Event
to_sender = arrives (ack_sent 0) receiver_addr ∷ nothing ∷ arrives (ack_sent 1) receiver_addr ∷ []

send_chunks_rdt-IsValid_example :
    IsValid sum_of job two_chunks (send_chunks_rdt sum_of job two_chunks to_sender).0
send_chunks_rdt-IsValid_example = send_chunks_rdt-IsValid sum_of job two_chunks to_sender

silent-IsEnded_example : IsEnded (Sender.run sum_of job filled.sender (replicate 3 silent)).0.phase
unfolding sum_of sender_round receiver_round chunks_of serialize is_space lstrip strip upper_char
    upper is_mode is_mode_text is_type is_type_text u64 u64_at encode_start_metadata
    decode_start_metadata covered compute_checksum sealed deserialize fits has_flag is_valid_flags
    unpack validate_length verify_checksum wire address_eq is_our_id is_peer is_same_id is_stranger
    learn_total mismatch or_else Receiver.ack_packet Receiver.on_data Receiver.on_flags
    Receiver.on_grace Receiver.on_grace_packet Receiver.on_header Receiver.on_metadata
    Receiver.on_packet Receiver.on_payload Receiver.on_received Receiver.on_start Receiver.step
    Receiver.step_in is_acked is_done pop_acked resend Sender.State.lookahead
    Sender.State.lookahead_from Sender.start_packet Sender.data_packet Sender.abort_packet
    Sender.after_fill Sender.fill Sender.on_ack Sender.on_new_ack Sender.on_received
    Sender.on_start_ack Sender.on_attempt Sender.refill Sender.valid_ack Sender.step Sender.step_in
silent-IsEnded_example = silent-IsEnded sum_of job 3 filled.sender (omega arith, omega arith)

-- A sender that has one chunk and hears the acknowledgement of START twice.
start_ack_twice-returned_example :
    let call =
      send_chunks_rdt sum_of job
        ((4 ∷ 5 ∷ []) ∷ [])
        (arrives (ack_sent 0) receiver_addr ∷ arrives (ack_sent 0) receiver_addr ∷ []) in
    (call.0.phase ≡ returned) × (call.0.transferred_bytes ≡ 2)
unfolding sum_of sender_round receiver_round chunks_of serialize is_space lstrip strip upper_char
    upper is_mode is_mode_text is_type is_type_text u64 u64_at encode_start_metadata
    decode_start_metadata covered compute_checksum sealed deserialize fits has_flag is_valid_flags
    unpack validate_length verify_checksum wire address_eq is_our_id is_peer is_same_id is_stranger
    learn_total mismatch or_else Receiver.ack_packet Receiver.on_data Receiver.on_flags
    Receiver.on_grace Receiver.on_grace_packet Receiver.on_header Receiver.on_metadata
    Receiver.on_packet Receiver.on_payload Receiver.on_received Receiver.on_start Receiver.step
    Receiver.step_in is_acked is_done pop_acked resend Sender.State.lookahead
    Sender.State.lookahead_from Sender.start_packet Sender.data_packet Sender.abort_packet
    Sender.after_fill Sender.fill Sender.on_ack Sender.on_new_ack Sender.on_received
    Sender.on_start_ack Sender.on_attempt Sender.refill Sender.valid_ack Sender.step Sender.step_in
start_ack_twice-returned_example =
    start_ack_twice-returned sum_of job (ack_sent 0) receiver_addr (unpack (ack_sent 0)) refl refl
      refl refl (4 ∷ 5 ∷ []) start_sent
      (bytes_of
        (Sender.data_packet sum_of 77 (record { seq_num = 0; chunk = 4 ∷ 5 ∷ []; is_last = true })))
      (omega arith) refl refl (omega arith)
