-- ===== src/Rdt/Sender/StartAck.antt =====
-- The acknowledgement of START has number 0, as that of the first packet has: a second copy of it
-- is taken for the acknowledgement of a packet that nobody may have received.
use hybrid_ftp_socket.Prelude.{
  ℕ, zero, suc, ◌≤◌, Bytes, true, false, ◌≡◌, refl, ap, ◌∙◌, [], ◌∷◌, arith, length, some, ltb, leb,
  lt→ltb,
}
use hybrid_ftp_socket.Prelude.Outcome.{ok}
use hybrid_ftp_socket.Rdt.Header.{Header, deserialize}
use hybrid_ftp_socket.Rdt.Network.{Address, address_eq, packet, Event, sent}
use hybrid_ftp_socket.Rdt.Sender.State.{
  Job, lookahead, lookahead_from, starting, sending, returned, Sender, is_done, is_acked, pop_acked,
  attempts,
}
use hybrid_ftp_socket.Rdt.Sender.{
  data_packet, start_packet, valid_ack, fill, refill, on_new_ack, on_ack, on_received, after_fill,
  on_start_ack, on_attempt, step_in, step, run, start, send_chunks_rdt,
}

abbrev pub arrives : Bytes → Address → Event
arrives d addr = record { cancelled = false; received = packet d addr }

one_fresh : leb 1 0 ≡ false
one_fresh = ground arith

zero_acked : leb 0 0 ≡ true
zero_acked = ground arith

wide : (w : ℕ) → 2 ≤ w → ltb w 1 ≡ false
wide w more = ground arith

module _ (crc32 : Bytes → ℕ) (job : Job) (d : Bytes) (addr : Address) (h : Header)
    (reads : deserialize d ≡ ok h) (valid : valid_ack crc32 h job.transfer_id ≡ ok true)
    (zeroth : h.ack_num ≡ 0) (peer : address_eq addr job.destination ≡ true) where
  on_start_ack-valid :
      (s : Sender) → on_start_ack crc32 job s d addr ≡ (record s { phase = sending }, [])
  unfolding on_start_ack
  on_start_ack-valid s = rw (peer, reads, valid, zeroth)

  on_ack-valid :
      (s : Sender)
      → is_acked s.last_acked 0 ≡ false
      → leb s.next_seq 0 ≡ false
      → on_ack crc32 job s d addr ≡ on_new_ack crc32 job s 0
  unfolding on_ack
  on_ack-valid s fresh sent_it = rw (peer, reads, valid, zeroth, fresh, sent_it)

  module _ (chunk s b : Bytes) (more : 2 ≤ job.window_size)
      (start_made : start_packet crc32 job ≡ ok s)
      (data_made : data_packet crc32 job.transfer_id
          (record { seq_num = 0; chunk = chunk; is_last = true })
        ≡ ok b) where
    abbrev opened : Sender
    opened = record (start job (chunk ∷ [])) { phase = sending }

    abbrev filled : Sender
    filled = record opened {
      pending = [];
      pending_exhausted = true;
      next_seq = 1;
      window = record { seq_num = 0; packet_data = b; chunk_length = length chunk } ∷ [];
    }

    on_attempt-start :
        (left : ℕ) (t : Sender)
        → on_attempt crc32 job t left (packet d addr)
          ≡ (record t { phase = sending }, sent s job.destination ∷ [])
    unfolding on_attempt
    on_attempt-start left t =
        rw (start_made, on_attempt, on_start_ack-valid (record t { phase = attempts left }))

    first_round :
        (left : ℕ) (t : Sender)
        → step_in crc32 (starting (suc left)) job t (arrives d addr)
          ≡ (record t { phase = sending }, sent s job.destination ∷ [])
    unfolding step_in
    first_round left t = on_attempt-start left t

    fill_one : refill crc32 job opened ≡ (filled, sent b job.destination ∷ [])
    unfolding refill lookahead lookahead_from fill
    fill_one =
        rw (lt→ltb 0 job.window_size (omega arith), data_made, fill, lt→ltb 1 job.window_size more)

    second_round :
        (step_in crc32 sending job opened (arrives d addr)).0 ≡ (on_new_ack crc32 job filled 0).0
    unfolding step_in after_fill on_received is_acked
    second_round = rw (fill_one, on_ack-valid filled refl one_fresh)

    finished : (on_new_ack crc32 job filled 0).0 ≡ record filled {
      phase = returned;
      window = [];
      timeout_count = 0;
      transferred_bytes = length chunk;
      last_acked = some 0;
    }
    unfolding on_new_ack pop_acked is_done
    finished =
        ap
          (λ n. record filled {
            phase = returned;
            window = [];
            timeout_count = 0;
            transferred_bytes = n;
            last_acked = some 0;
          })
          (omega arith)

    two_rounds :
        (left : ℕ)
        → (run crc32 job
            (record (start job (chunk ∷ [])) { phase = starting (suc left) })
            (arrives d addr ∷ arrives d addr ∷ [])).0
          ≡ record filled {
            phase = returned;
            window = [];
            timeout_count = 0;
            transferred_bytes = length chunk;
            last_acked = some 0;
          }
    unfolding run step
    two_rounds left =
        rw (first_round left (record (start job (chunk ∷ [])) { phase = starting (suc left) }))
          (second_round ∙ finished)

    all_tries :
        (n : ℕ)
        → 1 ≤ n
        → (run crc32 job
            (record (start job (chunk ∷ [])) { phase = attempts n })
            (arrives d addr ∷ arrives d addr ∷ [])).0
          ≡ record filled {
            phase = returned;
            window = [];
            timeout_count = 0;
            transferred_bytes = length chunk;
            last_acked = some 0;
          }
    all_tries zero tries = absurd (omega arith)
    all_tries (suc left) tries = two_rounds left

    call-ends :
        1 ≤ job.retry_limit
        → (send_chunks_rdt crc32 job (chunk ∷ []) (arrives d addr ∷ arrives d addr ∷ [])).0
          ≡ record filled {
            phase = returned;
            window = [];
            timeout_count = 0;
            transferred_bytes = length chunk;
            last_acked = some 0;
          }
    unfolding send_chunks_rdt
    call-ends tries = rw (wide job.window_size more) (all_tries job.retry_limit tries)

    -- For a single chunk and a window of two packets or more: when the first two rounds receive
    -- an acknowledgement of number 0 from the receiver, twice the same datagram, the call returns
    -- and counts the chunk as transferred. The first copy is taken for the one of START, and
    -- nothing tells the second from the one of the packet.
    pub start_ack_twice-returned :
        1 ≤ job.retry_limit
        → let call =
            send_chunks_rdt crc32 job (chunk ∷ []) (arrives d addr ∷ arrives d addr ∷ []) in
          (call.0.phase ≡ returned) × (call.0.transferred_bytes ≡ length chunk)
    start_ack_twice-returned tries = (
      ap (λ (s : Sender). s.phase) (call-ends tries),
      ap (λ (s : Sender). s.transferred_bytes) (call-ends tries),
    )
