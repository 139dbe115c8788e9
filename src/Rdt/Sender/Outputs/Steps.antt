-- ===== src/Rdt/Sender/Outputs/Steps.antt =====
-- What a whole round of the sender puts on the network, and what it counts as acknowledged.
use hybrid_ftp_socket.Prelude.{
  ℕ, zero, suc, Bytes, List, [], ◌∷◌, ◌≡◌, refl, inl, inr, Bool-cases, ◌==◌, ap, ◌&&◌,
}
use hybrid_ftp_socket.Prelude.Outcome.{ok, os_error, Result-cases}
use hybrid_ftp_socket.Rdt.Header.{deserialize}
use hybrid_ftp_socket.Rdt.Network.{
  Address, address_eq, Received, timeout, failure, packet, Event, sent,
}
use hybrid_ftp_socket.Rdt.Sender.State.{
  Job, Phase, starting, sending, returned, raised, Sender, Reply, raise, skip, attempts,
}
use hybrid_ftp_socket.Rdt.Sender.Window.{base}
use hybrid_ftp_socket.Rdt.Sender.Invariant.{IsValid}
use hybrid_ftp_socket.Rdt.Sender.Invariant.Rounds.{refill-IsValid, refill-phase}
use hybrid_ftp_socket.Rdt.Sender.{
  start_packet, abort_packet, cancel_with, refill, valid_ack, on_start_ack, on_attempt, step_in,
  step,
}
use hybrid_ftp_socket.Rdt.Sender.Outputs.{
  start-Genuine, abort-Genuine, Says, refill-Says, after_fill-Says,
}

module _ (crc32 : Bytes → ℕ) (job : Job) (chunks : List Bytes) where
  cancel-Says :
      (s : Sender) (n : ℕ) (received : Received)
      → Says crc32 job chunks (base s.last_acked) received (cancel_with crc32 job s n)
  cancel-Says s n received = elim (Result-cases (abort_packet crc32 job.transfer_id n)) [
    | inl (b, d) ↦
        rw (d, cancel_with) ((abort-Genuine crc32 job chunks n b job.destination d, tt), inl refl)
    | inr (e, d) ↦ rw (d, cancel_with) (tt, inl refl)
  ]

  on_start_ack-Says :
      (s : Sender) (ack_data : Bytes) (addr : Address)
      → ((on_start_ack crc32 job s ack_data addr).1 ≡ [])
        × ((on_start_ack crc32 job s ack_data addr).0.last_acked ≡ s.last_acked)
  unfolding on_start_ack
  on_start_ack-Says s ack_data addr = elim (Bool-cases (address_eq addr job.destination)) [
    | inr f ↦ rw f (refl, refl)
    | inl t ↦ elim (Result-cases (deserialize ack_data)) [
      | inr (e, d) ↦ rw (t, d, on_start_ack) (refl, refl)
      | inl (h, d) ↦ elim (Result-cases (valid_ack crc32 h job.transfer_id)) [
        | inr (e, q) ↦ rw (t, d, q, on_start_ack) (refl, refl)
        | inl (valid, q) ↦ elim (Bool-cases (valid && h.ack_num == 0)) [
          | inr o ↦ rw (t, d, q, on_start_ack, o) (refl, refl)
          | inl o ↦ rw (t, d, q, on_start_ack, o) (refl, refl)
        ]
      ]
    ]
  ]

  on_attempt-Says :
      (s : Sender) (left : ℕ) (received : Received)
      → Says crc32 job chunks (base s.last_acked) received (on_attempt crc32 job s left received)
  unfolding on_attempt
  on_attempt-Says s left received = elim (Result-cases (start_packet crc32 job)) [
    | inr (e, d) ↦ rw (d, on_attempt) (tt, inl refl)
    | inl (b, d) ↦ rw (d, on_attempt) (by_received b d received)
  ]
    where
      by_received :
          (b : Bytes)
          → start_packet crc32 job ≡ ok b
          → (received : Received)
          → let reply : Reply = elim received as (λ x. Reply) [
            | timeout ↦ skip (record s { phase = attempts left })
            | failure ↦ raise s os_error
            | packet ack_data addr ↦
                on_start_ack crc32 job (record s { phase = attempts left }) ack_data addr
          ] in
            Says crc32 job chunks
              (base s.last_acked)
              received
              (reply.0, sent b job.destination ∷ reply.1)
      by_received b d timeout = ((start-Genuine crc32 job chunks b job.destination d, tt), inl refl)
      by_received b d failure = ((start-Genuine crc32 job chunks b job.destination d, tt), inl refl)
      by_received b d (packet ack_data addr) =
          let q = on_start_ack-Says (record s { phase = attempts left }) ack_data addr in
          ((start-Genuine crc32 job chunks b job.destination d, rw q.0 tt), inl (ap base q.1))

  step_in-Says :
      (phase : Phase) (s : Sender) (event : Event)
      → s.phase ≡ phase
      → IsValid crc32 job chunks s
      → Says crc32 job chunks (base s.last_acked) event.received (step_in crc32 phase job s event)
  unfolding step_in
  step_in-Says (starting zero) s event p v = (tt, inl refl)
  step_in-Says (starting (suc left)) s event p v = elim (Bool-cases event.cancelled) [
    | inl c ↦ rw c (cancel-Says (record s { phase = _ }) 0 event.received)
    | inr c ↦ rw c (on_attempt-Says s left event.received)
  ]
  step_in-Says sending s event p v = elim (Bool-cases event.cancelled) [
    | inl c ↦ rw c (cancel-Says (record s { phase = _ }) s.next_seq event.received)
    | inr c ↦
        let q = refill-Says crc32 job chunks s p v in
        rw c (
          after_fill-Says crc32 job chunks (base s.last_acked) (refill crc32 job s) event.received
            (refill-phase crc32 job chunks s p) q.0 (ap base q.1)
            (refill-IsValid crc32 job chunks s p v))
  ]
  step_in-Says returned s event p v = (tt, inl refl)
  step_in-Says (raised e) s event p v = (tt, inl refl)

  pub step-Says :
      (s : Sender) (event : Event)
      → IsValid crc32 job chunks s
      → Says crc32 job chunks (base s.last_acked) event.received (step crc32 job s event)
  unfolding step
  step-Says s event v = step_in-Says s.phase s event refl v
