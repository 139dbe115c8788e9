-- ===== src/Rdt/Sender/Invariant/Calls.antt =====
-- The sender's invariant from START to the end of the call, and what a call that returns has done.
use hybrid_ftp_socket.Prelude.{
  ℕ, zero, suc, Bytes, List, [], ◌∷◌, ◌≡◌, ◌≢◌, refl, arith, inl, inr, Bool-cases, ◌&&◌, ◌==◌,
}
use hybrid_ftp_socket.Prelude.Outcome.{Error, os_error, Result-cases}
use hybrid_ftp_socket.Rdt.Header.{deserialize}
use hybrid_ftp_socket.Rdt.Network.{Address, address_eq, Received, timeout, failure, packet, Event}
use hybrid_ftp_socket.Rdt.Sender.State.{
  Job, Phase, starting, sending, returned, raised, Sender, Reply, raise, skip, attempts,
}
use hybrid_ftp_socket.Rdt.Sender.Items.{bytes_before}
use hybrid_ftp_socket.Rdt.Sender.{
  start_packet, abort_packet, cancel_with, refill, valid_ack, on_start_ack, on_attempt, step_in,
  step, run, start,
}
use hybrid_ftp_socket.Rdt.Sender.Invariant.{IsValid, leave-IsValid}
use hybrid_ftp_socket.Rdt.Sender.Invariant.Rounds.{refill-phase, refill-IsValid, after_fill-IsValid}

pub attempts-ne : (left : ℕ) → attempts left ≢ returned
attempts-ne zero e = cc
attempts-ne (suc left) e = cc

module _ (crc32 : Bytes → ℕ) (job : Job) (chunks : List Bytes) where
  abbrev Valid : Sender → Type 0
  Valid = IsValid crc32 job chunks

  -- The invariant does not depend on the phase, but for an exception and the return.
  rephase :
      (s : Sender) (phase : Phase)
      → phase ≢ returned
      → Valid (record s { phase = sending })
      → Valid (record s { phase = phase })
  rephase s phase n v =
      leave-IsValid crc32 job chunks {s = record s { phase = sending }} phase n tt v

  on_start_ack-IsValid :
      (s : Sender) (ack_data : Bytes) (addr : Address)
      → s.phase ≢ returned
      → Valid (record s { phase = sending })
      → Valid (on_start_ack crc32 job s ack_data addr).0
  unfolding on_start_ack
  on_start_ack-IsValid s ack_data addr l v = elim (Bool-cases (address_eq addr job.destination)) [
    | inr f ↦ rw f (rephase s s.phase l v)
    | inl t ↦ elim (Result-cases (deserialize ack_data)) [
      | inr (e, d) ↦ rw (t, d, on_start_ack) (rephase s s.phase l v)
      | inl (h, d) ↦ elim (Result-cases (valid_ack crc32 h job.transfer_id)) [
        | inr (e, q) ↦ rw (t, d, q, on_start_ack) (rephase s (raised e) (λ x. cc) v)
        | inl (valid, q) ↦ elim (Bool-cases (valid && h.ack_num == 0)) [
          | inr o ↦ rw (t, d, q, on_start_ack, o) (rephase s s.phase l v)
          | inl o ↦ rw (t, d, q, on_start_ack, o) v
        ]
      ]
    ]
  ]

  on_attempt-IsValid :
      (s : Sender) (left : ℕ) (received : Received)
      → Valid (record s { phase = sending })
      → Valid (on_attempt crc32 job s left received).0
  unfolding on_attempt
  on_attempt-IsValid s left received v = elim (Result-cases (start_packet crc32 job)) [
    | inr (e, d) ↦ rw (d, on_attempt) (rephase s (raised e) (λ x. cc) v)
    | inl (b, d) ↦ rw (d, on_attempt) (by_received received)
  ]
    where
      by_received :
          (received : Received)
          → Valid
              (elim received as (λ x. Reply) [
                | timeout ↦ skip (record s { phase = attempts left })
                | failure ↦ raise s os_error
                | packet ack_data addr ↦
                    on_start_ack crc32 job (record s { phase = attempts left }) ack_data addr
              ]).0
      by_received timeout = rephase s (attempts left) (attempts-ne left) v
      by_received failure = rephase s (raised os_error) (λ x. cc) v
      by_received (packet ack_data addr) =
          on_start_ack-IsValid (record s { phase = attempts left }) ack_data addr (attempts-ne left)
            v

  cancel-IsValid :
      (s : Sender) (e : Error) (n : ℕ)
      → Valid (record s { phase = sending })
      → Valid (cancel_with crc32 job (record s { phase = raised e }) n).0
  cancel-IsValid s e n v = elim (Result-cases (abort_packet crc32 job.transfer_id n)) [
    | inl (b, d) ↦ rw (d, cancel_with) (rephase s (raised e) (λ x. cc) v)
    | inr (x, d) ↦ rw (d, cancel_with) (rephase s (raised x) (λ y. cc) v)
  ]

  step_in-IsValid :
      (phase : Phase) (s : Sender) (event : Event)
      → s.phase ≡ phase
      → Valid s
      → Valid (step_in crc32 phase job s event).0
  unfolding step_in
  step_in-IsValid (starting zero) s event p v =
      leave-IsValid crc32 job chunks _ (λ x. cc) (rw p tt) v
  step_in-IsValid (starting (suc left)) s event p v =
      let w = leave-IsValid crc32 job chunks sending (λ x. cc) (rw p tt) v in
      elim (Bool-cases event.cancelled) [
        | inl c ↦ rw c (cancel-IsValid s _ 0 w)
        | inr c ↦ rw c (on_attempt-IsValid s left event.received w)
      ]
  step_in-IsValid sending s event p v = elim (Bool-cases event.cancelled) [
    | inl c ↦ rw c (
        cancel-IsValid s _ s.next_seq
          (leave-IsValid crc32 job chunks sending (λ x. cc) (rw p tt) v))
    | inr c ↦ rw c (
        after_fill-IsValid crc32 job chunks (refill crc32 job s) event.received
          (refill-phase crc32 job chunks s p) (refill-IsValid crc32 job chunks s p v))
  ]
  step_in-IsValid returned s event p v = v
  step_in-IsValid (raised e) s event p v = v

  pub step-IsValid : (s : Sender) (event : Event) → Valid s → Valid (step crc32 job s event).0
  unfolding step
  step-IsValid s event v = step_in-IsValid s.phase s event refl v

  pub run-IsValid : (s : Sender) (events : List Event) → Valid s → Valid (run crc32 job s events).0
  unfolding run
  run-IsValid s [] v = v
  run-IsValid s (event ∷ events) v =
      run-IsValid (step crc32 job s event).0 events (step-IsValid s event v)

  -- The state of a call that begins, whatever its phase but the return.
  pub begun-IsValid :
      (phase : Phase) → phase ≢ returned → Valid (record (start job chunks) { phase = phase })
  unfolding bytes_before
  begun-IsValid phase n = record {
    held = tt;
    span = refl;
    within = omega arith;
    counted = refl;
    bounded = omega arith;
    queue = λ _. refl;
    exhausted = λ t. cc;
    complete = λ t. absurd (n t);
  }
