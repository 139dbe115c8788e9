-- ===== src/Rdt/Sender/Invariant.antt =====
pub mod Rounds
pub mod Calls
-- The sender's invariant: its window holds the packets between the acknowledged ones and those
-- that are pending, and every round keeps it so.
use hybrid_ftp_socket.Prelude.{
  ℕ, zero, suc, ◌+◌, ◌-◌, ◌<◌, ◌≤◌, Bytes, Bool, true, false, not, Option, none, some, List, [],
  ◌∷◌, ◌++◌, ◌≡◌, ◌≢◌, refl, arith, length, get_elem?, drop, get_elem?-lt, leb, ltb, if◌then◌else◌,
  All, ◌⊎◌, inl, inr, Bool-cases, subst, length-append, ◌||◌, ◌∙◌, sym,
}
use hybrid_ftp_socket.Prelude.Outcome.{Result, ok, err, Error, Result-cases}
use hybrid_ftp_socket.Rdt.Header.{deserialize}
use hybrid_ftp_socket.Rdt.Network.{
  Address, address_eq, Received, timeout, failure, packet, Event, Output,
}
use hybrid_ftp_socket.Rdt.Sender.State.{
  settle, Job, Item, lookahead, Slot, Phase, starting, sending, returned, raised, Sender, Reply,
  is_acked, pop_acked, is_done, raise, skip, attempts,
}
use hybrid_ftp_socket.Rdt.Sender.Items.{
  chunks_sent, IsItem, lookahead-IsItem, length-lookahead, bytes_before, drop-cons, drop-nil,
}
use hybrid_ftp_socket.Rdt.Sender.Window.{
  base, IsSlot, IsWindow, IsWindow-append, Popped, pop_acked-Popped,
}
use hybrid_ftp_socket.Rdt.Sender.{
  data_packet, fill, refill, valid_ack, on_new_ack, on_ack, on_received, after_fill, on_start_ack,
  on_attempt, step_in, step, run, start, send_chunks_rdt,
}

-- The call has not ended by an exception.
abbrev pub IsLive : Phase → Type 0
IsLive (starting left) = Unit
IsLive sending = Unit
IsLive returned = Unit
IsLive (raised e) = ⊥

base-le : (last : Option ℕ) (ack_num : ℕ) → is_acked last ack_num ≡ false → base last ≤ suc ack_num
unfolding is_acked
base-le none ack_num e = omega arith
base-le (some last) ack_num e = ground arith

done_lem : (s : Sender) → is_done s ≡ true → (length s.window ≡ 0) × (s.pending_exhausted ≡ true)
unfolding is_done
done_lem s t = ground arith

module _ (crc32 : Bytes → ℕ) (job : Job) (chunks : List Bytes) where
  pub record IsValid (s : Sender) : Type 0 where
    pub held : IsWindow crc32 job.transfer_id chunks (base s.last_acked) s.window
    pub span : base s.last_acked + length s.window ≡ s.next_seq
    pub within : s.next_seq ≤ length (lookahead chunks)
    pub counted : s.transferred_bytes ≡ bytes_before (base s.last_acked) (chunks_sent chunks)
    pub bounded : length s.window ≤ job.window_size
    pub queue : IsLive s.phase → s.pending ≡ drop s.next_seq (lookahead chunks)
    pub exhausted : s.pending_exhausted ≡ true → s.next_seq ≡ length (lookahead chunks)
    pub complete : s.phase ≡ returned → base s.last_acked ≡ length (lookahead chunks)

  -- A round that leaves everything but the phase, and does not return, keeps the invariant.
  pub leave-IsValid :
      {s : Sender} (phase : Phase)
      → phase ≢ returned
      → IsLive s.phase
      → IsValid s
      → IsValid (record s { phase = phase })
  leave-IsValid phase n l v = record {
    held = v.held;
    span = v.span;
    within = v.within;
    counted = v.counted;
    bounded = v.bounded;
    queue = λ _. v.queue l;
    exhausted = v.exhausted;
    complete = λ e. absurd (n e);
  }

  pub count-IsValid : {s : Sender} (n : ℕ) → IsValid s → IsValid (record s { timeout_count = n })
  count-IsValid n v = record {
    held = v.held;
    span = v.span;
    within = v.within;
    counted = v.counted;
    bounded = v.bounded;
    queue = v.queue;
    exhausted = v.exhausted;
    complete = v.complete;
  }

  settle-IsValid : {s : Sender} → s.phase ≡ sending → IsValid s → IsValid (settle s)
  settle-IsValid {s} p v = elim (Bool-cases (is_done s)) [
    | inr f ↦ rw f v
    | inl t ↦ rw t (record {
      held = v.held;
      span = v.span;
      within = v.within;
      counted = v.counted;
      bounded = v.bounded;
      queue = λ _. v.queue (rw p tt);
      exhausted = v.exhausted;
      complete = λ _. omega (arith, (done_lem s t).0, v.span, v.exhausted (done_lem s t).1);
    })
  ]

  on_new_ack-IsValid :
      (s : Sender) (ack_num : ℕ)
      → s.phase ≡ sending
      → is_acked s.last_acked ack_num ≡ false
      → ack_num < s.next_seq
      → IsValid s
      → IsValid (on_new_ack crc32 job s ack_num).0
  unfolding on_new_ack
  on_new_ack-IsValid s ack_num p n l v =
      let popped =
        pop_acked-Popped crc32 job.transfer_id chunks (base s.last_acked) ack_num s.window
          (base-le s.last_acked ack_num n) (omega (arith, v.span)) v.held in
      settle-IsValid p (record {
        held = popped.held;
        span = omega (arith, popped.left, v.span);
        within = v.within;
        counted = omega (arith, popped.bytes, v.counted);
        bounded = omega (arith, popped.left, v.span, v.bounded, base-le s.last_acked ack_num n);
        queue = v.queue;
        exhausted = v.exhausted;
        complete = λ q. cc;
      })

  on_ack-IsValid :
      (s : Sender) (ack_data : Bytes) (addr : Address)
      → s.phase ≡ sending
      → IsValid s
      → IsValid (on_ack crc32 job s ack_data addr).0
  unfolding on_ack
  on_ack-IsValid s ack_data addr p v = elim (Bool-cases (address_eq addr job.destination)) [
    | inr f ↦ rw f (settle-IsValid p v)
    | inl t ↦ elim (Result-cases (deserialize ack_data)) [
      | inr (e, d) ↦ rw (t, d, on_ack) (settle-IsValid p v)
      | inl (h, d) ↦ elim (Result-cases (valid_ack crc32 h job.transfer_id)) [
        | inr (e, q) ↦ rw (t, d, q, on_ack) (leave-IsValid (raised e) (λ x. cc) (rw p tt) v)
        | inl (false, q) ↦ rw (t, d, q, on_ack) (settle-IsValid p v)
        | inl (true, q) ↦
            elim (Bool-cases (is_acked s.last_acked h.ack_num || leb s.next_seq h.ack_num)) [
              | inl o ↦ rw (t, d, q, on_ack, o) (settle-IsValid p v)
              | inr o ↦
                  rw (t, d, q, on_ack, o)
                    (on_new_ack-IsValid s h.ack_num p (ground arith) (ground arith) v)
            ]
      ]
    ]
  ]

  pub on_received-IsValid :
      (s : Sender) (received : Received)
      → s.phase ≡ sending
      → IsValid s
      → IsValid (on_received crc32 job s received).0
  unfolding on_received
  on_received-IsValid s timeout p v =
      elim (Bool-cases (leb job.retry_limit (s.timeout_count + 1))) [
        | inl t ↦ rw t (leave-IsValid _ (λ x. cc) (rw p tt) (count-IsValid _ v))
        | inr f ↦ rw f (settle-IsValid p (count-IsValid _ v))
      ]
  on_received-IsValid s failure p v = leave-IsValid _ (λ x. cc) (rw p tt) v
  on_received-IsValid s (packet ack_data addr) p v = on_ack-IsValid s ack_data addr p v
