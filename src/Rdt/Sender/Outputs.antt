-- ===== src/Rdt/Sender/Outputs.antt =====
-- What the sender puts on the network: packets of its chunks, START and ABORT, nothing else that a
-- receiver would accept.
pub mod Steps
use hybrid_ftp_socket.Prelude.{
  ℕ, zero, suc, ◌+◌, ◌-◌, ◌<◌, ◌≤◌, Bytes, Bool, true, false, not, Option, none, some, List, [],
  ◌∷◌, ◌++◌, ◌≡◌, refl, sym, subst, ◌∙◌, ◌⊎◌, inl, inr, arith, length, All, All-append, Bool-cases,
  ◌==◌, ltb, leb, ap, drop, get_elem?, ◌||◌, ◌&&◌, if◌then◌else◌,
}
use hybrid_ftp_socket.Prelude.Outcome.{Result, ok, err, Error, os_error, Result-cases, >>=-eq-ok}
use hybrid_ftp_socket.Rdt.Header.{
  Header, size, flag_fin, flag_start, flag_abort, flag_data, has_flag, deserialize, payload_of,
  sealed,
}
use hybrid_ftp_socket.Rdt.Header.RoundTrip.{sealed-Passes, Passes}
use hybrid_ftp_socket.Rdt.Context.{encode_start_metadata}
use hybrid_ftp_socket.Rdt.Network.{
  Address, address_eq, Received, timeout, failure, packet, Event, Output, sent, progress, yielded,
}
use hybrid_ftp_socket.Rdt.Receiver.Moves.{IsAccepted, IsChunkOf}
use hybrid_ftp_socket.Rdt.Sender.State.{
  settle, resend, Job, Item, lookahead, Slot, Phase, starting, sending, returned, raised, Sender,
  Reply, is_done, is_acked, raise, skip, attempts,
}
use hybrid_ftp_socket.Rdt.Sender.Items.{chunks_sent, IsItem, lookahead-IsItem, drop-cons}
use hybrid_ftp_socket.Rdt.Sender.Window.{base, IsSlot, IsWindow}
use hybrid_ftp_socket.Rdt.Sender.Invariant.{IsValid}
use hybrid_ftp_socket.Rdt.Sender.Invariant.Rounds.{refill-IsValid, refill-phase}
use hybrid_ftp_socket.Rdt.Sender.{
  data_packet, start_packet, abort_packet, cancel_with, fill, refill, valid_ack, on_new_ack, on_ack,
  on_received, after_fill, on_start_ack, on_attempt, step_in, step,
}

-- A datagram that a receiver of the transfer accepts carries one of the chunks.
abbrev pub IsGenuineSent : (Bytes → ℕ) → ℕ → List Bytes → Output → Type 0
IsGenuineSent crc32 id chunks (sent bytes addr) =
    (h : Header) → IsAccepted crc32 id bytes h → IsChunkOf chunks h (payload_of h bytes)
IsGenuineSent crc32 id chunks (progress done total) = Unit
IsGenuineSent crc32 id chunks (yielded chunk) = Unit

ok-injective {ℓ} : {A : Type ℓ} (a b : A) → ok a ≡ ok b → a ≡ b
ok-injective a b e = cc

no_flag : {n : ℕ} (m : ℕ) → has_flag m m ≡ true → n ≡ m → has_flag n m ≡ false → ⊥
no_flag m t e f = cc

module _ (crc32 : Bytes → ℕ) (job : Job) (chunks : List Bytes) where
  abbrev pub Genuine : Output → Type 0
  Genuine = IsGenuineSent crc32 job.transfer_id (chunks_sent chunks)

  item-IsChunkOf :
      (k : ℕ) (item : Item) (h : Header)
      → IsItem 0 (chunks_sent chunks) k item
      → h.seq_num ≡ item.seq_num
      → h.flags ≡ (if item.is_last then flag_fin else flag_data)
      → IsChunkOf (chunks_sent chunks) h item.chunk
  unfolding has_flag
  item-IsChunkOf k item h i s f =
      let n : h.seq_num ≡ k = s ∙ i.number ∙ omega arith in
      record { chunk = rw n i.chunk; last = λ t. rw n (i.last (ground arith)) }

  data-Genuine :
      (k : ℕ) (item : Item) (bytes : Bytes) (addr : Address)
      → get_elem? (lookahead chunks) k ≡ some item
      → data_packet crc32 job.transfer_id item ≡ ok bytes
      → Genuine (sent bytes addr)
  unfolding data_packet
  data-Genuine k item bytes addr e d h a =
      let (c, p) = sealed-Passes crc32 _ item.chunk refl d in
      let same = ok-injective _ h (sym p.reads ∙ a.reads) in
      subst (λ (x : Header). IsChunkOf (chunks_sent chunks) x (payload_of x bytes)) same
        (rw p.body (item-IsChunkOf k item _ (lookahead-IsItem chunks k item e) refl refl))

  pub start-Genuine :
      (bytes : Bytes) (addr : Address)
      → start_packet crc32 job ≡ ok bytes
      → Genuine (sent bytes addr)
  unfolding start_packet has_flag
  start-Genuine bytes addr d h a =
      let (payload, m, e) =
        >>=-eq-ok (encode_start_metadata job.total_bytes job.transfer_mode job.transfer_type) _ d in
      let (c, p) = sealed-Passes crc32 _ payload refl e in
      let same = ok-injective _ h (sym p.reads ∙ a.reads) in
      absurd (no_flag flag_start refl (ap (λ (x : Header). x.flags) (sym same)) a.no_start)

  pub abort-Genuine :
      (n : ℕ) (bytes : Bytes) (addr : Address)
      → abort_packet crc32 job.transfer_id n ≡ ok bytes
      → Genuine (sent bytes addr)
  unfolding abort_packet has_flag
  abort-Genuine n bytes addr d h a =
      let (c, p) = sealed-Passes crc32 _ [] refl d in
      let same = ok-injective _ h (sym p.reads ∙ a.reads) in
      absurd (no_flag flag_abort refl (ap (λ (x : Header). x.flags) (sym same)) a.no_abort)

  resend-Genuine :
      (k : ℕ) (window : List Slot) (addr : Address)
      → IsWindow crc32 job.transfer_id chunks k window
      → All Genuine (resend addr window)
  unfolding resend
  resend-Genuine k [] addr w = tt
  resend-Genuine k (slot ∷ window) addr w = (
    data-Genuine k (w.0).item slot.packet_data addr (w.0).holds (w.0).made,
    resend-Genuine (suc k) window addr w.1,
  )

  fill-Genuine :
      (n : ℕ) (s : Sender) (pending : List Item)
      → pending ≡ drop n (lookahead chunks)
      → All Genuine (fill crc32 job s pending).1
  unfolding fill
  fill-Genuine n s [] q = tt
  fill-Genuine n s (item ∷ pending) q = elim (Bool-cases (ltb (length s.window) job.window_size)) [
    | inr f ↦ rw (f, fill) tt
    | inl t ↦ elim (Result-cases (data_packet crc32 job.transfer_id item)) [
      | inr (e, d) ↦ rw (t, d, fill) tt
      | inl (b, d) ↦
          let (here, rest) = drop-cons n (lookahead chunks) item pending q in
          rw (t, d, fill)
            (data-Genuine n item b job.destination here d, fill-Genuine (suc n) _ pending rest)
    ]
  ]

  -- The event is a valid acknowledgement, from the destination, up to packet number `n - 1`.
  abbrev pub IsHeard : Received → ℕ → Type 0
  IsHeard timeout n = ⊥
  IsHeard failure n = ⊥
  IsHeard (packet ack_data addr) n =
      (h : Header) × (deserialize ack_data ≡ ok h)
      × (valid_ack crc32 h job.transfer_id ≡ ok true)
      × (address_eq addr job.destination ≡ true)
      × (n ≡ suc h.ack_num)

  -- A round sends genuine datagrams only, and its count of acknowledged packets changes only by an
  -- acknowledgement that was heard.
  abbrev pub Says : ℕ → Received → Reply → Type 0
  Says before received reply =
      All Genuine reply.1
      × ((base reply.0.last_acked ≡ before) ⊎ IsHeard received (base reply.0.last_acked))

  base-settle : (s : Sender) → base (settle s).last_acked ≡ base s.last_acked
  base-settle s = elim (Bool-cases (is_done s)) [ inl t ↦ rw t refl | inr f ↦ rw f refl ]

  on_ack-Says :
      (s : Sender) (ack_data : Bytes) (addr : Address)
      → Says (base s.last_acked) (packet ack_data addr) (on_ack crc32 job s ack_data addr)
  unfolding on_ack on_new_ack
  on_ack-Says s ack_data addr = elim (Bool-cases (address_eq addr job.destination)) [
    | inr f ↦ rw f (tt, inl (base-settle s))
    | inl t ↦ elim (Result-cases (deserialize ack_data)) [
      | inr (e, d) ↦ rw (t, d, on_ack) (tt, inl (base-settle s))
      | inl (h, d) ↦ elim (Result-cases (valid_ack crc32 h job.transfer_id)) [
        | inr (e, q) ↦ rw (t, d, q, on_ack) (tt, inl refl)
        | inl (false, q) ↦ rw (t, d, q, on_ack) (tt, inl (base-settle s))
        | inl (true, q) ↦
            elim (Bool-cases (is_acked s.last_acked h.ack_num || leb s.next_seq h.ack_num)) [
              | inl o ↦ rw (t, d, q, on_ack, o) (tt, inl (base-settle s))
              | inr o ↦ rw (t, d, q, on_ack, o) ((tt, tt), inr (h, refl, q, refl, base-settle _))
            ]
      ]
    ]
  ]

  on_received-Says :
      (k : ℕ) (s : Sender) (received : Received)
      → IsWindow crc32 job.transfer_id chunks k s.window
      → Says (base s.last_acked) received (on_received crc32 job s received)
  unfolding on_received
  on_received-Says k s timeout w = elim (Bool-cases (leb job.retry_limit (s.timeout_count + 1))) [
    | inl t ↦ rw t (tt, inl refl)
    | inr f ↦ rw f (resend-Genuine k s.window job.destination w, inl (base-settle _))
  ]
  on_received-Says k s failure w = (tt, inl refl)
  on_received-Says k s (packet ack_data addr) w = on_ack-Says s ack_data addr

  fill-last_acked :
      (s : Sender) (pending : List Item) → (fill crc32 job s pending).0.last_acked ≡ s.last_acked
  unfolding fill
  fill-last_acked s [] = refl
  fill-last_acked s (item ∷ pending) = elim (Bool-cases (ltb (length s.window) job.window_size)) [
    | inr f ↦ rw (f, fill) refl
    | inl t ↦ elim (Result-cases (data_packet crc32 job.transfer_id item)) [
      | inr (e, d) ↦ rw (t, d, fill) refl
      | inl (b, d) ↦
          rw (t, d, fill) (fill-last_acked (record s { window = _; next_seq = _ }) pending)
    ]
  ]

  pub refill-Says :
      (s : Sender)
      → s.phase ≡ sending
      → IsValid crc32 job chunks s
      → All Genuine (refill crc32 job s).1 × ((refill crc32 job s).0.last_acked ≡ s.last_acked)
  unfolding refill
  refill-Says s p v = elim (Bool-cases s.pending_exhausted) [
    | inl t ↦ simp t (tt, refl)
    | inr f ↦
        simp f
          (fill-Genuine s.next_seq s s.pending (v.queue (rw p tt)), fill-last_acked s s.pending)
  ]

  pub after_fill-Says :
      (n : ℕ) (reply : Reply) (received : Received)
      → (reply.0.phase ≡ sending) ⊎ ((e : Error) × (reply.0.phase ≡ raised e))
      → All Genuine reply.1
      → base reply.0.last_acked ≡ n
      → IsValid crc32 job chunks reply.0
      → Says n received (after_fill crc32 job reply received)
  unfolding after_fill
  after_fill-Says n reply received (inl p) g b v =
      let next = on_received-Says (base reply.0.last_acked) reply.0 received v.held in
      simp (p, after_fill)
        (
          All-append Genuine reply.1 _ g next.0,
          subst
              (λ m.
                (base (on_received crc32 job reply.0 received).0.last_acked ≡ m)
                ⊎ IsHeard received (base (on_received crc32 job reply.0 received).0.last_acked))
              b next.1,
        )
  after_fill-Says n reply received (inr (e, p)) g b v = simp (p, after_fill) (g, inl b)
