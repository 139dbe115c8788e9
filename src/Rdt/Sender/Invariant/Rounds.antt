-- ===== src/Rdt/Sender/Invariant/Rounds.antt =====
-- The sender's invariant over whole rounds: the window is filled, an event is handled, and so on
-- to the end of the call.
use hybrid_ftp_socket.Prelude.{
  ℕ, suc, ◌+◌, ◌<◌, Bytes, false, List, [], ◌∷◌, ◌++◌, ◌≡◌, refl, arith, length, drop, get_elem?-lt,
  ltb, ◌⊎◌, inl, inr, Bool-cases, subst, length-append, ◌∙◌, ltb→lt,
}
use hybrid_ftp_socket.Prelude.Outcome.{ok, Error, Result-cases}
use hybrid_ftp_socket.Rdt.Network.{Received}
use hybrid_ftp_socket.Rdt.Sender.State.{Job, Item, lookahead, sending, raised, Sender, Reply}
use hybrid_ftp_socket.Rdt.Sender.Items.{lookahead-IsItem, drop-cons, drop-nil}
use hybrid_ftp_socket.Rdt.Sender.Window.{IsWindow-append}
use hybrid_ftp_socket.Rdt.Sender.{data_packet, fill, refill, after_fill}
use hybrid_ftp_socket.Rdt.Sender.Invariant.{IsValid, on_received-IsValid}

module _ (crc32 : Bytes → ℕ) (job : Job) (chunks : List Bytes) where
  abbrev Valid : Sender → Type 0
  Valid = IsValid crc32 job chunks

  -- After an exception nothing is said of what is pending.
  failed-IsValid :
      (s : Sender) (pending pending' : List Item) (e : Error)
      → Valid (record s { pending = pending })
      → Valid (record s { pending = pending'; phase = raised e })
  failed-IsValid s pending pending' e v = record {
    held = v.held;
    span = v.span;
    within = v.within;
    counted = v.counted;
    bounded = v.bounded;
    queue = λ l. absurd l;
    exhausted = v.exhausted;
    complete = λ t. cc;
  }

  -- The state once an item has been sent.
  abbrev slid : Sender → Item → Bytes → Sender
  slid s item b = record s {
    window =
        s.window
        ++ record { seq_num = item.seq_num; packet_data = b; chunk_length = length item.chunk }
          ∷ [];
    next_seq = item.seq_num + 1;
  }

  -- Filling keeps the phase, or raises.
  fill-phase :
      (s : Sender) (pending : List Item)
      → s.phase ≡ sending
      → ((fill crc32 job s pending).0.phase ≡ sending)
        ⊎ ((e : Error) × ((fill crc32 job s pending).0.phase ≡ raised e))
  unfolding fill
  fill-phase s [] p = inl p
  fill-phase s (item ∷ pending) p = elim (Bool-cases (ltb (length s.window) job.window_size)) [
    | inr f ↦ inl (rw (f, fill) p)
    | inl t ↦ elim (Result-cases (data_packet crc32 job.transfer_id item)) [
      | inr (e, d) ↦ inr (e, rw (t, d, fill) refl)
      | inl (b, d) ↦ rw (t, d, fill) (fill-phase (slid s item b) pending p)
    ]
  ]

  slid-IsValid :
      (s : Sender) (item : Item) (pending : List Item) (b : Bytes)
      → s.phase ≡ sending
      → s.pending_exhausted ≡ false
      → length s.window < job.window_size
      → data_packet crc32 job.transfer_id item ≡ ok b
      → Valid (record s { pending = item ∷ pending })
      → Valid (record (slid s item b) { pending = pending })
  slid-IsValid s item pending b p x l d v =
      let (here, rest) = drop-cons s.next_seq (lookahead chunks) item pending (v.queue (rw p tt)) in
      let n : item.seq_num ≡ s.next_seq =
        (lookahead-IsItem chunks s.next_seq item here).number ∙ omega arith in
      let one = length-append s.window (
        record { seq_num = item.seq_num; packet_data = b; chunk_length = length item.chunk }
        ∷ []) in
      record {
        held = IsWindow-append crc32 job.transfer_id chunks _ s.window _ v.held (record {
          item = item;
          number = omega (arith, n, v.span);
          holds = rw v.span here;
          made = d;
          measured = refl;
        });
        span = omega (arith, one, n, v.span);
        within = omega (arith, n, get_elem?-lt (lookahead chunks) s.next_seq item here);
        counted = v.counted;
        bounded = omega (arith, one, l);
        queue = λ _. rw n (
            subst (λ k. pending ≡ drop k (lookahead chunks)) {x = suc s.next_seq} (omega arith)
              rest);
        exhausted = λ t. cc;
        complete = λ t. cc;
      }

  fill-IsValid :
      (s : Sender) (pending : List Item)
      → s.phase ≡ sending
      → s.pending_exhausted ≡ false
      → Valid (record s { pending = pending })
      → Valid (fill crc32 job s pending).0
  unfolding fill
  fill-IsValid s [] p x v = record {
    held = v.held;
    span = v.span;
    within = v.within;
    counted = v.counted;
    bounded = v.bounded;
    queue = v.queue;
    exhausted =
        λ t. omega (arith, v.within, drop-nil s.next_seq (lookahead chunks) (v.queue (rw p tt)));
    complete = v.complete;
  }
  fill-IsValid s (item ∷ pending) p x v =
      elim (Bool-cases (ltb (length s.window) job.window_size)) [
        | inr f ↦ rw (f, fill) v
        | inl t ↦ elim (Result-cases (data_packet crc32 job.transfer_id item)) [
          | inr (e, d) ↦ rw (t, d, fill) (failed-IsValid s (item ∷ pending) pending e v)
          | inl (b, d) ↦
              rw (t, d, fill)
                (fill-IsValid (slid s item b) pending p x
                  (slid-IsValid s item pending b p x (ltb→lt _ _ t) d v))
        ]
      ]

  pub refill-IsValid : (s : Sender) → s.phase ≡ sending → Valid s → Valid (refill crc32 job s).0
  unfolding refill
  refill-IsValid s p v = elim (Bool-cases s.pending_exhausted) [
    | inl t ↦ simp t v
    | inr f ↦ simp f (fill-IsValid s s.pending p f v)
  ]

  pub refill-phase :
      (s : Sender)
      → s.phase ≡ sending
      → ((refill crc32 job s).0.phase ≡ sending)
        ⊎ ((e : Error) × ((refill crc32 job s).0.phase ≡ raised e))
  unfolding refill
  refill-phase s p = elim (Bool-cases s.pending_exhausted) [
    | inl t ↦ inl (simp t p)
    | inr f ↦ simp f (fill-phase s s.pending p)
  ]

  pub after_fill-IsValid :
      (reply : Reply) (received : Received)
      → (reply.0.phase ≡ sending) ⊎ ((e : Error) × (reply.0.phase ≡ raised e))
      → Valid reply.0
      → Valid (after_fill crc32 job reply received).0
  unfolding after_fill
  after_fill-IsValid reply received (inl p) v =
      simp (p, after_fill) (on_received-IsValid crc32 job chunks reply.0 received p v)
  after_fill-IsValid reply received (inr (e, p)) v = simp (p, after_fill) v
