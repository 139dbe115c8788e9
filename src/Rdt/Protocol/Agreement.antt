-- ===== src/Rdt/Protocol/Agreement.antt =====
-- What holds of both sides together in every state that they reach.
use hybrid_ftp_socket.Prelude.{
  ℕ, suc, ◌≤◌, max, Bytes, ◌≡◌, refl, sym, subst, ◌∙◌, ◌⊎◌, inl, inr, some, List, [], ◌∷◌, arith,
  length, take, All, All-append, take-suc, get_elem?-lt, get_elem?, append-nil,
}
use hybrid_ftp_socket.Prelude.Outcome.{Error}
use hybrid_ftp_socket.Rdt.Network.{
  Address, Received, timeout, failure, packet, Event, Output, sent, progress, yielded,
}
use hybrid_ftp_socket.Rdt.Receiver
use hybrid_ftp_socket.Rdt.Receiver.State.{
  Config, Phase, receiving, grace, returned, raised, Receiver, chunks_of,
}
use hybrid_ftp_socket.Rdt.Receiver.Moves.{IsOver, IsGenuine, Stays, Delivers, Fails}
use hybrid_ftp_socket.Rdt.Receiver.Moves.Rounds.{step-Moves}
use hybrid_ftp_socket.Rdt.Receiver.Delivery.{IsLive, chunks_of-append, step-raised}
use hybrid_ftp_socket.Rdt.Receiver.Acks.{IsAckBelow, IsFinBelow, Speaks, step-Speaks}
use hybrid_ftp_socket.Rdt.Sender.State.{Job}
use hybrid_ftp_socket.Rdt.Sender.Items.{chunks_sent}
use hybrid_ftp_socket.Rdt.Sender.Window.{base}
use hybrid_ftp_socket.Rdt.Sender.Invariant.{IsValid}
use hybrid_ftp_socket.Rdt.Sender.Invariant.Calls.{step-IsValid, begun-IsValid, attempts-ne}
use hybrid_ftp_socket.Rdt.Sender.Outputs.{IsGenuineSent, IsHeard}
use hybrid_ftp_socket.Rdt.Sender.Outputs.Steps.{step-Says}
use hybrid_ftp_socket.Rdt.Protocol.{
  System, InSent, initial, sender_round, receiver_round, IsHonestAck, IsHonestData, Reach, begin,
  by_sender, by_receiver,
}

-- What holds of every output holds of a datagram that is among them.
All-InSent :
    (P : Output → Type 0) (d : Bytes) (out : List Output)
    → All P out
    → InSent d out
    → (addr : Address) × P (sent d addr)
All-InSent P d [] a i = absurd i
All-InSent P d (sent bytes addr ∷ out) a (inl e) = (addr, rw e a.0)
All-InSent P d (sent bytes addr ∷ out) a (inr i) = All-InSent P d out a.1 i
All-InSent P d (progress done total ∷ out) a i = All-InSent P d out a.1 i
All-InSent P d (yielded chunk ∷ out) a i = All-InSent P d out a.1 i

weaken : (m n : ℕ) (out : List Output) → m ≤ n → All (IsAckBelow m) out → All (IsAckBelow n) out
weaken m n [] l a = tt
weaken m n (sent bytes addr ∷ out) l a = (λ h d. omega (arith, a.0 h d), weaken m n out l a.1)
weaken m n (progress done total ∷ out) l a = (tt, weaken m n out l a.1)
weaken m n (yielded chunk ∷ out) l a = (tt, weaken m n out l a.1)

module _ (crc32 : Bytes → ℕ) (job : Job) (cfg : Config) (chunks : List Bytes) where
  -- The receiver has yielded the first `place` chunks and acknowledged none beyond them; and the
  -- sender counts as acknowledged no more than those, or the one that an acknowledgement of START
  -- stands for.
  pub record Agrees (sys : System) : Type 0 where
    pub valid : IsValid crc32 job chunks sys.sender
    pub genuine : All (IsGenuineSent crc32 job.transfer_id (chunks_sent chunks)) sys.sender_output
    pub place : ℕ
    pub bound : place ≤ length (chunks_sent chunks)
    pub yields : chunks_of sys.receiver_output ≡ take place (chunks_sent chunks)
    pub complete : IsOver sys.receiver.phase → place ≡ length (chunks_sent chunks)
    pub expected : IsLive sys.receiver.phase → sys.receiver.expected_seq ≡ place
    pub known : IsLive sys.receiver.phase → sys.receiver.transfer_id ≡ some job.transfer_id
    pub fin : IsFinBelow sys.receiver.phase sys.receiver.expected_seq
    pub acks : All (IsAckBelow place) sys.receiver_output
    pub counted : base sys.sender.last_acked ≤ max 1 place

  initial-Agrees : Agrees (initial crc32 job cfg chunks)
  unfolding chunks_of
  initial-Agrees = record {
    valid = begun-IsValid crc32 job chunks _ (attempts-ne job.retry_limit);
    genuine = tt;
    place = 0;
    bound = omega arith;
    yields = refl;
    complete = λ o. absurd o;
    expected = λ _. refl;
    known = λ _. refl;
    fin = tt;
    acks = tt;
    counted = omega arith;
  }

  -- The number in an acknowledgement that is heard is 0, or that of a chunk that was yielded.
  heard-le :
      (place : ℕ) (sys : System) (received : Received) (n : ℕ)
      → All (IsAckBelow place) sys.receiver_output
      → IsHonestAck crc32 job cfg chunks sys received
      → IsHeard crc32 job chunks received n
      → n ≤ max 1 place
  heard-le place sys timeout n a o i = absurd i
  heard-le place sys failure n a o i = absurd i
  heard-le place sys (packet d addr) n a o (h, reads, valid, from_peer, e) =
      let found =
        All-InSent (IsAckBelow place) d sys.receiver_output a (o h reads valid from_peer) in
      omega (arith, found.1 h reads)

  counted-le :
      (place before : ℕ) (sys : System) (received : Received) (n : ℕ)
      → All (IsAckBelow place) sys.receiver_output
      → IsHonestAck crc32 job cfg chunks sys received
      → before ≤ max 1 place
      → (n ≡ before) ⊎ IsHeard crc32 job chunks received n
      → n ≤ max 1 place
  counted-le place before sys received n a o b (inl e) = omega arith
  counted-le place before sys received n a o b (inr i) = heard-le place sys received n a o i

  sender_round-Agrees :
      (sys : System) (event : Event)
      → IsHonestAck crc32 job cfg chunks sys event.received
      → Agrees sys
      → Agrees (sender_round crc32 job cfg chunks sys event)
  unfolding sender_round
  sender_round-Agrees sys event o a =
      let says = step-Says crc32 job chunks sys.sender event a.valid in
      record {
        valid = step-IsValid crc32 job chunks sys.sender event a.valid;
        genuine = All-append _ sys.sender_output _ a.genuine says.0;
        place = a.place;
        bound = a.bound;
        yields = a.yields;
        complete = a.complete;
        expected = a.expected;
        known = a.known;
        fin = a.fin;
        acks = a.acks;
        counted =
            counted-le a.place (base (sys.sender).last_acked) sys event.received _ a.acks o
              a.counted says.1;
      }

  -- An honest datagram carries one of the chunks.
  honest-IsGenuine :
      (sys : System) (received : Received)
      → All (IsGenuineSent crc32 job.transfer_id (chunks_sent chunks)) sys.sender_output
      → IsHonestData crc32 job cfg chunks sys received
      → IsGenuine crc32 job.transfer_id (chunks_sent chunks) received
  honest-IsGenuine sys timeout g o = tt
  honest-IsGenuine sys failure g o = tt
  honest-IsGenuine sys (packet d addr) g o = λ h accepted.
      (All-InSent (IsGenuineSent crc32 job.transfer_id (chunks_sent chunks)) d sys.sender_output g
          (o h accepted)).1
        h accepted

  Phase-cases : (phase : Phase) → IsLive phase ⊎ ((e : Error) × (phase ≡ raised e))
  Phase-cases receiving = inl tt
  Phase-cases (grace left fin_seq) = inl tt
  Phase-cases returned = inl tt
  Phase-cases (raised e) = inr (e, refl)

  Speaks-acks :
      (reply : Receiver.State.Reply) (n : ℕ)
      → Speaks reply
      → reply.0.expected_seq ≤ n
      → All (IsAckBelow n) reply.1
  Speaks-acks reply n (inl (q, f)) l = weaken reply.0.expected_seq n reply.1 l q
  Speaks-acks reply n (inr (e, p, quiet)) l = rw quiet tt

  Speaks-fin :
      (reply : Receiver.State.Reply) → Speaks reply → IsFinBelow reply.0.phase reply.0.expected_seq
  Speaks-fin reply (inl (q, f)) = f
  Speaks-fin reply (inr (e, p, quiet)) = rw p tt

  module _ (sys : System) (event : Event) (a : Agrees sys)
      (live : IsLive (sys.receiver).phase) where
    abbrev reply : Receiver.State.Reply
    reply = Receiver.step crc32 cfg sys.receiver event

    abbrev Round : Type 0
    Round = Agrees (receiver_round crc32 job cfg chunks sys event)

    stays-Agrees :
        Stays crc32 job.transfer_id
          (chunks_sent chunks)
          (sys.receiver).expected_seq
          (sys.receiver).committed_bytes
          (sys.receiver).phase
          reply
        → Speaks reply
        → Round
    unfolding receiver_round
    stays-Agrees s speaks = record {
      valid = a.valid;
      genuine = a.genuine;
      place = a.place;
      bound = a.bound;
      yields =
          rw (chunks_of-append sys.receiver_output reply.1, s.silent) (append-nil _ ∙ a.yields);
      complete = λ o. a.complete (s.over o);
      expected = λ _. s.expected ∙ a.expected live;
      known = λ _. s.known;
      fin = Speaks-fin reply speaks;
      acks =
          All-append _ sys.receiver_output reply.1 a.acks
            (Speaks-acks reply a.place speaks (omega (arith, s.expected, a.expected live)));
      counted = a.counted;
    }

    delivers-Agrees :
        Delivers crc32 job.transfer_id
          (chunks_sent chunks)
          (sys.receiver).expected_seq
          (sys.receiver).committed_bytes
          reply
        → Speaks reply
        → Round
    unfolding receiver_round
    delivers-Agrees d speaks =
        let here =
          subst (λ n. get_elem? (chunks_sent chunks) n ≡ some d.payload) (a.expected live)
            d.chunk in
        record {
          valid = a.valid;
          genuine = a.genuine;
          place = suc a.place;
          bound = get_elem?-lt (chunks_sent chunks) a.place d.payload here;
          yields =
              rw (chunks_of-append sys.receiver_output reply.1, d.yields, a.yields)
                (sym (take-suc a.place (chunks_sent chunks) d.payload here));
          complete = λ o. omega (arith, d.over o, a.expected live);
          expected = λ _. omega (arith, d.expected, a.expected live);
          known = λ _. d.known;
          fin = Speaks-fin reply speaks;
          acks =
              All-append _ sys.receiver_output reply.1
                (weaken a.place (suc a.place) sys.receiver_output (omega arith) a.acks)
                (Speaks-acks reply (suc a.place) speaks
                  (omega (arith, d.expected, a.expected live)));
          counted = omega (arith, a.counted);
        }

    fails-Agrees : Fails crc32 job.transfer_id (chunks_sent chunks) reply → Speaks reply → Round
    unfolding receiver_round
    fails-Agrees f speaks = record {
      valid = a.valid;
      genuine = a.genuine;
      place = a.place;
      bound = a.bound;
      yields = rw (f.quiet, append-nil) a.yields;
      complete = λ o. absurd (subst IsOver f.phase o);
      expected = λ l. absurd (subst IsLive f.phase l);
      known = λ l. absurd (subst IsLive f.phase l);
      fin = Speaks-fin reply speaks;
      acks = rw (f.quiet, append-nil) a.acks;
      counted = a.counted;
    }

  receiver_round-Agrees :
      (sys : System) (event : Event)
      → IsHonestData crc32 job cfg chunks sys event.received
      → Agrees sys
      → Agrees (receiver_round crc32 job cfg chunks sys event)
  unfolding receiver_round
  receiver_round-Agrees sys event o a = elim (Phase-cases (sys.receiver).phase) [
    | inr (e, p) ↦
        simp
          (
            step-raised crc32 job.transfer_id (chunks_sent chunks) cfg sys.receiver event p,
            append-nil,
          )
          a
    | inl live ↦
        let speaks = step-Speaks crc32 cfg sys.receiver event a.fin in
        elim (step-Moves crc32 job.transfer_id (chunks_sent chunks) cfg sys.receiver event
          (a.known live) (honest-IsGenuine sys event.received a.genuine o)) [
            | inl s ↦ stays-Agrees sys event a live s speaks
            | inr (inl d) ↦ delivers-Agrees sys event a live d speaks
            | inr (inr f) ↦ fails-Agrees sys event a live f speaks
          ]
  ]

  -- Sender and receiver agree in every state that they reach.
  pub Reach-Agrees : {sys : System} → Reach crc32 job cfg chunks sys → Agrees sys
  Reach-Agrees begin = initial-Agrees
  Reach-Agrees (by_sender {sys = s} event r o) = sender_round-Agrees s event o (Reach-Agrees r)
  Reach-Agrees (by_receiver {sys = s} event r o) = receiver_round-Agrees s event o (Reach-Agrees r)
