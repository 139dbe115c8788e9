-- ===== src/Rdt/Receiver/Delivery.antt =====
-- What the receiver's generator yields: the sender's chunks, in order and once each.
use hybrid_ftp_socket.Prelude.{
  ℕ, ◌≤◌, Bytes, some, List, [], ◌∷◌, ◌++◌, ◌≡◌, refl, inl, inr, arith, length, take, All,
  append-nil, append_assoc, take-suc, get_elem?-lt, ap, ◌∙◌, subst, take_all,
}
use hybrid_ftp_socket.Prelude.Outcome.{Error}
use hybrid_ftp_socket.Rdt.Network.{Event, Output, sent, progress, yielded}
use hybrid_ftp_socket.Rdt.Receiver.State.{
  Config, Phase, receiving, grace, returned, raised, Receiver, Reply, start, chunks_of,
}
use hybrid_ftp_socket.Rdt.Receiver.{step_in, step, run, receive_chunks_rdt}
use hybrid_ftp_socket.Rdt.Receiver.Moves.{IsOver, IsGenuine, Stays, Delivers, Fails}
use hybrid_ftp_socket.Rdt.Receiver.Moves.Rounds.{step-Moves}

-- The generator has not ended by an exception.
abbrev pub IsLive : Phase → Type 0
IsLive receiving = Unit
IsLive (grace left fin_seq) = Unit
IsLive returned = Unit
IsLive (raised e) = ⊥

pub chunks_of-append : (xs ys : List Output) → chunks_of (xs ++ ys) ≡ chunks_of xs ++ chunks_of ys
unfolding chunks_of
chunks_of-append [] ys = refl
chunks_of-append (sent bytes addr ∷ xs) ys = chunks_of-append xs ys
chunks_of-append (progress done total ∷ xs) ys = chunks_of-append xs ys
chunks_of-append (yielded chunk ∷ xs) ys = ap (λ r. chunk ∷ r) (chunks_of-append xs ys)

module _ (crc32 : Bytes → ℕ) (id : ℕ) (chunks : List Bytes) where
  -- What a run from place `n` leaves: the chunks from `n` up to a place `m` have been yielded.
  pub record Ran (n : ℕ) (reply : Reply) : Type 0 where
    pub place : ℕ
    pub bound : place ≤ length chunks
    pub yields : take n chunks ++ chunks_of reply.1 ≡ take place chunks
    pub complete : IsOver reply.0.phase → place ≡ length chunks
    pub expected : IsLive reply.0.phase → reply.0.expected_seq ≡ place

  step_in-raised :
      (phase : Phase) (cfg : Config) (r : Receiver) (event : Event) {e : Error}
      → phase ≡ raised e
      → step_in crc32 phase cfg r event ≡ (r, [])
  unfolding step_in
  step_in-raised phase cfg r event p = ground arith

  pub step-raised :
      (cfg : Config) (r : Receiver) (event : Event) {e : Error}
      → r.phase ≡ raised e
      → step crc32 cfg r event ≡ (r, [])
  unfolding step
  step-raised cfg r event p = step_in-raised r.phase cfg r event p

  run-raised :
      (cfg : Config) (r : Receiver) {e : Error} (events : List Event)
      → r.phase ≡ raised e
      → (chunks_of (run crc32 cfg r events).1 ≡ []) × ((run crc32 cfg r events).0.phase ≡ raised e)
  unfolding run step chunks_of
  run-raised cfg r [] p = (refl, p)
  run-raised cfg r (event ∷ events) p =
      simp (step_in-raised r.phase cfg r event p) (run-raised cfg r events p)

  module _ (n committed : ℕ) (phase : Phase) (reply final : Reply) where
    after-Stays :
        Stays crc32 id chunks n committed phase reply
        → Ran reply.0.expected_seq final
        → Ran n (final.0, reply.1 ++ final.1)
    after-Stays s ran = record {
      place = ran.place;
      bound = ran.bound;
      yields = rw (chunks_of-append reply.1 final.1, s.silent, ← s.expected) ran.yields;
      complete = ran.complete;
      expected = ran.expected;
    }

    after-Delivers :
        Delivers crc32 id chunks n committed reply
        → Ran reply.0.expected_seq final
        → Ran n (final.0, reply.1 ++ final.1)
    after-Delivers d ran = record {
      place = ran.place;
      bound = ran.bound;
      yields =
          rw (chunks_of-append reply.1 final.1, d.yields, ← append_assoc)
            (rw (← take-suc n chunks d.payload d.chunk, ← d.expected) ran.yields);
      complete = ran.complete;
      expected = ran.expected;
    }

  -- After an exception nothing more is yielded.
  after-Fails :
      (cfg : Config) (n : ℕ) (reply : Reply) (events : List Event)
      → n ≤ length chunks
      → Fails crc32 id chunks reply
      → let final = run crc32 cfg reply.0 events in Ran n (final.0, reply.1 ++ final.1)
  unfolding chunks_of
  after-Fails cfg n reply events b f =
      let final = run crc32 cfg reply.0 events in
      let (quiet, failed) = run-raised cfg reply.0 events f.phase in
      record {
        place = n;
        bound = b;
        yields = rw (chunks_of-append reply.1 final.1, f.quiet, quiet) (append-nil (take n chunks));
        complete = λ over. absurd (subst IsOver failed over);
        expected = λ live. absurd (subst IsLive failed live);
      }

  run-Ran :
      (cfg : Config) (r : Receiver) (events : List Event)
      → r.transfer_id ≡ some id
      → r.expected_seq ≤ length chunks
      → (IsOver r.phase → r.expected_seq ≡ length chunks)
      → All (λ event. IsGenuine crc32 id chunks event.received) events
      → Ran r.expected_seq (run crc32 cfg r events)
  unfolding run chunks_of
  run-Ran cfg r [] k b o g = record {
    place = r.expected_seq;
    bound = b;
    yields = append-nil (take r.expected_seq chunks);
    complete = o;
    expected = λ _. refl;
  }
  run-Ran cfg r (event ∷ events) k b o g =
      let reply = step crc32 cfg r event in
      let rest = run-Ran cfg reply.0 events in
      elim (step-Moves crc32 id chunks cfg r event k g.0) [
        | inl s ↦
            after-Stays r.expected_seq r.committed_bytes r.phase reply _ s
              (rest s.known (omega (arith, s.expected)) (λ over. s.expected ∙ o (s.over over)) g.1)
        | inr (inl d) ↦ after-Delivers r.expected_seq r.committed_bytes r.phase reply _ d (
            rest d.known
              (omega (arith, d.expected, get_elem?-lt chunks r.expected_seq d.payload d.chunk))
              (λ over. d.expected ∙ d.over over) g.1)
        | inr (inr f) ↦ after-Fails cfg r.expected_seq reply events b f
      ]

  pub receive_chunks_rdt-Ran :
      (cfg : Config) (events : List Event)
      → All (λ event. IsGenuine crc32 id chunks event.received) events
      → Ran 0 (receive_chunks_rdt crc32 cfg (some id) events)
  unfolding receive_chunks_rdt
  receive_chunks_rdt-Ran cfg events g =
      run-Ran cfg (start (some id)) events refl (omega arith) (λ o. absurd o) g

  -- A generator that was started with a known transfer id has yielded the first chunks of the
  -- list, in order and once each, however datagrams were lost, repeated, reordered or damaged, if
  -- none that it would accept was forged.
  pub receive_chunks_rdt_prefix :
      (cfg : Config) (events : List Event)
      → All (λ event. IsGenuine crc32 id chunks event.received) events
      → (place : ℕ) × (place ≤ length chunks)
        × (chunks_of (receive_chunks_rdt crc32 cfg (some id) events).1 ≡ take place chunks)
  receive_chunks_rdt_prefix cfg events g =
      let ran = receive_chunks_rdt-Ran cfg events g in (ran.place, ran.bound, ran.yields)

  -- A generator that has returned, or waits in `_fin_grace`, has yielded every chunk of the list, in
  -- order and once each, however datagrams were lost, repeated, reordered or damaged, if none that
  -- it would accept was forged.
  pub receive_chunks_rdt_complete :
      (cfg : Config) (events : List Event)
      → All (λ event. IsGenuine crc32 id chunks event.received) events
      → IsOver (receive_chunks_rdt crc32 cfg (some id) events).0.phase
      → chunks_of (receive_chunks_rdt crc32 cfg (some id) events).1 ≡ chunks
  receive_chunks_rdt_complete cfg events g o =
      let ran = receive_chunks_rdt-Ran cfg events g in
      ran.yields ∙ take_all ran.place chunks (omega (arith, ran.complete o))
