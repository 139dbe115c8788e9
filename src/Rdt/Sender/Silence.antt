-- ===== src/Rdt/Sender/Silence.antt =====
-- A silent network ends every call of `send_chunks_rdt` after as many timeouts as the limit says.
use hybrid_ftp_socket.Prelude.{
  ℕ, zero, suc, ◌+◌, ◌<◌, ◌≤◌, Bytes, false, List, [], ◌∷◌, ◌≡◌, refl, arith, length, ltb, leb,
  Bool-cases, inl, inr, ◌⊎◌, replicate, subst, sym,
}
use hybrid_ftp_socket.Prelude.Outcome.{Error, Result-cases}
use hybrid_ftp_socket.Rdt.Network.{Event, timeout}
use hybrid_ftp_socket.Rdt.Sender.State.{
  settle, Job, Phase, starting, sending, returned, raised, Sender, Reply, Item, attempts, is_done,
}
use hybrid_ftp_socket.Rdt.Sender.{
  data_packet, fill, refill, after_fill, on_received, on_attempt, start_packet, step_in, step, run,
}
use hybrid_ftp_socket.Rdt.Sender.Invariant.Rounds.{refill-phase}

-- A round in which nothing arrives and nobody cancels.
abbrev pub silent : Event
silent = record { cancelled = false; received = timeout }

-- The call has returned or ended by an exception.
abbrev pub IsEnded : Phase → Type 0
IsEnded (starting left) = ⊥
IsEnded sending = ⊥
IsEnded returned = Unit
IsEnded (raised e) = Unit

-- `n` timeouts are enough to reach the limit of retries from here.
abbrev pub IsPatient : Job → ℕ → Phase → ℕ → Type 0
IsPatient job n (starting left) timeout_count = (left ≤ n) × (0 < left)
IsPatient job n sending timeout_count = (job.retry_limit ≤ timeout_count + n) × (0 < n)
IsPatient job n returned timeout_count = Unit
IsPatient job n (raised e) timeout_count = Unit

module _ (crc32 : Bytes → ℕ) (job : Job) where
  step_in-IsEnded :
      (phase : Phase) (s : Sender) (event : Event)
      → s.phase ≡ phase
      → IsEnded phase
      → IsEnded (step_in crc32 phase job s event).0.phase
  unfolding step_in
  step_in-IsEnded (starting left) s event p e = absurd e
  step_in-IsEnded sending s event p e = absurd e
  step_in-IsEnded returned s event p e = rw p tt
  step_in-IsEnded (raised x) s event p e = rw p tt

  -- A call that is over stays over.
  run-IsEnded :
      (events : List Event) (s : Sender)
      → IsEnded s.phase
      → IsEnded (run crc32 job s events).0.phase
  unfolding run step
  run-IsEnded [] s e = e
  run-IsEnded (event ∷ events) s e = run-IsEnded events _ (step_in-IsEnded s.phase s event refl e)

  fill-timeout_count :
      (s : Sender) (pending : List Item)
      → (fill crc32 job s pending).0.timeout_count ≡ s.timeout_count
  unfolding fill
  fill-timeout_count s [] = refl
  fill-timeout_count s (item ∷ pending) =
      elim (Bool-cases (ltb (length s.window) job.window_size)) [
        | inr f ↦ rw (f, fill) refl
        | inl t ↦ elim (Result-cases (data_packet crc32 job.transfer_id item)) [
          | inr (e, d) ↦ rw (t, d, fill) refl
          | inl (b, d) ↦
              rw (t, d, fill) (fill-timeout_count (record s { window = _; next_seq = _ }) pending)
        ]
      ]

  refill-timeout_count : (s : Sender) → (refill crc32 job s).0.timeout_count ≡ s.timeout_count
  unfolding refill
  refill-timeout_count s = ground (arith, fill-timeout_count s s.pending)

  -- After a silent round the call is over, or it is sending with one timeout more, below the limit.
  abbrev IsNearer : ℕ → Sender → Type 0
  IsNearer count s =
      IsEnded s.phase
      ⊎ ((s.phase ≡ sending) × (s.timeout_count ≡ suc count) × (suc count < job.retry_limit))

  settle-IsNearer :
      (s : Sender) (count : ℕ)
      → s.phase ≡ sending
      → s.timeout_count ≡ suc count
      → suc count < job.retry_limit
      → IsNearer count (settle s)
  settle-IsNearer s count p c l = elim (Bool-cases (is_done s)) [
    | inl t ↦ inl (rw t tt)
    | inr f ↦ inr (rw f (p, c, l))
  ]

  on_timeout-IsNearer :
      (s : Sender)
      → s.phase ≡ sending
      → IsNearer s.timeout_count (on_received crc32 job s timeout).0
  unfolding on_received
  on_timeout-IsNearer s p = elim (Bool-cases (leb job.retry_limit (s.timeout_count + 1))) [
    | inl t ↦ inl (rw t tt)
    | inr f ↦ rw f (settle-IsNearer _ s.timeout_count p (omega arith) (ground arith))
  ]

  after_fill-IsNearer :
      (reply : Reply)
      → (reply.0.phase ≡ sending) ⊎ ((e : Error) × (reply.0.phase ≡ raised e))
      → IsNearer reply.0.timeout_count (after_fill crc32 job reply timeout).0
  unfolding after_fill
  after_fill-IsNearer reply (inl p) = simp (p, after_fill) (on_timeout-IsNearer reply.0 p)
  after_fill-IsNearer reply (inr (e, p)) = simp (p, after_fill) (inl tt)

  sending_silent :
      (s : Sender)
      → s.phase ≡ sending
      → IsNearer s.timeout_count (step_in crc32 sending job s silent).0
  unfolding step_in
  sending_silent s p =
      subst (λ c. IsNearer c (after_fill crc32 job (refill crc32 job s) timeout).0)
        (refill-timeout_count s)
        (after_fill-IsNearer (refill crc32 job s) (refill-phase crc32 job [] s p))

  starting_silent :
      (s : Sender) (left : ℕ)
      → IsEnded (step_in crc32 (starting (suc left)) job s silent).0.phase
        ⊎ ((step_in crc32 (starting (suc left)) job s silent).0.phase ≡ attempts left)
  unfolding step_in on_attempt
  starting_silent s left = elim (Result-cases (start_packet crc32 job)) [
    | inl (b, d) ↦ inr (rw (d, on_attempt) refl)
    | inr (e, d) ↦ inl (rw (d, on_attempt) tt)
  ]

  attempts-IsPatient :
      (n left : ℕ) (s : Sender)
      → s.phase ≡ attempts left
      → left ≤ n
      → IsEnded s.phase ⊎ IsPatient job n s.phase s.timeout_count
  attempts-IsPatient n zero s p h = inl (rw p tt)
  attempts-IsPatient n (suc left) s p h =
      inr (subst (λ (f : Phase). IsPatient job n f s.timeout_count) (sym p) (omega arith))

  nearer-IsPatient :
      (n : ℕ) (s s' : Sender)
      → job.retry_limit ≤ s.timeout_count + suc n
      → IsNearer s.timeout_count s'
      → IsEnded s'.phase ⊎ IsPatient job n s'.phase s'.timeout_count
  nearer-IsPatient n s s' h (inl e) = inl e
  nearer-IsPatient n s s' h (inr (p, c, l)) =
      inr (subst (λ (f : Phase). IsPatient job n f s'.timeout_count) (sym p) (omega (arith, c)))

  round-IsPatient :
      (n : ℕ) (phase : Phase) (s : Sender)
      → s.phase ≡ phase
      → IsPatient job (suc n) phase s.timeout_count
      → let s' = (step_in crc32 phase job s silent).0 in
        IsEnded s'.phase ⊎ IsPatient job n s'.phase s'.timeout_count
  round-IsPatient n (starting zero) s p h = absurd (omega arith)
  round-IsPatient n (starting (suc left)) s p h = elim (starting_silent s left) [
    | inl e ↦ inl e
    | inr a ↦
        attempts-IsPatient n left (step_in crc32 (starting (suc left)) job s silent).0 a
          (omega arith)
  ]
  round-IsPatient n sending s p h =
      nearer-IsPatient n s (step_in crc32 sending job s silent).0 h.0 (sending_silent s p)
  round-IsPatient n returned s p h = inl (step_in-IsEnded returned s silent p tt)
  round-IsPatient n (raised e) s p h = inl (step_in-IsEnded (raised e) s silent p tt)

  none_left : (phase : Phase) (count : ℕ) → IsPatient job 0 phase count → IsEnded phase
  none_left (starting left) count h = absurd (omega arith)
  none_left sending count h = absurd (omega arith)
  none_left returned count h = tt
  none_left (raised e) count h = tt

  -- Silent rounds end a call, wherever it stands, once they are as many as the attempts of START
  -- that are left, or as the timeouts that reach the limit: it returns or raises.
  pub silent-IsEnded :
      (n : ℕ) (s : Sender)
      → IsPatient job n s.phase s.timeout_count
      → IsEnded (run crc32 job s (replicate n silent)).0.phase
  unfolding run step
  silent-IsEnded zero s h = none_left s.phase s.timeout_count h
  silent-IsEnded (suc n) s h = elim (round-IsPatient n s.phase s refl h) [
    | inl e ↦ run-IsEnded (replicate n silent) _ e
    | inr g ↦ silent-IsEnded n (step crc32 job s silent).0 g
  ]
