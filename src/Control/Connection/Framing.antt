-- ===== src/Control/Connection/Framing.antt =====
-- However the network cuts the bytes of the control connection, the same commands are handled.
use hybrid_ftp_socket.Prelude.{
  ℕ, zero, suc, ◌<◌, Bytes, Bool, true, false, Option, none, some, List, [], ◌∷◌, ◌++◌,
  append_assoc, append-nil, length, length-append, ◌≡◌, ◌≢◌, inl, inr, refl, sym, ap, subst, ◌∙◌,
  arith, All,
}
use hybrid_ftp_socket.Prelude.Numerals.{Text}
use hybrid_ftp_socket.Control.Session.{Given}
use hybrid_ftp_socket.Control.Files.{Files}
use hybrid_ftp_socket.Control.Connection.Lines.{
  split_line, split_line-append, split_line-length, split_line-line, split_line_cases,
}
use hybrid_ftp_socket.Control.Connection.{
  Connection, Progress, reading, returned, on_line, drain, receive, run,
}

-- The bytes of a list of chunks.
abbrev pub concat : List Bytes → Bytes
concat [] = []
concat (data_chunk ∷ later) = data_chunk ++ concat later

-- The lines with their line ends.
abbrev pub lines_of : List Bytes → Bytes
lines_of [] = []
lines_of (line ∷ later) = line ++ (13 ∷ 10 ∷ lines_of later)

abbrev pub IsChunk : Bytes → Type 0
IsChunk chunk = chunk ≢ []

abbrev pub IsLine : Bytes → Type 0
IsLine line = split_line line ≡ none

module _ (files : Files) (format_date : Text → Text) (decode : Bytes → Option Text)
    (surroundings : ℕ → Given) where
  abbrev act : Bytes → Connection files.Disk → Bool × Connection files.Disk
  act line c = on_line files format_date decode surroundings (decode line) c

  abbrev drained : ℕ → Bytes → Connection files.Disk → Progress files.Disk
  drained = drain files format_date decode surroundings

  -- The specification: the lines in their order, until one of them ends the connection.
  abbrev pub serve_lines : List Bytes → Connection files.Disk → Progress files.Disk
  serve_lines [] c = reading [] c
  serve_lines (line ∷ later) c = elim ((act line c).0) [
    | true ↦ returned (act line c).1
    | false ↦ serve_lines later (act line c).1
  ]

  drain-none :
      (fuel : ℕ) (buffer : Bytes) (c : Connection files.Disk)
      → split_line buffer ≡ none
      → drained fuel buffer c ≡ reading buffer c
  unfolding drain
  drain-none zero buffer c e = refl
  drain-none (suc fuel) buffer c e = rw (e, drain) refl

  drain-some :
      (fuel : ℕ) (buffer line rest : Bytes) (c : Connection files.Disk)
      → split_line buffer ≡ some (line, rest)
      → drained (suc fuel) buffer c ≡ elim ((act line c).0) [
        | true ↦ returned (act line c).1
        | false ↦ drained fuel rest (act line c).1
      ]
  unfolding drain
  drain-some fuel buffer line rest c e = rw (e, drain) refl

  -- More fuel than the bytes of the buffer does not matter.
  drain-fuel :
      (n m : ℕ) (buffer : Bytes) (c : Connection files.Disk)
      → length buffer < n
      → length buffer < m
      → drained n buffer c ≡ drained m buffer c
  drain-fuel zero m buffer c hn hm = absurd (omega arith)
  drain-fuel (suc n) zero buffer c hn hm = absurd (omega arith)
  drain-fuel (suc n) (suc m) buffer c hn hm = elim (split_line_cases buffer) [
    | inl e ↦ drain-none (suc n) buffer c e ∙ sym (drain-none (suc m) buffer c e)
    | inr (line, rest, e) ↦
        drain-some n buffer line rest c e
        ∙ ap (λ z. elim ((act line c).0) [ true ↦ returned (act line c).1 | false ↦ z ])
            (drain-fuel n m rest (act line c).1
              (omega (arith, split_line-length buffer line rest e))
              (omega (arith, split_line-length buffer line rest e)))
        ∙ sym (drain-some m buffer line rest c e)
  ]

  receive-reading :
      (m : ℕ) (buffer bytes : Bytes) (c : Connection files.Disk)
      → length (buffer ++ bytes) < m
      → receive files format_date decode surroundings bytes (reading buffer c)
        ≡ drained m (buffer ++ bytes) c
  unfolding receive
  receive-reading m buffer bytes c hm =
      drain-fuel (suc (length (buffer ++ bytes))) m (buffer ++ bytes) c (omega arith) hm

  -- What `recv` brings later could as well have been there from the start.
  receive-drain :
      (n m : ℕ) (buffer bytes : Bytes) (c : Connection files.Disk)
      → length buffer < n
      → length (buffer ++ bytes) < m
      → receive files format_date decode surroundings bytes (drained n buffer c)
        ≡ drained m (buffer ++ bytes) c
  unfolding receive
  receive-drain zero m buffer bytes c hn hm = absurd (omega arith)
  receive-drain (suc n) zero buffer bytes c hn hm = absurd (omega arith)
  receive-drain (suc n) (suc m) buffer bytes c hn hm = elim (split_line_cases buffer) [
    | inl e ↦
        ap (receive files format_date decode surroundings bytes) (drain-none (suc n) buffer c e)
        ∙ receive-reading (suc m) buffer bytes c hm
    | inr (line, rest, e) ↦
        ap (receive files format_date decode surroundings bytes) (drain-some n buffer line rest c e)
        ∙ by_quit _ _ _ (act line c).0 (
            receive-drain n m rest bytes (act line c).1
              (omega (arith, split_line-length buffer line rest e))
              (omega (
                arith,
                length-append buffer bytes,
                length-append rest bytes,
                split_line-length buffer line rest e,
              )))
        ∙ sym (
            drain-some m (buffer ++ bytes) line (rest ++ bytes) c
              (split_line-append buffer bytes line rest e))
  ]
    where
      by_quit :
          (d : Connection files.Disk) (x y : Progress files.Disk) (b : Bool)
          → receive files format_date decode surroundings bytes x ≡ y
          → receive files format_date decode surroundings bytes
              (elim b [ true ↦ returned d | false ↦ x ])
            ≡ (elim b [ true ↦ returned d | false ↦ y ])
      by_quit d x y true e = refl
      by_quit d x y false e = e

  run-drain :
      (chunks : List Bytes) (n m : ℕ) (buffer : Bytes) (c : Connection files.Disk)
      → All IsChunk chunks
      → length buffer < n
      → length (buffer ++ concat chunks) < m
      → run files format_date decode surroundings chunks (drained n buffer c)
        ≡ drained m (buffer ++ concat chunks) c
  unfolding run
  run-drain [] n m buffer c h hn hm =
      let same : length buffer < m = subst (λ t. length t < m) (append-nil buffer) hm in
      drain-fuel n m buffer c hn same ∙ ap (λ t. drained m t c) (sym (append-nil buffer))
  run-drain ([] ∷ later) n m buffer c h hn hm = absurd (h.0 refl)
  run-drain ((b ∷ chunk) ∷ later) n m buffer c h hn hm =
      let more = suc (length (buffer ++ (b ∷ chunk))) in
      let together = append_assoc buffer (b ∷ chunk) (concat later) in
      ap (run files format_date decode surroundings later)
        (receive-drain n more buffer (b ∷ chunk) c hn (omega arith))
      ∙ run-drain later more m (buffer ++ (b ∷ chunk)) c h.1 (omega arith)
          (subst (λ t. length t < m) (sym together) hm)
      ∙ ap (λ t. drained m t c) together

  drain-lines_of :
      (lines : List Bytes) (n : ℕ) (c : Connection files.Disk)
      → All IsLine lines
      → length (lines_of lines) < n
      → drained n (lines_of lines) c ≡ serve_lines lines c
  unfolding split_line
  drain-lines_of lines zero c h hn = absurd (omega arith)
  drain-lines_of [] (suc n) c h hn = drain-none (suc n) [] c refl
  drain-lines_of (line ∷ later) (suc n) c h hn =
      drain-some n (line ++ (13 ∷ 10 ∷ lines_of later)) line (lines_of later) c
        (split_line-line line (lines_of later) h.0)
      ∙ ap (λ z. elim ((act line c).0) [ true ↦ returned (act line c).1 | false ↦ z ])
          (drain-lines_of later n (act line c).1 h.1
            (omega (arith, length-append line (13 ∷ 10 ∷ lines_of later))))

  -- If the bytes that arrive are lines with their line ends, then, however they are cut into chunks
  -- that are not empty, the connection does what it does on one line after the other.
  pub run-lines_of :
      (chunks lines : List Bytes) (c : Connection files.Disk)
      → All IsChunk chunks
      → All IsLine lines
      → concat chunks ≡ lines_of lines
      → run files format_date decode surroundings chunks (reading [] c) ≡ serve_lines lines c
  unfolding drain split_line
  run-lines_of chunks lines c hc hl e =
      let m = suc (length (concat chunks)) in
      run-drain chunks 1 m [] c hc (omega arith) (omega arith)
      ∙ ap (λ t. drained m t c) e
      ∙ drain-lines_of lines m c hl (omega (arith, ap length e))
