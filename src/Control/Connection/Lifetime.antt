-- ===== src/Control/Connection/Lifetime.antt =====
-- What holds of a session from the start of its connection to the end.
use hybrid_ftp_socket.Prelude.{
  ℕ, zero, suc, Bytes, Bool, true, false, Option, none, some, List, [], ◌∷◌, ◌++◌, inl, ◌≡◌, refl,
  sym, subst,
}
use hybrid_ftp_socket.Prelude.Numerals.{Text}
use hybrid_ftp_socket.Control.Parser.{parse}
use hybrid_ftp_socket.Control.Session.{Given}
use hybrid_ftp_socket.Control.Files.{Files}
use hybrid_ftp_socket.Control.Handler.Base.{Answer, reply, raised}
use hybrid_ftp_socket.Control.Handler.Transfers.{cancel}
use hybrid_ftp_socket.Control.Handler.{handle}
use hybrid_ftp_socket.Control.Handler.Invariant.{IsValid, opened-IsValid}
use hybrid_ftp_socket.Control.Handler.Invariant.Kept.{handle-IsValid}
use hybrid_ftp_socket.Control.Connection.Lines.{split_line}
use hybrid_ftp_socket.Control.Connection.{
  Connection, Progress, reading, returned, LocalAddress, server_ip_of, connect, respond, settle,
  on_command, on_line, drain, receive, run, connection_of, cleanup,
}

respond_session :
    {Disk : Type 0} (answer : Answer) (c : Connection Disk) → (respond answer c).session ≡ c.session
unfolding respond
respond_session (reply []) c = refl
respond_session (reply (b ∷ response)) c = refl
respond_session raised c = refl

module _ (files : Files) (format_date : Text → Text) (decode : Bytes → Option Text)
    (surroundings : ℕ → Given) where
  abbrev Holds : Progress files.Disk → Type 0
  Holds p = IsValid files (connection_of p).session

  on_line-IsValid :
      (found : Option Text) (c : Connection files.Disk)
      → IsValid files c.session
      → IsValid files (on_line files format_date decode surroundings found c).1.session
  unfolding on_line on_command
  on_line-IsValid none c v = v
  on_line-IsValid (some raw_command) c v =
      let command = parse raw_command in
      let h = handle files format_date command (surroundings c.turn) c.session c.disk c.counter in
      subst (IsValid files) (sym (respond_session h.answer (settle h c))) (
        handle-IsValid files format_date command (surroundings c.turn) c.session c.disk c.counter v)

  drain-IsValid :
      (fuel : ℕ) (buffer : Bytes) (c : Connection files.Disk)
      → IsValid files c.session
      → Holds (drain files format_date decode surroundings fuel buffer c)
  unfolding drain
  drain-IsValid zero buffer c v = v
  drain-IsValid (suc fuel) buffer c v =
      by_line (λ rest d w. drain-IsValid fuel rest d w) (split_line buffer)
    where
      by_quit :
          (rest : Bytes)
          → ((d : Connection files.Disk)
              → IsValid files d.session
              → Holds (drain files format_date decode surroundings fuel rest d))
          → (quit : Bool) (d : Connection files.Disk) → IsValid files d.session
          → Holds (elim quit [
            | true ↦ returned d
            | false ↦ drain files format_date decode surroundings fuel rest d
          ])
      by_quit rest ih true d w = w
      by_quit rest ih false d w = ih d w

      by_line :
          ((rest : Bytes) (d : Connection files.Disk)
            → IsValid files d.session
            → Holds (drain files format_date decode surroundings fuel rest d))
          → (found : Option (Bytes × Bytes))
          → Holds (elim found [
            | none ↦ reading buffer c
            | some (command, rest) ↦
                elim ((on_line files format_date decode surroundings (decode command) c).0) [
                  | true ↦
                      returned (on_line files format_date decode surroundings (decode command) c).1
                  | false ↦
                      drain files format_date decode surroundings fuel rest
                        (on_line files format_date decode surroundings (decode command) c).1
                ]
          ])
      by_line ih none = v
      by_line ih (some (command, rest)) =
          by_quit rest (ih rest)
            (on_line files format_date decode surroundings (decode command) c).0
            (on_line files format_date decode surroundings (decode command) c).1
            (on_line-IsValid (decode command) c v)

  receive-IsValid :
      (bytes : Bytes) (p : Progress files.Disk)
      → Holds p
      → Holds (receive files format_date decode surroundings bytes p)
  unfolding receive
  receive-IsValid bytes (reading buffer c) v = drain-IsValid _ (buffer ++ bytes) c v
  receive-IsValid bytes (returned c) v = v

  run-IsValid :
      (chunks : List Bytes) (p : Progress files.Disk)
      → Holds p
      → Holds (run files format_date decode surroundings chunks p)
  unfolding run
  run-IsValid [] p v = v
  run-IsValid ([] ∷ later) p v = v
  run-IsValid ((b ∷ bytes) ∷ later) p v =
      run-IsValid later (receive files format_date decode surroundings (b ∷ bytes) p)
        (receive-IsValid (b ∷ bytes) p v)

  -- For every client, whatever bytes it sends: if the root of the server is a directory of the
  -- service, the session of its connection satisfies the invariant at every end of the loop, and
  -- so does what `cleanup` leaves of it.
  pub connect-IsValid :
      (ftp_root : Text) (peer_ip advertised_host : Option Text) (address : LocalAddress)
      (disk : files.Disk) (counter : ℕ) (chunks : List Bytes)
      → files.IsInside ftp_root
      → (IsValid files
          (connection_of (
            run files format_date decode surroundings chunks (
              reading [] (connect ftp_root peer_ip advertised_host address disk counter)))).session)
        × IsValid files (
            cleanup
              (connection_of (
                run files format_date decode surroundings chunks (
                  reading []
                    (connect ftp_root peer_ip advertised_host address disk counter)))).session)
  unfolding connect cleanup cancel
  connect-IsValid ftp_root peer_ip advertised_host address disk counter chunks i =
      let start = connect ftp_root peer_ip advertised_host address disk counter in
      let v : Holds (run files format_date decode surroundings chunks (reading [] start)) =
        run-IsValid chunks (reading [] start)
          (opened-IsValid files ftp_root peer_ip (some (server_ip_of advertised_host address)) i) in
      (
        v,
        record {
          user = v.user;
          renaming = inl refl;
          mode = v.mode;
          type = v.type;
          inside = v.inside;
          endpoint = tt;
        },
      )
