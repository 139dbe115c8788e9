-- ===== src/Control/Handler/Starts/Started.antt =====
-- server/command_handler.py: when a command starts a transfer.
use hybrid_ftp_socket.Prelude.{
  ℕ, ◌+◌, Bool, true, false, not, Option, none, some, ◌≡◌, refl, sym, ap, ◌++◌, [], if◌then◌else◌,
}
use hybrid_ftp_socket.Prelude.Text.{codes}
use hybrid_ftp_socket.Prelude.Numerals.{Text}
use hybrid_ftp_socket.Control.Parser.{FtpCommand}
use hybrid_ftp_socket.Control.Session.{Session, Given, Operation, transfer_name}
use hybrid_ftp_socket.Control.Files.{Files}
use hybrid_ftp_socket.Control.Replies.{line, crlf}
use hybrid_ftp_socket.Control.Handler.Base.{Handled, Start, reply, says}
use hybrid_ftp_socket.Control.Handler.Transfers.{
  begin, has_endpoint, transfer_in_progress, start_transfer,
}
use hybrid_ftp_socket.Control.Handler.{Verb, v_rnto, verb_of, before, handle}
use hybrid_ftp_socket.Control.Handler.Starts.{dispatch-begin}

-- A transfer that a command has started: its session was logged in, had a data connection and no
-- transfer in progress; the thread has its own name from the counter, and the client is told it.
pub record IsStarted (Disk : Type 0) (given : Given) (s : Session) (counter : ℕ) (start : Start)
    (h : Handled Disk) : Type 0 where
  pub member : s.is_logged_in ≡ true
  pub connected : has_endpoint s ≡ true
  pub idle : transfer_in_progress given s ≡ false
  pub id : start.transfer_id ≡ transfer_name counter
  pub next : h.counter ≡ counter + 1
  pub told :
      h.answer
      ≡ reply (codes "150 Opening data connection; transfer_id=" ++ (transfer_name counter ++ crlf))

module _ (Disk : Type 0) (given : Given) (s : Session) (counter : ℕ) where
  abbrev Starts : Handled Disk → Type 0
  Starts h = (start : Start) → h.started ≡ some start → IsStarted Disk given s counter start h

  begin-IsStarted :
      (operation : Operation) (argument : Option Text) (disk : Disk)
      → s.is_logged_in ≡ true
      → Starts (begin Disk operation argument given s disk counter)
  unfolding begin start_transfer
  begin-IsStarted operation argument disk l =
      by_tests (has_endpoint s) (transfer_in_progress given s) refl refl
    where
      by_tests :
          (endpoint busy : Bool)
          → has_endpoint s ≡ endpoint
          → transfer_in_progress given s ≡ busy
          → Starts (
              if not endpoint
              then says Disk s disk counter (line "425 Use PORT or PASV first")
              else if busy
              then says Disk s disk counter (line "450 Transfer already in progress")
              else start_transfer Disk operation argument s disk counter)
      by_tests false busy e b start started = absurd cc
      by_tests true true e b start started = absurd cc
      by_tests true false e b start started = record {
        member = l;
        connected = e;
        idle = b;
        id = sym (ap (λ o. id_of o) started);
        next = refl;
        told = refl;
      }
        where
          id_of : Option Start → Text
          id_of none = []
          id_of (some start) = start.transfer_id

module _ (files : Files) (format_date : Text → Text) (given : Given) (disk : files.Disk)
    (counter : ℕ) where
  before-IsStarted :
      (verb : Verb) (s : Session) (start : Start) (h : Handled files.Disk)
      → IsStarted files.Disk given (before verb s) counter start h
      → IsStarted files.Disk given s counter start h
  unfolding before has_endpoint transfer_in_progress
  before-IsStarted v_rnto s start h i = i
  before-IsStarted _ s start h i = record {
    member = i.member;
    connected = i.connected;
    idle = i.idle;
    id = i.id;
    next = i.next;
    told = i.told;
  }

  -- If a command starts a transfer, then its session is logged in, has a data connection and no
  -- transfer in progress; the transfer has its own name from the counter, which goes on, and the
  -- client is told 150 with this name.
  pub handle-IsStarted :
      (command : FtpCommand) (s : Session) (start : Start)
      → (handle files format_date command given s disk counter).started ≡ some start
      → IsStarted files.Disk given s counter start
          (handle files format_date command given s disk counter)
  unfolding handle
  handle-IsStarted command s start started =
      let s' = before (verb_of command.name) s in
      before-IsStarted (verb_of command.name) s start _ (
        dispatch-begin files (Starts files.Disk given s' counter) (λ t d c text begun e. absurd cc)
          (λ t d c begun e. absurd cc) format_date given s' disk counter
          (λ operation argument l.
            begin-IsStarted files.Disk given s' counter operation argument disk l)
          (verb_of command.name) command.argument start started)

  -- Who starts a transfer leaves the disk to its thread.
  pub handle-disk_of_start :
      (command : FtpCommand) (s : Session) (start : Start)
      → (handle files format_date command given s disk counter).started ≡ some start
      → (handle files format_date command given s disk counter).disk ≡ disk
  unfolding handle begin start_transfer
  handle-disk_of_start command s start started =
      let s' = before (verb_of command.name) s in
      dispatch-begin files (λ h. (begun : Start) → h.started ≡ some begun → h.disk ≡ disk)
        (λ t d c text begun e. absurd cc) (λ t d c begun e. absurd cc) format_date given s' disk
        counter
        (λ operation argument l.
          by_tests operation argument s' (has_endpoint s') (transfer_in_progress given s'))
        (verb_of command.name) command.argument start started
    where
      by_tests :
          (operation : Operation) (argument : Option Text) (t : Session) (endpoint busy : Bool)
          (begun : Start)
          → (if not endpoint
              then says files.Disk t disk counter (line "425 Use PORT or PASV first")
              else if busy
              then says files.Disk t disk counter (line "450 Transfer already in progress")
              else start_transfer files.Disk operation argument t disk counter).started
            ≡ some begun
          → (if not endpoint
              then says files.Disk t disk counter (line "425 Use PORT or PASV first")
              else if busy
              then says files.Disk t disk counter (line "450 Transfer already in progress")
              else start_transfer files.Disk operation argument t disk counter).disk
            ≡ disk
      by_tests operation argument t false busy begun e = refl
      by_tests operation argument t true true begun e = refl
      by_tests operation argument t true false begun e = refl
