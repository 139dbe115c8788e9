-- ===== src/Control/Connection.antt =====
-- server/client_handler.py: the control connection. The bytes that arrive are cut into lines, and
-- every line is a command.
pub mod Lines
pub mod Framing
pub mod Lifetime
use hybrid_ftp_socket.Prelude.{
  ℕ, zero, suc, ◌+◌, Bytes, Bool, true, false, Option, none, some, List, [], ◌∷◌, ◌++◌, length,
  if◌then◌else◌,
}
use hybrid_ftp_socket.Prelude.Text.{codes}
use hybrid_ftp_socket.Prelude.Numerals.{Text, is_empty, text_eq}
use hybrid_ftp_socket.Control.Parser.{parse}
use hybrid_ftp_socket.Control.Session.{Session, Given, opened}
use hybrid_ftp_socket.Control.Files.{Files}
use hybrid_ftp_socket.Control.Replies.{line, ready}
use hybrid_ftp_socket.Control.Handler.Base.{Handled, Answer, reply, raised, Start}
use hybrid_ftp_socket.Control.Handler.Transfers.{cancel}
use hybrid_ftp_socket.Control.Handler.{handle}
use Lines.{split_line}

-- What `getsockname` says: an address, none for what is not a tuple or is empty, or an `OSError`.
pub data LocalAddress : Type 0 where
  local_address : Text → LocalAddress
  no_address : LocalAddress
  os_error : LocalAddress

-- `session.server_ip` in `ClientHandler.__init__`; the error passes over `advertised_host` too.
unfoldable pub server_ip_of : Option Text → LocalAddress → Text
server_ip_of advertised_host os_error = codes "127.0.0.1"
server_ip_of (some (c ∷ host)) _ = c ∷ host
server_ip_of other (local_address host) = host
server_ip_of other no_address = codes "127.0.0.1"

-- A handler of a client: its session, the disk and the counter of transfers, the number of commands
-- that it has given to `handle`, the replies that it has sent, and the transfers it has started.
pub record Connection (Disk : Type 0) : Type 0 where
  pub session : Session
  pub disk : Disk
  pub counter : ℕ
  pub turn : ℕ
  pub sent : List Text
  pub started : List Start

-- The loop of `run` waits for data behind what is in the buffer, or the function has returned.
pub data Progress (Disk : Type 0) : Type 0 where
  reading : (buffer : Bytes) (connection : Connection Disk) → Progress Disk
  returned : (connection : Connection Disk) → Progress Disk

-- `ClientHandler.__init__` and the reply in front of the loop.
unfoldable pub connect :
    {Disk : Type 0} → Text → Option Text → Option Text → LocalAddress → Disk → ℕ → Connection Disk
connect ftp_root peer_ip advertised_host address disk counter = record {
  session = opened ftp_root peer_ip (some (server_ip_of advertised_host address));
  disk = disk;
  counter = counter;
  turn = 0;
  sent = ready ∷ [];
  started = [];
}

-- `send`
abbrev pub send : {Disk : Type 0} → Text → Connection Disk → Connection Disk
send response c = record c { sent = c.sent ++ (response ∷ []) }

-- `if response: self.send(response)`; an exception is answered with 500.
unfoldable pub respond : {Disk : Type 0} → Answer → Connection Disk → Connection Disk
respond (reply response) c = if is_empty response then c else send response c
respond raised c = send (line "500 Internal server error") c

abbrev pub more : Option Start → List Start → List Start
more none started = started
more (some start) started = started ++ (start ∷ [])

-- What the handler of a command has done to the connection.
abbrev pub settle : {Disk : Type 0} → Handled Disk → Connection Disk → Connection Disk
settle h c = record {
  session = h.session;
  disk = h.disk;
  counter = h.counter;
  turn = suc c.turn;
  sent = c.sent;
  started = more h.started c.started;
}

-- The exception of a handler passes over the test of QUIT.
unfoldable pub quits : Text → Answer → Bool
quits name (reply response) = text_eq name (codes "QUIT")
quits name raised = false

-- `decode` is the decoding of UTF-8, none for a `UnicodeDecodeError`; `surroundings` is what each
-- command meets.
module _ (files : Files) (format_date : Text → Text) (decode : Bytes → Option Text)
    (surroundings : ℕ → Given) where
  -- A command, and whether the function returns behind it.
  unfoldable pub on_command : Text → Connection files.Disk → Bool × Connection files.Disk
  on_command raw_command c =
      let command = parse raw_command in
      let h = handle files format_date command (surroundings c.turn) c.session c.disk c.counter in
      (quits command.name h.answer, respond h.answer (settle h c))

  unfoldable pub on_line : Option Text → Connection files.Disk → Bool × Connection files.Disk
  on_line none c = (false, send (line "500 Syntax error, command unrecognized") c)
  on_line (some raw_command) c = on_command raw_command c

  -- `while b"\r\n" in self.buffer`
  unfoldable pub drain : ℕ → Bytes → Connection files.Disk → Progress files.Disk
  drain zero buffer c = reading buffer c
  drain (suc fuel) buffer c = elim (split_line buffer) [
    | none ↦ reading buffer c
    | some (command, rest) ↦ elim ((on_line (decode command) c).0) [
      | true ↦ returned (on_line (decode command) c).1
      | false ↦ drain fuel rest (on_line (decode command) c).1
    ]
  ]

  -- What `recv` has returned goes behind the buffer; a line takes at least two bytes of it.
  unfoldable pub receive : Bytes → Progress files.Disk → Progress files.Disk
  receive bytes (reading buffer c) = drain (suc (length (buffer ++ bytes))) (buffer ++ bytes) c
  receive bytes (returned c) = returned c

  -- `while True`, on what `recv` returns; no bytes are the end, and so is an exception behind the
  -- last of them.
  unfoldable pub run : List Bytes → Progress files.Disk → Progress files.Disk
  run [] p = p
  run ([] ∷ later) p = p
  run ((b ∷ bytes) ∷ later) p = run later (receive (b ∷ bytes) p)

-- The connection, wherever the loop has stopped.
abbrev pub connection_of : {Disk : Type 0} → Progress Disk → Connection Disk
connection_of (reading buffer c) = c
connection_of (returned c) = c

-- `cleanup`, for the session.
unfoldable pub cleanup : Session → Session
cleanup s = record (cancel s) {
  data_socket = none;
  data_host = none;
  data_port = none;
  data_mode = none;
  rename_from = none;
  transfer_cancelled = false;
  current_transfer = none;
  transfer_worker = none;
}
