-- ===== src/Control/Handler/Transfers.antt =====
-- RETR, STOR, STOU, APPE and ABOR, and what a worker's thread replies when its transfer is over.
use hybrid_ftp_socket.Prelude.{
  ℕ, ◌+◌, Bool, true, false, ◌||◌, not, Option, none, some, ◌++◌, if◌then◌else◌,
}
use hybrid_ftp_socket.Prelude.Text.{codes}
use hybrid_ftp_socket.Prelude.Numerals.{Text}
use hybrid_ftp_socket.Control.Session.{
  Session, Given, Operation, retr, stor, stou, appe, transfer_name,
}
use hybrid_ftp_socket.Control.Replies.{line, crlf, error_line, syntax_error, missing_filename}
use hybrid_ftp_socket.Control.Handler.Base.{
  Handled, reply, says, logged_in, with_argument, no_argument,
}

abbrev pub is_none {ℓ} : {A : Type ℓ} → Option A → Bool
is_none none = true
is_none (some a) = false

-- `not session.data_socket and not session.data_host`; a host is never the empty text, a socket is
-- always true.
unfoldable pub has_endpoint : Session → Bool
has_endpoint s = not (is_none s.data_socket) || not (is_none s.data_host)

-- `_transfer_in_progress`
unfoldable pub transfer_in_progress : Given → Session → Bool
transfer_in_progress given s =
    not (is_none s.current_transfer)
    || elim s.transfer_worker [ none ↦ false | some id ↦ given.is_alive ]

-- `TransferManager.cancel`: the event is set, and the data socket is closed.
unfoldable pub cancel : Session → Session
cancel s = record s {
  transfer_cancel_event = some true;
  transfer_cancelled = true;
  data_socket = none;
}

-- What `action_func` leaves: a `TransferResult` that is true or false, with its code and its error,
-- None, or an exception.
pub data Ending : Type 0 where
  success : Ending
  failure : (reply_code : ℕ) (error : Text) → Ending
  nothing : Ending
  exception : Ending

-- `run_transfer`: the reply behind the transfer.
unfoldable pub run_transfer : Ending → Text
run_transfer success = line "226 Transfer complete"
run_transfer (failure reply_code error) = error_line reply_code error
run_transfer nothing = line "426 No RDT adapter configured"
run_transfer exception = line "426 Transfer failed"

module _ (Disk : Type 0) where
  -- `_start_transfer_thread`, once `current_transfer` is set, and the reply behind it.
  unfoldable pub start_transfer : Operation → Option Text → Session → Disk → ℕ → Handled Disk
  start_transfer operation argument s disk counter =
      let id = transfer_name counter in
      record {
        session = record s {
          current_transfer = some (record { operation = operation; file = argument });
          transfer_id = some id;
          transfer_worker = some id;
        };
        disk = disk;
        counter = counter + 1;
        answer = reply (codes "150 Opening data connection; transfer_id=" ++ (id ++ crlf));
        started = some (record { operation = operation; argument = argument; transfer_id = id });
      }

  -- The tests that the four commands share.
  unfoldable pub begin : Operation → Option Text → Given → Session → Disk → ℕ → Handled Disk
  begin operation argument given s disk counter =
      if not (has_endpoint s)
      then says Disk s disk counter (line "425 Use PORT or PASV first")
      else if transfer_in_progress given s
      then says Disk s disk counter (line "450 Transfer already in progress")
      else start_transfer operation argument s disk counter

  -- RETR, STOR and APPE.
  unfoldable pub named_transfer : Operation → Text → Given → Session → Disk → ℕ → Handled Disk
  named_transfer operation arg given s disk counter = logged_in Disk s disk counter (
      with_argument Disk arg s disk counter missing_filename
        (begin operation (some arg) given s disk counter))

  abbrev pub retr_cmd : Text → Given → Session → Disk → ℕ → Handled Disk
  retr_cmd = named_transfer retr

  abbrev pub stor_cmd : Text → Given → Session → Disk → ℕ → Handled Disk
  stor_cmd = named_transfer stor

  abbrev pub appe_cmd : Text → Given → Session → Disk → ℕ → Handled Disk
  appe_cmd = named_transfer appe

  unfoldable pub stou_cmd : Text → Given → Session → Disk → ℕ → Handled Disk
  stou_cmd arg given s disk counter =
      logged_in Disk s disk counter
        (no_argument Disk arg s disk counter syntax_error (begin stou none given s disk counter))

  unfoldable pub abor_cmd : Text → Session → Disk → ℕ → Handled Disk
  abor_cmd arg s disk counter = no_argument Disk arg s disk counter syntax_error (
      logged_in Disk s disk counter
        (says Disk (cancel s) disk counter (line "226 Abort successful")))
