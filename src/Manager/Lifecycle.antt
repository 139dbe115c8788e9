-- ===== src/Manager/Lifecycle.antt =====
-- server/transfer_manager.py: what `upload`, `append`, `upload_unique` and `download` do around their
-- bodies. Each has a try statement of the same form.
pub mod Next
use hybrid_ftp_socket.Prelude.{
  ℕ, Bool, true, false, [], Option, none, some, ◌≡◌, refl, if◌then◌else◌,
}
use hybrid_ftp_socket.Prelude.Text.{codes}
use hybrid_ftp_socket.Prelude.Numerals.{Text}
use hybrid_ftp_socket.Control.Session.{Session, Given, Operation, transfer_name}
use hybrid_ftp_socket.Control.Replies.{line}
use hybrid_ftp_socket.Control.Handler.Base.{says}
use hybrid_ftp_socket.Control.Handler.Transfers.{
  Ending, success, failure, exception, has_endpoint, begin, transfer_in_progress, start_transfer,
}
use hybrid_ftp_socket.Control.Handler.Parameters.{pasv_cmd}

pub record TransferResult : Type 0 where
  pub succeeded : Bool
  pub reply_code : ℕ
  pub bytes_transferred : ℕ
  pub path : Option Text
  pub error : Option Text

-- How the body of the try statement ends: it returns the bytes and the path, the sender has said
-- False, it raises an error of the file service, an `OSError`, `RuntimeError`, `TypeError` or
-- `ValueError` with its message, or an exception that no clause catches.
pub data Body : Type 0 where
  completed : (bytes : ℕ) (path : Text) → Body
  unsent : Body
  refused : (reply_code : ℕ) (message : Text) → Body
  failed : (message : Text) → Body
  escaped : Body

-- `_event_for`, with a new event.
unfoldable pub event_for : Session → Session
event_for s = record s { transfer_cancel_event = some false; transfer_cancelled = false }

-- `_finish`: the event of the session is forgotten if it is the transfer's own.
unfoldable pub finish : Bool → Session → Session
finish is_own s = record s {
  transfer_cancel_event = if is_own then none else s.transfer_cancel_event;
  current_transfer = none;
  data_socket = none;
  data_host = none;
  data_port = none;
  data_mode = none;
}

unfoldable pub failed_with : ℕ → Text → TransferResult
failed_with reply_code message = record {
  succeeded = false;
  reply_code = reply_code;
  bytes_transferred = 0;
  path = none;
  error = some message;
}

-- What is returned, none where the exception goes on; `refused` is `_failure`.
unfoldable pub conclude : Body → Option TransferResult
conclude (completed bytes path) = some (record {
  succeeded = true;
  reply_code = 226;
  bytes_transferred = bytes;
  path = some path;
  error = none;
})
conclude unsent = some (failed_with 426 (codes "RDT sender failed"))
conclude (refused reply_code message) = some (failed_with reply_code message)
conclude (failed message) = some (failed_with 426 message)
conclude escaped = none

-- A call: the body runs on the session, which commands may change meanwhile, and `_finish` follows
-- however it ends. With the session it leaves whether the session's event is the call's own still.
unfoldable pub transfer :
    (Session → Session × Bool × Body) → Session → Session × Option TransferResult
transfer body s = let (s', is_own, ended) = body (event_for s) in (finish is_own s', conclude ended)

-- What the thread makes of the result: `if result`, then its code and its error.
unfoldable pub ending_of : Option TransferResult → Ending
ending_of none = exception
ending_of (some result) =
    if result.succeeded
    then success
    else failure result.reply_code
        (elim result.error [ none ↦ codes "None" | some message ↦ message ])
