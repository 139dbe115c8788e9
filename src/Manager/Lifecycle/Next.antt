-- ===== src/Manager/Lifecycle/Next.antt =====
-- The first commands behind a transfer.
use hybrid_ftp_socket.Prelude.{ℕ, Bool}
use hybrid_ftp_socket.Prelude.Numerals.{Text}
use hybrid_ftp_socket.Control.Parser.{FtpCommand}
use hybrid_ftp_socket.Control.Session.{Session, Given, Operation, retr, stor, stou, appe}
use hybrid_ftp_socket.Control.Files.{Files}
use hybrid_ftp_socket.Control.Handler.Base.{Handled}
use hybrid_ftp_socket.Control.Handler.{Verb, v_retr, v_stor, v_stou, v_appe, handle}
use hybrid_ftp_socket.Manager.Lifecycle.{Body, transfer}

-- The command that asks for an operation.
abbrev pub verb_for : Operation → Verb
verb_for retr = v_retr
verb_for stor = v_stor
verb_for stou = v_stou
verb_for appe = v_appe

module _ (files : Files) (format_date : Text → Text) (body : Session → Session × Bool × Body)
    (s : Session) (given : Given) (disk : files.Disk) (counter : ℕ) where
  -- RETR, STOR or APPE directly behind a transfer.
  abbrev pub at_once : FtpCommand → Handled files.Disk
  at_once command = handle files format_date command given (transfer body s).0 disk counter

  abbrev pub reopened : FtpCommand → Handled files.Disk
  reopened pasv = handle files format_date pasv given (transfer body s).0 disk counter

  -- The same behind PASV.
  abbrev pub behind_pasv : FtpCommand → FtpCommand → Handled files.Disk
  behind_pasv pasv command =
      handle files format_date command given (reopened pasv).session (reopened pasv).disk
        (reopened pasv).counter
