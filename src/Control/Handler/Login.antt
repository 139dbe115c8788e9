-- ===== src/Control/Handler/Login.antt =====
-- USER, PASS, QUIT and NOOP.
use hybrid_ftp_socket.Prelude.{ℕ, true, false, Option, none, some, if◌then◌else◌}
use hybrid_ftp_socket.Prelude.Text.{strip}
use hybrid_ftp_socket.Prelude.Numerals.{Text, is_empty}
use hybrid_ftp_socket.Control.Session.{Session}
use hybrid_ftp_socket.Control.Replies.{line, user_ok, login_ok, quit_reply, syntax_error}
use hybrid_ftp_socket.Control.Handler.Base.{Handled, says, no_argument}

module _ (Disk : Type 0) where
  unfoldable pub user : Text → Session → Disk → ℕ → Handled Disk
  unfolding strip
  user arg s disk counter =
      if is_empty (strip arg)
      then says Disk s disk counter (line "501 Invalid username")
      else says Disk
          (record s { username = some (strip arg); is_logged_in = false; rename_from = none }) disk
          counter user_ok

  -- PASS, by whether USER has named somebody.
  unfoldable pub password_for : Option Text → Text → Session → Disk → ℕ → Handled Disk
  password_for none arg s disk counter = says Disk s disk counter (line "503 Login with USER first")
  password_for (some name) arg s disk counter =
      if s.is_logged_in
      then says Disk s disk counter (line "230 Already logged in")
      else if is_empty arg
      then says Disk (record s { is_logged_in = false; username = none }) disk counter
          (line "530 Login incorrect")
      else says Disk (record s { is_logged_in = true }) disk counter login_ok

  unfoldable pub password : Text → Session → Disk → ℕ → Handled Disk
  password arg s disk counter = password_for s.username arg s disk counter

  unfoldable pub quit_cmd : Text → Session → Disk → ℕ → Handled Disk
  quit_cmd arg s disk counter =
      no_argument Disk arg s disk counter syntax_error
        (says Disk (record s { rename_from = none }) disk counter quit_reply)

  unfoldable pub noop_cmd : Text → Session → Disk → ℕ → Handled Disk
  noop_cmd arg s disk counter =
      no_argument Disk arg s disk counter syntax_error
        (says Disk s disk counter (line "200 NOOP OK"))
