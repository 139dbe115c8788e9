-- ===== src/Control/Handler/Base.antt =====
-- What every handler of server/command_handler.py gives back.
use hybrid_ftp_socket.Prelude.{ℕ, Option, none, if◌then◌else◌}
use hybrid_ftp_socket.Prelude.Numerals.{Text, is_empty}
use hybrid_ftp_socket.Control.Session.{Session, Operation}
use hybrid_ftp_socket.Control.Files.{Outcome, returned, refused, crashed}
use hybrid_ftp_socket.Control.Replies.{error_line, not_logged_in}

-- A handler returns the reply, or lets an exception through to `ClientHandler.run`.
pub data Answer : Type 0 where
  reply : Text → Answer
  raised : Answer

-- A transfer that a worker's thread starts, with the arguments of `action_func`.
pub record Start : Type 0 where
  pub operation : Operation
  pub argument : Option Text
  pub transfer_id : Text

-- The session and the disk behind a command, the class's counter of transfers, the answer, and the
-- thread that it starts.
pub record Handled (Disk : Type 0) : Type 0 where
  pub session : Session
  pub disk : Disk
  pub counter : ℕ
  pub answer : Answer
  pub started : Option Start

module _ (Disk : Type 0) where
  -- Nothing but the session changes.
  abbrev pub says : Session → Disk → ℕ → Text → Handled Disk
  says s disk counter text = record {
    session = s;
    disk = disk;
    counter = counter;
    answer = reply text;
    started = none;
  }

  abbrev pub raises : Session → Disk → ℕ → Handled Disk
  raises s disk counter = record {
    session = s;
    disk = disk;
    counter = counter;
    answer = raised;
    started = none;
  }

  -- `if not session.is_logged_in: return "530 Not logged in\r\n"`
  abbrev pub logged_in : Session → Disk → ℕ → Handled Disk → Handled Disk
  logged_in s disk counter rest = if s.is_logged_in then rest else says s disk counter not_logged_in

  -- `if not arg: return ...`
  abbrev pub with_argument : Text → Session → Disk → ℕ → Text → Handled Disk → Handled Disk
  with_argument arg s disk counter missing rest =
      if is_empty arg then says s disk counter missing else rest

  -- `if arg: return "501 Syntax error in parameters\r\n"`
  abbrev pub no_argument : Text → Session → Disk → ℕ → Text → Handled Disk → Handled Disk
  no_argument arg s disk counter syntax rest =
      if is_empty arg then rest else says s disk counter syntax

  -- The `except` clauses behind a call of the filesystem service: an error of its own is the reply,
  -- any other is the reply `crash`.
  unfoldable pub on_outcome {ℓ} :
      {A : Type ℓ} → Session → Disk → ℕ → Text → Outcome A → (A → Handled Disk) → Handled Disk
  on_outcome s disk counter crash (returned a) next = next a
  on_outcome s disk counter crash (refused reply_code message) next =
      says s disk counter (error_line reply_code message)
  on_outcome s disk counter crash crashed next = says s disk counter crash

  -- The same where the handler catches no other exception.
  unfoldable pub on_outcome_or_raise {ℓ} :
      {A : Type ℓ} → Session → Disk → ℕ → Outcome A → (A → Handled Disk) → Handled Disk
  on_outcome_or_raise s disk counter (returned a) next = next a
  on_outcome_or_raise s disk counter (refused reply_code message) next =
      says s disk counter (error_line reply_code message)
  on_outcome_or_raise s disk counter crashed next = raises s disk counter
