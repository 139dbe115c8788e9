-- ===== src/Control/Handler/Starts.antt =====
-- What every command of server/command_handler.py is made of: replies, exceptions and starts of
-- transfers.
pub mod Started
use hybrid_ftp_socket.Prelude.{
  ℕ, ◌+◌, Bool, true, false, ◌||◌, not, Option, none, some, ◌≡◌, refl, sym, ap, ◌++◌, List, [], ◌∷◌,
  if◌then◌else◌,
}
use hybrid_ftp_socket.Prelude.Text.{codes, strip, upper}
use hybrid_ftp_socket.Prelude.Numerals.{Text, text_eq, is_empty}
use hybrid_ftp_socket.Control.Parser.{FtpCommand}
use hybrid_ftp_socket.Control.Session.{
  Session, Given, Operation, retr, stor, stou, appe, transfer_name,
}
use hybrid_ftp_socket.Control.Files.{Files, Outcome, returned, refused, crashed}
use hybrid_ftp_socket.Control.Replies.{line, crlf, not_logged_in}
use hybrid_ftp_socket.Control.Handler.Base.{
  Handled, Start, reply, says, raises, logged_in, with_argument, no_argument, on_outcome,
  on_outcome_or_raise,
}
use hybrid_ftp_socket.Control.Handler.Login.{user, password_for, password, quit_cmd, noop_cmd}
use hybrid_ftp_socket.Control.Handler.Directories.{
  pwd_cmd, cwd, cdup_cmd, mkd, rmd, dele, rnfr, rename_to, rnto,
}
use hybrid_ftp_socket.Control.Handler.Parameters.{
  type_cmd, mode_cmd, is_bounce, port_address, use_address, port_cmd, pasv_cmd,
}
use hybrid_ftp_socket.Control.Handler.Listings.{
  list_dir, nlst, size_cmd, mdtm_cmd, stat_cmd, hash_cmd, help_cmd,
}
use hybrid_ftp_socket.Control.Handler.Transfers.{
  begin, has_endpoint, transfer_in_progress, start_transfer, named_transfer, stou_cmd, abor_cmd,
}
use hybrid_ftp_socket.Control.Handler.{
  Verb, v_user, v_pass, v_quit, v_noop, v_type, v_mode, v_pwd, v_cwd, v_cdup, v_mkd, v_rmd, v_dele,
  v_rnfr, v_rnto, v_list, v_nlst, v_size, v_mdtm, v_stat, v_port, v_pasv, v_retr, v_stor, v_stou,
  v_appe, v_abor, v_hash, v_help, v_other, verb_of, before, dispatch, handle,
}

-- What holds of a command that only replies.
module _ (files : Files) (P : Handled files.Disk → Type 0)
    (quiet : (s : Session) (disk : files.Disk) (counter : ℕ) (text : Text)
      → P (says files.Disk s disk counter text))
    (loud : (s : Session) (disk : files.Disk) (counter : ℕ)
      → P (raises files.Disk s disk counter)) where
  in_session :
      (s : Session) (disk : files.Disk) (counter : ℕ) (rest : Handled files.Disk)
      → (s.is_logged_in ≡ true → P rest)
      → P (logged_in files.Disk s disk counter rest)
  in_session s disk counter rest k = by_login s.is_logged_in k
    where
      by_login :
          (b : Bool)
          → (b ≡ true → P rest)
          → P (if b then rest else says files.Disk s disk counter not_logged_in)
      by_login true k = k refl
      by_login false k = quiet s disk counter not_logged_in

  argued :
      (arg : Text) (s : Session) (disk : files.Disk) (counter : ℕ) (missing : Text)
      (rest : Handled files.Disk)
      → P rest
      → P (with_argument files.Disk arg s disk counter missing rest)
  argued [] s disk counter missing rest k = quiet s disk counter missing
  argued (c ∷ arg) s disk counter missing rest k = k

  bare :
      (arg : Text) (s : Session) (disk : files.Disk) (counter : ℕ) (syntax : Text)
      (rest : Handled files.Disk)
      → P rest
      → P (no_argument files.Disk arg s disk counter syntax rest)
  bare [] s disk counter syntax rest k = k
  bare (c ∷ arg) s disk counter syntax rest k = quiet s disk counter syntax

  served {ℓ} :
      {A : Type ℓ} (s : Session) (disk : files.Disk) (counter : ℕ) (crash : Text)
      (outcome : Outcome A) (next : A → Handled files.Disk)
      → ((a : A) → P (next a))
      → P (on_outcome files.Disk s disk counter crash outcome next)
  unfolding on_outcome
  served s disk counter crash (returned a) next k = k a
  served s disk counter crash (refused reply_code message) next k = quiet s disk counter _
  served s disk counter crash crashed next k = quiet s disk counter crash

  served_or_raised {ℓ} :
      {A : Type ℓ} (s : Session) (disk : files.Disk) (counter : ℕ) (outcome : Outcome A)
      (next : A → Handled files.Disk)
      → ((a : A) → P (next a))
      → P (on_outcome_or_raise files.Disk s disk counter outcome next)
  unfolding on_outcome_or_raise
  served_or_raised s disk counter (returned a) next k = k a
  served_or_raised s disk counter (refused reply_code message) next k = quiet s disk counter _
  served_or_raised s disk counter crashed next k = loud s disk counter

  either :
      (b : Bool) (first second : Handled files.Disk)
      → P first
      → P second
      → P (if b then first else second)
  either true first second f g = f
  either false first second f g = g

  given_or {ℓ} :
      {A : Type ℓ} (o : Option A) (without : Handled files.Disk) (next : A → Handled files.Disk)
      → P without
      → ((a : A) → P (next a))
      → P (elim o as (λ x. Handled files.Disk) [ none ↦ without | some a ↦ next a ])
  given_or none without next f g = f
  given_or (some a) without next f g = g a

  module _ (format_date : Text → Text) (given : Given) (s : Session) (disk : files.Disk)
      (counter : ℕ)
      (started : (operation : Operation) (argument : Option Text)
        → s.is_logged_in ≡ true
        → P (begin files.Disk operation argument given s disk counter)) where
    password_for-says :
        (username : Option Text) (arg : Text)
        → P (password_for files.Disk username arg s disk counter)
    unfolding password_for
    password_for-says none arg = quiet _ _ _ _
    password_for-says (some name) arg =
        either s.is_logged_in _ _ (quiet _ _ _ _)
          (either (is_empty arg) _ _ (quiet _ _ _ _) (quiet _ _ _ _))

    rename_to-says : (old : Option Text) (arg : Text) → P (rename_to files old arg s disk counter)
    unfolding rename_to
    rename_to-says none arg = quiet _ _ _ _
    rename_to-says (some []) arg = quiet _ _ _ _
    rename_to-says (some (c ∷ old)) arg = served _ _ counter _ _ _ (λ a. quiet _ _ _ _)

    use_address-says :
        (ip : Text) (port : ℕ) → P (use_address files.Disk ip port given s disk counter)
    unfolding use_address
    use_address-says ip port =
        either (is_bounce s.peer_ip ip) _ _ (quiet _ _ _ _)
          (given_or given.bound _ _ (loud _ _ _) (λ a. quiet _ _ _ _))

    named-begin :
        (operation : Operation) (arg : Text)
        → P (named_transfer files.Disk operation arg given s disk counter)
    unfolding named_transfer
    named-begin operation arg =
        in_session s disk counter _
          (λ l. argued arg s disk counter _ _ (started operation (some arg) l))

    -- So it holds of every command, if it holds of the start of a transfer in a session that is
    -- logged in.
    pub dispatch-begin :
        (verb : Verb) (arg : Text) → P (dispatch files format_date verb arg given s disk counter)
    unfolding dispatch user password quit_cmd noop_cmd pwd_cmd cwd cdup_cmd mkd rmd dele rnfr rnto
        type_cmd mode_cmd port_cmd pasv_cmd list_dir nlst size_cmd mdtm_cmd stat_cmd hash_cmd
        help_cmd stou_cmd abor_cmd
    dispatch-begin v_user arg = either (is_empty (strip arg)) _ _ (quiet _ _ _ _) (quiet _ _ _ _)
    dispatch-begin v_pass arg = password_for-says s.username arg
    dispatch-begin v_quit arg = bare arg _ _ _ _ _ (quiet _ _ _ _)
    dispatch-begin v_noop arg = bare arg _ _ _ _ _ (quiet _ _ _ _)
    dispatch-begin v_help arg = quiet _ _ _ _
    dispatch-begin v_other arg = quiet _ _ _ _
    dispatch-begin v_type arg = in_session s disk counter _ (λ l. argued arg s disk counter _ _ (
        either (text_eq (upper arg) (b'A' ∷ [])) _ _ (quiet _ _ _ _)
          (either (text_eq (upper arg) (b'I' ∷ [])) _ _ (quiet _ _ _ _) (quiet _ _ _ _))))
    dispatch-begin v_mode arg = in_session s disk counter _ (λ l. argued arg s disk counter _ _ (
        either (text_eq (upper (strip arg)) (b'S' ∷ [])) _ _ (quiet _ _ _ _) (
          either (text_eq (upper (strip arg)) (b'B' ∷ [])) _ _ (quiet _ _ _ _) (
            either (text_eq (upper (strip arg)) (b'C' ∷ [])) _ _ (quiet _ _ _ _) (quiet _ _ _ _)))))
    dispatch-begin v_pwd arg =
        bare arg s disk counter _ _
          (in_session s disk counter _ (λ l. served_or_raised _ _ _ _ _ (λ a. quiet _ _ _ _)))
    dispatch-begin v_cdup arg =
        bare arg s disk counter _ _
          (in_session s disk counter _ (λ l. served _ _ _ _ _ _ (λ a. quiet _ _ _ _)))
    dispatch-begin v_cwd arg =
        in_session s disk counter _
          (λ l. argued arg s disk counter _ _ (served _ _ _ _ _ _ (λ a. quiet _ _ _ _)))
    dispatch-begin v_mkd arg =
        in_session s disk counter _
          (λ l. argued arg s disk counter _ _ (served _ _ _ _ _ _ (λ a. quiet _ _ _ _)))
    dispatch-begin v_rmd arg =
        in_session s disk counter _
          (λ l. argued arg s disk counter _ _ (served _ _ _ _ _ _ (λ a. quiet _ _ _ _)))
    dispatch-begin v_dele arg =
        in_session s disk counter _
          (λ l. argued arg s disk counter _ _ (served _ _ _ _ _ _ (λ a. quiet _ _ _ _)))
    dispatch-begin v_rnfr arg =
        in_session s disk counter _
          (λ l. argued arg s disk counter _ _ (served _ _ _ _ _ _ (λ a. quiet _ _ _ _)))
    dispatch-begin v_size arg =
        in_session s disk counter _
          (λ l. argued arg s disk counter _ _ (served _ _ _ _ _ _ (λ a. quiet _ _ _ _)))
    dispatch-begin v_mdtm arg =
        in_session s disk counter _
          (λ l. argued arg s disk counter _ _ (served _ _ _ _ _ _ (λ a. quiet _ _ _ _)))
    dispatch-begin v_hash arg =
        in_session s disk counter _
          (λ l. argued arg s disk counter _ _ (served _ _ _ _ _ _ (λ a. quiet _ _ _ _)))
    dispatch-begin v_list arg =
        in_session s disk counter _ (λ l. served _ _ _ _ _ _ (λ a. quiet _ _ _ _))
    dispatch-begin v_nlst arg =
        in_session s disk counter _ (λ l. served _ _ _ _ _ _ (λ a. quiet _ _ _ _))
    dispatch-begin v_stat arg = in_session s disk counter _ (λ l.
        either (is_empty arg) _ _ (quiet _ _ _ _) (served_or_raised _ _ _ _ _ (λ a. quiet _ _ _ _)))
    dispatch-begin v_rnto arg =
        in_session s disk counter _
          (λ l. either (is_empty arg) _ _ (quiet _ _ _ _) (rename_to-says s.rename_from arg))
    dispatch-begin v_port arg = in_session s disk counter _ (λ l. argued arg s disk counter _ _ (
        given_or (port_address arg) _ (λ a. use_address files.Disk a.0 a.1 given s disk counter)
          (quiet _ _ _ _) (λ a. use_address-says a.0 a.1)))
    dispatch-begin v_pasv arg = in_session s disk counter _ (λ l.
        bare arg s disk counter _ _ (given_or given.bound _ _ (quiet _ _ _ _) (λ a. quiet _ _ _ _)))
    dispatch-begin v_retr arg = named-begin retr arg
    dispatch-begin v_stor arg = named-begin stor arg
    dispatch-begin v_appe arg = named-begin appe arg
    dispatch-begin v_stou arg =
        in_session s disk counter _ (λ l. bare arg s disk counter _ _ (started stou none l))
    dispatch-begin v_abor arg =
        bare arg s disk counter _ _ (in_session s disk counter _ (λ l. quiet _ _ _ _))
