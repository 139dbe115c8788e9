-- ===== src/Control/Handler/Disk/Commands.antt =====
-- What each command of server/command_handler.py can do to the disk.
use hybrid_ftp_socket.Prelude.{ℕ, Option, none, some, ◌≡◌, sym, subst, arith, not, [], ◌∷◌}
use hybrid_ftp_socket.Prelude.Text.{strip}
use hybrid_ftp_socket.Prelude.Numerals.{Text, is_empty}
use hybrid_ftp_socket.Control.Parser.{FtpCommand}
use hybrid_ftp_socket.Control.Session.{Session, Given, Operation, retr, stor, stou, appe}
use hybrid_ftp_socket.Control.Files.{Files}
use hybrid_ftp_socket.Control.Handler.Base.{Handled, logged_in, with_argument}
use hybrid_ftp_socket.Control.Handler.Login.{user, password_for, password, quit_cmd, noop_cmd}
use hybrid_ftp_socket.Control.Handler.Directories.{
  pwd_cmd, cwd, cdup_cmd, mkd, rmd, dele, rnfr, rename_to, rnto,
}
use hybrid_ftp_socket.Control.Handler.Parameters.{
  type_cmd, mode_cmd, is_bounce, port_address, use_address, port_cmd, pasv_cmd,
}
use hybrid_ftp_socket.Control.Handler.Listings.{
  list_dir, nlst, size_cmd, mdtm_cmd, stat_cmd, hash_cmd, help_cmd,
}
use hybrid_ftp_socket.Control.Handler.Transfers.{
  begin, has_endpoint, transfer_in_progress, start_transfer, named_transfer, stou_cmd, abor_cmd,
}
use hybrid_ftp_socket.Control.Handler.{
  Verb, v_user, v_pass, v_quit, v_noop, v_type, v_mode, v_pwd, v_cwd, v_cdup, v_mkd, v_rmd, v_dele,
  v_rnfr, v_rnto, v_list, v_nlst, v_size, v_mdtm, v_stat, v_port, v_pasv, v_retr, v_stor, v_stou,
  v_appe, v_abor, v_hash, v_help, v_other, verb_of, before, dispatch, handle,
}
use hybrid_ftp_socket.Control.Handler.Disk.{
  IsOpen, logged_in-disk, with_argument-disk, no_argument-disk, on_outcome-disk,
  on_outcome_or_raise-disk, choice, choice_of,
}

type_cmd_disk :
    (Disk : Type 0) (arg : Text) (s : Session) (disk : Disk) (counter : ℕ)
    → (type_cmd Disk arg s disk counter).disk ≡ disk
unfolding type_cmd
type_cmd_disk Disk arg s disk counter = ground arith

mode_cmd_disk :
    (Disk : Type 0) (arg : Text) (s : Session) (disk : Disk) (counter : ℕ)
    → (mode_cmd Disk arg s disk counter).disk ≡ disk
unfolding mode_cmd
mode_cmd_disk Disk arg s disk counter = ground arith

module _ (files : Files) (format_date : Text → Text) (P : files.Disk → Type 0) (given : Given)
    (disk : files.Disk) (counter : ℕ) (v : IsOpen files P disk) where
  password_for-disk :
      (username : Option Text) (arg : Text) (s : Session)
      → P (password_for files.Disk username arg s disk counter).disk
  unfolding password_for
  password_for-disk none arg s = v.same
  password_for-disk (some name) arg s =
      choice files P s.is_logged_in _ _ v.same (choice files P (is_empty arg) _ _ v.same v.same)

  rename_to-disk :
      (old : Option Text) (arg : Text) (s : Session)
      → P (rename_to files old arg s disk counter).disk
  unfolding rename_to
  rename_to-disk none arg s = v.same
  rename_to-disk (some []) arg s = v.same
  rename_to-disk (some (c ∷ old)) arg s =
      let moved = v.moved s.current_dir (c ∷ old) arg in
      on_outcome-disk files P _ _ counter _ _ _ moved (λ unit. moved)

  use_address-disk :
      (ip : Text) (port : ℕ) (s : Session)
      → P (use_address files.Disk ip port given s disk counter).disk
  unfolding use_address
  use_address-disk ip port s =
      choice files P (is_bounce s.peer_ip ip) _ _ v.same
        (choice_of files P given.bound _ _ v.same (λ server_port. v.same))

  begin-disk :
      (operation : Operation) (argument : Option Text) (s : Session)
      → P (begin files.Disk operation argument given s disk counter).disk
  unfolding begin start_transfer
  begin-disk operation argument s =
      choice files P (not (has_endpoint s)) _ _ v.same
        (choice files P (transfer_in_progress given s) _ _ v.same v.same)

  named-disk :
      (arg : Text) (s : Session) (missing : Text) (rest : Handled files.Disk)
      → P rest.disk
      → P
          (logged_in files.Disk s disk counter
            (with_argument files.Disk arg s disk counter missing rest)).disk
  named-disk arg s missing rest k =
      logged_in-disk files P s disk counter _ v.same
        (with_argument-disk files P arg s disk counter missing rest v.same k)

  dispatch-disk :
      (verb : Verb) (arg : Text) (s : Session)
      → P (dispatch files format_date verb arg given s disk counter).disk
  unfolding dispatch user password quit_cmd noop_cmd pwd_cmd cwd cdup_cmd mkd rmd dele rnfr rnto
      type_cmd mode_cmd port_cmd pasv_cmd list_dir nlst size_cmd mdtm_cmd stat_cmd hash_cmd help_cmd
      named_transfer stou_cmd abor_cmd
  dispatch-disk v_user arg s = choice files P (is_empty (strip arg)) _ _ v.same v.same
  dispatch-disk v_pass arg s = password_for-disk s.username arg s
  dispatch-disk v_quit arg s = no_argument-disk files P arg _ disk counter _ _ v.same v.same
  dispatch-disk v_noop arg s = no_argument-disk files P arg _ disk counter _ _ v.same v.same
  dispatch-disk v_help arg s = v.same
  dispatch-disk v_other arg s = v.same
  dispatch-disk v_type arg s = subst P (sym (type_cmd_disk files.Disk arg s disk counter)) v.same
  dispatch-disk v_mode arg s = subst P (sym (mode_cmd_disk files.Disk arg s disk counter)) v.same
  dispatch-disk v_pwd arg s = no_argument-disk files P arg s disk counter _ _ v.same (
      logged_in-disk files P s disk counter _ v.same
        (on_outcome_or_raise-disk files P _ disk counter _ _ v.same (λ a. v.same)))
  dispatch-disk v_cdup arg s = no_argument-disk files P arg s disk counter _ _ v.same (
      logged_in-disk files P s disk counter _ v.same
        (on_outcome-disk files P _ disk counter _ _ _ v.same (λ a. v.same)))
  dispatch-disk v_cwd arg s =
      named-disk arg s _ _ (on_outcome-disk files P _ disk counter _ _ _ v.same (λ a. v.same))
  dispatch-disk v_rnfr arg s =
      named-disk arg s _ _ (on_outcome-disk files P _ disk counter _ _ _ v.same (λ a. v.same))
  dispatch-disk v_size arg s =
      named-disk arg s _ _ (on_outcome-disk files P _ disk counter _ _ _ v.same (λ a. v.same))
  dispatch-disk v_mdtm arg s =
      named-disk arg s _ _ (on_outcome-disk files P _ disk counter _ _ _ v.same (λ a. v.same))
  dispatch-disk v_hash arg s =
      named-disk arg s _ _ (on_outcome-disk files P _ disk counter _ _ _ v.same (λ a. v.same))
  dispatch-disk v_list arg s =
      logged_in-disk files P s disk counter _ v.same
        (on_outcome-disk files P _ disk counter _ _ _ v.same (λ a. v.same))
  dispatch-disk v_nlst arg s =
      logged_in-disk files P s disk counter _ v.same
        (on_outcome-disk files P _ disk counter _ _ _ v.same (λ a. v.same))
  dispatch-disk v_stat arg s = logged_in-disk files P s disk counter _ v.same (
      choice files P (is_empty arg) _ _ v.same
        (on_outcome_or_raise-disk files P _ disk counter _ _ v.same (λ a. v.same)))
  dispatch-disk v_mkd arg s =
      let made = v.made s.current_dir arg in
      named-disk arg s _ _ (on_outcome-disk files P _ _ counter _ _ _ made (λ a. made))
  dispatch-disk v_rmd arg s =
      let emptied = v.emptied s.current_dir arg in
      named-disk arg s _ _ (on_outcome-disk files P _ _ counter _ _ _ emptied (λ a. emptied))
  dispatch-disk v_dele arg s =
      let deleted = v.deleted s.current_dir arg in
      named-disk arg s _ _ (on_outcome-disk files P _ _ counter _ _ _ deleted (λ a. deleted))
  dispatch-disk v_rnto arg s =
      logged_in-disk files P s disk counter _ v.same
        (choice files P (is_empty arg) _ _ v.same (rename_to-disk s.rename_from arg s))
  dispatch-disk v_port arg s = named-disk arg s _ _ (
      choice_of files P (port_address arg) _
        (λ a. use_address files.Disk a.0 a.1 given s disk counter) v.same
        (λ a. use_address-disk a.0 a.1 s))
  dispatch-disk v_pasv arg s = logged_in-disk files P s disk counter _ v.same (
      no_argument-disk files P arg s disk counter _ _ v.same
        (choice_of files P given.bound _ _ v.same (λ port. v.same)))
  dispatch-disk v_retr arg s = named-disk arg s _ _ (begin-disk retr (some arg) s)
  dispatch-disk v_stor arg s = named-disk arg s _ _ (begin-disk stor (some arg) s)
  dispatch-disk v_appe arg s = named-disk arg s _ _ (begin-disk appe (some arg) s)
  dispatch-disk v_stou arg s =
      logged_in-disk files P s disk counter _ v.same
        (no_argument-disk files P arg s disk counter _ _ v.same (begin-disk stou none s))
  dispatch-disk v_abor arg s =
      no_argument-disk files P arg s disk counter _ _ v.same
        (logged_in-disk files P s disk counter _ v.same v.same)

  -- The disk behind a command is the one before it, or what one of the four operations leaves.
  pub handle-disk :
      (command : FtpCommand) (s : Session)
      → P (handle files format_date command given s disk counter).disk
  unfolding handle
  handle-disk command s =
      dispatch-disk (verb_of command.name) command.argument (before (verb_of command.name) s)
