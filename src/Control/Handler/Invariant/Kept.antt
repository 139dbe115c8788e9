-- ===== src/Control/Handler/Invariant/Kept.antt =====
-- `handle` keeps the invariant of the session, whatever the command.
use hybrid_ftp_socket.Prelude.{ℕ, none, some, ◌≡◌, refl, [], ◌∷◌}
use hybrid_ftp_socket.Prelude.Text.{strip, upper}
use hybrid_ftp_socket.Prelude.Numerals.{Text, text_eq}
use hybrid_ftp_socket.Control.Parser.{FtpCommand}
use hybrid_ftp_socket.Control.Session.{Session, Given, retr, stor, stou, appe}
use hybrid_ftp_socket.Control.Files.{Files}
use hybrid_ftp_socket.Control.Handler.Login.{password, quit_cmd, noop_cmd}
use hybrid_ftp_socket.Control.Handler.Directories.{
  pwd_cmd, cwd, cdup_cmd, mkd, rmd, dele, rnfr, rnto,
}
use hybrid_ftp_socket.Control.Handler.Parameters.{type_cmd, mode_cmd}
use hybrid_ftp_socket.Control.Handler.Listings.{
  list_dir, nlst, size_cmd, mdtm_cmd, stat_cmd, hash_cmd, help_cmd,
}
use hybrid_ftp_socket.Control.Handler.Transfers.{cancel, named_transfer, stou_cmd, abor_cmd}
use hybrid_ftp_socket.Control.Handler.{
  Verb, v_user, v_pass, v_quit, v_noop, v_type, v_mode, v_pwd, v_cwd, v_cdup, v_mkd, v_rmd, v_dele,
  v_rnfr, v_rnto, v_list, v_nlst, v_size, v_mdtm, v_stat, v_port, v_pasv, v_retr, v_stor, v_stou,
  v_appe, v_abor, v_hash, v_help, v_other, verb_of, before, dispatch, handle,
}
use hybrid_ftp_socket.Control.Handler.Keeps.{
  logged_in_keeps, with_argument_keeps, no_argument_keeps, on_outcome_keeps,
  on_outcome_or_raise_keeps,
}
use hybrid_ftp_socket.Control.Handler.Invariant.{IsValid}
use hybrid_ftp_socket.Control.Handler.Invariant.Commands.{
  forgotten, renamed, moved, user-IsValid, password-IsValid, type_choice-IsValid,
  mode_choice-IsValid, port_cmd-IsValid, pasv_cmd-IsValid, rename_to-IsValid, begin-IsValid,
}

module _ (files : Files) (format_date : Text → Text) (given : Given) (s : Session)
    (disk : files.Disk) (counter : ℕ) (v : IsValid files s) where
  rnto-IsValid : (arg : Text) → IsValid files (rnto files arg s disk counter).session
  unfolding rnto
  rnto-IsValid [] =
      logged_in_keeps files (IsValid files) s disk counter _ v (λ l. forgotten files s v)
  rnto-IsValid (c ∷ arg) =
      logged_in_keeps files (IsValid files) s disk counter _ v
        (λ l. rename_to-IsValid files s.rename_from (c ∷ arg) s disk counter v)

  rnfr-IsValid : (arg : Text) → IsValid files (rnfr files arg s disk counter).session
  unfolding rnfr
  rnfr-IsValid [] = logged_in_keeps files (IsValid files) s disk counter _ v (λ l. v)
  rnfr-IsValid (c ∷ arg) = logged_in_keeps files (IsValid files) s disk counter _ v (λ l.
      on_outcome_keeps files (IsValid files) _ disk counter _ _ _ (forgotten files s v)
        (λ a e. renamed files s c arg l v))

  stat_cmd-IsValid : (arg : Text) → IsValid files (stat_cmd files arg s disk counter).session
  unfolding stat_cmd
  stat_cmd-IsValid [] = logged_in_keeps files (IsValid files) s disk counter _ v (λ l. v)
  stat_cmd-IsValid (c ∷ arg) =
      logged_in_keeps files (IsValid files) s disk counter _ v
        (λ l. on_outcome_or_raise_keeps files (IsValid files) s disk counter _ _ v (λ a. v))

  cancel-IsValid : IsValid files (cancel s)
  unfolding cancel
  cancel-IsValid = record {
    user = v.user;
    renaming = v.renaming;
    mode = v.mode;
    type = v.type;
    inside = v.inside;
    endpoint = v.endpoint;
  }

  dispatch-IsValid :
      (verb : Verb) (arg : Text)
      → (verb ≡ v_pass → s.rename_from ≡ none)
      → IsValid files (dispatch files format_date verb arg given s disk counter).session
  unfolding dispatch password quit_cmd noop_cmd pwd_cmd cwd cdup_cmd mkd rmd dele rnfr type_cmd
      mode_cmd list_dir nlst size_cmd mdtm_cmd hash_cmd help_cmd named_transfer stou_cmd abor_cmd
  dispatch-IsValid v_user arg r = user-IsValid files arg s disk counter v
  dispatch-IsValid v_pass arg r =
      password-IsValid files s.username arg s disk counter refl (r refl) v
  dispatch-IsValid v_quit arg r =
      no_argument_keeps files (IsValid files) arg s disk counter _ _ v (forgotten files s v)
  dispatch-IsValid v_noop arg r = no_argument_keeps files (IsValid files) arg s disk counter _ _ v v
  dispatch-IsValid v_type arg r = logged_in_keeps files (IsValid files) s disk counter _ v (λ l.
      with_argument_keeps files (IsValid files) arg s disk counter _ _ v (
        type_choice-IsValid files (text_eq (upper arg) (b'A' ∷ []))
          (text_eq (upper arg) (b'I' ∷ [])) s disk counter _ _ _ v))
  dispatch-IsValid v_mode arg r = logged_in_keeps files (IsValid files) s disk counter _ v (λ l.
      with_argument_keeps files (IsValid files) arg s disk counter _ _ v (
        mode_choice-IsValid files (text_eq (upper (strip arg)) (b'S' ∷ []))
          (text_eq (upper (strip arg)) (b'B' ∷ [])) (text_eq (upper (strip arg)) (b'C' ∷ [])) s disk
          counter _ _ _ _ v))
  dispatch-IsValid v_pwd arg r = no_argument_keeps files (IsValid files) arg s disk counter _ _ v (
      logged_in_keeps files (IsValid files) s disk counter _ v
        (λ l. on_outcome_or_raise_keeps files (IsValid files) s disk counter _ _ v (λ a. v)))
  dispatch-IsValid v_cwd arg r = logged_in_keeps files (IsValid files) s disk counter _ v (λ l.
      with_argument_keeps files (IsValid files) arg s disk counter _ _ v (
        on_outcome_keeps files (IsValid files) s disk counter _ _ _ v (λ path e.
          moved files s path (files.change_directory-IsInside disk s.current_dir arg path e) v)))
  dispatch-IsValid v_cdup arg r = no_argument_keeps files (IsValid files) arg s disk counter _ _ v (
      logged_in_keeps files (IsValid files) s disk counter _ v (λ l.
        on_outcome_keeps files (IsValid files) s disk counter _ _ _ v (λ path e.
          moved files s path (files.parent_directory-IsInside disk s.current_dir path e) v)))
  dispatch-IsValid v_mkd arg r = logged_in_keeps files (IsValid files) s disk counter _ v (λ l.
      with_argument_keeps files (IsValid files) arg s disk counter _ _ v
        (on_outcome_keeps files (IsValid files) s _ counter _ _ _ v (λ a e. v)))
  dispatch-IsValid v_rmd arg r = logged_in_keeps files (IsValid files) s disk counter _ v (λ l.
      with_argument_keeps files (IsValid files) arg s disk counter _ _ v
        (on_outcome_keeps files (IsValid files) s _ counter _ _ _ v (λ a e. v)))
  dispatch-IsValid v_dele arg r = logged_in_keeps files (IsValid files) s disk counter _ v (λ l.
      with_argument_keeps files (IsValid files) arg s disk counter _ _ v
        (on_outcome_keeps files (IsValid files) s _ counter _ _ _ v (λ a e. v)))
  dispatch-IsValid v_rnfr arg r = rnfr-IsValid arg
  dispatch-IsValid v_rnto arg r = rnto-IsValid arg
  dispatch-IsValid v_list arg r =
      logged_in_keeps files (IsValid files) s disk counter _ v
        (λ l. on_outcome_keeps files (IsValid files) s disk counter _ _ _ v (λ a e. v))
  dispatch-IsValid v_nlst arg r =
      logged_in_keeps files (IsValid files) s disk counter _ v
        (λ l. on_outcome_keeps files (IsValid files) s disk counter _ _ _ v (λ a e. v))
  dispatch-IsValid v_size arg r = logged_in_keeps files (IsValid files) s disk counter _ v (λ l.
      with_argument_keeps files (IsValid files) arg s disk counter _ _ v
        (on_outcome_keeps files (IsValid files) s disk counter _ _ _ v (λ a e. v)))
  dispatch-IsValid v_mdtm arg r = logged_in_keeps files (IsValid files) s disk counter _ v (λ l.
      with_argument_keeps files (IsValid files) arg s disk counter _ _ v
        (on_outcome_keeps files (IsValid files) s disk counter _ _ _ v (λ a e. v)))
  dispatch-IsValid v_stat arg r = stat_cmd-IsValid arg
  dispatch-IsValid v_port arg r = port_cmd-IsValid files arg given s disk counter v
  dispatch-IsValid v_pasv arg r = pasv_cmd-IsValid files arg given s disk counter v
  dispatch-IsValid v_retr arg r = logged_in_keeps files (IsValid files) s disk counter _ v (λ l.
      with_argument_keeps files (IsValid files) arg s disk counter _ _ v
        (begin-IsValid files retr (some arg) given s disk counter v))
  dispatch-IsValid v_stor arg r = logged_in_keeps files (IsValid files) s disk counter _ v (λ l.
      with_argument_keeps files (IsValid files) arg s disk counter _ _ v
        (begin-IsValid files stor (some arg) given s disk counter v))
  dispatch-IsValid v_stou arg r = logged_in_keeps files (IsValid files) s disk counter _ v (λ l.
      no_argument_keeps files (IsValid files) arg s disk counter _ _ v
        (begin-IsValid files stou none given s disk counter v))
  dispatch-IsValid v_appe arg r = logged_in_keeps files (IsValid files) s disk counter _ v (λ l.
      with_argument_keeps files (IsValid files) arg s disk counter _ _ v
        (begin-IsValid files appe (some arg) given s disk counter v))
  dispatch-IsValid v_abor arg r =
      no_argument_keeps files (IsValid files) arg s disk counter _ _ v
        (logged_in_keeps files (IsValid files) s disk counter _ v (λ l. cancel-IsValid))
  dispatch-IsValid v_hash arg r = logged_in_keeps files (IsValid files) s disk counter _ v (λ l.
      with_argument_keeps files (IsValid files) arg s disk counter _ _ v
        (on_outcome_keeps files (IsValid files) s disk counter _ _ _ v (λ a e. v)))
  dispatch-IsValid v_help arg r = v
  dispatch-IsValid v_other arg r = v

module _ (files : Files) (format_date : Text → Text) where
  before-IsValid : (verb : Verb) (s : Session) → IsValid files s → IsValid files (before verb s)
  unfolding before
  before-IsValid v_rnto s v = v
  before-IsValid _ s v = forgotten files s v

  before_pass : (verb : Verb) (s : Session) → verb ≡ v_pass → (before verb s).rename_from ≡ none
  unfolding before
  before_pass v_rnto s e = absurd cc
  before_pass _ s e = refl

  -- Every command, whatever it is answered, leaves a session that satisfies the invariant from one
  -- that does: its directory is one that the filesystem service has handed out, a name for RNTO
  -- belongs to a user who is logged in, and an active data connection leads to the address of the
  -- peer or to the server's own machine, unless the peer is local or has no known address.
  pub handle-IsValid :
      (command : FtpCommand) (given : Given) (s : Session) (disk : files.Disk) (counter : ℕ)
      → IsValid files s
      → IsValid files (handle files format_date command given s disk counter).session
  unfolding handle
  handle-IsValid command given s disk counter v =
      dispatch-IsValid files format_date given (before (verb_of command.name) s) disk counter
        (before-IsValid (verb_of command.name) s v) (verb_of command.name) command.argument
        (before_pass (verb_of command.name) s)
