-- ===== src/Control/Handler/Gate.antt =====
-- Nothing but USER, PASS, QUIT, NOOP and HELP is done for a session that is not logged in.
use hybrid_ftp_socket.Prelude.{
  ℕ, Bool, true, false, none, ◌≡◌, refl, ◌∙◌, ◌⊎◌, inl, inr, Bool-cases, if◌then◌else◌,
}
use hybrid_ftp_socket.Prelude.Numerals.{Text, is_empty}
use hybrid_ftp_socket.Control.Parser.{FtpCommand}
use hybrid_ftp_socket.Control.Session.{Session, Given}
use hybrid_ftp_socket.Control.Files.{Files}
use hybrid_ftp_socket.Control.Replies.{not_logged_in, syntax_error}
use hybrid_ftp_socket.Control.Handler.Base.{Handled, reply, says, logged_in, no_argument}
use hybrid_ftp_socket.Control.Handler.Directories.{
  pwd_cmd, cwd, cdup_cmd, mkd, rmd, dele, rnfr, rnto,
}
use hybrid_ftp_socket.Control.Handler.Parameters.{type_cmd, mode_cmd, port_cmd, pasv_cmd}
use hybrid_ftp_socket.Control.Handler.Listings.{
  list_dir, nlst, size_cmd, mdtm_cmd, stat_cmd, hash_cmd,
}
use hybrid_ftp_socket.Control.Handler.Transfers.{named_transfer, stou_cmd, abor_cmd}
use hybrid_ftp_socket.Control.Handler.{
  Verb, v_user, v_pass, v_quit, v_noop, v_type, v_mode, v_pwd, v_cwd, v_cdup, v_mkd, v_rmd, v_dele,
  v_rnfr, v_rnto, v_list, v_nlst, v_size, v_mdtm, v_stat, v_port, v_pasv, v_retr, v_stor, v_stou,
  v_appe, v_abor, v_hash, v_help, v_other, verb_of, before, dispatch, handle,
}

-- The commands that a login must precede.
abbrev pub NeedsLogin : Verb → Type 0
NeedsLogin v_user = ⊥
NeedsLogin v_pass = ⊥
NeedsLogin v_quit = ⊥
NeedsLogin v_noop = ⊥
NeedsLogin v_help = ⊥
NeedsLogin v_other = ⊥
NeedsLogin verb = Unit

-- The answer is one of the two refusals, and nothing else has happened.
pub record Denied (Disk : Type 0) (s : Session) (disk : Disk) (counter : ℕ) (h : Handled Disk)
    : Type 0 where
  pub same_session : h.session ≡ s
  pub same_disk : h.disk ≡ disk
  pub same_counter : h.counter ≡ counter
  pub no_start : h.started ≡ none
  pub answer : (h.answer ≡ reply not_logged_in) ⊎ (h.answer ≡ reply syntax_error)

module _ (Disk : Type 0) (s : Session) (disk : Disk) (counter : ℕ) where
  logged_in-Denied :
      (rest : Handled Disk)
      → s.is_logged_in ≡ false
      → Denied Disk s disk counter (logged_in Disk s disk counter rest)
  logged_in-Denied rest e = by_login s.is_logged_in e
    where
      by_login :
          (b : Bool)
          → b ≡ false
          → Denied Disk s disk counter (if b then rest else says Disk s disk counter not_logged_in)
      by_login true e = absurd cc
      by_login false e = record {
        same_session = refl;
        same_disk = refl;
        same_counter = refl;
        no_start = refl;
        answer = inl refl;
      }

  no_argument-Denied :
      (arg : Text) (rest : Handled Disk)
      → Denied Disk s disk counter rest
      → Denied Disk s disk counter (no_argument Disk arg s disk counter syntax_error rest)
  no_argument-Denied arg rest d = elim (Bool-cases (is_empty arg)) [
    | inl t ↦ rw t d
    | inr t ↦ rw t (record {
      same_session = refl;
      same_disk = refl;
      same_counter = refl;
      no_start = refl;
      answer = inr refl;
    })
  ]

module _ (files : Files) (format_date : Text → Text) (given : Given) (s : Session)
    (disk : files.Disk) (counter : ℕ) (out : s.is_logged_in ≡ false) where
  denied :
      (rest : Handled files.Disk)
      → Denied files.Disk s disk counter (logged_in files.Disk s disk counter rest)
  denied rest = logged_in-Denied files.Disk s disk counter rest out

  pub dispatch-Denied :
      (verb : Verb) (arg : Text)
      → NeedsLogin verb
      → Denied files.Disk s disk counter (dispatch files format_date verb arg given s disk counter)
  unfolding dispatch pwd_cmd cwd cdup_cmd mkd rmd dele rnfr rnto type_cmd mode_cmd port_cmd pasv_cmd
      list_dir nlst size_cmd mdtm_cmd stat_cmd hash_cmd named_transfer stou_cmd abor_cmd
  dispatch-Denied v_user arg n = absurd n
  dispatch-Denied v_pass arg n = absurd n
  dispatch-Denied v_quit arg n = absurd n
  dispatch-Denied v_noop arg n = absurd n
  dispatch-Denied v_help arg n = absurd n
  dispatch-Denied v_other arg n = absurd n
  dispatch-Denied v_pwd arg n = no_argument-Denied files.Disk s disk counter arg _ (denied _)
  dispatch-Denied v_cdup arg n = no_argument-Denied files.Disk s disk counter arg _ (denied _)
  dispatch-Denied v_abor arg n = no_argument-Denied files.Disk s disk counter arg _ (denied _)
  dispatch-Denied v_type arg n = denied _
  dispatch-Denied v_mode arg n = denied _
  dispatch-Denied v_cwd arg n = denied _
  dispatch-Denied v_mkd arg n = denied _
  dispatch-Denied v_rmd arg n = denied _
  dispatch-Denied v_dele arg n = denied _
  dispatch-Denied v_rnfr arg n = denied _
  dispatch-Denied v_rnto arg n = denied _
  dispatch-Denied v_list arg n = denied _
  dispatch-Denied v_nlst arg n = denied _
  dispatch-Denied v_size arg n = denied _
  dispatch-Denied v_mdtm arg n = denied _
  dispatch-Denied v_stat arg n = denied _
  dispatch-Denied v_port arg n = denied _
  dispatch-Denied v_pasv arg n = denied _
  dispatch-Denied v_retr arg n = denied _
  dispatch-Denied v_stor arg n = denied _
  dispatch-Denied v_stou arg n = denied _
  dispatch-Denied v_appe arg n = denied _
  dispatch-Denied v_hash arg n = denied _

before_login : (verb : Verb) (s : Session) → (before verb s).is_logged_in ≡ s.is_logged_in
unfolding before
before_login v_rnto s = refl
before_login _ s = refl

-- For a session that is not logged in, every command but USER, PASS, QUIT, NOOP, HELP and an
-- unknown one is answered with 530, or 501 for an argument that it does not take; the disk, the
-- session behind the reset of RNFR and the counter of transfers stay, and no transfer is started.
pub handle-Denied :
    (files : Files) (format_date : Text → Text) (given : Given) (s : Session) (disk : files.Disk)
    (counter : ℕ) (command : FtpCommand)
    → s.is_logged_in ≡ false
    → NeedsLogin (verb_of command.name)
    → Denied files.Disk
        (before (verb_of command.name) s)
        disk
        counter
        (handle files format_date command given s disk counter)
unfolding handle
handle-Denied files format_date given s disk counter command out needs =
    dispatch-Denied files format_date given (before (verb_of command.name) s) disk counter
      (before_login (verb_of command.name) s ∙ out) (verb_of command.name) command.argument needs
