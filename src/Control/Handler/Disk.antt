-- ===== src/Control/Handler/Disk.antt =====
-- What a command can do to the disk: nothing, or one of four operations of the service.
pub mod Commands
use hybrid_ftp_socket.Prelude.{
  ℕ, Bool, true, false, Option, none, some, ◌≡◌, sym, subst, arith, not, [], ◌∷◌, if◌then◌else◌,
}
use hybrid_ftp_socket.Prelude.Text.{strip}
use hybrid_ftp_socket.Prelude.Numerals.{Text, is_empty}
use hybrid_ftp_socket.Control.Parser.{FtpCommand}
use hybrid_ftp_socket.Control.Session.{Session, Given, Operation, retr, stor, stou, appe}
use hybrid_ftp_socket.Control.Files.{Files, Outcome, returned, refused, crashed}
use hybrid_ftp_socket.Control.Replies.{not_logged_in}
use hybrid_ftp_socket.Control.Handler.Base.{
  Handled, says, logged_in, with_argument, no_argument, on_outcome, on_outcome_or_raise,
}
use hybrid_ftp_socket.Control.Handler.Login.{user, password_for, password, quit_cmd, noop_cmd}
use hybrid_ftp_socket.Control.Handler.Directories.{
  pwd_cmd, cwd, cdup_cmd, mkd, rmd, dele, rnfr, rename_to, rnto,
}
use hybrid_ftp_socket.Control.Handler.Parameters.{
  type_cmd, mode_cmd, is_bounce, port_address, use_address, port_cmd, pasv_cmd,
}
use hybrid_ftp_socket.Control.Handler.Listings.{
  list_dir, nlst, size_cmd, mdtm_cmd, stat_cmd, hash_cmd, help_cmd,
}
use hybrid_ftp_socket.Control.Handler.Transfers.{
  begin, has_endpoint, transfer_in_progress, start_transfer, named_transfer, stou_cmd, abor_cmd,
}
use hybrid_ftp_socket.Control.Handler.{
  Verb, v_user, v_pass, v_quit, v_noop, v_type, v_mode, v_pwd, v_cwd, v_cdup, v_mkd, v_rmd, v_dele,
  v_rnfr, v_rnto, v_list, v_nlst, v_size, v_mdtm, v_stat, v_port, v_pasv, v_retr, v_stor, v_stou,
  v_appe, v_abor, v_hash, v_help, v_other, verb_of, before, dispatch, handle,
}

-- What holds of the disk, and of the disk behind every operation that changes it.
pub record IsOpen (files : Files) (P : files.Disk → Type 0) (disk : files.Disk) : Type 0 where
  pub same : P disk
  pub made : (cwd path : Text) → P (files.make_directory disk cwd path).0
  pub emptied : (cwd path : Text) → P (files.remove_directory disk cwd path).0
  pub deleted : (cwd path : Text) → P (files.delete disk cwd path).0
  pub moved : (cwd old new : Text) → P (files.rename disk cwd old new).0

module _ (files : Files) (P : files.Disk → Type 0) where
  pub logged_in-disk :
      (s : Session) (disk : files.Disk) (counter : ℕ) (rest : Handled files.Disk)
      → P disk
      → P rest.disk
      → P (logged_in files.Disk s disk counter rest).disk
  logged_in-disk s disk counter rest v k = by_login s.is_logged_in
    where
      by_login :
          (b : Bool) → P (if b then rest else says files.Disk s disk counter not_logged_in).disk
      by_login true = k
      by_login false = v

  pub with_argument-disk :
      (arg : Text) (s : Session) (disk : files.Disk) (counter : ℕ) (missing : Text)
      (rest : Handled files.Disk)
      → P disk
      → P rest.disk
      → P (with_argument files.Disk arg s disk counter missing rest).disk
  with_argument-disk [] s disk counter missing rest v k = v
  with_argument-disk (c ∷ arg) s disk counter missing rest v k = k

  pub no_argument-disk :
      (arg : Text) (s : Session) (disk : files.Disk) (counter : ℕ) (syntax : Text)
      (rest : Handled files.Disk)
      → P disk
      → P rest.disk
      → P (no_argument files.Disk arg s disk counter syntax rest).disk
  no_argument-disk [] s disk counter syntax rest v k = k
  no_argument-disk (c ∷ arg) s disk counter syntax rest v k = v

  pub on_outcome-disk {ℓ} :
      {A : Type ℓ} (s : Session) (disk : files.Disk) (counter : ℕ) (crash : Text)
      (outcome : Outcome A) (next : A → Handled files.Disk)
      → P disk
      → ((a : A) → P (next a).disk)
      → P (on_outcome files.Disk s disk counter crash outcome next).disk
  unfolding on_outcome
  on_outcome-disk s disk counter crash (returned a) next v k = k a
  on_outcome-disk s disk counter crash (refused reply_code message) next v k = v
  on_outcome-disk s disk counter crash crashed next v k = v

  pub on_outcome_or_raise-disk {ℓ} :
      {A : Type ℓ} (s : Session) (disk : files.Disk) (counter : ℕ) (outcome : Outcome A)
      (next : A → Handled files.Disk)
      → P disk
      → ((a : A) → P (next a).disk)
      → P (on_outcome_or_raise files.Disk s disk counter outcome next).disk
  unfolding on_outcome_or_raise
  on_outcome_or_raise-disk s disk counter (returned a) next v k = k a
  on_outcome_or_raise-disk s disk counter (refused reply_code message) next v k = v
  on_outcome_or_raise-disk s disk counter crashed next v k = v

  pub choice :
      (b : Bool) (first second : Handled files.Disk)
      → P first.disk
      → P second.disk
      → P (if b then first else second).disk
  choice true first second f g = f
  choice false first second f g = g

  pub choice_of {ℓ} :
      {A : Type ℓ} (o : Option A) (without : Handled files.Disk) (next : A → Handled files.Disk)
      → P without.disk
      → ((a : A) → P (next a).disk)
      → P (elim o as (λ x. Handled files.Disk) [ none ↦ without | some a ↦ next a ]).disk
  choice_of none without next f g = f
  choice_of (some a) without next f g = g a
