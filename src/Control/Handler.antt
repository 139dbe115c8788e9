-- ===== src/Control/Handler.antt =====
-- server/command_handler.py: the commands, and `CommandHandler.handle`. Its transfer manager is
-- always there, as `ClientHandler` makes it.
pub mod Base
pub mod Login
pub mod Directories
pub mod Parameters
pub mod Listings
pub mod Transfers
pub mod Gate
pub mod Keeps
pub mod Invariant
pub mod Rename
pub mod Disk
pub mod Starts
use hybrid_ftp_socket.Prelude.{
  ℕ, Bool, true, false, Option, none, some, String, List, [], ◌∷◌, if◌then◌else◌,
}
use hybrid_ftp_socket.Prelude.Text.{codes}
use hybrid_ftp_socket.Prelude.Numerals.{Text, text_eq}
use hybrid_ftp_socket.Control.Parser.{FtpCommand}
use hybrid_ftp_socket.Control.Session.{Session, Given}
use hybrid_ftp_socket.Control.Files.{Files}
use hybrid_ftp_socket.Control.Replies.{not_implemented}
use Base.{Handled, says}
use Login.{user, password, quit_cmd, noop_cmd}
use Directories.{pwd_cmd, cwd, cdup_cmd, mkd, rmd, dele, rnfr, rnto}
use Parameters.{type_cmd, mode_cmd, port_cmd, pasv_cmd}
use Listings.{list_dir, nlst, size_cmd, mdtm_cmd, stat_cmd, hash_cmd, help_cmd}
use Transfers.{retr_cmd, stor_cmd, appe_cmd, stou_cmd, abor_cmd}

-- The names that `handle` compares the command with.
pub data Verb : Type 0 where
  v_user v_pass v_quit v_noop v_type v_mode v_pwd v_cwd v_cdup v_mkd v_rmd v_dele v_rnfr v_rnto :
      Verb
  v_list v_nlst v_size v_mdtm v_stat v_port v_pasv v_retr v_stor v_stou v_appe v_abor v_hash : Verb
  v_help v_other : Verb

abbrev pub verbs : List (String × Verb)
verbs =
    ("USER", v_user)
    ∷ ("PASS", v_pass)
    ∷ ("QUIT", v_quit)
    ∷ ("NOOP", v_noop)
    ∷ ("TYPE", v_type)
    ∷ ("MODE", v_mode)
    ∷ ("PWD", v_pwd)
    ∷ ("CWD", v_cwd)
    ∷ ("CDUP", v_cdup)
    ∷ ("MKD", v_mkd)
    ∷ ("RMD", v_rmd)
    ∷ ("DELE", v_dele)
    ∷ ("RNFR", v_rnfr)
    ∷ ("RNTO", v_rnto)
    ∷ ("LIST", v_list)
    ∷ ("NLST", v_nlst)
    ∷ ("SIZE", v_size)
    ∷ ("MDTM", v_mdtm)
    ∷ ("STAT", v_stat)
    ∷ ("PORT", v_port)
    ∷ ("PASV", v_pasv)
    ∷ ("RETR", v_retr)
    ∷ ("STOR", v_stor)
    ∷ ("STOU", v_stou)
    ∷ ("APPE", v_appe)
    ∷ ("ABOR", v_abor)
    ∷ ("HASH", v_hash)
    ∷ ("HELP", v_help)
    ∷ []

unfoldable pub verb_in : List (String × Verb) → Text → Verb
verb_in [] cmd = v_other
verb_in ((name, verb) ∷ rest) cmd = if text_eq cmd (codes name) then verb else verb_in rest cmd

abbrev pub verb_of : Text → Verb
verb_of = verb_in verbs

-- `if session.rename_from is not None and cmd != "RNTO": session.rename_from = None`
unfoldable pub before : Verb → Session → Session
before v_rnto s = s
before verb s = record s { rename_from = none }

module _ (files : Files) (format_date : Text → Text) where
  unfoldable pub dispatch : Verb → Text → Given → Session → files.Disk → ℕ → Handled files.Disk
  dispatch v_user arg given s disk counter = user files.Disk arg s disk counter
  dispatch v_pass arg given s disk counter = password files.Disk arg s disk counter
  dispatch v_quit arg given s disk counter = quit_cmd files.Disk arg s disk counter
  dispatch v_noop arg given s disk counter = noop_cmd files.Disk arg s disk counter
  dispatch v_type arg given s disk counter = type_cmd files.Disk arg s disk counter
  dispatch v_mode arg given s disk counter = mode_cmd files.Disk arg s disk counter
  dispatch v_pwd arg given s disk counter = pwd_cmd files arg s disk counter
  dispatch v_cwd arg given s disk counter = cwd files arg s disk counter
  dispatch v_cdup arg given s disk counter = cdup_cmd files arg s disk counter
  dispatch v_mkd arg given s disk counter = mkd files arg s disk counter
  dispatch v_rmd arg given s disk counter = rmd files arg s disk counter
  dispatch v_dele arg given s disk counter = dele files arg s disk counter
  dispatch v_rnfr arg given s disk counter = rnfr files arg s disk counter
  dispatch v_rnto arg given s disk counter = rnto files arg s disk counter
  dispatch v_list arg given s disk counter = list_dir files format_date arg s disk counter
  dispatch v_nlst arg given s disk counter = nlst files arg s disk counter
  dispatch v_size arg given s disk counter = size_cmd files arg s disk counter
  dispatch v_mdtm arg given s disk counter = mdtm_cmd files arg s disk counter
  dispatch v_stat arg given s disk counter = stat_cmd files arg s disk counter
  dispatch v_port arg given s disk counter = port_cmd files.Disk arg given s disk counter
  dispatch v_pasv arg given s disk counter = pasv_cmd files.Disk arg given s disk counter
  dispatch v_retr arg given s disk counter = retr_cmd files.Disk arg given s disk counter
  dispatch v_stor arg given s disk counter = stor_cmd files.Disk arg given s disk counter
  dispatch v_stou arg given s disk counter = stou_cmd files.Disk arg given s disk counter
  dispatch v_appe arg given s disk counter = appe_cmd files.Disk arg given s disk counter
  dispatch v_abor arg given s disk counter = abor_cmd files.Disk arg s disk counter
  dispatch v_hash arg given s disk counter = hash_cmd files arg s disk counter
  dispatch v_help arg given s disk counter = help_cmd files arg s disk counter
  dispatch v_other arg given s disk counter = says files.Disk s disk counter not_implemented

  unfoldable pub handle : FtpCommand → Given → Session → files.Disk → ℕ → Handled files.Disk
  handle command given s disk counter =
      dispatch (verb_of command.name) command.argument given (before (verb_of command.name) s) disk
        counter
