-- ===== src/Control/Handler/Directories.antt =====
-- The commands that name files and directories: PWD, CWD, CDUP, MKD, RMD, DELE, RNFR and RNTO.
use hybrid_ftp_socket.Prelude.{ℕ, Option, none, some, [], ◌∷◌, ◌++◌, if◌then◌else◌}
use hybrid_ftp_socket.Prelude.Text.{codes}
use hybrid_ftp_socket.Prelude.Numerals.{Text, is_empty}
use hybrid_ftp_socket.Control.Session.{Session}
use hybrid_ftp_socket.Control.Files.{Files}
use hybrid_ftp_socket.Control.Replies.{line, crlf, syntax_error, missing_filename}
use hybrid_ftp_socket.Control.Handler.Base.{
  Handled, says, logged_in, with_argument, no_argument, on_outcome, on_outcome_or_raise,
}

module _ (files : Files) where
  unfoldable pub pwd_cmd : Text → Session → files.Disk → ℕ → Handled files.Disk
  pwd_cmd arg s disk counter = no_argument files.Disk arg s disk counter syntax_error (
      logged_in files.Disk s disk counter (
        on_outcome_or_raise files.Disk s disk counter (files.display_path disk s.current_dir)
          (λ path. says files.Disk s disk counter (codes "257 \"" ++ (path ++ (b'"' ∷ crlf))))))

  unfoldable pub cwd : Text → Session → files.Disk → ℕ → Handled files.Disk
  cwd arg s disk counter = logged_in files.Disk s disk counter (
      with_argument files.Disk arg s disk counter (line "501 Missing directory") (
        on_outcome files.Disk s disk counter (line "550 Directory not found")
          (files.change_directory disk s.current_dir arg)
          (λ path.
            says files.Disk (record s { current_dir = path }) disk counter
              (line "250 Directory changed"))))

  unfoldable pub cdup_cmd : Text → Session → files.Disk → ℕ → Handled files.Disk
  cdup_cmd arg s disk counter = no_argument files.Disk arg s disk counter syntax_error (
      logged_in files.Disk s disk counter (
        on_outcome files.Disk s disk counter (line "550 Cannot go above FTP root")
          (files.parent_directory disk s.current_dir)
          (λ path.
            says files.Disk (record s { current_dir = path }) disk counter
              (line "200 Directory changed to parent"))))

  unfoldable pub mkd : Text → Session → files.Disk → ℕ → Handled files.Disk
  mkd arg s disk counter = logged_in files.Disk s disk counter (
      with_argument files.Disk arg s disk counter (line "501 Missing directory") (
        let (disk', outcome) = files.make_directory disk s.current_dir arg in
        on_outcome files.Disk s disk' counter (line "550 Cannot create directory") outcome
          (λ path. says files.Disk s disk' counter (line "257 Directory created"))))

  unfoldable pub rmd : Text → Session → files.Disk → ℕ → Handled files.Disk
  rmd arg s disk counter = logged_in files.Disk s disk counter (
      with_argument files.Disk arg s disk counter (line "501 Missing directory") (
        let (disk', outcome) = files.remove_directory disk s.current_dir arg in
        on_outcome files.Disk s disk' counter (line "550 Cannot remove directory") outcome
          (λ done. says files.Disk s disk' counter (line "250 Directory removed"))))

  unfoldable pub dele : Text → Session → files.Disk → ℕ → Handled files.Disk
  dele arg s disk counter = logged_in files.Disk s disk counter (
      with_argument files.Disk arg s disk counter missing_filename (
        let (disk', outcome) = files.delete disk s.current_dir arg in
        on_outcome files.Disk s disk' counter (line "550 Cannot delete file") outcome
          (λ done. says files.Disk s disk' counter (line "250 File deleted"))))

  unfoldable pub rnfr : Text → Session → files.Disk → ℕ → Handled files.Disk
  rnfr arg s disk counter = logged_in files.Disk s disk counter (
      with_argument files.Disk arg s disk counter missing_filename (
        on_outcome files.Disk (record s { rename_from = none }) disk counter
          (line "550 File not found") (files.prepare_retrieve disk s.current_dir arg)
          (λ path.
            says files.Disk (record s { rename_from = some arg }) disk counter
              (line "350 Ready for RNTO"))))

  -- RNTO with an argument, by the name that RNFR has left; an empty one counts as none.
  unfoldable pub rename_to : Option Text → Text → Session → files.Disk → ℕ → Handled files.Disk
  rename_to none arg s disk counter = says files.Disk s disk counter (line "503 RNFR required")
  rename_to (some []) arg s disk counter = says files.Disk s disk counter (line "503 RNFR required")
  rename_to (some (c ∷ old)) arg s disk counter =
      let (disk', outcome) = files.rename disk s.current_dir (c ∷ old) arg in
      on_outcome files.Disk (record s { rename_from = none }) disk' counter
        (line "550 Rename failed") outcome
        (λ done.
          says files.Disk (record s { rename_from = none }) disk' counter
            (line "250 Rename successful"))

  unfoldable pub rnto : Text → Session → files.Disk → ℕ → Handled files.Disk
  rnto arg s disk counter = logged_in files.Disk s disk counter (
      if is_empty arg
      then says files.Disk (record s { rename_from = none }) disk counter missing_filename
      else rename_to s.rename_from arg s disk counter)
