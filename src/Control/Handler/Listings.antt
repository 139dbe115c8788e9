-- ===== src/Control/Handler/Listings.antt =====
-- The commands that only read: LIST, NLST, SIZE, MDTM, STAT, HASH and HELP.
use hybrid_ftp_socket.Prelude.{
  ℕ, ◌-◌, Option, none, some, String, List, [], ◌∷◌, ◌++◌, length, replicate, if◌then◌else◌,
}
use mathlib.Core.List.{map}
use hybrid_ftp_socket.Prelude.Text.{codes, strip, upper}
use hybrid_ftp_socket.Prelude.Numerals.{Text, is_empty, text_eq, decimal, join}
use hybrid_ftp_socket.Control.Session.{Session}
use hybrid_ftp_socket.Control.Files.{Files, Entry}
use hybrid_ftp_socket.Control.Replies.{line, crlf, missing_filename}
use hybrid_ftp_socket.Control.Handler.Base.{
  Handled, says, logged_in, with_argument, on_outcome, on_outcome_or_raise,
}

-- `f"{size:>10}"`
unfoldable pub right_aligned : Text → Text
right_aligned text = replicate (10 - length text) 32 ++ text

-- A line of LIST. `format_date` is what `datetime` makes of the time of modification, or the text
-- itself where it does not read it.
unfoldable pub entry_line : (Text → Text) → Entry → Text
entry_line format_date e =
    (if e.is_dir then b'd' else b'-')
    ∷ (e.permissions
        ++ (codes " 1 ftp ftp "
            ++ (right_aligned (decimal e.size)
                ++ (32 ∷ (format_date e.modified ++ (32 ∷ e.name))))))

-- `f"150 Here comes the directory listing.\r\n{result}\r\n226 Directory send OK.\r\n"`
unfoldable pub listing : List Text → Text
listing lines =
    line "150 Here comes the directory listing."
    ++ (join crlf lines ++ (crlf ++ line "226 Directory send OK."))

unfoldable pub status_of : Entry → Text
status_of e =
    codes "213-Status of "
    ++ (e.name
        ++ (b':'
            ∷ (crlf
                ++ (codes " Type: "
                    ++ ((if e.is_dir then codes "dir" else codes "file")
                        ++ (crlf
                            ++ (codes " Size: "
                                ++ (decimal e.size
                                    ++ (crlf
                                        ++ (codes " Permissions: "
                                            ++ (e.permissions
                                                ++ (crlf
                                                    ++ (codes " Modified: "
                                                        ++ (e.modified
                                                            ++ (crlf
                                                            ++ line
                                                            "213 End of status")))))))))))))))

-- STAT without an argument; `None` is printed for a session without a user.
unfoldable pub server_status : Session → Text
server_status s =
    line "211-FTP Server status:"
    ++ (codes " User: "
        ++ ((elim s.username [ none ↦ codes "None" | some name ↦ name ])
            ++ (crlf
                ++ (codes " TYPE: "
                    ++ (s.transfer_type
                        ∷ (codes "; MODE: "
                            ++ (s.transfer_mode ∷ (crlf ++ line "211 End of status"))))))))

-- The dict `commands` of `help_cmd`.
abbrev pub usages : List (String × String)
usages =
    ("USER", "USER <username>")
    ∷ ("PASS", "PASS <password>")
    ∷ ("QUIT", "QUIT")
    ∷ ("NOOP", "NOOP")
    ∷ ("PWD", "PWD")
    ∷ ("CWD", "CWD <path>")
    ∷ ("CDUP", "CDUP")
    ∷ ("MKD", "MKD <dirname>")
    ∷ ("RMD", "RMD <dirname>")
    ∷ ("LIST", "LIST [path]")
    ∷ ("NLST", "NLST [path]")
    ∷ ("STAT", "STAT [path]")
    ∷ ("SIZE", "SIZE <filename>")
    ∷ ("MDTM", "MDTM <filename>")
    ∷ ("TYPE", "TYPE {A|I}")
    ∷ ("MODE", "MODE {S|B|C}")
    ∷ ("PORT", "PORT h1,h2,h3,h4,p1,p2")
    ∷ ("PASV", "PASV")
    ∷ ("RETR", "RETR <filename>")
    ∷ ("STOR", "STOR <filename>")
    ∷ ("STOU", "STOU")
    ∷ ("APPE", "APPE <filename>")
    ∷ ("DELE", "DELE <filename>")
    ∷ ("RNFR", "RNFR <oldname>")
    ∷ ("RNTO", "RNTO <newname>")
    ∷ ("HASH", "HASH <filename>")
    ∷ ("ABOR", "ABOR")
    ∷ ("HELP", "HELP [command]")
    ∷ []

-- `commands.get(command_name)`
unfoldable pub usage_of : Text → List (String × String) → Option String
usage_of name [] = none
usage_of name ((command, usage) ∷ rest) =
    if text_eq (codes command) name then some usage else usage_of name rest

unfoldable pub help_text : Text → Text
help_text arg =
    if is_empty arg
    then line "214-Supported commands:"
      ++ (32 ∷ (join (32 ∷ []) (map (λ u. codes u.0) usages) ++ (crlf ++ line "214 Help OK")))
    else elim (usage_of (upper (strip arg)) usages) [
      | none ↦ line "502 Unknown command for HELP"
      | some usage ↦ codes "214 Syntax: " ++ (codes usage ++ crlf)
    ]

module _ (files : Files) where
  unfoldable pub list_dir : (Text → Text) → Text → Session → files.Disk → ℕ → Handled files.Disk
  list_dir format_date arg s disk counter = logged_in files.Disk s disk counter (
      on_outcome files.Disk s disk counter (line "550 Cannot list directory")
        (files.list disk s.current_dir arg)
        (λ entries.
          says files.Disk s disk counter (listing (map (entry_line format_date) entries))))

  unfoldable pub nlst : Text → Session → files.Disk → ℕ → Handled files.Disk
  nlst arg s disk counter = logged_in files.Disk s disk counter (
      on_outcome files.Disk s disk counter (line "550 Cannot list directory")
        (files.names disk s.current_dir arg)
        (λ entries. says files.Disk s disk counter (listing entries)))

  unfoldable pub size_cmd : Text → Session → files.Disk → ℕ → Handled files.Disk
  size_cmd arg s disk counter = logged_in files.Disk s disk counter (
      with_argument files.Disk arg s disk counter missing_filename (
        on_outcome files.Disk s disk counter (line "550 File not found")
          (files.size disk s.current_dir arg)
          (λ size. says files.Disk s disk counter (codes "213 " ++ (decimal size ++ crlf)))))

  unfoldable pub mdtm_cmd : Text → Session → files.Disk → ℕ → Handled files.Disk
  mdtm_cmd arg s disk counter = logged_in files.Disk s disk counter (
      with_argument files.Disk arg s disk counter missing_filename (
        on_outcome files.Disk s disk counter (line "550 File not found")
          (files.modified_time disk s.current_dir arg)
          (λ mtime. says files.Disk s disk counter (codes "213 " ++ (mtime ++ crlf)))))

  unfoldable pub stat_cmd : Text → Session → files.Disk → ℕ → Handled files.Disk
  stat_cmd arg s disk counter = logged_in files.Disk s disk counter (
      if is_empty arg
      then says files.Disk s disk counter (server_status s)
      else on_outcome_or_raise files.Disk s disk counter (files.stat disk s.current_dir arg)
          (λ e. says files.Disk s disk counter (status_of e)))

  unfoldable pub hash_cmd : Text → Session → files.Disk → ℕ → Handled files.Disk
  hash_cmd arg s disk counter = logged_in files.Disk s disk counter (
      with_argument files.Disk arg s disk counter missing_filename (
        on_outcome files.Disk s disk counter (line "550 HASH failed")
          (files.hash disk s.current_dir arg)
          (λ digest. says files.Disk s disk counter (codes "213 SHA256 " ++ (digest ++ crlf)))))

  unfoldable pub help_cmd : Text → Session → files.Disk → ℕ → Handled files.Disk
  help_cmd arg s disk counter = says files.Disk s disk counter (help_text arg)
