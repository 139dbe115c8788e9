-- ===== src/Control/Replies.antt =====
-- server/ftp_reply.py, and the lines that server/command_handler.py writes.
use hybrid_ftp_socket.Prelude.{ℕ, String, [], ◌∷◌, ◌++◌}
use hybrid_ftp_socket.Prelude.Text.{codes}
use hybrid_ftp_socket.Prelude.Numerals.{Text, decimal}

abbrev pub crlf : Text
crlf = 13 ∷ 10 ∷ []

-- A reply of one line.
abbrev pub line : String → Text
line s = codes s ++ crlf

-- `f"{e.reply_code} {e.message}\r\n"`
unfoldable pub error_line : ℕ → Text → Text
error_line reply_code message = decimal reply_code ++ (32 ∷ (message ++ crlf))

abbrev pub ready : Text
ready = line "220 Hybrid FTP Server Ready"

abbrev pub login_ok : Text
login_ok = line "230 Login successful"

abbrev pub user_ok : Text
user_ok = line "331 Username OK"

abbrev pub quit_reply : Text
quit_reply = line "221 Goodbye"

abbrev pub not_implemented : Text
not_implemented = line "502 Command not implemented"

abbrev pub not_logged_in : Text
not_logged_in = line "530 Not logged in"

abbrev pub syntax_error : Text
syntax_error = line "501 Syntax error in parameters"

abbrev pub missing_filename : Text
missing_filename = line "501 Missing filename"
