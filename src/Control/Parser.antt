-- ===== src/Control/Parser.antt =====
-- server/command_parser.py: a line is a command's name and its argument.
use hybrid_ftp_socket.Prelude.{[], ◌∷◌, if◌then◌else◌}
use hybrid_ftp_socket.Prelude.Text.{is_space, lstrip, strip, upper}
use hybrid_ftp_socket.Prelude.Numerals.{Text}

pub record FtpCommand : Type 0 where
  pub name : Text
  pub argument : Text

-- The first word of a text without space in front, and what follows it.
unfoldable pub split_word : Text → Text × Text
split_word [] = ([], [])
split_word (c ∷ s) =
    let (word, rest) = split_word s in if is_space c then ([], c ∷ s) else (c ∷ word, rest)

-- `CommandParser.parse`; `split(maxsplit=1)` drops the space between the parts.
unfoldable pub parse : Text → FtpCommand
parse raw =
    let (word, rest) = split_word (strip raw) in
    record { name = upper word; argument = lstrip rest }
