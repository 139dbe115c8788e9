-- ===== src/Client/Tests.antt =====
-- The theorems on the client applied to an address.
use hybrid_ftp_socket.Prelude.{some, ◌≡◌, refl, arith}
use hybrid_ftp_socket.Prelude.Text.{codes}
use hybrid_ftp_socket.Prelude.Numerals.{split_onto, join, decimal, decimal_onto}
use hybrid_ftp_socket.Control.Parser.{parse}
use hybrid_ftp_socket.Control.Handler.Parameters.{dotted, port_address, passive_reply}
use hybrid_ftp_socket.Prelude.{[], ◌∷◌, ◌++◌}
use hybrid_ftp_socket.Prelude.Numerals.{is_digit}
use hybrid_ftp_socket.Control.Connection.Lines.{split_line, split_at}
use hybrid_ftp_socket.Control.Connection.Framing.{lines_of}
use hybrid_ftp_socket.Storage.Paths.{startswith}
use hybrid_ftp_socket.Client.Replies.{Incoming, has_more, recv_reply}
use hybrid_ftp_socket.Client.Replies.Lines.{IsRead, recv_reply_lines}
use hybrid_ftp_socket.Client.Address.{parse_pasv_response, format_port_command}
use hybrid_ftp_socket.Client.Address.RoundTrip.{parse_pasv_response-passive_reply}
use hybrid_ftp_socket.Client.Address.PortRoundTrip.{port_address-format_port_command}

parse_pasv_response-passive_reply_example :
    parse_pasv_response (passive_reply (dotted 192 168 1 20) 50007)
    ≡ some (dotted 192 168 1 20, 50007, 0)
parse_pasv_response-passive_reply_example = parse_pasv_response-passive_reply 192 168 1 20 50007

port_address-format_port_command_example :
    (parse (format_port_command (dotted 10 0 0 5) 40001)).name ≡ codes "PORT"
    × port_address (parse (format_port_command (dotted 10 0 0 5) 40001)).argument
      ≡ some (dotted 10 0 0 5, 40001)
port_address-format_port_command_example =
    port_address-format_port_command 10 0 0 5 40001 (omega arith) (omega arith) (omega arith)
      (omega arith) (omega arith) (omega arith)

-- What the two functions write, as text.
passive_text :
    passive_reply (dotted 10 0 0 5) 40001 ≡ codes "227 Entering Passive Mode (10,0,0,5,156,65)\r\n"
unfolding passive_reply split_onto join decimal decimal_onto
passive_text = refl

port_text : format_port_command (dotted 10 0 0 5) 40001 ≡ codes "PORT 10,0,0,5,156,65\r\n"
unfolding format_port_command split_onto join decimal decimal_onto
port_text = refl

-- The reply to HELP, cut in the middle of a line end, with the next reply behind it.
abbrev incoming : Incoming
incoming = record {
  reply_buffer = codes "214-Sup";
  chunks = codes "ported:\r\n USER\r" ∷ codes "\n214 OK\r\n200 A\r\n" ∷ [];
}

recv_reply_lines_example :
    IsRead
      ((codes "214-Supported:" ++ (13 ∷ 10 ∷ []))
        ++ (lines_of (codes " USER" ∷ []) ++ (codes "214 OK" ++ (13 ∷ 10 ∷ []))))
      (codes "200 A\r\n")
      (recv_reply incoming)
unfolding split_line split_at has_more is_digit startswith
recv_reply_lines_example =
    recv_reply_lines incoming (codes "214-Supported:") (codes " USER" ∷ []) (codes "214 OK")
      (codes "200 A\r\n") (λ e. absurd cc, (λ e. absurd cc, tt)) (refl, (refl, tt)) refl refl
      (refl, tt) refl refl
