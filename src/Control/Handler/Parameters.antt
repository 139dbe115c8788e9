-- ===== src/Control/Handler/Parameters.antt =====
-- TYPE, MODE, PORT and PASV: how the data will go.
use hybrid_ftp_socket.Prelude.{
  ℕ, ◌+◌, ◌*◌, ◌/◌, ◌%◌, Bool, false, ◌&&◌, ◌||◌, not, Option, none, some, List, [], ◌∷◌, ◌++◌, leb,
  ltb, ◌==◌, if◌then◌else◌,
}
use hybrid_ftp_socket.Prelude.Text.{codes, strip, upper}
use hybrid_ftp_socket.Prelude.Numerals.{Text, is_empty, text_eq, decimal, int_of, split_onto, join}
use hybrid_ftp_socket.Control.Session.{Session, Given, active, passive}
use hybrid_ftp_socket.Control.Replies.{line, crlf, syntax_error}
use hybrid_ftp_socket.Control.Handler.Base.{
  Handled, says, raises, logged_in, with_argument, no_argument,
}

-- `int(p)` and the test `0 <= v <= 255`; a minus is only passed over in front of zero.
unfoldable pub octet : Text → Option ℕ
octet p = elim (int_of p) [
  | none ↦ none
  | some (negative, v) ↦ if leb v 255 && (not negative || v == 0) then some v else none
]

unfoldable pub octets : List Text → Option (List ℕ)
octets [] = some []
octets (p ∷ parts) = elim (octet p) [
  | none ↦ none
  | some v ↦ elim (octets parts) [ none ↦ none | some nums ↦ some (v ∷ nums) ]
]

-- `".".join(str(n) for n in nums[:4])`
abbrev pub dotted : ℕ → ℕ → ℕ → ℕ → Text
dotted a b c d = join (b'.' ∷ []) (decimal a ∷ decimal b ∷ decimal c ∷ decimal d ∷ [])

-- The address and the port of PORT's argument, if it has six numbers that make a port.
unfoldable pub address_of : Option (List ℕ) → Option (Text × ℕ)
address_of (some (a ∷ b ∷ c ∷ d ∷ p ∷ q ∷ [])) =
    if ltb 0 (p * 256 + q) && leb (p * 256 + q) 65535
    then some (dotted a b c d, p * 256 + q)
    else none
address_of other = none

unfoldable pub port_address : Text → Option (Text × ℕ)
port_address arg = address_of (octets (split_onto b',' arg))

-- The check against a bounce to another host: true is refused.
unfoldable pub is_bounce : Option Text → Text → Bool
is_bounce none ip = false
is_bounce (some peer) ip =
    not (is_empty peer)
    && not (
        text_eq peer (codes "127.0.0.1")
        || text_eq peer (codes "::1")
        || text_eq peer (codes "localhost"))
    && not (text_eq ip peer)
    && not (text_eq ip (codes "127.0.0.1") || text_eq ip (codes "localhost"))

-- The address that PASV announces: the server's, or the host's if that is not set.
unfoldable pub announced : Option Text → Option Text → Text
announced (some (c ∷ ip)) host_address =
    if text_eq (c ∷ ip) (codes "0.0.0.0")
    then elim host_address [ none ↦ codes "127.0.0.1" | some address ↦ address ]
    else c ∷ ip
announced other host_address = elim host_address [
  | none ↦ codes "127.0.0.1"
  | some address ↦ address
]

-- `_close_data_socket`
abbrev pub close_data_socket : Session → Session
close_data_socket s = record s { data_socket = none }

-- `f"227 Entering Passive Mode ({ip_parts},{p1},{p2})\r\n"`
unfoldable pub passive_reply : Text → ℕ → Text
passive_reply server_ip port =
    codes "227 Entering Passive Mode ("
    ++ (join (b',' ∷ []) (split_onto b'.' server_ip)
        ++ (b',' ∷ (decimal (port / 256) ++ (b',' ∷ (decimal (port % 256) ++ (b')' ∷ crlf))))))

module _ (Disk : Type 0) where
  unfoldable pub type_cmd : Text → Session → Disk → ℕ → Handled Disk
  unfolding upper
  type_cmd arg s disk counter = logged_in Disk s disk counter (
      with_argument Disk arg s disk counter (line "501 Missing argument") (
        if text_eq (upper arg) (b'A' ∷ [])
        then says Disk (record s { transfer_type = b'A' }) disk counter
            (line "200 Type set to ASCII")
        else if text_eq (upper arg) (b'I' ∷ [])
        then says Disk (record s { transfer_type = b'I' }) disk counter
            (line "200 Type set to Binary")
        else says Disk s disk counter (line "501 Invalid TYPE")))

  unfoldable pub mode_cmd : Text → Session → Disk → ℕ → Handled Disk
  unfolding upper strip
  mode_cmd arg s disk counter = logged_in Disk s disk counter (
      with_argument Disk arg s disk counter (line "501 Missing argument") (
        if text_eq (upper (strip arg)) (b'S' ∷ [])
        then says Disk (record s { transfer_mode = b'S' }) disk counter (line "200 Mode Stream")
        else if text_eq (upper (strip arg)) (b'B' ∷ [])
        then says Disk (record s { transfer_mode = b'B' }) disk counter (line "200 Mode Block")
        else if text_eq (upper (strip arg)) (b'C' ∷ [])
        then says Disk (record s { transfer_mode = b'C' }) disk counter (line "200 Mode Compressed")
        else says Disk s disk counter (line "501 Invalid MODE")))

  -- PORT once the address is read: an `OSError` of `bind` is not caught.
  unfoldable pub use_address : Text → ℕ → Given → Session → Disk → ℕ → Handled Disk
  use_address ip port given s disk counter =
      if is_bounce s.peer_ip ip
      then says Disk s disk counter (line "501 Security error: PORT IP bounce prevented")
      else elim given.bound [
        | none ↦ raises Disk (close_data_socket s) disk counter
        | some server_port ↦
            says Disk
              (record s {
                data_socket = some server_port;
                data_host = some ip;
                data_port = some port;
                data_mode = some active;
              })
              disk counter
              (codes "200 PORT command successful (server UDP port "
                ++ (decimal server_port ++ (b')' ∷ crlf)))
      ]

  unfoldable pub port_cmd : Text → Given → Session → Disk → ℕ → Handled Disk
  port_cmd arg given s disk counter = logged_in Disk s disk counter (
      with_argument Disk arg s disk counter (line "501 Missing arguments")
        (elim (port_address arg) [
          | none ↦ says Disk s disk counter (line "501 Invalid PORT")
          | some (ip, port) ↦ use_address ip port given s disk counter
        ]))

  unfoldable pub pasv_cmd : Text → Given → Session → Disk → ℕ → Handled Disk
  pasv_cmd arg given s disk counter = logged_in Disk s disk counter (
      no_argument Disk arg s disk counter syntax_error (elim given.bound [
        | none ↦
            says Disk (close_data_socket s) disk counter (line "425 Cannot open data connection")
        | some port ↦
            says Disk
              (record s {
                data_socket = some port;
                data_host = some (announced s.server_ip given.host_address);
                data_port = some port;
                data_mode = some passive;
              })
              disk counter (passive_reply (announced s.server_ip given.host_address) port)
      ]))
