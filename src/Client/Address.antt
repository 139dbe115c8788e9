-- ===== src/Client/Address.antt =====
-- common/rdt_utils.py: the address of a data connection in a reply to PASV and in PORT.
pub mod RoundTrip
pub mod PortRoundTrip
use hybrid_ftp_socket.Prelude.{
  ℕ, suc, ◌+◌, ◌*◌, ◌/◌, ◌%◌, Bool, true, false, Option, none, some, List, [], ◌∷◌, ◌++◌, ◌==◌,
  if◌then◌else◌,
}
use hybrid_ftp_socket.Prelude.Text.{codes}
use hybrid_ftp_socket.Prelude.Numerals.{Text, decimal, int_of, split_onto, join}

-- What follows the first such character, and what stands before it; none if there is none.
unfoldable pub behind : ℕ → Text → Option Text
behind c [] = none
behind c (d ∷ s) = elim (d == c) [ true ↦ some s | false ↦ behind c s ]

unfoldable pub until : ℕ → Text → Option Text
until c [] = none
until c (d ∷ s) = elim (d == c) [
  | true ↦ some []
  | false ↦ elim (until c s) [ none ↦ none | some t ↦ some (d ∷ t) ]
]

-- `list(map(int, ...))`; none is a `ValueError`. A minus is kept apart.
unfoldable pub numbers : List Text → Option (List (Bool × ℕ))
numbers [] = some []
numbers (p ∷ parts) = elim (int_of p) [
  | none ↦ none
  | some n ↦ elim (numbers parts) [ none ↦ none | some rest ↦ some (n ∷ rest) ]
]

-- `str` of a signed number.
unfoldable pub signed_decimal : Bool × ℕ → Text
signed_decimal (negative, n) =
    if negative then (if n == 0 then decimal n else b'-' ∷ decimal n) else decimal n

-- `parts[4] * 256 + parts[5]`, as its positive and its negative part.
unfoldable pub port_of : Bool × ℕ → Bool × ℕ → ℕ × ℕ
port_of (false, p) (false, q) = (p * 256 + q, 0)
port_of (false, p) (true, q) = (p * 256, q)
port_of (true, p) (false, q) = (q, p * 256)
port_of (true, p) (true, q) = (0, p * 256 + q)

-- The address and the port of the numbers; fewer than six are an exception.
unfoldable pub endpoint_of : Option (List (Bool × ℕ)) → Option (Text × ℕ × ℕ)
endpoint_of (some (a ∷ b ∷ c ∷ d ∷ p ∷ q ∷ rest)) = some (
  join (b'.' ∷ []) (signed_decimal a ∷ signed_decimal b ∷ signed_decimal c ∷ signed_decimal d ∷ []),
  (port_of p q).0,
  (port_of p q).1,
)
endpoint_of other = none

-- `response_str[start + 1 : end]` for the first parentheses; none is an exception, also where the
-- slice is empty since `)` stands before `(`.
unfoldable pub parenthesised : Text → Option Text
parenthesised s = elim (until b'(' s) [
  | none ↦ none
  | some front ↦ elim (behind b')' front) [
    | some t ↦ none
    | none ↦ elim (behind b'(' s) [ none ↦ none | some inner ↦ until b')' inner ]
  ]
]

unfoldable pub parse_pasv_response : Text → Option (Text × ℕ × ℕ)
parse_pasv_response response = elim (parenthesised response) [
  | none ↦ none
  | some inner ↦ endpoint_of (numbers (split_onto b',' inner))
]

-- `format_port_command`, with its line end.
unfoldable pub format_port_command : Text → ℕ → Text
format_port_command ip port =
    codes "PORT "
    ++ (join (b',' ∷ []) (split_onto b'.' ip)
        ++ (b',' ∷ (decimal (port / 256) ++ (b',' ∷ (decimal (port % 256) ++ (13 ∷ 10 ∷ []))))))
