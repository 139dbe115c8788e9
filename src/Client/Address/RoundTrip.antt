-- ===== src/Client/Address/RoundTrip.antt =====
-- The two ends agree on the address of a data connection: what the server writes for PASV the
-- client reads, and what the client writes for PORT the server reads.
use hybrid_ftp_socket.Prelude.{
  ℕ, ◌+◌, ◌*◌, ◌/◌, ◌%◌, ◌<◌, true, false, some, List, [], ◌∷◌, ◌++◌, append_assoc, ◌≡◌, refl, ap,
  ◌∙◌, ◌==◌, arith, All, All-append,
}
use hybrid_ftp_socket.Prelude.Text.{codes}
use hybrid_ftp_socket.Prelude.Numerals.{Text, decimal, split_onto, join, is_digit}
use hybrid_ftp_socket.Prelude.Numerals.Laws.{
  IsWithout, int_of-decimal, split_onto-join, decimal-IsWithout,
}
use hybrid_ftp_socket.Control.Handler.Parameters.{octet, octets, dotted, passive_reply}
use hybrid_ftp_socket.Client.Address.{
  behind, until, numbers, signed_decimal, port_of, endpoint_of, parenthesised, parse_pasv_response,
}

-- The numbers of an address and a port, with a separator between them.
abbrev pub six : ℕ → ℕ → ℕ → ℕ → ℕ → ℕ → List Text
six a b c d p q = decimal a ∷ decimal b ∷ decimal c ∷ decimal d ∷ decimal p ∷ decimal q ∷ []

pub comma : is_digit b',' ≡ false
unfolding is_digit
comma = refl

dot : is_digit b'.' ≡ false
unfolding is_digit
dot = refl

pub split_onto-dotted :
    (a b c d : ℕ)
    → split_onto b'.' (dotted a b c d) ≡ decimal a ∷ decimal b ∷ decimal c ∷ decimal d ∷ []
split_onto-dotted a b c d =
    split_onto-join b'.' (decimal a) (decimal b ∷ decimal c ∷ decimal d ∷ []) (
      decimal-IsWithout b'.' a dot,
      (
        decimal-IsWithout b'.' b dot,
        (decimal-IsWithout b'.' c dot, (decimal-IsWithout b'.' d dot, tt)),
      ),
    )

pub split_onto-six :
    (a b c d p q : ℕ) → split_onto b',' (join (b',' ∷ []) (six a b c d p q)) ≡ six a b c d p q
split_onto-six a b c d p q =
    split_onto-join b',' (decimal a)
      (decimal b ∷ decimal c ∷ decimal d ∷ decimal p ∷ decimal q ∷ [])
      (
        decimal-IsWithout b',' a comma,
        (
          decimal-IsWithout b',' b comma,
          (
            decimal-IsWithout b',' c comma,
            (
              decimal-IsWithout b',' d comma,
              (decimal-IsWithout b',' p comma, (decimal-IsWithout b',' q comma, tt)),
            ),
          ),
        ),
      )

numbers-six :
    (a b c d p q : ℕ)
    → numbers (six a b c d p q)
      ≡ some ((false, a) ∷ (false, b) ∷ (false, c) ∷ (false, d) ∷ (false, p) ∷ (false, q) ∷ [])
unfolding numbers
numbers-six a b c d p q =
    rw
      (
        int_of-decimal a,
        numbers,
        int_of-decimal b,
        int_of-decimal c,
        int_of-decimal d,
        int_of-decimal p,
        int_of-decimal q,
      )
      refl

octet-decimal : (n : ℕ) → n < 256 → octet (decimal n) ≡ some n
unfolding octet
octet-decimal n h = rw (int_of-decimal n, octet) (ground arith)

pub octets-six :
    (a b c d p q : ℕ)
    → a < 256
    → b < 256
    → c < 256
    → d < 256
    → p < 256
    → q < 256
    → octets (six a b c d p q) ≡ some (a ∷ b ∷ c ∷ d ∷ p ∷ q ∷ [])
unfolding octets
octets-six a b c d p q ha hb hc hd hp hq =
    rw
      (
        octet-decimal a ha,
        octets,
        octet-decimal b hb,
        octet-decimal c hc,
        octet-decimal d hd,
        octet-decimal p hp,
        octet-decimal q hq,
      )
      refl

-- The text of four parts and two more is the text of six.
pub join-six :
    (a b c d p q : ℕ) (tail : Text)
    → join (b',' ∷ []) (decimal a ∷ decimal b ∷ decimal c ∷ decimal d ∷ [])
        ++ (b',' ∷ (decimal p ++ (b',' ∷ (decimal q ++ tail))))
      ≡ join (b',' ∷ []) (six a b c d p q) ++ tail
unfolding join
join-six a b c d p q tail = simp append_assoc

until_lem : (c : ℕ) (part rest : Text) → IsWithout c part → until c (part ++ (c ∷ rest)) ≡ some part
unfolding until
until_lem c [] rest h = let same : (c == c) ≡ true = ground arith in rw (same, until) refl
until_lem c (d ∷ part) rest h = rw (h.0, until, until_lem c part rest h.1) refl

join-IsWithout :
    (c : ℕ) (part : Text) (parts : List Text)
    → (b',' == c) ≡ false
    → All (IsWithout c) (part ∷ parts)
    → IsWithout c (join (b',' ∷ []) (part ∷ parts))
unfolding join
join-IsWithout c part [] n h = h.0
join-IsWithout c part (next ∷ parts) n h =
    All-append (λ d. (d == c) ≡ false) part (b',' ∷ join (b',' ∷ []) (next ∷ parts)) h.0
      (n, join-IsWithout c next parts n h.1)

closing : is_digit b')' ≡ false
unfolding is_digit
closing = refl

six-IsWithout : (a b c d p q : ℕ) → IsWithout b')' (join (b',' ∷ []) (six a b c d p q))
six-IsWithout a b c d p q =
    join-IsWithout b')' (decimal a) (decimal b ∷ decimal c ∷ decimal d ∷ decimal p ∷ decimal q ∷ [])
      (ground arith)
      (
        decimal-IsWithout b')' a closing,
        (
          decimal-IsWithout b')' b closing,
          (
            decimal-IsWithout b')' c closing,
            (
              decimal-IsWithout b')' d closing,
              (decimal-IsWithout b')' p closing, (decimal-IsWithout b')' q closing, tt)),
            ),
          ),
        ),
      )

passive_reply-six :
    (a b c d port : ℕ)
    → passive_reply (dotted a b c d) port
      ≡ codes "227 Entering Passive Mode ("
        ++ (join (b',' ∷ []) (six a b c d (port / 256) (port % 256)) ++ (b')' ∷ 13 ∷ 10 ∷ []))
unfolding passive_reply
passive_reply-six a b c d port = rw (split_onto-dotted a b c d) (
    ap (λ t. codes "227 Entering Passive Mode (" ++ t)
      (join-six a b c d (port / 256) (port % 256) (b')' ∷ 13 ∷ 10 ∷ [])))

parenthesised_lem :
    (inner rest : Text)
    → IsWithout b')' inner
    → parenthesised (codes "227 Entering Passive Mode (" ++ (inner ++ (b')' ∷ rest))) ≡ some inner
unfolding parenthesised until behind
parenthesised_lem inner rest h = until_lem b')' inner rest h

parse_pasv_response_lem :
    (response inner : Text)
    → parenthesised response ≡ some inner
    → parse_pasv_response response ≡ endpoint_of (numbers (split_onto b',' inner))
unfolding parse_pasv_response endpoint_of
parse_pasv_response_lem response inner e = rw (parse_pasv_response, e) refl

-- The two bytes of a port are the port.
pub port_bytes : (port : ℕ) → port / 256 * 256 + port % 256 ≡ port
port_bytes port = omega arith

endpoint_of-six :
    (a b c d port : ℕ)
    → endpoint_of (numbers (six a b c d (port / 256) (port % 256))) ≡ some (dotted a b c d, port, 0)
unfolding endpoint_of signed_decimal port_of
endpoint_of-six a b c d port =
    rw (numbers-six a b c d (port / 256) (port % 256), endpoint_of, port_bytes port) refl

-- For an address of four numbers and any port: the client reads from the server's reply to PASV the
-- address and the port that the server has written.
pub parse_pasv_response-passive_reply :
    (a b c d port : ℕ)
    → parse_pasv_response (passive_reply (dotted a b c d) port) ≡ some (dotted a b c d, port, 0)
parse_pasv_response-passive_reply a b c d port =
    let inner = join (b',' ∷ []) (six a b c d (port / 256) (port % 256)) in
    let response = codes "227 Entering Passive Mode (" ++ (inner ++ (b')' ∷ 13 ∷ 10 ∷ [])) in
    ap parse_pasv_response (passive_reply-six a b c d port)
    ∙ parse_pasv_response_lem response inner
        (parenthesised_lem inner (13 ∷ 10 ∷ []) (six-IsWithout a b c d (port / 256) (port % 256)))
    ∙ ap (λ parts. endpoint_of (numbers parts)) (split_onto-six a b c d (port / 256) (port % 256))
    ∙ endpoint_of-six a b c d port
