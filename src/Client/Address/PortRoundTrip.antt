-- ===== src/Client/Address/PortRoundTrip.antt =====
-- What the client writes for PORT is the command whose argument the server reads the address from.
use hybrid_ftp_socket.Prelude.{
  ℕ, ◌/◌, ◌%◌, ◌<◌, ◌≤◌, true, false, some, [], ◌∷◌, ◌++◌, append_assoc, ◌≡◌, refl, sym, ap, ◌∙◌,
  arith, length, length-append, leb, ltb, inl, inr, Bool-cases,
}
use mathlib.Core.List.{reverse, reverse-cons, reverse-append, reverse-reverse}
use hybrid_ftp_socket.Prelude.Text.{codes, is_space, lstrip, strip, upper, upper_char}
use hybrid_ftp_socket.Prelude.Numerals.{Text, decimal, is_digit, join}
use hybrid_ftp_socket.Prelude.Numerals.Laws.{
  IsDigits, decimal-IsDigits, length-decimal, reverse-IsDigits,
}
use hybrid_ftp_socket.Control.Parser.{split_word, parse}
use hybrid_ftp_socket.Control.Handler.Parameters.{dotted, address_of, port_address}
use hybrid_ftp_socket.Client.Address.{format_port_command}
use hybrid_ftp_socket.Client.Address.RoundTrip.{
  six, split_onto-dotted, split_onto-six, octets-six, join-six, port_bytes,
}

-- The argument of PORT.
abbrev argument_of : ℕ → ℕ → ℕ → ℕ → ℕ → Text
argument_of a b c d port = join (b',' ∷ []) (six a b c d (port / 256) (port % 256))

lstrip_digit : (s rest : Text) → 1 ≤ length s → IsDigits s → lstrip (s ++ rest) ≡ s ++ rest
unfolding lstrip is_space is_digit
lstrip_digit [] rest n h = absurd (omega arith)
lstrip_digit (c ∷ s) rest n h = let no : is_space c ≡ false = ground arith in rw no refl

length-reverse_lem : (s : Text) → 1 ≤ length s → 1 ≤ length (reverse s)
length-reverse_lem [] h = h
length-reverse_lem (c ∷ s) h =
    rw (reverse-cons c s, length-append (reverse s) (c ∷ [])) (omega arith)

length-lstrip : (s : Text) → length (lstrip s) ≤ length s
unfolding lstrip
length-lstrip [] = omega arith
length-lstrip (c ∷ s) = elim (Bool-cases (is_space c)) [
  | inl t ↦ rw t (omega (arith, length-lstrip s))
  | inr t ↦ rw t (omega arith)
]

lstrip_keeps :
    (c : ℕ) (s rest : Text) → lstrip (c ∷ s) ≡ c ∷ s → lstrip ((c ∷ s) ++ rest) ≡ (c ∷ s) ++ rest
unfolding lstrip
lstrip_keeps c s rest h = elim (Bool-cases (is_space c)) [
  | inl t ↦
      let shorter : lstrip s ≡ c ∷ s = sym (rw t refl) ∙ h in
      absurd (omega (arith, length-lstrip s, ap length shorter))
  | inr t ↦ rw t refl
]

-- A text that neither begins nor ends with space loses its line end.
strip_line :
    (s : Text) → lstrip s ≡ s → lstrip (reverse s) ≡ reverse s → strip (s ++ (13 ∷ 10 ∷ [])) ≡ s
unfolding strip lstrip is_space
strip_line (c ∷ s) front back =
    let starts : lstrip ((c ∷ s) ++ (13 ∷ 10 ∷ [])) ≡ (c ∷ s) ++ (13 ∷ 10 ∷ []) =
      lstrip_keeps c s (13 ∷ 10 ∷ []) front in
    rw (starts, reverse-append (c ∷ s) (13 ∷ 10 ∷ []), back) (reverse-reverse (c ∷ s))
strip_line [] front back = refl

format_port_command-argument_of :
    (a b c d port : ℕ)
    → format_port_command (dotted a b c d) port
      ≡ codes "PORT " ++ (argument_of a b c d port ++ (13 ∷ 10 ∷ []))
unfolding format_port_command
format_port_command-argument_of a b c d port =
    rw (split_onto-dotted a b c d)
      (ap (λ t. codes "PORT " ++ t) (join-six a b c d (port / 256) (port % 256) (13 ∷ 10 ∷ [])))

strip_number :
    (s q : Text)
    → 1 ≤ length q
    → IsDigits q
    → lstrip (s ++ q) ≡ s ++ q
    → strip ((s ++ q) ++ (13 ∷ 10 ∷ [])) ≡ s ++ q
strip_number s q n h front = strip_line (s ++ q) front (
    rw (reverse-append s q)
      (lstrip_digit (reverse q) (reverse s) (length-reverse_lem q n) (reverse-IsDigits q h)))

-- The words of the line that the client sends.
parse_port :
    (line s : Text)
    → lstrip s ≡ s
    → strip line ≡ codes "PORT " ++ s
    → parse line ≡ record { name = codes "PORT"; argument = s }
unfolding parse split_word upper upper_char lstrip is_space
parse_port line s front e = rw (e, front) refl

-- The argument up to its last number.
abbrev front_of : ℕ → ℕ → ℕ → ℕ → ℕ → Text
front_of a b c d p =
    decimal a
    ++ (b','
        ∷ (decimal b
            ++ (b',' ∷ (decimal c ++ (b',' ∷ (decimal d ++ (b',' ∷ (decimal p ++ (b',' ∷ [])))))))))

argument_of-front_of :
    (a b c d port : ℕ)
    → argument_of a b c d port ≡ front_of a b c d (port / 256) ++ decimal (port % 256)
unfolding join
argument_of-front_of a b c d port = simp append_assoc

parse-format_port_command :
    (a b c d port : ℕ)
    → parse (format_port_command (dotted a b c d) port)
      ≡ record { name = codes "PORT"; argument = argument_of a b c d port }
unfolding join lstrip is_space
parse-format_port_command a b c d port =
    let s = argument_of a b c d port in
    let low = decimal (port % 256) in
    let whole : codes "PORT " ++ s ≡ (codes "PORT " ++ front_of a b c d (port / 256)) ++ low =
      ap (λ t. codes "PORT " ++ t) (argument_of-front_of a b c d port) in
    ap parse (format_port_command-argument_of a b c d port)
    ∙ parse_port (codes "PORT " ++ (s ++ (13 ∷ 10 ∷ []))) s
        (lstrip_digit (decimal a)
          (b','
            ∷ join (b',' ∷ [])
                (decimal b ∷ decimal c ∷ decimal d ∷ decimal (port / 256) ∷ low ∷ []))
          (length-decimal a) (decimal-IsDigits a))
        (ap (λ t. strip (t ++ (13 ∷ 10 ∷ []))) whole
          ∙ strip_number (codes "PORT " ++ front_of a b c d (port / 256)) low
              (length-decimal (port % 256)) (decimal-IsDigits (port % 256)) refl
          ∙ sym whole)

port_address-argument_of :
    (a b c d port : ℕ)
    → a < 256
    → b < 256
    → c < 256
    → d < 256
    → 0 < port
    → port < 65536
    → port_address (argument_of a b c d port) ≡ some (dotted a b c d, port)
unfolding port_address address_of
port_address-argument_of a b c d port ha hb hc hd low high =
    let lowest : ltb 0 port ≡ true = ground arith in
    let highest : leb port 65535 ≡ true = ground arith in
    rw
      (
        split_onto-six a b c d (port / 256) (port % 256),
        octets-six a b c d (port / 256) (port % 256) ha hb hc hd (omega arith) (omega arith),
        port_bytes port,
        lowest,
        highest,
      )
      refl

-- For an address of four octets and a port: the server reads from the line that the client sends
-- the command PORT with that address and that port.
pub port_address-format_port_command :
    (a b c d port : ℕ)
    → a < 256
    → b < 256
    → c < 256
    → d < 256
    → 0 < port
    → port < 65536
    → (parse (format_port_command (dotted a b c d) port)).name ≡ codes "PORT"
      × port_address (parse (format_port_command (dotted a b c d) port)).argument
        ≡ some (dotted a b c d, port)
port_address-format_port_command a b c d port ha hb hc hd low high =
    let e = parse-format_port_command a b c d port in
    (
      ap (λ command. command.name) e,
      ap (λ command. port_address command.argument) e
          ∙ port_address-argument_of a b c d port ha hb hc hd low high,
    )
