-- ===== src/Prelude/Numerals.antt =====
-- Numbers as text: Python's `str` and `int` on ASCII text, and `str.split` on a separator.
pub mod Laws
pub mod Equality
use Prim.Native.Nat.{ℕ, zero, suc, ◌+◌, ◌*◌, ◌-◌, ◌/◌, ◌%◌}
use mathlib.Core.Bool.{Bool, true, false, ◌&&◌, ◌||◌}
use mathlib.Core.Option.{Option, none, some}
use mathlib.Core.List.{List, [], ◌∷◌, ◌++◌}
use hybrid_ftp_socket.Prelude.Tests.{leb, ltb, ◌==◌, if◌then◌else◌}
use hybrid_ftp_socket.Prelude.Lists.{length, replicate}
use hybrid_ftp_socket.Prelude.Text.{strip}

abbrev pub Text : Type 0
Text = List ℕ

unfoldable pub text_eq : Text → Text → Bool
text_eq [] [] = true
text_eq [] (d ∷ t) = false
text_eq (c ∷ s) [] = false
text_eq (c ∷ s) (d ∷ t) = c == d && text_eq s t

abbrev pub is_empty : Text → Bool
is_empty [] = true
is_empty (c ∷ s) = false

-- `str(n)`: the last digit goes in front of `acc`. `n` divisions are enough.
unfoldable pub decimal_onto : ℕ → ℕ → Text → Text
decimal_onto zero n acc = acc
decimal_onto (suc fuel) n acc = elim (ltb n 10) [
  | true ↦ (48 + n) ∷ acc
  | false ↦ decimal_onto fuel (n / 10) ((48 + n % 10) ∷ acc)
]

unfoldable pub decimal : ℕ → Text
decimal n = decimal_onto (suc n) n []

-- `f"{n:06d}"` for `width` 6.
unfoldable pub padded : ℕ → ℕ → Text
padded width n = replicate (width - length (decimal n)) b'0' ++ decimal n

unfoldable pub is_digit : ℕ → Bool
is_digit c = leb b'0' c && leb c b'9'

-- The digits behind the first: an underscore may stand between two of them.
unfoldable pub more_digits : ℕ → Text → Option ℕ
more_digits acc [] = some acc
more_digits acc (c ∷ []) = if is_digit c then some (acc * 10 + (c - 48)) else none
more_digits acc (c ∷ d ∷ s) =
    let next = more_digits (acc * 10 + (c - 48)) (d ∷ s) in
    let skipped = more_digits (acc * 10 + (d - 48)) s in
    if is_digit c then next else if c == b'_' && is_digit d then skipped else none

unfoldable pub digits : Text → Option ℕ
digits [] = none
digits (c ∷ s) = if is_digit c then more_digits (c - 48) s else none

-- What `int(text)` returns: the sign (true for minus) and the absolute value; none is its
-- `ValueError`.
unfoldable pub signed : Text → Option (Bool × ℕ)
signed [] = none
signed (c ∷ s) =
    if c == b'-'
    then elim (digits s) [ none ↦ none | some n ↦ some (true, n) ]
    else if c == b'+'
    then elim (digits s) [ none ↦ none | some n ↦ some (false, n) ]
    else elim (digits (c ∷ s)) [ none ↦ none | some n ↦ some (false, n) ]

unfoldable pub int_of : Text → Option (Bool × ℕ)
int_of text = signed (strip text)

-- `text.split(separator)` for one character; the part that is being read stands in front.
unfoldable pub split_onto : ℕ → Text → List Text
split_onto separator [] = [] ∷ []
split_onto separator (c ∷ s) = elim (c == separator) [
  | true ↦ [] ∷ split_onto separator s
  | false ↦ elim (split_onto separator s) [ [] ↦ (c ∷ []) ∷ [] | part ∷ parts ↦ (c ∷ part) ∷ parts ]
]

-- `separator.join(parts)`
unfoldable pub join : Text → List Text → Text
join separator [] = []
join separator (part ∷ []) = part
join separator (part ∷ next ∷ parts) = part ++ (separator ++ join separator (next ∷ parts))
