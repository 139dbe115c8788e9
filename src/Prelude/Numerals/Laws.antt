-- ===== src/Prelude/Numerals/Laws.antt =====
-- `int` reads what `str` writes, and `split` takes apart what `join` has put together.
use Prim.Native.Nat.{ℕ, zero, suc, ◌+◌, ◌*◌, ◌-◌, ◌/◌, ◌%◌, ◌≤◌, ◌<◌}
use mathlib.Core.Path.{◌≡◌, refl, sym, ap, ◌∙◌, subst}
use mathlib.Core.Logic.{inl, inr}
use mathlib.Core.Bool.{true, false}
use mathlib.Core.Option.{some}
use mathlib.Core.List.{List, [], ◌∷◌, ◌++◌, reverse, reverse-cons, reverse-reverse}
use native.Mathlib.Omega.{arith}
use hybrid_ftp_socket.Prelude.Tests.{ltb, ◌==◌, Bool-cases}
use hybrid_ftp_socket.Prelude.Lists.{length, All, All-append}
use hybrid_ftp_socket.Prelude.Text.{is_space, lstrip, strip}
use hybrid_ftp_socket.Prelude.Numerals.{
  Text, decimal_onto, decimal, is_digit, more_digits, digits, signed, int_of, split_onto, join,
}

-- The characters of a number.
abbrev pub IsDigits : Text → Type 0
IsDigits = All (λ c. is_digit c ≡ true)

value : ℕ → Text → ℕ
value acc [] = acc
value acc (c ∷ s) = value (acc * 10 + (c - 48)) s

more_digits-value : (acc : ℕ) (s : Text) → IsDigits s → more_digits acc s ≡ some (value acc s)
unfolding more_digits value
more_digits-value acc [] h = refl
more_digits-value acc (c ∷ []) h = rw h.0 refl
more_digits-value acc (c ∷ d ∷ s) h = rw h.0 (more_digits-value (acc * 10 + (c - 48)) (d ∷ s) h.1)

digit_is_digit : (n : ℕ) → n < 10 → is_digit (48 + n) ≡ true
unfolding is_digit
digit_is_digit n h = ground arith

decimal_onto-value :
    (fuel n : ℕ) (acc : Text) → n < fuel → value 0 (decimal_onto fuel n acc) ≡ value n acc
unfolding decimal_onto value
decimal_onto-value zero n acc h = absurd (omega arith)
decimal_onto-value (suc fuel) n acc h = elim (Bool-cases (ltb n 10)) [
  | inl t ↦ rw (t, decimal_onto) (ap (λ v. value v acc) (omega arith))
  | inr t ↦
      let big : 10 ≤ n = ground arith in
      rw (t, decimal_onto)
        (decimal_onto-value fuel (n / 10) ((48 + n % 10) ∷ acc) (omega arith)
          ∙ ap (λ v. value v acc) (omega arith))
]

decimal_onto-IsDigits :
    (fuel n : ℕ) (acc : Text) → IsDigits acc → IsDigits (decimal_onto fuel n acc)
unfolding decimal_onto
decimal_onto-IsDigits zero n acc h = h
decimal_onto-IsDigits (suc fuel) n acc h = elim (Bool-cases (ltb n 10)) [
  | inl t ↦ rw (t, decimal_onto) (digit_is_digit n (ground arith), h)
  | inr t ↦
      rw (t, decimal_onto)
        (decimal_onto-IsDigits fuel (n / 10) ((48 + n % 10) ∷ acc)
          (digit_is_digit (n % 10) (omega arith), h))
]

pub decimal-IsDigits : (n : ℕ) → IsDigits (decimal n)
unfolding decimal
decimal-IsDigits n = decimal_onto-IsDigits (suc n) n [] tt

length-decimal_onto : (fuel n : ℕ) (acc : Text) → length acc ≤ length (decimal_onto fuel n acc)
unfolding decimal_onto
length-decimal_onto zero n acc = omega arith
length-decimal_onto (suc fuel) n acc = elim (Bool-cases (ltb n 10)) [
  | inl t ↦ rw (t, decimal_onto) (omega arith)
  | inr t ↦
      rw (t, decimal_onto) (omega (arith, length-decimal_onto fuel (n / 10) ((48 + n % 10) ∷ acc)))
]

pub length-decimal : (n : ℕ) → 1 ≤ length (decimal n)
unfolding decimal decimal_onto
length-decimal n = elim (Bool-cases (ltb n 10)) [
  | inl t ↦ rw (t, decimal_onto) (omega arith)
  | inr t ↦
      rw (t, decimal_onto) (omega (arith, length-decimal_onto n (n / 10) ((48 + n % 10) ∷ [])))
]

lstrip-IsDigits : (s : Text) → IsDigits s → lstrip s ≡ s
unfolding lstrip is_space is_digit
lstrip-IsDigits [] h = refl
lstrip-IsDigits (c ∷ s) h = let no : is_space c ≡ false = ground arith in rw no refl

pub reverse-IsDigits : (s : Text) → IsDigits s → IsDigits (reverse s)
reverse-IsDigits [] h = tt
reverse-IsDigits (c ∷ s) h =
    subst IsDigits (sym (reverse-cons c s))
      (All-append (λ c. is_digit c ≡ true) (reverse s) (c ∷ []) (reverse-IsDigits s h.1) (h.0, tt))

pub strip-IsDigits : (s : Text) → IsDigits s → strip s ≡ s
unfolding strip
strip-IsDigits s h =
    rw (lstrip-IsDigits s h, lstrip-IsDigits (reverse s) (reverse-IsDigits s h)) (reverse-reverse s)

digits-value : (s : Text) → 1 ≤ length s → IsDigits s → digits s ≡ some (value 0 s)
unfolding digits value
digits-value [] l h = absurd (omega arith)
digits-value (c ∷ s) l h =
    rw h.0 (more_digits-value (c - 48) s h.1 ∙ ap (λ v. some (value v s)) (omega arith))

signed-value : (s : Text) → 1 ≤ length s → IsDigits s → signed s ≡ some (false, value 0 s)
unfolding signed is_digit
signed-value [] l h = absurd (omega arith)
signed-value (c ∷ s) l h =
    let no_minus : (c == b'-') ≡ false = ground arith in
    let no_plus : (c == b'+') ≡ false = ground arith in
    rw (no_minus, no_plus, digits-value (c ∷ s) l h) refl

pub int_of-decimal : (n : ℕ) → int_of (decimal n) ≡ some (false, n)
unfolding int_of value decimal decimal_onto
int_of-decimal n =
    rw
      (
        strip-IsDigits (decimal n) (decimal-IsDigits n),
        signed-value (decimal n) (length-decimal n) (decimal-IsDigits n),
      )
      (ap (λ v. some (false, v)) (value-decimal n))
  where
    value-decimal : (n : ℕ) → value 0 (decimal n) ≡ n
    value-decimal n = decimal_onto-value (suc n) n [] (omega arith)

-- The separator does not stand in the text.
abbrev pub IsWithout : ℕ → Text → Type 0
IsWithout separator = All (λ c. (c == separator) ≡ false)

split_onto-last :
    (separator : ℕ) (part : Text) → IsWithout separator part → split_onto separator part ≡ part ∷ []
unfolding split_onto
split_onto-last separator [] h = refl
split_onto-last separator (c ∷ part) h =
    rw (h.0, split_onto, split_onto-last separator part h.1) refl

split_onto-part :
    (separator : ℕ) (part rest : Text)
    → IsWithout separator part
    → split_onto separator (part ++ (separator ∷ rest)) ≡ part ∷ split_onto separator rest
unfolding split_onto
split_onto-part separator [] rest h =
    let same : (separator == separator) ≡ true = ground arith in rw (same, split_onto) refl
split_onto-part separator (c ∷ part) rest h =
    rw (h.0, split_onto, split_onto-part separator part rest h.1) refl

-- What was joined from parts without the separator is split into them again.
pub split_onto-join :
    (separator : ℕ) (part : Text) (parts : List Text)
    → All (IsWithout separator) (part ∷ parts)
    → split_onto separator (join (separator ∷ []) (part ∷ parts)) ≡ part ∷ parts
unfolding join
split_onto-join separator part [] h = split_onto-last separator part h.0
split_onto-join separator part (next ∷ parts) h =
    split_onto-part separator part (join (separator ∷ []) (next ∷ parts)) h.0
    ∙ ap (λ r. part ∷ r) (split_onto-join separator next parts h.1)

IsDigits-IsWithout :
    (separator : ℕ) (s : Text) → is_digit separator ≡ false → IsDigits s → IsWithout separator s
IsDigits-IsWithout separator [] n h = tt
IsDigits-IsWithout separator (c ∷ s) n h = (other c h.0, IsDigits-IsWithout separator s n h.1)
  where
    other : (c : ℕ) → is_digit c ≡ true → (c == separator) ≡ false
    other c d = elim (Bool-cases (c == separator)) [
      | inr f ↦ f
      | inl t ↦ let same : c ≡ separator = ground arith in absurd (cc (same, d, n))
    ]

pub decimal-IsWithout :
    (separator n : ℕ) → is_digit separator ≡ false → IsWithout separator (decimal n)
decimal-IsWithout separator n d = IsDigits-IsWithout separator (decimal n) d (decimal-IsDigits n)
