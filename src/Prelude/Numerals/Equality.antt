-- ===== src/Prelude/Numerals/Equality.antt =====
-- The test of two texts decides their equality.
use mathlib.Core.Path.{◌≡◌, refl, ap₂, subst}
use mathlib.Core.Logic.{inl, inr}
use mathlib.Core.Bool.{true, false, ◌&&◌}
use mathlib.Core.List.{[], ◌∷◌}
use native.Mathlib.Omega.{arith}
use hybrid_ftp_socket.Prelude.Tests.{◌==◌, Bool-cases}
use hybrid_ftp_socket.Prelude.Numerals.{Text, text_eq}

pub text_eq_lem : (s t : Text) → text_eq s t ≡ true → s ≡ t
unfolding text_eq
text_eq_lem [] [] e = refl
text_eq_lem [] (d ∷ t) e = absurd cc
text_eq_lem (c ∷ s) [] e = absurd cc
text_eq_lem (c ∷ s) (d ∷ t) e = elim (Bool-cases (c == d)) [
  | inl same ↦
      let heads : c ≡ d = ground arith in
      let tails : text_eq s t ≡ true = subst (λ b. (b && text_eq s t) ≡ true) same e in
      ap₂ (λ a r. a ∷ r) heads (text_eq_lem s t tails)
  | inr other ↦ let no : false ≡ true = subst (λ b. (b && text_eq s t) ≡ true) other e in absurd cc
]

pub text_eq_refl : (s : Text) → text_eq s s ≡ true
unfolding text_eq
text_eq_refl [] = refl
text_eq_refl (c ∷ s) = let same : (c == c) ≡ true = ground arith in rw (same, text_eq_refl s) refl
