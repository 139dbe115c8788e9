-- ===== src/Control/Connection/Lines.antt =====
-- server/client_handler.py: `self.buffer.split(b"\r\n", 1)`.
use hybrid_ftp_socket.Prelude.{
  ℕ, suc, ◌<◌, Bytes, Bool, true, false, ◌&&◌, Option, none, some, [], ◌∷◌, ◌++◌, length, ◌==◌, ◌≡◌,
  refl, sym, arith, inl, inr, ◌⊎◌,
}

-- The line in front of the first line end, and what follows it; none if there is no line end.
-- `split_at` is that for a byte in front, when the rest is known.
unfoldable pub split_at : Bool → ℕ → Bytes → Option (Bytes × Bytes) → Option (Bytes × Bytes)
split_at true b buffer found = some ([], buffer)
split_at false b buffer none = none
split_at false b buffer (some (line, rest)) = some (b ∷ line, rest)

unfoldable pub split_line : Bytes → Option (Bytes × Bytes)
split_line [] = none
split_line (b ∷ []) = none
split_line (b ∷ next ∷ buffer) =
    split_at (b == 13 && next == 10) b buffer (split_line (next ∷ buffer))

pub split_line-append :
    (buffer more line rest : Bytes)
    → split_line buffer ≡ some (line, rest)
    → split_line (buffer ++ more) ≡ some (line, rest ++ more)
unfolding split_line split_at
split_line-append [] more line rest e = absurd cc
split_line-append (b ∷ []) more line rest e = absurd cc
split_line-append (b ∷ next ∷ buffer) more line rest e =
    by_test (b == 13 && next == 10) (split_line (next ∷ buffer))
      (split_line-append (next ∷ buffer) more) e
  where
    by_test :
        (test : Bool) (found : Option (Bytes × Bytes))
        → ((l r : Bytes)
            → found ≡ some (l, r)
            → split_line (next ∷ (buffer ++ more)) ≡ some (l, r ++ more))
        → split_at test b buffer found ≡ some (line, rest)
        → split_at test b (buffer ++ more) (split_line (next ∷ (buffer ++ more)))
          ≡ some (line, rest ++ more)
    by_test true found ih e = cc
    by_test false none ih e = absurd cc
    by_test false (some (l, r)) ih e = rw (ih l r refl) cc

pub split_line-length :
    (buffer line rest : Bytes) → split_line buffer ≡ some (line, rest) → length rest < length buffer
unfolding split_line split_at
split_line-length [] line rest e = absurd cc
split_line-length (b ∷ []) line rest e = absurd cc
split_line-length (b ∷ next ∷ buffer) line rest e =
    by_test (b == 13 && next == 10) (split_line (next ∷ buffer)) (split_line-length (next ∷ buffer))
      e
  where
    by_test :
        (test : Bool) (found : Option (Bytes × Bytes))
        → ((l r : Bytes) → found ≡ some (l, r) → length r < suc (length buffer))
        → split_at test b buffer found ≡ some (line, rest)
        → length rest < suc (suc (length buffer))
    by_test true found ih e = let same : buffer ≡ rest = cc in rw (sym same) (omega arith)
    by_test false none ih e = absurd cc
    by_test false (some (l, r)) ih e =
        let same : r ≡ rest = cc in rw (sym same) (omega (arith, ih l r refl))

-- A line without a line end in it is cut off in front of the one that follows it.
pub split_line-line :
    (line rest : Bytes)
    → split_line line ≡ none
    → split_line (line ++ (13 ∷ 10 ∷ rest)) ≡ some (line, rest)
unfolding split_line split_at
split_line-line [] rest e = refl
split_line-line (b ∷ []) rest e =
    let no : (b == 13 && 13 == 10) ≡ false = ground arith in rw no refl
split_line-line (b ∷ next ∷ line) rest e =
    by_test (b == 13 && next == 10) (split_line (next ∷ line)) (split_line-line (next ∷ line) rest)
      e
  where
    by_test :
        (test : Bool) (found : Option (Bytes × Bytes))
        → (found ≡ none → split_line (next ∷ (line ++ (13 ∷ 10 ∷ rest))) ≡ some (next ∷ line, rest))
        → split_at test b line found ≡ none
        → split_at test b
            (line ++ (13 ∷ 10 ∷ rest))
            (split_line (next ∷ (line ++ (13 ∷ 10 ∷ rest))))
          ≡ some (b ∷ next ∷ line, rest)
    by_test true found ih e = absurd cc
    by_test false none ih e = rw (ih refl) refl
    by_test false (some (l, r)) ih e = absurd cc

-- A buffer has a line in it or not.
pub split_line_cases :
    (buffer : Bytes)
    → (split_line buffer ≡ none)
      ⊎ ((line : Bytes) × (rest : Bytes) × (split_line buffer ≡ some (line, rest)))
split_line_cases buffer = by_found (split_line buffer) refl
  where
    by_found :
        (found : Option (Bytes × Bytes))
        → split_line buffer ≡ found
        → (split_line buffer ≡ none)
          ⊎ ((line : Bytes) × (rest : Bytes) × (split_line buffer ≡ some (line, rest)))
    by_found none e = inl e
    by_found (some (line, rest)) e = inr (line, rest, e)
