-- ===== src/Control/Handler/Invariant/Bounce.antt =====
-- What the check of `port_cmd` against a bounce lets through.
use hybrid_ftp_socket.Prelude.{
  Bool, true, false, not, ◌&&◌, ◌||◌, Option, none, some, ◌≡◌, refl, inl, inr, [], ◌∷◌,
}
use hybrid_ftp_socket.Prelude.Text.{codes}
use hybrid_ftp_socket.Prelude.Numerals.{Text, text_eq}
use hybrid_ftp_socket.Prelude.Numerals.Equality.{text_eq_lem}
use hybrid_ftp_socket.Control.Handler.Parameters.{is_bounce}
use hybrid_ftp_socket.Control.Handler.Invariant.{IsAllowed}

-- An address that passes the check against a bounce is allowed.
pub is_bounce-IsAllowed :
    (peer : Option Text) (host : Text) → is_bounce peer host ≡ false → IsAllowed peer host
unfolding is_bounce
is_bounce-IsAllowed none host e = tt
is_bounce-IsAllowed (some []) host e = tt
is_bounce-IsAllowed (some (c ∷ peer)) host e =
    by_tests (text_eq (c ∷ peer) (codes "127.0.0.1")) (text_eq (c ∷ peer) (codes "::1"))
      (text_eq (c ∷ peer) (codes "localhost")) (text_eq host (c ∷ peer))
      (text_eq host (codes "127.0.0.1")) (text_eq host (codes "localhost"))
      (text_eq_lem (c ∷ peer) (codes "127.0.0.1")) (text_eq_lem (c ∷ peer) (codes "::1"))
      (text_eq_lem (c ∷ peer) (codes "localhost")) (text_eq_lem host (c ∷ peer))
      (text_eq_lem host (codes "127.0.0.1")) (text_eq_lem host (codes "localhost")) e
  where
    by_tests :
        (l m n h a b : Bool)
        → (l ≡ true → c ∷ peer ≡ codes "127.0.0.1")
        → (m ≡ true → c ∷ peer ≡ codes "::1")
        → (n ≡ true → c ∷ peer ≡ codes "localhost")
        → (h ≡ true → host ≡ c ∷ peer)
        → (a ≡ true → host ≡ codes "127.0.0.1")
        → (b ≡ true → host ≡ codes "localhost")
        → (not (l || m || n) && not h && not (a || b)) ≡ false
        → IsAllowed (some (c ∷ peer)) host
    by_tests true m n h a b fl fm fn fh fa fb e = inl (inl (fl refl))
    by_tests false true n h a b fl fm fn fh fa fb e = inl (inr (inl (fm refl)))
    by_tests false false true h a b fl fm fn fh fa fb e = inl (inr (inr (fn refl)))
    by_tests false false false true a b fl fm fn fh fa fb e = inr (inl (fh refl))
    by_tests false false false false true b fl fm fn fh fa fb e = inr (inr (inl (fa refl)))
    by_tests false false false false false true fl fm fn fh fa fb e = inr (inr (inr (fb refl)))
    by_tests false false false false false false fl fm fn fh fa fb e = absurd cc
