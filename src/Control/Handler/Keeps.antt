-- ===== src/Control/Handler/Keeps.antt =====
-- The parts that the handlers are made of keep whatever they keep on each of their ways.
use hybrid_ftp_socket.Prelude.{ℕ, Bool, true, false, ◌≡◌, refl, [], ◌∷◌, if◌then◌else◌}
use hybrid_ftp_socket.Prelude.Numerals.{Text}
use hybrid_ftp_socket.Control.Session.{Session}
use hybrid_ftp_socket.Control.Files.{Files, Outcome, returned, refused, crashed}
use hybrid_ftp_socket.Control.Replies.{not_logged_in}
use hybrid_ftp_socket.Control.Handler.Base.{
  Handled, says, logged_in, with_argument, no_argument, on_outcome, on_outcome_or_raise,
}

module _ (files : Files) (P : Session → Type 0) where
  pub logged_in_keeps :
      (s : Session) (disk : files.Disk) (counter : ℕ) (rest : Handled files.Disk)
      → P s
      → (s.is_logged_in ≡ true → P rest.session)
      → P (logged_in files.Disk s disk counter rest).session
  logged_in_keeps s disk counter rest v k = by_login s.is_logged_in k
    where
      by_login :
          (b : Bool)
          → (b ≡ true → P rest.session)
          → P (if b then rest else says files.Disk s disk counter not_logged_in).session
      by_login true k = k refl
      by_login false k = v

  pub with_argument_keeps :
      (arg : Text) (s : Session) (disk : files.Disk) (counter : ℕ) (missing : Text)
      (rest : Handled files.Disk)
      → P s
      → P rest.session
      → P (with_argument files.Disk arg s disk counter missing rest).session
  with_argument_keeps [] s disk counter missing rest v k = v
  with_argument_keeps (c ∷ arg) s disk counter missing rest v k = k

  pub no_argument_keeps :
      (arg : Text) (s : Session) (disk : files.Disk) (counter : ℕ) (syntax : Text)
      (rest : Handled files.Disk)
      → P s
      → P rest.session
      → P (no_argument files.Disk arg s disk counter syntax rest).session
  no_argument_keeps [] s disk counter syntax rest v k = k
  no_argument_keeps (c ∷ arg) s disk counter syntax rest v k = v

  pub on_outcome_keeps {ℓ} :
      {A : Type ℓ} (s : Session) (disk : files.Disk) (counter : ℕ) (crash : Text)
      (outcome : Outcome A) (next : A → Handled files.Disk)
      → P s
      → ((a : A) → outcome ≡ returned a → P (next a).session)
      → P (on_outcome files.Disk s disk counter crash outcome next).session
  unfolding on_outcome
  on_outcome_keeps s disk counter crash (returned a) next v k = k a refl
  on_outcome_keeps s disk counter crash (refused reply_code message) next v k = v
  on_outcome_keeps s disk counter crash crashed next v k = v

  pub on_outcome_or_raise_keeps {ℓ} :
      {A : Type ℓ} (s : Session) (disk : files.Disk) (counter : ℕ) (outcome : Outcome A)
      (next : A → Handled files.Disk)
      → P s
      → ((a : A) → P (next a).session)
      → P (on_outcome_or_raise files.Disk s disk counter outcome next).session
  unfolding on_outcome_or_raise
  on_outcome_or_raise_keeps s disk counter (returned a) next v k = k a
  on_outcome_or_raise_keeps s disk counter (refused reply_code message) next v k = v
  on_outcome_or_raise_keeps s disk counter crashed next v k = v
