-- ===== src/Control/Handler/Invariant.antt =====
-- What holds of a session between two commands.
pub mod Bounce
pub mod Commands
pub mod Kept
use hybrid_ftp_socket.Prelude.{
  ℕ, ◌+◌, ◌<◌, ◌≤◌, Bool, true, false, Option, none, some, ◌≡◌, refl, ◌⊎◌, inl, inr, List, [], ◌∷◌,
  Bool-cases, if◌then◌else◌,
}
use hybrid_ftp_socket.Prelude.Text.{codes}
use hybrid_ftp_socket.Prelude.Numerals.{Text, is_empty}
use hybrid_ftp_socket.Rdt.Context.{is_mode, is_type}
use hybrid_ftp_socket.Control.Session.{Session, DataMode, active, passive, opened}
use hybrid_ftp_socket.Control.Files.{Files, Outcome, returned, refused, crashed}
use hybrid_ftp_socket.Control.Replies.{not_logged_in}
use hybrid_ftp_socket.Control.Handler.Base.{
  Handled, says, logged_in, with_argument, no_argument, on_outcome, on_outcome_or_raise,
}

-- A peer on the server's own machine, as the code names it.
abbrev pub IsLocal : Text → Type 0
IsLocal peer = (peer ≡ codes "127.0.0.1") ⊎ (peer ≡ codes "::1") ⊎ (peer ≡ codes "localhost")

-- Where the data of a session may go: to the address of its peer or to the server's own machine;
-- for a peer that is local, or whose address is not known, anywhere.
abbrev pub IsAllowed : Option Text → Text → Type 0
IsAllowed none host = Unit
IsAllowed (some []) host = Unit
IsAllowed (some (c ∷ peer)) host =
    IsLocal (c ∷ peer) ⊎ (host ≡ c ∷ peer) ⊎ (host ≡ codes "127.0.0.1") ⊎ (host ≡ codes "localhost")

-- The data connection has an address, a port and a mode, or none of them. An active one leads to a
-- host that is allowed, and to a port that there is.
abbrev pub IsEndpoint : Option Text → Option Text → Option ℕ → Option DataMode → Type 0
IsEndpoint peer none none none = Unit
IsEndpoint peer (some host) (some port) (some active) =
    IsAllowed peer host × (0 < port) × (port ≤ 65535)
IsEndpoint peer (some host) (some port) (some passive) = Unit
IsEndpoint peer host port mode = ⊥

module _ (files : Files) where
  -- Who is logged in has a name, only they have a name to rename, the mode and the type are those
  -- of the codecs, the directory is inside the root, and the data connection is an endpoint.
  pub record IsValid (s : Session) : Type 0 where
    pub user : (s.is_logged_in ≡ false) ⊎ ((name : Text) × (s.username ≡ some name))
    pub renaming :
        (s.rename_from ≡ none)
        ⊎ ((s.is_logged_in ≡ true) × (c : ℕ) × (old : Text) × (s.rename_from ≡ some (c ∷ old)))
    pub mode : is_mode s.transfer_mode ≡ true
    pub type : is_type s.transfer_type ≡ true
    pub inside : files.IsInside s.current_dir
    pub endpoint : IsEndpoint s.peer_ip s.data_host s.data_port s.data_mode

  -- A session starts so, in a directory of the service.
  pub opened-IsValid :
      (ftp_root : Text) (peer_ip server_ip : Option Text)
      → files.IsInside ftp_root
      → IsValid (opened ftp_root peer_ip server_ip)
  unfolding is_mode is_type
  opened-IsValid ftp_root peer_ip server_ip i = record {
    user = inl refl;
    renaming = inl refl;
    mode = refl;
    type = refl;
    inside = i;
    endpoint = tt;
  }
