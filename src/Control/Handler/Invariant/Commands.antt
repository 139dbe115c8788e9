-- ===== src/Control/Handler/Invariant/Commands.antt =====
-- Every command keeps the invariant of the session.
use hybrid_ftp_socket.Prelude.{
  ℕ, ◌<◌, ◌≤◌, Bool, true, false, not, Option, none, some, Option-cases, ◌≡◌, refl, inl, inr, List,
  [], ◌∷◌, Bool-cases, if◌then◌else◌, arith,
}
use hybrid_ftp_socket.Prelude.Text.{strip}
use hybrid_ftp_socket.Prelude.Numerals.{Text, is_empty, split_onto}
use hybrid_ftp_socket.Rdt.Context.{is_mode, is_type}
use hybrid_ftp_socket.Control.Session.{Session, Given, Operation}
use hybrid_ftp_socket.Control.Files.{Files}
use hybrid_ftp_socket.Control.Replies.{line}
use hybrid_ftp_socket.Control.Handler.Base.{Handled, says}
use hybrid_ftp_socket.Control.Handler.Login.{user, password_for}
use hybrid_ftp_socket.Control.Handler.Directories.{rename_to}
use hybrid_ftp_socket.Control.Handler.Parameters.{
  octets, address_of, port_address, is_bounce, use_address, port_cmd, pasv_cmd,
}
use hybrid_ftp_socket.Control.Handler.Transfers.{
  has_endpoint, transfer_in_progress, start_transfer, begin,
}
use hybrid_ftp_socket.Control.Handler.Keeps.{
  logged_in_keeps, with_argument_keeps, no_argument_keeps, on_outcome_keeps,
}
use hybrid_ftp_socket.Control.Handler.Invariant.{IsValid}
use hybrid_ftp_socket.Control.Handler.Invariant.Bounce.{is_bounce-IsAllowed}

-- The port that PORT reads is one.
address_of-port :
    (nums : Option (List ℕ)) (ip : Text) (port : ℕ)
    → address_of nums ≡ some (ip, port)
    → (0 < port) × (port ≤ 65535)
unfolding address_of
address_of-port (some (a ∷ b ∷ c ∷ d ∷ p ∷ q ∷ [])) ip port e = ground arith
address_of-port none ip port e = absurd cc
address_of-port (some []) ip port e = absurd cc
address_of-port (some (a ∷ [])) ip port e = absurd cc
address_of-port (some (a ∷ b ∷ [])) ip port e = absurd cc
address_of-port (some (a ∷ b ∷ c ∷ [])) ip port e = absurd cc
address_of-port (some (a ∷ b ∷ c ∷ d ∷ [])) ip port e = absurd cc
address_of-port (some (a ∷ b ∷ c ∷ d ∷ p ∷ [])) ip port e = absurd cc
address_of-port (some (a ∷ b ∷ c ∷ d ∷ p ∷ q ∷ r ∷ nums)) ip port e = absurd cc

module _ (files : Files) where
  pub renamed :
      (s : Session) (c : ℕ) (old : Text)
      → s.is_logged_in ≡ true
      → IsValid files s
      → IsValid files (record s { rename_from = some (c ∷ old) })
  renamed s c old l v = record {
    user = v.user;
    renaming = inr (l, c, old, refl);
    mode = v.mode;
    type = v.type;
    inside = v.inside;
    endpoint = v.endpoint;
  }

  pub forgotten : (s : Session) → IsValid files s → IsValid files (record s { rename_from = none })
  forgotten s v = record {
    user = v.user;
    renaming = inl refl;
    mode = v.mode;
    type = v.type;
    inside = v.inside;
    endpoint = v.endpoint;
  }

  pub moved :
      (s : Session) (path : Text)
      → files.IsInside path
      → IsValid files s
      → IsValid files (record s { current_dir = path })
  moved s path i v = record {
    user = v.user;
    renaming = v.renaming;
    mode = v.mode;
    type = v.type;
    inside = i;
    endpoint = v.endpoint;
  }

  pub user-IsValid :
      (arg : Text) (s : Session) (disk : files.Disk) (counter : ℕ)
      → IsValid files s
      → IsValid files (user files.Disk arg s disk counter).session
  unfolding user
  user-IsValid arg s disk counter v = elim (Bool-cases (is_empty (strip arg))) [
    | inl t ↦ rw t v
    | inr t ↦ rw t (record {
      user = inl refl;
      renaming = inl refl;
      mode = v.mode;
      type = v.type;
      inside = v.inside;
      endpoint = v.endpoint;
    })
  ]

  pub password-IsValid :
      (name : Option Text) (arg : Text) (s : Session) (disk : files.Disk) (counter : ℕ)
      → s.username ≡ name
      → s.rename_from ≡ none
      → IsValid files s
      → IsValid files (password_for files.Disk name arg s disk counter).session
  unfolding password_for
  password-IsValid none arg s disk counter e r v = v
  password-IsValid (some name) arg s disk counter e r v = elim (Bool-cases s.is_logged_in) [
    | inl t ↦ simp t v
    | inr t ↦ elim (Bool-cases (is_empty arg)) [
      | inl u ↦
          simp (t, u)
            (record {
              user = inl refl;
              renaming = inl r;
              mode = v.mode;
              type = v.type;
              inside = v.inside;
              endpoint = v.endpoint;
            })
      | inr u ↦
          simp (t, u)
            (record {
              user = inr (name, e);
              renaming = inl r;
              mode = v.mode;
              type = v.type;
              inside = v.inside;
              endpoint = v.endpoint;
            })
    ]
  ]

  set_type :
      (s : Session) (letter : ℕ)
      → is_type letter ≡ true
      → IsValid files s
      → IsValid files (record s { transfer_type = letter })
  set_type s letter t v = record {
    user = v.user;
    renaming = v.renaming;
    mode = v.mode;
    type = t;
    inside = v.inside;
    endpoint = v.endpoint;
  }

  set_mode :
      (s : Session) (letter : ℕ)
      → is_mode letter ≡ true
      → IsValid files s
      → IsValid files (record s { transfer_mode = letter })
  set_mode s letter m v = record {
    user = v.user;
    renaming = v.renaming;
    mode = m;
    type = v.type;
    inside = v.inside;
    endpoint = v.endpoint;
  }

  pub type_choice-IsValid :
      (a b : Bool) (s : Session) (disk : files.Disk) (counter : ℕ) (ascii binary invalid : Text)
      → IsValid files s
      → IsValid files
          (if a
            then says files.Disk (record s { transfer_type = b'A' }) disk counter ascii
            else if b
            then says files.Disk (record s { transfer_type = b'I' }) disk counter binary
            else says files.Disk s disk counter invalid).session
  unfolding is_type
  type_choice-IsValid true b s disk counter ascii binary invalid v = set_type s b'A' refl v
  type_choice-IsValid false true s disk counter ascii binary invalid v = set_type s b'I' refl v
  type_choice-IsValid false false s disk counter ascii binary invalid v = v

  pub mode_choice-IsValid :
      (a b c : Bool) (s : Session) (disk : files.Disk) (counter : ℕ)
      (stream block compressed invalid : Text)
      → IsValid files s
      → IsValid files
          (if a
            then says files.Disk (record s { transfer_mode = b'S' }) disk counter stream
            else if b
            then says files.Disk (record s { transfer_mode = b'B' }) disk counter block
            else if c
            then says files.Disk (record s { transfer_mode = b'C' }) disk counter compressed
            else says files.Disk s disk counter invalid).session
  unfolding is_mode
  mode_choice-IsValid true b c s disk counter stream block compressed invalid v =
      set_mode s b'S' refl v
  mode_choice-IsValid false true c s disk counter stream block compressed invalid v =
      set_mode s b'B' refl v
  mode_choice-IsValid false false true s disk counter stream block compressed invalid v =
      set_mode s b'C' refl v
  mode_choice-IsValid false false false s disk counter stream block compressed invalid v = v

  use_address-IsValid :
      (ip : Text) (port : ℕ) (given : Given) (s : Session) (disk : files.Disk) (counter : ℕ)
      → (0 < port) × (port ≤ 65535)
      → IsValid files s
      → IsValid files (use_address files.Disk ip port given s disk counter).session
  unfolding use_address
  use_address-IsValid ip port given s disk counter range v =
      elim (Bool-cases (is_bounce s.peer_ip ip)) [
        | inl t ↦ simp t v
        | inr t ↦ elim (Option-cases given.bound) [
          | inl n ↦
              simp (t, n)
                (record {
                  user = v.user;
                  renaming = v.renaming;
                  mode = v.mode;
                  type = v.type;
                  inside = v.inside;
                  endpoint = v.endpoint;
                })
          | inr (p, n) ↦
              simp (t, n)
                (record {
                  user = v.user;
                  renaming = v.renaming;
                  mode = v.mode;
                  type = v.type;
                  inside = v.inside;
                  endpoint = (is_bounce-IsAllowed s.peer_ip ip t, range.0, range.1);
                })
        ]
      ]

  pub port_cmd-IsValid :
      (arg : Text) (given : Given) (s : Session) (disk : files.Disk) (counter : ℕ)
      → IsValid files s
      → IsValid files (port_cmd files.Disk arg given s disk counter).session
  unfolding port_cmd port_address
  port_cmd-IsValid arg given s disk counter v =
      logged_in_keeps files (IsValid files) s disk counter _ v (λ l.
        with_argument_keeps files (IsValid files) arg s disk counter _ _ v (
          by_address (port_address arg)
            (λ ip port e. address_of-port (octets (split_onto b',' arg)) ip port e)))
    where
      by_address :
          (address : Option (Text × ℕ))
          → ((ip : Text) (port : ℕ) → address ≡ some (ip, port) → (0 < port) × (port ≤ 65535))
          → IsValid files
              (elim address as (λ x. Handled files.Disk) [
                | none ↦ says files.Disk s disk counter (line "501 Invalid PORT")
                | some (ip, port) ↦ use_address files.Disk ip port given s disk counter
              ]).session
      by_address none h = v
      by_address (some (ip, port)) h =
          use_address-IsValid ip port given s disk counter (h ip port refl) v

  pub pasv_cmd-IsValid :
      (arg : Text) (given : Given) (s : Session) (disk : files.Disk) (counter : ℕ)
      → IsValid files s
      → IsValid files (pasv_cmd files.Disk arg given s disk counter).session
  unfolding pasv_cmd
  pasv_cmd-IsValid arg given s disk counter v =
      logged_in_keeps files (IsValid files) s disk counter _ v (λ l.
        no_argument_keeps files (IsValid files) arg s disk counter _ _ v
          (elim (Option-cases given.bound) [
            | inl n ↦ simp n (record {
              user = v.user;
              renaming = v.renaming;
              mode = v.mode;
              type = v.type;
              inside = v.inside;
              endpoint = v.endpoint;
            })
            | inr (p, n) ↦ simp n (record {
              user = v.user;
              renaming = v.renaming;
              mode = v.mode;
              type = v.type;
              inside = v.inside;
              endpoint = tt;
            })
          ]))

  pub rename_to-IsValid :
      (old : Option Text) (arg : Text) (s : Session) (disk : files.Disk) (counter : ℕ)
      → IsValid files s
      → IsValid files (rename_to files old arg s disk counter).session
  unfolding rename_to
  rename_to-IsValid none arg s disk counter v = v
  rename_to-IsValid (some []) arg s disk counter v = v
  rename_to-IsValid (some (c ∷ old)) arg s disk counter v =
      on_outcome_keeps files (IsValid files) _ _ counter _ _ _ (forgotten s v)
        (λ a e. forgotten s v)

  pub begin-IsValid :
      (operation : Operation) (argument : Option Text) (given : Given) (s : Session)
      (disk : files.Disk) (counter : ℕ)
      → IsValid files s
      → IsValid files (begin files.Disk operation argument given s disk counter).session
  unfolding begin start_transfer
  begin-IsValid operation argument given s disk counter v =
      by_tests (has_endpoint s) (transfer_in_progress given s)
    where
      by_tests :
          (a b : Bool)
          → IsValid files
              (if not a
                then says files.Disk s disk counter (line "425 Use PORT or PASV first")
                else if b
                then says files.Disk s disk counter (line "450 Transfer already in progress")
                else start_transfer files.Disk operation argument s disk counter).session
      by_tests false b = v
      by_tests true true = v
      by_tests true false = record {
        user = v.user;
        renaming = v.renaming;
        mode = v.mode;
        type = v.type;
        inside = v.inside;
        endpoint = v.endpoint;
      }
