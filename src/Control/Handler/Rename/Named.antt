-- ===== src/Control/Handler/Rename/Named.antt =====
-- What RNFR keeps of a file that it has found, and what RNTO does to the disk.
use hybrid_ftp_socket.Prelude.{
  ℕ, Bool, true, false, Option, none, some, ◌≡◌, refl, ◌⊎◌, inl, inr, [], ◌∷◌, if◌then◌else◌,
}
use hybrid_ftp_socket.Prelude.Numerals.{Text, is_empty}
use hybrid_ftp_socket.Control.Session.{Session}
use hybrid_ftp_socket.Control.Files.{Files, Outcome, returned, refused, crashed}
use hybrid_ftp_socket.Control.Replies.{line, missing_filename, not_logged_in}
use hybrid_ftp_socket.Control.Handler.Base.{Handled, reply, says, on_outcome}
use hybrid_ftp_socket.Control.Handler.Directories.{rnfr, rename_to, rnto}

module _ (files : Files) where
  -- RNFR has found the file and keeps its name.
  pub record IsNamed (arg : Text) (s : Session) (disk : files.Disk) (h : Handled files.Disk)
      : Type 0 where
    pub path : Text
    pub found : files.prepare_retrieve disk s.current_dir arg ≡ returned path
    pub told : h.answer ≡ reply (line "350 Ready for RNTO")
    pub kept : h.session.rename_from ≡ some arg
    pub same_dir : h.session.current_dir ≡ s.current_dir
    pub same_disk : h.disk ≡ disk

  pub rnfr-IsNamed :
      (arg : Text) (s : Session) (disk : files.Disk) (counter : ℕ)
      → s.rename_from ≡ none
      → ((rnfr files arg s disk counter).session.rename_from ≡ none)
        ⊎ IsNamed arg s disk (rnfr files arg s disk counter)
  unfolding rnfr on_outcome
  rnfr-IsNamed arg s disk counter none_yet =
      by_tests s.is_logged_in (is_empty arg) (files.prepare_retrieve disk s.current_dir arg) refl
    where
      by_tests :
          (member missing : Bool) (outcome : Outcome Text)
          → files.prepare_retrieve disk s.current_dir arg ≡ outcome
          → (let h =
                (if member
                  then (if missing
                      then says files.Disk s disk counter missing_filename
                      else on_outcome files.Disk
                          (record s { rename_from = none })
                          disk
                          counter
                          (line "550 File not found")
                          outcome
                          (λ path.
                            says files.Disk
                              (record s { rename_from = some arg })
                              disk
                              counter
                              (line "350 Ready for RNTO")))
                  else says files.Disk s disk counter not_logged_in) in
              (h.session.rename_from ≡ none) ⊎ IsNamed arg s disk h)
      by_tests false missing outcome e = inl none_yet
      by_tests true true outcome e = inl none_yet
      by_tests true false (refused reply_code message) e = inl refl
      by_tests true false crashed e = inl refl
      by_tests true false (returned path) e = inr (record {
        path = path;
        found = e;
        told = refl;
        kept = refl;
        same_dir = refl;
        same_disk = refl;
      })

  on_outcome-disk :
      (s : Session) (disk : files.Disk) (counter : ℕ) (crash : Text) (outcome : Outcome (Unit {0}))
      (next : Unit {0} → Handled files.Disk)
      → ((a : Unit {0}) → (next a).disk ≡ disk)
      → (on_outcome files.Disk s disk counter crash outcome next).disk ≡ disk
  unfolding on_outcome
  on_outcome-disk s disk counter crash (returned a) next k = k a
  on_outcome-disk s disk counter crash (refused reply_code message) next k = refl
  on_outcome-disk s disk counter crash crashed next k = refl

  rename_to-disk :
      (old : Option Text) (arg : Text) (s : Session) (disk : files.Disk) (counter : ℕ)
      → ((rename_to files old arg s disk counter).disk ≡ disk)
        ⊎ ((name : Text) × (old ≡ some name)
            × ((rename_to files old arg s disk counter).disk
                ≡ (files.rename disk s.current_dir name arg).0))
  unfolding rename_to
  rename_to-disk none arg s disk counter = inl refl
  rename_to-disk (some []) arg s disk counter = inl refl
  rename_to-disk (some (c ∷ old)) arg s disk counter =
      inr (c ∷ old, refl, on_outcome-disk _ _ counter _ _ _ (λ a. refl))

  pub rnto-disk :
      (arg : Text) (s : Session) (disk : files.Disk) (counter : ℕ)
      → ((rnto files arg s disk counter).disk ≡ disk)
        ⊎ ((name : Text) × (s.rename_from ≡ some name)
            × ((rnto files arg s disk counter).disk ≡ (files.rename disk s.current_dir name arg).0))
  unfolding rnto
  rnto-disk arg s disk counter = by_tests s.is_logged_in (is_empty arg)
    where
      by_tests :
          (member missing : Bool)
          → (let h =
                (if member
                  then (if missing
                      then says files.Disk
                          (record s { rename_from = none })
                          disk
                          counter
                          missing_filename
                      else rename_to files s.rename_from arg s disk counter)
                  else says files.Disk s disk counter not_logged_in) in
              (h.disk ≡ disk)
              ⊎ ((name : Text) × (s.rename_from ≡ some name)
                  × (h.disk ≡ (files.rename disk s.current_dir name arg).0)))
      by_tests false missing = inl refl
      by_tests true true = inl refl
      by_tests true false = rename_to-disk s.rename_from arg s disk counter
