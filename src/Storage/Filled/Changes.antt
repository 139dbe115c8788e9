-- ===== src/Storage/Filled/Changes.antt =====
-- What a command can do to the disk under the service: one change inside the root, or none.
use hybrid_ftp_socket.Prelude.{
  none, some, ◌⊎◌, inl, inr, Option-cases, ℕ, Bool, true, false, not, ◌≡◌, ◌≢◌, refl, sym, subst,
  ◌∙◌, if◌then◌else◌,
}
use hybrid_ftp_socket.Prelude.Numerals.{Text, text_eq}
use hybrid_ftp_socket.Control.Parser.{FtpCommand}
use hybrid_ftp_socket.Control.Session.{Session, Given}
use hybrid_ftp_socket.Control.Files.{Outcome, returned, refused, crashed}
use hybrid_ftp_socket.Control.Handler.{handle}
use hybrid_ftp_socket.Control.Handler.Base.{Handled, Start}
use hybrid_ftp_socket.Control.Handler.Starts.Started.{handle-disk_of_start}
use hybrid_ftp_socket.Control.Handler.Disk.{IsOpen}
use hybrid_ftp_socket.Control.Handler.Disk.Commands.{handle-disk}
use hybrid_ftp_socket.Storage.System.{System, Attempt, done, raises}
use hybrid_ftp_socket.Storage.Paths.{validate_path}
use hybrid_ftp_socket.Prelude.Numerals.Equality.{text_eq_refl}
use hybrid_ftp_socket.Storage.Paths.Components.{IsBelow, is_inside-IsBelow}
use hybrid_ftp_socket.Storage.Directories.{
  make_directory, remove_directory, delete_file, rename_entry,
}
use hybrid_ftp_socket.Storage.Service.{
  and_change, resolve, create_directory, drop_directory, delete, rename,
}
use hybrid_ftp_socket.Storage.Filled.{IsRoot, service}

-- A change of the disk by one call of the system, on paths that lead below the root.
pub data Change (system : System) (root_dir : Text) (disk : system.Disk)
    : system.Disk → Type 0 where
  unchanged : Change system root_dir disk disk
  made :
      (path : Text)
      → IsBelow root_dir (system.realpath disk (system.dirname path))
      → system.exists disk path ≡ false
      → Change system root_dir disk (system.makedirs disk path).0
  emptied :
      (path : Text)
      → IsBelow root_dir (system.realpath disk path)
      → system.realpath disk path ≢ root_dir
      → system.isdir disk path ≡ true
      → Change system root_dir disk (system.rmdir disk path).0
  deleted :
      (path : Text)
      → IsBelow root_dir (system.realpath disk path)
      → system.isdir disk path ≡ false
      → Change system root_dir disk (system.remove disk path).0
  moved :
      (old_path new_path : Text)
      → IsBelow root_dir (system.realpath disk old_path)
      → IsBelow root_dir (system.realpath disk new_path)
      → system.exists disk old_path ≡ true
      → system.exists disk new_path ≡ false
      → Change system root_dir disk (system.move disk old_path new_path).0

-- A test that is negated in the code.
not-false : (b : Bool) → not b ≡ false → b ≡ true
not-false true e = refl
not-false false e = absurd cc

if_else {ℓ} :
    {Disk : Type 0} {A : Type ℓ} (P : Disk → Type 0) (b : Bool) (first second : Disk × A)
    → (b ≡ true → P first.0)
    → (b ≡ false → P second.0)
    → P (if b then first else second).0
if_else P true first second f g = f refl
if_else P false first second f g = g refl

module _ (system : System) (root_dir : Text) (canonical : IsRoot system root_dir)
    (disk : system.Disk) where
  abbrev Changed : system.Disk → Type 0
  Changed = Change system root_dir disk

  validated :
      (path : Text)
      → not (validate_path system disk root_dir path) ≡ false
      → IsBelow root_dir (system.realpath disk path)
  unfolding validate_path
  validated path e =
      subst (λ root. IsBelow root (system.realpath disk path)) (canonical disk)
        (is_inside-IsBelow (system.realpath disk root_dir) (system.realpath disk path)
          (not-false _ e))

  differs :
      (path : Text)
      → text_eq (system.realpath disk path) (system.realpath disk root_dir) ≡ false
      → system.realpath disk path ≢ root_dir
  differs path other same =
      let equal : text_eq (system.realpath disk path) (system.realpath disk root_dir) ≡ true =
        subst (λ x. text_eq (system.realpath disk path) x ≡ true) (same ∙ sym (canonical disk))
          (text_eq_refl (system.realpath disk path)) in
      absurd cc

  make_directory-Change : (path : Text) → Changed (make_directory system disk root_dir path).0
  unfolding make_directory
  make_directory-Change path =
      if_else Changed (not (validate_path system disk root_dir (system.dirname path))) _ _
        (λ bad. unchanged)
        (λ valid.
          if_else Changed (system.exists disk path) _ _ (λ there. unchanged)
            (λ free.
              by_attempt (system.makedirs disk path)
                (made path (validated (system.dirname path) valid) free)))
    where
      by_attempt :
          (result : system.Disk × Attempt (Unit {0}))
          → Changed result.0
          → Changed
              (elim result.1 as (λ x. system.Disk × Attempt Text) [
                | raises kind message ↦ (result.0, raises kind message)
                | done unit ↦ (result.0, done (system.realpath result.0 path))
              ]).0
      by_attempt (disk', done unit) k = k
      by_attempt (disk', raises kind message) k = k

  remove_directory-Change : (path : Text) → Changed (remove_directory system disk root_dir path).0
  unfolding remove_directory
  remove_directory-Change path =
      if_else Changed (not (validate_path system disk root_dir path)) _ _ (λ bad. unchanged)
        (λ valid.
          if_else Changed (text_eq (system.realpath disk path) (system.realpath disk root_dir)) _ _
            (λ root. unchanged)
            (λ other.
              if_else Changed (not (system.exists disk path)) _ _ (λ missing. unchanged)
                (λ there.
                  if_else Changed (not (system.isdir disk path)) _ _ (λ file. unchanged)
                    (λ directory.
                      emptied path (validated path valid) (differs path other)
                        (not-false _ directory)))))

  delete_file-Change : (path : Text) → Changed (delete_file system disk root_dir path).0
  unfolding delete_file
  delete_file-Change path =
      if_else Changed (not (validate_path system disk root_dir path)) _ _ (λ bad. unchanged)
        (λ valid.
          if_else Changed (not (system.exists disk path)) _ _ (λ missing. unchanged)
            (λ there.
              if_else Changed (system.isdir disk path) _ _ (λ directory. unchanged)
                (λ file. deleted path (validated path valid) file)))

  rename_entry-Change :
      (old_path new_path : Text) → Changed (rename_entry system disk root_dir old_path new_path).0
  unfolding rename_entry
  rename_entry-Change old_path new_path =
      if_else Changed (not (validate_path system disk root_dir old_path)) _ _ (λ bad. unchanged)
        (λ source.
          if_else Changed (not (validate_path system disk root_dir new_path)) _ _ (λ bad. unchanged)
            (λ destination.
              if_else Changed (not (system.exists disk old_path)) _ _ (λ missing. unchanged)
                (λ there.
                  if_else Changed (system.exists disk new_path) _ _ (λ taken. unchanged)
                    (λ free.
                      moved old_path new_path (validated old_path source)
                        (validated new_path destination) (not-false _ there) free))))

  and_change_lem {ℓ} :
      {A : Type 0} {B : Type ℓ} (outcome : Outcome A) (next : A → system.Disk × Outcome B)
      → ((a : A) → Changed (next a).0)
      → Changed (and_change disk outcome next).0
  unfolding and_change
  and_change_lem (returned a) next k = k a
  and_change_lem (refused reply_code message) next k = unchanged
  and_change_lem crashed next k = unchanged

  service-IsOpen : IsOpen (service system root_dir canonical) Changed disk
  unfolding create_directory drop_directory delete rename
  service-IsOpen = record {
    same = unchanged;
    made =
        λ cwd path. and_change_lem (resolve system root_dir disk cwd path) _ make_directory-Change;
    emptied = λ cwd path.
        and_change_lem (resolve system root_dir disk cwd path) _ remove_directory-Change;
    deleted =
        λ cwd path. and_change_lem (resolve system root_dir disk cwd path) _ delete_file-Change;
    moved = λ cwd old new. and_change_lem (resolve system root_dir disk cwd old) _ (λ source.
        and_change_lem (resolve system root_dir disk cwd new) _
          (λ destination. rename_entry-Change source destination));
  }

  -- A command either starts no transfer, and then the service makes at most one change of the disk:
  -- `makedirs` in a directory below the root, or, on paths that lead below the root, `rmdir` of a
  -- directory that is not the root, `remove` of what is no directory, or `rename` to a path that is
  -- free. Or it starts a transfer in a thread of its own, and itself leaves the disk as it is.
  pub handle-Change :
      (format_date : Text → Text) (given : Given) (counter : ℕ) (command : FtpCommand) (s : Session)
      → (((handle
              (service system root_dir canonical)
              format_date
              command
              given
              s
              disk
              counter).started
            ≡ none)
          × Change system root_dir disk
              (handle
                (service system root_dir canonical)
                format_date
                command
                given
                s
                disk
                counter).disk)
        ⊎ ((start : Start) × ((handle
                (service system root_dir canonical)
                format_date
                command
                given
                s
                disk
                counter).started
              ≡ some start)
            × ((handle
                  (service system root_dir canonical)
                  format_date
                  command
                  given
                  s
                  disk
                  counter).disk
                ≡ disk))
  handle-Change format_date given counter command s =
      let files = service system root_dir canonical in
      let h = handle files format_date command given s disk counter in
      by_start h (handle-disk files format_date Changed given disk counter service-IsOpen command s)
        (handle-disk_of_start files format_date given disk counter command s)
    where
      by_start :
          (h : Handled system.Disk)
          → Changed h.disk
          → ((start : Start) → h.started ≡ some start → h.disk ≡ disk)
          → ((h.started ≡ none) × Changed h.disk)
            ⊎ ((start : Start) × (h.started ≡ some start) × (h.disk ≡ disk))
      by_start h changed same = elim (Option-cases h.started) [
        | inl n ↦ inl (n, changed)
        | inr (start, e) ↦ inr (start, e, same start e)
      ]
