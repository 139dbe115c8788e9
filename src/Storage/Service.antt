-- ===== src/Storage/Service.antt =====
-- common/filesystem_service.py: the operations that the commands call, but the uploads. The locks
-- on paths order operations of different sessions; here an operation runs as a whole.
use hybrid_ftp_socket.Prelude.{ℕ, Bool, true, false, not, List, [], ◌∷◌, ◌++◌, if◌then◌else◌}
use hybrid_ftp_socket.Prelude.Text.{codes}
use hybrid_ftp_socket.Prelude.Numerals.{Text, text_eq}
use hybrid_ftp_socket.Control.Files.{Outcome, returned, refused, crashed, Entry}
use hybrid_ftp_socket.Storage.System.{
  System, Attempt, done, raises, Kind, file_not_found, file_exists, is_a_directory, not_a_directory,
  permission_error, other_os_error, type_error, value_error, other_exception,
}
use hybrid_ftp_socket.Storage.Paths.{validate_path, resolve_path}
use hybrid_ftp_socket.Storage.Directories.{
  list_directory, list_names, get_entry_info, make_directory, remove_directory, delete_file,
  rename_entry, compute_hash,
}

-- The exceptions that `_call` catches: `OSError`, `TypeError` and `ValueError`.
unfoldable pub is_caught : Kind → Bool
is_caught type_error = true
is_caught value_error = true
is_caught file_not_found = true
is_caught file_exists = true
is_caught is_a_directory = true
is_caught not_a_directory = true
is_caught permission_error = true
is_caught other_os_error = true
is_caught other_exception = false

-- The reply code of `_translate`.
unfoldable pub translate : Kind → ℕ
translate value_error = 501
translate file_not_found = 550
translate file_exists = 550
translate is_a_directory = 550
translate not_a_directory = 550
translate permission_error = 550
translate other_os_error = 451
translate type_error = 451
translate other_exception = 451

-- `_call`; an exception that it does not catch goes on to the command.
unfoldable pub call {ℓ} : {A : Type ℓ} → Attempt A → Outcome A
call (done a) = returned a
call (raises kind message) = if is_caught kind then refused (translate kind) message else crashed

-- The next statement behind one that may raise.
unfoldable pub and_then {ℓ κ} : {A : Type ℓ} {B : Type κ} → Outcome A → (A → Outcome B) → Outcome B
and_then (returned a) next = next a
and_then (refused reply_code message) next = refused reply_code message
and_then crashed next = crashed

-- The same where it changes the disk.
unfoldable pub and_change {ℓ} :
    {Disk A : Type 0} {B : Type ℓ} → Disk → Outcome A → (A → Disk × Outcome B) → Disk × Outcome B
and_change disk (returned a) next = next a
and_change disk (refused reply_code message) next = (disk, refused reply_code message)
and_change disk crashed next = (disk, crashed)

abbrev pub call_on {ℓ} : {Disk : Type 0} {A : Type ℓ} → Disk × Attempt A → Disk × Outcome A
call_on (disk, attempt) = (disk, call attempt)

-- `FilesystemService.__init__`: the root of the service.
unfoldable pub open_service : (system : System) → system.Disk → Text → Attempt Text
open_service system disk root_dir =
    if system.isdir disk (system.realpath disk root_dir)
    then done (system.realpath disk root_dir)
    else raises value_error (codes "FTP root is not a directory: '" ++ (root_dir ++ (b'\'' ∷ [])))

module _ (system : System) (root_dir : Text) where
  unfoldable pub resolve : system.Disk → Text → Text → Outcome Text
  resolve disk cwd client_path = call (resolve_path system disk root_dir cwd client_path)

  -- `_raise_for_path`
  unfoldable pub raise_for_path {ℓ} : {A : Type ℓ} → system.Disk → Text → Bool → Outcome A
  raise_for_path disk path directory =
      if not (system.exists disk path)
      then refused 550 (codes "Path not found.")
      else if directory
      then refused 550 (codes "Path is not a directory.")
      else refused 550 (codes "Path is not a file.")

  -- On a system whose separator is `/`, the replacement of it changes nothing.
  unfoldable pub display_path : system.Disk → Text → Outcome Text
  display_path disk path =
      let resolved = system.realpath disk path in
      if not (validate_path system disk root_dir resolved)
      then refused 550 (codes "Path is outside FTP root.")
      else if text_eq (system.relpath resolved root_dir) (codes ".")
      then returned (codes "/")
      else returned (b'/' ∷ system.relpath resolved root_dir)

  unfoldable pub change_directory : system.Disk → Text → Text → Outcome Text
  change_directory disk cwd client_path =
      and_then (resolve disk cwd client_path)
        (λ path. if system.isdir disk path then returned path else raise_for_path disk path true)

  unfoldable pub parent_directory : system.Disk → Text → Outcome Text
  parent_directory disk cwd =
      if text_eq (system.realpath disk cwd) root_dir
      then returned root_dir
      else change_directory disk cwd (codes "..")

  unfoldable pub list : system.Disk → Text → Text → Outcome (List Entry)
  list disk cwd client_path =
      and_then (resolve disk cwd client_path)
        (λ path. call (list_directory system disk path root_dir))

  unfoldable pub names : system.Disk → Text → Text → Outcome (List Text)
  names disk cwd client_path =
      and_then (resolve disk cwd client_path) (λ path. call (list_names system disk path root_dir))

  unfoldable pub stat : system.Disk → Text → Text → Outcome Entry
  stat disk cwd client_path =
      and_then (resolve disk cwd client_path)
        (λ path. call (get_entry_info system disk path root_dir))

  unfoldable pub prepare_retrieve : system.Disk → Text → Text → Outcome Text
  prepare_retrieve disk cwd client_path =
      and_then (resolve disk cwd client_path)
        (λ path. if system.isfile disk path then returned path else raise_for_path disk path false)

  unfoldable pub file_size : system.Disk → Text → Text → Outcome ℕ
  file_size disk cwd client_path =
      and_then (prepare_retrieve disk cwd client_path) (λ path. call (system.getsize disk path))

  unfoldable pub modified_time : system.Disk → Text → Text → Outcome Text
  modified_time disk cwd client_path =
      and_then (stat disk cwd client_path) (λ entry. returned entry.modified)

  -- `hash`, as HASH calls it.
  unfoldable pub file_hash : system.Disk → Text → Text → Outcome Text
  file_hash disk cwd client_path =
      and_then (prepare_retrieve disk cwd client_path)
        (λ path. call (compute_hash system disk path (codes "sha256")))

  unfoldable pub create_directory : system.Disk → Text → Text → system.Disk × Outcome Text
  create_directory disk cwd client_path =
      and_change disk (resolve disk cwd client_path)
        (λ path. call_on (make_directory system disk root_dir path))

  unfoldable pub drop_directory : system.Disk → Text → Text → system.Disk × Outcome (Unit {0})
  drop_directory disk cwd client_path =
      and_change disk (resolve disk cwd client_path)
        (λ path. call_on (remove_directory system disk root_dir path))

  unfoldable pub delete : system.Disk → Text → Text → system.Disk × Outcome (Unit {0})
  delete disk cwd client_path =
      and_change disk (resolve disk cwd client_path)
        (λ path. call_on (delete_file system disk root_dir path))

  unfoldable pub rename : system.Disk → Text → Text → Text → system.Disk × Outcome (Unit {0})
  rename disk cwd old_path new_path = and_change disk (resolve disk cwd old_path) (λ source.
      and_change disk (resolve disk cwd new_path)
        (λ destination. call_on (rename_entry system disk root_dir source destination)))
