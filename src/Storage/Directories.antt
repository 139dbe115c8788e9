-- ===== src/Storage/Directories.antt =====
-- common/dir_manager.py: listings, directories and entries; common/file_handler.py: the reading of a
-- file and its hash.
pub mod Reading
use hybrid_ftp_socket.Prelude.{
  ℕ, zero, suc, ◌+◌, ◌/◌, ◌%◌, Bytes, Bool, true, false, ◌&&◌, ◌||◌, not, List, [], ◌∷◌, ◌++◌, take,
  drop, length, ◌==◌, if◌then◌else◌,
}
use hybrid_ftp_socket.Prelude.Text.{codes}
use hybrid_ftp_socket.Prelude.Numerals.{Text, text_eq}
use hybrid_ftp_socket.Control.Files.{Entry}
use hybrid_ftp_socket.Storage.System.{
  System, Attempt, done, raises, Stat, DirEntry, file_not_found, file_exists, is_a_directory,
  not_a_directory, permission_error, value_error, is_os_error,
}
use hybrid_ftp_socket.Storage.Paths.{validate_path}

-- `f"...'{path}'"`
abbrev pub quoted : Text → Text → Text
quoted front path = front ++ (b'\'' ∷ (path ++ (b'\'' ∷ [])))

-- A letter of `_format_permissions`, for a bit of the mode.
unfoldable pub permission : ℕ → ℕ → ℕ → ℕ
permission mode bit letter = if mode / bit % 2 == 1 then letter else b'-'

-- `_format_permissions`; the masks of the module `stat` are the bits of 0o777.
unfoldable pub format_permissions : ℕ → Text
format_permissions mode =
    permission mode 256 b'r'
    ∷ permission mode 128 b'w'
    ∷ permission mode 64 b'x'
    ∷ permission mode 32 b'r'
    ∷ permission mode 16 b'w'
    ∷ permission mode 8 b'x'
    ∷ permission mode 4 b'r'
    ∷ permission mode 2 b'w'
    ∷ permission mode 1 b'x'
    ∷ []

-- `list.sort`, which is stable: an element goes behind those that it is not less than.
unfoldable pub insert_sorted {ℓ} : {A : Type ℓ} → (A → A → Bool) → A → List A → List A
insert_sorted less a [] = a ∷ []
insert_sorted less a (b ∷ sorted) =
    let rest = insert_sorted less a sorted in if less a b then a ∷ b ∷ sorted else b ∷ rest

unfoldable pub sort_onto {ℓ} : {A : Type ℓ} → (A → A → Bool) → List A → List A → List A
sort_onto less sorted [] = sorted
sort_onto less sorted (a ∷ later) = sort_onto less (insert_sorted less a sorted) later

-- The chunks of a file: `f.read(chunk_size)` until it is empty. There are no more of them than bytes.
unfoldable pub next_chunk : Bytes → List Bytes → List Bytes
next_chunk [] later = []
next_chunk (b ∷ chunk) later = (b ∷ chunk) ∷ later

unfoldable pub chunks_of : ℕ → ℕ → Bytes → List Bytes
chunks_of zero chunk_size bytes = []
chunks_of (suc fuel) chunk_size bytes =
    next_chunk (take chunk_size bytes) (chunks_of fuel chunk_size (drop chunk_size bytes))

-- What `h.update` has been given.
unfoldable pub updated : List Bytes → Bytes
updated [] = []
updated (chunk ∷ later) = chunk ++ updated later

module _ (system : System) where
  -- `_format_mtime`, with the bits and the size that `os.stat` gives.
  unfoldable pub entry_of : Text → Bool → ℕ → Stat → Entry
  entry_of name is_dir size s = record {
    name = name;
    size = size;
    is_dir = is_dir;
    permissions = format_permissions s.st_mode;
    modified = system.strftime s.st_mtime;
  }

  -- A turn of the loop of `list_directory`: an entry that leads out of the root, or that cannot be
  -- read, is passed over.
  unfoldable pub list_entry : system.Disk → Text → DirEntry → Attempt (List Entry)
  list_entry disk base_dir e =
      if not (validate_path system disk base_dir e.entry_path) then done [] else elim e.entry_stat [
        | raises kind message ↦ if is_os_error kind then done [] else raises kind message
        | done s ↦
            done (
              entry_of e.entry_name e.entry_is_dir (if e.entry_is_file then s.st_size else 0) s
              ∷ [])
      ]

  unfoldable pub list_entries : system.Disk → Text → List DirEntry → Attempt (List Entry)
  list_entries disk base_dir [] = done []
  list_entries disk base_dir (e ∷ later) =
      let rest = list_entries disk base_dir later in
      elim (list_entry disk base_dir e) [
        | raises kind message ↦ raises kind message
        | done listed ↦ elim rest [
          | raises kind message ↦ raises kind message
          | done entries ↦ done (listed ++ entries)
        ]
      ]

  -- The key of the listing: directories first, then the names in lower case.
  unfoldable pub listed_before : Entry → Entry → Bool
  listed_before a b =
      if a.is_dir && not b.is_dir
      then true
      else if not a.is_dir && b.is_dir
      then false
      else system.before_in_order (system.lower a.name) (system.lower b.name)

  -- The test in front of both listings.
  unfoldable pub scan : system.Disk → Text → Attempt (List DirEntry)
  scan disk path =
      if system.isdir disk path
      then system.scandir disk path
      else if system.exists disk path
      then raises not_a_directory (quoted (codes "Not a directory: ") path)
      else raises file_not_found (quoted (codes "Directory not found: ") path)

  unfoldable pub list_directory : system.Disk → Text → Text → Attempt (List Entry)
  list_directory disk path base_dir = elim (scan disk path) [
    | raises kind message ↦ raises kind message
    | done found ↦ elim (list_entries disk base_dir found) [
      | raises kind message ↦ raises kind message
      | done entries ↦ done (sort_onto listed_before [] entries)
    ]
  ]

  unfoldable pub inside_names : system.Disk → Text → List DirEntry → List Text
  inside_names disk base_dir [] = []
  inside_names disk base_dir (e ∷ later) =
      let rest = inside_names disk base_dir later in
      if validate_path system disk base_dir e.entry_path then e.entry_name ∷ rest else rest

  unfoldable pub list_names : system.Disk → Text → Text → Attempt (List Text)
  list_names disk path base_dir = elim (scan disk path) [
    | raises kind message ↦ raises kind message
    | done entries ↦ done (
        sort_onto (λ a b. system.before_in_order (system.lower a) (system.lower b)) []
          (inside_names disk base_dir entries))
  ]

  unfoldable pub make_directory : system.Disk → Text → Text → system.Disk × Attempt Text
  make_directory disk base_dir path =
      if not (validate_path system disk base_dir (system.dirname path))
      then (
        disk,
        raises permission_error (codes "Access denied: cannot create directory outside FTP root."),
      )
      else if system.exists disk path
      then (disk, raises file_exists (quoted (codes "Directory already exists: ") path))
      else let (disk', made) = system.makedirs disk path in
        elim made [
          | raises kind message ↦ (disk', raises kind message)
          | done unit ↦ (disk', done (system.realpath disk' path))
        ]

  unfoldable pub remove_directory : system.Disk → Text → Text → system.Disk × Attempt (Unit {0})
  remove_directory disk base_dir path =
      if not (validate_path system disk base_dir path)
      then (
        disk,
        raises permission_error (codes "Access denied: cannot remove directory outside FTP root."),
      )
      else if text_eq (system.realpath disk path) (system.realpath disk base_dir)
      then (disk, raises permission_error (codes "Cannot remove the FTP root directory."))
      else if not (system.exists disk path)
      then (disk, raises file_not_found (quoted (codes "Directory not found: ") path))
      else if not (system.isdir disk path)
      then (disk, raises not_a_directory (quoted (codes "Not a directory: ") path))
      else system.rmdir disk path

  unfoldable pub get_entry_info : system.Disk → Text → Text → Attempt Entry
  get_entry_info disk path base_dir =
      if not (validate_path system disk base_dir path)
      then raises permission_error (codes "Access denied: path outside FTP root.")
      else if not (system.exists disk path)
      then raises file_not_found (quoted (codes "Path not found: ") path)
      else elim (system.os_stat disk path) [
        | raises kind message ↦ raises kind message
        | done s ↦ done (entry_of (system.basename path) (system.isdir disk path) s.st_size s)
      ]

  unfoldable pub delete_file : system.Disk → Text → Text → system.Disk × Attempt (Unit {0})
  delete_file disk base_dir path =
      if not (validate_path system disk base_dir path)
      then (disk, raises permission_error (codes "Access denied: path outside FTP root."))
      else if not (system.exists disk path)
      then (disk, raises file_not_found (quoted (codes "File not found: ") path))
      else if system.isdir disk path
      then (
        disk,
        raises is_a_directory
            (b'\'' ∷ (path ++ codes "' is a directory. Use RMD to remove directories.")),
      )
      else system.remove disk path

  unfoldable pub rename_entry : system.Disk → Text → Text → Text → system.Disk × Attempt (Unit {0})
  rename_entry disk base_dir old_path new_path =
      if not (validate_path system disk base_dir old_path)
      then (disk, raises permission_error (codes "Access denied: source path outside FTP root."))
      else if not (validate_path system disk base_dir new_path)
      then (
        disk,
        raises permission_error (codes "Access denied: destination path outside FTP root."),
      )
      else if not (system.exists disk old_path)
      then (disk, raises file_not_found (quoted (codes "Source not found: ") old_path))
      else if system.exists disk new_path
      then (disk, raises file_exists (quoted (codes "Destination already exists: ") new_path))
      else system.move disk old_path new_path

  -- `read_file_chunks`, by the chunks that the generator yields; opening a file may fail.
  unfoldable pub read_file_chunks : system.Disk → Text → ℕ → Attempt (List Bytes)
  read_file_chunks disk path chunk_size =
      if not (system.exists disk path)
      then raises file_not_found (codes "File not found: " ++ path)
      else elim (system.contents disk path) [
        | raises kind message ↦ raises kind message
        | done bytes ↦ done (chunks_of (length bytes) chunk_size bytes)
      ]

  unfoldable pub compute_hash : system.Disk → Text → Text → Attempt Text
  compute_hash disk path algorithm =
      if text_eq algorithm (codes "md5") || text_eq algorithm (codes "sha256")
      then elim (read_file_chunks disk path 1024) [
        | raises kind message ↦ raises kind message
        | done chunks ↦ done (system.hexdigest algorithm (updated chunks))
      ]
      else raises value_error (
          quoted (codes "Unsupported hash algorithm: ") algorithm
          ++ codes ". Supported: ('md5', 'sha256')")
