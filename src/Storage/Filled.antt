-- ===== src/Storage/Filled.antt =====
-- The service is what the command handler asks for: a record `Files` of its operations, with the
-- laws on the directories that it hands out.
pub mod Changes
use hybrid_ftp_socket.Prelude.{
  ℕ, Bool, true, false, List, [], ◌∷◌, ◌++◌, append-nil, ◌≡◌, refl, sym, subst, ◌∙◌, not, ◌≢◌,
  Bool-cases, inl, inr, ◌⊎◌, if◌then◌else◌,
}
use hybrid_ftp_socket.Prelude.Text.{codes}
use hybrid_ftp_socket.Prelude.Numerals.{Text, text_eq, split_onto}
use hybrid_ftp_socket.Control.Files.{Files, Outcome, returned, refused, crashed}
use hybrid_ftp_socket.Storage.System.{System, Attempt, done, raises}
use hybrid_ftp_socket.Storage.Paths.{resolve_path}
use hybrid_ftp_socket.Storage.Paths.Components.{IsBelow}
use hybrid_ftp_socket.Storage.Paths.Resolved.{resolve_path-IsBelow}
use hybrid_ftp_socket.Storage.Service.{
  is_caught, translate, call, and_then, resolve, raise_for_path, display_path, change_directory,
  parent_directory, list, names, stat, prepare_retrieve, file_size, modified_time, file_hash,
  create_directory, drop_directory, delete, rename,
}

-- The path of the root stays free of links: the server resolves it once, when it starts, and
-- nothing may put a link in its place.
abbrev pub IsRoot : System → Text → Type 0
IsRoot system root_dir = (disk : system.Disk) → system.realpath disk root_dir ≡ root_dir

module _ (system : System) (root_dir : Text) (canonical : IsRoot system root_dir) where
  pub resolve-IsBelow :
      (disk : system.Disk) (cwd client_path path : Text)
      → resolve system root_dir disk cwd client_path ≡ returned path
      → IsBelow root_dir path
  unfolding resolve call
  resolve-IsBelow disk cwd client_path path e =
      by_attempt (resolve_path system disk root_dir cwd client_path)
        (λ p found.
          subst (λ root. IsBelow root p) (canonical disk)
            (resolve_path-IsBelow system disk root_dir cwd client_path p found).0)
        e
    where
      by_attempt :
          (attempt : Attempt Text)
          → ((p : Text) → attempt ≡ done p → IsBelow root_dir p)
          → call attempt ≡ returned path
          → IsBelow root_dir path
      by_attempt (done p) below e =
          let same : p ≡ path = cc in subst (IsBelow root_dir) same (below p refl)
      by_attempt (raises kind message) below e = unreturned (is_caught kind) e
        where
          unreturned :
              (caught : Bool)
              → (if caught then refused (translate kind) message else crashed) ≡ returned path
              → IsBelow root_dir path
          unreturned true e = absurd cc
          unreturned false e = absurd cc

  -- What `_raise_for_path` raises is never returned.
  raise_for_path_lem :
      (disk : system.Disk) (p path : Text) (directory : Bool)
      → raise_for_path system root_dir disk p directory ≢ returned path
  unfolding raise_for_path
  raise_for_path_lem disk p path directory e = by_tests (system.exists disk p) directory e
    where
      by_tests :
          (there directory : Bool)
          → (if not there
              then refused 550 (codes "Path not found.")
              else if directory
              then refused 550 (codes "Path is not a directory.")
              else refused 550 (codes "Path is not a file."))
            ≡ returned path
          → ⊥
      by_tests false directory e = absurd cc
      by_tests true true e = absurd cc
      by_tests true false e = absurd cc

  checked :
      (disk : system.Disk) (test : Bool) (p path : Text)
      → IsBelow root_dir p
      → (if test then returned p else raise_for_path system root_dir disk p true) ≡ returned path
      → IsBelow root_dir path
  checked disk true p path below e = let same : p ≡ path = cc in subst (IsBelow root_dir) same below
  checked disk false p path below e = absurd (raise_for_path_lem disk p path true e)

  -- A directory that CWD enters is below the root, every link followed.
  pub change_directory-IsBelow :
      (disk : system.Disk) (cwd client_path path : Text)
      → change_directory system root_dir disk cwd client_path ≡ returned path
      → IsBelow root_dir path
  unfolding change_directory and_then
  change_directory-IsBelow disk cwd client_path path e =
      by_outcome (resolve system root_dir disk cwd client_path)
        (resolve-IsBelow disk cwd client_path) e
    where
      by_outcome :
          (outcome : Outcome Text)
          → ((p : Text) → outcome ≡ returned p → IsBelow root_dir p)
          → and_then outcome (λ p.
            if system.isdir disk p then returned p else raise_for_path system root_dir disk p true)
            ≡ returned path
          → IsBelow root_dir path
      by_outcome (returned p) below e = checked disk (system.isdir disk p) p path (below p refl) e
      by_outcome (refused reply_code message) below e = absurd cc
      by_outcome crashed below e = absurd cc

  pub parent_directory-IsBelow :
      (disk : system.Disk) (cwd path : Text)
      → parent_directory system root_dir disk cwd ≡ returned path
      → IsBelow root_dir path
  unfolding parent_directory
  parent_directory-IsBelow disk cwd path e =
      by_test (text_eq (system.realpath disk cwd) root_dir)
        (change_directory-IsBelow disk cwd (codes "..") path) e
    where
      by_test :
          (test : Bool)
          → (change_directory system root_dir disk cwd (codes "..") ≡ returned path
              → IsBelow root_dir path)
          → (if test
              then returned root_dir
              else change_directory system root_dir disk cwd (codes ".."))
            ≡ returned path
          → IsBelow root_dir path
      by_test true below e =
          let same : root_dir ≡ path = cc in
          subst (IsBelow root_dir) same ([], sym (append-nil (split_onto b'/' root_dir)))
      by_test false below e = below e

  -- The service as the command handler sees it.
  abbrev pub service : Files
  service = record {
    Disk = system.Disk;
    IsInside = IsBelow root_dir;
    display_path = display_path system root_dir;
    change_directory = change_directory system root_dir;
    parent_directory = parent_directory system root_dir;
    make_directory = create_directory system root_dir;
    remove_directory = drop_directory system root_dir;
    delete = delete system root_dir;
    rename = rename system root_dir;
    prepare_retrieve = prepare_retrieve system root_dir;
    list = list system root_dir;
    names = names system root_dir;
    size = file_size system root_dir;
    modified_time = modified_time system root_dir;
    stat = stat system root_dir;
    hash = file_hash system root_dir;
    change_directory-IsInside = change_directory-IsBelow;
    parent_directory-IsInside = parent_directory-IsBelow;
  }
