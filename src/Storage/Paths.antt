-- ===== src/Storage/Paths.antt =====
-- common/dir_manager.py: which paths are inside the root.
pub mod Components
pub mod Resolved
use hybrid_ftp_socket.Prelude.{
  ℕ, Bool, true, false, ◌||◌, List, [], ◌∷◌, ◌++◌, ◌≡◌, ◌⊎◌, ◌==◌, if◌then◌else◌,
}
use hybrid_ftp_socket.Prelude.Text.{codes}
use hybrid_ftp_socket.Prelude.Numerals.{Text, text_eq, is_empty}
use hybrid_ftp_socket.Storage.System.{System, Attempt, done, raises, permission_error}

-- `s.startswith(prefix)`
unfoldable pub startswith : Text → Text → Bool
startswith s [] = true
startswith [] (c ∷ prefix) = false
startswith (d ∷ s) (c ∷ prefix) = elim (d == c) [ true ↦ startswith s prefix | false ↦ false ]

-- `s.lstrip("/\\")`
unfoldable pub strip_slashes : Text → Text
strip_slashes [] = []
strip_slashes (c ∷ s) = if c == b'/' || c == 92 then strip_slashes s else c ∷ s

-- `validate_path`, on the two resolved paths.
unfoldable pub is_inside : Text → Text → Bool
is_inside real_base real_target =
    if text_eq real_target real_base
    then true
    else startswith real_target (real_base ++ (b'/' ∷ []))

module _ (system : System) where
  unfoldable pub validate_path : system.Disk → Text → Text → Bool
  validate_path disk base_dir target_path =
      is_inside (system.realpath disk base_dir) (system.realpath disk target_path)

  -- Where a client's path leads from a directory, before it is resolved.
  unfoldable pub target_of : Text → Text → Text → Text
  target_of base_dir cwd relative_path =
      if system.isabs relative_path || startswith relative_path (codes "/")
      then system.join_path base_dir (strip_slashes relative_path)
      else system.join_path cwd relative_path

  unfoldable pub resolve_path : system.Disk → Text → Text → Text → Attempt Text
  resolve_path disk base_dir cwd [] =
      if validate_path disk base_dir (system.realpath disk cwd)
      then done (system.realpath disk cwd)
      else raises permission_error (codes "Current directory is outside the FTP root.")
  resolve_path disk base_dir cwd (c ∷ relative_path) =
      let resolved = system.realpath disk (target_of base_dir cwd (c ∷ relative_path)) in
      if validate_path disk base_dir resolved
      then done resolved
      else raises permission_error (
          codes "Access denied: path '"
          ++ ((c ∷ relative_path) ++ codes "' is outside the FTP root directory."))
