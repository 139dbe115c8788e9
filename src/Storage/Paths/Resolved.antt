-- ===== src/Storage/Paths/Resolved.antt =====
-- What `resolve_path` of common/dir_manager.py lets through.
use hybrid_ftp_socket.Prelude.{Bool, true, false, [], ◌∷◌, ◌≡◌, refl, sym, subst, if◌then◌else◌}
use hybrid_ftp_socket.Prelude.Numerals.{Text}
use hybrid_ftp_socket.Storage.System.{System, done, raises, permission_error}
use hybrid_ftp_socket.Storage.Paths.{validate_path, target_of, resolve_path}
use hybrid_ftp_socket.Storage.Paths.Components.{IsBelow, is_inside-IsBelow}

module _ (system : System) (disk : system.Disk) (base_dir : Text) where
  validate_path-IsBelow :
      (path : Text)
      → validate_path system disk base_dir (system.realpath disk path) ≡ true
      → IsBelow (system.realpath disk base_dir) (system.realpath disk path)
  unfolding validate_path
  validate_path-IsBelow path e =
      subst (IsBelow (system.realpath disk base_dir)) (system.realpath-realpath disk path) (
        is_inside-IsBelow (system.realpath disk base_dir)
          (system.realpath disk (system.realpath disk path)) e)

  guarded :
      (test : Bool) (resolved path message : Text)
      → (test ≡ true → IsBelow (system.realpath disk base_dir) resolved)
      → (if test then done resolved else raises permission_error message) ≡ done path
      → IsBelow (system.realpath disk base_dir) path × path ≡ resolved
  guarded true resolved path message below e =
      let same : path ≡ resolved = cc in
      (subst (IsBelow (system.realpath disk base_dir)) (sym same) (below refl), same)
  guarded false resolved path message below e = absurd cc

  -- Where the path of a client leads: from the directory itself if it names none.
  abbrev pub named : Text → Text → Text
  named cwd [] = cwd
  named cwd (c ∷ relative_path) = target_of system base_dir cwd (c ∷ relative_path)

  -- A path that `resolve_path` returns is what the client's path leads to, every link followed, and
  -- its components begin with those of the root.
  pub resolve_path-IsBelow :
      (cwd relative_path path : Text)
      → resolve_path system disk base_dir cwd relative_path ≡ done path
      → IsBelow (system.realpath disk base_dir) path
        × path ≡ system.realpath disk (named cwd relative_path)
  unfolding resolve_path
  resolve_path-IsBelow cwd [] path e =
      guarded (validate_path system disk base_dir (system.realpath disk cwd))
        (system.realpath disk cwd) path _ (validate_path-IsBelow cwd) e
  resolve_path-IsBelow cwd (c ∷ relative_path) path e =
      let target = target_of system base_dir cwd (c ∷ relative_path) in
      guarded (validate_path system disk base_dir (system.realpath disk target))
        (system.realpath disk target) path _ (validate_path-IsBelow target) e
