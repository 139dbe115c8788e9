-- ===== src/Storage/System.antt =====
-- The operating system as common/dir_manager.py and common/file_handler.py call it, by `os`,
-- `os.path`, `stat`, `time` and `hashlib`. `os.sep` is `/`.
use hybrid_ftp_socket.Prelude.{ℕ, Bool, true, false, Bytes, List, ◌≡◌}
use hybrid_ftp_socket.Prelude.Numerals.{Text}

-- The classes of exceptions that `_call` and `_translate` tell apart. `other_os_error` is any
-- `OSError` but the five in front of it, `other_exception` any exception that `_call` does not
-- catch, such as RecursionError.
pub data Kind : Type 0 where
  file_not_found file_exists is_a_directory not_a_directory permission_error : Kind
  other_os_error type_error value_error other_exception : Kind

-- A call returns, or it raises an exception with its message.
pub data Attempt {ℓ} (A : Type ℓ) : Type ℓ where
  done : A → Attempt A
  raises : (kind : Kind) (message : Text) → Attempt A

-- What `os.stat` says: `st_size`, `st_mode` and `st_mtime`.
pub record Stat : Type 0 where
  pub st_size : ℕ
  pub st_mode : ℕ
  pub st_mtime : ℕ

-- `except OSError`
unfoldable pub is_os_error : Kind → Bool
is_os_error file_not_found = true
is_os_error file_exists = true
is_os_error is_a_directory = true
is_os_error not_a_directory = true
is_os_error permission_error = true
is_os_error other_os_error = true
is_os_error type_error = false
is_os_error value_error = false
is_os_error other_exception = false

-- An entry of `os.scandir`, with what its calls return.
pub record DirEntry : Type 0 where
  pub entry_name : Text
  pub entry_path : Text
  pub entry_stat : Attempt Stat
  pub entry_is_file : Bool
  pub entry_is_dir : Bool

-- The calls, over the contents of the disk. `sorted_by` is the stable `list.sort` by a key of
-- `str.lower`, and `strftime` is `time.strftime` of `time.localtime` with the format of MDTM.
pub record System : Type 1 where
  pub Disk : Type 0
  pub realpath : Disk → Text → Text
  pub join_path : Text → Text → Text
  pub dirname : Text → Text
  pub basename : Text → Text
  pub relpath : Text → Text → Text
  pub isabs : Text → Bool
  pub exists : Disk → Text → Bool
  pub isdir : Disk → Text → Bool
  pub isfile : Disk → Text → Bool
  pub makedirs : Disk → Text → Disk × Attempt (Unit {0})
  pub rmdir : Disk → Text → Disk × Attempt (Unit {0})
  pub remove : Disk → Text → Disk × Attempt (Unit {0})
  pub move : Disk → Text → Text → Disk × Attempt (Unit {0})
  pub scandir : Disk → Text → Attempt (List DirEntry)
  pub os_stat : Disk → Text → Attempt Stat
  pub getsize : Disk → Text → Attempt ℕ
  pub contents : Disk → Text → Attempt Bytes
  pub lower : Text → Text
  pub before_in_order : Text → Text → Bool
  pub strftime : ℕ → Text
  pub hexdigest : Text → Bytes → Text
  -- A path that `realpath` has returned has no link left in it.
  pub realpath-realpath :
      (disk : Disk) (path : Text) → realpath disk (realpath disk path) ≡ realpath disk path
