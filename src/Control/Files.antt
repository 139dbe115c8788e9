-- ===== src/Control/Files.antt =====
-- common/filesystem_service.py as the command handler calls it.
use hybrid_ftp_socket.Prelude.{ℕ, Bool, List, ◌≡◌}
use hybrid_ftp_socket.Prelude.Numerals.{Text}

-- A call returns, raises a `FilesystemOperationError` with its reply code and message, or raises
-- another exception.
pub data Outcome {ℓ} (A : Type ℓ) : Type ℓ where
  returned : A → Outcome A
  refused : (reply_code : ℕ) (message : Text) → Outcome A
  crashed : Outcome A

-- What `list` and `stat` say of an entry.
pub record Entry : Type 0 where
  pub name : Text
  pub size : ℕ
  pub is_dir : Bool
  pub permissions : Text
  pub modified : Text

-- The operations of `FilesystemService`, over the contents of the disk. The first text is the
-- session's directory, the others come from the client. `IsInside` is what a directory of a
-- session must be: the laws say that the service hands out no other.
pub record Files : Type 1 where
  pub Disk : Type 0
  pub IsInside : Text → Type 0
  pub display_path : Disk → Text → Outcome Text
  pub change_directory : Disk → Text → Text → Outcome Text
  pub parent_directory : Disk → Text → Outcome Text
  pub make_directory : Disk → Text → Text → Disk × Outcome Text
  pub remove_directory : Disk → Text → Text → Disk × Outcome (Unit {0})
  pub delete : Disk → Text → Text → Disk × Outcome (Unit {0})
  pub rename : Disk → Text → Text → Text → Disk × Outcome (Unit {0})
  pub prepare_retrieve : Disk → Text → Text → Outcome Text
  pub list : Disk → Text → Text → Outcome (List Entry)
  pub names : Disk → Text → Text → Outcome (List Text)
  pub size : Disk → Text → Text → Outcome ℕ
  pub modified_time : Disk → Text → Text → Outcome Text
  pub stat : Disk → Text → Text → Outcome Entry
  pub hash : Disk → Text → Text → Outcome Text
  pub change_directory-IsInside :
      (disk : Disk) (cwd path new : Text)
      → change_directory disk cwd path ≡ returned new
      → IsInside new
  pub parent_directory-IsInside :
      (disk : Disk) (cwd new : Text) → parent_directory disk cwd ≡ returned new → IsInside new
