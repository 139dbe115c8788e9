-- ===== src/Storage/Tests.antt =====
-- The theorems on the files applied to a disk with one directory and one file in it.
use hybrid_ftp_socket.Prelude.{Bool, true, false, none, some, [], ◌∷◌, ◌++◌, ◌≡◌, refl, inr, ◌⊎◌}
use hybrid_ftp_socket.Prelude.Text.{codes}
use hybrid_ftp_socket.Prelude.Numerals.{Text, text_eq}
use hybrid_ftp_socket.Control.Parser.{FtpCommand}
use hybrid_ftp_socket.Control.Session.{Session, Given, opened}
use hybrid_ftp_socket.Control.Handler.{handle}
use hybrid_ftp_socket.Control.Handler.Base.{Start}
use hybrid_ftp_socket.Storage.System.{System, done, raises, other_os_error}
use hybrid_ftp_socket.Storage.Paths.{
  startswith, strip_slashes, is_inside, validate_path, target_of, resolve_path,
}
use hybrid_ftp_socket.Storage.Paths.Components.{IsBelow}
use hybrid_ftp_socket.Storage.Paths.Resolved.{named, resolve_path-IsBelow}
use hybrid_ftp_socket.Storage.Directories.{compute_hash}
use hybrid_ftp_socket.Storage.Directories.Reading.{compute_hash_lem}
use hybrid_ftp_socket.Storage.Filled.{IsRoot, service}
use hybrid_ftp_socket.Storage.Filled.Changes.{Change, handle-Change}

-- A system without links, on which nothing can be written; a disk is whether the file is there.
abbrev plain : System
plain = record {
  Disk = Bool;
  realpath = λ disk path. path;
  join_path = λ base path. base ++ (b'/' ∷ path);
  dirname = λ path. codes "/srv";
  basename = λ path. codes "a";
  relpath = λ path base. path;
  isabs = λ path. false;
  exists = λ disk path. disk;
  isdir = λ disk path. text_eq path (codes "/srv");
  isfile = λ disk path. disk;
  makedirs = λ disk path. (disk, raises other_os_error []);
  rmdir = λ disk path. (disk, raises other_os_error []);
  remove = λ disk path. (false, done tt);
  move = λ disk old new. (disk, raises other_os_error []);
  scandir = λ disk path. done [];
  os_stat = λ disk path. raises other_os_error [];
  getsize = λ disk path. done 3;
  contents = λ disk path. done (codes "abc");
  lower = λ text. text;
  before_in_order = λ a b. false;
  strftime = λ time. [];
  hexdigest = λ algorithm bytes. bytes;
  realpath-realpath = λ disk path. refl;
}

abbrev root : Text
root = codes "/srv"

root-IsRoot : IsRoot plain root
root-IsRoot disk = refl

resolved : resolve_path plain true root root (codes "a") ≡ done (codes "/srv/a")
unfolding resolve_path validate_path is_inside target_of startswith strip_slashes text_eq
resolved = refl

resolve_path-IsBelow_example :
    IsBelow root (codes "/srv/a") × codes "/srv/a" ≡ named plain true root root (codes "a")
resolve_path-IsBelow_example =
    resolve_path-IsBelow plain true root root (codes "a") (codes "/srv/a") resolved

compute_hash_lem_example :
    compute_hash plain true (codes "/srv/a") (codes "sha256") ≡ done (codes "abc")
compute_hash_lem_example =
    compute_hash_lem plain true (codes "/srv/a") (codes "sha256") (codes "abc") (inr refl) refl refl

abbrev member : Session
member = record (opened root (none) (none)) { username = some (codes "ann"); is_logged_in = true }

abbrev dele_a : FtpCommand
dele_a = record { name = codes "DELE"; argument = codes "a" }

abbrev quiet : Given
quiet = record { bound = none; host_address = none; is_alive = false }

handle-Change_example :
    ((handle (service plain root root-IsRoot) (λ date. date) dele_a quiet member true 7).started
        ≡ none
      × Change plain root true
          (handle (service plain root root-IsRoot) (λ date. date) dele_a quiet member true 7).disk)
    ⊎ ((start : Start) × ((handle
            (service plain root root-IsRoot)
            (λ date. date)
            dele_a
            quiet
            member
            true
            7).started
          ≡ some start)
        × ((handle (service plain root root-IsRoot) (λ date. date) dele_a quiet member true 7).disk
            ≡ true))
handle-Change_example =
    handle-Change plain root root-IsRoot true (λ date. date) quiet 7 dele_a member
