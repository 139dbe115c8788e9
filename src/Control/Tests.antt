-- ===== src/Control/Tests.antt =====
-- The theorems on the control connection applied to a small file system.
use hybrid_ftp_socket.Prelude.{
  ℕ, Bool, true, false, Option, none, some, List, [], ◌∷◌, ◌≡◌, ◌⊎◌, inl, inr, refl, sym, subst,
  Bytes, if◌then◌else◌,
}
use hybrid_ftp_socket.Prelude.Text.{codes}
use hybrid_ftp_socket.Prelude.Numerals.{Text, text_eq}
use hybrid_ftp_socket.Control.Parser.{FtpCommand}
use hybrid_ftp_socket.Control.Session.{Session, Given, opened, retr, transfer_name}
use hybrid_ftp_socket.Control.Files.{Files, Outcome, returned, refused, crashed}
use hybrid_ftp_socket.Control.Handler.Gate.{NeedsLogin, Denied, handle-Denied}
use hybrid_ftp_socket.Control.Handler.Invariant.{IsValid, opened-IsValid}
use hybrid_ftp_socket.Control.Handler.Invariant.Kept.{handle-IsValid}
use hybrid_ftp_socket.Control.Handler.Rename.Pair.{IsRenamed, handle-IsRenamed}
use hybrid_ftp_socket.Control.Handler.{verb_of, before, handle, dispatch, verb_in, v_rnto, v_dele}
use hybrid_ftp_socket.Control.Handler.Base.{Start, Handled}
use hybrid_ftp_socket.Control.Handler.Starts.Started.{IsStarted, handle-IsStarted}
use hybrid_ftp_socket.Control.Handler.Transfers.{
  named_transfer, begin, has_endpoint, transfer_in_progress, start_transfer,
}
use hybrid_ftp_socket.Control.Connection.{reading, no_address, connect, connection_of, run, cleanup}
use hybrid_ftp_socket.Control.Connection.Lines.{split_line, split_at}
use hybrid_ftp_socket.Control.Connection.Framing.{serve_lines, run-lines_of}
use hybrid_ftp_socket.Control.Connection.Lifetime.{connect-IsValid}

-- The root and one directory in it; a disk is the names of its files.
abbrev root : Text
root = codes "/srv"

abbrev IsServed : Text → Type 0
IsServed path = (path ≡ codes "/srv") ⊎ (path ≡ codes "/srv/docs")

abbrev enter : Text → Outcome Text
enter path = if text_eq path (codes "docs") then returned (codes "/srv/docs") else refused 550 []

enter-IsServed : (path new : Text) → enter path ≡ returned new → IsServed new
enter-IsServed path new e = by_test (text_eq path (codes "docs")) e
  where
    by_test :
        (b : Bool)
        → (if b then returned (codes "/srv/docs") else refused 550 []) ≡ returned new
        → IsServed new
    by_test true e = inr cc
    by_test false e = absurd cc

abbrev small : Files
small = record {
  Disk = List Text;
  IsInside = IsServed;
  display_path = λ disk cwd. returned cwd;
  change_directory = λ disk cwd path. enter path;
  parent_directory = λ disk cwd. returned (codes "/srv");
  make_directory = λ disk cwd path. (path ∷ disk, returned path);
  remove_directory = λ disk cwd path. (disk, crashed);
  delete = λ disk cwd path. ([], returned tt);
  rename = λ disk cwd old new. (new ∷ [], returned tt);
  prepare_retrieve = λ disk cwd path. returned path;
  list = λ disk cwd path. returned [];
  names = λ disk cwd path. returned disk;
  size = λ disk cwd path. returned 3;
  modified_time = λ disk cwd path. crashed;
  stat = λ disk cwd path. crashed;
  hash = λ disk cwd path. crashed;
  change_directory-IsInside = λ disk cwd path new e. enter-IsServed path new e;
  parent_directory-IsInside = λ disk cwd new e. inl cc;
}

abbrev same_date : Text → Text
same_date date = date

abbrev quiet : Given
quiet = record { bound = some 50000; host_address = none; is_alive = false }

abbrev peer : Option Text
peer = some (codes "10.0.0.5")

abbrev guest : Session
guest = opened root peer none

abbrev member : Session
member = record guest {
  username = some (codes "ann");
  is_logged_in = true;
  rename_from = some (codes "a");
}

guest-IsValid : IsValid small guest
guest-IsValid = opened-IsValid small root peer none (inl refl)

member-IsValid : IsValid small member
member-IsValid = record {
  user = inr (codes "ann", refl);
  renaming = inr (refl, b'a', [], refl);
  mode = guest-IsValid.mode;
  type = guest-IsValid.type;
  inside = inl refl;
  endpoint = tt;
}

abbrev disk : List Text
disk = codes "a" ∷ codes "b" ∷ []

-- DELE by a guest, PORT by a user, and a rename that DELE comes between.
abbrev dele_b : FtpCommand
dele_b = record { name = codes "DELE"; argument = codes "b" }

abbrev port_back : FtpCommand
port_back = record { name = codes "PORT"; argument = codes "10,0,0,5,195,80" }

dele_verb : verb_of (codes "DELE") ≡ v_dele
unfolding verb_in text_eq
dele_verb = refl

handle-Denied_example :
    Denied
      (List Text)
      (before (verb_of (codes "DELE")) guest)
      disk
      4
      (handle small same_date dele_b quiet guest disk 4)
handle-Denied_example =
    handle-Denied small same_date quiet guest disk 4 dele_b refl
      (subst NeedsLogin (sym dele_verb) tt)

handle-IsValid_example :
    IsValid small (handle small same_date port_back quiet member disk 4).session
handle-IsValid_example = handle-IsValid small same_date port_back quiet member disk 4 member-IsValid

abbrev rnfr_a : FtpCommand
rnfr_a = record { name = codes "RNFR"; argument = codes "a" }

abbrev rnto_c : FtpCommand
rnto_c = record { name = codes "RNTO"; argument = codes "c" }

abbrev after_rnfr : Handled (List Text)
after_rnfr = handle small same_date rnfr_a quiet member disk 4

abbrev after_rnto : Handled (List Text)
after_rnto =
    handle small same_date rnto_c quiet after_rnfr.session after_rnfr.disk after_rnfr.counter

rnto_verb : verb_of (codes "RNTO") ≡ v_rnto
unfolding verb_in text_eq
rnto_verb = refl

handle-IsRenamed_example :
    (after_rnto.disk ≡ after_rnfr.disk)
    ⊎ IsRenamed small same_date rnfr_a rnto_c member disk after_rnfr after_rnto
handle-IsRenamed_example =
    handle-IsRenamed small same_date rnfr_a rnto_c quiet quiet member disk 4 member-IsValid
      rnto_verb

abbrev plain : Bytes → Option Text
plain bytes = some bytes

abbrev always : ℕ → Given
always n = quiet

abbrev login : List Bytes
login = codes "USER ann" ∷ codes "PASS x" ∷ codes "QUIT" ∷ []

-- The three lines, cut in the middle of the first line end and behind the second line.
abbrev pieces : List Bytes
pieces = codes "USER ann\r" ∷ codes "\nPASS x\r\nQU" ∷ codes "IT\r\n" ∷ []

run-lines_of_example :
    run small same_date plain always pieces (reading [] (connect root peer none no_address disk 4))
    ≡ serve_lines small same_date plain always login (connect root peer none no_address disk 4)
unfolding split_line split_at
run-lines_of_example =
    run-lines_of small same_date plain always pieces login
      (connect root peer none no_address disk 4)
      (λ e. absurd cc, (λ e. absurd cc, (λ e. absurd cc, tt))) (refl, (refl, (refl, tt))) refl

connect-IsValid_example :
    (IsValid small
      (connection_of (
        run small same_date plain always pieces
          (reading [] (connect root peer none no_address disk 4)))).session)
    × IsValid small (
        cleanup
          (connection_of (
            run small same_date plain always pieces
              (reading [] (connect root peer none no_address disk 4)))).session)
connect-IsValid_example =
    connect-IsValid small same_date plain always root peer none no_address disk 4 pieces (inl refl)

-- A download of a user with a data connection.
abbrev connected : Session
connected = record member { data_host = peer; data_port = some 40001 }

abbrev retr_a : FtpCommand
retr_a = record { name = codes "RETR"; argument = codes "a" }

abbrev download : Start
download = record { operation = retr; argument = some (codes "a"); transfer_id = transfer_name 4 }

download-started : (handle small same_date retr_a quiet connected disk 4).started ≡ some download
unfolding handle dispatch before verb_in text_eq named_transfer begin has_endpoint
    transfer_in_progress start_transfer transfer_name
download-started = refl

handle-IsStarted_example :
    IsStarted
      (List Text)
      quiet
      connected
      4
      download
      (handle small same_date retr_a quiet connected disk 4)
handle-IsStarted_example =
    handle-IsStarted small same_date quiet disk 4 retr_a connected download download-started
