-- ===== src/Manager/Tests.antt =====
-- The theorems on transfers applied to a download in passive mode.
use hybrid_ftp_socket.Prelude.{
  ℕ, zero, suc, ◌+◌, ◌*◌, Bytes, Bool, true, false, none, some, [], ◌∷◌, ◌++◌, ◌<◌, ◌≡◌, refl,
  arith,
}
use hybrid_ftp_socket.Prelude.Outcome.{ok}
use hybrid_ftp_socket.Prelude.Text.{codes}
use hybrid_ftp_socket.Prelude.Numerals.{Text, text_eq}
use hybrid_ftp_socket.Rdt.Header.{
  sealed, compute_checksum, serialize, is_valid_flags, fits, covered, wire,
}
use hybrid_ftp_socket.Control.Session.{Session, Given, opened}
use hybrid_ftp_socket.Manager.Probe.{
  Heard, timeout, datagram, peer, is_other, probe_header, download_probe, turn,
  wait_for_passive_peer,
}
use hybrid_ftp_socket.Manager.Probe.Answer.{
  IsAnswer, wait_for_passive_peer-download_probe, wait_for_passive_peer-IsAnswer,
}
use hybrid_ftp_socket.Control.Handler.Transfers.{cancel}
use hybrid_ftp_socket.Manager.Lifecycle.{Body, unsent}
use hybrid_ftp_socket.Control.Parser.{FtpCommand}
use hybrid_ftp_socket.Control.Files.{Files, returned, crashed}

unfoldable sum_of : Bytes → ℕ
sum_of [] = 0
sum_of (b ∷ bytes) = b + 3 * sum_of bytes

abbrev client : Text
client = codes "10.0.0.5"

abbrev probe : Bytes
probe =
    wire (record (probe_header 0) { checksum = sum_of (covered sum_of (probe_header 0) []) }) ++ []

probe-sealed : download_probe sum_of 0 ≡ ok probe
unfolding download_probe sealed compute_checksum serialize is_valid_flags fits covered sum_of wire
probe-sealed = refl

-- A timeout, then the probe.
unfoldable heard : ℕ → Heard
heard zero = timeout
heard (suc n) = datagram probe client 40001

quiet_before : (i : ℕ) → i < 1 → turn sum_of (some client) (heard i) ≡ none
unfolding heard turn
quiet_before zero h = refl
quiet_before (suc i) h = absurd (omega arith)

found : wait_for_passive_peer sum_of (some 50000) 10 (some client) heard ≡ peer client 40001
unfolding heard is_other text_eq
found =
    wait_for_passive_peer-download_probe sum_of 50000 10 1 0 40001 (some client) heard probe client
      quiet_before (omega arith) probe-sealed refl refl

wait_for_passive_peer-download_probe_example :
    wait_for_passive_peer sum_of (some 50000) 10 (some client) heard ≡ peer client 40001
unfolding heard is_other text_eq
wait_for_passive_peer-download_probe_example =
    wait_for_passive_peer-download_probe sum_of 50000 10 1 0 40001 (some client) heard probe client
      quiet_before (omega arith) probe-sealed refl refl

wait_for_passive_peer-IsAnswer_example :
    (k : ℕ) × (k < 10) × IsAnswer sum_of (some client) client 40001 (heard k)
wait_for_passive_peer-IsAnswer_example =
    wait_for_passive_peer-IsAnswer sum_of (some 50000) 10 (some client) heard client 40001 found

abbrev member : Session
member = record (opened (codes "/srv") (some client) none) {
  username = some (codes "ann");
  is_logged_in = true;
  data_host = some client;
  data_port = some 40001;
}

-- A download that has failed, while the client has broken off the transfer.
abbrev broken : Session → Session × Bool × Body
broken s = (cancel s, true, unsent)

abbrev idle : Given
idle = record { bound = some 50001; host_address = none; is_alive = false }

-- A service that finds every file.
abbrev files : Files
files = record {
  Disk = Bool;
  IsInside = λ path. Unit;
  display_path = λ disk cwd. returned cwd;
  change_directory = λ disk cwd path. returned cwd;
  parent_directory = λ disk cwd. returned cwd;
  make_directory = λ disk cwd path. (disk, crashed);
  remove_directory = λ disk cwd path. (disk, crashed);
  delete = λ disk cwd path. (disk, crashed);
  rename = λ disk cwd old new. (disk, crashed);
  prepare_retrieve = λ disk cwd path. returned path;
  list = λ disk cwd path. returned [];
  names = λ disk cwd path. returned [];
  size = λ disk cwd path. returned 3;
  modified_time = λ disk cwd path. crashed;
  stat = λ disk cwd path. crashed;
  hash = λ disk cwd path. crashed;
  change_directory-IsInside = λ disk cwd path new e. tt;
  parent_directory-IsInside = λ disk cwd new e. tt;
}

abbrev same : Text → Text
same date = date

abbrev retr_a : FtpCommand
retr_a = record { name = codes "RETR"; argument = codes "a" }

abbrev pasv : FtpCommand
pasv = record { name = codes "PASV"; argument = [] }
