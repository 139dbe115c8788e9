-- ===== src/Control/Session.antt =====
-- server/session.py: the state of a session, and what a command finds in its surroundings.
use hybrid_ftp_socket.Prelude.{ℕ, Bool, false, Option, none, ◌∷◌}
use hybrid_ftp_socket.Prelude.Numerals.{Text, padded}

pub data Operation : Type 0 where
  retr stor stou appe : Operation

pub data DataMode : Type 0 where
  active passive : DataMode

-- `current_transfer`: its type and its file, which STOU has none of.
pub record Transfer : Type 0 where
  pub operation : Operation
  pub file : Option Text

-- `data_socket` is the local port of the UDP socket. `transfer_cancel_event` says whether the event
-- is set; `transfer_worker` is the id of the transfer that the thread runs.
pub record Session : Type 0 where
  pub username : Option Text
  pub is_logged_in : Bool
  pub current_dir : Text
  pub rename_from : Option Text
  pub transfer_type : ℕ
  pub transfer_mode : ℕ
  pub data_host : Option Text
  pub data_port : Option ℕ
  pub data_socket : Option ℕ
  pub data_mode : Option DataMode
  pub transfer_cancelled : Bool
  pub transfer_cancel_event : Option Bool
  pub current_transfer : Option Transfer
  pub transfer_worker : Option Text
  pub transfer_id : Option Text
  pub peer_ip : Option Text
  pub server_ip : Option Text

-- `Session.__init__`, with the address of the peer and of the server that `ClientHandler` sets.
abbrev pub opened : Text → Option Text → Option Text → Session
opened ftp_root peer_ip server_ip = record {
  username = none;
  is_logged_in = false;
  current_dir = ftp_root;
  rename_from = none;
  transfer_type = b'I';
  transfer_mode = b'S';
  data_host = none;
  data_port = none;
  data_socket = none;
  data_mode = none;
  transfer_cancelled = false;
  transfer_cancel_event = none;
  current_transfer = none;
  transfer_worker = none;
  transfer_id = none;
  peer_ip = peer_ip;
  server_ip = server_ip;
}

-- `new_transfer_id` names the transfer by the class's counter, which then goes on.
unfoldable pub transfer_name : ℕ → Text
transfer_name counter = b'T' ∷ padded 6 counter

-- What a command meets: the port that `bind` gives (none for an `OSError`), what
-- `gethostbyname(gethostname())` returns, and whether the worker's thread is alive.
pub record Given : Type 0 where
  pub bound : Option ℕ
  pub host_address : Option Text
  pub is_alive : Bool
