-- ===== src/Manager/Probe.antt =====
-- server/transfer_manager.py and client/ftp_client.py: the datagram by which the client of a download
-- in passive mode says where it listens. `zlib.crc32` is the parameter `crc32`.
pub mod Tested
pub mod Answer
use hybrid_ftp_socket.Prelude.{
  ℕ, zero, suc, ◌+◌, Bytes, Bool, true, false, ◌&&◌, not, Option, none, some, List, [], ◌∷◌, ◌==◌,
  drop, take, if◌then◌else◌,
}
use hybrid_ftp_socket.Prelude.Outcome.{Result, ok, err}
use hybrid_ftp_socket.Prelude.Numerals.{Text, is_empty, text_eq}
use hybrid_ftp_socket.Rdt.Header.{
  Header, size, flag_start, deserialize, validate_length, verify_checksum, sealed,
}

-- What a turn of the loop meets: the event is set, `recvfrom` times out or raises an `OSError`, or
-- it returns a datagram with the host and the port it came from.
pub data Heard : Type 0 where
  aborted timeout closed : Heard
  datagram : (bytes : Bytes) (host : Text) (port : ℕ) → Heard

-- What `_wait_for_passive_peer` returns, or raises: a `TransferCancelledError` or a `ValueError`.
pub data Found : Type 0 where
  peer : (host : Text) (port : ℕ) → Found
  cancelled no_socket socket_closed no_probe : Found

-- `expected_ip and address[0] != expected_ip`
unfoldable pub is_other : Option Text → Text → Bool
is_other none host = false
is_other (some expected_ip) host = not (is_empty expected_ip) && not (text_eq host expected_ip)

-- The header of the readiness probe.
abbrev pub probe_header : ℕ → Header
probe_header transfer_id = record {
  transfer_id = transfer_id;
  seq_num = 0;
  ack_num = 0;
  flags = flag_start;
  checksum = 0;
  payload_length = 0;
}

module _ (crc32 : Bytes → ℕ) where
  -- `_pasv_download_socket` for the id 0, and `_send_active_download_probe`.
  unfoldable pub download_probe : ℕ → Result Bytes
  download_probe transfer_id = sealed crc32 (probe_header transfer_id) []

  -- The checksum of a header that was read from bytes can be computed: its fields are in range.
  unfoldable pub is_sound : Header → Bytes → Bool
  is_sound header packet = elim (verify_checksum crc32 header (drop size packet)) [
    | ok same ↦ same
    | err e ↦ false
  ]

  -- The tests of a datagram, which `recvfrom` has cut off behind 64 bytes of payload.
  unfoldable pub is_probe : Bytes → Bool
  is_probe packet = elim (deserialize packet) [
    | err e ↦ false
    | ok header ↦
        header.flags == flag_start
        && header.seq_num == 0
        && validate_length header packet
        && is_sound header packet
  ]

  -- A turn; none goes on to the next one.
  unfoldable pub turn : Option Text → Heard → Option Found
  turn expected_ip aborted = some cancelled
  turn expected_ip timeout = none
  turn expected_ip closed = some socket_closed
  turn expected_ip (datagram bytes host port) =
      if is_other expected_ip host
      then none
      else if is_probe (take (size + 64) bytes)
      then some (peer host port)
      else none

  -- `for _ in range(context.max_timeouts)`
  unfoldable pub listen : ℕ → Option Text → (ℕ → Heard) → Found
  listen zero expected_ip heard = no_probe
  listen (suc turns) expected_ip heard =
      let later = listen turns expected_ip (λ i. heard (suc i)) in
      elim (turn expected_ip (heard 0)) [ some found ↦ found | none ↦ later ]

  unfoldable pub wait_for_passive_peer : Option ℕ → ℕ → Option Text → (ℕ → Heard) → Found
  wait_for_passive_peer none max_timeouts expected_ip heard = no_socket
  wait_for_passive_peer (some socket) max_timeouts expected_ip heard =
      listen max_timeouts expected_ip heard
