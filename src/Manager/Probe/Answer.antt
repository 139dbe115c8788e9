-- ===== src/Manager/Probe/Answer.antt =====
-- The server finds the client by its probe.
use hybrid_ftp_socket.Prelude.{
  ◌∷◌, length, ℕ, zero, suc, ◌+◌, ◌<◌, Bytes, Bool, true, false, Option, none, some, [], drop, take,
  take_all, drop_all, ◌≡◌, refl, subst, ap, ◌∙◌, arith, if◌then◌else◌,
}
use hybrid_ftp_socket.Prelude.Outcome.{ok}
use hybrid_ftp_socket.Prelude.Numerals.{Text}
use hybrid_ftp_socket.Rdt.Header.{Header, size, deserialize, validate_length, verify_checksum}
use hybrid_ftp_socket.Rdt.Header.RoundTrip.{sealed-Passes}
use hybrid_ftp_socket.Manager.Probe.Tested.{is_other-expected, is_probe-IsTested}
use hybrid_ftp_socket.Manager.Probe.{
  Heard, aborted, timeout, closed, datagram, Found, peer, is_other, probe_header, download_probe,
  is_sound, is_probe, turn, listen, wait_for_passive_peer,
}

module _ (crc32 : Bytes → ℕ) where
  -- The header of the probe with its checksum.
  abbrev summed : ℕ → ℕ → Header
  summed transfer_id c = record (probe_header transfer_id) { checksum = c }

  sound-is_probe :
      (transfer_id c : ℕ) (packet : Bytes)
      → deserialize packet ≡ ok (summed transfer_id c)
      → validate_length (summed transfer_id c) packet ≡ true
      → drop size packet ≡ []
      → verify_checksum crc32 (summed transfer_id c) [] ≡ ok true
      → is_probe crc32 packet ≡ true
  unfolding is_probe is_sound
  sound-is_probe transfer_id c packet reads sized nothing verified =
      rw (reads, is_probe, sized, is_sound, nothing, verified) refl

  download_probe-is_probe :
      (transfer_id : ℕ) (packet : Bytes)
      → download_probe crc32 transfer_id ≡ ok packet
      → is_probe crc32 (take (size + 64) packet) ≡ true
  unfolding download_probe
  download_probe-is_probe transfer_id packet e =
      let (c, p) = sealed-Passes crc32 (probe_header transfer_id) [] refl e in
      let whole : take (size + 64) packet ≡ packet =
        take_all (size + 64) packet (omega (arith, p.total)) in
      let nothing : drop size packet ≡ [] = drop_all size packet (omega (arith, p.total)) in
      ap (is_probe crc32) whole
      ∙ sound-is_probe transfer_id c packet p.reads p.sized nothing p.verified

  turn-probe :
      (expected_ip : Option Text) (bytes : Bytes) (host : Text) (port : ℕ)
      → is_other expected_ip host ≡ false
      → is_probe crc32 (take (size + 64) bytes) ≡ true
      → turn crc32 expected_ip (datagram bytes host port) ≡ some (peer host port)
  unfolding turn
  turn-probe expected_ip bytes host port known passed = rw (known, turn, passed) refl

  listen-first :
      (turns k : ℕ) (expected_ip : Option Text) (heard : ℕ → Heard) (found : Found)
      → ((i : ℕ) → i < k → turn crc32 expected_ip (heard i) ≡ none)
      → k < turns
      → turn crc32 expected_ip (heard k) ≡ some found
      → listen crc32 turns expected_ip heard ≡ found
  unfolding listen
  listen-first zero k expected_ip heard found before bound e = absurd (omega arith)
  listen-first (suc turns) zero expected_ip heard found before bound e = rw (e, listen) refl
  listen-first (suc turns) (suc k) expected_ip heard found before bound e =
      rw (before 0 (omega arith), listen)
        (listen-first turns k expected_ip (λ i. heard (suc i)) found
          (λ i h. before (suc i) (omega arith)) (omega arith) e)

  -- If the probe of the client arrives from the address that is expected in one of the turns, and
  -- the turns before it bring only timeouts and datagrams that are no probe of the client, then the
  -- server returns the address of the client.
  pub wait_for_passive_peer-download_probe :
      (socket max_timeouts k transfer_id port : ℕ) (expected_ip : Option Text) (heard : ℕ → Heard)
      (packet : Bytes) (host : Text)
      → ((i : ℕ) → i < k → turn crc32 expected_ip (heard i) ≡ none)
      → k < max_timeouts
      → download_probe crc32 transfer_id ≡ ok packet
      → heard k ≡ datagram packet host port
      → is_other expected_ip host ≡ false
      → wait_for_passive_peer crc32 (some socket) max_timeouts expected_ip heard ≡ peer host port
  unfolding wait_for_passive_peer
  wait_for_passive_peer-download_probe socket max_timeouts k transfer_id port expected_ip heard
        packet host before bound made arrived known =
      listen-first max_timeouts k expected_ip heard (peer host port) before bound (
        ap (turn crc32 expected_ip) arrived
        ∙ turn-probe expected_ip packet host port known
            (download_probe-is_probe transfer_id packet made))

  -- A readiness probe from the host, cut off as `recvfrom` does: a START with the number 0, whose
  -- length is that of the datagram and whose checksum is right. If an address is expected, it is
  -- the host's.
  pub record IsAnswer (expected_ip : Option Text) (host : Text) (port : ℕ) (event : Heard)
      : Type 0 where
    pub bytes : Bytes
    pub header : Header
    pub came : event ≡ datagram bytes host port
    pub expected : (c : ℕ) (ip : Text) → expected_ip ≡ some (c ∷ ip) → host ≡ c ∷ ip
    pub reads : deserialize (take 84 bytes) ≡ ok header
    pub kind : header.flags ≡ 0x08
    pub first : header.seq_num ≡ 0
    pub sized : size + header.payload_length ≡ length (take 84 bytes)
    pub sound : verify_checksum crc32 header (drop size (take 84 bytes)) ≡ ok true

  turn-IsAnswer :
      (expected_ip : Option Text) (event : Heard) (host : Text) (port : ℕ)
      → turn crc32 expected_ip event ≡ some (peer host port)
      → IsAnswer expected_ip host port event
  unfolding turn
  turn-IsAnswer expected_ip aborted host port e = absurd cc
  turn-IsAnswer expected_ip timeout host port e = absurd cc
  turn-IsAnswer expected_ip closed host port e = absurd cc
  turn-IsAnswer expected_ip (datagram bytes from at) host port e =
      by_tests (is_other expected_ip from) (is_probe crc32 (take (size + 64) bytes)) refl refl e
    where
      by_tests :
          (other probe : Bool)
          → is_other expected_ip from ≡ other
          → is_probe crc32 (take (size + 64) bytes) ≡ probe
          → (if other then none else if probe then some (peer from at) else none)
            ≡ some (peer host port)
          → IsAnswer expected_ip host port (datagram bytes from at)
      by_tests true probe o p e = absurd cc
      by_tests false false o p e = absurd cc
      by_tests false true o p e =
          let hosts : from ≡ host = cc in
          let ports : at ≡ port = cc in
          let t = is_probe-IsTested crc32 (take (size + 64) bytes) p in
          record {
            bytes = bytes;
            header = t.header;
            came = cc;
            expected =
                is_other-expected expected_ip host
                  (subst (λ h. is_other expected_ip h ≡ false) hosts o);
            reads = t.reads;
            kind = t.kind;
            first = t.first;
            sized = t.sized;
            sound = t.sound;
          }

  listen-IsAnswer :
      (turns : ℕ) (expected_ip : Option Text) (heard : ℕ → Heard) (host : Text) (port : ℕ)
      → listen crc32 turns expected_ip heard ≡ peer host port
      → (k : ℕ) × (k < turns) × IsAnswer expected_ip host port (heard k)
  unfolding listen
  listen-IsAnswer zero expected_ip heard host port e = absurd cc
  listen-IsAnswer (suc turns) expected_ip heard host port e =
      by_turn (turn crc32 expected_ip (heard 0)) (turn-IsAnswer expected_ip (heard 0) host port)
        (listen-IsAnswer turns expected_ip (λ i. heard (suc i)) host port) e
    where
      by_turn :
          (found : Option Found)
          → (found ≡ some (peer host port) → IsAnswer expected_ip host port (heard 0))
          → (listen crc32 turns expected_ip (λ i. heard (suc i)) ≡ peer host port
              → (k : ℕ) × (k < turns) × IsAnswer expected_ip host port (heard (suc k)))
          → (elim found [
            | some found ↦ found
            | none ↦ listen crc32 turns expected_ip (λ i. heard (suc i))
          ])
            ≡ peer host port
          → (k : ℕ) × (k < suc turns) × IsAnswer expected_ip host port (heard k)
      by_turn none now later e = let (k, bound, answer) = later e in (suc k, omega arith, answer)
      by_turn (some found) now later e = (0, omega arith, now (ap some e))

  -- An address that `_wait_for_passive_peer` returns is one that a readiness probe came from in one
  -- of its turns, a START with the number 0 whose length and checksum are right; and it is the
  -- expected one, if an address is expected.
  pub wait_for_passive_peer-IsAnswer :
      (socket : Option ℕ) (max_timeouts : ℕ) (expected_ip : Option Text) (heard : ℕ → Heard)
      (host : Text) (port : ℕ)
      → wait_for_passive_peer crc32 socket max_timeouts expected_ip heard ≡ peer host port
      → (k : ℕ) × (k < max_timeouts) × IsAnswer expected_ip host port (heard k)
  unfolding wait_for_passive_peer
  wait_for_passive_peer-IsAnswer none max_timeouts expected_ip heard host port e = absurd cc
  wait_for_passive_peer-IsAnswer (some socket) max_timeouts expected_ip heard host port e =
      listen-IsAnswer max_timeouts expected_ip heard host port e
