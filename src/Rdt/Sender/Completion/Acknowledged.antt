-- ===== src/Rdt/Sender/Completion/Acknowledged.antt =====
-- What it means that a call of `send_chunks_rdt` returns: the last packet was acknowledged by a
-- datagram that the call received.
use hybrid_ftp_socket.Prelude.{ℕ, Bytes, true, List, [], ◌∷◌, ◌≡◌, ◌⊎◌}
use hybrid_ftp_socket.Prelude.Outcome.{ok}
use hybrid_ftp_socket.Rdt.Header.{Header, deserialize, verify_checksum, flag_ack}
use hybrid_ftp_socket.Rdt.Network.{Address, address_eq, Received, packet, Event}
use hybrid_ftp_socket.Rdt.Sender.State.{Job, Sender}

module _ (crc32 : Bytes → ℕ) (job : Job) where
  -- A datagram from the destination that acknowledges the packet of this number for the transfer:
  -- an ACK without payload, whose checksum is right.
  pub record IsAckOf (number : ℕ) (received : Received) : Type 0 where
    pub bytes : Bytes
    pub origin : Address
    pub header : Header
    pub came : received ≡ packet bytes origin
    pub from_peer : address_eq origin job.destination ≡ true
    pub reads : deserialize bytes ≡ ok header
    pub sound : verify_checksum crc32 header [] ≡ ok true
    pub empty : header.payload_length ≡ 0
    pub kind : header.flags ≡ flag_ack
    pub transfer : header.transfer_id ≡ job.transfer_id
    pub acknowledged : header.ack_num ≡ number

  -- One of the events brings one.
  abbrev pub IsAcknowledged : ℕ → List Event → Type 0
  IsAcknowledged number [] = ⊥
  IsAcknowledged number (event ∷ events) =
      IsAckOf number event.received ⊎ IsAcknowledged number events
