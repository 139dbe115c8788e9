-- ===== src/Rdt/Protocol.antt =====
-- The sender and the receiver of one transfer over a network that loses, repeats, reorders, delays
-- and damages datagrams (common/rdt_sender.py with common/rdt_receiver.py).
-- The rounds of the two sides interleave in any order. What the network may not do is forge: a
-- datagram that passes all tests of the side that gets it is one that the other side has sent.
pub mod Agreement
pub mod Completion
use hybrid_ftp_socket.Prelude.{ℕ, Bytes, Bool, true, ◌≡◌, ◌⊎◌, some, List, [], ◌∷◌, ◌++◌}
use hybrid_ftp_socket.Prelude.Outcome.{ok}
use hybrid_ftp_socket.Rdt.Header.{Header, deserialize}
use hybrid_ftp_socket.Rdt.Network.{
  Address, address_eq, Received, timeout, failure, packet, Event, Output, sent, progress, yielded,
}
use hybrid_ftp_socket.Rdt.Receiver
use hybrid_ftp_socket.Rdt.Receiver.State.{Config, Receiver}
use hybrid_ftp_socket.Rdt.Receiver.Moves.{IsAccepted}
use hybrid_ftp_socket.Rdt.Sender
use hybrid_ftp_socket.Rdt.Sender.State.{Job, Sender}
use hybrid_ftp_socket.Rdt.Sender.{valid_ack}

-- Both sides, and all that each has put out so far.
pub record System : Type 0 where
  pub sender : Sender
  pub receiver : Receiver
  pub sender_output : List Output
  pub receiver_output : List Output

-- The datagram is among those that were sent.
abbrev pub InSent : Bytes → List Output → Type 0
InSent d [] = ⊥
InSent d (sent bytes addr ∷ out) = (d ≡ bytes) ⊎ InSent d out
InSent d (progress done total ∷ out) = InSent d out
InSent d (yielded chunk ∷ out) = InSent d out

module _ (crc32 : Bytes → ℕ) (job : Job) (cfg : Config) (chunks : List Bytes) where
  abbrev pub initial : System
  initial = record {
    sender = Sender.start job chunks;
    receiver = Receiver.State.start (some job.transfer_id);
    sender_output = [];
    receiver_output = [];
  }

  unfoldable pub sender_round : System → Event → System
  sender_round sys event =
      let (s, out) = Sender.step crc32 job sys.sender event in
      record sys { sender = s; sender_output = sys.sender_output ++ out }

  unfoldable pub receiver_round : System → Event → System
  receiver_round sys event =
      let (r, out) = Receiver.step crc32 cfg sys.receiver event in
      record sys { receiver = r; receiver_output = sys.receiver_output ++ out }

  -- What the sender would take for an acknowledgement was sent by the receiver.
  abbrev pub IsHonestAck : System → Received → Type 0
  IsHonestAck sys timeout = Unit
  IsHonestAck sys failure = Unit
  IsHonestAck sys (packet d addr) =
      (h : Header)
      → deserialize d ≡ ok h
      → valid_ack crc32 h job.transfer_id ≡ ok true
      → address_eq addr job.destination ≡ true
      → InSent d sys.receiver_output

  -- What the receiver would accept was sent by the sender.
  abbrev pub IsHonestData : System → Received → Type 0
  IsHonestData sys timeout = Unit
  IsHonestData sys failure = Unit
  IsHonestData sys (packet d addr) =
      (h : Header) → IsAccepted crc32 job.transfer_id d h → InSent d sys.sender_output

  -- The states that the two sides reach, round by round.
  pub data Reach : System → Type 0 where
    begin : Reach initial
    by_sender :
        {sys : System} (event : Event)
        → Reach sys
        → IsHonestAck sys event.received
        → Reach (sender_round sys event)
    by_receiver :
        {sys : System} (event : Event)
        → Reach sys
        → IsHonestData sys event.received
        → Reach (receiver_round sys event)
