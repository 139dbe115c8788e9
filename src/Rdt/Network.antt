-- ===== src/Rdt/Network.antt =====
-- What the transport sees of its UDP socket and of its caller: one `Event` for each round of a
-- loop, that is what `cancel_event.is_set()` said and what `recvfrom` did.
use hybrid_ftp_socket.Prelude.{ℕ, Bytes, Bool, String, Option, ◌&&◌, ◌==◌, str_eq}

pub record Address : Type 0 where
  pub host : String
  pub port : ℕ

unfoldable pub address_eq : Address → Address → Bool
address_eq a b = str_eq a.host b.host && a.port == b.port

-- The outcomes of `recvfrom`: `socket.timeout`, another `OSError`, or a datagram and its origin.
pub data Received : Type 0 where
  timeout : Received
  failure : Received
  packet : Bytes → Address → Received

pub record Event : Type 0 where
  pub cancelled : Bool
  pub received : Received

-- What a transfer does for others to see: datagrams, calls of the progress callback (the bytes so
-- far and the total), and chunks that the receiver's generator yields.
pub data Output : Type 0 where
  sent : Bytes → Address → Output
  progress : ℕ → Option ℕ → Output
  yielded : Bytes → Output
