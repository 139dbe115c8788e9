-- ===== src/Rdt/Protocol/Completion.antt =====
-- What the return of either side says of the other.
use hybrid_ftp_socket.Prelude.{ℕ, ◌≤◌, Bytes, ◌≡◌, ◌∙◌, List, arith, length, take, take_all}
use hybrid_ftp_socket.Rdt.Receiver.State.{Config, chunks_of}
use hybrid_ftp_socket.Rdt.Receiver.Moves.{IsOver}
use hybrid_ftp_socket.Rdt.Sender.State.{Job, returned}
use hybrid_ftp_socket.Rdt.Sender.Items.{chunks_sent, length-lookahead}
use hybrid_ftp_socket.Rdt.Protocol.{System, Reach}
use hybrid_ftp_socket.Rdt.Protocol.Agreement.{Reach-Agrees}

module _ (crc32 : Bytes → ℕ) (job : Job) (cfg : Config) (chunks : List Bytes) {sys : System} where
  -- In every state that the two sides reach, what the receiver has yielded is the first chunks that
  -- the sender was given, in order and once each.
  pub Reach-prefix :
      Reach crc32 job cfg chunks sys
      → (place : ℕ) × (place ≤ length (chunks_sent chunks))
        × (chunks_of sys.receiver_output ≡ take place (chunks_sent chunks))
  Reach-prefix r = let a = Reach-Agrees crc32 job cfg chunks r in (a.place, a.bound, a.yields)

  -- When the receiver waits in `_fin_grace` or has returned, it has yielded every chunk that the
  -- sender was given, in order and once each, whatever the sender knows of it.
  pub Reach-over :
      Reach crc32 job cfg chunks sys
      → IsOver sys.receiver.phase
      → chunks_of sys.receiver_output ≡ chunks_sent chunks
  Reach-over r over =
      let a = Reach-Agrees crc32 job cfg chunks r in
      a.yields ∙ take_all a.place (chunks_sent chunks) (omega (arith, a.complete over))

  -- When the sender of at least two chunks has returned, the receiver has yielded every chunk, in
  -- order and once each.
  pub returned-delivered :
      Reach crc32 job cfg chunks sys
      → (sys.sender).phase ≡ returned
      → 2 ≤ length (chunks_sent chunks)
      → chunks_of sys.receiver_output ≡ chunks_sent chunks
  returned-delivered r p two =
      let a = Reach-Agrees crc32 job cfg chunks r in
      a.yields
      ∙ take_all a.place (chunks_sent chunks)
          (omega (arith, a.counted, (a.valid).complete p, length-lookahead chunks))
