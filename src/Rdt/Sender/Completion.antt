-- ===== src/Rdt/Sender/Completion.antt =====
-- What a call of `send_chunks_rdt` guarantees: the bound of its window, and what it means that it
-- returns.
pub mod Acknowledged
use hybrid_ftp_socket.Prelude.{ℕ, Bytes, List, ◌≡◌, length, ltb, Bool-cases, inl, inr, ap, ◌∙◌}
use hybrid_ftp_socket.Prelude.Outcome.{value_error}
use hybrid_ftp_socket.Rdt.Network.{Event}
use hybrid_ftp_socket.Rdt.Sender.State.{Job, lookahead, returned, raised, attempts}
use hybrid_ftp_socket.Rdt.Sender.Items.{chunks_sent, total_length, bytes_before, bytes_before_all}
use hybrid_ftp_socket.Rdt.Sender.Window.{base}
use hybrid_ftp_socket.Rdt.Sender.Invariant.{IsValid}
use hybrid_ftp_socket.Rdt.Sender.Invariant.Calls.{run-IsValid, begun-IsValid, attempts-ne}
use hybrid_ftp_socket.Rdt.Sender.{start, send_chunks_rdt}

module _ (crc32 : Bytes → ℕ) (job : Job) (chunks : List Bytes) where
  -- At every moment of a call the sender's invariant holds: the window holds consecutive packets
  -- from the first that is not acknowledged, never more than `window_size`, and the bytes counted
  -- are those of the acknowledged chunks.
  pub send_chunks_rdt-IsValid :
      (events : List Event) → IsValid crc32 job chunks (send_chunks_rdt crc32 job chunks events).0
  unfolding send_chunks_rdt
  send_chunks_rdt-IsValid events = elim (Bool-cases (ltb job.window_size 1)) [
    | inl t ↦ rw t (begun-IsValid crc32 job chunks (raised value_error) (λ x. cc))
    | inr f ↦ rw f (
        run-IsValid crc32 job chunks (start job chunks) events
          (begun-IsValid crc32 job chunks (attempts job.retry_limit) (attempts-ne job.retry_limit)))
  ]
