-- ===== src/Rdt/Sender.antt =====
-- common/rdt_sender.py: the sending half of the transport, Go-Back-N with a bounded window.
-- `send_chunks_rdt` is a loop over events: its local variables are the record `Sender`, and `step`
-- is one round, of the loop of `_send_start_with_ack` or of the loop of the window.
pub mod State
pub mod Items
pub mod Window
pub mod Invariant
pub mod Completion
pub mod StartAck
pub mod Outputs
pub mod Silence
use hybrid_ftp_socket.Prelude.{
  ℕ, zero, suc, ◌+◌, ◌-◌, Bytes, Bool, true, false, ◌&&◌, ◌||◌, not, Option, none, some, List, [],
  ◌∷◌, ◌++◌, ltb, leb, ◌==◌, if◌then◌else◌, length,
}
use hybrid_ftp_socket.Prelude.Outcome.{
  Result, ok, err, value_error, os_error, runtime_error, cancelled, cancelled_before_start,
  retry_limit, start_retry_limit, ◌>>=◌,
}
use hybrid_ftp_socket.Rdt.Header.{
  Header, flag_ack, flag_abort, flag_data, flag_fin, flag_start, is_valid_flags, deserialize,
  verify_checksum, sealed,
}
use hybrid_ftp_socket.Rdt.Context.{encode_start_metadata}
use hybrid_ftp_socket.Rdt.Network.{
  Address, address_eq, Received, timeout, failure, packet, Event, Output, sent, progress,
}
use State.{
  Job, Item, lookahead, Slot, Phase, starting, sending, returned, raised, Sender, Reply, raise,
  skip, attempts, is_acked, pop_acked, settle, resend,
}

module _ (crc32 : Bytes → ℕ) where
  -- The datagram of an item of `pending`.
  unfoldable pub data_packet : ℕ → Item → Result Bytes
  data_packet transfer_id item =
      sealed crc32
        (record {
          transfer_id = transfer_id;
          seq_num = item.seq_num;
          ack_num = 0;
          flags = if item.is_last then flag_fin else flag_data;
          checksum = 0;
          payload_length = length item.chunk;
        })
        item.chunk

  -- The datagram of `_send_abort`.
  unfoldable pub abort_packet : ℕ → ℕ → Result Bytes
  abort_packet transfer_id seq_num =
      sealed crc32
        (record {
          transfer_id = transfer_id;
          seq_num = seq_num;
          ack_num = 0;
          flags = flag_abort;
          checksum = 0;
          payload_length = 0;
        })
        []

  -- The datagram of `_send_start`.
  unfoldable pub start_packet : Job → Result Bytes
  start_packet job = do
    payload ← encode_start_metadata job.total_bytes job.transfer_mode job.transfer_type
    sealed crc32
        (record {
          transfer_id = job.transfer_id;
          seq_num = 0;
          ack_num = 0;
          flags = flag_start;
          checksum = 0;
          payload_length = length payload;
        })
        payload

  -- `_send_abort`, then the exception of a cancelled transfer.
  abbrev pub cancel_with : Job → Sender → ℕ → Reply
  cancel_with job s seq_num = elim (abort_packet job.transfer_id seq_num) [
    | ok bytes ↦ (s, sent bytes job.destination ∷ [])
    | err e ↦ raise s e
  ]

  -- `_valid_ack`
  unfoldable pub valid_ack : Header → ℕ → Result Bool
  valid_ack header transfer_id = do
    checked ← verify_checksum crc32 header []
    ok (
        checked
        && header.payload_length == 0
        && is_valid_flags header.flags
        && header.flags == flag_ack
        && header.transfer_id == transfer_id
        && header.seq_num == 0)

  -- The inner loop that fills the window from the items that are pending, sending each.
  unfoldable pub fill : Job → Sender → List Item → Reply
  fill job s [] = (
    record s {
      pending = [];
      pending_exhausted =
          if ltb (length s.window) job.window_size then true else s.pending_exhausted;
    },
    [],
  )
  fill job s (item ∷ pending) = elim (ltb (length s.window) job.window_size) [
    | false ↦ (record s { pending = item ∷ pending }, [])
    | true ↦ elim (data_packet job.transfer_id item) [
      | err e ↦ raise (record s { pending = pending }) e
      | ok bytes ↦
          let slot : Slot = record {
            seq_num = item.seq_num;
            packet_data = bytes;
            chunk_length = length item.chunk;
          } in
          let (s', out) =
            fill job (record s { window = s.window ++ slot ∷ []; next_seq = item.seq_num + 1 })
              pending in
          (s', sent bytes job.destination ∷ out)
    ]
  ]

  -- `while not pending_exhausted and len(window) < window_size`
  unfoldable pub refill : Job → Sender → Reply
  refill job s = if s.pending_exhausted then skip s else fill job s s.pending

  -- A new cumulative acknowledgement.
  unfoldable pub on_new_ack : Job → Sender → ℕ → Reply
  on_new_ack job s ack_num =
      let (rest, bytes) = pop_acked ack_num s.window in
      (
        settle (record s {
          timeout_count = 0;
          window = rest;
          transferred_bytes = s.transferred_bytes + bytes;
          last_acked = some ack_num;
        }),
        progress (s.transferred_bytes + bytes) job.total_bytes ∷ [],
      )

  -- A datagram in the loop of the window.
  unfoldable pub on_ack : Job → Sender → Bytes → Address → Reply
  on_ack job s ack_data addr =
      if not (address_eq addr job.destination)
      then skip (settle s)
      else elim (deserialize ack_data) [
        | err e ↦ skip (settle s)
        | ok header ↦ elim (valid_ack header job.transfer_id) [
          | err e ↦ raise s e
          | ok false ↦ skip (settle s)
          | ok true ↦
              if is_acked s.last_acked header.ack_num || leb s.next_seq header.ack_num
              then skip (settle s)
              else on_new_ack job s header.ack_num
        ]
      ]

  -- The rest of a round once the window is full.
  unfoldable pub on_received : Job → Sender → Received → Reply
  on_received job s timeout =
      if leb job.retry_limit (s.timeout_count + 1)
      then raise (record s { timeout_count = s.timeout_count + 1 }) (runtime_error retry_limit)
      else (
        settle (record s { timeout_count = s.timeout_count + 1 }),
        resend job.destination s.window,
      )
  on_received job s failure = raise s os_error
  on_received job s (packet ack_data addr) = on_ack job s ack_data addr

  -- The window is filled; if that raised, the round is over.
  unfoldable pub after_fill : Job → Reply → Received → Reply
  after_fill job (s, out) received = elim s.phase [
    | raised e ↦ (s, out)
    | _ ↦ let (s', more) = on_received job s received in (s', out ++ more)
  ]

  -- A datagram that may be the acknowledgement of START. `s` has the attempts after this one.
  unfoldable pub on_start_ack : Job → Sender → Bytes → Address → Reply
  on_start_ack job s ack_data addr =
      if not (address_eq addr job.destination) then skip s else elim (deserialize ack_data) [
        | err e ↦ skip s
        | ok header ↦ elim (valid_ack header job.transfer_id) [
          | err e ↦ raise s e
          | ok valid ↦
              if valid && header.ack_num == 0 then skip (record s { phase = sending }) else skip s
        ]
      ]

  -- One attempt of `_send_start_with_ack`, with `left` behind it.
  unfoldable pub on_attempt : Job → Sender → ℕ → Received → Reply
  on_attempt job s left received = elim (start_packet job) [
    | err e ↦ raise s e
    | ok bytes ↦
        let after = record s { phase = attempts left } in
        let (s', out) = (elim received as (λ x. Reply) [
          | timeout ↦ skip after
          | failure ↦ raise s os_error
          | packet ack_data addr ↦ on_start_ack job after ack_data addr
        ]) in
        (s', sent bytes job.destination ∷ out)
  ]

  -- One round of whichever loop the call is in.
  unfoldable pub step_in : Phase → Job → Sender → Event → Reply
  step_in (starting zero) job s event = raise s (runtime_error start_retry_limit)
  step_in (starting (suc left)) job s event =
      if event.cancelled
      then cancel_with job (record s { phase = raised (runtime_error cancelled_before_start) }) 0
      else on_attempt job s left event.received
  step_in sending job s event =
      if event.cancelled
      then cancel_with job (record s { phase = raised (runtime_error cancelled) }) s.next_seq
      else after_fill job (refill job s) event.received
  step_in returned job s event = skip s
  step_in (raised e) job s event = skip s

  unfoldable pub step : Job → Sender → Event → Reply
  step job s event = step_in s.phase job s event

  -- The call run to its end, or as far as the events go.
  unfoldable pub run : Job → Sender → List Event → Reply
  run job s [] = (s, [])
  run job s (event ∷ events) =
      let (s', out) = step job s event in let (s'', rest) = run job s' events in (s'', out ++ rest)

abbrev pub start : Job → List Bytes → Sender
start job chunks = record {
  phase = attempts job.retry_limit;
  pending = lookahead chunks;
  pending_exhausted = false;
  window = [];
  next_seq = 0;
  last_acked = none;
  timeout_count = 0;
  transferred_bytes = 0;
}

-- The whole call: a window of no packets is refused, then the loops run.
unfoldable pub send_chunks_rdt : (Bytes → ℕ) → Job → List Bytes → List Event → Reply
send_chunks_rdt crc32 job chunks events =
    if ltb job.window_size 1
    then raise (start job chunks) value_error
    else run crc32 job (start job chunks) events
