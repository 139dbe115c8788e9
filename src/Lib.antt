-- ===== src/Lib.antt =====
-- Hybrid FTP: a server and a client that speak FTP over a TCP control connection and move the data
-- over UDP by a reliable transport of their own (Go-Back-N).
--
-- Parts and files:
-- Prelude: the names, tests, list functions, results and texts that all parts share. `Error` has a
--   constructor for each kind of exception that the code raises.
-- Rdt/Header: common/RDTHeader.py. `serialize`, `deserialize`, `validate_length`,
--   `compute_checksum` and `verify_checksum` keep their names. A byte is a number; `struct.pack`
--   out of range is `struct_error`. `sealed` is how the code makes every packet.
-- Rdt/Context: common/rdt_context.py, the metadata of START and the id on the wire.
-- Rdt/Network: what a loop sees of its socket and of its caller, one `Event` for each round.
-- Rdt/Receiver: common/rdt_receiver.py. The generator `receive_chunks_rdt` is the record
--   `Receiver` of its local variables and `step`, one round of its loop or of the loop of
--   `_fin_grace`; `run` folds it over the events, and the outputs are what it sends, reports and
--   yields, in the order of the code.
-- Rdt/Sender: common/rdt_sender.py. `send_chunks_rdt` in the same form: a phase says whether the
--   call is in `_send_start_with_ack`, in the loop of the window, returned or raised. The dict
--   `window` is a list of slots in the order of insertion.
-- Rdt/Protocol: both sides over one network. `Reach` is the relation of the rounds, in any order.
-- Codec/Source: an iterator of bytes is what it yields and how it ends, so a generator is a function
--   from sources to a source; `fill` is the nested `read` and `fill` of common/mode_codec.py.
-- Codec/Block: `_block_packet`, `block_encode` and `block_decode` of common/mode_codec.py.
-- Codec/Compressed: `compressed_encode` and `compressed_decode` of common/mode_codec.py; a turn of a
--   loop is a function of the rest of the loop.
-- Codec/Chunks: `normalize_mode`, `compressed_filler_byte`, `encode_chunks` and `decode_chunks`.
-- Codec/Wire: `_batch_wire` of common/mode_codec.py. The wire bytes then go to the transport as its
--   chunks, and what the transport yields goes to the decoder.
-- Control/Parser, Control/Session, Control/Replies: server/command_parser.py, server/session.py,
--   server/ftp_reply.py. A text is a list of code points.
-- Control/Files: what the commands use of common/filesystem_service.py, a record of operations with
--   two laws.
-- Control/Handler: server/command_handler.py, a function for each command from the session, the
--   disk and the counter of transfers to the record `Handled`; `handle` chooses among them.
-- Control/Connection: server/client_handler.py. `receive` is a turn of the loop of `run` on what
--   `recv` returns, `drain` the loop over the lines of the buffer, and `on_line` a turn of it.
-- Storage/System: the calls of `os`, `os.path`, `time` and `hashlib`, a record of parameters with the
--   law that a resolved path resolves to itself. The separator is `/`, and no call of `os.path`
--   raises.
-- Storage/Paths, Storage/Directories: common/dir_manager.py, and the reading of files of
--   common/file_handler.py.
-- Storage/Service: common/filesystem_service.py, but the uploads and the locks. `size`, `hash`,
--   `make_directory` and `remove_directory` are `file_size`, `file_hash`, `create_directory` and
--   `drop_directory`.
-- Storage/Filled: the service fills the record of Control/Files, so what is said of all such records
--   is said of it.
-- Manager/Probe, Manager/Lifecycle: server/transfer_manager.py, the wait for the client of a download
--   in passive mode, and what stands around the body of every transfer; the probe of
--   client/ftp_client.py. `max_timeouts` is the fuel of the wait, as in the code.
-- Client/Replies: `_recv_line`, `_recv_reply` and `_recv_listing_reply` of client/ftp_client.py. The
--   loop over the lines runs on one more than the bytes that are still to come.
-- Client/Address: common/rdt_utils.py.
--
-- The network may lose, repeat, reorder, delay and damage datagrams; that none is forged is a
-- hypothesis of the theorems that need it, on the datagrams that pass every test of the code.
-- The loops of the codecs run on fuel, one more than the bytes that they are given, and every turn
-- takes a byte off; that it is enough is part of the theorems on them.
-- The loops of the transport take the list of events as their fuel: the code has no bound of its own
-- but the timeouts, and the limit that they put on a silent network is a theorem.
-- The loop of the control connection runs on fuel, one more than the bytes of the buffer, and every
-- line takes at least two off; it takes the list of what `recv` returns.
-- The chunks of a file are at most as many as its bytes, which is the fuel of their loop.
--
-- Not modelled: `zlib.crc32` and `hexdigest` of `hashlib` are parameters; the addresses are those
-- behind `gethostbyname`; the truncation of a datagram by `recvfrom` and an `OSError` of `sendto` in
-- the window loop; the printed messages and the logs. Threads are modelled by what they start with
-- and what they reply at the end; the clock, `datetime` and UTF-8 are parameters. The uploads and the
-- locks of common/filesystem_service.py, the bodies of the transfers in server/transfer_manager.py,
-- the registry of server/threaded_server.py, the transfers of client/ftp_client.py and the display
-- of the command line are not part of it.
pub mod Prelude
pub mod Rdt
pub mod Codec
pub mod Control
pub mod Storage
pub mod Manager
pub mod Client
